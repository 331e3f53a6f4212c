-- ===== src/AuditKey/Names.antt =====
-- The characters of a key name and the bytes of a key (internal/resources/audit_hmac.go).
use Prim.Native.Char.{code}
use Prim.Native.String.{String, [], ◌∷◌}
use kubernaut_operator.Base.{ℕ, Bool, true, ◌&&◌, ◌||◌, ◌+◌, nat_eqb, leb, ltb, if◌then◌else◌}

abbrev within : ℕ → ℕ → ℕ → Bool
within low high n = leb low n && leb n high

-- The loop of validateDataStorageAuditHashKeyName: letters, digits, and `.`, `_`, `-`.
unfoldable pub name_characters : String → Bool
name_characters [] = true
name_characters (ch ∷ rest) =
    (within 97 122 (code ch)
      || within 65 90 (code ch)
      || within 48 57 (code ch)
      || nat_eqb (code ch) 46
      || nat_eqb (code ch) 95
      || nat_eqb (code ch) 45)
    && name_characters rest

abbrev utf8_width : ℕ → ℕ
utf8_width n = if ltb n 128 then 1 else if ltb n 2048 then 2 else if ltb n 65536 then 3 else 4

-- `len([]byte(value))`
unfoldable pub byte_count : String → ℕ
byte_count [] = 0
byte_count (ch ∷ rest) = utf8_width (code ch) + byte_count rest
