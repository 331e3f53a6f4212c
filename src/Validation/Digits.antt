-- ===== src/Validation/Digits.antt =====
-- Texts of ASCII digits (allASCIIDigits of internal/resources/validation.go).
use Prim.Native.Nat.{ℕ, ◌≤◌}
use Prim.Native.Char.{code}
use Prim.Native.String.{String, [], ◌∷◌}
use mathlib.Core.Path.{◌≡◌, refl}
use mathlib.Core.Logic.{◌↔◌, ◌≢◌}
use mathlib.Core.Bool.{Bool, true, false, ◌||◌}
use native.Mathlib.Omega.{arith}
use kubernaut_operator.Base.{ltb, if◌then◌else◌, Bool-cases, inl, inr}
use kubernaut_operator.Validation.Accept.{or_false}

-- The loop, over the characters that are left
unfoldable pub only_digits : String → Bool
only_digits [] = true
only_digits (c ∷ value) =
    let rest = only_digits value in if ltb (code c) 48 || ltb 57 (code c) then false else rest

-- allASCIIDigits
unfoldable pub all_ascii_digits : String → Bool
all_ascii_digits [] = false
all_ascii_digits (c ∷ value) = only_digits (c ∷ value)

-- Every character is one of '0' to '9'.
abbrev pub AreDigits : String → Type 0
AreDigits [] = Unit
AreDigits (c ∷ value) = ((48 ≤ code c) × (code c ≤ 57)) × AreDigits value

not_below : (m n : ℕ) → (ltb m n ≡ false) ↔ (n ≤ m)
not_below m n = (λ h. ground arith, λ h. ground arith)

only_digits_iff : (value : String) → (only_digits value ≡ true) ↔ AreDigits value
unfolding only_digits
only_digits_iff [] = (λ h. tt, λ h. refl)
only_digits_iff (c ∷ value) =
    let rest = only_digits_iff value in
    let digit = or_false (not_below (code c) 48) (not_below 57 (code c)) in
    elim (Bool-cases (ltb (code c) 48 || ltb 57 (code c))) [
      | inl e ↦ rw e (λ h. cc, λ h. absurd (let x : true ≡ false = rw e at (digit.1 h.0) in cc))
      | inr e ↦ rw e (λ h. (digit.0 e, rest.0 h), λ h. rest.1 h.1)
    ]

pub all_digits_iff :
    (value : String) → (all_ascii_digits value ≡ true) ↔ ((value ≢ "") × AreDigits value)
unfolding all_ascii_digits
all_digits_iff [] = (λ h. cc, λ h. absurd (h.0 refl))
all_digits_iff (c ∷ value) =
    let digits = only_digits_iff (c ∷ value) in (λ h. (λ e. cc, digits.0 h), λ h. digits.1 h.1)
