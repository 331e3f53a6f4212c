-- ===== src/Precreated/Values.antt =====
-- What a value has to be like (validatePrecreatedSecretKeys and validatePrecreatedConfigMapValue of
-- internal/controller/kubernaut_controller.go).
use Prim.Native.Char.{code}
use kubernaut_operator.Base.{
  ℕ, String, ◌≡◌, ◌≢◌, ◌↔◌, ◌⊎◌, refl, true, false, List, [], ◌∷◌, nat_eqb, arith,
}
use kubernaut_operator.Validation.Accept.{or_false, or_true, is_true}
use kubernaut_operator.Validation.Checks.{◌&◌}
use kubernaut_operator.Precreated.Keys.{KeyMaterial, has_line_break, declares_package}

-- No character is a line feed or a carriage return.
abbrev pub IsOneLine : String → Type 0
IsOneLine String.[] = Unit
IsOneLine (String.◌∷◌ ch value) = ((code ch ≢ 10) & (code ch ≢ 13)) & IsOneLine value

pub differs_number : (n m : ℕ) → (nat_eqb n m ≡ false) ↔ (n ≢ m)
differs_number n m = (λ h e. ground arith, λ h. ground arith)

pub line_breaks_iff : (value : String) → (has_line_break value ≡ false) ↔ IsOneLine value
unfolding has_line_break
line_breaks_iff String.[] = (λ h. tt, λ h. refl)
line_breaks_iff (String.◌∷◌ ch value) =
    or_false (or_false (differs_number (code ch) 10) (differs_number (code ch) 13))
      (line_breaks_iff value)

module _ (go : KeyMaterial) where
  -- Some line starts with the word `package`, blanks before it left out.
  abbrev pub HasPackage : List String → Type 0
  HasPackage [] = ⊥
  HasPackage (line ∷ lines) =
      (go.has_prefix (go.trim_space line) "package " ≡ true) ⊎ HasPackage lines

  pub package_iff : (lines : List String) → (declares_package go lines ≡ true) ↔ HasPackage lines
  package_iff [] = (λ h. cc, λ h. absurd h)
  package_iff (line ∷ lines) = or_true (is_true _) (package_iff lines)
