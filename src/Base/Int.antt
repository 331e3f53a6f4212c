-- ===== src/Base/Int.antt =====
-- Go's `int`, whose values the modelled code only compares with constants.
use Prim.Native.Nat.{ℕ, ◌≤◌}
use mathlib.Core.Path.{◌≡◌, refl}
use mathlib.Core.Logic.{◌↔◌}
use mathlib.Core.Bool.{Bool, true, false, not}
use native.Mathlib.Omega.{arith}
use kubernaut_operator.Base.Tests.{leb}

pub data ℤ : Type 0 where
  pos negsuc : ℕ → ℤ

-- `n <= value` and `value <= n`, of a constant that is not negative
abbrev pub at_least : ℕ → ℤ → Bool
at_least n (pos value) = leb n value
at_least n (negsuc value) = false

abbrev pub at_most : ℕ → ℤ → Bool
at_most n (pos value) = leb value n
at_most n (negsuc value) = true

abbrev pub IsAtLeast : ℕ → ℤ → Type 0
IsAtLeast n (pos value) = n ≤ value
IsAtLeast n (negsuc value) = ⊥

abbrev pub IsAtMost : ℕ → ℤ → Type 0
IsAtMost n (pos value) = value ≤ n
IsAtMost n (negsuc value) = Unit

pub at_least_iff : (n : ℕ) (z : ℤ) → (not (at_least n z) ≡ false) ↔ IsAtLeast n z
at_least_iff n (pos value) = (λ h. ground arith, λ h. ground arith)
at_least_iff n (negsuc value) = (λ h. cc, λ h. absurd h)

pub at_most_iff : (n : ℕ) (z : ℤ) → (not (at_most n z) ≡ false) ↔ IsAtMost n z
at_most_iff n (pos value) = (λ h. ground arith, λ h. ground arith)
at_most_iff n (negsuc value) = (λ h. tt, λ h. refl)
