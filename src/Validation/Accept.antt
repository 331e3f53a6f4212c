-- ===== src/Validation/Accept.antt =====
-- When the lists of errors that the validations make are empty.
use kubernaut_operator.Base.{
  ℕ, ltb, ◌≤◌, String, ◌⊎◌, inl, inr, ◌≡◌, refl, ◌≢◌, ◌↔◌, Bool, true, false, not, ◌&&◌, ◌||◌,
  Option, none, some, List, [], ◌∷◌, All, ◌==◌, eq_iff, arith, if◌then◌else◌,
}
use kubernaut_operator.Kube.Op.{Error}
use kubernaut_operator.Validation.Checks.{
  first_of, and_then, report, only, ◌+++◌, ◌&◌, to_list, first, when_given, for_each, Given, fails,
  Parses, unless,
}

-- Texts and Boolean connectives
pub is_true : (b : Bool) → (b ≡ true) ↔ (b ≡ true)
is_true b = (λ h. h, λ h. h)

pub is_false : (b : Bool) → (b ≡ false) ↔ (b ≡ false)
is_false b = (λ h. h, λ h. h)

pub same : (x y : String) → (x == y ≡ true) ↔ (x ≡ y)
same x y = eq_iff x y

pub differs : (x y : String) → (x == y ≡ false) ↔ (x ≢ y)
differs x y = (λ h e. ground (arith, eq_iff x y), λ n. ground (arith, eq_iff x y))

pub same_not : (x y : String) → (not (x == y) ≡ false) ↔ (x ≡ y)
same_not x y = (λ h. ground (arith, eq_iff x y), λ n. ground (arith, eq_iff x y))

pub differs_not : (x y : String) → (not (x == y) ≡ true) ↔ (x ≢ y)
differs_not x y = (λ h e. ground (arith, eq_iff x y), λ n. ground (arith, eq_iff x y))

module _ {P : Type 0} where
  pub flip_false : {b : Bool} → (b ≡ true) ↔ P → (not b ≡ false) ↔ P
  flip_false {b = true} f = (λ h. f.0 refl, λ p. refl)
  flip_false {b = false} f = (λ h. cc, λ p. absurd (let h : false ≡ true = f.1 p in cc))

  pub flip_true : {b : Bool} → (b ≡ false) ↔ P → (not b ≡ true) ↔ P
  flip_true {b = true} f = (λ h. cc, λ p. absurd (let h : true ≡ false = f.1 p in cc))
  flip_true {b = false} f = (λ h. f.0 refl, λ p. refl)

  pub report_iff : {b : Bool} (e : Error) → (b ≡ false) ↔ P → (report b e ≡ []) ↔ P
  unfolding report
  report_iff {b = true} e f = (λ h. cc, λ p. absurd (let h : true ≡ false = f.1 p in cc))
  report_iff {b = false} e f = (λ h. f.0 refl, λ p. refl)

  pub last_iff : {b : Bool} (e : Error) → (b ≡ false) ↔ P → (first b e none ≡ none) ↔ P
  unfolding first
  last_iff {b = true} e f = (λ h. cc, λ p. absurd (let h : true ≡ false = f.1 p in cc))
  last_iff {b = false} e f = (λ h. f.0 refl, λ p. refl)

  pub to_list_iff : {o : Option Error} → (o ≡ none) ↔ P → (to_list o ≡ []) ↔ P
  unfolding to_list
  to_list_iff {o = none} f = (λ h. f.0 refl, λ p. refl)
  to_list_iff {o = some e} f = (λ h. cc, λ p. absurd (let h : some e ≡ none = f.1 p in cc))

module _ {P Q : Type 0} where
  pub or_false : {a b : Bool} → (a ≡ false) ↔ P → (b ≡ false) ↔ Q → (a || b ≡ false) ↔ (P & Q)
  or_false {a = true} f g = (λ h. cc, λ p. f.1 p.0)
  or_false {a = false} f g = (λ h. (f.0 refl, g.0 h), λ p. g.1 p.1)

  pub and_false : {a b : Bool} → (a ≡ true) ↔ P → (b ≡ false) ↔ Q → (a && b ≡ false) ↔ (P → Q)
  and_false {a = true} f g = (λ h p. g.0 h, λ h. g.1 (h (f.0 refl)))
  and_false {a = false} f g = (λ h p. absurd (let e : false ≡ true = f.1 p in cc), λ h. refl)

  pub or_true : {a b : Bool} → (a ≡ true) ↔ P → (b ≡ true) ↔ Q → (a || b ≡ true) ↔ (P ⊎ Q)
  or_true {a = true} f g = (λ h. inl (f.0 refl), λ p. refl)
  or_true {a = false} f g = (
    λ h. inr (g.0 h),
    elim [ inl p ↦ absurd (let e : false ≡ true = f.1 p in cc) | inr q ↦ g.1 q ],
  )

  pub and_true : {a b : Bool} → (a ≡ true) ↔ P → (b ≡ true) ↔ Q → (a && b ≡ true) ↔ (P & Q)
  and_true {a = true} f g = (λ h. (f.0 refl, g.0 h), λ p. g.1 p.1)
  and_true {a = false} f g = (λ h. cc, λ p. f.1 p.0)

module _ {A : Type 0} {P : A → Type 0} {f : A → Bool} where
  pub fails_iff :
      (o : Option A) → ((a : A) → (f a ≡ false) ↔ P a) → (fails o f ≡ false) ↔ Parses P o
  unfolding fails
  fails_iff none h = (λ e. cc, λ p. absurd p)
  fails_iff (some a) h = h a

-- Lists of errors
module _ {P Q : Type 0} where
  infixl 2 ◌⊗◌
  pub ◌⊗◌ : {xs ys : List Error} → (xs ≡ []) ↔ P → (ys ≡ []) ↔ Q → (xs +++ ys ≡ []) ↔ (P & Q)
  unfolding ◌+++◌
  ◌⊗◌ {xs = []} f g = (λ h. (f.0 refl, g.0 h), λ p. g.1 p.1)
  ◌⊗◌ {xs = x ∷ xs} f g = (λ h. cc, λ p. absurd (let h : x ∷ xs ≡ [] = f.1 p.0 in cc))

  pub only_iff :
      {b : Bool} {xs : List Error} → (b ≡ true) ↔ P → (xs ≡ []) ↔ Q → (only b xs ≡ []) ↔ (P → Q)
  unfolding only
  only_iff {b = true} f g = (λ h p. g.0 h, λ h. g.1 (h (f.0 refl)))
  only_iff {b = false} f g = (λ h p. absurd (let e : false ≡ true = f.1 p in cc), λ h. refl)

  pub unless_iff :
      {b : Bool} {xs : List Error} → (b ≡ false) ↔ P → (xs ≡ []) ↔ Q → (unless b xs ≡ []) ↔ (P → Q)
  unfolding unless
  unless_iff {b = true} f g = (λ h p. absurd (let e : true ≡ false = f.1 p in cc), λ h. refl)
  unless_iff {b = false} f g = (λ h p. g.0 h, λ h. g.1 (h (f.0 refl)))

  pub first_iff :
      {b : Bool} (e : Error) {next : Option Error}
      → (b ≡ false) ↔ P
      → (next ≡ none) ↔ Q
      → (first b e next ≡ none) ↔ (P & Q)
  unfolding first
  first_iff {b = true} e f g = (λ h. cc, λ p. absurd (let h : true ≡ false = f.1 p.0 in cc))
  first_iff {b = false} e f g = (λ h. (f.0 refl, g.0 h), λ p. g.1 p.1)

module _ {A : Type 0} {P : A → Type 0} {f : A → List Error} where
  pub optional_iff :
      (o : Option A) → ((a : A) → (f a ≡ []) ↔ P a) → (when_given o f ≡ []) ↔ Given P o
  unfolding when_given
  optional_iff none h = (λ e. tt, λ p. refl)
  optional_iff (some a) h = h a

  pub each_iff : (xs : List A) → ((a : A) → (f a ≡ []) ↔ P a) → (for_each f xs ≡ []) ↔ All P xs
  unfolding for_each
  each_iff [] h = (λ e. tt, λ p. refl)
  each_iff (x ∷ xs) h = h x ⊗ each_iff xs h

-- Two branches
pub branch_iff :
    {b : Bool} (xs ys : List Error) {C D P Q : Type 0}
    → (b ≡ true) ↔ C
    → (b ≡ false) ↔ D
    → (xs ≡ []) ↔ P
    → (ys ≡ []) ↔ Q
    → ((if b then xs else ys) ≡ []) ↔ ((C → P) & (D → Q))
branch_iff {b = true} xs ys c d p q =
    (λ h. (λ x. p.0 h, λ x. absurd (let e : true ≡ false = d.1 x in cc)), λ h. p.1 (h.0 (c.0 refl)))
branch_iff {b = false} xs ys c d p q =
    (λ h. (λ x. absurd (let e : false ≡ true = c.1 x in cc), λ x. q.0 h), λ h. q.1 (h.1 (d.0 refl)))

-- Checks that stop at the first error
pub and_then_iff :
    (e f : Option Error) {P Q : Type 0}
    → (e ≡ none) ↔ P
    → (f ≡ none) ↔ Q
    → (and_then e f ≡ none) ↔ (P & Q)
and_then_iff none f p q = (λ h. (p.0 refl, q.0 h), λ h. q.1 h.1)
and_then_iff (some e) f p q = (λ h. cc, λ h. absurd (let x : some e ≡ none = p.1 h.0 in cc))

module _ {A : Type 0} {P : A → Type 0} {f : A → Option Error} where
  pub first_of_iff :
      (xs : List A) → ((a : A) → (f a ≡ none) ↔ P a) → (first_of f xs ≡ none) ↔ All P xs
  unfolding first_of
  first_of_iff [] h = (λ e. tt, λ p. refl)
  first_of_iff (x ∷ xs) h =
      let both = and_then_iff (f x) (first_of f xs) (h x) (first_of_iff xs h) in
      (λ e. let (p, ps) = both.0 e in (p, ps), λ p. both.1 (p.0, p.1))

-- A bound on a number, written `n > m` in the code
pub not_above : (m n : ℕ) → (ltb m n ≡ false) ↔ (n ≤ m)
not_above m n = (λ h. ground arith, λ h. ground arith)
