-- ===== src/Kube/Op.antt =====
-- Errors as values, and operations on a state that may fail. What was written before a failure
-- stays written, so the state comes back beside the error.
use kubernaut_operator.Base.{
  ◌≡◌, refl, ap, ◌⊎◌, inl, inr, String, Bool, true, false, ◌||◌, List, [], ◌∷◌,
}

-- Why an existing object is not the operator's (the texts of `ErrOwnershipConflict`); `sentinel` is
-- that error alone.
pub data Conflict : Type 0 where
  terminating namespace_differs uid_lacks_namespace label_differs invalid_scope foreign_owner
        uid_contradicts no_ownership sentinel :
      Conflict

-- A Go error. `wrapped` is `%w` behind a text; `both` is `errors.Join`, and `%w: %w`.
pub data Error : Type 0 where
  not_found already_exists version_conflict no_match : Error
  api : String → Error
  ownership : Conflict → Error
  message : String → Error
  wrapped : String → Error → Error
  both : Error → Error → Error

-- apierrors.IsNotFound
abbrev pub is_not_found : Error → Bool
is_not_found not_found = true
is_not_found (wrapped t e) = is_not_found e
is_not_found (both e f) = let rest = is_not_found f in is_not_found e || rest
is_not_found _ = false

-- meta.IsNoMatchError
abbrev pub is_no_match : Error → Bool
is_no_match no_match = true
is_no_match (wrapped t e) = is_no_match e
is_no_match (both e f) = let rest = is_no_match f in is_no_match e || rest
is_no_match _ = false

-- apierrors.IsAlreadyExists
abbrev pub is_already_exists : Error → Bool
is_already_exists already_exists = true
is_already_exists (wrapped t e) = is_already_exists e
is_already_exists (both e f) = let rest = is_already_exists f in is_already_exists e || rest
is_already_exists _ = false

-- errors.Is(err, resources.ErrOwnershipConflict)
abbrev pub is_ownership_conflict : Error → Bool
is_ownership_conflict (ownership c) = true
is_ownership_conflict (wrapped t e) = is_ownership_conflict e
is_ownership_conflict (both e f) =
    let rest = is_ownership_conflict f in is_ownership_conflict e || rest
is_ownership_conflict _ = false

pub data Result {ℓ} (A : Type ℓ) : Type ℓ where
  ok : A → Result A
  err : Error → Result A

-- To split on the result of a call and keep the equation.
pub Result-cases {ℓ} :
    {A : Type ℓ} (r : Result A) → ((a : A) × (r ≡ ok a)) ⊎ ((e : Error) × (r ≡ err e))
Result-cases (ok a) = inl (a, refl)
Result-cases (err e) = inr (e, refl)

-- `if err := ...; err != nil { return err }` of a function without a state.
abbrev pub bind {ℓ} : {A B : Type ℓ} → Result A → (A → Result B) → Result B
bind (ok a) f = f a
bind (err e) f = err e

abbrev pub Op {ℓ} : Type ℓ → Type ℓ → Type ℓ
Op S A = S → Result A × S

abbrev pub rewrap {ℓ} : {A : Type ℓ} → String → Result A → Result A
rewrap t (ok a) = ok a
rewrap t (err e) = err (wrapped t e)

module _ {ℓ} {S A : Type ℓ} where
  abbrev pub pure : A → Op S A
  pure a s = (ok a, s)

  abbrev pub fail : Error → Op S A
  fail e s = (err e, s)

  abbrev pub lift : Result A → Op S A
  lift r s = (r, s)

  abbrev pub gets : (S → A) → Op S A
  gets f s = (ok (f s), s)

  -- `x, err := m` with the error in hand.
  abbrev pub attempt : Op S A → Op S (Result A)
  attempt m s = let (r, s') = m s in (ok r, s')

  -- `if err := m; err != nil { return fmt.Errorf("text: %w", err) }`
  abbrev pub wrap : String → Op S A → Op S A
  wrap t m s = let (r, s') = m s in (rewrap t r, s')

abbrev pub modify : {S : Type 0} → (S → S) → Op S (Unit {0})
modify f s = (ok tt, f s)

module _ {ℓ} {S A B : Type ℓ} where
  abbrev pub continue : Result A → (A → Op S B) → Op S B
  continue (ok a) f s = f a s
  continue (err e) f s = (err e, s)

  infixl 5 ◌>>=◌ ◌>>◌
  abbrev pub ◌>>=◌ : Op S A → (A → Op S B) → Op S B
  ◌>>=◌ m f s = continue (m s).0 f (m s).1

  abbrev pub ◌>>◌ : Op S A → Op S B → Op S B
  m >> k = m >>= λ _. k

-- `errors.Join(errs...)`; nil for no error.
abbrev pub join : List Error → Result (Unit {0})
join [] = ok tt
join (e ∷ []) = err e
join (e ∷ f ∷ es) = elim (join (f ∷ es)) [ ok u ↦ err e | err g ↦ err (both e g) ]

-- A sequence that succeeds: the first part succeeded, and so did the rest from where it left off.
pub bind_succeeds :
    {S A B : Type 0} (m : Op S A) (k : A → Op S B) (s : S) {b : B}
    → ((m >>= k) s).0 ≡ ok b
    → (a : A) × (t : S) × (m s ≡ (ok a, t)) × ((k a t).0 ≡ ok b)
bind_succeeds m k s h = elim (Result-cases (m s).0) [
  | inl (a, e) ↦ (a, (m s).1, cc e, rw e at h)
  | inr (x, e) ↦ let failed : err x ≡ ok _ = rw e at h in cc
]

rewrap_succeeds : {A : Type 0} (t : String) (r : Result A) {a : A} → rewrap t r ≡ ok a → r ≡ ok a
rewrap_succeeds t (ok a) h = h
rewrap_succeeds t (err e) h = cc

pub wrap_succeeds :
    {S A : Type 0} (t : String) (m : Op S A) (s s' : S) {a : A}
    → wrap t m s ≡ (ok a, s')
    → m s ≡ (ok a, s')
wrap_succeeds t m s s' h =
    let first = rewrap_succeeds t (m s).0 (ap (λ p. p.0) h) in
    let second : (m s).1 ≡ s' = ap (λ p. p.1) h in cc (first, second)

-- An answer behind an operation does not change what it left.
pub then_state : {S A B : Type 0} (m : Op S A) (b : B) (s : S) → ((m >> pure b) s).1 ≡ (m s).1
then_state m b s = elim (Result-cases (m s).0) [ inl (a, e) ↦ rw e refl | inr (x, e) ↦ rw e refl ]

pub bind_continues :
    {S A B : Type 0} (m : Op S A) (k : A → Op S B) (s t : S) (a : A)
    → m s ≡ (ok a, t)
    → (m >>= k) s ≡ k a t
bind_continues m k s t a e = rw e refl
