-- ===== src/Validation/Seen.antt =====
-- Loops that keep the names they have met in a map `seen`.
use kubernaut_operator.Base.{
  String, ◌≡◌, refl, ◌≢◌, ◌↔◌, Bool, Bool-cases, true, false, inl, inr, if◌then◌else◌, Option, none,
  some, List, [], ◌∷◌, All, contains,
}
use kubernaut_operator.Kube.Op.{Error}
use kubernaut_operator.Validation.Checks.{◌+++◌, ◌&◌}
use kubernaut_operator.Validation.Accept.{◌⊗◌, or_false, differs}

-- `seen[name] = ...`, where there is a name
abbrev pub add : Option String → List String → List String
add none seen = seen
add (some name) seen = name ∷ seen

-- No name stands twice.
abbrev pub Distinct : List String → Type 0
Distinct [] = Unit
Distinct (x ∷ xs) = All (λ y. x ≢ y) xs × Distinct xs

-- The name is new, where there is one.
abbrev pub New : List String → Option String → Type 0
New seen none = Unit
New seen (some name) = contains seen name ≡ false

Fresh : List String → List String → Type 0
Fresh seen [] = Unit
Fresh seen (x ∷ xs) = (contains seen x ≡ false) × Fresh (x ∷ seen) xs

contains_cons :
    (x y : String) (seen : List String)
    → (contains (x ∷ seen) y ≡ false) ↔ ((x ≢ y) & (contains seen y ≡ false))
unfolding contains
contains_cons x y seen = or_false (differs x y) (λ h. h, λ h. h)

both_parts :
    {P Q R : String → Type 0}
    → ((x : String) → R x ↔ (P x & Q x))
    → (xs : List String) → All R xs ↔ (All P xs × All Q xs)
both_parts f [] = (λ h. (tt, tt), λ h. tt)
both_parts f (x ∷ xs) =
    let rest = both_parts f xs in
    (
      λ h. let (p, q) = (f x).0 h.0 in let (ps, qs) = rest.0 h.1 in ((p, ps), (q, qs)),
      λ h. ((f x).1 (h.0.0, h.1.0), rest.1 (h.0.1, h.1.1)),
    )

unseen_iff :
    (seen xs : List String) → Fresh seen xs ↔ (All (λ x. contains seen x ≡ false) xs × Distinct xs)
unfolding Fresh
unseen_iff seen [] = (λ h. (tt, tt), λ h. tt)
unseen_iff seen (x ∷ xs) =
    let rest = unseen_iff (x ∷ seen) xs in
    let split = both_parts (λ y. contains_cons x y seen) xs in
    (
      λ h. let (a, d) = rest.0 h.1 in let (n, c) = split.0 a in ((h.0, c), (n, d)),
      λ h. (h.0.0, rest.1 (split.1 (h.1.0, h.0.1), h.1.1)),
    )

none_seen : (xs : List String) → All (λ x. contains [] x ≡ false) xs
unfolding contains
none_seen [] = tt
none_seen (x ∷ xs) = (refl, none_seen xs)

unseen_add :
    (seen xs : List String) (o : Option String)
    → Fresh seen (add o xs) ↔ (New seen o × Fresh (add o seen) xs)
unfolding Fresh
unseen_add seen xs none = (λ h. (tt, h), λ h. h.1)
unseen_add seen xs (some x) = (λ h. h, λ h. h)

-- `if wrong { return e }`, `if seen[name] { return f }`, `seen[name] = ...`
unfoldable pub add_new : Bool → Error → Error → List String → String → List Error × List String
add_new wrong e f seen name =
    if wrong
    then (e ∷ [], seen)
    else if contains seen name
    then (f ∷ [], seen)
    else ([], name ∷ seen)

pub add_new_accepts :
    {wrong : Bool} {P : Type 0} (e f : Error) (seen : List String) (name : String)
    → (wrong ≡ false) ↔ P
    → ((add_new wrong e f seen name).0 ≡ []) ↔ (P & (contains seen name ≡ false))
unfolding add_new
add_new_accepts {wrong = true} e f seen name p =
    (λ h. cc, λ h. absurd (let x : true ≡ false = p.1 h.0 in cc))
add_new_accepts {wrong = false} e f seen name p = elim (Bool-cases (contains seen name)) [
  | inl c ↦ rw c (λ h. cc, λ h. absurd (let x : true ≡ false = h.1 in cc))
  | inr c ↦ rw c (λ h. (p.0 refl, refl), λ h. refl)
]

pub add_new_adds :
    (wrong : Bool) (e f : Error) (seen : List String) (name : String)
    → (add_new wrong e f seen name).0 ≡ []
    → (add_new wrong e f seen name).1 ≡ name ∷ seen
unfolding add_new
add_new_adds true e f seen name = λ h. cc
add_new_adds false e f seen name = elim (Bool-cases (contains seen name)) [
  | inl c ↦ rw c (λ h. cc)
  | inr c ↦ rw c (λ h. refl)
]

module _ {A : Type 0} (key : A → Option String) where
  -- The names of the entries, in their order.
  abbrev pub keys : List A → List String
  keys [] = []
  keys (x ∷ xs) = add (key x) (keys xs)

module _ {A : Type 0} (step : List String → A → List Error × List String) where
  -- `for _, x := range xs { errs = append(errs, step(seen, x)...) }`
  unfoldable pub loop : List String → List A → List Error
  loop seen [] = []
  loop seen (x ∷ xs) = (step seen x).0 +++ loop (step seen x).1 xs

module _ {A : Type 0} (key : A → Option String) {P : A → Type 0}
    {step : List String → A → List Error × List String}
    (accepts : (seen : List String) (x : A) → ((step seen x).0 ≡ []) ↔ (P x & New seen (key x)))
    (adds : (seen : List String) (x : A)
      → (step seen x).0 ≡ []
      → (step seen x).1 ≡ add (key x) seen) where
  loop_unseen :
      (seen : List String) (xs : List A)
      → (loop step seen xs ≡ []) ↔ (All P xs & Fresh seen (keys key xs))
  unfolding loop Fresh
  loop_unseen seen [] = (λ h. (tt, tt), λ h. refl)
  loop_unseen seen (x ∷ xs) =
      let rest = loop_unseen (add (key x) seen) xs in
      let split = unseen_add seen (keys key xs) (key x) in
      let both = (λ h. h, λ h. h) ⊗ (λ h. h, λ h. h) in
      (
        λ h.
            let (here, after) = both.0 h in
            let (p, new) = (accepts seen x).0 here in
            let (ps, fresh) = rest.0 (rw (adds seen x here) at after) in
            ((p, ps), split.1 (new, fresh)),
        λ h.
            let (new, fresh) = split.0 h.1 in
            let here = (accepts seen x).1 (h.0.0, new) in
            both.1 (here, rw (adds seen x here) (rest.1 (h.0.1, fresh))),
      )

  -- A loop that starts with no names reports nothing exactly if every entry is right and no name
  -- stands twice.
  pub loop_iff : (xs : List A) → (loop step [] xs ≡ []) ↔ (All P xs & Distinct (keys key xs))
  loop_iff xs =
      let whole = loop_unseen [] xs in
      let fresh = unseen_iff [] (keys key xs) in
      (
        λ h. let (p, f) = whole.0 h in (p, (fresh.0 f).1),
        λ h. whole.1 (h.0, fresh.1 (none_seen (keys key xs), h.1)),
      )
