-- ===== src/Policy/Components.antt =====
-- The components of an intent (BuildIntent of internal/policy/intent.go).
use kubernaut_operator.Base.{
  String, ◌≡◌, ◌≢◌, ◌↔◌, inl, inr, refl, sym, ◌∙◌, Bool, Bool-cases, true, false, ◌||◌, List, [],
  ◌∷◌, ◌==◌, contains, is_empty, eq_iff, leb_text, leb_text_total, All,
}
use mathlib.Core.Path.{subst}
use kubernaut_operator.Kube.Op.{ok, err}
use kubernaut_operator.Validation.Accept.{differs, or_false, is_false}
use kubernaut_operator.Validation.Seen.{Distinct}
use kubernaut_operator.Policy.Intent.{
  Intent, new_intent, insert_sorted, sort_strings, unique, build_intent,
}

-- The entries stand in order.
abbrev pub Below : String → List String → Type 0
Below x [] = Unit
Below x (y ∷ ys) = leb_text x y ≡ true

abbrev pub Sorted : List String → Type 0
Sorted [] = Unit
Sorted (x ∷ xs) = Below x xs × Sorted xs

abbrev pub IsApartFrom : String → List String → Type 0
IsApartFrom x = All λ y. x ≢ y

rest_in_order :
    (y x : String) (ys : List String)
    → leb_text y x ≡ true
    → Below y ys
    → Below y (insert_sorted x ys)
unfolding insert_sorted
rest_in_order y x [] h b = h
rest_in_order y x (z ∷ zs) h b = elim (Bool-cases (leb_text x z)) [
  | inl e ↦ rw e h
  | inr e ↦ rw e b
]

insert_in_order : (x : String) (xs : List String) → Sorted xs → Sorted (insert_sorted x xs)
unfolding insert_sorted
insert_in_order x [] s = (tt, tt)
insert_in_order x (y ∷ ys) s = elim (Bool-cases (leb_text x y)) [
  | inl e ↦ rw e (e, s)
  | inr e ↦ rw e (rest_in_order y x ys (leb_text_total x y e) s.0, insert_in_order x ys s.1)
]

sort_in_order : (xs : List String) → Sorted (sort_strings xs)
unfolding sort_strings
sort_in_order [] = tt
sort_in_order (x ∷ xs) = insert_in_order x (sort_strings xs) (sort_in_order xs)

or_swap : (a b c : Bool) → (b || (a || c)) ≡ (a || (b || c))
or_swap true true c = refl
or_swap true false c = refl
or_swap false true c = refl
or_swap false false c = refl

contains_insert :
    (x z : String) (xs : List String) → contains (insert_sorted x xs) z ≡ (x == z || contains xs z)
unfolding insert_sorted contains
contains_insert x z [] = refl
contains_insert x z (y ∷ ys) = elim (Bool-cases (leb_text x y)) [
  | inl e ↦ rw e refl
  | inr e ↦ rw (e, contains_insert x z ys) (or_swap (x == z) (y == z) (contains ys z))
]

contains_sort : (xs : List String) (z : String) → contains (sort_strings xs) z ≡ contains xs z
unfolding sort_strings contains
contains_sort [] z = refl
contains_sort (x ∷ xs) z = rw (contains_insert x z (sort_strings xs), contains_sort xs z) refl

apart_insert :
    (y x : String) (xs : List String)
    → y ≢ x
    → IsApartFrom y xs
    → IsApartFrom y (insert_sorted x xs)
unfolding insert_sorted
apart_insert y x [] n a = (n, tt)
apart_insert y x (z ∷ zs) n a = elim (Bool-cases (leb_text x z)) [
  | inl e ↦ rw e (n, a)
  | inr e ↦ rw e (a.0, apart_insert y x zs n a.1)
]

insert_once :
    (x : String) (xs : List String) → IsApartFrom x xs → Distinct xs → Distinct (insert_sorted x xs)
unfolding insert_sorted
insert_once x [] a d = (tt, tt)
insert_once x (y ∷ ys) a d = elim (Bool-cases (leb_text x y)) [
  | inl e ↦ rw e (a, d)
  | inr e ↦ rw e (apart_insert y x ys (λ p. a.0 (sym p)) d.0, insert_once x ys a.1 d.1)
]

apart_iff : (x : String) (xs : List String) → (contains xs x ≡ false) ↔ IsApartFrom x xs
unfolding contains
apart_iff x [] = (λ h. tt, λ h. refl)
apart_iff x (y ∷ ys) =
    let both = or_false (differs y x) (apart_iff x ys) in
    (λ h. (λ p. (both.0 h).0 (sym p), (both.0 h).1), λ h. both.1 (λ p. h.0 (sym p), h.1))

sort_once : (xs : List String) → Distinct xs → Distinct (sort_strings xs)
unfolding sort_strings
sort_once [] d = tt
sort_once (x ∷ xs) d =
    let absent = (apart_iff x xs).1 d.0 in
    insert_once x (sort_strings xs)
      ((apart_iff x (sort_strings xs)).0 (rw (contains_sort xs x) absent)) (sort_once xs d.1)

unique_once : (xs : List String) → Distinct (unique xs)
unfolding unique
unique_once [] = tt
unique_once (x ∷ xs) = elim (Bool-cases (x == "" || contains (unique xs) x)) [
  | inl e ↦ rw e (unique_once xs)
  | inr e ↦ rw e (
    (apart_iff x (unique xs)).0 ((or_false (is_false (x == "")) (is_false _)).0 e).1,
    unique_once xs,
  )
]

-- The set of the components: those that are not empty.
abbrev pub Keeps : List String → List String → Type 0
Keeps kept given = (z : String) → (contains kept z ≡ true) ↔ ((z ≢ "") × (contains given z ≡ true))

or_left_out : (a b : Bool) → (a || b) ≡ true → a ≡ false → b ≡ true
or_left_out true b h e = cc
or_left_out false b h e = h

or_right : (a b : Bool) → b ≡ true → (a || b) ≡ true
or_right true b h = refl
or_right false b h = h

-- A component that `unique` passes over: it is empty, or it comes again.
passed_over :
    (x z : String) (kept given : List String)
    → (z ≢ "" → x ≡ z → contains kept z ≡ true)
    → (contains kept z ≡ true) ↔ ((z ≢ "") × (contains given z ≡ true))
    → (contains kept z ≡ true) ↔ ((z ≢ "") × ((x == z || contains given z) ≡ true))
passed_over x z kept given again rest = (
  λ h. let (n, c) = rest.0 h in (n, or_right (x == z) (contains given z) c),
  λ h. elim (Bool-cases (x == z)) [
    | inl e ↦ again h.0 ((eq_iff x z).0 e)
    | inr e ↦ rest.1 (h.0, or_left_out (x == z) (contains given z) h.1 e)
  ],
)

kept_first :
    (x z : String) (kept given : List String)
    → x ≢ ""
    → (contains kept z ≡ true) ↔ ((z ≢ "") × (contains given z ≡ true))
    → ((x == z || contains kept z) ≡ true) ↔ ((z ≢ "") × ((x == z || contains given z) ≡ true))
kept_first x z kept given n rest = elim (Bool-cases (x == z)) [
  | inl e ↦ rw e (λ h. (λ p. n ((eq_iff x z).0 e ∙ p), refl), λ h. refl)
  | inr e ↦ rw e rest
]

unique_members : (xs : List String) → Keeps (unique xs) xs
unfolding unique contains
unique_members [] z = (λ h. cc, λ h. cc h.1)
unique_members (x ∷ xs) z =
    let rest = unique_members xs z in
    elim (Bool-cases (x == "")) [
      | inl e ↦
          rw e (passed_over x z (unique xs) xs (λ n p. absurd (n (sym p ∙ (eq_iff x "").0 e))) rest)
      | inr e ↦ elim (Bool-cases (contains (unique xs) x)) [
        | inl c ↦ rw (e, c) (passed_over x z (unique xs) xs (λ n p. rw p at c) rest)
        | inr c ↦ rw (e, c) (kept_first x z (unique xs) xs ((differs x "").0 e) rest)
      ]
    ]

sorted_members : (xs : List String) → Keeps (sort_strings (unique xs)) xs
sorted_members xs z =
    let kept = unique_members xs z in
    let same = contains_sort (unique xs) z in (λ h. kept.0 (sym same ∙ h), λ h. same ∙ kept.1 h)

-- What BuildIntent promises: the components that are given and not empty, each once and in order.
pub record IsIntentOf (namespace : String) (components : List String) (intent : Intent)
    : Type 0 where
  pub named : (intent.namespace ≡ namespace) × (namespace ≢ "")
  pub kept : Keeps intent.components components
  pub distinct : Distinct intent.components
  pub sorted : Sorted intent.components

of_ok :
    (namespace : String) (components : List String) (intent : Intent)
    → namespace ≢ ""
    → new_intent namespace components ≡ intent
    → IsIntentOf namespace components intent
of_ok namespace components intent n built = subst (IsIntentOf namespace components) built (record {
  named = (refl, n);
  kept = sorted_members components;
  distinct = sort_once (unique components) (unique_once components);
  sorted = sort_in_order (unique components);
})

-- If BuildIntent succeeds, the namespace is not empty, and the components of the intent are those of
-- the argument that are not empty, each of them once, in the order of their texts.
pub build_intent_lem :
    (namespace : String) (components : List String) (intent : Intent)
    → build_intent namespace components ≡ ok intent
    → IsIntentOf namespace components intent
unfolding build_intent
build_intent_lem namespace components intent h = elim (Bool-cases (namespace == "")) [
  | inl e ↦ absurd (let refused : err _ ≡ ok intent = rw e at h in cc)
  | inr e ↦ elim (Bool-cases (is_empty (unique components))) [
    | inl f ↦ absurd (let refused : err _ ≡ ok intent = rw (e, f) at h in cc)
    | inr f ↦
        let built : ok (new_intent namespace components) ≡ ok intent = rw (e, f) at h in
        of_ok namespace components intent ((differs namespace "").0 e) (cc built)
  ]
]
