-- ===== src/Precreated/Steps.antt =====
-- What the steps of the collection keep (precreatedReferenceCollector of
-- internal/controller/kubernaut_controller.go).
use kubernaut_operator.Base.{
  String, ◌≡◌, ◌≢◌, refl, sym, ap, inl, inr, Bool, true, false, Option, none, some, List, [], ◌∷◌,
  ◌==◌, eq_iff, eq_refl, contains, All, arith, Bool-cases, if◌then◌else◌,
}
use kubernaut_operator.Validation.Checks.{IsPresent}
use kubernaut_operator.Precreated.Collector.{
  RefKind, secret_ref, PrecreatedReference, Collector, identity, append, add_reference, mark_first,
  marked_first, add_pem, add_json, add_no_newline,
}
use kubernaut_operator.Precreated.References.{Step, skip, ◌then_do◌, if_so, if_given}

abbrev pub identity_of : PrecreatedReference → String
identity_of r = identity r.kind r.name r.required_keys

-- No reference has the identity.
abbrev pub IsNew : String → List PrecreatedReference → Type 0
IsNew x = All (λ r. identity_of r ≢ x)

-- Every reference has a name, and no two have the same kind, name and required keys.
abbrev pub AreDistinct : List PrecreatedReference → Type 0
AreDistinct [] = Unit
AreDistinct (r ∷ rs) = IsPresent r.name × IsNew (identity_of r) rs × AreDistinct rs

-- What each step keeps: the references are distinct, and their identities were seen.
abbrev pub IsCollected : Collector → Type 0
IsCollected c =
    AreDistinct c.references × All (λ r. contains c.seen (identity_of r) ≡ true) c.references

abbrev pub Keeps : Step → Type 0
Keeps step = (c : Collector) → IsCollected c → IsCollected (step c)

pub keeps_skip : Keeps skip
keeps_skip c good = good

pub keeps_then : (f g : Step) → Keeps f → Keeps g → Keeps (f then_do g)
unfolding ◌then_do◌
keeps_then f g k l c good = l (f c) (k c good)

pub keeps_if : (b : Bool) (step : Step) → Keeps step → Keeps (if_so b step)
unfolding if_so
keeps_if true step k = k
keeps_if false step k = keeps_skip

pub keeps_given :
    {A : Type 0} (o : Option A) (f : A → Step) → ((a : A) → Keeps (f a)) → Keeps (if_given o f)
keeps_given none f k = keeps_skip
keeps_given (some a) f k = k a

IsNew-append :
    (x : String) (r : PrecreatedReference) (rs : List PrecreatedReference)
    → IsNew x rs
    → identity_of r ≢ x
    → IsNew x (append rs r)
IsNew-append x r [] all n = (n, tt)
IsNew-append x r (y ∷ rs) all n = (all.0, IsNew-append x r rs all.1 n)

distinct-append :
    (r : PrecreatedReference) (rs : List PrecreatedReference)
    → AreDistinct rs
    → IsPresent r.name
    → IsNew (identity_of r) rs
    → AreDistinct (append rs r)
distinct-append r [] all p n = (p, tt, tt)
distinct-append r (x ∷ rs) (q, m, all) p (k, n) =
    (q, IsNew-append (identity_of x) r rs m (λ e. k (sym e)), distinct-append r rs all p n)

-- What is true of each identity, when an identity was seen.
unseen-IsNew :
    (seen : List String) (x : String) (rs : List PrecreatedReference)
    → contains seen x ≡ false
    → All (λ r. contains seen (identity_of r) ≡ true) rs
    → IsNew x rs
unseen-IsNew seen x [] n all = tt
unseen-IsNew seen x (r ∷ rs) n all = (
  λ e. let f : contains seen (identity_of r) ≡ contains seen x = ap (contains seen) e in cc,
  unseen-IsNew seen x rs n all.1,
)

seen_more :
    (x : String) (seen : List String) (rs : List PrecreatedReference)
    → All (λ r. contains seen (identity_of r) ≡ true) rs
    → All (λ r. contains (x ∷ seen) (identity_of r) ≡ true) rs
unfolding contains
seen_more x seen [] all = tt
seen_more x seen (r ∷ rs) all = (ground arith, seen_more x seen rs all.1)

seen-append :
    (seen : List String) (r : PrecreatedReference) (rs : List PrecreatedReference)
    → All (λ r. contains seen (identity_of r) ≡ true) rs
    → contains seen (identity_of r) ≡ true
    → All (λ r. contains seen (identity_of r) ≡ true) (append rs r)
seen-append seen r [] all e = (e, tt)
seen-append seen r (y ∷ rs) all e = (all.0, seen-append seen r rs all.1 e)

has_itself : (x : String) (seen : List String) → contains (x ∷ seen) x ≡ true
unfolding contains
has_itself x seen = rw (eq_refl x) refl

pub keeps_add :
    (kind : RefKind) (path name : String) (keys : List String)
    → Keeps (add_reference kind path name keys)
unfolding add_reference
keeps_add kind path name keys c (distinct, seen) = elim (Bool-cases (name == "")) [
  | inl e ↦ rw e (distinct, seen)
  | inr e ↦
      let x = identity kind name keys in
      elim (Bool-cases (contains c.seen x)) [
        | inl f ↦ rw (e, f) (distinct, seen)
        | inr f ↦
            let r : PrecreatedReference = record {
              kind = kind;
              path = path;
              name = name;
              required_keys = keys;
              pem_keys = [];
              json_keys = [];
              no_newline_keys = [];
            } in
            let present : IsPresent name = λ z. ground (arith, eq_iff name "") in
            rw (e, f)
              (
                distinct-append r c.references distinct present
                    (unseen-IsNew c.seen x c.references f seen),
                seen-append (x ∷ c.seen) r c.references (seen_more x c.seen c.references seen)
                    (has_itself x c.seen),
              )
      ]
]

-- A mark that changes neither the identity nor the name.
module _ (fits : PrecreatedReference → Bool) (mark : PrecreatedReference → PrecreatedReference)
    (same : (r : PrecreatedReference)
      → (identity_of (mark r) ≡ identity_of r) × ((mark r).name ≡ r.name)) where
  All-marked :
      (P : String → Type 0) (rs : List PrecreatedReference)
      → All (λ r. P (identity_of r)) rs
      → All (λ r. P (identity_of r)) (mark_first fits mark rs)
  unfolding mark_first
  All-marked P [] all = tt
  All-marked P (r ∷ rs) all = elim (Bool-cases (fits r)) [
    | inl e ↦ rw e (rw (same r).0 all.0, all.1)
    | inr e ↦ rw e (all.0, All-marked P rs all.1)
  ]

  distinct_marked :
      (rs : List PrecreatedReference) → AreDistinct rs → AreDistinct (mark_first fits mark rs)
  unfolding mark_first
  distinct_marked [] all = tt
  distinct_marked (r ∷ rs) (p, n, all) = elim (Bool-cases (fits r)) [
    | inl e ↦ rw e (rw (same r).1 p, rw (same r).0 n, all)
    | inr e ↦ rw e (p, All-marked (λ x. x ≢ identity_of r) rs n, distinct_marked rs all)
  ]

  keeps_marked : Keeps (marked_first fits mark)
  keeps_marked c (distinct, seen) = (
    distinct_marked c.references distinct,
    All-marked (λ x. contains c.seen x ≡ true) c.references seen,
  )

pub keeps_choice : (b : Bool) (f g : Step) → Keeps f → Keeps g → Keeps (if b then f else g)
keeps_choice true f g k l = k
keeps_choice false f g k l = l

-- The steps that mark a reference
pub keeps_pem : (path name key : String) → Keeps (add_pem path name key)
unfolding add_pem
keeps_pem path name key c good =
    keeps_marked _ _ (λ r. (refl, refl)) (add_reference secret_ref path name (key ∷ []) c)
      (keeps_add secret_ref path name (key ∷ []) c good)

pub keeps_json : (path name key : String) → Keeps (add_json path name key)
unfolding add_json
keeps_json path name key c good =
    keeps_marked _ _ (λ r. (refl, refl)) (add_reference secret_ref path name (key ∷ []) c)
      (keeps_add secret_ref path name (key ∷ []) c good)

pub keeps_no_newline :
    (path name : String) (keys : List String) → Keeps (add_no_newline path name keys)
unfolding add_no_newline
keeps_no_newline path name keys = keeps_marked _ _ (λ r. (refl, refl))
