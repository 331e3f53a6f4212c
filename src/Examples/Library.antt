-- ===== src/Examples/Library.antt =====
-- Concrete stand-ins for the Go libraries, which meet the laws that the development assumes.
use native.Mathlib.Decide.{ℕ_discrete}
use mathlib.Core.Bool.{decide, decide_iff}
use kubernaut_operator.Base.{
  String, ◌≡◌, refl, inl, inr, Bool, true, false, Option, none, some, List, [], ◌∷◌, ◌==◌, eq_iff,
  arith, eq_refl, ◌&&◌, contains, if◌then◌else◌, Bool-cases,
}
use kubernaut_operator.Kube.Object.{Object, OwnerRef, ServiceSpec}
use kubernaut_operator.Kube.Op.{Result, ok}
use kubernaut_operator.Kube.Library.{Library, Texts, IsDeepEqual, IsConditionSet, IsFinalizerSet}
use kubernaut_operator.Kubernaut.{Kubernaut, Condition}
use kubernaut_operator.Ownership.{is_true}

pub string_discrete : Discrete String
string_discrete a b = elim (Bool-cases (a == b)) [
  | inl y ↦ yes ((eq_iff a b).0 y)
  | inr n ↦ no (λ e. ground (arith, eq_iff a b, e))
]

unfoldable pub same_flag : Option Bool → Option Bool → Bool
same_flag none none = true
same_flag (some true) (some true) = true
same_flag (some false) (some false) = true
same_flag _ _ = false

unfoldable pub same_owners : List OwnerRef → List OwnerRef → Bool
unfolding same_flag
same_owners [] [] = true
same_owners (a ∷ xs) (b ∷ ys) =
    a.api_version == b.api_version
    && a.kind == b.kind
    && a.name == b.name
    && a.uid == b.uid
    && same_flag a.controller b.controller
    && same_owners xs ys
same_owners _ _ = false

same_flag_refl : (o : Option Bool) → same_flag o o ≡ true
unfolding same_flag
same_flag_refl none = refl
same_flag_refl (some true) = refl
same_flag_refl (some false) = refl

same_owners_refl : (refs : List OwnerRef) → same_owners refs refs ≡ true
unfolding same_owners
same_owners_refl [] = refl
same_owners_refl (r ∷ rs) =
    rw (eq_refl, eq_refl, eq_refl, eq_refl, same_flag_refl r.controller) (same_owners_refl rs)

pub spec_discrete : Discrete ServiceSpec
spec_discrete = hlevel (string_discrete, ℕ_discrete)

-- The group is what stands before the slash; the example knows one.
abbrev group_of : String → Option String
group_of v = if v == "kubernaut.ai/v1alpha2" then some "kubernaut.ai" else some "apps"

abbrev controller_of : List OwnerRef → Bool
controller_of [] = false
controller_of (r ∷ rs) = if is_true r.controller then true else controller_of rs

abbrev pub own_refs : Kubernaut → List OwnerRef
own_refs kn =
    record {
      api_version = "kubernaut.ai/v1alpha2";
      kind = "Kubernaut";
      name = kn.name;
      uid = kn.uid;
      controller = some true;
    }
    ∷ []

abbrev own : Kubernaut → Object → Result Object
own kn o = ok (record o { owner_refs = own_refs kn })

unfoldable pub find_by_type : String → List Condition → Option Condition
find_by_type t [] = none
find_by_type t (c ∷ cs) = if c.type == t then some c else find_by_type t cs

unfoldable pub set_by_type : Condition → List Condition → List Condition
set_by_type c [] = c ∷ []
set_by_type c (d ∷ cs) = if d.type == c.type then c ∷ cs else d ∷ set_by_type c cs

find-set :
    (c : Condition) (cs : List Condition) (t : String)
    → find_by_type t (set_by_type c cs) ≡ (if c.type == t then some c else find_by_type t cs)
unfolding find_by_type set_by_type
find-set c [] t = refl
find-set c (d ∷ cs) t =
    ground (arith, eq_iff d.type c.type, eq_iff c.type t, eq_iff d.type t, find-set c cs t)

unfoldable pub without : String → List String → List String
without f [] = []
without f (g ∷ gs) = let rest = without f gs in if g == f then rest else g ∷ rest

abbrev pub library : Library
library = record {
  parse_group = group_of;
  digest = λ o. some o.name;
  has_controller = controller_of;
  same_refs = same_owners;
  same_service = λ a b. decide (spec_discrete a b);
  contains_finalizer = λ f fs. contains fs f;
  add_finalizer = λ f fs. if contains fs f then fs else f ∷ fs;
  remove_finalizer = without;
  set_controller_reference = own;
  set_condition = set_by_type;
  find_condition = find_by_type;
}

pub library-IsDeepEqual : IsDeepEqual library
library-IsDeepEqual = record {
  same_refs_refl = same_owners_refl;
  same_service_refl = λ spec. (decide_iff (spec_discrete spec spec)).1 refl;
}

pub library-IsConditionSet : IsConditionSet library
library-IsConditionSet = record { find-set = find-set }

-- Every document is the one of the sample key.
abbrev pub texts : Texts
texts = record {
  show = λ n. "1";
  sha256_hex = λ t. "r1";
  trim_space = λ t. t;
  yaml_credential = λ t. some ("app", "pw");
  yaml_password = λ t. some "pw";
  yaml_map = λ t. some (("hmacKey", "0123456789abcdef0123456789abcdef") ∷ []);
  is_dns1123_subdomain = λ t. true;
}

contains-without :
    (f asked : String) (fs : List String)
    → contains (without f fs) asked ≡ (if f == asked then false else contains fs asked)
unfolding contains without
contains-without f asked [] = ground arith
contains-without f asked (g ∷ gs) =
    ground (arith, eq_iff g f, eq_iff f asked, eq_iff g asked, contains-without f asked gs)

contains-with :
    (f asked : String) (fs : List String)
    → contains (if contains fs f then fs else f ∷ fs) asked
      ≡ (if f == asked then true else contains fs asked)
unfolding contains
contains-with f asked fs = elim (Bool-cases (contains fs f)) [
  | inl old ↦ elim (Bool-cases (f == asked)) [
    | inl y ↦ let same_text : f ≡ asked = (eq_iff f asked).0 y in rw (old, y) (rw same_text at old)
    | inr n ↦ rw (old, n) refl
  ]
  | inr new ↦ rw new (ground arith)
]

pub library-IsFinalizerSet : IsFinalizerSet library
library-IsFinalizerSet = record { contains-add = contains-with; contains-remove = contains-without }
