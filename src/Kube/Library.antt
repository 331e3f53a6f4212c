-- ===== src/Kube/Library.antt =====
-- Functions of the Go standard library, of apimachinery and of controller-runtime that the modelled
-- code calls, and what their documentation says of them.
use kubernaut_operator.Base.{
  ℕ, String, ◌≡◌, Bool, true, false, Option, some, List, ◌==◌, if◌then◌else◌,
}
use kubernaut_operator.Base.Map.{Map}
use kubernaut_operator.Kube.Object.{Object, OwnerRef, ServiceSpec}
use kubernaut_operator.Kube.Op.{Result}
use kubernaut_operator.Kubernaut.{Kubernaut, Condition}

pub record Library : Type 0 where
  pub parse_group : String → Option String  -- schema.ParseGroupVersion, the group
  pub digest : Object → Option String  -- the hex SHA-256 of json.Marshal; `none` if that fails
  pub has_controller : List OwnerRef → Bool  -- metav1.GetControllerOf is not nil
  pub same_refs : List OwnerRef → List OwnerRef → Bool  -- equality.Semantic.DeepEqual
  pub same_service : ServiceSpec → ServiceSpec → Bool  -- equality.Semantic.DeepEqual
  pub contains_finalizer : String → List String → Bool  -- controllerutil.ContainsFinalizer
  pub add_finalizer : String → List String → List String  -- controllerutil.AddFinalizer
  pub remove_finalizer : String → List String → List String  -- controllerutil.RemoveFinalizer
  pub set_controller_reference : Kubernaut → Object → Result Object
  pub set_condition : Condition → List Condition → List Condition  -- meta.SetStatusCondition
  pub find_condition : String → List Condition → Option Condition  -- meta.FindStatusCondition

-- Functions on texts of the Go standard library, of sigs.k8s.io/yaml and of apimachinery.
pub record Texts : Type 0 where
  pub show : ℕ → String  -- fmt.Sprintf("%d", ...); of a resource version, its text
  pub sha256_hex : String → String  -- crypto/sha256 and encoding/hex
  pub trim_space : String → String  -- strings.TrimSpace
  pub yaml_credential : String → Option (String × String)  -- sigs.k8s.io/yaml, username and password
  pub yaml_password : String → Option String  -- sigs.k8s.io/yaml, the password alone
  pub yaml_map : String → Option (Map String)  -- sigs.k8s.io/yaml, a map of texts
  pub is_dns1123_subdomain : String → Bool  -- validation.IsDNS1123Subdomain has no errors

-- DeepEqual holds of a value and itself.
pub record IsDeepEqual (lib : Library) : Type 0 where
  pub same_refs_refl : (refs : List OwnerRef) → lib.same_refs refs refs ≡ true
  pub same_service_refl : (spec : ServiceSpec) → lib.same_service spec spec ≡ true

-- SetStatusCondition adds or replaces the condition of its type and leaves the others.
pub record IsConditionSet (lib : Library) : Type 0 where
  pub find-set :
      (c : Condition) (cs : List Condition) (t : String)
      → lib.find_condition t (lib.set_condition c cs)
        ≡ (if c.type == t then some c else lib.find_condition t cs)

-- A finalizer is there after it was added, and not after it was removed; the others stay.
pub record IsFinalizerSet (lib : Library) : Type 0 where
  pub contains-add :
      (f asked : String) (fs : List String)
      → lib.contains_finalizer asked (lib.add_finalizer f fs)
        ≡ (if f == asked then true else lib.contains_finalizer asked fs)
  pub contains-remove :
      (f asked : String) (fs : List String)
      → lib.contains_finalizer asked (lib.remove_finalizer f fs)
        ≡ (if f == asked then false else lib.contains_finalizer asked fs)
