-- ===== src/Precreated/Collector.antt =====
-- The collector of references (precreatedReference and precreatedReferenceCollector of
-- internal/controller/kubernaut_controller.go).
use Prim.Native.String.{◌++◌}
use kubernaut_operator.Base.{
  String, Bool, true, false, ◌&&◌, List, [], ◌∷◌, ◌==◌, contains, if◌then◌else◌,
}
use kubernaut_operator.Kube.Op.{Error}
use kubernaut_operator.Validation.Checks.{issue}

-- precreatedReferenceKind
pub data RefKind : Type 0 where
  config_map_ref secret_ref : RefKind

-- precreatedReference
pub record PrecreatedReference : Type 0 where
  pub kind : RefKind
  pub path : String
  pub name : String
  pub required_keys : List String
  pub pem_keys : List String
  pub json_keys : List String
  pub no_newline_keys : List String

-- precreatedReferenceCollector
pub record Collector : Type 0 where
  pub references : List PrecreatedReference
  pub errs : List Error
  pub seen : List String

abbrev pub kind_text : RefKind → String
kind_text config_map_ref = "ConfigMap"
kind_text secret_ref = "Secret"

-- `strings.Join(keys, "\x00")`
abbrev pub join_keys : List String → String
join_keys [] = ""
join_keys (key ∷ []) = key
join_keys (key ∷ next ∷ keys) = let rest = join_keys (next ∷ keys) in key ++ "\0" ++ rest

abbrev pub identity : RefKind → String → List String → String
identity kind name keys = kind_text kind ++ "/" ++ name ++ "/" ++ join_keys keys

abbrev pub append {ℓ} : {A : Type ℓ} → List A → A → List A
append [] x = x ∷ []
append (y ∷ ys) x = y ∷ append ys x

-- add
unfoldable pub add_reference : RefKind → String → String → List String → Collector → Collector
add_reference kind path name keys c =
    if name == ""
    then record c { errs = append c.errs (issue path "name must be set") }
    else if contains c.seen (identity kind name keys)
    then c
    else record {
      references = append c.references (record {
        kind = kind;
        path = path;
        name = name;
        required_keys = keys;
        pem_keys = [];
        json_keys = [];
        no_newline_keys = [];
      });
      errs = c.errs;
      seen = identity kind name keys ∷ c.seen;
    }

abbrev pub is_secret : RefKind → Bool
is_secret config_map_ref = false
is_secret secret_ref = true

abbrev pub is_only_key : List String → String → Bool
is_only_key (k ∷ []) key = k == key
is_only_key _ key = false

-- The loop that changes the first reference that fits and returns.
unfoldable pub mark_first :
    (PrecreatedReference → Bool)
    → (PrecreatedReference → PrecreatedReference)
    → List PrecreatedReference
    → List PrecreatedReference
mark_first fits mark [] = []
mark_first fits mark (r ∷ rs) =
    let rest = mark_first fits mark rs in if fits r then mark r ∷ rs else r ∷ rest

abbrev pub with_key : List String → String → List String
with_key keys key = if contains keys key then keys else append keys key

abbrev pub with_keys : List String → List String → List String
with_keys keys [] = keys
with_keys keys (k ∷ ks) = with_keys (with_key keys k) ks

abbrev pub marked_first :
    (PrecreatedReference → Bool)
    → (PrecreatedReference → PrecreatedReference)
    → Collector
    → Collector
marked_first fits mark c = record c { references = mark_first fits mark c.references }

abbrev pub names_key : String → String → PrecreatedReference → Bool
names_key name key r = is_secret r.kind && r.name == name && is_only_key r.required_keys key

-- addPEMSecretReference
unfoldable pub add_pem : String → String → String → Collector → Collector
add_pem path name key c =
    marked_first (names_key name key) (λ r. record r { pem_keys = with_key r.pem_keys key })
      (add_reference secret_ref path name (key ∷ []) c)

-- addJSONSecretReference
unfoldable pub add_json : String → String → String → Collector → Collector
add_json path name key c =
    marked_first (names_key name key) (λ r. record r { json_keys = with_key r.json_keys key })
      (add_reference secret_ref path name (key ∷ []) c)

-- addNoNewlineSecretKeys
unfoldable pub add_no_newline : String → String → List String → Collector → Collector
add_no_newline path name keys c =
    marked_first (λ r. is_secret r.kind && r.path == path && r.name == name)
      (λ r. record r { no_newline_keys = with_keys r.no_newline_keys keys }) c
