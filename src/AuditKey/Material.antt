-- ===== src/AuditKey/Material.antt =====
-- The source of the audit HMAC key and its state marker (internal/resources/audit_hmac.go). Error
-- texts leave out the names that the code formats into them.
use Prim.Native.String.{◌++◌}
use kubernaut_operator.Base.{
  String, Bool, true, false, not, Option, none, some, [], ◌∷◌, ◌==◌, ltb, if◌then◌else◌,
}
use kubernaut_operator.Base.Map.{Map, lookup, insert, get}
use kubernaut_operator.Kube.Object.{Object, Body, config_map, secret}
use kubernaut_operator.Kube.Op.{Result, ok, err, message, bind}
use kubernaut_operator.Kube.Library.{Texts}
use kubernaut_operator.Api.DataStorage.{HashKeySpec, AuditSpec}
use kubernaut_operator.Kubernaut.{Kubernaut}
use kubernaut_operator.Ownership.{common_labels}
use kubernaut_operator.Drift.{or_default}
use kubernaut_operator.AuditKey.Names.{name_characters, byte_count}

abbrev pub default_secret_name : String
default_secret_name = "datastorage-audit-hmac-key"

abbrev pub state_name : String
state_name = "datastorage-audit-hmac-key-state"

abbrev pub data_key : String
data_key = "audit-hmac-key.yaml"

abbrev pub key_finalizer : String
key_finalizer = "kubernaut.ai/audit-hmac-key-protection"

abbrev pub managed_key : String
managed_key = "kubernaut.ai/audit-hmac-key"

abbrev pub source_key : String
source_key = "kubernaut.ai/audit-hmac-key-source"

abbrev pub source_generated : String
source_generated = "operator-generated"

abbrev pub source_existing : String
source_existing = "administrator-managed"

-- DataStorageAuditHashKeyReference
pub record Reference : Type 0 where
  pub secret_name : String
  pub secret_key : String
  pub generated : Bool

abbrev hash_key_of : Option AuditSpec → Option HashKeySpec
hash_key_of none = none
hash_key_of (some audit) = audit.hash_key

abbrev reference_of : Option HashKeySpec → Reference
reference_of none = record {
  secret_name = default_secret_name;
  secret_key = "hmacKey";
  generated = true;
}
reference_of (some spec) = record {
  secret_name = or_default spec.existing_secret default_secret_name;
  secret_key = or_default spec.secret_key "hmacKey";
  generated = spec.existing_secret == "";
}

-- DataStorageAuditHashKeyReferenceFor
unfoldable pub reference_for : Kubernaut → Reference
reference_for kn = reference_of (hash_key_of kn.spec.data_storage.audit)

abbrev pub source_of : Reference → String
source_of ref = if ref.generated then source_generated else source_existing

-- validateDataStorageAuditHashKeyName
unfoldable pub validate_name : String → Result (Unit {0})
validate_name key_name =
    if key_name == ""
    then err (message "audit HMAC key name is empty")
    else if name_characters key_name
    then ok tt
    else err (message "audit HMAC key name contains unsupported characters")

-- ValidateDataStorageAuditHashKeyReference
unfoldable pub validate_reference : Texts → Reference → Result (Unit {0})
validate_reference texts ref = bind (validate_name ref.secret_key) λ u.
    if texts.is_dns1123_subdomain ref.secret_name
    then ok tt
    else err (message "audit HMAC secret name is invalid")

abbrev pub entries_of : Body → Map String
entries_of (secret entries immutable) = entries
entries_of (config_map entries binary) = entries
entries_of _ = []

-- The tests of dataStorageAuditHashKeyValue on the value itself.
unfoldable pub checked_value : Texts → String → Result String
checked_value texts value =
    if not (texts.trim_space value == value)
    then err (message "key contains leading or trailing whitespace")
    else if value == ""
    then err (message "key is empty or missing")
    else if ltb (byte_count value) 32
    then err (message "key must contain at least 32 bytes")
    else ok value

abbrev parsed_value : Texts → String → Option (Map String) → Result String
parsed_value texts key_name none = err (message "secret contains invalid YAML")
parsed_value texts key_name (some values) = checked_value texts (get key_name values)

abbrev document_value : Texts → String → Option String → Result String
document_value texts key_name none = err (message "secret is missing the required key")
document_value texts key_name (some document) =
    if document == ""
    then err (message "secret is missing the required key")
    else parsed_value texts key_name (texts.yaml_map document)

-- dataStorageAuditHashKeyValue
unfoldable pub key_value : Texts → Object → String → Result String
key_value texts holder key_name =
    bind (validate_name key_name)
      λ u. document_value texts key_name (lookup data_key (entries_of holder.body))

-- DataStorageAuditHashKeyFingerprint, and ValidateDataStorageAuditHashKeySecret where the answer is
-- not used
unfoldable pub fingerprint : Texts → Object → String → Result String
fingerprint texts holder key_name =
    bind (key_value texts holder key_name) λ value. ok (texts.sha256_hex value)

-- ComponentLabels
unfoldable pub component_labels : Kubernaut → String → Map String
component_labels kn component =
    insert "app" component (insert "app.kubernetes.io/component" component (common_labels kn))

-- ObjectMeta, of an object that the API server has not seen
unfoldable pub new_object : Kubernaut → String → String → String → Body → Object
new_object kn kind name component body = record {
  kind = kind;
  namespace = kn.namespace;
  name = name;
  uid = "";
  resource_version = 0;
  terminating = false;
  finalizers = [];
  labels = component_labels kn component;
  annotations = [];
  owner_refs = [];
  body = body;
}

-- NewDataStorageAuditHashKeySecret; `random` is the base64 text of the random bytes, or the error
-- of their source.
unfoldable pub new_secret : Texts → Kubernaut → Reference → Result String → Result Object
new_secret texts kn ref random =
    if not ref.generated
    then err (message "audit HMAC secret is administrator-managed")
    else bind (validate_reference texts ref) λ u. bind random λ encoded.
      ok
        (record (new_object kn "Secret" ref.secret_name "datastorage"
          (secret ((data_key, ref.secret_key ++ ": " ++ encoded ++ "\n") ∷ []) (some true))) {
            finalizers = key_finalizer ∷ [];
            annotations = (managed_key, "true") ∷ (source_key, source_generated) ∷ [];
          })

abbrev with_print : Option String → Map String → Map String
with_print none entries = entries
with_print (some print) entries = insert "keyFingerprint" print entries

-- DataStorageAuditHashKeyStateConfigMap, with the phase and the fingerprint that the callers set
unfoldable pub state_object : Kubernaut → Reference → String → Option String → Object
state_object kn ref phase print =
    record (new_object kn "ConfigMap" state_name "datastorage" (
      config_map
        (with_print print (
          ("secretName", ref.secret_name)
          ∷ ("secretKey", ref.secret_key)
          ∷ ("source", source_of ref)
          ∷ ("phase", phase)
          ∷ []))
        [])) { finalizers = key_finalizer ∷ [] }
