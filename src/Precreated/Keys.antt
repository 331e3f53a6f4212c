-- ===== src/Precreated/Keys.antt =====
-- What a pre-created object has to hold (validatePrecreatedConfigMapKeys,
-- validatePrecreatedConfigMapValue, validatePrecreatedSecretKeys, validatePrecreatedSecretPEMKeys,
-- validatePrecreatedReference, validatePrecreatedConfiguration and its phase of
-- internal/controller/kubernaut_controller.go). Bytes are texts, and error texts leave out the names
-- that the code formats into them.
use Prim.Native.Char.{code}
use kubernaut_operator.Base.{
  ℕ, String, Bool, true, false, not, ◌&&◌, ◌||◌, Option, none, some, List, [], ◌∷◌, ◌==◌, nat_eqb,
  contains, or_else, if◌then◌else◌,
}
use kubernaut_operator.Base.Map.{Map, lookup}
use kubernaut_operator.Kube.Object.{Object, Key, Body, secret, config_map}
use kubernaut_operator.Kube.Op.{
  Error, message, wrapped, Result, ok, err, Op, pure, gets, attempt, lift, ◌>>=◌, ◌>>◌,
}
use kubernaut_operator.Kube.Library.{Library}
use kubernaut_operator.Kube.Client.{Client}
use kubernaut_operator.Kubernaut.{Kubernaut, failed}
use kubernaut_operator.Status.{State, Requeue, call, emit, set_condition_and_requeue}
use kubernaut_operator.Validation.Checks.{first, and_then, first_of, issue, to_list, ◌+++◌}
use kubernaut_operator.Precreated.Collector.{PrecreatedReference, kind_text}
use kubernaut_operator.Precreated.References.{precreated_references}

-- What is called of Go's libraries and of sigs.k8s.io/yaml.
pub record KeyMaterial : Type 0 where
  pub trim_space : String → String  -- bytes.TrimSpace, strings.TrimSpace
  pub lines : String → List String  -- strings.Split by line breaks
  pub has_prefix : String → String → Bool  -- strings.HasPrefix
  pub yaml_fields : String → Option ℕ  -- sigs.k8s.io/yaml, the number of fields of an object
  pub has_certificates : String → Bool  -- AppendCertsFromPEM of a new x509.CertPool
  pub is_json : String → Bool  -- json.Valid
  pub is_key_pair : String → String → Bool  -- crypto/tls.X509KeyPair has no error

-- strings.ContainsAny(value, "\r\n")
unfoldable pub has_line_break : String → Bool
has_line_break String.[] = false
has_line_break (String.◌∷◌ c value) =
    let rest = has_line_break value in nat_eqb (code c) 10 || nat_eqb (code c) 13 || rest

abbrev pub required_secret_value : PrecreatedReference → Option String → Option Error
required_secret_value r none = some (issue r.path "the object is missing a required key")
required_secret_value r (some value) =
    first (value == "") (issue r.path "a required key is empty") none

-- `values[key]`
abbrev pub value_of : PrecreatedReference → Map String → String → String
value_of r entries key =
    if contains r.required_keys key then or_else (lookup key entries) "" else ""

abbrev pub config_value : Option String → Option String → Option String
config_value (some value) binary = some value
config_value none binary = binary

abbrev pub yaml_error : PrecreatedReference → Option ℕ → Option Error
yaml_error r none = some (issue r.path "a key contains invalid YAML")
yaml_error r (some fields) =
    first (nat_eqb fields 0) (issue r.path "a key must contain a YAML object") none

module _ (go : KeyMaterial) where
  abbrev pub pair_error : PrecreatedReference → Map String → Option Error
  pair_error r entries =
      first
        (contains r.required_keys "tls.crt"
          && contains r.required_keys "tls.key"
          && not (go.is_key_pair (value_of r entries "tls.crt") (value_of r entries "tls.key")))
        (issue r.path "the Secret contains an invalid TLS certificate/key pair") none

  -- validatePrecreatedSecretKeys, with validatePrecreatedSecretPEMKeys
  unfoldable pub validate_secret_keys : PrecreatedReference → Map String → Option Error
  validate_secret_keys r entries =
      and_then (first_of (λ key. required_secret_value r (lookup key entries)) r.required_keys) (
        and_then
          (first_of
            (λ key.
              first (has_line_break (value_of r entries key))
                (issue r.path "a key must not contain newlines") none)
            r.no_newline_keys)
          (and_then
            (first_of
              (λ key.
                first (not (go.has_certificates (value_of r entries key)))
                  (issue r.path "a key does not contain valid CA PEM") none)
              r.pem_keys)
            (and_then
              (first_of
                (λ key.
                  first (contains r.required_keys key && not (go.is_json (value_of r entries key)))
                    (issue r.path "a key contains invalid JSON") none)
                r.json_keys)
              (pair_error r entries))))

  abbrev pub declares_package : List String → Bool
  declares_package [] = false
  declares_package (line ∷ lines) =
      go.has_prefix (go.trim_space line) "package " || declares_package lines

  -- validatePrecreatedConfigMapValue
  unfoldable pub validate_value : PrecreatedReference → String → String → Option Error
  validate_value r key value =
      if key == "approval.rego" || key == "policy.rego"
      then first (not (declares_package (go.lines (go.trim_space value))))
          (issue r.path "a key must contain a Rego package declaration") none
      else if key == "llm-runtime.yaml"
          || key == "proactive-signal-mappings.yaml"
          || key == "routing.yaml"
      then yaml_error r (go.yaml_fields (go.trim_space value))
      else none

  abbrev pub checked_config_value : PrecreatedReference → String → Option String → Option Error
  checked_config_value r key none = some (issue r.path "the ConfigMap is missing a required key")
  checked_config_value r key (some value) =
      first (value == "") (issue r.path "a required key is empty") (validate_value r key value)

  -- validatePrecreatedConfigMapKeys
  unfoldable pub validate_config_map_keys :
      PrecreatedReference → (entries binary : Map String) → Option Error
  validate_config_map_keys r entries binary =
      first_of
        (λ key. checked_config_value r key (config_value (lookup key entries) (lookup key binary)))
        r.required_keys

  abbrev pub body_error : PrecreatedReference → Body → Option Error
  body_error r (secret entries immutable) = validate_secret_keys r entries
  body_error r (config_map entries binary) = validate_config_map_keys r entries binary
  body_error r _ = none

  abbrev pub read_error : PrecreatedReference → Result Object → Option Error
  read_error r (ok o) = body_error r o.body
  read_error r (err e) = some (wrapped r.path e)

abbrev pub key_of_reference : String → PrecreatedReference → Key
key_of_reference namespace r = record {
  kind = kind_text r.kind;
  namespace = namespace;
  name = r.name;
}

abbrev pub precreated_answer : List Error → Result (Unit {0})
precreated_answer [] = ok tt
precreated_answer (e ∷ errors) = err (message "pre-created configuration validation failed")

module _ (go : KeyMaterial) (c : Client) where
  -- validatePrecreatedReference
  unfoldable pub validate_precreated : String → PrecreatedReference → Op c.World (Option Error)
  validate_precreated namespace r = do
    answer ← attempt (c.get (key_of_reference namespace r))
    pure (read_error go r answer)

  -- The loop of validatePrecreatedConfiguration.
  unfoldable pub precreated_errors : String → List PrecreatedReference → Op c.World (List Error)
  precreated_errors namespace [] = pure []
  precreated_errors namespace (r ∷ rs) = do
    e ← validate_precreated namespace r
    errors ← precreated_errors namespace rs
    pure (to_list e +++ errors)

  -- validatePrecreatedConfiguration
  unfoldable pub validate_precreated_configuration : Kubernaut → Op c.World (Unit {0})
  validate_precreated_configuration kn = do
    let collected = precreated_references kn.spec
    errors ← precreated_errors kn.namespace collected.references
    lift (precreated_answer (collected.errs +++ errors))

module _ (lib : Library) {c : Client} where
  abbrev pub precreated_outcome : Result (Unit {0}) → Op (State c) (Option Requeue)
  precreated_outcome (ok u) = pure none
  precreated_outcome (err e) = do
    emit true "PrecreatedConfigurationInvalid"
    requeue ←
        set_condition_and_requeue lib "BYOValidated" "PrecreatedConfigurationInvalid" (failed "" e)
    pure (some requeue)

module _ (lib : Library) (go : KeyMaterial) {c : Client} where
  -- validatePrecreatedConfigurationPhase; `none` if the phase goes on.
  unfoldable pub validate_precreated_phase : Op (State c) (Option Requeue)
  validate_precreated_phase = do
    kn ← gets (λ s. s.cr)
    answer ← attempt (call (validate_precreated_configuration go c kn))
    precreated_outcome lib answer
