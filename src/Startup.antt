-- ===== src/Startup.antt =====
-- The validation before any workload starts (validateDatabaseInputs, validatePostgreSQLSecret,
-- validateValkeySecret, handleSpecValidationFailure and phaseValidate of
-- internal/controller/kubernaut_controller.go, ValidateHostname of internal/resources/common.go).
-- What phaseValidate does behind the pre-created objects is an argument.
pub mod Checks
pub mod Gate
use Prim.Native.Char.{code}
use kubernaut_operator.Base.{
  ℕ, String, Bool, true, false, not, ◌&&◌, ◌||◌, Option, none, some, List, [], ◌∷◌, ◌==◌, nat_eqb,
  leb, if◌then◌else◌,
}
use kubernaut_operator.Base.Map.{Map}
use kubernaut_operator.Kube.Object.{Object, Key}
use kubernaut_operator.Kube.Op.{
  Error, message, Result, ok, err, Op, pure, gets, attempt, lift, wrap, ◌>>=◌, ◌>>◌,
}
use kubernaut_operator.Kube.Library.{Library, Texts}
use kubernaut_operator.Kube.Client.{Client}
use kubernaut_operator.Kubernaut.{Kubernaut, failed}
use kubernaut_operator.Status.{State, Requeue, call, emit, set_condition_and_requeue}
use kubernaut_operator.AuditKey.{ensure_audit_hash_key}
use kubernaut_operator.AuditKey.Material.{entries_of}
use kubernaut_operator.Credentials.{validate_postgresql_secret, validate_valkey_secret}
use kubernaut_operator.Migration.{postgresql_key}
use kubernaut_operator.Validation.Checks.{◌+++◌}
use kubernaut_operator.Validation.Go.{Go}
use kubernaut_operator.Validation.Whole.{validate_kubernaut}
use kubernaut_operator.Validation.Fleet.{validate_fleet}
use kubernaut_operator.Precreated.Keys.{KeyMaterial, validate_precreated_phase}

-- The class of the regular expression validHostname.
abbrev pub is_host_character : ℕ → Bool
is_host_character n =
    (leb 97 n && leb n 122)
    || (leb 65 n && leb n 90)
    || (leb 48 n && leb n 58)
    || nat_eqb n 46
    || nat_eqb n 95
    || nat_eqb n 91
    || nat_eqb n 93
    || nat_eqb n 45

unfoldable pub host_characters : String → Bool
host_characters String.[] = true
host_characters (String.◌∷◌ ch rest) = is_host_character (code ch) && host_characters rest

-- ValidateHostname
unfoldable pub validate_hostname : String → Result (Unit {0})
validate_hostname host =
    if host == ""
    then err (message "hostname must not be empty")
    else if not (host_characters host)
    then err (message "hostname contains invalid characters")
    else ok tt

abbrev pub valkey_secret_key : Kubernaut → Key
valkey_secret_key kn = record {
  kind = "Secret";
  namespace = kn.namespace;
  name = kn.spec.valkey_secret;
}

module _ {c : Client} where
  -- A check that may end the phase, and the next one.
  infixr 6 ◌then_check◌
  unfoldable pub ◌then_check◌ :
      Op (State c) (Option Requeue) → Op (State c) (Option Requeue) → Op (State c) (Option Requeue)
  ◌then_check◌ check next = do
    handled ← check
    elim handled [ none ↦ next | some requeue ↦ pure (some requeue) ]

  -- `if result, err, handled := check; handled { return result, err }`, and what follows
  unfoldable pub unless_handled :
      Op (State c) (Option Requeue) → Op (State c) Requeue → Op (State c) Requeue
  unless_handled check rest = do
    handled ← check
    elim handled [ none ↦ rest | some requeue ↦ pure requeue ]

  -- Get of a Secret and the validation of what it holds.
  unfoldable pub read_secret :
      String → (Kubernaut → Key) → (Map String → Result (Unit {0})) → Op (State c) (Unit {0})
  read_secret text key validation = do
    kn ← gets (λ s. s.cr)
    secret ← wrap text (call (c.get (key kn)))
    lift (validation (entries_of secret.body))

module _ (lib : Library) {c : Client} where
  -- One round of the loop of validateDatabaseInputs.
  unfoldable pub check_input :
      (reason text : String) → Op (State c) (Unit {0}) → Op (State c) (Option Requeue)
  check_input reason text validation = do
    answer ← attempt validation
    elim answer [
      | ok u ↦ pure none
      | err e ↦ do
        emit true reason
        requeue ← set_condition_and_requeue lib "BYOValidated" reason (failed text e)
        pure (some requeue)
    ]

  -- handleSpecValidationFailure
  unfoldable pub handle_spec_validation_failure : Op (State c) Requeue
  handle_spec_validation_failure =
      emit true "SpecValidationFailed"
      >> set_condition_and_requeue lib "BYOValidated" "SpecValidationFailed"
          (failed "" (message "CR validation failed"))

  abbrev pub by_errors : Op (State c) Requeue → List Error → Op (State c) Requeue
  by_errors rest [] = rest
  by_errors rest (e ∷ errors) = handle_spec_validation_failure

module _ (lib : Library) (texts : Texts) (random : Result String) {c : Client} where
  -- validateDatabaseInputs, with validatePostgreSQLSecret and validateValkeySecret
  unfoldable pub validate_database_inputs : Op (State c) (Option Requeue)
  validate_database_inputs =
      check_input lib "AuditHashKeyInvalid" "DataStorage audit HMAC key validation failed"
        (ensure_audit_hash_key lib texts random)
      then_check check_input lib "PostgreSQLHostInvalid" "PostgreSQL host validation failed"
          (λ s. lift (validate_hostname s.cr.spec.postgresql_host) s)
      then_check check_input lib "ValkeyHostInvalid" "Valkey host validation failed"
          (λ s. lift (validate_hostname s.cr.spec.valkey_host) s)
      then_check check_input lib "PostgreSQLSecretInvalid" "PostgreSQL secret validation failed" (
          read_secret "reading PostgreSQL secret" postgresql_key (validate_postgresql_secret texts))
      then_check check_input lib "ValkeySecretInvalid" "Valkey secret validation failed"
          (read_secret "reading Valkey secret" valkey_secret_key (validate_valkey_secret texts))

  -- phaseValidate
  unfoldable pub phase_validate :
      Go → KeyMaterial → (rest : Op (State c) Requeue) → Op (State c) Requeue
  phase_validate go material rest = unless_handled validate_database_inputs do
    kn ← gets (λ s. s.cr)
    by_errors lib (unless_handled (validate_precreated_phase lib material) rest)
        (validate_kubernaut go kn.spec +++ validate_fleet go kn.spec)
