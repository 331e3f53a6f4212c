-- ===== src/Credentials.antt =====
-- The credentials of the database and of the cache (internal/resources/credentials.go). Error texts
-- leave out the names that the code formats into them; the YAML parser is a parameter, which gives
-- the empty text for a field that the document leaves out.
pub mod Accepted
use kubernaut_operator.Base.{String, not, Option, none, some, ◌==◌, if◌then◌else◌}
use kubernaut_operator.Base.Map.{Map, lookup}
use kubernaut_operator.Kube.Op.{Result, ok, err, bind, message}
use kubernaut_operator.Kube.Library.{Texts}

abbrev pub document_key : String
document_key = "db-secrets.yaml"

abbrev pub valkey_key : String
valkey_key = "valkey-secrets.yaml"

module _ (texts : Texts) where
  abbrev pub required : Option String → Result String
  required none = err (message "postgresql secret is missing a required key")
  required (some raw) =
      if texts.trim_space raw == ""
      then err (message "postgresql secret is missing a required key")
      else ok raw

  -- requiredSecretValue
  unfoldable pub required_value : Map String → String → Result String
  required_value entries key = required (lookup key entries)

  -- The tests of parseDataStorageCredential on the parsed document.
  abbrev pub checked_credential : Option (String × String) → Result (String × String)
  checked_credential none = err (message "postgresql secret contains invalid credential YAML")
  checked_credential (some (username, password)) =
      if texts.trim_space username == ""
      then err (message "postgresql secret is missing a non-empty username")
      else if texts.trim_space password == ""
      then err (message "postgresql secret is missing a non-empty password")
      else ok (username, password)

  abbrev pub parsed_document : Option String → Result (String × String)
  parsed_document none = err (message "postgresql secret is missing a required key")
  parsed_document (some raw) =
      if raw == ""
      then err (message "postgresql secret is missing a required key")
      else checked_credential (texts.yaml_credential raw)

  -- parseDataStorageCredential
  unfoldable pub parse_credential : Map String → Result (String × String)
  parse_credential entries = parsed_document (lookup document_key entries)

  abbrev pub same_credential : String → String → String × String → Result (Unit {0})
  same_credential user password (username, secret_word) =
      if not (username == user)
      then err (message "postgresql secret has inconsistent database username")
      else if not (secret_word == password)
      then err (message "postgresql secret has inconsistent database password")
      else ok tt

  -- ValidatePostgreSQLSecret, of a Secret that is there
  unfoldable pub validate_postgresql_secret : Map String → Result (Unit {0})
  validate_postgresql_secret entries = bind (required_value entries "POSTGRES_USER") λ user.
      bind (required_value entries "POSTGRES_PASSWORD") λ password.
        bind (required_value entries "POSTGRES_DB")
          λ database. bind (parse_credential entries) (same_credential user password)

  abbrev pub checked_password : Option String → Result (Unit {0})
  checked_password none = err (message "valkey secret contains invalid credential YAML")
  checked_password (some password) =
      if texts.trim_space password == ""
      then err (message "valkey secret is missing a non-empty password")
      else ok tt

  abbrev pub valkey_document : Option String → Result (Unit {0})
  valkey_document none = err (message "valkey secret is missing a required key")
  valkey_document (some raw) =
      if raw == ""
      then err (message "valkey secret is missing a required key")
      else checked_password (texts.yaml_password raw)

  -- ValidateValkeySecret, of a Secret that is there
  unfoldable pub validate_valkey_secret : Map String → Result (Unit {0})
  validate_valkey_secret entries = valkey_document (lookup valkey_key entries)
