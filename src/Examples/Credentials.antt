-- ===== src/Examples/Credentials.antt =====
-- The credentials at concrete Secrets.
use kubernaut_operator.Base.{String, ◌≡◌, ◌≢◌, ◌↔◌, some, [], ◌∷◌}
use kubernaut_operator.Base.Map.{Map, lookup}
use kubernaut_operator.Kube.Op.{ok}
use kubernaut_operator.Credentials.{validate_postgresql_secret, valkey_key, validate_valkey_secret}
use kubernaut_operator.Credentials.Accepted.{
  IsAccepted, validate_postgresql_secret_iff, validate_valkey_secret_iff,
}
use kubernaut_operator.Examples.Library.{texts}

abbrev pub entries : Map String
entries =
    ("POSTGRES_USER", "app")
    ∷ ("POSTGRES_PASSWORD", "pw")
    ∷ ("POSTGRES_DB", "main")
    ∷ ("db-secrets.yaml", "username: app")
    ∷ []

validate_postgresql_secret_iff_example :
    (validate_postgresql_secret texts entries ≡ ok tt) ↔ IsAccepted texts entries
validate_postgresql_secret_iff_example = validate_postgresql_secret_iff texts entries

abbrev pub cache_entries : Map String
cache_entries = ("valkey-secrets.yaml", "password: pw") ∷ []

validate_valkey_secret_iff_example : (validate_valkey_secret texts cache_entries ≡ ok tt) ↔ (
    (document : String) × (password : String) × (lookup valkey_key cache_entries ≡ some document)
    × (document ≢ "")
    × (texts.yaml_password document ≡ some password)
    × (texts.trim_space password ≢ ""))
validate_valkey_secret_iff_example = validate_valkey_secret_iff texts cache_entries
