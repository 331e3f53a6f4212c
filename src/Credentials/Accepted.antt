-- ===== src/Credentials/Accepted.antt =====
-- Which Secrets are accepted (ValidatePostgreSQLSecret and ValidateValkeySecret of
-- internal/resources/credentials.go).
use kubernaut_operator.Base.{
  String, ◌≡◌, refl, ◌≢◌, ◌↔◌, inl, inr, Option-cases, some, eq_iff, eq_refl, arith,
}
use kubernaut_operator.Base.Map.{Map, lookup}
use kubernaut_operator.Kube.Op.{Result-cases, ok}
use kubernaut_operator.Kube.Library.{Texts}
use kubernaut_operator.Credentials.{
  document_key, required_value, parse_credential, validate_postgresql_secret, valkey_key,
  validate_valkey_secret,
}

-- The credentials for the server, and the same ones in the document for the data storage.
pub record IsAccepted (texts : Texts) (entries : Map String) : Type 0 where
  pub user : String
  pub password : String
  pub database : String
  pub document : String
  pub has_user : lookup "POSTGRES_USER" entries ≡ some user
  pub has_password : lookup "POSTGRES_PASSWORD" entries ≡ some password
  pub has_database : lookup "POSTGRES_DB" entries ≡ some database
  pub has_document : lookup document_key entries ≡ some document
  pub user_given : texts.trim_space user ≢ ""
  pub password_given : texts.trim_space password ≢ ""
  pub database_given : texts.trim_space database ≢ ""
  pub document_given : document ≢ ""
  pub agrees : texts.yaml_credential document ≡ some (user, password)

required_sound :
    (texts : Texts) (entries : Map String) (key value : String)
    → required_value texts entries key ≡ ok value
    → (lookup key entries ≡ some value) × (texts.trim_space value ≢ "")
unfolding required_value
required_sound texts entries key value h = elim (Option-cases (lookup key entries)) [
  | inl e ↦ absurd (ground arith)
  | inr (raw, e) ↦ (
    ground (arith, eq_iff (texts.trim_space raw) ""),
    λ z. ground (arith, eq_iff (texts.trim_space raw) ""),
  )
]

required_complete :
    (texts : Texts) (entries : Map String) (key value : String)
    → lookup key entries ≡ some value
    → texts.trim_space value ≢ ""
    → required_value texts entries key ≡ ok value
unfolding required_value
required_complete texts entries key value e h =
    rw e (ground (arith, eq_iff (texts.trim_space value) ""))

parse_sound :
    (texts : Texts) (entries : Map String) (found : String × String)
    → parse_credential texts entries ≡ ok found
    → (document : String) × (lookup document_key entries ≡ some document)
      × (document ≢ "")
      × (texts.yaml_credential document ≡ some found)
unfolding parse_credential
parse_sound texts entries found h = elim (Option-cases (lookup document_key entries)) [
  | inl e ↦ absurd (ground arith)
  | inr (raw, e) ↦ elim (Option-cases (texts.yaml_credential raw)) [
    | inl f ↦ absurd (ground arith)
    | inr ((username, word), f) ↦ (
      raw,
      e,
      (λ z. ground (arith, eq_iff raw "")),
      ground (
        arith,
        eq_iff raw "",
        eq_iff (texts.trim_space username) "",
        eq_iff (texts.trim_space word) "",
      ),
    )
  ]
]

-- A PostgreSQL Secret is accepted exactly if its three keys for the server are there and not blank,
-- and its document for the data storage is there, parses, and has the same user and password.
pub validate_postgresql_secret_iff :
    (texts : Texts) (entries : Map String)
    → (validate_postgresql_secret texts entries ≡ ok tt) ↔ IsAccepted texts entries
unfolding validate_postgresql_secret
validate_postgresql_secret_iff texts entries = (
  (λ h. elim (Result-cases (required_value texts entries "POSTGRES_USER")) [
    | inr (x, e) ↦ absurd (ground arith)
    | inl (user, e) ↦ elim (Result-cases (required_value texts entries "POSTGRES_PASSWORD")) [
      | inr (x, f) ↦ absurd (ground arith)
      | inl (password, f) ↦ elim (Result-cases (required_value texts entries "POSTGRES_DB")) [
        | inr (x, g) ↦ absurd (ground arith)
        | inl (database, g) ↦ elim (Result-cases (parse_credential texts entries)) [
          | inr (x, k) ↦ absurd (ground arith)
          | inl ((username, word), k) ↦
              let (has_user, user_given) = required_sound texts entries "POSTGRES_USER" user e in
              let (has_password, password_given) =
                required_sound texts entries "POSTGRES_PASSWORD" password f in
              let (has_database, database_given) =
                required_sound texts entries "POSTGRES_DB" database g in
              let (document, has_document, document_given, parsed) =
                parse_sound texts entries (username, word) k in
              let same_user : username ≡ user =
                ground (arith, eq_iff username user, eq_iff word password) in
              let same_word : word ≡ password =
                ground (arith, eq_iff username user, eq_iff word password) in
              record {
                user = user;
                password = password;
                database = database;
                document = document;
                has_user = has_user;
                has_password = has_password;
                has_database = has_database;
                has_document = has_document;
                user_given = user_given;
                password_given = password_given;
                database_given = database_given;
                document_given = document_given;
                agrees = cc;
              }
        ]
      ]
    ]
  ]),
  λ a.
      let u = required_complete texts entries "POSTGRES_USER" a.user a.has_user a.user_given in
      let p =
        required_complete texts entries "POSTGRES_PASSWORD" a.password a.has_password
          a.password_given in
      let d =
        required_complete texts entries "POSTGRES_DB" a.database a.has_database a.database_given in
      let parsed : parse_credential texts entries ≡ ok (a.user, a.password) =
        unfold parse_credential in
        rw (a.has_document, a.agrees)
          (ground (
            arith,
            eq_iff a.document "",
            eq_iff (texts.trim_space a.user) "",
            eq_iff (texts.trim_space a.password) "",
            a.document_given,
            a.user_given,
            a.password_given,
          )) in
      rw (u, p, d, parsed, eq_refl, eq_refl) refl,
)

-- A Valkey Secret is accepted exactly if its document is there, parses, and has a password that is
-- not blank.
pub validate_valkey_secret_iff :
    (texts : Texts) (entries : Map String)
    → (validate_valkey_secret texts entries ≡ ok tt) ↔ (
        (document : String) × (password : String) × (lookup valkey_key entries ≡ some document)
        × (document ≢ "")
        × (texts.yaml_password document ≡ some password)
        × (texts.trim_space password ≢ ""))
unfolding validate_valkey_secret
validate_valkey_secret_iff texts entries = (
  (λ h. elim (Option-cases (lookup valkey_key entries)) [
    | inl e ↦ absurd (ground arith)
    | inr (raw, e) ↦ elim (Option-cases (texts.yaml_password raw)) [
      | inl f ↦ absurd (ground arith)
      | inr (password, f) ↦ (
        raw,
        password,
        e,
        (λ z. ground (arith, eq_iff raw "")),
        f,
        (λ z. ground (arith, eq_iff raw "", eq_iff (texts.trim_space password) "")),
      )
    ]
  ]),
  λ (document, password, e, given, f, filled).
      rw (e, f)
        (ground (arith, eq_iff document "", eq_iff (texts.trim_space password) "", given, filled)),
)
