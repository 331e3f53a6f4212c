-- ===== src/Validation/Fleet/Rules.antt =====
-- What the fleet has to satisfy (ValidateFleet of internal/resources/validation.go).
use kubernaut_operator.Base.{
  ℕ, nat_eqb, IsAtLeast, arith, String, ◌≡◌, ◌≢◌, ◌↔◌, ◌⊎◌, inl, inr, refl, Bool-cases, true, false,
  Option, none, some, List, [], ◌∷◌, ◌==◌, All, is_some, eq_iff,
}
use kubernaut_operator.Api.Fleet.{TrustSpec, AcmSpec, ScopeCheckSpec, GatewaySpec, McpClientSpec}
use kubernaut_operator.Api.Telemetry.{SecretKeyRef}
use kubernaut_operator.Api.Llm.{enabled_on_request}
use kubernaut_operator.Kubernaut.{Spec}
use kubernaut_operator.Validation.Checks.{IsPresent, IfSet, Given, Parses, ◌&◌}
use kubernaut_operator.Validation.Accept.{differs, differs_not}
use kubernaut_operator.Validation.Go.{Go}
use kubernaut_operator.Validation.Urls.{IsHttpsUrl}
use kubernaut_operator.Validation.Fleet.{
  fleet_backend_acm, fleet_metadata_cache, effective_secret_ref, names_secret, is_missing,
  component_overrides, count_missing, missing_errors,
}

-- A component has a credential: its own, or the shared one.
abbrev pub HasCredential : String → Option String → Type 0
HasCredential shared own = Parses IsPresent own ⊎ IsPresent shared

pub credential_iff :
    (shared : String) (own : Option String)
    → (effective_secret_ref own shared == "" ≡ false) ↔ HasCredential shared own
unfolding effective_secret_ref
credential_iff shared none =
    let set = differs shared "" in (λ h. inr (set.0 h), elim [ inl x ↦ absurd x | inr x ↦ set.1 x ])
credential_iff shared (some own) = elim (Bool-cases (own == "")) [
  | inl e ↦
      let set = differs shared "" in
      rw e (λ h. inr (set.0 h), elim [ inl x ↦ absurd (x ((eq_iff own "").0 e)) | inr x ↦ set.1 x ])
  | inr e ↦ rw e (λ h. inl ((differs own "").0 e), λ h. e)
]

pub count_iff :
    (shared : String) (overrides : List (Option String))
    → (count_missing shared overrides ≡ 0) ↔ All (HasCredential shared) overrides
unfolding count_missing
count_iff shared [] = (λ h. tt, λ h. refl)
count_iff shared (own ∷ overrides) =
    let here = credential_iff shared own in
    let rest = count_iff shared overrides in
    elim (Bool-cases (effective_secret_ref own shared == "")) [
      | inl e ↦ rw e (
        λ h. absurd (ground arith),
        λ h. absurd (let x : true ≡ false = rw e at (here.1 h.0) in cc),
      )
      | inr e ↦ rw e (λ h. (here.0 e, rest.0 h), λ h. rest.1 h.1)
    ]

pub missing_iff : (missing : ℕ) → (missing_errors missing ≡ []) ↔ (missing ≡ 0)
missing_iff missing = elim (Bool-cases (nat_eqb missing 0)) [
  | inl e ↦ rw e (λ h. ground arith, λ h. refl)
  | inr e ↦ elim (Bool-cases (nat_eqb missing 6)) [
    | inl f ↦ rw (e, f) (λ h. cc, λ h. absurd (ground arith))
    | inr f ↦ rw (e, f) (λ h. cc, λ h. absurd (ground arith))
  ]
]

-- A Secret that has a name.
abbrev pub NamesSecret : Option SecretKeyRef → Type 0
NamesSecret = Parses λ (ref : SecretKeyRef). IsPresent ref.name

pub names_iff : (ref : Option SecretKeyRef) → (names_secret ref ≡ true) ↔ NamesSecret ref
names_iff none = (λ h. cc, λ h. absurd h)
names_iff (some ref) = differs_not ref.name ""

pub token_iff : (name : Option String) → (is_missing name ≡ false) ↔ Parses IsPresent name
token_iff none = (λ h. cc, λ h. absurd h)
token_iff (some name) = differs name ""

module _ (go : Go) where
  abbrev pub IsRequiredUrl : String → Type 0
  IsRequiredUrl url = IsPresent url & IsHttpsUrl go url

  -- The trust of a connection: the roots of the cluster or of the system without a file or a Secret,
  -- an absolute file, or a named Secret.
  abbrev pub IsValidTrust : TrustSpec → Type 0
  IsValidTrust trust =
      (((trust.source ≡ "") ⊎ (trust.source ≡ "interService")) ⊎ (trust.source ≡ "system")
        → (trust.ca_file ≡ "") & (is_some trust.ca_cert_secret_ref ≡ false))
      & ((trust.source ≢ "") & (trust.source ≢ "interService") & (trust.source ≢ "system")
          → (trust.source ≡ "file"
              → (IsPresent trust.ca_file & (go.is_abs trust.ca_file ≡ true))
                & (is_some trust.ca_cert_secret_ref ≡ false))
            & (trust.source ≢ "file"
                → (trust.source ≡ "secret"
                    → NamesSecret trust.ca_cert_secret_ref & (trust.ca_file ≡ ""))
                  & (trust.source ≢ "secret" → ⊥)))

  abbrev pub IsValidAcm : AcmSpec → Type 0
  IsValidAcm acm =
      IsRequiredUrl acm.endpoint
      & Parses IsPresent acm.token_secret_ref
      & Given IsValidTrust acm.tls

  -- The block of ACM is there and valid with its backend, and left out with the other.
  abbrev pub IsValidScope : ScopeCheckSpec → Type 0
  IsValidScope scope =
      (scope.backend ≡ fleet_backend_acm → Parses IsValidAcm scope.acm)
      & (scope.backend ≢ fleet_backend_acm → is_some scope.acm ≡ false)

  abbrev pub IsValidGateway : GatewaySpec → Type 0
  IsValidGateway gateway =
      IsRequiredUrl gateway.endpoint
      & (IsPresent gateway.type & ((gateway.type ≡ "eaigw") ⊎ (gateway.type ≡ "kuadrant")))
      & IsPresent gateway.namespace

  abbrev pub IsPositive : String → Type 0
  IsPositive = IfSet λ value. Parses (IsAtLeast 1) (go.parse_duration value)

  abbrev pub IsValidMcpClient : McpClientSpec → Type 0
  IsValidMcpClient client =
      Given
        (λ r.
          IsPositive r.initial_interval & IsPositive r.max_interval & IsPositive r.max_elapsed_time)
        client.retry
      & Given (λ t. IsPositive t.token_refresh & IsPositive t.connect & IsPositive t.discover_probe)
          client.timeouts

  -- Every component that reads has a credential, and the one that writes its own.
  abbrev pub IsValidFleetOauth2 : Spec → Type 0
  IsValidFleetOauth2 spec =
      IsRequiredUrl spec.fleet.oauth2.token_url
      & All (HasCredential spec.fleet.oauth2.credentials_secret_ref)
          (component_overrides spec.fleet_overrides)
      & IsPresent spec.fleet_overrides.workflow_execution

  -- What the fleet has to satisfy.
  abbrev pub IsValidFleet : Spec → Type 0
  IsValidFleet spec =
      (enabled_on_request spec.fleet.enabled ≡ true
        → (IsPresent spec.fleet.scope_check.backend
            & ((spec.fleet.scope_check.backend ≡ fleet_metadata_cache)
                ⊎ (spec.fleet.scope_check.backend ≡ fleet_backend_acm)))
          & IsValidScope spec.fleet.scope_check
          & IsValidGateway spec.fleet.mcp_gateway
          & Given IsValidTrust spec.fleet.mcp_gateway.tls
          & IsValidFleetOauth2 spec
          & Given IsValidTrust spec.fleet.oauth2.tls
          & Given IsValidMcpClient spec.fleet.mcp_client)
      & ((enabled_on_request spec.fleet.enabled ≡ true)
            & (spec.fleet.scope_check.backend ≡ fleet_metadata_cache)
          → HasCredential spec.fleet.oauth2.credentials_secret_ref
              spec.fleet_overrides.metadata_cache)
