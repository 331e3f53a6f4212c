-- ===== src/Validation/Frontend/Rules.antt =====
-- What the section of the API frontend has to satisfy, and its role bindings (internal/resources/validation.go).
use Prim.Native.String.{len}
use kubernaut_operator.Base.{
  ◌≤◌, String, ◌≡◌, ◌↔◌, inl, inr, refl, Bool, Bool-cases, true, false, some, List, [], ◌∷◌, ◌==◌,
  if◌then◌else◌, All, contains, is_empty, eq_iff,
}
use kubernaut_operator.Api.Frontend.{
  JwtProviderSpec, ToolRoleBinding, FrontendRbacSpec, FrontendSpec,
}
use kubernaut_operator.Api.Llm.{enabled_on_request}
use kubernaut_operator.Validation.Checks.{IsPresent, IfSet, Given, Parses, ◌&◌, to_list}
use kubernaut_operator.Validation.Accept.{to_list_iff, last_iff, flip_false, differs, is_true}
use kubernaut_operator.Validation.Seen.{keys, Distinct, New}
use kubernaut_operator.Validation.Go.{Go}
use kubernaut_operator.Validation.Urls.{IsOidcUrl}
use kubernaut_operator.Validation.Frontend.{
  valid_tool_personas, seen_persona, seen_cluster_role, validate_tool_role_binding, binding_round,
}

-- A binding names a persona that is known or a ClusterRole, and not both.
pub data IsValidBinding (rb : ToolRoleBinding) : Type 0 where
  persona :
      IsPresent rb.role
      → rb.cluster_role_name ≡ ""
      → contains valid_tool_personas rb.role ≡ true
      → IsValidBinding rb
  cluster_role : rb.role ≡ "" → IsPresent rb.cluster_role_name → IsValidBinding rb

-- The name that a binding takes: personas and ClusterRoles share one set of names.
abbrev pub binding_name : ToolRoleBinding → String
binding_name rb = if rb.role == "" then rb.cluster_role_name else rb.role

module _ (go : Go) where
  abbrev pub IsValidRbac : FrontendRbacSpec → Type 0
  IsValidRbac r =
      IfSet (λ text. Parses (λ d. Unit) (go.parse_duration text)) r.sar_cache_ttl
      & (All IsValidBinding r.role_bindings
          & Distinct (keys (λ rb. some (binding_name rb)) r.role_bindings))

  abbrev pub IsValidProvider : Bool → JwtProviderSpec → Type 0
  IsValidProvider allow_insecure provider =
      (IsPresent provider.issuer_url & IsOidcUrl go allow_insecure provider.issuer_url)
      & (is_empty provider.audiences ≡ false)
      & IfSet (λ raw. (len raw ≤ 2048) & IsOidcUrl go allow_insecure raw) provider.jwks_url

  abbrev pub AreValidProviders : Bool → List JwtProviderSpec → Type 0
  AreValidProviders allow_insecure providers =
      All (IsValidProvider allow_insecure) providers & Distinct (keys (λ p. some p.name) providers)

  -- What the API frontend has to satisfy, where it is enabled.
  abbrev pub IsValidFrontend : FrontendSpec → Type 0
  IsValidFrontend af =
      enabled_on_request af.enabled ≡ true
      → IfSet (λ url. Parses (λ u. IsPresent u.scheme & IsPresent u.host) (go.parse_url url))
          af.agent_card_url
        & (is_empty af.auth.jwt_providers ≡ true
            → IsPresent af.auth.issuer_url
              & IsOidcUrl go af.auth.allow_insecure_issuers af.auth.issuer_url)
        & Given IsPresent af.rbac_roles_config_map
        & Given IsValidRbac af.rbac
        & (is_empty af.auth.jwt_providers ≡ false
            → AreValidProviders af.auth.allow_insecure_issuers af.auth.jwt_providers)

-- Two tests at once.
data Both (a b : Bool) : Type 0 where
  both_true : a ≡ true → b ≡ true → Both a b
  first_true : a ≡ true → b ≡ false → Both a b
  second_true : a ≡ false → b ≡ true → Both a b
  both_false : a ≡ false → b ≡ false → Both a b

two_tests : (a b : Bool) → Both a b
two_tests true true = both_true refl refl
two_tests true false = first_true refl refl
two_tests false true = second_true refl refl
two_tests false false = both_false refl refl

of_cluster_role :
    {rb : ToolRoleBinding} → rb.role ≡ "" → IsValidBinding rb → IsPresent rb.cluster_role_name
of_cluster_role e (persona set none_else known) = absurd (set e)
of_cluster_role e (cluster_role left_out set) = set

of_persona :
    {rb : ToolRoleBinding}
    → IsPresent rb.role
    → IsValidBinding rb
    → (rb.cluster_role_name ≡ "") × (contains valid_tool_personas rb.role ≡ true)
of_persona n (persona set none_else known) = (none_else, known)
of_persona n (cluster_role left_out set) = absurd (n left_out)

module _ (seen : List String) where
  cluster_role_accepts :
      (name : String)
      → (to_list (seen_cluster_role name seen).0 ≡ []) ↔ (contains seen name ≡ false)
  unfolding to_list
  cluster_role_accepts name = elim (Bool-cases (contains seen name)) [
    | inl e ↦ rw e (λ h. cc, λ h. cc)
    | inr e ↦ rw e (λ h. refl, λ h. refl)
  ]

  cluster_role_adds :
      (name : String)
      → to_list (seen_cluster_role name seen).0 ≡ []
      → (seen_cluster_role name seen).1 ≡ name ∷ seen
  unfolding to_list
  cluster_role_adds name = elim (Bool-cases (contains seen name)) [
    | inl e ↦ rw e (λ h. cc)
    | inr e ↦ rw e (λ h. refl)
  ]

  persona_accepts :
      (role : String)
      → (to_list (seen_persona role seen).0 ≡ [])
        ↔ ((contains valid_tool_personas role ≡ true) & (contains seen role ≡ false))
  persona_accepts role = elim (Bool-cases (contains seen role)) [
    | inl e ↦ rw e (to_list_iff (λ h. cc, λ h. absurd (let x : true ≡ false = h.1 in cc)))
    | inr e ↦
        let known =
          to_list_iff (last_iff _ (flip_false (is_true (contains valid_tool_personas role)))) in
        rw e (λ h. (known.0 h, refl), λ h. known.1 h.0)
  ]

  persona_adds :
      (role : String)
      → to_list (seen_persona role seen).0 ≡ []
      → (seen_persona role seen).1 ≡ role ∷ seen
  unfolding to_list
  persona_adds role = elim (Bool-cases (contains seen role)) [
    | inl e ↦ rw e (λ h. cc)
    | inr e ↦ rw e (λ h. refl)
  ]

  pub binding_accepts :
      (rb : ToolRoleBinding)
      → ((binding_round seen rb).0 ≡ []) ↔ (IsValidBinding rb & New seen (some (binding_name rb)))
  unfolding validate_tool_role_binding to_list
  binding_accepts rb = elim (two_tests (rb.role == "") (rb.cluster_role_name == "")) [
    | both_true r c ↦
        rw (r, c)
          (λ h. cc, λ h. absurd (of_cluster_role ((eq_iff rb.role "").0 r) h.0 ((eq_iff _ "").0 c)))
    | first_true r c ↦
        let new = cluster_role_accepts rb.cluster_role_name in
        rw (r, c)
          (
            λ h. (cluster_role ((eq_iff rb.role "").0 r) ((differs _ "").0 c), new.0 h),
            λ h. new.1 h.1,
          )
    | second_true r c ↦
        let new = persona_accepts rb.role in
        rw (r, c)
          (
            λ h.
                let (known, fresh) = new.0 h in
                (persona ((differs rb.role "").0 r) ((eq_iff _ "").0 c) known, fresh),
            λ h. new.1 ((of_persona ((differs rb.role "").0 r) h.0).1, h.1),
          )
    | both_false r c ↦
        rw (r, c)
          (λ h. cc, λ h. absurd ((differs _ "").0 c (of_persona ((differs rb.role "").0 r) h.0).0))
  ]

  pub binding_adds :
      (rb : ToolRoleBinding)
      → (binding_round seen rb).0 ≡ []
      → (binding_round seen rb).1 ≡ binding_name rb ∷ seen
  unfolding validate_tool_role_binding to_list
  binding_adds rb = elim (two_tests (rb.role == "") (rb.cluster_role_name == "")) [
    | both_true r c ↦ rw (r, c) (λ h. cc)
    | first_true r c ↦ rw (r, c) (cluster_role_adds rb.cluster_role_name)
    | second_true r c ↦ rw (r, c) (persona_adds rb.role)
    | both_false r c ↦ rw (r, c) (λ h. cc)
  ]
