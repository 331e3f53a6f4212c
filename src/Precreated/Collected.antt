-- ===== src/Precreated/Collected.antt =====
-- The references that are collected (precreatedConfigurationReferences of
-- internal/controller/kubernaut_controller.go).
use kubernaut_operator.Base.{String, inl, inr, List, [], ◌∷◌, ◌==◌, Bool-cases}
use kubernaut_operator.Api.Llm.{Oauth2Spec, ProfileSpec}
use kubernaut_operator.Api.Telemetry.{NotificationCredential}
use kubernaut_operator.Kubernaut.{Spec}
use kubernaut_operator.Precreated.Collector.{secret_ref, add_reference}
use kubernaut_operator.Precreated.References.{
  config_map_references, credential_references, console_reference, valkey_references,
  profile_material, oauth2_reference, profile_references, llm_references, fleet_references,
  precreated_references,
}
use kubernaut_operator.Precreated.Steps.{
  AreDistinct, Keeps, keeps_skip, keeps_then, keeps_if, keeps_given, keeps_add, keeps_choice,
  keeps_pem, keeps_json, keeps_no_newline,
}

module _ (spec : Spec) where
  keeps_config_maps : Keeps (config_map_references spec)
  unfolding config_map_references
  keeps_config_maps =
      keeps_then _ _ (keeps_if _ _ (keeps_add _ _ _ _))
        (keeps_given _ _ (λ name. keeps_add _ _ _ _))

  keeps_credentials :
      (credentials : List NotificationCredential) → Keeps (credential_references spec credentials)
  unfolding credential_references
  keeps_credentials [] = keeps_skip
  keeps_credentials (credential ∷ credentials) =
      keeps_then _ _ (keeps_add _ _ _ _) (keeps_credentials credentials)

  keeps_console : Keeps (console_reference spec)
  unfolding console_reference
  keeps_console = keeps_if _ _ (keeps_then _ _ (keeps_add _ _ _ _) (keeps_no_newline _ _ _))

  keeps_valkey : Keeps (valkey_references spec)
  unfolding valkey_references
  keeps_valkey = keeps_given _ _ λ tls.
      keeps_if _ _
        (keeps_then _ _ (keeps_if _ _ (keeps_pem _ _ _)) (keeps_if _ _ (keeps_add _ _ _ _)))

  keeps_oauth2 : (path : String) (oauth2 : Oauth2Spec) → Keeps (oauth2_reference spec path oauth2)
  keeps_oauth2 path oauth2 c good = elim (Bool-cases (oauth2.credentials_secret_ref == "")) [
    | inl e ↦ rw e good
    | inr e ↦ rw e (keeps_add _ _ _ _ c good)
  ]

  keeps_material :
      (path : String) (profile : ProfileSpec) → Keeps (profile_material spec path profile)
  unfolding profile_material
  keeps_material path profile =
      keeps_then _ _
        (keeps_then _ _
          (keeps_then _ _
            (keeps_choice (profile.provider == "vertex_ai") _ _ (keeps_json _ _ _)
              (keeps_add _ _ _ _))
            (keeps_if _ _ (keeps_oauth2 path profile.oauth2)))
          (keeps_if _ _ (keeps_add _ _ _ _)))
        (keeps_given _ _ (λ ref. keeps_pem _ _ _))

  keeps_profile : (ref : String) → Keeps (profile_references spec ref)
  unfolding profile_references
  keeps_profile ref =
      keeps_choice (ref == "") _ _ keeps_skip
        (keeps_given _ _ (λ profile. keeps_material _ profile))

  keeps_llm : Keeps (llm_references spec)
  unfolding llm_references
  keeps_llm =
      keeps_then _ _
        (keeps_then _ _ (keeps_then _ _ (keeps_profile _) (keeps_profile _))
          (keeps_if _ _ (keeps_profile _)))
        (keeps_if _ _ (
          keeps_then _ _ (keeps_profile _)
            (keeps_given _ _ (λ ref. keeps_if _ _ (keeps_profile ref)))))

  keeps_fleet : Keeps (fleet_references spec)
  unfolding fleet_references
  keeps_fleet =
      let one : (path name : String)
          → Keeps (add_reference secret_ref path name ("client-id" ∷ "client-secret" ∷ [])) =
        λ path name. keeps_add _ path name _ in
      keeps_if _ _ (
        keeps_then _ _
          (keeps_then _ _
            (keeps_then _ _
              (keeps_then _ _
                (keeps_then _ _
                  (keeps_then _ _ (keeps_then _ _ (keeps_if _ _ (one _ _)) (one _ _)) (one _ _))
                  (keeps_if _ _ (one _ _)))
                (one _ _))
              (one _ _))
            (keeps_if _ _ (one _ _)))
          (one _ _))

  -- Every reference that is collected has a name, and no two of them have the same kind, name and
  -- required keys.
  pub references_distinct : AreDistinct (precreated_references spec).references
  unfolding precreated_references
  references_distinct =
      let policies = keeps_then _ _ (keeps_add _ _ _ _) (keeps_add _ _ _ _) in
      let all =
        keeps_then _ _
          (keeps_then _ _
            (keeps_then _ _
              (keeps_then _ _
                (keeps_then _ _ (keeps_then _ _ policies keeps_config_maps)
                  (keeps_credentials spec.notification_credentials))
                keeps_console)
              keeps_valkey)
            keeps_llm)
          keeps_fleet in
      (all (record { references = []; errs = []; seen = [] }) (tt, tt)).0
