-- ===== src/Validation/Profiles/Material.antt =====
-- The names of the projected TLS files (validateLLMProfileTLSMaterialNames of
-- internal/resources/validation.go).
use kubernaut_operator.Base.{
  String, ◌≡◌, ◌≢◌, ◌↔◌, refl, inl, inr, Bool-cases, Option, none, some, List, [], ◌==◌,
  if◌then◌else◌, All, eq_iff,
}
use kubernaut_operator.Api.Llm.{ProfileSpec}
use kubernaut_operator.Validation.Checks.{IsPresent, ◌&◌}
use kubernaut_operator.Validation.Accept.{or_false, differs}
use kubernaut_operator.Validation.Seen.{
  add_new_accepts, add_new_adds, keys, add, Distinct, New, loop_iff,
}
use kubernaut_operator.Validation.Go.{Go}
use kubernaut_operator.Validation.Profiles.{material, add_path, validate_material_names}

module _ (go : Go) where
  -- The name of the file below the mount, of a path that is set.
  abbrev pub file_name : String × String → Option String
  file_name (field, value) = if value == "" then none else some (go.base value)

  -- A path that is set names a file.
  abbrev pub NamesFile : String × String → Type 0
  NamesFile (field, value) =
      IsPresent value → (go.base value ≢ ".") & (go.base value ≢ "..") & (go.base value ≢ "/")

  abbrev pub IsValidMaterial : ProfileSpec → Type 0
  IsValidMaterial llm = All NamesFile (material llm) & Distinct (keys file_name (material llm))

  path_accepts :
      (base : String) (paths : List String) (entry : String × String)
      → ((add_path go base paths entry).0 ≡ []) ↔ (NamesFile entry & New paths (file_name entry))
  unfolding add_path
  path_accepts base paths (field, value) = elim (Bool-cases (value == "")) [
    | inl e ↦ rw e (λ h. (λ n. absurd (n ((eq_iff value "").0 e)), tt), λ h. refl)
    | inr e ↦
        let names =
          or_false (or_false (differs (go.base value) ".") (differs (go.base value) ".."))
            (differs (go.base value) "/") in
        let step = add_new_accepts _ _ paths (go.base value) names in
        rw e
          (λ h. (λ n. (step.0 h).0, (step.0 h).1), λ h. step.1 (h.0 ((differs value "").0 e), h.1))
  ]

  path_adds :
      (base : String) (paths : List String) (entry : String × String)
      → (add_path go base paths entry).0 ≡ []
      → (add_path go base paths entry).1 ≡ add (file_name entry) paths
  unfolding add_path
  path_adds base paths (field, value) = elim (Bool-cases (value == "")) [
    | inl e ↦ rw e (λ h. refl)
    | inr e ↦ rw e (add_new_adds _ _ _ paths (go.base value))
  ]

  pub material_iff :
      (base : String) (llm : ProfileSpec)
      → (validate_material_names go base llm ≡ []) ↔ IsValidMaterial llm
  unfolding validate_material_names
  material_iff base llm = loop_iff file_name (path_accepts base) (path_adds base) (material llm)
