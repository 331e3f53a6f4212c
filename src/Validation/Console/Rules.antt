-- ===== src/Validation/Console/Rules.antt =====
-- What the section of the console has to satisfy, and the query of the logout URL (internal/resources/validation.go).
use kubernaut_operator.Base.{
  ◌≤◌, String, ◌≡◌, ◌↔◌, refl, inl, inr, Bool, Bool-cases, true, false, Option, none, some, List,
  [], ◌∷◌, All, contains,
}
use kubernaut_operator.Api.Llm.{enabled_on_request}
use kubernaut_operator.Kubernaut.{Spec, effective_issuer_url}
use kubernaut_operator.Validation.Checks.{IsPresent, IfSet, Parses, ◌&◌}
use kubernaut_operator.Validation.Accept.{
  first_iff, last_iff, flip_true, or_false, and_false, same_not, is_false,
}
use kubernaut_operator.Validation.Go.{Go, Url}
use kubernaut_operator.Validation.Console.{
  id_token_placeholder, allowed_parameters, any_placeholder, query_contains_placeholder,
  unsupported_parameter, validate_query, canonical_https_authority,
}

module _ (go : Go) where
  -- The parameters are allowed ones, up to the first one whose key is empty: that one ends the
  -- search, and what stands behind it is not looked at.
  abbrev pub AreAllowed : List (String × List String) → Type 0
  AreAllowed [] = Unit
  AreAllowed (entry ∷ query) =
      (contains allowed_parameters (go.to_lower entry.0) ≡ true → AreAllowed query)
      & (contains allowed_parameters (go.to_lower entry.0) ≡ false → entry.0 ≡ "")

  -- No value of the query holds the placeholder.
  abbrev pub HasNoPlaceholder : List (String × List String) → Type 0
  HasNoPlaceholder = All λ entry. All (λ v. go.contains_text v id_token_placeholder ≡ false) entry.1

  -- The redirect is an https URL with the path of the callback and nothing more.
  abbrev pub IsValidRedirect : Bool → String → Type 0
  IsValidRedirect enabled raw =
      enabled ≡ true
      → IsPresent raw
        & ((go.trim_space raw ≡ raw)
            & Parses
                (λ u.
                  (go.equal_fold u.scheme "https" ≡ true)
                  & IsPresent u.host
                  & IsPresent u.hostname
                  & (u.has_user ≡ false)
                  & (u.raw_query ≡ "")
                  & (u.fragment ≡ "")
                  & (u.escaped_path ≡ "/oauth2/callback"))
                (go.parse_url raw))

  abbrev pub IsValidQuery : String → Url → Type 0
  IsValidQuery raw u =
      Parses
        (λ query.
          (go.contains_text raw id_token_placeholder ≡ false → HasNoPlaceholder query)
          & AreAllowed query)
        (go.parse_query u.raw_query)

  -- An absolute https URL without user and fragment, with at most one placeholder and no other
  -- braces, and with parameters that are allowed.
  abbrev pub IsLogoutUrl : String → Url → Type 0
  IsLogoutUrl raw u =
      (IsPresent u.scheme & IsPresent u.host & (u.opaque ≡ ""))
      & (((go.equal_fold u.scheme "https" ≡ true)
            & (IsPresent u.hostname & ((u.has_user ≡ false) & (u.fragment ≡ ""))))
          & (((go.count_text raw id_token_placeholder ≤ 1)
                & (go.contains_any (go.remove_all raw id_token_placeholder) "{}" ≡ false))
              & IsValidQuery raw u))

  -- The URL has the authority of the issuer, which is an https URL itself.
  abbrev pub IsOfIssuer : Spec → Url → Type 0
  IsOfIssuer spec u =
      Parses
        (λ issuer.
          (IsPresent issuer.scheme & IsPresent issuer.host & (issuer.has_user ≡ false))
          & ((go.equal_fold issuer.scheme "https" ≡ true)
              & (canonical_https_authority go u ≡ canonical_https_authority go issuer)))
        (go.parse_url (effective_issuer_url spec))

  abbrev pub IsValidLogout : Spec → Type 0
  IsValidLogout spec =
      IfSet
        (λ raw.
          (go.trim_space raw ≡ raw)
          & Parses
              (λ u.
                IsLogoutUrl raw u
                & (enabled_on_request spec.console.enabled ≡ true → IsOfIssuer spec u))
              (go.parse_url raw))
        spec.console.provider_logout_url

  -- What the console has to satisfy.
  abbrev pub IsValidConsole : Spec → Type 0
  IsValidConsole spec =
      (enabled_on_request spec.console.enabled ≡ true → IsPresent (effective_issuer_url spec))
      & IsValidRedirect (enabled_on_request spec.console.enabled) spec.console.redirect_url
      & IsValidLogout spec

  -- A parameter that is not allowed is reported, unless its key is empty or a parameter with an
  -- empty key stands before it: unsupportedConsoleLogoutQueryParameter answers with the key, and its
  -- caller takes the empty text for the answer that every parameter is allowed.
  pub unsupported_parameter_iff :
      (query : List (String × List String))
      → (unsupported_parameter go query ≡ "") ↔ AreAllowed query
  unfolding unsupported_parameter
  unsupported_parameter_iff [] = (λ h. tt, λ h. refl)
  unsupported_parameter_iff (entry ∷ query) =
      let rest = unsupported_parameter_iff query in
      elim (Bool-cases (contains allowed_parameters (go.to_lower entry.0))) [
        | inl e ↦ rw e (λ h. (λ x. rest.0 h, λ x. cc), λ h. rest.1 (h.0 refl))
        | inr e ↦ rw e (λ h. (λ x. cc, λ x. h), λ h. h.1 refl)
      ]

  no_value_iff :
      (values : List String)
      → (any_placeholder go values ≡ false)
        ↔ All (λ v. go.contains_text v id_token_placeholder ≡ false) values
  no_value_iff [] = (λ h. tt, λ h. refl)
  no_value_iff (value ∷ values) =
      let both =
        or_false (is_false (go.contains_text value id_token_placeholder)) (no_value_iff values) in
      (λ h. let (v, vs) = both.0 h in (v, vs), λ h. both.1 (h.0, h.1))

  no_placeholder_iff :
      (query : List (String × List String))
      → (query_contains_placeholder go query ≡ false) ↔ HasNoPlaceholder query
  unfolding query_contains_placeholder
  no_placeholder_iff [] = (λ h. tt, λ h. refl)
  no_placeholder_iff (entry ∷ query) =
      let both = or_false (no_value_iff entry.1) (no_placeholder_iff query) in
      (λ h. let (v, vs) = both.0 h in (v, vs), λ h. both.1 (h.0, h.1))

  pub query_iff :
      (raw : String) (query : Option (List (String × List String)))
      → (validate_query go raw query ≡ none)
        ↔ Parses
            (λ q.
              (go.contains_text raw id_token_placeholder ≡ false → HasNoPlaceholder q)
              & AreAllowed q)
            query
  query_iff raw none = (λ h. cc, λ h. absurd h)
  query_iff raw (some query) =
      let key_iff = same_not (unsupported_parameter go query) "" in
      let allowed_iff = unsupported_parameter_iff query in
      first_iff _
        (and_false (flip_true (is_false (go.contains_text raw id_token_placeholder)))
          (no_placeholder_iff query))
        (last_iff _ (λ h. allowed_iff.0 (key_iff.0 h), λ h. key_iff.1 (allowed_iff.1 h)))
