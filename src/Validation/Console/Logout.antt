-- ===== src/Validation/Console/Logout.antt =====
-- What the section of the console has to satisfy (validateConsoleProviderLogoutURL and the checks
-- beside it, in internal/resources/validation.go).
use kubernaut_operator.Base.{
  String, ◌≡◌, ◌↔◌, refl, inl, inr, Bool, Bool-cases, true, false, Option, none, some, ◌==◌,
  if◌then◌else◌, eq_iff,
}
use kubernaut_operator.Api.Llm.{enabled_on_request}
use kubernaut_operator.Kube.Op.{Error, ok}
use kubernaut_operator.Kubernaut.{Spec, effective_issuer_url}
use kubernaut_operator.Validation.Checks.{IsPresent, Parses, ◌&◌}
use kubernaut_operator.Validation.Accept.{
  not_above, and_then_iff, first_iff, last_iff, fails_iff, flip_false, or_false, and_false,
  same_not, differs, is_true, is_false,
}
use kubernaut_operator.Validation.Go.{Go, Url}
use kubernaut_operator.Validation.Console.{
  id_token_placeholder, validate_console_effective_issuer, validate_console_redirect_url,
  validate_logout_shape, validate_logout_placeholders, result_of, checked_logout, parse_logout_url,
  canonical_https_authority, validate_authority, validate_logout_authority, after_parse,
  validate_console_provider_logout_url,
}
use kubernaut_operator.Validation.Console.Rules.{
  IsValidRedirect, IsLogoutUrl, IsOfIssuer, IsValidLogout, query_iff,
}

guard_iff :
    {b : Bool} (o : Option Error) {P Q : Type 0}
    → (b ≡ false) ↔ P
    → (o ≡ none) ↔ Q
    → ((if b then none else o) ≡ none) ↔ (P → Q)
guard_iff {b = true} o p q = (λ h x. absurd (let e : true ≡ false = p.1 x in cc), λ h. refl)
guard_iff {b = false} o p q = (λ h x. q.0 h, λ h. q.1 (h (p.0 refl)))

module _ (go : Go) (spec : Spec) where
  authority_iff :
      (u : Url) (issuer : Option Url)
      → (validate_authority go u issuer ≡ none)
        ↔ Parses
            (λ i.
              (IsPresent i.scheme & IsPresent i.host & (i.has_user ≡ false))
              & ((go.equal_fold i.scheme "https" ≡ true)
                  & (canonical_https_authority go u ≡ canonical_https_authority go i)))
            issuer
  authority_iff u none = (λ h. cc, λ h. absurd h)
  authority_iff u (some i) =
      first_iff _
        (or_false (or_false (differs i.scheme "") (differs i.host "")) (is_false i.has_user))
        (first_iff _ (flip_false (is_true (go.equal_fold i.scheme "https")))
          (last_iff _ (same_not (canonical_https_authority go u) (canonical_https_authority go i))))

  after_ok_iff :
      (u : Url)
      → (after_parse go spec (ok u) ≡ none)
        ↔ (enabled_on_request spec.console.enabled ≡ true → IsOfIssuer go spec u)
  unfolding validate_logout_authority
  after_ok_iff u =
      guard_iff _ (flip_false (is_true (enabled_on_request spec.console.enabled)))
        (authority_iff u (go.parse_url (effective_issuer_url spec)))

  after_result_iff :
      (e : Option Error) (u : Url) {P : Type 0}
      → (e ≡ none) ↔ P
      → (after_parse go spec (result_of go e u) ≡ none)
        ↔ (P & (enabled_on_request spec.console.enabled ≡ true → IsOfIssuer go spec u))
  after_result_iff none u p =
      let after = after_ok_iff u in (λ h. (p.0 refl, after.0 h), λ h. after.1 h.1)
  after_result_iff (some e) u p = (λ h. cc, λ h. absurd (let x : some e ≡ none = p.1 h.0 in cc))

  after_logout_iff :
      (raw : String) (o : Option Url)
      → (after_parse go spec (checked_logout go raw o) ≡ none)
        ↔ Parses
            (λ u.
              IsLogoutUrl go raw u
              & (enabled_on_request spec.console.enabled ≡ true → IsOfIssuer go spec u))
            o
  unfolding validate_logout_shape validate_logout_placeholders
  after_logout_iff raw none = (λ h. cc, λ h. absurd h)
  after_logout_iff raw (some u) = after_result_iff _ u (
      first_iff _
        (or_false (or_false (differs u.scheme "") (differs u.host "")) (same_not u.opaque ""))
        (and_then_iff _ _
          (first_iff _ (flip_false (is_true (go.equal_fold u.scheme "https"))) (
            first_iff _ (differs u.hostname "")
              (first_iff _ (is_false u.has_user) (last_iff _ (same_not u.fragment "")))))
          (and_then_iff _ _
            (first_iff _ (not_above 1 (go.count_text raw id_token_placeholder)) (
              last_iff _
                (is_false (go.contains_any (go.remove_all raw id_token_placeholder) "{}"))))
            (query_iff go raw (go.parse_query u.raw_query)))))

  -- validateConsoleProviderLogoutURL has no complaint exactly if the URL is left out, or it has no
  -- blanks around it and is an absolute https URL with a host, without user information and fragment,
  -- with at most one placeholder and no other brace, with a query whose parameters are allowed ones
  -- (those behind a parameter with an empty key are not looked at) and hold the placeholder only if
  -- the text of the URL does, and, where the console is enabled, with the host and port of the
  -- effective OIDC issuer, an absolute https URL without user information.
  pub logout_iff : (validate_console_provider_logout_url go spec ≡ none) ↔ IsValidLogout go spec
  unfolding validate_console_provider_logout_url parse_logout_url
  logout_iff =
      let raw = spec.console.provider_logout_url in
      let url = after_logout_iff raw (go.parse_url raw) in
      guard_iff _ (differs raw "") (elim (Bool-cases (go.trim_space raw == raw)) [
        | inl e ↦ rw e (λ h. ((eq_iff (go.trim_space raw) raw).0 e, url.0 h), λ h. url.1 h.1)
        | inr e ↦ rw e (λ h. cc, λ h. absurd ((differs (go.trim_space raw) raw).0 e h.0))
      ])

  pub redirect_iff :
      (enabled : Bool) (raw : String)
      → (validate_console_redirect_url go enabled raw ≡ none) ↔ IsValidRedirect go enabled raw
  unfolding validate_console_redirect_url
  redirect_iff enabled raw = guard_iff _ (flip_false (is_true enabled)) (
      first_iff _ (differs raw "") (
        first_iff _ (same_not (go.trim_space raw) raw) (
          last_iff _ (
            fails_iff (go.parse_url raw) λ u.
              or_false
                (or_false
                  (or_false
                    (or_false
                      (or_false
                        (or_false (flip_false (is_true (go.equal_fold u.scheme "https")))
                          (differs u.host ""))
                        (differs u.hostname ""))
                      (is_false u.has_user))
                    (same_not u.raw_query ""))
                  (same_not u.fragment ""))
                (same_not u.escaped_path "/oauth2/callback")))))

  pub issuer_iff :
      (validate_console_effective_issuer spec ≡ none)
      ↔ (enabled_on_request spec.console.enabled ≡ true → IsPresent (effective_issuer_url spec))
  unfolding validate_console_effective_issuer
  issuer_iff = last_iff _ (
      and_false (is_true (enabled_on_request spec.console.enabled))
        (differs (effective_issuer_url spec) ""))
