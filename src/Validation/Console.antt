-- ===== src/Validation/Console.antt =====
-- The section of the console (validateConsoleRedirectURL, validateConsoleProviderLogoutURL and what
-- they call, in internal/resources/validation.go, and validateConsoleEffectiveIssuer of
-- internal/resources/console.go). The path of the field is fixed, and the texts leave out what the
-- code formats into them.
pub mod Rules
pub mod Logout
use kubernaut_operator.Base.{
  ltb, String, Bool, true, false, not, ◌&&◌, ◌||◌, Option, none, some, List, [], ◌∷◌, ◌==◌,
  if◌then◌else◌, contains,
}
use kubernaut_operator.Kube.Op.{Error, message, Result, ok, err, bind}
use kubernaut_operator.Kubernaut.{Spec, is_console_enabled, effective_issuer_url}
use kubernaut_operator.Validation.Checks.{issue, first, and_then, fails}
use kubernaut_operator.Validation.Go.{Go, Url}

abbrev pub id_token_placeholder : String
id_token_placeholder = "{id_token}"

abbrev pub redirect_path : String
redirect_path = "spec.console.auth.redirectURL"

abbrev pub logout_path : String
logout_path = "spec.console.auth.providerLogoutURL"

-- The keys of `allowed` in unsupportedConsoleLogoutQueryParameter
abbrev pub allowed_parameters : List String
allowed_parameters = "id_token_hint" ∷ "logout_hint" ∷ "client_id" ∷ "ui_locales" ∷ []

-- validateConsoleEffectiveIssuer
unfoldable pub validate_console_effective_issuer : Spec → Option Error
validate_console_effective_issuer spec =
    first (is_console_enabled spec && effective_issuer_url spec == "")
      (message "console requires a valid effective OIDC issuer") none

module _ (go : Go) where
  abbrev pub rejects_redirect : Url → Bool
  rejects_redirect u =
      not (go.equal_fold u.scheme "https")
      || u.host == ""
      || u.hostname == ""
      || u.has_user
      || not (u.raw_query == "")
      || not (u.fragment == "")
      || not (u.escaped_path == "/oauth2/callback")

  -- validateConsoleRedirectURL
  unfoldable pub validate_console_redirect_url : Bool → String → Option Error
  validate_console_redirect_url enabled raw =
      if not enabled
      then none
      else first (raw == "") (issue redirect_path "is required when Console is enabled") (
          first (not (go.trim_space raw == raw))
            (issue redirect_path "must not contain leading or trailing whitespace")
            (first (fails (go.parse_url raw) rejects_redirect)
              (issue redirect_path "must be an absolute https URL ending in /oauth2/callback")
              none))

  -- validateConsoleLogoutURLShape
  unfoldable pub validate_logout_shape : Url → Option Error
  validate_logout_shape u =
      first (not (go.equal_fold u.scheme "https")) (issue logout_path "must use https") (
        first (u.hostname == "") (issue logout_path "must include a host") (
          first u.has_user (issue logout_path "must not include user information") (
            first (not (u.fragment == "")) (issue logout_path "must not include a fragment") none)))

  -- validateConsoleLogoutPlaceholders
  unfoldable pub validate_logout_placeholders : String → Option Error
  validate_logout_placeholders raw =
      first (ltb 1 (go.count_text raw id_token_placeholder))
        (issue logout_path "may contain at most one literal placeholder")
        (first (go.contains_any (go.remove_all raw id_token_placeholder) "{}")
          (issue logout_path "contains an unsupported placeholder") none)

  -- queryContainsPlaceholder
  abbrev pub any_placeholder : List String → Bool
  any_placeholder [] = false
  any_placeholder (value ∷ values) =
      go.contains_text value id_token_placeholder || any_placeholder values

  unfoldable pub query_contains_placeholder : List (String × List String) → Bool
  query_contains_placeholder [] = false
  query_contains_placeholder (entry ∷ query) =
      any_placeholder entry.1 || query_contains_placeholder query

  -- unsupportedConsoleLogoutQueryParameter: some key that is not allowed, the empty text for none
  unfoldable pub unsupported_parameter : List (String × List String) → String
  unsupported_parameter [] = ""
  unsupported_parameter (entry ∷ query) =
      let rest = unsupported_parameter query in
      if not (contains allowed_parameters (go.to_lower entry.0)) then entry.0 else rest

  abbrev pub validate_query : String → Option (List (String × List String)) → Option Error
  validate_query raw none = some (issue logout_path "contains an invalid query")
  validate_query raw (some query) =
      first (not (go.contains_text raw id_token_placeholder) && query_contains_placeholder query)
        (issue logout_path "must use the literal placeholder")
        (first (not (unsupported_parameter query == ""))
          (issue logout_path "contains unsupported query parameter") none)

  abbrev pub is_relative : Url → Bool
  is_relative u = u.scheme == "" || u.host == "" || not (u.opaque == "")

  abbrev pub result_of : Option Error → Url → Result Url
  result_of none u = ok u
  result_of (some e) u = err e

  abbrev pub checked_logout : String → Option Url → Result Url
  checked_logout raw none = err (issue logout_path "must be an absolute HTTPS URL")
  checked_logout raw (some u) =
      result_of
        (first (is_relative u) (issue logout_path "must be an absolute HTTPS URL") (
          and_then (validate_logout_shape u) (
            and_then (validate_logout_placeholders raw)
              (validate_query raw (go.parse_query u.raw_query)))))
        u

  -- parseConsoleProviderLogoutURL
  unfoldable pub parse_logout_url : String → Result Url
  parse_logout_url raw =
      if not (go.trim_space raw == raw)
      then err (issue logout_path "must not contain leading or trailing whitespace")
      else checked_logout raw (go.parse_url raw)

  -- canonicalHTTPSAuthority
  abbrev pub port_or_default : String → String
  port_or_default port = if port == "" then "443" else port

  unfoldable pub canonical_https_authority : Url → String
  canonical_https_authority u = go.join_host_port (go.to_lower u.hostname) (port_or_default u.port)

  abbrev pub rejects_issuer : Url → Bool
  rejects_issuer u = u.scheme == "" || u.host == "" || u.has_user

  abbrev pub validate_authority : Url → Option Url → Option Error
  validate_authority logout none =
      some (issue logout_path "cannot be validated without a valid effective OIDC issuer")
  validate_authority logout (some issuer) =
      first (rejects_issuer issuer)
        (issue logout_path "cannot be validated without a valid effective OIDC issuer")
        (first (not (go.equal_fold issuer.scheme "https"))
          (issue logout_path "requires an HTTPS effective OIDC issuer")
          (first (not (canonical_https_authority logout == canonical_https_authority issuer))
            (issue logout_path "authority must match the effective OIDC issuer") none))

  -- validateConsoleLogoutAuthority
  unfoldable pub validate_logout_authority : Spec → Url → Option Error
  validate_logout_authority spec logout =
      validate_authority logout (go.parse_url (effective_issuer_url spec))

  abbrev pub after_parse : Spec → Result Url → Option Error
  after_parse spec (err e) = some e
  after_parse spec (ok u) =
      if not (is_console_enabled spec) then none else validate_logout_authority spec u

  -- validateConsoleProviderLogoutURL
  unfoldable pub validate_console_provider_logout_url : Spec → Option Error
  validate_console_provider_logout_url spec =
      if spec.console.provider_logout_url == ""
      then none
      else after_parse spec (parse_logout_url spec.console.provider_logout_url)
