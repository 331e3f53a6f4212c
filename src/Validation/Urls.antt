-- ===== src/Validation/Urls.antt =====
-- The URLs that more than one section checks (validateFleetHTTPSURL, validateOIDCURL of
-- internal/resources/validation.go).
use kubernaut_operator.Base.{
  String, ◌≡◌, ◌↔◌, ◌⊎◌, Bool, true, false, not, ◌&&◌, ◌||◌, Option, none, some, ◌==◌,
}
use kubernaut_operator.Kube.Op.{Error}
use kubernaut_operator.Validation.Checks.{issue, first, fails, Parses, IsPresent, ◌&◌}
use kubernaut_operator.Validation.Accept.{
  first_iff, last_iff, fails_iff, or_false, or_true, and_true, flip_false, same, same_not, differs,
  is_true, is_false,
}
use kubernaut_operator.Validation.Go.{Go, Url}

abbrev pub https_scheme : String
https_scheme = "https"

abbrev pub http_scheme : String
http_scheme = "http"

-- `parsed.Scheme != httpsURLScheme || parsed.Host == "" || parsed.User != nil`
abbrev pub rejects_https : Url → Bool
rejects_https u = (not (u.scheme == https_scheme) || u.host == "") || u.has_user

-- `u.Scheme == "" || u.Host == ""`
abbrev pub rejects_absolute : Url → Bool
rejects_absolute u = u.scheme == "" || u.host == ""

module _ (go : Go) where
  -- validateFleetHTTPSURL
  unfoldable pub validate_fleet_https_url : String → String → Option Error
  validate_fleet_https_url path value =
      first (not (go.trim_space value == value))
        (issue path "must not contain leading or trailing whitespace")
        (first (fails (go.parse_url value) rejects_https)
          (issue path "must be an absolute https URL without user information") none)

  abbrev pub permits : Bool → Url → Bool
  permits allow_insecure u =
      go.to_lower u.scheme == https_scheme
      || (go.to_lower u.scheme == http_scheme && allow_insecure)

  abbrev pub rejects_scheme : Bool → Option Url → Bool
  rejects_scheme allow_insecure none = false
  rejects_scheme allow_insecure (some u) = not (permits allow_insecure u)

  -- validateOIDCURL
  unfoldable pub validate_oidc_url : String → String → Bool → Option Error
  validate_oidc_url raw path allow_insecure =
      first (fails (go.parse_url raw) rejects_absolute)
        (issue path "must be an absolute URL with scheme and host")
        (first (rejects_scheme allow_insecure (go.parse_url raw))
          (issue path "scheme must be https") none)

  -- An absolute https URL without user information
  abbrev pub IsHttpsUrl : String → Type 0
  IsHttpsUrl value =
      (go.trim_space value ≡ value)
      & Parses (λ u. (u.scheme ≡ https_scheme) & IsPresent u.host & (u.has_user ≡ false))
          (go.parse_url value)

  -- An absolute URL of the scheme https, or http where that is allowed
  abbrev pub IsOidcUrl : Bool → String → Type 0
  IsOidcUrl allow_insecure raw =
      Parses
        (λ u.
          (IsPresent u.scheme & IsPresent u.host)
          & ((go.to_lower u.scheme ≡ https_scheme)
              ⊎ ((go.to_lower u.scheme ≡ http_scheme) & (allow_insecure ≡ true))))
        (go.parse_url raw)

  pub fleet_url_iff :
      (path value : String) → (validate_fleet_https_url path value ≡ none) ↔ IsHttpsUrl value
  unfolding validate_fleet_https_url
  fleet_url_iff path value = first_iff _ (same_not (go.trim_space value) value) (
      last_iff _ (
        fails_iff (go.parse_url value) λ u.
          or_false (or_false (same_not u.scheme https_scheme) (differs u.host ""))
            (is_false u.has_user)))

  oidc_parsed :
      (o : Option Url) (allow_insecure : Bool) (e e' : Error)
      → (first (fails o rejects_absolute) e (first (rejects_scheme allow_insecure o) e' none)
          ≡ none)
        ↔ Parses
            (λ u.
              (IsPresent u.scheme & IsPresent u.host)
              & ((go.to_lower u.scheme ≡ https_scheme)
                  ⊎ ((go.to_lower u.scheme ≡ http_scheme) & (allow_insecure ≡ true))))
            o
  unfolding fails first
  oidc_parsed none allow_insecure e e' = (λ h. cc, λ p. absurd p)
  oidc_parsed (some u) allow_insecure e e' =
      first_iff e (or_false (differs u.scheme "") (differs u.host "")) (
        last_iff e' (
          flip_false (
            or_true (same (go.to_lower u.scheme) https_scheme)
              (and_true (same (go.to_lower u.scheme) http_scheme) (is_true allow_insecure)))))

  pub issuer_url_iff :
      (raw path : String) (allow_insecure : Bool)
      → (validate_oidc_url raw path allow_insecure ≡ none) ↔ IsOidcUrl allow_insecure raw
  unfolding validate_oidc_url
  issuer_url_iff raw path allow_insecure = oidc_parsed (go.parse_url raw) allow_insecure _ _
