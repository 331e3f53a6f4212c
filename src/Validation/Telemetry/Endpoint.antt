-- ===== src/Validation/Telemetry/Endpoint.antt =====
-- Which endpoints of a collector are accepted (normalizeTelemetryEndpoint of
-- internal/resources/validation.go).
use kubernaut_operator.Base.{
  ℤ, IsAtLeast, IsAtMost, at_least_iff, at_most_iff, String, ◌≡◌, ◌≢◌, ◌↔◌, refl, Bool, true, false,
  Option, none, some, if◌then◌else◌,
}
use kubernaut_operator.Kube.Op.{Error, Result, ok, err}
use kubernaut_operator.Validation.Checks.{Parses, Given, IsPresent, ◌&◌}
use kubernaut_operator.Validation.Accept.{
  first_iff, last_iff, fails_iff, or_false, and_false, flip_false, same_not, differs, differs_not,
  is_true, is_false,
}
use kubernaut_operator.Validation.Digits.{AreDigits, all_digits_iff}
use kubernaut_operator.Validation.Go.{Go, Url, Ip}
use kubernaut_operator.Validation.Telemetry.{
  blocks, is_out_of_range, accepted, failure, is_host_blocked, validate_telemetry_port,
  validate_split, validate_telemetry_host_port, rejects_uri, uri_address,
  normalize_telemetry_endpoint, validate_telemetry_endpoint,
}

module _ (go : Go) where
  -- A decimal number from 1 to 65535
  abbrev pub IsPort : String → Type 0
  IsPort port =
      Parses (λ z. IsPresent port × AreDigits port) (go.atoi port)
      & Parses (λ z. IsAtLeast 1 z & IsAtMost 65535 z) (go.atoi port)

  -- Not an address that loops back, is unspecified, local to the link or a group of hosts.
  abbrev pub IsAllowedIp : Ip → Type 0
  IsAllowedIp ip =
      (ip.is_loopback ≡ false)
      & (ip.is_unspecified ≡ false)
      & (ip.is_link_local_unicast ≡ false)
      & (ip.is_link_local_multicast ≡ false)
      & (ip.is_multicast ≡ false)

  -- None of three names in any case, and no such address.
  abbrev pub IsAllowedHost : String → Type 0
  IsAllowedHost host =
      (go.equal_fold host "localhost" ≡ false)
      & (go.equal_fold host "metadata.google.internal" ≡ false)
      & (go.equal_fold host "instance-data" ≡ false)
      & Given IsAllowedIp (go.parse_ip host)

  -- host:port, with a host that is allowed
  abbrev pub IsCollector : String → Type 0
  IsCollector endpoint =
      Parses
        (λ pair.
          (IsPresent pair.0 & IsPresent pair.1)
          & (IsAllowedHost (go.trim_brackets pair.0) & IsPort pair.1))
        (go.split_host_port endpoint)

  -- An https URI with nothing but the host, the port and at most the path "/"
  abbrev pub IsPlainUri : Url → Type 0
  IsPlainUri u =
      (go.equal_fold u.scheme "https" ≡ true)
      & IsPresent u.host
      & (u.has_user ≡ false)
      & (u.raw_query ≡ "")
      & (u.fragment ≡ "")
      & (IsPresent u.path → u.path ≡ "/")

  -- What an endpoint that is neither left out nor "stdout" has to satisfy.
  abbrev pub IsValidEndpoint : String → Type 0
  IsValidEndpoint endpoint =
      IsPresent endpoint & (endpoint ≢ "stdout")
      → ((go.trim_space endpoint ≡ endpoint) & (go.contains_any endpoint " \t\n\r" ≡ false))
        & ((go.contains_text endpoint "://" ≡ true
              → Parses (λ u. IsPlainUri u & IsCollector u.host) (go.parse_url endpoint))
            & (go.contains_text endpoint "://" ≡ false → IsCollector endpoint))

  range_iff : (z : ℤ) → (is_out_of_range z ≡ false) ↔ (IsAtLeast 1 z & IsAtMost 65535 z)
  range_iff z = or_false (at_least_iff 1 z) (at_most_iff 65535 z)

  tcp_number_iff : (port : String) → (validate_telemetry_port go port ≡ none) ↔ IsPort port
  unfolding validate_telemetry_port
  tcp_number_iff port =
      first_iff _ (fails_iff (go.atoi port) λ z. flip_false (all_digits_iff port))
        (last_iff _ (fails_iff (go.atoi port) range_iff))

  blocks_iff : (address : Option Ip) → (blocks address ≡ false) ↔ Given IsAllowedIp address
  blocks_iff none = (λ h. tt, λ h. refl)
  blocks_iff (some ip) =
      or_false
        (or_false
          (or_false (or_false (is_false ip.is_loopback) (is_false ip.is_unspecified))
            (is_false ip.is_link_local_unicast))
          (is_false ip.is_link_local_multicast))
        (is_false ip.is_multicast)

  host_iff : (host : String) → (is_host_blocked go host ≡ false) ↔ IsAllowedHost host
  unfolding is_host_blocked
  host_iff host =
      or_false (or_false (or_false (is_false _) (is_false _)) (is_false _))
        (blocks_iff (go.parse_ip host))

  split_iff :
      (pair : Option (String × String))
      → (validate_split go pair ≡ none)
        ↔ Parses
            (λ p.
              (IsPresent p.0 & IsPresent p.1) & (IsAllowedHost (go.trim_brackets p.0) & IsPort p.1))
            pair
  split_iff none = (λ h. cc, λ h. absurd h)
  split_iff (some (host, port)) =
      first_iff _ (or_false (differs host "") (differs port ""))
        (first_iff _ (host_iff (go.trim_brackets host)) (tcp_number_iff port))

  host_port_iff :
      (endpoint : String) → (validate_telemetry_host_port go endpoint ≡ none) ↔ IsCollector endpoint
  unfolding validate_telemetry_host_port
  host_port_iff endpoint = split_iff (go.split_host_port endpoint)

accepted_iff :
    (o : Option Error) (endpoint : String) {P : Type 0}
    → (o ≡ none) ↔ P
    → (failure (accepted o endpoint) ≡ none) ↔ P
accepted_iff none endpoint p = (λ h. p.0 refl, λ h. refl)
accepted_iff (some e) endpoint p = (λ h. cc, λ h. absurd (let x : some e ≡ none = p.1 h in cc))

failure_iff :
    {b : Bool} (e : Error) (r : Result String) {P Q : Type 0}
    → (b ≡ false) ↔ P
    → (failure r ≡ none) ↔ Q
    → (failure (if b then err e else r) ≡ none) ↔ (P & Q)
failure_iff {b = true} e r p q = (λ h. cc, λ h. absurd (let x : true ≡ false = p.1 h.0 in cc))
failure_iff {b = false} e r p q = (λ h. (p.0 refl, q.0 h), λ h. q.1 h.1)

choice_iff :
    (b : Bool) (r r' : Result String) {P Q : Type 0}
    → (failure r ≡ none) ↔ P
    → (failure r' ≡ none) ↔ Q
    → (failure (if b then r else r') ≡ none) ↔ ((b ≡ true → P) & (b ≡ false → Q))
choice_iff true r r' p q = (λ h. (λ e. p.0 h, λ e. cc), λ h. p.1 (h.0 refl))
choice_iff false r r' p q = (λ h. (λ e. cc, λ e. q.0 h), λ h. q.1 (h.1 refl))

unless_ok_iff :
    {b : Bool} (endpoint : String) (r : Result String) {P Q : Type 0}
    → (b ≡ false) ↔ P
    → (failure r ≡ none) ↔ Q
    → (failure (if b then ok endpoint else r) ≡ none) ↔ (P → Q)
unless_ok_iff {b = true} endpoint r p q =
    (λ h x. absurd (let e : true ≡ false = p.1 x in cc), λ h. refl)
unless_ok_iff {b = false} endpoint r p q = (λ h x. q.0 h, λ h. q.1 (h (p.0 refl)))

module _ (go : Go) where
  plain_iff : (u : Url) → (rejects_uri go u ≡ false) ↔ IsPlainUri go u
  plain_iff u =
      or_false
        (or_false
          (or_false
            (or_false
              (or_false (flip_false (is_true (go.equal_fold u.scheme "https"))) (differs u.host ""))
              (is_false u.has_user))
            (same_not u.raw_query ""))
          (same_not u.fragment ""))
        (and_false (differs_not u.path "") (same_not u.path "/"))

  uri_iff :
      (o : Option Url)
      → (failure (uri_address go o) ≡ none)
        ↔ Parses (λ u. IsPlainUri go u & IsCollector go u.host) o
  uri_iff none = (λ h. cc, λ h. absurd h)
  uri_iff (some u) = failure_iff _ _ (plain_iff u) (accepted_iff _ u.host (host_port_iff go u.host))

  -- normalizeTelemetryEndpoint accepts an endpoint exactly if it is left out, "stdout", or without
  -- blanks and either host:port or an https URI of no more than that (and the path "/"), where the
  -- host is given, in any case of its letters not "localhost", "metadata.google.internal" or
  -- "instance-data", and, if it is an address, not a loopback, unspecified, link-local or multicast
  -- one, and the port is a number of ASCII digits from 1 to 65535.
  pub telemetry_endpoint_iff :
      (endpoint : String)
      → (validate_telemetry_endpoint go endpoint ≡ none) ↔ IsValidEndpoint go endpoint
  unfolding validate_telemetry_endpoint normalize_telemetry_endpoint
  telemetry_endpoint_iff endpoint =
      unless_ok_iff endpoint _ (or_false (differs endpoint "") (differs endpoint "stdout")) (
        failure_iff _ _
          (or_false (same_not (go.trim_space endpoint) endpoint)
            (is_false (go.contains_any endpoint " \t\n\r")))
          (choice_iff (go.contains_text endpoint "://") _ _ (uri_iff (go.parse_url endpoint))
            (accepted_iff _ endpoint (host_port_iff go endpoint))))
