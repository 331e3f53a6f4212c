-- ===== src/Precreated/Accepted.antt =====
-- Which objects pass, and when all of them do (validatePrecreatedSecretKeys,
-- validatePrecreatedConfigMapKeys and validatePrecreatedConfiguration of
-- internal/controller/kubernaut_controller.go).
use kubernaut_operator.Base.{
  ℕ, String, ◌≡◌, ◌≢◌, refl, ap, ◌∙◌, ◌↔◌, ◌⊎◌, Bool, true, false, Option, none, some, List, [],
  ◌∷◌, contains, All, if◌then◌else◌,
}
use kubernaut_operator.Base.Map.{Map, lookup}
use kubernaut_operator.Kube.Object.{
  Object, Body, service, secret, config_map, job, deployment, network_policy, other,
}
use kubernaut_operator.Kube.Op.{Error, Result, ok, err}
use kubernaut_operator.Kube.Client.{Client, IsApiServer}
use kubernaut_operator.Kubernaut.{Kubernaut}
use kubernaut_operator.Validation.Checks.{to_list, ◌+++◌, Parses, IsPresent, ◌&◌}
use kubernaut_operator.Validation.Accept.{
  differs, same, flip_false, is_true, or_true, and_true, and_false, last_iff, first_iff,
  and_then_iff, first_of_iff, to_list_iff, ◌⊗◌,
}
use kubernaut_operator.Precreated.Collector.{PrecreatedReference}
use kubernaut_operator.Precreated.References.{precreated_references}
use kubernaut_operator.Precreated.Values.{
  IsOneLine, line_breaks_iff, differs_number, HasPackage, package_iff,
}
use kubernaut_operator.Precreated.Keys.{
  KeyMaterial, required_secret_value, value_of, pair_error, validate_secret_keys, yaml_error,
  validate_value, config_value, checked_config_value, validate_config_map_keys, body_error,
  read_error, key_of_reference, validate_precreated, precreated_errors, precreated_answer,
  validate_precreated_configuration,
}

none_collected : (errors : List Error) → (errors ≡ []) ↔ (errors ≡ [])
none_collected errors = (λ h. h, λ h. h)

module _ {P : Type 0} where
  accepts_iff : (errors : List Error) → (errors ≡ []) ↔ P → (precreated_answer errors ≡ ok tt) ↔ P
  accepts_iff [] f = (λ h. f.0 refl, λ p. refl)
  accepts_iff (e ∷ errors) f = (λ h. cc, λ p. absurd (let h : e ∷ errors ≡ [] = f.1 p in cc))

module _ {C P : Type 0} where
  when_iff :
      {b : Bool} (x : Option Error)
      → (b ≡ true) ↔ C
      → (x ≡ none) ↔ P
      → ((if b then x else none) ≡ none) ↔ (C → P)
  when_iff {b = true} x c p = (λ h z. p.0 h, λ h. p.1 (h (c.0 refl)))
  when_iff {b = false} x c p = (λ h z. absurd (let e : false ≡ true = c.1 z in cc), λ h. refl)

  choice_iff :
      {Q : Type 0} {b : Bool} (x y : Option Error)
      → (b ≡ true) ↔ C
      → (x ≡ none) ↔ P
      → (y ≡ none) ↔ Q
      → ((if b then x else y) ≡ none) ↔ ((C → P) & (¬ C → Q))
  choice_iff {Q} {b = true} x y c p q =
      (λ h. (λ z. p.0 h, λ n. absurd (n (c.0 refl))), λ h. p.1 (h.0 (c.0 refl)))
  choice_iff {Q} {b = false} x y c p q = (
    λ h. (λ z. absurd (let e : false ≡ true = c.1 z in cc), λ n. q.0 h),
    λ h. q.1 (h.1 (λ z. let e : false ≡ true = c.1 z in cc)),
  )

module _ (go : KeyMaterial) where
  -- Every key that is asked for has a value; those without line breaks, with certificates and with
  -- JSON are what they have to be; and a certificate and a key that are both asked for fit.
  abbrev pub SecretPasses : PrecreatedReference → Map String → Type 0
  SecretPasses r entries =
      All (λ key. Parses IsPresent (lookup key entries)) r.required_keys
      & (All (λ key. IsOneLine (value_of r entries key)) r.no_newline_keys
          & (All (λ key. go.has_certificates (value_of r entries key) ≡ true) r.pem_keys
              & (All
                    (λ key.
                      contains r.required_keys key ≡ true
                      → go.is_json (value_of r entries key) ≡ true)
                    r.json_keys
                  & ((contains r.required_keys "tls.crt" ≡ true)
                        × (contains r.required_keys "tls.key" ≡ true)
                      → go.is_key_pair (value_of r entries "tls.crt") (value_of r entries "tls.key")
                        ≡ true))))

  abbrev IsPolicyKey : String → Type 0
  IsPolicyKey key = (key ≡ "approval.rego") ⊎ (key ≡ "policy.rego")

  abbrev IsDocumentKey : String → Type 0
  IsDocumentKey key =
      ((key ≡ "llm-runtime.yaml") ⊎ (key ≡ "proactive-signal-mappings.yaml"))
      ⊎ (key ≡ "routing.yaml")

  -- A policy declares a package, and a document is an object with a field.
  abbrev pub ValuePasses : String → String → Type 0
  ValuePasses key value =
      (IsPolicyKey key → HasPackage go (go.lines (go.trim_space value)))
      & (¬ IsPolicyKey key
          → IsDocumentKey key
          → Parses (λ n. n ≢ 0) (go.yaml_fields (go.trim_space value)))

  abbrev pub ConfigMapPasses : PrecreatedReference → (entries binary : Map String) → Type 0
  ConfigMapPasses r entries binary =
      All
        (λ key.
          Parses (λ value. IsPresent value & ValuePasses key value)
            (config_value (lookup key entries) (lookup key binary)))
        r.required_keys

  abbrev pub BodyPasses : PrecreatedReference → Body → Type 0
  BodyPasses r (secret entries immutable) = SecretPasses r entries
  BodyPasses r (config_map entries binary) = ConfigMapPasses r entries binary
  BodyPasses r _ = Unit {0}

  required_iff :
      (r : PrecreatedReference) (found : Option String)
      → (required_secret_value r found ≡ none) ↔ Parses IsPresent found
  required_iff r none = (λ h. cc, λ p. absurd p)
  required_iff r (some value) = last_iff _ (differs value "")

  pair_iff :
      (r : PrecreatedReference) (entries : Map String)
      → (pair_error go r entries ≡ none) ↔ (
          (contains r.required_keys "tls.crt" ≡ true) × (contains r.required_keys "tls.key" ≡ true)
          → go.is_key_pair (value_of r entries "tls.crt") (value_of r entries "tls.key") ≡ true)
  pair_iff r entries =
      last_iff _ (and_false (and_true (is_true _) (is_true _)) (flip_false (is_true _)))

  secret_keys_iff :
      (r : PrecreatedReference) (entries : Map String)
      → (validate_secret_keys go r entries ≡ none) ↔ SecretPasses r entries
  unfolding validate_secret_keys
  secret_keys_iff r entries =
      and_then_iff _ _ (first_of_iff r.required_keys (λ key. required_iff r (lookup key entries))) (
        and_then_iff _ _
          (first_of_iff r.no_newline_keys
            (λ key. last_iff _ (line_breaks_iff (value_of r entries key))))
          (and_then_iff _ _ (first_of_iff r.pem_keys (λ key. last_iff _ (flip_false (is_true _)))) (
            and_then_iff _ _
              (first_of_iff r.json_keys
                (λ key. last_iff _ (and_false (is_true _) (flip_false (is_true _)))))
              (pair_iff r entries))))

  yaml_iff :
      (r : PrecreatedReference) (fields : Option ℕ)
      → (yaml_error r fields ≡ none) ↔ Parses (λ n. n ≢ 0) fields
  yaml_iff r none = (λ h. cc, λ p. absurd p)
  yaml_iff r (some n) = last_iff _ (differs_number n 0)

  value_iff :
      (r : PrecreatedReference) (key value : String)
      → (validate_value go r key value ≡ none) ↔ ValuePasses key value
  unfolding validate_value
  value_iff r key value =
      choice_iff _ _ (or_true (same key "approval.rego") (same key "policy.rego"))
        (last_iff _ (flip_false (package_iff go (go.lines (go.trim_space value)))))
        (when_iff _
          (or_true
            (or_true (same key "llm-runtime.yaml") (same key "proactive-signal-mappings.yaml"))
            (same key "routing.yaml"))
          (yaml_iff r (go.yaml_fields (go.trim_space value))))

  found_iff :
      (r : PrecreatedReference) (key : String) (found : Option String)
      → (checked_config_value go r key found ≡ none)
        ↔ Parses (λ value. IsPresent value & ValuePasses key value) found
  found_iff r key none = (λ h. cc, λ p. absurd p)
  found_iff r key (some value) = first_iff _ (differs value "") (value_iff r key value)

  body_iff :
      (r : PrecreatedReference) (body : Body) → (body_error go r body ≡ none) ↔ BodyPasses r body
  unfolding validate_config_map_keys
  body_iff r (secret entries immutable) = secret_keys_iff r entries
  body_iff r (config_map entries binary) = first_of_iff r.required_keys (λ key. found_iff r key _)
  body_iff r (service spec) = (λ h. tt, λ p. refl)
  body_iff r (job conditions) = (λ h. tt, λ p. refl)
  body_iff r (deployment replicas ready_replicas) = (λ h. tt, λ p. refl)
  body_iff r (network_policy spec) = (λ h. tt, λ p. refl)
  body_iff r (other spec) = (λ h. tt, λ p. refl)

  answer_iff :
      (r : PrecreatedReference) (answer : Result Object)
      → (read_error go r answer ≡ none) ↔ ((o : Object) × (answer ≡ ok o) × BodyPasses r o.body)
  answer_iff r (ok o) =
      let body = body_iff r o.body in
      (
        λ h. (o, refl, body.0 h),
        λ (p, e, passes). ap (read_error go r) e ∙ (body_iff r p.body).1 passes,
      )
  answer_iff r (err e) = (λ h. cc, λ (p, f, passes). cc)

  module _ (c : Client) (namespace : String) where
    -- Each read, made in order, answers an object that passes.
    abbrev pub AllPass : List PrecreatedReference → c.World → Type 0
    AllPass [] w = Unit
    AllPass (r ∷ rs) w =
        let answer = c.get (key_of_reference namespace r) w in
        ((o : Object) × (answer.0 ≡ ok o) × BodyPasses r o.body) × AllPass rs answer.1

    -- What the loop collects, as a value.
    errors_iff :
        (rs : List PrecreatedReference) (w : c.World)
        → (errors : List Error) × ((precreated_errors go c namespace rs w).0 ≡ ok errors)
          × ((errors ≡ []) ↔ AllPass rs w)
    unfolding precreated_errors validate_precreated
    errors_iff [] w = ([], refl, (λ h. tt, λ p. refl))
    errors_iff (r ∷ rs) w =
        let answer = c.get (key_of_reference namespace r) w in
        let (errors, e, rest) = errors_iff rs answer.1 in
        let here = to_list_iff (answer_iff r answer.0) in
        (to_list (read_error go r answer.0) +++ errors, rw e refl, here ⊗ rest)

  module _ {c : Client} (api : IsApiServer c) where
    errors_read :
        (namespace : String) (rs : List PrecreatedReference) (w : c.World)
        → c.history (precreated_errors go c namespace rs w).1 ≡ c.history w
    unfolding precreated_errors validate_precreated
    errors_read namespace [] w = refl
    errors_read namespace (r ∷ rs) w =
        let k = key_of_reference namespace r in
        let next = (c.get k w).1 in
        let (errors, e, f) = errors_iff c namespace rs next in
        rw e (errors_read namespace rs next ∙ api.get_reads k w)

    -- The configuration is accepted exactly if the collection of the references reports no error and
    -- every referenced object is read and passes: each required key has a value, and what has to be
    -- without line breaks, a certificate, JSON, a key pair, a policy or a document is one. Nothing is
    -- written, whatever the answer.
    pub precreated_configuration_iff :
        (kn : Kubernaut) (w : c.World)
        → let (answer, after) = validate_precreated_configuration go c kn w in
          let collected = precreated_references kn.spec in
          ((answer ≡ ok tt)
            ↔ ((collected.errs ≡ []) & AllPass c kn.namespace collected.references w))
          × (c.history after ≡ c.history w)
    unfolding validate_precreated_configuration
    precreated_configuration_iff kn w =
        let collected = precreated_references kn.spec in
        let (errors, e, passes) = errors_iff c kn.namespace collected.references w in
        let whole =
          accepts_iff (collected.errs +++ errors) (none_collected collected.errs ⊗ passes) in
        (rw e whole, rw e (errors_read kn.namespace collected.references w))
