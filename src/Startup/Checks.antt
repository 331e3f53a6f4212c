-- ===== src/Startup/Checks.antt =====
-- What one check of the validation says, passed or failed (internal/controller/kubernaut_controller.go).
use kubernaut_operator.Base.{
  String, ◌≡◌, ◌≢◌, refl, sym, ap, ◌∙◌, inl, inr, true, Option, none, some, List, [], ◌∷◌, ◌==◌,
  eq_iff, arith, Bool-cases,
}
use kubernaut_operator.Base.Map.{Map}
use kubernaut_operator.Kube.Object.{Object, Key}
use kubernaut_operator.Kube.Op.{Error, wrapped, message, Result, Result-cases, ok, err, Op, lift}
use kubernaut_operator.Kube.Library.{Library, Texts}
use kubernaut_operator.Kube.Client.{Client}
use kubernaut_operator.Kubernaut.{Kubernaut, failed}
use kubernaut_operator.Status.{State, Requeue, no_requeue, emit}
use kubernaut_operator.AuditKey.Material.{entries_of}
use kubernaut_operator.Migration.Gate.{set_condition_requeues}
use kubernaut_operator.Validation.Checks.{IsPresent, ◌&◌}
use kubernaut_operator.Precreated.Phase.{failed_check_ends, failed_check_requeues}
use kubernaut_operator.Startup.{
  host_characters, validate_hostname, ◌then_check◌, unless_handled, read_secret, check_input,
  handle_spec_validation_failure, by_errors,
}

module _ {c : Client} where
  -- A check that ends the phase asks for another run.
  abbrev pub Stops : Op (State c) (Option Requeue) → Type 0
  Stops check = (s : State c) (q : Requeue) → (check s).0 ≡ ok (some q) → q ≢ no_requeue

  pub then_passes :
      (check next : Op (State c) (Option Requeue)) (s t : State c)
      → (check then_check next) s ≡ (ok none, t)
      → (u : State c) × (check s ≡ (ok none, u)) × (next u ≡ (ok none, t))
  unfolding ◌then_check◌
  then_passes check next s t h = elim (Result-cases (check s).0) [
    | inr (x, e) ↦ absurd (let z : err x ≡ ok none = ap (λ p. p.0) (rw e at h) in cc)
    | inl (none, e) ↦ ((check s).1, cc e, rw e at h)
    | inl (some q, e) ↦ absurd (let z : ok (some q) ≡ ok none = ap (λ p. p.0) (rw e at h) in cc)
  ]

  pub then-Stops :
      (check next : Op (State c) (Option Requeue))
      → Stops check
      → Stops next
      → Stops (check then_check next)
  unfolding ◌then_check◌
  then-Stops check next f g s q h = elim (Result-cases (check s).0) [
    | inr (x, e) ↦ absurd (let z : err x ≡ ok (some q) = rw e at h in cc)
    | inl (none, e) ↦ g (check s).1 q (rw e at h)
    | inl (some r, e) ↦ let same : ok (some r) ≡ ok (some q) = rw e at h in f s q (e ∙ same)
  ]

  pub goes_on :
      (check : Op (State c) (Option Requeue)) (rest : Op (State c) Requeue) (s : State c)
      → Stops check
      → (unless_handled check rest s).0 ≡ ok no_requeue
      → (t : State c) × (check s ≡ (ok none, t)) × ((rest t).0 ≡ ok no_requeue)
  unfolding unless_handled
  goes_on check rest s stops h = elim (Result-cases (check s).0) [
    | inr (x, e) ↦ absurd (let z : err x ≡ ok no_requeue = rw e at h in cc)
    | inl (none, e) ↦ ((check s).1, cc e, rw e at h)
    | inl (some q, e) ↦
        let same : ok q ≡ ok no_requeue = rw e at h in absurd (stops s q e (cc same))
  ]

  pub secret_passes :
      (text : String) (key : Kubernaut → Key) (validation : Map String → Result (Unit {0}))
      (s t : State c)
      → read_secret text key validation s ≡ (ok tt, t)
      → (o : Object) × (c.get (key s.cr) s.world ≡ (ok o, t.world))
        × (validation (entries_of o.body) ≡ ok tt)
        × (t.cr ≡ s.cr)
  unfolding read_secret
  secret_passes text key validation s t h = elim (Result-cases (c.get (key s.cr) s.world).0) [
    | inr (x, e) ↦ absurd (let z : err (wrapped text x) ≡ ok tt = ap (λ p. p.0) (rw e at h) in cc)
    | inl (o, e) ↦
        let w = (c.get (key s.cr) s.world).1 in
        let after = record s { world = w } in
        let whole : (validation (entries_of o.body), after) ≡ (ok tt, t) = rw e at h in
        let moved : after ≡ t = ap (λ p. p.1) whole in
        let world : w ≡ t.world = ap (λ (x : State c). x.world) moved in
        (o, cc, ap (λ p. p.0) whole, ap (λ (x : State c). x.cr) (sym moved))
  ]

-- Not empty, and of the characters that a host may have.
abbrev pub IsHost : String → Type 0
IsHost host = IsPresent host & (host_characters host ≡ true)

validate_hostname-IsHost : (host : String) → validate_hostname host ≡ ok tt → IsHost host
unfolding validate_hostname
validate_hostname-IsHost host h = elim (Bool-cases (host == "")) [
  | inl e ↦ absurd (let z : err (message "hostname must not be empty") ≡ ok tt = rw e at h in cc)
  | inr e ↦ elim (Bool-cases (host_characters host)) [
    | inl f ↦ (λ x. ground (arith, eq_iff host ""), f)
    | inr f ↦ absurd (
        let z : err (message "hostname contains invalid characters") ≡ ok tt = rw (e, f) at h in cc)
  ]
]

module _ (lib : Library) {c : Client} where
  pub check_passes :
      (reason text : String) (validation : Op (State c) (Unit {0})) (s t : State c)
      → check_input lib reason text validation s ≡ (ok none, t)
      → validation s ≡ (ok tt, t)
  unfolding check_input
  check_passes reason text validation s t h = elim (Result-cases (validation s).0) [
    | inl (u, e) ↦
        let rest : (ok none, (validation s).1) ≡ (ok none, t) = rw e at h in
        let moved : (validation s).1 ≡ t = ap (λ p. p.1) rest in cc
    | inr (x, e) ↦ absurd (
        failed_check_ends lib "BYOValidated" reason (failed text x)
          (emit true reason (validation s).1).1 (ap (λ p. p.0) (rw e at h)))
  ]

  pub check_input-Stops :
      (texts : Texts) (reason text : String) (validation : Op (State c) (Unit {0}))
      → Stops (check_input lib reason text validation)
  unfolding check_input
  check_input-Stops texts reason text validation s q h = elim (Result-cases (validation s).0) [
    | inl (u, e) ↦ absurd (let z : ok none ≡ ok (some q) = rw e at h in cc)
    | inr (x, e) ↦
        failed_check_requeues lib texts "BYOValidated" reason (failed text x)
          (emit true reason (validation s).1).1 q (rw e at h)
  ]

  pub no_errors :
      (texts : Texts) (errors : List Error) (rest : Op (State c) Requeue) (s : State c)
      → (by_errors lib rest errors s).0 ≡ ok no_requeue
      → (errors ≡ []) × ((rest s).0 ≡ ok no_requeue)
  unfolding handle_spec_validation_failure
  no_errors texts [] rest s h = (refl, h)
  no_errors texts (e ∷ errors) rest s h = absurd (
      set_condition_requeues lib texts "BYOValidated" "SpecValidationFailed"
        (failed "" (message "CR validation failed")) (emit true "SpecValidationFailed" s).1 h)

  pub check_input-IsHost :
      (reason text : String) (pick : Kubernaut → String) (s t : State c)
      → check_input lib reason text (λ x. lift (validate_hostname (pick x.cr)) x) s ≡ (ok none, t)
      → IsHost (pick s.cr) × (s ≡ t)
  check_input-IsHost reason text pick s t h =
      let whole : (validate_hostname (pick s.cr), s) ≡ (ok tt, t) =
        check_passes reason text (λ x. lift (validate_hostname (pick x.cr)) x) s t h in
      (validate_hostname-IsHost (pick s.cr) (ap (λ p. p.0) whole), ap (λ p. p.1) whole)
