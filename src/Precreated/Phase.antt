-- ===== src/Precreated/Phase.antt =====
-- When the validation goes on behind the pre-created objects (validatePrecreatedConfigurationPhase of
-- internal/controller/kubernaut_controller.go).
use kubernaut_operator.Base.{String, true, ◌≡◌, ◌≢◌, refl, sym, ◌∙◌, ◌↔◌, inl, inr, none, some, []}
use kubernaut_operator.Kube.Op.{Result-cases, ok, err, pure, ◌>>=◌}
use kubernaut_operator.Kube.Library.{Library, Texts}
use kubernaut_operator.Kube.Client.{Client, IsApiServer}
use kubernaut_operator.Validation.Checks.{◌&◌}
use kubernaut_operator.Kubernaut.{Message, failed}
use kubernaut_operator.Migration.Gate.{set_condition_requeues}
use kubernaut_operator.Status.{State, Requeue, no_requeue, emit, set_condition_and_requeue}
use kubernaut_operator.Precreated.References.{precreated_references}
use kubernaut_operator.Precreated.Keys.{
  KeyMaterial, validate_precreated_configuration, validate_precreated_phase,
}
use kubernaut_operator.Precreated.Accepted.{AllPass, precreated_configuration_iff}

module _ (lib : Library) {c : Client} where
  -- A failed check ends the phase.
  pub failed_check_ends :
      (type reason : String) (note : Message) (s : State c)
      → ((set_condition_and_requeue lib type reason note >>= λ requeue. pure (some requeue)) s).0
        ≢ ok none
  failed_check_ends type reason note s h =
      elim (Result-cases (set_condition_and_requeue lib type reason note s).0) [
        | inl (r, e) ↦ let z : ok (some r) ≡ ok none = rw e at h in cc
        | inr (x, e) ↦ let z : err x ≡ ok none = rw e at h in cc
      ]

module _ (lib : Library) (go : KeyMaterial) {c : Client} (api : IsApiServer c) where
  -- The phase goes on exactly if nothing is missing from the references and every object passes.
  pub precreated_phase_iff :
      (s : State c)
      → ((validate_precreated_phase lib go s).0 ≡ ok none) ↔ (
          ((precreated_references s.cr.spec).errs ≡ [])
          & AllPass go c s.cr.namespace (precreated_references s.cr.spec).references s.world)
  unfolding validate_precreated_phase
  precreated_phase_iff s =
      let after = record s { world = (validate_precreated_configuration go c s.cr s.world).1 } in
      let whole = (precreated_configuration_iff go api s.cr s.world).0 in
      elim (Result-cases (validate_precreated_configuration go c s.cr s.world).0) [
        | inl (u, e) ↦ (λ h. whole.0 e, λ p. rw e refl)
        | inr (x, e) ↦ (
          λ h. absurd (
              failed_check_ends lib "BYOValidated" "PrecreatedConfigurationInvalid" (failed "" x)
                (emit true "PrecreatedConfigurationInvalid" after).1 (rw e at h)),
          λ p. absurd (let z : err x ≡ ok tt = sym e ∙ whole.1 p in cc),
        )
      ]

module _ (lib : Library) (texts : Texts) {c : Client} where
  -- What a failed check answers asks for another run.
  pub failed_check_requeues :
      (type reason : String) (note : Message) (s : State c) (q : Requeue)
      → ((set_condition_and_requeue lib type reason note >>= λ requeue. pure (some requeue)) s).0
        ≡ ok (some q)
      → q ≢ no_requeue
  failed_check_requeues type reason note s q h =
      elim (Result-cases (set_condition_and_requeue lib type reason note s).0) [
        | inr (x, e) ↦ absurd (let z : err x ≡ ok (some q) = rw e at h in cc)
        | inl (r, e) ↦
            let same : ok (some r) ≡ ok (some q) = rw e at h in
            λ idle. set_condition_requeues lib texts type reason note s (e ∙ (cc same))
      ]

  -- A phase that ends asks for another run.
  pub precreated_stops :
      (go : KeyMaterial) (s : State c) (q : Requeue)
      → (validate_precreated_phase lib go s).0 ≡ ok (some q)
      → q ≢ no_requeue
  unfolding validate_precreated_phase
  precreated_stops go s q h =
      let answer = validate_precreated_configuration go c s.cr s.world in
      let after = record s { world = answer.1 } in
      elim (Result-cases answer.0) [
        | inl (u, e) ↦ absurd (let z : ok none ≡ ok (some q) = rw e at h in cc)
        | inr (x, e) ↦
            let warned = (emit true "PrecreatedConfigurationInvalid" after).1 in
            failed_check_requeues "BYOValidated" "PrecreatedConfigurationInvalid" (failed "" x)
              warned q (rw e at h)
      ]
