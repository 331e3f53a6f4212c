-- ===== src/Status/Phases.antt =====
-- What the status writes of one reconciliation do to the phase and to the conditions (setPhase,
-- patchStatus, setConditionAndRequeue of internal/controller/kubernaut_controller.go).
use kubernaut_operator.Base.{
  ℕ, String, ◌≡◌, refl, ap, ◌∙◌, ◌≢◌, ◌≤◌, ◌⊎◌, inl, inr, some, arith, if◌then◌else◌, ◌==◌,
}
use kubernaut_operator.Kube.Op.{Error, Result-cases, ok, err}
use kubernaut_operator.Kube.Library.{Library, IsConditionSet}
use kubernaut_operator.Kube.Client.{Client}
use kubernaut_operator.Kubernaut.{
  Kubernaut, Status, Phase, error, Condition, Message, condition_false,
}
use kubernaut_operator.Status.{
  State, requeue_error, phase_order, set_phase, put_condition, patch_status,
  set_condition_and_requeue,
}

-- Short of an error the phase never goes back: its rank in phaseOrder does not fall, and the phase
-- is the old one or the one that was asked for. An error is taken at once, and after an error any
-- phase is.
pub set_phase_order :
    (phase : Phase) (status : Status)
    → ((phase ≢ error)
        → (phase_order status.phase ≤ phase_order (set_phase phase status).phase)
          × (((set_phase phase status).phase ≡ status.phase)
              ⊎ ((set_phase phase status).phase ≡ phase)))
      × ((set_phase error status).phase ≡ error)
      × ((status.phase ≡ error) → (set_phase phase status).phase ≡ phase)
unfolding set_phase
set_phase_order phase status = (λ h. ground arith, refl, λ e. ground arith)

-- What the API server documents of a status patch, where the operator alone writes the status and the
-- base of the patch is current: the answer has the status that was sent, of the same object. A patch
-- holds the changes against its base alone, so that of a stale base this would be too much to ask.
pub record IsStatusServer (c : Client) : Type 0 where
  pub patch_applies :
      (old new : Kubernaut) (w : c.World) (kn : Kubernaut)
      → (c.patch_status old new w).0 ≡ ok kn
      → (kn.status ≡ new.status)
        × (kn.name ≡ new.name)
        × (kn.namespace ≡ new.namespace)
        × (kn.uid ≡ new.uid)

-- The condition that setConditionAndRequeue sets.
abbrev pub failed_condition : String → String → Message → ℕ → Condition
failed_condition type reason message generation = record {
  type = type;
  status = condition_false;
  reason = reason;
  message = message;
  observed_generation = generation;
}

-- A status patch that is accepted leaves the status that was asked for.
pub patch_status_applies :
    {c : Client} (server : IsStatusServer c) (change : Kubernaut → Status) (s : State c)
    → (patch_status change s).0 ≡ ok tt
    → (patch_status change s).1.cr.status ≡ change s.cr
unfolding patch_status
patch_status_applies {c} server change s =
    let new = record s.cr { status = change s.cr } in
    elim (Result-cases (c.patch_status s.cr new s.world).0) [
      | inl (kn, e) ↦ rw e (λ h. (server.patch_applies s.cr new s.world kn e).0)
      | inr (x, e) ↦ rw e (λ h. cc)
    ]

module _ (lib : Library) {c : Client} (server : IsStatusServer c) (set : IsConditionSet lib) where
  -- A failed check ends in one of two ways. If the status patch is accepted, the next run is
  -- requested after requeueError, the phase is `error`, the condition of the check is "False" with
  -- its reason, and every other condition is as before. If the patch fails, its error is returned
  -- and the custom resource in memory is as before.
  -- This assumes that an accepted status patch answers with what was sent: the base is current.
  pub set_condition_and_requeue_lem :
      (type reason : String) (message : Message) (s : State c)
      → let (r, t) = set_condition_and_requeue lib type reason message s in
        ((r ≡ ok requeue_error)
          × (t.cr.status.phase ≡ error)
          × ((other : String)
              → lib.find_condition other t.cr.status.conditions ≡ (
                  if type == other
                  then some (failed_condition type reason message s.cr.generation)
                  else lib.find_condition other s.cr.status.conditions)))
        ⊎ (((e : Error) × (r ≡ err e)) × (t.cr ≡ s.cr))
  unfolding set_condition_and_requeue patch_status put_condition set_phase
  set_condition_and_requeue_lem type reason message s =
      let kn = s.cr in
      let next =
        set_phase error
          (put_condition lib (failed_condition type reason message kn.generation) kn.status) in
      let answer = c.patch_status kn (record kn { status = next }) s.world in
      elim (Result-cases answer.0) [
        | inl (new, e) ↦
            let applied : new.status ≡ next =
              (server.patch_applies kn (record kn { status = next }) s.world new e).0 in
            inl (
              rw e refl,
              rw e (ap (λ (x : Status). x.phase) applied),
              λ other. rw e (
                  ap (λ (x : Status). lib.find_condition other x.conditions) applied
                  ∙ set.find-set (failed_condition type reason message kn.generation)
                      kn.status.conditions other),
            )
        | inr (x, e) ↦ inr ((x, rw e refl), rw e refl)
      ]
