-- ===== src/AuditKey.antt =====
-- The audit HMAC key of the data storage (ensureDataStorageAuditHashKey and its helpers of
-- internal/controller/kubernaut_controller.go). `random` is what the random source of one run gives.
pub mod Names
pub mod Material
pub mod Kept
use kubernaut_operator.Base.{
  String, Bool, true, false, not, ◌&&◌, ◌||◌, Option, none, some, [], ◌∷◌, ◌==◌, contains,
  if◌then◌else◌,
}
use kubernaut_operator.Base.Map.{get}
use kubernaut_operator.Kube.Object.{Object, Key, Body, secret, key_of}
use kubernaut_operator.Kube.Op.{
  Error, Result, ok, err, bind, Op, pure, fail, gets, attempt, lift, wrap, wrapped, message, both,
  is_not_found, rewrap, ◌>>=◌, ◌>>◌,
}
use kubernaut_operator.Kube.Library.{Library, Texts}
use kubernaut_operator.Kube.Client.{Client}
use kubernaut_operator.Kubernaut.{Kubernaut}
use kubernaut_operator.Ownership.{resource_ownership_error}
use kubernaut_operator.Status.{State, call}
use kubernaut_operator.Ensure.{ensure_resource}
use kubernaut_operator.AuditKey.Material.{
  Reference, reference_for, source_of, source_existing, source_generated, state_name, managed_key,
  source_key, key_finalizer, validate_reference, entries_of, fingerprint, new_secret, state_object,
}

abbrev pub print_of : Object → String
print_of state = get "keyFingerprint" (entries_of state.body)

abbrev pub phase_of : Object → String
phase_of state = get "phase" (entries_of state.body)

-- validateAuditHashKeyIdentity, of a state that is there
unfoldable pub validate_identity : Object → Reference → Result (Unit {0})
validate_identity state ref =
    let entries = entries_of state.body in
    if not (get "secretName" entries == ref.secret_name)
      || not (get "secretKey" entries == ref.secret_key)
    then err (message "audit HMAC secret identity cannot change after initialization")
    else if not (get "source" entries == source_of ref)
    then err (message "audit HMAC secret source cannot change after initialization")
    else ok tt

-- validateAuditHashKeyState, with containsAuditHashKeyFinalizer
unfoldable pub validate_state : Object → Reference → Result (Unit {0})
validate_state state ref =
    if state.terminating || not (contains state.finalizers key_finalizer)
    then err (message "audit HMAC state configmap is not protected from deletion")
    else bind (validate_identity state ref) λ u.
      if not (phase_of state == "ready")
      then err (message "audit HMAC state configmap is not committed")
      else if print_of state == ""
      then err (message "audit HMAC secret fingerprint is missing from state")
      else ok tt

-- canCorrectPendingBYOIdentity
unfoldable pub can_correct : Object → Reference → Bool
can_correct state ref =
    phase_of state == "provisioning"
    && print_of state == ""
    && not ref.generated
    && get "source" (entries_of state.body) == source_existing

abbrev is_immutable : Body → Bool
is_immutable (secret entries (some true)) = true
is_immutable _ = false

-- operatorGeneratedAuditHashKeySecret
unfoldable pub is_operator_generated : Object → Bool
is_operator_generated holder =
    if holder.terminating || not (is_immutable holder.body)
    then false
    else if not (get managed_key holder.annotations == "true")
        || not (get source_key holder.annotations == source_generated)
    then false
    else contains holder.finalizers key_finalizer

abbrev pub secret_key_of : Kubernaut → Reference → Key
secret_key_of kn ref = record { kind = "Secret"; namespace = kn.namespace; name = ref.secret_name }

abbrev pub state_key_of : Kubernaut → Key
state_key_of kn = record { kind = "ConfigMap"; namespace = kn.namespace; name = state_name }

abbrev pub same_print : String → String → Result (Unit {0})
same_print expected print =
    if not (expected == "") && not (print == expected)
    then err (message "audit HMAC secret fingerprint changed after initialization")
    else ok tt

-- The tests of validateEffectiveAuditHashKeySecret on the Secret that was read.
unfoldable pub verify_secret : Texts → Reference → String → Object → Result (Unit {0})
verify_secret texts ref expected holder =
    if holder.terminating
    then err (message "audit HMAC secret is terminating")
    else if ref.generated && not (is_operator_generated holder)
    then err (message "audit HMAC secret is not an operator-generated secret")
    else bind (fingerprint texts holder ref.secret_key) (same_print expected)

module _ (lib : Library) (texts : Texts) {c : Client} where
  abbrev pub verified : Reference → String → Result Object → Op (State c) (Unit {0})
  verified ref expected (ok holder) = lift (verify_secret texts ref expected holder)
  verified ref expected (err e) =
      if is_not_found e && not (expected == "")
      then fail (
          message
            "initialized audit HMAC secret is missing; restore it instead of generating a replacement")
      else fail (wrapped "reading audit HMAC secret" e)

  -- validateEffectiveAuditHashKeySecret
  unfoldable pub validate_effective_secret : Reference → String → Op (State c) (Unit {0})
  validate_effective_secret ref expected = do
    kn ← gets (λ s. s.cr)
    r ← attempt (call (c.get (secret_key_of kn ref)))
    verified ref expected r

  -- The creation at the end of createOrGetAuditHashKeySecret.
  unfoldable pub create_generated : Reference → Result String → Op (State c) Object
  create_generated ref random = do
    kn ← gets (λ s. s.cr)
    generated ← lift (new_secret texts kn ref random)
    wrap "creating generated audit HMAC secret" (call (c.create generated))

  abbrev pub created_or_got : Reference → Result String → Result Object → Op (State c) Object
  created_or_got ref random (ok holder) =
      if ref.generated && not (is_operator_generated holder)
      then fail (message "generated audit HMAC secret is not an operator-generated secret")
      else pure holder
  created_or_got ref random (err e) =
      if not (is_not_found e)
      then fail (wrapped "reading audit HMAC secret" e)
      else if not ref.generated
      then fail (message "administrator-managed audit HMAC secret not found")
      else create_generated ref random

  -- createOrGetAuditHashKeySecret
  unfoldable pub create_or_get_secret : Reference → Result String → Op (State c) Object
  create_or_get_secret ref random = do
    kn ← gets (λ s. s.cr)
    r ← attempt (call (c.get (secret_key_of kn ref)))
    created_or_got ref random r

  -- initializeAuditHashKey
  unfoldable pub initialize_key : Reference → Result String → Op (State c) (Unit {0})
  initialize_key ref random = do
    kn ← gets (λ s. s.cr)
    holder ← create_or_get_secret ref random
    print ← lift (fingerprint texts holder ref.secret_key)
    ensure_resource lib (state_object kn ref "ready" (some print))

  -- The state marker of a provisioning that is not finished, and the initialization behind it.
  unfoldable pub provision : Reference → Result String → Op (State c) (Unit {0})
  provision ref random = do
    kn ← gets (λ s. s.cr)
    ensure_resource lib (state_object kn ref "provisioning" none)
    initialize_key ref random

  abbrev pub refused_or_provisioned :
      Reference → Result String → Result Object → Op (State c) (Unit {0})
  refused_or_provisioned ref random (ok existing) = fail (
      message
        "generated audit HMAC secret already exists before its state marker; refusing adoption")
  refused_or_provisioned ref random (err e) =
      if is_not_found e then provision ref random else fail (wrapped "reading audit HMAC secret" e)

  -- initializeNewAuditHashKey for a generated key
  unfoldable pub initialize_generated : Reference → Result String → Op (State c) (Unit {0})
  initialize_generated ref random = do
    kn ← gets (λ s. s.cr)
    r ← attempt (call (c.get (secret_key_of kn ref)))
    refused_or_provisioned ref random r

  -- initializeNewAuditHashKey
  unfoldable pub initialize_new_key : Reference → Result String → Op (State c) (Unit {0})
  initialize_new_key ref random =
      if ref.generated then initialize_generated ref random else provision ref random

  -- reconcileExistingAuditHashKeyState from the check of the identity on
  abbrev pub identified :
      Object → Reference → Result String → Result (Unit {0}) → Op (State c) (Unit {0})
  identified state ref random (err e) =
      if can_correct state ref then provision ref random else fail e
  identified state ref random (ok u) =
      if phase_of state == "provisioning" && print_of state == ""
      then initialize_key ref random
      else lift (validate_state state ref) >> validate_effective_secret ref (print_of state)

  -- reconcileExistingAuditHashKeyState
  unfoldable pub reconcile_existing : Object → Reference → Result String → Op (State c) (Unit {0})
  reconcile_existing state ref random = do
    kn ← gets (λ s. s.cr)
    lift (
        rewrap "audit HMAC state configmap ownership conflict"
          (resource_ownership_error lib.parse_group kn state false))
    identified state ref random (validate_identity state ref)

  -- auditHashKeyState, and the choice that ensureDataStorageAuditHashKey makes of its answer
  abbrev pub by_state : Reference → Result String → Result Object → Op (State c) (Unit {0})
  by_state ref random (ok state) = reconcile_existing state ref random
  by_state ref random (err e) =
      if is_not_found e
      then initialize_new_key ref random
      else fail (wrapped "reading audit HMAC state ConfigMap" e)

  -- ensureDataStorageAuditHashKey
  unfoldable pub ensure_audit_hash_key : Result String → Op (State c) (Unit {0})
  ensure_audit_hash_key random = do
    kn ← gets (λ s. s.cr)
    lift (validate_reference texts (reference_for kn))
    r ← attempt (call (c.get (state_key_of kn)))
    by_state (reference_for kn) random r
