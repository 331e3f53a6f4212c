-- ===== src/Ensure.antt =====
-- Creating, updating and deleting objects under the ownership check
-- (internal/controller/ownership.go; ensureResource and its helpers, createIfNotFound,
-- deleteIfExists of internal/controller/kubernaut_controller.go).
pub mod Writes
pub mod Reads
pub mod Guarded
pub mod Safety
pub mod Repair
pub mod Deletion
pub mod Converge
use kubernaut_operator.Base.{
  ℕ, String, Bool, true, false, not, ◌&&◌, ◌||◌, Option, none, some, List, [], ◌∷◌, ◌==◌, nat_eqb,
  if◌then◌else◌,
}
use kubernaut_operator.Base.Map.{get}
use kubernaut_operator.Kube.Object.{Object, key_of}
use kubernaut_operator.Kube.Op.{
  Error, Result, ok, err, Op, pure, fail, gets, attempt, wrap, wrapped, is_not_found,
  is_already_exists, lift, modify, ◌>>=◌, ◌>>◌,
}
use kubernaut_operator.Kube.Library.{Library}
use kubernaut_operator.Kube.Client.{Client}
use kubernaut_operator.Kubernaut.{Kubernaut, Status, failed, error, condition_false}
use kubernaut_operator.Ownership.{
  owner_namespace_key, owner_uid_key, marker_keys, resource_ownership_error, stamp_ownership,
}
use kubernaut_operator.Hash.{spec_hash_key, spec_hash, set_hash_annotation}
use kubernaut_operator.Drift.{content_drifted, preserve_service_fields}
use kubernaut_operator.Status.{State, call, emit, patch_status, set_phase, put_condition}

-- The status that a conflict leaves (the closure in checkResourceOwnership).
unfoldable pub conflict_status : Library → Error → Kubernaut → Status
conflict_status lib e kn =
    put_condition lib
      (record {
        type = "ServicesDeployed";
        status = condition_false;
        reason = "OwnershipConflict";
        message = failed "" e;
        observed_generation = kn.generation;
      })
      (set_phase error kn.status)

-- ownershipMetadataMatches
unfoldable pub same_values : List String → (live want : List (String × String)) → Bool
same_values [] live want = true
same_values (key ∷ keys) live want = get key live == get key want && same_values keys live want

unfoldable pub ownership_metadata_matches : Library → Object → Object → Bool
unfolding same_values
ownership_metadata_matches lib desired existing =
    same_values (owner_namespace_key ∷ owner_uid_key ∷ []) existing.annotations desired.annotations
    && same_values marker_keys existing.labels desired.labels
    && lib.same_refs desired.owner_refs existing.owner_refs

module _ (lib : Library) {c : Client} where
  -- reportOwnershipConflict: the event, and the error that the caller gets.
  abbrev pub report_ownership_conflict : Error → Op (State c) Error
  report_ownership_conflict e = emit true "OwnershipConflict" >> pure (wrapped "ownership check" e)

  -- The status write of checkResourceOwnership; its failure is only logged.
  unfoldable pub record_conflict : Error → State c → State c
  record_conflict conflict s =
      if s.cr.terminating || nat_eqb s.cr.resource_version 0
      then s
      else (patch_status (conflict_status lib conflict) s).1

  abbrev pub check_verdict : Result (Unit {0}) → Op (State c) (Unit {0})
  check_verdict (ok u) = pure tt
  check_verdict (err e) = do
    conflict ← report_ownership_conflict e
    modify (record_conflict conflict)
    fail conflict

  -- checkResourceOwnership
  unfoldable pub check_resource_ownership : Object → Bool → Op (State c) (Unit {0})
  check_resource_ownership obj controller_owned = do
    kn ← gets (λ s. s.cr)
    check_verdict (resource_ownership_error lib.parse_group kn obj controller_owned)

-- The test of ensureResourceChanged that skips the update.
unfoldable pub is_current : Library → Object → String → Object → Bool
unfolding content_drifted ownership_metadata_matches
is_current lib desired desired_hash existing =
    get spec_hash_key existing.annotations == desired_hash
    && not (content_drifted lib desired existing)
    && ownership_metadata_matches lib desired existing

-- The object that ensureResourceChanged sends with Update.
unfoldable pub replacement : Object → Object → Object
unfolding preserve_service_fields
replacement desired existing =
    preserve_service_fields (record desired { resource_version = existing.resource_version })
      existing

-- The desired object with its stamp and its hash.
unfoldable pub prepare : Library → Kubernaut → Object → Object
unfolding set_hash_annotation
prepare lib kn obj =
    let stamped = stamp_ownership kn obj in set_hash_annotation stamped (spec_hash lib stamped)

-- What createOrReadExisting and createIfNotFound hand back: the object as created, or the one that
-- was there.
pub data Outcome : Type 0 where
  made found : Object → Outcome

module _ (lib : Library) {c : Client} where
  -- The read after AlreadyExists.
  unfoldable pub read_raced : Object → Op (State c) Outcome
  read_raced obj = do
    existing ← wrap "getting after AlreadyExists" (call (c.get_live (key_of obj)))
    pure (found existing)

  abbrev pub created_or_raced : Object → Result Object → Op (State c) Outcome
  created_or_raced obj (ok o) = pure (made o)
  created_or_raced obj (err e) = if is_already_exists e then read_raced obj else fail e

  -- createOrReadExisting; the reader after AlreadyExists is the uncached one.
  unfoldable pub create_or_read_existing : Object → Op (State c) Outcome
  create_or_read_existing obj = do r ← attempt (call (c.create obj)); created_or_raced obj r

  abbrev pub found_or_created : Object → Result Object → Op (State c) Outcome
  found_or_created obj (ok existing) = pure (found existing)
  found_or_created obj (err e) =
      if is_not_found e then create_or_read_existing obj else fail (wrapped "getting" e)

  -- Get, and createOrReadExisting where nothing is found: the shared start of
  -- ensureResourceChanged and createIfNotFound.
  unfoldable pub read_or_create : Object → Op (State c) Outcome
  read_or_create obj = do r ← attempt (call (c.get (key_of obj))); found_or_created obj r

  -- Update, and its error.
  unfoldable pub send_update : Object → Op (State c) Bool
  send_update new = do wrap "updating" (call (c.update new)); pure true

  -- ensureResourceChanged from the ownership check on
  unfoldable pub update_if_changed : Object → String → Object → Op (State c) Bool
  update_if_changed desired desired_hash existing = do
    check_resource_ownership lib existing (lib.has_controller desired.owner_refs)
    if is_current lib desired desired_hash existing
        then pure false
        else send_update (replacement desired existing)

  abbrev pub after_read : Object → String → Outcome → Op (State c) Bool
  after_read desired desired_hash (made o) = pure true
  after_read desired desired_hash (found existing) = update_if_changed desired desired_hash existing

  -- ensureResourceChanged: whether something was written
  unfoldable pub ensure_resource_changed : Object → Op (State c) Bool
  ensure_resource_changed obj = do
    kn ← gets (λ s. s.cr)
    outcome ← read_or_create (prepare lib kn obj)
    after_read (prepare lib kn obj) (spec_hash lib (stamp_ownership kn obj)) outcome

  -- ensureResource, ensureUnowned
  unfoldable pub ensure_resource : Object → Op (State c) (Unit {0})
  unfolding ensure_resource_changed
  ensure_resource obj = do ensure_resource_changed obj; pure tt

  -- ensureNamespacedChanged
  unfoldable pub ensure_namespaced_changed : Object → Op (State c) Bool
  unfolding ensure_resource_changed
  ensure_namespaced_changed obj = do
    kn ← gets (λ s. s.cr)
    owned ← lift (lib.set_controller_reference kn obj)
    ensure_resource_changed owned

  -- ensureNamespaced
  unfoldable pub ensure_namespaced : Object → Op (State c) (Unit {0})
  unfolding ensure_namespaced_changed
  ensure_namespaced obj = do ensure_namespaced_changed obj; pure tt

  -- createIfNotFound from the ownership check on: only the ownership metadata is repaired.
  unfoldable pub repair_ownership : Object → Object → Op (State c) Object
  repair_ownership desired existing = do
    kn ← gets (λ s. s.cr)
    check_resource_ownership lib existing true
    if ownership_metadata_matches lib desired existing
        then pure existing
        else wrap "repairing migration ownership" (
            call
              (c.update (stamp_ownership kn (record existing { owner_refs = desired.owner_refs }))))

  abbrev pub repair_if_found : Object → Outcome → Op (State c) Outcome
  repair_if_found desired (made o) = pure (made o)
  repair_if_found desired (found existing) = do
    repaired ← repair_ownership desired existing
    pure (found repaired)

  -- createIfNotFound
  unfoldable pub create_if_not_found : Object → Op (State c) Outcome
  create_if_not_found obj = do
    kn ← gets (λ s. s.cr)
    owned ← lift (lib.set_controller_reference kn obj)
    outcome ← read_or_create (stamp_ownership kn owned)
    repair_if_found (stamp_ownership kn owned) outcome

  abbrev pub deleted_or_gone : Result (Unit {0}) → Op (State c) (Unit {0})
  deleted_or_gone (ok u) = pure tt
  deleted_or_gone (err e) = if is_not_found e then pure tt else fail (wrapped "deleting resource" e)

  abbrev pub delete_verdict : Object → Result (Unit {0}) → Op (State c) (Unit {0})
  delete_verdict live (err e) = report_ownership_conflict lib e >> pure tt
  delete_verdict live (ok u) = do r ← attempt (call (c.delete live)); deleted_or_gone r

  -- deleteIfExists from the ownership check on: a foreign object is left, without an error.
  unfoldable pub delete_if_owned : Object → Op (State c) (Unit {0})
  delete_if_owned live = do
    kn ← gets (λ s. s.cr)
    delete_verdict live (
        resource_ownership_error lib.parse_group kn live
          (not (live.namespace == "") && live.namespace == kn.namespace))

  abbrev pub delete_found : Result Object → Op (State c) (Unit {0})
  delete_found (ok live) = delete_if_owned live
  delete_found (err e) =
      if is_not_found e then pure tt else fail (wrapped "reading resource for deletion" e)

  -- deleteIfExists
  unfoldable pub delete_if_exists : Object → Op (State c) (Unit {0})
  delete_if_exists obj = do r ← attempt (call (c.get_live (key_of obj))); delete_found r
