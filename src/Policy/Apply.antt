-- ===== src/Policy/Apply.antt =====
-- Applying one NetworkPolicy (ensureNetworkPolicy, updateNetworkPolicy, networkPolicyOwnershipError of
-- internal/controller/kubernaut_controller.go). The comparison of specs and labels by
-- equality.Semantic.DeepEqual is a parameter, and the reader after AlreadyExists is the uncached one.
use kubernaut_operator.Base.{String, Bool, ◌&&◌, Option, none, some, ◌==◌, if◌then◌else◌}
use kubernaut_operator.Base.Map.{get}
use kubernaut_operator.Kube.Object.{Object, key_of}
use kubernaut_operator.Kube.Op.{
  Error, ownership, sentinel, both, wrapped, Result, ok, err, Op, pure, fail, attempt, wrap,
  is_not_found, is_already_exists, ◌>>=◌, ◌>>◌,
}
use kubernaut_operator.Kube.Library.{Library}
use kubernaut_operator.Kube.Client.{Client}
use kubernaut_operator.Hash.{spec_hash_key, spec_hash, set_hash_annotation}
use kubernaut_operator.Policy.Owner.{policy_ownership_error}

-- The desired policy with its hash.
abbrev pub with_hash : Library → Object → Object
with_hash lib desired = set_hash_annotation desired (spec_hash lib desired)

module _ (lib : Library) (same_spec same_labels : Object → Object → Bool) where
  -- The test of updateNetworkPolicy that skips the update.
  unfoldable pub is_current_policy : Object → Object → String → Bool
  is_current_policy existing desired desired_hash =
      get spec_hash_key existing.annotations == desired_hash
      && lib.same_refs existing.owner_refs desired.owner_refs
      && same_spec existing desired
      && same_labels existing desired

  module _ (c : Client) where
    abbrev pub update_checked : Object → Object → String → Option Error → Op c.World (Unit {0})
    update_checked existing desired desired_hash (some e) = fail (both (ownership sentinel) e)
    update_checked existing desired desired_hash none =
        if is_current_policy existing desired desired_hash
        then pure tt
        else c.update (record desired { resource_version = existing.resource_version }) >> pure tt

    -- updateNetworkPolicy, with networkPolicyOwnershipError
    unfoldable pub update_network_policy : Object → Object → String → Op c.World (Unit {0})
    update_network_policy existing desired desired_hash =
        update_checked existing desired desired_hash (policy_ownership_error existing desired)

    unfoldable pub read_raced_policy : Object → String → Op c.World (Unit {0})
    read_raced_policy desired desired_hash = do
      existing ← wrap "getting raced NetworkPolicy" (c.get_live (key_of desired))
      update_network_policy existing desired desired_hash

    abbrev pub after_create : Object → String → Result Object → Op c.World (Unit {0})
    after_create desired desired_hash (ok o) = pure tt
    after_create desired desired_hash (err e) =
        if is_already_exists e
        then read_raced_policy desired desired_hash
        else fail (wrapped "creating NetworkPolicy" e)

    unfoldable pub create_policy : Object → String → Op c.World (Unit {0})
    create_policy desired desired_hash = do
      r ← attempt (c.create desired)
      after_create desired desired_hash r

    abbrev pub after_get : Object → String → Result Object → Op c.World (Unit {0})
    after_get desired desired_hash (ok existing) =
        update_network_policy existing desired desired_hash
    after_get desired desired_hash (err e) =
        if is_not_found e
        then create_policy desired desired_hash
        else fail (wrapped "checking existing NetworkPolicy" e)

    -- ensureNetworkPolicy
    unfoldable pub ensure_network_policy : Object → Op c.World (Unit {0})
    ensure_network_policy desired = do
      r ← attempt (c.get (key_of desired))
      after_get (with_hash lib desired) (spec_hash lib desired) r
