-- ===== src/Policy/Guarded.antt =====
-- The writes of ensureNetworkPolicy (internal/controller/kubernaut_controller.go) against the
-- ownership of NetworkPolicies.
use kubernaut_operator.Base.{String, ◌≡◌, refl, inl, inr, Bool, Bool-cases, Option-cases}
use kubernaut_operator.Kube.Object.{Object, key_of}
use kubernaut_operator.Kube.Op.{Result-cases, then_state, is_not_found, is_already_exists}
use kubernaut_operator.Kube.Library.{Library}
use kubernaut_operator.Kube.Client.{Client, IsApiServer, Write, created, updated, deleted, stored}
use kubernaut_operator.Hash.{spec_hash, set_hash_annotation}
use kubernaut_operator.Ensure.Writes.{Extends, same, Extends-trans, Extends-eq, Extends-one}
use kubernaut_operator.Policy.Owner.{policy_ownership_error}
use kubernaut_operator.Policy.Owned.{IsOwnPolicy, policy_ownership_iff}
use kubernaut_operator.Policy.Apply.{
  is_current_policy, with_hash, update_network_policy, read_raced_policy, create_policy,
  ensure_network_policy,
}

-- What may be written for a desired policy: a new object, the policy itself; or the policy with
-- another resource version, in place of a state that is the operator's own.
abbrev pub AllowedPolicy : Object → Write → Type 0
AllowedPolicy desired (created o) = o ≡ desired
AllowedPolicy desired (updated old new) =
    IsOwnPolicy old desired × (new ≡ record desired { resource_version = old.resource_version })
AllowedPolicy desired (deleted old) = ⊥
AllowedPolicy desired (stored new) = ⊥

module _ (lib : Library) (same_spec same_labels : Object → Object → Bool) {c : Client}
    (api : IsApiServer c) (desired : Object) where
  -- The update of a state that was read replaces that state and no other.
  update_guarded :
      (existing : Object) (hash : String) (w : c.World)
      → c.Observed w existing
      → key_of existing ≡ key_of desired
      → Extends
          (AllowedPolicy desired)
          (c.history w)
          (c.history (update_network_policy lib same_spec same_labels c existing desired hash w).1)
  unfolding update_network_policy
  update_guarded existing hash w seen k =
      let new = record desired { resource_version = existing.resource_version } in
      elim (Option-cases (policy_ownership_error existing desired)) [
        | inr (x, e) ↦ rw e same
        | inl owned ↦
            rw owned
              (elim (Bool-cases
                (is_current_policy lib same_spec same_labels existing desired hash)) [
                  | inl current ↦ rw current same
                  | inr stale ↦
                      rw (stale, then_state (c.update new) tt w)
                        (elim (api.update_writes new w) [
                          | inl e ↦ Extends-eq e
                          | inr (old, e, only) ↦
                              let is_old : existing ≡ old = only existing seen k refl in
                              Extends-one {P = AllowedPolicy desired} {w = updated old new}
                                (
                                  rw (← is_old) ((policy_ownership_iff existing desired).0 owned),
                                  rw (← is_old) refl,
                                )
                                (inr e)
                        ])
                ])
      ]

  raced_guarded :
      (hash : String) (w : c.World)
      → Extends
          (AllowedPolicy desired)
          (c.history w)
          (c.history (read_raced_policy lib same_spec same_labels c desired hash w).1)
  unfolding read_raced_policy
  raced_guarded hash w =
      let k = key_of desired in
      let read = Extends-eq {P = AllowedPolicy desired} (api.get_live_reads k w) in
      elim (Result-cases (c.get_live k w).0) [
        | inl (o, e) ↦
            let (seen, same_key) = api.get_live_shows k w o e in
            rw e (Extends-trans read (update_guarded o hash (c.get_live k w).1 seen same_key))
        | inr (x, e) ↦ rw e read
      ]

  create_guarded :
      (hash : String) (w : c.World)
      → Extends
          (AllowedPolicy desired)
          (c.history w)
          (c.history (create_policy lib same_spec same_labels c desired hash w).1)
  unfolding create_policy
  create_guarded hash w =
      let made =
        Extends-one {P = AllowedPolicy desired} {w = created desired} refl
          (api.create_writes desired w) in
      elim (Result-cases (c.create desired w).0) [
        | inl (o, e) ↦ rw e made
        | inr (x, e) ↦ elim (Bool-cases (is_already_exists x)) [
          | inl raced ↦
              rw (e, raced) (Extends-trans made (raced_guarded hash (c.create desired w).1))
          | inr other ↦ rw (e, other) made
        ]
      ]

module _ (lib : Library) (same_spec same_labels : Object → Object → Bool) {c : Client}
    (api : IsApiServer c) where
  -- ensureNetworkPolicy writes, whatever the other writers do and however it ends, only the desired
  -- policy with its hash: as a new object, or with the version of a state that OwnershipError accepts
  -- in place of that state. So a NetworkPolicy that is not the operator's is never overwritten.
  pub ensure_network_policy_safe :
      (desired : Object) (w : c.World)
      → Extends
          (AllowedPolicy (with_hash lib desired))
          (c.history w)
          (c.history (ensure_network_policy lib same_spec same_labels c desired w).1)
  unfolding ensure_network_policy
  ensure_network_policy_safe desired w =
      let k = key_of desired in
      let hashed = with_hash lib desired in
      let hash = spec_hash lib desired in
      let read = Extends-eq {P = AllowedPolicy hashed} (api.get_reads k w) in
      elim (Result-cases (c.get k w).0) [
        | inl (o, e) ↦
            let (seen, same_key) = api.get_shows k w o e in
            rw e (
              Extends-trans read (
                update_guarded lib same_spec same_labels api hashed o hash (c.get k w).1 seen
                  (unfold set_hash_annotation in same_key)))
        | inr (x, e) ↦ elim (Bool-cases (is_not_found x)) [
          | inl missing ↦
              rw (e, missing)
                (Extends-trans read
                  (create_guarded lib same_spec same_labels api hashed hash (c.get k w).1))
          | inr other ↦ rw (e, other) read
        ]
      ]
