-- ===== src/Policy/Stale.antt =====
-- Which NetworkPolicies pruneNetworkPolicies removes (internal/controller/kubernaut_controller.go,
-- internal/controller/ownership.go).
use kubernaut_operator.Base.{
  String, ◌≡◌, refl, ◌⊎◌, inl, inr, false, All, List, [], ◌∷◌, contains, arith, Bool-cases,
  Option-cases,
}
use kubernaut_operator.Kube.Object.{Object}
use kubernaut_operator.Kube.Op.{Result, Result-cases, ok, err}
use kubernaut_operator.Kube.Client.{Client, IsApiServer, Write, created, updated, deleted, stored}
use kubernaut_operator.Kubernaut.{Kubernaut}
use kubernaut_operator.Ensure.Writes.{Extends, same, Extends-trans, Extends-eq, Extends-one}
use kubernaut_operator.Policy.Owner.{policy_ownership_error}
use kubernaut_operator.Policy.Owned.{IsOwnPolicy, policy_ownership_iff}
use kubernaut_operator.Policy.Prune.{
  policy_object_key, is_outside, expected_policy, policy_deleted, delete_observed_policy,
  prune_listed, prune_network_policies, policy_selector,
}

-- A policy of the instance, by its labels and its owner, that is not desired.
pub record IsStale (instance : String) (desired : List String) (o : Object) : Type 0 where
  pub undesired : contains desired (policy_object_key o) ≡ false
  pub inside : is_outside o instance ≡ false
  pub own : IsOwnPolicy o (expected_policy o instance)

-- Pruning removes stale policies and writes nothing else.
abbrev pub Pruned : String → List String → Write → Type 0
Pruned instance desired (created o) = ⊥
Pruned instance desired (updated old new) = ⊥
Pruned instance desired (deleted old) = IsStale instance desired old
Pruned instance desired (stored new) = ⊥

module _ {c : Client} (api : IsApiServer c) (instance : String) (desired : List String) where
  policy_deleted-world : (r : Result (Unit {0})) (w : c.World) → (policy_deleted c r w).1 ≡ w
  policy_deleted-world (ok u) w = refl
  policy_deleted-world (err e) w = ground arith

  -- What one deletion does: nothing, or the call with the object that was listed.
  observed-cases :
      (o : Object) (w : c.World)
      → ((delete_observed_policy c o instance w).1 ≡ w)
        ⊎ ((is_outside o instance ≡ false)
            × IsOwnPolicy o (expected_policy o instance)
            × ((delete_observed_policy c o instance w).1 ≡ (c.delete o w).1))
  unfolding delete_observed_policy
  observed-cases o w = elim (Bool-cases (is_outside o instance)) [
    | inl out ↦ inl (rw out refl)
    | inr inside ↦ elim (Option-cases (policy_ownership_error o (expected_policy o instance))) [
      | inr (e, refused) ↦ inl (rw (inside, refused) refl)
      | inl own ↦ inr (
        inside,
        (policy_ownership_iff o (expected_policy o instance)).0 own,
        rw (inside, own) (policy_deleted-world (c.delete o w).0 (c.delete o w).1),
      )
    ]
  ]

  -- One round of the loop: only stale policies go, and what was seen was seen.
  pub record IsRound (before after : c.World) : Type 0 where
    pub writes : Extends (Pruned instance desired) (c.history before) (c.history after)
    pub shows : (o : Object) → c.Observed before o → c.Observed after o

  pub observed-IsRound :
      (o : Object) (w : c.World)
      → c.Observed w o
      → contains desired (policy_object_key o) ≡ false
      → IsRound w (delete_observed_policy c o instance w).1
  observed-IsRound o w seen undesired = elim (observed-cases o w) [
    | inl e ↦ rw e (record { writes = same; shows = λ x h. h })
    | inr (inside, own, e) ↦ rw e (record {
      writes = elim (api.delete_writes o w) [
        | inl kept ↦ Extends-eq kept
        | inr (old, gone, only) ↦
            let is_old : o ≡ old = only o seen refl refl refl in
            let stale : IsStale instance desired o = record {
              undesired = undesired;
              inside = inside;
              own = own;
            } in
            Extends-one {P = Pruned instance desired} {w = deleted old} (rw (← is_old) stale)
              (inr gone)
      ];
      shows = λ x h. api.delete_shows o w x h;
    })
  ]

  pub All-IsRound :
      (os : List Object) (before after : c.World)
      → IsRound before after
      → All (c.Observed before) os
      → All (c.Observed after) os
  All-IsRound [] before after r h = tt
  All-IsRound (o ∷ os) before after r h = (r.shows o h.0, All-IsRound os before after r h.1)

  prune_listed-writes :
      (os : List Object) (w : c.World)
      → All (c.Observed w) os
      → Extends
          (Pruned instance desired)
          (c.history w)
          (c.history (prune_listed c instance desired os w).1)
  unfolding prune_listed
  prune_listed-writes [] w seen = same
  prune_listed-writes (o ∷ os) w seen = elim (Bool-cases (contains desired (policy_object_key o))) [
    | inl wanted ↦ rw wanted (prune_listed-writes os w seen.1)
    | inr undesired ↦
        let v = (delete_observed_policy c o instance w).1 in
        let round = observed-IsRound o w seen.0 undesired in
        rw undesired (elim (Result-cases (delete_observed_policy c o instance w).0) [
          | inl (u, e) ↦ rw e (
              Extends-trans round.writes
                (prune_listed-writes os v (All-IsRound os w v round seen.1)))
          | inr (x, e) ↦ rw e round.writes
        ])
  ]

module _ {c : Client} (api : IsApiServer c) where
  pub prune-writes :
      (kn : Kubernaut) (desired : List String) (w : c.World)
      → Extends
          (Pruned kn.name desired)
          (c.history w)
          (c.history (prune_network_policies c kn desired w).1)
  unfolding prune_network_policies
  prune-writes kn desired w =
      let q = policy_selector kn in
      let listed = Extends-eq {P = Pruned kn.name desired} (api.list_reads q w) in
      elim (Result-cases (c.list q w).0) [
        | inl (os, e) ↦ rw e (
            Extends-trans listed
              (prune_listed-writes api kn.name desired os (c.list q w).1 (api.list_shows q w os e)))
        | inr (x, e) ↦ rw e listed
      ]
