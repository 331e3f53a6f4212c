-- ===== src/Cleanup/Removed.antt =====
-- What the cleanup of an instance removes (deleteClusterScopedResources of
-- internal/controller/kubernaut_controller.go).
use kubernaut_operator.Base.{
  String, ◌≡◌, refl, ◌⊎◌, inl, inr, Bool, ◌||◌, All, List, [], ◌∷◌, contains, Bool-cases,
}
use kubernaut_operator.Kube.Object.{Object, Key}
use kubernaut_operator.Kube.Op.{Result-cases, is_not_found, is_no_match}
use kubernaut_operator.Kube.Library.{Library}
use kubernaut_operator.Kube.Client.{Client, IsApiServer, Write, created, updated, deleted, stored}
use kubernaut_operator.Kubernaut.{Kubernaut}
use kubernaut_operator.Ownership.Contract.{IsAuthorized}
use kubernaut_operator.Status.{State}
use kubernaut_operator.Ensure.Writes.{
  Extends, same, Removal, Extends-trans, Extends-eq, Extends-mono,
}
use kubernaut_operator.Policy.Prune.{policy_selector, delete_observed_policy}
use kubernaut_operator.Policy.Stale.{Pruned, IsStale, observed-IsRound, All-IsRound}
use kubernaut_operator.Rbac.{Task, both_tasks, delete_task, delete_each}
use kubernaut_operator.Rbac.Orphans.{
  IsRemoval, both-IsRemoval, delete_task-IsRemoval, delete_each-IsRemoval,
}
use kubernaut_operator.Rbac.Pruned.{
  Orphan, core-IsRemoval, mcp_gateway-IsRemoval, additional-IsRemoval,
}
use kubernaut_operator.Cleanup.{
  delete_policy, delete_policies, delete_network_policies, delete_ansible_rbac,
  delete_monitoring_rbac, delete_additional_rbac, delete_rbac_resources, delete_webhook_resources,
  delete_workflow_resources, cleanup_tasks, delete_cluster_scoped,
}

-- A cleanup removes states that the ownership contract authorizes and policies of the instance, and
-- writes nothing else.
abbrev pub CleanupWrite : Library → Kubernaut → Write → Type 0
CleanupWrite lib kn (created o) = ⊥
CleanupWrite lib kn (updated old new) = ⊥
CleanupWrite lib kn (deleted old) =
    ((controller_owned : Bool) × IsAuthorized lib.parse_group kn old controller_owned)
    ⊎ IsStale kn.name [] old
CleanupWrite lib kn (stored new) = ⊥

module _ (lib : Library) where
  of_removal : (k : Key) (kn : Kubernaut) (w : Write) → Removal lib kn k w → CleanupWrite lib kn w
  of_removal k kn (created o) h = absurd h
  of_removal k kn (updated old new) h = absurd h
  of_removal k kn (deleted old) h = inl h.0
  of_removal k kn (stored new) h = absurd h

  of_orphan :
      (Undesired : Object → Type 0) (kn : Kubernaut) (w : Write)
      → Orphan lib Undesired kn w
      → CleanupWrite lib kn w
  of_orphan U kn (created o) h = absurd h
  of_orphan U kn (updated old new) h = absurd h
  of_orphan U kn (deleted old) h = inl h.0
  of_orphan U kn (stored new) h = absurd h

  of_policy : (kn : Kubernaut) (w : Write) → Pruned kn.name [] w → CleanupWrite lib kn w
  of_policy kn (created o) h = absurd h
  of_policy kn (updated old new) h = absurd h
  of_policy kn (deleted old) h = inr h
  of_policy kn (stored new) h = absurd h

module _ {c : Client} (api : IsApiServer c) (instance : String) where
  policies-writes :
      (os : List Object) (s : State c)
      → All (c.Observed s.world) os
      → Extends
          (Pruned instance [])
          (c.history s.world)
          (c.history (delete_policies c instance os s).1.world)
        × ((delete_policies c instance os s).1.cr ≡ s.cr)
  unfolding delete_policies delete_policy both_tasks contains
  policies-writes [] s seen = (same, refl)
  policies-writes (o ∷ os) s seen =
      let v = (delete_observed_policy c o instance s.world).1 in
      let t = record s { world = v } in
      let round = observed-IsRound api instance [] o s.world seen.0 refl in
      let rest = policies-writes os t (All-IsRound api instance [] os s.world v round seen.1) in
      let later = Extends-trans round.writes rest.0 in
      elim (Result-cases (delete_policies c instance os t).0) [
        | inl (errs, e) ↦ rw e (later, rest.1)
        | inr (x, e) ↦ rw e (later, rest.1)
      ]

module _ (lib : Library) {c : Client} (api : IsApiServer c) where
  network_policies-IsRemoval : IsRemoval (CleanupWrite lib) (delete_network_policies c)
  unfolding delete_network_policies
  network_policies-IsRemoval = record {
    writes = λ s.
        let q = policy_selector s.cr in
        let t = record s { world = (c.list q s.world).1 } in
        let listed = Extends-eq {P = CleanupWrite lib s.cr} (api.list_reads q s.world) in
        elim (Result-cases (c.list q s.world).0) [
          | inl (os, e) ↦ rw e (
              Extends-trans listed (
                Extends-mono (of_policy lib s.cr)
                  (policies-writes api s.cr.name os t (api.list_shows q s.world os e)).0))
          | inr (x, e) ↦ rw e (elim (Bool-cases (is_not_found x || is_no_match x)) [
            | inl y ↦ rw y listed
            | inr n ↦ rw n listed
          ])
        ];
    same_cr = λ s.
        let q = policy_selector s.cr in
        let t = record s { world = (c.list q s.world).1 } in
        elim (Result-cases (c.list q s.world).0) [
          | inl (os, e) ↦
              rw e (policies-writes api s.cr.name os t (api.list_shows q s.world os e)).1
          | inr (x, e) ↦ rw e (elim (Bool-cases (is_not_found x || is_no_match x)) [
            | inl y ↦ rw y refl
            | inr n ↦ rw n refl
          ])
        ];
  }

  orphans-IsRemoval :
      (Undesired : Object → Type 0) (m : Task c)
      → IsRemoval (Orphan lib Undesired) m
      → IsRemoval (CleanupWrite lib) m
  orphans-IsRemoval U m r = record {
    writes = λ s. Extends-mono (of_orphan lib U s.cr) (r.writes s);
    same_cr = r.same_cr;
  }

  one-IsRemoval :
      (t : String) (o : Object) → IsRemoval {c = c} (CleanupWrite lib) (delete_task lib t o)
  one-IsRemoval t o = delete_task-IsRemoval lib api (CleanupWrite lib) t o (of_removal lib _)

  each-IsRemoval :
      (t : String) (os : List Object) → IsRemoval {c = c} (CleanupWrite lib) (delete_each lib t os)
  each-IsRemoval t os =
      delete_each-IsRemoval lib api (CleanupWrite lib) t os (λ k. of_removal lib k)

  infixr 20 ◌also◌
  abbrev ◌also◌ :
      {m k : Task c}
      → IsRemoval (CleanupWrite lib) m
      → IsRemoval (CleanupWrite lib) k
      → IsRemoval (CleanupWrite lib) (both_tasks m k)
  a also b = both-IsRemoval (CleanupWrite lib) _ _ a b

  pub cleanup-IsRemoval :
      (kn : Kubernaut) → IsRemoval (CleanupWrite lib) (cleanup_tasks lib {c = c} kn)
  unfolding cleanup_tasks delete_rbac_resources delete_webhook_resources delete_workflow_resources
      delete_ansible_rbac delete_monitoring_rbac delete_additional_rbac
  cleanup-IsRemoval kn =
      (orphans-IsRemoval _ _ (core-IsRemoval lib api [] [])
        also (one-IsRemoval _ _ also one-IsRemoval _ _)
        also (each-IsRemoval _ _ also each-IsRemoval _ _)
        also (orphans-IsRemoval _ _ (additional-IsRemoval lib api [])
            also each-IsRemoval _ _
            also each-IsRemoval _ _
            also one-IsRemoval _ _)
        also orphans-IsRemoval _ _ (mcp_gateway-IsRemoval lib api [] []))
      also (one-IsRemoval _ _ also one-IsRemoval _ _)
      also (each-IsRemoval _ _ also each-IsRemoval _ _ also one-IsRemoval _ _)
      also network_policies-IsRemoval

  -- The whole cleanup, whatever its result.
  pub cleanup-writes :
      (s : State c)
      → Extends
          (CleanupWrite lib s.cr)
          (c.history s.world)
          (c.history (delete_cluster_scoped lib s).1.world)
        × ((delete_cluster_scoped lib s).1.cr ≡ s.cr)
  unfolding delete_cluster_scoped
  cleanup-writes s =
      let r = cleanup-IsRemoval s.cr in
      elim (Result-cases (cleanup_tasks lib s.cr s).0) [
        | inl (errs, e) ↦ rw e (r.writes s, r.same_cr s)
        | inr (x, e) ↦ rw e (r.writes s, r.same_cr s)
      ]
