-- ===== src/Rbac/Orphans.antt =====
-- What the pruning of RBAC objects removes (pruneOrphanedCoreClusterRBAC,
-- pruneOrphanedMCPGatewayNamespaceRBAC, pruneOrphanedAdditionalComponentRBAC of
-- internal/controller/kubernaut_controller.go).
use kubernaut_operator.Base.{
  String, ◌≡◌, refl, ◌∙◌, inl, inr, Bool, false, All, List, [], ◌∷◌, Bool-cases,
}
use mathlib.Core.Path.{subst}
use kubernaut_operator.Kube.Object.{Object, Key, key_of}
use kubernaut_operator.Kube.Op.{Result-cases, ok}
use kubernaut_operator.Kube.Library.{Library}
use kubernaut_operator.Kube.Client.{Client, IsApiServer, Write}
use kubernaut_operator.Kubernaut.{Kubernaut}
use kubernaut_operator.Status.{State}
use kubernaut_operator.Ensure.Writes.{
  Extends, same, Removal, Extends-trans, Extends-eq, Extends-mono,
}
use kubernaut_operator.Ensure.Deletion.{delete_if_exists_safe, delete_if_exists-cr}
use kubernaut_operator.Rbac.{
  Task, no_task, both_tasks, delete_task, delete_each, prune_undesired, prune_kind, marked,
}

-- A task whose writes `P` allows and that leaves the custom resource as it was.
pub record IsRemoval {c : Client} (P : Kubernaut → Write → Type 0) (m : Task c) : Type 0 where
  pub writes : (s : State c) → Extends (P s.cr) (c.history s.world) (c.history (m s).1.world)
  pub same_cr : (s : State c) → (m s).1.cr ≡ s.cr

module _ {c : Client} (P : Kubernaut → Write → Type 0) where
  pub no_task-IsRemoval : IsRemoval {c = c} P no_task
  no_task-IsRemoval = record { writes = λ s. same; same_cr = λ s. refl }

  -- What a task writes behind a part that left the custom resource as it was.
  behind :
      (m : Task c) (s t : State c)
      → IsRemoval P m
      → t.cr ≡ s.cr
      → Extends (P s.cr) (c.history t.world) (c.history (m t).1.world)
  behind m s t r e =
      subst (λ k. Extends (P k) (c.history t.world) (c.history (m t).1.world)) e (r.writes t)

  pub both-IsRemoval : (m k : Task c) → IsRemoval P m → IsRemoval P k → IsRemoval P (both_tasks m k)
  unfolding both_tasks
  both-IsRemoval m k a b = record {
    writes = λ s.
        let t = (m s).1 in
        elim (Result-cases (m s).0) [
          | inr (x, e) ↦ rw e (a.writes s)
          | inl (errs, e) ↦
              let later = Extends-trans (a.writes s) (behind k s t b (a.same_cr s)) in
              elim (Result-cases (k t).0) [
                | inl (more, f) ↦ rw (e, f) later
                | inr (x, f) ↦ rw (e, f) later
              ]
        ];
    same_cr = λ s.
        let t = (m s).1 in
        elim (Result-cases (m s).0) [
          | inr (x, e) ↦ rw e (a.same_cr s)
          | inl (errs, e) ↦
              let later = b.same_cr t ∙ a.same_cr s in
              elim (Result-cases (k t).0) [
                | inl (more, f) ↦ rw (e, f) later
                | inr (x, f) ↦ rw (e, f) later
              ]
        ];
  }

module _ (lib : Library) {c : Client} (api : IsApiServer c) (P : Kubernaut → Write → Type 0) where
  -- The removal of one object is allowed.
  abbrev pub Removes : Key → Type 0
  Removes k = (kn : Kubernaut) (w : Write) → Removal lib kn k w → P kn w

  pub delete_task-IsRemoval :
      (t : String) (o : Object) → Removes (key_of o) → IsRemoval {c = c} P (delete_task lib t o)
  unfolding delete_task
  delete_task-IsRemoval t o allowed = record {
    writes = λ s. Extends-mono (allowed s.cr) (delete_if_exists_safe lib api o s);
    same_cr = λ s. delete_if_exists-cr lib api o s;
  }

  pub delete_each-IsRemoval :
      (t : String) (os : List Object)
      → ((k : Key) → Removes k)
      → IsRemoval {c = c} P (delete_each lib t os)
  unfolding delete_each
  delete_each-IsRemoval t [] allowed = no_task-IsRemoval P
  delete_each-IsRemoval t (o ∷ os) allowed =
      both-IsRemoval P (delete_task lib t o) (delete_each lib t os)
        (delete_task-IsRemoval t o (allowed (key_of o))) (delete_each-IsRemoval t os allowed)

  module _ (is_desired : Object → Bool) (kind : String)
      (allowed : (o : Object) → is_desired o ≡ false → o.kind ≡ kind → Removes (key_of o)) where
    prune_undesired-IsRemoval :
        (t : String) (os : List Object)
        → All (λ (o : Object). o.kind ≡ kind) os
        → IsRemoval {c = c} P (prune_undesired lib t is_desired os)
    unfolding prune_undesired
    prune_undesired-IsRemoval t [] kinds = no_task-IsRemoval P
    prune_undesired-IsRemoval t (o ∷ os) kinds =
        let rest = prune_undesired-IsRemoval t os kinds.1 in
        elim (Bool-cases (is_desired o)) [
          | inl wanted ↦ rw wanted (both-IsRemoval P no_task _ (no_task-IsRemoval P) rest)
          | inr undesired ↦ rw undesired (
              both-IsRemoval P (delete_task lib t o) _
                (delete_task-IsRemoval t o (allowed o undesired kinds.0)) rest)
        ]

    pub prune_kind-IsRemoval :
        (label : String) (rest : Task c)
        → IsRemoval P rest
        → IsRemoval P (prune_kind lib kind label is_desired rest)
    unfolding prune_kind
    prune_kind-IsRemoval label rest r =
        let after =
          λ (s : State c) (os : List Object)
              (e : (c.list (marked kind label s.cr) s.world).0 ≡ ok os).
            both-IsRemoval P (prune_undesired lib kind is_desired os) rest
              (prune_undesired-IsRemoval kind os
                (api.list_selects (marked kind label s.cr) s.world os e))
              r in
        record {
          writes = λ s.
              let q = marked kind label s.cr in
              let listed = Extends-eq {P = P s.cr} (api.list_reads q s.world) in
              let t = record s { world = (c.list q s.world).1 } in
              elim (Result-cases (c.list q s.world).0) [
                | inl (os, e) ↦ rw e (Extends-trans listed ((after s os e).writes t))
                | inr (x, e) ↦ rw e listed
              ];
          same_cr = λ s.
              let q = marked kind label s.cr in
              let t = record s { world = (c.list q s.world).1 } in
              elim (Result-cases (c.list q s.world).0) [
                | inl (os, e) ↦ rw e ((after s os e).same_cr t)
                | inr (x, e) ↦ rw e refl
              ];
        }
