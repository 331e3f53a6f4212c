-- ===== src/Rbac/Pruned.antt =====
-- The prune functions of RBAC objects remove orphans alone
-- (internal/controller/kubernaut_controller.go).
use kubernaut_operator.Base.{
  String, ◌≡◌, refl, ap, ◌∙◌, ◌⊎◌, inl, inr, Bool, false, ◌||◌, ◌&&◌, ◌==◌, List, [], ◌∷◌,
}
use kubernaut_operator.Kube.Object.{Object, Key, key_of}
use kubernaut_operator.Kube.Library.{Library}
use kubernaut_operator.Kube.Client.{Client, IsApiServer, Write, created, updated, deleted, stored}
use kubernaut_operator.Kubernaut.{Kubernaut}
use kubernaut_operator.Ownership.Contract.{IsAuthorized}
use kubernaut_operator.Status.{State}
use kubernaut_operator.Ensure.Writes.{Extends, Removal}
use kubernaut_operator.Rbac.{
  Task, no_task, is_desired_name, is_desired_key, prune_orphaned_core, prune_orphaned_mcp_gateway,
  prune_orphaned_additional, core_cluster_label, mcp_gateway_label, additional_component_label,
  prune_kind,
}
use kubernaut_operator.Rbac.Orphans.{IsRemoval, no_task-IsRemoval, prune_kind-IsRemoval}

is_desired_name-eq :
    (desired : List Object) (a b : Object)
    → key_of a ≡ key_of b
    → is_desired_name desired a ≡ is_desired_name desired b
unfolding is_desired_name
is_desired_name-eq [] a b e = refl
is_desired_name-eq (d ∷ desired) a b e =
    λ i. d.name == (e i).name || is_desired_name-eq desired a b e i

is_desired_key-eq :
    (desired : List Object) (a b : Object)
    → key_of a ≡ key_of b
    → is_desired_key desired a ≡ is_desired_key desired b
unfolding is_desired_key
is_desired_key-eq [] a b e = refl
is_desired_key-eq (d ∷ desired) a b e =
    λ i. d.namespace == (e i).namespace && d.name == (e i).name || is_desired_key-eq desired a b e i

-- An object of that type which is not desired.
abbrev pub IsUndesired : String → (Object → Bool) → Object → Type 0
IsUndesired kind is_desired o = (o.kind ≡ kind) × (is_desired o ≡ false)

-- The removal of a state that the ownership contract authorizes, of an object that `Undesired`
-- holds of; no other write.
abbrev pub Orphan : Library → (Object → Type 0) → Kubernaut → Write → Type 0
Orphan lib Undesired kn (created o) = ⊥
Orphan lib Undesired kn (updated old new) = ⊥
Orphan lib Undesired kn (deleted old) =
    ((controller_owned : Bool) × IsAuthorized lib.parse_group kn old controller_owned)
    × Undesired old
Orphan lib Undesired kn (stored new) = ⊥

module _ (lib : Library) (Undesired : Object → Type 0) (o : Object)
    (orphaned : (old : Object) → key_of old ≡ key_of o → Undesired old) where
  gone-Orphan :
      (kn : Kubernaut) (w : Write) → Removal lib kn (key_of o) w → Orphan lib Undesired kn w
  gone-Orphan kn (created x) h = absurd h
  gone-Orphan kn (updated x y) h = absurd h
  gone-Orphan kn (deleted old) h = (h.0, orphaned old h.1)
  gone-Orphan kn (stored x) h = absurd h

module _ (lib : Library) {c : Client} (api : IsApiServer c) (Undesired : Object → Type 0) where
  kind-IsRemoval :
      (is_desired : Object → Bool)
      → ((a b : Object) → key_of a ≡ key_of b → is_desired a ≡ is_desired b)
      → (kind label : String) (rest : Task c)
      → ((o : Object) → IsUndesired kind is_desired o → Undesired o)
      → IsRemoval (Orphan lib Undesired) rest
      → IsRemoval (Orphan lib Undesired) (prune_kind lib kind label is_desired rest)
  kind-IsRemoval is_desired same_test kind label rest undesired r =
      prune_kind-IsRemoval lib api (Orphan lib Undesired) is_desired kind
        (λ o missing of_kind. gone-Orphan lib Undesired o λ old k.
          undesired old (ap (λ (j : Key). j.kind) k ∙ of_kind, same_test old o k ∙ missing))
        label rest r

-- What a prune of roles and bindings removes.
abbrev pub RoleOrBinding :
    (String → String → (List Object → Object → Bool) → List Object → List Object → Object → Type 0)
RoleOrBinding role binding test roles bindings o =
    IsUndesired role (test roles) o ⊎ IsUndesired binding (test bindings) o

module _ (lib : Library) {c : Client} (api : IsApiServer c) where
  pub core-IsRemoval :
      (roles bindings : List Object)
      → IsRemoval
          (Orphan lib
            (RoleOrBinding "ClusterRole" "ClusterRoleBinding" is_desired_name roles bindings))
          (prune_orphaned_core lib {c = c} roles bindings)
  unfolding prune_orphaned_core
  core-IsRemoval roles bindings =
      let P = RoleOrBinding "ClusterRole" "ClusterRoleBinding" is_desired_name roles bindings in
      kind-IsRemoval lib api P (is_desired_name roles) (is_desired_name-eq roles) "ClusterRole"
        core_cluster_label _ (λ o h. inl h)
        (kind-IsRemoval lib api P (is_desired_name bindings) (is_desired_name-eq bindings)
          "ClusterRoleBinding" core_cluster_label no_task (λ o h. inr h)
          (no_task-IsRemoval (Orphan lib P)))

  pub mcp_gateway-IsRemoval :
      (roles bindings : List Object)
      → IsRemoval
          (Orphan lib (RoleOrBinding "Role" "RoleBinding" is_desired_key roles bindings))
          (prune_orphaned_mcp_gateway lib {c = c} roles bindings)
  unfolding prune_orphaned_mcp_gateway
  mcp_gateway-IsRemoval roles bindings =
      let P = RoleOrBinding "Role" "RoleBinding" is_desired_key roles bindings in
      kind-IsRemoval lib api P (is_desired_key roles) (is_desired_key-eq roles) "Role"
        mcp_gateway_label _ (λ o h. inl h)
        (kind-IsRemoval lib api P (is_desired_key bindings) (is_desired_key-eq bindings)
          "RoleBinding" mcp_gateway_label no_task (λ o h. inr h) (no_task-IsRemoval (Orphan lib P)))

  pub additional-IsRemoval :
      (bindings : List Object)
      → IsRemoval
          (Orphan lib (IsUndesired "ClusterRoleBinding" (is_desired_name bindings)))
          (prune_orphaned_additional lib {c = c} bindings)
  unfolding prune_orphaned_additional
  additional-IsRemoval bindings =
      let P = IsUndesired "ClusterRoleBinding" (is_desired_name bindings) in
      kind-IsRemoval lib api P (is_desired_name bindings) (is_desired_name-eq bindings)
        "ClusterRoleBinding" additional_component_label no_task (λ o h. h)
        (no_task-IsRemoval (Orphan lib P))

  -- Each of the three prune functions removes, whatever the other writers do and however it ends,
  -- only states that the ownership contract authorizes, of roles or bindings that are not desired,
  -- and writes nothing else: of the core and of the additional objects those with a name that no
  -- desired object of the type has, of the MCP Gateway objects those with a namespace and a name
  -- that no desired object of the type has.
  pub pruning_safe :
      (roles bindings : List Object) (s : State c)
      → Extends
          (Orphan lib
            (RoleOrBinding "ClusterRole" "ClusterRoleBinding" is_desired_name roles bindings)
            s.cr)
          (c.history s.world)
          (c.history (prune_orphaned_core lib roles bindings s).1.world)
        × Extends
            (Orphan lib (RoleOrBinding "Role" "RoleBinding" is_desired_key roles bindings) s.cr)
            (c.history s.world)
            (c.history (prune_orphaned_mcp_gateway lib roles bindings s).1.world)
        × Extends
            (Orphan lib (IsUndesired "ClusterRoleBinding" (is_desired_name bindings)) s.cr)
            (c.history s.world)
            (c.history (prune_orphaned_additional lib bindings s).1.world)
  pruning_safe roles bindings s = (
    (core-IsRemoval roles bindings).writes s,
    (mcp_gateway-IsRemoval roles bindings).writes s,
    (additional-IsRemoval bindings).writes s,
  )
