-- ===== src/Singleton/Unique.antt =====
-- Which instance may be active (internal/webhook/singleton_webhook.go and authorizeSingleton of
-- internal/controller/kubernaut_controller.go).
use kubernaut_operator.Base.{
  ◌≡◌, refl, sym, ap, ◌∙◌, ◌↔◌, true, false, List, [], ◌∷◌, ◌==◌, eq_iff, eq_refl, arith,
  Bool-cases, inl, inr,
}
use kubernaut_operator.Kube.Op.{Result, Result-cases, ok, err}
use kubernaut_operator.Kube.Client.{Client}
use kubernaut_operator.Kubernaut.{Kubernaut, singleton_name}
use kubernaut_operator.Singleton.{
  allowed, admit_listed, is_sole, sole_verdict, authorize_singleton, handle,
}

-- The sole instance of the cluster is `kn`, and it is not terminating.
pub record IsSole (kn : Kubernaut) (instances : List Kubernaut) : Type 0 where
  pub sole : Kubernaut
  pub alone : instances ≡ sole ∷ []
  pub same_namespace : sole.namespace ≡ kn.namespace
  pub same_name : sole.name ≡ kn.name
  pub same_uid : sole.uid ≡ kn.uid
  pub alive : sole.terminating ≡ false

listed_sound :
    (kn : Kubernaut) (instances : List Kubernaut)
    → sole_verdict kn instances ≡ ok tt
    → IsSole kn instances
unfolding sole_verdict is_sole
listed_sound kn [] h = cc
listed_sound kn (sole ∷ []) h =
    let passed : is_sole kn sole ≡ true = ground arith in
    record {
      sole = sole;
      alone = refl;
      same_namespace = ground (arith, eq_iff sole.namespace kn.namespace);
      same_name = ground (arith, eq_iff sole.name kn.name);
      same_uid = ground (arith, eq_iff sole.uid kn.uid);
      alive = ground arith;
    }
listed_sound kn (a ∷ b ∷ rest) h = cc

listed_complete :
    (kn : Kubernaut) (instances : List Kubernaut)
    → IsSole kn instances
    → sole_verdict kn instances ≡ ok tt
unfolding sole_verdict is_sole
listed_complete kn instances p =
    rw p.alone
      (rw (p.same_namespace, p.same_name, p.same_uid, p.alive, eq_refl, eq_refl, eq_refl) refl)

admit_sound : (listed : Result (List Kubernaut)) → admit_listed listed ≡ allowed → listed ≡ ok []
admit_sound (err e) h = cc
admit_sound (ok []) h = refl
admit_sound (ok (kn ∷ kns)) h = cc

module _ (c : Client) where
  -- An instance is authorized exactly if the API server lists it as the only instance of the
  -- cluster, with its uid, and it is not terminating.
  pub authorize_iff :
      (kn : Kubernaut) (w : c.World)
      → ((authorize_singleton c kn w).0 ≡ ok tt) ↔ (
          (instances : List Kubernaut) × ((c.list_kubernauts w).0 ≡ ok instances)
          × IsSole kn instances)
  unfolding authorize_singleton
  authorize_iff kn w = (
    (elim (Result-cases (c.list_kubernauts w).0) [
      | inl (instances, e) ↦ rw e (λ h. (instances, refl, listed_sound kn instances h))
      | inr (x, e) ↦ rw e (λ h. cc)
    ]),
    λ (instances, e, is_sole_one). rw e (listed_complete kn instances is_sole_one),
  )

  -- Two instances that are authorized by the same answer of the API server are the same one.
  pub authorized_is_unique :
      (kn other : Kubernaut) (w : c.World)
      → (authorize_singleton c kn w).0 ≡ ok tt
      → (authorize_singleton c other w).0 ≡ ok tt
      → (kn.namespace ≡ other.namespace) × (kn.name ≡ other.name) × (kn.uid ≡ other.uid)
  authorized_is_unique kn other w h g =
      let (xs, e, p) = (authorize_iff kn w).0 h in
      let (ys, f, q) = (authorize_iff other w).0 g in
      let same_list : xs ≡ ys = cc in
      let a = p.alone in
      let b = q.alone in
      let same : p.sole ≡ q.sole = cc in
      (
        sym p.same_namespace ∙ ap (λ (x : Kubernaut). x.namespace) same ∙ q.same_namespace,
        sym p.same_name ∙ ap (λ (x : Kubernaut). x.name) same ∙ q.same_name,
        sym p.same_uid ∙ ap (λ (x : Kubernaut). x.uid) same ∙ q.same_uid,
      )

  -- Admission lets a new resource in exactly if the request decodes, its name is the singleton's,
  -- and the API server lists no instance.
  pub handle_iff :
      (decoded : Result Kubernaut) (w : c.World)
      → ((handle c "CREATE" decoded w).0 ≡ allowed) ↔ (
          (kn : Kubernaut) × (decoded ≡ ok kn)
          × (kn.name ≡ singleton_name)
          × ((c.list_kubernauts w).0 ≡ ok []))
  unfolding handle
  handle_iff decoded w = (
    (elim (Result-cases decoded) [
      | inr (x, e) ↦ rw e (λ h. cc)
      | inl (kn, e) ↦ rw e (elim (Bool-cases (kn.name == singleton_name)) [
        | inl y ↦ rw y (λ h. (kn, refl, (eq_iff kn.name singleton_name).0 y, admit_sound _ h))
        | inr n ↦ rw n (λ h. cc)
      ])
    ]),
    λ (kn, e, named, none_left). rw (e, named, none_left) refl,
  )
