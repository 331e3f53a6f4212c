-- ===== src/Singleton.antt =====
-- One instance per cluster (Handle of internal/webhook/singleton_webhook.go; authorizeSingleton of
-- internal/controller/kubernaut_controller.go). Decoding an admission request is controller-runtime's.
pub mod Unique
use kubernaut_operator.Base.{
  ℕ, String, ◌≡◌, refl, sym, ap, ◌∙◌, ◌↔◌, Bool, true, false, not, ◌&&◌, ◌||◌, List, [], ◌∷◌, ◌==◌,
  eq_iff, eq_refl, arith, Bool-cases, if◌then◌else◌, inl, inr,
}
use kubernaut_operator.Kube.Op.{Error, Result, Result-cases, ok, err, wrapped, message}
use kubernaut_operator.Kube.Client.{Client}
use kubernaut_operator.Kubernaut.{Kubernaut, singleton_name}

-- admission.Response: allowed, denied, or an error with its HTTP status
pub data Response : Type 0 where
  allowed denied : Response
  errored : (status : ℕ) → Error → Response

-- The test of authorizeSingleton on the one instance.
unfoldable pub is_sole : Kubernaut → Kubernaut → Bool
is_sole kn sole =
    sole.namespace == kn.namespace
    && sole.name == kn.name
    && sole.uid == kn.uid
    && not sole.terminating

-- authorizeSingleton on the answer of the uncached reader
unfoldable pub sole_verdict : Kubernaut → List Kubernaut → Result (Unit {0})
sole_verdict kn (sole ∷ []) =
    if is_sole kn sole
    then ok tt
    else err
        (message "cluster-wide singleton is absent, replaced or terminating; activation denied")
sole_verdict kn _ = err (message "cluster-wide singleton conflict")

abbrev pub authorize_listed : Kubernaut → Result (List Kubernaut) → Result (Unit {0})
authorize_listed kn (ok instances) = sole_verdict kn instances
authorize_listed kn (err e) = err (wrapped "checking cluster-wide singleton" e)

abbrev pub admit_listed : Result (List Kubernaut) → Response
admit_listed (err e) = errored 500 (wrapped "listing Kubernaut CRs" e)
admit_listed (ok []) = allowed
admit_listed (ok (kn ∷ kns)) = denied

module _ (c : Client) where
  -- authorizeSingleton
  unfoldable pub authorize_singleton : Kubernaut → c.World → Result (Unit {0}) × c.World
  authorize_singleton kn w =
      let (listed, w') = c.list_kubernauts w in (authorize_listed kn listed, w')

  abbrev pub admit_decoded : Result Kubernaut → c.World → Response × c.World
  admit_decoded (err e) w = (errored 400 e, w)
  admit_decoded (ok kn) w =
      if not (kn.name == singleton_name)
      then (denied, w)
      else (admit_listed (c.list_kubernauts w).0, (c.list_kubernauts w).1)

  -- Handle
  unfoldable pub handle : String → Result Kubernaut → c.World → Response × c.World
  handle operation decoded w =
      if not (operation == "CREATE") then (allowed, w) else admit_decoded decoded w
