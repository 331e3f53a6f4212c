-- ===== src/Examples/Cluster.antt =====
-- A concrete API server: a log of object states, whose positions are the resource versions. It
-- meets the laws that the development assumes of the client.
pub mod Laws
use mathlib.Core.Path.{subst}
use kubernaut_operator.Base.Map.{Map, get}
use kubernaut_operator.Base.{
  String, All, is_empty, ℕ, zero, suc, ◌+◌, ◌≡◌, refl, sym, ap, ◌∙◌, ◌⊎◌, inl, inr, Bool, true,
  ◌&&◌, Option, none, some, List, [], ◌∷◌, ◌++◌, ◌==◌, eq_iff, nat_eqb, arith, if◌then◌else◌,
  length, get_elem?, Bool-cases, Option-cases,
}
use kubernaut_operator.Kube.Object.{Object, Key, key_of}
use kubernaut_operator.Kube.Op.{Result, ok, err, not_found, already_exists, version_conflict}
use kubernaut_operator.Kube.Client.{Client, Selector, IsApiServer, Write, created, updated, deleted}
use kubernaut_operator.Kube.Client
use kubernaut_operator.Kubernaut.{Kubernaut}

pub data Entry : Type 0 where
  live : Object → Entry
  gone : Key → Entry

pub record Cluster : Type 0 where
  pub log : List Entry
  pub writes : List Write
  pub crs : List Kubernaut

unfoldable pub same_key : Key → Key → Bool
same_key a b = a.kind == b.kind && a.namespace == b.namespace && a.name == b.name

abbrev pub step : Key → ℕ → Entry → Option Object → Option Object
step k i (live o) acc =
    if same_key (key_of o) k then some (record o { resource_version = suc i }) else acc
step k i (gone j) acc = if same_key j k then none else acc

-- The last state of the object of that key.
pub find : Key → ℕ → Option Object → List Entry → Option Object
find k i acc [] = acc
find k i acc (e ∷ es) = find k (suc i) (step k i e acc) es

abbrev pub IsState : List Entry → Object → Type 0
IsState log o =
    (j : ℕ) × (raw : Object) × (get_elem? log j ≡ some (live raw))
    × (o ≡ record raw { resource_version = suc j })

unfoldable pub find_latest : Key → Cluster → Option Object
unfolding find same_key
find_latest k w = find k 0 none w.log

abbrev answer : Option Object → Cluster → Result Object × Cluster
answer none w = (err not_found, w)
answer (some o) w = (ok o, w)

-- Get
unfoldable pub read : Key → Cluster → Result Object × Cluster
read k w = answer (find_latest k w) w

unfoldable pub append : Entry → Write → Cluster → Cluster
append e x w = record w { log = w.log ++ e ∷ []; writes = x ∷ w.writes }

abbrev pub stored : Object → Cluster → Object
stored o w = record o { resource_version = suc (length w.log) }

unfoldable pub create_new : Object → Option Object → Cluster → Result Object × Cluster
create_new o (some old) w = (err already_exists, w)
create_new o none w = (ok (stored o w), append (live o) (created o) w)

unfoldable pub replace : Object → Option Object → Cluster → Result Object × Cluster
replace o none w = (err not_found, w)
replace o (some old) w =
    if nat_eqb old.resource_version o.resource_version
    then (ok (stored o w), append (live o) (updated old o) w)
    else (err version_conflict, w)

unfoldable pub remove : Object → Option Object → Cluster → Result (Unit {0}) × Cluster
remove o none w = (err not_found, w)
remove o (some old) w =
    if nat_eqb old.resource_version o.resource_version && old.uid == o.uid
    then (ok tt, append (gone (key_of o)) (deleted old) w)
    else (err version_conflict, w)

-- MatchingLabels
abbrev matches : Map String → Object → Bool
matches [] o = true
matches ((key, value) ∷ labels) o = get key o.labels == value && matches labels o

abbrev pub selects : Selector → Object → Bool
selects q o =
    o.kind == q.kind
    && (if q.namespace == "" then true else o.namespace == q.namespace)
    && matches q.labels o

abbrev pub of_version : ℕ → Option Object → Option Object
of_version n none = none
of_version n (some o) = if nat_eqb o.resource_version n then some o else none

-- The object that an entry of the log stored, where it is still the last state.
abbrev pub current : Cluster → ℕ → Entry → Option Object
current w i (gone k) = none
current w i (live raw) = of_version (suc i) (find_latest (key_of raw) w)

abbrev selected : Selector → Option Object → List Object → List Object
selected q none rest = rest
selected q (some o) rest = if selects q o then o ∷ rest else rest

unfoldable pub list_from : Selector → Cluster → ℕ → List Entry → List Object
list_from q w i [] = []
list_from q w i (e ∷ es) = selected q (current w i e) (list_from q w (suc i) es)

abbrev is_named : String → String → Kubernaut → Bool
is_named namespace name kn = kn.namespace == namespace && kn.name == name

unfoldable pub find_kubernaut : String → String → List Kubernaut → Result Kubernaut
find_kubernaut namespace name [] = err not_found
find_kubernaut namespace name (kn ∷ kns) =
    if is_named namespace name kn then ok kn else find_kubernaut namespace name kns

-- An instance that is being deleted goes with its last finalizer.
abbrev kept : Kubernaut → List Kubernaut → List Kubernaut
kept kn kns = if kn.terminating && is_empty kn.finalizers then kns else kn ∷ kns

unfoldable pub put_kubernaut : Kubernaut → List Kubernaut → List Kubernaut
put_kubernaut new [] = []
put_kubernaut new (kn ∷ kns) =
    if is_named new.namespace new.name kn then kept new kns else kn ∷ put_kubernaut new kns

unfoldable pub store_kubernaut : Kubernaut → Cluster → Result Kubernaut × Cluster
unfolding put_kubernaut
store_kubernaut kn w =
    (ok kn, record w { crs = put_kubernaut kn w.crs; writes = Client.stored kn ∷ w.writes })

abbrev pub cluster_client : Client
cluster_client = record {
  World = Cluster;
  get = read;
  get_live = read;
  create = λ o w. create_new o (find_latest (key_of o) w) w;
  update = λ o w. replace o (find_latest (key_of o) w) w;
  delete = λ o w. remove o (find_latest (key_of o) w) w;
  patch_status = λ old new w. (ok new, w);
  list = λ q w. (ok (list_from q w 0 w.log), w);
  get_kubernaut = λ namespace name w. (find_kubernaut namespace name w.crs, w);
  update_kubernaut = store_kubernaut;
  list_kubernauts = λ w. (ok w.crs, w);
  history = λ w. w.writes;
  Observed = λ w o. IsState w.log o;
}
