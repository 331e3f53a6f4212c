-- ===== src/Kube/Client.antt =====
-- The client of the API server (sigs.k8s.io/controller-runtime) as an interface, and what the
-- Kubernetes API documents of it. The world is the cluster with all its other writers.
use kubernaut_operator.Base.{String, ◌≡◌, ◌⊎◌, All, List, ◌∷◌}
use kubernaut_operator.Base.Map.{Map}
use kubernaut_operator.Kube.Object.{Object, Key, key_of}
use kubernaut_operator.Kube.Op.{ok, Op}
use kubernaut_operator.Kubernaut.{Kubernaut}

-- A write of the operator that the API server accepted; `old` is what it replaced or removed.
pub data Write : Type 0 where
  created : Object → Write
  updated : (old new : Object) → Write
  deleted : (old : Object) → Write
  stored : Kubernaut → Write  -- the custom resource itself, with Update

-- The options of a List: InNamespace ("" for all namespaces) and MatchingLabels.
pub record Selector : Type 0 where
  pub kind : String
  pub namespace : String
  pub labels : Map String

pub record Client : Type 1 where
  pub World : Type 0
  pub get : Key → Op World Object  -- Get through the cache, which may be stale
  pub get_live : Key → Op World Object  -- Get of the uncached reader
  pub create : Object → Op World Object  -- the object with the fields that the server sets
  pub update : Object → Op World Object
  pub delete : Object → Op World (Unit {0})  -- with the object's uid and version as preconditions
  pub patch_status : Kubernaut → Kubernaut → Op World Kubernaut  -- the merge patch between the two
  pub list : Selector → Op World (List Object)  -- List through the cache
  pub get_kubernaut : (namespace name : String) → Op World Kubernaut  -- through the cache
  pub update_kubernaut : Kubernaut → Op World Kubernaut  -- the object as stored
  pub list_kubernauts : Op World (List Kubernaut)  -- of all namespaces, uncached
  pub history : World → List Write  -- the operator's accepted writes, the last one first
  pub Observed : World → Object → Type 0  -- a state that some object has or had

-- Reads write nothing and show states that the server stored; a call that fails may or may not
-- have been carried out; a resource version identifies one state of an object, and a write with a
-- precondition on the version replaces that state and no other.
pub record IsApiServer (c : Client) : Type 0 where
  pub get_reads : (k : Key) (w : c.World) → c.history (c.get k w).1 ≡ c.history w
  pub get_shows :
      (k : Key) (w : c.World) (o : Object)
      → (c.get k w).0 ≡ ok o
      → c.Observed (c.get k w).1 o × (key_of o ≡ k)
  pub get_live_reads : (k : Key) (w : c.World) → c.history (c.get_live k w).1 ≡ c.history w
  pub get_live_shows :
      (k : Key) (w : c.World) (o : Object)
      → (c.get_live k w).0 ≡ ok o
      → c.Observed (c.get_live k w).1 o × (key_of o ≡ k)
  pub create_writes :
      (o : Object) (w : c.World)
      → (c.history (c.create o w).1 ≡ c.history w)
        ⊎ (c.history (c.create o w).1 ≡ created o ∷ c.history w)
  pub update_writes :
      (o : Object) (w : c.World)
      → (c.history (c.update o w).1 ≡ c.history w)
        ⊎ ((old : Object) × (c.history (c.update o w).1 ≡ updated old o ∷ c.history w)
            × ((seen : Object)
                → c.Observed w seen
                → key_of seen ≡ key_of o
                → seen.resource_version ≡ o.resource_version
                → seen ≡ old))
  pub delete_writes :
      (o : Object) (w : c.World)
      → (c.history (c.delete o w).1 ≡ c.history w)
        ⊎ ((old : Object) × (c.history (c.delete o w).1 ≡ deleted old ∷ c.history w)
            × ((seen : Object)
                → c.Observed w seen
                → key_of seen ≡ key_of o
                → seen.uid ≡ o.uid
                → seen.resource_version ≡ o.resource_version
                → seen ≡ old))
  pub delete_shows :
      (x : Object) (w : c.World) (o : Object) → c.Observed w o → c.Observed (c.delete x w).1 o
  pub list_reads : (q : Selector) (w : c.World) → c.history (c.list q w).1 ≡ c.history w
  pub list_shows :
      (q : Selector) (w : c.World) (os : List Object)
      → (c.list q w).0 ≡ ok os
      → All (c.Observed (c.list q w).1) os
  pub list_selects :
      (q : Selector) (w : c.World) (os : List Object)
      → (c.list q w).0 ≡ ok os
      → All (λ o. o.kind ≡ q.kind) os
  pub get_kubernaut_reads :
      (namespace name : String) (w : c.World)
      → c.history (c.get_kubernaut namespace name w).1 ≡ c.history w
  pub update_kubernaut_writes :
      (kn : Kubernaut) (w : c.World)
      → (c.history (c.update_kubernaut kn w).1 ≡ c.history w)
        ⊎ (c.history (c.update_kubernaut kn w).1 ≡ stored kn ∷ c.history w)
  pub list_kubernauts_reads : (w : c.World) → c.history (c.list_kubernauts w).1 ≡ c.history w
  pub patch_reads :
      (old new : Kubernaut) (w : c.World) → c.history (c.patch_status old new w).1 ≡ c.history w
  pub patch_shows :
      (old new : Kubernaut) (w : c.World) (o : Object)
      → c.Observed w o
      → c.Observed (c.patch_status old new w).1 o
