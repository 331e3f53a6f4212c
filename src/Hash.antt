-- ===== src/Hash.antt =====
-- The hash of what the operator wants of an object (internal/resources/hash.go).
use kubernaut_operator.Base.{ℕ, String, ◌≡◌, Bool, false, [], ◌∷◌, eq_iff, arith, or_else}
use kubernaut_operator.Base.Map.{Map, insert, delete}
use kubernaut_operator.Kube.Object.{Object}
use kubernaut_operator.Kube.Library.{Library}

-- AnnotationSpecHash
abbrev pub spec_hash_key : String
spec_hash_key = "kubernaut.ai/spec-hash"

-- stripServerMetadata
unfoldable pub strip_server_metadata : Object → Object
strip_server_metadata obj = record obj {
  resource_version = 0;
  uid = "";
  terminating = false;
  annotations = delete spec_hash_key obj.annotations;
}

-- setHashAnnotation
unfoldable pub set_hash_annotation : Object → String → Object
set_hash_annotation obj hash = record obj {
  annotations = insert spec_hash_key hash obj.annotations;
}

-- SpecHash
unfoldable pub spec_hash : Library → Object → String
spec_hash lib obj = or_else (lib.digest (strip_server_metadata obj)) ""

delete-insert : (k v : String) (m : Map String) → delete k (insert k v m) ≡ delete k m
unfolding delete insert
delete-insert k v [] = ground (arith, eq_iff k k)
delete-insert k v ((j, w) ∷ m) = ground (arith, eq_iff j k, eq_iff k k, delete-insert k v m)

-- The hash of a live object does not depend on what the API server manages, nor on the hash that
-- was recorded on it: of an object as it was written, with any version, uid and recorded hash, it
-- is the hash that was computed before the write.
spec_hash_stable :
    (lib : Library) (obj : Object) (hash uid : String) (version : ℕ) (ending : Bool)
    → spec_hash lib (record (set_hash_annotation obj hash) {
      uid = uid;
      resource_version = version;
      terminating = ending;
    })
      ≡ spec_hash lib obj
unfolding spec_hash strip_server_metadata set_hash_annotation
spec_hash_stable lib obj hash uid version ending =
    rw (delete-insert spec_hash_key hash obj.annotations)
