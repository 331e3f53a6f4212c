-- ===== src/Drift/Preserve.antt =====
-- The operator's own content of a live object and the rest of it (contentDrifted,
-- preserveServiceFields of internal/controller/kubernaut_controller.go).
use mathlib.Core.List.{map}
use kubernaut_operator.Base.{
  String, ◌≡◌, refl, sym, ap, ◌⊎◌, All, true, false, List, [], ◌∷◌, some, ◌==◌, eq_iff, eq_refl,
  arith, if◌then◌else◌, Bool-cases, Option-cases, is_some, ◌↔◌, inl, inr, none,
}
use kubernaut_operator.Base.Map.{Map, lookup, get, delete, lookup-copy, lookup-delete}
use kubernaut_operator.Kube.Object.{Object, ServicePort, ServiceSpec, Body, service, config_map}
use kubernaut_operator.Kube.Library.{Library, IsDeepEqual}
use kubernaut_operator.Drift.{
  or_default, owned_port, owned_service_spec, text_drifted, binary_drifted, same_bytes,
  body_drifted, preserved_spec, preserve_service_fields, serving_cert_key,
}

-- A text is there, or it is empty and its key is not there: the code reads a key that is missing as
-- the empty text.
abbrev pub HoldsText : String → String → Map String → Type 0
HoldsText key value live =
    (lookup key live ≡ some value) ⊎ ((value ≡ "") × (lookup key live ≡ none))

-- The texts and the bytes that a ConfigMap should hold are there; other keys do not matter.
abbrev pub HoldsTexts : Map String → Map String → Type 0
HoldsTexts want live = All (λ (e : String × String). HoldsText e.0 e.1 live) want

abbrev pub HoldsBytes : Map String → Map String → Type 0
HoldsBytes want live = All (λ (e : String × String). lookup e.0 live ≡ some e.1) want

-- A live body holds what was desired: a Service up to what the API server allocates, a ConfigMap up
-- to keys that others added. Of other types the code compares no content.
abbrev pub Holds : Body → Body → Type 0
Holds (service want) (service live) = owned_service_spec live ≡ owned_service_spec want
Holds (config_map want want_binary) (config_map live live_binary) =
    HoldsTexts want live × HoldsBytes want_binary live_binary
Holds _ _ = Unit

get_iff :
    (key value : String) (live : Map String) → (get key live ≡ value) ↔ HoldsText key value live
unfolding get
get_iff key value live = elim (Option-cases (lookup key live)) [
  | inl e ↦ rw e (
    λ h. inr (sym h, refl),
    elim [ inl x ↦ absurd (let f : none ≡ some value = x in cc) | inr x ↦ sym x.0 ],
  )
  | inr (found, e) ↦ rw e (
    λ h. inl (ap some h),
    elim [ inl x ↦ cc | inr x ↦ absurd (let f : some found ≡ none = x.1 in cc) ],
  )
]

text_iff : (want live : Map String) → (text_drifted want live ≡ false) ↔ HoldsTexts want live
unfolding text_drifted
text_iff [] live = (λ h. tt, λ h. refl)
text_iff ((k, v) ∷ want) live =
    let (sound, complete) = text_iff want live in
    (
      λ h. ((get_iff k v live).0 ((eq_iff (get k live) v).0 (ground arith)), sound (ground arith)),
      λ h. rw ((get_iff k v live).1 h.0, eq_refl) (complete h.1),
    )

bytes_iff :
    (k v : String) (live : Map String)
    → (same_bytes (lookup k live) v ≡ true) ↔ (lookup k live ≡ some v)
bytes_iff k v live = elim (Option-cases (lookup k live)) [
  | inl e ↦ (ground arith, ground arith)
  | inr (x, e) ↦ (ground (arith, eq_iff v x), ground (arith, eq_iff v x))
]

binary_iff : (want live : Map String) → (binary_drifted want live ≡ false) ↔ HoldsBytes want live
unfolding binary_drifted
binary_iff [] live = (λ h. tt, λ h. refl)
binary_iff ((k, v) ∷ want) live =
    let (sound, complete) = binary_iff want live in
    (
      λ h. ((bytes_iff k v live).0 (ground arith), sound (ground arith)),
      λ h. rw ((bytes_iff k v live).1 h.0) (complete h.1),
    )

-- The operator sees no drift of a ConfigMap exactly when every text that it wants is there
-- unchanged, or is empty with its key missing, and all bytes that it wants are there unchanged. So
-- a text that is missing is a drift unless it is empty, and keys that others added are none.
pub config_map_drift_iff :
    (lib : Library) (want want_binary live live_binary : Map String)
    → (body_drifted lib (config_map want want_binary) (config_map live live_binary) ≡ false)
      ↔ Holds (config_map want want_binary) (config_map live live_binary)
unfolding body_drifted text_drifted binary_drifted
config_map_drift_iff lib want want_binary live live_binary =
    let (t_sound, t_complete) = text_iff want live in
    let (b_sound, b_complete) = binary_iff want_binary live_binary in
    (
      λ h. (t_sound (ground arith), b_sound (ground arith)),
      λ h. ground (arith, t_complete h.0, b_complete h.1),
    )

-- A body that holds what was desired shows no drift.
pub no_drift :
    (lib : Library) (want live : Body)
    → IsDeepEqual lib
    → Holds want live
    → body_drifted lib want live ≡ false
unfolding body_drifted
no_drift lib (service want) (service live) deep h = rw (h, deep.same_service_refl)
no_drift lib (config_map want want_binary) (config_map live live_binary) deep h =
    (config_map_drift_iff lib want want_binary live live_binary).1 h
no_drift lib _ _ deep h = refl

owned_port_idem : (p : ServicePort) → owned_port (owned_port p) ≡ owned_port p
unfolding owned_port
owned_port_idem p = ground (arith, eq_iff p.protocol "")

map-owned_port_idem :
    (ps : List ServicePort) → map owned_port (map owned_port ps) ≡ map owned_port ps
map-owned_port_idem [] = refl
map-owned_port_idem (p ∷ ps) = cc (owned_port_idem p, map-owned_port_idem ps)

or_default_idem : (s d : String) → or_default (or_default s d) d ≡ or_default s d
or_default_idem s d = ground (arith, eq_iff s "")

-- What an update of a Service sends: every field that the operator owns as it wants it, and the
-- address that the API server allocated.
preserved_spec_lem :
    (want live : ServiceSpec)
    → (owned_service_spec (preserved_spec want live) ≡ owned_service_spec want)
      × ((preserved_spec want live).cluster_ip ≡ live.cluster_ip)
unfolding preserved_spec owned_service_spec
preserved_spec_lem want live = elim (Bool-cases (or_default want.type "ClusterIP" == "ClusterIP")) [
  | inl y ↦ (
    rw y (
        ground (
          arith,
          map-owned_port_idem want.ports,
          or_default_idem want.type "ClusterIP",
          or_default_idem want.session_affinity "None",
        )),
    rw y refl,
  )
  | inr n ↦ (
    rw n (
        ground (
          arith,
          map-owned_port_idem want.ports,
          or_default_idem want.type "ClusterIP",
          or_default_idem want.session_affinity "None",
        )),
    rw n refl,
  )
]

-- The annotations and labels that an update of a Service sends: the desired ones, and behind them
-- the live ones, of which the serving certificate is dropped unless it is desired.
pub preserve_metadata :
    (want : Object) (live : Object) (k : String) {spec live_spec : ServiceSpec}
    → want.body ≡ service spec
    → live.body ≡ service live_spec
    → (lookup k (preserve_service_fields want live).annotations ≡ (
        if is_some (lookup k want.annotations)
        then lookup k want.annotations
        else if serving_cert_key == k
        then none
        else lookup k live.annotations))
      × (lookup k (preserve_service_fields want live).labels
          ≡ (if is_some (lookup k want.labels) then lookup k want.labels else lookup k live.labels))
unfolding preserve_service_fields
preserve_metadata want live k e f =
    rw (e, f)
      (
        ground (
          arith,
          lookup-copy k want.annotations (delete serving_cert_key live.annotations),
          lookup-delete serving_cert_key k live.annotations,
        ),
        ground (arith, lookup-copy k want.labels live.labels),
      )
