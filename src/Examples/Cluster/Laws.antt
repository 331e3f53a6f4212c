-- ===== src/Examples/Cluster/Laws.antt =====
-- The concrete cluster keeps the laws of the API server.
use mathlib.Core.Path.{subst}
use kubernaut_operator.Base.{
  All, ℕ, zero, suc, ◌+◌, ◌≡◌, refl, sym, ap, ◌∙◌, ◌⊎◌, inl, inr, true, ◌&&◌, Option, none, some,
  List, [], ◌∷◌, ◌++◌, ◌==◌, eq_iff, nat_eqb, arith, length, get_elem?, Bool-cases, Option-cases,
}
use kubernaut_operator.Kube.Object.{Object, Key, key_of}
use kubernaut_operator.Kube.Op.{ok}
use kubernaut_operator.Kube.Client.{Selector, IsApiServer, created, updated, deleted}
use kubernaut_operator.Examples.Cluster.{
  Entry, live, gone, Cluster, same_key, step, find, IsState, find_latest, read, append, create_new,
  replace, remove, current, of_version, selects, list_from, store_kubernaut, cluster_client,
}

same_key_iff : (a b : Key) → same_key a b ≡ true → a ≡ b
unfolding same_key
same_key_iff a b h =
    ground (arith, eq_iff a.kind b.kind, eq_iff a.namespace b.namespace, eq_iff a.name b.name)

get_elem?-append :
    (xs ys : List Entry) (j : ℕ) {e : Entry}
    → get_elem? xs j ≡ some e
    → get_elem? (xs ++ ys) j ≡ some e
get_elem?-append [] ys j h = cc
get_elem?-append (x ∷ xs) ys zero h = h
get_elem?-append (x ∷ xs) ys (suc j) h = get_elem?-append xs ys j h

get_elem?-last : (xs : List Entry) (e : Entry) → get_elem? (xs ++ e ∷ []) (length xs) ≡ some e
get_elem?-last [] e = refl
get_elem?-last (x ∷ xs) e = get_elem?-last xs e

-- What one entry makes of a sound answer.
step_sound :
    (k : Key) (log : List Entry) (i : ℕ) (e : Entry) (acc : Option Object)
    → get_elem? log i ≡ some e
    → ((o : Object) → acc ≡ some o → IsState log o × (key_of o ≡ k))
    → (o : Object) → step k i e acc ≡ some o
    → IsState log o × (key_of o ≡ k)
step_sound k log i (live raw) acc at h o e = elim (Bool-cases (same_key (key_of raw) k)) [
  | inl y ↦
      let is_o : record raw { resource_version = suc i } ≡ o = ground arith in
      ((i, raw, at, sym is_o), ap key_of (sym is_o) ∙ same_key_iff (key_of raw) k y)
  | inr n ↦ h o (ground arith)
]
step_sound k log i (gone j) acc at h o e = h o (ground arith)

find_sound :
    (k : Key) (log es : List Entry) (i : ℕ) (acc : Option Object)
    → ((j : ℕ) (e : Entry) → get_elem? es j ≡ some e → get_elem? log (j + i) ≡ some e)
    → ((o : Object) → acc ≡ some o → IsState log o × (key_of o ≡ k))
    → (o : Object) → find k i acc es ≡ some o
    → IsState log o × (key_of o ≡ k)
unfolding find
find_sound k log [] i acc at h o e = h o e
find_sound k log (x ∷ es) i acc at h o e =
    let here : 0 + i ≡ i = omega arith in
    find_sound k log es (suc i) (step k i x acc)
      (λ j y p.
        let there : suc j + i ≡ j + suc i = omega arith in
        subst (λ n. get_elem? log n ≡ some y) there (at (suc j) y p))
      (step_sound k log i x acc (subst (λ n. get_elem? log n ≡ some x) here (at 0 x refl)) h) o e

latest_sound :
    (k : Key) (w : Cluster) (o : Object)
    → find_latest k w ≡ some o
    → IsState w.log o × (key_of o ≡ k)
unfolding find_latest
latest_sound k w o e =
    find_sound k w.log w.log 0 none
      (λ j y p.
        let here : j ≡ j + 0 = omega arith in subst (λ n. get_elem? w.log n ≡ some y) here p)
      (λ x h. cc) o e

-- Two states with one version are one state.
state_unique :
    (log : List Entry) (a b : Object)
    → IsState log a
    → IsState log b
    → a.resource_version ≡ b.resource_version
    → a ≡ b
state_unique log a b (i, x, at_i, is_a) (j, y, at_j, is_b) v =
    let ij : i ≡ j = ground arith in
    let xy : x ≡ y = ground (arith, ap (get_elem? log) ij) in ground arith

read_lem :
    (k : Key) (w : Cluster)
    → ((read k w).1 ≡ w) × ((o : Object) → (read k w).0 ≡ ok o → find_latest k w ≡ some o)
unfolding read
read_lem k w = elim (Option-cases (find_latest k w)) [
  | inl e ↦ (rw e refl, λ o. rw e (λ h. cc))
  | inr (x, e) ↦ (rw e refl, λ o. rw e (λ h. cc))
]

read_shows :
    (k : Key) (w : Cluster) (o : Object)
    → (read k w).0 ≡ ok o
    → IsState (read k w).1.log o × (key_of o ≡ k)
read_shows k w o h =
    let (unchanged, latest) = read_lem k w in
    subst (λ v. IsState v.log o × (key_of o ≡ k)) (sym unchanged) (latest_sound k w o (latest o h))

create_writes :
    (o : Object) (found : Option Object) (w : Cluster)
    → ((create_new o found w).1.writes ≡ w.writes)
      ⊎ ((create_new o found w).1.writes ≡ created o ∷ w.writes)
unfolding create_new append
create_writes o none w = inr refl
create_writes o (some old) w = inl refl

replace_writes :
    (o : Object) (found : Option Object) (w : Cluster)
    → found ≡ find_latest (key_of o) w
    → ((replace o found w).1.writes ≡ w.writes)
      ⊎ ((old : Object) × ((replace o found w).1.writes ≡ updated old o ∷ w.writes)
          × ((seen : Object)
              → IsState w.log seen
              → key_of seen ≡ key_of o
              → seen.resource_version ≡ o.resource_version
              → seen ≡ old))
unfolding replace append
replace_writes o none w e = inl refl
replace_writes o (some old) w e =
    elim (Bool-cases (nat_eqb old.resource_version o.resource_version)) [
      | inr n ↦ inl (rw n refl)
      | inl y ↦
          let same_version : old.resource_version ≡ o.resource_version = ground arith in
          inr (
            old,
            rw y refl,
            λ seen is_state k v.
                state_unique w.log seen old is_state (latest_sound (key_of o) w old (sym e)).0
                  (v ∙ sym same_version),
          )
    ]

remove_writes :
    (o : Object) (found : Option Object) (w : Cluster)
    → found ≡ find_latest (key_of o) w
    → ((remove o found w).1.writes ≡ w.writes)
      ⊎ ((old : Object) × ((remove o found w).1.writes ≡ deleted old ∷ w.writes)
          × ((seen : Object)
              → IsState w.log seen
              → key_of seen ≡ key_of o
              → seen.uid ≡ o.uid
              → seen.resource_version ≡ o.resource_version
              → seen ≡ old))
unfolding remove append
remove_writes o none w e = inl refl
remove_writes o (some old) w e =
    elim (Bool-cases (nat_eqb old.resource_version o.resource_version && old.uid == o.uid)) [
      | inr n ↦ inl (rw n refl)
      | inl y ↦
          let same_version : old.resource_version ≡ o.resource_version = ground arith in
          inr (
            old,
            rw y refl,
            λ seen is_state k u v.
                state_unique w.log seen old is_state (latest_sound (key_of o) w old (sym e)).0
                  (v ∙ sym same_version),
          )
    ]

of_version_sound :
    (n : ℕ) (found : Option Object) (o : Object) → of_version n found ≡ some o → found ≡ some o
of_version_sound n none o h = cc
of_version_sound n (some x) o h = ground arith

current_sound :
    (w : Cluster) (i : ℕ) (e : Entry) (o : Object) → current w i e ≡ some o → IsState w.log o
current_sound w i (gone k) o h = cc
current_sound w i (live raw) o h =
    let k = key_of raw in (latest_sound k w o (of_version_sound (suc i) (find_latest k w) o h)).0

list_sound :
    (q : Selector) (w : Cluster) (i : ℕ) (es : List Entry)
    → All (IsState w.log) (list_from q w i es)
unfolding list_from
list_sound q w i [] = tt
list_sound q w i (e ∷ es) =
    let rest = list_sound q w (suc i) es in
    elim (Option-cases (current w i e)) [
      | inl nothing ↦ rw nothing rest
      | inr (o, here) ↦ rw here (elim (Bool-cases (selects q o)) [
        | inl y ↦ rw y (current_sound w i e o here, rest)
        | inr n ↦ rw n rest
      ])
    ]

list_selects :
    (q : Selector) (w : Cluster) (i : ℕ) (es : List Entry)
    → All (λ (o : Object). o.kind ≡ q.kind) (list_from q w i es)
unfolding list_from
list_selects q w i [] = tt
list_selects q w i (e ∷ es) =
    let rest = list_selects q w (suc i) es in
    elim (Option-cases (current w i e)) [
      | inl nothing ↦ rw nothing rest
      | inr (o, here) ↦ rw here (elim (Bool-cases (selects q o)) [
        | inl y ↦ rw y (ground (arith, eq_iff o.kind q.kind), rest)
        | inr n ↦ rw n rest
      ])
    ]

IsState-append :
    (log : List Entry) (e : Entry) (o : Object) → IsState log o → IsState (log ++ e ∷ []) o
IsState-append log e o (j, raw, at, is_o) = (j, raw, get_elem?-append log (e ∷ []) j at, is_o)

remove_shows :
    (x : Object) (found : Option Object) (w : Cluster) (o : Object)
    → IsState w.log o
    → IsState (remove x found w).1.log o
unfolding remove append
remove_shows x none w o h = h
remove_shows x (some old) w o h =
    elim (Bool-cases (nat_eqb old.resource_version x.resource_version && old.uid == x.uid)) [
      | inl y ↦ rw y (IsState-append w.log (gone (key_of x)) o h)
      | inr n ↦ rw n h
    ]

pub cluster-IsApiServer : IsApiServer cluster_client
unfolding store_kubernaut
cluster-IsApiServer = record {
  get_reads = λ k w. ap (λ (v : Cluster). v.writes) (read_lem k w).0;
  get_shows = read_shows;
  get_live_reads = λ k w. ap (λ (v : Cluster). v.writes) (read_lem k w).0;
  get_live_shows = read_shows;
  create_writes = λ o w. create_writes o (find_latest (key_of o) w) w;
  update_writes = λ o w. replace_writes o (find_latest (key_of o) w) w refl;
  delete_writes = λ o w. remove_writes o (find_latest (key_of o) w) w refl;
  delete_shows = λ x w o h. remove_shows x (find_latest (key_of x) w) w o h;
  list_reads = λ q w. refl;
  list_shows =
      λ q w os h. let e : list_from q w 0 w.log ≡ os = cc in rw (← e) (list_sound q w 0 w.log);
  list_selects =
      λ q w os h. let e : list_from q w 0 w.log ≡ os = cc in rw (← e) (list_selects q w 0 w.log);
  get_kubernaut_reads = λ namespace name w. refl;
  update_kubernaut_writes = λ kn w. inr refl;
  list_kubernauts_reads = λ w. refl;
  patch_reads = λ old new w. refl;
  patch_shows = λ old new w o h. h;
}
