-- ===== src/Base/Map.antt =====
-- Go maps with string keys as association lists. The code ranges over a map only where the order
-- does not matter, so the order of the entries is not modelled.
use Prim.Native.String.{String}
use mathlib.Core.Path.{◌≡◌, refl}
use mathlib.Core.Option.{Option, none, some}
use mathlib.Core.List.{List, [], ◌∷◌}
use native.Mathlib.Omega.{arith}
use text.Mathlib.Text.{◌==◌}
use text.Mathlib.TextEquality.{eq_iff}
use kubernaut_operator.Base.Tests.{if◌then◌else◌, or_else}

abbrev pub Map {ℓ} : Type ℓ → Type ℓ
Map V = List (String × V)

module _ {ℓ} {V : Type ℓ} where
  -- `v, ok := m[k]`
  unfoldable pub lookup : String → Map V → Option V
  lookup k [] = none
  lookup k ((j, v) ∷ m) = if j == k then some v else lookup k m

  -- `m[k] = v`
  unfoldable pub insert : String → V → Map V → Map V
  insert key value [] = (key, value) ∷ []
  insert key value (entry ∷ m) =
      if entry.0 == key then (key, value) ∷ m else entry ∷ insert key value m

  -- `delete(m, k)`
  unfoldable pub delete : String → Map V → Map V
  delete k [] = []
  delete k ((j, v) ∷ m) = let rest = delete k m in if j == k then rest else (j, v) ∷ rest

  -- `maps.Copy(dst, src)`, and `for k, v := range src { dst[k] = v }`
  unfoldable pub copy : Map V → Map V → Map V
  copy [] dst = dst
  copy ((k, v) ∷ src) dst = insert k v (copy src dst)

  pub lookup-insert :
      (set asked : String) (value : V) (m : Map V)
      → lookup asked (insert set value m) ≡ (if set == asked then some value else lookup asked m)
  unfolding insert lookup
  lookup-insert set asked value [] = refl
  lookup-insert set asked value (entry ∷ m) =
      let rest = lookup-insert set asked value m in
      ground (arith, rest, eq_iff entry.0 set, eq_iff set asked, eq_iff entry.0 asked)

  pub lookup-delete :
      (gone asked : String) (m : Map V)
      → lookup asked (delete gone m) ≡ (if gone == asked then none else lookup asked m)
  unfolding delete lookup
  lookup-delete gone asked [] = ground arith
  lookup-delete gone asked (entry ∷ m) =
      let rest = lookup-delete gone asked m in
      ground (arith, rest, eq_iff entry.0 gone, eq_iff gone asked, eq_iff entry.0 asked)

  abbrev first : Option V → Option V → Option V
  first none o = o
  first (some v) o = some v

  -- What was copied covers what was there.
  pub lookup-copy :
      (j : String) (src dst : Map V) → lookup j (copy src dst) ≡ first (lookup j src) (lookup j dst)
  unfolding lookup copy
  lookup-copy j [] dst = refl
  lookup-copy j ((k, v) ∷ src) dst =
      ground (arith, lookup-insert k j v (copy src dst), lookup-copy j src dst)

-- `m[k]` of a map of strings: the empty text where the key is missing
unfoldable pub get : String → Map String → String
unfolding lookup
get k m = or_else (lookup k m) ""

pub get-insert :
    (k j v : String) (m : Map String) → get j (insert k v m) ≡ (if k == j then v else get j m)
unfolding get
get-insert k j v m = ground (arith, lookup-insert k j v m)
