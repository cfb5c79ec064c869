-- ===== src/Prelude/Maps.antt =====
-- `BTreeMap<String, V>`: an association list in the order of its keys.
use Prim.Native.String.{String, compare}
use Prim.Native.Nat.{◌≤◌, ◌+◌}
use mathlib.Core.Path.{◌≡◌, refl}
use mathlib.Core.Bool.{Bool, true}
use mathlib.Core.List.{List, [], ◌∷◌}
use mathlib.Core.Option.{Option, none, some}
use native.Mathlib.Omega.{arith}
use text.Mathlib.Text.{◌==◌, is_lt}
use text.Mathlib.TextEquality.{eq_iff}
use the_membrane.Prelude.Lists.{length}
use the_membrane.Prelude.Tests.{if◌then◌else◌, is_some}

-- `a < b` on texts
unfoldable pub str_lt : String → String → Bool
str_lt s t = is_lt (compare s t)

abbrev pub Map {ℓ} : Type ℓ → Type ℓ
Map V = List (String × V)

module _ {ℓ} {V : Type ℓ} where
  -- `get`
  unfoldable pub lookup : String → Map V → Option V
  lookup k [] = none
  lookup k ((j, v) ∷ m) = if j == k then some v else lookup k m

  unfoldable pub insert : String → V → Map V → Map V
  insert k v [] = (k, v) ∷ []
  insert k v ((j, w) ∷ m) =
      let rest = (j, w) ∷ insert k v m in
      if j == k then (k, v) ∷ m else if str_lt k j then (k, v) ∷ (j, w) ∷ m else rest

  -- `remove`
  unfoldable pub erase : String → Map V → Map V
  erase k [] = []
  erase k ((j, v) ∷ m) = let rest = erase k m in if j == k then rest else (j, v) ∷ rest

  abbrev pub contains_key : String → Map V → Bool
  contains_key k m = is_some (lookup k m)

  -- What a key finds after an insert, its own or another.
  pub lookup-insert :
      (key wanted : String) (value : V) (m : Map V)
      → lookup wanted (insert key value m) ≡ (if key == wanted then some value else lookup wanted m)
  unfolding lookup insert
  lookup-insert key wanted value [] = refl
  lookup-insert key wanted value ((head, old) ∷ rest) = ground (
    arith,
    lookup-insert key wanted value rest,
    eq_iff head wanted,
    eq_iff head key,
    eq_iff key wanted,
  )

  pub lookup-erase :
      (k j : String) (m : Map V) → lookup j (erase k m) ≡ (if k == j then none else lookup j m)
  unfolding lookup erase
  lookup-erase k j [] = ground arith
  lookup-erase k j ((i, w) ∷ m) =
      ground (arith, eq_iff k j, eq_iff i k, eq_iff i j, lookup-erase k j m)

-- `retain`
module _ {ℓ} {V : Type ℓ} where
  unfoldable pub retain : (V → Bool) → Map V → Map V
  retain p [] = []
  retain p ((k, v) ∷ m) = let rest = retain p m in if p v then (k, v) ∷ rest else rest

  pub lookup-retain :
      (p : V → Bool) (k : String) (m : Map V) {v : V}
      → lookup k m ≡ some v
      → p v ≡ true
      → lookup k (retain p m) ≡ some v
  unfolding lookup retain
  lookup-retain p k [] h q = cc
  lookup-retain p k ((j, w) ∷ m) {v} h q = ground (arith, lookup-retain p k m {v = v})

  pub length-retain : (p : V → Bool) (m : Map V) → length (retain p m) ≤ length m
  unfolding retain
  length-retain p [] = omega arith
  length-retain p ((k, v) ∷ m) = ground (arith, length-retain p m)

  pub length-insert : (k : String) (v : V) (m : Map V) → length (insert k v m) ≤ length m + 1
  unfolding insert
  length-insert k v [] = omega arith
  length-insert k v ((j, w) ∷ m) = ground (arith, length-insert k v m)

pub ruleset map_laws = (lookup-insert, lookup-erase)
