-- ===== src/Base/Maps.antt =====
-- A Go map with string keys as an association list.
use Prim.Native.Nat.{◌+◌, ◌≤◌}
use Prim.Native.String.{String}
use mathlib.Core.Path.{◌≡◌, refl}
use mathlib.Core.Bool.{Bool}
use mathlib.Core.Option.{Option, none, some}
use mathlib.Core.List.{List, [], ◌∷◌}
use native.Mathlib.Omega.{arith}
use text.Mathlib.TextEquality.{eq_iff}
use kexcore_oidc.Base.Tests.{◌==◌, if◌then◌else◌}
use kexcore_oidc.Base.Lists.{length}

-- `Map V` is `map[string]V`.
abbrev pub Map {ℓ} : Type ℓ → Type ℓ
Map V = List (String × V)

module _ {ℓ} {V : Type ℓ} where
  -- `m[key]`, with whether it is there.
  unfoldable pub lookup : (key : String) → Map V → Option V
  lookup key [] = none
  lookup key ((other, here) ∷ rest) =
      let later = lookup key rest in if other == key then some here else later

  -- `m[key] = value`.
  unfoldable pub insert : (key : String) → (value : V) → Map V → Map V
  insert key value [] = (key, value) ∷ []
  insert key value ((other, here) ∷ rest) =
      let later = insert key value rest in
      if other == key then (key, value) ∷ rest else (other, here) ∷ later

  -- `delete(m, k)`.
  unfoldable pub delete : String → Map V → Map V
  delete k [] = []
  delete k ((j, w) ∷ m) = if j == k then delete k m else (j, w) ∷ delete k m

  -- The loop `for k, v := range m { if !p(v) { delete(m, k) } }`.
  unfoldable pub retain : (V → Bool) → Map V → Map V
  unfolding delete
  retain p [] = []
  retain p ((j, w) ∷ m) = let rest = retain p m in if p w then (j, w) ∷ rest else delete j rest

  -- Reading one key after writing one, in terms of the map before.
  pub lookup-insert :
      (written read : String) (value : V) (m : Map V)
      → lookup read (insert written value m)
        ≡ (if written == read then some value else lookup read m)
  unfolding lookup insert
  lookup-insert written read value [] = refl
  lookup-insert written read value ((other, here) ∷ rest) =
      let later = lookup-insert written read value rest in
      ground (arith, eq_iff other read, eq_iff other written, eq_iff written read)

  pub lookup-delete :
      (k j : String) (m : Map V) → lookup j (delete k m) ≡ (if k == j then none else lookup j m)
  unfolding lookup delete
  lookup-delete k j [] = ground arith
  lookup-delete k j ((i, w) ∷ m) =
      ground (arith, eq_iff k j, eq_iff i k, eq_iff i j, lookup-delete k j m)

  pub length-insert : (k : String) (v : V) (m : Map V) → length (insert k v m) ≤ length m + 1
  unfolding insert
  length-insert k v [] = omega arith
  length-insert k v ((i, w) ∷ m) = ground (arith, length-insert k v m)

  pub length-delete : (k : String) (m : Map V) → length (delete k m) ≤ length m
  unfolding delete
  length-delete k [] = omega arith
  length-delete k ((i, w) ∷ m) = ground (arith, length-delete k m)

  pub length-retain : (p : V → Bool) (m : Map V) → length (retain p m) ≤ length m
  unfolding retain
  length-retain p [] = omega arith
  length-retain p ((i, w) ∷ m) = ground (arith, length-retain p m, length-delete i (retain p m))

  abbrev pub filter_option : (V → Bool) → Option V → Option V
  filter_option p none = none
  filter_option p (some v) = if p v then some v else none

  pub lookup-retain :
      (p : V → Bool) (k : String) (m : Map V) → lookup k (retain p m) ≡ filter_option p (lookup k m)
  unfolding lookup retain
  lookup-retain p k [] = refl
  lookup-retain p k ((i, w) ∷ m) =
      ground (arith, eq_iff i k, lookup-delete i k (retain p m), lookup-retain p k m)
