-- ===== src/Common/Dict.antt =====
-- A Go map with string keys, as an association list. The order of the entries is not observed.
use Prim.Native.String.{String}
use mathlib.Core.Path.{◌≡◌, refl}
use mathlib.Core.Bool.{Bool}
use mathlib.Core.Option.{Option, none, some}
use mathlib.Core.List.{List, [], ◌∷◌}
use native.Mathlib.Omega.{arith}
use text.Mathlib.TextEquality.{eq_iff}
use go_mcp_gateway.Common.Tests.{name_eq, if◌then◌else◌}

abbrev pub Dict {ℓ} : Type ℓ → Type ℓ
Dict V = List (String × V)

module _ {ℓ} {V : Type ℓ} where
  -- A read; `none` is a missing key.
  unfoldable pub lookup : String → Dict V → Option V
  lookup k [] = none
  lookup k ((j, v) ∷ m) = if name_eq k j then some v else lookup k m

  -- m[k] = v
  unfoldable pub insert : String → V → Dict V → Dict V
  insert k v [] = (k, v) ∷ []
  insert k v ((j, w) ∷ m) = if name_eq k j then (k, v) ∷ m else (j, w) ∷ insert k v m

  -- A loop that deletes the entries whose value fails the test.
  unfoldable pub retain : (V → Bool) → Dict V → Dict V
  retain keep [] = []
  retain keep ((j, v) ∷ m) = let rest = retain keep m in if keep v then (j, v) ∷ rest else rest

  unfoldable pub map_values : (V → V) → Dict V → Dict V
  map_values f [] = []
  map_values f ((j, v) ∷ m) = (j, f v) ∷ map_values f m

  abbrev pub keep_if : (V → Bool) → Option V → Option V
  keep_if keep none = none
  keep_if keep (some v) = if keep v then some v else none

  -- No key stands twice.
  abbrev pub IsDistinct : Dict V → Type ℓ
  IsDistinct [] = Unit
  IsDistinct ((j, v) ∷ m) = (lookup j m ≡ none) × IsDistinct m

  pub lookup-insert :
      (k j : String) (v : V) (m : Dict V)
      → lookup j (insert k v m) ≡ (if name_eq j k then some v else lookup j m)
  unfolding lookup insert
  lookup-insert k j v [] = refl
  lookup-insert k j v ((i, w) ∷ m) =
      ground (arith, eq_iff j k, eq_iff k i, eq_iff j i, lookup-insert k j v m)

  pub insert-IsDistinct :
      (k : String) (v : V) (m : Dict V) → IsDistinct m → IsDistinct (insert k v m)
  unfolding lookup insert
  insert-IsDistinct k v [] h = (refl, tt)
  insert-IsDistinct k v ((j, w) ∷ m) h =
      ground (arith, eq_iff k j, eq_iff j k, lookup-insert k j v m, insert-IsDistinct k v m h.1)

  lookup-retain-none :
      (k : String) (keep : V → Bool) (m : Dict V)
      → lookup k m ≡ none
      → lookup k (retain keep m) ≡ none
  unfolding lookup retain
  lookup-retain-none k keep [] h = refl
  lookup-retain-none k keep ((j, v) ∷ m) h = ground (arith, lookup-retain-none k keep m)

  pub retain-IsDistinct : (keep : V → Bool) (m : Dict V) → IsDistinct m → IsDistinct (retain keep m)
  unfolding lookup retain
  retain-IsDistinct keep [] h = tt
  retain-IsDistinct keep ((j, v) ∷ m) h =
      ground (arith, lookup-retain-none j keep m h.0, retain-IsDistinct keep m h.1)

  pub lookup-retain :
      (k : String) (keep : V → Bool) (m : Dict V)
      → IsDistinct m
      → lookup k (retain keep m) ≡ keep_if keep (lookup k m)
  unfolding lookup retain
  lookup-retain k keep [] h = refl
  lookup-retain k keep ((j, v) ∷ m) h =
      ground (arith, eq_iff k j, lookup-retain k keep m h.1, lookup-retain-none k keep m)

  abbrev pub map_if : (V → V) → Option V → Option V
  map_if f none = none
  map_if f (some v) = some (f v)

  pub lookup-map_values :
      (k : String) (f : V → V) (m : Dict V) → lookup k (map_values f m) ≡ map_if f (lookup k m)
  unfolding lookup map_values
  lookup-map_values k f [] = refl
  lookup-map_values k f ((j, v) ∷ m) = ground (arith, lookup-map_values k f m)

  -- delete(m, k)
  unfoldable pub delete : String → Dict V → Dict V
  delete k [] = []
  delete k ((j, v) ∷ m) = let rest = delete k m in if name_eq k j then rest else (j, v) ∷ rest

  pub lookup-delete :
      (k j : String) (m : Dict V)
      → lookup j (delete k m) ≡ (if name_eq j k then none else lookup j m)
  unfolding lookup delete
  lookup-delete k j [] = ground arith
  lookup-delete k j ((i, w) ∷ m) =
      ground (arith, eq_iff j k, eq_iff k i, eq_iff j i, lookup-delete k j m)

  unfoldable pub values : Dict V → List V
  values [] = []
  values ((j, v) ∷ m) = v ∷ values m
