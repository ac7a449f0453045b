-- ===== src/Prelude/Dicts.antt =====
-- Python's `dict` with text keys, in insertion order: an association list in which an
-- assignment to a known key replaces its value in place.

use Prim.Native.String.{String}
use mathlib.Core.Path.{◌≡◌, refl}
use mathlib.Core.Bool.{Bool, false, ◌||◌}
use mathlib.Core.Option.{Option, none, some}
use mathlib.Core.List.{List, [], ◌∷◌}
use native.Mathlib.Omega.{arith}
use text.Mathlib.Text.{◌==◌}
use text.Mathlib.TextEquality.{eq_iff}
use esim_opensource_mcp.Prelude.Tests.{if◌then◌else◌}

abbrev pub Dict {ℓ} : Type ℓ → Type ℓ
Dict V = List (String × V)

module _ {ℓ} {V : Type ℓ} where
  -- d.get(k)
  unfoldable pub lookup : String → Dict V → Option V
  lookup k [] = none
  lookup k ((j, v) ∷ d) = if j == k then some v else lookup k d

  -- d[k] = v
  unfoldable pub insert : String → V → Dict V → Dict V
  insert k v [] = (k, v) ∷ []
  insert k v ((j, w) ∷ d) = if j == k then (j, v) ∷ d else (j, w) ∷ insert k v d

  -- del d[k], d.pop(k, None)
  unfoldable pub remove : String → Dict V → Dict V
  remove k [] = []
  remove k ((j, w) ∷ d) = let rest = remove k d in if j == k then rest else (j, w) ∷ rest

  -- the keys of a list removed in turn
  unfoldable pub remove_all : List String → Dict V → Dict V
  unfolding remove
  remove_all [] d = d
  remove_all (k ∷ ks) d = remove_all ks (remove k d)

  -- list(d.values())
  unfoldable pub values : Dict V → List V
  values [] = []
  values ((j, v) ∷ d) = v ∷ values d

  pub lookup-insert :
      (k j : String) (v : V) (d : Dict V)
      → lookup j (insert k v d) ≡ (if k == j then some v else lookup j d)
  unfolding lookup insert
  lookup-insert k j v [] = refl
  lookup-insert k j v ((i, w) ∷ d) =
      ground (arith, eq_iff k j, eq_iff i k, eq_iff i j, lookup-insert k j v d)

  pub lookup-remove :
      (k j : String) (d : Dict V) → lookup j (remove k d) ≡ (if k == j then none else lookup j d)
  unfolding lookup remove
  lookup-remove k j [] = ground arith
  lookup-remove k j ((i, w) ∷ d) =
      ground (arith, lookup-remove k j d, eq_iff i k, eq_iff i j, eq_iff k j)

abbrev pub mem_key : String → List String → Bool
mem_key j [] = false
mem_key j (k ∷ ks) = k == j || mem_key j ks

module _ {ℓ} {V : Type ℓ} where
  -- No key stands twice, as in any Python dictionary.
  abbrev pub IsUnique : Dict V → Type ℓ
  IsUnique [] = Unit
  IsUnique ((k, v) ∷ d) = (lookup k d ≡ none) × IsUnique d

  pub insert-IsUnique : (k : String) (v : V) (d : Dict V) → IsUnique d → IsUnique (insert k v d)
  unfolding insert lookup
  insert-IsUnique k v [] u = (refl, tt)
  insert-IsUnique k v ((j, w) ∷ d) u =
      ground (arith, eq_iff j k, eq_iff k j, lookup-insert k j v d, insert-IsUnique k v d u.1)

  pub remove-IsUnique : (k : String) (d : Dict V) → IsUnique d → IsUnique (remove k d)
  unfolding remove
  remove-IsUnique k [] u = tt
  remove-IsUnique k ((j, w) ∷ d) u = ground (arith, lookup-remove k j d, remove-IsUnique k d u.1)

  pub remove_all-IsUnique :
      (ks : List String) (d : Dict V) → IsUnique d → IsUnique (remove_all ks d)
  unfolding remove_all
  remove_all-IsUnique [] d u = u
  remove_all-IsUnique (k ∷ ks) d u = remove_all-IsUnique ks (remove k d) (remove-IsUnique k d u)

  pub lookup-remove_all :
      (ks : List String) (j : String) (d : Dict V)
      → lookup j (remove_all ks d) ≡ (if mem_key j ks then none else lookup j d)
  unfolding remove_all
  lookup-remove_all [] j d = refl
  lookup-remove_all (k ∷ ks) j d =
      ground (arith, lookup-remove_all ks j (remove k d), lookup-remove k j d)
