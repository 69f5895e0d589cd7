-- ===== src/Base/Dict.antt =====
-- A Go map keyed by strings, as an association list in the order in which a `range` visits it.
use duragraph.Base.Tests.{if◌then◌else◌}
use duragraph.Base.Text.{◌=ₛ◌, =ₛ_iff, =ₛ_refl}
use Prim.Native.String.{String}
use mathlib.Core.Path.{◌≡◌, refl}
use mathlib.Core.Option.{Option, none, some}
use mathlib.Core.List.{List, [], ◌∷◌}
use native.Mathlib.Omega.{arith}

abbrev pub Dict {ℓ} : Type ℓ → Type ℓ
Dict V = List (String × V)

module _ {ℓ} {V : Type ℓ} where
  -- `v, ok := m[k]`
  unfoldable pub lookup : String → Dict V → Option V
  lookup k [] = none
  lookup k ((j, v) ∷ m) = if j =ₛ k then some v else lookup k m

  -- `m[k] = v`
  unfoldable pub insert : String → V → Dict V → Dict V
  insert k v [] = (k, v) ∷ []
  insert k v ((j, w) ∷ m) = if j =ₛ k then (k, v) ∷ m else (j, w) ∷ insert k v m

  -- `for k, v := range n { m[k] = v }`
  unfoldable pub insert_all : Dict V → Dict V → Dict V
  insert_all [] m = m
  insert_all ((k, v) ∷ n) m = insert_all n (insert k v m)

  pub lookup-insert :
      (k j : String) (v : V) (m : Dict V)
      → lookup j (insert k v m) ≡ (if k =ₛ j then some v else lookup j m)
  unfolding lookup insert
  lookup-insert k j v [] = refl
  lookup-insert k j v ((i, w) ∷ m) =
      ground (arith, =ₛ_iff k j, =ₛ_iff i k, =ₛ_iff i j, lookup-insert k j v m)

  pub lookup-insert_self : (k : String) (v : V) (m : Dict V) → lookup k (insert k v m) ≡ some v
  lookup-insert_self k v m = simp (lookup-insert, =ₛ_refl)

  -- `delete(m, k)`
  unfoldable pub remove : String → Dict V → Dict V
  remove k [] = []
  remove k ((j, v) ∷ m) = let rest = remove k m in if j =ₛ k then rest else (j, v) ∷ rest

  pub lookup-remove :
      (k j : String) (m : Dict V) → lookup j (remove k m) ≡ (if k =ₛ j then none else lookup j m)
  unfolding lookup remove
  lookup-remove k j [] = ground (arith, =ₛ_iff k j)
  lookup-remove k j ((i, w) ∷ m) =
      ground (arith, =ₛ_iff k j, =ₛ_iff i k, =ₛ_iff i j, lookup-remove k j m)
