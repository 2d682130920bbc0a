-- ===== src/Base/Dict.antt =====
-- Go's `map[K]V` as an association list: a read of a missing key gives `none` (the `ok` of
-- `v, ok := m[k]`), a write replaces the entry in place or adds one at the end, and `delete` drops
-- every entry of the key. Nothing modelled depends on the order in which Go ranges over a map.
use mathlib.Core.Path.{◌≡◌, refl}
use mathlib.Core.Bool.{true}
use mathlib.Core.Option.{Option, none, some}
use mathlib.Core.List.{List, [], ◌∷◌}
use native.Mathlib.Omega.{arith}
use mit_6_5840_distributed_s.Base.Tests.{if◌then◌else◌}
use mit_6_5840_distributed_s.Base.Keys.{Key, ◌==◌}

abbrev pub Dict {ℓ κ} : Type ℓ → Type κ → Type (ℓ ⊔ κ)
Dict K V = List (K × V)

pub same_self {ℓ} : {K : Type ℓ} ⦃key : Key K⦄ (k : K) → (k == k) ≡ true
same_self ⦃key⦄ k = (key.same_iff k k).1 refl

module _ {ℓ κ} {K : Type ℓ} {V : Type κ} ⦃key : Key K⦄ where
  unfoldable pub insert : K → V → Dict K V → Dict K V
  insert j w [] = (j, w) ∷ []
  insert j w ((i, v) ∷ rest) = if i == j then (j, w) ∷ rest else (i, v) ∷ insert j w rest

  unfoldable pub delete : K → Dict K V → Dict K V
  delete j [] = []
  delete j ((i, v) ∷ rest) = let less = delete j rest in if i == j then less else (i, v) ∷ less

  unfoldable pub lookup : K → Dict K V → Option V
  lookup j [] = none
  lookup j ((i, v) ∷ rest) = if i == j then some v else lookup j rest

  pub lookup-insert :
      (i j : K) (w : V) (d : Dict K V)
      → lookup j (insert i w d) ≡ (if i == j then some w else lookup j d)
  unfolding insert lookup
  lookup-insert i j w [] = refl
  lookup-insert i j w ((h, v) ∷ rest) =
      ground (arith, key.same_iff i j, key.same_iff h i, key.same_iff h j, lookup-insert i j w rest)

  pub lookup-delete :
      (i j : K) (d : Dict K V) → lookup j (delete i d) ≡ (if i == j then none else lookup j d)
  unfolding delete lookup
  lookup-delete i j [] = ground arith
  lookup-delete i j ((h, v) ∷ rest) =
      ground (arith, key.same_iff i j, key.same_iff h i, key.same_iff h j, lookup-delete i j rest)

pub ruleset dict_laws = (lookup-insert, lookup-delete, same_self)
