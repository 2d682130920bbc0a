-- ===== src/ShardCfg/Counts.antt =====
-- What the load map and the sorted group list of `analyze` hold (src/shardkv1/shardcfg).
use mit_6_5840_distributed_s.Base.{◌+◌, ◌≤◌, ◌<◌, ◌≡◌, refl, true, [], arith, length}
use mit_6_5840_distributed_s.Base.Dict.{lookup, Dict, insert, lookup-insert}
use mit_6_5840_distributed_s.ShardCfg.{
  count_shards, insert_sorted, sort, ShardConfig, List, keys, ℕ, Bool, ◌∷◌, false, count_at,
  if◌then◌else◌, ◌==◌, suc, ◌||◌, is_some, has_group,
}
use mit_6_5840_distributed_s.Base.Int.{ℤ, eq_int_iff, int_eq}

-- How many entries of a list are `g`.
abbrev pub cnt : ℤ → List ℤ → ℕ
cnt g [] = 0
cnt g (x ∷ xs) = if x == g then suc (cnt g xs) else cnt g xs

abbrev pub elem : ℤ → List ℤ → Bool
elem g [] = false
elem g (x ∷ xs) = x == g || elem g xs

pub count_at-count_shards :
    (g : ℤ) (m : Dict ℤ ℕ) (xs : List ℤ) → count_at (count_shards m xs) g ≡ count_at m g + cnt g xs
unfolding count_shards
count_at-count_shards g m [] = omega arith
count_at-count_shards g m (x ∷ xs) = ground (
  arith,
  count_at-count_shards g (insert x (count_at m x + 1) m) xs,
  lookup-insert x g (count_at m x + 1) m,
  eq_int_iff x g,
)

elem-insert_sorted : (g x : ℤ) (xs : List ℤ) → elem g (insert_sorted x xs) ≡ (x == g || elem g xs)
unfolding insert_sorted
elem-insert_sorted g x [] = refl
elem-insert_sorted g x (y ∷ ys) = ground (arith, elem-insert_sorted g x ys)

elem-sort : (g : ℤ) (xs : List ℤ) → elem g (sort xs) ≡ elem g xs
unfolding sort
elem-sort g [] = refl
elem-sort g (x ∷ xs) = ground (arith, elem-insert_sorted g x (sort xs), elem-sort g xs)

pub elem-keys : {V : Type 0} (g : ℤ) (d : Dict ℤ V) → elem g (keys d) ≡ is_some (lookup g d)
unfolding lookup
elem-keys g [] = refl
elem-keys g ((h, v) ∷ rest) = ground (arith, elem-keys g rest)

-- The groups that `analyze` visits are those of the configuration.
pub elem-groups : (c : ShardConfig) (g : ℤ) → elem g (sort (keys c.groups)) ≡ has_group c g
elem-groups c g = rw (elem-sort g (keys c.groups)) (elem-keys g c.groups)

pub cnt-le : (g : ℤ) (xs : List ℤ) → cnt g xs ≤ length xs
cnt-le g [] = omega arith
cnt-le g (x ∷ xs) = ground (arith, cnt-le g xs)

-- A list with an entry counts it.
pub cnt-elem : (g : ℤ) (xs : List ℤ) → 0 < cnt g xs → elem g xs ≡ true
cnt-elem g [] h = elim h [ ]
cnt-elem g (x ∷ xs) h = ground (arith, cnt-elem g xs)

-- The load that `analyze` reads for a group.
pub load : (c : ShardConfig) (g : ℤ) → count_at (count_shards [] c.shards) g ≡ cnt g c.shards
unfolding lookup
load c g = omega (arith, count_at-count_shards g [] c.shards)
