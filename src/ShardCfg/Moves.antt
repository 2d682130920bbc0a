-- ===== src/ShardCfg/Moves.antt =====
-- What a move of one shard does to the loads of the groups, and the measure that it lowers: the
-- number of pairs of shards that are in one group (src/shardkv1/shardcfg/shardcfg.go, `Rebalance`).
use mit_6_5840_distributed_s.Base.Int.{ℤ, eq_int_iff, int_eq}
use mit_6_5840_distributed_s.Base.{
  ℕ, zero, suc, ◌+◌, ◌≤◌, ◌<◌, ◌≡◌, refl, ◌≢◌, List, [], ◌∷◌, arith, if◌then◌else◌, length, ◌==◌,
}
use mit_6_5840_distributed_s.ShardCfg.Counts.{cnt, cnt-le}
use mit_6_5840_distributed_s.ShardCfg.{move_one}

abbrev pub pairs : List ℤ → ℕ
pairs [] = 0
pairs (x ∷ xs) = cnt x xs + pairs xs

pub length-move_one : (m l : ℤ) (xs : List ℤ) → length (move_one m l xs) ≡ length xs
unfolding move_one
length-move_one m l [] = refl
length-move_one m l (x ∷ xs) = ground (arith, length-move_one m l xs)

-- A move takes one shard from `m` and gives it to `l`.
pub cnt-move_one :
    (m l g : ℤ) (xs : List ℤ)
    → 0 < cnt m xs
    → m ≢ l
    → cnt g (move_one m l xs) + (if m == g then 1 else 0) ≡ cnt g xs + (if l == g then 1 else 0)
unfolding move_one
cnt-move_one m l g [] h d = absurd (omega (arith, h))
cnt-move_one m l g (x ∷ xs) h d = ground (
  arith,
  cnt-move_one m l g xs,
  eq_int_iff x m,
  eq_int_iff x g,
  eq_int_iff m g,
  eq_int_iff l g,
  eq_int_iff m l,
)

pub pairs-move_one :
    (m l : ℤ) (xs : List ℤ)
    → 0 < cnt m xs
    → m ≢ l
    → pairs (move_one m l xs) + cnt m xs ≡ pairs xs + cnt l xs + 1
unfolding move_one
pairs-move_one m l [] h d = absurd (omega (arith, h))
pairs-move_one m l (x ∷ xs) h d = ground (
  arith,
  pairs-move_one m l xs,
  cnt-move_one m l x xs,
  eq_int_iff x m,
  eq_int_iff x l,
  eq_int_iff m x,
  eq_int_iff l x,
  eq_int_iff m l,
)

-- 0 + 1 + … + (n - 1).
abbrev pub triangle : ℕ → ℕ
triangle zero = 0
triangle (suc n) = n + triangle n

pub pairs-le : (xs : List ℤ) → pairs xs ≤ triangle (length xs)
pairs-le [] = omega arith
pairs-le (x ∷ xs) = omega (arith, cnt-le x xs, pairs-le xs)
