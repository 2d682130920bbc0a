-- ===== src/ShardCfg/Check.antt =====
-- `CheckConfig` of src/shardkv1/shardcfg/shardcfg.go, with `false` for a failed test, and the
-- configurations that `Rebalance` leaves.
use mit_6_5840_distributed_s.Base.Int.{ℤ, eq_int_iff}
use mit_6_5840_distributed_s.Base.{
  ℕ, ◌+◌, ◌≤◌, ◌<◌, ◌≡◌, refl, Bool, true, false, not, ◌&&◌, List, [], ◌∷◌, arith, ltb, eqb,
  if◌then◌else◌, length,
}
use mit_6_5840_distributed_s.ShardCfg.Counts.{elem, elem-keys, cnt-le, load}
use mit_6_5840_distributed_s.ShardCfg.Balance.{IsAssigned, IsEven}
use mit_6_5840_distributed_s.ShardCfg.{ShardConfig, has_group, count_at, count_shards, keys}

abbrev pub all_present : ShardConfig → List ℤ → Bool
all_present c [] = true
all_present c (g ∷ gs) = if not (has_group c g) then false else all_present c gs

-- The loop for the largest and the smallest load, over the groups.
abbrev pub spread_step : ℕ → ℕ × ℕ → ℕ × ℕ
spread_step n (min, max) =
    let max' = if ltb max n then n else max in
    let min' = if ltb n min then n else min in (min', max')

unfoldable pub spread : (ℤ → ℕ) → List ℤ → ℕ × ℕ → ℕ × ℕ
spread count [] s = s
spread count (g ∷ gs) s = spread count gs (spread_step (count g) s)

abbrev pub is_close : ℕ × ℕ → Bool
is_close (min, max) = not (ltb (min + 1) max)

unfoldable pub check_config : List ℤ → ShardConfig → Bool
unfolding spread count_shards
check_config gids c =
    if not (eqb (length c.groups) (length gids))
    then false
    else if not (all_present c gids)
    then false
    else if ltb 0 (length gids) && not (all_present c c.shards)
    then false
    else is_close (spread (count_at (count_shards [] c.shards)) (keys c.groups) (257, 0))

all_present_lem :
    (c : ShardConfig) (gs : List ℤ)
    → ((g : ℤ) → elem g gs ≡ true → has_group c g ≡ true)
    → all_present c gs ≡ true
all_present_lem c [] h = refl
all_present_lem c (x ∷ xs) h =
    let mem : has_group c x ≡ true = h x (ground (arith, eq_int_iff x x)) in
    rw mem (all_present_lem c xs (λ g k. h g (ground (arith, k))))

-- A lower bound that no load exceeds by more than one, and an upper bound that exceeds none by more
-- than one, stay so.
spread_close :
    (count : ℤ → ℕ) (all gs : List ℤ) (min max : ℕ)
    → ((g : ℤ) → elem g gs ≡ true → elem g all ≡ true)
    → ((g h : ℤ) → elem g all ≡ true → elem h all ≡ true → count g ≤ count h + 1)
    → ((g : ℤ) → elem g all ≡ true → (max ≤ count g + 1) × (count g ≤ min + 1))
    → max ≤ min + 1
    → is_close (spread count gs (min, max)) ≡ true
unfolding spread
spread_close count all [] min max sub even b h = ground arith
spread_close count all (x ∷ xs) min max sub even b h =
    let mem : elem x all ≡ true = sub x (ground (arith, eq_int_iff x x)) in
    spread_close count all xs (spread_step (count x) (min, max)).0
      (spread_step (count x) (min, max)).1 (λ g k. sub g (ground (arith, k))) even
      (λ g k. ground (arith, b g k, even x g mem k, even g x k mem)) (ground (arith, b x mem, h))

-- `CheckConfig` passes a configuration of fewer than 257 shards, every one of them in a group, with
-- loads that differ by one at most, if it is called with as many groups as there are, all of them
-- groups of the configuration.
pub check_config-even :
    (gids : List ℤ) (c : ShardConfig)
    → length c.shards < 257
    → IsAssigned c
    → IsEven c
    → length c.groups ≡ length gids
    → ((g : ℤ) → elem g gids ≡ true → has_group c g ≡ true)
    → check_config gids c ≡ true
unfolding check_config
check_config-even gids c few a even len mem =
    rw (all_present_lem c gids mem, all_present_lem c c.shards a)
      (ground (
        arith,
        len,
        spread_close (count_at (count_shards [] c.shards)) (keys c.groups) (keys c.groups) 257 0
            (λ g k. k)
            (λ g h i j.
              rw (load c g, load c h)
                (even g h (rw (← elem-keys g c.groups) i) (rw (← elem-keys h c.groups) j)))
            (λ g k. rw (load c g) (omega (arith, cnt-le g c.shards))) (omega arith),
      ))
