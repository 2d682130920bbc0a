-- ===== src/ShardCfg/Rebalance.antt =====
-- `Rebalance` of src/shardkv1/shardcfg/shardcfg.go as a whole.
use mathlib.Core.Path.{subst}
use mit_6_5840_distributed_s.Base.Dict.{Dict, lookup}
use mit_6_5840_distributed_s.ShardCfg.Analyze.{analyze-Extreme}
use mit_6_5840_distributed_s.Base.Int.{ℤ, pos, lt_int, int_eq}
use mit_6_5840_distributed_s.Base.{
  ◌<◌, ◌≡◌, ◌∙◌, true, some, arith, length, ◌+◌, String, false, List, [], ◌∷◌, ltb, string_eq, ◌≤◌,
}
use mit_6_5840_distributed_s.ShardCfg.Balance.{
  Balanced, balance-Balanced, IsAssigned, IsEven, balance_still,
}
use mit_6_5840_distributed_s.ShardCfg.Assign.{assign_unassigned-Assigned, assign_unassigned_fixed}
use mit_6_5840_distributed_s.ShardCfg.Moves.{pairs, pairs-le, triangle}
use mit_6_5840_distributed_s.ShardCfg.{
  n_shards, ShardConfig, has_group, assign_unassigned, rounds, rebalance, is_some, analyze,
}

nonempty :
    (h : ℤ) (d : Dict ℤ (List String)) → is_some (lookup h d) ≡ true → ltb (length d) 1 ≡ false
unfolding lookup
nonempty h [] i = absurd (cc)
nonempty h ((g, servers) ∷ rest) i = ground arith

-- `Rebalance` of a configuration of twelve shards with a group ends within the fuel: it keeps the
-- number, the groups and the number of shards, gives every shard to a group of the configuration,
-- and the loads of any two groups then differ by one at most.
pub rebalance-Balanced :
    (c : ShardConfig) (h : ℤ)
    → has_group c h ≡ true
    → length c.shards ≡ n_shards
    → (c' : ShardConfig) × (rebalance c ≡ some c') × Balanced c c'
unfolding rebalance
rebalance-Balanced c h i twelve =
    let c1 = assign_unassigned 0 c.shards c in
    let a = assign_unassigned-Assigned h c i (omega (arith, twelve)) in
    let twelve1 : length c1.shards ≡ 12 = a.same_length ∙ twelve in
    let few : pairs c1.shards < rounds =
      omega (arith, subst (λ n. pairs c1.shards ≤ triangle n) twelve1 (pairs-le c1.shards)) in
    let (c', run, b) =
      balance-Balanced h rounds c1 (rw a.same_groups i) (omega (arith, twelve1))
        (λ g k. rw a.same_groups (a.assigned g k)) few in
    (
      c',
      rw (nonempty h c.groups i) run,
      record {
        same_num = b.same_num ∙ a.same_num;
        same_groups = b.same_groups ∙ a.same_groups;
        same_length = b.same_length ∙ a.same_length;
        assigned = b.assigned;
        even = b.even;
      },
    )

-- `Rebalance` leaves a configuration of twelve shards with a group as it is, if every shard has a
-- group and the loads of any two groups differ by one at most.
pub rebalance_fixed :
    (c : ShardConfig) (h : ℤ)
    → has_group c h ≡ true
    → length c.shards ≡ n_shards
    → IsAssigned c
    → IsEven c
    → rebalance c ≡ some c
unfolding rebalance
rebalance_fixed c h i twelve a even =
    let x = analyze-Extreme c h i (omega (arith, twelve)) in
    let close : lt_int (analyze c).mn (pos ((analyze c).ln + 2)) ≡ true =
      ground (arith, x.most, x.least_load, even (analyze c).mg (analyze c).lg x.mg_in x.lg_in) in
    rw (nonempty h c.groups i, assign_unassigned_fixed 0 c.shards c a) (balance_still 66 c close)
