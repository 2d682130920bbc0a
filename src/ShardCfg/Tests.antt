-- ===== src/ShardCfg/Tests.antt =====
-- Configurations on concrete inputs, and instances of the theorems about them.
use mit_6_5840_distributed_s.Base.Int.{ℤ, eq_int_iff, int_eq, pos}
use mit_6_5840_distributed_s.Base.Dict.{Dict, insert, lookup}
use mit_6_5840_distributed_s.Base.{
  String, ◌≡◌, refl, true, ◌||◌, Option, none, some, List, [], ◌∷◌, arith, replicate, string_eq, ℕ,
  ◌↔◌, get_elem?,
}
use mit_6_5840_distributed_s.ShardCfg.Rebalance.{rebalance-Balanced, rebalance_fixed}
use mit_6_5840_distributed_s.ShardCfg.Counts.{cnt, elem}
use mit_6_5840_distributed_s.ShardCfg.Balance.{IsAssigned, IsEven, Balanced}
use mit_6_5840_distributed_s.ShardCfg.Check.{check_config, check_config-even}
use mit_6_5840_distributed_s.ShardCfg.Change.{Rebalanced, join_balance-Rebalanced}
use mit_6_5840_distributed_s.ShardCfg.Route.{key2shard, gid_servers, is_member, key_served, Routed}
use mit_6_5840_distributed_s.ShardCfg.{
  ShardConfig, has_group, count_shards, insert_sorted, sort, keys, scan, analyze, least,
  assign_unassigned, move_one, balance, rebalance, returned, join, join_balance, join_loop, finish,
}

abbrev one : ShardConfig
one = record { num = 1; shards = replicate 12 (pos 1); groups = (pos 1, "a" ∷ []) ∷ [] }

-- Ten shards of group 1, two unassigned, three groups.
abbrev uneven : ShardConfig
uneven = record {
  num = 3;
  shards = pos 0 ∷ pos 9 ∷ replicate 10 (pos 1);
  groups = (pos 2, "b" ∷ []) ∷ (pos 1, "a" ∷ []) ∷ (pos 3, "c" ∷ []) ∷ [];
}

abbrev thirds : List ℤ
thirds =
    pos 2
    ∷ pos 3
    ∷ pos 2
    ∷ pos 3
    ∷ pos 2
    ∷ pos 3
    ∷ pos 2
    ∷ pos 3
    ∷ pos 1
    ∷ pos 1
    ∷ pos 1
    ∷ pos 1
    ∷ []

abbrev even_thirds : ShardConfig
even_thirds = record { num = 3; shards = thirds; groups = uneven.groups }

shards_of : Option ShardConfig → List ℤ
shards_of none = []
shards_of (some c) = c.shards

uneven_rebalanced : shards_of (rebalance uneven) ≡ thirds
unfolding shards_of rebalance assign_unassigned balance analyze least scan count_shards sort
    insert_sorted move_one lookup insert
uneven_rebalanced = refl

rebalance-Balanced_example : (c' : ShardConfig) × (rebalance uneven ≡ some c') × Balanced uneven c'
unfolding lookup
rebalance-Balanced_example = rebalance-Balanced uneven (pos 2) refl refl

IsAssigned-thirds : IsAssigned even_thirds
unfolding lookup
IsAssigned-thirds g h =
    ground (arith, eq_int_iff (pos 1) g, eq_int_iff (pos 2) g, eq_int_iff (pos 3) g)

member_cases : (g : ℤ) → has_group even_thirds g ≡ true → (cnt g thirds ≡ 4)
unfolding lookup
member_cases g h = ground (arith, eq_int_iff (pos 1) g, eq_int_iff (pos 2) g, eq_int_iff (pos 3) g)

IsEven-thirds : IsEven even_thirds
IsEven-thirds g h i j = omega (arith, member_cases g i, member_cases h j)

rebalance_fixed_example : rebalance even_thirds ≡ some even_thirds
unfolding lookup
rebalance_fixed_example =
    rebalance_fixed even_thirds (pos 1) refl refl IsAssigned-thirds IsEven-thirds

check_config-even_example : check_config (pos 3 ∷ pos 1 ∷ pos 2 ∷ []) even_thirds ≡ true
unfolding lookup
check_config-even_example =
    check_config-even (pos 3 ∷ pos 1 ∷ pos 2 ∷ []) even_thirds (omega arith) IsAssigned-thirds
      IsEven-thirds refl
      (λ g k. ground (arith, eq_int_iff (pos 1) g, eq_int_iff (pos 2) g, eq_int_iff (pos 3) g))

abbrev newcomers : Dict ℤ (List String)
newcomers = (pos 2, "b" ∷ []) ∷ (pos 3, "c" ∷ "d" ∷ []) ∷ []

join_balance-Rebalanced_example :
    (c' : ShardConfig) × (join_balance newcomers one ≡ some (returned true c'))
    × Rebalanced one c' (λ g. has_group one g || elem g (keys newcomers))
unfolding join join_loop finish lookup insert
join_balance-Rebalanced_example = join_balance-Rebalanced newcomers one _ (pos 2) refl refl refl

key_served_example :
    ((key : List ℕ)
      → (gid : ℤ) × (srvs : List String) × (get_elem? even_thirds.shards (key2shard key) ≡ some gid)
        × (lookup gid even_thirds.groups ≡ some srvs)
        × (gid_servers (key2shard key) even_thirds ≡ some (gid, srvs, true)))
    × ((gid : ℤ) → (is_member gid even_thirds ≡ true) ↔ ∥ Routed even_thirds gid ∥₁)
key_served_example = key_served even_thirds refl IsAssigned-thirds
