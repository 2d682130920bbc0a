-- ===== src/ShardCfg/Change.antt =====
-- `Join` and `Leave`, alone and with `Rebalance` (src/shardkv1/shardcfg/shardcfg.go).
use mit_6_5840_distributed_s.Base.Int.{ℤ, int_eq}
use mit_6_5840_distributed_s.Base.Dict.{Dict, insert, delete, lookup-insert, lookup-delete}
use mit_6_5840_distributed_s.Base.{
  ◌+◌, String, ◌≡◌, refl, ap, ◌∙◌, inl, inr, Bool, true, false, not, ◌&&◌, ◌||◌, some, List, [],
  ◌∷◌, arith, Bool-cases, length, string_eq,
}
use mit_6_5840_distributed_s.ShardCfg.Rebalance.{rebalance-Balanced}
use mit_6_5840_distributed_s.ShardCfg.Counts.{elem}
use mit_6_5840_distributed_s.ShardCfg.Balance.{IsAssigned, IsEven}
use mit_6_5840_distributed_s.ShardCfg.{
  n_shards, ShardConfig, has_group, keys, Outcome, returned, taken, join, leave, join_balance,
  leave_balance, finish, join_loop, leave_loop, and_balance,
}

-- What a change that returned `true` left: `before` are the groups that the change named.
pub record Changed (c c' : ShardConfig) (has : ℤ → Bool) : Type 0 where
  pub num : c'.num ≡ c.num + 1
  pub shards : c'.shards ≡ c.shards
  pub groups : (g : ℤ) → has_group c' g ≡ has g

returned_inj :
    {b : Bool} {c c' : ShardConfig} → returned b c ≡ returned true c' → (b ≡ true) × (c ≡ c')
returned_inj h = (cc, cc)

finish-true :
    (b : Bool) (c c' : ShardConfig)
    → finish b c ≡ returned true c'
    → c' ≡ record c { num = c.num + 1 }
unfolding finish
finish-true true c c' h = cc
finish-true false c c' h = absurd (cc)

join_loop-Changed :
    (servers : Dict ℤ (List String)) (b : Bool) (c c' : ShardConfig)
    → join_loop servers b c ≡ returned true c'
    → Changed c c' (λ g. has_group c g || elem g (keys servers))
unfolding join_loop
join_loop-Changed [] b c c' h =
    rw (finish-true b c c' h) (record { num = refl; shards = refl; groups = λ g. ground arith })
join_loop-Changed ((gid, srv) ∷ rest) b c c' h = elim (Bool-cases (has_group c gid)) [
  | inl old ↦ absurd (cc (old, h))
  | inr new ↦ elim (Bool-cases (taken c.groups srv)) [
    | inl clash ↦ absurd (cc (new, clash, h))
    | inr free ↦
        let c1 = record c { groups = insert gid srv c.groups } in
        let r = join_loop-Changed rest true c1 c' (rw (join_loop, new, free) at h) in
        record {
          num = r.num;
          shards = r.shards;
          groups = λ g. ground (arith, r.groups g, lookup-insert gid g srv c.groups);
        }
  ]
]

-- The groups that remain.
leave_loop-Changed :
    (gids : List ℤ) (b : Bool) (c c' : ShardConfig)
    → leave_loop gids b c ≡ returned true c'
    → Changed c c' (λ g. has_group c g && not (elem g gids))
unfolding leave_loop
leave_loop-Changed [] b c c' h =
    rw (finish-true b c c' h) (record { num = refl; shards = refl; groups = λ g. ground arith })
leave_loop-Changed (gid ∷ rest) b c c' h = elim (Bool-cases (has_group c gid)) [
  | inr out ↦ absurd (cc (out, h))
  | inl mem ↦
      let c1 = record c { groups = delete gid c.groups } in
      let r = leave_loop-Changed rest true c1 c' (rw mem at h) in
      record {
        num = r.num;
        shards = r.shards;
        groups = λ g. ground (arith, r.groups g, lookup-delete gid g c.groups);
      }
]

-- The configuration after a change and `Rebalance`.
pub record Rebalanced (c c' : ShardConfig) (has : ℤ → Bool) : Type 0 where
  pub num : c'.num ≡ c.num + 1
  pub groups : (g : ℤ) → has_group c' g ≡ has g
  pub assigned : IsAssigned c'
  pub even : IsEven c'

and_balance-Rebalanced :
    (o : Outcome) (c c1 : ShardConfig) (has : ℤ → Bool) (h : ℤ)
    → o ≡ returned true c1
    → Changed c c1 has
    → has h ≡ true
    → length c.shards ≡ n_shards
    → (c' : ShardConfig) × (and_balance o ≡ some (returned true c')) × Rebalanced c c' has
unfolding and_balance
and_balance-Rebalanced o c c1 has h e ch i twelve =
    let (c', run, b) = rebalance-Balanced c1 h (ch.groups h ∙ i) (ap length ch.shards ∙ twelve) in
    (
      c',
      rw e (rw (and_balance, run) refl),
      record {
        num = b.same_num ∙ ch.num;
        groups = λ g. rw b.same_groups (ch.groups g);
        assigned = b.assigned;
        even = b.even;
      },
    )

-- If `Join` of servers to a configuration of twelve shards returns true and names a group `h`, then
-- `JoinBalance` returns true: the number grows by one, the groups are the old and the new ones, every
-- shard has a group, and the loads of any two groups differ by one at most.
pub join_balance-Rebalanced :
    (servers : Dict ℤ (List String)) (c c1 : ShardConfig) (h : ℤ)
    → length c.shards ≡ n_shards
    → join servers c ≡ returned true c1
    → elem h (keys servers) ≡ true
    → (c' : ShardConfig) × (join_balance servers c ≡ some (returned true c'))
      × Rebalanced c c' (λ g. has_group c g || elem g (keys servers))
unfolding join_balance join
join_balance-Rebalanced servers c c1 h twelve e i =
    and_balance-Rebalanced (join_loop servers false c) c c1
      (λ g. has_group c g || elem g (keys servers)) h e (join_loop-Changed servers false c c1 e)
      (ground (arith, i)) twelve

-- If `Leave` of groups of a configuration of twelve shards returns true and a group `h` remains, then
-- `LeaveBalance` returns true: the number grows by one, the groups are the old ones without those
-- that left, every shard has a group, and the loads of any two groups differ by one at most.
pub leave_balance-Rebalanced :
    (gids : List ℤ) (c c1 : ShardConfig) (h : ℤ)
    → length c.shards ≡ n_shards
    → leave gids c ≡ returned true c1
    → has_group c h ≡ true
    → elem h gids ≡ false
    → (c' : ShardConfig) × (leave_balance gids c ≡ some (returned true c'))
      × Rebalanced c c' (λ g. has_group c g && not (elem g gids))
unfolding leave_balance leave
leave_balance-Rebalanced gids c c1 h twelve e i out =
    and_balance-Rebalanced (leave_loop gids false c) c c1 (λ g. has_group c g && not (elem g gids))
      h e (leave_loop-Changed gids false c c1 e) (ground (arith, i, out)) twelve
