-- ===== src/ShardCfg/Balance.antt =====
-- The loops of `Rebalance` (src/shardkv1/shardcfg/shardcfg.go): unassigned shards, and the loads
-- of the groups from round to round.
use mit_6_5840_distributed_s.Base.Int.{ℤ, pos, lt_int, eq_int_iff}
use mit_6_5840_distributed_s.Base.{
  ℕ, zero, suc, ◌+◌, ◌≤◌, ◌<◌, ◌≡◌, refl, ap, ◌∙◌, ◌≢◌, ◌⊎◌, inl, inr, true, some, List, [], ◌∷◌,
  arith, Bool-cases, length,
}
use mit_6_5840_distributed_s.ShardCfg.Counts.{cnt, elem}
use mit_6_5840_distributed_s.ShardCfg.Analyze.{Extreme, analyze-Extreme}
use mit_6_5840_distributed_s.ShardCfg.Moves.{pairs, length-move_one, pairs-move_one}
use mit_6_5840_distributed_s.ShardCfg.{ShardConfig, has_group, analyze, move_one, balance}

-- Every shard's group is one of the configuration.
abbrev pub IsAssigned : ShardConfig → Type 0
IsAssigned c = (g : ℤ) → elem g c.shards ≡ true → has_group c g ≡ true

abbrev pub IsEven : ShardConfig → Type 0
IsEven c =
    (g h : ℤ) → has_group c g ≡ true → has_group c h ≡ true → cnt g c.shards ≤ cnt h c.shards + 1

-- The configuration `c'` has the number, the groups and as many shards as `c`, every shard has a
-- group, and the loads of two groups differ by one at most.
pub record Balanced (c c' : ShardConfig) : Type 0 where
  pub same_num : c'.num ≡ c.num
  pub same_groups : c'.groups ≡ c.groups
  pub same_length : length c'.shards ≡ length c.shards
  pub assigned : IsAssigned c'
  pub even : IsEven c'

elem-move_one :
    (m l g : ℤ) (xs : List ℤ) → elem g (move_one m l xs) ≡ true → (elem g xs ≡ true) ⊎ (g ≡ l)
unfolding move_one
elem-move_one m l g [] h = absurd (cc)
elem-move_one m l g (x ∷ xs) h =
    ground (arith, elem-move_one m l g xs, eq_int_iff l g, eq_int_iff x g)

module _ (h : ℤ) where
  balance_stops :
      (fuel : ℕ) (c : ShardConfig)
      → IsAssigned c
      → Extreme c (analyze c)
      → lt_int (analyze c).mn (pos ((analyze c).ln + 2)) ≡ true
      → Balanced c c
  balance_stops fuel c a x t = record {
    same_num = refl;
    same_groups = refl;
    same_length = refl;
    assigned = a;
    even = λ g k i j. ground (arith, x.most, x.least_load, x.above g, x.below k, t);
  }

  pub balance-Balanced :
      (fuel : ℕ) (c : ShardConfig)
      → has_group c h ≡ true
      → length c.shards < 257
      → IsAssigned c
      → pairs c.shards < fuel
      → (c' : ShardConfig) × (balance fuel c ≡ some c') × Balanced c c'
  unfolding balance
  balance-Balanced zero c i few a f = absurd (omega (arith, f))
  balance-Balanced (suc fuel) c i few a f =
      let e = analyze c in
      let x = analyze-Extreme c h i few in
      elim (Bool-cases (lt_int e.mn (pos (e.ln + 2)))) [
        | inl t ↦ (c, rw (balance, t) refl, balance_stops fuel c a x t)
        | inr t ↦
            let c1 = record c { shards = move_one e.mg e.lg c.shards } in
            let far : cnt e.lg c.shards + 2 ≤ cnt e.mg c.shards =
              ground (arith, x.most, x.least_load, t) in
            let apart : e.mg ≢ e.lg =
              λ q. absurd (omega (arith, far, ap (λ g. cnt g c.shards) q)) in
            let (c', run, b) =
              balance-Balanced fuel c1 i (rw (length-move_one e.mg e.lg c.shards) few)
                (λ g k. elim (elem-move_one e.mg e.lg g c.shards k) [
                  | inl old ↦ a g old
                  | inr new ↦ rw new x.lg_in
                ])
                (omega
                  (arith, far, f, pairs-move_one e.mg e.lg c.shards (omega (arith, far)) apart)) in
            (
              c',
              rw (balance, t) run,
              record {
                same_num = b.same_num;
                same_groups = b.same_groups;
                same_length = b.same_length ∙ length-move_one e.mg e.lg c.shards;
                assigned = b.assigned;
                even = b.even;
              },
            )
      ]

pub balance_still :
    (fuel : ℕ) (c : ShardConfig)
    → lt_int (analyze c).mn (pos ((analyze c).ln + 2)) ≡ true
    → balance (suc fuel) c ≡ some c
unfolding balance
balance_still fuel c t = rw (balance, t) refl
