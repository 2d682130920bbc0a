-- ===== src/ShardCfg.antt =====
-- src/shardkv1/shardcfg/shardcfg.go: the assignment of shards to groups, and the changes of it.
-- `Tgid` is a Go int and `Tnum` a counter. A map is an association list; where Go ranges over it in a
-- random order, the model takes the order of the list, which is any order. A Join that fails has added
-- the groups before the one that it fails at, so that what it leaves depends on the order.
-- `log.Fatalf` is the outcome `fatal`.
pub mod Counts
pub mod Analyze
pub mod Moves
pub mod Balance
pub mod Assign
pub mod Rebalance
pub mod Check
pub mod Change
pub mod Route
mod Tests
use mit_6_5840_distributed_s.Base.{
  ℕ, zero, suc, ◌+◌, String, Bool, true, false, not, ◌||◌, Option, none, some, List, [], ◌∷◌,
  length, set, map, replicate, ◌==◌, ltb, eqb, string_eq, if◌then◌else◌,
}
use mit_6_5840_distributed_s.Base.Int.{ℤ, pos, negsuc, lt_int, int_eq}
use mit_6_5840_distributed_s.Base.Dict.{Dict, lookup, insert, delete}

abbrev pub n_shards : ℕ
n_shards = 12

pub record ShardConfig : Type 0 where
  pub num : ℕ
  pub shards : List ℤ
  pub groups : Dict ℤ (List String)

unfoldable pub make_shard_config : ShardConfig
make_shard_config = record { num = 0; shards = replicate n_shards (pos 0); groups = [] }

-- The `ok` of `_, ok := groups[g]`.
abbrev pub is_some : {A : Type 0} → Option A → Bool
is_some none = false
is_some (some a) = true

abbrev pub has_group : ShardConfig → ℤ → Bool
has_group c g = is_some (lookup g c.groups)

-- `counts[g]`, where a missing key reads as 0.
abbrev pub or_zero : Option ℕ → ℕ
or_zero none = 0
or_zero (some n) = n

abbrev pub count_at : Dict ℤ ℕ → ℤ → ℕ
count_at counts g = or_zero (lookup g counts)

unfoldable pub count_shards : Dict ℤ ℕ → List ℤ → Dict ℤ ℕ
count_shards counts [] = counts
count_shards counts (g ∷ gs) = count_shards (insert g (count_at counts g + 1) counts) gs

-- `slices.Sort`.
unfoldable pub insert_sorted : ℤ → List ℤ → List ℤ
insert_sorted g [] = g ∷ []
insert_sorted g (h ∷ hs) = if lt_int h g then h ∷ insert_sorted g hs else g ∷ h ∷ hs

unfoldable pub sort : List ℤ → List ℤ
unfolding insert_sorted
sort [] = []
sort (g ∷ gs) = insert_sorted g (sort gs)

abbrev pub keys : {V : Type 0} → Dict ℤ V → List ℤ
keys [] = []
keys ((g, v) ∷ rest) = g ∷ keys rest

-- What `analyze` returns: the most and the least loaded group, with their loads.
pub record Extremes : Type 0 where
  pub mg : ℤ
  pub mn : ℤ
  pub lg : ℤ
  pub ln : ℕ

abbrev pub no_extremes : Extremes
no_extremes = record { mg = negsuc 0; mn = negsuc 0; lg = negsuc 0; ln = 257 }

abbrev pub visit : (ℤ → ℕ) → ℤ → Extremes → Extremes
visit count g e =
    let e' = if ltb (count g) e.ln then record e { ln = count g; lg = g } else e in
    if lt_int e'.mn (pos (count g)) then record e' { mn = pos (count g); mg = g } else e'

unfoldable pub scan : (ℤ → ℕ) → List ℤ → Extremes → Extremes
scan count [] e = e
scan count (g ∷ gs) e = scan count gs (visit count g e)

unfoldable pub analyze : ShardConfig → Extremes
unfolding scan count_shards sort
analyze c = scan (count_at (count_shards [] c.shards)) (sort (keys c.groups)) no_extremes

unfoldable pub least : ShardConfig → ℤ
unfolding analyze
least c = (analyze c).lg

-- The loop that gives every unassigned shard to the least loaded group. It ranges over a copy of
-- the array, from shard `s` on.
unfoldable pub assign_unassigned : ℕ → List ℤ → ShardConfig → ShardConfig
unfolding least
assign_unassigned s [] c = c
assign_unassigned s (g ∷ gs) c =
    let c' = if not (has_group c g) then record c { shards = set c.shards s (least c) } else c in
    assign_unassigned (s + 1) gs c'

-- The first shard of `mg` goes to `lg`.
unfoldable pub move_one : ℤ → ℤ → List ℤ → List ℤ
move_one mg lg [] = []
move_one mg lg (g ∷ gs) = if g == mg then lg ∷ gs else g ∷ move_one mg lg gs

-- The loop that moves shards; `none` where it takes more rounds than the fuel.
unfoldable pub balance : ℕ → ShardConfig → Option ShardConfig
unfolding analyze move_one
balance zero c = none
balance (suc fuel) c =
    let e = analyze c in
    elim (lt_int e.mn (pos (e.ln + 2))) [
      | true ↦ some c
      | false ↦ balance fuel (record c { shards = move_one e.mg e.lg c.shards })
    ]

abbrev pub rounds : ℕ
rounds = 67

unfoldable pub rebalance : ShardConfig → Option ShardConfig
unfolding assign_unassigned balance
rebalance c =
    if ltb (length c.groups) 1
    then some (record c { shards = map (λ _. pos 0) c.shards })
    else balance rounds (assign_unassigned 0 c.shards c)

-- The end of a change: what it returns, with the configuration that it leaves, or the exit.
pub data Outcome : Type 0 where
  returned : Bool → ShardConfig → Outcome
  fatal : Outcome

-- Whether two lists of servers share one.
abbrev pub among : String → List String → Bool
among s [] = false
among s (t ∷ ts) = s == t || among s ts

abbrev pub overlap : List String → List String → Bool
overlap [] ts = false
overlap (s ∷ ss) ts = among s ts || overlap ss ts

abbrev pub taken : Dict ℤ (List String) → List String → Bool
taken [] servers = false
taken ((xgid, xservers) ∷ rest) servers = overlap xservers servers || taken rest servers

finish : Bool → ShardConfig → Outcome
finish changed c = if not changed then fatal else returned true (record c { num = c.num + 1 })

join_loop : Dict ℤ (List String) → Bool → ShardConfig → Outcome
unfolding finish
join_loop [] changed c = finish changed c
join_loop ((gid, servers) ∷ rest) changed c = elim (has_group c gid) [
  | true ↦ returned false c
  | false ↦
      if taken c.groups servers
      then fatal
      else join_loop rest true (record c { groups = insert gid servers c.groups })
]

unfoldable pub join : Dict ℤ (List String) → ShardConfig → Outcome
unfolding join_loop
join servers c = join_loop servers false c

leave_loop : List ℤ → Bool → ShardConfig → Outcome
unfolding finish
leave_loop [] changed c = finish changed c
leave_loop (gid ∷ rest) changed c =
    if not (has_group c gid)
    then returned false c
    else leave_loop rest true (record c { groups = delete gid c.groups })

unfoldable pub leave : List ℤ → ShardConfig → Outcome
unfolding leave_loop
leave gids c = leave_loop gids false c

-- `none` where the loop of `Rebalance` runs out of fuel.
and_balance : Outcome → Option Outcome
unfolding rebalance
and_balance fatal = some fatal
and_balance (returned false c) = some (returned false c)
and_balance (returned true c) = elim (rebalance c) [
  | none ↦ none
  | some c' ↦ some (returned true c')
]

unfoldable pub join_balance : Dict ℤ (List String) → ShardConfig → Option Outcome
unfolding and_balance join
join_balance servers c = and_balance (join servers c)

unfoldable pub leave_balance : List ℤ → ShardConfig → Option Outcome
unfolding and_balance leave
leave_balance gids c = and_balance (leave gids c)
