-- ===== src/Group/Tests.antt =====
-- A group of concrete servers, and instances of the theorems about it.
use mit_6_5840_distributed_s.Mr.WordCount.{digits_from}
use mit_6_5840_distributed_s.Group.Start.{shutdown_server-up, start_server-shutdown_server}
use mit_6_5840_distributed_s.Base.Dict.{Dict, lookup, insert}
use mit_6_5840_distributed_s.Group.Split.{make_partition_lem}
use mit_6_5840_distributed_s.Group.Partition.{partition-up}
use mit_6_5840_distributed_s.Group.Link.{Good, on, up}
use mit_6_5840_distributed_s.Group.Ends.{Distinct, is_on}
use mit_6_5840_distributed_s.Base.{
  ℕ, zero, suc, ◌*◌, ◌<◌, String, ◌≡◌, refl, ap, true, false, ◌&&◌, ◌||◌, none, some, List, [], ◌∷◌,
  arith, length, has, In, if◌then◌else◌, string_eq, not, ◌+◌, ◌*◌, eqb, some_inj, get_elem?, sym,
  ◌∙◌,
}
use mit_6_5840_distributed_s.LabRpc.{Network, enable, delete_server, make_end, connect}
use mit_6_5840_distributed_s.Mr.WordCount.{itoa}
use mit_6_5840_distributed_s.Group.{
  ServerGrp, Srv, partition, make_partition, shutdown_server, start_server, split_from,
  disconnect_from, disconnect_out, server_name, end_name, disconnect_in, make_ends, all, make_end,
  enable, connect, delete_server, itoa,
}

-- An odd group is split; in an even one the second side has server 0 as well, which stands on the first
-- side too.
odd_split : make_partition 5 1 ≡ some (0 ∷ 2 ∷ 3 ∷ [], 4 ∷ 1 ∷ [])
unfolding make_partition split_from
odd_split = refl

even_split : make_partition 4 1 ≡ some (0 ∷ 2 ∷ 3 ∷ [], 0 ∷ 1 ∷ [])
unfolding make_partition split_from
even_split = refl

make_partition_lem_example :
    (p1 : List ℕ) × (p2 : List ℕ) × (make_partition (2 * 1 + 3) 1 ≡ some (p1, p2))
    × (length p1 ≡ 1 + 2)
    × (length p2 ≡ 1 + 1)
    × (has 1 p2 ≡ true)
    × ((i : ℕ) → i < 2 * 1 + 3 → has i p1 ≡ not (has i p2))
    × In (2 * 1 + 3) p1
    × In (2 * 1 + 3) p2
make_partition_lem_example = make_partition_lem 1 1 (omega arith)

abbrev name : ℕ → ℕ → String
name i j = if eqb i 0 then if eqb j 0 then "a" else "b" else if eqb j 0 then "c" else "d"

abbrev net : Network
net = record {
  reliable = true;
  long_delays = false;
  long_reordering = false;
  ends = "a" ∷ "b" ∷ "c" ∷ "d" ∷ [];
  enabled = ("a", true) ∷ ("b", true) ∷ ("c", true) ∷ ("d", true) ∷ [];
  servers = [];
  connections = [];
}

abbrev srv : ℕ → Srv ℕ ℕ
srv i = record { end_names = name i 0 ∷ name i 1 ∷ []; saved = some 7; dc = some 8 }

abbrev group : ServerGrp ℕ ℕ
group = record { net = net; gid = 0; srvs = srv 0 ∷ srv 1 ∷ []; connected = true ∷ true ∷ [] }

below_two {ℓ} : (Q : ℕ → Type ℓ) → Q 0 → Q 1 → (k : ℕ) → k < 2 → Q k
below_two Q z o zero h = z
below_two Q z o (suc zero) h = o
below_two Q z o (suc (suc k)) h = absurd (omega arith)

abbrev table : Dict String ℕ
table = ("a", 0) ∷ ("b", 1) ∷ ("c", 2) ∷ ("d", 3) ∷ []

table_lem : (a b : ℕ) → a < 2 → b < 2 → lookup (name a b) table ≡ some (2 * a + b)
unfolding lookup
table_lem a b la lb =
    below_two (λ a. lookup (name a b) table ≡ some (2 * a + b))
      (below_two (λ b. lookup (name 0 b) table ≡ some (2 * 0 + b)) refl refl b lb)
      (below_two (λ b. lookup (name 1 b) table ≡ some (2 * 1 + b)) refl refl b lb) a la

names_distinct : Distinct 2 name
names_distinct a b c d la lb lc ld e =
    let same : 2 * a + b ≡ 2 * c + d =
      some_inj (sym (table_lem a b la lb) ∙ ap (λ s. lookup s table) e ∙ table_lem c d lc ld) in
    (omega arith, omega arith)

group-Good : Good {P = ℕ} {D = ℕ} 2 name group
group-Good = record {
  range =
      below_two (λ j. get_elem? (true ∷ true ∷ []) j ≡ some (is_on (true ∷ true ∷ []) j)) refl refl;
  wired = λ i j li lj.
      below_two (λ i. end_name {P = ℕ} {D = ℕ} group.srvs i j ≡ some (name i j))
        (below_two (λ j. end_name {P = ℕ} {D = ℕ} group.srvs 0 j ≡ some (name 0 j)) refl refl j lj)
        (below_two (λ j. end_name {P = ℕ} {D = ℕ} group.srvs 1 j ≡ some (name 1 j)) refl refl j lj)
        i li;
}

partition-up_example :
    (sg' : ServerGrp ℕ ℕ) × (partition (0 ∷ []) (1 ∷ []) group ≡ some sg')
    × ((k : ℕ)
        → k < 2
        → on 2 name sg' k ≡ (if has k (0 ∷ []) || has k (1 ∷ []) then true else on 2 name group k))
    × ((a b : ℕ)
        → a < 2
        → b < 2
        → up 2 name sg' a b ≡ (
            if has a (0 ∷ []) && has b (0 ∷ []) || has a (1 ∷ []) && has b (1 ∷ [])
            then true
            else if has a (0 ∷ []) && has b (1 ∷ []) || has a (1 ∷ []) && has b (0 ∷ [])
            then false
            else up 2 name group a b))
partition-up_example =
    partition-up {P = ℕ} {D = ℕ} 2 name names_distinct (0 ∷ []) (1 ∷ []) group group-Good
      (omega arith) (omega arith) (λ k e. ground arith)

abbrev stopped : ServerGrp ℕ ℕ
stopped = record {
  net = record net {
    enabled = ("a", false) ∷ ("b", false) ∷ ("c", false) ∷ ("d", true) ∷ [];
    servers = ("server-0-0", none) ∷ [];
  };
  gid = 0;
  srvs = record { end_names = "a" ∷ "b" ∷ []; saved = some 9; dc = none } ∷ srv 1 ∷ [];
  connected = false ∷ true ∷ [];
}

-- A process that has kept 9 is stopped.
stop_group : shutdown_server 0 (λ d. d + 1) group ≡ some stopped
unfolding shutdown_server disconnect_from disconnect_out disconnect_in all enable delete_server
    server_name itoa digits_from insert
stop_group = refl

shutdown_server-up_example :
    (sg' : ServerGrp ℕ ℕ) × (shutdown_server 0 (λ d. d + 1) group ≡ some sg')
    × (get_elem? sg'.srvs 0
        ≡ some (record { end_names = "a" ∷ "b" ∷ []; saved = some 9; dc = none }))
    × (lookup (server_name 0 0) sg'.net.servers ≡ some none)
    × (on 2 name sg' 0 ≡ false)
    × ((a b : ℕ)
        → a < 2
        → b < 2
        → up 2 name sg' a b ≡ (if eqb 0 a || eqb 0 b then false else up 2 name group a b))
shutdown_server-up_example =
    shutdown_server-up {P = ℕ} {D = ℕ} 2 name names_distinct 0 (λ d. d + 1) group (srv 0) 8
      group-Good refl (omega arith) refl refl

abbrev ended : Network
ended = record stopped.net {
  ends = "f" ∷ "e" ∷ "a" ∷ "b" ∷ "c" ∷ "d" ∷ [];
  enabled =
      ("a", false) ∷ ("b", false) ∷ ("c", false) ∷ ("d", true) ∷ ("e", false) ∷ ("f", false) ∷ [];
  connections = ("e", some "server-0-0") ∷ ("f", some "server-0-1") ∷ [];
}

start_server-shutdown_server_example :
    (sg2 : ServerGrp ℕ ℕ) × (start_server 0 ("e" ∷ "f" ∷ []) 0 (λ p d. p + d) (some 3) 5 stopped
      ≡ some sg2)
    × (get_elem? sg2.srvs 0
        ≡ some (record { end_names = "e" ∷ "f" ∷ []; saved = some 9; dc = some 12 }))
    × (lookup (server_name 0 0) sg2.net.servers ≡ some (some 5))
start_server-shutdown_server_example =
    start_server-shutdown_server 0 (λ d. d + 1) (λ p d. p + d) ("e" ∷ "f" ∷ []) 0 8 3 5 group
      stopped (srv 0) ended stop_group refl refl free
  where
    free : make_ends 0 0 ("e" ∷ "f" ∷ []) stopped.net ≡ some ended
    free = unfold make_ends make_end connect insert server_name itoa digits_from in refl
