-- ===== src/RaftTest/Leader.antt =====
-- `checkOneLeader` and `checkNoLeader` of src/raft1/test.go, on what the servers answer in each round.

use mit_6_5840_distributed_s.Base.Dict.{Dict, insert, lookup}
use mit_6_5840_distributed_s.Base.{
  ℕ, zero, suc, ◌+◌, ◌&&◌, Option, none, some, List, [], ◌∷◌, ◌++◌, ltb, if◌then◌else◌, length,
  get_elem?, nat_eq,
}
use mit_6_5840_distributed_s.RaftTest.Terms.{State}
use mit_6_5840_distributed_s.RaftTest.{max}

abbrev pub servers_at : ℕ → Dict ℕ (List ℕ) → List ℕ
servers_at t leaders = elim (lookup t leaders) [ none ↦ [] | some l ↦ l ]

-- The map from terms to their leaders, from server `i` on.
unfoldable pub leaders_of : ℕ → List State → Dict ℕ (List ℕ) → Dict ℕ (List ℕ)
leaders_of i [] leaders = leaders
leaders_of i (s ∷ states) leaders = leaders_of (i + 1) states (
    if s.connected && s.leader
    then insert s.term (servers_at s.term leaders ++ i ∷ []) leaders
    else leaders)

-- `lastTermWithLeader`, where -1 is `none`; `none` if a term has two leaders.
abbrev pub later_term : Option ℕ → ℕ → Option ℕ
later_term none t = some t
later_term (some last) t = some (max last t)

unfoldable pub last_term : Dict ℕ (List ℕ) → Option ℕ → Option (Option ℕ)
last_term [] last = some last
last_term ((t, l) ∷ rest) last =
    let more = last_term rest (later_term last t) in if ltb 1 (length l) then none else more

pub data Leader : Type 0 where
  leader_is : ℕ → Leader
  multiple nobody panic : Leader

abbrev pub first_of : Option ℕ → Leader
first_of none = panic
first_of (some i) = leader_is i

-- The end of a round; `again` is the next one.
abbrev pub after_terms : Option (Option ℕ) → Dict ℕ (List ℕ) → Leader → Leader
after_terms none leaders again = multiple
after_terms (some none) leaders again = again
after_terms (some (some last)) leaders again = first_of (get_elem? (servers_at last leaders) 0)

unfoldable pub check_rounds : ℕ → ℕ → (ℕ → List State) → Leader
check_rounds zero iters rounds = nobody
check_rounds (suc left) iters rounds =
    let leaders = leaders_of 0 (rounds iters) [] in
    after_terms (last_term leaders none) leaders (check_rounds left (iters + 1) rounds)

-- `checkOneLeader` asks ten times.
unfoldable pub check_one_leader : (ℕ → List State) → Leader
check_one_leader rounds = check_rounds 10 0 rounds

-- `checkNoLeader`: a connected server that claims to lead.
unfoldable pub check_no_leader : ℕ → List State → Option ℕ
check_no_leader i [] = none
check_no_leader i (s ∷ states) =
    let rest = check_no_leader (i + 1) states in if s.connected && s.leader then some i else rest
