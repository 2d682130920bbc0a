-- ===== src/RaftTest/Tests.antt =====
-- Servers' logs on concrete inputs, and instances of the theorems about them. Commands are numbers.
use mit_6_5840_distributed_s.RaftTest.Applied.{Gapless, Sound, apply_all-Sound}
use mit_6_5840_distributed_s.RaftTest.Applier.{
  ApplyMsg, command, not_command, apply_msg, apply_all, after_gap,
}
use mit_6_5840_distributed_s.RaftTest.One.{Round, one, wait, find_start, wait_polls, poll, returned}
use mit_6_5840_distributed_s.RaftTest.Agreement.{Wins, one-Wins}
use mit_6_5840_distributed_s.RaftTest.Leader.{
  check_one_leader, check_rounds, leaders_of, last_term, leader_is, multiple,
}
use mit_6_5840_distributed_s.RaftTest.OneLeader.{IsLeader, check_one_leader-IsLeader}
use mit_6_5840_distributed_s.Base.Dict.{insert, lookup}
use mit_6_5840_distributed_s.Base.{
  if◌then◌else◌, ℕ, zero, suc, ◌≡◌, refl, true, none, some, List, [], ◌∷◌, nat_eq, false, ◌<◌, eqb,
}
use mit_6_5840_distributed_s.RaftTest.Agree.{Agree}
use mit_6_5840_distributed_s.RaftTest.Snapshot.{
  RfSrv, new_rf_srv, SnapshotData, ingest_snap, read_log, apply_command, Copied,
  ingest_snap-apply_command,
}
use mit_6_5840_distributed_s.RaftTest.Terms.{State}
use mit_6_5840_distributed_s.RaftTest.{
  RaftServer, new_raft_server, Test, differs, conflicts, check_logs, mismatch, n_committed_from,
  n_committed, apply_error,
}

abbrev two : Test ℕ
two = record { srvs = new_raft_server ∷ new_raft_server ∷ []; max_index = 0 }

Agree-two : Agree two.srvs
unfolding lookup
Agree-two zero j index v w e e' = absurd (cc)
Agree-two (suc zero) j index v w e e' = absurd (cc)
Agree-two (suc (suc i)) j index v w e e' = absurd (cc)

abbrev logged : ℕ → RaftServer ℕ
logged v = record { apply_err = ""; logs = (1, v) ∷ [] }

Gapless-two : Gapless two.srvs
unfolding lookup
Gapless-two zero index v e = absurd (cc)
Gapless-two (suc zero) index v e = absurd (cc)
Gapless-two (suc (suc i)) index v e = absurd (cc)

abbrev applied : List (ℕ × ApplyMsg ℕ)
applied =
    (0, command 1 5)
    ∷ (1, not_command)
    ∷ (1, command 1 5)
    ∷ (1, command 2 6)
    ∷ (0, command 2 6)
    ∷ []

abbrev both : RaftServer ℕ
both = record { apply_err = ""; logs = (1, 5) ∷ (2, 6) ∷ [] }

apply_all-Sound_example : Sound (record { srvs = both ∷ both ∷ []; max_index = 2 })
unfolding apply_all apply_msg check_logs conflicts differs lookup insert
apply_all-Sound_example =
    apply_all-Sound (λ i index v fault. "error") applied two
      (record { srvs = both ∷ both ∷ []; max_index = 2 }) (Agree-two, Gapless-two) refl

-- A command that skips an index.
skipped :
    apply_all (λ i index v fault. "error") ((0, command 2 6) ∷ []) two
    ≡ some (
      after_gap ∷ [],
      record {
        srvs = record { apply_err = "error"; logs = (2, 6) ∷ [] } ∷ new_raft_server ∷ [];
        max_index = 2;
      },
    )
unfolding apply_all apply_msg check_logs conflicts differs lookup insert apply_error
skipped = refl

-- Another command at the same index is a conflict with server 1.
conflict_found :
    check_logs 0 1 6 (record { srvs = new_raft_server ∷ logged 5 ∷ []; max_index = 1 })
    ≡ some (some 1, false, record { srvs = logged 6 ∷ logged 5 ∷ []; max_index = 1 })
unfolding check_logs conflicts differs lookup insert
conflict_found = refl

abbrev three : Test ℕ
three = record { srvs = logged 5 ∷ new_raft_server ∷ logged 5 ∷ []; max_index = 1 }

abbrev states : List State
states =
    record { connected = true; term = 3; leader = false }
    ∷ record { connected = false; term = 1; leader = true }
    ∷ record { connected = true; term = 3; leader = true }
    ∷ []

abbrev before : RfSrv ℕ
before = record { last_applied = 8; log = (8, 80) ∷ (7, 70) ∷ [] }

abbrev after : RfSrv ℕ
after = record { last_applied = 9; log = (8, 80) ∷ (7, 70) ∷ (9, 90) ∷ [] }

abbrev snapshot : SnapshotData ℕ
snapshot = record { last_included_index = 9; xlog = 0 ∷ 0 ∷ 0 ∷ 0 ∷ 0 ∷ 0 ∷ 0 ∷ 70 ∷ 80 ∷ 90 ∷ [] }

ingest_snap-apply_command_example :
    Copied 0 9 after (ingest_snap (some snapshot) (some 9) new_rf_srv)
unfolding apply_command read_log lookup insert
ingest_snap-apply_command_example =
    ingest_snap-apply_command 0 (none, true) 9 90 before after new_rf_srv none snapshot refl

-- Server 2 leads in the latest term; server 1, which thinks that it leads, is not connected.
leader_found : check_one_leader (λ r. states) ≡ leader_is 2
unfolding check_one_leader check_rounds leaders_of last_term insert lookup
leader_found = refl

two_leaders :
    check_one_leader (λ r. record { connected = true; term = 3; leader = true } ∷ states) ≡ multiple
unfolding check_one_leader check_rounds leaders_of last_term insert lookup
two_leaders = refl

check_one_leader-IsLeader_example : (r : ℕ) × (r < 10) × IsLeader 2 states
check_one_leader-IsLeader_example = check_one_leader-IsLeader (λ r. states) 2 leader_found

-- Server 2 accepts the command at index 1; the second poll finds it on two servers.
abbrev accepting : Round ℕ
accepting = record { answers = λ i. if eqb i 2 then some 1 else none; polls = two ∷ three ∷ [] }

one_agreed : one 5 2 false false 3 0 (accepting ∷ []) ≡ returned 1
unfolding one find_start poll n_committed n_committed_from mismatch lookup
one_agreed = refl

one-Wins_example : Wins 5 2 1 (accepting ∷ [])
one-Wins_example = one-Wins 5 2 false false 3 0 (accepting ∷ []) 1 one_agreed

wait_done : wait 1 2 (some 3) (λ i. (three, 3 ∷ [])) three ≡ returned (some 5)
unfolding wait wait_polls n_committed n_committed_from mismatch lookup
wait_done = refl
