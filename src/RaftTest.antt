-- ===== src/RaftTest.antt =====
-- src/raft1/test.go: what the tests of the raft servers keep of the servers' logs, and how they check
-- them. Commands are values of any type with a test for equality. Error texts are kept as the values
-- that they show; a failed test is the outcome `fatal`, a panic is `none`.
pub mod Agree
pub mod Committed
pub mod Terms
pub mod Snapshot
pub mod Leader
pub mod Leaders
pub mod OneLeader
pub mod One
pub mod Agreement
pub mod Applier
pub mod Applied
mod Tests
use mit_6_5840_distributed_s.Base.Dict.{Dict, insert, lookup}
use mit_6_5840_distributed_s.Base.{
  ℕ, zero, suc, ◌+◌, String, Bool, true, false, not, ◌&&◌, Option, none, some, List, [], ◌∷◌, ltb,
  if◌then◌else◌, get_elem?, set, Key, ◌==◌, string_eq, nat_eq,
}

pub record RaftServer (V : Type 0) : Type 0 where
  pub apply_err : String
  pub logs : Dict ℕ V

abbrev pub new_raft_server : {V : Type 0} → RaftServer V
new_raft_server = record { apply_err = ""; logs = [] }

pub record Test (V : Type 0) : Type 0 where
  pub srvs : List (RaftServer V)
  pub max_index : ℕ

abbrev pub entry : {V : Type 0} → RaftServer V → ℕ → Option V
entry rs i = lookup i rs.logs

-- The entry before index `i`; no log has an entry at -1.
abbrev pub prev_entry : {V : Type 0} → RaftServer V → ℕ → Bool
prev_entry rs zero = false
prev_entry rs (suc i) = elim (entry rs i) [ some v ↦ true | none ↦ false ]

abbrev pub max : ℕ → ℕ → ℕ
max a b = if ltb a b then b else a

module _ {V : Type 0} ⦃key : Key V⦄ where
  unfoldable pub differs : Option V → V → Bool
  differs none v = false
  differs (some old) v = not (old == v)

  -- The loop of `CheckLogs` from server `j` on: the last server with another command at the index.
  unfoldable pub conflicts : ℕ → ℕ → V → List (RaftServer V) → Option ℕ → Option ℕ
  unfolding differs lookup
  conflicts j index v [] err = err
  conflicts j index v (rs ∷ srvs) err =
      conflicts (j + 1) index v srvs (if differs (entry rs index) v then some j else err)

  -- The conflicting server if there is one, whether the server has the entry before, and the test.
  unfoldable pub check_logs : ℕ → ℕ → V → Test V → Option (Option ℕ × Bool × Test V)
  unfolding conflicts insert lookup
  check_logs i index v ts = elim (get_elem? ts.srvs i) [
    | none ↦ none
    | some me ↦ some (
      conflicts 0 index v ts.srvs none,
      prev_entry me index,
      record {
        srvs = set ts.srvs i (record me { logs = insert index v me.logs });
        max_index = max ts.max_index index;
      },
    )
  ]

unfoldable pub copy_log : {V : Type 0} → Dict ℕ V → Dict ℕ V → Dict ℕ V
unfolding insert
copy_log [] logs = logs
copy_log ((k, v) ∷ xlog) logs = copy_log xlog (insert k v logs)

unfoldable pub ingest_log : {V : Type 0} → ℕ → Dict ℕ V → Test V → Option (Test V)
unfolding copy_log
ingest_log i xlog ts = elim (get_elem? ts.srvs i) [
  | none ↦ none
  | some me ↦ some (record ts { srvs = set ts.srvs i (record me { logs = copy_log xlog [] }) })
]

unfoldable pub apply_error : {V : Type 0} → ℕ → String → Test V → Option (Test V)
apply_error i err ts = elim (get_elem? ts.srvs i) [
  | none ↦ none
  | some me ↦ some (record ts { srvs = set ts.srvs i (record me { apply_err = err }) })
]

pub data Commits (V : Type 0) : Type 0 where
  counted : ℕ → Option V → Commits V
  fatal : Commits V

module _ {V : Type 0} ⦃key : Key V⦄ where
  -- `count > 0 && cmd != cmd1`.
  unfoldable pub mismatch : ℕ → Option V → V → Bool
  mismatch count none v = ltb 0 count
  mismatch count (some c) v = ltb 0 count && not (c == v)

  unfoldable pub n_committed_from : ℕ → List (RaftServer V) → ℕ → Option V → Commits V
  unfolding mismatch lookup
  n_committed_from index [] count cmd = counted count cmd
  n_committed_from index (rs ∷ srvs) count cmd =
      if not (rs.apply_err == "") then fatal else elim (entry rs index) [
        | none ↦ n_committed_from index srvs count cmd
        | some v ↦
            let rest = n_committed_from index srvs (suc count) (some v) in
            if mismatch count cmd v then fatal else rest
      ]

  unfoldable pub n_committed : ℕ → Test V → Commits V
  unfolding n_committed_from
  n_committed index ts = n_committed_from index ts.srvs 0 none
