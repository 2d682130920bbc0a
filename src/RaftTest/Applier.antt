-- ===== src/RaftTest/Applier.antt =====
-- `applier` of src/raft1/server.go with what it calls in src/raft1/test.go: the servers' messages from
-- their apply channels, in any order of the servers. How a command is printed is a parameter.
use mit_6_5840_distributed_s.Base.{◌>>=◌}
use mit_6_5840_distributed_s.Base.{
  ℕ, String, Bool, not, ◌&&◌, Option, none, some, List, [], ◌∷◌, ltb, if◌then◌else◌, Key,
}
use mit_6_5840_distributed_s.RaftTest.{Test, check_logs, apply_error}

-- `raftapi.ApplyMsg`, as far as applier reads it.
pub data ApplyMsg (V : Type 0) : Type 0 where
  command : ℕ → V → ApplyMsg V
  not_command : ApplyMsg V

pub data ApplyFault : Type 0 where
  other_command : ℕ → ApplyFault
  after_gap : ApplyFault

-- `err_msg`, from what `CheckLogs` returns.
abbrev pub fault_of : Option ℕ → Bool → ℕ → Option ApplyFault
fault_of other prevok index =
    if ltb 1 index && not prevok
    then some after_gap
    else elim other [ none ↦ none | some j ↦ some (other_command j) ]

abbrev pub note : Option ApplyFault → List ApplyFault → List ApplyFault
note none faults = faults
note (some fault) faults = fault ∷ faults

module _ {V : Type 0} ⦃key : Key V⦄ (text : ℕ → ℕ → V → ApplyFault → String) where
  abbrev pub report : ℕ → ℕ → V → Option ApplyFault → Test V → Option (Option ApplyFault × Test V)
  report i index v none ts = some (none, ts)
  report i index v (some fault) ts = do
    ts' ← apply_error i (text i index v fault) ts
    some (some fault, ts')

  -- One round of `applier` of server `i`: the error, if any, and the test.
  unfoldable pub apply_msg : ℕ → ApplyMsg V → Test V → Option (Option ApplyFault × Test V)
  apply_msg i not_command ts = some (none, ts)
  apply_msg i (command index v) ts = do
    r ← check_logs i index v ts
    report i index v (fault_of r.0 r.1 index) r.2

  -- The appliers of all servers.
  unfoldable pub apply_all : List (ℕ × ApplyMsg V) → Test V → Option (List ApplyFault × Test V)
  apply_all [] ts = some ([], ts)
  apply_all ((i, m) ∷ ms) ts = do
    r ← apply_msg i m ts
    rest ← apply_all ms r.1
    some (note r.0 rest.0, rest.1)
