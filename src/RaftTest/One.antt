-- ===== src/RaftTest/One.antt =====
-- `one`, `wait` and `checkNoAgreement` of src/raft1/test.go. Time is the number of rounds and of polls
-- that are left; what the servers answer and what the tests have logged at each poll is given.
use mit_6_5840_distributed_s.Base.{
  ℕ, zero, suc, ◌+◌, ◌%◌, Bool, false, not, ◌&&◌, Option, none, some, List, [], ◌∷◌, ltb, leb,
  if◌then◌else◌, Key, ◌==◌, ◌||◌,
}
use mit_6_5840_distributed_s.RaftTest.{Test, Commits, counted, fatal, n_committed}

pub data OneOutcome (A : Type 0) : Type 0 where
  returned : A → OneOutcome A
  failed gave_up : OneOutcome A

-- The loop over the servers: the next ones in turn are asked to start the command, until one of them is
-- connected and accepts. The last server that was asked, and the index that it gives.
unfoldable pub find_start : ℕ → ℕ → ℕ → (ℕ → Option ℕ) → ℕ × Option ℕ
find_start zero n starts answers = (starts, none)
find_start (suc left) n starts answers =
    let next = (starts + 1) % n in
    let rest = find_start left n next answers in
    elim (answers next) [ none ↦ rest | some index ↦ (next, some index) ]

pub data Polled : Type 0 where
  agreed mismatched timed_out : Polled

-- A round of `one`: what each server answers to Start, and the polls for two seconds.
pub record Round (V : Type 0) : Type 0 where
  pub answers : ℕ → Option ℕ
  pub polls : List (Test V)

abbrev pub after_poll : Bool → ℕ → Polled → OneOutcome ℕ → OneOutcome ℕ
after_poll retry index agreed again = returned index
after_poll retry index mismatched again = failed
after_poll retry index timed_out again = if retry then again else failed

-- Whether a term has moved on.
abbrev pub moved_on : Option ℕ → List ℕ → Bool
moved_on none terms = false
moved_on (some start) [] = false
moved_on (some start) (t ∷ terms) = ltb start t || moved_on (some start) terms

module _ {V : Type 0} ⦃key : Key V⦄ where
  abbrev pub same_cmd : Option V → V → Bool
  same_cmd none cmd = false
  same_cmd (some c) cmd = c == cmd

  abbrev pub after_count : V → ℕ → Commits V → Polled → Polled
  after_count cmd expected fatal again = mismatched
  after_count cmd expected (counted nd cmd1) again =
      if ltb 0 nd && leb expected nd && same_cmd cmd1 cmd then agreed else again

  -- The wait for agreement at an index.
  unfoldable pub poll : V → ℕ → ℕ → List (Test V) → Polled
  poll cmd expected index [] = timed_out
  poll cmd expected index (ts ∷ later) =
      after_count cmd expected (n_committed index ts) (poll cmd expected index later)

  abbrev pub after_start : V → ℕ → Bool → Round V → Option ℕ → OneOutcome ℕ → OneOutcome ℕ
  after_start cmd expected retry round none again = again
  after_start cmd expected retry round (some index) again =
      after_poll retry index (poll cmd expected index round.polls) again

  -- `one`, with whether the test is finished when the rounds end.
  unfoldable pub one : V → ℕ → Bool → Bool → ℕ → ℕ → List (Round V) → OneOutcome ℕ
  one cmd expected retry finished n starts [] = if finished then gave_up else failed
  one cmd expected retry finished n starts (round ∷ later) =
      let (next, index) = find_start n n starts round.answers in
      after_start cmd expected retry round index (one cmd expected retry finished n next later)

  -- `wait`: thirty polls, each with the servers' terms, and a last count.
  abbrev pub last_count : ℕ → Commits V → OneOutcome (Option V)
  last_count n fatal = failed
  last_count n (counted nd cmd) = if ltb nd n then failed else returned cmd

  abbrev pub after_wait_count :
      ℕ
      → Option ℕ
      → Commits V
      → List ℕ
      → OneOutcome (Option V)
      → OneOutcome (Option V)
      → OneOutcome (Option V)
  after_wait_count n start fatal terms done again = failed
  after_wait_count n start (counted nd cmd) terms done again =
      if leb n nd then done else if moved_on start terms then gave_up else again

  unfoldable pub wait_polls :
      ℕ → ℕ → Option ℕ → ℕ → ℕ → (ℕ → Test V × List ℕ) → Test V → OneOutcome (Option V)
  wait_polls index n start zero iters polls last = last_count n (n_committed index last)
  wait_polls index n start (suc left) iters polls last =
      let (ts, terms) = polls iters in
      after_wait_count n start (n_committed index ts) terms (last_count n (n_committed index last))
        (wait_polls index n start left (iters + 1) polls last)

  unfoldable pub wait : ℕ → ℕ → Option ℕ → (ℕ → Test V × List ℕ) → Test V → OneOutcome (Option V)
  wait index n start polls last = wait_polls index n start 30 0 polls last

  abbrev pub no_commit : Commits V → Bool
  no_commit fatal = false
  no_commit (counted n cmd) = not (ltb 0 n)

  -- `checkNoAgreement`: whether the test goes on.
  unfoldable pub check_no_agreement : ℕ → Test V → Bool
  check_no_agreement index ts = no_commit (n_committed index ts)
