-- ===== src/RaftTest/Agreement.antt =====
-- What `one` and `wait` of src/raft1/test.go say of the servers' logs.
use mit_6_5840_distributed_s.RaftTest.One.{
  find_start, returned, Polled, same_cmd, poll, last_count, wait_polls, Round, one, wait, agreed,
  failed, moved_on, mismatched, timed_out,
}
use mit_6_5840_distributed_s.Base.{
  ℕ, zero, suc, ◌+◌, ◌%◌, ◌≤◌, ◌<◌, ◌≡◌, refl, ◌∙◌, ap, inl, inr, Bool, true, ◌&&◌, Option, none,
  some, List, [], ◌∷◌, arith, ltb, leb, if◌then◌else◌, get_elem?, Key, Bool-cases, Option-cases,
  ◌⊎◌,
}
use mit_6_5840_distributed_s.RaftTest.Committed.{holders, AllHold, n_committed-AllHold}
use mit_6_5840_distributed_s.RaftTest.{Test, Commits, counted, fatal, n_committed}

find_start_lem :
    (left n starts : ℕ) (answers : ℕ → Option ℕ) (index : ℕ)
    → (find_start left n starts answers).1 ≡ some index
    → (i : ℕ) × (answers i ≡ some index)
unfolding find_start
find_start_lem zero n starts answers index h = absurd (cc h)
find_start_lem (suc left) n starts answers index h =
    let next = (starts + 1) % n in
    elim (Option-cases (answers next)) [
      | inl e ↦ find_start_lem left n next answers index (rw (find_start, e) at h)
      | inr (k, e) ↦ let same : some k ≡ some index = rw (find_start, e) at h in (next, e ∙ same)
    ]

returned_inj : {A : Type 0} {a b : A} → returned a ≡ returned b → a ≡ b
returned_inj h = cc

Polled-cases : (p : Polled) → (p ≡ agreed) ⊎ ((p ≡ mismatched) ⊎ (p ≡ timed_out))
Polled-cases agreed = inl refl
Polled-cases mismatched = inr (inl refl)
Polled-cases timed_out = inr (inr refl)

module _ {V : Type 0} ⦃key : Key V⦄ where
  Commits-cases : (c : Commits V) → (c ≡ fatal) ⊎ ((n : ℕ) × (cmd : Option V) × (c ≡ counted n cmd))
  Commits-cases fatal = inl refl
  Commits-cases (counted n cmd) = inr (n, cmd, refl)

  same_cmd_lem : (c : Option V) (cmd : V) → same_cmd c cmd ≡ true → c ≡ some cmd
  same_cmd_lem none cmd h = cc
  same_cmd_lem (some c) cmd h = ap some ((key.same_iff c cmd).0 h)

  -- A poll at which the servers agree on the command: at least `expected` servers, and at least one, have
  -- an entry at the index, every such entry is the command, and no server has failed.
  pub record Agreed (cmd : V) (expected index : ℕ) (ts : Test V) : Type 0 where
    pub enough : expected ≤ holders index ts.srvs
    pub some_holder : 0 < holders index ts.srvs
    pub same : AllHold index (some cmd) ts.srvs

  poll-Agreed :
      (cmd : V) (expected index : ℕ) (polls : List (Test V))
      → poll cmd expected index polls ≡ agreed
      → (k : ℕ) × (ts : Test V) × (get_elem? polls k ≡ some ts) × Agreed cmd expected index ts
  unfolding poll
  poll-Agreed cmd expected index [] h = absurd (cc h)
  poll-Agreed cmd expected index (ts ∷ later) h = elim (Commits-cases (n_committed index ts)) [
    | inl e ↦ absurd (cc (rw (poll, e) at h))
    | inr (nd, c, e) ↦
        let step : (if ltb 0 nd && leb expected nd && same_cmd c cmd
              then agreed
              else poll cmd expected index later)
            ≡ agreed =
          rw (poll, e) at h in
        elim (Bool-cases (ltb 0 nd && leb expected nd && same_cmd c cmd)) [
          | inl on ↦
              let (count, hold) = n_committed-AllHold index ts nd c e in
              let cmds : c ≡ some cmd = same_cmd_lem c cmd (ground arith) in
              (
                0,
                ts,
                refl,
                record {
                  enough = ground arith;
                  some_holder = ground arith;
                  same = rw (← cmds) hold;
                },
              )
          | inr off ↦
              let (k, ts', g, w) = poll-Agreed cmd expected index later (rw off at step) in
              (suc k, ts', g, w)
        ]
  ]

  last_count_lem :
      (index n : ℕ) (last : Test V) (cmd : Option V)
      → last_count n (n_committed index last) ≡ returned cmd
      → (n ≤ holders index last.srvs) × AllHold index cmd last.srvs
  last_count_lem index n last cmd h = elim (Commits-cases (n_committed index last)) [
    | inl e ↦ absurd (cc (rw (last_count, e) at h))
    | inr (nd, c, e) ↦
        let (count, hold) = n_committed-AllHold index last nd c e in
        let step : (if ltb nd n then failed else returned c) ≡ returned cmd =
          rw (last_count, e) at h in
        elim (Bool-cases (ltb nd n)) [
          | inl few ↦ absurd (cc (rw few at step))
          | inr enough ↦
              let same : c ≡ cmd = returned_inj (rw enough at step) in
              (ground arith, rw (← same) hold)
        ]
  ]

  wait_polls_last :
      (index n : ℕ) (start : Option ℕ) (left iters : ℕ) (polls : ℕ → Test V × List ℕ)
      (last : Test V) (cmd : Option V)
      → wait_polls index n start left iters polls last ≡ returned cmd
      → last_count n (n_committed index last) ≡ returned cmd
  unfolding wait_polls
  wait_polls_last index n start zero iters polls last cmd h = h
  wait_polls_last index n start (suc left) iters polls last cmd h =
      elim (Commits-cases (n_committed index (polls iters).0)) [
        | inl e ↦ absurd (cc (rw (wait_polls, e) at h))
        | inr (nd, c, e) ↦ elim (Bool-cases (leb n nd)) [
          | inl y ↦ rw (wait_polls, e, y) at h
          | inr few ↦ elim (Bool-cases (moved_on start (polls iters).1)) [
            | inl m ↦ absurd (cc (rw (wait_polls, e, few, m) at h))
            | inr m ↦
                wait_polls_last index n start left (iters + 1) polls last cmd
                  (rw (wait_polls, e, few, m) at h)
          ]
        ]
      ]

  -- A round in which a server gives the index, with a poll at which the servers agree.
  abbrev pub Wins : V → ℕ → ℕ → List (Round V) → Type 0
  Wins cmd expected index rounds =
      (round : Round V) × (r : ℕ) × (i : ℕ) × (k : ℕ) × (ts : Test V) × (get_elem? rounds r
        ≡ some round)
      × (round.answers i ≡ some index)
      × (get_elem? round.polls k ≡ some ts)
      × Agreed cmd expected index ts

  Wins-later :
      (cmd : V) (expected index : ℕ) (round : Round V) (later : List (Round V))
      → Wins cmd expected index later
      → Wins cmd expected index (round ∷ later)
  Wins-later cmd expected index round later (rd, r, i, k, ts, a, b, c, d) =
      (rd, suc r, i, k, ts, a, b, c, d)

  -- If `one` returns an index, then a server gave that index for the command in some round, and at one of
  -- that round's polls the servers agreed on the command at the index: at least `expected` servers, and
  -- at least one, had an entry there, every such entry was the command, and no server had failed.
  pub one-Wins :
      (cmd : V) (expected : ℕ) (retry finished : Bool) (n starts : ℕ) (rounds : List (Round V))
      (index : ℕ)
      → one cmd expected retry finished n starts rounds ≡ returned index
      → Wins cmd expected index rounds
  unfolding one
  one-Wins cmd expected retry finished n starts [] index h = absurd (ground arith)
  one-Wins cmd expected retry finished n starts (round ∷ later) index h =
      let next = (find_start n n starts round.answers).0 in
      elim (Option-cases (find_start n n starts round.answers).1) [
        | inl e ↦
            Wins-later cmd expected index round later
              (one-Wins cmd expected retry finished n next later index (rw (one, e) at h))
        | inr (index', e) ↦ elim (Polled-cases (poll cmd expected index' round.polls)) [
          | inl a ↦
              let same : index' ≡ index = returned_inj (rw (one, e, a) at h) in
              let (k, ts, g, w) = poll-Agreed cmd expected index' round.polls a in
              let (i, ans) = find_start_lem n n starts round.answers index' e in
              rw (← same) (round, 0, i, k, ts, refl, ans, g, w)
          | inr (inl m) ↦ absurd (cc (rw (one, e, m) at h))
          | inr (inr t) ↦ elim (Bool-cases retry) [
            | inl again ↦ Wins-later cmd expected index round later (
                one-Wins cmd expected retry finished n next later index
                  (rw (one, e, t, again) at h))
            | inr once ↦ absurd (cc (rw (one, e, t, once) at h))
          ]
        ]
      ]

  -- If `wait` returns a command, then at the last count at least `n` servers have an entry at the index,
  -- every such entry is that command, and no server has failed.
  pub wait-AllHold :
      (index n : ℕ) (start : Option ℕ) (polls : ℕ → Test V × List ℕ) (last : Test V)
      (cmd : Option V)
      → wait index n start polls last ≡ returned cmd
      → (n ≤ holders index last.srvs) × AllHold index cmd last.srvs
  unfolding wait
  wait-AllHold index n start polls last cmd h =
      last_count_lem index n last cmd (wait_polls_last index n start 30 0 polls last cmd h)
