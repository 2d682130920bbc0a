-- ===== src/RaftTest/OneLeader.antt =====
-- What `checkOneLeader` of src/raft1/test.go finds.
use mit_6_5840_distributed_s.RaftTest.Leaders.{
  leaders_in, servers_at-leaders_of, has-leaders_in, leaders_in_leads, last_term_later,
  servers_at-cons,
}
use mit_6_5840_distributed_s.RaftTest.Leader.{
  leader_is, first_of, servers_at, leaders_of, last_term, check_rounds, check_one_leader,
  later_term,
}
use mathlib.Core.Path.{subst}
use mit_6_5840_distributed_s.Base.Dict.{Dict, lookup}
use mit_6_5840_distributed_s.Base.{
  ℕ, zero, suc, ◌+◌, ◌≤◌, ◌<◌, ◌≡◌, refl, ◌∙◌, ap, sym, ◌⊎◌, inl, inr, true, Option, none, some,
  List, [], ◌∷◌, arith, eqb, ltb, length, get_elem?, has, nat_eq, Bool-cases, Option-cases,
  some_inj, eqb_iff,
}
use mit_6_5840_distributed_s.RaftTest.Terms.{State}

-- What the check of the map says: no term has two leaders, and no leader's term is after the last.
abbrev Checked : ℕ → ℕ → List ℕ → Type 0
Checked t last l = (length l ≤ 1) × ((l ≡ []) ⊎ (t ≤ last))

last_term-Checked :
    (d : Dict ℕ (List ℕ)) (from : Option ℕ) (last t : ℕ)
    → last_term d from ≡ some (some last)
    → Checked t last (servers_at t d)
unfolding last_term lookup
last_term-Checked [] from last t h = (omega arith, inl refl)
last_term-Checked ((k, l) ∷ rest) from last t h = elim (Bool-cases (ltb 1 (length l))) [
  | inl two ↦ absurd (cc (rw (last_term, two) at h))
  | inr one ↦
      let h' : last_term rest (later_term from k) ≡ some (some last) = rw (last_term, one) at h in
      elim (Bool-cases (eqb k t)) [
        | inl e ↦
            let le : k ≤ last = last_term_later rest from k last h' in
            let own : servers_at t ((k, l) ∷ rest) ≡ l = servers_at-cons t k l rest ∙ rw e refl in
            subst (Checked t last) (sym own) (ground arith, inr (ground (arith, eqb_iff k t)))
        | inr e ↦
            let other : servers_at t ((k, l) ∷ rest) ≡ servers_at t rest =
              servers_at-cons t k l rest ∙ rw e refl in
            subst (Checked t last) (sym other)
              (last_term-Checked rest (later_term from k) last t h')
      ]
]

-- The one that `checkOneLeader` finds: it is connected and leads, and every other connected leader is
-- of an earlier term.
pub record IsLeader (i : ℕ) (states : List State) : Type 0 where
  pub state : State
  pub here : get_elem? states i ≡ some state
  pub connected : state.connected ≡ true
  pub leader : state.leader ≡ true
  pub latest :
      (j : ℕ) (s : State)
      → get_elem? states j ≡ some s
      → s.connected ≡ true
      → s.leader ≡ true
      → (j ≡ i) ⊎ (s.term < state.term)

leaders_in_same :
    (k j : ℕ) (l : List ℕ) → length l ≤ 1 → get_elem? l 0 ≡ some k → has j l ≡ true → j ≡ k
leaders_in_same k j [] h e m = cc
leaders_in_same k j (x ∷ []) h e m = ground (arith, some_inj e)
leaders_in_same k j (x ∷ y ∷ l) h e m = absurd (omega arith)

has_first : (k : ℕ) (l : List ℕ) → get_elem? l 0 ≡ some k → has k l ≡ true
has_first k [] e = cc
has_first k (x ∷ l) e = ground (arith, some_inj e)

-- Of two leaders, one in the last term.
latest_or_same :
    (states : List State) (last i j t t' : ℕ)
    → t' ≡ last
    → get_elem? (leaders_in last 0 states) 0 ≡ some i
    → has j (leaders_in t 0 states) ≡ true
    → Checked t last (leaders_in t 0 states)
    → (j ≡ i) ⊎ (t < t')
latest_or_same states last i j t t' e first m ck = elim ck.1 [
  | inl none_there ↦ absurd (cc (ap (has j) none_there, m))
  | inr le ↦ elim (Bool-cases (eqb t last)) [
    | inl s ↦
        let tl : t ≡ last = (eqb_iff t last).0 s in
        inl (
          leaders_in_same i j (leaders_in t 0 states) ck.0
            (ap (λ k. get_elem? (leaders_in k 0 states) 0) tl ∙ first) m)
    | inr s ↦ inr (ground arith)
  ]
]

servers_at_round :
    (t : ℕ) (states : List State) → servers_at t (leaders_of 0 states []) ≡ leaders_in t 0 states
unfolding lookup
servers_at_round t states = servers_at-leaders_of t 0 states []

pub round_lem :
    (states : List State) (last i : ℕ)
    → last_term (leaders_of 0 states []) none ≡ some (some last)
    → get_elem? (servers_at last (leaders_of 0 states [])) 0 ≡ some i
    → IsLeader i states
round_lem states last i h e =
    let first : get_elem? (leaders_in last 0 states) 0 ≡ some i =
      ap (λ l. get_elem? l 0) (sym (servers_at_round last states)) ∙ e in
    let (p, s, ip, here, c, l, t) =
      leaders_in_leads states last 0 i (has_first i (leaders_in last 0 states) first) in
    let pi : p ≡ i = omega arith in
    record {
      state = s;
      here = ap (get_elem? states) (sym pi) ∙ here;
      connected = c;
      leader = l;
      latest = λ j s' e' c' l'.
          let m : has j (leaders_in s'.term 0 states) ≡ true =
            subst (λ k. has k (leaders_in s'.term 0 states) ≡ true) (ground arith)
              (has-leaders_in states 0 j s' e' c' l') in
          let ck : Checked s'.term last (leaders_in s'.term 0 states) =
            subst (Checked s'.term last) (servers_at_round s'.term states)
              (last_term-Checked (leaders_of 0 states []) none last s'.term h) in
          latest_or_same states last i j s'.term s.term t first m ck;
    }

first_of_lem : (o : Option ℕ) (i : ℕ) → first_of o ≡ leader_is i → o ≡ some i
first_of_lem none i h = cc
first_of_lem (some k) i h = cc

check_rounds-IsLeader :
    (left iters : ℕ) (rounds : ℕ → List State) (i : ℕ)
    → check_rounds left iters rounds ≡ leader_is i
    → (r : ℕ) × (r < iters + left) × IsLeader i (rounds r)
unfolding check_rounds
check_rounds-IsLeader zero iters rounds i h = absurd (cc h)
check_rounds-IsLeader (suc left) iters rounds i h =
    let d = leaders_of 0 (rounds iters) [] in
    elim (Option-cases (last_term d none)) [
      | inl e ↦ absurd (cc (rw (check_rounds, e) at h))
      | inr (o, e) ↦ elim (Option-cases o) [
        | inl n ↦
            let (r, lt, w) =
              check_rounds-IsLeader left (iters + 1) rounds i (rw (check_rounds, e, n) at h) in
            (r, omega arith, w)
        | inr (last, l) ↦
            let first : first_of (get_elem? (servers_at last d) 0) ≡ leader_is i =
              rw (check_rounds, e, l) at h in
            (
              iters,
              omega arith,
              round_lem (rounds iters) last i (e ∙ ap some l)
                  (first_of_lem (get_elem? (servers_at last d) 0) i first),
            )
      ]
    ]

-- If `checkOneLeader` returns a server, then in one of its ten rounds that server was connected and led,
-- and every other connected server that led did so in an earlier term.
pub check_one_leader-IsLeader :
    (rounds : ℕ → List State) (i : ℕ)
    → check_one_leader rounds ≡ leader_is i
    → (r : ℕ) × (r < 10) × IsLeader i (rounds r)
unfolding check_one_leader
check_one_leader-IsLeader rounds i h = check_rounds-IsLeader 10 0 rounds i h
