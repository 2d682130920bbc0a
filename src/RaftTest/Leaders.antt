-- ===== src/RaftTest/Leaders.antt =====
-- The map of leaders that `checkOneLeader` of src/raft1/test.go fills.
use mit_6_5840_distributed_s.RaftTest.Leader.{servers_at, leaders_of, last_term, later_term}
use mathlib.Core.List.{append-nil, append_assoc}
use mit_6_5840_distributed_s.Base.Dict.{Dict, insert, lookup, lookup-insert}
use mit_6_5840_distributed_s.Base.{
  ℕ, zero, suc, ◌+◌, ◌≤◌, ◌≡◌, refl, ◌∙◌, ap, sym, inl, inr, true, ◌&&◌, Option, none, some, List,
  [], ◌∷◌, ◌++◌, arith, eqb, ltb, if◌then◌else◌, length, get_elem?, has, nat_eq, Bool-cases,
  some_inj, eqb_iff,
}
use mit_6_5840_distributed_s.RaftTest.Terms.{State}
use mit_6_5840_distributed_s.RaftTest.{max}

-- The connected servers that lead in a term.
abbrev pub leaders_in : ℕ → ℕ → List State → List ℕ
leaders_in t i [] = []
leaders_in t i (s ∷ states) =
    let rest = leaders_in t (i + 1) states in
    if s.connected && s.leader && eqb s.term t then i ∷ rest else rest

pub servers_at-insert :
    (t k : ℕ) (l : List ℕ) (d : Dict ℕ (List ℕ))
    → servers_at t (insert k l d) ≡ (if eqb k t then l else servers_at t d)
servers_at-insert t k l d = rw (servers_at, lookup-insert k t l d) (ground arith)

pub servers_at-leaders_of :
    (t i : ℕ) (states : List State) (d : Dict ℕ (List ℕ))
    → servers_at t (leaders_of i states d) ≡ servers_at t d ++ leaders_in t i states
unfolding leaders_of
servers_at-leaders_of t i [] d = sym (append-nil (servers_at t d))
servers_at-leaders_of t i (s ∷ states) d = elim (Bool-cases (s.connected && s.leader)) [
  | inr off ↦ rw (off) (servers_at-leaders_of t (i + 1) states d)
  | inl on ↦
      let d' = insert s.term (servers_at s.term d ++ i ∷ []) d in
      rw on (
        servers_at-leaders_of t (i + 1) states d'
        ∙ ap (λ l. l ++ leaders_in t (i + 1) states)
            (servers_at-insert t s.term (servers_at s.term d ++ i ∷ []) d)
        ∙ elim (Bool-cases (eqb s.term t)) [
          | inl e ↦ rw e (
              append_assoc (servers_at s.term d) (i ∷ []) (leaders_in t (i + 1) states)
              ∙ ap (λ k. servers_at k d ++ i ∷ leaders_in t (i + 1) states)
                  ((eqb_iff s.term t).0 e))
          | inr e ↦ rw e refl
        ])
]

-- A leader stands in the list of its term.
pub has-leaders_in :
    (states : List State) (i j : ℕ) (s : State)
    → get_elem? states j ≡ some s
    → s.connected ≡ true
    → s.leader ≡ true
    → has (i + j) (leaders_in s.term i states) ≡ true
has-leaders_in [] i j s e c l = cc
has-leaders_in (x ∷ states) i zero s e c l =
    let xs : x ≡ s = some_inj e in rw (xs, c, l) (ground arith)
has-leaders_in (x ∷ states) i (suc j) s e c l =
    ground (arith, has-leaders_in states (i + 1) j s e c l)

-- And every server of the list leads in the term.
pub leaders_in_leads :
    (states : List State) (t i k : ℕ)
    → has k (leaders_in t i states) ≡ true
    → (j : ℕ) × (s : State) × (k ≡ i + j)
      × (get_elem? states j ≡ some s)
      × (s.connected ≡ true)
      × (s.leader ≡ true)
      × (s.term ≡ t)
leaders_in_leads [] t i k h = absurd (cc h)
leaders_in_leads (s ∷ states) t i k h =
    elim (Bool-cases (s.connected && s.leader && eqb s.term t && eqb i k)) [
      | inl on ↦
          (0, s, ground arith, refl, ground arith, ground arith, ground (arith, eqb_iff s.term t))
      | inr off ↦
          let (j, s', a, b, c, d, e) = leaders_in_leads states t (i + 1) k (ground arith) in
          (suc j, s', omega arith, b, c, d, e)
    ]

-- The last term is never earlier than one that the loop has passed.
pub last_term_from :
    (d : Dict ℕ (List ℕ)) (f last : ℕ) → last_term d (some f) ≡ some (some last) → f ≤ last
unfolding last_term
last_term_from [] f last h = let e : some f ≡ some last = some_inj h in omega (arith, some_inj e)
last_term_from ((k, l) ∷ rest) f last h = elim (Bool-cases (ltb 1 (length l))) [
  | inl two ↦ absurd (cc (rw (last_term, two) at h))
  | inr one ↦ ground (arith, last_term_from rest (max f k) last (rw (last_term, one) at h))
]

pub last_term_later :
    (d : Dict ℕ (List ℕ)) (from : Option ℕ) (k last : ℕ)
    → last_term d (later_term from k) ≡ some (some last)
    → k ≤ last
last_term_later d none k last h = last_term_from d k last h
last_term_later d (some f) k last h = ground (arith, last_term_from d (max f k) last h)

pub servers_at-cons :
    (t k : ℕ) (l : List ℕ) (rest : Dict ℕ (List ℕ))
    → servers_at t ((k, l) ∷ rest) ≡ (if eqb k t then l else servers_at t rest)
unfolding lookup
servers_at-cons t k l rest = ground arith
