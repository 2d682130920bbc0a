-- ===== src/RaftTest/Terms.antt =====
-- `checkTerms` of src/raft1/test.go, on what the servers answer: whether the server is connected, its
-- term, and whether it claims to lead.

use mit_6_5840_distributed_s.Base.{
  ℕ, ◌≡◌, sym, inl, inr, Bool, true, not, Option, none, some, List, [], ◌∷◌, eqb, if◌then◌else◌,
  eqb_iff, Bool-cases, some_inj, All, ap, ◌∙◌,
}

pub record State : Type 0 where
  pub connected : Bool
  pub term : ℕ
  pub leader : Bool

-- The loop of `checkTerms`, with its term, where -1 is `none`; `none` where the servers disagree.
unfoldable pub check_terms_from : Option ℕ → List State → Option (Option ℕ)
check_terms_from term [] = some term
check_terms_from none (s ∷ states) =
    if s.connected then check_terms_from (some s.term) states else check_terms_from none states
check_terms_from (some t) (s ∷ states) =
    let rest = check_terms_from (some t) states in
    if s.connected then (if not (eqb t s.term) then none else rest) else rest

unfoldable pub check_terms : List State → Option (Option ℕ)
unfolding check_terms_from
check_terms states = check_terms_from none states

check_terms_from-same :
    (t : ℕ) (states : List State) (o : Option ℕ)
    → check_terms_from (some t) states ≡ some o
    → (o ≡ some t) × All (λ s. s.connected ≡ true → s.term ≡ t) states
unfolding check_terms_from
check_terms_from-same t [] o h = (sym (some_inj h), tt)
check_terms_from-same t (s ∷ states) o h = elim (Bool-cases s.connected) [
  | inr off ↦
      let (p, q) = check_terms_from-same t states o (rw (check_terms_from, off) at h) in
      (p, ((λ on. absurd (cc (off, on))), q))
  | inl on ↦ elim (Bool-cases (eqb t s.term)) [
    | inr d ↦ absurd (cc (rw (check_terms_from, on, d) at h))
    | inl e ↦
        let (p, q) = check_terms_from-same t states o (rw (check_terms_from, on, e) at h) in
        (p, ((λ on. sym ((eqb_iff t s.term).0 e)), q))
  ]
]

check_terms_from-none :
    (states : List State) (o : Option ℕ)
    → check_terms_from none states ≡ some o
    → All (λ s. s.connected ≡ true → o ≡ some s.term) states
unfolding check_terms_from
check_terms_from-none [] o h = tt
check_terms_from-none (s ∷ states) o h = elim (Bool-cases s.connected) [
  | inr off ↦ (
    (λ on. absurd (cc (off, on))),
    check_terms_from-none states o (rw (check_terms_from, off) at h),
  )
  | inl on ↦
      let (p, q) = check_terms_from-same s.term states o (rw (check_terms_from, on) at h) in
      ((λ c. p), All_same s.term states o p q)
]
  where
    All_same :
        (t : ℕ) (states : List State) (o : Option ℕ)
        → o ≡ some t
        → All (λ s. s.connected ≡ true → s.term ≡ t) states
        → All (λ s. s.connected ≡ true → o ≡ some s.term) states
    All_same t [] o p q = tt
    All_same t (s ∷ states) o p q = ((λ c. p ∙ ap some (sym (q.0 c))), All_same t states o p q.1)

-- If `checkTerms` passes with a term, then every connected server is in that term; and if it passes
-- with none, then no server is connected.
pub check_terms-same :
    (states : List State) (o : Option ℕ)
    → check_terms states ≡ some o
    → All (λ s. s.connected ≡ true → o ≡ some s.term) states
unfolding check_terms
check_terms-same states o h = check_terms_from-none states o h
