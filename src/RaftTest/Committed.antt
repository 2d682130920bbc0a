-- ===== src/RaftTest/Committed.antt =====
-- What a count of `nCommitted` of src/raft1/test.go says of the servers' logs.
use mit_6_5840_distributed_s.Base.{string_eq, nat_eq}
use mit_6_5840_distributed_s.Base.{
  ℕ, suc, ◌≡◌, ap, ◌⊎◌, inl, inr, false, Option, none, some, List, [], ◌∷◌, arith, All, Key, nat_eq,
  ◌+◌, sym, ◌∙◌, Bool-cases, Option-cases, str_eq_iff, ◌==◌,
}
use mit_6_5840_distributed_s.RaftTest.{
  RaftServer, entry, mismatch, counted, n_committed_from, Test, n_committed,
}

counted_inj : {V : Type 0} {m n : ℕ} {c d : Option V} → counted m c ≡ counted n d → m ≡ n
counted_inj h = cc

cmd_inj : {V : Type 0} {m n : ℕ} {c d : Option V} → counted m c ≡ counted n d → c ≡ d
cmd_inj h = cc

module _ {V : Type 0} ⦃key : Key V⦄ where
  -- How many servers have an entry at the index.
  abbrev pub holders : ℕ → List (RaftServer V) → ℕ
  holders index [] = 0
  holders index (rs ∷ srvs) = elim (entry rs index) [
    | none ↦ holders index srvs
    | some v ↦ suc (holders index srvs)
  ]

  -- Every server's entry at the index, if it has one, is the command, and no server has failed.
  abbrev pub AllHold : ℕ → Option V → List (RaftServer V) → Type 0
  AllHold index cmd srvs =
      All (λ rs. (rs.apply_err ≡ "") × ((entry rs index ≡ none) ⊎ (entry rs index ≡ cmd))) srvs

  mismatch-false : (count : ℕ) (x v : V) → mismatch (suc count) (some x) v ≡ false → v ≡ x
  unfolding mismatch
  mismatch-false count x v h = sym ((key.same_iff x v).0 (ground (arith, h)))

  -- The loop after a first entry.
  n_committed_from-AllHold :
      (index : ℕ) (srvs : List (RaftServer V)) (count : ℕ) (x : V) (n : ℕ) (c : Option V)
      → n_committed_from index srvs (suc count) (some x) ≡ counted n c
      → (n ≡ suc count + holders index srvs) × (c ≡ some x) × AllHold index c srvs
  unfolding n_committed_from
  n_committed_from-AllHold index [] count x n c h =
      (omega (arith, counted_inj h), sym (cmd_inj h), tt)
  n_committed_from-AllHold index (rs ∷ srvs) count x n c h =
      elim (Bool-cases (rs.apply_err == "")) [
        | inr bad ↦ absurd (cc (rw (n_committed_from, bad) at h))
        | inl fine ↦
            let h1 = rw (n_committed_from, fine) at h in
            let ok = (str_eq_iff rs.apply_err "").0 fine in
            elim (Option-cases (entry rs index)) [
              | inl e ↦
                  let (p, q, r) = n_committed_from-AllHold index srvs count x n c (rw e at h1) in
                  (rw (holders, e) p, q, ((ok, inl e), r))
              | inr (v, e) ↦ elim (Bool-cases (mismatch (suc count) (some x) v)) [
                | inl m ↦ absurd (cc (rw (e, m) at h1))
                | inr m ↦
                    let (p, q, r) =
                      n_committed_from-AllHold index srvs (suc count) v n c (rw (e, m) at h1) in
                    (
                      rw (holders, e) (omega (arith, p)),
                      q ∙ ap some (mismatch-false count x v m),
                      ((ok, inr (e ∙ sym q)), r),
                    )
              ]
            ]
      ]

  n_committed_start :
      (index : ℕ) (srvs : List (RaftServer V)) (n : ℕ) (c : Option V)
      → n_committed_from index srvs 0 none ≡ counted n c
      → (n ≡ holders index srvs) × AllHold index c srvs
  unfolding n_committed_from mismatch
  n_committed_start index [] n c h = (sym (counted_inj h), tt)
  n_committed_start index (rs ∷ srvs) n c h = elim (Bool-cases (rs.apply_err == "")) [
    | inr bad ↦ absurd (cc (rw (n_committed_from, bad) at h))
    | inl fine ↦
        let h1 = rw (n_committed_from, fine) at h in
        let ok = (str_eq_iff rs.apply_err "").0 fine in
        elim (Option-cases (entry rs index)) [
          | inl e ↦
              let (p, r) = n_committed_start index srvs n c (rw e at h1) in
              (rw (holders, e) p, ((ok, inl e), r))
          | inr (v, e) ↦
              let (p, q, r) = n_committed_from-AllHold index srvs 0 v n c (rw e at h1) in
              (rw (holders, e) (omega (arith, p)), ((ok, inr (e ∙ sym q)), r))
        ]
  ]

  -- If `nCommitted` gives a count and a command, then the count is the number of servers with an entry
  -- at the index, each of those entries is the command, and no server has an apply error.
  pub n_committed-AllHold :
      (index : ℕ) (ts : Test V) (n : ℕ) (c : Option V)
      → n_committed index ts ≡ counted n c
      → (n ≡ holders index ts.srvs) × AllHold index c ts.srvs
  unfolding n_committed
  n_committed-AllHold index ts n c h = n_committed_start index ts.srvs n c h
