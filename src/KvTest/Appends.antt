-- ===== src/KvTest/Appends.antt =====
-- What `CheckAppends` of src/kvtest1/kvtest.go accepts.
use mathlib.Core.Path.{subst}
use mit_6_5840_distributed_s.Base.Dict.{Dict, lookup}
use mit_6_5840_distributed_s.Base.{
  ℕ, zero, suc, ◌+◌, ◌≤◌, ◌<◌, ◌≡◌, refl, ◌∙◌, ap, sym, ◌↔◌, true, false, some, List, [], ◌∷◌,
  arith, eqb, ltb, length, get_elem?, nat_eq, Option-cases, Bool-cases, inl, inr, eqb_iff, suc,
  ltb→lt,
}
use mit_6_5840_distributed_s.KvTest.Counts.{
  numbers_of, Ascending, after, Clients, within_of_all_within, all_within_of_within, and_both,
}
use mit_6_5840_distributed_s.KvTest.Scan.{
  AllBelow, Scanned, zeros-Clients, scan_entries-Scanned, scan_entries-some,
}
use mit_6_5840_distributed_s.KvTest.{
  EntryN, ClntRes, check_appends, scan_entries, zeros, all_within, at_key, numbers, within,
}

-- What a client's entries have to be: ascending from 0, with no more gaps than the client has puts that
-- may have failed, and not beyond the client's puts.
abbrev pub Plausible : List ℕ → ClntRes → Type 0
Plausible ns r =
    Ascending 0 ns × (after 0 ns ≤ length ns + r.n_maybe) × (after 0 ns ≤ r.n_ok + r.n_maybe)

abbrev start : ℕ → Dict ℕ ℕ
start n = zeros (numbers 0 n) []

start-Clients : (n : ℕ) → Clients n (start n) × ((c : ℕ) → at_key c (start n) ≡ 0)
unfolding lookup
start-Clients n =
    let (a, b) =
      zeros-Clients 0 n [] (record { unique = tt; domain = λ c. ground arith }) (λ c. refl) in
    (subst (λ k. Clients k (start n)) (ground arith) a, b)

-- A map that the loop has made, for a client that is in it.
at_domain : (n c : ℕ) (d : Dict ℕ ℕ) → Clients n d → c < n → lookup c d ≡ some (at_key c d)
at_domain n c d cl h = elim (Option-cases (lookup c d)) [
  | inl e ↦ absurd (ground (arith, cl.domain c))
  | inr (v, e) ↦ e ∙ ap some (sym (rw (at_key, e) refl))
]

-- If the check passes, then every client's entries are plausible.
passes-Plausible :
    (es : List EntryN) (n : ℕ) (rs : List ClntRes) (ver : ℕ)
    → AllBelow n es
    → check_appends es n rs ver ≡ true
    → (length es + 1 ≡ ver)
      × ((c : ℕ) (r : ClntRes) → c < n → get_elem? rs c ≡ some r → Plausible (numbers_of c es) r)
unfolding check_appends
passes-Plausible es n rs ver below h = elim (Option-cases (scan_entries es (start n) (start n))) [
  | inl e ↦ absurd (cc (rw (check_appends, e) at h))
  | inr ((ex, sk), e) ↦
      let (cl, z) = start-Clients n in
      let (len, all) =
        and_both (eqb (length es + 1) ver) (all_within ex sk rs) (rw (check_appends, e) at h) in
      let s = scan_entries-Scanned es n (start n) (start n) ex sk below cl e in
      (
        (eqb_iff (length es + 1) ver).0 len,
        λ c r lc er.
            let w : within (at_key c sk) (at_key c ex) (some r) ≡ true =
              rw er at (
                within_of_all_within ex sk rs c (at_key c ex) all
                  (at_domain n c ex s.clients lc)) in
            let l : at_key c ex ≡ after 0 (numbers_of c es) =
              s.last c ∙ ap (λ k. after k (numbers_of c es)) (z c) in
            (
              subst (λ k. Ascending k (numbers_of c es)) (z c) (s.ascending c),
              ground (arith, s.skips c, z c),
              ground arith,
            ),
      )
]

numbers_of_above : (es : List EntryN) (n c : ℕ) → AllBelow n es → n ≤ c → numbers_of c es ≡ []
numbers_of_above [] n c below h = refl
numbers_of_above (e ∷ es) n c below h =
    let apart : eqb e.id c ≡ false = ground (arith, below.0) in
    rw apart (numbers_of_above es n c below.1 h)

elem_below : (rs : List ClntRes) (c : ℕ) → c < length rs → (r : ClntRes) × (get_elem? rs c ≡ some r)
elem_below [] c h = absurd (omega arith)
elem_below (r ∷ rs) zero h = (r, refl)
elem_below (r ∷ rs) (suc c) h = elem_below rs c (omega arith)

-- Plausible entries are within what the clients have counted.
within_lem :
    (c : ℕ) (es : List EntryN) (n : ℕ) (ex sk : Dict ℕ ℕ) (r : ClntRes)
    → Scanned es n (start n) (start n) ex sk
    → Plausible (numbers_of c es) r
    → within (at_key c sk) (at_key c ex) (some r) ≡ true
within_lem c es n ex sk r s h =
    let (cl, z) = start-Clients n in
    let l : at_key c ex ≡ after 0 (numbers_of c es) =
      s.last c ∙ ap (λ k. after k (numbers_of c es)) (z c) in
    ground (arith, s.skips c, z c)

-- And if they are plausible, then it passes.
Plausible-passes :
    (es : List EntryN) (n : ℕ) (rs : List ClntRes) (ver : ℕ)
    → AllBelow n es
    → n ≤ length rs
    → length es + 1 ≡ ver
    → ((c : ℕ) (r : ClntRes) → c < n → get_elem? rs c ≡ some r → Plausible (numbers_of c es) r)
    → check_appends es n rs ver ≡ true
unfolding check_appends
Plausible-passes es n rs ver below enough len h =
    let (cl, z) = start-Clients n in
    let (ex, sk, e) =
      scan_entries-some es (start n) (start n)
        (λ c. subst (λ k. Ascending k (numbers_of c es)) (sym (z c)) (asc c)) in
    let s = scan_entries-Scanned es n (start n) (start n) ex sk below cl e in
    let all : all_within ex sk rs ≡ true = all_within_of_within ex sk rs s.clients.unique (λ c v ec.
      let lc : c < n = ground (arith, s.clients.domain c) in
      let (r, er) = elem_below rs c (omega arith) in
      let vx : at_key c ex ≡ v = rw (at_key, ec) refl in
      rw (er, ← vx) (within_lem c es n ex sk r s (h c r lc er))) in
    rw (e, all) (ground arith)
  where
    asc : (c : ℕ) → Ascending 0 (numbers_of c es)
    asc c = elim (Bool-cases (ltb c n)) [
      | inl lt ↦
          let lc : c < n = ltb→lt c n lt in
          let (r, er) = elem_below rs c (omega arith) in (h c r lc er).0
      | inr ge ↦ rw (numbers_of_above es n c below (ground arith)) tt
    ]

-- When the entries name only the clients of the test, and there is a result for each of them,
-- `CheckAppends` passes exactly if the version is one more than the number of entries and each client's
-- numbers ascend from 0, leave out no more numbers than the client had puts that may have failed, and
-- stay below the number of its puts that came through or may have.
pub check_appends-Plausible :
    (es : List EntryN) (n : ℕ) (rs : List ClntRes) (ver : ℕ)
    → AllBelow n es
    → n ≤ length rs
    → (check_appends es n rs ver ≡ true) ↔ (
        (length es + 1 ≡ ver)
        × ((c : ℕ) (r : ClntRes) → c < n → get_elem? rs c ≡ some r → Plausible (numbers_of c es) r))
check_appends-Plausible es n rs ver below enough =
    (passes-Plausible es n rs ver below, λ h. Plausible-passes es n rs ver below enough h.0 h.1)
