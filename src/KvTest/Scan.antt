-- ===== src/KvTest/Scan.antt =====
-- The loop of `CheckAppends` of src/kvtest1/kvtest.go over the entries.
use mit_6_5840_distributed_s.KvTest.Counts.{
  Clients, Ascending, numbers_of, insert-Clients, insert-Unique, after,
}
use mathlib.Core.Path.{subst}
use mit_6_5840_distributed_s.Base.Dict.{Dict, insert, lookup-insert}
use mit_6_5840_distributed_s.Base.{
  ℕ, zero, suc, ◌+◌, ◌-◌, ◌≤◌, ◌<◌, ◌≡◌, refl, ◌∙◌, ap, sym, true, false, some, List, [], ◌∷◌,
  arith, eqb, ltb, if◌then◌else◌, length, nat_eq, eqb_iff, some_inj, inl, inr, Bool-cases,
}
use mit_6_5840_distributed_s.KvTest.{EntryN, at_key, scan_entries, zeros, numbers}

-- The numbers that a client has appended, in the order of the list.
-- What the loop makes of the two maps, for each client.
pub record Scanned (es : List EntryN) (n : ℕ) (expect skipped expect' skipped' : Dict ℕ ℕ)
    : Type 0 where
  pub clients : Clients n expect'
  pub ascending : (c : ℕ) → Ascending (at_key c expect) (numbers_of c es)
  pub last : (c : ℕ) → at_key c expect' ≡ after (at_key c expect) (numbers_of c es)
  pub skips :
      (c : ℕ)
      → at_key c skipped' + length (numbers_of c es) + at_key c expect
        ≡ at_key c skipped + at_key c expect'

at_key-insert :
    (j k v : ℕ) (d : Dict ℕ ℕ) → at_key j (insert k v d) ≡ (if eqb k j then v else at_key j d)
at_key-insert j k v d = rw (at_key, lookup-insert k j v d) (ground arith)

abbrev pub AllBelow : ℕ → List EntryN → Type 0
AllBelow n [] = Unit
AllBelow n (e ∷ es) = (e.id < n) × AllBelow n es

-- One entry more at the front.
Scanned-cons :
    (e : EntryN) (es : List EntryN) (n : ℕ) (expect skipped skipped1 expect' skipped' : Dict ℕ ℕ)
    → at_key e.id expect ≤ e.n
    → ((c : ℕ)
        → at_key c skipped1
          ≡ (if eqb e.id c then at_key c skipped + (e.n - at_key c expect) else at_key c skipped))
    → Scanned es n (insert e.id (e.n + 1) expect) skipped1 expect' skipped'
    → Scanned (e ∷ es) n expect skipped expect' skipped'
Scanned-cons e es n expect skipped skipped1 expect' skipped' le sk r = record {
  clients = r.clients;
  ascending = λ c. elim (Bool-cases (eqb e.id c)) [
    | inl s ↦ rw s (
      subst (λ k. at_key k expect ≤ e.n) ((eqb_iff e.id c).0 s) le,
      subst (λ k. Ascending k (numbers_of c es)) (at_key-insert c e.id (e.n + 1) expect ∙ rw s refl)
          (r.ascending c),
    )
    | inr s ↦ rw s (
        subst (λ k. Ascending k (numbers_of c es))
          (at_key-insert c e.id (e.n + 1) expect ∙ rw s refl) (r.ascending c))
  ];
  last = λ c. elim (Bool-cases (eqb e.id c)) [
    | inl s ↦ rw s (
        r.last c
        ∙ ap (λ k. after k (numbers_of c es)) (at_key-insert c e.id (e.n + 1) expect ∙ rw s refl))
    | inr s ↦ rw s (
        r.last c
        ∙ ap (λ k. after k (numbers_of c es)) (at_key-insert c e.id (e.n + 1) expect ∙ rw s refl))
  ];
  skips = λ c. elim (Bool-cases (eqb e.id c)) [
    | inl s ↦
        let le' : at_key c expect ≤ e.n =
          subst (λ k. at_key k expect ≤ e.n) ((eqb_iff e.id c).0 s) le in
        let a : at_key c (insert e.id (e.n + 1) expect) ≡ e.n + 1 =
          at_key-insert c e.id (e.n + 1) expect ∙ rw s refl in
        let b : at_key c skipped1 ≡ at_key c skipped + (e.n - at_key c expect) = sk c ∙ rw s refl in
        rw s (omega (arith, r.skips c))
    | inr s ↦
        let a : at_key c (insert e.id (e.n + 1) expect) ≡ at_key c expect =
          at_key-insert c e.id (e.n + 1) expect ∙ rw s refl in
        let b : at_key c skipped1 ≡ at_key c skipped = sk c ∙ rw s refl in
        rw s (omega (arith, r.skips c))
  ];
}

pub scan_entries-Scanned :
    (es : List EntryN) (n : ℕ) (expect skipped expect' skipped' : Dict ℕ ℕ)
    → AllBelow n es
    → Clients n expect
    → scan_entries es expect skipped ≡ some (expect', skipped')
    → Scanned es n expect skipped expect' skipped'
unfolding scan_entries
scan_entries-Scanned [] n expect skipped expect' skipped' below cl h =
    let a : expect ≡ expect' = ap (λ p. p.0) (some_inj h) in
    let b : skipped ≡ skipped' = ap (λ p. p.1) (some_inj h) in
    rw (← a, ← b)
      (record { clients = cl; ascending = λ c. tt; last = λ c. refl; skips = λ c. omega arith })
scan_entries-Scanned (e ∷ es) n expect skipped expect' skipped' below cl h =
    let x = at_key e.id expect in
    elim (Bool-cases (ltb e.n x)) [
      | inl old ↦ absurd (cc (rw (scan_entries, old) at h))
      | inr new ↦ elim (Bool-cases (eqb x e.n)) [
        | inl same ↦
            let h' : scan_entries es (insert e.id (x + 1) expect) skipped
                ≡ some (expect', skipped') =
              rw (scan_entries, new, same) at h in
            let xn : x ≡ e.n = (eqb_iff x e.n).0 same in
            Scanned-cons e es n expect skipped skipped expect' skipped' (omega arith)
              (λ c. ground (arith, eqb_iff e.id c))
              (scan_entries-Scanned es n (insert e.id (e.n + 1) expect) skipped expect' skipped'
                below.1 (insert-Clients n e.id (e.n + 1) expect below.0 cl) (rw xn at h'))
        | inr skip ↦
            let skipped1 = insert e.id (at_key e.id skipped + (e.n - x)) skipped in
            let h' : scan_entries es (insert e.id (e.n + 1) expect) skipped1
                ≡ some (expect', skipped') =
              rw (scan_entries, new, skip) at h in
            Scanned-cons e es n expect skipped skipped1 expect' skipped' (ground arith)
              (λ c.
                at_key-insert c e.id (at_key e.id skipped + (e.n - x)) skipped
                ∙ elim (Bool-cases (eqb e.id c)) [
                  | inl i ↦
                      rw i (
                        ap (λ k. at_key k skipped + (e.n - at_key k expect)) ((eqb_iff e.id c).0 i))
                  | inr i ↦ rw i refl
                ])
              (scan_entries-Scanned es n (insert e.id (e.n + 1) expect) skipped1 expect' skipped'
                below.1 (insert-Clients n e.id (e.n + 1) expect below.0 cl) h')
      ]
    ]

-- Ascending numbers, after the first entry.
Ascending-first :
    (e : EntryN) (es : List EntryN) (from : ℕ)
    → Ascending from (numbers_of e.id (e ∷ es))
    → from ≤ e.n
Ascending-first e es from h =
    let self : eqb e.id e.id ≡ true = ground arith in
    let own : (from ≤ e.n) × Ascending (e.n + 1) (numbers_of e.id es) =
      rw (numbers_of, self) at h in
    own.0

Ascending-rest :
    (e : EntryN) (es : List EntryN) (expect : Dict ℕ ℕ)
    → ((c : ℕ) → Ascending (at_key c expect) (numbers_of c (e ∷ es)))
    → (c : ℕ) → Ascending (at_key c (insert e.id (e.n + 1) expect)) (numbers_of c es)
Ascending-rest e es expect asc c = elim (Bool-cases (eqb e.id c)) [
  | inl s ↦
      let own : (at_key c expect ≤ e.n) × Ascending (e.n + 1) (numbers_of c es) =
        rw (numbers_of, s) at (asc c) in
      subst (λ k. Ascending k (numbers_of c es))
        (sym (at_key-insert c e.id (e.n + 1) expect ∙ rw s refl)) own.1
  | inr s ↦
      let other : Ascending (at_key c expect) (numbers_of c es) = rw (numbers_of, s) at (asc c) in
      subst (λ k. Ascending k (numbers_of c es))
        (sym (at_key-insert c e.id (e.n + 1) expect ∙ rw s refl)) other
]

-- The loop passes over numbers that ascend.
pub scan_entries-some :
    (es : List EntryN) (expect skipped : Dict ℕ ℕ)
    → ((c : ℕ) → Ascending (at_key c expect) (numbers_of c es))
    → (expect' : Dict ℕ ℕ) × (skipped' : Dict ℕ ℕ) × (scan_entries es expect skipped
        ≡ some (expect', skipped'))
unfolding scan_entries
scan_entries-some [] expect skipped asc = (expect, skipped, refl)
scan_entries-some (e ∷ es) expect skipped asc =
    let low : at_key e.id expect ≤ e.n = Ascending-first e es (at_key e.id expect) (asc e.id) in
    let new : ltb e.n (at_key e.id expect) ≡ false = ground arith in
    let later = Ascending-rest e es expect asc in
    elim (Bool-cases (eqb (at_key e.id expect) e.n)) [
      | inl same ↦
          let xn : at_key e.id expect ≡ e.n = (eqb_iff (at_key e.id expect) e.n).0 same in
          let (ex, sk, r) = scan_entries-some es (insert e.id (e.n + 1) expect) skipped later in
          (
            ex,
            sk,
            rw (new, same) (ap (λ k. scan_entries es (insert e.id (k + 1) expect) skipped) xn ∙ r),
          )
      | inr skip ↦
          let (ex, sk, r) =
            scan_entries-some es (insert e.id (e.n + 1) expect)
              (insert e.id (at_key e.id skipped + (e.n - at_key e.id expect)) skipped) later in
          (ex, sk, rw (new, skip) r)
    ]

-- The maps at the beginning: every client is there, with 0.
pub zeros-Clients :
    (i k : ℕ) (d : Dict ℕ ℕ)
    → Clients i d
    → ((c : ℕ) → at_key c d ≡ 0)
    → Clients (i + k) (zeros (numbers i k) d) × ((c : ℕ) → at_key c (zeros (numbers i k) d) ≡ 0)
unfolding zeros
zeros-Clients i zero d cl z = (subst (λ n. Clients n d) (ground arith) cl, z)
zeros-Clients i (suc k) d cl z =
    let (a, b) =
      zeros-Clients (i + 1) k (insert i 0 d)
        (record {
          unique = insert-Unique i 0 d cl.unique;
          domain = λ j. rw (lookup-insert i j 0 d) (ground (arith, cl.domain j));
        })
        (λ c. at_key-insert c i 0 d ∙ ground (arith, z c)) in
    (subst (λ n. Clients n (zeros (numbers (i + 1) k) (insert i 0 d))) (ground arith) a, b)
