-- ===== src/RaftTest/Agree.antt =====
-- `CheckLogs` of src/raft1/test.go, and servers whose logs agree.
use mathlib.Core.Path.{subst}
use mit_6_5840_distributed_s.Base.Dict.{insert, lookup-insert}
use mit_6_5840_distributed_s.Base.{
  ℕ, zero, suc, ◌+◌, ◌≡◌, refl, sym, ap, ◌∙◌, inl, inr, Bool, false, Option, none, some, List, [],
  ◌∷◌, arith, eqb, if◌then◌else◌, Bool-cases, Option-cases, some_inj, get_elem?, set, Key, nat_eq,
  ◌⊎◌, eqb_iff,
}
use mit_6_5840_distributed_s.RaftTest.{RaftServer, Test, entry, differs, conflicts, check_logs}

-- What server `i` has at an index.
abbrev pub log_at : {V : Type 0} → List (RaftServer V) → ℕ → ℕ → Option V
log_at [] i index = none
log_at (rs ∷ srvs) zero index = entry rs index
log_at (rs ∷ srvs) (suc i) index = log_at srvs i index

-- No two servers have different commands at one index.
abbrev pub Agree : {V : Type 0} → List (RaftServer V) → Type 0
Agree {V} srvs =
    (i j index : ℕ) (v w : V) → log_at srvs i index ≡ some v → log_at srvs j index ≡ some w → v ≡ w

pub log_at-set :
    {V : Type 0} (srvs : List (RaftServer V)) (i j index k : ℕ) (v : V) {me : RaftServer V}
    → get_elem? srvs i ≡ some me
    → log_at (set srvs i (record me { logs = insert index v me.logs })) j k
      ≡ (if eqb i j then (if eqb index k then some v else log_at srvs j k) else log_at srvs j k)
log_at-set [] i j index k v g = absurd (cc)
log_at-set (rs ∷ srvs) zero zero index k v {me} g =
    lookup-insert index k v me.logs
    ∙ ap (λ r. if eqb index k then some v else entry r k) (sym (some_inj g))
log_at-set (rs ∷ srvs) zero (suc j) index k v g = ground arith
log_at-set (rs ∷ srvs) (suc i) zero index k v g = ground arith
log_at-set (rs ∷ srvs) (suc i) (suc j) index k v g = ground (arith, log_at-set srvs i j index k v g)

module _ {V : Type 0} ⦃key : Key V⦄ where
  conflicts-some :
      (j index : ℕ) (v : V) (srvs : List (RaftServer V)) (k : ℕ)
      → (l : ℕ) × (conflicts j index v srvs (some k) ≡ some l)
  unfolding conflicts
  conflicts-some j index v [] k = (k, refl)
  conflicts-some j index v (rs ∷ srvs) k = elim (Bool-cases (differs (entry rs index) v)) [
    | inl e ↦ rw e (conflicts-some (j + 1) index v srvs j)
    | inr e ↦ rw e (conflicts-some (j + 1) index v srvs k)
  ]

  differs-false : (o : Option V) (v w : V) → differs o v ≡ false → o ≡ some w → w ≡ v
  unfolding differs
  differs-false none v w d e = absurd (cc)
  differs-false (some old) v w d e = some_inj (sym e) ∙ (key.same_iff old v).0 (ground arith)

  -- If no conflict is reported, every entry at the index is the command.
  conflicts-none :
      (j index : ℕ) (v : V) (srvs : List (RaftServer V)) (i : ℕ) (w : V)
      → conflicts j index v srvs none ≡ none
      → log_at srvs i index ≡ some w
      → w ≡ v
  unfolding conflicts
  conflicts-none j index v [] i w h e = absurd (cc)
  conflicts-none j index v (rs ∷ srvs) i w h e = elim (Bool-cases (differs (entry rs index) v)) [
    | inl d ↦
        let (l, c) = conflicts-some (j + 1) index v srvs j in
        absurd (cc (rw (conflicts, d) at h, c))
    | inr d ↦
        elim i as (λ i. log_at (rs ∷ srvs) i index ≡ some w → w ≡ v) [
          | zero ↦ λ e. differs-false (entry rs index) v w d e
          | suc i' ↦ λ e. conflicts-none (j + 1) index v srvs i' w (rw (conflicts, d) at h) e
        ]
          e
  ]

  seen :
      (srvs : List (RaftServer V)) (i a index k : ℕ) (v x : V) {me : RaftServer V}
      → get_elem? srvs i ≡ some me
      → log_at (set srvs i (record me { logs = insert index v me.logs })) a k ≡ some x
      → (log_at srvs a k ≡ some x) ⊎ ((index ≡ k) × (x ≡ v))
  seen srvs i a index k v x g e = elim (Bool-cases (eqb i a)) [
    | inr n ↦ inl (ground (arith, log_at-set srvs i a index k v g, e, n))
    | inl y ↦ elim (Bool-cases (eqb index k)) [
      | inr n ↦ inl (ground (arith, log_at-set srvs i a index k v g, e, n, y))
      | inl z ↦ inr (
        (eqb_iff index k).0 z,
        some_inj (sym e ∙ (log_at-set srvs i a index k v g ∙ rw (y, z) refl)),
      )
    ]
  ]

  written_agrees :
      (srvs : List (RaftServer V)) (i index : ℕ) (v : V) {me : RaftServer V}
      → get_elem? srvs i ≡ some me
      → conflicts 0 index v srvs none ≡ none
      → Agree srvs
      → Agree (set srvs i (record me { logs = insert index v me.logs }))
  written_agrees srvs i index v g c agree a b k x y ea eb = elim (seen srvs i a index k v x g ea) [
    | inl old ↦ elim (seen srvs i b index k v y g eb) [
      | inl old' ↦ agree a b k x y old old'
      | inr (here, new) ↦ conflicts-none 0 index v srvs a x c (rw here old) ∙ sym new
    ]
    | inr (here, new) ↦ elim (seen srvs i b index k v y g eb) [
      | inl old ↦ new ∙ sym (conflicts-none 0 index v srvs b y c (rw here old))
      | inr (here', new') ↦ new ∙ sym new'
    ]
  ]

  -- If `CheckLogs` reports no conflict, then servers whose logs agreed before agree after it.
  pub check_logs-Agree :
      (i index : ℕ) (v : V) (ts ts' : Test V) (prevok : Bool)
      → Agree ts.srvs
      → check_logs i index v ts ≡ some (none, prevok, ts')
      → Agree ts'.srvs
  unfolding check_logs
  check_logs-Agree i index v ts ts' prevok agree run = elim (Option-cases (get_elem? ts.srvs i)) [
    | inl e ↦ absurd (cc (rw (check_logs, e) at run))
    | inr (me, e) ↦
        let out = some_inj (rw (check_logs, e) at run) in
        subst Agree (ap (λ o. o.2.srvs) out)
          (written_agrees ts.srvs i index v e (ap (λ o. o.0) out) agree)
  ]
