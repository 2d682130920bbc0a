-- ===== src/RaftTest/Applied.antt =====
-- What the appliers of src/raft1/server.go leave in the logs of src/raft1/test.go.

use mit_6_5840_distributed_s.Base.Dict.{insert}
use mit_6_5840_distributed_s.Base.{
  ℕ, zero, suc, ◌≡◌, ap, inl, inr, Bool, true, Option, some, List, [], ◌∷◌, Option-cases, some_inj,
  get_elem?, set, Key, nat_eq, ◌∙◌, false, not, ◌&&◌, arith, ltb, eqb, Bool-cases, String, refl,
  none, string_eq,
}
use mit_6_5840_distributed_s.RaftTest.{RaftServer, Test, entry, prev_entry, check_logs, apply_error}
use mathlib.Core.Path.{subst}
use mit_6_5840_distributed_s.RaftTest.Applier.{
  ApplyMsg, command, not_command, ApplyFault, fault_of, report, apply_msg, note, apply_all,
}
use mit_6_5840_distributed_s.RaftTest.Agree.{log_at, Agree, log_at-set, check_logs-Agree}

-- Each log has an entry at every index from 1 to its last one.
abbrev pub Gapless : {V : Type 0} → List (RaftServer V) → Type 0
Gapless {V} srvs =
    (i index : ℕ) (v : V)
    → log_at srvs i (suc (suc index)) ≡ some v
    → (w : V) × (log_at srvs i (suc index) ≡ some w)

get-log_at :
    {V : Type 0} (srvs : List (RaftServer V)) (i index : ℕ) {me : RaftServer V}
    → get_elem? srvs i ≡ some me
    → log_at srvs i index ≡ entry me index
get-log_at [] i index g = absurd (cc)
get-log_at (rs ∷ srvs) zero index g = ap (λ s. entry s index) (some_inj g)
get-log_at (rs ∷ srvs) (suc i) index g = get-log_at srvs i index g

order_lem :
    (index k : ℕ) (known : ℕ → Bool)
    → index ≡ suc (suc k)
    → (ltb 1 index && not (known index)) ≡ false
    → known (suc (suc k)) ≡ true
order_lem index k known here ordered =
    let ordered' : (ltb 1 (suc (suc k)) && not (known (suc (suc k)))) ≡ false =
      subst (λ i. (ltb 1 i && not (known i)) ≡ false) here ordered in
    ground (arith, ordered')

fault_of-none :
    (c : Option ℕ) (prevok : Bool) (index : ℕ)
    → fault_of c prevok index ≡ none
    → (c ≡ none) × ((ltb 1 index && not prevok) ≡ false)
fault_of-none none prevok index h = (refl, ground (arith, h))
fault_of-none (some j) prevok index h = absurd (ground (arith, h))

note-nil :
    (o : Option ApplyFault) (faults : List ApplyFault)
    → note o faults ≡ []
    → (o ≡ none) × (faults ≡ [])
note-nil none faults h = (refl, h)
note-nil (some fault) faults h = absurd (cc)

module _ {V : Type 0} ⦃key : Key V⦄ where
  -- What `CheckLogs` writes.
  record Written (i index : ℕ) (v : V) (ts ts' : Test V) (prevok : Bool) : Type 0 where
    me : RaftServer V
    mine : get_elem? ts.srvs i ≡ some me
    before : prev_entry me index ≡ prevok
    srvs_is : set ts.srvs i (record me { logs = insert index v me.logs }) ≡ ts'.srvs

  check_logs-Written :
      (i index : ℕ) (v : V) (ts ts' : Test V) (c : Option ℕ) (prevok : Bool)
      → check_logs i index v ts ≡ some (c, prevok, ts')
      → Written i index v ts ts' prevok
  unfolding check_logs
  check_logs-Written i index v ts ts' c prevok run = elim (Option-cases (get_elem? ts.srvs i)) [
    | inl e ↦ absurd (cc (rw (check_logs, e) at run))
    | inr (me, e) ↦
        let out = some_inj (rw (check_logs, e) at run) in
        record { me = me; mine = e; before = ap (λ o. o.1) out; srvs_is = ap (λ o. o.2.srvs) out }
  ]

  -- An entry that was there is still there, perhaps with another command.
  still :
      (srvs : List (RaftServer V)) (i a index k : ℕ) (v x : V) {me : RaftServer V}
      → get_elem? srvs i ≡ some me
      → log_at srvs a k ≡ some x
      → (w : V) × (log_at (set srvs i (record me { logs = insert index v me.logs })) a k ≡ some w)
  still srvs i a index k v x g e = elim (Bool-cases (eqb i a && eqb index k)) [
    | inl y ↦ (v, ground (arith, log_at-set srvs i a index k v g, y))
    | inr n ↦ (x, ground (arith, log_at-set srvs i a index k v g, n, e))
  ]

  prev_entry-some :
      (me : RaftServer V) (index : ℕ)
      → prev_entry me (suc index) ≡ true
      → (w : V) × (entry me index ≡ some w)
  prev_entry-some me index h = elim (Option-cases (entry me index)) [
    | inl e ↦ absurd (cc (rw (prev_entry, e) at h))
    | inr p ↦ p
  ]

  -- The entry before one of the new log was there.
  behind :
      (srvs : List (RaftServer V)) (i a index k : ℕ) (v x : V) {me : RaftServer V}
      → get_elem? srvs i ≡ some me
      → Gapless srvs
      → (ltb 1 index && not (prev_entry me index)) ≡ false
      → log_at (set srvs i (record me { logs = insert index v me.logs })) a (suc (suc k)) ≡ some x
      → (w : V) × (log_at srvs a (suc k) ≡ some w)
  behind srvs i a index k v x {me} g gapless ordered e =
      elim (Bool-cases (eqb i a && eqb index (suc (suc k)))) [
        | inr n ↦ gapless a k x (ground (arith, log_at-set srvs i a index (suc (suc k)) v g, n, e))
        | inl y ↦
            let server : i ≡ a = ground (arith, y) in
            let here : index ≡ suc (suc k) = ground (arith, y) in
            let ok : prev_entry me (suc (suc k)) ≡ true =
              order_lem index k (prev_entry me) here ordered in
            let (w, found) = prev_entry-some me (suc k) ok in
            (
              w,
              subst (λ a. log_at srvs a (suc k) ≡ some w) server
                  (get-log_at srvs i (suc k) g ∙ found),
            )
      ]

  abbrev pub Sound : Test V → Type 0
  Sound ts = Agree ts.srvs × Gapless ts.srvs

  check_logs-Sound :
      (i index : ℕ) (v : V) (ts ts' : Test V) (prevok : Bool)
      → Sound ts
      → (ltb 1 index && not prevok) ≡ false
      → check_logs i index v ts ≡ some (none, prevok, ts')
      → Sound ts'
  check_logs-Sound i index v ts ts' prevok sound ordered run =
      let written = check_logs-Written i index v ts ts' none prevok run in
      let ok : (ltb 1 index && not (prev_entry written.me index)) ≡ false =
        rw written.before ordered in
      (
        check_logs-Agree i index v ts ts' prevok sound.0 run,
        subst Gapless written.srvs_is (λ a k x e.
            let (w, found) = behind ts.srvs i a index k v x written.mine sound.1 ok e in
            still ts.srvs i a index (suc k) v w written.mine found),
      )

  module _ (text : ℕ → ℕ → V → ApplyFault → String) where
    report-none :
        (i index : ℕ) (v : V) (fault : Option ApplyFault) (ts ts' : Test V)
        → report text i index v fault ts ≡ some (none, ts')
        → (fault ≡ none) × (ts ≡ ts')
    report-none i index v none ts ts' h = (refl, ap (λ o. o.1) (some_inj h))
    report-none i index v (some fault) ts ts' h =
        elim (Option-cases (apply_error i (text i index v fault) ts)) [
          | inl e ↦ absurd (cc (rw (report, e) at h))
          | inr (ts2, e) ↦ absurd (cc (rw (report, e) at h))
        ]

    apply_msg-Sound :
        (i : ℕ) (m : ApplyMsg V) (ts ts' : Test V)
        → Sound ts
        → apply_msg text i m ts ≡ some (none, ts')
        → Sound ts'
    unfolding apply_msg
    apply_msg-Sound i not_command ts ts' sound run =
        subst Sound (ap (λ o. o.1) (some_inj run)) sound
    apply_msg-Sound i (command index v) ts ts' sound run =
        elim (Option-cases (check_logs i index v ts)) [
          | inl e ↦ absurd (cc (rw (apply_msg, e) at run))
          | inr (r, e) ↦
              let reported : report text i index v (fault_of r.0 r.1 index) r.2 ≡ some (none, ts') =
                rw (apply_msg, e) at run in
              let (clean, same) = report-none i index v (fault_of r.0 r.1 index) r.2 ts' reported in
              let (unopposed, ordered) = fault_of-none r.0 r.1 index clean in
              subst Sound same (
                check_logs-Sound i index v ts r.2 r.1 sound ordered
                  (e ∙ ap (λ c. some (c, r.1, r.2)) unopposed))
        ]

    -- If the servers' logs agree and have no gap, and the appliers then report no error, whatever they are
    -- sent and in whatever order they run, then the logs agree and have no gap afterwards.
    pub apply_all-Sound :
        (ms : List (ℕ × ApplyMsg V)) (ts ts' : Test V)
        → Sound ts
        → apply_all text ms ts ≡ some ([], ts')
        → Sound ts'
    unfolding apply_all
    apply_all-Sound [] ts ts' sound run = subst Sound (ap (λ o. o.1) (some_inj run)) sound
    apply_all-Sound ((i, m) ∷ ms) ts ts' sound run = elim (Option-cases (apply_msg text i m ts)) [
      | inl e ↦ absurd (cc (rw (apply_all, e) at run))
      | inr (r, e) ↦ elim (Option-cases (apply_all text ms r.1)) [
        | inl e' ↦ absurd (cc (rw (apply_all, e, e') at run))
        | inr (rest, e') ↦
            let out = some_inj (rw (apply_all, e, e') at run) in
            let (clean, later) = note-nil r.0 rest.0 (ap (λ o. o.0) out) in
            apply_all-Sound ms r.1 ts'
              (apply_msg-Sound i m ts r.1 sound (e ∙ ap (λ f. some (f, r.1)) clean))
              (e' ∙ (ap (λ f. some (f, rest.1)) later ∙ ap (λ t. some ([], t)) (ap (λ o. o.1) out)))
      ]
    ]
