-- ===== src/RaftTest/Snapshot.antt =====
-- src/raft1/server.go: the state machine of a raft server in the tests, which applies commands and
-- snapshots from the apply channel. A snapshot is the list that it encodes, with its last index; one
-- that is nil or does not decode is `none`. `nil` is the value of a missing log entry. What the tester
-- answers to `CheckLogs` is an argument.
use mathlib.Core.Path.{subst}
use mit_6_5840_distributed_s.Base.Dict.{Dict, insert, lookup, lookup-insert, same_self}
use mit_6_5840_distributed_s.Base.{
  nat_eq, ℕ, zero, suc, ◌+◌, ◌%◌, ◌≡◌, ◌∙◌, Bool, not, ◌&&◌, Option, none, some, List, [], ◌∷◌,
  arith, ltb, leb, eqb, if◌then◌else◌, ◌≤◌, ap, inl, inr, eqb_iff, Bool-cases, refl, some_inj, true,
  false,
}

pub record RfSrv (V : Type 0) : Type 0 where
  pub last_applied : ℕ
  pub log : Dict ℕ V

abbrev pub new_rf_srv : {V : Type 0} → RfSrv V
new_rf_srv = record { last_applied = 0; log = [] }

pub record SnapshotData (V : Type 0) : Type 0 where
  pub last_included_index : ℕ
  pub xlog : List V

pub data SrvError : Type 0 where
  bad_snapshot : SrvError
  wrong_index : SrvError
  out_of_order : SrvError
  conflict : SrvError
  err_rpc : SrvError

-- `err_msg == "ErrRPC"`: the call of `CheckLogs` failed.
abbrev pub is_err_rpc : Option SrvError → Bool
is_err_rpc (some err_rpc) = true
is_err_rpc _ = false

abbrev pub interval : ℕ
interval = 10

abbrev pub or_else : {V : Type 0} → V → Option V → V
or_else d none = d
or_else d (some v) = v

module _ {V : Type 0} where
  -- `rs.log[j] = xlog[j]` for every `j` from `j` on.
  unfoldable pub load_log : ℕ → List V → Dict ℕ V → Dict ℕ V
  unfolding insert
  load_log j [] log = log
  load_log j (v ∷ xlog) log = load_log (j + 1) xlog (insert j v log)

  -- `ingestSnap`; the index -1 is `none`. A refused snapshot changes nothing.
  unfoldable pub ingest_snap :
      Option (SnapshotData V) → Option ℕ → RfSrv V → Option SrvError × RfSrv V
  unfolding load_log
  ingest_snap none index rs = (some bad_snapshot, rs)
  ingest_snap (some sn) none rs =
      (none, record { last_applied = sn.last_included_index; log = load_log 0 sn.xlog [] })
  ingest_snap (some sn) (some index) rs =
      if not (eqb index sn.last_included_index)
      then (some wrong_index, rs)
      else (none, record { last_applied = sn.last_included_index; log = load_log 0 sn.xlog [] })

  -- `xlog[j] = rs.log[j]` for `n` entries from `j` on.
  unfoldable pub read_log : V → ℕ → ℕ → Dict ℕ V → List V
  unfolding lookup
  read_log nil zero j log = []
  read_log nil (suc n) j log = or_else nil (lookup j log) ∷ read_log nil n (j + 1) log

  -- A command of `applierSnap`: the error, the snapshot that is made, and the state. The answer of
  -- `CheckLogs` is its error and whether the entry before is known.
  unfoldable pub apply_command :
      V
      → Option SrvError × Bool
      → ℕ
      → V
      → RfSrv V
      → Option SrvError × Option (SnapshotData V) × RfSrv V
  unfolding read_log insert
  apply_command nil checked index v rs =
      let rs' : RfSrv V = record { last_applied = index; log = insert index v rs.log } in
      (
        if not (eqb index (rs.last_applied + 1))
            then some out_of_order
            else if not (is_err_rpc checked.0) && (ltb 1 index && not checked.1)
            then some out_of_order
            else checked.0,
        if eqb ((index + 1) % interval) 0
            then some
                (record { last_included_index = index; xlog = read_log nil (index + 1) 0 rs'.log })
            else none,
        rs',
      )

  lookup-load_log :
      (nil : V) (n j k : ℕ) (log base : Dict ℕ V)
      → lookup k (load_log j (read_log nil n j log) base)
        ≡ (if leb j k && ltb k (j + n) then some (or_else nil (lookup k log)) else lookup k base)
  unfolding load_log read_log
  lookup-load_log nil zero j k log base = ground arith
  lookup-load_log nil (suc n) j k log base =
      let v = or_else nil (lookup j log) in
      lookup-load_log nil n (j + 1) k log (insert j v base) ∙ elim (Bool-cases (eqb j k)) [
        | inr d ↦ ground (arith, lookup-insert j k v base, d)
        | inl e ↦
            let same = (eqb_iff j k).0 e in
            ground
              (arith, lookup-insert j k v base, e, same, ap (λ i. or_else nil (lookup i log)) same)
      ]

  -- What a server that ingests a snapshot of `rs` has.
  abbrev pub Copied : V → ℕ → RfSrv V → Option SrvError × RfSrv V → Type 0
  Copied nil index rs r =
      (r.0 ≡ none)
      × (r.1.last_applied ≡ rs.last_applied)
      × ((k : ℕ) → k ≤ index → lookup k r.1.log ≡ some (or_else nil (lookup k rs.log)))

  taken : V → ℕ → Dict ℕ V → SnapshotData V
  taken nil index log = record {
    last_included_index = index;
    xlog = read_log nil (index + 1) 0 log;
  }

  ingest_snap-taken :
      (nil : V) (index : ℕ) (log : Dict ℕ V) (other : RfSrv V)
      → Copied nil index
          (record { last_applied = index; log = log })
          (ingest_snap (some (taken nil index log)) (some index) other)
  unfolding ingest_snap taken lookup
  ingest_snap-taken nil index log other =
      rw (same_self index)
        (refl, refl, λ k h. lookup-load_log nil (index + 1) 0 k log [] ∙ ground (arith, h))

  -- If a server makes a snapshot when it applies a command, then a server that ingests it at the
  -- command's index ends with the same last applied index, and with the same entry at every index up
  -- to it, where an entry that the first server misses is nil.
  pub ingest_snap-apply_command :
      (nil : V) (checked : Option SrvError × Bool) (index : ℕ) (v : V) (rs rs' other : RfSrv V)
      (err : Option SrvError) (sn : SnapshotData V)
      → apply_command nil checked index v rs ≡ (err, some sn, rs')
      → Copied nil index rs' (ingest_snap (some sn) (some index) other)
  unfolding apply_command taken lookup
  ingest_snap-apply_command nil checked index v rs rs' other err sn h =
      let rs2 : RfSrv V = record { last_applied = index; log = insert index v rs.log } in
      elim (Bool-cases (eqb ((index + 1) % interval) 0)) [
        | inr n ↦ absurd (cc (ap (λ o. o.1) (rw (apply_command, n) at h)))
        | inl y ↦
            let made : taken nil index rs2.log ≡ sn =
              some_inj (ap (λ o. o.1) (rw (apply_command, y) at h)) in
            let state : rs2 ≡ rs' = ap (λ o. o.2) h in
            subst (λ x. Copied nil index x (ingest_snap (some sn) (some index) other)) state
              (subst (λ x. Copied nil index rs2 (ingest_snap (some x) (some index) other)) made
                (ingest_snap-taken nil index rs2.log other))
      ]
