-- ===== src/KvSrv/Lock/Progress.antt =====
-- What `Acquire` and `Release` of src/kvsrv1/lock/lock.go come to when no message is lost and no
-- other client intervenes.
use mit_6_5840_distributed_s.Base.{
  ℕ, zero, suc, ◌≡◌, refl, inl, inr, arith, string_eq, str_eq_iff, Option-cases, suc, ◌≢◌, false,
}
use mit_6_5840_distributed_s.KvSrv.Rpc.{ok}
use mit_6_5840_distributed_s.KvSrv.Server.{KvServer, get, put}
use mit_6_5840_distributed_s.KvSrv.Laws.{entry, entry-put, version_of}
use mit_6_5840_distributed_s.KvSrv.Lock.{
  Lock, delivered, Pc, idle, putting, held, after_get, client_step, acquire_args, PutArgs,
}
use mit_6_5840_distributed_s.KvSrv.Lock.Places.{value_of, after_put-ok}

-- `n` attempts of one client, none lost.
abbrev pub alone : Lock → ℕ → Pc × KvServer → Pc × KvServer
alone lk zero s = s
alone lk (suc n) s = let (kv, p) = client_step lk delivered s.0 s.1 in alone lk n (p, kv)

-- A free lock is read as free, at the version that it has.
after_get-free :
    (lk : Lock) (kv : KvServer)
    → lk.holder_id ≢ ""
    → value_of (entry kv lk.lockname) ≡ ""
    → after_get lk (get (record { key = lk.lockname }) kv)
      ≡ putting (version_of (entry kv lk.lockname)) false
unfolding after_get get
after_get-free lk kv ne h = elim (Option-cases (entry kv lk.lockname)) [
  | inl e ↦ rw (e, get) refl
  | inr (x, e) ↦
      rw (e, get) (ground (arith, e, str_eq_iff x.value lk.holder_id, str_eq_iff x.value ""))
]

-- A put at the version that the key has succeeds.
put_current :
    (args : PutArgs) (kv : KvServer)
    → args.version ≡ version_of (entry kv args.key)
    → ((put args kv).1.err ≡ ok) × (value_of (entry (put args kv).0 args.key) ≡ args.value)
put_current args kv h = elim (Option-cases (entry kv args.key)) [
  | inl e ↦ ground (arith, e, entry-put args kv args.key, str_eq_iff args.key args.key)
  | inr (x, e) ↦ ground (arith, e, entry-put args kv args.key, str_eq_iff args.key args.key)
]

-- A client that acquires a free lock (no entry, or an empty value) holds it after three attempts,
-- with its id in the lock's entry, provided that its id is not empty, that no message is lost and
-- that no other client intervenes.
pub acquire_free :
    (lk : Lock) (kv : KvServer)
    → lk.holder_id ≢ ""
    → value_of (entry kv lk.lockname) ≡ ""
    → let s = alone lk 3 (idle, kv) in
      (s.0 ≡ held) × (value_of (entry s.1 lk.lockname) ≡ lk.holder_id)
unfolding client_step
acquire_free lk kv ne h =
    let args = acquire_args lk (version_of (entry kv lk.lockname)) in
    rw (after_get-free lk kv ne h) (
      after_put-ok false (put args kv).1.err (put_current args kv refl).0,
      (put_current args kv refl).1,
    )
