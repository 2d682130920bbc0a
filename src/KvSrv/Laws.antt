-- ===== src/KvSrv/Laws.antt =====
-- What the two handlers of src/kvsrv1/server.go do, on every branch.
use mit_6_5840_distributed_s.Base.{
  ℕ, String, ◌≡◌, Option, Option-cases, inl, inr, none, some, false, ◌==◌, eqb, arith, str_eq_iff,
  string_eq, if◌then◌else◌, ◌+◌, ◌<◌, ◌≤◌,
}
use mit_6_5840_distributed_s.Base.Dict.{lookup, lookup-insert}
use mit_6_5840_distributed_s.KvSrv.Rpc.{
  Err, ok, err_no_key, err_version, is_ok, next_version, tversion_mod, PutArgs,
}
use mit_6_5840_distributed_s.KvSrv.Server.{KvStoreEntry, KvServer, put}

-- The entry of a key, which is all that a client can see of it.
abbrev pub entry : KvServer → String → Option KvStoreEntry
entry kv key = lookup key kv.kv_store

-- What a put does to the entry of its own key, and what it replies.
abbrev pub put_entry : PutArgs → Option KvStoreEntry → Option KvStoreEntry × Err
put_entry args none =
    if eqb args.version 0
    then (some (record { value = args.value; version = 1 }), ok)
    else (none, err_no_key)
put_entry args (some e) =
    if eqb args.version e.version
    then (some (record { value = args.value; version = next_version e.version }), ok)
    else (some e, err_version)

-- The put's reply and the entries of all keys afterwards, whether the put succeeds or not.
pub entry-put :
    (args : PutArgs) (kv : KvServer) (k : String)
    → ((put args kv).1.err ≡ (put_entry args (entry kv args.key)).1)
      × (entry (put args kv).0 k
          ≡ (if args.key == k then (put_entry args (entry kv args.key)).0 else entry kv k))
unfolding put
entry-put args kv k = elim (Option-cases (lookup args.key kv.kv_store)) [
  | inl e ↦
      rw (e, put)
        (ground (
          arith,
          str_eq_iff args.key k,
          e,
          lookup-insert args.key k (record { value = args.value; version = 1 }) kv.kv_store,
        ))
  | inr (old, e) ↦
      rw (e, put)
        (ground (
          arith,
          str_eq_iff args.key k,
          e,
          lookup-insert args.key k
              (record { value = args.value; version = next_version old.version }) kv.kv_store,
        ))
]

abbrev pub version_of : Option KvStoreEntry → ℕ
version_of none = 0
version_of (some e) = e.version

-- Short of the largest uint64, a put raises the version of its key by one if it succeeds and
-- leaves it alone if not.
pub version-put_entry :
    (args : PutArgs) (o : Option KvStoreEntry)
    → version_of o + 1 < tversion_mod
    → (version_of o ≤ version_of (put_entry args o).0)
      × (version_of (put_entry args o).0 ≤ version_of o + 1)
unfolding next_version
version-put_entry args none h = ground arith
version-put_entry args (some e) h = ground arith

pub put_entry-ok :
    (args : PutArgs) (o : Option KvStoreEntry)
    → version_of o + 1 < tversion_mod
    → (put_entry args o).1 ≡ ok
    → (version_of o ≡ args.version) × (version_of (put_entry args o).0 ≡ args.version + 1)
unfolding next_version
put_entry-ok args none h e = ground arith
put_entry-ok args (some x) h e = ground arith

pub put_entry-not_ok :
    (args : PutArgs) (o : Option KvStoreEntry)
    → is_ok (put_entry args o).1 ≡ false
    → (put_entry args o).0 ≡ o
put_entry-not_ok args none h = ground arith
put_entry-not_ok args (some x) h = ground arith

-- A put whose version has passed changes nothing.
pub put_entry_late :
    (args : PutArgs) (o : Option KvStoreEntry)
    → args.version < version_of o
    → put_entry args o ≡ (o, err_version)
put_entry_late args none h = elim h [ ]
put_entry_late args (some x) h = ground arith
