-- ===== src/KvSrv/Clerk/Late.antt =====
-- What puts come to for the entry of one key, and the attempts of a clerk's put after the version that
-- it asks for has passed (src/kvsrv1/client.go).

use mit_6_5840_distributed_s.Base.{
  ℕ, ◌+◌, ◌≤◌, ◌<◌, String, ◌≡◌, refl, Option, some, true, List, [], ◌∷◌, ◌++◌, length, inl, inr,
  ◌==◌, arith, string_eq, str_eq_iff, if◌then◌else◌, Bool-cases,
}
use mit_6_5840_distributed_s.KvSrv.Rpc.{Err, err_maybe, PutArgs, tversion_mod}
use mit_6_5840_distributed_s.KvSrv.Server.{KvStoreEntry, KvServer, put}
use mit_6_5840_distributed_s.KvSrv.Laws.{
  entry, put_entry, entry-put, version_of, version-put_entry, put_entry_late,
}
use mit_6_5840_distributed_s.KvSrv.Clerk.{
  Attempt, request_lost, reply_lost, delivered, serve_puts, clerk_put_loop, others_until,
}

-- What a sequence of puts does to the entry of one key.
abbrev pub apply_puts : String → List PutArgs → Option KvStoreEntry → Option KvStoreEntry
apply_puts k [] o = o
apply_puts k (p ∷ ps) o = apply_puts k ps (if p.key == k then (put_entry p o).0 else o)

pub entry-serve_puts :
    (k : String) (ps : List PutArgs) (kv : KvServer)
    → entry (serve_puts ps kv) k ≡ apply_puts k ps (entry kv k)
unfolding serve_puts
entry-serve_puts k [] kv = refl
entry-serve_puts k (p ∷ ps) kv =
    ground (arith, entry-put p kv k, str_eq_iff p.key k, entry-serve_puts k ps (put p kv).0)

pub apply_puts-append :
    (k : String) (ps qs : List PutArgs) (o : Option KvStoreEntry)
    → apply_puts k (ps ++ qs) o ≡ apply_puts k qs (apply_puts k ps o)
apply_puts-append k [] qs o = refl
apply_puts-append k (p ∷ ps) qs o =
    apply_puts-append k ps qs (if p.key == k then (put_entry p o).0 else o)

pub version-apply_puts :
    (k : String) (ps : List PutArgs) (o : Option KvStoreEntry)
    → version_of o + length ps < tversion_mod
    → (version_of o ≤ version_of (apply_puts k ps o))
      × (version_of (apply_puts k ps o) ≤ version_of o + length ps)
version-apply_puts k [] o h = omega arith
version-apply_puts k (p ∷ ps) o h = elim (Bool-cases (p.key == k)) [
  | inl e ↦ rw e (omega (arith, version-put_entry p o, version-apply_puts k ps (put_entry p o).0))
  | inr e ↦ rw e (omega (arith, version-apply_puts k ps o))
]

-- The puts of a schedule, the clerk's own included.
abbrev pub budget : List Attempt → ℕ
budget [] = 0
budget (request_lost others ∷ rest) = length others + 1 + budget rest
budget (reply_lost others ∷ rest) = length others + 1 + budget rest
budget (delivered others ∷ rest) = length others + 1 + budget rest

-- Once the version of the key has passed the clerk's, every further attempt changes nothing and
-- the clerk can only return `err_maybe`.
pub clerk_put_loop_late :
    (args : PutArgs) (sched : List Attempt) (kv kv' : KvServer) (err : Err)
    → args.version < version_of (entry kv args.key)
    → version_of (entry kv args.key) + budget sched < tversion_mod
    → clerk_put_loop args true sched kv ≡ (kv', some err)
    → (err ≡ err_maybe)
      × (entry kv' args.key ≡ apply_puts args.key (others_until sched) (entry kv args.key))
unfolding clerk_put_loop
clerk_put_loop_late args [] kv kv' err late fits run = cc
clerk_put_loop_late args (request_lost others ∷ rest) kv kv' err late fits run =
    let o = entry kv args.key in
    ground (
      arith,
      entry-serve_puts args.key others kv,
      version-apply_puts args.key others o,
      apply_puts-append args.key others (others_until rest) o,
      clerk_put_loop_late args rest (serve_puts others kv) kv' err,
    )
clerk_put_loop_late args (reply_lost others ∷ rest) kv kv' err late fits run =
    let o = entry kv args.key in
    let kv1 = serve_puts others kv in
    ground (
      arith,
      entry-serve_puts args.key others kv,
      version-apply_puts args.key others o,
      apply_puts-append args.key others (others_until rest) o,
      put_entry_late args (entry kv1 args.key),
      entry-put args kv1 args.key,
      str_eq_iff args.key args.key,
      clerk_put_loop_late args rest (put args kv1).0 kv' err,
    )
clerk_put_loop_late args (delivered others ∷ rest) kv kv' err late fits run =
    let o = entry kv args.key in
    let kv1 = serve_puts others kv in
    ground (
      arith,
      entry-serve_puts args.key others kv,
      version-apply_puts args.key others o,
      put_entry_late args (entry kv1 args.key),
      entry-put args kv1 args.key,
      str_eq_iff args.key args.key,
    )
