-- ===== src/KvSrv/Clerk/Linear.antt =====
-- A clerk's put (src/kvsrv1/client.go) as one point of the server's history, among losses and the
-- puts of other clients.
use mathlib.Core.Path.{subst}
use mathlib.Core.List.{append-nil, append_assoc}
use mit_6_5840_distributed_s.Base.{
  ◌∙◌, ap, ◌+◌, ◌≤◌, ◌<◌, String, ◌≡◌, refl, Option, some, Bool, true, false, List, [], ◌∷◌, ◌++◌,
  length, ◌⊎◌, inl, inr, arith, string_eq, str_eq_iff, Bool-cases,
}
use mit_6_5840_distributed_s.KvSrv.Rpc.{
  is_ok, Err, ok, err_version, err_maybe, PutArgs, tversion_mod,
}
use mit_6_5840_distributed_s.KvSrv.Server.{KvStoreEntry, KvServer, put}
use mit_6_5840_distributed_s.KvSrv.Laws.{
  put_entry-not_ok, entry, put_entry, entry-put, version_of, put_entry-ok,
}
use mit_6_5840_distributed_s.KvSrv.Clerk.{
  returned, Attempt, request_lost, reply_lost, delivered, serve_puts, clerk_put_loop, clerk_put,
  others_until,
}
use mit_6_5840_distributed_s.KvSrv.Clerk.Late.{
  apply_puts, entry-serve_puts, apply_puts-append, version-apply_puts, budget, clerk_put_loop_late,
}

-- The put runs once, between two parts of the other clients' puts. Its error is the one that the
-- server gives at that point, or `err_maybe` where that is `ok` or `err_version`.
pub record TakesEffect (args : PutArgs) (others : List PutArgs) (o o' : Option KvStoreEntry)
    (err : Err) : Type 0 where
  pub before : List PutArgs
  pub after : List PutArgs
  pub whole : before ++ after ≡ others
  pub final : o' ≡ apply_puts args.key after (put_entry args (apply_puts args.key before o)).0
  pub reply :
      let e = (put_entry args (apply_puts args.key before o)).1 in
      (err ≡ e) ⊎ ((err ≡ err_maybe) × ((e ≡ ok) ⊎ (e ≡ err_version)))

-- The same, after `ps` more puts of other clients.
TakesEffect-append :
    (args : PutArgs) (ps others : List PutArgs) (o o' : Option KvStoreEntry) (err : Err)
    → TakesEffect args others (apply_puts args.key ps o) o' err
    → TakesEffect args (ps ++ others) o o' err
TakesEffect-append args ps others o o' err t =
    let e = apply_puts-append args.key ps t.before o in
    record {
      before = ps ++ t.before;
      after = t.after;
      whole = append_assoc ps t.before t.after ∙ ap (λ q. ps ++ q) t.whole;
      final = rw e t.final;
      reply = rw e t.reply;
    }

-- The same, where the server has run `ps` since.
TakesEffect-serve_puts :
    (args : PutArgs) (ps others : List PutArgs) (kv : KvServer) (o' : Option KvStoreEntry)
    (err : Err)
    → TakesEffect args others (entry (serve_puts ps kv) args.key) o' err
    → TakesEffect args (ps ++ others) (entry kv args.key) o' err
TakesEffect-serve_puts args ps others kv o' err t =
    TakesEffect-append args ps others (entry kv args.key) o' err
      (rw (← entry-serve_puts args.key ps kv) t)

version-serve_puts :
    (k : String) (ps : List PutArgs) (kv : KvServer)
    → version_of (entry kv k) + length ps < tversion_mod
    → version_of (entry (serve_puts ps kv) k) ≤ version_of (entry kv k) + length ps
version-serve_puts k ps kv h = rw entry-serve_puts (version-apply_puts k ps (entry kv k) h).1

-- A put that the server refuses leaves its key alone.
entry-put_refused :
    (args : PutArgs) (kv : KvServer)
    → is_ok (put_entry args (entry kv args.key)).1 ≡ false
    → entry (put args kv).0 args.key ≡ entry kv args.key
entry-put_refused args kv h = ground (
  arith,
  entry-put args kv args.key,
  put_entry-not_ok args (entry kv args.key),
  str_eq_iff args.key args.key,
)

is_ok→ok : (e : Err) → is_ok e ≡ true → e ≡ ok
is_ok→ok e h = ground arith

-- An attempt that the server runs with success and whose reply is lost is the put's point.
TakesEffect-lost :
    (args : PutArgs) (rest : List Attempt) (kv kv' : KvServer) (err : Err)
    → version_of (entry kv args.key) + 1 + budget rest < tversion_mod
    → (put_entry args (entry kv args.key)).1 ≡ ok
    → clerk_put_loop args true rest (put args kv).0 ≡ (kv', some err)
    → TakesEffect args (others_until rest) (entry kv args.key) (entry kv' args.key) err
TakesEffect-lost args rest kv kv' err fits done run = record {
  before = [];
  after = others_until rest;
  whole = refl;
  final = ground (arith, new, late.1);
  reply = inr (late.0, inl done);
}
  where
    new : entry (put args kv).0 args.key ≡ (put_entry args (entry kv args.key)).0
    new = ground (arith, entry-put args kv args.key, str_eq_iff args.key args.key)

    late :
        (err ≡ err_maybe)
        × (entry kv' args.key
            ≡ apply_puts args.key (others_until rest) (entry (put args kv).0 args.key))
    late =
        clerk_put_loop_late args rest (put args kv).0 kv' err
          (ground (arith, new, put_entry-ok args (entry kv args.key)))
          (ground (arith, new, put_entry-ok args (entry kv args.key))) run

-- An attempt whose reply arrives.
TakesEffect-delivered :
    (args : PutArgs) (retried : Bool) (kv kv' : KvServer) (err : Err)
    → ◌≡◌ {A = KvServer × Option Err}
        ((put args kv).0, some (returned retried (put args kv).1.err))
        (kv', some err)
    → TakesEffect args [] (entry kv args.key) (entry kv' args.key) err
TakesEffect-delivered args retried kv kv' err run = record {
  before = [];
  after = [];
  whole = refl;
  final = ground (arith, run, entry-put args kv args.key, str_eq_iff args.key args.key);
  reply = ground (arith, run, entry-put args kv args.key);
}

clerk_put_loop_linear :
    (args : PutArgs) (retried : Bool) (sched : List Attempt) (kv kv' : KvServer) (err : Err)
    → version_of (entry kv args.key) + budget sched < tversion_mod
    → clerk_put_loop args retried sched kv ≡ (kv', some err)
    → TakesEffect args (others_until sched) (entry kv args.key) (entry kv' args.key) err
unfolding clerk_put_loop
clerk_put_loop_linear args retried [] kv kv' err fits run = absurd (cc)
clerk_put_loop_linear args retried (request_lost others ∷ rest) kv kv' err fits run =
    TakesEffect-serve_puts args others (others_until rest) kv (entry kv' args.key) err (
      clerk_put_loop_linear args true rest (serve_puts others kv) kv' err
        (omega (arith, version-serve_puts args.key others kv)) run)
clerk_put_loop_linear args retried (reply_lost others ∷ rest) kv kv' err fits run =
    let kv1 = serve_puts others kv in
    let e = (put_entry args (entry kv1 args.key)).1 in
    TakesEffect-serve_puts args others (others_until rest) kv (entry kv' args.key) err
      (elim (Bool-cases (is_ok e)) [
        | inl y ↦
            TakesEffect-lost args rest kv1 kv' err
              (omega (arith, version-serve_puts args.key others kv)) (is_ok→ok e y) run
        | inr n ↦
            let same = entry-put_refused args kv1 n in
            rw (← same) (
              clerk_put_loop_linear args true rest (put args kv1).0 kv' err
                (rw same (omega (arith, version-serve_puts args.key others kv))) run)
      ])
clerk_put_loop_linear args retried (delivered others ∷ rest) kv kv' err fits run =
    let kv1 = serve_puts others kv in
    subst (λ q. TakesEffect args q (entry kv args.key) (entry kv' args.key) err) (append-nil others)
      (TakesEffect-serve_puts args others [] kv (entry kv' args.key) err
        (TakesEffect-delivered args retried kv1 kv' err run))

-- If a clerk's put returns on a schedule of losses and of other clients' puts, then it ran exactly
-- once between two parts of those puts, for the key's entry as for its error (which is `err_maybe`
-- in place of `ok` or `err_version` where a reply was lost), provided that the key's version plus
-- the puts of the schedule stays below 2^64.
pub clerk_put_linear :
    (args : PutArgs) (sched : List Attempt) (kv kv' : KvServer) (err : Err)
    → version_of (entry kv args.key) + budget sched < tversion_mod
    → clerk_put args sched kv ≡ (kv', some err)
    → TakesEffect args (others_until sched) (entry kv args.key) (entry kv' args.key) err
unfolding clerk_put
clerk_put_linear args sched kv kv' err fits run =
    clerk_put_loop_linear args false sched kv kv' err fits run
