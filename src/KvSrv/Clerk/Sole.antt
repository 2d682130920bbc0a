-- ===== src/KvSrv/Clerk/Sole.antt =====
-- The put of a client that is the only one to write its key (src/kvsrv1/client.go).
use mathlib.Core.Path.{subst}
use mit_6_5840_distributed_s.Base.{
  ℕ, ◌+◌, ◌<◌, String, ◌≡◌, ◌≢◌, refl, ◌∙◌, ap, sym, ◌⊎◌, inl, inr, Bool, true, false, Option, none,
  some, List, [], ◌∷◌, ◌++◌, arith, All, string_eq, str_eq_iff,
}
use mit_6_5840_distributed_s.KvSrv.Rpc.{Err, ok, err_maybe, next_version, PutArgs, tversion_mod}
use mit_6_5840_distributed_s.KvSrv.Server.{KvServer, KvStoreEntry, put}
use mit_6_5840_distributed_s.KvSrv.Laws.{entry, put_entry, version_of, entry-put}
use mit_6_5840_distributed_s.KvSrv.Clerk.{
  Attempt, request_lost, reply_lost, delivered, clerk_put, clerk_put_loop, others_until, serve_puts,
  returned,
}
use mit_6_5840_distributed_s.KvSrv.Clerk.Late.{apply_puts, budget, entry-serve_puts}
use mit_6_5840_distributed_s.KvSrv.Clerk.Linear.{TakesEffect, clerk_put_linear}

-- The puts of other clients go to other keys.
abbrev pub Elsewhere : String → List PutArgs → Type 0
Elsewhere key ps = All (λ (p : PutArgs). p.key ≢ key) ps

abbrev pub Alone : String → List Attempt → Type 0
Alone key [] = Unit
Alone key (request_lost others ∷ rest) = Elsewhere key others × Alone key rest
Alone key (reply_lost others ∷ rest) = Elsewhere key others × Alone key rest
Alone key (delivered others ∷ rest) = Elsewhere key others × Alone key rest

apply_puts-Elsewhere :
    (key : String) (ps : List PutArgs) (o : Option KvStoreEntry)
    → Elsewhere key ps
    → apply_puts key ps o ≡ o
apply_puts-Elsewhere key [] o h = refl
apply_puts-Elsewhere key (p ∷ ps) o h =
    ground (arith, str_eq_iff p.key key, apply_puts-Elsewhere key ps o h.1, h.0)

Elsewhere-split :
    (key : String) (ps qs : List PutArgs)
    → Elsewhere key (ps ++ qs)
    → Elsewhere key ps × Elsewhere key qs
Elsewhere-split key [] qs h = (tt, h)
Elsewhere-split key (p ∷ ps) qs h = let (a, b) = Elsewhere-split key ps qs h.1 in ((h.0, a), b)

Elsewhere-join :
    (key : String) (ps qs : List PutArgs)
    → Elsewhere key ps
    → Elsewhere key qs
    → Elsewhere key (ps ++ qs)
Elsewhere-join key [] qs a b = b
Elsewhere-join key (p ∷ ps) qs a b = (a.0, Elsewhere-join key ps qs a.1 b)

Alone-Elsewhere :
    (key : String) (sched : List Attempt) → Alone key sched → Elsewhere key (others_until sched)
Alone-Elsewhere key [] h = tt
Alone-Elsewhere key (request_lost others ∷ rest) h =
    Elsewhere-join key others (others_until rest) h.0 (Alone-Elsewhere key rest h.1)
Alone-Elsewhere key (reply_lost others ∷ rest) h =
    Elsewhere-join key others (others_until rest) h.0 (Alone-Elsewhere key rest h.1)
Alone-Elsewhere key (delivered others ∷ rest) h = h.0

put_entry_now :
    (key value : String) (ver : ℕ) (o : Option KvStoreEntry)
    → version_of o ≡ ver
    → ver + 1 < tversion_mod
    → put_entry (record { key = key; value = value; version = ver }) o
      ≡ (some (record { value = value; version = ver + 1 }), ok)
unfolding next_version
put_entry_now key value ver none e h = ground arith
put_entry_now key value ver (some x) e h = ground arith

-- A put of the only writer of a key at the key's version comes through, whatever the clerk is told.
pub sole_put :
    (key value : String) (ver : ℕ) (sched : List Attempt) (kv kv' : KvServer) (err : Err)
    → Alone key sched
    → version_of (entry kv key) ≡ ver
    → ver + budget sched < tversion_mod
    → ver + 1 < tversion_mod
    → clerk_put (record { key = key; value = value; version = ver }) sched kv ≡ (kv', some err)
    → ((err ≡ ok) ⊎ (err ≡ err_maybe))
      × (entry kv' key ≡ some (record { value = value; version = ver + 1 }))
sole_put key value ver sched kv kv' err alone now fits small run =
    let args : PutArgs = record { key = key; value = value; version = ver } in
    let o = entry kv key in
    let t : TakesEffect args (others_until sched) o (entry kv' key) err =
      clerk_put_linear args sched kv kv' err (omega arith) run in
    let (before, after) =
      Elsewhere-split key t.before t.after
        (subst (Elsewhere key) (sym t.whole) (Alone-Elsewhere key sched alone)) in
    let b : apply_puts key t.before o ≡ o = apply_puts-Elsewhere key t.before o before in
    let now' : put_entry args (apply_puts key t.before o)
        ≡ (some (record { value = value; version = ver + 1 }), ok) =
      rw b (put_entry_now key value ver o now small) in
    (
      elim t.reply [ inl e ↦ inl (e ∙ ap (λ r. r.1) now') | inr r ↦ inr r.0 ],
      t.final
          ∙ apply_puts-Elsewhere key t.after (put_entry args (apply_puts key t.before o)).0 after
          ∙ ap (λ r. r.0) now',
    )

-- A schedule on which a call returns, and one on which the clerk learns that its put came through: no
-- reply is lost before one arrives.
abbrev pub Answered : List Attempt → Type 0
Answered [] = ⊥
Answered (request_lost others ∷ rest) = Answered rest
Answered (reply_lost others ∷ rest) = Answered rest
Answered (delivered others ∷ rest) = Unit

abbrev pub Clean : List Attempt → Type 0
Clean [] = ⊥
Clean (request_lost others ∷ rest) = Clean rest
Clean (reply_lost others ∷ rest) = ⊥
Clean (delivered others ∷ rest) = Unit

Answered-returns :
    (args : PutArgs) (retried : Bool) (sched : List Attempt) (kv : KvServer)
    → Answered sched
    → (kv' : KvServer) × (err : Err) × (clerk_put_loop args retried sched kv ≡ (kv', some err))
unfolding clerk_put_loop
Answered-returns args retried [] kv h = absurd h
Answered-returns args retried (request_lost others ∷ rest) kv h =
    Answered-returns args true rest (serve_puts others kv) h
Answered-returns args retried (reply_lost others ∷ rest) kv h =
    Answered-returns args true rest (put args (serve_puts others kv)).0 h
Answered-returns args retried (delivered others ∷ rest) kv h = (
  (put args (serve_puts others kv)).0,
  returned retried (put args (serve_puts others kv)).1.err,
  refl,
)

Clean-returns :
    (args : PutArgs) (retried : Bool) (sched : List Attempt) (kv : KvServer)
    → Clean sched
    → Alone args.key sched
    → version_of (entry kv args.key) ≡ args.version
    → args.version + 1 < tversion_mod
    → (kv' : KvServer) × (clerk_put_loop args retried sched kv ≡ (kv', some ok))
unfolding clerk_put_loop
Clean-returns args retried [] kv h a now small = absurd h
Clean-returns args retried (request_lost others ∷ rest) kv h a now small =
    Clean-returns args true rest (serve_puts others kv) h a.1
      (ap version_of (
          entry-serve_puts args.key others kv
          ∙ apply_puts-Elsewhere args.key others (entry kv args.key) a.0)
        ∙ now)
      small
Clean-returns args retried (reply_lost others ∷ rest) kv h a now small = absurd h
Clean-returns args retried (delivered others ∷ rest) kv h a now small =
    let kv1 = serve_puts others kv in
    let same : entry kv1 args.key ≡ entry kv args.key =
      entry-serve_puts args.key others kv
      ∙ apply_puts-Elsewhere args.key others (entry kv args.key) a.0 in
    let e : (put args kv1).1.err ≡ ok =
      (entry-put args kv1 args.key).0
      ∙ ap (λ o. (put_entry args o).1) same
      ∙ ap (λ r. r.1)
          (put_entry_now args.key args.value args.version (entry kv args.key) now small) in
    ((put args kv1).0, rw e refl)

-- On such schedules `Clerk.Put` returns, and with `ok` where no reply is lost.
pub clerk_put-Answered :
    (args : PutArgs) (sched : List Attempt) (kv : KvServer)
    → Answered sched
    → (clerk_put args sched kv).1 ≢ none
unfolding clerk_put
clerk_put-Answered args sched kv h n =
    let (kv', err, run) = Answered-returns args false sched kv h in cc (run, n)

pub clerk_put-Clean :
    (args : PutArgs) (sched : List Attempt) (kv : KvServer)
    → Clean sched
    → Alone args.key sched
    → version_of (entry kv args.key) ≡ args.version
    → args.version + 1 < tversion_mod
    → (clerk_put args sched kv).1 ≡ some ok
unfolding clerk_put
clerk_put-Clean args sched kv h a now small =
    let (kv', run) = Clean-returns args false sched kv h a now small in ap (λ r. r.1) run
