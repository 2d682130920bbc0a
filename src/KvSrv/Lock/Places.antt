-- ===== src/KvSrv/Lock/Places.antt =====
-- What the place of a client of src/kvsrv1/lock/lock.go says of the lock's entry, and how an attempt
-- of one client keeps what the places of the others say.

use mit_6_5840_distributed_s.Base.{
  ◌∙◌, ap, sym, Option-cases, ◌⊎◌, ◌+◌, ◌≤◌, ◌<◌, String, ◌≡◌, ◌≢◌, refl, Option, none, some, Bool,
  true, false, inl, inr, arith, string_eq, str_eq_iff,
}
use mit_6_5840_distributed_s.KvSrv.Rpc.{next_version, is_ok, Err, ok, PutArgs, tversion_mod}
use mit_6_5840_distributed_s.KvSrv.Server.{KvStoreEntry, KvServer, get, put}
use mit_6_5840_distributed_s.KvSrv.Laws.{entry, put_entry, entry-put, version_of}
use mit_6_5840_distributed_s.KvSrv.Clerk.{returned}
use mit_6_5840_distributed_s.KvSrv.Lock.{
  Lock, Net, request_lost, reply_lost, delivered, Pc, idle, getting, putting, held, releasing,
  unputting, after_get, after_put, client_step, acquire_args, release_args,
}

abbrev pub value_of : Option KvStoreEntry → String
value_of none = ""
value_of (some e) = e.value

-- What a client's place says of the lock's entry.
abbrev pub Fits : Option KvStoreEntry → String → Pc → Type 0
Fits o id held = value_of o ≡ id
Fits o id releasing = value_of o ≡ id
Fits o id (putting v r) = (v ≤ version_of o) × (v ≡ version_of o → value_of o ≡ "")
Fits o id (unputting v r) = (v ≤ version_of o) × (v ≡ version_of o → value_of o ≡ id)
Fits o id _ = Unit

-- A put of the lock either succeeds at the current version or changes nothing.
put_entry-cases :
    (args : PutArgs) (o : Option KvStoreEntry)
    → version_of o + 1 < tversion_mod
    → (((put_entry args o).1 ≡ ok)
        × (version_of o ≡ args.version)
        × (version_of (put_entry args o).0 ≡ version_of o + 1)
        × (value_of (put_entry args o).0 ≡ args.value))
      ⊎ ((is_ok (put_entry args o).1 ≡ false) × ((put_entry args o).0 ≡ o))
unfolding next_version
put_entry-cases args none h = ground arith
put_entry-cases args (some e) h = ground arith

-- A client's own attempt, and its effect on what the places of the others say.
pub record Moved (o o' : Option KvStoreEntry) (id : String) (p' : Pc) : Type 0 where
  pub mine : Fits o' id p'
  pub theirs : (id' : String) (p : Pc) → id' ≢ id → id' ≢ "" → Fits o id' p → Fits o' id' p
  pub grows : version_of o' ≤ version_of o + 1

Moved-same : (o : Option KvStoreEntry) (id : String) (p' : Pc) → Fits o id p' → Moved o o id p'
Moved-same o id p' h = record { mine = h; theirs = λ _ _ _ _ k. k; grows = omega arith }

-- A successful put of a client that found the lock free, or of its holder, breaks no other place.
Fits-written :
    (o o' : Option KvStoreEntry) (id id' : String) (p : Pc)
    → version_of o' ≡ version_of o + 1
    → (value_of o ≡ "") ⊎ (value_of o ≡ id)
    → id' ≢ id
    → id' ≢ ""
    → Fits o id' p
    → Fits o' id' p
Fits-written o o' id id' held v w ne ne' h = absurd (grind arith)
Fits-written o o' id id' releasing v w ne ne' h = absurd (grind arith)
Fits-written o o' id id' (putting x r) v w ne ne' h = (omega arith, λ e. absurd (omega arith))
Fits-written o o' id id' (unputting x r) v w ne ne' h = (omega arith, λ e. absurd (omega arith))
Fits-written o o' id id' _ v w ne ne' h = tt

after_get-Fits :
    (lk : Lock) (kv : KvServer)
    → Fits
        (entry kv lk.lockname)
        lk.holder_id
        (after_get lk (get (record { key = lk.lockname }) kv))
unfolding after_get get
after_get-Fits lk kv = elim (Option-cases (entry kv lk.lockname)) [
  | inl e ↦ rw (e, get) (omega arith, λ _. refl)
  | inr (x, e) ↦
      rw (e, get) (ground (arith, str_eq_iff x.value lk.holder_id, str_eq_iff x.value ""))
]

-- A put of the lock by a client who found it free or holds it; `p'` is where the client stands next.
put-Moved :
    (args : PutArgs) (kv : KvServer) (id : String) (p' : Pc)
    → version_of (entry kv args.key) + 1 < tversion_mod
    → (args.version ≡ version_of (entry kv args.key)
        → (value_of (entry kv args.key) ≡ "") ⊎ (value_of (entry kv args.key) ≡ id))
    → ((o' : Option KvStoreEntry)
        → (put args kv).1.err ≡ ok
        → version_of o' ≡ args.version + 1
        → value_of o' ≡ args.value
        → Fits o' id p')
    → (is_ok (put args kv).1.err ≡ false → Fits (entry kv args.key) id p')
    → Moved (entry kv args.key) (entry (put args kv).0 args.key) id p'
put-Moved args kv id p' fits free done refused = elim (put_entry-cases args o fits) [
  | inl (e, at, v, x) ↦ rw new (record {
    mine = done (put_entry args o).0 (err ∙ e) (omega (arith, v, at)) x;
    theirs =
        λ id' p ne ne' h. Fits-written o (put_entry args o).0 id id' p v (free (sym at)) ne ne' h;
    grows = omega (arith, v);
  })
  | inr (e, same) ↦ rw (new, same) (Moved-same o id p' (refused (ap is_ok err ∙ e)))
]
  where
    o : Option KvStoreEntry
    o = entry kv args.key

    err : (put args kv).1.err ≡ (put_entry args o).1
    err = (entry-put args kv args.key).0

    new : entry (put args kv).0 args.key ≡ (put_entry args o).0
    new = ground (arith, entry-put args kv args.key, str_eq_iff args.key args.key)

pub after_put-ok : (r : Bool) (err : Err) → err ≡ ok → after_put (returned r err) ≡ held
unfolding after_put
after_put-ok r err e = rw e

after_put-not_ok : (r : Bool) (err : Err) → is_ok err ≡ false → after_put (returned r err) ≡ getting
unfolding after_put
after_put-not_ok r err e = ground arith

release_get-Fits :
    (lk : Lock) (kv : KvServer)
    → value_of (entry kv lk.lockname) ≡ lk.holder_id
    → Fits
        (entry kv lk.lockname)
        lk.holder_id
        (unputting (get (record { key = lk.lockname }) kv).version false)
unfolding get
release_get-Fits lk kv h = elim (Option-cases (entry kv lk.lockname)) [
  | inl e ↦ rw (e, get) (omega arith, λ _. rw e at h)
  | inr (x, e) ↦ rw (e, get) (omega arith, λ _. rw e at h)
]

pub client_step-Moved :
    (lk : Lock) (net : Net) (p : Pc) (kv : KvServer)
    → version_of (entry kv lk.lockname) + 1 < tversion_mod
    → Fits (entry kv lk.lockname) lk.holder_id p
    → Moved
        (entry kv lk.lockname)
        (entry (client_step lk net p kv).0 lk.lockname)
        lk.holder_id
        (client_step lk net p kv).1
unfolding client_step
client_step-Moved lk net idle kv fits h = Moved-same _ _ _ tt
client_step-Moved lk request_lost getting kv fits h = Moved-same _ _ _ tt
client_step-Moved lk reply_lost getting kv fits h = Moved-same _ _ _ tt
client_step-Moved lk delivered getting kv fits h = Moved-same _ _ _ (after_get-Fits lk kv)
client_step-Moved lk request_lost (putting v r) kv fits h = Moved-same _ _ _ h
client_step-Moved lk reply_lost (putting v r) kv fits h =
    put-Moved (acquire_args lk v) kv lk.holder_id (putting v true) fits (λ e. inl (h.1 e))
      (λ o' done n x. (omega arith, λ e. absurd (omega arith))) (λ _. h)
client_step-Moved lk delivered (putting v r) kv fits h =
    put-Moved (acquire_args lk v) kv lk.holder_id _ fits (λ e. inl (h.1 e))
      (λ o' done n x. rw (after_put-ok r _ done) x) (λ e. rw (after_put-not_ok r _ e) tt)
client_step-Moved lk net held kv fits h = Moved-same _ _ _ h
client_step-Moved lk request_lost releasing kv fits h = Moved-same _ _ _ h
client_step-Moved lk reply_lost releasing kv fits h = Moved-same _ _ _ h
client_step-Moved lk delivered releasing kv fits h = Moved-same _ _ _ (release_get-Fits lk kv h)
client_step-Moved lk request_lost (unputting v r) kv fits h = Moved-same _ _ _ h
client_step-Moved lk reply_lost (unputting v r) kv fits h =
    put-Moved (release_args lk v) kv lk.holder_id (unputting v true) fits (λ e. inr (h.1 e))
      (λ o' done n x. (omega arith, λ e. absurd (omega arith))) (λ _. h)
client_step-Moved lk delivered (unputting v r) kv fits h =
    put-Moved (release_args lk v) kv lk.holder_id idle fits (λ e. inr (h.1 e)) (λ o' done n x. tt)
      (λ _. tt)
