-- ===== src/KvSrv/Lock/Safety.antt =====
-- Mutual exclusion of src/kvsrv1/lock/lock.go, over any interleaving of the clients and any losses.
use mit_6_5840_distributed_s.Base.Dict.{lookup}
use native.Mathlib.Nat.{add-zero}
use mathlib.Core.Path.{subst}
use mit_6_5840_distributed_s.Base.{
  eqb_iff, ◌∙◌, sym, ℕ, ◌+◌, ◌≤◌, ◌<◌, String, ◌≡◌, ◌≢◌, Option, Bool, true, false, List, [], ◌∷◌,
  length, inl, inr, ◌==◌, eqb, arith, string_eq, Bool-cases,
}
use mit_6_5840_distributed_s.KvSrv.Rpc.{tversion_mod}
use mit_6_5840_distributed_s.KvSrv.Server.{KvStoreEntry, KvServer, make_kv_server}
use mit_6_5840_distributed_s.KvSrv.Laws.{entry, entry-put, version_of}
use mit_6_5840_distributed_s.KvSrv.Lock.{
  lock_of, Lock, Pc, idle, getting, putting, held, releasing, unputting, client_step, System, Event,
  act, other, step, start, run,
}
use mit_6_5840_distributed_s.KvSrv.Lock.Places.{value_of, Fits, Moved, client_step-Moved}

module _ (holder : ℕ → String) (name : String) where
  -- After `n` events: the version of the lock's entry, and what each client's place says of it.
  record Inv (n : ℕ) (s : System) : Type 0 where
    few : version_of (entry s.server name) ≤ n
    places : (i : ℕ) → Fits (entry s.server name) (holder i) (s.pc i)

  step-Inv :
      ((i j : ℕ) → holder i ≡ holder j → i ≡ j)
      → ((i : ℕ) → holder i ≢ "")
      → (n : ℕ) (e : Event) (s : System) → n + 1 < tversion_mod
      → Inv n s
      → Inv (n + 1) (step holder name e s)
  unfolding step
  step-Inv inj ne n (act i net) s small inv = record {
    few = omega (arith, moved.grows, inv.few);
    places = λ j. elim (Bool-cases (eqb i j)) [
      | inl same ↦ rw same (
          subst (λ k. Fits (entry kv' name) (holder k) (client_step lk net (s.pc i) s.server).1)
            ((eqb_iff i j).0 same) moved.mine)
      | inr apart ↦ rw apart (
          moved.theirs (holder j) (s.pc j) (λ q. ground (arith, apart, inj j i q)) (ne j)
            (inv.places j))
    ];
  }
    where
      lk : Lock
      lk = lock_of holder name i

      kv' : KvServer
      kv' = (client_step lk net (s.pc i) s.server).0

      moved :
          Moved
            (entry s.server name)
            (entry kv' name)
            (holder i)
            (client_step lk net (s.pc i) s.server).1
      moved = client_step-Moved lk net (s.pc i) s.server (omega (arith, inv.few)) (inv.places i)
  step-Inv inj ne n (other args) s small inv = elim (Bool-cases (args.key == name)) [
    | inl mine ↦ rw mine (record { few = omega (arith, inv.few); places = inv.places })
    | inr apart ↦
        let same = (entry-put args s.server name).1 in
        rw apart (record {
          few = rw (same, apart) (omega (arith, inv.few));
          places = λ j. rw (same, apart) (inv.places j);
        })
  ]

-- Between the return of `Acquire` and the put of `Release`.
abbrev pub inside : Pc → Bool
inside held = true
inside releasing = true
inside _ = false

inside-Fits :
    (o : Option KvStoreEntry) (id : String) (p : Pc)
    → inside p ≡ true
    → Fits o id p
    → value_of o ≡ id
inside-Fits o id held e h = h
inside-Fits o id releasing e h = h
inside-Fits o id idle e h = cc
inside-Fits o id getting e h = cc
inside-Fits o id (putting v r) e h = cc
inside-Fits o id (unputting v r) e h = cc

module _ (holder : ℕ → String) (name : String) (inj : (i j : ℕ) → holder i ≡ holder j → i ≡ j)
    (ne : (i : ℕ) → holder i ≢ "") where
  run-Inv :
      (es : List Event) (n : ℕ) (s : System)
      → n + length es < tversion_mod
      → Inv holder name n s
      → Inv holder name (n + length es) (run holder name es s)
  unfolding run
  run-Inv [] n s small inv = rw add-zero inv
  run-Inv (e ∷ es) n s small inv =
      subst (λ m. Inv holder name m (run holder name es (step holder name e s))) (omega arith)
        (run-Inv es (n + 1) (step holder name e s) (omega arith)
          (step-Inv holder name inj ne n e s (omega arith) inv))

  Inv-start : Inv holder name 0 start
  unfolding start make_kv_server lookup
  Inv-start = record { few = omega arith; places = λ i. tt }

  -- After fewer than 2^64 events, with distinct and non-empty holder ids, the lock's entry holds the
  -- id of every client that is inside its critical section.
  pub inside-value :
      (es : List Event) (i : ℕ)
      → length es < tversion_mod
      → let s = run holder name es start in
        inside (s.pc i) ≡ true → value_of (entry s.server name) ≡ holder i
  inside-value es i small h =
      let s = run holder name es start in
      inside-Fits (entry s.server name) (holder i) (s.pc i) h
        ((run-Inv es 0 start (omega arith) Inv-start).places i)

  -- After fewer than 2^64 events, with distinct and non-empty holder ids, two clients that are inside
  -- their critical sections are the same client.
  pub mutual_exclusion :
      (es : List Event) (i j : ℕ)
      → length es < tversion_mod
      → let s = run holder name es start in inside (s.pc i) ≡ true → inside (s.pc j) ≡ true → i ≡ j
  mutual_exclusion es i j small hi hj =
      inj i j (sym (inside-value es i small hi) ∙ inside-value es j small hj)
