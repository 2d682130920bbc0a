-- ===== src/KvTest/AtLeastOnce.antt =====
-- `PutAtLeastOnce` of src/kvtest1/kvtest.go on the key/value server.
use mit_6_5840_distributed_s.KvSrv.Clerk.Sole.{
  Answered, Alone, Clean, clerk_put-Answered, sole_put, clerk_put-Clean,
}
use mit_6_5840_distributed_s.Base.{
  ℕ, ◌+◌, ◌≤◌, ◌<◌, String, ◌≡◌, refl, ◌∙◌, ap, sym, ◌⊎◌, inl, inr, some, List, [], ◌∷◌, arith,
  length, All, string_eq, Option-cases, some_inj, suc,
}
use mit_6_5840_distributed_s.KvSrv.Rpc.{ok, err_maybe, next_version, PutArgs, tversion_mod}
use mit_6_5840_distributed_s.KvSrv.Server.{KvServer}
use mit_6_5840_distributed_s.KvSrv.Laws.{entry, version_of}
use mit_6_5840_distributed_s.KvSrv.Clerk.{Attempt, clerk_put}
use mit_6_5840_distributed_s.KvSrv.Clerk.Late.{budget}
use mit_6_5840_distributed_s.KvTest.{Result, returns, fatal, waiting, put_at_least_once}

-- The versions that the loop may pass, and the puts of its schedules.
abbrev pub cost : List (List Attempt) → ℕ
cost [] = 0
cost (sched ∷ rest) = 1 + budget sched + cost rest

-- What the loop comes to, from the version `ver`: it never fails the test, and a version that it returns
-- is the one of the key, with the value.
abbrev pub Settled : String → String → ℕ → ℕ → KvServer × Result ℕ → Type 0
Settled key value ver most (kv, waiting) = Unit
Settled key value ver most (kv, fatal) = ⊥
Settled key value ver most (kv, returns v) =
    (entry kv key ≡ some (record { value = value; version = v })) × (ver < v) × (v ≤ ver + most)

next_small : (ver : ℕ) → ver + 1 < tversion_mod → next_version ver ≡ ver + 1
unfolding next_version
next_small ver h = omega arith

Settled-later :
    (key value : String) (ver most : ℕ) (r : KvServer × Result ℕ)
    → Settled key value (ver + 1) most r
    → Settled key value ver (suc most) r
Settled-later key value ver most (kv, waiting) s = tt
Settled-later key value ver most (kv, fatal) s = s
Settled-later key value ver most (kv, returns v) s =
    let (e, l, m) = s in (e, omega arith, omega arith)

err_maybe-ok : ¬ (err_maybe ≡ ok)
err_maybe-ok h = cc

-- One round of the loop.
abbrev OneRound : String → String → ℕ → List Attempt → List (List Attempt) → KvServer → Type 0
OneRound key value ver sched rest kv =
    let r = put_at_least_once key value (sched ∷ rest) ver kv in
    ((kv' : KvServer) × (r ≡ (kv', waiting)) × (Answered sched → ⊥))
    ⊎ (((kv' : KvServer) × (r ≡ (kv', returns (ver + 1)))
          × (entry kv' key ≡ some (record { value = value; version = ver + 1 })))
        ⊎ ((kv' : KvServer) × (r ≡ put_at_least_once key value rest (ver + 1) kv')
            × (entry kv' key ≡ some (record { value = value; version = ver + 1 }))
            × (Clean sched → ⊥)))

round :
    (key value : String) (ver : ℕ) (sched : List Attempt) (rest : List (List Attempt))
    (kv : KvServer)
    → version_of (entry kv key) ≡ ver
    → Alone key sched
    → ver + (1 + budget sched) < tversion_mod
    → OneRound key value ver sched rest kv
unfolding put_at_least_once
round key value ver sched rest kv now alone fits =
    let args : PutArgs = record { key = key; value = value; version = ver } in
    elim (Option-cases (clerk_put args sched kv).1) [
      | inl n ↦
          inl ((clerk_put args sched kv).0, rw n refl, λ a. clerk_put-Answered args sched kv a n)
      | inr (err, e) ↦
          let kv' = (clerk_put args sched kv).0 in
          let run : clerk_put args sched kv ≡ (kv', some err) = rw (← e) refl in
          let (which, new) =
            sole_put key value ver sched kv kv' err alone now (omega arith) (omega arith) run in
          elim which [
            | inl o ↦ inr (inl (kv', rw (e, o, next_small ver (omega arith)) refl, new))
            | inr mb ↦ inr (
                inr (
                  kv',
                  rw (e, mb, next_small ver (omega arith)) refl,
                  new,
                  λ c. absurd (
                      err_maybe-ok (
                        sym mb
                        ∙ some_inj
                            (sym e ∙ clerk_put-Clean args sched kv c alone now (omega arith)))),
                ))
          ]
    ]

-- If no other client puts to the key, and the key has the version `ver`, then `PutAtLeastOnce` never
-- fails the test, whatever the network loses; and if it returns a version, then the key has the value
-- at that version, which is one of the next versions, at most one for each of its puts. The key's
-- version plus the puts stays below 2^64.
pub put_at_least_once-Settled :
    (key value : String) (scheds : List (List Attempt)) (ver : ℕ) (kv : KvServer)
    → version_of (entry kv key) ≡ ver
    → All (Alone key) scheds
    → ver + cost scheds < tversion_mod
    → Settled key value ver (length scheds) (put_at_least_once key value scheds ver kv)
put_at_least_once-Settled key value [] ver kv now alone fits = unfold put_at_least_once in tt
put_at_least_once-Settled key value (sched ∷ rest) ver kv now alone fits =
    elim (round key value ver sched rest kv now alone.0 (omega arith)) [
      | inl (kv', e, u) ↦ rw e tt
      | inr (inl (kv', e, new)) ↦ rw e (new, omega arith, omega arith)
      | inr (inr (kv', e, new, u)) ↦ rw e (
          Settled-later key value ver (length rest) (put_at_least_once key value rest (ver + 1) kv')
            (put_at_least_once-Settled key value rest (ver + 1) kv' (ap version_of new) alone.1
              (omega arith)))
    ]

abbrev pub SomeClean : List (List Attempt) → Type 0
SomeClean [] = ⊥
SomeClean (sched ∷ rest) = Clean sched ⊎ SomeClean rest

-- If moreover every call of the clerk is answered, and for one of them no reply is lost, then
-- `PutAtLeastOnce` returns.
pub put_at_least_once_returns :
    (key value : String) (scheds : List (List Attempt)) (ver : ℕ) (kv : KvServer)
    → version_of (entry kv key) ≡ ver
    → All (Alone key) scheds
    → ver + cost scheds < tversion_mod
    → All Answered scheds
    → SomeClean scheds
    → (kv' : KvServer) × (v : ℕ) × (put_at_least_once key value scheds ver kv ≡ (kv', returns v))
put_at_least_once_returns key value [] ver kv now alone fits answered clean = absurd clean
put_at_least_once_returns key value (sched ∷ rest) ver kv now alone fits answered clean =
    elim (round key value ver sched rest kv now alone.0 (omega arith)) [
      | inl (kv', e, u) ↦ absurd (u answered.0)
      | inr (inl (kv', e, new)) ↦ (kv', ver + 1, e)
      | inr (inr (kv', e, new, u)) ↦
          let later : SomeClean rest = elim clean [ inl c ↦ absurd (u c) | inr c ↦ c ] in
          let (kv'', v, r) =
            put_at_least_once_returns key value rest (ver + 1) kv' (ap version_of new) alone.1
              (omega arith) answered.1 later in
          (kv'', v, e ∙ r)
    ]
