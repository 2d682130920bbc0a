-- ===== src/KvSrv/Tests.antt =====
-- Runs of the key/value service on concrete inputs, and instances of its theorems.
use mit_6_5840_distributed_s.Base.{
  ℕ, zero, suc, String, ◌≡◌, ◌≢◌, refl, ap, some, true, List, [], ◌∷◌, arith,
}
use mit_6_5840_distributed_s.Base.Dict.{lookup, insert}
use mit_6_5840_distributed_s.KvSrv.Rpc.{ok, err_version, err_maybe, next_version, PutArgs}
use mit_6_5840_distributed_s.KvSrv.Server.{KvServer, get, put, make_kv_server}
use mit_6_5840_distributed_s.KvSrv.Laws.{entry}
use mit_6_5840_distributed_s.KvSrv.Model.{init}
use mit_6_5840_distributed_s.KvSrv.Refine.{
  Request, get_request, put_request, Operation, serve, history, partition, select, accepts,
  partition_accepted,
}
use mit_6_5840_distributed_s.KvSrv.Lock.{
  Lock, idle, held, Event, act, start, run, step, client_step, after_get, after_put, delivered,
  reply_lost,
}
use mit_6_5840_distributed_s.KvSrv.Lock.Places.{value_of}
use mit_6_5840_distributed_s.KvSrv.Lock.Safety.{mutual_exclusion}
use mit_6_5840_distributed_s.KvSrv.Lock.Progress.{alone, acquire_free}
use mit_6_5840_distributed_s.KvSrv.Clerk
use mit_6_5840_distributed_s.KvSrv.Clerk.{Attempt, serve_puts, clerk_put, others_until}
use mit_6_5840_distributed_s.KvSrv.Clerk.Linear.{TakesEffect, clerk_put_linear}

abbrev put_x : String → ℕ → PutArgs
put_x value version = record { key = "x"; value = value; version = version }

put_twice :
    (put (put_x "b" 0) (put (put_x "a" 0) make_kv_server).0).1 ≡ record { err = err_version }
unfolding put make_kv_server lookup insert
put_twice = refl

get_after_put :
    get (record { key = "x" }) (put (put_x "a" 0) make_kv_server).0
    ≡ record { value = "a"; version = 1; err = ok }
unfolding get put make_kv_server lookup insert
get_after_put = refl

abbrev requests : List Request
requests =
    put_request (put_x "a" 0)
    ∷ put_request (record { key = "y"; value = "b"; version = 0 })
    ∷ put_request (put_x "c" 1)
    ∷ put_request (put_x "d" 1)
    ∷ get_request (record { key = "x" })
    ∷ []

abbrev x_operations : List Operation
x_operations = select "x" (history requests make_kv_server)

partition_accepted_example : accepts (some init) x_operations ≡ true
unfolding lookup insert partition history serve get put make_kv_server next_version
partition_accepted_example =
    partition_accepted requests "x" x_operations refl
      (λ _ e. cc, (λ _ e. cc, (λ _ e. cc, (λ _ e. cc, tt))))

-- The first attempt runs and its reply is lost; another client's put fails meanwhile.
abbrev lossy : List Attempt
lossy = Clerk.reply_lost [] ∷ Clerk.request_lost (put_x "z" 0 ∷ []) ∷ Clerk.delivered [] ∷ []

abbrev after_lossy : KvServer
after_lossy = (clerk_put (put_x "a" 0) lossy make_kv_server).0

clerk_put_linear_example :
    TakesEffect
      (put_x "a" 0)
      (others_until lossy)
      (entry make_kv_server "x")
      (entry after_lossy "x")
      err_maybe
unfolding clerk_put serve_puts put make_kv_server lookup insert
clerk_put_linear_example =
    clerk_put_linear (put_x "a" 0) lossy make_kv_server after_lossy err_maybe (omega arith) refl

-- One holder id for each client: "a", "aa", "aaa", …
abbrev id_of : ℕ → String
id_of zero = "a"
id_of (suc i) = String.◌∷◌ "a" (id_of i)

abbrev size : String → ℕ
size String.[] = 0
size (String.◌∷◌ c s) = suc (size s)

size-id_of : (i : ℕ) → size (id_of i) ≡ suc i
size-id_of zero = refl
size-id_of (suc i) = omega (arith, size-id_of i)

id_of_injective : (i j : ℕ) → id_of i ≡ id_of j → i ≡ j
id_of_injective i j e = omega (arith, size-id_of i, size-id_of j, ap size e)

id_of_nonempty : (i : ℕ) → id_of i ≢ ""
id_of_nonempty i e = absurd (omega (arith, size-id_of i, ap size e))

-- Client 1 acquires although the reply of its put is lost; client 0 keeps trying.
abbrev contended : List Event
contended =
    act 1 delivered
    ∷ act 0 delivered
    ∷ act 1 delivered
    ∷ act 0 delivered
    ∷ act 1 reply_lost
    ∷ act 0 delivered
    ∷ act 1 delivered
    ∷ act 1 delivered
    ∷ act 0 delivered
    ∷ []

contended_held : (run id_of "l" contended start).pc 1 ≡ held
unfolding run step start client_step get put make_kv_server lookup insert after_get after_put
    next_version
contended_held = refl

mutual_exclusion_example : ◌≡◌ {A = ℕ} 1 1
unfolding run step start client_step get put make_kv_server lookup insert after_get after_put
    next_version
mutual_exclusion_example =
    mutual_exclusion id_of "l" id_of_injective id_of_nonempty contended 1 1 (omega arith) refl refl

abbrev lock_l : Lock
lock_l = record { holder_id = "me"; lockname = "l" }

acquire_free_example :
    let s = alone lock_l 3 (idle, make_kv_server) in
    (s.0 ≡ held) × (value_of (entry s.1 "l") ≡ "me")
unfolding make_kv_server lookup
acquire_free_example =
    acquire_free lock_l make_kv_server (λ e. absurd (omega (arith, ap size e))) refl
