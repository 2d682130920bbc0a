-- ===== src/KvSrv/Lock.antt =====
-- src/kvsrv1/lock/lock.go over the clerk of src/kvsrv1/client.go: each client is a program counter
-- with its live locals, and one event is one attempt of one client's current call (or one put of
-- somebody else to another key). What the network does to the attempt is part of the event. The
-- random `holderID` is a parameter; the sleep of a waiting client is not modelled.
pub mod Places
pub mod Safety
pub mod Progress
use mit_6_5840_distributed_s.Base.{
  ℕ, String, Bool, true, false, not, List, [], ◌∷◌, ◌==◌, eqb, string_eq, if◌then◌else◌,
}
use mit_6_5840_distributed_s.KvSrv.Rpc.{Err, is_ok, PutArgs, GetReply}
use mit_6_5840_distributed_s.KvSrv.Server.{KvServer, make_kv_server, get, put}
use mit_6_5840_distributed_s.KvSrv.Clerk.{returned}

pub record Lock : Type 0 where
  pub holder_id : String
  pub lockname : String

pub data Net : Type 0 where
  request_lost reply_lost delivered : Net

-- Where a client stands. `putting` and `unputting` are inside the clerk's retry loop, with the
-- version that they sent and whether an attempt has failed.
pub data Pc : Type 0 where
  idle : Pc
  getting : Pc
  putting : (version : ℕ) (retried : Bool) → Pc
  held : Pc
  releasing : Pc
  unputting : (version : ℕ) (retried : Bool) → Pc

-- `Acquire` after its `Get`.
unfoldable pub after_get : Lock → GetReply → Pc
after_get lk reply =
    if not (is_ok reply.err)
    then putting 0 false
    else if not (reply.value == lk.holder_id)
    then (if reply.value == "" then putting reply.version false else getting)
    else held

-- `Acquire` after its `Put`: every error goes back to `GET`.
unfoldable pub after_put : Err → Pc
after_put err = if is_ok err then held else getting

-- The lock of client `i`.
abbrev pub lock_of : (ℕ → String) → String → ℕ → Lock
lock_of holder name i = record { holder_id = holder i; lockname = name }

abbrev pub acquire_args : Lock → ℕ → PutArgs
acquire_args lk version = record { key = lk.lockname; value = lk.holder_id; version = version }

abbrev pub release_args : Lock → ℕ → PutArgs
release_args lk version = record { key = lk.lockname; value = ""; version = version }

-- One attempt: a call of `Acquire` from `idle`, of `Release` from `held`.
unfoldable pub client_step : Lock → Net → Pc → KvServer → KvServer × Pc
client_step lk net idle kv = (kv, getting)
client_step lk delivered getting kv = (kv, after_get lk (get (record { key = lk.lockname }) kv))
client_step lk net getting kv = (kv, getting)
client_step lk request_lost (putting v r) kv = (kv, putting v true)
client_step lk reply_lost (putting v r) kv = ((put (acquire_args lk v) kv).0, putting v true)
client_step lk delivered (putting v r) kv =
    let (kv', reply) = put (acquire_args lk v) kv in (kv', after_put (returned r reply.err))
client_step lk net held kv = (kv, releasing)
client_step lk delivered releasing kv =
    (kv, unputting (get (record { key = lk.lockname }) kv).version false)
client_step lk net releasing kv = (kv, releasing)
client_step lk request_lost (unputting v r) kv = (kv, unputting v true)
client_step lk reply_lost (unputting v r) kv = ((put (release_args lk v) kv).0, unputting v true)
client_step lk delivered (unputting v r) kv = ((put (release_args lk v) kv).0, idle)

-- The server and its clients, who share the lock's name.
pub record System : Type 0 where
  pub server : KvServer
  pub pc : ℕ → Pc

abbrev pub update : (ℕ → Pc) → ℕ → Pc → ℕ → Pc
update pc i p j = if eqb i j then p else pc j

pub data Event : Type 0 where
  act : (client : ℕ) (net : Net) → Event
  other : PutArgs → Event

unfoldable pub step : (ℕ → String) → String → Event → System → System
unfolding client_step
step holder name (act i net) s =
    let (kv, p) = client_step (lock_of holder name i) net (s.pc i) s.server in
    record { server = kv; pc = update s.pc i p }
step holder name (other args) s =
    if args.key == name then s else record s { server = (put args s.server).0 }

unfoldable pub start : System
start = record { server = make_kv_server; pc = λ _. idle }

unfoldable pub run : (ℕ → String) → String → List Event → System → System
run holder name [] s = s
run holder name (e ∷ es) s = run holder name es (step holder name e s)
