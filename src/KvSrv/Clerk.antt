-- ===== src/KvSrv/Clerk.antt =====
-- src/kvsrv1/client.go: the retry loops of the clerk over a network that loses requests and
-- replies. What the network does to each attempt, and the puts of other clients that the server
-- runs before it, are the schedule. A call that fails has either not reached the handler or has
-- been executed with its reply lost: the network of src/labrpc runs the handler before it decides
-- to drop the reply. The sleep between attempts is not modelled.
pub mod Late
pub mod Linear
pub mod Sole
use mit_6_5840_distributed_s.Base.{
  ℕ, Bool, true, false, ◌&&◌, Option, none, some, List, [], ◌∷◌, ◌++◌, if◌then◌else◌,
}
use mit_6_5840_distributed_s.KvSrv.Rpc.{Err, err_maybe, is_err_version, PutArgs, GetArgs, GetReply}
use mit_6_5840_distributed_s.KvSrv.Server.{KvServer, get, put}

-- An attempt, with the puts of other clients that the server ran since the attempt before.
pub data Attempt : Type 0 where
  request_lost reply_lost delivered : List PutArgs → Attempt

-- The puts of other clients, in the order in which the server runs them.
unfoldable pub serve_puts : List PutArgs → KvServer → KvServer
serve_puts [] kv = kv
serve_puts (p ∷ ps) kv = serve_puts ps (put p kv).0

-- The error that `Put` returns for a reply.
abbrev pub returned : Bool → Err → Err
returned retried err = if is_err_version err && retried then err_maybe else err

-- `Clerk.Put`. `none`: the schedule ends while the clerk still retries.
unfoldable pub clerk_put_loop : PutArgs → Bool → List Attempt → KvServer → KvServer × Option Err
clerk_put_loop args retried [] kv = (kv, none)
clerk_put_loop args retried (request_lost others ∷ rest) kv =
    clerk_put_loop args true rest (serve_puts others kv)
clerk_put_loop args retried (reply_lost others ∷ rest) kv =
    clerk_put_loop args true rest (put args (serve_puts others kv)).0
clerk_put_loop args retried (delivered others ∷ rest) kv =
    let (kv', reply) = put args (serve_puts others kv) in (kv', some (returned retried reply.err))

unfoldable pub clerk_put : PutArgs → List Attempt → KvServer → KvServer × Option Err
unfolding clerk_put_loop
clerk_put args sched kv = clerk_put_loop args false sched kv

-- `Clerk.Get`: the reply of the first attempt whose reply arrives.
unfoldable pub clerk_get : GetArgs → List Attempt → KvServer → KvServer × Option GetReply
clerk_get args [] kv = (kv, none)
clerk_get args (request_lost others ∷ rest) kv = clerk_get args rest (serve_puts others kv)
clerk_get args (reply_lost others ∷ rest) kv = clerk_get args rest (serve_puts others kv)
clerk_get args (delivered others ∷ rest) kv =
    let kv' = serve_puts others kv in (kv', some (get args kv'))

-- The other clients' puts that ran before the call returned.
abbrev pub others_until : List Attempt → List PutArgs
others_until [] = []
others_until (request_lost others ∷ rest) = others ++ others_until rest
others_until (reply_lost others ∷ rest) = others ++ others_until rest
others_until (delivered others ∷ rest) = others
