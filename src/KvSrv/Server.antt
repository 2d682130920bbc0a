-- ===== src/KvSrv/Server.antt =====
-- src/kvsrv1/server.go: the store and its two handlers, each run under the server's mutex, so a
-- call is one step of the state.
use mit_6_5840_distributed_s.Base.{
  ℕ, String, Option, none, some, [], not, eqb, string_eq, if◌then◌else◌,
}
use mit_6_5840_distributed_s.Base.Dict.{Dict, lookup, insert}
use mit_6_5840_distributed_s.KvSrv.Rpc.{
  ok, err_no_key, err_version, next_version, PutArgs, PutReply, GetArgs, GetReply,
}

pub record KvStoreEntry : Type 0 where
  pub value : String
  pub version : ℕ

pub record KvServer : Type 0 where
  pub kv_store : Dict String KvStoreEntry

unfoldable pub make_kv_server : KvServer
make_kv_server = record { kv_store = [] }

-- The reply that the rpc layer hands to the handler: all fields at their zero values.
abbrev no_value : GetReply
no_value = record { value = ""; version = 0; err = err_no_key }

get_reply : Option KvStoreEntry → GetReply
get_reply none = no_value
get_reply (some e) = record { value = e.value; version = e.version; err = ok }

unfoldable pub get : GetArgs → KvServer → GetReply
unfolding get_reply
get args kv = get_reply (lookup args.key kv.kv_store)

unfoldable pub store_entry : KvServer → String → String → ℕ → KvServer
store_entry kv key value version = record {
  kv_store = insert key (record { value = value; version = version }) kv.kv_store;
}

unfoldable pub put_found : Option KvStoreEntry → PutArgs → KvServer → KvServer × PutReply
unfolding store_entry
put_found none args kv =
    if eqb args.version 0
    then (store_entry kv args.key args.value 1, record { err = ok })
    else (kv, record { err = err_no_key })
put_found (some e) args kv =
    if not (eqb args.version e.version)
    then (kv, record { err = err_version })
    else (store_entry kv args.key args.value (next_version e.version), record { err = ok })

unfoldable pub put : PutArgs → KvServer → KvServer × PutReply
unfolding put_found
put args kv = put_found (lookup args.key kv.kv_store) args kv
