-- ===== src/Clients/Tests.antt =====
-- A client that reaches one server, and instances of the theorems about it.
use mit_6_5840_distributed_s.Base.Dict.{lookup}
use mit_6_5840_distributed_s.Clients.Reach.{clnt-Reaches}
use mit_6_5840_distributed_s.Clients.Ends.{Reaches, is_up}
use mit_6_5840_distributed_s.Base.{
  String, ◌≡◌, refl, true, false, some, [], ◌∷◌, string_eq, str_eq_iff, some_inj, Bool-cases, inl,
  inr, ◌==◌,
}
use mit_6_5840_distributed_s.LabRpc.{Network}
use mit_6_5840_distributed_s.Clients.{
  Clnt, make_clnt_end, connect_all, disconnect_all, allowed, lookup,
}

abbrev clnt : Clnt
clnt = record { ends = ("s", "e") ∷ []; srvs = some ("s" ∷ []) }

abbrev net : Network
net = record {
  reliable = true;
  long_delays = false;
  long_reordering = false;
  ends = "e" ∷ [];
  enabled = ("e", true) ∷ [];
  servers = [];
  connections = ("e", some "s") ∷ [];
}

clnt_net-Reaches : Reaches clnt net
unfolding lookup
clnt_net-Reaches = record { distinct = (tt, tt); known = (refl, tt); up = up_at }
  where
    up_at :
        (server name : String)
        → lookup server clnt.ends ≡ some name
        → is_up net name ≡ allowed clnt server
    up_at server name e = elim (Bool-cases ("s" == server)) [
      | inl y ↦
          let n : "e" ≡ name = some_inj (rw (lookup, y) at e) in
          rw (← n, ← (str_eq_iff "s" server).0 y) refl
      | inr y ↦ absurd (cc (rw (lookup, y) at e))
    ]

clnt-Reaches_example :
    ((e : String) (clnt' : Clnt) (net' : Network)
      → make_clnt_end "t" "f" clnt net ≡ some (e, clnt', net')
      → Reaches clnt' net' × (lookup "t" clnt'.ends ≡ some e) × (is_up net' e ≡ allowed clnt "t"))
    × Reaches (connect_all clnt net).0 (connect_all clnt net).1
    × Reaches (disconnect_all clnt net).0 (disconnect_all clnt net).1
clnt-Reaches_example = clnt-Reaches "t" "f" clnt net clnt_net-Reaches

-- The end of a server that is not in the new list stays enabled.
