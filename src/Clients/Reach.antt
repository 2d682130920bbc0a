-- ===== src/Clients/Reach.antt =====
-- A client of src/tester1/clnts.go, and the servers that it may reach.
use mathlib.Core.Path.{subst}
use mit_6_5840_distributed_s.Base.Dict.{insert, lookup, lookup-insert, same_self}
use mit_6_5840_distributed_s.Base.{
  String, ◌≡◌, ◌≢◌, refl, ◌∙◌, ap, sym, Bool, true, false, ◌||◌, Option, none, some, List, [],
  arith, if◌then◌else◌, ◌==◌, string_eq, str_eq_iff, Bool-cases, Option-cases, inl, inr, some_inj,
}
use mit_6_5840_distributed_s.LabRpc.{Network, among, make_end, with_end, connect, enable}
use mit_6_5840_distributed_s.Clients.{
  Clnt, allowed, allowed_in, make_clnt_end, new_end, enable_each, connect_all, connect_to,
  disconnect_all,
}
use mit_6_5840_distributed_s.Clients.Ends.{
  is_up, Reaches, enable_each-ends, enable_each-up, insert_new, Known-Free, Free-lookup,
}

-- The network after `new_end`.
abbrev pub ended : String → String → Clnt → Network → Network
ended server name clnt net =
    enable name (allowed clnt server) (connect name server (with_end name net))

is_up-ended :
    (server name other : String) (clnt : Clnt) (net : Network)
    → is_up (ended server name clnt net) other
      ≡ (if name == other then allowed clnt server else is_up net other)
unfolding enable connect
is_up-ended server name other clnt net =
    rw
      (
        lookup-insert name other (allowed clnt server) (insert name false net.enabled),
        lookup-insert name other false net.enabled,
      )
      (ground (arith, str_eq_iff name other))

new_end-Reaches :
    (server name : String) (clnt : Clnt) (net : Network)
    → Reaches clnt net
    → lookup server clnt.ends ≡ none
    → among name net.ends ≡ false
    → Reaches (record clnt { ends = insert server name clnt.ends }) (ended server name clnt net)
unfolding enable connect
new_end-Reaches server name clnt net r absent fresh =
    let free = Known-Free net.ends clnt.ends name r.known fresh in
    let (d, k) = insert_new net.ends server name clnt.ends free r.distinct r.known in
    record {
      distinct = d;
      known = k;
      up = λ s n e. is_up-ended server name n clnt net ∙ up_of s n e;
    }
  where
    up_of :
        (s n : String)
        → lookup s (insert server name clnt.ends) ≡ some n
        → (if name == n then allowed clnt server else is_up net n) ≡ allowed clnt s
    up_of s n e = elim (Bool-cases (server == s)) [
      | inl y ↦
          let nn : name ≡ n =
            some_inj (sym (lookup-insert server s name clnt.ends ∙ rw y refl) ∙ e) in
          let ss : server ≡ s = (str_eq_iff server s).0 y in
          let on : (name == n) ≡ true = (str_eq_iff name n).1 nn in rw on (ap (allowed clnt) ss)
      | inr y ↦
          let old : lookup s clnt.ends ≡ some n =
            sym (lookup-insert server s name clnt.ends ∙ rw y refl) ∙ e in
          let other : n ≢ name =
            Free-lookup name s n clnt.ends (Known-Free net.ends clnt.ends name r.known fresh) old in
          let off : (name == n) ≡ false = ground (arith, str_eq_iff name n) in rw off (r.up s n old)
    ]

-- What a client has after it has asked for the end of a server.
abbrev Asked : String → Clnt → String × Clnt × Network → Type 0
Asked server clnt (e, clnt', net') =
    Reaches clnt' net' × (lookup server clnt'.ends ≡ some e) × (is_up net' e ≡ allowed clnt server)

asked :
    (server name : String) (clnt : Clnt) (net : Network)
    → Reaches clnt net
    → (e : String) (clnt' : Clnt) (net' : Network)
    → make_clnt_end server name clnt net ≡ some (e, clnt', net')
    → Asked server clnt (e, clnt', net')
unfolding make_clnt_end new_end make_end
asked server name clnt net r e clnt' net' h = elim (Option-cases (lookup server clnt.ends)) [
  | inr (n, there) ↦
      let old : ◌≡◌ {A = Option (String × Clnt × Network)} (some (n, clnt, net))
          (some (e, clnt', net')) =
        rw (make_clnt_end, there) at h in
      subst (Asked server clnt) (some_inj old) (r, there, r.up server n there)
  | inl absent ↦ elim (Bool-cases (among name net.ends)) [
    | inl old ↦ absurd (cc (rw (make_clnt_end, absent, old) at h))
    | inr fresh ↦
        let new : ◌≡◌ {A = Option (String × Clnt × Network)}
            (some (
              name,
              record clnt { ends = insert server name clnt.ends },
              ended server name clnt net,
            ))
            (some (e, clnt', net')) =
          rw (make_clnt_end, absent, fresh) at h in
        subst (Asked server clnt) (some_inj new) (
          new_end-Reaches server name clnt net r absent fresh,
          lookup-insert server server name clnt.ends ∙ rw (same_self server) refl,
          is_up-ended server name name clnt net ∙ rw (same_self name) refl,
        )
  ]
]

-- Asking for the end of a server, and connecting or disconnecting a client as a whole, keep exactly the
-- ends enabled whose servers the client may reach; and an end that is asked for is the client's end for
-- that server from then on.
pub clnt-Reaches :
    (server name : String) (clnt : Clnt) (net : Network)
    → Reaches clnt net
    → ((e : String) (clnt' : Clnt) (net' : Network)
        → make_clnt_end server name clnt net ≡ some (e, clnt', net')
        → Reaches clnt' net'
          × (lookup server clnt'.ends ≡ some e)
          × (is_up net' e ≡ allowed clnt server))
      × Reaches (connect_all clnt net).0 (connect_all clnt net).1
      × Reaches (disconnect_all clnt net).0 (disconnect_all clnt net).1
unfolding connect_all disconnect_all
clnt-Reaches server name clnt net r =
    (asked server name clnt net r, whole none true (λ s. refl), whole (some []) false (λ s. refl))
  where
    whole :
        (srvs : Option (List String)) (v : Bool)
        → ((s : String) → allowed_in srvs s ≡ v)
        → Reaches (record clnt { srvs = srvs }) (enable_each (λ s. true) v clnt.ends net)
    whole srvs v h = record {
      distinct = r.distinct;
      known = rw (enable_each-ends (λ s. true) v clnt.ends net) r.known;
      up = λ s n e. enable_each-up (λ s. true) v clnt.ends net s n r.distinct e ∙ sym (h s);
    }

-- `ConnectTo` enables the ends of the servers in the list, and leaves the ends of the others as they
-- were: an end that was enabled stays so, although the client may not reach its server any more.
pub connect_to-up :
    (srvs : Option (List String)) (server name : String) (clnt : Clnt) (net : Network)
    → Reaches clnt net
    → lookup server clnt.ends ≡ some name
    → (is_up (connect_to srvs clnt net).1 name ≡ (allowed_in srvs server || allowed clnt server))
      × (allowed (connect_to srvs clnt net).0 server ≡ allowed_in srvs server)
unfolding connect_to
connect_to-up srvs server name clnt net r e = (
  enable_each-up (allowed_in srvs) true clnt.ends net server name r.distinct e
      ∙ ground (arith, r.up server name e),
  refl,
)
