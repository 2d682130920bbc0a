-- ===== src/LabRpc/Wiring.antt =====
-- How the operations of the network (src/labrpc/labrpc.go) decide which requests are answered.
use mathlib.Core.Path.{subst}
use mit_6_5840_distributed_s.Base.Dict.{same_self, lookup-insert}
use mit_6_5840_distributed_s.Base.{
  ℕ, String, ◌≡◌, refl, ◌≢◌, ◌⊎◌, Bool, true, false, none, some, [], ◌∷◌, arith, eqb, if◌then◌else◌,
  sym, ap, ◌∙◌, inl, inr, Option, List, some_inj,
}
use mit_6_5840_distributed_s.LabRpc.Process.{
  Event, begin, work, take, Call, waiting, replied, finished, Process, new_process, start_call,
  begin_call, answer, ran, process_req, process_all, tick, elapse, Worker, absent, running,
}
use mit_6_5840_distributed_s.LabRpc.Dispatch.{dispatch}
use mit_6_5840_distributed_s.LabRpc.{
  ReqMsg, ReplyMsg, no_reply, Server, Network, read_endname_info, is_server_dead, add_server,
  delete_server, connect, enable,
}

-- An end that was made on a network, and then connected to a server and enabled.
abbrev pub wire : String → String → ℕ → Network → Network
wire endname servername server rn =
    enable endname true (connect endname servername (add_server servername server rn))

read_endname_info-wire :
    (endname servername : String) (server : ℕ) (rn : Network)
    → read_endname_info endname (wire endname servername server rn) ≡ record {
      enabled = true;
      servername = some servername;
      server = some server;
      reliable = rn.reliable;
      longreordering = rn.long_reordering;
    }
unfolding read_endname_info enable connect add_server
read_endname_info-wire endname servername server rn =
    rw
      (
        lookup-insert endname endname true rn.enabled,
        lookup-insert endname endname (some servername) rn.connections,
        same_self endname,
        lookup-insert servername servername (some server) rn.servers,
        same_self servername,
      )
      refl

is_server_dead-wire :
    (endname servername : String) (server : ℕ) (rn : Network)
    → is_server_dead endname servername server (wire endname servername server rn) ≡ false
unfolding is_server_dead enable connect add_server
is_server_dead-wire endname servername server rn =
    rw
      (
        lookup-insert endname endname true rn.enabled,
        same_self endname,
        lookup-insert servername servername (some server) rn.servers,
        same_self servername,
      )
      (ground arith)

process_all-step :
    {S : Type 0} (req : ReqMsg) (e : Event) (es : List Event) (rn : Network)
    (servers : ℕ → Server S) (p : Process) {servers' : ℕ → Server S} {p' : Process}
    → process_req req e rn servers p ≡ some (p', servers')
    → process_all req (e ∷ es) rn servers p ≡ process_all req es rn servers' p'
unfolding process_all
process_all-step req e es rn servers p h = rw (process_all, h) refl

-- On a reliable network without reordering, a request of an end that was connected to a server and
-- enabled is answered with the reply of the server's handler, once the handler has run, if it returns,
-- and only that server changes.
pub wired_delivers :
    {S : Type 0} (req : ReqMsg) (servername : String) (server : ℕ) (rn : Network)
    (servers : ℕ → Server S) (rs : Server S) (reply : ReplyMsg) (drop drop' delay : Bool)
    → rn.reliable ≡ true
    → rn.long_reordering ≡ false
    → dispatch req (servers server) ≡ some (rs, reply)
    → process_all req
        (begin drop ∷ work ∷ take drop' delay ∷ [])
        (wire req.endname servername server rn)
        servers
        new_process
      ≡ some (
        record { main = replied reply; worker = finished reply; served = reply ∷ [] },
        λ q. if eqb server q then rs else servers q,
      )
unfolding process_req begin_call start_call ran answer process_all
wired_delivers {S} req servername server rn servers rs reply drop drop' delay rel ord run =
    process_all-step req (begin drop) (work ∷ take drop' delay ∷ []) net servers new_process
      (ap (λ i. some (begin_call drop i.servername i.server i, servers)) info)
    ∙ process_all-step req work (take drop' delay ∷ []) net servers called {p' = done}
        (ap (λ o. ran req server o servers called) run)
    ∙ process_all-step req (take drop' delay) [] net after done (
        ap (λ dead. some (record done { main = answer drop' delay call reply dead }, after))
          (is_server_dead-wire req.endname servername server rn))
  where
    net : Network
    net = wire req.endname servername server rn

    call : Call
    call = record {
      servername = servername;
      server = server;
      reliable = true;
      longreordering = false;
    }

    called : Process
    called = record { main = waiting call; worker = running server; served = [] }

    done : Process
    done = record { main = waiting call; worker = finished reply; served = reply ∷ [] }

    after : ℕ → Server S
    after q = if eqb server q then rs else servers q

    info : read_endname_info req.endname net ≡ record {
      enabled = true;
      servername = some servername;
      server = some server;
      reliable = true;
      longreordering = false;
    }
    info = rw (read_endname_info-wire req.endname servername server rn, rel, ord) refl

-- The networks that have cut off a request of the end to a server since it began: the end was
-- disabled, or the server was deleted, or replaced under its name.
pub data CutOff (endname servername : String) (server : ℕ) : Network → Type 0 where
  disabled : (rn : Network) → CutOff endname servername server (enable endname false rn)
  deleted : (rn : Network) → CutOff endname servername server (delete_server servername rn)
  replaced :
      (rn : Network) (other : ℕ)
      → other ≢ server
      → CutOff endname servername server (add_server servername other rn)

CutOff-dead :
    {endname servername : String} {server : ℕ} {rn : Network}
    → CutOff endname servername server rn
    → is_server_dead endname servername server rn ≡ true
unfolding is_server_dead enable delete_server add_server
CutOff-dead {endname} (disabled rn) =
    rw (lookup-insert endname endname false rn.enabled, same_self endname) refl
CutOff-dead {servername} (deleted rn) =
    rw (lookup-insert servername servername none rn.servers, same_self servername) (ground arith)
CutOff-dead {servername} (replaced rn other d) =
    rw (lookup-insert servername servername (some other) rn.servers, same_self servername)
      (ground arith)

main_of :
    {S : Type 0} {p p' : Process} {servers servers' : ℕ → Server S}
    → ◌≡◌ {A = Option (Process × (ℕ → Server S))} (some (p, servers)) (some (p', servers'))
    → p'.main ≡ p.main
main_of e = ap (λ x. x.0.main) (sym (some_inj e))

main-ran :
    {S : Type 0} (req : ReqMsg) (server : ℕ) (o : Option (Server S × ReplyMsg))
    (servers servers' : ℕ → Server S) (p p' : Process)
    → ran req server o servers p ≡ some (p', servers')
    → p'.main ≡ p.main
unfolding ran
main-ran req server none servers servers' p p' e = absurd (cc)
main-ran req server (some (rs, reply)) servers servers' p p' e = main_of e

waiting-no_reply :
    {S : Type 0} (req : ReqMsg) (call : Call) (rn : Network) (e : Event)
    (servers servers' : ℕ → Server S) (w : Worker) (sv : List ReplyMsg) (p' : Process)
    → is_server_dead req.endname call.servername call.server rn ≡ true
    → process_req req e rn servers (record { main = waiting call; worker = w; served = sv })
      ≡ some (p', servers')
    → (p'.main ≡ waiting call) ⊎ (p'.main ≡ replied no_reply)
unfolding process_req answer
waiting-no_reply req call rn (begin drop) servers servers' w sv p' dead r = inl (main_of r)
waiting-no_reply req call rn work servers servers' absent sv p' dead r = inl (main_of r)
waiting-no_reply req call rn work servers servers' (finished reply) sv p' dead r = inl (main_of r)
waiting-no_reply req call rn work servers servers' (running server) sv p' dead r = inl (
    main-ran req server (dispatch req (servers server)) servers servers'
      (record { main = waiting call; worker = running server; served = sv }) p' r)
waiting-no_reply req call rn (take drop delay) servers servers' absent sv p' dead r =
    inl (main_of r)
waiting-no_reply req call rn (take drop delay) servers servers' (running server) sv p' dead r =
    inl (main_of r)
waiting-no_reply req call rn (take drop delay) servers servers' (finished reply) sv p' dead r =
    inr (main_of r ∙ ap (answer drop delay call reply) dead)
waiting-no_reply req call rn tick servers servers' w sv p' dead r = inr (
    main_of r
    ∙ ap
        (λ d.
          let x : Process =
            if d
            then record { main = replied no_reply; worker = w; served = sv }
            else record { main = waiting call; worker = w; served = sv } in
          x.main)
        dead)
waiting-no_reply req call rn elapse servers servers' w sv p' dead r = inl (main_of r)

-- A request that waits for a server from which it has been cut off is not answered with a reply of
-- the server: each step of it leaves it waiting, or answers that there is no reply.
pub CutOff-no_reply :
    {S : Type 0} (req : ReqMsg) (call : Call) (rn : Network) (e : Event)
    (servers servers' : ℕ → Server S) (p p' : Process)
    → CutOff req.endname call.servername call.server rn
    → p.main ≡ waiting call
    → process_req req e rn servers p ≡ some (p', servers')
    → (p'.main ≡ waiting call) ⊎ (p'.main ≡ replied no_reply)
CutOff-no_reply req call rn e servers servers' p p' cut w run =
    waiting-no_reply req call rn e servers servers' p.worker p.served p' (CutOff-dead cut) (
      subst
        (λ m.
          process_req req e rn servers (record { main = m; worker = p.worker; served = p.served })
          ≡ some (p', servers'))
        w run)
