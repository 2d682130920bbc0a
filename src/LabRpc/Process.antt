-- ===== src/LabRpc/Process.antt =====
-- `processReq` of src/labrpc/labrpc.go for one request, as a state machine: the goroutine that
-- answers the request and the goroutine that runs the handler. A handler's run is one step. Between
-- steps the network and the servers change in any way.
use mit_6_5840_distributed_s.Base.{
  ℕ, String, Bool, not, ◌&&◌, Option, none, some, List, [], ◌∷◌, eqb, if◌then◌else◌,
}
use mit_6_5840_distributed_s.LabRpc.Dispatch.{dispatch}
use mit_6_5840_distributed_s.LabRpc.{
  ReqMsg, ReplyMsg, no_reply, Server, Network, Info, read_endname_info, is_server_dead,
}

pub data Event : Type 0 where
  -- The answering goroutine begins; whether the request is dropped where the network is unreliable.
  begin : (drop : Bool) → Event
  -- The handler runs.
  work : Event
  -- The answering goroutine gets the handler's reply; whether the reply is dropped where the network
  -- is unreliable, and whether it is delayed where replies are reordered.
  take : (drop delay : Bool) → Event
  -- 100 ms pass while it waits for the handler.
  tick : Event
  -- A delay ends.
  elapse : Event

-- What the request has read of the network at its beginning.
pub record Call : Type 0 where
  pub servername : String
  pub server : ℕ
  pub reliable : Bool
  pub longreordering : Bool

pub data Main : Type 0 where
  received : Main
  waiting : Call → Main
  delayed : ReplyMsg → Main
  replied : ReplyMsg → Main

pub data Worker : Type 0 where
  absent : Worker
  running : ℕ → Worker
  finished : ReplyMsg → Worker

-- `served` has the replies of the handler runs for the request.
pub record Process : Type 0 where
  pub main : Main
  pub worker : Worker
  pub served : List ReplyMsg

abbrev pub new_process : Process
new_process = record { main = received; worker = absent; served = [] }

unfoldable pub start_call : Bool → ℕ → String → Info → Process
start_call drop server servername info =
    if not info.reliable && drop
    then record { main = replied no_reply; worker = absent; served = [] }
    else record {
      main = waiting (record {
        servername = servername;
        server = server;
        reliable = info.reliable;
        longreordering = info.longreordering;
      });
      worker = running server;
      served = [];
    }

-- `enabled && servername != nil && server != nil`; else no reply comes, after a delay.
unfoldable pub unreachable : Process
unreachable = record { main = delayed no_reply; worker = absent; served = [] }

unfoldable pub begin_call : Bool → Option String → Option ℕ → Info → Process
unfolding start_call unreachable
begin_call drop (some servername) (some server) info =
    if info.enabled then start_call drop server servername info else unreachable
begin_call drop _ _ info = unreachable

-- After the wait, with the reply of the handler.
unfoldable pub answer : Bool → Bool → Call → ReplyMsg → Bool → Main
answer drop delay call reply dead =
    if dead
    then replied no_reply
    else if not call.reliable && drop
    then replied no_reply
    else if call.longreordering && delay
    then delayed reply
    else replied reply

module _ {S : Type 0} (req : ReqMsg) where
  -- The handler's reply and the servers after it; `none` where the program exits.
  unfoldable pub ran :
      ℕ
      → Option (Server S × ReplyMsg)
      → (ℕ → Server S)
      → Process
      → Option (Process × (ℕ → Server S))
  ran server none servers p = none
  ran server (some (rs, reply)) servers p = some (
    record p { worker = finished reply; served = reply ∷ p.served },
    λ q. if eqb server q then rs else servers q,
  )

  unfoldable pub process_req :
      Event → Network → (ℕ → Server S) → Process → Option (Process × (ℕ → Server S))
  unfolding begin_call answer ran
  process_req (begin drop) rn servers p = elim p.main [
    | received ↦
        let info = read_endname_info req.endname rn in
        some (begin_call drop info.servername info.server info, servers)
    | _ ↦ some (p, servers)
  ]
  process_req work rn servers p = elim p.worker [
    | running server ↦ ran server (dispatch req (servers server)) servers p
    | _ ↦ some (p, servers)
  ]
  process_req (take drop delay) rn servers p = elim p.main [
    | waiting call ↦ elim p.worker [
      | finished reply ↦
          let dead = is_server_dead req.endname call.servername call.server rn in
          some (record p { main = answer drop delay call reply dead }, servers)
      | _ ↦ some (p, servers)
    ]
    | _ ↦ some (p, servers)
  ]
  process_req tick rn servers p = elim p.main [
    | waiting call ↦
        let dead = is_server_dead req.endname call.servername call.server rn in
        some (if dead then record p { main = replied no_reply } else p, servers)
    | _ ↦ some (p, servers)
  ]
  process_req elapse rn servers p = elim p.main [
    | delayed reply ↦ some (record p { main = replied reply }, servers)
    | _ ↦ some (p, servers)
  ]

  -- A run while the network stays as it is.
  unfoldable pub process_all :
      List Event → Network → (ℕ → Server S) → Process → Option (Process × (ℕ → Server S))
  unfolding process_req
  process_all [] rn servers p = some (p, servers)
  process_all (e ∷ es) rn servers p = elim (process_req e rn servers p) [
    | none ↦ none
    | some (p', servers') ↦ process_all es rn servers' p'
  ]
