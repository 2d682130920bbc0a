-- ===== src/LabRpc/Tests.antt =====
-- Requests on concrete networks, and instances of the theorems about them.
use mit_6_5840_distributed_s.Base.Bytes.{Bytes, bytes_eq}
use mit_6_5840_distributed_s.Base.Dict.{insert, lookup}
use mit_6_5840_distributed_s.Base.{
  ℕ, ◌≤◌, ◌≡◌, refl, ◌⊎◌, true, false, none, some, [], ◌∷◌, eqb, if◌then◌else◌, length,
}
use mit_6_5840_distributed_s.LabRpc.Wiring.{wire, wired_delivers, deleted, CutOff-no_reply}
use mit_6_5840_distributed_s.LabRpc.Process.{
  begin, work, take, Call, Main, waiting, replied, finished, Process, new_process, start_call,
  begin_call, answer, ran, process_req, process_all,
}
use mit_6_5840_distributed_s.LabRpc.Dispatch.{
  dispatch, dispatch_method, split_dot, service_dispatch, known_service, dispatch_to,
}
use mit_6_5840_distributed_s.LabRpc.Once.{System, Step, Reach, handled_once, later, sent, own}
use mit_6_5840_distributed_s.LabRpc.{
  Method, ReqMsg, ReplyMsg, no_reply, Server, Network, make_network, read_endname_info,
  is_server_dead, add_server, delete_server, connect, enable,
}

-- A service "S" with one method "m" that keeps its argument and answers with what it kept before.
abbrev swap_method : Method Bytes
swap_method args state = (args, state)

abbrev server : Server Bytes
server = record {
  services = (83 ∷ [], (109 ∷ [], swap_method) ∷ []) ∷ [];
  count = 0;
  dispatchf = none;
  state = 7 ∷ [];
}

abbrev request : ReqMsg
request = record { endname = "e"; svc_meth = 83 ∷ 46 ∷ 109 ∷ []; args = 1 ∷ [] }

abbrev servers : ℕ → Server Bytes
servers p = server

abbrev answered : ReplyMsg
answered = record { ok = true; reply = 7 ∷ [] }

abbrev net : Network
net = wire "e" "s" 0 make_network

swap_dispatched :
    dispatch request server ≡ some (record server { count = 1; state = 1 ∷ [] }, answered)
unfolding lookup
swap_dispatched =
    dispatch_method server (83 ∷ []) (109 ∷ []) (1 ∷ []) "e" ((109 ∷ [], swap_method) ∷ [])
      swap_method refl refl refl refl

wired_delivers_example :
    process_all request (begin true ∷ work ∷ take true true ∷ []) net servers new_process
    ≡ some (
      record { main = replied answered; worker = finished answered; served = answered ∷ [] },
      λ q. if eqb 0 q then record server { count = 1; state = 1 ∷ [] } else servers q,
    )
unfolding make_network
wired_delivers_example =
    wired_delivers request "s" 0 make_network servers (record server { count = 1; state = 1 ∷ [] })
      answered true true true refl refl swap_dispatched

record Sent : Type 0 where
  last : System Bytes
  reach : Reach request last

module _ (s : Sent) where
  after : {t : System Bytes} → Step request s.last t → Sent
  after {t} st = record { last = t; reach = later s.reach st }

begun : Sent
unfolding after process_req begin_call start_call read_endname_info make_network enable connect
    add_server lookup insert
begun = after (record { last = _; reach = sent net servers }) (own (begin false) refl)

worked : Sent
unfolding after begun process_req ran dispatch dispatch_to known_service service_dispatch split_dot
    lookup
worked = after begun (own work refl)

taken : Sent
unfolding after worked process_req answer is_server_dead lookup insert enable connect add_server
    make_network begun ran dispatch dispatch_to known_service service_dispatch split_dot begin_call
    start_call read_endname_info
taken = after worked (own (take false false) refl)

handled_once_example :
    (length taken.last.process.served ≤ 1)
    × ((r : ReplyMsg)
        → taken.last.process.main ≡ replied r
        → r.ok ≡ true
        → taken.last.process.served ≡ r ∷ [])
handled_once_example = handled_once request taken.reach

abbrev call : Call
call = record { servername = "s"; server = 0; reliable = true; longreordering = false }

abbrev waiting_process : Process
waiting_process = record { main = waiting call; worker = finished answered; served = answered ∷ [] }

CutOff-no_reply_example :
    ◌≡◌ {A = Main} (replied no_reply) (waiting call)
    ⊎ ◌≡◌ {A = Main} (replied no_reply) (replied no_reply)
unfolding process_req answer is_server_dead delete_server enable connect add_server make_network
    lookup insert
CutOff-no_reply_example =
    CutOff-no_reply request call (delete_server "s" net) (take false false) servers servers
      waiting_process (record waiting_process { main = replied no_reply }) (deleted net) refl refl
