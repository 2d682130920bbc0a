-- ===== src/LabRpc/Once.antt =====
-- A request on the network of src/labrpc/labrpc.go and the runs of its handler, whatever else
-- happens to the network.
use mit_6_5840_distributed_s.LabRpc.Dispatch.{dispatch}
use mathlib.Core.Path.{subst}
use mit_6_5840_distributed_s.Base.{
  ℕ, String, ◌≡◌, refl, inl, inr, Bool, true, false, not, ◌&&◌, Option, none, some, List, [], ◌∷◌,
  Bool-cases, ap, some_inj, ◌≤◌, arith, if◌then◌else◌, length,
}
use mit_6_5840_distributed_s.LabRpc.Process.{
  Event, Call, Main, received, waiting, delayed, replied, Worker, absent, running, finished,
  Process, new_process, process_req, start_call, unreachable, begin_call, answer, ran, begin, work,
  take, tick, elapse,
}
use mit_6_5840_distributed_s.LabRpc.{
  ReqMsg, ReplyMsg, Server, Network, Info, no_reply, read_endname_info, is_server_dead,
}

pub record System (S : Type 0) : Type 0 where
  pub rn : Network
  pub servers : ℕ → Server S
  pub process : Process

module _ {S : Type 0} (req : ReqMsg) where
  -- A step of the request, or any change of the network and the servers.
  pub data Step (s : System S) : System S → Type 0 where
    own :
        (e : Event) {p : Process} {servers : ℕ → Server S}
        → process_req req e s.rn s.servers s.process ≡ some (p, servers)
        → Step s (record { rn = s.rn; servers = servers; process = p })
    other :
        (rn : Network) (servers : ℕ → Server S)
        → Step s (record { rn = rn; servers = servers; process = s.process })

  pub data Reach : System S → Type 0 where
    sent :
        (rn : Network) (servers : ℕ → Server S)
        → Reach (record { rn = rn; servers = servers; process = new_process })
    later : {s t : System S} → Reach s → Step s t → Reach t

-- A reply that reports success is the handler's.
abbrev Own : ReplyMsg → Worker → Type 0
Own r w = r.ok ≡ true → w ≡ finished r

abbrev MainFits : Main → Worker → Type 0
MainFits received w = w ≡ absent
MainFits (waiting call) w = Unit
MainFits (delayed r) w = Own r w
MainFits (replied r) w = Own r w

abbrev ServedFits : Worker → List ReplyMsg → Type 0
ServedFits absent served = served ≡ []
ServedFits (running server) served = served ≡ []
ServedFits (finished r) served = served ≡ r ∷ []

abbrev Fits : Process → Type 0
Fits p = MainFits p.main p.worker × ServedFits p.worker p.served

Fits-unreachable : Fits unreachable
unfolding unreachable
Fits-unreachable = (λ h. absurd (cc), refl)

Fits-start_call :
    (drop : Bool) (server : ℕ) (name : String) (info : Info)
    → Fits (start_call drop server name info)
unfolding start_call
Fits-start_call drop server name info = elim (Bool-cases (not info.reliable && drop)) [
  | inl e ↦ rw e (λ h. absurd (cc), refl)
  | inr e ↦ rw e (tt, refl)
]

Fits-begin_call :
    (drop : Bool) (name : Option String) (server : Option ℕ) (info : Info)
    → Fits (begin_call drop name server info)
unfolding begin_call
Fits-begin_call drop none server info = Fits-unreachable
Fits-begin_call drop (some name) none info = Fits-unreachable
Fits-begin_call drop (some name) (some server) info = elim (Bool-cases info.enabled) [
  | inl e ↦ rw e (Fits-start_call drop server name info)
  | inr e ↦ rw e Fits-unreachable
]

MainFits-answer :
    (drop delay : Bool) (call : Call) (r : ReplyMsg) (dead : Bool)
    → MainFits (answer drop delay call r dead) (finished r)
unfolding answer
MainFits-answer drop delay call r true = λ h. absurd (cc)
MainFits-answer drop delay call r false = elim (Bool-cases (not call.reliable && drop)) [
  | inl e ↦ rw e (λ h. absurd (cc))
  | inr e ↦ elim (Bool-cases (call.longreordering && delay)) [
    | inl e' ↦ rw (e, e') (λ h. refl)
    | inr e' ↦ rw (e, e') (λ h. refl)
  ]
]

MainFits-run :
    (m : Main) (server : ℕ) (r : ReplyMsg) → MainFits m (running server) → MainFits m (finished r)
MainFits-run received server r h = absurd (cc)
MainFits-run (waiting call) server r h = tt
MainFits-run (delayed r') server r h = λ o. absurd (cc (h o))
MainFits-run (replied r') server r h = λ o. absurd (cc (h o))

module _ {S : Type 0} (req : ReqMsg) where
  Fits-ran :
      (server : ℕ) (o : Option (Server S × ReplyMsg)) (servers servers' : ℕ → Server S) (m : Main)
      (sv : List ReplyMsg) (p' : Process)
      → Fits (record { main = m; worker = running server; served = sv })
      → ran req server o servers (record { main = m; worker = running server; served = sv })
        ≡ some (p', servers')
      → Fits p'
  unfolding ran
  Fits-ran server none servers servers' m sv p' f e = absurd (cc)
  Fits-ran server (some (rs, reply)) servers servers' m sv p' f e =
      subst Fits (ap (λ x. x.0) (some_inj e))
        (MainFits-run m server reply f.0, ap (λ l. reply ∷ l) f.1)

  -- Where a step leaves a process, by an equation for what it leaves.
  Fits-of :
      {p p' : Process} {servers servers' : ℕ → Server S}
      → Fits p
      → ◌≡◌ {A = Option (Process × (ℕ → Server S))} (some (p, servers)) (some (p', servers'))
      → Fits p'
  Fits-of f e = subst Fits (ap (λ x. x.0) (some_inj e)) f

  step-Fits :
      (e : Event) (rn : Network) (servers servers' : ℕ → Server S) (m : Main) (w : Worker)
      (sv : List ReplyMsg) (p' : Process)
      → Fits (record { main = m; worker = w; served = sv })
      → process_req req e rn servers (record { main = m; worker = w; served = sv })
        ≡ some (p', servers')
      → Fits p'
  unfolding process_req
  step-Fits (begin drop) rn servers servers' received w sv p' f r =
      let info = read_endname_info req.endname rn in
      Fits-of (Fits-begin_call drop info.servername info.server info) r
  step-Fits (begin drop) rn servers servers' (waiting call) w sv p' f r = Fits-of f r
  step-Fits (begin drop) rn servers servers' (delayed reply) w sv p' f r = Fits-of f r
  step-Fits (begin drop) rn servers servers' (replied reply) w sv p' f r = Fits-of f r
  step-Fits work rn servers servers' m absent sv p' f r = Fits-of f r
  step-Fits work rn servers servers' m (finished reply) sv p' f r = Fits-of f r
  step-Fits work rn servers servers' m (running server) sv p' f r =
      Fits-ran server (dispatch req (servers server)) servers servers' m sv p' f r
  step-Fits (take drop delay) rn servers servers' (waiting call) (finished reply) sv p' f r =
      let dead = is_server_dead req.endname call.servername call.server rn in
      Fits-of (MainFits-answer drop delay call reply dead, f.1) r
  step-Fits (take drop delay) rn servers servers' (waiting call) absent sv p' f r = Fits-of f r
  step-Fits (take drop delay) rn servers servers' (waiting call) (running server) sv p' f r =
      Fits-of f r
  step-Fits (take drop delay) rn servers servers' received w sv p' f r = Fits-of f r
  step-Fits (take drop delay) rn servers servers' (delayed reply) w sv p' f r = Fits-of f r
  step-Fits (take drop delay) rn servers servers' (replied reply) w sv p' f r = Fits-of f r
  step-Fits tick rn servers servers' (waiting call) w sv p' f r =
      Fits-of (tick_fits (is_server_dead req.endname call.servername call.server rn)) r
    where
      tick_fits :
          (dead : Bool)
          → Fits (
              if dead
              then record { main = replied no_reply; worker = w; served = sv }
              else record { main = waiting call; worker = w; served = sv })
      tick_fits true = (λ h. absurd (cc), f.1)
      tick_fits false = f
  step-Fits tick rn servers servers' received w sv p' f r = Fits-of f r
  step-Fits tick rn servers servers' (delayed reply) w sv p' f r = Fits-of f r
  step-Fits tick rn servers servers' (replied reply) w sv p' f r = Fits-of f r
  step-Fits elapse rn servers servers' (delayed reply) w sv p' f r = Fits-of f r
  step-Fits elapse rn servers servers' received w sv p' f r = Fits-of f r
  step-Fits elapse rn servers servers' (waiting call) w sv p' f r = Fits-of f r
  step-Fits elapse rn servers servers' (replied reply) w sv p' f r = Fits-of f r

  Reach-Fits : {s : System S} → Reach req s → Fits s.process
  Reach-Fits (sent rn servers) = (refl, refl)
  Reach-Fits (later {s} {t} r (own e {p} {servers} run)) =
      step-Fits e s.rn s.servers servers s.process.main s.process.worker s.process.served p
        (Reach-Fits r) run
  Reach-Fits (later r (other rn servers)) = Reach-Fits r

served-le-one : (w : Worker) (served : List ReplyMsg) → ServedFits w served → length served ≤ 1
served-le-one absent served h = rw h (omega arith)
served-le-one (running server) served h = rw h (omega arith)
served-le-one (finished r) served h = rw h (omega arith)

-- In every state that a request can reach, whatever happens to the network and to the servers
-- meanwhile, its handler has run at most once; and if the request has been answered with success, the
-- handler has run and the answer is the reply of that run.
pub handled_once :
    {S : Type 0} (req : ReqMsg) {s : System S}
    → Reach req s
    → (length s.process.served ≤ 1)
      × ((r : ReplyMsg) → s.process.main ≡ replied r → r.ok ≡ true → s.process.served ≡ r ∷ [])
handled_once req {s} r =
    let f = Reach-Fits req r in
    (
      served-le-one s.process.worker s.process.served f.1,
      λ reply e o.
          subst (λ w. ServedFits w s.process.served)
            (subst (λ m. MainFits m s.process.worker) e f.0 o) f.1,
    )
