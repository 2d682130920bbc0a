-- ===== src/Demux/Srv.antt =====
-- src/tester1/demux/dmxsrv.go: the server's side of a shared connection, on the messages of transport.go.
-- `stream` is what is still to be read, and `written` what was written. A goroutine that serves a request
-- is an entry of `working`; when it ends, and what `ServeRequest` returns to it, is an event. `none` is
-- `log.Fatalf`. `init` decodes the first message.
pub mod Counts
pub mod Served
use mit_6_5840_distributed_s.Base.{◌>>=◌}
use mit_6_5840_distributed_s.Base.Bytes.{Bytes}
use mit_6_5840_distributed_s.Base.{
  ℕ, zero, suc, Bool, true, false, not, Option, none, List, [], ◌∷◌, ◌++◌, if◌then◌else◌, get_elem?,
  some,
}
use mit_6_5840_distributed_s.Demux.{tag}
use mit_6_5840_distributed_s.Demux.Transport.{
  Msg, Read, call, eof, short, fatal, read_call, write_call,
}

pub record DemuxSrv : Type 0 where
  pub closed : Bool
  pub trans_open : Bool
  pub clnt_end : Bytes
  pub reading : Bool
  pub stream : Bytes
  pub working : List (ℕ × Bytes)
  pub written : Bytes

pub data Event : Type 0 where
  read_one : Event
  request_served : ℕ → Bytes → Bool → Event

-- `setClosed`, with the flag before.
unfoldable pub set_closed : DemuxSrv → Bool × DemuxSrv
set_closed dmx = (dmx.closed, record dmx { closed = true })

-- `Close`; the transport's own close does not matter twice.
unfoldable pub close_srv : DemuxSrv → DemuxSrv
close_srv dmx =
    let (c, dmx') = set_closed dmx in if c then dmx' else record dmx' { trans_open = false }

abbrev pub without : ℕ → List (ℕ × Bytes) → List (ℕ × Bytes)
without k [] = []
without zero (w ∷ ws) = ws
without (suc k) (w ∷ ws) = w ∷ without k ws

module _ (marshall : Msg → Bytes) (unmarshall : Bytes → Option Msg)
    (init : Bytes → Option Bytes) where
  -- `NewDemuxSrv`.
  abbrev pub connected : Read → Option DemuxSrv
  connected (call m rest) = do
    clnt ← init m.body
    some (record {
      closed = false;
      trans_open = true;
      clnt_end = clnt;
      reading = true;
      stream = rest;
      working = [];
      written = [];
    })
  connected _ = none

  unfoldable pub new_demux_srv : Bytes → Option DemuxSrv
  new_demux_srv s = connected (read_call marshall unmarshall s)

  -- A round of `reader`.
  abbrev pub after_call : DemuxSrv → Read → Option DemuxSrv
  after_call dmx (call m rest) =
      some (record dmx { stream = rest; working = dmx.working ++ (m.tag, m.body) ∷ [] })
  after_call dmx eof = some (record dmx { closed = true; reading = false })
  after_call dmx short = some (record dmx { reading = false })
  after_call dmx fatal = none

  unfoldable pub read_request : DemuxSrv → Option DemuxSrv
  read_request dmx =
      if not dmx.reading
      then some dmx
      else after_call dmx
          (if dmx.trans_open then read_call marshall unmarshall dmx.stream else short)

  -- The end of a goroutine; a write to a closed transport fails.
  abbrev pub reply_bytes : DemuxSrv → ℕ → Bytes → Bool → Bytes
  reply_bytes dmx t rep ok =
      if dmx.trans_open
      then write_call marshall unmarshall (record { tag = t; body = rep; ok = ok })
      else []

  abbrev pub finish_request : ℕ → Bytes → Bool → DemuxSrv → Option (ℕ × Bytes) → DemuxSrv
  finish_request k rep ok dmx none = dmx
  finish_request k rep ok dmx (some (t, req)) = record dmx {
    working = without k dmx.working;
    written = dmx.written ++ reply_bytes dmx t rep ok;
  }

  unfoldable pub srv_event : Event → DemuxSrv → Option DemuxSrv
  srv_event read_one dmx = read_request dmx
  srv_event (request_served k rep ok) dmx =
      some (finish_request k rep ok dmx (get_elem? dmx.working k))

  unfoldable pub srv_run : List Event → DemuxSrv → Option DemuxSrv
  srv_run [] dmx = some dmx
  srv_run (e ∷ es) dmx = do dmx' ← srv_event e dmx; srv_run es dmx'
