-- ===== src/Demux/Tests.antt =====
-- Connections on concrete inputs, and instances of the theorems about them.
use mit_6_5840_distributed_s.Demux.Srv.Counts.{tagged}
use mit_6_5840_distributed_s.Demux.Srv.Served.{srv_run-replies}
use mit_6_5840_distributed_s.Demux.Srv.{
  DemuxSrv, Event, request_served, new_demux_srv, read_request, srv_event, srv_run, read_one,
}
use mit_6_5840_distributed_s.Base.Bytes.{Bytes, bytes_eq}
use mit_6_5840_distributed_s.Demux.Transport.Frames.{ReadSome, read_calls-write_calls}
use mit_6_5840_distributed_s.Demux.Transport.{
  Msg, le32, write_call, write_calls, read_full, read_call,
}
use mit_6_5840_distributed_s.Base.Dict.{insert, delete, lookup}
use mit_6_5840_distributed_s.Base.{
  ℕ, ◌<◌, ◌≡◌, refl, true, false, some, [], ◌∷◌, arith, nat_eq, sym, Option, none, List, eqb,
  if◌then◌else◌,
}
use mit_6_5840_distributed_s.Demux.Answers.{answers}
use mit_6_5840_distributed_s.Demux.Calls.{reader_end-answers}
use mit_6_5840_distributed_s.Demux.{
  Reply, DemuxClnt, new_demux_clnt, put, remove, tag, send, reply, reader_end, Step, sent, received,
  Reach, start, later,
}

record Client : Type 0 where
  last : DemuxClnt
  reach : Reach last

module _ (c : Client) where
  after : {t : DemuxClnt} → Step c.last t → Client
  after {t} st = record { last = t; reach = later c.reach st }

-- Three calls; the second one is answered.
called : Client
unfolding after new_demux_clnt send tag put insert
called =
    after
      (after (after (record { last = _; reach = start }) (sent (omega arith))) (sent (omega arith)))
      (sent (omega arith))

abbrev fine : Reply
fine = record { rep = 1 ∷ []; ok = true; failed = false }

one_answered : Client
unfolding after called reply remove lookup delete send tag put insert new_demux_clnt
one_answered = after called (received 2 fine refl)

answered_one : one_answered.last.answered ≡ (1, fine) ∷ []
unfolding one_answered called after
answered_one = refl

reader_end-answers_example :
    (dmx' : DemuxClnt) × (reader_end one_answered.last ≡ some dmx')
    × ((c : ℕ) → c < one_answered.last.chans → answers c dmx'.answered ≡ 1)
reader_end-answers_example = reader_end-answers one_answered.reach

-- A message of two fields and its bytes, in place of gob.
abbrev put_msg : Msg → Bytes
put_msg m = m.tag ∷ (if m.ok then 1 else 0) ∷ m.body

abbrev get_msg : Bytes → Option Msg
get_msg (t ∷ o ∷ body) = some (record { tag = t; body = body; ok = eqb o 1 })
get_msg _ = none

abbrev two_msgs : List Msg
two_msgs =
    record { tag = 1; body = 7 ∷ 8 ∷ []; ok = true }
    ∷ record { tag = 2; body = []; ok = false }
    ∷ []

written :
    write_calls put_msg get_msg two_msgs
    ≡ 4 ∷ 0 ∷ 0 ∷ 0 ∷ 1 ∷ 1 ∷ 7 ∷ 8 ∷ 2 ∷ 0 ∷ 0 ∷ 0 ∷ 2 ∷ 0 ∷ []
unfolding write_calls write_call le32
written = refl

-- The stream ends within the second message.
read_calls-write_calls_example :
    ReadSome put_msg get_msg two_msgs
      (4 ∷ 0 ∷ 0 ∷ 0 ∷ 1 ∷ 1 ∷ 7 ∷ 8 ∷ 2 ∷ 0 ∷ [])
      (0 ∷ 0 ∷ 2 ∷ 0 ∷ [])
      3
read_calls-write_calls_example =
    read_calls-write_calls put_msg get_msg two_msgs (4 ∷ 0 ∷ 0 ∷ 0 ∷ 1 ∷ 1 ∷ 7 ∷ 8 ∷ 2 ∷ 0 ∷ [])
      (0 ∷ 0 ∷ 2 ∷ 0 ∷ []) 3 ((refl, omega arith), ((refl, omega arith), tt)) (sym written)
      (omega arith)

-- The client "c" sends two requests; the second one is served first.
abbrev hello : Msg
hello = record { tag = 0; body = 99 ∷ []; ok = true }

abbrev connected_srv : DemuxSrv
connected_srv = record {
  closed = false;
  trans_open = true;
  clnt_end = 99 ∷ [];
  reading = true;
  stream = 4 ∷ 0 ∷ 0 ∷ 0 ∷ 1 ∷ 1 ∷ 7 ∷ 8 ∷ 2 ∷ 0 ∷ 0 ∷ 0 ∷ 2 ∷ 0 ∷ [];
  working = [];
  written = [];
}

abbrev served_srv : DemuxSrv
served_srv = record {
  closed = true;
  trans_open = true;
  clnt_end = 99 ∷ [];
  reading = false;
  stream = [];
  working = [];
  written = 3 ∷ 0 ∷ 0 ∷ 0 ∷ 2 ∷ 1 ∷ 5 ∷ 2 ∷ 0 ∷ 0 ∷ 0 ∷ 1 ∷ 0 ∷ [];
}

abbrev srv_events : List Event
srv_events =
    read_one ∷ read_one ∷ request_served 1 (5 ∷ []) true ∷ read_one ∷ request_served 0 [] false ∷ []

new_connected :
    new_demux_srv put_msg get_msg some (write_calls put_msg get_msg (hello ∷ two_msgs))
    ≡ some connected_srv
unfolding new_demux_srv read_call read_full write_calls write_call le32
new_connected = refl

run_served : srv_run put_msg get_msg some srv_events connected_srv ≡ some served_srv
unfolding srv_run srv_event read_request read_call read_full write_call le32
run_served = refl

srv_run-replies_example :
    (replies : List Msg) × (served_srv.written ≡ write_calls put_msg get_msg replies)
    × ((t : ℕ) → tagged t replies ≡ tagged t two_msgs)
srv_run-replies_example =
    srv_run-replies put_msg get_msg some two_msgs hello srv_events connected_srv served_srv
      ((refl, omega arith), ((refl, omega arith), ((refl, omega arith), tt))) new_connected
      run_served refl refl
