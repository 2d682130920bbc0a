-- ===== src/Demux.antt =====
-- src/tester1/demux/callmap.go and dmxclnt.go: the client side of a connection that many calls share.
-- A reply channel is a number, fresh for each call; `answered` lists the channels on which replies
-- were sent. `none` is `log.Fatalf`. Writing to the connection is left out: whatever the other side
-- answers, and when, is a step.
pub mod Answers
pub mod Ends
pub mod Calls
pub mod Transport
pub mod Srv
mod Tests
use mit_6_5840_distributed_s.Base.Bytes.{Bytes, bytes_eq}
use mit_6_5840_distributed_s.Base.Dict.{Dict, insert, delete, lookup}
use mit_6_5840_distributed_s.Base.{
  ℕ, ◌+◌, ◌%◌, ◌^◌, ◌<◌, ◌≡◌, Bool, true, false, Option, none, some, List, [], ◌∷◌, if◌then◌else◌,
  nat_eq,
}

abbrev pub ttag_mod : ℕ
ttag_mod = 2 ^ 32

pub record Reply : Type 0 where
  pub rep : Bytes
  pub ok : Bool
  pub failed : Bool

pub record DemuxClnt : Type 0 where
  pub closed : Bool
  pub calls : Dict ℕ ℕ
  pub next_tag : ℕ
  pub chans : ℕ
  pub answered : List (ℕ × Reply)

-- `NewDemuxClnt`: the tag 0 went to the first message, which has no reply.
unfoldable pub new_demux_clnt : DemuxClnt
new_demux_clnt = record { closed = false; calls = []; next_tag = 1; chans = 0; answered = [] }

-- `callMap.close`, `put` and `remove`.
unfoldable pub close : DemuxClnt → DemuxClnt
close dmx = record dmx { closed = true }

unfoldable pub put : ℕ → ℕ → DemuxClnt → Option DemuxClnt
unfolding insert
put tag ch dmx = if dmx.closed then none else some (record dmx { calls = insert tag ch dmx.calls })

unfoldable pub remove : ℕ → DemuxClnt → Option (ℕ × DemuxClnt)
unfolding lookup delete
remove tag dmx = elim (lookup tag dmx.calls) [
  | none ↦ none
  | some ch ↦ some (ch, record dmx { calls = delete tag dmx.calls })
]

unfoldable pub tag : DemuxClnt → ℕ × DemuxClnt
tag dmx = (dmx.next_tag, record dmx { next_tag = (dmx.next_tag + 1) % ttag_mod })

-- `SendReceive` up to its wait: the channel that it waits on, or `none` where the connection is closed.
unfoldable pub send : DemuxClnt → DemuxClnt × Option ℕ
unfolding tag put
send dmx =
    let (t, dmx1) = tag dmx in
    let ch = dmx1.chans in
    elim (put t ch (record dmx1 { chans = ch + 1 })) [
      | none ↦ (dmx1, none)
      | some dmx2 ↦ (dmx2, some ch)
    ]

unfoldable pub reply : ℕ → Reply → DemuxClnt → Option DemuxClnt
unfolding remove
reply t r dmx = elim (remove t dmx) [
  | none ↦ none
  | some (ch, dmx') ↦ some (record dmx' { answered = (ch, r) ∷ dmx'.answered })
]

abbrev pub tags : Dict ℕ ℕ → List ℕ
tags [] = []
tags ((t, ch) ∷ calls) = t ∷ tags calls

abbrev pub reply_fail : Reply
reply_fail = record { rep = []; ok = false; failed = true }

unfoldable pub fail_all : List ℕ → DemuxClnt → Option DemuxClnt
unfolding reply
fail_all [] dmx = some dmx
fail_all (t ∷ ts) dmx = elim (reply t reply_fail dmx) [ none ↦ none | some dmx' ↦ fail_all ts dmx' ]

-- The end of `reader`, after an error.
unfoldable pub reader_end : DemuxClnt → Option DemuxClnt
unfolding close fail_all
reader_end dmx = let dmx' = close dmx in fail_all (tags dmx'.calls) dmx'

-- What the calls and the reader do, before the tags wrap around.
pub data Step (dmx : DemuxClnt) : DemuxClnt → Type 0 where
  sent : dmx.next_tag + 1 < ttag_mod → Step dmx (send dmx).0
  received : (t : ℕ) (r : Reply) {dmx' : DemuxClnt} → reply t r dmx ≡ some dmx' → Step dmx dmx'
  ended : {dmx' : DemuxClnt} → reader_end dmx ≡ some dmx' → Step dmx dmx'
  closed_by_user : Step dmx (close dmx)

pub data Reach : DemuxClnt → Type 0 where
  start : Reach new_demux_clnt
  later : {s t : DemuxClnt} → Reach s → Step s t → Reach t
