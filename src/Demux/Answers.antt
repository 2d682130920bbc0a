-- ===== src/Demux/Answers.antt =====
-- The calls of src/tester1/demux and the answers on their channels.
use mit_6_5840_distributed_s.Base.Dict.{delete, lookup, lookup-insert, lookup-delete}
use mit_6_5840_distributed_s.Base.{
  ℕ, suc, ◌+◌, ◌≤◌, ◌<◌, ◌≡◌, refl, inl, inr, some, List, [], ◌∷◌, arith, eqb, if◌then◌else◌,
  Bool-cases, nat_eq,
}
use mit_6_5840_distributed_s.Demux.{
  ttag_mod, Reply, DemuxClnt, new_demux_clnt, close, put, tag, send,
}

-- How often a channel was answered.
abbrev pub answers : ℕ → List (ℕ × Reply) → ℕ
answers ch [] = 0
answers ch ((c, r) ∷ answered) = if eqb c ch then suc (answers ch answered) else answers ch answered

pub record Inv (dmx : DemuxClnt) : Type 0 where
  pub old_tag : (t c : ℕ) → lookup t dmx.calls ≡ some c → t < dmx.next_tag
  pub old_chan : (t c : ℕ) → lookup t dmx.calls ≡ some c → c < dmx.chans
  pub own : (t u c : ℕ) → lookup t dmx.calls ≡ some c → lookup u dmx.calls ≡ some c → t ≡ u
  pub waiting : (t c : ℕ) → lookup t dmx.calls ≡ some c → answers c dmx.answered ≡ 0
  pub unused : (c : ℕ) → dmx.chans ≤ c → answers c dmx.answered ≡ 0
  pub once : (c : ℕ) → answers c dmx.answered ≤ 1

pub Inv-start : Inv new_demux_clnt
unfolding new_demux_clnt lookup
Inv-start = record {
  old_tag = λ t c h. absurd (cc);
  old_chan = λ t c h. absurd (cc);
  own = λ t u c h h'. absurd (cc);
  waiting = λ t c h. refl;
  unused = λ c h. refl;
  once = λ c. omega arith;
}

pub Inv-send : (dmx : DemuxClnt) → dmx.next_tag + 1 < ttag_mod → Inv dmx → Inv (send dmx).0
unfolding send tag put
Inv-send dmx small inv = elim (Bool-cases dmx.closed) [
  | inl e ↦ rw e (record {
    old_tag = λ t c h. omega (arith, small, inv.old_tag t c h);
    old_chan = inv.old_chan;
    own = inv.own;
    waiting = inv.waiting;
    unused = inv.unused;
    once = inv.once;
  })
  | inr e ↦ rw e (record {
    old_tag = λ t c h.
        ground (arith, small, h, lookup-insert dmx.next_tag t dmx.chans dmx.calls, inv.old_tag t c);
    old_chan = λ t c h.
        ground (arith, h, lookup-insert dmx.next_tag t dmx.chans dmx.calls, inv.old_chan t c);
    own = λ t u c h h'. ground (
      arith,
      h,
      h',
      lookup-insert dmx.next_tag t dmx.chans dmx.calls,
      lookup-insert dmx.next_tag u dmx.chans dmx.calls,
      inv.own t u c,
      inv.old_chan t c,
      inv.old_chan u c,
    );
    waiting = λ t c h.
        ground (
          arith,
          h,
          lookup-insert dmx.next_tag t dmx.chans dmx.calls,
          inv.waiting t c,
          inv.unused c,
        );
    unused = λ c h. inv.unused c (omega arith);
    once = inv.once;
  })
]

pub Inv-close : (dmx : DemuxClnt) → Inv dmx → Inv (close dmx)
unfolding close
Inv-close dmx inv = record {
  old_tag = inv.old_tag;
  old_chan = inv.old_chan;
  own = inv.own;
  waiting = inv.waiting;
  unused = inv.unused;
  once = inv.once;
}

abbrev pub answer_on : ℕ → ℕ → Reply → DemuxClnt → DemuxClnt
answer_on t c r dmx = record dmx { calls = delete t dmx.calls; answered = (c, r) ∷ dmx.answered }

pub Inv-answer_on :
    (t c : ℕ) (r : Reply) (dmx : DemuxClnt)
    → lookup t dmx.calls ≡ some c
    → Inv dmx
    → Inv (answer_on t c r dmx)
Inv-answer_on t c r dmx g inv = record {
  old_tag = λ u d h. ground (arith, h, lookup-delete t u dmx.calls, inv.old_tag u d);
  old_chan = λ u d h. ground (arith, h, lookup-delete t u dmx.calls, inv.old_chan u d);
  own = λ u w d h h'.
      ground
        (arith, h, h', lookup-delete t u dmx.calls, lookup-delete t w dmx.calls, inv.own u w d);
  waiting =
      λ u d h. ground (arith, h, g, lookup-delete t u dmx.calls, inv.waiting u d, inv.own t u c);
  unused = λ d h. ground (arith, h, g, inv.unused d, inv.old_chan t c);
  once = λ d. ground (arith, g, inv.once d, inv.waiting t c);
}
