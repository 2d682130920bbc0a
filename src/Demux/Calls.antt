-- ===== src/Demux/Calls.antt =====
-- What a caller of src/tester1/demux/dmxclnt.go can rely on.
use mathlib.Core.Path.{subst}
use mit_6_5840_distributed_s.Base.Dict.{Dict, same_self, lookup, lookup-insert, insert}
use mit_6_5840_distributed_s.Base.{
  ℕ, ◌≤◌, ◌<◌, ◌≡◌, refl, sym, ◌∙◌, inl, inr, false, none, some, [], ◌∷◌, arith, eqb, eqb_iff,
  Bool-cases, Option-cases, some_inj, nat_eq, ◌+◌, ◌%◌,
}
use mit_6_5840_distributed_s.Demux.Answers.{
  answers, Inv, Inv-start, Inv-send, Inv-close, answer_on, Inv-answer_on,
}
use mit_6_5840_distributed_s.Demux.Ends.{
  Distinct, mem-lookup, lookup-mem, Distinct-insert, Distinct-delete, Accounted,
  Accounted-answer_on, reply-answer_on, AllFailed, fail_all-AllFailed,
}
use mit_6_5840_distributed_s.Demux.{
  Reply, DemuxClnt, new_demux_clnt, close, put, remove, tag, send, reply, tags, reader_end, sent,
  received, ended, closed_by_user, Reach, start, later, ttag_mod,
}

record Full (dmx : DemuxClnt) : Type 0 where
  inv : Inv dmx
  acc : Accounted dmx
  distinct : Distinct (tags dmx.calls)

Accounted-send : (dmx : DemuxClnt) → Inv dmx → Accounted dmx → Accounted (send dmx).0
unfolding send tag put
Accounted-send dmx inv acc = elim (Bool-cases dmx.closed) [
  | inl e ↦ rw e acc
  | inr e ↦ rw e (λ c h. elim (Bool-cases (eqb c dmx.chans)) [
    | inl new ↦ inr (
      dmx.next_tag,
      ground (
        arith,
        lookup-insert dmx.next_tag dmx.next_tag dmx.chans dmx.calls,
        (eqb_iff c dmx.chans).0 new,
      ),
    )
    | inr old ↦ elim (acc c (ground (arith, h, old))) [
      | inl done ↦ inl done
      | inr (t, f) ↦
          inr (
            t,
            ground (arith, lookup-insert dmx.next_tag t dmx.chans dmx.calls, f, inv.old_tag t c),
          )
    ]
  ])
]

Distinct-send : (dmx : DemuxClnt) → Distinct (tags dmx.calls) → Distinct (tags (send dmx).0.calls)
unfolding send tag put
Distinct-send dmx d = elim (Bool-cases dmx.closed) [
  | inl e ↦ rw e d
  | inr e ↦ rw e (Distinct-insert dmx.next_tag dmx.chans dmx.calls d)
]

-- The reader's end, from a state that is accounted for.
ends :
    (dmx : DemuxClnt)
    → Full dmx
    → (dmx' : DemuxClnt) × (reader_end dmx ≡ some dmx') × AllFailed dmx dmx'
unfolding reader_end close
ends dmx f =
    let (dmx', run, a) =
      fail_all-AllFailed (tags dmx.calls) (close dmx) (Inv-close dmx f.inv) f.acc f.distinct
        (λ t m. lookup-mem t dmx.calls m) (λ t c e. mem-lookup t c dmx.calls e) in
    (
      dmx',
      run,
      record {
        same_chans = a.same_chans;
        inv = a.inv;
        no_calls = a.no_calls;
        all_answered = a.all_answered;
      },
    )

Full-ended : (dmx dmx' : DemuxClnt) → AllFailed dmx dmx' → Full dmx'
unfolding lookup
Full-ended dmx dmx' a = record {
  inv = a.inv;
  acc = λ c h. inl (a.all_answered c (rw (← a.same_chans) h));
  distinct = no_tags dmx'.calls a.no_calls;
}
  where
    no_tags : (calls : Dict ℕ ℕ) → ((t : ℕ) → lookup t calls ≡ none) → Distinct (tags calls)
    no_tags [] h = tt
    no_tags ((t, c) ∷ calls) h = absurd (cc (h t, head t c calls))
      where
        head : (t c : ℕ) (calls : Dict ℕ ℕ) → lookup t ((t, c) ∷ calls) ≡ some c
        head t c calls = rw (lookup, same_self t) refl

Full-close : (dmx : DemuxClnt) → Full dmx → Full (close dmx)
unfolding close
Full-close dmx f = record { inv = Inv-close dmx f.inv; acc = f.acc; distinct = f.distinct }

Full-received :
    (dmx dmx' : DemuxClnt) (t : ℕ) (r : Reply) → Full dmx → reply t r dmx ≡ some dmx' → Full dmx'
unfolding reply remove
Full-received dmx dmx' t r f run = elim (Option-cases (lookup t dmx.calls)) [
  | inl e ↦ absurd (cc (rw (reply, e) at run))
  | inr (c, e) ↦ subst Full (some_inj (sym (reply-answer_on t c r dmx e) ∙ run)) (record {
    inv = Inv-answer_on t c r dmx e f.inv;
    acc = Accounted-answer_on t c r dmx e f.inv f.acc;
    distinct = Distinct-delete t dmx.calls f.distinct;
  })
]

Reach-Full : {dmx : DemuxClnt} → Reach dmx → Full dmx
unfolding new_demux_clnt
Reach-Full start = record { inv = Inv-start; acc = λ c h. absurd (omega (arith, h)); distinct = tt }
Reach-Full (later {s} r (sent small)) =
    let f = Reach-Full r in
    record {
      inv = Inv-send s small f.inv;
      acc = Accounted-send s f.inv f.acc;
      distinct = Distinct-send s f.distinct;
    }
Reach-Full (later {s} r closed_by_user) = Full-close s (Reach-Full r)
Reach-Full (later {s} {t} r (ended run)) =
    let (u, run', a) = ends s (Reach-Full r) in
    subst Full (some_inj (sym run' ∙ run)) (Full-ended s u a)
Reach-Full (later {s} {t} r (received g rep run)) = Full-received s t g rep (Reach-Full r) run

-- In every state that the calls and the reader can reach before the tags wrap around, no channel was
-- answered twice.
pub answered_once : {dmx : DemuxClnt} → Reach dmx → (c : ℕ) → answers c dmx.answered ≤ 1
answered_once r c = (Reach-Full r).inv.once c

-- In every state that the calls and the reader can reach before the tags wrap around, the end of the
-- reader finds a channel for every outstanding call, and then every call has been answered exactly
-- once.
pub reader_end-answers :
    {dmx : DemuxClnt}
    → Reach dmx
    → (dmx' : DemuxClnt) × (reader_end dmx ≡ some dmx')
      × ((c : ℕ) → c < dmx.chans → answers c dmx'.answered ≡ 1)
reader_end-answers {dmx} r =
    let (dmx', run, a) = ends dmx (Reach-Full r) in (dmx', run, a.all_answered)

-- In every state that the calls and the reader can reach before the tags wrap around, on an open
-- connection, the reply to the tag of a new call goes to the channel of that call.
pub reply-send :
    {dmx : DemuxClnt} (r : Reply)
    → Reach dmx
    → dmx.closed ≡ false
    → (dmx' : DemuxClnt) × (ch : ℕ) × (send dmx ≡ (dmx', some ch))
      × (answers ch dmx'.answered ≡ 0)
      × (reply dmx.next_tag r dmx' ≡ some (answer_on dmx.next_tag ch r dmx'))
unfolding send tag put
reply-send {dmx} r reach open_ =
    let sent_ : DemuxClnt = record {
      closed = dmx.closed;
      calls = insert dmx.next_tag dmx.chans dmx.calls;
      next_tag = (dmx.next_tag + 1) % ttag_mod;
      chans = dmx.chans + 1;
      answered = dmx.answered;
    } in
    (
      sent_,
      dmx.chans,
      rw (send, open_) refl,
      (Reach-Full reach).inv.unused dmx.chans (omega arith),
      reply-answer_on dmx.next_tag dmx.chans r sent_
          (ground (arith, lookup-insert dmx.next_tag dmx.next_tag dmx.chans dmx.calls)),
    )
