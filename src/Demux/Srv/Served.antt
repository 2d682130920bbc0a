-- ===== src/Demux/Srv/Served.antt =====
-- The requests and the replies of the server of src/tester1/demux/dmxsrv.go.
use mit_6_5840_distributed_s.Demux.Srv.Counts.{
  tagged, at_work, tagged-append, at_work-append, one_request, at_work-without,
}
use mathlib.Core.Path.{subst}
use mathlib.Core.List.{append_assoc, append-nil}
use mit_6_5840_distributed_s.Base.Bytes.{Bytes}
use mit_6_5840_distributed_s.Base.{
  ℕ, ◌+◌, ◌≡◌, refl, sym, ◌∙◌, true, false, Option, some, List, [], ◌∷◌, ◌++◌, arith, if◌then◌else◌,
  get_elem?, All, ap, some_inj, inl, inr, Bool, Bool-cases, Option-cases, not,
}
use mit_6_5840_distributed_s.Demux.Transport.{Msg, write_calls, write_call, read_call, call, short}
use mit_6_5840_distributed_s.Demux.Transport.Frames.{Sendable, read_call-write_call}
use mit_6_5840_distributed_s.Demux.Srv.{
  DemuxSrv, Event, read_one, request_served, new_demux_srv, after_call, read_request,
  finish_request, srv_event, srv_run, connected,
}

module _ (marshall : Msg → Bytes) (unmarshall : Bytes → Option Msg)
    (init : Bytes → Option Bytes) where
  write_calls-append :
      (a b : List Msg)
      → write_calls marshall unmarshall (a ++ b)
        ≡ write_calls marshall unmarshall a ++ write_calls marshall unmarshall b
  unfolding write_calls
  write_calls-append [] b = refl
  write_calls-append (m ∷ a) b =
      ap (λ s. write_call marshall unmarshall m ++ s) (write_calls-append a b)
      ∙ sym (
          append_assoc (write_call marshall unmarshall m) (write_calls marshall unmarshall a)
            (write_calls marshall unmarshall b))

  -- Each of the requests `ms` is unread, at work, or answered.
  record Serves (ms : List Msg) (dmx : DemuxSrv) : Type 0 where
    unread : List Msg
    replies : List Msg
    sendable : All (Sendable marshall unmarshall) unread
    is_open : dmx.trans_open ≡ true
    stream_is : dmx.stream ≡ write_calls marshall unmarshall unread
    written_is : dmx.written ≡ write_calls marshall unmarshall replies
    each : (t : ℕ) → tagged t replies + at_work t dmx.working + tagged t unread ≡ tagged t ms
    ended : dmx.reading ≡ false → unread ≡ []

  -- A request is read, or the stream has ended.
  read-Serves :
      (ms unread : List Msg) (dmx dmx' : DemuxSrv) (sv : Serves ms dmx)
      → dmx.reading ≡ true
      → sv.unread ≡ unread
      → after_call marshall unmarshall init dmx
          (read_call marshall unmarshall (write_calls marshall unmarshall unread))
        ≡ some dmx'
      → Serves ms dmx'
  unfolding write_calls read_call
  read-Serves ms [] dmx dmx' sv on u run = subst (Serves ms) (some_inj run) (record {
    unread = sv.unread;
    replies = sv.replies;
    sendable = sv.sendable;
    is_open = sv.is_open;
    stream_is = sv.stream_is;
    written_is = sv.written_is;
    each = sv.each;
    ended = λ h. u;
  })
  read-Serves ms (m ∷ more) dmx dmx' sv on u run =
      let ok : All (Sendable marshall unmarshall) (m ∷ more) =
        subst (All (Sendable marshall unmarshall)) u sv.sendable in
      let rest = write_calls marshall unmarshall more in
      let read = read_call-write_call marshall unmarshall m rest ok.0 in
      let out : some (record dmx { stream = rest; working = dmx.working ++ (m.tag, m.body) ∷ [] })
          ≡ some dmx' =
        sym (ap (after_call marshall unmarshall init dmx) read) ∙ run in
      subst (Serves ms) (some_inj out) (record {
        unread = more;
        replies = sv.replies;
        sendable = ok.1;
        is_open = sv.is_open;
        stream_is = refl;
        written_is = sv.written_is;
        each = λ t. omega (
          arith,
          sv.each t,
          ap (tagged t) u,
          at_work-append t dmx.working ((m.tag, m.body) ∷ []),
          one_request t m more,
        );
        ended = λ h. absurd (cc);
      })

  one_call : (m : Msg) → write_call marshall unmarshall m ≡ write_calls marshall unmarshall (m ∷ [])
  unfolding write_calls
  one_call m = sym (append-nil (write_call marshall unmarshall m))

  read_request_lem :
      (ms : List Msg) (dmx : DemuxSrv) (sv : Serves ms dmx)
      → dmx.reading ≡ true
      → read_request marshall unmarshall init dmx
        ≡ after_call marshall unmarshall init dmx
            (read_call marshall unmarshall (write_calls marshall unmarshall sv.unread))
  unfolding read_request
  read_request_lem ms dmx sv on =
      let round : Bytes → Option DemuxSrv =
        λ s. after_call marshall unmarshall init dmx (read_call marshall unmarshall s) in
      let open_round : Bool → Option DemuxSrv = λ o.
        after_call marshall unmarshall init dmx
          (if o then read_call marshall unmarshall dmx.stream else short) in
      ap (λ r. if not r then some dmx else open_round dmx.trans_open) on
      ∙ (ap open_round sv.is_open ∙ ap round sv.stream_is)

  read_request_off :
      (dmx : DemuxSrv) → dmx.reading ≡ false → read_request marshall unmarshall init dmx ≡ some dmx
  unfolding read_request
  read_request_off dmx off =
      let rest =
        after_call marshall unmarshall init dmx
          (if dmx.trans_open then read_call marshall unmarshall dmx.stream else short) in
      ap (λ r. if not r then some dmx else rest) off

  served-Serves :
      (ms : List Msg) (k : ℕ) (rep : Bytes) (ok : Bool) (dmx : DemuxSrv) (u : ℕ) (req : Bytes)
      → Serves ms dmx
      → get_elem? dmx.working k ≡ some (u, req)
      → Serves ms (finish_request marshall unmarshall init k rep ok dmx (some (u, req)))
  served-Serves ms k rep ok dmx u req sv g =
      let m : Msg = record { tag = u; body = rep; ok = ok } in
      record {
        unread = sv.unread;
        replies = sv.replies ++ m ∷ [];
        sendable = sv.sendable;
        is_open = sv.is_open;
        stream_is = sv.stream_is;
        written_is =
            ap (λ o. dmx.written ++ (if o then write_call marshall unmarshall m else [])) sv.is_open
            ∙ (ap (λ w. w ++ write_call marshall unmarshall m) sv.written_is
                ∙ (ap (λ w. write_calls marshall unmarshall sv.replies ++ w) (one_call m)
                    ∙ sym (write_calls-append sv.replies (m ∷ []))));
        each = λ t. ground (
          arith,
          sv.each t,
          at_work-without t k u req dmx.working g,
          tagged-append t sv.replies (m ∷ []),
        );
        ended = sv.ended;
      }

  event-Serves :
      (ms : List Msg) (e : Event) (dmx dmx' : DemuxSrv)
      → Serves ms dmx
      → srv_event marshall unmarshall init e dmx ≡ some dmx'
      → Serves ms dmx'
  unfolding srv_event read_request
  event-Serves ms read_one dmx dmx' sv run = elim (Bool-cases dmx.reading) [
    | inr off ↦ subst (Serves ms) (some_inj (sym (read_request_off dmx off) ∙ run)) sv
    | inl on ↦
        read-Serves ms sv.unread dmx dmx' sv on refl (sym (read_request_lem ms dmx sv on) ∙ run)
  ]
  event-Serves ms (request_served k rep ok) dmx dmx' sv run =
      elim (Option-cases (get_elem? dmx.working k)) [
        | inl e ↦ subst (Serves ms) (some_inj (rw (srv_event, e) at run)) sv
        | inr ((u, req), e) ↦
            subst (Serves ms) (some_inj (rw (srv_event, e) at run))
              (served-Serves ms k rep ok dmx u req sv e)
      ]

  run-Serves :
      (ms : List Msg) (es : List Event) (dmx dmx' : DemuxSrv)
      → Serves ms dmx
      → srv_run marshall unmarshall init es dmx ≡ some dmx'
      → Serves ms dmx'
  unfolding srv_run
  run-Serves ms [] dmx dmx' sv run = subst (Serves ms) (some_inj run) sv
  run-Serves ms (e ∷ es) dmx dmx' sv run =
      elim (Option-cases (srv_event marshall unmarshall init e dmx)) [
        | inl n ↦ absurd (cc (rw (srv_run, n) at run))
        | inr (next, n) ↦
            run-Serves ms es next dmx' (event-Serves ms e dmx next sv n) (rw (srv_run, n) at run)
      ]

  new-Serves :
      (ms : List Msg) (hello : Msg) (dmx : DemuxSrv)
      → All (Sendable marshall unmarshall) (hello ∷ ms)
      → new_demux_srv marshall unmarshall init (write_calls marshall unmarshall (hello ∷ ms))
        ≡ some dmx
      → Serves ms dmx
  unfolding new_demux_srv write_calls
  new-Serves ms hello dmx ok run =
      let rest = write_calls marshall unmarshall ms in
      let first : connected marshall unmarshall init (call hello rest) ≡ some dmx =
        ap (connected marshall unmarshall init)
          (sym (read_call-write_call marshall unmarshall hello rest ok.0))
        ∙ run in
      elim (Option-cases (init hello.body)) [
        | inl n ↦ absurd (cc (rw n at first))
        | inr (clnt, n) ↦ subst (Serves ms) (some_inj (rw n at first)) (record {
          unread = ms;
          replies = [];
          sendable = ok.1;
          is_open = refl;
          stream_is = refl;
          written_is = refl;
          each = λ t. omega arith;
          ended = λ h. absurd (cc);
        })
      ]

  -- When a server has read the whole stream of a client, which sends its name and then requests that gob
  -- gives back, and all goroutines have ended, in whatever order, it has written messages, and as many
  -- with each tag as there were requests with it.
  pub srv_run-replies :
      (ms : List Msg) (hello : Msg) (es : List Event) (dmx dmx' : DemuxSrv)
      → All (Sendable marshall unmarshall) (hello ∷ ms)
      → new_demux_srv marshall unmarshall init (write_calls marshall unmarshall (hello ∷ ms))
        ≡ some dmx
      → srv_run marshall unmarshall init es dmx ≡ some dmx'
      → dmx'.reading ≡ false
      → dmx'.working ≡ []
      → (replies : List Msg) × (dmx'.written ≡ write_calls marshall unmarshall replies)
        × ((t : ℕ) → tagged t replies ≡ tagged t ms)
  srv_run-replies ms hello es dmx dmx' ok made run off idle =
      let sv = run-Serves ms es dmx dmx' (new-Serves ms hello dmx ok made) run in
      (
        sv.replies,
        sv.written_is,
        λ t. omega (arith, sv.each t, ap (at_work t) idle, ap (tagged t) (sv.ended off)),
      )
