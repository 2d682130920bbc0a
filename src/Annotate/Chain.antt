-- ===== src/Annotate/Chain.antt =====
-- The marks that continuous annotations leave on the timeline of one tag (src/tester1/annotation.go).
use mit_6_5840_distributed_s.Annotate.Tiles.{
  marks_of, other_mark, run_ops, Op, own_mark, run_op, Only, tiles, continuous, Chain, at_point,
  tiles-Chain, interval, stop,
}
use mathlib.Core.List.{append_assoc}
use mit_6_5840_distributed_s.Base.Dict.{lookup, lookup-insert, lookup-delete}
use mit_6_5840_distributed_s.Base.{
  ℕ, String, ◌≡◌, refl, ◌≢◌, ◌∙◌, ap, true, false, Option, none, some, List, [], ◌∷◌, ◌++◌, arith,
  ◌==◌, string_eq, str_eq_iff, inl, inr, Bool-cases,
}
use mit_6_5840_distributed_s.Annotate.Marks.{
  Mark, Continuous, Annotation, close, concretize, annotate_point_color, annotate_interval_color,
  annotate_continuous_color, annotate_continuous_end,
}

-- The annotations that tests make, each at its time.
-- The tag's open mark, and its marks so far.
record Open (tag : String) (cont : Continuous) (ms : List Mark) (an : Annotation) : Type 0 where
  now : lookup tag an.continuous ≡ some cont
  before : marks_of tag an.annotations ≡ ms

apart : (a b : String) → a ≢ b → (a == b) ≡ false
apart a b d = ground (arith, str_eq_iff a b)

same : (tag : String) → (tag == tag) ≡ true
same tag = ground (arith, str_eq_iff tag tag)

point-Open :
    (tag tag' desp details bgcolor : String) (t : ℕ) (cont : Continuous) (ms : List Mark)
    (an : Annotation)
    → tag' ≢ tag
    → Open tag cont ms an
    → Open tag cont ms (annotate_point_color tag' desp details bgcolor t an)
unfolding annotate_point_color
point-Open tag tag' desp details bgcolor t cont ms an d o = record {
  now = o.now;
  before = other_mark tag _ an.annotations (apart tag' tag d) ∙ o.before;
}

interval-Open :
    (tag tag' : String) (start : ℕ) (desp details bgcolor : String) (t : ℕ) (cont : Continuous)
    (ms : List Mark) (an : Annotation)
    → tag' ≢ tag
    → Open tag cont ms an
    → Open tag cont ms (annotate_interval_color tag' start desp details bgcolor t an)
unfolding annotate_interval_color
interval-Open tag tag' start desp details bgcolor t cont ms an d o = record {
  now = o.now;
  before = other_mark tag _ an.annotations (apart tag' tag d) ∙ o.before;
}

stop-Open :
    (tag tag' : String) (t : ℕ) (cont : Continuous) (ms : List Mark) (an : Annotation)
    → tag' ≢ tag
    → Open tag cont ms an
    → Open tag cont ms (annotate_continuous_end tag' t an)
unfolding annotate_continuous_end
stop-Open tag tag' t cont ms an d o = record {
  now = rw (lookup-delete tag' tag an.continuous, apart tag' tag d) o.now;
  before = other_mark tag _ an.annotations (apart tag' tag d) ∙ o.before;
}

other-Open :
    (tag tag' desp details bgcolor : String) (t : ℕ) (cont : Continuous) (ms : List Mark)
    (an : Annotation)
    → (tag' == tag) ≡ false
    → Open tag cont ms an
    → Open tag cont ms (annotate_continuous_color tag' desp details bgcolor t an)
unfolding annotate_continuous_color
other-Open tag tag' desp details bgcolor t cont ms an d o = record {
  now =
      rw
        (
          lookup-insert tag' tag
              (record { start = t; desp = desp; details = details; bgcolor = bgcolor })
              an.continuous,
          d,
        )
        o.now;
  before = concretize-other tag tag' t (lookup tag' an.continuous) an d ∙ o.before;
}
  where
    concretize-other :
        (tag tag' : String) (t : ℕ) (o : Option Continuous) (an : Annotation)
        → (tag' == tag) ≡ false
        → marks_of tag (concretize tag' t o an).annotations ≡ marks_of tag an.annotations
    concretize-other tag tag' t none an d = refl
    concretize-other tag tag' t (some c) an d = other_mark tag (close tag' t c) an.annotations d

own-Open :
    (tag desp details bgcolor : String) (t : ℕ) (cont : Continuous) (ms : List Mark)
    (an : Annotation)
    → Open tag cont ms an
    → Open tag
        (record { start = t; desp = desp; details = details; bgcolor = bgcolor })
        (ms ++ close tag t cont ∷ [])
        (annotate_continuous_color tag desp details bgcolor t an)
unfolding annotate_continuous_color
own-Open tag desp details bgcolor t cont ms an o = record {
  now =
      rw
        (
          lookup-insert tag tag
              (record { start = t; desp = desp; details = details; bgcolor = bgcolor })
              an.continuous,
          same tag,
        )
        refl;
  before = rw (o.now) (
      own_mark tag (close tag t cont) an.annotations (same tag)
      ∙ ap (λ l. l ++ close tag t cont ∷ []) o.before);
}

tiled :
    (tag : String) (cont : Continuous) (ops : List (Op × ℕ)) (end : ℕ) (ms : List Mark)
    (an : Annotation)
    → Only tag ops
    → Open tag cont ms an
    → marks_of tag (annotate_continuous_end tag end (run_ops ops an)).annotations
      ≡ ms ++ tiles tag cont ops end
unfolding run_ops run_op
tiled tag cont [] end ms an only o =
    unfold annotate_continuous_end in
    rw (o.now) (
      own_mark tag (close tag end cont) an.annotations (same tag)
      ∙ ap (λ l. l ++ close tag end cont ∷ []) o.before)
tiled tag cont ((continuous tag' desp details bgcolor, t) ∷ rest) end ms an only o =
    let next : Continuous = record {
      start = t;
      desp = desp;
      details = details;
      bgcolor = bgcolor;
    } in
    elim (Bool-cases (tag' == tag)) [
      | inl e ↦
          let same_tag : tag' ≡ tag = (str_eq_iff tag' tag).0 e in
          rw e (
            rw same_tag (
              tiled tag next rest end (ms ++ close tag t cont ∷ [])
                (annotate_continuous_color tag desp details bgcolor t an) only
                (own-Open tag desp details bgcolor t cont ms an o)
              ∙ append_assoc ms (close tag t cont ∷ []) (tiles tag next rest end)))
      | inr e ↦ rw e (
          tiled tag cont rest end ms (annotate_continuous_color tag' desp details bgcolor t an) only
            (other-Open tag tag' desp details bgcolor t cont ms an e o))
    ]
tiled tag cont ((at_point tag' desp details bgcolor, t) ∷ rest) end ms an only o =
    tiled tag cont rest end ms (annotate_point_color tag' desp details bgcolor t an) only.1
      (point-Open tag tag' desp details bgcolor t cont ms an only.0 o)
tiled tag cont ((interval tag' start desp details bgcolor, t) ∷ rest) end ms an only o =
    tiled tag cont rest end ms (annotate_interval_color tag' start desp details bgcolor t an) only.1
      (interval-Open tag tag' start desp details bgcolor t cont ms an only.0 o)
tiled tag cont ((stop tag', t) ∷ rest) end ms an only o =
    tiled tag cont rest end ms (annotate_continuous_end tag' t an) only.1
      (stop-Open tag tag' t cont ms an only.0 o)

-- From a tag's open mark to the end of its continuous annotations, whatever is annotated under other
-- tags meanwhile and when no other operation names the tag, the tag gets one mark for each text, and
-- these marks follow each other without a gap and without an overlap: each begins at the time at which
-- the one before it ends.
pub continuous_end-Chain :
    (tag : String) (cont : Continuous) (ops : List (Op × ℕ)) (end : ℕ) (an : Annotation)
    → lookup tag an.continuous ≡ some cont
    → Only tag ops
    → (marks_of tag (annotate_continuous_end tag end (run_ops ops an)).annotations
        ≡ marks_of tag an.annotations ++ tiles tag cont ops end)
      × Chain cont.start (tiles tag cont ops end) end
continuous_end-Chain tag cont ops end an now only = (
  tiled tag cont ops end (marks_of tag an.annotations) an only
      (record { now = now; before = refl }),
  tiles-Chain tag cont ops end,
)
