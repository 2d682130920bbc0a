-- ===== src/Annotate/Tiles.antt =====
-- The annotations of tests as a run, and the marks of one tag (src/tester1/annotation.go).
use mathlib.Core.List.{append-nil}
use mit_6_5840_distributed_s.Base.{
  ℕ, String, ◌≡◌, refl, ◌≢◌, true, false, List, [], ◌∷◌, ◌++◌, arith, if◌then◌else◌, ◌==◌,
  string_eq, inl, inr, Bool-cases,
}
use mit_6_5840_distributed_s.Annotate.Marks.{
  Mark, Continuous, Annotation, close, annotate_point_color, annotate_interval_color,
  annotate_continuous_color, annotate_continuous_end,
}

-- The annotations that tests make, each at its time.
pub data Op : Type 0 where
  at_point continuous : String → String → String → String → Op
  interval : String → ℕ → String → String → String → Op
  stop : String → Op

unfoldable pub run_op : Op → ℕ → Annotation → Annotation
run_op (at_point tag desp details bgcolor) t an = annotate_point_color tag desp details bgcolor t an
run_op (continuous tag desp details bgcolor) t an =
    annotate_continuous_color tag desp details bgcolor t an
run_op (interval tag start desp details bgcolor) t an =
    annotate_interval_color tag start desp details bgcolor t an
run_op (stop tag) t an = annotate_continuous_end tag t an

unfoldable pub run_ops : List (Op × ℕ) → Annotation → Annotation
run_ops [] an = an
run_ops ((op, t) ∷ rest) an = run_ops rest (run_op op t an)

-- The marks of one tag, in the order in which they were made.
unfoldable pub marks_of : String → List Mark → List Mark
marks_of tag [] = []
marks_of tag (a ∷ more) = let rest = marks_of tag more in if a.tag == tag then a ∷ rest else rest

marks_of-append :
    (tag : String) (ms ns : List Mark)
    → marks_of tag (ms ++ ns) ≡ marks_of tag ms ++ marks_of tag ns
unfolding marks_of
marks_of-append tag [] ns = refl
marks_of-append tag (m ∷ ms) ns = ground (arith, marks_of-append tag ms ns)

-- The operations between are those of other tags, and the continuous ones of the tag itself.
abbrev pub Only : String → List (Op × ℕ) → Type 0
Only tag [] = Unit
Only tag ((continuous tag' desp details bgcolor, t) ∷ rest) = Only tag rest
Only tag ((at_point tag' desp details bgcolor, t) ∷ rest) = (tag' ≢ tag) × Only tag rest
Only tag ((interval tag' start desp details bgcolor, t) ∷ rest) = (tag' ≢ tag) × Only tag rest
Only tag ((stop tag', t) ∷ rest) = (tag' ≢ tag) × Only tag rest

-- One mark for each continuous annotation of the tag, from its time to the time of the next, and the
-- last to `end`.
abbrev pub tiles : String → Continuous → List (Op × ℕ) → ℕ → List Mark
tiles tag cont [] end = close tag end cont ∷ []
tiles tag cont ((continuous tag' desp details bgcolor, t) ∷ rest) end =
    let next : Continuous = record {
      start = t;
      desp = desp;
      details = details;
      bgcolor = bgcolor;
    } in
    let other = tiles tag cont rest end in
    let own = tiles tag next rest end in if tag' == tag then close tag t cont ∷ own else other
tiles tag cont ((at_point tag' desp details bgcolor, t) ∷ rest) end = tiles tag cont rest end
tiles tag cont ((interval tag' start desp details bgcolor, t) ∷ rest) end = tiles tag cont rest end
tiles tag cont ((stop tag', t) ∷ rest) end = tiles tag cont rest end

-- Marks of which each begins at the time at which the one before it ends.
abbrev pub Chain : ℕ → List Mark → ℕ → Type 0
Chain start [] end = start ≡ end
Chain start (m ∷ ms) end = (m.start ≡ start) × Chain m.end ms end

pub tiles-Chain :
    (tag : String) (cont : Continuous) (ops : List (Op × ℕ)) (end : ℕ)
    → Chain cont.start (tiles tag cont ops end) end
tiles-Chain tag cont [] end = (refl, refl)
tiles-Chain tag cont ((continuous tag' desp details bgcolor, t) ∷ rest) end =
    let next : Continuous = record {
      start = t;
      desp = desp;
      details = details;
      bgcolor = bgcolor;
    } in
    elim (Bool-cases (tag' == tag)) [
      | inl e ↦ rw e (refl, tiles-Chain tag next rest end)
      | inr e ↦ rw e (tiles-Chain tag cont rest end)
    ]
tiles-Chain tag cont ((at_point tag' desp details bgcolor, t) ∷ rest) end =
    tiles-Chain tag cont rest end
tiles-Chain tag cont ((interval tag' start desp details bgcolor, t) ∷ rest) end =
    tiles-Chain tag cont rest end
tiles-Chain tag cont ((stop tag', t) ∷ rest) end = tiles-Chain tag cont rest end

-- A mark of another tag, and one of the tag itself.
pub other_mark :
    (tag : String) (m : Mark) (ms : List Mark)
    → (m.tag == tag) ≡ false
    → marks_of tag (ms ++ m ∷ []) ≡ marks_of tag ms
unfolding marks_of
other_mark tag m ms e =
    rw (marks_of-append tag ms (m ∷ []), marks_of, e) (append-nil (marks_of tag ms))

pub own_mark :
    (tag : String) (m : Mark) (ms : List Mark)
    → (m.tag == tag) ≡ true
    → marks_of tag (ms ++ m ∷ []) ≡ marks_of tag ms ++ m ∷ []
unfolding marks_of
own_mark tag m ms e = rw (marks_of-append tag ms (m ∷ []), marks_of, e) refl
