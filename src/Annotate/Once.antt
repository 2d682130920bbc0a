-- ===== src/Annotate/Once.antt =====
-- Checkers, and the file that a test's end writes (src/tester1/annotation.go).
use mathlib.Core.List.{append-nil, append_assoc}
use mit_6_5840_distributed_s.Base.{
  ℕ, ◌≤◌, String, ◌≡◌, refl, ◌≢◌, ◌∙◌, ap, ◌⊎◌, inl, inr, Bool, true, List, [], ◌∷◌, ◌++◌, arith,
  map, ◌+◌, sym,
}
use mit_6_5840_distributed_s.Annotate.Marks.{
  Mark, Annotation, finalize, clear, annotate_interval_color, tag_checker, close_all,
}
use mit_6_5840_distributed_s.Annotate.Fault.{Globals, ◌+s◌}
use mit_6_5840_distributed_s.Annotate.Report.{
  Cleanup, cleared, skipped, unopened, written, cleanup, write_marks, annotate_checker_begin,
  annotate_checker_end,
}

-- The arguments, the environment and the clock of a cleanup.
pub record CleanupArgs : Type 0 where
  pub failed : Bool
  pub end : String
  pub enabled : String
  pub opened : Bool
  pub at_finalize : ℕ
  pub at_end : ℕ

unfoldable pub run_cleanup : CleanupArgs → Annotation → Annotation × Cleanup
run_cleanup c an = cleanup c.failed c.end c.enabled c.opened c.at_finalize c.at_end an

-- How many of a series of cleanups write a file.
abbrev pub one_if_written : Cleanup → ℕ
one_if_written (written marks) = 1
one_if_written cleared = 0
one_if_written skipped = 0
one_if_written unopened = 0

unfoldable pub files : List CleanupArgs → Annotation → ℕ
files [] an = 0
files (c ∷ cs) an = let (an', done) = run_cleanup c an in one_if_written done + files cs an'

-- Nothing is left to write: the marks are finalized, or there are none.
abbrev Spent : Annotation → Type 0
Spent an = (an.finalized ≡ true) ⊎ ((an.annotations ≡ []) × (an.continuous ≡ []))

write_marks_nil :
    (ms : List Mark) (opened : Bool) (aend : Mark)
    → ms ≡ []
    → one_if_written (write_marks ms opened aend) ≡ 0
write_marks_nil [] opened aend e = refl
write_marks_nil (m ∷ ms) opened aend e = cc

run_cleanup-Spent :
    (c : CleanupArgs) (an : Annotation)
    → Spent an
    → (one_if_written (run_cleanup c an).1 ≡ 0) × Spent (run_cleanup c an).0
unfolding run_cleanup cleanup clear finalize
run_cleanup-Spent c an s = elim s [
  | inl f ↦ ground arith
  | inr (a, n) ↦ ground (
    arith,
    write_marks_nil (an.annotations ++ close_all c.at_finalize an.continuous) c.opened _
        (rw (a, n) refl),
  )
]

run_cleanup_spends : (c : CleanupArgs) (an : Annotation) → Spent (run_cleanup c an).0
unfolding run_cleanup cleanup clear finalize
run_cleanup_spends c an = ground arith

one_if_written-le : (d : Cleanup) → one_if_written d ≤ 1
one_if_written-le d = ground arith

files-Spent : (cs : List CleanupArgs) (an : Annotation) → Spent an → files cs an ≡ 0
unfolding files
files-Spent [] an s = refl
files-Spent (c ∷ cs) an s =
    let (w, s') = run_cleanup-Spent c an s in ground (arith, files-Spent cs (run_cleanup c an).0 s')

-- Any series of cleanups, whatever their arguments, their environment and their clocks, writes at most
-- one file while no annotation is made between them.
pub files-le : (cs : List CleanupArgs) (an : Annotation) → files cs an ≤ 1
unfolding files
files-le [] an = omega arith
files-le (c ∷ cs) an = omega (
  arith,
  files-Spent cs (run_cleanup c an).0 (run_cleanup_spends c an),
  one_if_written-le (run_cleanup c an).1,
)

-- The ends of one checker: description, details, color and time.
pub record CheckerEnd : Type 0 where
  pub desp : String
  pub details : String
  pub color : String
  pub t : ℕ

unfoldable pub run_ends : List CheckerEnd → Globals → Globals
run_ends [] g = g
run_ends (e ∷ es) g = run_ends es (annotate_checker_end e.desp e.details e.color e.t g)

abbrev pub checked : ℕ → String → CheckerEnd → Mark
checked start begun e = record {
  tag = tag_checker;
  start = start;
  end = e.t;
  description = e.desp;
  details = begun +s ": " +s e.details;
  background_color = e.color;
}

-- The marks of the ends, which leave the rest as it is.
abbrev Ends : List CheckerEnd → Globals → Type 0
Ends es g =
    ((run_ends es g).annotation.annotations
      ≡ g.annotation.annotations ++ map (checked g.finfo.ckbegin.ts g.finfo.ckbegin.details) es)
    × ((run_ends es g).finfo ≡ g.finfo)

one_end :
    (e : CheckerEnd) (g : Globals)
    → g.finfo.ckbegin.ts ≢ 0
    → (annotate_checker_end e.desp e.details e.color e.t g).annotation.annotations
      ≡ g.annotation.annotations ++ checked g.finfo.ckbegin.ts g.finfo.ckbegin.details e ∷ []
unfolding annotate_checker_end annotate_interval_color
one_end e g d = ground arith

run-Ends-intervals : (es : List CheckerEnd) (g : Globals) → g.finfo.ckbegin.ts ≢ 0 → Ends es g
unfolding run_ends annotate_checker_end
run-Ends-intervals [] g d = (sym (append-nil g.annotation.annotations), refl)
run-Ends-intervals (e ∷ es) g d =
    let next = annotate_checker_end e.desp e.details e.color e.t g in
    let rest : (Ends es next) = run-Ends-intervals es next d in
    (
      rest.0
          ∙ ap (λ l. l ++ map (checked g.finfo.ckbegin.ts g.finfo.ckbegin.details) es)
              (one_end e g d)
          ∙ append_assoc g.annotation.annotations
              (checked g.finfo.ckbegin.ts g.finfo.ckbegin.details e ∷ [])
              (map (checked g.finfo.ckbegin.ts g.finfo.ckbegin.details) es),
      rest.1,
    )

-- Every end of a checker that was begun at a time other than 0 is marked as an interval from that
-- beginning, the first end and all later ones alike.
pub checker_begin-ends :
    (begun : String) (t : ℕ) (es : List CheckerEnd) (g : Globals)
    → t ≢ 0
    → (run_ends es (annotate_checker_begin begun t g)).annotation.annotations
      ≡ g.annotation.annotations ++ map (checked t begun) es
unfolding annotate_checker_begin
checker_begin-ends begun t es g d = (run-Ends-intervals es (annotate_checker_begin begun t g) d).0
