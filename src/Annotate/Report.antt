-- ===== src/Annotate/Report.antt =====
-- The marks of checkers, and the end of a test, of src/tester1/annotation.go. Writing the file is
-- porcupine's; whether it could be opened is an argument.
use mit_6_5840_distributed_s.Base.{
  ℕ, String, Bool, true, not, ◌&&◌, ◌||◌, List, [], ◌∷◌, ◌++◌, eqb, if◌then◌else◌, ◌==◌, string_eq,
}
use mit_6_5840_distributed_s.Annotate.Marks.{
  Mark, Annotation, clear, point, finalize, annotate_point_color, annotate_interval_color,
  annotate_continuous_color, color_info, color_user, color_success, color_failure, color_neutral,
  tag_info, tag_checker,
}
use mit_6_5840_distributed_s.Annotate.Fault.{Globals, ◌+s◌}

unfoldable pub annotate_point : String → String → String → ℕ → Annotation → Annotation
annotate_point tag desp details t an = annotate_point_color tag desp details color_user t an

unfoldable pub annotate_interval : String → ℕ → String → String → ℕ → Annotation → Annotation
annotate_interval tag start desp details t an =
    annotate_interval_color tag start desp details color_user t an

unfoldable pub annotate_continuous : String → String → String → ℕ → Annotation → Annotation
annotate_continuous tag desp details t an =
    annotate_continuous_color tag desp details color_user t an

unfoldable pub annotate_info : String → String → ℕ → Annotation → Annotation
annotate_info desp details t an = annotate_point_color tag_info desp details color_info t an

unfoldable pub annotate_info_interval : ℕ → String → String → ℕ → Annotation → Annotation
annotate_info_interval start desp details t an =
    annotate_interval_color tag_info start desp details color_info t an

unfoldable pub annotate_checker_begin : String → ℕ → Globals → Globals
annotate_checker_begin details t g = record g {
  finfo = record g.finfo { ckbegin = record { ts = t; details = details } };
}

-- The source resets the time of a copy of the begun checker, which changes nothing.
unfoldable pub annotate_checker_end : String → String → String → ℕ → Globals → Globals
annotate_checker_end desp details color t g =
    let ckbegin = g.finfo.ckbegin in
    record g {
      annotation =
          if eqb ckbegin.ts 0
          then annotate_point_color tag_checker desp details color t g.annotation
          else annotate_interval_color tag_checker ckbegin.ts desp
              (ckbegin.details +s ": " +s details) color t g.annotation;
    }

unfoldable pub annotate_checker_success : String → String → ℕ → Globals → Globals
annotate_checker_success desp details t g = annotate_checker_end desp details color_success t g

unfoldable pub annotate_checker_failure : String → String → ℕ → Globals → Globals
annotate_checker_failure desp details t g = annotate_checker_end desp details color_failure t g

unfoldable pub annotate_checker_neutral : String → String → ℕ → Globals → Globals
annotate_checker_neutral desp details t g = annotate_checker_end desp details color_neutral t g

unfoldable pub set_annotation_finalized : Annotation → Annotation
set_annotation_finalized an = record an { finalized = true }

unfoldable pub finalize_annotations : String → ℕ → ℕ → Annotation → Annotation × List Mark
finalize_annotations end t t' an =
    let (an', annotations) = finalize t an in
    (an', annotations ++ point tag_info t' end end color_info ∷ [])

-- What a cleanup has done: nothing is shown, or there is nothing to show, or the file could not be
-- opened, or these marks were written.
pub data Cleanup : Type 0 where
  cleared skipped unopened : Cleanup
  written : List Mark → Cleanup

abbrev pub write_marks : List Mark → Bool → Mark → Cleanup
write_marks [] opened aend = skipped
write_marks (a ∷ more) opened aend = if opened then written ((a ∷ more) ++ aend ∷ []) else unopened

-- `cleanup`, with the value of VIS_ENABLE.
unfoldable pub cleanup : Bool → String → String → Bool → ℕ → ℕ → Annotation → Annotation × Cleanup
cleanup failed end enabled opened t t' an =
    if enabled == "never" || not failed && not (enabled == "always") || an.finalized
    then (clear an, cleared)
    else let (an', annotations) = finalize t an in
      (an', write_marks annotations opened (point tag_info t' end end color_info))

unfoldable pub annotate_checker_failure_before_exit :
    String → String → String → Bool → ℕ → ℕ → ℕ → Globals → Annotation × Cleanup
annotate_checker_failure_before_exit desp details enabled opened t t' t'' g =
    cleanup true "test failed" enabled opened t' t''
      (annotate_checker_failure desp details t g).annotation
