-- ===== src/Annotate/Marks.antt =====
-- The record of marks of src/tester1/annotation.go: closed marks, and the open mark of each tag.
use mit_6_5840_distributed_s.Base.Dict.{Dict, insert, delete, lookup}
use mit_6_5840_distributed_s.Base.{
  ℕ, String, Bool, true, false, Option, none, some, List, [], ◌∷◌, ◌++◌, string_eq,
}

pub record Mark : Type 0 where
  pub tag : String
  pub start : ℕ
  pub end : ℕ
  pub description : String
  pub details : String
  pub background_color : String

pub record Continuous : Type 0 where
  pub start : ℕ
  pub desp : String
  pub details : String
  pub bgcolor : String

pub record Annotation : Type 0 where
  pub annotations : List Mark
  pub continuous : Dict String Continuous
  pub finalized : Bool

abbrev pub color_info : String
color_info = "#FAFAFA"

abbrev pub color_neutral : String
color_neutral = "#FFECB3"

abbrev pub color_success : String
color_success = "#C8E6C9"

abbrev pub color_failure : String
color_failure = "#FFCDD2"

abbrev pub color_fault : String
color_fault = "#B3E5FC"

abbrev pub color_user : String
color_user = "#FFF176"

abbrev pub tag_checker : String
tag_checker = "$ Checker"

abbrev pub tag_partition : String
tag_partition = "$ Failure"

abbrev pub tag_info : String
tag_info = "$ Test Info"

unfoldable pub mk_annotation : Annotation
mk_annotation = record { annotations = []; continuous = []; finalized = false }

unfoldable pub clear : Annotation → Annotation
clear an = record { annotations = []; continuous = []; finalized = false }

abbrev pub add_mark : Mark → Annotation → Annotation
add_mark a an = record an { annotations = an.annotations ++ a ∷ [] }

-- A mark that has no end yet has the end 0.
abbrev pub point : String → ℕ → String → String → String → Mark
point tag t desp details bgcolor = record {
  tag = tag;
  start = t;
  end = 0;
  description = desp;
  details = details;
  background_color = bgcolor;
}

unfoldable pub annotate_point_color :
    String → String → String → String → ℕ → Annotation → Annotation
annotate_point_color tag desp details bgcolor t an = add_mark (point tag t desp details bgcolor) an

unfoldable pub annotate_interval_color :
    String → ℕ → String → String → String → ℕ → Annotation → Annotation
annotate_interval_color tag start desp details bgcolor t an =
    add_mark
      (record {
        tag = tag;
        start = start;
        end = t;
        description = desp;
        details = details;
        background_color = bgcolor;
      })
      an

-- The open mark of a tag, closed at a time.
abbrev pub close : String → ℕ → Continuous → Mark
close tag t cont = record {
  tag = tag;
  start = cont.start;
  end = t;
  description = cont.desp;
  details = cont.details;
  background_color = cont.bgcolor;
}

abbrev pub concretize : String → ℕ → Option Continuous → Annotation → Annotation
concretize tag t none an = an
concretize tag t (some cont) an = add_mark (close tag t cont) an

unfoldable pub annotate_continuous_color :
    String → String → String → String → ℕ → Annotation → Annotation
annotate_continuous_color tag desp details bgcolor t an =
    record (concretize tag t (lookup tag an.continuous) an) {
      continuous =
          insert tag (record { start = t; desp = desp; details = details; bgcolor = bgcolor })
            an.continuous;
    }

-- The value that a read of a missing tag gives.
abbrev pub or_no_mark : Option Continuous → Continuous
or_no_mark none = record { start = 0; desp = ""; details = ""; bgcolor = "" }
or_no_mark (some cont) = cont

-- The source's test for a missing tag has an empty body: the zero value is closed then.
unfoldable pub annotate_continuous_end : String → ℕ → Annotation → Annotation
annotate_continuous_end tag t an = record an {
  annotations = an.annotations ++ close tag t (or_no_mark (lookup tag an.continuous)) ∷ [];
  continuous = delete tag an.continuous;
}

abbrev pub close_all : ℕ → Dict String Continuous → List Mark
close_all t [] = []
close_all t ((tag, cont) ∷ rest) = close tag t cont ∷ close_all t rest

unfoldable pub finalize : ℕ → Annotation → Annotation × List Mark
finalize t an = (record an { finalized = true }, an.annotations ++ close_all t an.continuous)
