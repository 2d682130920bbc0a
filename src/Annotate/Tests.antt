-- ===== src/Annotate/Tests.antt =====
-- Marks of concrete tests, and instances of the theorems about them.
use mit_6_5840_distributed_s.Annotate.Report.{cleanup}
use mit_6_5840_distributed_s.Mr.WordCount.{itoa}
use mit_6_5840_distributed_s.Annotate.Once.{CleanupArgs, files, CheckerEnd, run_cleanup, files-le}
use mit_6_5840_distributed_s.Base.Dict.{lookup}
use mit_6_5840_distributed_s.Annotate.Chain.{continuous_end-Chain}
use mit_6_5840_distributed_s.Annotate.Tiles.{
  Op, tiles, continuous, marks_of, run_ops, Chain, at_point,
}
use mit_6_5840_distributed_s.Annotate.Fault.{FrameworkInfo, Globals, fault_text, annotate_test}
use mit_6_5840_distributed_s.Annotate.Marks.{
  Annotation, annotate_continuous_end, Continuous, annotate_point_color, color_success, clear,
  finalize, tag_info, color_info, point,
}
use mit_6_5840_distributed_s.Mr.WordCount.{digits_from}
use mit_6_5840_distributed_s.Base.{
  string_eq, ℕ, ◌≤◌, ◌≡◌, refl, true, false, List, [], ◌∷◌, ◌++◌, arith, length, str_eq_iff,
}

abbrev fresh : Annotation
fresh = record { annotations = []; continuous = []; finalized = false }

abbrev info : FrameworkInfo
info = record {
  nservers = 2;
  connected = true ∷ true ∷ [];
  crashed = false ∷ false ∷ [];
  ckbegin = record { ts = 0; details = "" };
}

abbrev two_servers : Globals
two_servers = record { annotation = fresh; finfo = info }

-- The text of a crash, as Go prints it.
crash_text :
    fault_text (record { conn = 0 ∷ 2 ∷ []; crashes = 3 ∷ []; alone = 1 ∷ [] })
    ≡ "partition = [1] [0 2] / crash = [3]"
unfolding fault_text itoa digits_from
crash_text = refl

test_text :
    (annotate_test "Test" 3 5 fresh).annotation.annotations
    ≡ point tag_info 5 "Test (3 servers)" "Test (3 servers)" color_info ∷ []
unfolding annotate_test annotate_point_color clear itoa digits_from
test_text = refl

-- The end of a tag that is not open adds a mark that begins at 0.
spurious_end :
    (annotate_continuous_end "x" 5 fresh).annotations
    ≡ record {
      tag = "x";
      start = 0;
      end = 5;
      description = "";
      details = "";
      background_color = "";
    }
      ∷ []
unfolding annotate_continuous_end lookup
spurious_end = refl

abbrev leading : Continuous
leading = record { start = 1; desp = "leader 0"; details = ""; bgcolor = "" }

abbrev elections : Annotation
elections = record { annotations = []; continuous = ("term", leading) ∷ []; finalized = false }

abbrev election_ops : List (Op × ℕ)
election_ops =
    (continuous "term" "leader 1" "" "", 4)
    ∷ (at_point "other" "p" "" "", 5)
    ∷ (continuous "term" "leader 2" "" "", 7)
    ∷ []

continuous_end-Chain_example :
    (marks_of "term" (annotate_continuous_end "term" 9 (run_ops election_ops elections)).annotations
      ≡ marks_of "term" [] ++ tiles "term" leading election_ops 9)
    × Chain 1 (tiles "term" leading election_ops 9) 9
unfolding lookup
continuous_end-Chain_example =
    continuous_end-Chain "term" leading election_ops 9 elections refl
      (ground (arith, str_eq_iff "other" "term"))

three_tiles : length (tiles "term" leading election_ops 9) ≡ 3
three_tiles = refl

abbrev failing : CleanupArgs
failing = record {
  failed = true;
  end = "test failed";
  enabled = "";
  opened = true;
  at_finalize = 3;
  at_end = 4;
}

-- The bound is reached.
one_file : files (failing ∷ failing ∷ failing ∷ []) elections ≡ 1
unfolding files run_cleanup cleanup clear finalize
one_file = refl

files-le_example : files (failing ∷ failing ∷ failing ∷ []) elections ≤ 1
files-le_example = files-le (failing ∷ failing ∷ failing ∷ []) elections

abbrev passing : CheckerEnd
passing = record { desp = "ok"; details = "d"; color = color_success; t = 6 }
