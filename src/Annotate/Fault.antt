-- ===== src/Annotate/Fault.antt =====
-- What src/tester1/annotation.go knows of the servers, and how it marks crashes and partitions. A
-- server number out of range, where Go panics, is `none`.
use Prim.Native.String
use mit_6_5840_distributed_s.Base.{
  ℕ, zero, suc, ◌+◌, String, Bool, true, false, not, ◌&&◌, ◌||◌, Option, none, some, List, [], ◌∷◌,
  if◌then◌else◌, get_elem?, set, replicate, length,
}
use mit_6_5840_distributed_s.Mr.WordCount.{itoa}
use mit_6_5840_distributed_s.Annotate.Marks.{
  Annotation, clear, annotate_point_color, annotate_continuous_color, annotate_continuous_end,
  color_info, color_fault, tag_partition, tag_info,
}

pub record CheckerBegin : Type 0 where
  pub ts : ℕ
  pub details : String

pub record FrameworkInfo : Type 0 where
  pub nservers : ℕ
  pub connected : List Bool
  pub crashed : List Bool
  pub ckbegin : CheckerBegin

unfoldable pub mk_framework_info : ℕ → FrameworkInfo
mk_framework_info nservers = record {
  nservers = nservers;
  connected = replicate nservers true;
  crashed = replicate nservers false;
  ckbegin = record { ts = 0; details = "" };
}

-- The two global variables, once a test has begun.
pub record Globals : Type 0 where
  pub annotation : Annotation
  pub finfo : FrameworkInfo

infixr 65 ◌+s◌
abbrev pub ◌+s◌ : String → String → String
a +s b = String.◌++◌ a b

unfoldable pub annotate_test : String → ℕ → ℕ → Annotation → Globals
annotate_test desp nservers t an =
    let details = desp +s " (" +s itoa nservers +s " servers)" in
    record {
      annotation = annotate_point_color tag_info details details color_info t (clear an);
      finfo = mk_framework_info nservers;
    }

-- `slices.Equal`.
abbrev pub equal : List Bool → List Bool → Bool
equal [] [] = true
equal (a ∷ xs) (b ∷ ys) = (if a then b else not b) && equal xs ys
equal _ _ = false

-- `copy`, as far as both slices reach.
abbrev pub copy : List Bool → List Bool → List Bool
copy [] src = []
copy (a ∷ dst) [] = a ∷ dst
copy (a ∷ dst) (b ∷ src) = b ∷ copy dst src

-- The servers that are connected, those that have crashed, and those that are cut off.
pub record Servers : Type 0 where
  pub conn : List ℕ
  pub crashes : List ℕ
  pub alone : List ℕ

abbrev pub place_server : ℕ → Bool → Bool → Servers → Servers
place_server id connected crashed s =
    if crashed
    then record s { crashes = id ∷ s.crashes }
    else if connected
    then record s { conn = id ∷ s.conn }
    else record s { alone = id ∷ s.alone }

abbrev pub add_to : ℕ → Bool → Bool → Option Servers → Option Servers
add_to id connected crashed none = none
add_to id connected crashed (some s) = some (place_server id connected crashed s)

unfoldable pub classify : ℕ → List Bool → List Bool → Option Servers
classify id [] crashed = some (record { conn = []; crashes = []; alone = [] })
classify id (c ∷ cs) [] = none
classify id (c ∷ cs) (k ∷ ks) = add_to id c k (classify (id + 1) cs ks)

-- `%v` of a slice of numbers, after its bracket.
abbrev pub spaced : List ℕ → String
spaced [] = "]"
spaced (n ∷ ns) = " " +s itoa n +s spaced ns

abbrev pub show_ints : List ℕ → String
show_ints [] = "[]"
show_ints (n ∷ ns) = "[" +s itoa n +s spaced ns

abbrev pub singles : List ℕ → String
singles [] = ""
singles (n ∷ ns) = "[" +s itoa n +s "] " +s singles ns

abbrev pub show_conn : List ℕ → String
show_conn [] = ""
show_conn (n ∷ ns) = show_ints (n ∷ ns)

abbrev pub show_crashes : List ℕ → String
show_crashes [] = ""
show_crashes (n ∷ ns) = " / crash = " +s show_ints (n ∷ ns)

unfoldable pub fault_text : Servers → String
fault_text s = "partition = " +s singles s.alone +s show_conn s.conn +s show_crashes s.crashes

abbrev pub mark_fault : Option Servers → ℕ → Globals → Option Globals
mark_fault none t g = none
mark_fault (some s) t g = some (record g {
  annotation =
      annotate_continuous_color tag_partition (fault_text s) (fault_text s) color_fault t
        g.annotation;
})

-- No test and no crash: the mark of the failure ends.
abbrev pub end_fault : ℕ → Globals → Globals
end_fault t g = record g { annotation = annotate_continuous_end tag_partition t g.annotation }

abbrev pub all_well : FrameworkInfo → Bool
all_well f =
    equal (replicate f.nservers true) f.connected && equal (replicate f.nservers false) f.crashed

unfoldable pub annotate_fault : ℕ → Globals → Option Globals
annotate_fault t g =
    if all_well g.finfo
    then some (end_fault t g)
    else mark_fault (classify 0 g.finfo.connected g.finfo.crashed) t g

unfoldable pub annotate_connection : List Bool → ℕ → Globals → Option Globals
annotate_connection connection t g =
    if equal g.finfo.connected connection
    then some g
    else annotate_fault t
        (record g { finfo = record g.finfo { connected = copy g.finfo.connected connection } })

unfoldable pub annotate_two_partitions : List ℕ → List ℕ → ℕ → Globals → Globals
annotate_two_partitions p1 p2 t g =
    let text = "partition = " +s show_ints p1 +s " " +s show_ints p2 in
    record g {
      annotation = annotate_continuous_color tag_partition text text color_fault t g.annotation;
    }

unfoldable pub annotate_clear_failure : ℕ → Globals → Globals
annotate_clear_failure t g = end_fault t (record g {
  finfo = record g.finfo {
    crashed = replicate (length g.finfo.crashed) false;
    connected = replicate (length g.finfo.connected) true;
  };
})

-- The loop of `AnnotateShutdown` (`down` is true) and of `AnnotateRestart`: whether a server's flag
-- changes, and the flags.
abbrev pub flag_next :
    Bool
    → ℕ
    → Bool
    → List Bool
    → Option Bool
    → (Bool → List Bool → Option (Bool × List Bool))
    → Option (Bool × List Bool)
flag_next down id changed crashed none rest = none
flag_next down id changed crashed (some was) rest =
    rest (if down then changed || not was else changed || was) (set crashed id down)

unfoldable pub set_flags : Bool → List ℕ → Bool → List Bool → Option (Bool × List Bool)
set_flags down [] changed crashed = some (changed, crashed)
set_flags down (id ∷ ids) changed crashed =
    flag_next down id changed crashed (get_elem? crashed id) (set_flags down ids)

abbrev pub after_flags : Option (Bool × List Bool) → ℕ → Globals → Option Globals
after_flags none t g = none
after_flags (some (changed, crashed)) t g =
    let g' : Globals = record g { finfo = record g.finfo { crashed = crashed } } in
    if changed then annotate_fault t g' else some g'

unfoldable pub annotate_shutdown : List ℕ → ℕ → Globals → Option Globals
annotate_shutdown servers t g = after_flags (set_flags true servers false g.finfo.crashed) t g

unfoldable pub annotate_restart : List ℕ → ℕ → Globals → Option Globals
annotate_restart servers t g = after_flags (set_flags false servers false g.finfo.crashed) t g

-- The numbers from `i` on.
abbrev pub numbers : ℕ → ℕ → List ℕ
numbers i zero = []
numbers i (suc n) = i ∷ numbers (i + 1) n

unfoldable pub annotate_shutdown_all : ℕ → Globals → Option Globals
annotate_shutdown_all t g = annotate_shutdown (numbers 0 g.finfo.nservers) t g

unfoldable pub annotate_restart_all : ℕ → Globals → Option Globals
annotate_restart_all t g = annotate_restart (numbers 0 g.finfo.nservers) t g
