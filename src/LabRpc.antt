-- ===== src/LabRpc.antt =====
-- src/labrpc/labrpc.go: the simulated network. Names are strings; a server is a pointer into a store,
-- so that a server that was deleted or replaced under its name is told from its successor. A service's
-- methods, which the source finds by reflection, are functions on the server's application state with
-- encoded arguments and replies. The statistics of messages and bytes are left out. Random numbers,
-- delays and the order in which goroutines run are the events of a run.
pub mod Dispatch
pub mod Process
pub mod Once
pub mod Wiring
pub mod Ends
mod Tests
use mit_6_5840_distributed_s.Base.Bytes.{Bytes, bytes_eq}
use mit_6_5840_distributed_s.Base.Dict.{Dict, insert, delete, lookup}
use mit_6_5840_distributed_s.Base.{
  ℕ, String, Bool, true, false, ◌||◌, Option, none, some, List, [], ◌∷◌, eqb, if◌then◌else◌, ◌==◌,
  string_eq, not,
}

abbrev pub Method : Type 0 → Type 0
Method S = Bytes → S → S × Bytes

pub record ReqMsg : Type 0 where
  pub endname : String
  pub svc_meth : Bytes
  pub args : Bytes

pub record ReplyMsg : Type 0 where
  pub ok : Bool
  pub reply : Bytes

-- `replyMsg{false, nil}`.
abbrev pub no_reply : ReplyMsg
no_reply = record { ok = false; reply = [] }

pub record Server (S : Type 0) : Type 0 where
  pub services : Dict Bytes (Dict Bytes (Method S))
  pub count : ℕ
  pub dispatchf : Option (Bytes → Bytes → Bytes × Bool)
  pub state : S

pub record Network : Type 0 where
  pub reliable : Bool
  pub long_delays : Bool
  pub long_reordering : Bool
  pub ends : List String
  pub enabled : Dict String Bool
  pub servers : Dict String (Option ℕ)
  pub connections : Dict String (Option String)

unfoldable pub make_network : Network
make_network = record {
  reliable = true;
  long_delays = false;
  long_reordering = false;
  ends = [];
  enabled = [];
  servers = [];
  connections = [];
}

-- A read of a map of Booleans, or of a map of values that may be nil.
abbrev pub or_false : Option Bool → Bool
or_false none = false
or_false (some b) = b

abbrev pub or_nil : {A : Type 0} → Option (Option A) → Option A
or_nil none = none
or_nil (some a) = a

-- What `readEndnameInfo` returns.
pub record Info : Type 0 where
  pub enabled : Bool
  pub servername : Option String
  pub server : Option ℕ
  pub reliable : Bool
  pub longreordering : Bool

abbrev pub server_named : Network → Option String → Option ℕ
server_named rn none = none
server_named rn (some name) = or_nil (lookup name rn.servers)

unfoldable pub read_endname_info : String → Network → Info
read_endname_info endname rn =
    let servername = or_nil (lookup endname rn.connections) in
    record {
      enabled = or_false (lookup endname rn.enabled);
      servername = servername;
      server = server_named rn servername;
      reliable = rn.reliable;
      longreordering = rn.long_reordering;
    }

abbrev pub is_ptr : Option ℕ → ℕ → Bool
is_ptr none p = false
is_ptr (some q) p = eqb q p

unfoldable pub is_server_dead : String → String → ℕ → Network → Bool
is_server_dead endname servername server rn =
    not (or_false (lookup endname rn.enabled))
    || not (is_ptr (or_nil (lookup servername rn.servers)) server)

abbrev pub among : String → List String → Bool
among n [] = false
among n (m ∷ ms) = m == n || among n ms

abbrev pub without : String → List String → List String
without n [] = []
without n (m ∷ ms) = let rest = without n ms in if m == n then rest else m ∷ rest

-- The operations that the tests call; `none` is `log.Fatalf`. First, the network with a new end.
abbrev pub with_end : String → Network → Network
with_end endname rn = record rn {
  ends = endname ∷ rn.ends;
  enabled = insert endname false rn.enabled;
  connections = insert endname none rn.connections;
}

unfoldable pub make_end : String → Network → Option Network
make_end endname rn = if among endname rn.ends then none else some (with_end endname rn)

unfoldable pub delete_end : String → Network → Option Network
delete_end endname rn =
    if not (among endname rn.ends)
    then none
    else some (record rn {
      ends = without endname rn.ends;
      enabled = delete endname rn.enabled;
      connections = delete endname rn.connections;
    })

unfoldable pub add_server : String → ℕ → Network → Network
add_server servername rs rn = record rn { servers = insert servername (some rs) rn.servers }

unfoldable pub delete_server : String → Network → Network
delete_server servername rn = record rn { servers = insert servername none rn.servers }

unfoldable pub connect : String → String → Network → Network
connect endname servername rn = record rn {
  connections = insert endname (some servername) rn.connections;
}

unfoldable pub enable : String → Bool → Network → Network
enable endname enabled rn = record rn { enabled = insert endname enabled rn.enabled }
