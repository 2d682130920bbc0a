-- ===== src/Group.antt =====
-- src/tester1/group.go and srv.go: a group of servers on the simulated network. The network is the one
-- that all groups and clients share. A server's process and its persister are opaque: what the source
-- asks of them is a parameter. `none` is a panic or `log.Fatalf`: an index out of range, or an end whose
-- name is taken. Random names, and the address of a new network server, are arguments.
pub mod Ends
pub mod Link
pub mod Partition
pub mod Fill
pub mod Split
pub mod Start
mod Tests
use Prim.Native.String
use mit_6_5840_distributed_s.Base.{
  ℕ, zero, suc, ◌+◌, ◌-◌, ◌/◌, String, Bool, true, false, not, Option, none, some, List, [], ◌∷◌,
  ◌++◌, eqb, ltb, if◌then◌else◌, get_elem?, set, replicate, length, ◌>>=◌,
}
use mit_6_5840_distributed_s.Mr.WordCount.{itoa}
use mit_6_5840_distributed_s.Annotate.Fault.{numbers, ◌+s◌}
use mit_6_5840_distributed_s.LabRpc.{Network, make_end, connect, enable, add_server, delete_server}

unfoldable pub server_name : ℕ → ℕ → String
server_name gid i = "server-" +s itoa gid +s "-" +s itoa i

-- `Server` of srv.go, with its persister and its process.
pub record Srv (P D : Type 0) : Type 0 where
  pub end_names : List String
  pub saved : Option P
  pub dc : Option D

pub record ServerGrp (P D : Type 0) : Type 0 where
  pub net : Network
  pub gid : ℕ
  pub srvs : List (Srv P D)
  pub connected : List Bool

-- The loop of `makeServer`: an end to each server of the group.
unfoldable pub make_ends : ℕ → ℕ → List String → Network → Option Network
make_ends gid j [] net = some net
make_ends gid j (name ∷ names) net = do
  net' ← make_end name net
  make_ends gid (j + 1) names (connect name (server_name gid j) net')

-- An end is looked up only where it is enabled.
abbrev pub enable_if : Bool → Option String → Network → Option Network
enable_if false name net = some net
enable_if true none net = none
enable_if true (some name) net = some (enable name true net)

-- `Server.connect`: the outgoing ends to the servers that are connected.
unfoldable pub connect_out : List String → List Bool → List ℕ → Network → Option Network
connect_out names connected [] net = some net
connect_out names connected (j ∷ to) net = do
  c ← get_elem? connected j
  net' ← enable_if c (get_elem? names j) net
  connect_out names connected to net'

-- `Server.disconnect`.
unfoldable pub disconnect_out : List String → List ℕ → Network → Option Network
disconnect_out names [] net = some net
disconnect_out names (j ∷ from) net = do
  name ← get_elem? names j
  disconnect_out names from (enable name false net)

module _ {P D : Type 0} where
  -- `sg.srvs[j].endNames[i]`.
  abbrev pub end_name : List (Srv P D) → ℕ → ℕ → Option String
  end_name srvs j i = get_elem? srvs j >>= λ s. get_elem? s.end_names i

  -- The ends of the other servers to server `i`.
  unfoldable pub connect_in : ℕ → List (Srv P D) → List Bool → List ℕ → Network → Option Network
  connect_in i srvs connected [] net = some net
  connect_in i srvs connected (j ∷ to) net = do
    c ← get_elem? connected j
    net' ← enable_if c (end_name srvs j i) net
    connect_in i srvs connected to net'

  unfoldable pub disconnect_in : ℕ → List (Srv P D) → List ℕ → Network → Option Network
  disconnect_in i srvs [] net = some net
  disconnect_in i srvs (j ∷ from) net = do
    name ← end_name srvs j i
    disconnect_in i srvs from (enable name false net)

  -- `ServerGrp.connect`.
  unfoldable pub connect_to : ℕ → List ℕ → ServerGrp P D → Option (ServerGrp P D)
  connect_to i to sg = do
    c ← get_elem? sg.connected i
    s ← get_elem? sg.srvs i
    net ← connect_out s.end_names (set sg.connected i true) to sg.net
    net' ← connect_in i sg.srvs (set sg.connected i true) to net
    some (record sg { net = net'; connected = set sg.connected i true })

  -- `ServerGrp.disconnect`.
  unfoldable pub disconnect_from : ℕ → List ℕ → ServerGrp P D → Option (ServerGrp P D)
  disconnect_from i from sg = do
    c ← get_elem? sg.connected i
    s ← get_elem? sg.srvs i
    net ← disconnect_out s.end_names from sg.net
    net' ← disconnect_in i sg.srvs from net
    some (record sg { net = net'; connected = set sg.connected i false })

  unfoldable pub all : ServerGrp P D → List ℕ
  all sg = numbers 0 (length sg.srvs)

  unfoldable pub connect_one : ℕ → ServerGrp P D → Option (ServerGrp P D)
  connect_one i sg = connect_to i (all sg) sg

  unfoldable pub connect_each : List ℕ → ServerGrp P D → Option (ServerGrp P D)
  connect_each [] sg = some sg
  connect_each (i ∷ is) sg = do sg' ← connect_one i sg; connect_each is sg'

  unfoldable pub connect_all : ServerGrp P D → Option (ServerGrp P D)
  connect_all sg = connect_each (all sg) sg

  unfoldable pub disconnect_all : ℕ → ServerGrp P D → Option (ServerGrp P D)
  disconnect_all i sg = disconnect_from i (all sg) sg

  -- One loop of `Partition`: each server of one side.
  unfoldable pub isolate : List ℕ → List ℕ → List ℕ → ServerGrp P D → Option (ServerGrp P D)
  isolate [] own other sg = some sg
  isolate (i ∷ is) own other sg = do
    sg' ← disconnect_from i other sg
    sg'' ← connect_to i own sg'
    isolate is own other sg''

  unfoldable pub partition : List ℕ → List ℕ → ServerGrp P D → Option (ServerGrp P D)
  partition p1 p2 sg = do sg' ← isolate p1 p1 p2 sg; isolate p2 p2 p1 sg'

  -- `Server.startServer`, with the ends' random names and `MakePersister`.
  unfoldable pub start_srv : ℕ → List String → P → Srv P D → Network → Option (Srv P D × Network)
  start_srv gid names fresh s net = do
    net' ← make_ends gid 0 names net
    let saved : Option P = elim s.saved [ none ↦ some fresh | some p ↦ some p ]
    some (record { end_names = names; saved = saved; dc = none }, net')

  -- `ServerGrp.StartServer` from what `runDaemon` returns; the process is handed the persister.
  unfoldable pub start_server :
      ℕ → List String → P → (P → D → D) → Option D → ℕ → ServerGrp P D → Option (ServerGrp P D)
  start_server i names fresh init daemon rs sg = do
    s ← get_elem? sg.srvs i
    r ← start_srv sg.gid names fresh s sg.net
    p ← r.0.saved
    some (elim daemon [
      | none ↦ record sg { srvs = set sg.srvs i r.0; net = r.1 }
      | some d ↦ record sg {
        srvs = set sg.srvs i (record r.0 { dc = some (init p d) });
        net = add_server (server_name sg.gid i) rs r.1;
      }
    ])

  -- `Server.shutdownServer`, with the checkpoint of the process.
  abbrev pub shutdown_srv : (D → P) → Srv P D → Srv P D
  shutdown_srv checkpoint s = elim s.dc [
    | none ↦ s
    | some d ↦ record s { saved = some (checkpoint d); dc = none }
  ]

  unfoldable pub shutdown_server : ℕ → (D → P) → ServerGrp P D → Option (ServerGrp P D)
  shutdown_server i checkpoint sg = do
    sg' ← disconnect_from i (all sg) sg
    s ← get_elem? sg'.srvs i
    some (record sg' {
      net = delete_server (server_name sg'.gid i) sg'.net;
      srvs = set sg'.srvs i (shutdown_srv checkpoint s);
    })

  unfoldable pub kill : List ℕ → (D → P) → ServerGrp P D → Option (ServerGrp P D)
  kill [] checkpoint sg = some sg
  kill (i ∷ is) checkpoint sg = do sg' ← shutdown_server i checkpoint sg; kill is checkpoint sg'

  unfoldable pub shutdown : (D → P) → ServerGrp P D → Option (ServerGrp P D)
  shutdown checkpoint sg = kill (all sg) checkpoint sg

-- `MakePartition`, with its write to an array: one server goes to the first place of `p1` or `p2` that
-- is left.
abbrev pub put_at : List ℕ → ℕ → ℕ → Option (List ℕ)
put_at p k v = if ltb k (length p) then some (set p k v) else none

unfoldable pub split_from : ℕ → ℕ → ℕ → ℕ → List ℕ → List ℕ → Option (List ℕ × List ℕ)
split_from zero i l j p1 p2 = some (p1, p2)
split_from (suc left) i l j p1 p2 =
    let skip = split_from left (i + 1) l j p1 p2 in
    let first = split_from left (i + 1) l (j + 1) (set p1 j i) p2 in
    let second = put_at p2 (j - length p1) i >>= λ q. split_from left (i + 1) l (j + 1) p1 q in
    if eqb i l then skip else if ltb j (length p1) then first else second

unfoldable pub make_partition : ℕ → ℕ → Option (List ℕ × List ℕ)
make_partition n l = do
  r ← split_from n 0 l 0 (replicate (n / 2 + 1) 0) (replicate (n / 2) 0)
  q ← elim (length r.1) [ zero ↦ none | suc k ↦ some (set r.1 k l) ]
  some (r.0, q)
