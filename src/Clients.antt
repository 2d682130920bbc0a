-- ===== src/Clients.antt =====
-- src/tester1/clnts.go: the clients of a test, each with its ends on the shared network. An end is its
-- name; a new end's random name is an argument. `none` is `log.Fatalf`, for a name that is taken or an
-- end that the network does not have. A client is a pointer, which is a number here.
pub mod Ends
pub mod Reach
mod Tests
use mit_6_5840_distributed_s.Base.Dict.{Dict, insert, delete, lookup}
use mit_6_5840_distributed_s.Base.{
  ℕ, String, Bool, true, false, Option, none, some, List, [], ◌∷◌, if◌then◌else◌, ◌==◌, string_eq,
  nat_eq, ◌>>=◌,
}
use mit_6_5840_distributed_s.LabRpc.{Network, among, make_end, delete_end, connect, enable}

-- `Clnt`: its end for each server, and the servers that it may reach, all of them if nil.
pub record Clnt : Type 0 where
  pub ends : Dict String String
  pub srvs : Option (List String)

unfoldable pub make_clnt_to : Option (List String) → Clnt
make_clnt_to srvs = record { ends = []; srvs = srvs }

-- `allowedL`.
abbrev pub allowed_in : Option (List String) → String → Bool
allowed_in none server = true
allowed_in (some srvs) server = among server srvs

abbrev pub allowed : Clnt → String → Bool
allowed clnt server = allowed_in clnt.srvs server

-- The new end of `makeEnd`.
unfoldable pub new_end : String → String → Clnt → Network → Option (String × Clnt × Network)
new_end server name clnt net = do
  net' ← make_end name net
  some (
    name,
    record clnt { ends = insert server name clnt.ends },
    enable name (allowed clnt server) (connect name server net'),
  )

-- `Clnt.makeEnd`: the end of the server, which is made when it is first asked for.
unfoldable pub make_clnt_end : String → String → Clnt → Network → Option (String × Clnt × Network)
make_clnt_end server name clnt net = elim (lookup server clnt.ends) [
  | none ↦ new_end server name clnt net
  | some e ↦ some (e, clnt, net)
]

-- The loops over the client's ends: those of the servers for which `test` holds are set.
unfoldable pub enable_each : (String → Bool) → Bool → Dict String String → Network → Network
enable_each test v [] net = net
enable_each test v ((server, name) ∷ rest) net =
    enable_each test v rest (if test server then enable name v net else net)

unfoldable pub connect_all : Clnt → Network → Clnt × Network
connect_all clnt net = (record clnt { srvs = none }, enable_each (λ s. true) true clnt.ends net)

-- A nil list allows every server.
unfoldable pub connect_to : Option (List String) → Clnt → Network → Clnt × Network
connect_to srvs clnt net =
    (record clnt { srvs = srvs }, enable_each (allowed_in srvs) true clnt.ends net)

unfoldable pub disconnect : String → Clnt → Network → Network
disconnect srv clnt net = enable_each (λ s. s == srv) false clnt.ends net

unfoldable pub disconnect_all : Clnt → Network → Clnt × Network
disconnect_all clnt net =
    (record clnt { srvs = some [] }, enable_each (λ s. true) false clnt.ends net)

unfoldable pub remove_ends : Dict String String → Network → Option Network
remove_ends [] net = some net
remove_ends ((server, name) ∷ rest) net = do net' ← delete_end name net; remove_ends rest net'

unfoldable pub remove : Clnt → Network → Option Network
remove clnt net = remove_ends clnt.ends net

-- `Clnts`, with the clients that its pointers point to.
abbrev pub Clnts : Type 0
Clnts = Dict ℕ Clnt

-- `MakeClientTo`, at a new address.
unfoldable pub make_client_to : ℕ → Option (List String) → Clnts → Clnts
make_client_to p srvs clerks = insert p (make_clnt_to srvs) clerks

unfoldable pub make_client : ℕ → Clnts → Clnts
make_client p clerks = make_client_to p none clerks

unfoldable pub delete_client : ℕ → Clnts → Network → Option (Clnts × Network)
delete_client p clerks net = elim (lookup p clerks) [
  | none ↦ some (clerks, net)
  | some clnt ↦ remove clnt net >>= λ net'. some (delete p clerks, net')
]

unfoldable pub remove_each : Clnts → Network → Option Network
remove_each [] net = some net
remove_each ((p, clnt) ∷ rest) net = do net' ← remove clnt net; remove_each rest net'

unfoldable pub cleanup : Clnts → Network → Option (Clnts × Network)
cleanup clerks net = do net' ← remove_each clerks net; some ([], net')
