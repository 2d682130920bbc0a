-- ===== src/Persister.antt =====
-- src/tester1/persister.go, with the byte arrays that its slices point to: a slice is the address of an
-- array, `none` for nil. Its callers may write to the arrays that they have.
mod Tests
use mit_6_5840_distributed_s.Base.Bytes.{Bytes}
use mit_6_5840_distributed_s.Base.{
  ℕ, ◌+◌, ◌≤◌, ◌<◌, ◌≡◌, refl, ap, ◌∙◌, Option, none, some, List, [], ◌∷◌, arith, eqb,
  if◌then◌else◌, length, All,
}

pub record Heap : Type 0 where
  pub next : ℕ
  pub cells : ℕ → Bytes

abbrev pub Slice : Type 0
Slice = Option ℕ

abbrev pub content : Heap → Slice → Bytes
content h none = []
content h (some a) = h.cells a

-- An array of a caller gets other bytes.
abbrev pub write : ℕ → Bytes → Heap → Heap
write a bytes h = record h { cells = λ b. if eqb a b then bytes else h.cells b }

unfoldable pub clone : Slice → Heap → Heap × Slice
clone orig h = (
  record { next = h.next + 1; cells = λ b. if eqb h.next b then content h orig else h.cells b },
  some h.next,
)

pub record Persister : Type 0 where
  pub raftstate : Slice
  pub snapshot : Slice

unfoldable pub make_persister : Persister
make_persister = record { raftstate = none; snapshot = none }

unfoldable pub save : Slice → Slice → Persister → Heap → Heap × Persister
unfolding clone
save raftstate snapshot ps h =
    let (h1, r) = clone raftstate h in
    let (h2, s) = clone snapshot h1 in (h2, record { raftstate = r; snapshot = s })

unfoldable pub checkpoint : Persister → Heap → Heap × Persister
unfolding clone
checkpoint ps h =
    let (h1, r) = clone ps.raftstate h in
    let (h2, s) = clone ps.snapshot h1 in (h2, record { raftstate = r; snapshot = s })

unfoldable pub read_raft_state : Persister → Heap → Heap × Slice
unfolding clone
read_raft_state ps h = clone ps.raftstate h

unfoldable pub read_snapshot : Persister → Heap → Heap × Slice
unfolding clone
read_snapshot ps h = clone ps.snapshot h

unfoldable pub raft_state_size : Persister → Heap → ℕ
raft_state_size ps h = length (content h ps.raftstate)

unfoldable pub snapshot_size : Persister → Heap → ℕ
snapshot_size ps h = length (content h ps.snapshot)

-- A slice of an array that exists.
abbrev pub IsLive : Heap → Slice → Type 0
IsLive h none = Unit
IsLive h (some a) = a < h.next

-- Writes of the callers to arrays below an address.
abbrev pub writes : List (ℕ × Bytes) → Heap → Heap
writes [] h = h
writes ((a, bytes) ∷ ws) h = writes ws (write a bytes h)

abbrev Below : ℕ → List (ℕ × Bytes) → Type 0
Below n ws = All (λ w. w.0 < n) ws

cells-writes :
    (n b : ℕ) (ws : List (ℕ × Bytes)) (h : Heap)
    → Below n ws
    → n ≤ b
    → (writes ws h).cells b ≡ h.cells b
cells-writes n b [] h u k = refl
cells-writes n b ((a, bytes) ∷ ws) h u k =
    cells-writes n b ws (write a bytes h) u.1 k ∙ ground (arith, u.0)

content-clone :
    (o other : Slice) (h : Heap) → IsLive h o → content (clone other h).0 o ≡ content h o
unfolding clone
content-clone none other h l = refl
content-clone (some a) other h l = ground (arith, l)

-- If both slices are live when they are saved, then the contents and the sizes that are read
-- afterwards are those at the time of the save, whatever the callers have written since to the arrays
-- that existed then.
pub save-read :
    (raftstate snapshot : Slice) (ps : Persister) (h : Heap) (ws : List (ℕ × Bytes))
    → IsLive h raftstate
    → IsLive h snapshot
    → Below h.next ws
    → let (h1, ps1) = save raftstate snapshot ps h in
      let h2 = writes ws h1 in
      let (h3, r) = read_raft_state ps1 h2 in
      let (h4, s) = read_snapshot ps1 h2 in
      (content h3 r ≡ content h raftstate)
      × (content h4 s ≡ content h snapshot)
      × (raft_state_size ps1 h2 ≡ length (content h raftstate))
      × (snapshot_size ps1 h2 ≡ length (content h snapshot))
unfolding save read_raft_state read_snapshot raft_state_size snapshot_size clone
save-read raftstate snapshot ps h ws lr ls below =
    let h1 = (save raftstate snapshot ps h).0 in
    let r = cells-writes h.next h.next ws h1 below (omega arith) in
    let s = cells-writes h.next (h.next + 1) ws h1 below (omega arith) in
    let c = content-clone snapshot raftstate h ls in
    (
      ground (arith, r),
      ground (arith, s, c),
      ap length (ground (arith, r)),
      ap length (ground (arith, s, c)),
    )

-- A checkpoint of a persister with live slices keeps the contents, whatever is saved to the
-- persister afterwards.
pub checkpoint-save :
    (ps : Persister) (raftstate snapshot : Slice) (h : Heap)
    → IsLive h ps.raftstate
    → IsLive h ps.snapshot
    → let (h1, np) = checkpoint ps h in
      let h2 = (save raftstate snapshot ps h1).0 in
      (content h2 np.raftstate ≡ content h ps.raftstate)
      × (content h2 np.snapshot ≡ content h ps.snapshot)
unfolding checkpoint save clone
checkpoint-save ps raftstate snapshot h lr ls =
    (ground arith, ground (arith, content-clone ps.snapshot ps.raftstate h ls))
