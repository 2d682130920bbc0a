-- ===== src/Persister/Tests.antt =====
-- Saves on concrete memories, and instances of the theorems about them.
use mit_6_5840_distributed_s.Base.{◌≡◌, some, [], ◌∷◌, arith, eqb, if◌then◌else◌}
use mit_6_5840_distributed_s.Persister.{
  Heap, content, make_persister, save, read_raft_state, read_snapshot, raft_state_size,
  snapshot_size, writes, save-read,
}

abbrev memory : Heap
memory = record { next = 2; cells = λ a. if eqb a 0 then 1 ∷ 2 ∷ [] else 3 ∷ [] }

save-read_example :
    let (h1, ps1) = save (some 0) (some 1) make_persister memory in
    let h2 = writes ((0, 9 ∷ []) ∷ []) h1 in
    let (h3, r) = read_raft_state ps1 h2 in
    let (h4, s) = read_snapshot ps1 h2 in
    (content h3 r ≡ 1 ∷ 2 ∷ [])
    × (content h4 s ≡ 3 ∷ [])
    × (raft_state_size ps1 h2 ≡ 2)
    × (snapshot_size ps1 h2 ≡ 1)
save-read_example =
    save-read (some 0) (some 1) make_persister memory ((0, 9 ∷ []) ∷ []) (omega arith) (omega arith)
      (omega arith, tt)
