-- ===== src/LabRpc/Ends.antt =====
-- The life of an end of the network (src/labrpc/labrpc.go).
use mit_6_5840_distributed_s.Base.Dict.{same_self, lookup-insert}
use mit_6_5840_distributed_s.Base.{
  String, ◌≡◌, refl, ◌≢◌, inl, inr, false, none, some, arith, Bool-cases, some_inj, str_eq_iff,
  ◌==◌, string_eq,
}
use mit_6_5840_distributed_s.LabRpc.{Network, read_endname_info, among, make_end, with_end}

-- A new end is disabled and connected to no server, its name cannot be taken again, and the other
-- ends are as they were.
pub make_end_new :
    (endname other : String) (rn rn' : Network)
    → make_end endname rn ≡ some rn'
    → endname ≢ other
    → ((read_endname_info endname rn').enabled ≡ false)
      × ((read_endname_info endname rn').servername ≡ none)
      × (make_end endname rn' ≡ none)
      × (read_endname_info other rn' ≡ read_endname_info other rn)
unfolding make_end read_endname_info
make_end_new endname other rn rn' made d = elim (Bool-cases (among endname rn.ends)) [
  | inl old ↦ absurd (cc (old, made))
  | inr new ↦
      let apart : (endname == other) ≡ false = ground (arith, d, str_eq_iff endname other) in
      let new_net : with_end endname rn ≡ rn' = some_inj (rw (make_end, new) at made) in
      rw (← new_net) (
        rw (lookup-insert endname endname false rn.enabled, same_self endname) refl,
        rw (lookup-insert endname endname none rn.connections, same_self endname) refl,
        rw (same_self endname) refl,
        rw
            (
              lookup-insert endname other false rn.enabled,
              lookup-insert endname other none rn.connections,
              apart,
            )
            refl,
      )
]
