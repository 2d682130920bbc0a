-- ===== src/Group/Start.antt =====
-- Stopping and starting a server of a group (src/tester1/group.go, srv.go).
use mit_6_5840_distributed_s.Base.Dict.{lookup, insert}
use mit_6_5840_distributed_s.Group.Ends.{Distinct}
use mit_6_5840_distributed_s.Base.{
  string_eq, ℕ, zero, suc, ◌+◌, ◌≤◌, ◌<◌, String, ◌≡◌, refl, ◌∙◌, ap, sym, false, ◌&&◌, ◌||◌, none,
  some, List, arith, eqb, if◌then◌else◌, get_elem?, set, length, has, In, length_of_get_elem?,
  get_elem?-set, leb, ltb, Option-cases, inl, inr, some_inj,
}
use mit_6_5840_distributed_s.LabRpc.{add_server, delete_server}
use mit_6_5840_distributed_s.Base.Dict.{same_self, lookup-insert}
use mit_6_5840_distributed_s.Group.Link.{Good, up, on, disconnect_from-up}
use mit_6_5840_distributed_s.Group.{
  ServerGrp, Srv, shutdown_server, shutdown_srv, start_server, start_srv, make_ends, server_name,
  all, numbers, delete_server, add_server, disconnect_from, Network,
}

has-numbers : (i n k : ℕ) → has k (numbers i n) ≡ (leb i k && ltb k (i + n))
has-numbers i zero k = ground arith
has-numbers i (suc n) k = ground (arith, has-numbers (i + 1) n k)

numbers-In : (i n m : ℕ) → i + n ≤ m → In m (numbers i n)
numbers-In i zero m h = tt
numbers-In i (suc n) m h = (omega arith, numbers-In (i + 1) n m (omega arith))

module _ {P D : Type 0} where
  halted :
      (s : Srv P D) (d : D) (checkpoint : D → P)
      → s.dc ≡ some d
      → shutdown_srv checkpoint s
        ≡ record { end_names = s.end_names; saved = some (checkpoint d); dc = none }
  halted s d checkpoint e = rw e refl

  disconnect_from_keeps :
      (i : ℕ) (from : List ℕ) (sg sg' : ServerGrp P D)
      → disconnect_from i from sg ≡ some sg'
      → sg'.srvs ≡ sg.srvs
  unfolding disconnect_from
  disconnect_from_keeps i from sg sg' e = ground arith

  -- The servers after one is shut down.
  shutdown_server_saves :
      (i : ℕ) (checkpoint : D → P) (d : D) (sg sg1 : ServerGrp P D) (s : Srv P D)
      → shutdown_server i checkpoint sg ≡ some sg1
      → get_elem? sg.srvs i ≡ some s
      → s.dc ≡ some d
      → get_elem? sg1.srvs i
        ≡ some (record { end_names = s.end_names; saved = some (checkpoint d); dc = none })
  unfolding shutdown_server
  shutdown_server_saves i checkpoint d sg sg1 s e es ed =
      elim (Option-cases (disconnect_from i (all sg) sg)) [
        | inl n ↦ absurd (cc (rw (shutdown_server, n) at e))
        | inr (sg0, h) ↦
            let kept : get_elem? sg0.srvs i ≡ some s =
              ap (λ l. get_elem? l i) (disconnect_from_keeps i (all sg) sg sg0 h) ∙ es in
            ground (
              arith,
              some_inj (rw (shutdown_server, h, kept) at e),
              get_elem?-set sg0.srvs i i (shutdown_srv checkpoint s)
                  (length_of_get_elem? sg0.srvs i kept),
              halted s d checkpoint ed,
            )
      ]

  -- A server that was shut down and is started again gets the persister that its last process has kept,
  -- whatever names its new ends get, as long as these are free.
  pub start_server-shutdown_server :
      (i : ℕ) (checkpoint : D → P) (init : P → D → D) (names : List String) (fresh : P) (d d' : D)
      (rs : ℕ) (sg sg1 : ServerGrp P D) (s : Srv P D) (net : Network)
      → shutdown_server i checkpoint sg ≡ some sg1
      → get_elem? sg.srvs i ≡ some s
      → s.dc ≡ some d
      → make_ends sg1.gid 0 names sg1.net ≡ some net
      → (sg2 : ServerGrp P D) × (start_server i names fresh init (some d') rs sg1 ≡ some sg2)
        × (get_elem? sg2.srvs i
            ≡ some (record {
              end_names = names;
              saved = some (checkpoint d);
              dc = some (init (checkpoint d) d');
            }))
        × (lookup (server_name sg1.gid i) sg2.net.servers ≡ some (some rs))
  unfolding shutdown_server start_server start_srv add_server
  start_server-shutdown_server i checkpoint init names fresh d d' rs sg sg1 s net e es ed free =
      let saved = shutdown_server_saves i checkpoint d sg sg1 s e es ed in
      (
        record sg1 {
          srvs = set sg1.srvs i (record {
            end_names = names;
            saved = some (checkpoint d);
            dc = some (init (checkpoint d) d');
          });
          net = add_server (server_name sg1.gid i) rs net;
        },
        rw (saved, free) refl,
        get_elem?-set sg1.srvs i i
              (record {
                end_names = names;
                saved = some (checkpoint d);
                dc = some (init (checkpoint d) d');
              })
              (length_of_get_elem? sg1.srvs i saved)
            ∙ ground arith,
        lookup-insert (server_name sg1.gid i) (server_name sg1.gid i) (some rs) net.servers
            ∙ rw (same_self (server_name sg1.gid i)) refl,
      )

module _ {P D : Type 0} (n : ℕ) (name : ℕ → ℕ → String) where
  -- A server that is shut down is cut off from all servers of its group in both directions, the network
  -- knows no server under its name, and what the process has kept is saved; the ends between other
  -- servers are as they were.
  pub shutdown_server-up :
      (distinct : Distinct n name) (i : ℕ) (checkpoint : D → P) (sg : ServerGrp P D) (s : Srv P D)
      (d : D)
      → Good n name sg
      → length sg.srvs ≡ n
      → i < n
      → get_elem? sg.srvs i ≡ some s
      → s.dc ≡ some d
      → (sg' : ServerGrp P D) × (shutdown_server i checkpoint sg ≡ some sg')
        × (get_elem? sg'.srvs i
            ≡ some (record { end_names = s.end_names; saved = some (checkpoint d); dc = none }))
        × (lookup (server_name sg.gid i) sg'.net.servers ≡ some none)
        × (on n name sg' i ≡ false)
        × ((a b : ℕ)
            → a < n
            → b < n
            → up n name sg' a b ≡ (if eqb i a || eqb i b then false else up n name sg a b))
  unfolding shutdown_server all delete_server
  shutdown_server-up distinct i checkpoint sg s d good len li es ed =
      let (sg1, e1, g1, r1, r2, o1, u1) =
        disconnect_from-up n name distinct i (numbers 0 (length sg.srvs)) sg good li
          (numbers-In 0 (length sg.srvs) n (omega arith)) in
      let s1 : get_elem? sg1.srvs i ≡ some s = ap (λ l. get_elem? l i) r1 ∙ es in
      let down = server_name sg1.gid i in
      (
        record sg1 {
          net = delete_server down sg1.net;
          srvs = set sg1.srvs i (shutdown_srv checkpoint s);
        },
        rw (e1, s1) refl,
        get_elem?-set sg1.srvs i i (shutdown_srv checkpoint s) (length_of_get_elem? sg1.srvs i s1)
            ∙ ground (arith, halted s d checkpoint ed),
        ap (λ g. lookup (server_name g i) (insert down none sg1.net.servers)) (sym r2)
            ∙ lookup-insert down down none sg1.net.servers
            ∙ rw (same_self down) refl,
        o1 i li ∙ ground arith,
        λ a b la lb.
            u1 a b la lb
            ∙ ground (arith, has-numbers 0 (length sg.srvs) a, has-numbers 0 (length sg.srvs) b),
      )
