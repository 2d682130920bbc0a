-- ===== src/Group/Partition.antt =====
-- Partitioning a group (src/tester1/group.go).
use mit_6_5840_distributed_s.Group.Link.{Good, disconnect_from-up, on, connect_to-up, up}
use mit_6_5840_distributed_s.Base.{
  ℕ, ◌<◌, String, ◌≡◌, refl, true, false, ◌&&◌, ◌||◌, some, List, [], ◌∷◌, arith, if◌then◌else◌,
  has, In,
}
use mit_6_5840_distributed_s.Group.Ends.{Distinct}
use mit_6_5840_distributed_s.Group.{ServerGrp, connect_to, disconnect_from, isolate, partition}

module _ {P D : Type 0} (n : ℕ) (name : ℕ → ℕ → String) where
  -- The state of the loop over `own`, when it has passed `done`.
  record Isolating (own other done : List ℕ) (sg0 sg : ServerGrp P D) : Type 0 where
    good : Good n name sg
    kept_on : (k : ℕ) → k < n → on n name sg k ≡ (if has k done then true else on n name sg0 k)
    same :
        (a b : ℕ) → a < n → b < n → has a done ≡ true → has b done ≡ true → up n name sg a b ≡ true
    cross :
        (a b : ℕ)
        → a < n
        → b < n
        → (has a done && has b other || has b done && has a other) ≡ true
        → up n name sg a b ≡ false
    rest :
        (a b : ℕ)
        → a < n
        → b < n
        → (has a own && has b own || (has a own && has b other || has b own && has a other)) ≡ false
        → up n name sg a b ≡ up n name sg0 a b

  isolate_step :
      (distinct : Distinct n name) (own other done : List ℕ) (i : ℕ) (sg0 sg : ServerGrp P D)
      → In n own
      → In n other
      → ((k : ℕ) → has k own ≡ true → has k other ≡ false)
      → ((k : ℕ) → has k done ≡ true → has k own ≡ true)
      → i < n
      → has i own ≡ true
      → Isolating own other done sg0 sg
      → (sg1 : ServerGrp P D) × (sg2 : ServerGrp P D) × (disconnect_from i other sg ≡ some sg1)
        × (connect_to i own sg1 ≡ some sg2)
        × Isolating own other (i ∷ done) sg0 sg2
  isolate_step distinct own other done i sg0 sg ho ht apart sub li own_i inv =
      let (sg1, e1, g1, r1, r2, o1, u1) =
        disconnect_from-up n name distinct i other sg inv.good li ht in
      let (sg2, e2, g2, o2, u2) = connect_to-up n name distinct i own sg1 g1 li ho in
      (
        sg1,
        sg2,
        e1,
        e2,
        record {
          good = g2;
          kept_on = λ k lk. ground (arith, o1 k lk, o2 k lk, inv.kept_on k lk);
          same = λ a b la lb ha hb. ground (
            arith,
            u1 a b la lb,
            u2 a b la lb,
            o1 a la,
            o1 b lb,
            o2 a la,
            o2 b lb,
            inv.kept_on a la,
            inv.kept_on b lb,
            sub a,
            sub b,
            apart a,
            apart b,
            inv.same a b la lb,
          );
          cross = λ a b la lb hc. ground (
            arith,
            u1 a b la lb,
            u2 a b la lb,
            sub a,
            sub b,
            apart a,
            apart b,
            apart i,
            inv.cross a b la lb,
          );
          rest = λ a b la lb hr. ground (
            arith,
            u1 a b la lb,
            u2 a b la lb,
            sub a,
            sub b,
            apart a,
            apart b,
            inv.rest a b la lb,
          );
        },
      )

  isolate-Isolating :
      (distinct : Distinct n name) (own other is done : List ℕ) (sg0 sg : ServerGrp P D)
      → In n own
      → In n other
      → ((k : ℕ) → has k own ≡ true → has k other ≡ false)
      → ((k : ℕ) → has k done ≡ true → has k own ≡ true)
      → In n is
      → ((k : ℕ) → has k is ≡ true → has k own ≡ true)
      → Isolating own other done sg0 sg
      → (sg' : ServerGrp P D) × (all_done : List ℕ) × (isolate is own other sg ≡ some sg')
        × ((k : ℕ) → has k all_done ≡ (has k is || has k done))
        × Isolating own other all_done sg0 sg'
  unfolding isolate
  isolate-Isolating distinct own other [] done sg0 sg ho ht apart sub hi si inv =
      (sg, done, refl, λ k. refl, inv)
  isolate-Isolating distinct own other (i ∷ is) done sg0 sg ho ht apart sub hi si inv =
      let (sg1, sg2, e1, e2, inv') =
        isolate_step distinct own other done i sg0 sg ho ht apart sub hi.0 (si i (ground arith))
          inv in
      let (sg3, all_done, e3, h, inv'') =
        isolate-Isolating distinct own other is (i ∷ done) sg0 sg2 ho ht apart
          (λ k e. ground (arith, sub k, si k)) hi.1 (λ k e. ground (arith, si k)) inv' in
      (sg3, all_done, rw (e1, e2) e3, λ k. ground (arith, h k), inv'')

  -- One loop of `Partition`.
  isolate-up :
      (distinct : Distinct n name) (own other : List ℕ) (sg : ServerGrp P D)
      → In n own
      → In n other
      → ((k : ℕ) → has k own ≡ true → has k other ≡ false)
      → Good n name sg
      → (sg' : ServerGrp P D) × (isolate own own other sg ≡ some sg')
        × Good n name sg'
        × ((k : ℕ) → k < n → on n name sg' k ≡ (if has k own then true else on n name sg k))
        × ((a b : ℕ)
            → a < n
            → b < n
            → up n name sg' a b ≡ (
                if has a own && has b own
                then true
                else if has a own && has b other || has b own && has a other
                then false
                else up n name sg a b))
  isolate-up distinct own other sg ho ht apart good =
      let (sg', all_done, e, h, inv) =
        isolate-Isolating distinct own other own [] sg sg ho ht apart (λ k e. cc) ho (λ k e. e)
          (record {
            good = good;
            kept_on = λ k lk. refl;
            same = λ a b la lb ha hb. cc;
            cross = λ a b la lb hc. cc;
            rest = λ a b la lb hr. refl;
          }) in
      (
        sg',
        e,
        inv.good,
        λ k lk. ground (arith, inv.kept_on k lk, h k),
        λ a b la lb.
            ground (arith, h a, h b, inv.same a b la lb, inv.cross a b la lb, inv.rest a b la lb),
      )

  -- In a group whose servers have their ends, under different names, a partition into two sides without
  -- a common server succeeds. Afterwards the servers of both sides are connected, the ends between
  -- two servers of one side are enabled, those between the sides are disabled in both directions, and
  -- every other end and server is as it was.
  pub partition-up :
      (distinct : Distinct n name) (p1 p2 : List ℕ) (sg : ServerGrp P D)
      → Good n name sg
      → In n p1
      → In n p2
      → ((k : ℕ) → has k p1 ≡ true → has k p2 ≡ false)
      → (sg' : ServerGrp P D) × (partition p1 p2 sg ≡ some sg')
        × ((k : ℕ)
            → k < n
            → on n name sg' k ≡ (if has k p1 || has k p2 then true else on n name sg k))
        × ((a b : ℕ)
            → a < n
            → b < n
            → up n name sg' a b ≡ (
                if has a p1 && has b p1 || has a p2 && has b p2
                then true
                else if has a p1 && has b p2 || has a p2 && has b p1
                then false
                else up n name sg a b))
  unfolding partition
  partition-up distinct p1 p2 sg good h1 h2 apart =
      let (sg1, e1, g1, o1, u1) = isolate-up distinct p1 p2 sg h1 h2 apart good in
      let (sg2, e2, g2, o2, u2) =
        isolate-up distinct p2 p1 sg1 h2 h1 (λ k e. ground (arith, apart k)) g1 in
      (
        sg2,
        rw e1 e2,
        λ k lk. ground (arith, o1 k lk, o2 k lk),
        λ a b la lb. ground (arith, u1 a b la lb, u2 a b la lb, apart a, apart b),
      )
