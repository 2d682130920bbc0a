-- ===== src/Group/Split.antt =====
-- How `MakePartition` of src/tester1/group.go splits a group.
use mit_6_5840_distributed_s.Group.Fill.{other_server, split_from-Fills, others_below}
use mit_6_5840_distributed_s.Base.{
  ℕ, zero, suc, ◌+◌, ◌-◌, ◌*◌, ◌/◌, ◌<◌, ◌≡◌, refl, ◌∙◌, ap, sym, true, false, not, some, List, [],
  ◌∷◌, arith, eqb, ltb, get_elem?, set, length, replicate, length-replicate, length-set, has, In,
  get_elem?-set, Bool-cases, inl, inr, some_inj, eqb_iff, length_of_get_elem?, ltb→lt,
}
use mit_6_5840_distributed_s.Group.{make_partition, split_from}

-- The q-th server other than `l`, and how many servers other than `l` there are below `i`.
has_get : (p : List ℕ) (q v : ℕ) → get_elem? p q ≡ some v → has v p ≡ true
has_get [] q v e = cc
has_get (x ∷ p) zero v e = ground (arith, some_inj e)
has_get (x ∷ p) (suc q) v e = ground (arith, has_get p q v e)

get_has :
    (p : List ℕ) (v : ℕ) → has v p ≡ true → (q : ℕ) × (q < length p) × (get_elem? p q ≡ some v)
get_has [] v h = absurd (cc h)
get_has (x ∷ p) v h = elim (Bool-cases (eqb x v)) [
  | inl e ↦ (0, omega arith, ap some ((eqb_iff x v).0 e))
  | inr e ↦ let (q, lt, g) = get_has p v (ground arith) in (suc q, omega arith, g)
]

places-In : (n : ℕ) (p : List ℕ) → ((q v : ℕ) → get_elem? p q ≡ some v → v < n) → In n p
places-In n [] h = tt
places-In n (x ∷ p) h = (h 0 x refl, places-In n p (λ q v. h (suc q) v))

-- The two sides, by place: `p1` has the first m + 2 servers other than `l`, `p2` the others and `l`.
record Sides (m l : ℕ) (p1 p2 : List ℕ) : Type 0 where
  length1 : length p1 ≡ m + 2
  length2 : length p2 ≡ m + 1
  first : (q : ℕ) → q < m + 2 → get_elem? p1 q ≡ some (other_server l q)
  second : (q : ℕ) → q < m → get_elem? p2 q ≡ some (other_server l (m + 2 + q))
  last : get_elem? p2 m ≡ some l

-- The end of `MakePartition`: the leader takes the last place.
make_partition_end :
    (m l : ℕ) (r : List ℕ × List ℕ)
    → split_from (2 * m + 3) 0 l 0 (replicate (suc m + 1) 0) (replicate (suc m) 0) ≡ some r
    → length r.1 ≡ suc m
    → make_partition (2 * m + 3) l ≡ some (r.0, set r.1 m l)
unfolding make_partition
make_partition_end m l r e last =
    let half : (2 * m + 3) / 2 ≡ suc m = omega arith in rw (half, e, last) refl

make_partition-Sides :
    (m l : ℕ)
    → l < 2 * m + 3
    → (p1 : List ℕ) × (p2 : List ℕ) × (make_partition (2 * m + 3) l ≡ some (p1, p2))
      × Sides m l p1 p2
make_partition-Sides m l h =
    let (r, e, f) =
      split_from-Fills (2 * m + 3) l (suc m + 1) (suc m) (2 * m + 3) 0 0 (replicate (suc m + 1) 0)
        (replicate (suc m) 0)
        (record {
          rounds = omega arith;
          leader = h;
          fits = omega arith;
          count = ground arith;
          length1 = length-replicate (suc m + 1) 0;
          length2 = length-replicate (suc m) 0;
          places = λ q lq. absurd (omega arith);
        }) in
    let last : length r.1 ≡ suc m = f.length2 in
    (
      r.0,
      set r.1 m l,
      make_partition_end m l r e last,
      record {
        length1 = ground (arith, f.length1);
        length2 = ground (arith, length-set r.1 m l, f.length2);
        first = λ q lq. ground (arith, f.places q, f.length1);
        second = λ q lq. ground (arith, f.places (m + 2 + q), f.length1, get_elem?-set r.1 m q l);
        last = ground (arith, get_elem?-set r.1 m m l);
      },
    )

-- No server stands on both sides.
Sides-apart : (m l i : ℕ) (p1 p2 : List ℕ) → Sides m l p1 p2 → has i p1 ≡ true → has i p2 ≡ false
Sides-apart m l i p1 p2 s h1 = elim (Bool-cases (has i p2)) [
  | inr e ↦ e
  | inl h2 ↦
      let (q1, lt1, g1) = get_has p1 i h1 in
      let (q2, lt2, g2) = get_has p2 i h2 in
      ground (arith, s.length1, s.length2, s.first q1, s.second q2, s.last)
]

-- Every server stands on a side.
Sides-cover :
    (m l i : ℕ) (p1 p2 : List ℕ)
    → Sides m l p1 p2
    → l < 2 * m + 3
    → i < 2 * m + 3
    → has i p1 ≡ false
    → has i p2 ≡ true
Sides-cover m l i p1 p2 s ll li h1 = elim (Bool-cases (eqb i l)) [
  | inl e ↦ has_get p2 m i (s.last ∙ ap some (sym ((eqb_iff i l).0 e)))
  | inr e ↦
      let back : other_server l (others_below l i) ≡ i = ground arith in
      elim (Bool-cases (ltb (others_below l i) (m + 2))) [
        | inl a ↦ cc (
          h1,
          has_get p1 (others_below l i) i
              (s.first (others_below l i) (ltb→lt (others_below l i) (m + 2) a) ∙ ap some back),
        )
        | inr a ↦
            let q = others_below l i - (m + 2) in
            let sum : m + 2 + q ≡ others_below l i = ground arith in
            has_get p2 q i
              (s.second q (ground arith) ∙ ap (λ k. some (other_server l k)) sum ∙ ap some back)
      ]
]

-- In a group of 2m + 3 servers, `MakePartition` succeeds for every leader of the group: each server
-- stands on exactly one side, the leader on the second side, which has m + 1 servers; the first side
-- has the majority of m + 2.
pub make_partition_lem :
    (m l : ℕ)
    → l < 2 * m + 3
    → (p1 : List ℕ) × (p2 : List ℕ) × (make_partition (2 * m + 3) l ≡ some (p1, p2))
      × (length p1 ≡ m + 2)
      × (length p2 ≡ m + 1)
      × (has l p2 ≡ true)
      × ((i : ℕ) → i < 2 * m + 3 → has i p1 ≡ not (has i p2))
      × In (2 * m + 3) p1
      × In (2 * m + 3) p2
make_partition_lem m l h =
    let (p1, p2, e, s) = make_partition-Sides m l h in
    (
      p1,
      p2,
      e,
      s.length1,
      s.length2,
      has_get p2 m l s.last,
      λ i li. elim (Bool-cases (has i p1)) [
        | inl h1 ↦ rw (h1, Sides-apart m l i p1 p2 s h1) refl
        | inr h1 ↦ rw (h1, Sides-cover m l i p1 p2 s h li h1) refl
      ],
      places-In (2 * m + 3) p1
          (λ q v g. ground (arith, length_of_get_elem? p1 q g, s.length1, s.first q)),
      places-In (2 * m + 3) p2
          (λ q v g. ground (arith, length_of_get_elem? p2 q g, s.length2, s.second q, s.last)),
    )
