-- ===== src/Group/Fill.antt =====
-- The loop of `MakePartition` of src/tester1/group.go.
use mathlib.Core.Path.{subst}
use mit_6_5840_distributed_s.Base.{
  ℕ, zero, suc, ◌+◌, ◌-◌, ◌≤◌, ◌<◌, ◌≡◌, refl, ◌∙◌, ap, sym, true, false, Option, some, List, arith,
  eqb, ltb, if◌then◌else◌, get_elem?, set, length, length-set, get_elem?-set, Bool-cases, inl, inr,
}
use mit_6_5840_distributed_s.Group.{split_from, put_at}
use mit_6_5840_distributed_s.Base.{◌>>=◌}

-- The q-th server other than `l`, and how many servers other than `l` there are below `i`.
abbrev pub other_server : ℕ → ℕ → ℕ
other_server l q = if ltb q l then q else q + 1

abbrev pub others_below : ℕ → ℕ → ℕ
others_below l i = if ltb l i then i - 1 else i

-- The places of both arrays, one after the other.
abbrev pub place : List ℕ → List ℕ → ℕ → Option ℕ
place p1 p2 q = if ltb q (length p1) then get_elem? p1 q else get_elem? p2 (q - length p1)

-- One round of the loop.
split_from_skip :
    (left i l j : ℕ) (p1 p2 : List ℕ)
    → eqb i l ≡ true
    → split_from (suc left) i l j p1 p2 ≡ split_from left (i + 1) l j p1 p2
unfolding split_from
split_from_skip left i l j p1 p2 e = rw e refl

split_from_first :
    (left i l j : ℕ) (p1 p2 : List ℕ)
    → eqb i l ≡ false
    → ltb j (length p1) ≡ true
    → split_from (suc left) i l j p1 p2 ≡ split_from left (i + 1) l (j + 1) (set p1 j i) p2
unfolding split_from
split_from_first left i l j p1 p2 e d = rw (e, d) refl

split_from_second :
    (left i l j : ℕ) (p1 p2 q : List ℕ)
    → eqb i l ≡ false
    → ltb j (length p1) ≡ false
    → put_at p2 (j - length p1) i ≡ some q
    → split_from (suc left) i l j p1 p2 ≡ split_from left (i + 1) l (j + 1) p1 q
unfolding split_from
split_from_second left i l j p1 p2 q e d w =
    rw (e, d) (ap (λ o. o >>= λ q. split_from left (i + 1) l (j + 1) p1 q) w)

-- What the loop returns: two arrays of these lengths, filled with the servers in order.
pub record Filled (n l m1 m2 : ℕ) (r : List ℕ × List ℕ) : Type 0 where
  pub length1 : length r.0 ≡ m1
  pub length2 : length r.1 ≡ m2
  pub places : (q : ℕ) → q < n - 1 → place r.0 r.1 q ≡ some (other_server l q)

abbrev pub Fills : ℕ → ℕ → ℕ → ℕ → Option (List ℕ × List ℕ) → Type 0
Fills n l m1 m2 o = (r : List ℕ × List ℕ) × (o ≡ some r) × Filled n l m1 m2 r

pub record Filling (n l m1 m2 left i j : ℕ) (p1 p2 : List ℕ) : Type 0 where
  pub rounds : i + left ≡ n
  pub leader : l < n
  pub fits : n - 1 ≤ m1 + m2
  pub count : j ≡ others_below l i
  pub length1 : length p1 ≡ m1
  pub length2 : length p2 ≡ m2
  pub places : (q : ℕ) → q < j → place p1 p2 q ≡ some (other_server l q)

Filling-skip :
    (n l m1 m2 left i j : ℕ) (p1 p2 : List ℕ)
    → eqb i l ≡ true
    → Filling n l m1 m2 (suc left) i j p1 p2
    → Filling n l m1 m2 left (i + 1) j p1 p2
Filling-skip n l m1 m2 left i j p1 p2 e f = ground arith

Filling-first :
    (n l m1 m2 left i j : ℕ) (p1 p2 : List ℕ)
    → eqb i l ≡ false
    → ltb j (length p1) ≡ true
    → Filling n l m1 m2 (suc left) i j p1 p2
    → Filling n l m1 m2 left (i + 1) (j + 1) (set p1 j i) p2
Filling-first n l m1 m2 left i j p1 p2 e d f = record {
  rounds = let h : i + suc left ≡ n = f.rounds in omega arith;
  leader = f.leader;
  fits = f.fits;
  count = let h : j ≡ others_below l i = f.count in ground arith;
  length1 = length-set p1 j i ∙ f.length1;
  length2 = f.length2;
  places = λ q lq. ground (arith, f.places q, f.count, length-set p1 j i, get_elem?-set p1 j q i);
}

Filling-second :
    (n l m1 m2 left i j : ℕ) (p1 p2 : List ℕ)
    → eqb i l ≡ false
    → ltb j (length p1) ≡ false
    → Filling n l m1 m2 (suc left) i j p1 p2
    → (put_at p2 (j - length p1) i ≡ some (set p2 (j - length p1) i))
      × Filling n l m1 m2 left (i + 1) (j + 1) p1 (set p2 (j - length p1) i)
Filling-second n l m1 m2 left i j p1 p2 e d f =
    let h : i + suc left ≡ n = f.rounds in
    let c : j ≡ others_below l i = f.count in
    let inside : j - length p1 < length p2 =
      ground (arith, f.leader, f.fits, f.length1, f.length2) in
    (
      ground arith,
      record {
        rounds = omega arith;
        leader = f.leader;
        fits = f.fits;
        count = ground arith;
        length1 = f.length1;
        length2 = length-set p2 (j - length p1) i ∙ f.length2;
        places =
            λ q lq. ground (arith, f.places q, get_elem?-set p2 (j - length p1) (q - length p1) i);
      },
    )

pub split_from-Fills :
    (n l m1 m2 left i j : ℕ) (p1 p2 : List ℕ)
    → Filling n l m1 m2 left i j p1 p2
    → Fills n l m1 m2 (split_from left i l j p1 p2)
split_from-Fills n l m1 m2 zero i j p1 p2 f =
    unfold split_from in
    (
      (p1, p2),
      refl,
      record {
        length1 = f.length1;
        length2 = f.length2;
        places = λ q lq. f.places q (ground (arith, f.rounds, f.leader, f.count));
      },
    )
split_from-Fills n l m1 m2 (suc left) i j p1 p2 f = elim (Bool-cases (eqb i l)) [
  | inl e ↦
      subst (Fills n l m1 m2) (sym (split_from_skip left i l j p1 p2 e)) (
        split_from-Fills n l m1 m2 left (i + 1) j p1 p2 (Filling-skip n l m1 m2 left i j p1 p2 e f))
  | inr e ↦ elim (Bool-cases (ltb j (length p1))) [
    | inl d ↦ subst (Fills n l m1 m2) (sym (split_from_first left i l j p1 p2 e d)) (
        split_from-Fills n l m1 m2 left (i + 1) (j + 1) (set p1 j i) p2
          (Filling-first n l m1 m2 left i j p1 p2 e d f))
    | inr d ↦
        let (w, f') = Filling-second n l m1 m2 left i j p1 p2 e d f in
        subst (Fills n l m1 m2)
          (sym (split_from_second left i l j p1 p2 (set p2 (j - length p1) i) e d w))
          (split_from-Fills n l m1 m2 left (i + 1) (j + 1) p1 (set p2 (j - length p1) i) f')
  ]
]
