-- ===== src/ShardCfg/Analyze.antt =====
-- `analyze` of src/shardkv1/shardcfg/shardcfg.go, and the loads of the groups.
use mit_6_5840_distributed_s.Base.{◌≤◌, ◌≡◌, refl, ◌⊎◌, inr, true, [], ◌∷◌, arith, ◌<◌, length}
use mit_6_5840_distributed_s.ShardCfg.Counts.{elem, cnt, elem-groups, cnt-le, load}
use mit_6_5840_distributed_s.ShardCfg.{
  scan, ℕ, List, Extremes, visit, ShardConfig, has_group, count_at, count_shards, sort, keys,
  no_extremes, analyze,
}
use mit_6_5840_distributed_s.Base.Int.{ℤ, pos, eq_int_iff}

-- What the scan has found: the loads that it names are those of its groups, they bound the loads of
-- `gs` and of the groups found before.
record Found (count : ℤ → ℕ) (gs : List ℤ) (e r : Extremes) : Type 0 where
  most : r.mn ≡ pos (count r.mg)
  least_ : r.ln ≡ count r.lg
  above : count e.mg ≤ count r.mg
  below : count r.lg ≤ count e.lg
  mg_in : (elem r.mg gs ≡ true) ⊎ (r.mg ≡ e.mg)
  lg_in : (elem r.lg gs ≡ true) ⊎ (r.lg ≡ e.lg)
  bounds : (g : ℤ) → elem g gs ≡ true → (count g ≤ count r.mg) × (count r.lg ≤ count g)

scan-Found :
    (count : ℤ → ℕ) (gs : List ℤ) (e : Extremes)
    → e.mn ≡ pos (count e.mg)
    → e.ln ≡ count e.lg
    → Found count gs e (scan count gs e)
unfolding scan
scan-Found count [] e hm hl = record {
  most = hm;
  least_ = hl;
  above = omega arith;
  below = omega arith;
  mg_in = inr refl;
  lg_in = inr refl;
  bounds = λ g h. absurd (cc);
}
scan-Found count (x ∷ xs) e hm hl =
    let f =
      scan-Found count xs (visit count x e) (ground (arith, hm, hl)) (ground (arith, hm, hl)) in
    record {
      most = f.most;
      least_ = f.least_;
      above = ground (arith, f.above, hm, hl);
      below = ground (arith, f.below, hm, hl);
      mg_in = ground (arith, f.mg_in, hm, hl, eq_int_iff x x);
      lg_in = ground (arith, f.lg_in, hm, hl, eq_int_iff x x);
      bounds = λ g h. ground (arith, f.bounds g, f.above, f.below, hm, hl, eq_int_iff x g);
    }

scan-start :
    (count : ℤ → ℕ) (h : ℤ) (gs : List ℤ)
    → ((g : ℤ) → count g < 257)
    → elem h gs ≡ true
    → (e : Extremes) × (e.mn ≡ pos (count e.mg))
      × (e.ln ≡ count e.lg)
      × (elem e.mg gs ≡ true)
      × (elem e.lg gs ≡ true)
      × ((g : ℤ) → elem g gs ≡ true → (count g ≤ count e.mg) × (count e.lg ≤ count g))
      × (scan count gs no_extremes ≡ e)
unfolding scan
scan-start count h [] few i = absurd (cc)
scan-start count h (x ∷ xs) few i =
    let first = visit count x no_extremes in
    let f = scan-Found count xs first (ground (arith, few x)) (ground (arith, few x)) in
    (
      scan count xs first,
      f.most,
      f.least_,
      ground (arith, f.mg_in, few x, eq_int_iff x x),
      ground (arith, f.lg_in, few x, eq_int_iff x x),
      λ g j. ground (arith, f.bounds g, f.above, f.below, few x, eq_int_iff x g),
      refl,
    )

-- What `analyze` finds: a most and a least loaded group of the configuration, with their loads.
pub record Extreme (c : ShardConfig) (e : Extremes) : Type 0 where
  pub most : e.mn ≡ pos (cnt e.mg c.shards)
  pub least_load : e.ln ≡ cnt e.lg c.shards
  pub mg_in : has_group c e.mg ≡ true
  pub lg_in : has_group c e.lg ≡ true
  pub above : (g : ℤ) → has_group c g ≡ true → cnt g c.shards ≤ cnt e.mg c.shards
  pub below : (g : ℤ) → has_group c g ≡ true → cnt e.lg c.shards ≤ cnt g c.shards

-- In a configuration with a group and with fewer than 257 shards, `analyze` finds a most loaded and a
-- least loaded group, with the numbers of their shards.
pub analyze-Extreme :
    (c : ShardConfig) (h : ℤ) → has_group c h ≡ true → length c.shards < 257 → Extreme c (analyze c)
unfolding analyze
analyze-Extreme c h i few =
    let count = count_at (count_shards [] c.shards) in
    let (e, most, least_, mi, li, b, same) =
      scan-start count h (sort (keys c.groups)) (λ g. omega (arith, load c g, cnt-le g c.shards))
        (rw (elem-groups c h) i) in
    rw same (record {
      most = rw most (rw (load c e.mg) refl);
      least_load = rw least_ (load c e.lg);
      mg_in = rw (← elem-groups c e.mg) mi;
      lg_in = rw (← elem-groups c e.lg) li;
      above = λ g j. omega (arith, load c g, load c e.mg, b g (rw (elem-groups c g) j));
      below = λ g j. omega (arith, load c g, load c e.lg, b g (rw (elem-groups c g) j));
    })
