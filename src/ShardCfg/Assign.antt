-- ===== src/ShardCfg/Assign.antt =====
-- The loop of `Rebalance` that gives the unassigned shards to groups
-- (src/shardkv1/shardcfg/shardcfg.go).
use mathlib.Core.List.{append_assoc, append-nil}
use mathlib.Core.Path.{subst}
use mit_6_5840_distributed_s.Base.Int.{ℤ, eq_int_iff}
use mit_6_5840_distributed_s.Base.{
  ℕ, ◌+◌, ◌<◌, ◌≡◌, refl, sym, ap, ◌∙◌, inl, inr, true, ◌||◌, List, [], ◌∷◌, ◌++◌, arith,
  Bool-cases, length, set, length-set,
}
use mit_6_5840_distributed_s.ShardCfg.Counts.{elem}
use mit_6_5840_distributed_s.ShardCfg.Analyze.{analyze-Extreme}
use mit_6_5840_distributed_s.ShardCfg.{ShardConfig, has_group, least, assign_unassigned}

elem-append : (g : ℤ) (xs ys : List ℤ) → elem g (xs ++ ys) ≡ (elem g xs || elem g ys)
elem-append g [] ys = refl
elem-append g (x ∷ xs) ys = ground (arith, elem-append g xs ys)

set-append : (xs : List ℤ) (y v : ℤ) (ys : List ℤ) → set (xs ++ y ∷ ys) (length xs) v ≡ xs ++ v ∷ ys
set-append [] y v ys = refl
set-append (x ∷ xs) y v ys = ap (λ zs. x ∷ zs) (set-append xs y v ys)

length-snoc : (xs : List ℤ) (v : ℤ) → length (xs ++ v ∷ []) ≡ length xs + 1
length-snoc [] v = refl
length-snoc (x ∷ xs) v = omega (arith, length-snoc xs v)

length-middle :
    (xs : List ℤ) (y v : ℤ) (ys : List ℤ) → length (xs ++ v ∷ ys) ≡ length (xs ++ y ∷ ys)
length-middle [] y v ys = refl
length-middle (x ∷ xs) y v ys = omega (arith, length-middle xs y v ys)

-- What the loop leaves.
pub record Assigned (c c' : ShardConfig) : Type 0 where
  pub same_num : c'.num ≡ c.num
  pub same_groups : c'.groups ≡ c.groups
  pub same_length : length c'.shards ≡ length c.shards
  pub assigned : (g : ℤ) → elem g c'.shards ≡ true → has_group c g ≡ true

-- The loop at index `length done`, where `done` is assigned and `gs` is to be looked at.
assign-Assigned :
    (h : ℤ) (done gs : List ℤ) (c : ShardConfig)
    → c.shards ≡ done ++ gs
    → has_group c h ≡ true
    → length c.shards < 257
    → ((g : ℤ) → elem g done ≡ true → has_group c g ≡ true)
    → Assigned c (assign_unassigned (length done) gs c)
unfolding assign_unassigned
assign-Assigned h done [] c e i few ok = record {
  same_num = refl;
  same_groups = refl;
  same_length = refl;
  assigned = λ g k. ok g (subst (λ xs. elem g xs ≡ true) (e ∙ append-nil done) k);
}
assign-Assigned h done (x ∷ xs) c e i few ok = elim (Bool-cases (has_group c x)) [
  | inl mem ↦
      rw (mem, ← length-snoc done x)
        (assign-Assigned h (done ++ x ∷ []) xs c (e ∙ sym (append_assoc done (x ∷ []) xs)) i few
          (λ g k. ground (arith, elem-append g done (x ∷ []), k, ok g, mem, eq_int_iff x g)))
  | inr out ↦
      let v = least c in
      let c1 = record c { shards = set c.shards (length done) v } in
      let written : set c.shards (length done) v ≡ done ++ v ∷ xs =
        ap (λ ys. set ys (length done) v) e ∙ set-append done x v xs in
      let x1 = (analyze-Extreme c h i few).lg_in in
      let r : Assigned c1 (assign_unassigned (length (done ++ v ∷ [])) xs c1) =
        assign-Assigned h (done ++ v ∷ []) xs c1 (written ∙ sym (append_assoc done (v ∷ []) xs)) i
          (rw (length-set c.shards (length done) v) few)
          (λ g k. ground (arith, elem-append g done (v ∷ []), k, ok g, x1, eq_int_iff v g)) in
      rw (out, ← length-snoc done v)
        (record {
          same_num = r.same_num;
          same_groups = r.same_groups;
          same_length = r.same_length ∙ length-set c.shards (length done) v;
          assigned = r.assigned;
        })
]

pub assign_unassigned-Assigned :
    (h : ℤ) (c : ShardConfig)
    → has_group c h ≡ true
    → length c.shards < 257
    → Assigned c (assign_unassigned 0 c.shards c)
assign_unassigned-Assigned h c i few =
    assign-Assigned h [] c.shards c refl i few (λ g k. absurd (cc))

-- Where every shard has a group, the loop changes nothing.
pub assign_unassigned_fixed :
    (s : ℕ) (gs : List ℤ) (c : ShardConfig)
    → ((g : ℤ) → elem g gs ≡ true → has_group c g ≡ true)
    → assign_unassigned s gs c ≡ c
unfolding assign_unassigned
assign_unassigned_fixed s [] c ok = refl
assign_unassigned_fixed s (x ∷ xs) c ok =
    let mem : has_group c x ≡ true = ok x (ground (arith, eq_int_iff x x)) in
    rw mem (assign_unassigned_fixed (s + 1) xs c (λ g k. ok g (ground (arith, k))))
