-- ===== src/Labgob/Visits.antt =====
-- What a part of `checkType` of src/labgob/labgob.go does, and how two parts make one.
use mathlib.Core.Path.{subst}
use mathlib.Core.List.{append_assoc}
use mit_6_5840_distributed_s.Base.{
  ℕ, ◌+◌, ◌≡◌, refl, sym, ap, ◌∙◌, true, ◌||◌, List, [], ◌∷◌, ◌++◌, arith, has, ◌⊎◌, inl, inr,
  false, if◌then◌else◌, Bool-cases,
}
use mit_6_5840_distributed_s.Labgob.Belongs.{
  parts, Belongs, lower_all, Distinct, lower_in, itself, Belongs-whole, has_only, has_self,
  exported, is_upper-exported,
}
use mathlib.Core.Logic.{⊎_elim}
use mit_6_5840_distributed_s.Labgob.{GoType, Checks, is_upper, complain, Unicode}

has-append : (x : ℕ) (a b : List ℕ) → has x (a ++ b) ≡ (has x a || has x b)
has-append x [] b = refl
has-append x (y ∷ a) b = ground (arith, has-append x a b)

pub has_either :
    (x : ℕ) (a b : List ℕ) → has x (a ++ b) ≡ true → (has x a ≡ true) ⊎ (has x b ≡ true)
has_either x a b h = ground (arith, has-append x a b, h)

pub has_right : (x : ℕ) (a b : List ℕ) → has x b ≡ true → has x (a ++ b) ≡ true
has_right x a b h = ground (arith, has-append x a b, h)

module _ ⦃u : Unicode⦄ (types : ℕ → GoType) where
  pub lower_all-append :
      (a b : List ℕ) → lower_all types (a ++ b) ≡ lower_all types a + lower_all types b
  lower_all-append [] b = omega arith
  lower_all-append (x ∷ a) b = omega (arith, lower_all-append a b)

  -- What a part of a check does: it visits new types, those that belong to `ts`; `extra` is what it has
  -- counted besides the fields of the new types.
  pub record Visit (ts : List ℕ) (extra : ℕ) (st st' : Checks) : Type 0 where
    pub new : List ℕ
    pub checked_is : st'.checked ≡ new ++ st.checked
    pub count_is : st'.error_count ≡ lower_all types new + extra + st.error_count
    pub starts : (x : ℕ) → has x ts ≡ true → has x st'.checked ≡ true
    pub closed :
        (x y : ℕ) → has x new ≡ true → has y (parts (types x)) ≡ true → has y st'.checked ≡ true
    pub reached : (x : ℕ) → has x new ≡ true → (s : ℕ) × (has s ts ≡ true) × Belongs types s x
    pub distinct : Distinct st.checked → Distinct st'.checked

  pub Visit-nothing :
      (ts : List ℕ) (st : Checks)
      → ((x : ℕ) → has x ts ≡ true → has x st.checked ≡ true)
      → Visit ts 0 st st
  Visit-nothing ts st h = record {
    new = [];
    checked_is = refl;
    count_is = omega arith;
    starts = h;
    closed = λ x y p q. absurd (cc);
    reached = λ x p. absurd (cc);
    distinct = λ d. d;
  }

  pub kept :
      (ts : List ℕ) (e : ℕ) (st st' : Checks)
      → Visit ts e st st'
      → (x : ℕ) → has x st.checked ≡ true
      → has x st'.checked ≡ true
  kept ts e st st' v x h = rw (v.checked_is, has-append x v.new st.checked) (ground (arith, h))

  pub Visit-then :
      (ts us : List ℕ) (e f : ℕ) (st st1 st2 : Checks)
      → Visit ts e st st1
      → Visit us f st1 st2
      → Visit (ts ++ us) (e + f) st st2
  Visit-then ts us e f st st1 st2 v w = record {
    new = w.new ++ v.new;
    checked_is =
        w.checked_is
        ∙ ap (λ c. w.new ++ c) v.checked_is
        ∙ sym (append_assoc w.new v.new st.checked);
    count_is = omega (arith, v.count_is, w.count_is, lower_all-append w.new v.new);
    starts = λ x h.
        ⊎_elim (λ p. kept us f st1 st2 w x (v.starts x p)) (w.starts x) (has_either x ts us h);
    closed = λ x y p q.
        ⊎_elim (λ k. w.closed x y k q) (λ k. kept us f st1 st2 w y (v.closed x y k q))
          (has_either x w.new v.new p);
    reached = λ x p.
        ⊎_elim (λ k. let (s, i, r) = w.reached x k in (s, has_right s ts us i, r))
          (λ k. let (s, i, r) = v.reached x k in (s, ground (arith, has-append s ts us, i), r))
          (has_either x w.new v.new p);
    distinct = λ d. w.distinct (v.distinct d);
  }

  Visit-judged :
      (name : List ℕ) (ts : List ℕ) (e : ℕ) (st st' : Checks)
      → Visit ts e (complain name st) st'
      → Visit ts (if is_upper name then e else e + 1) st st'
  Visit-judged name ts e st st' v = elim (Bool-cases (is_upper name)) [
    | inl u ↦ rw u (rw u at v)
    | inr u ↦ rw u (
        let v' = rw u at v in
        record {
          new = v'.new;
          checked_is = v'.checked_is;
          count_is = omega (arith, v'.count_is);
          starts = v'.starts;
          closed = v'.closed;
          reached = v'.reached;
          distinct = v'.distinct;
        })
  ]

  -- A field's name is judged before its type is checked.
  pub Visit-complain :
      (name : List ℕ) (ts : List ℕ) (e : ℕ) (st st' : Checks)
      → Visit ts e (complain name st) st'
      → Visit ts (if exported name then e else e + 1) st st'
  Visit-complain name ts e st st' v =
      subst (λ b. Visit ts (if b then e else e + 1) st st') (is_upper-exported name)
        (Visit-judged name ts e st st' v)

  -- A type is marked as checked before its parts are.
  pub Visit-mark :
      (t : ℕ) (st st' : Checks)
      → has t st.checked ≡ false
      → Visit (parts (types t)) (lower_in (types t)) (record st { checked = t ∷ st.checked }) st'
      → Visit (t ∷ []) 0 st st'
  Visit-mark t st st' h v = record {
    new = v.new ++ t ∷ [];
    checked_is = v.checked_is ∙ sym (append_assoc v.new (t ∷ []) st.checked);
    count_is = omega (arith, v.count_is, lower_all-append v.new (t ∷ []));
    starts = λ x p. rw (has_only x t p) (kept _ _ _ _ v t (has_self t st.checked));
    closed = λ x y p q.
        ⊎_elim (λ k. v.closed x y k q)
          (λ k. v.starts y (subst (λ z. has y (parts (types z)) ≡ true) (has_only x t k) q))
          (has_either x v.new (t ∷ []) p);
    reached = λ x p.
        ⊎_elim
          (λ k. let (s, i, b) = v.reached x k in (t, has_self t [], Belongs-whole types t s x i b))
          (λ k. (t, has_self t [], subst (Belongs types t) (sym (has_only x t k)) itself))
          (has_either x v.new (t ∷ []) p);
    distinct = λ d. v.distinct (h, d);
  }
