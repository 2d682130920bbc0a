-- ===== src/Labgob/Ends.antt =====
-- `checkType` of src/labgob/labgob.go as a search of the types that belong to one.

use mit_6_5840_distributed_s.Base.{
  ℕ, zero, suc, ◌+◌, ◌≤◌, ◌<◌, ◌≡◌, refl, ◌∙◌, ◌↔◌, inl, inr, true, Option, some, List, [], ◌∷◌,
  ◌++◌, arith, Bool-cases, has, ap, ◌⊎◌,
}
use mit_6_5840_distributed_s.Labgob.Belongs.{
  types_of, parts, lower, lower_in, Belongs, itself, part, lower_all, Distinct, left, left_le,
  left_less, left_checked, has_only, has_self,
}
use mit_6_5840_distributed_s.Labgob.Visits.{
  has_right, Visit, kept, Visit-then, Visit-nothing, Visit-complain, Visit-mark, has_either,
  lower_all-append,
}
use mit_6_5840_distributed_s.Labgob.{
  Field, GoType, struct_of, elem_of, map_of, other, Checks, complain, check_fields, check_kind,
  check_type, Unicode,
}
use mathlib.Core.Logic.{∥∥₁_elim, ⊎_elim}
use mathlib.Core.Bool.{So-prop}
use mathlib.Core.Path.{subst}

module _ ⦃u : Unicode⦄ (types : ℕ → GoType) where
  -- The numbers of the types are below `n`.
  abbrev Known : ℕ → List ℕ → Type 0
  Known n ts = (x : ℕ) → has x ts ≡ true → x < n

  -- A check that visits: on every type, if fewer types are left than `fuel`.
  abbrev ChecksAll : ℕ → ℕ → (ℕ → Checks → Option Checks) → Type 0
  ChecksAll n fuel check =
      (t : ℕ) (st : Checks)
      → t < n
      → left n st.checked < fuel
      → (st' : Checks) × (check t st ≡ some st') × Visit types (t ∷ []) 0 st st'

  left-Visit :
      (n : ℕ) (ts : List ℕ) (e : ℕ) (st st' : Checks)
      → Visit types ts e st st'
      → left n st'.checked ≤ left n st.checked
  left-Visit n ts e st st' v = left_less n st.checked st'.checked (kept types ts e st st' v)

  fewer :
      (n fuel : ℕ) (ts : List ℕ) (e : ℕ) (st st' : Checks)
      → Visit types ts e st st'
      → left n st.checked < fuel
      → left n st'.checked < fuel
  fewer n fuel ts e st st' v h = omega (arith, left-Visit n ts e st st' v, h)

  complain-checked : (name : List ℕ) (st : Checks) → (complain name st).checked ≡ st.checked
  complain-checked name st = ground arith

  also :
      (ts us : List ℕ) (f : ℕ) (st st1 st2 : Checks)
      → Visit types ts 0 st st1
      → Visit types us f st1 st2
      → Visit types (ts ++ us) f st st2
  also ts us f st st1 st2 v w =
      let sum : 0 + f ≡ f = omega arith in
      subst (λ e. Visit types (ts ++ us) e st st2) sum (Visit-then types ts us 0 f st st1 st2 v w)

  check_fields-Visit :
      (n fuel : ℕ) (check : ℕ → Checks → Option Checks)
      → ChecksAll n fuel check
      → (fs : List Field) (st : Checks) → Known n (types_of fs)
      → left n st.checked < fuel
      → (st' : Checks) × (check_fields check fs st ≡ some st')
        × Visit types (types_of fs) (lower fs) st st'
  unfolding check_fields
  check_fields-Visit n fuel check all [] st known h =
      (st, refl, Visit-nothing types [] st (λ x p. absurd (cc)))
  check_fields-Visit n fuel check all (f ∷ fs) st known h =
      let (st1, e1, v1) =
        all f.type (complain f.name st) (known f.type (has_self f.type (types_of fs)))
          (rw (complain-checked f.name st) h) in
      let (st2, e2, v2) =
        check_fields-Visit n fuel check all fs st1
          (λ x p. known x (has_right x (f.type ∷ []) (types_of fs) p))
          (fewer n fuel _ _ _ _ v1 (rw (complain-checked f.name st) h)) in
      (st2, simp (e1, e2), Visit-complain types f.name _ _ st st2 (also _ _ _ _ _ _ v1 v2))

  check_kind-Visit :
      (n fuel : ℕ) (check : ℕ → Checks → Option Checks)
      → ChecksAll n fuel check
      → (k : GoType) (st : Checks) → Known n (parts k)
      → left n st.checked < fuel
      → (st' : Checks) × (check_kind check k st ≡ some st')
        × Visit types (parts k) (lower_in k) st st'
  unfolding check_kind
  check_kind-Visit n fuel check all (struct_of fs) st known h =
      check_fields-Visit n fuel check all fs st known h
  check_kind-Visit n fuel check all (elem_of e) st known h = all e st (known e (has_self e [])) h
  check_kind-Visit n fuel check all (map_of k e) st known h =
      let (st1, e1, v1) = all e st (known e (has_self e (k ∷ []))) h in
      let (st2, e2, v2) =
        all k st1 (known k (has_right k (e ∷ []) (k ∷ []) (has_self k [])))
          (fewer n fuel _ _ _ _ v1 h) in
      (st2, simp (e1, e2), also _ _ _ _ _ _ v1 v2)
  check_kind-Visit n fuel check all other st known h =
      (st, refl, Visit-nothing types [] st (λ x p. absurd (cc)))

  -- The types below `n` mention only types below `n`.
  abbrev pub Closed : ℕ → Type 0
  Closed n = (t : ℕ) → t < n → Known n (parts (types t))

  check_type-Visit : (n : ℕ) → Closed n → (fuel : ℕ) → ChecksAll n fuel (check_type types fuel)
  unfolding check_type
  check_type-Visit n known zero t st lt h = absurd (omega (arith, h))
  check_type-Visit n known (suc fuel) t st lt h = elim (Bool-cases (has t st.checked)) [
    | inl e ↦ (st, rw e refl, Visit-nothing types (t ∷ []) st (λ x p. rw (has_only x t p) e))
    | inr e ↦
        let seen = record st { checked = t ∷ st.checked } in
        let (st', runs, v) =
          check_kind-Visit n fuel (check_type types fuel) (check_type-Visit n known fuel) (types t)
            seen (known t lt) (omega (arith, left_checked n t st.checked lt e, h)) in
        (st', rw e runs, Visit-mark types t st st' e v)
  ]

  -- A set of checked types that lacks none of their parts, as every check leaves it.
  abbrev pub Whole : List ℕ → Type 0
  Whole c = (x y : ℕ) → has x c ≡ true → has y (parts (types x)) ≡ true → has y c ≡ true

  Whole-after :
      (t : ℕ) (st st' : Checks)
      → Visit types (t ∷ []) 0 st st'
      → Whole st.checked
      → Whole st'.checked
  Whole-after t st st' v whole x y p q =
      ⊎_elim (λ k. v.closed x y k q) (λ k. kept types (t ∷ []) 0 st st' v y (whole x y k q))
        (has_either x v.new st.checked (subst (λ c. has x c ≡ true) v.checked_is p))

  owned :
      (t : ℕ) (st st' : Checks)
      → Visit types (t ∷ []) 0 st st'
      → (x : ℕ) → has x st'.checked ≡ true
      → (has x st.checked ≡ true) ⊎ Belongs types t x
  owned t st st' v x p =
      ⊎_elim
        (λ k.
          let (s, i, b) = v.reached x k in inr (subst (λ s. Belongs types s x) (has_only s t i) b))
        (λ k. inl k) (has_either x v.new st.checked (subst (λ c. has x c ≡ true) v.checked_is p))

  all_visited :
      (t : ℕ) (st st' : Checks)
      → Visit types (t ∷ []) 0 st st'
      → Whole st.checked
      → {x : ℕ} → Belongs types t x
      → has x st'.checked ≡ true
  all_visited t st st' v whole itself = v.starts t (has_self t [])
  all_visited t st st' v whole (part {x} {y} b p) =
      Whole-after t st st' v whole x y (all_visited t st st' v whole b) p

  counted :
      (t : ℕ) (st st' : Checks)
      → Visit types (t ∷ []) 0 st st'
      → st'.error_count + lower_all types st.checked ≡ st.error_count + lower_all types st'.checked
  counted t st st' v =
      let all = ap (lower_all types) v.checked_is ∙ lower_all-append types v.new st.checked in
      omega (arith, v.count_is, all)

  again : (x : ℕ) (st : Checks) → has x st.checked ≡ true → check_type types 1 x st ≡ some st
  unfolding check_type
  again x st h = rw h refl

-- If the types below `n` mention only each other, and no part of a checked type is unchecked, then a
-- check of one of them ends; the checked types are then those that were checked before and those that
-- belong to it, each once, again with all of their parts; the count has grown by the number of lower-case
-- fields of the types that are new; and a later check of any that belong to it changes nothing.
pub check_type-Belongs :
    ⦃u : Unicode⦄ (types : ℕ → GoType) (n t : ℕ) (st : Checks)
    → Closed types n
    → t < n
    → Whole types st.checked
    → Distinct st.checked
    → (st' : Checks) × (check_type types (n + 1) t st ≡ some st')
      × ((x : ℕ) → (has x st'.checked ≡ true) ↔ ∥ (has x st.checked ≡ true) ⊎ Belongs types t x ∥₁)
      × Distinct st'.checked
      × Whole types st'.checked
      × (st'.error_count + lower_all types st.checked
          ≡ st.error_count + lower_all types st'.checked)
      × ((x : ℕ) → Belongs types t x → check_type types 1 x st' ≡ some st')
check_type-Belongs types n t st known lt whole once =
    let (st', runs, v) =
      check_type-Visit types n known (n + 1) t st lt (omega (arith, left_le n st.checked)) in
    (
      st',
      runs,
      λ x. (
        λ p. ∣ owned types t st st' v x p ∣₁,
        λ b.
            ∥∥₁_elim b (So-prop _)
              (⊎_elim (kept types (t ∷ []) 0 st st' v x) (all_visited types t st st' v whole)),
      ),
      v.distinct once,
      Whole-after types t st st' v whole,
      counted types t st st' v,
      λ x b. again types x st' (all_visited types t st st' v whole b),
    )
