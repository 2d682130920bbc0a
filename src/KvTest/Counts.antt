-- ===== src/KvTest/Counts.antt =====
-- The maps that `CheckAppends` of src/kvtest1/kvtest.go keeps, and its loop over the entries.
use mathlib.Core.Path.{subst}
use mit_6_5840_distributed_s.Base.Dict.{Dict, insert, lookup, lookup-insert, same_self}
use mit_6_5840_distributed_s.Base.{
  ℕ, ◌+◌, ◌≤◌, ◌<◌, ◌≡◌, refl, Bool, true, false, ◌&&◌, Option, none, some, List, [], ◌∷◌, arith,
  eqb, ltb, if◌then◌else◌, get_elem?, nat_eq, eqb_iff, some_inj, inl, inr, Bool-cases,
}
use mit_6_5840_distributed_s.KvTest.{EntryN, at_key, all_within, within, ClntRes}

-- The numbers that a client has appended, in the order of the list.
abbrev pub numbers_of : ℕ → List EntryN → List ℕ
numbers_of c [] = []
numbers_of c (e ∷ es) = let rest = numbers_of c es in if eqb e.id c then e.n ∷ rest else rest

-- Each number is at least one more than the one before, the first at least `from`.
abbrev pub Ascending : ℕ → List ℕ → Type 0
Ascending from [] = Unit
Ascending from (n ∷ ns) = (from ≤ n) × Ascending (n + 1) ns

-- One more than the last number.
abbrev pub after : ℕ → List ℕ → ℕ
after from [] = from
after from (n ∷ ns) = after (n + 1) ns

abbrev pub is_some : {A : Type 0} → Option A → Bool
is_some none = false
is_some (some a) = true

-- A map with exactly the clients below `n`, each of them once.
abbrev pub Unique : Dict ℕ ℕ → Type 0
Unique [] = Unit
Unique ((k, v) ∷ rest) = (lookup k rest ≡ none) × Unique rest

pub record Clients (n : ℕ) (d : Dict ℕ ℕ) : Type 0 where
  pub unique : Unique d
  pub domain : (c : ℕ) → is_some (lookup c d) ≡ ltb c n

pub insert-Unique : (k v : ℕ) (d : Dict ℕ ℕ) → Unique d → Unique (insert k v d)
unfolding insert
insert-Unique k v [] u = (unfold lookup in refl, tt)
insert-Unique k v ((j, w) ∷ rest) u = elim (Bool-cases (eqb j k)) [
  | inl e ↦ rw e (subst (λ j. lookup j rest ≡ none) ((eqb_iff j k).0 e) u.0, u.1)
  | inr e ↦ rw e (rw (lookup-insert k j v rest) (ground (arith, u.0)), insert-Unique k v rest u.1)
]

pub insert-Clients : (n k v : ℕ) (d : Dict ℕ ℕ) → k < n → Clients n d → Clients n (insert k v d)
insert-Clients n k v d h c = record {
  unique = insert-Unique k v d c.unique;
  domain = λ j. rw (lookup-insert k j v d) (ground (arith, c.domain j));
}

pub and_both : (a b : Bool) → (a && b) ≡ true → (a ≡ true) × (b ≡ true)
and_both a b h = ground arith

-- If every entry of the map is within, then every client's is, and the other way round.
pub within_of_all_within :
    (d skipped : Dict ℕ ℕ) (rs : List ClntRes) (c n : ℕ)
    → all_within d skipped rs ≡ true
    → lookup c d ≡ some n
    → within (at_key c skipped) n (get_elem? rs c) ≡ true
unfolding all_within lookup
within_of_all_within [] skipped rs c n h e = cc
within_of_all_within ((k, v) ∷ rest) skipped rs c n h e =
    let (first, more) =
      and_both (within (at_key k skipped) v (get_elem? rs k)) (all_within rest skipped rs) h in
    elim (Bool-cases (eqb k c)) [
      | inl s ↦
          let kc : k ≡ c = (eqb_iff k c).0 s in
          let vn : v ≡ n = some_inj (rw (lookup, s) at e) in rw (← kc, ← vn) first
      | inr s ↦ within_of_all_within rest skipped rs c n more (rw (lookup, s) at e)
    ]

pub all_within_of_within :
    (d skipped : Dict ℕ ℕ) (rs : List ClntRes)
    → Unique d
    → ((c n : ℕ) → lookup c d ≡ some n → within (at_key c skipped) n (get_elem? rs c) ≡ true)
    → all_within d skipped rs ≡ true
unfolding all_within lookup
all_within_of_within [] skipped rs u h = refl
all_within_of_within ((k, v) ∷ rest) skipped rs u h = rw (h k v (rw (same_self k) refl)) (
    all_within_of_within rest skipped rs u.1 λ c n e. h c n (elim (Bool-cases (eqb k c)) [
      | inl s ↦ absurd (cc (subst (λ j. lookup j rest ≡ none) ((eqb_iff k c).0 s) u.0, e))
      | inr s ↦ rw s e
    ]))
