-- ===== src/Annotate/Flags.antt =====
-- The loops over the flags of the servers in src/tester1/annotation.go.

use mit_6_5840_distributed_s.Base.{
  ℕ, zero, suc, ◌+◌, ◌<◌, ◌≡◌, refl, ◌∙◌, Bool, true, false, not, ◌&&◌, ◌||◌, none, some, List, [],
  ◌∷◌, arith, if◌then◌else◌, length, get_elem?, set, length-set, get_elem?-set, Option-cases,
  some_inj, inl, inr, has, In,
}
use mit_6_5840_distributed_s.Annotate.Fault.{Servers, classify, place_server, equal, set_flags}

-- Which list a server stands in.
pub record Place (i : ℕ) (s : Servers) (conn crashed alone : Bool) : Type 0 where
  pub in_conn : has i s.conn ≡ conn
  pub in_crashes : has i s.crashes ≡ crashed
  pub in_alone : has i s.alone ≡ alone

classify_below :
    (id j : ℕ) (cs ks : List Bool) (s : Servers)
    → j < id
    → classify id cs ks ≡ some s
    → Place j s false false false
unfolding classify
classify_below id j [] ks s h e = ground (arith, some_inj e)
classify_below id j (c ∷ cs) [] s h e = cc
classify_below id j (c ∷ cs) (k ∷ ks) s h e = elim (Option-cases (classify (id + 1) cs ks)) [
  | inl n ↦ cc
  | inr (r, d) ↦ ground (arith, classify_below (id + 1) j cs ks r, some_inj (rw (classify, d) at e))
]

-- Every server stands in exactly one of the three lists, by its flags.
pub classify_places :
    (id i : ℕ) (cs ks : List Bool) (s : Servers) (c k : Bool)
    → classify id cs ks ≡ some s
    → get_elem? cs i ≡ some c
    → get_elem? ks i ≡ some k
    → Place (id + i) s (not k && c) k (not k && not c)
unfolding classify
classify_places id i [] ks s c k e ec ek = cc
classify_places id i (c ∷ cs) [] s c' k' e ec ek = cc
classify_places id zero (c ∷ cs) (k ∷ ks) s c' k' e ec ek =
    elim (Option-cases (classify (id + 1) cs ks)) [
      | inl n ↦ cc
      | inr (r, d) ↦ ground (
        arith,
        classify_below (id + 1) id cs ks r,
        some_inj (rw (classify, d) at e),
        some_inj ec,
        some_inj ek,
      )
    ]
classify_places id (suc i) (c ∷ cs) (k ∷ ks) s c' k' e ec ek =
    elim (Option-cases (classify (id + 1) cs ks)) [
      | inl n ↦ cc
      | inr (r, d) ↦ ground (
        arith,
        classify_places (id + 1) i cs ks r c' k' d ec ek,
        some_inj (rw (classify, d) at e),
      )
    ]

pub classify_total :
    (id : ℕ) (cs ks : List Bool)
    → length cs ≡ length ks
    → (s : Servers) × (classify id cs ks ≡ some s)
unfolding classify
classify_total id [] ks h = (_, refl)
classify_total id (c ∷ cs) [] h = absurd (omega arith)
classify_total id (c ∷ cs) (k ∷ ks) h =
    let (r, e) = classify_total (id + 1) cs ks (omega arith) in (place_server id c k r, rw e refl)

pub list_ext :
    (xs ys : List Bool)
    → length xs ≡ length ys
    → ((i : ℕ) → get_elem? xs i ≡ get_elem? ys i)
    → xs ≡ ys
list_ext [] [] h e = refl
list_ext [] (y ∷ ys) h e = absurd (omega arith)
list_ext (x ∷ xs) [] h e = absurd (omega arith)
list_ext (x ∷ xs) (y ∷ ys) h e =
    let first : x ≡ y = some_inj (e 0) in
    let rest : xs ≡ ys = list_ext xs ys (omega arith) (λ i. e (suc i)) in cc

pub equal-eq : (xs ys : List Bool) → equal xs ys ≡ true → xs ≡ ys
equal-eq [] [] h = refl
equal-eq [] (y ∷ ys) h = cc
equal-eq (x ∷ xs) [] h = cc
equal-eq (x ∷ xs) (y ∷ ys) h = ground (arith, equal-eq xs ys)

pub equal_self : (xs : List Bool) → equal xs xs ≡ true
equal_self [] = refl
equal_self (x ∷ xs) = ground (arith, equal_self xs)

-- The flags after the loop.
abbrev pub flags : Bool → List ℕ → List Bool → List Bool
flags down [] ks = ks
flags down (id ∷ ids) ks = flags down ids (set ks id down)

pub length-flags :
    (down : Bool) (ids : List ℕ) (ks : List Bool) → length (flags down ids ks) ≡ length ks
length-flags down [] ks = refl
length-flags down (id ∷ ids) ks = length-flags down ids (set ks id down) ∙ length-set ks id down

pub get_elem?-flags :
    (down : Bool) (ids : List ℕ) (ks : List Bool) (j : ℕ)
    → In (length ks) ids
    → get_elem? (flags down ids ks) j ≡ (if has j ids then some down else get_elem? ks j)
get_elem?-flags down [] ks j h = refl
get_elem?-flags down (id ∷ ids) ks j h =
    let kept : In (length (set ks id down)) ids = rw (length-set ks id down) h.1 in
    ground (arith, get_elem?-flags down ids (set ks id down) j kept, get_elem?-set ks id j down h.0)

-- The loop sets the flags, and a change that it has seen stays seen.
pub set_flags_lem :
    (down changed : Bool) (ids : List ℕ) (ks : List Bool)
    → In (length ks) ids
    → (c : Bool) × (set_flags down ids changed ks ≡ some (c, flags down ids ks))
      × (changed ≡ true → c ≡ true)
unfolding set_flags
set_flags_lem down changed [] ks h = (changed, refl, λ e. e)
set_flags_lem down changed (id ∷ ids) ks h = elim (Option-cases (get_elem? ks id)) [
  | inl n ↦ absurd (missing ks id h.0 n)
  | inr (was, e) ↦
      let (c, r, keep) =
        set_flags_lem down (if down then changed || not was else changed || was) ids
          (set ks id down) (rw (length-set ks id down) h.1) in
      (c, rw e r, λ t. keep (ground (arith, t)))
]
  where
    missing : (ks : List Bool) (i : ℕ) → i < length ks → get_elem? ks i ≡ none → ⊥
    missing [] i h e = omega arith
    missing (k ∷ ks) zero h e = cc
    missing (k ∷ ks) (suc i) h e = missing ks i (omega arith) e

-- The loop sees the change of its first server.
pub set_flags-flips :
    (down : Bool) (id : ℕ) (ids : List ℕ) (ks : List Bool)
    → In (length ks) (id ∷ ids)
    → get_elem? ks id ≡ some (not down)
    → set_flags down (id ∷ ids) false ks ≡ some (true, flags down (id ∷ ids) ks)
unfolding set_flags
set_flags-flips down id ids ks h e =
    let (c, r, keep) =
      set_flags_lem down true ids (set ks id down) (rw (length-set ks id down) h.1) in
    let seen : (if down then false || not (not down) else false || not down) ≡ true =
      ground arith in
    rw (e, seen, r) (rw (keep refl) refl)
