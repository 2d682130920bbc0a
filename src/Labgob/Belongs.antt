-- ===== src/Labgob/Belongs.antt =====
-- The types that belong to a type, as `checkType` of src/labgob/labgob.go finds them, and how many of
-- them are left.
use mit_6_5840_distributed_s.Base.{
  ℕ, zero, suc, ◌+◌, ◌≤◌, ◌<◌, ◌≡◌, true, false, List, [], ◌∷◌, arith, if◌then◌else◌, has, refl,
  Bool, ltb,
}
use mit_6_5840_distributed_s.Labgob.{
  Field, GoType, struct_of, elem_of, map_of, other, is_upper, Unicode,
}

-- The types that a type mentions.
abbrev pub types_of : List Field → List ℕ
types_of [] = []
types_of (f ∷ fs) = f.type ∷ types_of fs

abbrev pub parts : GoType → List ℕ
parts (struct_of fs) = types_of fs
parts (elem_of e) = e ∷ []
parts (map_of k e) = e ∷ k ∷ []
parts other = []

-- "A" to "Z".
abbrev pub capitals : List ℕ
capitals =
    65 ∷ 66 ∷ 67 ∷ 68 ∷ 69 ∷ 70 ∷ 71 ∷ 72 ∷ 73 ∷ 74 ∷ 75 ∷ 76 ∷ 77 ∷ 78 ∷ 79 ∷ 80 ∷ 81 ∷ 82 ∷ 83
    ∷ 84 ∷ 85 ∷ 86 ∷ 87 ∷ 88 ∷ 89 ∷ 90 ∷ []

-- A name that other packages see: it begins with one of these, or with an upper-case rune beyond ASCII.
abbrev pub exported : ⦃u : Unicode⦄ → List ℕ → Bool
exported [] = false
exported ⦃u⦄ (c ∷ cs) = if ltb c 128 then has c capitals else u.upper_above c

pub is_upper-exported : ⦃u : Unicode⦄ (name : List ℕ) → is_upper name ≡ exported name
is_upper-exported [] = refl
is_upper-exported ⦃u⦄ (c ∷ cs) = ground arith

abbrev pub lower : ⦃u : Unicode⦄ → List Field → ℕ
lower [] = 0
lower (f ∷ fs) = if exported f.name then lower fs else lower fs + 1

abbrev pub lower_in : ⦃u : Unicode⦄ → GoType → ℕ
lower_in (struct_of fs) = lower fs
lower_in _ = 0

-- The types that belong to a type.
pub data Belongs (types : ℕ → GoType) (t : ℕ) : ℕ → Type 0 where
  itself : Belongs types t t
  part : {x y : ℕ} → Belongs types t x → has y (parts (types x)) ≡ true → Belongs types t y

-- The lower-case fields of the types in a list.
abbrev pub lower_all : ⦃u : Unicode⦄ → (ℕ → GoType) → List ℕ → ℕ
lower_all types [] = 0
lower_all types (t ∷ ts) = lower_in (types t) + lower_all types ts

abbrev pub Distinct : List ℕ → Type 0
Distinct [] = Unit
Distinct (t ∷ ts) = (has t ts ≡ false) × Distinct ts

-- How many of the first `n` types are not checked yet.
abbrev pub left : ℕ → List ℕ → ℕ
left zero c = 0
left (suc n) c = let rest = left n c in if has n c then rest else rest + 1

pub left_le : (n : ℕ) (c : List ℕ) → left n c ≤ n
left_le zero c = omega arith
left_le (suc n) c = ground (arith, left_le n c)

pub left_less :
    (n : ℕ) (c d : List ℕ) → ((x : ℕ) → has x c ≡ true → has x d ≡ true) → left n d ≤ left n c
left_less zero c d h = omega arith
left_less (suc n) c d h = ground (arith, left_less n c d h, h n)

pub left_checked : (n t : ℕ) (c : List ℕ) → t < n → has t c ≡ false → left n (t ∷ c) < left n c
left_checked zero t c h e = absurd (omega arith)
left_checked (suc n) t c h e =
    ground (arith, left_checked n t c, left_less n c (t ∷ c) (λ x p. ground (arith, p)))

pub Belongs-whole :
    (types : ℕ → GoType) (t s x : ℕ)
    → has s (parts (types t)) ≡ true
    → Belongs types s x
    → Belongs types t x
Belongs-whole types t s x h itself = part itself h
Belongs-whole types t s x h (part {x = y} b p) = part (Belongs-whole types t s y h b) p

pub has_only : (x t : ℕ) → has x (t ∷ []) ≡ true → x ≡ t
has_only x t h = ground arith

pub has_self : (t : ℕ) (ts : List ℕ) → has t (t ∷ ts) ≡ true
has_self t ts = ground arith
