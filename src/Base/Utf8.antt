-- ===== src/Base/Utf8.antt =====
-- Go's UTF-8 (package unicode/utf8) on bytes, and what a string comes to that is written as JSON and read
-- back: encoding/json has U+FFFD in place of each byte that is not part of a rune.
use mit_6_5840_distributed_s.Base.Bytes.{Bytes}
use mit_6_5840_distributed_s.Base.Tests.{ltb, leb, eqb, if◌then◌else◌, Bool-cases}
use mit_6_5840_distributed_s.Base.Lists.{length, get_elem?, All}
use Prim.Native.Nat.{ℕ, zero, suc, ◌<◌}
use mathlib.Core.Path.{◌≡◌, refl, ap, ◌∙◌}
use mathlib.Core.Logic.{inl, inr}
use mathlib.Core.Bool.{Bool, true, false, ◌&&◌}
use mathlib.Core.Option.{Option, none, some}
use mathlib.Core.List.{[], ◌∷◌, ◌++◌}
use native.Mathlib.Omega.{arith}

abbrev take : ℕ → Bytes → Bytes
take zero s = []
take (suc n) [] = []
take (suc n) (b ∷ s) = b ∷ take n s

abbrev drop : ℕ → Bytes → Bytes
drop zero s = s
drop (suc n) [] = []
drop (suc n) (b ∷ s) = drop n s

abbrev between : ℕ → ℕ → Option ℕ → Bool
between lo hi none = false
between lo hi (some b) = leb lo b && leb b hi

-- The range of the second byte after the first one.
abbrev second : ℕ → Option ℕ → Bool
second a b =
    if eqb a 224
    then between 160 191 b
    else if eqb a 237
    then between 128 159 b
    else if eqb a 240
    then between 144 191 b
    else if eqb a 244
    then between 128 143 b
    else between 128 191 b

-- How many bytes the first rune has, and 0 where the bytes are no rune.
unfoldable pub rune_size : Bytes → ℕ
rune_size [] = 0
rune_size (a ∷ s) =
    let next = second a (get_elem? s 0) in
    let third = between 128 191 (get_elem? s 1) in
    let fourth = between 128 191 (get_elem? s 2) in
    if ltb a 128
    then 1
    else if leb 194 a && leb a 223 && next
    then 2
    else if leb 224 a && leb a 239 && next && third
    then 3
    else if leb 240 a && leb a 244 && next && third && fourth
    then 4
    else 0

unfoldable pub valid_from : ℕ → Bytes → Bool
valid_from fuel [] = true
valid_from zero (b ∷ s) = false
valid_from (suc fuel) (b ∷ s) =
    let n = rune_size (b ∷ s) in
    let rest = valid_from fuel (drop n (b ∷ s)) in if eqb n 0 then false else rest

-- `utf8.ValidString`.
unfoldable pub valid : Bytes → Bool
valid s = valid_from (length s) s

unfoldable pub json_from : ℕ → Bytes → Bytes
json_from fuel [] = []
json_from zero (b ∷ s) = []
json_from (suc fuel) (b ∷ s) =
    let n = rune_size (b ∷ s) in
    let after = json_from fuel s in
    let rest = json_from fuel (drop n (b ∷ s)) in
    if eqb n 0 then 239 ∷ 191 ∷ 189 ∷ after else take n (b ∷ s) ++ rest

unfoldable pub json_text : Bytes → Bytes
json_text s = json_from (length s) s

take-drop : (n : ℕ) (s : Bytes) → take n s ++ drop n s ≡ s
take-drop zero s = refl
take-drop (suc n) [] = refl
take-drop (suc n) (b ∷ s) = ap (λ s. b ∷ s) (take-drop n s)

json_from-valid : (fuel : ℕ) (s : Bytes) → valid_from fuel s ≡ true → json_from fuel s ≡ s
unfolding valid_from json_from
json_from-valid fuel [] h = refl
json_from-valid zero (b ∷ s) h = absurd (cc)
json_from-valid (suc fuel) (b ∷ s) h = elim (Bool-cases (eqb (rune_size (b ∷ s)) 0)) [
  | inl e ↦ absurd (cc (rw (valid_from, e) at h))
  | inr e ↦
      let n = rune_size (b ∷ s) in
      let rest = json_from-valid fuel (drop n (b ∷ s)) (rw (valid_from, e) at h) in
      rw e (ap (λ r. take n (b ∷ s) ++ r) rest ∙ take-drop n (b ∷ s))
]

-- Text that is UTF-8 reads back as it was written.
pub json_text-valid : (s : Bytes) → valid s ≡ true → json_text s ≡ s
unfolding valid json_text
json_text-valid s h = json_from-valid (length s) s h

abbrev pub Ascii : Bytes → Type 0
Ascii s = All (λ b. b < 128) s

rune_size-ascii : (b : ℕ) (s : Bytes) → b < 128 → rune_size (b ∷ s) ≡ 1
unfolding rune_size
rune_size-ascii b s h = let one : ltb b 128 ≡ true = ground (arith, h) in rw one refl

valid_from-Ascii : (s : Bytes) → Ascii s → valid_from (length s) s ≡ true
unfolding valid_from
valid_from-Ascii [] h = refl
valid_from-Ascii (b ∷ s) h = rw (rune_size-ascii b s h.0) (valid_from-Ascii s h.1)

pub valid-Ascii : (s : Bytes) → Ascii s → valid s ≡ true
unfolding valid
valid-Ascii s h = valid_from-Ascii s h
