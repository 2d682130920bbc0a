-- ===== src/Base/Bytes.antt =====
-- Byte strings, with Go's equality and order on strings.
use Prim.Native.Nat.{ℕ}
use mathlib.Core.Path.{◌≡◌}
use mathlib.Core.Logic.{◌↔◌}
use mathlib.Core.Bool.{Bool, true, false, ◌&&◌}
use mathlib.Core.List.{List, [], ◌∷◌}
use native.Mathlib.Omega.{arith}
use mit_6_5840_distributed_s.Base.Tests.{ltb, eqb, if◌then◌else◌}
use mit_6_5840_distributed_s.Base.Keys.{Key}

abbrev pub Bytes : Type 0
Bytes = List ℕ

abbrev pub eq_bytes : Bytes → Bytes → Bool
eq_bytes [] [] = true
eq_bytes (a ∷ xs) (b ∷ ys) = eqb a b && eq_bytes xs ys
eq_bytes _ _ = false

-- The order by bytes, in which a proper prefix comes first.
abbrev pub lt_bytes : Bytes → Bytes → Bool
lt_bytes _ [] = false
lt_bytes [] (b ∷ ys) = true
lt_bytes (a ∷ xs) (b ∷ ys) = if ltb a b then true else if eqb a b then lt_bytes xs ys else false

pub eq_bytes_iff : (a b : Bytes) → (eq_bytes a b ≡ true) ↔ (a ≡ b)
eq_bytes_iff [] [] = ground arith
eq_bytes_iff [] (b ∷ ys) = ground arith
eq_bytes_iff (a ∷ xs) [] = ground arith
eq_bytes_iff (a ∷ xs) (b ∷ ys) = ground (arith, eq_bytes_iff xs ys)

instance abbrev pub bytes_eq : Key Bytes
bytes_eq = record { same = eq_bytes; same_iff = eq_bytes_iff }

-- Of two different strings one is less.
pub lt_bytes_total :
    (a b : Bytes) → lt_bytes a b ≡ false → eq_bytes a b ≡ false → lt_bytes b a ≡ true
lt_bytes_total [] [] h e = cc
lt_bytes_total [] (b ∷ ys) h e = cc
lt_bytes_total (a ∷ xs) [] h e = ground arith
lt_bytes_total (a ∷ xs) (b ∷ ys) h e = ground (arith, lt_bytes_total xs ys)
