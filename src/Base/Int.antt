-- ===== src/Base/Int.antt =====
-- Go's signed integers, with their tests, over the native numbers.
use Prim.Native.Nat.{ℕ}
use mathlib.Core.Path.{◌≡◌}
use mathlib.Core.Logic.{◌↔◌}
use mathlib.Core.Bool.{Bool, true, false}
use native.Mathlib.Omega.{arith}
use mit_6_5840_distributed_s.Base.Tests.{ltb, eqb}
use mit_6_5840_distributed_s.Base.Keys.{Key}

-- `negsuc n` is the number -1 - n.
pub data ℤ : Type 0 where
  negsuc pos : ℕ → ℤ

abbrev pub lt_int : ℤ → ℤ → Bool
lt_int (pos m) (pos n) = ltb m n
lt_int (pos m) (negsuc n) = false
lt_int (negsuc m) (pos n) = true
lt_int (negsuc m) (negsuc n) = ltb n m

abbrev pub eq_int : ℤ → ℤ → Bool
eq_int (pos m) (pos n) = eqb m n
eq_int (negsuc m) (negsuc n) = eqb m n
eq_int _ _ = false

pub eq_int_iff : (a b : ℤ) → (eq_int a b ≡ true) ↔ (a ≡ b)
eq_int_iff (pos m) (pos n) = ground arith
eq_int_iff (pos m) (negsuc n) = ground arith
eq_int_iff (negsuc m) (pos n) = ground arith
eq_int_iff (negsuc m) (negsuc n) = ground arith

instance abbrev pub int_eq : Key ℤ
int_eq = record { same = eq_int; same_iff = eq_int_iff }
