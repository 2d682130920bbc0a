-- ===== src/Base/Keys.antt =====
-- Equality of keys as an interface, for numbers and for native strings.
use Prim.Native.String.{String}
use Prim.Native.Nat.{ℕ}
use text.Mathlib.TextEquality.{eq_iff}
use text.Mathlib.Text.{◌==◌ as text_eq}
use mathlib.Core.Bool.{Bool, true}
use mathlib.Core.Logic.{◌↔◌}
use mathlib.Core.Path.{◌≡◌}
use mit_6_5840_distributed_s.Base.Tests.{eqb, eqb_iff}

-- A type whose values are keys of a Go map.
pub record Key {ℓ} (K : Type ℓ) : Type ℓ where
  pub same : K → K → Bool
  pub same_iff : (j k : K) → (same j k ≡ true) ↔ (j ≡ k)

pub str_eq_iff : (a b : String) → (text_eq a b ≡ true) ↔ (a ≡ b)
str_eq_iff = eq_iff

instance abbrev pub string_eq : Key String
string_eq = record { same = text_eq; same_iff = str_eq_iff }

instance abbrev pub nat_eq : Key ℕ
nat_eq = record { same = eqb; same_iff = eqb_iff }

abbrev pub ◌==◌ {ℓ} : {K : Type ℓ} ⦃key : Key K⦄ → K → K → Bool
◌==◌ ⦃key⦄ j k = key.same j k

infix 50 ◌==◌
