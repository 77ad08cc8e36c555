-- ===== src/Base/Double.antt =====
-- What the code does with a `double`. The type and its operations are a parameter of the model.
use Prim.Native.Nat.{ℕ, ◌+◌, ◌*◌, ◌/◌, ◌^◌}
use mathlib.Core.Path.{◌≡◌}
use mathlib.Core.Bool.{Bool, true, false}
use native.Mathlib.Omega.{arith}
use meteo.Base.Tests.{◌==◌}
use meteo.Base.Int.{ℤ, pos, negsuc, pos_part, neg_part, ◌+ℤ◌, ◌-ℤ◌, ltb_ℤ}

-- `of_int` is the conversion of an integer, `lit m e` the literal m / 10 ^ e, and `trunc` the cast to int.
pub record Double (D : Type 0) : Type 0 where
  pub of_int : ℤ → D
  pub lit : ℤ → ℕ → D
  pub add : D → D → D
  pub sub : D → D → D
  pub mul : D → D → D
  pub div : D → D → D
  pub neg : D → D
  pub trunc : D → ℤ
  pub lt : D → D → Bool
  pub eq : D → D → Bool

-- The laws of `<` that hold of every double, NaN included.
pub record IsOrdered (D : Type 0) ⦃d : Double D⦄ : Type 0 where
  pub lt_irrefl : (x : D) → d.lt x x ≡ false
  pub lt_trans : (x y z : D) → d.lt x y ≡ true → d.lt y z ≡ true → d.lt x z ≡ true

-- Integers stand in for doubles where a concrete instance is called for.
abbrev scale : ℕ → ℕ → ℕ
scale m e = m / 10 ^ e

abbrev lit_ℤ : ℤ → ℕ → ℤ
lit_ℤ (pos m) e = pos (scale m e)
lit_ℤ (negsuc m) e = negsuc (scale m e)

abbrev mul_ℤ : ℤ → ℤ → ℤ
mul_ℤ a b =
    pos (pos_part a * pos_part b + neg_part a * neg_part b)
    -ℤ pos (pos_part a * neg_part b + neg_part a * pos_part b)

abbrev div_ℤ : ℤ → ℤ → ℤ
div_ℤ a b = pos (pos_part a / pos_part b) -ℤ pos (neg_part a / pos_part b)

instance abbrev pub int_double : Double ℤ
int_double = record {
  of_int = λ z. z;
  lit = lit_ℤ;
  add = ◌+ℤ◌;
  sub = ◌-ℤ◌;
  mul = mul_ℤ;
  div = div_ℤ;
  neg = λ z. pos 0 -ℤ z;
  trunc = λ z. z;
  lt = ltb_ℤ;
  eq = λ a b. pos_part a + neg_part b == pos_part b + neg_part a;
}

lt_ℤ_irrefl : (x : ℤ) → ltb_ℤ x x ≡ false
lt_ℤ_irrefl x = ground arith

lt_ℤ_trans : (x y z : ℤ) → ltb_ℤ x y ≡ true → ltb_ℤ y z ≡ true → ltb_ℤ x z ≡ true
lt_ℤ_trans x y z p q = ground arith

pub int-IsOrdered : IsOrdered ℤ
int-IsOrdered = record { lt_irrefl = lt_ℤ_irrefl; lt_trans = lt_ℤ_trans }
