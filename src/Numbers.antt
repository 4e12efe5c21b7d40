-- ===== src/Numbers.antt =====
-- Python's floats and decimals, as far as the program uses them. The program computes prices with
-- both and decides by comparing floats; the model takes the two types and their operations as an
-- interface, so that a theorem holds for every rounding, and names the laws it needs.
pub mod Fixed
use tv_zerodha_bot.Prelude.{ℕ, ◌≡◌, Bool, true, false, not}
use tv_zerodha_bot.Prelude.Int.{ℤ}

pub record Numbers : Type 1 where
  pub Float : Type 0
  pub lt : Float → Float → Bool
  pub le : Float → Float → Bool
  pub add : Float → Float → Float
  pub sub : Float → Float → Float
  pub mul : Float → Float → Float
  pub div : Float → Float → Float
  pub neg : Float → Float
  -- `float(n)`, `int(x)`, `round(x)` and `round(x, 2)`
  pub of_int : ℤ → Float
  pub trunc : Float → ℤ
  pub round : Float → ℤ
  pub round_2 : Float → Float
  -- the constant 0.01
  pub cent : Float
  -- `Decimal(str(x))` and `float(d)`
  pub Decimal : Type 0
  pub decimal : Float → Decimal
  pub to_float : Decimal → Float
  pub dec_zero : Decimal
  pub dec_one : Decimal
  pub dec_add : Decimal → Decimal → Decimal
  pub dec_sub : Decimal → Decimal → Decimal
  pub dec_mul : Decimal → Decimal → Decimal
  pub dec_div : Decimal → Decimal → Decimal
  pub dec_lt : Decimal → Decimal → Bool
  pub dec_abs : Decimal → Decimal
  -- `Decimal(str(n))` and `int(d)`, which is also `int` of a value rounded down
  pub dec_of_int : ℤ → Decimal
  pub dec_trunc : Decimal → ℤ
  -- `to_integral_value(rounding=ROUND_HALF_UP)`
  pub half_up : Decimal → Decimal

-- Comparison of floats that are not NaN.
pub record IsOrdered (n : Numbers) : Type 0 where
  pub le_refl : (x : n.Float) → n.le x x ≡ true
  pub le_trans : (x y z : n.Float) → n.le x y ≡ true → n.le y z ≡ true → n.le x z ≡ true
  pub lt-not-le : (x y : n.Float) → n.lt x y ≡ not (n.le y x)
  pub le_of_lt : (x y : n.Float) → n.lt x y ≡ true → n.le x y ≡ true

module _ (n : Numbers) where
  open n use {Decimal, dec_div, dec_mul, half_up}

  -- app/symbol_mapper.py
  unfoldable pub round_to_tick : Decimal → Decimal → Decimal
  round_to_tick price tick_size = dec_mul (half_up (dec_div price tick_size)) tick_size
