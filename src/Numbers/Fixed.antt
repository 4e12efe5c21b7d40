-- ===== src/Numbers/Fixed.antt =====
-- A concrete reading of the interface: both types are exact numbers with four decimal places, and a
-- product or quotient is cut off there.
use tv_zerodha_bot.Prelude.{
  ℕ, suc, ◌+◌, ◌*◌, ◌/◌, ◌%◌, Bool, true, false, arith, ltb, ◌==◌, nat_eq, if◌then◌else◌,
}
use tv_zerodha_bot.Prelude.Int.{ℤ, pos, negsuc, ◌+ℤ◌, ◌-ℤ◌, leb_ℤ, ltb_ℤ}
use tv_zerodha_bot.Numbers.{Numbers, IsOrdered}

abbrev pub scale : ℕ
scale = 10000

-- The sign and the size of an integer.
abbrev is_neg : ℤ → Bool
is_neg (pos n) = false
is_neg (negsuc n) = true

abbrev size : ℤ → ℕ
size (pos n) = n
size (negsuc n) = suc n

abbrev pub signed : Bool → ℕ → ℤ
signed true n = pos 0 -ℤ pos n
signed false n = pos n

abbrev differ : Bool → Bool → Bool
differ true true = false
differ true false = true
differ false true = true
differ false false = false

abbrev mul_fixed : ℤ → ℤ → ℤ
mul_fixed a b = signed (differ (is_neg a) (is_neg b)) (size a * size b / scale)

abbrev div_fixed : ℤ → ℤ → ℤ
div_fixed a b = signed (differ (is_neg a) (is_neg b)) (size a * scale / size b)

-- The nearest whole number of units of `k`, a half going to the even one.
abbrev nearest_even : ℕ → ℕ → ℕ
nearest_even n k =
    let q = n / k in
    let r = n % k in
    if ltb (r * 2) k then q else if ltb k (r * 2) then q + 1 else if q % 2 == 0 then q else q + 1

abbrev round_half_up : ℕ → ℕ → ℕ
round_half_up n k = (n * 2 + k) / (k * 2)

abbrev pub fixed : Numbers
fixed = record {
  Float = ℤ;
  lt = ltb_ℤ;
  le = leb_ℤ;
  add = ◌+ℤ◌;
  sub = ◌-ℤ◌;
  mul = mul_fixed;
  div = div_fixed;
  neg = λ a. pos 0 -ℤ a;
  of_int = λ a. signed (is_neg a) (size a * scale);
  trunc = λ a. signed (is_neg a) (size a / scale);
  round = λ a. signed (is_neg a) (nearest_even (size a) scale);
  round_2 = λ a. signed (is_neg a) (nearest_even (size a) 100 * 100);
  cent = pos 100;
  Decimal = ℤ;
  decimal = λ a. a;
  to_float = λ a. a;
  dec_zero = pos 0;
  dec_one = pos scale;
  dec_add = ◌+ℤ◌;
  dec_sub = ◌-ℤ◌;
  dec_mul = mul_fixed;
  dec_div = div_fixed;
  dec_lt = ltb_ℤ;
  dec_abs = λ a. pos (size a);
  dec_of_int = λ a. signed (is_neg a) (size a * scale);
  dec_trunc = λ a. signed (is_neg a) (size a / scale);
  half_up = λ a. signed (is_neg a) (round_half_up (size a) scale * scale);
}

pub fixed-IsOrdered : IsOrdered fixed
fixed-IsOrdered = ground arith
