-- ===== src/Risk/Exact.antt =====
-- Position sizes (app/risk.py) in exact arithmetic: the greatest whole number of lots that the capital
-- affords.
use native.Mathlib.Nat.{div-div-eq-div-mul, mul-div-mul_right, mul-div_cancel, div-mul-le_self}
use tv_zerodha_bot.Prelude.{
  ℕ, zero, suc, ◌*◌, ◌/◌, ◌≤◌, ◌<◌, ◌≡◌, ap, ◌∙◌, if◌then◌else◌, arith, ltb,
}
use tv_zerodha_bot.Prelude.Int.{pos, ◌*ℤ◌}
use tv_zerodha_bot.Numbers.Fixed.{fixed, scale}
use tv_zerodha_bot.Risk.Sizing.{
  compute_option_qty, compute_futures_qty, compute_equity_qty, not_positive,
}

lots_of : (c p l : ℕ) → (c * scale / p * scale) / (l * scale) / scale ≡ c / (p * l)
lots_of c p l =
    ap (λ x. x / scale) (mul-div-mul_right (c * scale / p) l (omega arith))
    ∙ (ap (λ x. x / scale) (div-div-eq-div-mul (c * scale) p l)
        ∙ (div-div-eq-div-mul (c * scale) (p * l) scale
            ∙ mul-div-mul_right c (p * l) (omega arith)))

shares_of : (c p : ℕ) → c * scale / p / scale ≡ c / p
shares_of c p = div-div-eq-div-mul (c * scale) p scale ∙ mul-div-mul_right c p (omega arith)

units : (a : ℕ) → a * scale / scale ≡ a
units a = mul-div_cancel a (omega arith)

regroup : (p k l : ℕ) → p * (k * l * scale) ≡ k * (p * l) * scale
regroup p k l = grind arith

cost : (p k l : ℕ) → p * (k * l * scale) / scale ≡ k * (p * l)
cost p k l = rw (regroup p k l) (units (k * (p * l)))

-- The two tests of the size, for a number of lots that is affordable.
tests_pass :
    (c p k l : ℕ)
    → k * (p * l) ≤ c
    → (if ltb (k * l) l then pos 0 else if ltb c (k * (p * l)) then pos l else pos (k * l))
      ≡ pos (k * l)
tests_pass c p zero l h = ground arith
tests_pass c p (suc k) l h = ground arith

pos_*ℤ : (a b : ℕ) → pos a *ℤ pos b ≡ pos (a * b)
unfolding ◌*ℤ◌
pos_*ℤ a b = ground arith

-- In exact arithmetic to four places, for a premium and a lot that are positive, the size for
-- options is the greatest number of whole lots that the capital affords, which is 0 if it affords
-- none: the fallback to one lot is never taken.
pub compute_option_qty_exact :
    (capital premium lot : ℕ)
    → 0 < premium
    → 0 < lot
    → compute_option_qty fixed (pos capital) (pos premium) (pos (lot * scale))
      ≡ pos (capital / (premium * lot) * lot)
unfolding compute_option_qty not_positive
compute_option_qty_exact c p l hp hl =
    rw (lots_of c p l, units l, pos_*ℤ (c / (p * l)) l, cost p (c / (p * l)) l)
      (ground (arith, tests_pass c p (c / (p * l)) l (div-mul-le_self c (p * l))))

-- In exact arithmetic to four places, for a positive risk, stop distance and lot, the size for
-- futures is the greatest number of whole lots that loses at most the risk at the stop, and the
-- size for shares the greatest number that the same amount buys at the price.
pub compute_futures_qty_exact :
    (risk distance lot : ℕ)
    → 0 < risk
    → 0 < distance
    → 0 < lot
    → (compute_futures_qty fixed (pos risk) (pos distance) (pos (lot * scale))
        ≡ pos (risk / (distance * lot) * lot))
      × (compute_equity_qty fixed (pos risk) (pos distance) ≡ pos (risk / distance))
unfolding compute_futures_qty compute_equity_qty not_positive
compute_futures_qty_exact c p l hc hp hl = (
  rw (lots_of c p l, units l, pos_*ℤ (c / (p * l)) l)
      (ground (arith, tests_pass c p (c / (p * l)) l (div-mul-le_self c (p * l)))),
  rw (shares_of c p) (ground arith),
)
