-- ===== src/Orders/Gtt/Brackets.antt =====
-- What a bracket sends to Kite (app/orders.py, `modify_gtt` and `place_gtt_oco`), and its limits.
use tv_zerodha_bot.Prelude.{
  ℕ, ◌+◌, ◌-◌, ◌*◌, ◌/◌, ◌≤◌, String, ◌≡◌, refl, ◌⊎◌, inl, inr, true, arith, if◌then◌else◌,
}
use tv_zerodha_bot.Prelude.Int.{pos, ◌≤ℤ◌, int_laws, ◌+ℤ◌, ◌-ℤ◌}
use tv_zerodha_bot.Numbers.{Numbers}
use tv_zerodha_bot.Numbers.Fixed.{fixed, scale}
use tv_zerodha_bot.Orders.Broker.{Side, buy, sell, opposite, is_buy, Leg, OcoParams, Instrument}
use tv_zerodha_bot.Orders.Gtt.{oco_params, compute_oco_limits}

-- The stop and the target lie on the two sides where the position loses and gains: for a long
-- position the stop is the lower price, for a short one the higher.
abbrev pub Protects : (n : Numbers) → Side → (sl target : n.Float) → Type 0
Protects n buy sl target = n.le sl target ≡ true
Protects n sell sl target = n.le target sl ≡ true

module _ {n : Numbers} where
  open n use {Float, le}

  -- Each trigger with the price of the leg that it fires.
  abbrev pub fired : OcoParams n → (Float × Float) × (Float × Float)
  fired p = ((p.trigger_values.0, p.orders.0.price), (p.trigger_values.1, p.orders.1.price))

  abbrev pub Closes : Side → ℕ → Leg n → Type 0
  Closes side qty l = (l.transaction_type ≡ opposite side) × (l.quantity ≡ qty)

  -- For either side, if stop and target lie in the order that the side needs, the bracket reaches
  -- Kite as [low, high], the stop fires the leg with the stop's limit and the target the leg with
  -- the target's, and both legs close the whole quantity on the opposite side.
  pub oco_params_lem :
      (sl sl_limit target target_limit last_price : Float) (instrument : Instrument n) (qty : ℕ)
      (product : String) (side : Side)
      → Protects n side sl target
      → let p = oco_params sl sl_limit target target_limit last_price instrument qty product side in
        (le p.trigger_values.0 p.trigger_values.1 ≡ true)
        × ((fired p ≡ ((sl, sl_limit), (target, target_limit)))
            ⊎ (fired p ≡ ((target, target_limit), (sl, sl_limit))))
        × Closes side qty p.orders.0
        × Closes side qty p.orders.1
  unfolding oco_params
  oco_params_lem sl sl_limit target target_limit last_price instrument qty product buy h =
      (h, inl refl, (refl, refl), (refl, refl))
  oco_params_lem sl sl_limit target target_limit last_price instrument qty product sell h =
      (h, inr refl, (refl, refl), (refl, refl))

minus_pos : (a b : ℕ) → b ≤ a → pos a -ℤ pos b ≡ pos (a - b)
minus_pos a b h = omega int_laws

plus_pos : (a b : ℕ) → pos a +ℤ pos b ≡ pos (a + b)
plus_pos a b = omega int_laws

shrinks : (t b : ℕ) → b ≤ scale → pos (t * (scale - b) / scale) ≤ℤ pos t
shrinks t b h = grind arith

grows : (t b : ℕ) → pos t ≤ℤ pos (t * (scale + b) / scale)
grows t b = grind arith

-- In exact arithmetic to four places, for triggers that are not negative and a buffer of at most
-- one, both limits are their triggers times the same factor, and never on the passive side of them:
-- a long position sells at most at the trigger, a short one buys at least at it.
pub compute_oco_limits_lem :
    (sl target buffer : ℕ) (side : Side)
    → buffer ≤ scale
    → let (sl_limit, target_limit) =
        compute_oco_limits fixed (pos sl) (pos target) side (pos buffer) in
      let factor = if is_buy side then scale - buffer else scale + buffer in
      (sl_limit ≡ pos (sl * factor / scale))
      × (target_limit ≡ pos (target * factor / scale))
      × (if is_buy side
          then (sl_limit ≤ℤ pos sl) × (target_limit ≤ℤ pos target)
          else (pos sl ≤ℤ sl_limit) × (pos target ≤ℤ target_limit))
unfolding compute_oco_limits
compute_oco_limits_lem sl target buffer buy h =
    rw (minus_pos scale buffer h) (refl, refl, (shrinks sl buffer h, shrinks target buffer h))
compute_oco_limits_lem sl target buffer sell h =
    rw (plus_pos scale buffer) (refl, refl, (grows sl buffer, grows target buffer))
