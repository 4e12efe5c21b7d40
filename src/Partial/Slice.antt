-- ===== src/Partial/Slice.antt =====
-- How far a price has run, and how much of a position is closed (app/partial_booking.py).
use tv_zerodha_bot.Prelude.{ℕ, ◌-◌, ltb, min, if◌then◌else◌}
use tv_zerodha_bot.Prelude.Int.{pos, pos_part}
use tv_zerodha_bot.Numbers.{Numbers}
use tv_zerodha_bot.Orders.Broker.{Side, is_buy}

module _ (n : Numbers) where
  open n use {Float, le, sub, mul, div, of_int, trunc}

  unfoldable pub progress_to_target : Side → (entry target ltp : Float) → Float
  progress_to_target entry_side entry target ltp =
      let span = if is_buy entry_side then sub target entry else sub entry target in
      let moved = if is_buy entry_side then sub ltp entry else sub entry ltp in
      if le span (of_int (pos 0)) then of_int (pos 0) else div moved span

  -- A negative product becomes 0 here, and 1 by the maximum, as it would itself.
  unfoldable pub qty_to_book : (open_qty : ℕ) → (pct : Float) → ℕ
  qty_to_book open_qty pct =
      let booked = pos_part (trunc (mul (of_int (pos open_qty)) pct)) in
      let slice = min booked (open_qty - 1) in
      if ltb open_qty 2 then 0 else if ltb slice 1 then 1 else slice
