-- ===== src/Trailing/Tick.antt =====
-- One position under a trailing stop, and one tick (app/trailing.py, `_TrailPos` and `_evaluate`).
use tv_zerodha_bot.Prelude.{
  ℕ, ◌-◌, ◌*◌, String, Bool, true, not, ◌&&◌, Option, none, some, ltb, if◌then◌else◌, second,
}
use tv_zerodha_bot.Prelude.Int.{pos}
use tv_zerodha_bot.Numbers.{Numbers}
use tv_zerodha_bot.Orders.Broker.{Side, is_buy}

-- Seconds between two GTT changes of one position.
abbrev pub update_interval : ℕ
update_interval = 30 * second

module _ (n : Numbers) where
  open n use {Float, le, mul, div, add, sub, of_int, round, round_2}

  pub record TrailPos : Type 0 where
    pub tradingsymbol : String
    pub instrument_token : ℕ
    pub exchange : String
    pub entry_side : Side
    pub sl_pct : Float
    pub qty : ℕ
    pub product : String
    pub target_price : Float
    pub current_sl : Float
    pub best_price : Float
    pub gtt_db_id : ℕ
    pub kite_gtt_id : Option ℕ
    pub tick_size : Float
    pub last_update : ℕ
    pub worst_price : Float
    pub excursions_dirty : Bool
    -- The identity of the object: an update thread holds on to it when the token is registered anew.
    pub ref : ℕ

  unfoldable pub round_to_tick : (price tick : Float) → Float
  round_to_tick price tick =
      if le tick (of_int (pos 0))
      then round_2 price
      else round_2 (mul (of_int (round (div price tick))) tick)

  -- The thread that a tick may start: the arguments of `_do_update`.
  pub record Update : Type 0 where
    pub old_sl : Float
    pub new_sl : Float
    pub kite_gtt_id : Option ℕ
    pub ltp : Float

module _ (n : Numbers) where
  open n use {Float, lt, le}

  -- Is the price `a` no more favourable than `b`, and is it more favourable, for the side?
  unfoldable pub no_better : Side → (a b : Float) → Bool
  no_better side a b = if is_buy side then le a b else le b a

  unfoldable pub better : Side → (a b : Float) → Bool
  better side a b = if is_buy side then lt b a else lt a b

  -- The band of the GTT must hold the price between stop and target.
  unfoldable pub band_holds : Side → (sl ltp target : Float) → Bool
  band_holds side sl ltp target =
      if is_buy side then lt sl ltp && lt ltp target else lt target ltp && lt ltp sl

module _ {n : Numbers} where
  open n use {Float, lt, le, mul, add, sub, of_int}

  -- The most adverse price: higher for a short position, lower for a long one.
  unfoldable pub track_worst : Float → TrailPos n → TrailPos n
  track_worst ltp p =
      if (if is_buy p.entry_side then lt ltp p.worst_price else lt p.worst_price ltp)
      then record p { worst_price = ltp; excursions_dirty = true }
      else p

  -- The stop that belongs to the best price `ltp`.
  unfoldable pub trailed_sl : TrailPos n → Float → Float
  trailed_sl p ltp =
      let one = of_int (pos 1) in
      round_to_tick n (mul ltp (if is_buy p.entry_side then sub one p.sl_pct else add one p.sl_pct))
        p.tick_size

  -- The rest of `_evaluate` once the price is the best so far: throttle, band, then the new stop.
  unfoldable pub move_stop : (now : ℕ) (ltp : Float) → TrailPos n → TrailPos n × Option (Update n)
  move_stop now ltp p =
      let new_sl = trailed_sl p ltp in
      let best = record p { best_price = ltp; excursions_dirty = true } in
      if not (better n p.entry_side new_sl p.current_sl)
      then (best, none)
      else if ltb (now - p.last_update) update_interval
      then (best, none)
      else if not (band_holds n p.entry_side new_sl ltp p.target_price)
      then (best, none)
      else (
        record best { current_sl = new_sl; last_update = now },
        some (record {
          old_sl = p.current_sl;
          new_sl = new_sl;
          kite_gtt_id = p.kite_gtt_id;
          ltp = ltp;
        }),
      )

  unfoldable pub evaluate : (now : ℕ) (ltp : Float) → TrailPos n → TrailPos n × Option (Update n)
  evaluate now ltp p =
      let tracked = track_worst ltp p in
      if no_better n p.entry_side ltp p.best_price
      then (tracked, none)
      else move_stop now ltp tracked
