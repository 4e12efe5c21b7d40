-- ===== src/Partial/Rows.antt =====
-- What `book_partial` (app/partial_booking.py) works with, its prices, and the rows that it writes.
use tv_zerodha_bot.Prelude.{
  ℕ, ◌+◌, ◌-◌, Bool, false, ◌&&◌, Option, none, some, ◌==◌, nat_eq, if◌then◌else◌,
}
use tv_zerodha_bot.Prelude.Int.{pos}
use tv_zerodha_bot.Numbers.{Numbers, round_to_tick}
use tv_zerodha_bot.Orders.Broker.{Side, Instrument}
use tv_zerodha_bot.Orders.Gtt.{compute_oco_limits}
use tv_zerodha_bot.Storage.{Instant, Order, Gtt, Position}
use tv_zerodha_bot.Paper.Exits.{Settings, entry_side_of, paper_pnl}
use tv_zerodha_bot.Paper.Monitor.{underlying_of}
use tv_zerodha_bot.Trailing.Tick.{TrailPos, band_holds}
use tv_zerodha_bot.Trailing.Manager.{Manager, register, unregister}
use tv_zerodha_bot.Partial.Slice.{qty_to_book}

module _ (n : Numbers) where
  open n use {Float}

  -- The settings, and what app/state.py answers for the switches and the stop.
  pub record BookingSettings : Type 0 where
    pub partial_booking_enabled : Bool
    pub paper_mode : Bool
    pub trailing_enabled : Bool
    pub sl_pct : Float
    pub partial_book_trigger_pct : Float
    pub partial_book_qty_pct : Float
    pub move_sl_to_breakeven : Bool
    pub oco_slippage_buffer_pct : Float
    pub paper : Settings

  -- A row of `_eligible_rows`.
  pub record Row : Type 0 where
    pub position : Position n
    pub order : Order n
    pub gtt : Gtt n
    pub instrument : Instrument n

  -- The prices that a booking works with.
  pub record Band : Type 0 where
    pub new_sl : Float
    pub sl_limit : Float
    pub tgt_limit : Float
    pub ltp : Float

module _ {n : Numbers} where
  open n use {Float, le, of_int, cent, decimal, to_float, mul, round_2}

  -- `instrument.tick_size or 0.01`
  unfoldable pub tick_of : Instrument n → Float
  tick_of instrument =
      let zero_f = of_int (pos 0) in
      if le instrument.tick_size zero_f && le zero_f instrument.tick_size
      then cent
      else instrument.tick_size

  unfoldable pub side_of : Row n → Side
  side_of row = entry_side_of row.order.transaction_type

  unfoldable pub slice_of : BookingSettings n → Row n → ℕ
  slice_of settings row = qty_to_book n row.position.quantity settings.partial_book_qty_pct

  unfoldable pub remaining_of : BookingSettings n → Row n → ℕ
  unfolding slice_of
  remaining_of settings row = row.position.quantity - slice_of settings row

  unfoldable pub band_of : BookingSettings n → Row n → (ltp : Float) → Band n
  unfolding tick_of side_of
  band_of settings row ltp =
      let tick = decimal (tick_of row.instrument) in
      let new_sl =
        if settings.move_sl_to_breakeven
        then to_float (round_to_tick n (decimal row.position.entry_premium) tick)
        else row.gtt.sl_trigger in
      let limits =
        compute_oco_limits n new_sl row.gtt.target_trigger (side_of row)
          settings.oco_slippage_buffer_pct in
      record {
        new_sl = new_sl;
        sl_limit = to_float (round_to_tick n limits.0 tick);
        tgt_limit = to_float (round_to_tick n limits.1 tick);
        ltp = ltp;
      }

  -- Does the band of the remainder hold the price?
  unfoldable pub bookable : BookingSettings n → Row n → Band n → Bool
  unfolding slice_of side_of
  bookable settings row band =
      if slice_of settings row == 0
      then false
      else band_holds n (side_of row) band.new_sl band.ltp row.gtt.target_trigger

  -- The changed rows.
  unfoldable pub booked_position : BookingSettings n → Row n → Band n → (now : Instant) → Position n
  unfolding remaining_of
  booked_position settings row band now =
      let p = row.position in
      let book_qty = slice_of settings row in
      record p {
        quantity = remaining_of settings row;
        partial_booked_qty = book_qty;
        partial_booked_pnl = some (
            round_2 (
              paper_pnl n (side_of row) p.entry_premium band.ltp book_qty p.exchange
                (underlying_of p) settings.paper));
        partial_booked_at = some now;
        current_sl = band.new_sl;
        last_updated_at = now;
      }

  unfoldable pub booked_gtt : Row n → Band n → (now : Instant) → Gtt n
  booked_gtt row band now = record row.gtt {
    sl_trigger = band.new_sl;
    sl_order_price = band.sl_limit;
    target_order_price = band.tgt_limit;
    modification_count = row.gtt.modification_count + 1;
    updated_at = now;
  }

  -- What `register` is called with; it sets the fields of the extremes, the clock and the identity.
  unfoldable pub trail_pos : BookingSettings n → Row n → Band n → TrailPos n
  unfolding remaining_of
  trail_pos settings row band = record {
    tradingsymbol = row.position.tradingsymbol;
    instrument_token = row.instrument.instrument_token;
    exchange = row.position.exchange;
    entry_side = side_of row;
    sl_pct = settings.sl_pct;
    qty = remaining_of settings row;
    product = row.order.product;
    target_price = row.gtt.target_trigger;
    current_sl = band.new_sl;
    best_price = band.ltp;
    gtt_db_id = row.gtt.id;
    kite_gtt_id = row.gtt.kite_gtt_id;
    tick_size = tick_of row.instrument;
    last_update = 0;
    worst_price = band.ltp;
    excursions_dirty = false;
    ref = 0;
  }

  -- The trailing stop follows, for a live position with a GTT, if there is a manager.
  unfoldable pub retrail :
      BookingSettings n
      → Row n
      → Band n
      → (clock : ℕ) → (available : Bool) → Option (Manager n)
      → Option (Manager n)
  unfolding trail_pos
  retrail settings row band clock available none = none
  retrail settings row band clock available (some m) = elim row.gtt.kite_gtt_id [
    | none ↦ some m
    | some id ↦
        let m1 = unregister available row.instrument.instrument_token m in
        some (
          if settings.trailing_enabled
          then register (trail_pos settings row band) band.ltp clock m1
          else m1)
  ]
