-- ===== src/Partial/Booking.antt =====
-- `book_partial` (app/partial_booking.py): part of one position is closed, and its GTT is put on the
-- remainder. The requests to the broker are those of app/orders.py.
use tv_zerodha_bot.Prelude.{ℕ, String, Bool, true, false, Option, none, some, nat_eq, if◌then◌else◌}
use tv_zerodha_bot.Prelude.Dict.{Dict, insert}
use tv_zerodha_bot.Numbers.{Numbers}
use tv_zerodha_bot.Orders.Broker.{opposite, Broker, Process, Action, Result, ok, err, monotonic}
use tv_zerodha_bot.Orders.Entry.{place_entry}
use tv_zerodha_bot.Orders.Gtt.{modify_gtt}
use tv_zerodha_bot.Storage.{Instant, Gtt, Position}
use tv_zerodha_bot.Trailing.Manager.{Manager}
use tv_zerodha_bot.Partial.Rows.{
  BookingSettings, Row, Band, side_of, slice_of, remaining_of, band_of, bookable, booked_position,
  booked_gtt, retrail,
}

module _ {n : Numbers} (k : Broker n) where
  -- What a run works on: the process, the trailing manager if there is one, and the rows that the
  -- session has changed, by their ids.
  pub record Desk : Type 0 where
    pub process : Process n k
    pub manager : Option (Manager n)
    pub positions : Dict ℕ (Position n)
    pub gtts : Dict ℕ (Gtt n)

module _ {n : Numbers} {k : Broker n} where
  open n use {Float}

  -- The three requests to the broker.
  unfoldable pub resize_gtt :
      BookingSettings n → Row n → Band n → (gtt_id : ℕ) → Action n k (Option ℕ)
  unfolding remaining_of side_of
  resize_gtt settings row band gtt_id =
      modify_gtt gtt_id band.new_sl band.sl_limit row.gtt.target_trigger band.tgt_limit band.ltp
        row.instrument (remaining_of settings row) row.order.product (side_of row)

  unfoldable pub reducing_order : BookingSettings n → Row n → Action n k (Option String)
  unfolding slice_of side_of
  reducing_order settings row =
      place_entry row.instrument (opposite (side_of row)) (slice_of settings row) "MARKET"
        row.order.product none none "regular"

  unfoldable pub restore_gtt : Row n → (ltp : Float) → (gtt_id : ℕ) → Action n k (Option ℕ)
  unfolding side_of
  restore_gtt row ltp gtt_id =
      modify_gtt gtt_id row.gtt.sl_trigger row.gtt.sl_order_price row.gtt.target_trigger
        row.gtt.target_order_price ltp row.instrument row.position.quantity row.order.product
        (side_of row)

  -- A failed order, after the GTT `resized`: its full size is asked for again, and a failure of that
  -- is only logged.
  unfoldable pub after_order :
      Row n
      → (ltp : Float) → (resized : Option ℕ) → Result (Option String) × Process n k
      → Bool × Process n k
  unfolding restore_gtt
  after_order row ltp resized (ok order_id, s) = (true, s)
  after_order row ltp none (err exc, s) = (false, s)
  after_order row ltp (some gtt_id) (err exc, s) = (false, (restore_gtt row ltp gtt_id s).1)

  unfoldable pub reduce :
      BookingSettings n → Row n → Band n → (resized : Option ℕ) → Process n k → Bool × Process n k
  unfolding after_order reducing_order
  reduce settings row band resized s =
      after_order row band.ltp resized (reducing_order settings row s)

  -- A failed resize ends it.
  unfoldable pub after_resize :
      BookingSettings n
      → Row n
      → Band n
      → (gtt_id : ℕ) → Result (Option ℕ) × Process n k
      → Bool × Process n k
  unfolding reduce
  after_resize settings row band gtt_id (ok answer, s) = reduce settings row band (some gtt_id) s
  after_resize settings row band gtt_id (err exc, s) = (false, s)

  -- The requests of a live booking, and whether they were answered.
  unfoldable pub send :
      BookingSettings n → Row n → Band n → Option ℕ → Process n k → Bool × Process n k
  unfolding after_resize resize_gtt
  send settings row band none s = reduce settings row band none s
  send settings row band (some gtt_id) s =
      after_resize settings row band gtt_id (resize_gtt settings row band gtt_id s)

  unfoldable pub requests : BookingSettings n → Row n → Band n → Process n k → Bool × Process n k
  unfolding send
  requests settings row band s =
      if settings.paper_mode then (true, s) else send settings row band row.gtt.kite_gtt_id s

  -- The writes of a booking that was answered.
  unfoldable pub write :
      BookingSettings n → Row n → Band n → (now : Instant) → (available : Bool) → Desk k → Desk k
  unfolding booked_position booked_gtt retrail
  write settings row band now available d = record d {
    positions = insert row.position.id (booked_position settings row band now) d.positions;
    gtts = insert row.gtt.id (booked_gtt row band now) d.gtts;
    manager =
        if settings.paper_mode
        then d.manager
        else retrail settings row band (monotonic d.process) available d.manager;
  }

  unfoldable pub after_requests :
      BookingSettings n
      → Row n
      → Band n
      → (now : Instant) → (available : Bool) → Desk k
      → Bool × Process n k
      → Bool × Desk k
  unfolding write
  after_requests settings row band now available d (true, s) =
      (true, write settings row band now available (record d { process = s }))
  after_requests settings row band now available d (false, s) = (false, record d { process = s })

  -- `available` tells whether the database answers the trailing manager.
  unfoldable pub book_partial :
      BookingSettings n
      → Row n
      → (ltp : Float) → (now : Instant) → (available : Bool) → Desk k
      → Bool × Desk k
  unfolding bookable requests after_requests
  book_partial settings row ltp now available d =
      let band = band_of settings row ltp in
      if bookable settings row band
      then after_requests settings row band now available d (requests settings row band d.process)
      else (false, d)
