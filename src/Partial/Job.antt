-- ===== src/Partial/Job.antt =====
-- `partial_booking_job` (app/partial_booking.py): one run over the open positions. The session's
-- rows are those of app/storage.py; a table whose rows are read only is passed in.
use tv_zerodha_bot.Prelude.{
  Bool, true, false, not, ◌&&◌, ◌||◌, Option, none, some, or_default, List, [], ◌∷◌, ◌++◌, ltb,
  ◌==◌, nat_eq, string_eq, if◌then◌else◌,
}
use tv_zerodha_bot.Prelude.Dict.{lookup}
use tv_zerodha_bot.Numbers.{Numbers}
use tv_zerodha_bot.Orders.Broker.{Broker, Instrument}
use tv_zerodha_bot.Storage.{Instant, Order, Gtt, Position}
use tv_zerodha_bot.Paper.Monitor.{Database, Quotes, find_order, find_gtt, is_closed, quote}
use tv_zerodha_bot.Partial.Slice.{progress_to_target}
use tv_zerodha_bot.Partial.Rows.{BookingSettings, Row, side_of}
use tv_zerodha_bot.Partial.Booking.{Desk, book_partial}

same_bool : Bool → Bool → Bool
same_bool true b = b
same_bool false b = not b

module _ {n : Numbers} where
  open n use {Float, lt}

  -- The filters of the query.
  unfoldable pub eligible : (paper : Bool) → Position n → Order n → Gtt n → Bool
  unfolding same_bool
  eligible paper position order gtt =
      same_bool paper order.dry_run
      && position.partial_booked_qty == 0
      && ltb 1 position.quantity
      && (gtt.status == "ACTIVE" || gtt.status == "DRY_RUN")

  -- A row for each instrument of the position's symbol and exchange.
  unfoldable pub instrument_rows : Position n → Order n → Gtt n → List (Instrument n) → List (Row n)
  instrument_rows position order gtt [] = []
  instrument_rows position order gtt (i ∷ is) =
      let rest = instrument_rows position order gtt is in
      if i.tradingsymbol == position.tradingsymbol && i.exchange == position.exchange
      then (record { position = position; order = order; gtt = gtt; instrument = i }) ∷ rest
      else rest

  unfoldable pub joined_rows :
      (paper : Bool)
      → Database n
      → List (Instrument n)
      → Position n
      → Option (Order n)
      → Option (Gtt n)
      → List (Row n)
  unfolding eligible instrument_rows
  joined_rows paper db instruments position none gtt = []
  joined_rows paper db instruments position (some order) none = []
  joined_rows paper db instruments position (some order) (some gtt) =
      if not (is_closed position.id db.closed_trades) && eligible paper position order gtt
      then instrument_rows position order gtt instruments
      else []

  unfoldable pub rows_of :
      (paper : Bool) → Database n → List (Instrument n) → Position n → List (Row n)
  unfolding joined_rows
  rows_of paper db instruments p =
      joined_rows paper db instruments p (find_order p.order_id db.orders)
        (find_gtt p.gtt_id db.gtts)

  -- `_eligible_rows`
  unfoldable pub eligible_rows :
      (paper : Bool) → Database n → List (Instrument n) → List (Position n) → List (Row n)
  unfolding rows_of
  eligible_rows paper db instruments [] = []
  eligible_rows paper db instruments (p ∷ ps) =
      rows_of paper db instruments p ++ eligible_rows paper db instruments ps

  -- Has the price run far enough?
  unfoldable pub triggered : BookingSettings n → Row n → (ltp : Float) → Bool
  triggered settings row ltp = not (
      lt (progress_to_target n (side_of row) row.position.entry_premium row.gtt.target_trigger ltp)
        settings.partial_book_trigger_pct)

  module _ {k : Broker n} where
    -- The objects of a row as the session has them now.
    unfoldable pub live : Desk k → Row n → Row n
    live d row = record row {
      position = or_default row.position (lookup row.position.id d.positions);
      gtt = or_default row.gtt (lookup row.gtt.id d.gtts);
    }

    unfoldable pub visit_at :
        BookingSettings n
        → Row n
        → (now : Instant) → (available : Bool) → Option Float
        → Desk k
        → Bool × Desk k
    unfolding triggered
    visit_at settings row now available none d = (false, d)
    visit_at settings row now available (some ltp) d =
        if triggered settings row ltp
        then book_partial settings row ltp now available d
        else (false, d)

    -- One round of the loop.
    unfoldable pub visit :
        BookingSettings n
        → Quotes n
        → (now : Instant) → (available : Bool) → Row n
        → Desk k
        → Bool × Desk k
    unfolding live visit_at
    visit settings quotes now available row d =
        let r = live d row in visit_at settings r now available (quote quotes r.position) d

    -- The loop, with `booked_any`.
    unfoldable pub visit_all :
        BookingSettings n
        → Quotes n
        → (now : Instant) → (available : Bool) → List (Row n)
        → Bool × Desk k
        → Bool × Desk k
    unfolding visit
    visit_all settings quotes now available [] run = run
    visit_all settings quotes now available (row ∷ rows) (booked_any, d) =
        let (booked, d1) = visit settings quotes now available row d in
        visit_all settings quotes now available rows (booked_any || booked, d1)

    -- `session.commit()`: the rows that were changed.
    unfoldable pub commit_positions : Bool → Desk k → List (Position n) → List (Position n)
    commit_positions false d ps = ps
    commit_positions true d [] = []
    commit_positions true d (p ∷ ps) =
        or_default p (lookup p.id d.positions) ∷ commit_positions true d ps

    unfoldable pub commit_gtts : Bool → Desk k → List (Gtt n) → List (Gtt n)
    commit_gtts false d gs = gs
    commit_gtts true d [] = []
    commit_gtts true d (g ∷ gs) = or_default g (lookup g.id d.gtts) ∷ commit_gtts true d gs

    unfoldable pub finish : Database n → Bool × Desk k → Database n × Desk k
    unfolding commit_positions commit_gtts
    finish db (booked_any, d) = (
      record db {
        positions = commit_positions booked_any d db.positions;
        gtts = commit_gtts booked_any d db.gtts;
      },
      d,
    )

    -- `quotes` is none if there is no session with the broker or the prices cannot be fetched. The
    -- desk of a new session has no changed rows.
    unfoldable pub partial_booking_job :
        BookingSettings n
        → List (Instrument n)
        → Option (Quotes n)
        → (now : Instant) → (available : Bool) → Database n
        → Desk k
        → Database n × Desk k
    unfolding finish eligible_rows visit_all
    partial_booking_job settings instruments none now available db d = (db, d)
    partial_booking_job settings instruments (some quotes) now available db d =
        if settings.partial_booking_enabled
        then finish db (
            visit_all settings quotes now available
              (eligible_rows settings.paper_mode db instruments db.positions)
              (false, record d { positions = []; gtts = [] }))
        else (db, d)
