-- ===== src/Partial/Tests.antt =====
-- A run of the job on a long position, and the theorems at inputs that meet their hypotheses.
use tv_zerodha_bot.Prelude.{
  ℕ, ◌+◌, ◌<◌, ◌≡◌, refl, true, false, none, some, [], ◌∷◌, string_eq, nat_eq, arith,
}
use tv_zerodha_bot.Prelude.Int.{pos, ◌-ℤ◌}
use tv_zerodha_bot.Numbers.{round_to_tick}
use tv_zerodha_bot.Trailing.Tick.{band_holds}
use tv_zerodha_bot.Paper.Exits.{paper_pnl}
use tv_zerodha_bot.Numbers.Fixed.{fixed}
use tv_zerodha_bot.Orders.Broker.{gtt_id, buy, Broker, Instrument, ok}
use tv_zerodha_bot.Storage.{Order, Gtt, Position}
use tv_zerodha_bot.Paper.Monitor.{Database, Quotes, underlying_of}
use tv_zerodha_bot.Partial.Slice.{qty_to_book}
use tv_zerodha_bot.Partial.Rows.{BookingSettings, Row, band_of, slice_of, remaining_of, bookable}
use tv_zerodha_bot.Partial.Booking.{Desk, book_partial}
use tv_zerodha_bot.Partial.Job.{partial_booking_job}
use tv_zerodha_bot.Partial.Bounds.{IsUnbooked, one_lot_never_booked}
use tv_zerodha_bot.Partial.Ordering.{Run, Outcome, book_partial-Sent}
use tv_zerodha_bot.Partial.Once.{IsConserved, partial_booking_job_lem}

-- A broker that answers every call, and counts the orders.
abbrev demo : Broker fixed
demo = record {
  World = ℕ;
  monotonic = λ w. 0;
  sleep = λ t w. w;
  uniform = λ w. (0, w);
  place_order = λ p w. (ok "A1", w + 1);
  positions = λ w. (ok [], w);
  place_gtt = λ p w. (ok (gtt_id 7), w);
  modify_gtt = λ id p w. (ok id, w);
  delete_gtt = λ id w. (ok tt, w);
}

abbrev desk : Desk demo
desk = record {
  process = record { world = 0; recent_squareoffs = []; last_quote_ts = 0 };
  manager = none;
  positions = [];
  gtts = [];
}

abbrev settings : BookingSettings fixed
settings = record {
  partial_booking_enabled = true;
  paper_mode = false;
  trailing_enabled = true;
  sl_pct = pos 3000;
  partial_book_trigger_pct = pos 6000;
  partial_book_qty_pct = pos 5000;
  move_sl_to_breakeven = true;
  oco_slippage_buffer_pct = pos 100;
  paper = record {
    mcx_lot_units = ("NATURALGAS", 1250) ∷ [];
    straddle_squareoff_time = record { hour = 15; minute = 15 };
    mcx_squareoff_time = record { hour = 23; minute = 15 };
    nse_squareoff_time = record { hour = 15; minute = 15 };
  };
}

abbrev order : Order fixed
order = record {
  id = 1;
  alert_id = none;
  kite_order_id = some "A0";
  variety = "regular";
  exchange = "MCX";
  tradingsymbol = "CE";
  transaction_type = some buy;
  order_type = "MARKET";
  product = "NRML";
  quantity = 5;
  price = none;
  trigger_price = none;
  market_protection = none;
  status = "COMPLETE";
  fill_price = none;
  fill_qty = none;
  placed_at = 0;
  updated_at = 0;
  dry_run = false;
  raw_response = none;
  straddle_id = none;
}

abbrev held : ℕ → ℕ → Position fixed
held id quantity = record {
  id = id;
  order_id = id;
  gtt_id = some 1;
  exchange = "MCX";
  tradingsymbol = "CE";
  underlying = "NATURALGAS";
  instrument_type = "CE";
  entry_premium = pos 100000;
  current_sl = pos 70000;
  breakeven_moved = false;
  trail_active = false;
  quantity = quantity;
  lot_size = 1;
  opened_at = 0;
  last_updated_at = 0;
  max_favorable_price = none;
  max_adverse_price = none;
  partial_booked_qty = 0;
  partial_booked_pnl = none;
  partial_booked_at = none;
}

abbrev bracket : Gtt fixed
bracket = record {
  id = 1;
  order_id = 1;
  kite_gtt_id = some 7;
  gtt_type = "two-leg";
  exchange = "MCX";
  tradingsymbol = "CE";
  sl_trigger = pos 70000;
  target_trigger = pos 200000;
  sl_order_price = pos 69300;
  target_order_price = pos 198000;
  last_price_at_placement = pos 100000;
  status = "ACTIVE";
  placed_at = 0;
  updated_at = 0;
  modification_count = 0;
  dry_run = false;
}

abbrev lots_of : ℕ → Instrument fixed
lots_of lot_size = record {
  instrument_token = 1;
  exchange = "MCX";
  tradingsymbol = "CE";
  lot_size = lot_size;
  tick_size = pos 500;
}

abbrev row : ℕ → Row fixed
row lot_size = record {
  position = held 1 5;
  order = order;
  gtt = bracket;
  instrument = lots_of lot_size;
}

abbrev db : Database fixed
db = record {
  orders = order ∷ [];
  gtts = bracket ∷ [];
  positions = held 2 3 ∷ held 1 5 ∷ [];
  closed_trades = [];
  alerts = [];
}

abbrev quotes : Quotes fixed
quotes key = some (pos 170000)

abbrev on_paper : BookingSettings fixed
on_paper = record settings { paper_mode = true }

-- Two of the five are closed, and three are left with the stop at the entry.
paper_run :
    let (b, d') = book_partial on_paper (row 1) (pos 170000) 9 true desk in
    (b ≡ true)
    × (d'.positions
        ≡ (
          1,
          record (held 1 5) {
            quantity = 3;
            partial_booked_qty = 2;
            partial_booked_pnl = some (pos 175000000);
            partial_booked_at = some 9;
            current_sl = pos 100000;
            last_updated_at = 9;
          },
        )
          ∷ [])
unfolding book_partial qty_to_book band_of round_to_tick band_holds paper_pnl underlying_of ◌-ℤ◌
paper_run = (refl, refl)

can_book : bookable settings (row 1) (band_of settings (row 1) (pos 170000)) ≡ true
unfolding bookable qty_to_book band_holds band_of round_to_tick
can_book = refl

one_lot_never_booked_example :
    IsUnbooked desk (book_partial settings (row 5) (pos 170000) 9 true desk)
one_lot_never_booked_example =
    one_lot_never_booked settings (row 5) (pos 170000) 9 true desk refl (omega arith)

book_partial-Sent_example :
    let (b, d') = book_partial settings (row 1) (pos 170000) 9 true desk in
    let band = band_of settings (row 1) (pos 170000) in
    Run settings (row 1) band 7 desk.process b d'.process
    × Outcome settings (row 1) band 9 desk (b, d')
    × (remaining_of settings (row 1) + slice_of settings (row 1) ≡ 5)
    × (0 < slice_of settings (row 1))
    × (0 < remaining_of settings (row 1))
book_partial-Sent_example =
    book_partial-Sent settings (row 1) (pos 170000) 9 true 7 desk refl refl can_book

partial_booking_job_lem_example :
    IsConserved
      (held 1 5)
      (partial_booking_job settings (lots_of 1 ∷ []) (some quotes) 9 true db desk).0.positions
partial_booking_job_lem_example =
    partial_booking_job_lem settings (lots_of 1 ∷ []) (some quotes) 9 true db desk (held 2 3 ∷ [])
      [] (held 1 5) refl refl refl (omega arith)
