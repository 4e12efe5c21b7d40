-- ===== src/Paper/Tests.antt =====
-- A run of the paper monitor over two legs of a straddle, and the theorems at inputs that meet their
-- hypotheses.
use tv_zerodha_bot.Prelude.{
  ℕ, String, true, false, Option, none, some, [], ◌∷◌, ◌==◌, string_eq, if◌then◌else◌,
}
use tv_zerodha_bot.Prelude.Int.{pos}
use tv_zerodha_bot.Numbers.Fixed.{fixed}
use tv_zerodha_bot.Orders.Broker.{sell}
use tv_zerodha_bot.Storage.{Order, Gtt, Position}
use tv_zerodha_bot.Paper.Exits.{Settings}
use tv_zerodha_bot.Paper.Monitor.{Database, Now, Quotes, run_monitor}
use tv_zerodha_bot.Paper.Once.{IsSound, run_monitor-IsSound}

abbrev settings : Settings
settings = record {
  mcx_lot_units = ("NATURALGAS", 1250) ∷ [];
  straddle_squareoff_time = record { hour = 15; minute = 15 };
  mcx_squareoff_time = record { hour = 23; minute = 15 };
  nse_squareoff_time = record { hour = 15; minute = 15 };
}

abbrev now : Now fixed
now = record { at = 100; clock = record { hour = 21; minute = 0 } }

abbrev leg_order : ℕ → String → Order fixed
leg_order id symbol = record {
  id = id;
  alert_id = none;
  kite_order_id = some "PAPER-1";
  variety = "regular";
  exchange = "MCX";
  tradingsymbol = symbol;
  transaction_type = some sell;
  order_type = "MARKET";
  product = "NRML";
  quantity = 1;
  price = none;
  trigger_price = none;
  market_protection = none;
  status = "COMPLETE";
  fill_price = none;
  fill_qty = none;
  placed_at = 0;
  updated_at = 0;
  dry_run = true;
  raw_response = none;
  straddle_id = some "S1";
}

abbrev leg : ℕ → Option ℕ → String → Position fixed
leg id gtt_id symbol = record {
  id = id;
  order_id = id;
  gtt_id = gtt_id;
  exchange = "MCX";
  tradingsymbol = symbol;
  underlying = "NATURALGAS";
  instrument_type = "CE";
  entry_premium = pos 100000;
  current_sl = pos 130000;
  breakeven_moved = false;
  trail_active = false;
  quantity = 1;
  lot_size = 1;
  opened_at = 0;
  last_updated_at = 0;
  max_favorable_price = none;
  max_adverse_price = none;
  partial_booked_qty = 0;
  partial_booked_pnl = none;
  partial_booked_at = none;
}

abbrev bracket : Gtt fixed
bracket = record {
  id = 1;
  order_id = 1;
  kite_gtt_id = none;
  gtt_type = "two-leg";
  exchange = "MCX";
  tradingsymbol = "CE";
  sl_trigger = pos 130000;
  target_trigger = pos 50000;
  sl_order_price = pos 130000;
  target_order_price = pos 50000;
  last_price_at_placement = pos 100000;
  status = "ACTIVE";
  placed_at = 0;
  updated_at = 0;
  modification_count = 0;
  dry_run = true;
}

abbrev pub db : Database fixed
db = record {
  orders = leg_order 1 "CE" ∷ leg_order 2 "PE" ∷ [];
  gtts = bracket ∷ [];
  positions = leg 1 (some 1) "CE" ∷ leg 2 none "PE" ∷ [];
  closed_trades = [];
  alerts = [];
}

-- The call is beyond its stop at 13.00; the put has lost half its premium.
abbrev quotes : Quotes fixed
quotes key =
    if key == "MCX:CE"
    then some (pos 140000)
    else if key == "MCX:PE"
    then some (pos 60000)
    else none

run_monitor-IsSound_example : IsSound [] (run_monitor settings now quotes db)
run_monitor-IsSound_example = run_monitor-IsSound settings now quotes db tt
