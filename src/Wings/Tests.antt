-- ===== src/Wings/Tests.antt =====
-- Wings whose put is answered too late, and the theorem at these inputs.
use tv_zerodha_bot.Prelude.{ℕ, ◌+◌, String, Option, true, false, some, []}
use tv_zerodha_bot.Prelude.Int.{pos}
use tv_zerodha_bot.Numbers.Fixed.{fixed}
use tv_zerodha_bot.Orders.Broker.{Action, gtt_id, Broker, Instrument, Process, ok}
use tv_zerodha_bot.Wings.Place.{Plan, WingSettings, Pool}

-- A broker that answers every call.
abbrev demo : Broker fixed
demo = record {
  World = ℕ;
  monotonic = λ w. w;
  sleep = λ t w. w + t;
  uniform = λ w. (0, w);
  place_order = λ p w. (ok "A1", w);
  positions = λ w. (ok [], w);
  place_gtt = λ p w. (ok (gtt_id 7), w);
  modify_gtt = λ id p w. (ok id, w);
  delete_gtt = λ id w. (ok tt, w);
}

-- One after the other, the second of them too late.
abbrev pool : Pool {n = fixed} demo
pool first second s =
    let (a, s1) = first s in
    let (b, s2) = second s1 in
    ((record { answer = a; in_time = true }, record { answer = b; in_time = false }), s2)

abbrev strike : ℕ → String → Instrument fixed
strike token symbol = record {
  instrument_token = token;
  exchange = "NFO";
  tradingsymbol = symbol;
  lot_size = 75;
  tick_size = pos 500;
}

abbrev plan : Plan fixed
plan = record {
  ce = strike 1 "CE";
  pe = strike 2 "PE";
  quantity = 75;
  cost = pos 1000000;
  credit = pos 20000000;
  cost_pct = pos 500;
}

abbrev settings : WingSettings fixed
settings = record { wing_max_cost_pct = pos 2500; wings_required = true }

abbrev start : Process fixed demo
start = record { world = 0; recent_squareoffs = []; last_quote_ts = 0 }

-- The planning takes five nanoseconds.
abbrev planned : Action fixed demo (Option (Plan fixed))
planned s = (ok (some plan), record s { world = s.world + 5 })
