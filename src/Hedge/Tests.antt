-- ===== src/Hedge/Tests.antt =====
-- A hedge whose limit order is filled late, and the theorems at inputs that meet their hypotheses.
use tv_zerodha_bot.Prelude.{
  is_none, ℕ, ◌+◌, ◌*◌, ◌≡◌, String, true, false, none, some, [], ◌∷◌, arith, second, ltb,
  if◌then◌else◌, refl, ◌≤◌,
}
use tv_zerodha_bot.Prelude.Int.{ℤ, pos}
use tv_zerodha_bot.Numbers.Fixed.{fixed, fixed-IsOrdered}
use tv_zerodha_bot.Orders.Broker.{gtt_id, buy, Broker, Instrument, Process, ok}
use tv_zerodha_bot.Hedge.Escalate.{HedgeClient, limit_then_market}
use tv_zerodha_bot.Hedge.Honest.{IsHonest, limit_then_market-Honest}
use tv_zerodha_bot.State.{State, initial_globals}
use tv_zerodha_bot.Hedge.Tunables.{Tunable, int_kind, effective_of, IsWithin, effective_of-IsWithin}
use tv_zerodha_bot.Hedge.Band.{
  HedgeSpec, BandSettings, expanding, compute_band, lots_for, hedge_bounded,
}
use tv_zerodha_bot.Hedge.Waits.{Clock, limit_then_market_ends}

-- A broker whose world is its clock.
abbrev demo : Broker fixed
demo = record {
  World = ℕ;
  monotonic = λ w. w;
  sleep = λ t w. w + t;
  uniform = λ w. (0, w);
  place_order = λ p w. (ok "A1", w);
  positions = λ w. (ok [], w);
  place_gtt = λ p w. (ok (gtt_id 7), w);
  modify_gtt = λ id p w. (ok id, w);
  delete_gtt = λ id w. (ok tt, w);
}

-- The order is complete from the third second on.
abbrev client : HedgeClient fixed demo
client = record {
  quote = λ e t w. (
    ok (record { buy_price = some (pos 20000); sell_price = some (pos 20500); last_price = none }),
    w,
  );
  order_history = λ oid w.
      (ok (some "OPEN" ∷ (if ltb w (3 * second) then some "OPEN" else some "complete") ∷ []), w);
  cancel_order = λ oid w. (ok tt, w);
}

abbrev start : Process fixed demo
start = record { world = 0; recent_squareoffs = []; last_quote_ts = 0 }

abbrev future : Instrument fixed
future = record {
  instrument_token = 1;
  exchange = "MCX";
  tradingsymbol = "NG";
  lot_size = 1;
  tick_size = pos 500;
}

demo-Clock : Clock demo client
demo-Clock = record {
  sleep_grows = λ t w. omega arith;
  uniform_kept = λ w. omega arith;
  history_kept = λ oid w. omega arith;
}

limit_then_market-Honest_example :
    IsHonest client future buy 1 (limit_then_market 4 (6 * second) client future buy 1 start).0
limit_then_market-Honest_example = limit_then_market-Honest client future buy 1 4 (6 * second) start

limit_then_market_ends_example :
    is_none (limit_then_market 4 (6 * second) client future buy 1 start).0 ≡ false
limit_then_market_ends_example =
    limit_then_market_ends client demo-Clock future buy 1 3 (6 * second) start (omega arith)

abbrev cooldown : Tunable fixed
cooldown = record {
  key = "cooldown_min";
  env_attr = "NG_HEDGE_COOLDOWN_MIN";
  kind = int_kind;
  lo = pos 0;
  hi = pos 2400000;
}

abbrev defaults : String → ℤ
defaults name = pos 9900000

abbrev saved : State fixed
saved = record { globals = initial_globals; file = none; writable = true; opens = true }

effective_of-IsWithin_example : IsWithin cooldown (effective_of defaults "ng" saved cooldown)
effective_of-IsWithin_example =
    effective_of-IsWithin fixed-IsOrdered defaults "ng" saved cooldown refl

abbrev ng_spec : HedgeSpec fixed
ng_spec = record {
  band_base = pos 3500000;
  band_notional_inr = pos 1000000000;
  vol_factor = pos 10000;
  band_min = pos 2500000;
  band_max = pos 20000000;
  ref_lots = 5;
  interval_min = 2;
  phase_min = 1;
}

abbrev ratios : BandSettings fixed
ratios = record {
  band_exponent = pos 10000;
  adverse_mult = pos 7500;
  favourable_mult = pos 15000;
  escalation_pct = pos 1000;
  band_ref_lots = 5;
  settings_band_min = pos 1500000;
  settings_band_max = pos 6000000;
}

abbrev first_of : ℤ → ℤ → ℤ
first_of a b = a

abbrev whole_part : ℤ → ℤ
whole_part x = fixed.trunc x

hedge_bounded_example :
    let band =
      compute_band first_of whole_part (pos 3500000) 15 expanding 2 ratios (some ng_spec) in
    let lots = lots_for fixed whole_part (pos 20000000) (pos 5000) 1250 3 in
    (fixed.le (pos 2500000) band ≡ true)
    × (fixed.le band (pos 20000000) ≡ true)
    × (1 ≤ lots)
    × (lots ≤ 3)
hedge_bounded_example =
    hedge_bounded first_of whole_part fixed-IsOrdered (pos 3500000) (pos 20000000) (pos 5000) 15 2
      1250 3 expanding ratios (some ng_spec) refl (omega arith)
