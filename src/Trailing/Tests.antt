-- ===== src/Trailing/Tests.antt =====
-- Runs of a trailing stop, and the theorems at inputs that meet their hypotheses.
use tv_zerodha_bot.Prelude.{
  arith, ℕ, ◌+◌, nat_eq, ◌*◌, ◌≡◌, refl, true, false, none, some, List, [], ◌∷◌, second,
}
use tv_zerodha_bot.Prelude.Int.{ℤ, pos, ◌+ℤ◌, ◌-ℤ◌}
use tv_zerodha_bot.Prelude.Dict.{lookup}
use tv_zerodha_bot.Numbers.Fixed.{fixed, fixed-IsOrdered}
use tv_zerodha_bot.Orders.Broker.{gtt_id, buy, Broker, ok}
use tv_zerodha_bot.Storage.{Gtt}
use tv_zerodha_bot.Trailing.Update.{Meets, Store, do_update}
use tv_zerodha_bot.Paper.Monitor.{find_gtt}
use tv_zerodha_bot.Trailing.Settled.{IsSettled, do_update-Settled}
use tv_zerodha_bot.Trailing.Tick.{
  TrailPos, Update, track_worst, no_better, better, trailed_sl, band_holds, round_to_tick,
  move_stop, evaluate,
}
use tv_zerodha_bot.Trailing.Ratchet.{evaluate_ratchet}
use tv_zerodha_bot.Trailing.Sessions.{updates, Spaced, Improves, updates_lem, updates_lost}
use tv_zerodha_bot.Trailing.Manager.{
  Manager, TickData, on_ticks, ticks_of, after_ticks, lookup-on_ticks,
}

-- A long position at 100.00, stop 85.00, target 200.00, trailed by 15 percent in steps of 0.05.
abbrev long : TrailPos fixed
long = record {
  tradingsymbol = "NG";
  instrument_token = 7;
  exchange = "MCX";
  entry_side = buy;
  sl_pct = pos 1500;
  qty = 1;
  product = "NRML";
  target_price = pos 2000000;
  current_sl = pos 850000;
  best_price = pos 1000000;
  gtt_db_id = 3;
  kite_gtt_id = some 9;
  tick_size = pos 500;
  last_update = 0;
  worst_price = pos 1000000;
  excursions_dirty = false;
  ref = 0;
}

-- At 110.00 the stop moves to 93.50, and not again ten seconds later.
evaluate_run :
    (evaluate (40 * second) (pos 1100000) long).1
    ≡ some (record {
      old_sl = pos 850000;
      new_sl = pos 935000;
      kite_gtt_id = some 9;
      ltp = pos 1100000;
    })
unfolding evaluate track_worst no_better move_stop trailed_sl better band_holds round_to_tick ◌-ℤ◌
    ◌+ℤ◌
evaluate_run = refl

evaluate_throttled :
    (evaluate (50 * second) (pos 1200000) (evaluate (40 * second) (pos 1100000) long).0).1 ≡ none
unfolding evaluate track_worst no_better move_stop trailed_sl better band_holds round_to_tick ◌-ℤ◌
    ◌+ℤ◌
evaluate_throttled = refl

evaluate_ratchet_example :
    let (p', u) = evaluate (40 * second) (pos 1100000) long in
    (no_better fixed buy (pos 850000) p'.current_sl ≡ true)
    × (no_better fixed buy (pos 1000000) p'.best_price ≡ true)
    × (no_better fixed buy p'.worst_price (pos 1000000) ≡ true)
evaluate_ratchet_example = evaluate_ratchet fixed-IsOrdered (40 * second) (pos 1100000) long

abbrev ticks : List (ℕ × ℤ)
ticks = (40 * second, pos 1100000) ∷ (50 * second, pos 1200000) ∷ (80 * second, pos 1250000) ∷ []

updates_lem_example :
    Spaced 0 (updates ticks long) × Improves buy (pos 2000000) (pos 850000) (updates ticks long)
updates_lem_example = updates_lem ticks long

-- A tick at 120.00, ten seconds after an update: its stop is not sent at 120.00 later on either.
abbrev updated : TrailPos fixed
updated = record long { best_price = pos 1100000; last_update = 40 * second }

updates_lost_example :
    updates
      ((50 * second, pos 1200000) ∷ (90 * second, pos 1200000) ∷ (150 * second, pos 1190000) ∷ [])
      updated
    ≡ []
unfolding no_better
updates_lost_example =
    updates_lost (50 * second) (pos 1200000)
      ((90 * second, pos 1200000) ∷ (150 * second, pos 1190000) ∷ []) updated refl (omega arith)
      (refl, (refl, tt))

abbrev manager : Manager fixed
manager = record { positions = (7, long) ∷ []; rows = []; next_ref = 1 }

abbrev packet : List (TickData fixed)
packet =
    record { instrument_token = some 7; last_price = some (pos 1100000); now = 40 * second }
    ∷ record { instrument_token = some 8; last_price = some (pos 5); now = 40 * second }
    ∷ []

lookup-on_ticks_example :
    lookup 7 (on_ticks packet manager).0.positions ≡ some (after_ticks (ticks_of 7 packet) long)
lookup-on_ticks_example = lookup-on_ticks 7 packet manager

-- A broker that answers every call.
abbrev demo : Broker fixed
demo = record {
  World = ℕ;
  monotonic = λ w. w;
  sleep = λ t w. w + t;
  uniform = λ w. (0, w);
  place_order = λ p w. (ok "A1", w);
  positions = λ w. (ok [], w);
  place_gtt = λ p w. (ok (gtt_id 7), w);
  modify_gtt = λ id p w. (ok id, w);
  delete_gtt = λ id w. (ok tt, w);
}

abbrev bracket : Gtt fixed
bracket = record {
  id = 3;
  order_id = 1;
  kite_gtt_id = some 9;
  gtt_type = "two-leg";
  exchange = "MCX";
  tradingsymbol = "NG";
  sl_trigger = pos 850000;
  target_trigger = pos 2000000;
  sl_order_price = pos 841500;
  target_order_price = pos 1980000;
  last_price_at_placement = pos 1000000;
  status = "ACTIVE";
  placed_at = 0;
  updated_at = 0;
  modification_count = 0;
  dry_run = false;
}

-- The stop has been moved to 93.50 in the manager, and not yet in the table.
abbrev moved : TrailPos fixed
moved = record long { current_sl = pos 935000; best_price = pos 1100000 }

abbrev store : Store fixed demo
store = record {
  manager = record { positions = (7, moved) ∷ []; rows = []; next_ref = 1 };
  gtts = bracket ∷ [];
  process = record { world = 0; recent_squareoffs = []; last_quote_ts = 0 };
}

abbrev meets : Meets fixed
meets = record {
  fetch_error = none;
  commit_error = none;
  instruments =
      (record {
        instrument_token = 7;
        exchange = "MCX";
        tradingsymbol = "NG";
        lot_size = 1;
        tick_size = pos 500;
      })
      ∷ [];
  oco_slippage_buffer_pct = pos 100;
  now = 5;
  can_mark = true;
  available = true;
}

abbrev moved_update : Update fixed
moved_update = record {
  old_sl = pos 850000;
  new_sl = pos 935000;
  kite_gtt_id = some 9;
  ltp = pos 1100000;
}

bracket_found : find_gtt (some 3) store.gtts ≡ some bracket
unfolding find_gtt
bracket_found = refl

do_update-Settled_example : IsSettled 7 3 (do_update meets moved_update moved store)
do_update-Settled_example =
    do_update-Settled meets moved_update moved store refl
      ((refl, tt), moved, refl, refl, bracket, bracket_found, refl)
