-- ===== src/Orders/Tests.antt =====
-- Runs of the order layer against a small broker, and the theorems at inputs that meet their
-- hypotheses.
use tv_zerodha_bot.Prelude.{
  ℕ, ◌+◌, ◌*◌, ◌/◌, ◌%◌, ◌≤◌, String, ◌≡◌, refl, ◌≢◌, ◌⊎◌, true, false, Option, none, some, [], ◌∷◌,
  arith, second, if◌then◌else◌, ◌==◌, nat_eq,
}
use tv_zerodha_bot.Prelude.Int.{pos, negsuc, ◌≤ℤ◌}
use tv_zerodha_bot.Numbers.Fixed.{fixed, scale}
use tv_zerodha_bot.Orders.Broker.{
  OrderParams, OcoParams, gtt_dict, buy, sell, Broker, Ticks, Instrument, Process, Action, Result,
  ok, err, Exception, network_exception, call, monotonic,
}
use tv_zerodha_bot.Orders.Backoff.{
  backoff_call, backoff_call_with, attempts, next_attempt, default_max_retries, default_base_delay,
  default_cap_delay,
}
use tv_zerodha_bot.Orders.Retries.{Attempts, calls, found, backoff_call-Attempts}
use tv_zerodha_bot.Orders.Throttle.{throttled_quote_call, throttled_quote_call-IsSpaced, IsSpaced}
use tv_zerodha_bot.Orders.Entry.{place_entry, entry_params, IsEntryOrder, place_entry_ok}
use tv_zerodha_bot.Orders.Gtt.{oco_params, compute_oco_limits, trigger_id_of, place_gtt_oco}
use tv_zerodha_bot.Orders.Gtt.Sent.{IsBracket, IsPlaced, place_gtt_oco_lem}
use tv_zerodha_bot.Orders.Gtt.Brackets.{fired, Closes, oco_params_lem, compute_oco_limits_lem}
use tv_zerodha_bot.Orders.SquareOff.{
  square_off, closed_recently, is_position_open, exit_params, after_exit,
}
use tv_zerodha_bot.Orders.SquareOff.Once.{IsExitOrder, square_off_once, square_off_order}

-- A broker whose world is a clock and the number of orders it has been asked for. It fails on the
-- first order for a network error, and holds a short position of two.
abbrev World : Type 0
World = ℕ × ℕ

abbrev timeout : Exception
timeout = record { class = network_exception; code = none; message = "timed out" }

abbrev demo : Broker fixed
demo = record {
  World = World;
  monotonic = λ w. w.0;
  sleep = λ t w. (w.0 + t, w.1);
  uniform = λ w. (50000000, w);
  place_order = λ p w. (if w.1 == 0 then err timeout else ok "A1", (w.0 + 1, w.1 + 1));
  positions =
      λ w. (ok (record { tradingsymbol = "NG"; exchange = "MCX"; quantity = negsuc 1 } ∷ []), w);
  place_gtt = λ p w. (ok (gtt_dict (some 7)), w);
  modify_gtt = λ id p w. (ok id, w);
  delete_gtt = λ id w. (ok tt, w);
}

demo-Ticks : Ticks fixed demo
demo-Ticks = record { sleep_grows = λ t w. omega arith }

abbrev start : Process fixed demo
start = record { world = (100 * second, 0); recent_squareoffs = []; last_quote_ts = 99 * second }

abbrev ng : Instrument fixed
ng = record {
  instrument_token = 1;
  exchange = "MCX";
  tradingsymbol = "NG";
  lot_size = 2;
  tick_size = pos 500;
}

-- One failure, one sleep of a second and the jitter, then the answer.
place_entry_run :
    place_entry {k = demo} ng sell 4 "LIMIT" "NRML" (some (pos 123300)) none "regular" start
    ≡ (ok (some "A1"), record start { world = (101 * second + 50000002, 2) })
unfolding place_entry entry_params backoff_call backoff_call_with attempts next_attempt
place_entry_run = refl

on_tick_run :
    (entry_params ng sell 4 "LIMIT" "NRML" (some (pos 123300)) none "regular").price
    ≡ some (pos 123500)
unfolding entry_params
on_tick_run = refl

abbrev order : Action fixed demo String
order =
    call {k = demo} (demo.place_order (entry_params ng sell 4 "MARKET" "NRML" none none "regular"))

backoff_call-Attempts_example :
    let (r, t) = backoff_call_with 3 second (8 * second) order start in
    (answer : Result String) × (run : Attempts 3 second (8 * second) order 0 start answer t) × (r
      ≡ found answer)
    × (calls run ≤ 3 + 1)
backoff_call-Attempts_example = backoff_call-Attempts 3 second (8 * second) order start

throttled_quote_call-IsSpaced_example :
    let first = (throttled_quote_call order start).1 in
    IsSpaced (monotonic first) order (throttled_quote_call order first)
unfolding throttled_quote_call
throttled_quote_call-IsSpaced_example =
    throttled_quote_call-IsSpaced demo-Ticks order order start (throttled_quote_call order start).1
      refl (omega arith)

place_entry_ok_example :
    (ng.lot_size ≢ 0)
    × (4 % ng.lot_size ≡ 0)
    × (params : OrderParams fixed) × IsEntryOrder ng sell 4 "LIMIT" "NRML"
        (some (pos 123300))
        none
        "regular"
        params
    × (id : String) × (◌≡◌ {A = Option String} (some "A1") (some id))
    × (t : Process fixed demo) × (run : Attempts default_max_retries default_base_delay
        default_cap_delay
        (call {k = demo} (demo.place_order params))
        0
        start
        (ok id)
        t)
    × (calls run ≤ 4)
unfolding place_entry entry_params backoff_call backoff_call_with attempts next_attempt
place_entry_ok_example =
    place_entry_ok ng sell 4 "LIMIT" "NRML" (some (pos 123300)) none "regular" start (some "A1")
      refl

oco_params_lem_example :
    let p = oco_params (pos 50) (pos 51) (pos 20) (pos 21) (pos 30) ng 2 "NRML" sell in
    (fixed.le p.trigger_values.0 p.trigger_values.1 ≡ true)
    × ((fired p ≡ ((pos 50, pos 51), (pos 20, pos 21)))
        ⊎ (fired p ≡ ((pos 20, pos 21), (pos 50, pos 51))))
    × Closes sell 2 p.orders.0
    × Closes sell 2 p.orders.1
oco_params_lem_example =
    oco_params_lem (pos 50) (pos 51) (pos 20) (pos 21) (pos 30) ng 2 "NRML" sell refl

compute_oco_limits_lem_example :
    let (sl_limit, target_limit) =
      compute_oco_limits fixed (pos 100000) (pos 40000) sell (pos 500) in
    (sl_limit ≡ pos (100000 * 10500 / scale))
    × (target_limit ≡ pos (40000 * 10500 / scale))
    × ((pos 100000 ≤ℤ sl_limit) × (pos 40000 ≤ℤ target_limit))
compute_oco_limits_lem_example = compute_oco_limits_lem 100000 40000 500 sell (omega arith)

abbrev closing : Action fixed demo (Option String)
closing = square_off ng 2 "NRML" sell "regular" none

square_off_run : closing start ≡ (
  ok (some "A1"),
  record start {
    world = (101 * second + 50000002, 2);
    recent_squareoffs = ("NG", 100 * second) ∷ [];
  },
)
unfolding square_off is_position_open closed_recently exit_params after_exit backoff_call
    backoff_call_with attempts
square_off_run = refl

square_off_once_example :
    square_off ng 4 "MIS" buy "regular" none (closing start).1 ≡ (ok none, (closing start).1)
unfolding square_off is_position_open closed_recently exit_params after_exit backoff_call
    backoff_call_with attempts
square_off_once_example =
    square_off_once ng 2 "NRML" sell "regular" none start ng 4 "MIS" buy "regular" none
      (closing start).1 refl refl refl refl (omega arith)

square_off_order_example :
    let (r, s') = is_position_open {k = demo} "NG" "MCX" start in
    (closed_recently "NG" (monotonic start) start ≡ false)
    × (r.0 ≡ true)
    × (params : OrderParams fixed) × IsExitOrder ng 2 "NRML" sell "regular" none params
    × (t : Process fixed demo) × (run : Attempts default_max_retries default_base_delay
        default_cap_delay
        (call {k = demo} (demo.place_order params))
        0
        s'
        (ok "A1")
        t)
    × (calls run ≤ 4)
unfolding square_off is_position_open closed_recently exit_params after_exit backoff_call
    backoff_call_with attempts
square_off_order_example = square_off_order ng 2 "NRML" sell "regular" none start refl

place_gtt_oco_lem_example :
    (p : OcoParams fixed) × IsBracket ng 2
      (pos 50)
      (pos 51)
      (pos 20)
      (pos 21)
      (pos 30)
      "NRML"
      sell
      p
    × IsPlaced p start (
        place_gtt_oco {k = demo} ng 2
          (pos 50)
          (pos 51)
          (pos 20)
          (pos 21)
          (pos 30)
          "NRML"
          sell
          start)
place_gtt_oco_lem_example =
    place_gtt_oco_lem {k = demo} ng 2 (pos 50) (pos 51) (pos 20) (pos 21) (pos 30) "NRML" sell start

-- The client's answer is a dict.
place_gtt_oco_run :
    (place_gtt_oco {k = demo} ng 2 (pos 50) (pos 51) (pos 20) (pos 21) (pos 30) "NRML" sell start).0
    ≡ ok 7
unfolding place_gtt_oco trigger_id_of backoff_call backoff_call_with attempts next_attempt
place_gtt_oco_run = refl
