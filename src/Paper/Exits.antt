-- ===== src/Paper/Exits.antt =====
-- Prices, times and reasons of a paper exit (app/paper_trading.py). The settings hold each time as
-- the pair that `_parse_hhmm` reads from its text.
use Prim.Native.String.{◌++◌}
use text.Mathlib.Text.{starts_with}
use tv_zerodha_bot.Prelude.{
  is_none, ℕ, String, Bool, false, not, ◌&&◌, ◌||◌, Option, none, some, ltb, leb, ◌==◌, nat_eq,
  string_eq, if◌then◌else◌, ◌≡◌, arith,
}
use tv_zerodha_bot.Prelude.Int.{pos}
use tv_zerodha_bot.Prelude.Dict.{Dict, lookup}
use tv_zerodha_bot.Numbers.{Numbers, IsOrdered}
use tv_zerodha_bot.Orders.Broker.{Side, buy, sell, is_buy}
use tv_zerodha_bot.Storage.{Position, Gtt}
use tv_zerodha_bot.Trailing.Tick.{band_holds}

abbrev pub paper_order_prefix : String
paper_order_prefix = "PAPER-"

-- `hex` is the part of `uuid4().hex` that is used.
pub new_paper_order_id : (hex : String) → String
new_paper_order_id hex = paper_order_prefix ++ hex

pub is_paper_order_id : Option String → Bool
is_paper_order_id none = false
is_paper_order_id (some order_id) = not (order_id == "") && starts_with order_id paper_order_prefix

-- An hour and a minute.
pub record HourMinute : Type 0 where
  pub hour : ℕ
  pub minute : ℕ

pub record Settings : Type 0 where
  pub mcx_lot_units : Dict String ℕ
  pub straddle_squareoff_time : HourMinute
  pub mcx_squareoff_time : HourMinute
  pub nse_squareoff_time : HourMinute

-- `(now.hour, now.minute) >= (h, m)`
unfoldable pub past : HourMinute → HourMinute → Bool
past now t = if now.hour == t.hour then leb t.minute now.minute else ltb t.hour now.hour

abbrev pub or_one : Option ℕ → ℕ
or_one none = 1
or_one (some u) = u

abbrev pub entry_side_of : Option Side → Side
entry_side_of none = buy
entry_side_of (some side) = side

module _ (n : Numbers) where
  open n use {Float, le, lt, sub, mul, neg, of_int}

  unfoldable pub paper_pnl :
      Side
      → (entry_premium exit_premium : Float) → (qty : ℕ) → (exchange underlying : String) → Settings
      → Float
  paper_pnl entry_side entry_premium exit_premium qty exchange underlying settings =
      let mcx_units =
        if exchange == "MCX" then or_one (lookup underlying settings.mcx_lot_units) else 1 in
      let diff = sub exit_premium entry_premium in
      mul (mul (if is_buy entry_side then diff else neg diff) (of_int (pos qty)))
        (of_int (pos mcx_units))

  -- The simulated OCO: the stop is tested first.
  unfoldable pub band_exit : Side → (sl target ltp : Float) → Option String
  band_exit buy sl target ltp =
      if le ltp sl then some "SL_HIT" else if le target ltp then some "TARGET_HIT" else none
  band_exit sell sl target ltp =
      if le sl ltp then some "SL_HIT" else if le ltp target then some "TARGET_HIT" else none

  -- Both triggers of a GTT row are set, as the table requires.
  unfoldable pub gtt_exit : Side → Option (Gtt n) → (ltp : Float) → Option String
  gtt_exit side none ltp = none
  gtt_exit side (some gtt) ltp = band_exit side gtt.sl_trigger gtt.target_trigger ltp

  starts : Option String → Bool
  starts none = false
  starts (some strategy_id) = starts_with strategy_id "sched_straddle"

  unfoldable pub eod_exit_reason :
      Position n → (strategy_id : Option String) → (now : HourMinute) → Settings → Option String
  unfolding starts past
  eod_exit_reason position strategy_id now settings =
      if starts strategy_id && past now settings.straddle_squareoff_time
      then some "scheduled_straddle_squareoff"
      else if (position.exchange == "MCX" || position.exchange == "MCX-OPT")
          && past now settings.mcx_squareoff_time
      then some "EOD_MCX"
      else if (position.exchange == "NSE" || position.exchange == "NFO")
          && past now settings.nse_squareoff_time
      then some "EOD_NSE"
      else none

  -- For ordered prices, the simulated bracket of a paper position stays silent exactly while the
  -- price is strictly between stop and target, which is the test by which a trailing stop is moved.
  pub is_none-band_exit :
      (laws : IsOrdered n) (side : Side) (sl target ltp : Float)
      → is_none (band_exit side sl target ltp) ≡ band_holds n side sl ltp target
  unfolding band_exit band_holds
  is_none-band_exit laws buy sl target ltp =
      ground (arith, laws.lt-not-le sl ltp, laws.lt-not-le ltp target)
  is_none-band_exit laws sell sl target ltp =
      ground (arith, laws.lt-not-le target ltp, laws.lt-not-le ltp sl)
