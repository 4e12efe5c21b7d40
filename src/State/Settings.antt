-- ===== src/State/Settings.antt =====
-- The limits of app/state.py. A getter takes the default of the environment, which holds as
-- long as no override is set.
use tv_zerodha_bot.Prelude.{String, ◌&&◌, Option, none, some, if◌then◌else◌, ◌==◌, string_eq}
use tv_zerodha_bot.Prelude.Int.{ℤ, pos, ltb_ℤ}
use tv_zerodha_bot.Numbers.{Numbers}
use tv_zerodha_bot.State.{Value, State, null, integer, real, text, assign, is_null, save_overrides}

module _ {n : Numbers} where
  open n use {Float, lt, le, of_int}

  -- `x if x is not None else env_default`
  unfoldable pub value_or : Value n → Value n → Value n
  value_or env_default v = if is_null v then env_default else v

  unfoldable pub assign_and_save : (name : String) → Value n → State n → State n
  assign_and_save name v s = save_overrides (record s { globals = assign name v s.globals })

  -- `value if (value is not None and value > 0) else None`
  unfoldable pub positive_int : Option ℤ → Value n
  positive_int none = null
  positive_int (some i) = if ltb_ℤ (pos 0) i then integer i else null

  unfoldable pub positive_real : Option Float → Value n
  positive_real none = null
  positive_real (some x) = if lt (of_int (pos 0)) x then real x else null

  unfoldable pub not_negative : Option Float → Value n
  not_negative none = null
  not_negative (some x) = if le (of_int (pos 0)) x then real x else null

  unfoldable pub fraction : Option Float → Value n
  fraction none = null
  fraction (some x) = if lt (of_int (pos 0)) x && le x (of_int (pos 1)) then real x else null

  -- `value or None`
  unfoldable pub text_or_null : Option String → Value n
  text_or_null none = null
  text_or_null (some s) = if s == "" then null else text s

  unfoldable pub get_session_invalid : State n → Value n
  get_session_invalid s = s.globals "SESSION_INVALID"

  unfoldable pub get_trade_mode : State n → Value n
  get_trade_mode s = s.globals "TRADE_MODE"

  unfoldable pub get_stock_mode : State n → Value n
  get_stock_mode s = s.globals "STOCK_MODE"

  unfoldable pub get_paper_mode_override : State n → Value n
  get_paper_mode_override s = s.globals "_PAPER_MODE"

  unfoldable pub get_max_lots : Value n → State n → Value n
  get_max_lots env_default s = value_or env_default (s.globals "_MAX_LOTS_OVERRIDE")

  unfoldable pub set_max_lots : Option ℤ → State n → State n
  set_max_lots value = assign_and_save "_MAX_LOTS_OVERRIDE" (positive_int value)

  unfoldable pub get_max_daily_loss : Value n → State n → Value n
  get_max_daily_loss env_default s = value_or env_default (s.globals "_MAX_DAILY_LOSS_OVERRIDE")

  unfoldable pub set_max_daily_loss : Option Float → State n → State n
  set_max_daily_loss value = assign_and_save "_MAX_DAILY_LOSS_OVERRIDE" (positive_real value)

  unfoldable pub get_sl_pct : Value n → State n → Value n
  get_sl_pct env_default s = value_or env_default (s.globals "_SL_PCT_OVERRIDE")

  unfoldable pub set_sl_pct : Option Float → State n → State n
  set_sl_pct value = assign_and_save "_SL_PCT_OVERRIDE" (positive_real value)

  unfoldable pub get_rr_ratio : Value n → State n → Value n
  get_rr_ratio env_default s = value_or env_default (s.globals "_RR_RATIO_OVERRIDE")

  unfoldable pub set_rr_ratio : Option Float → State n → State n
  set_rr_ratio value = assign_and_save "_RR_RATIO_OVERRIDE" (positive_real value)

  unfoldable pub get_daily_profit_target : Value n → State n → Value n
  get_daily_profit_target env_default s =
      value_or env_default (s.globals "_DAILY_PROFIT_TARGET_OVERRIDE")

  unfoldable pub set_daily_profit_target : Option Float → State n → State n
  set_daily_profit_target value =
      assign_and_save "_DAILY_PROFIT_TARGET_OVERRIDE" (not_negative value)

  unfoldable pub get_sell_options_profit_pct : Value n → State n → Value n
  get_sell_options_profit_pct env_default s =
      value_or env_default (s.globals "_SELL_OPTIONS_PROFIT_PCT_OVERRIDE")

  unfoldable pub set_sell_options_profit_pct : Option Float → State n → State n
  set_sell_options_profit_pct value =
      assign_and_save "_SELL_OPTIONS_PROFIT_PCT_OVERRIDE" (fraction value)

  unfoldable pub get_entry_window_start : Value n → State n → Value n
  get_entry_window_start env_default s =
      value_or env_default (s.globals "_ENTRY_WINDOW_START_OVERRIDE")

  unfoldable pub set_entry_window_start : Option String → State n → State n
  set_entry_window_start value = assign_and_save "_ENTRY_WINDOW_START_OVERRIDE" (text_or_null value)

  unfoldable pub get_entry_window_end : Value n → State n → Value n
  get_entry_window_end env_default s = value_or env_default (s.globals "_ENTRY_WINDOW_END_OVERRIDE")

  unfoldable pub set_entry_window_end : Option String → State n → State n
  set_entry_window_end value = assign_and_save "_ENTRY_WINDOW_END_OVERRIDE" (text_or_null value)

  unfoldable pub get_no_entry_on_expiry_day : Value n → State n → Value n
  get_no_entry_on_expiry_day env_default s =
      value_or env_default (s.globals "_NO_ENTRY_ON_EXPIRY_DAY_OVERRIDE")

  unfoldable pub get_max_trades_per_day : Value n → State n → Value n
  get_max_trades_per_day env_default s =
      value_or env_default (s.globals "_MAX_TRADES_PER_DAY_OVERRIDE")

  unfoldable pub set_max_trades_per_day : Option ℤ → State n → State n
  set_max_trades_per_day value = assign_and_save "_MAX_TRADES_PER_DAY_OVERRIDE" (positive_int value)

  unfoldable pub get_max_open_positions : Value n → State n → Value n
  get_max_open_positions env_default s =
      value_or env_default (s.globals "_MAX_OPEN_POSITIONS_OVERRIDE")

  unfoldable pub set_max_open_positions : Option ℤ → State n → State n
  set_max_open_positions value = assign_and_save "_MAX_OPEN_POSITIONS_OVERRIDE" (positive_int value)

  unfoldable pub get_capital_per_trade : Value n → State n → Value n
  get_capital_per_trade env_default s =
      value_or env_default (s.globals "_CAPITAL_PER_TRADE_OVERRIDE")

  unfoldable pub set_capital_per_trade : Option Float → State n → State n
  set_capital_per_trade value = assign_and_save "_CAPITAL_PER_TRADE_OVERRIDE" (positive_real value)

  unfoldable pub get_consecutive_losses_limit : Value n → State n → Value n
  get_consecutive_losses_limit env_default s =
      value_or env_default (s.globals "_CONSECUTIVE_LOSSES_LIMIT_OVERRIDE")

  unfoldable pub set_consecutive_losses_limit : Option ℤ → State n → State n
  set_consecutive_losses_limit value =
      assign_and_save "_CONSECUTIVE_LOSSES_LIMIT_OVERRIDE" (positive_int value)

  unfoldable pub get_adx_threshold : Value n → State n → Value n
  get_adx_threshold env_default s = value_or env_default (s.globals "_ADX_THRESHOLD_OVERRIDE")

  unfoldable pub set_adx_threshold : Option Float → State n → State n
  set_adx_threshold value = assign_and_save "_ADX_THRESHOLD_OVERRIDE" (positive_real value)
