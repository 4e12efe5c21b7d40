-- ===== src/State/Switches.antt =====
-- The switches of app/state.py. A getter takes the default of the environment, which holds as
-- long as no override is set.
use tv_zerodha_bot.Prelude.{
  String, Bool, false, not, Option, none, some, if◌then◌else◌, ◌==◌, string_eq,
}
use tv_zerodha_bot.Numbers.{Numbers}
use tv_zerodha_bot.State.Settings.{value_or, assign_and_save}
use tv_zerodha_bot.State.{
  Value, State, null, boolean, integer, real, text, texts, reals, assign, truthy,
}

module _ {n : Numbers} where
  unfoldable pub bool_or_null : Option Bool → Value n
  bool_or_null none = null
  bool_or_null (some b) = boolean b

  unfoldable pub toggle_from :
      (name : String) → (env_default : Value n) → State n → Value n × State n
  toggle_from name env_default s =
      let v = boolean (not (truthy (value_or env_default (s.globals name)))) in
      (v, assign_and_save name v s)

  unfoldable pub set_session_invalid : Bool → State n → State n
  set_session_invalid value s = record s {
    globals = assign "SESSION_INVALID" (boolean value) s.globals;
  }

  unfoldable pub set_trade_mode : String → State n → State n
  set_trade_mode value = assign_and_save "TRADE_MODE" (text value)

  unfoldable pub set_stock_mode : String → State n → State n
  set_stock_mode value = assign_and_save "STOCK_MODE" (text value)

  unfoldable pub is_paper_mode : Value n → State n → Value n
  is_paper_mode env_default s = value_or env_default (s.globals "_PAPER_MODE")

  unfoldable pub set_paper_mode : Option Bool → State n → State n
  set_paper_mode value = assign_and_save "_PAPER_MODE" (bool_or_null value)

  unfoldable pub is_emergency_stop : State n → Value n
  is_emergency_stop s = s.globals "_EMERGENCY_STOP"

  unfoldable pub set_emergency_stop : Bool → State n → State n
  set_emergency_stop value s = record s {
    globals = assign "_EMERGENCY_STOP" (boolean value) s.globals;
  }

  unfoldable pub set_no_entry_on_expiry_day : Option Bool → State n → State n
  set_no_entry_on_expiry_day value =
      assign_and_save "_NO_ENTRY_ON_EXPIRY_DAY_OVERRIDE" (bool_or_null value)

  unfoldable pub is_trailing_enabled : State n → Value n
  is_trailing_enabled s = s.globals "_TRAILING_SL_ENABLED"

  unfoldable pub set_trailing_enabled : Bool → State n → State n
  set_trailing_enabled value = assign_and_save "_TRAILING_SL_ENABLED" (boolean value)

  unfoldable pub toggle_trailing_enabled : State n → Value n × State n
  toggle_trailing_enabled = toggle_from "_TRAILING_SL_ENABLED" null

  unfoldable pub is_window_straddle_enabled : State n → Value n
  is_window_straddle_enabled s = s.globals "_WINDOW_STRADDLE_ENABLED"

  unfoldable pub set_window_straddle_enabled : Bool → State n → State n
  set_window_straddle_enabled value = assign_and_save "_WINDOW_STRADDLE_ENABLED" (boolean value)

  unfoldable pub toggle_window_straddle : State n → Value n × State n
  toggle_window_straddle = toggle_from "_WINDOW_STRADDLE_ENABLED" null

  unfoldable pub is_ng_hedge_enabled : Value n → State n → Value n
  is_ng_hedge_enabled env_default s = value_or env_default (s.globals "_NG_HEDGE_ENABLED_OVERRIDE")

  unfoldable pub set_ng_hedge_enabled : Bool → State n → State n
  set_ng_hedge_enabled value = assign_and_save "_NG_HEDGE_ENABLED_OVERRIDE" (boolean value)

  unfoldable pub toggle_ng_hedge_enabled : Value n → State n → Value n × State n
  toggle_ng_hedge_enabled env_default = toggle_from "_NG_HEDGE_ENABLED_OVERRIDE" env_default

  unfoldable pub is_crude_hedge_enabled : Value n → State n → Value n
  is_crude_hedge_enabled env_default s =
      value_or env_default (s.globals "_CRUDE_HEDGE_ENABLED_OVERRIDE")

  unfoldable pub set_crude_hedge_enabled : Bool → State n → State n
  set_crude_hedge_enabled value = assign_and_save "_CRUDE_HEDGE_ENABLED_OVERRIDE" (boolean value)

  unfoldable pub toggle_crude_hedge_enabled : Value n → State n → Value n × State n
  toggle_crude_hedge_enabled env_default = toggle_from "_CRUDE_HEDGE_ENABLED_OVERRIDE" env_default

  unfoldable pub is_crudeoilm_fmove_hedge_enabled : Value n → State n → Value n
  is_crudeoilm_fmove_hedge_enabled env_default s =
      value_or env_default (s.globals "_CRUDEOILM_FMOVE_HEDGE_ENABLED_OVERRIDE")

  unfoldable pub set_crudeoilm_fmove_hedge_enabled : Bool → State n → State n
  set_crudeoilm_fmove_hedge_enabled value =
      assign_and_save "_CRUDEOILM_FMOVE_HEDGE_ENABLED_OVERRIDE" (boolean value)

  unfoldable pub toggle_crudeoilm_fmove_hedge_enabled : Value n → State n → Value n × State n
  toggle_crudeoilm_fmove_hedge_enabled env_default =
      toggle_from "_CRUDEOILM_FMOVE_HEDGE_ENABLED_OVERRIDE" env_default

  unfoldable pub is_ng_fmove_hedge_enabled : Value n → State n → Value n
  is_ng_fmove_hedge_enabled env_default s =
      value_or env_default (s.globals "_NG_FMOVE_HEDGE_ENABLED_OVERRIDE")

  unfoldable pub set_ng_fmove_hedge_enabled : Bool → State n → State n
  set_ng_fmove_hedge_enabled value =
      assign_and_save "_NG_FMOVE_HEDGE_ENABLED_OVERRIDE" (boolean value)

  unfoldable pub toggle_ng_fmove_hedge_enabled : Value n → State n → Value n × State n
  toggle_ng_fmove_hedge_enabled env_default =
      toggle_from "_NG_FMOVE_HEDGE_ENABLED_OVERRIDE" env_default

  unfoldable pub is_silverm_hedge_enabled : Value n → State n → Value n
  is_silverm_hedge_enabled env_default s =
      value_or env_default (s.globals "_SILVERM_HEDGE_ENABLED_OVERRIDE")

  unfoldable pub set_silverm_hedge_enabled : Bool → State n → State n
  set_silverm_hedge_enabled value =
      assign_and_save "_SILVERM_HEDGE_ENABLED_OVERRIDE" (boolean value)

  unfoldable pub toggle_silverm_hedge_enabled : Value n → State n → Value n × State n
  toggle_silverm_hedge_enabled env_default =
      toggle_from "_SILVERM_HEDGE_ENABLED_OVERRIDE" env_default

  unfoldable pub is_partial_booking_enabled : Value n → State n → Value n
  is_partial_booking_enabled env_default s =
      value_or env_default (s.globals "_PARTIAL_BOOKING_ENABLED_OVERRIDE")

  unfoldable pub set_partial_booking_enabled : Option Bool → State n → State n
  set_partial_booking_enabled value =
      assign_and_save "_PARTIAL_BOOKING_ENABLED_OVERRIDE" (bool_or_null value)

  unfoldable pub toggle_partial_booking_enabled : Value n → State n → Value n × State n
  toggle_partial_booking_enabled env_default =
      toggle_from "_PARTIAL_BOOKING_ENABLED_OVERRIDE" env_default

  unfoldable pub is_entry_wings_enabled : Value n → State n → Value n
  is_entry_wings_enabled env_default s =
      value_or env_default (s.globals "_ENTRY_WINGS_ENABLED_OVERRIDE")

  unfoldable pub set_entry_wings_enabled : Option Bool → State n → State n
  set_entry_wings_enabled value =
      assign_and_save "_ENTRY_WINGS_ENABLED_OVERRIDE" (bool_or_null value)

  unfoldable pub toggle_entry_wings_enabled : Value n → State n → Value n × State n
  toggle_entry_wings_enabled env_default = toggle_from "_ENTRY_WINGS_ENABLED_OVERRIDE" env_default

  unfoldable pub is_ema_analyzer_enabled : Value n → State n → Value n
  is_ema_analyzer_enabled env_default s =
      value_or env_default (s.globals "_EMA_ANALYZER_ENABLED_OVERRIDE")

  unfoldable pub set_ema_analyzer_enabled : Option Bool → State n → State n
  set_ema_analyzer_enabled value =
      assign_and_save "_EMA_ANALYZER_ENABLED_OVERRIDE" (bool_or_null value)

  unfoldable pub toggle_ema_analyzer_enabled : Value n → State n → Value n × State n
  toggle_ema_analyzer_enabled env_default = toggle_from "_EMA_ANALYZER_ENABLED_OVERRIDE" env_default

  unfoldable pub is_orderflow_enabled : Value n → State n → Value n
  is_orderflow_enabled env_default s =
      value_or env_default (s.globals "_ORDERFLOW_ENABLED_OVERRIDE")

  unfoldable pub set_orderflow_enabled : Option Bool → State n → State n
  set_orderflow_enabled value = assign_and_save "_ORDERFLOW_ENABLED_OVERRIDE" (bool_or_null value)

  unfoldable pub toggle_orderflow_enabled : Value n → State n → Value n × State n
  toggle_orderflow_enabled env_default = toggle_from "_ORDERFLOW_ENABLED_OVERRIDE" env_default

  unfoldable pub is_straddle_defense_enabled : Value n → State n → Value n
  is_straddle_defense_enabled env_default s =
      value_or env_default (s.globals "_STRADDLE_DEFENSE_ENABLED_OVERRIDE")

  unfoldable pub set_straddle_defense_enabled : Bool → State n → State n
  set_straddle_defense_enabled value =
      assign_and_save "_STRADDLE_DEFENSE_ENABLED_OVERRIDE" (boolean value)

  unfoldable pub toggle_straddle_defense_enabled : Value n → State n → Value n × State n
  toggle_straddle_defense_enabled env_default =
      toggle_from "_STRADDLE_DEFENSE_ENABLED_OVERRIDE" env_default

  -- `_cycle.get(TRADE_MODE, "BUY_OPTIONS")`
  unfoldable pub next_trade_mode : Value n → Value n
  next_trade_mode null = text "BUY_OPTIONS"
  next_trade_mode (boolean _) = text "BUY_OPTIONS"
  next_trade_mode (integer _) = text "BUY_OPTIONS"
  next_trade_mode (real _) = text "BUY_OPTIONS"
  next_trade_mode (texts _) = text "BUY_OPTIONS"
  next_trade_mode (reals _) = text "BUY_OPTIONS"
  next_trade_mode (text mode) =
      if mode == "BUY_OPTIONS"
      then text "SELL_OPTIONS"
      else if mode == "SELL_OPTIONS"
      then text "RANGE_SELL"
      else text "BUY_OPTIONS"

  unfoldable pub toggle_trade_mode : State n → Value n × State n
  toggle_trade_mode s =
      let v = next_trade_mode (s.globals "TRADE_MODE") in (v, assign_and_save "TRADE_MODE" v s)

  is_fno : Value n → Bool
  is_fno null = false
  is_fno (boolean _) = false
  is_fno (integer _) = false
  is_fno (real _) = false
  is_fno (texts _) = false
  is_fno (reals _) = false
  is_fno (text mode) = mode == "FNO"

  unfoldable pub toggle_stock_mode : State n → Value n × State n
  unfolding is_fno
  toggle_stock_mode s =
      let v = if is_fno (s.globals "STOCK_MODE") then text "EQUITY" else text "FNO" in
      (v, assign_and_save "STOCK_MODE" v s)
