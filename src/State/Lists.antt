-- ===== src/State/Lists.antt =====
-- The lists of symbols, the mode of the straddle defence and the hedge thresholds of app/state.py. A
-- symbol is passed as `strip().upper()` leaves it.
use Prim.Native.String.{◌++◌ as concat}
use package.text.Mathlib.Text.{starts_with}
use tv_zerodha_bot.Prelude.{
  String, Bool, not, ◌&&◌, Option, none, some, or_default, List, [], ◌∷◌, ◌++◌, keep, member, ◌==◌,
  string_eq, if◌then◌else◌,
}
use tv_zerodha_bot.Prelude.Dict.{Dict, lookup, insert, erase}
use tv_zerodha_bot.Numbers.{Numbers}
use tv_zerodha_bot.State.{Value, State, null, text, texts, reals, data_of}
use tv_zerodha_bot.State.Settings.{value_or, assign_and_save}

-- `_SD_MODES`
abbrev pub sd_modes : List String
sd_modes = "ALERT" ∷ "SEMI_AUTO" ∷ "AUTO" ∷ []

-- `_SD_MODES[(_SD_MODES.index(current) + 1) % len(_SD_MODES)]`, for one of the three
unfoldable pub next_mode : String → String
next_mode current =
    if current == "ALERT" then "SEMI_AUTO" else if current == "SEMI_AUTO" then "AUTO" else "ALERT"

unfoldable pub known_mode : String → String
known_mode mode = if member mode sd_modes then mode else "ALERT"

-- The switch of one symbol: the menu's order, then the members that are not on the menu.
unfoldable pub flipped : (symbol : String) → List String → (x : String) → Bool
flipped symbol current x = if x == symbol then not (member symbol current) else member x current

unfoldable pub ordered : (symbol : String) → (current allowed : List String) → List String
unfolding flipped
ordered symbol current allowed = keep (flipped symbol current) allowed

unfoldable pub extras : (symbol : String) → (current allowed : List String) → List String
unfolding flipped
extras symbol current allowed =
    keep (λ s. not (member s allowed) && flipped symbol current s) current

-- The keys of `get_all_overrides` with the variables.
abbrev pub shown_rows : List (String × String)
shown_rows =
    ("paper_mode", "_PAPER_MODE")
    ∷ ("emergency_stop", "_EMERGENCY_STOP")
    ∷ ("max_lots", "_MAX_LOTS_OVERRIDE")
    ∷ ("max_daily_loss", "_MAX_DAILY_LOSS_OVERRIDE")
    ∷ ("sl_pct", "_SL_PCT_OVERRIDE")
    ∷ ("rr_ratio", "_RR_RATIO_OVERRIDE")
    ∷ ("daily_profit_target", "_DAILY_PROFIT_TARGET_OVERRIDE")
    ∷ ("sell_options_profit_pct", "_SELL_OPTIONS_PROFIT_PCT_OVERRIDE")
    ∷ ("entry_window_start", "_ENTRY_WINDOW_START_OVERRIDE")
    ∷ ("entry_window_end", "_ENTRY_WINDOW_END_OVERRIDE")
    ∷ ("no_entry_on_expiry_day", "_NO_ENTRY_ON_EXPIRY_DAY_OVERRIDE")
    ∷ ("trailing_sl_enabled", "_TRAILING_SL_ENABLED")
    ∷ ("window_straddle_enabled", "_WINDOW_STRADDLE_ENABLED")
    ∷ ("ng_hedge_enabled", "_NG_HEDGE_ENABLED_OVERRIDE")
    ∷ ("crude_hedge_enabled", "_CRUDE_HEDGE_ENABLED_OVERRIDE")
    ∷ ("crudeoilm_fmove_hedge_enabled", "_CRUDEOILM_FMOVE_HEDGE_ENABLED_OVERRIDE")
    ∷ ("ng_fmove_hedge_enabled", "_NG_FMOVE_HEDGE_ENABLED_OVERRIDE")
    ∷ ("silverm_hedge_enabled", "_SILVERM_HEDGE_ENABLED_OVERRIDE")
    ∷ ("straddle_defense_enabled", "_STRADDLE_DEFENSE_ENABLED_OVERRIDE")
    ∷ ("straddle_defense_mode", "_STRADDLE_DEFENSE_MODE_OVERRIDE")
    ∷ ("partial_booking_enabled", "_PARTIAL_BOOKING_ENABLED_OVERRIDE")
    ∷ ("entry_wings_enabled", "_ENTRY_WINGS_ENABLED_OVERRIDE")
    ∷ ("ema_analyzer_enabled", "_EMA_ANALYZER_ENABLED_OVERRIDE")
    ∷ ("ema_analyzer_underlyings", "_EMA_ANALYZER_UNDERLYINGS_OVERRIDE")
    ∷ ("max_trades_per_day", "_MAX_TRADES_PER_DAY_OVERRIDE")
    ∷ ("max_open_positions", "_MAX_OPEN_POSITIONS_OVERRIDE")
    ∷ ("capital_per_trade", "_CAPITAL_PER_TRADE_OVERRIDE")
    ∷ ("consecutive_losses_limit", "_CONSECUTIVE_LOSSES_LIMIT_OVERRIDE")
    ∷ ("adx_threshold", "_ADX_THRESHOLD_OVERRIDE")
    ∷ ("hedge_tunables", "_HEDGE_TUNABLE_OVERRIDES")
    ∷ []

unfoldable pub tunable_key : (slug key : String) → String
tunable_key slug key = concat slug (concat "." key)

module _ {n : Numbers} where
  open n use {Float}

  -- The text of a value that is one, and its list.
  abbrev pub text_of : Value n → String
  text_of v = elim v [ text s ↦ s | _ ↦ "" ]

  abbrev pub texts_of : Value n → List String
  texts_of v = elim v [ texts l ↦ l | _ ↦ [] ]

  abbrev pub reals_of : Value n → Dict String Float
  reals_of v = elim v [ reals d ↦ d | _ ↦ [] ]

  unfoldable pub get_straddle_defense_mode : (env_default : String) → State n → String
  unfolding value_or known_mode
  get_straddle_defense_mode env_default s =
      known_mode
        (text_of (value_or (text env_default) (s.globals "_STRADDLE_DEFENSE_MODE_OVERRIDE")))

  -- `None` or an unknown mode clears the override.
  unfoldable pub mode_or_null : Option String → Value n
  mode_or_null none = null
  mode_or_null (some mode) = if member mode sd_modes then text mode else null

  unfoldable pub set_straddle_defense_mode : Option String → State n → State n
  unfolding mode_or_null
  set_straddle_defense_mode value =
      assign_and_save "_STRADDLE_DEFENSE_MODE_OVERRIDE" (mode_or_null value)

  unfoldable pub cycle_straddle_defense_mode : (env_default : String) → State n → String × State n
  unfolding get_straddle_defense_mode next_mode
  cycle_straddle_defense_mode env_default s =
      let mode = next_mode (get_straddle_defense_mode env_default s) in
      (mode, assign_and_save "_STRADDLE_DEFENSE_MODE_OVERRIDE" (text mode) s)

  unfoldable pub get_list : (name : String) → (env_default : List String) → State n → List String
  unfolding value_or
  get_list name env_default s = texts_of (value_or (texts env_default) (s.globals name))

  unfoldable pub get_ema_analyzer_underlyings : List String → State n → List String
  unfolding get_list
  get_ema_analyzer_underlyings = get_list "_EMA_ANALYZER_UNDERLYINGS_OVERRIDE"

  unfoldable pub set_ema_analyzer_underlyings : Option (List String) → State n → State n
  set_ema_analyzer_underlyings none = assign_and_save "_EMA_ANALYZER_UNDERLYINGS_OVERRIDE" null
  set_ema_analyzer_underlyings (some l) =
      assign_and_save "_EMA_ANALYZER_UNDERLYINGS_OVERRIDE" (texts l)

  unfoldable pub toggle_ema_analyzer_underlying :
      (symbol : String) → (env_default allowed : List String) → State n → List String × State n
  unfolding get_ema_analyzer_underlyings ordered extras
  toggle_ema_analyzer_underlying symbol env_default allowed s =
      let current = get_ema_analyzer_underlyings env_default s in
      let new_list = ordered symbol current allowed ++ extras symbol current allowed in
      if member symbol allowed
      then (new_list, assign_and_save "_EMA_ANALYZER_UNDERLYINGS_OVERRIDE" (texts new_list) s)
      else (current, s)

  unfoldable pub get_orderflow_symbols : List String → State n → List String
  unfolding get_list
  get_orderflow_symbols = get_list "_ORDERFLOW_SYMBOLS_OVERRIDE"

  unfoldable pub toggle_orderflow_symbol :
      (symbol : String) → (env_default allowed : List String) → State n → List String × State n
  unfolding get_orderflow_symbols ordered
  toggle_orderflow_symbol symbol env_default allowed s =
      let current = get_orderflow_symbols env_default s in
      let new_list = ordered symbol current allowed in
      if member symbol allowed
      then (new_list, assign_and_save "_ORDERFLOW_SYMBOLS_OVERRIDE" (texts new_list) s)
      else (current, s)

  unfoldable pub get_hedge_tunable_overrides : State n → Dict String Float
  get_hedge_tunable_overrides s = reals_of (s.globals "_HEDGE_TUNABLE_OVERRIDES")

  unfoldable pub get_hedge_tunable : (slug key : String) → (env_default : Float) → State n → Float
  unfolding get_hedge_tunable_overrides tunable_key
  get_hedge_tunable slug key env_default s =
      or_default env_default (lookup (tunable_key slug key) (get_hedge_tunable_overrides s))

  unfoldable pub set_hedge_tunable : (slug key : String) → Option Float → State n → State n
  unfolding get_hedge_tunable_overrides tunable_key
  set_hedge_tunable slug key none s =
      assign_and_save "_HEDGE_TUNABLE_OVERRIDES"
        (reals (erase (tunable_key slug key) (get_hedge_tunable_overrides s))) s
  set_hedge_tunable slug key (some value) s =
      assign_and_save "_HEDGE_TUNABLE_OVERRIDES"
        (reals (insert (tunable_key slug key) value (get_hedge_tunable_overrides s))) s

  unfoldable pub clear_hedge_tunables : (slug : Option String) → State n → State n
  unfolding get_hedge_tunable_overrides
  clear_hedge_tunables none s = assign_and_save "_HEDGE_TUNABLE_OVERRIDES" (reals []) s
  clear_hedge_tunables (some slug) s =
      let kept =
        keep (λ row. not (starts_with row.0 (concat slug "."))) (get_hedge_tunable_overrides s) in
      assign_and_save "_HEDGE_TUNABLE_OVERRIDES" (reals kept) s

  unfoldable pub get_all_overrides : State n → Dict String (Value n)
  get_all_overrides s = data_of shown_rows s.globals
