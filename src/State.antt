-- ===== src/State.antt =====
-- The runtime overrides (app/state.py): the module's variables, and the file that keeps them. A value
-- is what JSON has of it; the file gives back the values that were written to it.
pub mod Settings
pub mod Switches
pub mod Restart
pub mod Survive
pub mod Lists
pub mod Modes
pub mod Flip
mod Tests
use tv_zerodha_bot.Prelude.{
  zero, suc, String, Bool, true, false, not, ◌&&◌, ◌||◌, Option, none, some, List, [], ◌∷◌, ◌==◌,
  string_eq, if◌then◌else◌,
}
use tv_zerodha_bot.Prelude.Int.{ℤ, pos, negsuc}
use tv_zerodha_bot.Prelude.Dict.{Dict, lookup}
use tv_zerodha_bot.Numbers.{Numbers}

module _ (n : Numbers) where
  open n use {Float}

  pub data Value : Type 0 where
    null : Value
    boolean : Bool → Value
    integer : ℤ → Value
    real : Float → Value
    text : String → Value
    texts : List String → Value
    reals : Dict String Float → Value

  -- The variables of the module, by name.
  abbrev pub Globals : Type 0
  Globals = String → Value

  -- The variables, the file (`none` if there is none or it is cut off), whether it can be written,
  -- and if not, whether it can be opened.
  pub record State : Type 0 where
    pub globals : Globals
    pub file : Option (Dict String Value)
    pub writable : Bool
    pub opens : Bool

is_zero : ℤ → Bool
is_zero (pos zero) = true
is_zero (pos (suc _)) = false
is_zero (negsuc _) = false

-- The keys of the file with the variables that they are written from.
abbrev pub saved_rows : List (String × String)
saved_rows =
    ("trade_mode", "TRADE_MODE")
    ∷ ("stock_mode", "STOCK_MODE")
    ∷ ("paper_mode", "_PAPER_MODE")
    ∷ ("max_lots", "_MAX_LOTS_OVERRIDE")
    ∷ ("max_daily_loss", "_MAX_DAILY_LOSS_OVERRIDE")
    ∷ ("sl_pct", "_SL_PCT_OVERRIDE")
    ∷ ("rr_ratio", "_RR_RATIO_OVERRIDE")
    ∷ ("daily_profit_target", "_DAILY_PROFIT_TARGET_OVERRIDE")
    ∷ ("sell_options_profit_pct", "_SELL_OPTIONS_PROFIT_PCT_OVERRIDE")
    ∷ ("entry_window_start", "_ENTRY_WINDOW_START_OVERRIDE")
    ∷ ("entry_window_end", "_ENTRY_WINDOW_END_OVERRIDE")
    ∷ ("no_entry_on_expiry_day", "_NO_ENTRY_ON_EXPIRY_DAY_OVERRIDE")
    ∷ ("trailing_sl_enabled", "_TRAILING_SL_ENABLED")
    ∷ ("window_straddle_enabled", "_WINDOW_STRADDLE_ENABLED")
    ∷ ("ng_hedge_enabled", "_NG_HEDGE_ENABLED_OVERRIDE")
    ∷ ("crude_hedge_enabled", "_CRUDE_HEDGE_ENABLED_OVERRIDE")
    ∷ ("crudeoilm_fmove_hedge_enabled", "_CRUDEOILM_FMOVE_HEDGE_ENABLED_OVERRIDE")
    ∷ ("silverm_hedge_enabled", "_SILVERM_HEDGE_ENABLED_OVERRIDE")
    ∷ ("straddle_defense_enabled", "_STRADDLE_DEFENSE_ENABLED_OVERRIDE")
    ∷ ("straddle_defense_mode", "_STRADDLE_DEFENSE_MODE_OVERRIDE")
    ∷ ("partial_booking_enabled", "_PARTIAL_BOOKING_ENABLED_OVERRIDE")
    ∷ ("entry_wings_enabled", "_ENTRY_WINGS_ENABLED_OVERRIDE")
    ∷ ("ema_analyzer_enabled", "_EMA_ANALYZER_ENABLED_OVERRIDE")
    ∷ ("ema_analyzer_underlyings", "_EMA_ANALYZER_UNDERLYINGS_OVERRIDE")
    ∷ ("max_trades_per_day", "_MAX_TRADES_PER_DAY_OVERRIDE")
    ∷ ("max_open_positions", "_MAX_OPEN_POSITIONS_OVERRIDE")
    ∷ ("capital_per_trade", "_CAPITAL_PER_TRADE_OVERRIDE")
    ∷ ("consecutive_losses_limit", "_CONSECUTIVE_LOSSES_LIMIT_OVERRIDE")
    ∷ ("adx_threshold", "_ADX_THRESHOLD_OVERRIDE")
    ∷ ("orderflow_enabled", "_ORDERFLOW_ENABLED_OVERRIDE")
    ∷ ("orderflow_symbols", "_ORDERFLOW_SYMBOLS_OVERRIDE")
    ∷ ("hedge_tunables", "_HEDGE_TUNABLE_OVERRIDES")
    ∷ []

-- The keys that are read without a further test, with the variables that they are read into.
abbrev pub loaded_rows : List (String × String)
loaded_rows =
    ("paper_mode", "_PAPER_MODE")
    ∷ ("max_lots", "_MAX_LOTS_OVERRIDE")
    ∷ ("max_daily_loss", "_MAX_DAILY_LOSS_OVERRIDE")
    ∷ ("sl_pct", "_SL_PCT_OVERRIDE")
    ∷ ("rr_ratio", "_RR_RATIO_OVERRIDE")
    ∷ ("daily_profit_target", "_DAILY_PROFIT_TARGET_OVERRIDE")
    ∷ ("sell_options_profit_pct", "_SELL_OPTIONS_PROFIT_PCT_OVERRIDE")
    ∷ ("entry_window_start", "_ENTRY_WINDOW_START_OVERRIDE")
    ∷ ("entry_window_end", "_ENTRY_WINDOW_END_OVERRIDE")
    ∷ ("no_entry_on_expiry_day", "_NO_ENTRY_ON_EXPIRY_DAY_OVERRIDE")
    ∷ ("trailing_sl_enabled", "_TRAILING_SL_ENABLED")
    ∷ ("window_straddle_enabled", "_WINDOW_STRADDLE_ENABLED")
    ∷ ("ng_hedge_enabled", "_NG_HEDGE_ENABLED_OVERRIDE")
    ∷ ("crude_hedge_enabled", "_CRUDE_HEDGE_ENABLED_OVERRIDE")
    ∷ ("crudeoilm_fmove_hedge_enabled", "_CRUDEOILM_FMOVE_HEDGE_ENABLED_OVERRIDE")
    ∷ ("ng_fmove_hedge_enabled", "_NG_FMOVE_HEDGE_ENABLED_OVERRIDE")
    ∷ ("silverm_hedge_enabled", "_SILVERM_HEDGE_ENABLED_OVERRIDE")
    ∷ ("straddle_defense_enabled", "_STRADDLE_DEFENSE_ENABLED_OVERRIDE")
    ∷ ("partial_booking_enabled", "_PARTIAL_BOOKING_ENABLED_OVERRIDE")
    ∷ ("entry_wings_enabled", "_ENTRY_WINGS_ENABLED_OVERRIDE")
    ∷ ("ema_analyzer_enabled", "_EMA_ANALYZER_ENABLED_OVERRIDE")
    ∷ ("ema_analyzer_underlyings", "_EMA_ANALYZER_UNDERLYINGS_OVERRIDE")
    ∷ ("straddle_defense_mode", "_STRADDLE_DEFENSE_MODE_OVERRIDE")
    ∷ ("max_trades_per_day", "_MAX_TRADES_PER_DAY_OVERRIDE")
    ∷ ("max_open_positions", "_MAX_OPEN_POSITIONS_OVERRIDE")
    ∷ ("capital_per_trade", "_CAPITAL_PER_TRADE_OVERRIDE")
    ∷ ("consecutive_losses_limit", "_CONSECUTIVE_LOSSES_LIMIT_OVERRIDE")
    ∷ ("adx_threshold", "_ADX_THRESHOLD_OVERRIDE")
    ∷ ("orderflow_enabled", "_ORDERFLOW_ENABLED_OVERRIDE")
    ∷ []

module _ {n : Numbers} where
  open n use {Float, lt, of_int}

  abbrev pub assign : String → Value n → Globals n → Globals n
  assign name v g x = if x == name then v else g x

  abbrev pub is_null : Value n → Bool
  is_null null = true
  is_null _ = false

  -- Python's truth of a value.
  unfoldable pub truthy : Value n → Bool
  unfolding is_zero
  truthy null = false
  truthy (boolean b) = b
  truthy (integer i) = not (is_zero i)
  truthy (real x) = lt x (of_int (pos 0)) || lt (of_int (pos 0)) x
  truthy (text s) = not (s == "")
  truthy (texts []) = false
  truthy (texts (_ ∷ _)) = true
  truthy (reals []) = false
  truthy (reals (_ ∷ _)) = true

  abbrev pub data_of : List (String × String) → Globals n → Dict String (Value n)
  data_of [] g = []
  data_of ((key, name) ∷ rows) g = (key, g name) ∷ data_of rows g

  -- An error is logged. The file is emptied when it is opened, so that an error behind that leaves
  -- one that is cut off, which no load reads; an error before it leaves the file as it was.
  unfoldable pub save_overrides : State n → State n
  save_overrides s =
      if s.writable
      then record s { file = some (data_of saved_rows s.globals) }
      else if s.opens
      then record s { file = none }
      else s

  -- `if data.get(key): name = data[key]`
  unfoldable pub load_if_truthy : (name : String) → Option (Value n) → Globals n → Globals n
  load_if_truthy name none g = g
  load_if_truthy name (some v) g = if truthy v then assign name v g else g

  -- `if key in data: name = data[key]`, for each row.
  abbrev pub load_row : (name : String) → Option (Value n) → Globals n → Globals n
  load_row name none g = g
  load_row name (some v) g = assign name v g

  unfoldable pub load_present :
      List (String × String) → Dict String (Value n) → Globals n → Globals n
  load_present [] stored g = g
  load_present ((key, name) ∷ rows) stored g =
      load_present rows stored (load_row name (lookup key stored) g)

  unfoldable pub load_symbols : Option (Value n) → Globals n → Globals n
  load_symbols none g = g
  load_symbols (some null) g = g
  load_symbols (some (boolean _)) g = g
  load_symbols (some (integer _)) g = g
  load_symbols (some (real _)) g = g
  load_symbols (some (text _)) g = g
  load_symbols (some (texts l)) g = assign "_ORDERFLOW_SYMBOLS_OVERRIDE" (texts l) g
  load_symbols (some (reals _)) g = g

  unfoldable pub load_tunables : Option (Value n) → Globals n → Globals n
  load_tunables none g = g
  load_tunables (some null) g = g
  load_tunables (some (boolean _)) g = g
  load_tunables (some (integer _)) g = g
  load_tunables (some (real _)) g = g
  load_tunables (some (text _)) g = g
  load_tunables (some (texts _)) g = g
  load_tunables (some (reals d)) g = assign "_HEDGE_TUNABLE_OVERRIDES" (reals d) g

  unfoldable pub load_data : Dict String (Value n) → Globals n → Globals n
  load_data stored g =
      let g1 = load_if_truthy "TRADE_MODE" (lookup "trade_mode" stored) g in
      let g2 = load_if_truthy "STOCK_MODE" (lookup "stock_mode" stored) g1 in
      let g3 = load_present loaded_rows stored g2 in
      let g4 = load_symbols (lookup "orderflow_symbols" stored) g3 in
      load_tunables (lookup "hedge_tunables" stored) g4

  -- Without a file, or with one that is cut off, nothing is read.
  unfoldable pub load_file : Option (Dict String (Value n)) → Globals n → Globals n
  load_file none g = g
  load_file (some stored) g = load_data stored g

  unfoldable pub load_overrides_from_disk : State n → State n
  load_overrides_from_disk s = record s { globals = load_file s.file s.globals }

  -- The variables as the module defines them.
  unfoldable pub initial_globals : Globals n
  initial_globals x =
      if x == "TRADE_MODE"
      then text "BUY_OPTIONS"
      else if x == "STOCK_MODE"
      then text "FNO"
      else if x == "SESSION_INVALID" || x == "_EMERGENCY_STOP" || x == "_WINDOW_STRADDLE_ENABLED"
      then boolean false
      else if x == "_TRAILING_SL_ENABLED"
      then boolean true
      else if x == "_HEDGE_TUNABLE_OVERRIDES"
      then reals []
      else null

  -- A new process on the same file.
  unfoldable pub restart : State n → State n
  restart s = load_overrides_from_disk (record s { globals = initial_globals })
