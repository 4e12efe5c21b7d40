-- ===== src/State/Survive.antt =====
-- What is set survives a restart (app/state.py), and what does not.
use tv_zerodha_bot.Prelude.{
  String, ◌≡◌, refl, ap, ◌∙◌, Bool, true, false, Option, none, some, ◌==◌, string_eq, if◌then◌else◌,
  arith,
}
use tv_zerodha_bot.Prelude.Dict.{eq_self}
use tv_zerodha_bot.Prelude.Int.{ℤ, pos, ltb_ℤ}
use tv_zerodha_bot.Numbers.{Numbers}
use tv_zerodha_bot.State.{
  Value, Globals, State, null, boolean, integer, real, assign, saved_rows, save_overrides,
  initial_globals, restart,
}
use tv_zerodha_bot.State.Settings.{
  value_or, assign_and_save, positive_int, positive_real, get_max_lots, set_max_lots,
  get_max_trades_per_day, set_max_trades_per_day, get_max_open_positions, set_max_open_positions,
  get_consecutive_losses_limit, set_consecutive_losses_limit, get_max_daily_loss,
  set_max_daily_loss, get_sl_pct, set_sl_pct, get_rr_ratio, set_rr_ratio, get_capital_per_trade,
  set_capital_per_trade, get_adx_threshold, set_adx_threshold,
}
use tv_zerodha_bot.State.Switches.{set_ng_fmove_hedge_enabled, set_emergency_stop}
use tv_zerodha_bot.State.Restart.{IsTyped, names, is_in, restart_restores}

-- The variable is none of those that are tested when they are read.
abbrev pub IsPlain : String → Type 0
IsPlain name =
    (("TRADE_MODE" == name) ≡ false)
    × (("STOCK_MODE" == name) ≡ false)
    × (("_ORDERFLOW_SYMBOLS_OVERRIDE" == name) ≡ false)
    × (("_HEDGE_TUNABLE_OVERRIDES" == name) ≡ false)

module _ {n : Numbers} where
  open n use {Float, lt, of_int}

  assign-IsTyped :
      (name : String) (v : Value n) (g : Globals n)
      → IsPlain name
      → IsTyped g
      → IsTyped (assign name v g)
  assign-IsTyped name v g (a, b, c, d) t = record {
    trade_mode = rw a t.trade_mode;
    stock_mode = rw b t.stock_mode;
    symbols = rw c t.symbols;
    tunables = rw d t.tunables;
  }

  after_restart :
      (name x : String) (v : Value n) (s : State n)
      → IsPlain name
      → s.writable ≡ true
      → IsTyped s.globals
      → (restart (assign_and_save name v s)).globals x
        ≡ (if is_in x (names saved_rows) then assign name v s.globals x else initial_globals x)
  unfolding assign_and_save
  after_restart name x v s plain writable t =
      restart_restores (record s { globals = assign name v s.globals }) x writable
        (assign-IsTyped name v s.globals plain t)

  -- A limit that is accepted holds; any other resets to the default of the environment.
  abbrev pub int_or : Value n → Option ℤ → Value n
  int_or env none = env
  int_or env (some i) = if ltb_ℤ (pos 0) i then integer i else env

  abbrev pub real_or : Value n → Option Float → Value n
  real_or env none = env
  real_or env (some x) = if lt (of_int (pos 0)) x then real x else env

  value_or-positive_int :
      (env : Value n) (i : Option ℤ) → value_or env (positive_int i) ≡ int_or env i
  unfolding value_or positive_int
  value_or-positive_int env none = refl
  value_or-positive_int env (some i) = ground arith

  value_or-positive_real :
      (env : Value n) (x : Option Float) → value_or env (positive_real x) ≡ real_or env x
  unfolding value_or positive_real
  value_or-positive_real env none = refl
  value_or-positive_real env (some x) = ground arith

  module _ (s : State n) (writable : s.writable ≡ true) (typed : IsTyped s.globals)
      (env : Value n) where
    kept_value :
        (name : String) (v : Value n)
        → IsPlain name
        → is_in name (names saved_rows) ≡ true
        → (restart (assign_and_save name v s)).globals name ≡ v
    kept_value name v plain saved =
        after_restart name name v s plain writable typed ∙ rw (saved, eq_self name) refl

    kept_int :
        (i : Option ℤ) (name : String)
        → IsPlain name
        → is_in name (names saved_rows) ≡ true
        → value_or env ((restart (assign_and_save name (positive_int i) s)).globals name)
          ≡ int_or env i
    kept_int i name plain saved =
        ap (value_or env) (kept_value name (positive_int i) plain saved)
        ∙ value_or-positive_int env i

    kept_real :
        (x : Option Float) (name : String)
        → IsPlain name
        → is_in name (names saved_rows) ≡ true
        → value_or env ((restart (assign_and_save name (positive_real x) s)).globals name)
          ≡ real_or env x
    kept_real x name plain saved =
        ap (value_or env) (kept_value name (positive_real x) plain saved)
        ∙ value_or-positive_real env x

    -- If the file can be written, the two modes are not empty, the symbols are a list or were never
    -- set, and the thresholds are a dict of numbers, then the whole-number limits on trading are in
    -- force after a restart as they were set: a positive one holds, and any other one, or none,
    -- means the default of the environment.
    pub int_limits_survive :
        (i : Option ℤ)
        → (get_max_lots env (restart (set_max_lots i s)) ≡ int_or env i)
          × (get_max_trades_per_day env (restart (set_max_trades_per_day i s)) ≡ int_or env i)
          × (get_max_open_positions env (restart (set_max_open_positions i s)) ≡ int_or env i)
          × (get_consecutive_losses_limit env (restart (set_consecutive_losses_limit i s))
              ≡ int_or env i)
    unfolding get_max_lots set_max_lots get_max_trades_per_day set_max_trades_per_day
        get_max_open_positions set_max_open_positions get_consecutive_losses_limit
        set_consecutive_losses_limit
    int_limits_survive i = (
      kept_int i "_MAX_LOTS_OVERRIDE" (refl, refl, refl, refl) refl,
      kept_int i "_MAX_TRADES_PER_DAY_OVERRIDE" (refl, refl, refl, refl) refl,
      kept_int i "_MAX_OPEN_POSITIONS_OVERRIDE" (refl, refl, refl, refl) refl,
      kept_int i "_CONSECUTIVE_LOSSES_LIMIT_OVERRIDE" (refl, refl, refl, refl) refl,
    )

    -- If the file can be written, the two modes are not empty, the symbols are a list or were never
    -- set, and the thresholds are a dict of numbers, then the limits on loss, stop, ratio, capital
    -- and ADX that are not whole numbers are in force after a restart as they were set: a positive
    -- one holds, and any other one, or none, means the default of the environment.
    pub real_limits_survive :
        (x : Option Float)
        → (get_max_daily_loss env (restart (set_max_daily_loss x s)) ≡ real_or env x)
          × (get_sl_pct env (restart (set_sl_pct x s)) ≡ real_or env x)
          × (get_rr_ratio env (restart (set_rr_ratio x s)) ≡ real_or env x)
          × (get_capital_per_trade env (restart (set_capital_per_trade x s)) ≡ real_or env x)
          × (get_adx_threshold env (restart (set_adx_threshold x s)) ≡ real_or env x)
    unfolding get_max_daily_loss set_max_daily_loss get_sl_pct set_sl_pct get_rr_ratio set_rr_ratio
        get_capital_per_trade set_capital_per_trade get_adx_threshold set_adx_threshold
    real_limits_survive x = (
      kept_real x "_MAX_DAILY_LOSS_OVERRIDE" (refl, refl, refl, refl) refl,
      kept_real x "_SL_PCT_OVERRIDE" (refl, refl, refl, refl) refl,
      kept_real x "_RR_RATIO_OVERRIDE" (refl, refl, refl, refl) refl,
      kept_real x "_CAPITAL_PER_TRADE_OVERRIDE" (refl, refl, refl, refl) refl,
      kept_real x "_ADX_THRESHOLD_OVERRIDE" (refl, refl, refl, refl) refl,
    )

    emergency_stop_lost :
        (stop : Bool)
        → (restart (set_emergency_stop stop (save_overrides s))).globals "_EMERGENCY_STOP"
          ≡ boolean false
    unfolding set_emergency_stop restart initial_globals
    emergency_stop_lost stop = restart_restores s "_EMERGENCY_STOP" writable typed

    -- If the file can be written, the two modes are not empty, the symbols are a list or were never
    -- set, and the thresholds are a dict of numbers, then a restart forgets two settings: the
    -- emergency stop, and the hedge of natural gas by its moves, also when it was just switched on
    -- or off.
    pub ng_fmove_lost :
        (value stop : Bool)
        → ((restart (set_ng_fmove_hedge_enabled value s)).globals "_NG_FMOVE_HEDGE_ENABLED_OVERRIDE"
            ≡ null)
          × ((restart (set_emergency_stop stop (save_overrides s))).globals "_EMERGENCY_STOP"
              ≡ boolean false)
    unfolding set_ng_fmove_hedge_enabled initial_globals
    ng_fmove_lost value stop = (
      after_restart "_NG_FMOVE_HEDGE_ENABLED_OVERRIDE" "_NG_FMOVE_HEDGE_ENABLED_OVERRIDE"
          (boolean value) s (refl, refl, refl, refl) writable typed,
      emergency_stop_lost stop,
    )
