-- ===== src/State/Tests.antt =====
-- The overrides of a fresh process, and the theorems at them.
use tv_zerodha_bot.Prelude.{◌≡◌, refl, true, false, none, some, [], inr, if◌then◌else◌}
use tv_zerodha_bot.Prelude.Int.{pos}
use tv_zerodha_bot.Numbers.Fixed.{fixed}
use tv_zerodha_bot.State.{
  State, Value, null, boolean, integer, saved_rows, save_overrides, initial_globals, truthy,
  restart,
}
use tv_zerodha_bot.State.Settings.{
  get_max_lots, set_max_lots, get_max_trades_per_day, set_max_trades_per_day,
  get_max_open_positions, set_max_open_positions, get_consecutive_losses_limit,
  set_consecutive_losses_limit,
}
use tv_zerodha_bot.State.Flip.{Flips, toggles_flip}
use tv_zerodha_bot.State.Switches.{
  is_ng_hedge_enabled, toggle_ng_hedge_enabled, is_crude_hedge_enabled, toggle_crude_hedge_enabled,
  is_crudeoilm_fmove_hedge_enabled, toggle_crudeoilm_fmove_hedge_enabled, is_ng_fmove_hedge_enabled,
  toggle_ng_fmove_hedge_enabled, is_silverm_hedge_enabled, toggle_silverm_hedge_enabled,
  is_partial_booking_enabled, toggle_partial_booking_enabled, is_entry_wings_enabled,
  toggle_entry_wings_enabled, is_ema_analyzer_enabled, toggle_ema_analyzer_enabled,
  is_orderflow_enabled, toggle_orderflow_enabled, is_straddle_defense_enabled,
  toggle_straddle_defense_enabled, set_ng_fmove_hedge_enabled, set_emergency_stop,
}
use tv_zerodha_bot.State.Restart.{IsTyped, names, is_in, restart_restores}
use tv_zerodha_bot.State.Survive.{int_or, int_limits_survive, ng_fmove_lost}

abbrev fresh : State fixed
fresh = record { globals = initial_globals; file = none; writable = true; opens = true }

fresh-IsTyped : IsTyped fresh.globals
unfolding initial_globals truthy
fresh-IsTyped = record {
  trade_mode = refl;
  stock_mode = refl;
  symbols = inr refl;
  tunables = ([], refl);
}

abbrev env : Value fixed
env = integer (pos 2)

restart_restores_example : (restart (save_overrides fresh)).globals "TRADE_MODE" ≡ (
    if is_in "TRADE_MODE" (names saved_rows)
    then fresh.globals "TRADE_MODE"
    else initial_globals "TRADE_MODE")
restart_restores_example = restart_restores fresh "TRADE_MODE" refl fresh-IsTyped

int_limits_survive_example :
    (get_max_lots env (restart (set_max_lots (some (pos 3)) fresh)) ≡ int_or env (some (pos 3)))
    × (get_max_trades_per_day env (restart (set_max_trades_per_day (some (pos 3)) fresh))
        ≡ int_or env (some (pos 3)))
    × (get_max_open_positions env (restart (set_max_open_positions (some (pos 3)) fresh))
        ≡ int_or env (some (pos 3)))
    × (get_consecutive_losses_limit env
          (restart (set_consecutive_losses_limit (some (pos 3)) fresh))
        ≡ int_or env (some (pos 3)))
int_limits_survive_example = int_limits_survive fresh refl fresh-IsTyped env (some (pos 3))

ng_fmove_lost_example :
    ((restart (set_ng_fmove_hedge_enabled true fresh)).globals "_NG_FMOVE_HEDGE_ENABLED_OVERRIDE"
      ≡ null)
    × ((restart (set_emergency_stop true (save_overrides fresh))).globals "_EMERGENCY_STOP"
        ≡ boolean false)
ng_fmove_lost_example = ng_fmove_lost fresh refl fresh-IsTyped env true true

toggles_flip_example :
    Flips (is_ng_hedge_enabled env) (toggle_ng_hedge_enabled env) fresh
    × Flips (is_crude_hedge_enabled env) (toggle_crude_hedge_enabled env) fresh
    × Flips (is_crudeoilm_fmove_hedge_enabled env) (toggle_crudeoilm_fmove_hedge_enabled env) fresh
    × Flips (is_ng_fmove_hedge_enabled env) (toggle_ng_fmove_hedge_enabled env) fresh
    × Flips (is_silverm_hedge_enabled env) (toggle_silverm_hedge_enabled env) fresh
    × Flips (is_partial_booking_enabled env) (toggle_partial_booking_enabled env) fresh
    × Flips (is_entry_wings_enabled env) (toggle_entry_wings_enabled env) fresh
    × Flips (is_ema_analyzer_enabled env) (toggle_ema_analyzer_enabled env) fresh
    × Flips (is_orderflow_enabled env) (toggle_orderflow_enabled env) fresh
    × Flips (is_straddle_defense_enabled env) (toggle_straddle_defense_enabled env) fresh
toggles_flip_example = toggles_flip env fresh
