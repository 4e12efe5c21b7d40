-- ===== src/State/Flip.antt =====
-- What a toggle of app/state.py does, whether or not the file can be written.
use tv_zerodha_bot.Prelude.{String, ◌≡◌, refl, not, string_eq, Bool-cases, inl, inr}
use tv_zerodha_bot.Prelude.Dict.{eq_self}
use tv_zerodha_bot.Numbers.{Numbers}
use tv_zerodha_bot.State.{Value, State, boolean, assign, truthy, save_overrides}
use tv_zerodha_bot.State.Settings.{value_or, assign_and_save}
use tv_zerodha_bot.State.Switches.{
  toggle_from, is_ng_hedge_enabled, toggle_ng_hedge_enabled, is_crude_hedge_enabled,
  toggle_crude_hedge_enabled, is_crudeoilm_fmove_hedge_enabled,
  toggle_crudeoilm_fmove_hedge_enabled, is_ng_fmove_hedge_enabled, toggle_ng_fmove_hedge_enabled,
  is_silverm_hedge_enabled, toggle_silverm_hedge_enabled, is_partial_booking_enabled,
  toggle_partial_booking_enabled, is_entry_wings_enabled, toggle_entry_wings_enabled,
  is_ema_analyzer_enabled, toggle_ema_analyzer_enabled, is_orderflow_enabled,
  toggle_orderflow_enabled, is_straddle_defense_enabled, toggle_straddle_defense_enabled,
}

module _ {n : Numbers} where
  pub assign_and_save-globals :
      (name x : String) (v : Value n) (s : State n)
      → (assign_and_save name v s).globals x ≡ assign name v s.globals x
  unfolding assign_and_save save_overrides
  assign_and_save-globals name x v s = elim (Bool-cases s.writable) [
    | inl writable ↦ rw writable refl
    | inr fails ↦ elim (Bool-cases s.opens) [
      | inl opens ↦ rw (fails, opens) refl
      | inr closed ↦ rw (fails, closed) refl
    ]
  ]

  -- The toggle answers the negation of what the getter said, and the getter says so afterwards.
  abbrev pub Flips : (State n → Value n) → (State n → Value n × State n) → State n → Type 0
  Flips get toggle s =
      ((toggle s).0 ≡ boolean (not (truthy (get s)))) × (get (toggle s).1 ≡ (toggle s).0)

  toggle_from-Flips :
      (name : String) (env : Value n) (s : State n)
      → Flips (λ t. value_or env (t.globals name)) (toggle_from name env) s
  unfolding toggle_from value_or
  toggle_from-Flips name env s = (
    refl,
    rw
        (
          assign_and_save-globals name name (boolean (not (truthy (value_or env (s.globals name)))))
              s,
          eq_self name,
        )
        refl,
  )

  -- Each toggle of an engine answers the negation of what its getter said, the default of the
  -- environment included, and its getter says so from then on, also if the file cannot be written.
  pub toggles_flip :
      (env : Value n) (s : State n)
      → Flips (is_ng_hedge_enabled env) (toggle_ng_hedge_enabled env) s
        × Flips (is_crude_hedge_enabled env) (toggle_crude_hedge_enabled env) s
        × Flips (is_crudeoilm_fmove_hedge_enabled env) (toggle_crudeoilm_fmove_hedge_enabled env) s
        × Flips (is_ng_fmove_hedge_enabled env) (toggle_ng_fmove_hedge_enabled env) s
        × Flips (is_silverm_hedge_enabled env) (toggle_silverm_hedge_enabled env) s
        × Flips (is_partial_booking_enabled env) (toggle_partial_booking_enabled env) s
        × Flips (is_entry_wings_enabled env) (toggle_entry_wings_enabled env) s
        × Flips (is_ema_analyzer_enabled env) (toggle_ema_analyzer_enabled env) s
        × Flips (is_orderflow_enabled env) (toggle_orderflow_enabled env) s
        × Flips (is_straddle_defense_enabled env) (toggle_straddle_defense_enabled env) s
  unfolding is_ng_hedge_enabled toggle_ng_hedge_enabled is_crude_hedge_enabled
      toggle_crude_hedge_enabled is_crudeoilm_fmove_hedge_enabled
      toggle_crudeoilm_fmove_hedge_enabled is_ng_fmove_hedge_enabled toggle_ng_fmove_hedge_enabled
      is_silverm_hedge_enabled toggle_silverm_hedge_enabled is_partial_booking_enabled
      toggle_partial_booking_enabled is_entry_wings_enabled toggle_entry_wings_enabled
      is_ema_analyzer_enabled toggle_ema_analyzer_enabled is_orderflow_enabled
      toggle_orderflow_enabled is_straddle_defense_enabled toggle_straddle_defense_enabled
  toggles_flip env s = (
    toggle_from-Flips "_NG_HEDGE_ENABLED_OVERRIDE" env s,
    toggle_from-Flips "_CRUDE_HEDGE_ENABLED_OVERRIDE" env s,
    toggle_from-Flips "_CRUDEOILM_FMOVE_HEDGE_ENABLED_OVERRIDE" env s,
    toggle_from-Flips "_NG_FMOVE_HEDGE_ENABLED_OVERRIDE" env s,
    toggle_from-Flips "_SILVERM_HEDGE_ENABLED_OVERRIDE" env s,
    toggle_from-Flips "_PARTIAL_BOOKING_ENABLED_OVERRIDE" env s,
    toggle_from-Flips "_ENTRY_WINGS_ENABLED_OVERRIDE" env s,
    toggle_from-Flips "_EMA_ANALYZER_ENABLED_OVERRIDE" env s,
    toggle_from-Flips "_ORDERFLOW_ENABLED_OVERRIDE" env s,
    toggle_from-Flips "_STRADDLE_DEFENSE_ENABLED_OVERRIDE" env s,
  )
