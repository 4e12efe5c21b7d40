-- ===== src/State/Modes.antt =====
-- What the switches of a mode and of a symbol (app/state.py) do, whether or not the file can be
-- written.
use tv_zerodha_bot.Prelude.{String, ◌≡◌, refl, ◌∙◌, ap, sym, subst, string_eq, arith, inl, inr, ◌⊎◌}
use tv_zerodha_bot.Numbers.{Numbers}
use tv_zerodha_bot.State.{State, text}
use tv_zerodha_bot.State.Settings.{value_or}
use tv_zerodha_bot.State.Flip.{assign_and_save-globals}
use tv_zerodha_bot.State.Lists.{
  next_mode, known_mode, text_of, get_straddle_defense_mode, cycle_straddle_defense_mode,
}

-- A mode is one of three.
known_mode_cases :
    (m : String) → (known_mode m ≡ "ALERT") ⊎ (known_mode m ≡ "SEMI_AUTO") ⊎ (known_mode m ≡ "AUTO")
unfolding known_mode
known_mode_cases m = ground (
  arith,
  string_eq.same_iff "ALERT" m,
  string_eq.same_iff "SEMI_AUTO" m,
  string_eq.same_iff "AUTO" m,
)

-- The next of a known mode is known, and three steps lead back.
abbrev Turns : String → Type 0
Turns m = (known_mode (next_mode m) ≡ next_mode m) × (next_mode (next_mode (next_mode m)) ≡ m)

next_mode_lem : (m : String) → Turns (known_mode m)
unfolding known_mode next_mode
next_mode_lem m = elim (known_mode_cases m) [
  | inl e ↦ subst Turns (sym e) (refl, refl)
  | inr (inl e) ↦ subst Turns (sym e) (refl, refl)
  | inr (inr e) ↦ subst Turns (sym e) (refl, refl)
]

module _ {n : Numbers} where
  -- The mode that is got after a cycle.
  get-cycle :
      (env : String) (s : State n)
      → get_straddle_defense_mode env (cycle_straddle_defense_mode env s).1
        ≡ next_mode (get_straddle_defense_mode env s)
  unfolding get_straddle_defense_mode cycle_straddle_defense_mode value_or
  get-cycle env s =
      let stored = text_of (value_or (text env) (s.globals "_STRADDLE_DEFENSE_MODE_OVERRIDE")) in
      rw
        (assign_and_save-globals "_STRADDLE_DEFENSE_MODE_OVERRIDE" "_STRADDLE_DEFENSE_MODE_OVERRIDE"
          (text (next_mode (known_mode stored))) s)
        (next_mode_lem stored).0

  get-Turns :
      (env : String) (s : State n)
      → let m = get_straddle_defense_mode env s in next_mode (next_mode (next_mode m)) ≡ m
  unfolding get_straddle_defense_mode
  get-Turns env s =
      (next_mode_lem
        (text_of (value_or (text env) (s.globals "_STRADDLE_DEFENSE_MODE_OVERRIDE")))).1

  -- Each cycle of the straddle defence mode answers the mode that is got from then on, the next of
  -- the three, and after three cycles the mode is the first one again, also if the stored or
  -- default one is unknown, and if the file cannot be written.
  pub cycle_straddle_defense_mode_lem :
      (env : String) (s : State n)
      → let (m1, s1) = cycle_straddle_defense_mode env s in
        let (m2, s2) = cycle_straddle_defense_mode env s1 in
        let (m3, s3) = cycle_straddle_defense_mode env s2 in
        (get_straddle_defense_mode env s1 ≡ m1)
        × (m2 ≡ next_mode m1)
        × (m3 ≡ get_straddle_defense_mode env s)
        × (get_straddle_defense_mode env s3 ≡ get_straddle_defense_mode env s)
  unfolding cycle_straddle_defense_mode
  cycle_straddle_defense_mode_lem env s =
      let s1 = (cycle_straddle_defense_mode env s).1 in
      let s2 = (cycle_straddle_defense_mode env s1).1 in
      let g1 = get-cycle env s in
      let g2 = get-cycle env s1 in
      let back : next_mode (get_straddle_defense_mode env s2) ≡ get_straddle_defense_mode env s =
        ap next_mode (g2 ∙ ap next_mode g1) ∙ get-Turns env s in
      (g1, ap next_mode g1, back, get-cycle env s2 ∙ back)
