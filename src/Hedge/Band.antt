-- ===== src/Hedge/Band.antt =====
-- When a hedge is due, how wide its band is and how many lots it takes (app/hedge_core.py). The power
-- and the ceiling of a float are arguments.
use tv_zerodha_bot.Prelude.{
  ℕ, ◌+◌, ◌-◌, ◌%◌, ◌≤◌, ◌≡◌, zero, suc, min, Bool, true, false, not, ◌&&◌, ◌||◌, Option, none,
  some, List, [], ◌∷◌, ◌++◌, length, leb, ltb, ◌==◌, nat_eq, if◌then◌else◌, arith,
}
use tv_zerodha_bot.Prelude.Int.{ℤ, pos, pos_part}
use tv_zerodha_bot.Numbers.{Numbers, IsOrdered}
use tv_zerodha_bot.Hedge.Tunables.{clamp, clamp_lem}

pub data Trend : Type 0 where
  expanding contracting unknown : Trend

abbrev pub max_of : ℕ → ℕ → ℕ
max_of a b = if ltb a b then b else a

-- `l[i:]`
abbrev pub skip {ℓ} : {A : Type ℓ} → ℕ → List A → List A
skip zero l = l
skip (suc i) [] = []
skip (suc i) (x ∷ l) = skip i l

-- `l[-k:]`, which is the whole list for 0
unfoldable pub last_of {ℓ} : {A : Type ℓ} → (k : ℕ) → List A → List A
last_of k l = if k == 0 then l else skip (length l - k) l

abbrev pub same_truth : Bool → Bool → Bool
same_truth true b = b
same_truth false b = not b

module _ (n : Numbers) where
  open n use {Float, lt, le, add, sub, mul, div, neg, of_int}

  -- What is used of a `HedgeSpec` and of the settings.
  pub record HedgeSpec : Type 0 where
    pub band_base : Float
    pub band_notional_inr : Float
    pub vol_factor : Float
    pub band_min : Float
    pub band_max : Float
    pub ref_lots : ℕ
    pub interval_min : ℕ
    pub phase_min : ℕ

  pub record BandSettings : Type 0 where
    pub band_exponent : Float
    pub adverse_mult : Float
    pub favourable_mult : Float
    pub escalation_pct : Float
    -- Where there is no spec.
    pub band_ref_lots : ℕ
    pub settings_band_min : Float
    pub settings_band_max : Float

  unfoldable pub abs : Float → Float
  abs x = if lt x (of_int (pos 0)) then neg x else x

  unfoldable pub all_above : Float → List Float → Bool
  all_above z [] = true
  all_above z (x ∷ xs) = lt z x && all_above z xs

  unfoldable pub all_below : Float → List Float → Bool
  all_below z [] = true
  all_below z (x ∷ xs) = lt x z && all_below z xs

  unfoldable pub steps_of : (first : Float) → List Float → List Float
  steps_of first [] = []
  steps_of first (x ∷ xs) = sub x first ∷ steps_of x xs

  -- A history is the list of its deltas.
  unfoldable pub delta_trend : List Float → (delta_now : Float) → (samples : ℕ) → Trend
  unfolding last_of abs
  delta_trend history delta_now samples = elim (last_of samples history) [
    | [] ↦ unknown
    | first ∷ rest ↦ if lt (abs first) (abs delta_now) then expanding else contracting
  ]

  differences : List Float → List Float
  unfolding steps_of
  differences [] = []
  differences (first ∷ rest) = steps_of first rest

  confirms : List Float → (delta_now : Float) → Option Bool
  unfolding all_above all_below
  confirms [] delta_now = none
  confirms (step ∷ steps) delta_now =
      let z = of_int (pos 0) in
      some (
        (all_above z (step ∷ steps) || all_below z (step ∷ steps))
        && same_truth (lt z step) (lt z delta_now))

  -- `none` is an IndexError, for no samples and no history.
  unfoldable pub delta_velocity_confirms :
      List Float → (delta_now : Float) → (samples : ℕ) → Option Bool
  unfolding last_of differences confirms
  delta_velocity_confirms history delta_now samples =
      let series = last_of samples history ++ delta_now ∷ [] in
      let steps = differences series in
      if ltb (length series) (samples + 1) then some false else confirms steps delta_now

  -- A negative ceiling counts as 0, which the maximum makes 1 all the same.
  unfoldable pub lots_for :
      (ceil : Float → ℤ) → (excess delta_per_unit : Float) → (lot_mult max_lots : ℕ) → ℕ
  unfolding abs
  lots_for ceil excess delta_per_unit lot_mult max_lots =
      let per_lot = mul (abs delta_per_unit) (of_int (pos lot_mult)) in
      let wanted = min max_lots (pos_part (ceil (div excess per_lot))) in
      if le per_lot (of_int (pos 0)) || le excess (of_int (pos 0)) then 1 else max_of 1 wanted

module _ (n : Numbers) where
  lots_for-bounds :
      (ceil : n.Float → ℤ) (excess delta_per_unit : n.Float) (lot_mult max_lots : ℕ)
      → 1 ≤ max_lots
      → let lots = lots_for n ceil excess delta_per_unit lot_mult max_lots in
        (1 ≤ lots) × (lots ≤ max_lots)
  unfolding lots_for
  lots_for-bounds ceil excess delta lot_mult max_lots c = ground (arith, c)

module _ {n : Numbers} where
  open n use {Float, lt, le, add, sub, mul, div, of_int}

  -- `spec.x if spec else settings.x`
  abbrev pub ref_lots_of : BandSettings n → Option (HedgeSpec n) → ℕ
  ref_lots_of settings none = settings.band_ref_lots
  ref_lots_of settings (some spec) = spec.ref_lots

  abbrev pub band_min_of : BandSettings n → Option (HedgeSpec n) → Float
  band_min_of settings none = settings.settings_band_min
  band_min_of settings (some spec) = spec.band_min

  abbrev pub band_max_of : BandSettings n → Option (HedgeSpec n) → Float
  band_max_of settings none = settings.settings_band_max
  band_max_of settings (some spec) = spec.band_max

  unfoldable pub is_due : HedgeSpec n → (minute : ℕ) → (carryover : Bool) → Bool
  is_due spec minute carryover =
      carryover
      || leb spec.interval_min 1
      || (minute % spec.interval_min) == (spec.phase_min % spec.interval_min)

  -- The base, and whether it comes from the live price.
  unfoldable pub notional_band_base : HedgeSpec n → (f : Float) → Float × Bool
  notional_band_base spec f =
      let zero_f = of_int (pos 0) in
      if le spec.band_notional_inr zero_f || le f zero_f
      then (spec.band_base, false)
      else (mul (div spec.band_notional_inr f) spec.vol_factor, true)

  unfoldable pub dir_mult : BandSettings n → Trend → Float
  dir_mult settings expanding = settings.adverse_mult
  dir_mult settings contracting = settings.favourable_mult
  dir_mult settings unknown = of_int (pos 1)

  module _ (pow : Float → Float → Float) (ceil : Float → ℤ) where
    unfoldable pub compute_band :
        (base_band : Float)
        → (n_lots : ℕ) → Trend
        → (hedges_today : ℕ) → BandSettings n
        → Option (HedgeSpec n)
        → Float
    unfolding dir_mult
    compute_band base_band n_lots trend hedges_today settings given =
        let ref = max_of 1 (ref_lots_of settings given) in
        let size_mult =
          pow (div (of_int (pos (max_of 1 n_lots))) (of_int (pos ref))) settings.band_exponent in
        let esc_mult =
          add (of_int (pos 1)) (mul settings.escalation_pct (of_int (pos hedges_today))) in
        let raw = mul (mul (mul base_band size_mult) (dir_mult settings trend)) esc_mult in
        clamp n (band_min_of settings given) (band_max_of settings given) raw

    -- For ordered prices, whatever the power and the ceiling do, if the range of the band, that of
    -- the spec or without one that of the settings, is not empty and the cap is at least one lot,
    -- the band lies in that range, and a hedge is of at least one lot and at most the cap.
    pub hedge_bounded :
        (laws : IsOrdered n) (base_band excess delta_per_unit : Float)
        (n_lots hedges_today lot_mult max_lots : ℕ) (trend : Trend) (settings : BandSettings n)
        (given : Option (HedgeSpec n))
        → le (band_min_of settings given) (band_max_of settings given) ≡ true
        → 1 ≤ max_lots
        → let band = compute_band base_band n_lots trend hedges_today settings given in
          let lots = lots_for n ceil excess delta_per_unit lot_mult max_lots in
          (le (band_min_of settings given) band ≡ true)
          × (le band (band_max_of settings given) ≡ true)
          × (1 ≤ lots)
          × (lots ≤ max_lots)
    unfolding compute_band lots_for
    hedge_bounded laws base_band excess delta n_lots hedges_today lot_mult max_lots trend settings
          given h c =
        let size_mult =
          pow
            (div (of_int (pos (max_of 1 n_lots)))
              (of_int (pos (max_of 1 (ref_lots_of settings given)))))
            settings.band_exponent in
        let esc_mult =
          add (of_int (pos 1)) (mul settings.escalation_pct (of_int (pos hedges_today))) in
        let raw = mul (mul (mul base_band size_mult) (dir_mult settings trend)) esc_mult in
        let (above, below) =
          clamp_lem laws (band_min_of settings given) (band_max_of settings given) raw h in
        let (least, most) = lots_for-bounds n ceil excess delta lot_mult max_lots c in
        (above, below, least, most)
