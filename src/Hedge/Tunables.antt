-- ===== src/Hedge/Tunables.antt =====
-- The thresholds of the hedge engines (app/hedge_tunables.py). The registry is an argument; of a
-- settings object the attribute of a name is read.
use tv_zerodha_bot.Prelude.{
  String, ◌≡◌, refl, true, Option, none, some, List, [], ◌∷◌, map, ◌==◌, string_eq, if◌then◌else◌,
  Bool-cases, inl, inr,
}
use tv_zerodha_bot.Prelude.Int.{ℤ}
use tv_zerodha_bot.Prelude.Dict.{Dict}
use tv_zerodha_bot.Numbers.{Numbers, IsOrdered}
use tv_zerodha_bot.State.{State}
use tv_zerodha_bot.State.Lists.{get_hedge_tunable}

pub data Kind : Type 0 where
  float_kind int_kind : Kind

module _ (n : Numbers) where
  open n use {Float, lt}

  -- What is used of a `Tunable` for its value.
  pub record Tunable : Type 0 where
    pub key : String
    pub env_attr : String
    pub kind : Kind
    pub lo : Float
    pub hi : Float

  pub record Engine : Type 0 where
    pub slug : String
    pub tunables : List Tunable

  pub data Number : Type 0 where
    whole : ℤ → Number
    fraction : Float → Number

  -- `max(lo, min(hi, x))`
  unfoldable pub clamp : (lo hi x : Float) → Float
  clamp lo hi x = let least = if lt x hi then x else hi in if lt lo least then least else lo

module _ {n : Numbers} where
  open n use {Float, le, lt, round}

  of_kind : Kind → Float → Number n
  of_kind float_kind x = fraction x
  of_kind int_kind x = whole (round x)

  unfoldable pub coerce : Tunable n → (raw : Float) → Number n
  unfolding of_kind clamp
  coerce t raw = of_kind t.kind (clamp n t.lo t.hi raw)

  unfoldable pub find_tunable : (key : String) → List (Tunable n) → Option (Tunable n)
  find_tunable key [] = none
  find_tunable key (t ∷ ts) = if t.key == key then some t else find_tunable key ts

  unfoldable pub find_engine : (slug : String) → List (Engine n) → Option (Engine n)
  find_engine slug [] = none
  find_engine slug (e ∷ es) = if e.slug == slug then some e else find_engine slug es

  -- One threshold: the override if there is one, or the default of the settings, in its range.
  unfoldable pub effective_of :
      (settings : String → Float) → (slug : String) → State n → Tunable n → Number n
  unfolding coerce
  effective_of settings slug s t = coerce t (get_hedge_tunable slug t.key (settings t.env_attr) s)

  -- `none` is a KeyError.
  unfoldable pub effective :
      List (Engine n)
      → (settings : String → Float) → (slug key : String) → State n
      → Option (Number n)
  unfolding effective_of
  effective engines settings slug key s = elim (find_engine slug engines) [
    | none ↦ none
    | some e ↦ elim (find_tunable key e.tunables) [
      | none ↦ none
      | some t ↦ some (effective_of settings slug s t)
    ]
  ]

  unfoldable pub all_effective :
      (settings : String → Float) → Engine n → State n → Dict String (Number n)
  unfolding effective_of
  all_effective settings e s = map (λ t. (t.key, effective_of settings e.slug s t)) e.tunables

  -- A value of a threshold in its range; a whole one is the rounding of such a value.
  abbrev pub IsWithin : Tunable n → Number n → Type 0
  IsWithin t (fraction x) = (le t.lo x ≡ true) × (le x t.hi ≡ true)
  IsWithin t (whole i) = (x : Float) × (i ≡ round x) × (le t.lo x ≡ true) × (le x t.hi ≡ true)

  pub clamp_lem :
      (laws : IsOrdered n) (lo hi x : Float)
      → le lo hi ≡ true
      → (le lo (clamp n lo hi x) ≡ true) × (le (clamp n lo hi x) hi ≡ true)
  unfolding clamp
  clamp_lem laws lo hi x h = elim (Bool-cases (lt x hi)) [
    | inl below ↦ elim (Bool-cases (lt lo x)) [
      | inl above ↦ rw (below, above) (laws.le_of_lt lo x above, laws.le_of_lt x hi below)
      | inr under ↦ rw (below, under) (laws.le_refl lo, h)
    ]
    | inr over ↦ elim (Bool-cases (lt lo hi)) [
      | inl proper ↦ rw (over, proper) (h, laws.le_refl hi)
      | inr point ↦ rw (over, point) (laws.le_refl lo, h)
    ]
  ]

  of_kind-Within :
      (t : Tunable n) (kind : Kind) (x : Float)
      → le t.lo x ≡ true
      → le x t.hi ≡ true
      → IsWithin t (of_kind kind x)
  unfolding of_kind
  of_kind-Within t float_kind x a b = (a, b)
  of_kind-Within t int_kind x a b = (x, refl, a, b)

  -- For ordered prices, if the range of a threshold is not empty, its effective value lies in the
  -- range whatever the overrides and the settings say, and a whole number is the rounding of such a
  -- value.
  pub effective_of-IsWithin :
      (laws : IsOrdered n) (settings : String → Float) (slug : String) (s : State n) (t : Tunable n)
      → le t.lo t.hi ≡ true
      → IsWithin t (effective_of settings slug s t)
  unfolding effective_of coerce
  effective_of-IsWithin laws settings slug s t h =
      let x = get_hedge_tunable slug t.key (settings t.env_attr) s in
      let (a, b) = clamp_lem laws t.lo t.hi x h in of_kind-Within t t.kind (clamp n t.lo t.hi x) a b
