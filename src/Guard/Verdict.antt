-- ===== src/Guard/Verdict.antt =====
-- `evaluate` (app/commodity_agents/risk_guard.py). A reason is named, not spelled out.
use tv_zerodha_bot.Prelude.{
  ℕ, String, Bool, true, false, ◌&&◌, Option, none, some, List, [], ◌∷◌, ◌++◌, member, leb, ltb,
  string_eq, if◌then◌else◌,
}
use tv_zerodha_bot.Prelude.Int.{pos}
use tv_zerodha_bot.Numbers.{Numbers}

abbrev pub short_premium_strategies : List String
short_premium_strategies =
    "short_straddle" ∷ "short_strangle" ∷ "short_call" ∷ "short_put" ∷ "iron_fly" ∷ []

pub data Reason : Type 0 where
  blackout_window daily_loss too_many_lots no_loss_estimate loss_per_lot correlated_shorts : Reason
  too_many_positions no_margin margin_utilization : Reason

module _ (n : Numbers) where
  open n use {Float}

  pub record RiskLimits : Type 0 where
    pub max_loss_per_lot : Float
    pub max_daily_loss : Float
    pub max_concurrent_commodities : ℕ
    pub max_margin_util_pct : Float
    pub max_lots : ℕ

  -- A strategy is a text or none; of the blackout it only matters whether there is one. The names of
  -- the commodity and the group stand in the texts of the reasons only.
  pub record RiskInput : Type 0 where
    pub strategy_type : Option String
    pub lots : ℕ
    pub est_max_loss_per_lot : Option Float
    pub daily_realized_pnl : Float
    pub open_commodity_count : ℕ
    pub margin_available : Option Float
    pub margin_required : Option Float
    pub blackout : Bool
    pub open_group_shorts : ℕ

  pub record RiskVerdict : Type 0 where
    pub approved : Bool
    pub reasons : List Reason

abbrev pub no_reasons : List Reason → Bool
no_reasons [] = true
no_reasons (r ∷ rs) = false

-- `if test: reasons.append(reason)`
abbrev pub reason_if : Bool → Reason → List Reason
reason_if test reason = if test then reason ∷ [] else []

-- Is there nothing to trade?
unfoldable pub is_idle : Option String → Bool
is_idle none = true
is_idle (some s) = member s ("none" ∷ "" ∷ [])

unfoldable pub is_short_premium : Option String → Bool
is_short_premium none = false
is_short_premium (some s) = member s short_premium_strategies

module _ (n : Numbers) where
  open n use {Float, lt, le, mul, div, neg, of_int}

  unfoldable pub loss_reasons : (cap : Float) → (estimate : Option Float) → List Reason
  loss_reasons most none = no_loss_estimate ∷ []
  loss_reasons most (some loss) = reason_if (lt most loss) loss_per_lot

  unfoldable pub margin_reasons : (cap : Float) → (available required : Option Float) → List Reason
  margin_reasons most none required = []
  margin_reasons most (some available) none = []
  margin_reasons most (some available) (some required) =
      if le available (of_int (pos 0))
      then no_margin ∷ []
      else reason_if (lt most (div (mul (of_int (pos 100)) required) available)) margin_utilization

module _ {n : Numbers} where
  open n use {le, neg}

  unfoldable pub all_reasons : RiskLimits n → RiskInput n → List Reason
  unfolding is_short_premium loss_reasons margin_reasons
  all_reasons limits inp =
      let is_short = is_short_premium inp.strategy_type in
      reason_if (is_short && inp.blackout) blackout_window
      ++ (reason_if (le limits.max_daily_loss (neg inp.daily_realized_pnl)) daily_loss
          ++ (reason_if (ltb limits.max_lots inp.lots) too_many_lots
              ++ ((if is_short
                    then loss_reasons n limits.max_loss_per_lot inp.est_max_loss_per_lot
                    else [])
                  ++ (reason_if (is_short && leb 1 inp.open_group_shorts) correlated_shorts
                      ++ (reason_if (leb limits.max_concurrent_commodities inp.open_commodity_count)
                            too_many_positions
                          ++ margin_reasons n limits.max_margin_util_pct inp.margin_available
                              inp.margin_required)))))

  unfoldable pub evaluate : RiskLimits n → RiskInput n → RiskVerdict n
  unfolding is_idle all_reasons
  evaluate limits inp =
      if is_idle inp.strategy_type
      then record { approved = true; reasons = [] }
      else (let reasons = all_reasons limits inp in
          record { approved = no_reasons reasons; reasons = reasons })
