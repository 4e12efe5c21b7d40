-- ===== src/Guard/Tests.antt =====
-- A short straddle inside the limits, and the theorem at these inputs.
use tv_zerodha_bot.Prelude.{ℕ, ◌≡◌, refl, ◌⊎◌, true, false, some, arith}
use tv_zerodha_bot.Prelude.Int.{pos, ◌-ℤ◌}
use tv_zerodha_bot.Numbers.Fixed.{fixed, fixed-IsOrdered}
use tv_zerodha_bot.Guard.Verdict.{
  RiskLimits, RiskInput, is_idle, is_short_premium, loss_reasons, margin_reasons, all_reasons,
  evaluate,
}
use tv_zerodha_bot.Guard.Monotone.{IsGuarded, evaluate_guards}

abbrev limits : ℕ → RiskLimits fixed
limits lots = record {
  max_loss_per_lot = pos 100000000;
  max_daily_loss = pos 200000000;
  max_concurrent_commodities = 3;
  max_margin_util_pct = pos 800000;
  max_lots = lots;
}

abbrev straddle : RiskInput fixed
straddle = record {
  strategy_type = some "short_straddle";
  lots = 2;
  est_max_loss_per_lot = some (pos 50000000);
  daily_realized_pnl = pos 0 -ℤ pos 10000000;
  open_commodity_count = 1;
  margin_available = some (pos 5000000000);
  margin_required = some (pos 1000000000);
  blackout = false;
  open_group_shorts = 0;
}

is_approved : (evaluate (limits 2) straddle).approved ≡ true
unfolding evaluate all_reasons is_idle is_short_premium loss_reasons margin_reasons ◌-ℤ◌
is_approved = refl

evaluate_guards_example :
    ((is_idle (some "short_straddle") ≡ true) ⊎ IsGuarded (limits 2) straddle)
    × ((evaluate (limits 4) straddle).approved ≡ true)
evaluate_guards_example =
    evaluate_guards fixed-IsOrdered (limits 2) (limits 4) straddle
      (refl, refl, omega arith, refl, omega arith) is_approved
