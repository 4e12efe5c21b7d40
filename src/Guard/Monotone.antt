-- ===== src/Guard/Monotone.antt =====
-- Tighter limits approve no more (app/commodity_agents/risk_guard.py).
use tv_zerodha_bot.Prelude.{
  ◌≤◌, ◌<◌, ◌⊎◌, ◌≡◌, refl, Bool, true, false, ◌&&◌, Option, none, some, List, [], ◌∷◌, ◌++◌, leb,
  ltb, if◌then◌else◌, arith, Bool-cases, inl, inr,
}
use tv_zerodha_bot.Prelude.Int.{pos}
use tv_zerodha_bot.Numbers.{Numbers, IsOrdered}
use tv_zerodha_bot.Guard.Verdict.{
  RiskLimits, RiskInput, Reason, blackout_window, daily_loss, too_many_lots, correlated_shorts,
  too_many_positions, no_reasons, reason_if, is_idle, is_short_premium, loss_reasons,
  margin_reasons, all_reasons, evaluate,
}

-- Two lists of reasons are empty together.
split :
    (xs ys : List Reason)
    → no_reasons (xs ++ ys) ≡ true
    → (no_reasons xs ≡ true) × (no_reasons ys ≡ true)
split [] ys h = (refl, h)
split (x ∷ xs) ys h = ground (arith, h)

join :
    (xs ys : List Reason)
    → no_reasons xs ≡ true
    → no_reasons ys ≡ true
    → no_reasons (xs ++ ys) ≡ true
join [] ys h k = k
join (x ∷ xs) ys h k = h

module _ {n : Numbers} where
  open n use {Float, lt, le, neg}

  -- Every limit of the one is at most that of the other.
  abbrev pub IsTighter : RiskLimits n → RiskLimits n → Type 0
  IsTighter a b =
      (le a.max_loss_per_lot b.max_loss_per_lot ≡ true)
      × (le a.max_daily_loss b.max_daily_loss ≡ true)
      × (a.max_concurrent_commodities ≤ b.max_concurrent_commodities)
      × (le a.max_margin_util_pct b.max_margin_util_pct ≡ true)
      × (a.max_lots ≤ b.max_lots)

  below : (laws : IsOrdered n) (a b x : Float) → le a b ≡ true → lt a x ≡ false → lt b x ≡ false
  below laws a b x h e =
      ground (arith, laws.lt-not-le a x, laws.lt-not-le b x, laws.le_trans x a b, h, e)

  loss_reasons_lem :
      (laws : IsOrdered n) (short : Bool) (a b : Float) (o : Option Float)
      → le a b ≡ true
      → no_reasons (if short then loss_reasons n a o else []) ≡ true
      → no_reasons (if short then loss_reasons n b o else []) ≡ true
  unfolding loss_reasons
  loss_reasons_lem laws false a b o h e = refl
  loss_reasons_lem laws true a b none h e = e
  loss_reasons_lem laws true a b (some x) h e = ground (arith, below laws a b x h, e)

  margin_reasons_lem :
      (laws : IsOrdered n) (a b : Float) (o r : Option Float)
      → le a b ≡ true
      → no_reasons (margin_reasons n a o r) ≡ true
      → no_reasons (margin_reasons n b o r) ≡ true
  unfolding margin_reasons
  margin_reasons_lem laws a b none r h e = refl
  margin_reasons_lem laws a b (some x) none h e = refl
  margin_reasons_lem laws a b (some x) (some y) h e =
      let used = n.div (n.mul (n.of_int (pos 100)) y) x in ground (arith, below laws a b used h, e)

  all_reasons_lem :
      (laws : IsOrdered n) (a b : RiskLimits n) (inp : RiskInput n)
      → IsTighter a b
      → no_reasons (all_reasons a inp) ≡ true
      → no_reasons (all_reasons b inp) ≡ true
  unfolding all_reasons
  all_reasons_lem laws a b inp (loss, daily, count, util, lots) h =
      let short = is_short_premium inp.strategy_type in
      let (h1, t1) = split (reason_if (short && inp.blackout) blackout_window) _ h in
      let (h2, t2) =
        split (reason_if (le a.max_daily_loss (neg inp.daily_realized_pnl)) daily_loss) _ t1 in
      let (h3, t3) = split (reason_if (ltb a.max_lots inp.lots) too_many_lots) _ t2 in
      let (h4, t4) =
        split (if short then loss_reasons n a.max_loss_per_lot inp.est_max_loss_per_lot else []) _
          t3 in
      let (h5, t5) =
        split (reason_if (short && leb 1 inp.open_group_shorts) correlated_shorts) _ t4 in
      let (h6, h7) =
        split
          (reason_if (leb a.max_concurrent_commodities inp.open_commodity_count) too_many_positions)
          _ t5 in
      let daily' : no_reasons
            (reason_if (le b.max_daily_loss (neg inp.daily_realized_pnl)) daily_loss)
          ≡ true =
        ground (
          arith,
          laws.le_trans a.max_daily_loss b.max_daily_loss (neg inp.daily_realized_pnl),
          daily,
          h2,
        ) in
      let lots' : no_reasons (reason_if (ltb b.max_lots inp.lots) too_many_lots) ≡ true =
        ground (arith, lots, h3) in
      let count' : no_reasons (
            reason_if (leb b.max_concurrent_commodities inp.open_commodity_count)
              too_many_positions)
          ≡ true =
        ground (arith, count, h6) in
      join _ _ h1 (
        join _ _ daily' (
          join _ _ lots' (
            join _ _
              (loss_reasons_lem laws short a.max_loss_per_lot b.max_loss_per_lot
                inp.est_max_loss_per_lot loss h4)
              (join _ _ h5 (
                join _ _ count' (
                  margin_reasons_lem laws a.max_margin_util_pct b.max_margin_util_pct
                    inp.margin_available inp.margin_required util h7))))))

  -- What an approval of a trade says of the limits.
  abbrev pub IsGuarded : RiskLimits n → RiskInput n → Type 0
  IsGuarded a inp =
      ((is_short_premium inp.strategy_type && inp.blackout) ≡ false)
      × ((is_short_premium inp.strategy_type && leb 1 inp.open_group_shorts) ≡ false)
      × (le a.max_daily_loss (neg inp.daily_realized_pnl) ≡ false)
      × (inp.lots ≤ a.max_lots)
      × (inp.open_commodity_count < a.max_concurrent_commodities)

  reasons-Guarded :
      (a : RiskLimits n) (inp : RiskInput n)
      → no_reasons (all_reasons a inp) ≡ true
      → IsGuarded a inp
  unfolding all_reasons
  reasons-Guarded a inp h =
      let short = is_short_premium inp.strategy_type in
      let (h1, t1) = split (reason_if (short && inp.blackout) blackout_window) _ h in
      let (h2, t2) =
        split (reason_if (le a.max_daily_loss (neg inp.daily_realized_pnl)) daily_loss) _ t1 in
      let (h3, t3) = split (reason_if (ltb a.max_lots inp.lots) too_many_lots) _ t2 in
      let (h4, t4) =
        split (if short then loss_reasons n a.max_loss_per_lot inp.est_max_loss_per_lot else []) _
          t3 in
      let (h5, t5) =
        split (reason_if (short && leb 1 inp.open_group_shorts) correlated_shorts) _ t4 in
      let (h6, h7) =
        split
          (reason_if (leb a.max_concurrent_commodities inp.open_commodity_count) too_many_positions)
          _ t5 in
      (
        ground (arith, h1),
        ground (arith, h5),
        ground (arith, h2),
        ground (arith, h3),
        ground (arith, h6),
      )

  -- For ordered prices, if a recommendation is approved, then it is no trade, or it is not a short
  -- premium in a blackout or beside correlated shorts, the loss of the day is below its cap, the
  -- lots are within theirs and the open positions below theirs; and limits of which none is tighter
  -- approve it too.
  pub evaluate_guards :
      (laws : IsOrdered n) (a b : RiskLimits n) (inp : RiskInput n)
      → IsTighter a b
      → (evaluate a inp).approved ≡ true
      → ((is_idle inp.strategy_type ≡ true) ⊎ IsGuarded a inp) × ((evaluate b inp).approved ≡ true)
  unfolding evaluate
  evaluate_guards laws a b inp tighter h = elim (Bool-cases (is_idle inp.strategy_type)) [
    | inl idle ↦ rw idle (inl refl, refl)
    | inr trades ↦
        let none_of_a : no_reasons (all_reasons a inp) ≡ true = rw trades at h in
        rw trades
          (inr (reasons-Guarded a inp none_of_a), all_reasons_lem laws a b inp tighter none_of_a)
  ]
