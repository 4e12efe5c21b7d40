-- ===== src/Risk/Gates.antt =====
-- The gates before an entry (app/risk.py): the daily loss and the run of losses, of live and of paper
-- trades apart. A date is counted in microseconds from a midnight in India.
use tv_zerodha_bot.Prelude.{
  ℕ, ◌+◌, ◌-◌, ◌*◌, ◌%◌, Bool, true, false, not, ◌&&◌, List, [], ◌∷◌, keep, ltb, leb, if◌then◌else◌,
}
use tv_zerodha_bot.Prelude.Int.{pos}
use tv_zerodha_bot.Numbers.{Numbers}
use tv_zerodha_bot.Storage.{Instant, ClosedTrade}

-- The outcome of the gates; each error is a `RiskHaltError`.
pub data Verdict : Type 0 where
  passed loss_cap_exhausted : Verdict
  losing_streak : (consecutive : ℕ) → Verdict

abbrev pub microseconds_per_day : ℕ
microseconds_per_day = 24 * 3600 * 1000000

-- `today_ist.replace(hour=0, minute=0, second=0, microsecond=0)`
abbrev pub start_of_day : Instant → Instant
start_of_day today = today - today % microseconds_per_day

abbrev pub same_mode : Bool → Bool → Bool
same_mode true b = b
same_mode false b = not b

module _ {n : Numbers} where
  open n use {Float, Decimal, lt, of_int, decimal, dec_zero, dec_lt, dec_add, dec_sub, dec_abs}

  abbrev pub of_mode : Bool → ClosedTrade n → Bool
  of_mode dry_run t = same_mode dry_run t.dry_run

  abbrev pub since : Instant → ClosedTrade n → Bool
  since start t = leb start t.closed_at

  abbrev pub is_loss : ClosedTrade n → Bool
  is_loss t = lt t.pnl (of_int (pos 0))

  unfoldable pub sum_losses : List (ClosedTrade n) → Decimal → Decimal
  sum_losses [] total = total
  sum_losses (t ∷ ts) total = sum_losses ts (dec_add total (dec_abs (decimal t.pnl)))

  unfoldable pub sum_pnl : List (ClosedTrade n) → Decimal → Decimal
  sum_pnl [] total = total
  sum_pnl (t ∷ ts) total = sum_pnl ts (dec_add total (decimal t.pnl))

  -- `cap` is `state.get_max_daily_loss` of the setting.
  unfoldable pub daily_loss_remaining :
      (cap : Float) → List (ClosedTrade n) → (today : Instant) → (dry_run : Bool) → Decimal
  unfolding sum_losses
  daily_loss_remaining cap trades today dry_run =
      let start = start_of_day today in
      let rows = keep (λ t. since start t && is_loss t && of_mode dry_run t) trades in
      let remaining = dec_sub (decimal cap) (sum_losses rows dec_zero) in
      if dec_lt dec_zero remaining then remaining else dec_zero

  unfoldable pub daily_realized_pnl :
      List (ClosedTrade n) → (today : Instant) → (dry_run : Bool) → Decimal
  unfolding sum_pnl
  daily_realized_pnl trades today dry_run =
      sum_pnl (keep (λ t. since (start_of_day today) t && of_mode dry_run t) trades) dec_zero

  -- `order_by(ClosedTrade.closed_at.desc())`; of equal times the earlier row stays first.
  unfoldable pub insert_newest : ClosedTrade n → List (ClosedTrade n) → List (ClosedTrade n)
  insert_newest t [] = t ∷ []
  insert_newest t (u ∷ us) =
      if ltb t.closed_at u.closed_at then u ∷ insert_newest t us else t ∷ u ∷ us

  unfoldable pub newest_first : List (ClosedTrade n) → List (ClosedTrade n)
  newest_first [] = []
  newest_first (t ∷ ts) = insert_newest t (newest_first ts)

  -- `Decimal(str(pnl)) < Decimal("0")`
  abbrev pub is_losing : ClosedTrade n → Bool
  is_losing t = dec_lt (decimal t.pnl) dec_zero

  unfoldable pub consecutive_losses : List (ClosedTrade n) → ℕ
  consecutive_losses [] = 0
  consecutive_losses (t ∷ ts) = if is_losing t then consecutive_losses ts + 1 else 0

  unfoldable pub check_risk_gates :
      (cap : Float)
      → List (ClosedTrade n)
      → (today : Instant) → (consecutive_limit : ℕ) → (dry_run : Bool) → Verdict
  check_risk_gates cap trades today consecutive_limit dry_run =
      let remaining = daily_loss_remaining cap trades today dry_run in
      if not (dec_lt dec_zero remaining) && not (dec_lt remaining dec_zero)
      then loss_cap_exhausted
      else (let consecutive = consecutive_losses (newest_first (keep (of_mode dry_run) trades)) in
          if leb consecutive_limit consecutive then losing_streak consecutive else passed)
