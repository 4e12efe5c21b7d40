-- ===== src/Risk/Streak.antt =====
-- What the gates of app/risk.py decide: the run of losses, and that live and paper trades are apart.
use mathlib.Core.List.{Perm}
use tv_zerodha_bot.Prelude.{
  if◌then◌else◌, ◌/◌, ◌∙◌, ℕ, zero, suc, ◌≡◌, refl, Bool, true, false, not, ◌&&◌, List, [], ◌∷◌,
  ◌++◌, keep, take, length, leb, arith, Bool-cases, inl, inr,
}
use tv_zerodha_bot.Prelude.Int.{pos}
use tv_zerodha_bot.Numbers.{Numbers}
use tv_zerodha_bot.Storage.{Instant, ClosedTrade}
use tv_zerodha_bot.Risk.Gates.{
  Verdict, passed, loss_cap_exhausted, losing_streak, of_mode, since, is_loss, start_of_day,
  consecutive_losses, newest_first, daily_loss_remaining, daily_realized_pnl, check_risk_gates,
  microseconds_per_day, sum_losses,
}
use tv_zerodha_bot.Risk.Newest.{IsNewestFirst, newest_first-perm, newest_first-NewestFirst}

abbrev pub is_passed : Verdict → Bool
is_passed passed = true
is_passed loss_cap_exhausted = false
is_passed (losing_streak consecutive) = false

and_false : (a b : Bool) → b ≡ false → (a && b) ≡ false
and_false a b h = ground arith

module _ {n : Numbers} where
  open n use {Float, Decimal, lt, of_int, decimal, dec_lt, dec_zero, dec_add, dec_sub, dec_abs}

  abbrev pub all_losing : List (ClosedTrade n) → Bool
  all_losing [] = true
  all_losing (t ∷ ts) = dec_lt (decimal t.pnl) dec_zero && all_losing ts

  -- The last `limit` trades exist and were all losses.
  abbrev pub lost_last : (limit : ℕ) → List (ClosedTrade n) → Bool
  lost_last limit newest = leb limit (length newest) && all_losing (take limit newest)

  consecutive_losses_lem :
      (limit : ℕ) (ts : List (ClosedTrade n))
      → leb limit (consecutive_losses ts) ≡ lost_last limit ts
  unfolding consecutive_losses
  consecutive_losses_lem zero ts = ground arith
  consecutive_losses_lem (suc limit) [] = ground arith
  consecutive_losses_lem (suc limit) (t ∷ ts) = ground (arith, consecutive_losses_lem limit ts)

  -- What is left is positive or zero.
  remaining_zero :
      (cap : Float) (trades : List (ClosedTrade n)) (today : Instant) (dry_run : Bool)
      → dec_lt dec_zero (daily_loss_remaining cap trades today dry_run) ≡ false
      → daily_loss_remaining cap trades today dry_run ≡ dec_zero
  unfolding daily_loss_remaining
  remaining_zero cap trades today dry_run h = ground arith

  -- Is the trade one of the mode, and is it a loss of the day of `today` or of a later one?
  abbrev pub in_mode : Bool → ClosedTrade n → Bool
  in_mode dry_run t = if dry_run then t.dry_run else not t.dry_run

  abbrev pub lost_on_day : (today : Instant) → (dry_run : Bool) → ClosedTrade n → Bool
  lost_on_day today dry_run t =
      leb (today / microseconds_per_day) (t.closed_at / microseconds_per_day)
      && lt t.pnl (of_int (pos 0))
      && in_mode dry_run t

  -- The amounts of the losses of the day, added one by one.
  abbrev pub losses_of_day :
      (today : Instant) → (dry_run : Bool) → List (ClosedTrade n) → (total : Decimal) → Decimal
  losses_of_day today dry_run [] total = total
  losses_of_day today dry_run (t ∷ ts) total =
      losses_of_day today dry_run ts
        (if lost_on_day today dry_run t then dec_add total (dec_abs (decimal t.pnl)) else total)

  -- What the gates are to decide: an order of the trades of the mode, the newest first, and the
  -- losses of the day taken off the cap.
  abbrev pub IsGated :
      (cap : Float)
      → List (ClosedTrade n)
      → (today : Instant) → (limit : ℕ) → (dry_run : Bool) → Verdict
      → Type 0
  IsGated cap trades today limit dry_run verdict =
      (newest : List (ClosedTrade n)) × Perm newest (keep (in_mode dry_run) trades)
      × IsNewestFirst newest
      × (is_passed verdict ≡ (
          dec_lt dec_zero (dec_sub (decimal cap) (losses_of_day today dry_run trades dec_zero))
          && not (lost_last limit newest)))

  in_mode_lem : (dry_run : Bool) (t : ClosedTrade n) → of_mode dry_run t ≡ in_mode dry_run t
  in_mode_lem true t = refl
  in_mode_lem false t = refl

  keep-in_mode :
      (dry_run : Bool) (ts : List (ClosedTrade n))
      → keep (of_mode dry_run) ts ≡ keep (in_mode dry_run) ts
  keep-in_mode true ts = refl
  keep-in_mode false ts = refl

  same_day :
      (today : Instant) (t : ClosedTrade n)
      → since (start_of_day today) t
        ≡ leb (today / microseconds_per_day) (t.closed_at / microseconds_per_day)
  same_day today t = ground arith

  lost_on_day_lem :
      (today : Instant) (dry_run : Bool) (t : ClosedTrade n)
      → (since (start_of_day today) t && is_loss t && of_mode dry_run t)
        ≡ lost_on_day today dry_run t
  lost_on_day_lem today dry_run t = rw (same_day today t, in_mode_lem dry_run t) refl

  losses_of_day_lem :
      (today : Instant) (dry_run : Bool) (ts : List (ClosedTrade n)) (total : Decimal)
      → sum_losses
          (keep (λ t. since (start_of_day today) t && is_loss t && of_mode dry_run t) ts)
          total
        ≡ losses_of_day today dry_run ts total
  unfolding sum_losses
  losses_of_day_lem today dry_run [] total = refl
  losses_of_day_lem today dry_run (t ∷ ts) total =
      let same = lost_on_day_lem today dry_run t in
      elim (Bool-cases (lost_on_day today dry_run t)) [
        | inl lost ↦
            rw (same ∙ lost, lost)
              (losses_of_day_lem today dry_run ts (dec_add total (dec_abs (decimal t.pnl))))
        | inr kept ↦ rw (same ∙ kept, kept) (losses_of_day_lem today dry_run ts total)
      ]

  -- Is something left?
  left_lem :
      (cap : Float) (trades : List (ClosedTrade n)) (today : Instant) (dry_run : Bool)
      → dec_lt dec_zero dec_zero ≡ false
      → dec_lt dec_zero (daily_loss_remaining cap trades today dry_run)
        ≡ dec_lt dec_zero (dec_sub (decimal cap) (losses_of_day today dry_run trades dec_zero))
  unfolding daily_loss_remaining
  left_lem cap trades today dry_run irreflexive =
      rw (losses_of_day_lem today dry_run trades dec_zero) (ground (arith, irreflexive))

  -- By the remainder of the code and the order of its query.
  passed_lem :
      (cap : Float) (trades : List (ClosedTrade n)) (today : Instant) (limit : ℕ) (dry_run : Bool)
      → dec_lt dec_zero dec_zero ≡ false
      → is_passed (check_risk_gates cap trades today limit dry_run) ≡ (
          dec_lt dec_zero (daily_loss_remaining cap trades today dry_run)
          && not (lost_last limit (newest_first (keep (of_mode dry_run) trades))))
  unfolding check_risk_gates
  passed_lem cap trades today limit dry_run irreflexive =
      let streak = consecutive_losses_lem limit (newest_first (keep (of_mode dry_run) trades)) in
      elim (Bool-cases (dec_lt dec_zero (daily_loss_remaining cap trades today dry_run))) [
        | inl left ↦ rw (left, ← streak) (ground arith)
        | inr spent ↦ rw (spent, remaining_zero cap trades today dry_run spent, irreflexive) refl
      ]

  -- Where zero is not below itself, the gates let an entry through exactly if the cap is more than
  -- the losses of the mode that were closed on the day of `today` or later, and if the last trades
  -- of the mode, as many as the limit, in an order by their closing time with the newest first,
  -- were not all losses.
  pub check_risk_gates_lem :
      (cap : Float) (trades : List (ClosedTrade n)) (today : Instant) (limit : ℕ) (dry_run : Bool)
      → dec_lt dec_zero dec_zero ≡ false
      → IsGated cap trades today limit dry_run (check_risk_gates cap trades today limit dry_run)
  check_risk_gates_lem cap trades today limit dry_run irreflexive =
      let ts = keep (in_mode dry_run) trades in
      let decided = passed_lem cap trades today limit dry_run irreflexive in
      (
        newest_first ts,
        newest_first-perm ts,
        newest_first-NewestFirst ts,
        decided
            ∙ rw (left_lem cap trades today dry_run irreflexive, keep-in_mode dry_run trades) refl,
      )

  keep_apart :
      (p : ClosedTrade n → Bool) (xs ys : List (ClosedTrade n)) (t : ClosedTrade n)
      → p t ≡ false
      → keep p (xs ++ t ∷ ys) ≡ keep p (xs ++ ys)
  keep_apart p [] ys t h = rw h refl
  keep_apart p (x ∷ xs) ys t h = ground (arith, keep_apart p xs ys t h)

  -- A closed trade of the other mode changes neither the verdict of the gates nor the realized
  -- profit of the day: paper losses never consume the live budget, nor live losses the paper one.
  pub check_risk_gates_apart :
      (cap : Float) (xs ys : List (ClosedTrade n)) (t : ClosedTrade n) (today : Instant) (limit : ℕ)
      (dry_run : Bool)
      → of_mode dry_run t ≡ false
      → (check_risk_gates cap (xs ++ t ∷ ys) today limit dry_run
          ≡ check_risk_gates cap (xs ++ ys) today limit dry_run)
        × (daily_realized_pnl (xs ++ t ∷ ys) today dry_run
            ≡ daily_realized_pnl (xs ++ ys) today dry_run)
  unfolding check_risk_gates daily_realized_pnl daily_loss_remaining
  check_risk_gates_apart cap xs ys t today limit dry_run other =
      let start = start_of_day today in
      let losses =
        keep_apart (λ u. since start u && is_loss u && of_mode dry_run u) xs ys t
          (rw other (ground arith)) in
      let streak = keep_apart (of_mode dry_run) xs ys t other in
      let day =
        keep_apart (λ u. since start u && of_mode dry_run u) xs ys t (rw other (ground arith)) in
      (rw (losses, streak) refl, rw day refl)
