-- ===== src/Expiry/Resolve.antt =====
-- `resolve_expiry` (app/expiry_resolver.py).
use tv_zerodha_bot.Prelude.{
  ℕ, ◌+◌, ◌-◌, ◌*◌, String, Bool, false, ◌&&◌, ◌||◌, List, [], ◌∷◌, keep, ltb, leb, ◌==◌, nat_eq,
  if◌then◌else◌,
}
use tv_zerodha_bot.Prelude.Text.{lower, occurs, alike}
use tv_zerodha_bot.Paper.Exits.{HourMinute}
use tv_zerodha_bot.Expiry.Dates.{Listed, list_expiries, sorted}

pub data Rule : Type 0 where
  nearest_weekly nearest_monthly : Rule

-- Why there is no expiry.
pub data Reason : Type 0 where
  no_future past_cutoff too_near : Reason

pub record ResolvedExpiry : Type 0 where
  pub expiry_date : ℕ
  pub days_to_expiry : ℕ
  pub rule_used : Rule

pub data Resolution {ℓ} (A : Type ℓ) : Type ℓ where
  resolved : A → Resolution A
  no_eligible_expiry : Reason → Resolution A

-- The settings, with the two texts as the pairs that `_parse_hhmm` reads.
pub record Settings : Type 0 where
  pub weekly_indices : List String
  pub skip_expiry_cutoff_mcx : HourMinute
  pub skip_expiry_cutoff_nse : HourMinute
  pub min_days_to_expiry_index : ℕ
  pub min_days_to_expiry_stock : ℕ

unfoldable pub is_weekly : (underlying : String) → List String → Bool
is_weekly underlying [] = false
is_weekly underlying (w ∷ ws) = alike (lower w) (lower underlying) || is_weekly underlying ws

unfoldable pub microseconds : HourMinute → ℕ
microseconds t = (t.hour * 60 + t.minute) * 60000000

-- `now_ist.time() > cutoff`
unfoldable pub is_past : Settings → (segment : String) → (time : ℕ) → Bool
unfolding microseconds
is_past s segment time =
    ltb
      (microseconds (
        if occurs (lower "MCX") (lower segment)
        then s.skip_expiry_cutoff_mcx
        else s.skip_expiry_cutoff_nse))
      time

unfoldable pub min_days : Settings → (weekly : Bool) → ℕ
min_days s weekly = if weekly then s.min_days_to_expiry_index else s.min_days_to_expiry_stock

-- The first future date, or the second one if the first is today and the cutoff is past.
unfoldable pub after_cutoff : (today : ℕ) (past : Bool) → List ℕ → Resolution ℕ
after_cutoff today past [] = no_eligible_expiry no_future
after_cutoff today past (e ∷ []) =
    if e == today && past then no_eligible_expiry past_cutoff else resolved e
after_cutoff today past (e ∷ f ∷ rest) = if e == today && past then resolved f else resolved e

unfoldable pub first_eligible : List ℕ → Resolution ℕ
first_eligible [] = no_eligible_expiry too_near
first_eligible (e ∷ es) = resolved e

-- A date that is too near gives way to the first that is not.
unfoldable pub after_guard : (today least : ℕ) → (future : List ℕ) → Resolution ℕ → Resolution ℕ
unfolding first_eligible
after_guard today least future (no_eligible_expiry reason) = no_eligible_expiry reason
after_guard today least future (resolved selected) =
    if ltb (selected - today) least
    then first_eligible (keep (λ e. leb least (e - today)) future)
    else resolved selected

unfoldable pub select : (today : ℕ) (past : Bool) (least : ℕ) → List ℕ → Resolution ℕ
unfolding after_cutoff after_guard
select today past least all_expiries =
    let future = sorted (keep (λ e. leb today e) all_expiries) in
    after_guard today least future (after_cutoff today past future)

unfoldable pub resolution : (today : ℕ) → Rule → Resolution ℕ → Resolution ResolvedExpiry
resolution today rule (no_eligible_expiry reason) = no_eligible_expiry reason
resolution today rule (resolved e) =
    resolved (record { expiry_date = e; days_to_expiry = e - today; rule_used = rule })

unfoldable pub resolve_expiry :
    (underlying : String)
    → List Listed
    → (instrument_type segment : String) → (today time : ℕ) → Settings
    → Resolution ResolvedExpiry
unfolding is_past min_days select resolution
resolve_expiry underlying instruments instrument_type segment today time s =
    let weekly = is_weekly underlying s.weekly_indices in
    resolution today (if weekly then nearest_weekly else nearest_monthly) (
      select today (is_past s segment time) (min_days s weekly)
        (list_expiries underlying instrument_type instruments))
