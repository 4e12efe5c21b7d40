-- ===== src/Expiry/Tests.antt =====
-- An expiry day behind the cutoff, and the theorem at these inputs.
use tv_zerodha_bot.Prelude.{ℕ, ◌≡◌, refl, Option, none, some, List, [], ◌∷◌, keep}
use tv_zerodha_bot.Prelude.Text.{lower, occurs, alike}
use tv_zerodha_bot.Expiry.Dates.{Listed, file, place, sorted, list_expiries, Ascends}
use tv_zerodha_bot.Expiry.Resolve.{
  Settings, resolved, nearest_weekly, is_weekly, is_past, min_days, microseconds, select,
  after_cutoff, after_guard, first_eligible, resolution, resolve_expiry,
}
use tv_zerodha_bot.Expiry.Nearest.{fits, first, date_of, resolve_expiry_nearest}

abbrev settings : Settings
settings = record {
  weekly_indices = "NIFTY" ∷ [];
  skip_expiry_cutoff_mcx = record { hour = 22; minute = 0 };
  skip_expiry_cutoff_nse = record { hour = 14; minute = 30 };
  min_days_to_expiry_index = 1;
  min_days_to_expiry_stock = 2;
}

abbrev call : Option ℕ → Listed
call expiry = record { name = "NIFTY"; instrument_type = "CE"; expiry = expiry }

abbrev table : List Listed
table = call (some 27) ∷ call (some 20) ∷ call none ∷ call (some 27) ∷ []

-- Day 20 at 15:00, which is behind the cutoff of the day's expiry.
resolve_run :
    resolve_expiry "NIFTY" table "CE" "NFO" 20 54000000000 settings
    ≡ resolved (record { expiry_date = 27; days_to_expiry = 7; rule_used = nearest_weekly })
unfolding resolve_expiry is_weekly is_past min_days microseconds select after_cutoff after_guard
    first_eligible resolution list_expiries file sorted place lower occurs alike
resolve_run = refl

resolve_expiry_nearest_example :
    let past = is_past settings "NFO" 54000000000 in
    let least = min_days settings (is_weekly "NIFTY" ("NIFTY" ∷ [])) in
    let expiries = list_expiries "NIFTY" "CE" table in
    (date_of (resolve_expiry "NIFTY" table "CE" "NFO" 20 54000000000 settings)
      ≡ first (keep (fits 20 past least) expiries))
    × Ascends expiries
resolve_expiry_nearest_example =
    resolve_expiry_nearest "NIFTY" table "CE" "NFO" 20 54000000000 settings
