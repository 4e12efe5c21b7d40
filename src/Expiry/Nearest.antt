-- ===== src/Expiry/Nearest.antt =====
-- The expiry that `resolve_expiry` (app/expiry_resolver.py) chooses is the nearest that may be traded.
use tv_zerodha_bot.Prelude.{
  ℕ, ◌-◌, ◌<◌, ◌≤◌, String, ◌≡◌, refl, ◌∙◌, ap, sym, Bool, true, false, not, ◌&&◌, Option, none,
  some, List, [], ◌∷◌, All, keep, ltb, leb, ◌==◌, nat_eq, if◌then◌else◌, arith, Bool-cases, inl,
  inr,
}
use tv_zerodha_bot.Expiry.Dates.{
  Listed, list_expiries, Ascends, All-lower, list_expiries-Ascends, keep-Ascends, sorted-Ascends,
}
use tv_zerodha_bot.Expiry.Resolve.{
  Rule, nearest_weekly, nearest_monthly, Resolution, resolved, no_eligible_expiry, ResolvedExpiry,
  Settings, is_weekly, is_past, min_days, after_cutoff, first_eligible, after_guard, select,
  resolution, resolve_expiry,
}

-- May an expiry be traded: it is not over, not today behind the cutoff, and far enough.
abbrev pub fits : (today : ℕ) (past : Bool) (least : ℕ) → ℕ → Bool
fits today past least e = leb today e && not (e == today && past) && leb least (e - today)

abbrev pub first : List ℕ → Option ℕ
first [] = none
first (e ∷ es) = some e

abbrev pub chosen : Resolution ℕ → Option ℕ
chosen (resolved e) = some e
chosen (no_eligible_expiry reason) = none

abbrev pub date_of : Resolution ResolvedExpiry → Option ℕ
date_of (resolved r) = some r.expiry_date
date_of (no_eligible_expiry reason) = none

-- The test behind the filter of the future.
abbrev open_still : (today : ℕ) (past : Bool) (least : ℕ) → ℕ → Bool
open_still today past least e = not (e == today && past) && leb least (e - today)

-- Behind today the cutoff is no matter.
keep-later :
    (today : ℕ) (past : Bool) (least : ℕ) (ds : List ℕ)
    → All (λ e. today < e) ds
    → keep (open_still today past least) ds ≡ keep (λ e. leb least (e - today)) ds
keep-later today past least [] h = refl
keep-later today past least (d ∷ ds) h =
    let other : (d == today) ≡ false = ground (arith, h) in
    let rest = keep-later today past least ds h.1 in ground (arith, other, rest)

chosen-first_eligible : (ds : List ℕ) → chosen (first_eligible ds) ≡ first ds
unfolding first_eligible
chosen-first_eligible [] = refl
chosen-first_eligible (d ∷ ds) = refl

guard_lem :
    (today : ℕ) (past : Bool) (least : ℕ) (future : List ℕ)
    → Ascends future
    → All (λ e. today ≤ e) future
    → chosen (after_guard today least future (after_cutoff today past future))
      ≡ first (keep (open_still today past least) future)
unfolding after_guard after_cutoff first_eligible
guard_lem today past least [] asc all = refl
guard_lem today past least (e ∷ []) asc all = ground (arith, all)
guard_lem today past least (e ∷ f ∷ rest) asc all =
    let today_f : today < f = omega (arith, all, asc) in
    let others = All-lower today f rest today_f asc.1.0 in
    let tail = keep-later today past least (f ∷ rest) (today_f, others) in
    let minimum : ℕ → Bool = λ x. leb least (x - today) in
    let other_f : (f == today) ≡ false = ground (arith, today_f) in
    let rolled = chosen-first_eligible (keep minimum (f ∷ rest)) ∙ ap first (sym tail) in
    elim (Bool-cases (e == today && past)) [
      | inl cut ↦ elim (Bool-cases (ltb (f - today) least)) [
        | inl near ↦
            let near_e : leb least (e - today) ≡ false = ground (arith, near, cut) in
            rw (cut, near, near_e) rolled
        | inr far ↦
            let open_f : open_still today past least f ≡ true = ground (arith, far, other_f) in
            rw (cut, far, open_f) refl
      ]
      | inr uncut ↦ elim (Bool-cases (ltb (e - today) least)) [
        | inl near ↦
            let near_e : leb least (e - today) ≡ false = ground (arith, near) in
            rw (uncut, near, near_e) rolled
        | inr far ↦
            let far_e : leb least (e - today) ≡ true = ground (arith, far) in
            rw (uncut, far, far_e) refl
      ]
    ]

not_before : (today : ℕ) (ds : List ℕ) → All (λ e. today ≤ e) (keep (λ e. leb today e) ds)
not_before today [] = tt
not_before today (d ∷ ds) = elim (Bool-cases (leb today d)) [
  | inl later ↦ let h : today ≤ d = ground (arith, later) in rw later (h, not_before today ds)
  | inr over ↦ rw over (not_before today ds)
]

keep-fits :
    (today : ℕ) (past : Bool) (least : ℕ) (ds : List ℕ)
    → keep (open_still today past least) (keep (λ e. leb today e) ds)
      ≡ keep (fits today past least) ds
keep-fits today past least [] = refl
keep-fits today past least (d ∷ ds) = ground (arith, keep-fits today past least ds)

select_lem :
    (today : ℕ) (past : Bool) (least : ℕ) (ds : List ℕ)
    → Ascends ds
    → chosen (select today past least ds) ≡ first (keep (fits today past least) ds)
unfolding select
select_lem today past least ds asc =
    let future = keep (λ e. leb today e) ds in
    let future_asc = keep-Ascends (λ e. leb today e) ds asc in
    rw (sorted-Ascends future future_asc) (
      guard_lem today past least future future_asc (not_before today ds)
      ∙ ap first (keep-fits today past least ds))

date-resolution :
    (today : ℕ) (rule : Rule) (r : Resolution ℕ) → date_of (resolution today rule r) ≡ chosen r
unfolding resolution
date-resolution today rule (resolved e) = refl
date-resolution today rule (no_eligible_expiry reason) = refl

-- The expiry that resolve_expiry answers is the first listed one, in ascending order, that is not
-- over, not today behind the cutoff of its segment, and as far away as the minimum asks; and it
-- raises exactly if there is none.
pub resolve_expiry_nearest :
    (underlying : String) (instruments : List Listed) (instrument_type segment : String)
    (today time : ℕ) (s : Settings)
    → let past = is_past s segment time in
      let least = min_days s (is_weekly underlying s.weekly_indices) in
      let expiries = list_expiries underlying instrument_type instruments in
      (date_of (resolve_expiry underlying instruments instrument_type segment today time s)
        ≡ first (keep (fits today past least) expiries))
      × Ascends expiries
unfolding resolve_expiry
resolve_expiry_nearest underlying instruments instrument_type segment today time s =
    let weekly = is_weekly underlying s.weekly_indices in
    let past = is_past s segment time in
    let expiries = list_expiries underlying instrument_type instruments in
    let asc = list_expiries-Ascends underlying instrument_type instruments in
    (
      date-resolution today (if weekly then nearest_weekly else nearest_monthly)
            (select today past (min_days s weekly) expiries)
          ∙ select_lem today past (min_days s weekly) expiries asc,
      asc,
    )
