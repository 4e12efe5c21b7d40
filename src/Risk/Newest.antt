-- ===== src/Risk/Newest.antt =====
-- The order of the trades in `consecutive_losses` (app/risk.py).
use mathlib.Core.List.{Perm}
use mathlib.Core.List.Perm
use tv_zerodha_bot.Prelude.{ℕ, ◌≤◌, List, [], ◌∷◌, All, ltb, arith, Bool-cases, inl, inr}
use tv_zerodha_bot.Numbers.{Numbers}
use tv_zerodha_bot.Storage.{ClosedTrade}
use tv_zerodha_bot.Risk.Gates.{insert_newest, newest_first}

module _ {n : Numbers} where
  -- No trade was closed after one that stands before it.
  abbrev pub IsNewestFirst : List (ClosedTrade n) → Type 0
  IsNewestFirst [] = Unit
  IsNewestFirst (t ∷ ts) = All (λ u. u.closed_at ≤ t.closed_at) ts × IsNewestFirst ts

  insert_newest-perm :
      (t : ClosedTrade n) (ts : List (ClosedTrade n)) → Perm (insert_newest t ts) (t ∷ ts)
  unfolding insert_newest
  insert_newest-perm t [] = Perm.refl (t ∷ [])
  insert_newest-perm t (u ∷ us) = elim (Bool-cases (ltb t.closed_at u.closed_at)) [
    | inl older ↦ rw older (Perm.trans (Perm.cons u (insert_newest-perm t us)) (Perm.swap t u us))
    | inr newer ↦ rw newer (Perm.refl (t ∷ u ∷ us))
  ]

  pub newest_first-perm : (ts : List (ClosedTrade n)) → Perm (newest_first ts) ts
  unfolding newest_first
  newest_first-perm [] = Perm.refl []
  newest_first-perm (t ∷ ts) =
      Perm.trans (insert_newest-perm t (newest_first ts)) (Perm.cons t (newest_first-perm ts))

  All-below :
      (a b : ℕ) (ts : List (ClosedTrade n))
      → a ≤ b
      → All (λ u. u.closed_at ≤ a) ts
      → All (λ u. u.closed_at ≤ b) ts
  All-below a b [] h k = tt
  All-below a b (t ∷ ts) h (k, ks) = (omega arith, All-below a b ts h ks)

  insert_newest-All :
      (b : ℕ) (t : ClosedTrade n) (ts : List (ClosedTrade n))
      → t.closed_at ≤ b
      → All (λ u. u.closed_at ≤ b) ts
      → All (λ u. u.closed_at ≤ b) (insert_newest t ts)
  unfolding insert_newest
  insert_newest-All b t [] h k = (h, tt)
  insert_newest-All b t (u ∷ us) h (k, ks) = elim (Bool-cases (ltb t.closed_at u.closed_at)) [
    | inl older ↦ rw older (k, insert_newest-All b t us h ks)
    | inr newer ↦ rw newer (h, (k, ks))
  ]

  insert_newest-NewestFirst :
      (t : ClosedTrade n) (ts : List (ClosedTrade n))
      → IsNewestFirst ts
      → IsNewestFirst (insert_newest t ts)
  unfolding insert_newest
  insert_newest-NewestFirst t [] h = (tt, tt)
  insert_newest-NewestFirst t (u ∷ us) (below, h) =
      elim (Bool-cases (ltb t.closed_at u.closed_at)) [
        | inl older ↦ rw older (
          insert_newest-All u.closed_at t us (ground (arith, older)) below,
          insert_newest-NewestFirst t us h,
        )
        | inr newer ↦
            let le : u.closed_at ≤ t.closed_at = ground (arith, newer) in
            rw newer ((le, All-below u.closed_at t.closed_at us le below), (below, h))
      ]

  pub newest_first-NewestFirst : (ts : List (ClosedTrade n)) → IsNewestFirst (newest_first ts)
  unfolding newest_first
  newest_first-NewestFirst [] = tt
  newest_first-NewestFirst (t ∷ ts) =
      insert_newest-NewestFirst t (newest_first ts) (newest_first-NewestFirst ts)
