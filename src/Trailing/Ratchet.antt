-- ===== src/Trailing/Ratchet.antt =====
-- What one tick may do to a trailing stop (app/trailing.py, `_evaluate`).
use tv_zerodha_bot.Prelude.{
  ℕ, ◌-◌, ◌≤◌, ◌≡◌, ap, ◌∙◌, true, false, not, Option, none, some, arith, inl, inr, Bool-cases,
}
use tv_zerodha_bot.Numbers.{Numbers, IsOrdered}
use tv_zerodha_bot.Orders.Broker.{Side, buy, sell}
use tv_zerodha_bot.Trailing.Tick.{
  TrailPos, Update, update_interval, track_worst, no_better, better, band_holds, move_stop,
  evaluate,
}

module _ {n : Numbers} where
  open n use {Float, lt, le}

  -- What a tick at time `now` and price `ltp` leaves of `p`, by the update that it starts. Without
  -- one the stop stays; with one it is strictly more favourable, the price lies in the band, and the
  -- interval since the last update is over.
  abbrev pub Moved : (now : ℕ) (ltp : Float) → TrailPos n → TrailPos n → Option (Update n) → Type 0
  Moved now ltp p p' none = (p'.current_sl ≡ p.current_sl) × (p'.last_update ≡ p.last_update)
  Moved now ltp p p' (some u) =
      (u.old_sl ≡ p.current_sl)
      × (p'.current_sl ≡ u.new_sl)
      × (p'.last_update ≡ now)
      × (update_interval ≤ now - p.last_update)
      × (better n p.entry_side u.new_sl u.old_sl ≡ true)
      × (band_holds n p.entry_side u.new_sl u.ltp p.target_price ≡ true)
      × (u.ltp ≡ ltp)

  -- The fields that no tick changes.
  abbrev pub SameTrade : TrailPos n → TrailPos n → Type 0
  SameTrade p p' =
      (p'.entry_side ≡ p.entry_side)
      × (p'.target_price ≡ p.target_price)
      × (p'.qty ≡ p.qty)
      × (p'.sl_pct ≡ p.sl_pct)
      × (p'.tick_size ≡ p.tick_size)
      × (p'.instrument_token ≡ p.instrument_token)
      × (p'.gtt_db_id ≡ p.gtt_db_id)

  pub track_worst-SameTrade :
      (ltp : Float) (p : TrailPos n)
      → let p' = track_worst ltp p in
        SameTrade p p'
        × (p'.current_sl ≡ p.current_sl)
        × (p'.last_update ≡ p.last_update)
        × (p'.best_price ≡ p.best_price)
  unfolding track_worst
  track_worst-SameTrade ltp p = ground arith

  move_stop-Moved :
      (now : ℕ) (ltp : Float) (p : TrailPos n)
      → let (p', u) = move_stop now ltp p in Moved now ltp p p' u × SameTrade p p'
  unfolding move_stop
  move_stop-Moved now ltp p = ground arith

  pub evaluate-Moved :
      (now : ℕ) (ltp : Float) (p : TrailPos n)
      → let (p', u) = evaluate now ltp p in Moved now ltp p p' u × SameTrade p p'
  unfolding evaluate
  evaluate-Moved now ltp p =
      ground (arith, track_worst-SameTrade ltp p, move_stop-Moved now ltp (track_worst ltp p))

module _ {n : Numbers} (laws : IsOrdered n) where
  open n use {Float, lt, le}

  no_better_refl : (side : Side) (a : Float) → no_better n side a a ≡ true
  unfolding no_better
  no_better_refl buy a = laws.le_refl a
  no_better_refl sell a = laws.le_refl a

  no_better_of_better :
      (side : Side) (a b : Float) → better n side a b ≡ true → no_better n side b a ≡ true
  unfolding no_better better
  no_better_of_better buy a b h = laws.le_of_lt b a h
  no_better_of_better sell a b h = laws.le_of_lt a b h

  better_of_not :
      (side : Side) (a b : Float) → no_better n side a b ≡ false → no_better n side b a ≡ true
  unfolding no_better
  better_of_not buy a b h = laws.le_of_lt b a (laws.lt-not-le b a ∙ ap not h)
  better_of_not sell a b h = laws.le_of_lt a b (laws.lt-not-le a b ∙ ap not h)

  track_worst_lem :
      (ltp : Float) (p : TrailPos n)
      → no_better n p.entry_side (track_worst ltp p).worst_price p.worst_price ≡ true
  unfolding track_worst no_better
  track_worst_lem ltp p = ground (
    arith,
    laws.le_refl p.worst_price,
    laws.le_of_lt ltp p.worst_price,
    laws.le_of_lt p.worst_price ltp,
  )

  move_stop_prices :
      (now : ℕ) (ltp : Float) (p : TrailPos n)
      → let p' = (move_stop now ltp p).0 in (p'.best_price ≡ ltp) × (p'.worst_price ≡ p.worst_price)
  unfolding move_stop
  move_stop_prices now ltp p = ground arith

  Moved-no_better :
      (now : ℕ) (ltp : Float) (p p' : TrailPos n) (u : Option (Update n))
      → Moved now ltp p p' u
      → no_better n p.entry_side p.current_sl p'.current_sl ≡ true
  Moved-no_better now ltp p p' none m = rw m.0 (no_better_refl p.entry_side p.current_sl)
  Moved-no_better now ltp p p' (some u) (old, new, _, _, improved, _, _) =
      rw (new, ← old) (no_better_of_better p.entry_side u.new_sl u.old_sl improved)

  evaluate_prices :
      (now : ℕ) (ltp : Float) (p : TrailPos n)
      → let p' = (evaluate now ltp p).0 in
        (no_better n p.entry_side p.best_price p'.best_price ≡ true)
        × (no_better n p.entry_side p'.worst_price p.worst_price ≡ true)
  unfolding evaluate
  evaluate_prices now ltp p =
      let tracked = track_worst-SameTrade ltp p in
      let moved = move_stop_prices now ltp (track_worst ltp p) in
      elim (Bool-cases (no_better n p.entry_side ltp p.best_price)) [
        | inl stays ↦
            rw (stays, tracked.3) (no_better_refl p.entry_side p.best_price, track_worst_lem ltp p)
        | inr beats ↦
            rw (beats, moved.0, moved.1)
              (better_of_not p.entry_side ltp p.best_price beats, track_worst_lem ltp p)
      ]

  -- For prices that are ordered (no NaN), a tick never makes the stop or the best price of a
  -- trailed position less favourable, and never the worst price more favourable.
  pub evaluate_ratchet :
      (now : ℕ) (ltp : Float) (p : TrailPos n)
      → let (p', u) = evaluate now ltp p in
        (no_better n p.entry_side p.current_sl p'.current_sl ≡ true)
        × (no_better n p.entry_side p.best_price p'.best_price ≡ true)
        × (no_better n p.entry_side p'.worst_price p.worst_price ≡ true)
  evaluate_ratchet now ltp p =
      let (p', u) = evaluate now ltp p in
      let moved = evaluate-Moved now ltp p in
      let prices = evaluate_prices now ltp p in
      (Moved-no_better now ltp p p' u moved.0, prices.0, prices.1)
