-- ===== src/Trailing/Sessions.antt =====
-- A trailing stop over a run of ticks (app/trailing.py), and the update that a throttled tick loses.
use tv_zerodha_bot.Prelude.{
  ℕ, ◌<◌, false, ◌-◌, ◌≤◌, ◌≡◌, refl, true, none, some, List, [], ◌∷◌, arith,
}
use tv_zerodha_bot.Numbers.{Numbers}
use tv_zerodha_bot.Orders.Broker.{Side}
use tv_zerodha_bot.Trailing.Tick.{
  TrailPos, Update, update_interval, track_worst, no_better, better, band_holds, move_stop,
  evaluate,
}
use tv_zerodha_bot.Trailing.Ratchet.{track_worst-SameTrade, evaluate-Moved}

-- No tick has a price that is better than `best`.
abbrev pub NoBetter : (n : Numbers) (side : Side) (best : n.Float) → List (ℕ × n.Float) → Type 0
NoBetter n side best [] = Unit
NoBetter n side best ((t, ltp) ∷ ticks) =
    (no_better n side ltp best ≡ true) × NoBetter n side best ticks

module _ {n : Numbers} where
  open n use {Float, lt, le}

  -- The updates that a run of ticks starts, each with its time.
  pub updates : List (ℕ × Float) → TrailPos n → List (ℕ × Update n)
  updates [] p = []
  updates ((now, ltp) ∷ ticks) p =
      let (p', u) = evaluate now ltp p in
      let rest = updates ticks p' in elim u [ none ↦ rest | some v ↦ (now, v) ∷ rest ]

  -- Each update stands at least an interval behind the one before it.
  abbrev pub Spaced : (last : ℕ) → List (ℕ × Update n) → Type 0
  Spaced last [] = Unit
  Spaced last ((t, u) ∷ us) = (update_interval ≤ t - last) × Spaced t us

  -- Each update begins at the stop that the one before it set, improves it, and holds the price of its
  -- tick between the new stop and the target.
  abbrev pub Improves : (side : Side) (target sl : Float) → List (ℕ × Update n) → Type 0
  Improves side target sl [] = Unit
  Improves side target sl ((t, u) ∷ us) =
      (u.old_sl ≡ sl)
      × (better n side u.new_sl sl ≡ true)
      × (band_holds n side u.new_sl u.ltp target ≡ true)
      × Improves side target u.new_sl us

  -- For ordered prices, over any ticks at any times, the updates of a trailed position are at least
  -- thirty seconds apart, and each one improves on the stop before it and brackets its price
  -- between stop and target.
  pub updates_lem :
      (ticks : List (ℕ × Float)) (p : TrailPos n)
      → Spaced p.last_update (updates ticks p)
        × Improves p.entry_side p.target_price p.current_sl (updates ticks p)
  unfolding updates
  updates_lem [] p = (tt, tt)
  updates_lem ((now, ltp) ∷ ticks) p =
      ground (arith, evaluate-Moved now ltp p, updates_lem ticks (evaluate now ltp p).0)

  evaluate_stays :
      (now : ℕ) (ltp : Float) (p : TrailPos n)
      → no_better n p.entry_side ltp p.best_price ≡ true
      → evaluate now ltp p ≡ (track_worst ltp p, none)
  unfolding evaluate
  evaluate_stays now ltp p h = rw h

  stays_silent :
      (ticks : List (ℕ × Float)) (p : TrailPos n)
      → NoBetter n p.entry_side p.best_price ticks
      → updates ticks p ≡ []
  unfolding updates
  stays_silent [] p h = refl
  stays_silent ((now, ltp) ∷ ticks) p h =
      let same = track_worst-SameTrade ltp p in
      let rest = stays_silent ticks (track_worst ltp p) (rw (same.0.0, same.3) h.1) in
      ground (arith, evaluate_stays now ltp p h.0, rest)

  -- A throttled tick raises the best price and nothing else that counts.
  evaluate_throttled :
      (now : ℕ) (ltp : Float) (p : TrailPos n)
      → no_better n p.entry_side ltp p.best_price ≡ false
      → now - p.last_update < update_interval
      → ((evaluate now ltp p).0.best_price ≡ ltp)
        × ((evaluate now ltp p).0.entry_side ≡ p.entry_side)
        × ((evaluate now ltp p).1 ≡ none)
  unfolding evaluate move_stop
  evaluate_throttled now ltp p h soon =
      let same = track_worst-SameTrade ltp p in ground (arith, same)

  -- A tick at a new best price within thirty seconds of the last update starts no update, and the
  -- stop that belongs to it is not sent later either: no tick after it, at whatever time, starts an
  -- update unless its price is better still.
  pub updates_lost :
      (now : ℕ) (ltp : Float) (ticks : List (ℕ × Float)) (p : TrailPos n)
      → no_better n p.entry_side ltp p.best_price ≡ false
      → now - p.last_update < update_interval
      → NoBetter n p.entry_side ltp ticks
      → updates ((now, ltp) ∷ ticks) p ≡ []
  unfolding updates
  updates_lost now ltp ticks p best soon later =
      let (raised, side, silent) = evaluate_throttled now ltp p best soon in
      let rest = stays_silent ticks (evaluate now ltp p).0 (rw (raised, side) later) in
      ground (arith, silent, rest)
