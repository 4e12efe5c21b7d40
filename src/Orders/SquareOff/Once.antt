-- ===== src/Orders/SquareOff/Once.antt =====
-- `square_off` (app/orders.py) closes a symbol at most once in thirty seconds, and a failed closing
-- order does not count.
use tv_zerodha_bot.Prelude.{
  ◌≢◌, is_none, if◌then◌else◌, ℕ, ◌-◌, ◌<◌, ◌≤◌, String, ◌≡◌, refl, ap, ◌∙◌, inl, inr, true, false,
  Option, none, some, arith, string_eq, Bool-cases,
}
use tv_zerodha_bot.Prelude.Int.{negsuc}
use tv_zerodha_bot.Prelude.Dict.{lookup, insert, lookup-insert, eq_self}
use tv_zerodha_bot.Numbers.{Numbers}
use tv_zerodha_bot.Orders.Broker.{
  Side, buy, sell, opposite, OrderParams, Broker, Instrument, Process, Result, ok, err, call,
  monotonic,
}
use tv_zerodha_bot.Orders.Backoff.{
  backoff_call, default_max_retries, default_base_delay, default_cap_delay,
}
use tv_zerodha_bot.Orders.Retries.{Attempts, calls, backoff_call-call, backoff_call-ok}
use tv_zerodha_bot.Orders.SquareOff.{
  recent_squareoff_ttl, closed_recently, is_position_open, remember, exit_params, after_exit,
  square_off,
}

some-ne-none : (id : String) → ¬ (◌≡◌ {A = Result (Option String)} (ok none) (ok (some id)))
some-ne-none id e = cc

opposite-ne : (side : Side) → opposite side ≢ side
opposite-ne buy e = cc
opposite-ne sell e = cc

module _ {n : Numbers} where
  open n use {Float}

  -- What a closing order is to send.
  abbrev pub IsExitOrder :
      Instrument n
      → ℕ
      → (product : String) → (entry_side : Side) → (variety : String) → (limit_price : Option Float)
      → OrderParams n
      → Type 0
  IsExitOrder instrument qty product entry_side variety limit_price p =
      (p.tradingsymbol ≡ instrument.tradingsymbol)
      × (p.exchange ≡ instrument.exchange)
      × (p.transaction_type ≢ entry_side)
      × (p.quantity ≡ qty)
      × (p.product ≡ product)
      × (p.variety ≡ variety)
      × (p.price ≡ limit_price)
      × (p.trigger_price ≡ none)
      × (p.order_type ≡ (if is_none limit_price then "MARKET" else "LIMIT"))
      × (p.market_protection ≡ (if is_none limit_price then some (negsuc 0) else none))

  exit_params-ExitOrder :
      (instrument : Instrument n) (qty : ℕ) (product : String) (entry_side : Side)
      (variety : String) (limit_price : Option Float)
      → IsExitOrder instrument qty product entry_side variety limit_price
          (exit_params instrument (opposite entry_side) qty product variety limit_price)
  unfolding exit_params
  exit_params-ExitOrder instrument qty product entry_side variety none =
      (refl, refl, opposite-ne entry_side, refl, refl, refl, refl, refl, refl, refl)
  exit_params-ExitOrder instrument qty product entry_side variety (some price) =
      (refl, refl, opposite-ne entry_side, refl, refl, refl, refl, refl, refl, refl)

module _ {n : Numbers} {k : Broker n} where
  open n use {Float}

  is_position_open_keeps :
      (symbol exchange : String) (s : Process n k)
      → (is_position_open symbol exchange s).1.recent_squareoffs ≡ s.recent_squareoffs
  unfolding is_position_open
  is_position_open_keeps symbol exchange s = refl

  -- The table after a result `r` of a call for `symbol` at time `now`.
  abbrev pub Recorded : {A : Type 0} → String → ℕ → Result A → Process n k → Process n k → Type 0
  Recorded symbol now (ok a) s t = t.recent_squareoffs ≡ insert symbol now s.recent_squareoffs
  Recorded symbol now (err e) s t = t.recent_squareoffs ≡ s.recent_squareoffs

  after_exit-Recorded :
      (symbol : String) (now : ℕ) (s : Process n k) (p : Result (Option String) × Process n k)
      → p.1.recent_squareoffs ≡ s.recent_squareoffs
      → let (r, t) = after_exit symbol now p in Recorded symbol now r s t
  unfolding after_exit
  after_exit-Recorded symbol now s (ok id, t) h = rw h
  after_exit-Recorded symbol now s (err e, t) h = h

  module _ (instrument : Instrument n) (qty : ℕ) (product : String) (side : Side) (variety : String)
      (limit_price : Option Float) (s : Process n k) where
    abbrev symbol : String
    symbol = instrument.tradingsymbol

    -- A call for a symbol that was not closed recently puts it in the table with the time at which
    -- the call began, if it returns; if it raises, the table stays as it was.
    pub square_off-Recorded :
        closed_recently symbol (monotonic s) s ≡ false
        → let (r, t) = square_off instrument qty product side variety limit_price s in
          Recorded symbol (monotonic s) r s t
    unfolding square_off
    square_off-Recorded fresh =
        let (r, s') = is_position_open {k = k} symbol instrument.exchange s in
        let order =
          k.place_order (exit_params instrument (opposite side) qty product variety limit_price) in
        elim (Bool-cases r.0) [
          | inl is_open ↦
              rw (fresh, is_open)
                (after_exit-Recorded symbol (monotonic s) s (backoff_call (call {k = k} order) s') (
                  (backoff_call-call order s').0
                  ∙ is_position_open_keeps symbol instrument.exchange s))
          | inr flat ↦ rw (fresh, flat) (unfold remember is_position_open in refl)
        ]

    closed_recently_after :
        (u : Process n k)
        → u.recent_squareoffs ≡ insert symbol (monotonic s) s.recent_squareoffs
        → monotonic u - monotonic s < recent_squareoff_ttl
        → closed_recently symbol (monotonic u) u ≡ true
    unfolding closed_recently
    closed_recently_after u e h =
        let found =
          ap (lookup symbol) e ∙ lookup-insert symbol symbol (monotonic s) s.recent_squareoffs in
        let same = eq_self symbol in ground arith

    -- Once a call of square_off for a symbol, not closed in the last thirty seconds, has returned,
    -- having closed it or found it flat, any call for the same symbol, in whatever quantity, at
    -- whatever side and price, returns no order and changes nothing within thirty seconds of the
    -- time at which the first began, as long as the table of recent square-offs was not changed in
    -- between.
    pub square_off_once :
        (other : Instrument n) (qty' : ℕ) (product' : String) (side' : Side) (variety' : String)
        (limit_price' : Option Float) (u : Process n k) {id : Option String}
        → other.tradingsymbol ≡ symbol
        → closed_recently symbol (monotonic s) s ≡ false
        → (square_off instrument qty product side variety limit_price s).0 ≡ ok id
        → u.recent_squareoffs
          ≡ (square_off instrument qty product side variety limit_price s).1.recent_squareoffs
        → monotonic u - monotonic s < recent_squareoff_ttl
        → square_off other qty' product' side' variety' limit_price' u ≡ (ok none, u)
    square_off_once other qty' product' side' variety' limit_price' u same fresh done table soon =
        let noted = square_off-Recorded fresh in
        let closed = closed_recently_after u (table ∙ (rw done at noted)) soon in
        unfold square_off in rw (same, closed)

    after_exit-ok :
        (now : ℕ) (p : Result (Option String) × Process n k) {r : Option String}
        → (after_exit symbol now p).0 ≡ ok r
        → p.0 ≡ ok r
    unfolding after_exit
    after_exit-ok now (ok id, t) h = h
    after_exit-ok now (err e, t) h = cc

    -- If square_off returns an order id, the symbol was not closed in the last thirty seconds, the
    -- position was not known to be flat, and the id is the broker's answer, after at most three
    -- repeats, to an order for the symbol and its exchange on the side other than that of the
    -- entry, for the quantity, product and variety that were given, at the limit price if there is
    -- one, and otherwise at the market with its protection.
    pub square_off_order :
        {id : String}
        → (square_off instrument qty product side variety limit_price s).0 ≡ ok (some id)
        → let (r, s') = is_position_open {k = k} symbol instrument.exchange s in
          (closed_recently symbol (monotonic s) s ≡ false)
          × (r.0 ≡ true)
          × (params : OrderParams n) × IsExitOrder instrument qty product side variety limit_price
              params
          × (t : Process n k) × (run : Attempts default_max_retries default_base_delay
              default_cap_delay
              (call {k = k} (k.place_order params))
              0
              s'
              (ok id)
              t)
          × (calls run ≤ 4)
    unfolding square_off
    square_off_order {id} h =
        let (r, s') = is_position_open {k = k} symbol instrument.exchange s in
        let params = exit_params instrument (opposite side) qty product variety limit_price in
        let sent = exit_params-ExitOrder instrument qty product side variety limit_price in
        let order = k.place_order params in
        elim (Bool-cases (closed_recently symbol (monotonic s) s)) [
          | inl closed ↦ absurd (some-ne-none id (rw closed at h))
          | inr fresh ↦ elim (Bool-cases r.0) [
            | inl is_open ↦
                let answer =
                  after_exit-ok (monotonic s) (backoff_call (call {k = k} order) s')
                    (rw (fresh, is_open) at h) in
                let (t, run, few) = backoff_call-ok order s' id answer in
                (fresh, is_open, params, sent, t, run, few)
            | inr flat ↦ absurd (some-ne-none id (rw (fresh, flat) at h))
          ]
        ]
