-- ===== src/Orders/SquareOff.antt =====
-- `is_position_open` and `square_off` (app/orders.py). The lock of a symbol serialises the calls for
-- it; the model runs one call at a time.
pub mod Once
use tv_zerodha_bot.Prelude.{
  ℕ, zero, ◌-◌, ◌*◌, String, Bool, true, false, not, ◌&&◌, Option, none, some, List, [], ◌∷◌, ltb,
  ◌==◌, nat_eq, string_eq, if◌then◌else◌, second,
}
use tv_zerodha_bot.Prelude.Int.{ℤ, pos, negsuc}
use tv_zerodha_bot.Prelude.Dict.{lookup, insert}
use tv_zerodha_bot.Numbers.{Numbers}
use tv_zerodha_bot.Orders.Broker.{
  Side, opposite, Broker, OrderParams, NetPosition, Instrument, Process, Action, Result, ok, err,
  pure, call, monotonic,
}
use tv_zerodha_bot.Orders.Backoff.{backoff_call}

abbrev pub recent_squareoff_ttl : ℕ
recent_squareoff_ttl = 30 * second

abbrev pub is_zero : ℤ → Bool
is_zero (pos zero) = true
is_zero _ = false

module _ {n : Numbers} where
  open n use {Float}

  -- The loop over the `net` array: the first entry of the symbol decides.
  unfoldable pub net_quantity : String → String → List (NetPosition n) → Bool × ℤ
  net_quantity tradingsymbol exchange [] = (false, pos 0)
  net_quantity tradingsymbol exchange (p ∷ ps) =
      if p.tradingsymbol == tradingsymbol && p.exchange == exchange
      then (not (is_zero p.quantity), p.quantity)
      else net_quantity tradingsymbol exchange ps

  -- If the client raises, the position counts as open.
  unfoldable pub open_or_unknown : String → String → Result (List (NetPosition n)) → Bool × ℤ
  unfolding net_quantity
  open_or_unknown tradingsymbol exchange (ok ps) = net_quantity tradingsymbol exchange ps
  open_or_unknown tradingsymbol exchange (err exc) = (true, pos 0)

  unfoldable pub exit_params :
      Instrument n
      → Side
      → ℕ
      → (product variety : String) → (limit_price : Option Float) → OrderParams n
  exit_params instrument exit_side qty product variety limit_price = record {
    variety = variety;
    exchange = instrument.exchange;
    tradingsymbol = instrument.tradingsymbol;
    transaction_type = exit_side;
    quantity = qty;
    order_type = elim limit_price [ none ↦ "MARKET" | some _ ↦ "LIMIT" ];
    product = product;
    market_protection = elim limit_price [ none ↦ some (negsuc 0) | some _ ↦ none ];
    price = limit_price;
    trigger_price = none;
  }

  module _ {k : Broker n} where
    unfoldable pub is_position_open : String → String → Process n k → (Bool × ℤ) × Process n k
    unfolding open_or_unknown
    is_position_open tradingsymbol exchange s =
        let (r, w) = k.positions s.world in
        (open_or_unknown tradingsymbol exchange r, record s { world = w })

    -- Was the symbol closed in this process less than 30 seconds before `now`?
    unfoldable pub closed_recently : String → ℕ → Process n k → Bool
    closed_recently symbol now s = elim (lookup symbol s.recent_squareoffs) [
      | none ↦ false
      | some last ↦ ltb (now - last) recent_squareoff_ttl
    ]

    unfoldable pub remember : String → ℕ → Process n k → Process n k
    remember symbol now s = record s { recent_squareoffs = insert symbol now s.recent_squareoffs }

    -- The closing order: the symbol is remembered only if the order goes out.
    unfoldable pub after_exit :
        String → ℕ → Result (Option String) × Process n k → Result (Option String) × Process n k
    unfolding remember
    after_exit symbol now (ok id, s) = (ok id, remember symbol now s)
    after_exit symbol now (err exc, s) = (err exc, s)

    unfoldable pub square_off :
        Instrument n
        → ℕ
        → (product : String) → (entry_side : Side) → (variety : String)
        → (limit_price : Option Float) → Action n k (Option String)
    square_off instrument qty product entry_side variety limit_price s =
        let symbol = instrument.tradingsymbol in
        let now = monotonic s in
        if closed_recently symbol now s
        then (ok none, s)
        else (let ((is_open, kite_qty), s') = is_position_open symbol instrument.exchange s in
            if is_open
            then after_exit symbol now (
                backoff_call
                  (call {k = k} (
                    k.place_order (
                      exit_params instrument (opposite entry_side) qty product variety
                        limit_price)))
                  s')
            else (ok none, remember symbol now s'))
