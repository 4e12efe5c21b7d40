-- ===== src/Hedge/Escalate.antt =====
-- `_limit_then_market` (app/hedge_core.py): a LIMIT order at the top of the book, and a MARKET order
-- if it is not filled in time. `now` is the clock of the client, which this function reads too.
use tv_zerodha_bot.Prelude.{
  ℕ, zero, suc, ◌+◌, ◌*◌, String, Bool, true, false, ◌||◌, Option, none, some, or_default, List, [],
  ◌∷◌, ltb, second, ◌==◌, string_eq, if◌then◌else◌,
}
use tv_zerodha_bot.Prelude.Int.{pos}
use tv_zerodha_bot.Prelude.Text.{lower, codes, occurs, alike}
use tv_zerodha_bot.Numbers.{Numbers}
use tv_zerodha_bot.Orders.Broker.{
  Side, is_buy, Broker, Instrument, Process, Result, ok, err, Exception, call, monotonic,
}
use tv_zerodha_bot.Orders.Backoff.{backoff_call}
use tv_zerodha_bot.Orders.Entry.{place_entry}

module _ (n : Numbers) where
  open n use {Float}

  -- What is read of a quote: the first price on each side of the book, and the last price.
  pub record Quote : Type 0 where
    pub buy_price : Option Float
    pub sell_price : Option Float
    pub last_price : Option Float

  -- The other calls of the client. A history is the list of the states of an order, as texts.
  pub record HedgeClient (k : Broker n) : Type 0 where
    pub quote : (exchange tradingsymbol : String) → k.World → Result Quote × k.World
    pub order_history : String → k.World → Result (List (Option String)) × k.World
    pub cancel_order : String → k.World → Result (Unit {0}) × k.World

pub data Mode : Type 0 where
  limit market insufficient_funds failed : Mode

abbrev pub Answer : Type 0
Answer = Option String × Mode

-- The loop saw the order filled (`some true`), or gives it up (`some false`). `none` is an end of
-- the fuel.
abbrev pub Seen : Type 0
Seen = Option Bool

unfoldable pub is_insufficient_funds : Exception → Bool
is_insufficient_funds exc = occurs (codes "Insufficient funds") (codes exc.message)

unfoldable pub refused : Exception → Answer
unfolding is_insufficient_funds
refused exc = (none, if is_insufficient_funds exc then insufficient_funds else failed)

-- `if oid`: an id that is not empty
unfoldable pub market_answer : Option String → Answer
market_answer none = (none, failed)
market_answer (some id) = if id == "" then (none, failed) else (some id, market)

-- `(latest.get("status") or "").upper()` is the word.
unfoldable pub has_status : (word : String) → Option String → Bool
has_status word status = alike (lower (or_default "" status)) (lower word)

-- The last entry.
unfoldable pub latest : Option String → List (Option String) → Option String
latest status [] = status
latest status (s ∷ history) = latest s history

unfoldable pub first_or {ℓ} : {A : Type ℓ} → Option A → Option A → Option A
first_or none last = last
first_or (some x) last = some x

module _ (n : Numbers) where
  open n use {Float, lt, le, of_int}

  -- `float(x or 0) or None`
  unfoldable pub or_none : Option Float → Option Float
  or_none none = none
  or_none (some x) =
      let zero_f = of_int (pos 0) in if lt x zero_f || lt zero_f x then some x else none

  unfoldable pub positive : Option Float → Option Float
  positive none = none
  positive (some x) = if le x (of_int (pos 0)) then none else some x

module _ {n : Numbers} where
  open n use {Float}

  -- The price of the order, if there is a positive one; the book is hit on the other side.
  unfoldable pub price_of : Side → Result (Quote n) → Option Float
  unfolding or_none positive first_or
  price_of side (err exc) = none
  price_of side (ok q) =
      let top = or_none n (if is_buy side then q.sell_price else q.buy_price) in
      positive n (first_or (positive n top) (or_none n q.last_price))

module _ {n : Numbers} {k : Broker n} where
  open n use {Float, decimal}

  -- Both places that send a MARKET order end like this.
  unfoldable pub after_market : Result (Option String) × Process n k → Option Answer × Process n k
  unfolding market_answer refused
  after_market (ok oid, s) = (some (market_answer oid), s)
  after_market (err exc, s) = (some (refused exc), s)

  unfoldable pub send_market :
      Instrument n → Side → (qty : ℕ) → Process n k → Option Answer × Process n k
  unfolding after_market
  send_market instrument side qty s =
      after_market (place_entry instrument side qty "MARKET" "NRML" none none "regular" s)

  unfoldable pub look_at :
      (later : Process n k → Seen × Process n k) → Option String → Process n k → Seen × Process n k
  unfolding has_status
  look_at later status s =
      let rest = later s in
      if has_status "COMPLETE" status
      then (some true, s)
      else if has_status "CANCELLED" status || has_status "REJECTED" status
      then (some false, s)
      else rest

  unfoldable pub after_history :
      (later : Process n k → Seen × Process n k)
      → Result (Option (List (Option String))) × Process n k
      → Seen × Process n k
  unfolding look_at latest
  after_history later (err exc, s) = later s
  after_history later (ok none, s) = later s
  after_history later (ok (some []), s) = later s
  after_history later (ok (some (x ∷ history)), s) = look_at later (latest x history) s

  unfoldable pub poll :
      HedgeClient n k
      → (oid : String) → (deadline : ℕ) → (later : Process n k → Seen × Process n k) → Process n k
      → Seen × Process n k
  unfolding after_history
  poll client oid deadline later s =
      let asked = after_history later (
        backoff_call (call {k = k} (client.order_history oid))
          (record s { world = k.sleep (2 * second) s.world })) in
      if ltb (monotonic s) deadline then asked else (some false, s)

  -- `while time.monotonic() < deadline`
  unfoldable pub await_fill :
      (fuel : ℕ)
      → HedgeClient n k
      → (oid : String) → (deadline : ℕ) → Process n k
      → Seen × Process n k
  unfolding poll
  await_fill zero client oid deadline s = (none, s)
  await_fill (suc fuel) client oid deadline s =
      poll client oid deadline (await_fill fuel client oid deadline) s

  -- A failed cancellation is only logged.
  unfoldable pub cancelled : HedgeClient n k → (oid : String) → Process n k → Process n k
  cancelled client oid s = (backoff_call (call {k = k} (client.cancel_order oid)) s).1

  unfoldable pub after_wait :
      HedgeClient n k
      → Instrument n
      → Side
      → (qty : ℕ) → (oid : String) → Seen × Process n k
      → Option Answer × Process n k
  unfolding cancelled send_market
  after_wait client instrument side qty oid (none, s) = (none, s)
  after_wait client instrument side qty oid (some true, s) = (some (some oid, limit), s)
  after_wait client instrument side qty oid (some false, s) =
      send_market instrument side qty (cancelled client oid s)

  unfoldable pub after_limit :
      (fuel wait : ℕ)
      → HedgeClient n k
      → Instrument n
      → Side
      → (qty : ℕ) → Result (Option String) × Process n k
      → Option Answer × Process n k
  unfolding refused await_fill after_wait
  after_limit fuel wait client instrument side qty (err exc, s) = (some (refused exc), s)
  after_limit fuel wait client instrument side qty (ok none, s) = (some (none, failed), s)
  after_limit fuel wait client instrument side qty (ok (some oid), s) =
      after_wait client instrument side qty oid (await_fill fuel client oid (monotonic s + wait) s)

  unfoldable pub at_price :
      (fuel wait : ℕ)
      → HedgeClient n k
      → Instrument n
      → Side
      → (qty : ℕ) → Option Float
      → Process n k
      → Option Answer × Process n k
  unfolding after_limit send_market
  at_price fuel wait client instrument side qty none s = send_market instrument side qty s
  at_price fuel wait client instrument side qty (some price) s =
      after_limit fuel wait client instrument side qty
        (place_entry instrument side qty "LIMIT" "NRML" (some (decimal price)) none "regular" s)

  -- `wait` is NG_DELTA_HEDGE_LIMIT_WAIT_SEC, in nanoseconds.
  unfoldable pub limit_then_market :
      (fuel wait : ℕ)
      → HedgeClient n k
      → Instrument n
      → Side
      → (qty : ℕ) → Process n k
      → Option Answer × Process n k
  unfolding at_price price_of
  limit_then_market fuel wait client instrument side qty s =
      let (q, w) = client.quote instrument.exchange instrument.tradingsymbol s.world in
      at_price fuel wait client instrument side qty (price_of side q) (record s { world = w })
