-- ===== src/Hedge/Honest.antt =====
-- What the answer of `_limit_then_market` (app/hedge_core.py) says of the orders.
use tv_zerodha_bot.Prelude.{
  ℕ, zero, suc, ◌+◌, String, ◌≡◌, refl, ap, true, false, ◌||◌, Option, none, some, List, [], ◌∷◌,
  ltb, ◌==◌, string_eq, Bool-cases, inl, inr, second, ◌*◌,
}
use tv_zerodha_bot.Numbers.{Numbers}
use tv_zerodha_bot.Orders.Broker.{
  Side, Broker, Instrument, Process, Result, ok, err, Exception, call,
}
use tv_zerodha_bot.Orders.Backoff.{backoff_call}
use tv_zerodha_bot.Orders.Entry.{place_entry}
use tv_zerodha_bot.Hedge.Escalate.{
  HedgeClient, limit, market, insufficient_funds, failed, Answer, refused, market_answer,
  is_insufficient_funds, has_status, latest, price_of, after_market, send_market, Seen, look_at,
  after_history, poll, await_fill, cancelled, after_wait, after_limit, at_price, limit_then_market,
}

module _ {n : Numbers} {k : Broker n} where
  open n use {Float, decimal, Decimal}

  module _ (client : HedgeClient n k) (instrument : Instrument n) (side : Side) (qty : ℕ) where
    -- The order was answered with the id, for the whole quantity.
    abbrev pub Placed : (order_type : String) → Option Decimal → String → Type 0
    Placed order_type price id =
        (s : Process n k) × ((place_entry instrument side qty order_type "NRML" price none "regular"
            s).0
          ≡ ok (some id))

    -- The history of the order was read, and ended with a complete state.
    abbrev pub SeenComplete : String → Type 0
    SeenComplete id =
        (s : Process n k) × (x : Option String) × (history : List (Option String)) × ((backoff_call
            (call {k = k} (client.order_history id)) s).0
          ≡ ok (some (x ∷ history)))
        × (has_status "COMPLETE" (latest x history) ≡ true)

    abbrev pub IsHonest : Option Answer → Type 0
    IsHonest none = Unit
    IsHonest (some (some id, limit)) =
        (price : Decimal) × Placed "LIMIT" (some price) id × SeenComplete id
    IsHonest (some (some id, market)) = Placed "MARKET" none id
    IsHonest (some (some id, insufficient_funds)) = ⊥
    IsHonest (some (some id, failed)) = ⊥
    IsHonest (some (none, limit)) = ⊥
    IsHonest (some (none, market)) = ⊥
    IsHonest (some (none, insufficient_funds)) = Unit
    IsHonest (some (none, failed)) = Unit

    refused-Honest : (exc : Exception) → IsHonest (some (refused exc))
    unfolding refused
    refused-Honest exc = elim (Bool-cases (is_insufficient_funds exc)) [
      | inl poor ↦ rw poor tt
      | inr other ↦ rw other tt
    ]

    after_market-Honest :
        (s : Process n k) (r : Result (Option String) × Process n k)
        → place_entry instrument side qty "MARKET" "NRML" none none "regular" s ≡ r
        → IsHonest (after_market r).0
    unfolding after_market market_answer
    after_market-Honest s (err exc, t) e = refused-Honest exc
    after_market-Honest s (ok none, t) e = tt
    after_market-Honest s (ok (some id), t) e = elim (Bool-cases (id == "")) [
      | inl empty ↦ rw empty tt
      | inr named ↦ rw named (s, ap (λ p. p.0) e)
    ]

    -- A loop that says that the order was filled has seen it.
    abbrev IsVouched : String → Seen → Type 0
    IsVouched oid none = Unit
    IsVouched oid (some true) = SeenComplete oid
    IsVouched oid (some false) = Unit

    after_history-Vouched :
        (later : Process n k → Seen × Process n k) (oid : String) (s : Process n k)
        (r : Result (Option (List (Option String))) × Process n k)
        → backoff_call (call {k = k} (client.order_history oid)) s ≡ r
        → ((t : Process n k) → IsVouched oid (later t).0)
        → IsVouched oid (after_history later r).0
    unfolding after_history look_at
    after_history-Vouched later oid s (err exc, t) e ih = ih t
    after_history-Vouched later oid s (ok none, t) e ih = ih t
    after_history-Vouched later oid s (ok (some []), t) e ih = ih t
    after_history-Vouched later oid s (ok (some (x ∷ history)), t) e ih =
        let status = latest x history in
        elim (Bool-cases (has_status "COMPLETE" status)) [
          | inl complete ↦ rw complete (s, x, history, ap (λ p. p.0) e, complete)
          | inr other ↦
              elim (Bool-cases (has_status "CANCELLED" status || has_status "REJECTED" status)) [
                | inl over ↦ rw (other, over) tt
                | inr open_still ↦ rw (other, open_still) (ih t)
              ]
        ]

    await_fill-Vouched :
        (fuel : ℕ) (oid : String) (deadline : ℕ) (s : Process n k)
        → IsVouched oid (await_fill fuel client oid deadline s).0
    unfolding await_fill poll
    await_fill-Vouched zero oid deadline s = tt
    await_fill-Vouched (suc fuel) oid deadline s =
        let slept = record s { world = k.sleep (2 * second) s.world } in
        elim (Bool-cases (ltb (k.monotonic s.world) deadline)) [
          | inl early ↦ rw early (
              after_history-Vouched (await_fill fuel client oid deadline) oid slept
                (backoff_call (call {k = k} (client.order_history oid)) slept) refl
                (await_fill-Vouched fuel oid deadline))
          | inr late ↦ rw late tt
        ]

    send_market-Honest : (s : Process n k) → IsHonest (send_market instrument side qty s).0
    unfolding send_market
    send_market-Honest s =
        after_market-Honest s
          (place_entry instrument side qty "MARKET" "NRML" none none "regular" s) refl

    after_wait-Honest :
        (price : Decimal) (oid : String) (seen : Seen) (s : Process n k)
        → Placed "LIMIT" (some price) oid
        → IsVouched oid seen
        → IsHonest (after_wait client instrument side qty oid (seen, s)).0
    unfolding after_wait
    after_wait-Honest price oid none s placed vouched = tt
    after_wait-Honest price oid (some true) s placed vouched = (price, placed, vouched)
    after_wait-Honest price oid (some false) s placed vouched =
        send_market-Honest (cancelled client oid s)

    after_limit-Honest :
        (fuel wait : ℕ) (price : Decimal) (s : Process n k)
        (r : Result (Option String) × Process n k)
        → place_entry instrument side qty "LIMIT" "NRML" (some price) none "regular" s ≡ r
        → IsHonest (after_limit fuel wait client instrument side qty r).0
    unfolding after_limit
    after_limit-Honest fuel wait price s (err exc, t) e = refused-Honest exc
    after_limit-Honest fuel wait price s (ok none, t) e = tt
    after_limit-Honest fuel wait price s (ok (some oid), t) e =
        let deadline = k.monotonic t.world + wait in
        let seen = await_fill fuel client oid deadline t in
        after_wait-Honest price oid seen.0 seen.1 (s, ap (λ p. p.0) e)
          (await_fill-Vouched fuel oid deadline t)

    at_price-Honest :
        (fuel wait : ℕ) (price : Option Float) (s : Process n k)
        → IsHonest (at_price fuel wait client instrument side qty price s).0
    unfolding at_price
    at_price-Honest fuel wait none s = send_market-Honest s
    at_price-Honest fuel wait (some price) s =
        after_limit-Honest fuel wait (decimal price) s
          (place_entry instrument side qty "LIMIT" "NRML" (some (decimal price)) none "regular" s)
          refl

    -- However the broker answers, the answer of _limit_then_market is true: LIMIT is said only if
    -- the LIMIT order was answered with this id and its history was read to end in COMPLETE, MARKET
    -- only if the MARKET order for the whole quantity was answered with this id, and an answer
    -- without an id is FAILED or INSUFFICIENT_FUNDS.
    pub limit_then_market-Honest :
        (fuel wait : ℕ) (s : Process n k)
        → IsHonest (limit_then_market fuel wait client instrument side qty s).0
    unfolding limit_then_market
    limit_then_market-Honest fuel wait s =
        let (q, w) = client.quote instrument.exchange instrument.tradingsymbol s.world in
        at_price-Honest fuel wait (price_of side q) (record s { world = w })
