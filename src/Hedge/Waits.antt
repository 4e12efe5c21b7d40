-- ===== src/Hedge/Waits.antt =====
-- The wait for a fill (app/hedge_core.py, `_limit_then_market`) ends, for a clock that goes on.
use tv_zerodha_bot.Prelude.{
  is_none, ℕ, zero, suc, ◌+◌, ◌*◌, ◌≤◌, String, ◌≡◌, refl, ap, true, false, ◌||◌, Option, none,
  some, List, [], ◌∷◌, ltb, min, ◌^◌, arith, second, Bool-cases, inl, inr,
}
use tv_zerodha_bot.Numbers.{Numbers}
use tv_zerodha_bot.Orders.Broker.{Side, Broker, Instrument, Process, Result, ok, err, call}
use tv_zerodha_bot.Orders.Backoff.{
  backoff_call, backoff_sleep, default_max_retries, default_base_delay, default_cap_delay,
}
use tv_zerodha_bot.Orders.Retries.{Attempts, backoff_call-Attempts}
use tv_zerodha_bot.Orders.Entry.{place_entry}
use tv_zerodha_bot.Hedge.Escalate.{
  HedgeClient, has_status, latest, price_of, after_market, send_market, Seen, look_at,
  after_history, poll, await_fill, cancelled, after_wait, after_limit, at_price, limit_then_market,
}

module _ {n : Numbers} where
  -- What is documented of the clock: a sleep lasts at least its time, and the other calls do not set
  -- it back.
  pub record Clock (k : Broker n) (client : HedgeClient n k) : Type 0 where
    pub sleep_grows : (t : ℕ) (w : k.World) → k.monotonic w + t ≤ k.monotonic (k.sleep t w)
    pub uniform_kept : (w : k.World) → k.monotonic w ≤ k.monotonic (k.uniform w).1
    pub history_kept :
        (oid : String) (w : k.World) → k.monotonic w ≤ k.monotonic (client.order_history oid w).1

module _ {n : Numbers} {k : Broker n} (client : HedgeClient n k) (laws : Clock k client) where
  backoff_sleep_kept :
      (base cap attempt : ℕ) (s : Process n k)
      → k.monotonic s.world ≤ k.monotonic (backoff_sleep base cap attempt s).world
  unfolding backoff_sleep
  backoff_sleep_kept base cap attempt s =
      let (jitter, w) = k.uniform s.world in
      omega (
        arith,
        laws.uniform_kept s.world,
        laws.sleep_grows (min cap (base * 2 ^ attempt) + jitter) w,
      )

  Attempts-kept :
      (oid : String) (attempt : ℕ) (s t : Process n k) (r : Result (List (Option String)))
      → Attempts default_max_retries default_base_delay default_cap_delay
          (call {k = k} (client.order_history oid))
          attempt
          s
          r
          t
      → k.monotonic s.world ≤ k.monotonic t.world
  Attempts-kept oid attempt s t r (Attempts.succeeds a e) =
      omega (arith, laws.history_kept oid s.world, ap (λ p. k.monotonic p.1.world) e)
  Attempts-kept oid attempt s t r (Attempts.gives_up exc e stop) =
      omega (arith, laws.history_kept oid s.world, ap (λ p. k.monotonic p.1.world) e)
  Attempts-kept oid attempt s t r (Attempts.retries {s' = s'} exc e again run) = omega (
    arith,
    laws.history_kept oid s.world,
    ap (λ p. k.monotonic p.1.world) e,
    backoff_sleep_kept default_base_delay default_cap_delay attempt s',
    Attempts-kept oid (suc attempt) (backoff_sleep default_base_delay default_cap_delay attempt s')
        t r run,
  )

  history_kept :
      (oid : String) (s : Process n k)
      → k.monotonic s.world
        ≤ k.monotonic (backoff_call (call {k = k} (client.order_history oid)) s).1.world
  unfolding backoff_call
  history_kept oid s =
      let fn = call {k = k} (client.order_history oid) in
      let (answer, run, same, few) =
        backoff_call-Attempts default_max_retries default_base_delay default_cap_delay fn s in
      Attempts-kept oid 0 s (backoff_call fn s).1 answer run

  after_history_ends :
      (later : Process n k → Seen × Process n k) (now : ℕ)
      (r : Result (Option (List (Option String))) × Process n k)
      → now ≤ k.monotonic r.1.world
      → ((t : Process n k) → now ≤ k.monotonic t.world → is_none (later t).0 ≡ false)
      → is_none (after_history later r).0 ≡ false
  unfolding after_history look_at
  after_history_ends later now (err exc, t) h ih = ih t h
  after_history_ends later now (ok none, t) h ih = ih t h
  after_history_ends later now (ok (some []), t) h ih = ih t h
  after_history_ends later now (ok (some (x ∷ history)), t) h ih =
      let status = latest x history in
      elim (Bool-cases (has_status "COMPLETE" status)) [
        | inl complete ↦ rw complete refl
        | inr other ↦
            elim (Bool-cases (has_status "CANCELLED" status || has_status "REJECTED" status)) [
              | inl over ↦ rw (other, over) refl
              | inr open_still ↦ rw (other, open_still) (ih t h)
            ]
      ]

  -- A round for each two seconds, and one more, are enough.
  await_fill_ends :
      (fuel : ℕ) (oid : String) (deadline : ℕ) (s : Process n k)
      → deadline ≤ k.monotonic s.world + fuel * (2 * second)
      → is_none (await_fill (suc fuel) client oid deadline s).0 ≡ false
  unfolding await_fill poll
  await_fill_ends zero oid deadline s h =
      let late : ltb (k.monotonic s.world) deadline ≡ false = ground (arith, h) in rw late refl
  await_fill_ends (suc fuel) oid deadline s h =
      let slept = record s { world = k.sleep (2 * second) s.world } in
      let after = backoff_call (call {k = k} (client.order_history oid)) slept in
      let now = k.monotonic s.world + 2 * second in
      let later = await_fill (suc fuel) client oid deadline in
      let grown : now ≤ k.monotonic after.1.world =
        omega (arith, laws.sleep_grows (2 * second) s.world, history_kept oid slept) in
      let ends : is_none (after_history later after).0 ≡ false =
        after_history_ends later now after grown
          (λ t g. await_fill_ends fuel oid deadline t (omega (arith, h, g))) in
      elim (Bool-cases (ltb (k.monotonic s.world) deadline)) [
        | inl early ↦ rw early ends
        | inr late ↦ rw late refl
      ]

  module _ (instrument : Instrument n) (side : Side) (qty : ℕ) where
    after_market_ends :
        (r : Result (Option String) × Process n k) → is_none (after_market r).0 ≡ false
    unfolding after_market
    after_market_ends (ok oid, s) = refl
    after_market_ends (err exc, s) = refl

    send_market_ends : (s : Process n k) → is_none (send_market instrument side qty s).0 ≡ false
    unfolding send_market
    send_market_ends s =
        after_market_ends (place_entry instrument side qty "MARKET" "NRML" none none "regular" s)

    after_wait_ends :
        (oid : String) (seen : Seen) (s : Process n k)
        → is_none seen ≡ false
        → is_none (after_wait client instrument side qty oid (seen, s)).0 ≡ false
    unfolding after_wait
    after_wait_ends oid none s h = h
    after_wait_ends oid (some true) s h = refl
    after_wait_ends oid (some false) s h = send_market_ends (cancelled client oid s)

    after_limit_ends :
        (fuel wait : ℕ) (r : Result (Option String) × Process n k)
        → wait ≤ fuel * (2 * second)
        → is_none (after_limit (suc fuel) wait client instrument side qty r).0 ≡ false
    unfolding after_limit
    after_limit_ends fuel wait (err exc, t) h = refl
    after_limit_ends fuel wait (ok none, t) h = refl
    after_limit_ends fuel wait (ok (some oid), t) h =
        let seen = await_fill (suc fuel) client oid (k.monotonic t.world + wait) t in
        after_wait_ends oid seen.0 seen.1
          (await_fill_ends fuel oid (k.monotonic t.world + wait) t (omega (arith, h)))

    at_price_ends :
        (fuel wait : ℕ) (price : Option n.Float) (s : Process n k)
        → wait ≤ fuel * (2 * second)
        → is_none (at_price (suc fuel) wait client instrument side qty price s).0 ≡ false
    unfolding at_price
    at_price_ends fuel wait none s h = send_market_ends s
    at_price_ends fuel wait (some price) s h =
        after_limit_ends fuel wait
          (place_entry instrument side qty "LIMIT" "NRML" (some (n.decimal price)) none "regular" s)
          h

    -- If a sleep lasts at least its time and the other calls do not set the clock back, then a
    -- round for every two seconds of the wait, and one more, are enough for _limit_then_market to
    -- answer.
    pub limit_then_market_ends :
        (fuel wait : ℕ) (s : Process n k)
        → wait ≤ fuel * (2 * second)
        → is_none (limit_then_market (suc fuel) wait client instrument side qty s).0 ≡ false
    unfolding limit_then_market
    limit_then_market_ends fuel wait s h =
        let (q, w) = client.quote instrument.exchange instrument.tradingsymbol s.world in
        at_price_ends fuel wait (price_of side q) (record s { world = w }) h
