-- ===== src/Orders/Throttle.antt =====
-- `throttled_quote_call` (app/orders.py): one quote request at a time, more than a second apart.
use tv_zerodha_bot.Prelude.{
  ℕ, ◌+◌, ◌-◌, ◌*◌, ◌/◌, ◌≤◌, ◌≡◌, refl, Option, ltb, if◌then◌else◌, second, arith,
}
use tv_zerodha_bot.Numbers.{Numbers}
use tv_zerodha_bot.Orders.Broker.{Broker, Ticks, Process, Action, Result, monotonic}
use tv_zerodha_bot.Orders.Backoff.{
  backoff_call, default_max_retries, default_base_delay, default_cap_delay,
}
use tv_zerodha_bot.Orders.Retries.{Attempts, found, backoff_call-Attempts}

-- 1.05 seconds
abbrev pub quote_min_interval : ℕ
quote_min_interval = second * 105 / 100

module _ {n : Numbers} {k : Broker n} where
  -- `wait` is positive exactly if less than the interval has passed.
  unfoldable pub await_quote_slot : Process n k → Process n k
  await_quote_slot s =
      let passed = monotonic s - s.last_quote_ts in
      if ltb passed quote_min_interval
      then record s { world = k.sleep (quote_min_interval - passed) s.world }
      else s

  -- The `finally` clause: the time is written after an exception too.
  unfoldable pub stamp_quote :
      {A : Type 0} → Result (Option A) × Process n k → Result (Option A) × Process n k
  stamp_quote (r, s) = (r, record s { last_quote_ts = monotonic s })

  unfoldable pub throttled_quote_call : {A : Type 0} → Action n k A → Action n k (Option A)
  unfolding await_quote_slot stamp_quote
  throttled_quote_call fn s = stamp_quote (backoff_call fn (await_quote_slot s))

  -- The wait of a quote slot ends a full interval after the end of the last quote request.
  await_quote_slot_waits :
      (laws : Ticks n k) (s : Process n k)
      → s.last_quote_ts ≤ monotonic s
      → s.last_quote_ts + quote_min_interval ≤ monotonic (await_quote_slot s)
  unfolding await_quote_slot
  await_quote_slot_waits laws s h =
      ground
        (arith, laws.sleep_grows (quote_min_interval - (monotonic s - s.last_quote_ts)) s.world)

  -- What the second of two throttled quote calls does: it starts its attempts a full interval after
  -- `last`, and ends with their answer, whose time is written down.
  abbrev pub IsSpaced :
      {A : Type 0} → (last : ℕ) → Action n k A → Result (Option A) × Process n k → Type 0
  IsSpaced {A} last g (r, u) =
      (first t : Process n k) × (answer : Result A) × (run : Attempts default_max_retries
        default_base_delay default_cap_delay g 0 first answer t)
      × (last + quote_min_interval ≤ monotonic first)
      × (r ≡ found answer)
      × (u ≡ record t { last_quote_ts = monotonic t })

  -- A throttled quote call makes the first of its requests at least 1.05 seconds after the end of
  -- the throttled call before it, whether that one returned or raised, and whatever happened in
  -- between, as long as the clock did not go back, a sleep lasts its time and no other throttled
  -- call was made; and it answers what its last request answered, and writes down the time of it.
  pub throttled_quote_call-IsSpaced :
      {A B : Type 0} (laws : Ticks n k) (f : Action n k A) (g : Action n k B)
      (s between : Process n k)
      → between.last_quote_ts ≡ (throttled_quote_call f s).1.last_quote_ts
      → monotonic (throttled_quote_call f s).1 ≤ monotonic between
      → IsSpaced (monotonic (throttled_quote_call f s).1) g (throttled_quote_call g between)
  unfolding throttled_quote_call backoff_call
  throttled_quote_call-IsSpaced laws f g s between same later =
      let first = await_quote_slot between in
      let (answer, run, e, few) =
        backoff_call-Attempts default_max_retries default_base_delay default_cap_delay g first in
      (first, _, answer, run, omega (arith, await_quote_slot_waits laws between), e, refl)
