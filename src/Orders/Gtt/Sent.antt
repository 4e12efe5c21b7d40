-- ===== src/Orders/Gtt/Sent.antt =====
-- What `place_gtt_oco` (app/orders.py) sends, and what it makes of the answer.
use tv_zerodha_bot.Prelude.{ℕ, ◌≤◌, String, ◌≡◌, refl, ◌≢◌, Option, none, some, if◌then◌else◌}
use tv_zerodha_bot.Numbers.{Numbers, round_to_tick}
use tv_zerodha_bot.Orders.Broker.{
  Side, buy, sell, is_buy, Broker, Leg, OcoParams, Instrument, Process, Result, ok, err, GttAnswer,
  gtt_id, gtt_dict, call,
}
use tv_zerodha_bot.Orders.Backoff.{
  backoff_call, default_max_retries, default_base_delay, default_cap_delay,
}
use tv_zerodha_bot.Orders.Retries.{Attempts, calls, found, backoff_call-Attempts}
use tv_zerodha_bot.Orders.Entry.{on_tick}
use tv_zerodha_bot.Orders.Gtt.{oco_params, key_error, trigger_id_of, place_gtt_oco}

-- What the answer comes to: the id in either form, a dict without it for an error, and an exception
-- for itself.
abbrev pub Read : Result GttAnswer → Result ℕ → Type 0
Read (ok (gtt_id id)) r = r ≡ ok id
Read (ok (gtt_dict (some id))) r = r ≡ ok id
Read (ok (gtt_dict none)) r = r ≡ err key_error
Read (err exc) r = r ≡ err exc

module _ {n : Numbers} where
  open n use {Float, Decimal, decimal, to_float, dec_mul, dec_div, half_up}

  -- The nearest multiple of the tick.
  abbrev pub to_tick : Instrument n → Decimal → Float
  to_tick instrument price =
      let tick = decimal instrument.tick_size in
      to_float (dec_mul (half_up (dec_div price tick)) tick)

  on_tick_lem :
      (instrument : Instrument n) (price : Decimal)
      → on_tick instrument price ≡ to_tick instrument price
  unfolding on_tick round_to_tick
  on_tick_lem instrument price = refl

  -- A leg that closes the position of the side with a limit order.
  abbrev pub IsClosing :
      Instrument n → ℕ → (product : String) → (entry_side : Side) → Float → Leg n → Type 0
  IsClosing instrument qty product entry_side price l =
      (l.exchange ≡ instrument.exchange)
      × (l.tradingsymbol ≡ instrument.tradingsymbol)
      × (l.transaction_type ≢ entry_side)
      × (l.quantity ≡ qty)
      × (l.order_type ≡ "LIMIT")
      × (l.product ≡ product)
      × (l.price ≡ price)

  -- The first trigger and leg are those of the stop for a long position, and those of the target for
  -- a short one.
  abbrev pub IsBracket :
      Instrument n
      → (qty : ℕ) → (sl_trigger sl_limit target_trigger target_limit last_price : Decimal)
      → (product : String) → (entry_side : Side) → OcoParams n
      → Type 0
  IsBracket instrument qty sl sl_limit target target_limit last_price product side p =
      let tick = to_tick instrument in
      let long = is_buy side in
      (p.tradingsymbol ≡ instrument.tradingsymbol)
      × (p.exchange ≡ instrument.exchange)
      × (p.last_price ≡ tick last_price)
      × (p.trigger_values.0 ≡ tick (if long then sl else target))
      × (p.trigger_values.1 ≡ tick (if long then target else sl))
      × IsClosing instrument qty product side (tick (if long then sl_limit else target_limit))
          p.orders.0
      × IsClosing instrument qty product side (tick (if long then target_limit else sl_limit))
          p.orders.1

  oco_params-Bracket :
      (instrument : Instrument n) (qty : ℕ) (sl sl_limit target target_limit last_price : Decimal)
      (product : String) (side : Side)
      → IsBracket instrument qty sl sl_limit target target_limit last_price product side (
          oco_params
            (on_tick instrument sl)
            (on_tick instrument sl_limit)
            (on_tick instrument target)
            (on_tick instrument target_limit)
            (on_tick instrument last_price)
            instrument
            qty
            product
            side)
  unfolding oco_params on_tick round_to_tick
  oco_params-Bracket instrument qty sl sl_limit target target_limit last_price product buy =
      let other : sell ≢ buy = λ e. cc in
      (
        refl,
        refl,
        refl,
        refl,
        refl,
        (refl, refl, other, refl, refl, refl, refl),
        (refl, refl, other, refl, refl, refl, refl),
      )
  oco_params-Bracket instrument qty sl sl_limit target target_limit last_price product sell =
      let other : buy ≢ sell = λ e. cc in
      (
        refl,
        refl,
        refl,
        refl,
        refl,
        (refl, refl, other, refl, refl, refl, refl),
        (refl, refl, other, refl, refl, refl, refl),
      )

  module _ {k : Broker n} where
    -- The outcome of a request for a bracket: after at most three repeats an answer, and what is
    -- returned is what the answer comes to.
    abbrev pub IsPlaced : OcoParams n → Process n k → Result ℕ × Process n k → Type 0
    IsPlaced p s (r, t) =
        (answer : Result GttAnswer) × (run : Attempts default_max_retries default_base_delay
          default_cap_delay (call {k = k} (k.place_gtt p)) 0 s answer t)
        × (calls run ≤ 4)
        × Read answer r

    -- The step after the loop, for an outcome of it.
    read_answer : Result (Option GttAnswer) × Process n k → Result ℕ × Process n k
    read_answer (r, t) = elim r [ ok raw ↦ (trigger_id_of raw, t) | err exc ↦ (err exc, t) ]

    read_found :
        (p : OcoParams n) (s : Process n k) (o : Result (Option GttAnswer) × Process n k)
        (answer : Result GttAnswer)
        (run : Attempts default_max_retries default_base_delay default_cap_delay
          (call {k = k} (k.place_gtt p))
          0
          s
          answer
          o.1)
        → o.0 ≡ found answer
        → calls run ≤ 4
        → IsPlaced p s (read_answer o)
    unfolding read_answer trigger_id_of
    read_found p s (r, t) (ok (gtt_id id)) run e few = rw e (ok (gtt_id id), run, few, refl)
    read_found p s (r, t) (ok (gtt_dict none)) run e few = rw e (ok (gtt_dict none), run, few, refl)
    read_found p s (r, t) (ok (gtt_dict (some id))) run e few =
        rw e (ok (gtt_dict (some id)), run, few, refl)
    read_found p s (r, t) (err exc) run e few = rw e (err exc, run, few, refl)

    -- Whatever the client answers, place_gtt_oco asks at most four times for a bracket of two limit
    -- orders that close the whole quantity on the other side, each behind its trigger, that of the
    -- stop first for a long position and that of the target first for a short one, with every price
    -- on a tick; it returns the id of the last answer, be that an id or a dict with it, and raises
    -- exactly the exception of the last answer, or a KeyError for a dict without an id.
    pub place_gtt_oco_lem :
        (instrument : Instrument n) (qty : ℕ) (sl sl_limit target target_limit last_price : Decimal)
        (product : String) (side : Side) (s : Process n k)
        → (p : OcoParams n) × IsBracket instrument qty sl sl_limit target target_limit last_price
            product side p
          × IsPlaced p s (
              place_gtt_oco instrument qty sl sl_limit target target_limit last_price product side
                s)
    unfolding place_gtt_oco backoff_call read_answer
    place_gtt_oco_lem instrument qty sl sl_limit target target_limit last_price product side s =
        let p =
          oco_params (on_tick instrument sl) (on_tick instrument sl_limit)
            (on_tick instrument target) (on_tick instrument target_limit)
            (on_tick instrument last_price) instrument qty product side in
        let request = call {k = k} (k.place_gtt p) in
        let (answer, run, e, few) =
          backoff_call-Attempts default_max_retries default_base_delay default_cap_delay request
            s in
        (
          p,
          oco_params-Bracket instrument qty sl sl_limit target target_limit last_price product side,
          read_found p s (backoff_call request s) answer run e few,
        )
