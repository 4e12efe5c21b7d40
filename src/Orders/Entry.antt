-- ===== src/Orders/Entry.antt =====
-- `place_entry` (app/orders.py).
use tv_zerodha_bot.Prelude.{
  true, false, refl, ℕ, ◌%◌, ◌≤◌, ◌≡◌, ◌≢◌, arith, inl, inr, Option-cases, String, Bool, ◌||◌,
  Option, none, some, ◌==◌, nat_eq, string_eq, if◌then◌else◌,
}
use tv_zerodha_bot.Prelude.Int.{negsuc}
use tv_zerodha_bot.Numbers.{Numbers, round_to_tick}
use tv_zerodha_bot.Orders.Broker.{
  Side, Broker, OrderParams, Instrument, Process, Action, ok, Exception, value_error, other_error,
  raise, call,
}
use tv_zerodha_bot.Orders.Backoff.{
  backoff_call, default_max_retries, default_base_delay, default_cap_delay,
}
use tv_zerodha_bot.Orders.Retries.{Attempts, calls, backoff_call-call, backoff_call-ok}

abbrev pub bad_quantity : Exception
bad_quantity = record { class = value_error; code = none; message = "not a multiple of lot_size" }

abbrev pub zero_division : Exception
zero_division = record { class = other_error; code = none; message = "integer modulo by zero" }

module _ {n : Numbers} where
  open n use {Float, Decimal, decimal, to_float, dec_mul, dec_div, half_up}

  -- `float(round_to_tick(price, tick))`, with `tick = Decimal(str(instrument.tick_size))`
  unfoldable pub on_tick : Instrument n → Decimal → Float
  unfolding round_to_tick
  on_tick instrument price = to_float (round_to_tick n price (decimal instrument.tick_size))

  rounded_if : Bool → Instrument n → Option Decimal → Option Float
  unfolding on_tick
  rounded_if wanted instrument none = none
  rounded_if wanted instrument (some price) =
      if wanted then some (on_tick instrument price) else none

  unfoldable pub entry_params :
      Instrument n
      → Side
      → ℕ
      → (order_type product : String) → (price trigger_price : Option Decimal) → (variety : String)
      → OrderParams n
  unfolding rounded_if
  entry_params instrument side qty order_type product price trigger_price variety = record {
    variety = variety;
    exchange = instrument.exchange;
    tradingsymbol = instrument.tradingsymbol;
    transaction_type = side;
    quantity = qty;
    order_type = order_type;
    product = product;
    market_protection =
        if order_type == "MARKET" || order_type == "SL-M" then some (negsuc 0) else none;
    price = rounded_if (order_type == "LIMIT" || order_type == "SL") instrument price;
    trigger_price =
        rounded_if (order_type == "SL-M" || order_type == "SL") instrument trigger_price;
  }

  -- A price on a tick: the nearest multiple of the tick, a half away from zero.
  abbrev pub ticked : Instrument n → Option Decimal → Option Float
  ticked instrument none = none
  ticked instrument (some price) =
      let tick = decimal instrument.tick_size in
      some (to_float (dec_mul (half_up (dec_div price tick)) tick))

  rounded_if_lem :
      (wanted : Bool) (instrument : Instrument n) (price : Option Decimal)
      → rounded_if wanted instrument price ≡ (if wanted then ticked instrument price else none)
  unfolding rounded_if on_tick round_to_tick
  rounded_if_lem true instrument none = refl
  rounded_if_lem false instrument none = refl
  rounded_if_lem wanted instrument (some price) = refl

  -- What an entry is to send: every field of the order, a price only to the order types that have
  -- one, and put on a tick.
  abbrev pub IsEntryOrder :
      Instrument n
      → Side
      → ℕ
      → (order_type product : String) → (price trigger_price : Option Decimal) → (variety : String)
      → OrderParams n
      → Type 0
  IsEntryOrder instrument side qty order_type product price trigger_price variety p =
      (p.tradingsymbol ≡ instrument.tradingsymbol)
      × (p.exchange ≡ instrument.exchange)
      × (p.transaction_type ≡ side)
      × (p.quantity ≡ qty)
      × (p.order_type ≡ order_type)
      × (p.product ≡ product)
      × (p.variety ≡ variety)
      × (p.market_protection
          ≡ (if order_type == "MARKET" || order_type == "SL-M" then some (negsuc 0) else none))
      × (p.price
          ≡ (if order_type == "LIMIT" || order_type == "SL" then ticked instrument price else none))
      × (p.trigger_price ≡ (
          if order_type == "SL-M" || order_type == "SL"
          then ticked instrument trigger_price
          else none))

  entry_params-EntryOrder :
      (instrument : Instrument n) (side : Side) (qty : ℕ) (order_type product : String)
      (price trigger_price : Option Decimal) (variety : String)
      → IsEntryOrder instrument side qty order_type product price trigger_price variety
          (entry_params instrument side qty order_type product price trigger_price variety)
  unfolding entry_params
  entry_params-EntryOrder instrument side qty order_type product price trigger_price variety = (
    refl,
    refl,
    refl,
    refl,
    refl,
    refl,
    refl,
    refl,
    rounded_if_lem (order_type == "LIMIT" || order_type == "SL") instrument price,
    rounded_if_lem (order_type == "SL-M" || order_type == "SL") instrument trigger_price,
  )

  module _ {k : Broker n} where
    unfoldable pub place_entry :
        Instrument n
        → Side
        → ℕ
        → (order_type product : String) → (price trigger_price : Option Decimal)
        → (variety : String) → Action n k (Option String)
    unfolding entry_params
    place_entry instrument side qty order_type product price trigger_price variety =
        if instrument.lot_size == 0
        then raise zero_division
        else if qty % instrument.lot_size == 0
        then backoff_call (
            call {k = k} (
              k.place_order
                (entry_params instrument side qty order_type product price trigger_price variety)))
        else raise bad_quantity

    -- What the two tests before the order let through.
    guards_passed :
        (lot_size qty : ℕ) (order : Action n k (Option String)) (s : Process n k)
        {r : Option String}
        → ((if lot_size == 0
              then raise zero_division
              else if qty % lot_size == 0
              then order
              else raise bad_quantity)
            s).0
          ≡ ok r
        → (lot_size ≢ 0) × (qty % lot_size ≡ 0) × ((order s).0 ≡ ok r)
    guards_passed lot_size qty order s h = ground arith

    -- If place_entry returns, it returns an order id, never None; the lot size is not 0 and the
    -- quantity is a whole number of lots; and the id is the broker's answer, after at most three
    -- repeats, to an order for the instrument with the side, quantity, type, product and variety
    -- that were given, market protection exactly for MARKET and SL-M, the price exactly for LIMIT
    -- and SL, the trigger exactly for SL-M and SL, and both put on a tick.
    pub place_entry_ok :
        (instrument : Instrument n) (side : Side) (qty : ℕ) (order_type product : String)
        (price trigger_price : Option Decimal) (variety : String) (s : Process n k)
        (r : Option String)
        → (place_entry instrument side qty order_type product price trigger_price variety s).0
          ≡ ok r
        → (instrument.lot_size ≢ 0)
          × (qty % instrument.lot_size ≡ 0)
          × (params : OrderParams n) × IsEntryOrder instrument side qty order_type product price
              trigger_price variety params
          × (id : String) × (r ≡ some id)
          × (t : Process n k) × (run : Attempts default_max_retries default_base_delay
              default_cap_delay
              (call {k = k} (k.place_order params))
              0
              s
              (ok id)
              t)
          × (calls run ≤ 4)
    unfolding place_entry
    place_entry_ok instrument side qty order_type product price trigger_price variety s r h =
        let params =
          entry_params instrument side qty order_type product price trigger_price variety in
        let sent =
          entry_params-EntryOrder instrument side qty order_type product price trigger_price
            variety in
        let order = k.place_order params in
        let lots = guards_passed instrument.lot_size qty (backoff_call (call {k = k} order)) s h in
        elim (Option-cases r) [
          | inl nothing ↦ absurd ((backoff_call-call order s).2 (rw nothing at lots.2))
          | inr (id, e) ↦
              let (t, run, few) = backoff_call-ok order s id (rw e at lots.2) in
              (lots.0, lots.1, params, sent, id, e, t, run, few)
        ]
