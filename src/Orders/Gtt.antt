-- ===== src/Orders/Gtt.antt =====
-- The GTT OCO bracket (app/orders.py): its limits, and its placing, changing and cancelling.
pub mod Brackets
pub mod Sent
use tv_zerodha_bot.Prelude.{ℕ, Bool, true, false, Option, none, some, if◌then◌else◌}
use tv_zerodha_bot.Numbers.{Numbers}
use tv_zerodha_bot.Orders.Broker.{
  Side, buy, sell, opposite, is_buy, Broker, Leg, OcoParams, Instrument, Action, GttAnswer, gtt_id,
  gtt_dict, Result, err, Exception, other_error, ok, pure, call, ◌>>=◌, ◌>>◌,
}
use tv_zerodha_bot.Orders.Backoff.{backoff_call}
use tv_zerodha_bot.Orders.Entry.{on_tick}
use Prim.Native.String.{String}

-- `raw["trigger_id"] if isinstance(raw, dict) else int(raw)`
abbrev pub key_error : Exception
key_error = record { class = other_error; code = none; message = "'trigger_id'" }

abbrev pub type_error : Exception
type_error = record { class = other_error; code = none; message = "int() of None" }

unfoldable pub trigger_id_of : Option GttAnswer → Result ℕ
trigger_id_of none = err type_error
trigger_id_of (some (gtt_id id)) = ok id
trigger_id_of (some (gtt_dict none)) = err key_error
trigger_id_of (some (gtt_dict (some id))) = ok id

module _ (n : Numbers) where
  open n use {Float, Decimal, decimal, dec_one, dec_add, dec_sub, dec_mul}

  unfoldable pub compute_oco_limits :
      (sl_trigger target_trigger : Float) → Side → (buffer_pct : Float) → Decimal × Decimal
  compute_oco_limits sl_trigger target_trigger entry_side buffer_pct =
      let buf = decimal buffer_pct in
      let factor = if is_buy entry_side then dec_sub dec_one buf else dec_add dec_one buf in
      (dec_mul (decimal sl_trigger) factor, dec_mul (decimal target_trigger) factor)

module _ {n : Numbers} where
  open n use {Float, Decimal}

  leg : Instrument n → Side → ℕ → String → Float → Leg n
  leg instrument exit_side qty product price = record {
    exchange = instrument.exchange;
    tradingsymbol = instrument.tradingsymbol;
    transaction_type = exit_side;
    quantity = qty;
    order_type = "LIMIT";
    product = product;
    price = price;
  }

  -- What `modify_gtt` sends: both legs close the position, and Kite wants [low, high].
  unfoldable pub oco_params :
      (sl_trigger sl_limit target_trigger target_limit last_price : Float)
      → Instrument n
      → (qty : ℕ) → (product : String) → (entry_side : Side) → OcoParams n
  unfolding leg
  oco_params sl_trigger sl_limit target_trigger target_limit last_price instrument qty product
        entry_side =
      let exit_side = opposite entry_side in
      let sl_leg = leg instrument exit_side qty product sl_limit in
      let tgt_leg = leg instrument exit_side qty product target_limit in
      record {
        tradingsymbol = instrument.tradingsymbol;
        exchange = instrument.exchange;
        trigger_values =
            if is_buy entry_side
            then (sl_trigger, target_trigger)
            else (target_trigger, sl_trigger);
        last_price = last_price;
        orders = if is_buy entry_side then (sl_leg, tgt_leg) else (tgt_leg, sl_leg);
      }

  module _ {k : Broker n} where
    unfoldable pub modify_gtt :
        (id : ℕ) (sl_trigger sl_limit target_trigger target_limit last_price : Float)
        → Instrument n
        → (qty : ℕ) → (product : String) → (entry_side : Side) → Action n k (Option ℕ)
    unfolding oco_params
    modify_gtt id sl_trigger sl_limit target_trigger target_limit last_price instrument qty product
          entry_side =
        backoff_call (
          call {k = k} (
            k.modify_gtt id (
              oco_params sl_trigger sl_limit target_trigger target_limit last_price instrument qty
                product entry_side)))

    -- The same request, with every price put on a tick.
    unfoldable pub place_gtt_oco :
        Instrument n
        → (qty : ℕ) → (sl_trigger sl_limit target_trigger target_limit last_price : Decimal)
        → (product : String) → (entry_side : Side) → Action n k ℕ
    unfolding oco_params trigger_id_of
    place_gtt_oco instrument qty sl_trigger sl_limit target_trigger target_limit last_price product
          entry_side =
        backoff_call (
          call {k = k} (
            k.place_gtt (
              oco_params (on_tick instrument sl_trigger) (on_tick instrument sl_limit)
                (on_tick instrument target_trigger) (on_tick instrument target_limit)
                (on_tick instrument last_price) instrument qty product entry_side)))
        >>= λ raw s. (trigger_id_of raw, s)

    unfoldable pub cancel_gtt : (id : ℕ) → Action n k Bool
    cancel_gtt id = do backoff_call (call {k = k} (k.delete_gtt id)); pure true
