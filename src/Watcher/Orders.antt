-- ===== src/Watcher/Orders.antt =====
-- `OrderWatcher` (app/watcher.py) as a state machine. What a lock holds together is one step; the
-- fallback poll and the watching of an order have two such parts. The ticker is code
-- of a third party: the calls of it are kept, the newest first, and so are the events handed to the
-- two callbacks, which are given.
use tv_zerodha_bot.Prelude.{
  ℕ, ◌+◌, String, Bool, true, false, not, ◌&&◌, Option, none, some, or_default, List, [], ◌∷◌, ◌++◌,
  member, remove_first, ◌==◌, nat_eq, string_eq, if◌then◌else◌,
}
use tv_zerodha_bot.Prelude.Int.{ℤ, pos}
use tv_zerodha_bot.Prelude.Dict.{Dict, lookup, insert, erase}
use tv_zerodha_bot.Numbers.{Numbers}
use tv_zerodha_bot.Watcher.Sets.{add, discard, add_all, discard_all}

abbrev pub is_empty : List ℕ → Bool
is_empty [] = true
is_empty (_ ∷ _) = false

-- `timer.cancel()`, for a timer that was popped
unfoldable pub cancel : Option ℕ → Dict ℕ String → Dict ℕ String
cancel none armed = armed
cancel (some t) armed = erase t armed

-- A call of the ticker.
pub data Command : Type 0 where
  connect : (api_key access_token : String) → Command
  close : Command
  subscribe_tokens : List ℕ → Command
  unsubscribe_tokens : List ℕ → Command
  set_mode_full : List ℕ → Command

module _ (n : Numbers) where
  open n use {Float}

  -- An order update of the broker: a dict whose keys may be missing.
  pub record OrderUpdate : Type 0 where
    pub order_id : Option String
    pub status : Option String
    pub average_price : Option Float
    pub filled_quantity : Option ℤ
    pub tradingsymbol : Option String
    pub transaction_type : Option String

  pub record EntryFilledEvent : Type 0 where
    pub kite_order_id : String
    pub fill_price : Float
    pub fill_qty : ℤ
    pub content : OrderUpdate

  pub record GttFilledEvent : Type 0 where
    pub kite_order_id : String
    pub tradingsymbol : String
    pub fill_price : Float
    pub fill_qty : ℤ
    pub transaction_type : String
    pub content : OrderUpdate

  pub data Delivery : Type 0 where
    entry_filled : EntryFilledEvent → Delivery
    gtt_filled : GttFilledEvent → Delivery

  -- `armed` holds the timers that have not fired and were not cancelled, with their orders, and
  -- `polling` the orders whose history has been asked for.
  pub record OrderWatcher : Type 0 where
    pub has_ticker : Bool
    pub started : Bool
    pub subscribed_tokens : List ℕ
    pub full_mode_tokens : List ℕ
    pub watched_order_ids : List String
    pub pending_timers : Dict String ℕ
    pub armed : Dict ℕ String
    pub next_timer : ℕ
    pub polling : List String
    pub sent : List Command
    pub delivered : List Delivery

module _ {n : Numbers} where
  open n use {Float, of_int}

  unfoldable pub start : (api_key access_token : String) → OrderWatcher n → OrderWatcher n
  start api_key access_token w = if w.started then w else record w {
    started = true;
    has_ticker = true;
    sent = connect api_key access_token ∷ w.sent;
  }

  unfoldable pub restart : (api_key access_token : String) → OrderWatcher n → OrderWatcher n
  restart api_key access_token w =
      let sent = if w.has_ticker then close ∷ w.sent else w.sent in
      start api_key access_token (record w { has_ticker = false; started = false; sent = sent })

  -- The two parts of `watch_order` under the lock: the order is put on the list, and then, if a
  -- fallback poll is wanted, its timer is noted and started.
  unfoldable pub watch_order : (kite_order_id : String) → OrderWatcher n → OrderWatcher n
  watch_order kite_order_id w = record w {
    watched_order_ids = add kite_order_id w.watched_order_ids;
  }

  unfoldable pub arm_timer : (kite_order_id : String) → OrderWatcher n → OrderWatcher n
  arm_timer kite_order_id w = record w {
    pending_timers = insert kite_order_id w.next_timer w.pending_timers;
    armed = insert w.next_timer kite_order_id w.armed;
    next_timer = w.next_timer + 1;
  }

  unfoldable pub is_complete : OrderUpdate n → Bool
  is_complete u = or_default "" u.status == "COMPLETE"

  -- The first complete update of `reversed(history)`.
  unfoldable pub last_complete : List (OrderUpdate n) → Option (OrderUpdate n)
  last_complete [] = none
  last_complete (u ∷ history) = elim (last_complete history) [
    | none ↦ if is_complete u then some u else none
    | some v ↦ some v
  ]

  unfoldable pub entry_event : String → OrderUpdate n → EntryFilledEvent n
  entry_event kite_order_id u = record {
    kite_order_id = kite_order_id;
    fill_price = or_default (of_int (pos 0)) u.average_price;
    fill_qty = or_default (pos 0) u.filled_quantity;
    content = u;
  }

  unfoldable pub gtt_event : String → OrderUpdate n → GttFilledEvent n
  gtt_event order_id u = record {
    kite_order_id = order_id;
    tradingsymbol = or_default "" u.tradingsymbol;
    fill_price = or_default (of_int (pos 0)) u.average_price;
    fill_qty = or_default (pos 0) u.filled_quantity;
    transaction_type = or_default "SELL" u.transaction_type;
    content = u;
  }

  -- The first part of `_fallback_check`: the order is polled if it is still watched.
  unfoldable pub fallback_begin : (kite_order_id : String) → OrderWatcher n → OrderWatcher n
  fallback_begin kite_order_id w =
      if member kite_order_id w.watched_order_ids
      then record w { polling = w.polling ++ kite_order_id ∷ [] }
      else w

  -- A timer fires, if it is armed.
  unfoldable pub fire : Option String → (timer : ℕ) → OrderWatcher n → OrderWatcher n
  fire none timer w = w
  fire (some kite_order_id) timer w =
      fallback_begin kite_order_id (record w { armed = erase timer w.armed })

  -- The second part: the order is taken unless the update has come in the meantime.
  unfoldable pub claim :
      (kite_order_id : String) → Option (OrderUpdate n) → OrderWatcher n → OrderWatcher n
  claim kite_order_id none w = w
  claim kite_order_id (some u) w =
      if member kite_order_id w.watched_order_ids
      then record w {
        watched_order_ids = discard kite_order_id w.watched_order_ids;
        pending_timers = erase kite_order_id w.pending_timers;
        delivered = entry_filled (entry_event kite_order_id u) ∷ w.delivered;
      }
      else w

  -- The answer to a poll; `none` stands for an exception.
  unfoldable pub fallback_end :
      (kite_order_id : String) → Option (List (OrderUpdate n)) → OrderWatcher n → OrderWatcher n
  fallback_end kite_order_id none w = record w { polling = remove_first kite_order_id w.polling }
  fallback_end kite_order_id (some history) w =
      if member kite_order_id w.polling
      then claim kite_order_id (last_complete history)
          (record w { polling = remove_first kite_order_id w.polling })
      else w

  unfoldable pub unwatch_order : (kite_order_id : String) → OrderWatcher n → OrderWatcher n
  unwatch_order kite_order_id w = record w {
    watched_order_ids = discard kite_order_id w.watched_order_ids;
    pending_timers = erase kite_order_id w.pending_timers;
    armed = cancel (lookup kite_order_id w.pending_timers) w.armed;
  }

  unfoldable pub subscribe : List ℕ → OrderWatcher n → OrderWatcher n
  subscribe tokens w = record w {
    subscribed_tokens = add_all tokens w.subscribed_tokens;
    sent = if w.has_ticker then subscribe_tokens tokens ∷ w.sent else w.sent;
  }

  unfoldable pub unsubscribe : List ℕ → OrderWatcher n → OrderWatcher n
  unsubscribe tokens w = record w {
    subscribed_tokens = discard_all tokens w.subscribed_tokens;
    full_mode_tokens = discard_all tokens w.full_mode_tokens;
    sent = if w.has_ticker then unsubscribe_tokens tokens ∷ w.sent else w.sent;
  }

  unfoldable pub apply_full_mode : OrderWatcher n → OrderWatcher n
  apply_full_mode w =
      if w.has_ticker && not (is_empty w.full_mode_tokens)
      then record w { sent = set_mode_full w.full_mode_tokens ∷ w.sent }
      else w

  unfoldable pub subscribe_full : List ℕ → OrderWatcher n → OrderWatcher n
  unfolding subscribe apply_full_mode
  subscribe_full tokens w =
      if is_empty tokens
      then w
      else apply_full_mode
          (subscribe tokens (record w { full_mode_tokens = add_all tokens w.full_mode_tokens }))

  -- The callback of a ticker, so that there is one.
  unfoldable pub on_connect : OrderWatcher n → OrderWatcher n
  unfolding apply_full_mode
  on_connect w = apply_full_mode (
      if is_empty w.subscribed_tokens
      then w
      else record w { sent = subscribe_tokens w.subscribed_tokens ∷ w.sent })

  unfoldable pub on_reconnect : OrderWatcher n → OrderWatcher n
  unfolding apply_full_mode
  on_reconnect w =
      if not (is_empty w.subscribed_tokens) && w.has_ticker
      then apply_full_mode (record w { sent = subscribe_tokens w.subscribed_tokens ∷ w.sent })
      else w

  unfoldable pub on_noreconnect : OrderWatcher n → OrderWatcher n
  on_noreconnect w = record w { started = false }

  -- A complete update of an order that is watched is its fill, any other one the fill of an exit.
  unfoldable pub complete_update :
      (order_id : String) → OrderUpdate n → OrderWatcher n → OrderWatcher n
  complete_update order_id u w =
      if member order_id w.watched_order_ids
      then record w {
        watched_order_ids = discard order_id w.watched_order_ids;
        pending_timers = erase order_id w.pending_timers;
        armed = cancel (lookup order_id w.pending_timers) w.armed;
        delivered = entry_filled (entry_event order_id u) ∷ w.delivered;
      }
      else record w { delivered = gtt_filled (gtt_event order_id u) ∷ w.delivered }

  unfoldable pub on_order_update : OrderUpdate n → OrderWatcher n → OrderWatcher n
  on_order_update u w = if is_complete u then complete_update (or_default "" u.order_id) u w else w

  unfoldable pub init : OrderWatcher n
  init = record {
    has_ticker = false;
    started = false;
    subscribed_tokens = [];
    full_mode_tokens = [];
    watched_order_ids = [];
    pending_timers = [];
    armed = [];
    next_timer = 0;
    polling = [];
    sent = [];
    delivered = [];
  }
