-- ===== src/Watcher/Runs.antt =====
-- Runs of `OrderWatcher` (app/watcher.py): its operations in any order, and what is counted of them.
use tv_zerodha_bot.Prelude.{
  ℕ, ◌+◌, String, Bool, true, false, Option, List, [], ◌∷◌, member, ◌==◌, nat_eq, string_eq,
}
use tv_zerodha_bot.Prelude.Dict.{lookup}
use tv_zerodha_bot.Numbers.{Numbers}
use tv_zerodha_bot.Watcher.Orders.{
  OrderUpdate, Delivery, entry_filled, gtt_filled, OrderWatcher, start, restart, watch_order,
  arm_timer, fire, fallback_end, unwatch_order, subscribe, unsubscribe, subscribe_full, on_connect,
  on_reconnect, on_noreconnect, on_order_update,
}

-- What happens to a watcher. `watches` and `arms` are the two parts of
-- `watch_order`, `timer_fires` and `poll_answers` those of a fallback poll.
pub data Event (n : Numbers) : Type 0 where
  starts : (api_key access_token : String) → Event n
  restarts : (api_key access_token : String) → Event n
  watches : (kite_order_id : String) → Event n
  arms : (kite_order_id : String) → Event n
  unwatches : (kite_order_id : String) → Event n
  timer_fires : ℕ → Event n
  poll_answers : (kite_order_id : String) → Option (List (OrderUpdate n)) → Event n
  updates : OrderUpdate n → Event n
  subscribes : List ℕ → Event n
  unsubscribes : List ℕ → Event n
  subscribes_full : List ℕ → Event n
  connects reconnects gives_up : Event n

abbrev pub one_if : Bool → ℕ
one_if true = 1
one_if false = 0

module _ {n : Numbers} where
  abbrev pub step : Event n → OrderWatcher n → OrderWatcher n
  step (starts k t) w = start k t w
  step (restarts k t) w = restart k t w
  step (watches id) w = watch_order id w
  step (arms id) w = arm_timer id w
  step (unwatches id) w = unwatch_order id w
  step (timer_fires t) w = fire (lookup t w.armed) t w
  step (poll_answers id history) w = fallback_end id history w
  step (updates u) w = on_order_update u w
  step (subscribes ts) w = subscribe ts w
  step (unsubscribes ts) w = unsubscribe ts w
  step (subscribes_full ts) w = subscribe_full ts w
  step connects w = on_connect w
  step reconnects w = on_reconnect w
  step gives_up w = on_noreconnect w

  abbrev pub run : List (Event n) → OrderWatcher n → OrderWatcher n
  run [] w = w
  run (e ∷ es) w = run es (step e w)

  -- The fills of an order that were handed on.
  abbrev pub is_fill_of : String → Delivery n → Bool
  is_fill_of id (entry_filled f) = f.kite_order_id == id
  is_fill_of id (gtt_filled f) = false

  abbrev pub fills : String → List (Delivery n) → ℕ
  fills id [] = 0
  fills id (d ∷ ds) = one_if (is_fill_of id d) + fills id ds

  -- How often an order was watched, and how often it was taken off the list again.
  abbrev pub is_watch : String → Event n → Bool
  is_watch id e = elim e [ watches j ↦ j == id | _ ↦ false ]

  abbrev pub is_unwatch : String → Event n → Bool
  is_unwatch id e = elim e [ unwatches j ↦ j == id | _ ↦ false ]

  abbrev pub watch_count : String → List (Event n) → ℕ
  watch_count id [] = 0
  watch_count id (e ∷ es) = one_if (is_watch id e) + watch_count id es

  abbrev pub unwatch_count : String → List (Event n) → ℕ
  unwatch_count id [] = 0
  unwatch_count id (e ∷ es) = one_if (is_unwatch id e) + unwatch_count id es

  -- Is the order still awaited?
  abbrev pub awaited : String → OrderWatcher n → ℕ
  awaited id w = one_if (member id w.watched_order_ids)
