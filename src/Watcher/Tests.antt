-- ===== src/Watcher/Tests.antt =====
-- A watched order whose fill comes twice.
use tv_zerodha_bot.Prelude.{
  ◌+◌, List, ◌≤◌, ◌<◌, ◌≡◌, refl, true, some, [], ◌∷◌, ◌++◌, member, nat_eq, string_eq,
}
use tv_zerodha_bot.Prelude.Int.{pos}
use tv_zerodha_bot.Numbers.Fixed.{fixed}
use tv_zerodha_bot.Watcher.Orders.{
  OrderUpdate, OrderWatcher, is_complete, fire, fallback_begin, watch_order, arm_timer,
  subscribe_full, subscribe, apply_full_mode, init, start, on_connect, on_reconnect,
}
use tv_zerodha_bot.Watcher.Runs.{
  Event, starts, watches, arms, updates, timer_fires, subscribes_full, run, fills, awaited,
  watch_count,
}
use tv_zerodha_bot.Watcher.Fills.{fills_once}
use tv_zerodha_bot.Watcher.Deliveries.{fill_delivered}
use tv_zerodha_bot.Watcher.Tokens.{Restores, full_mode_restored}

abbrev complete : OrderUpdate fixed
complete = record {
  order_id = some "A1";
  status = some "COMPLETE";
  average_price = some (pos 100000);
  filled_quantity = some (pos 2);
  tradingsymbol = some "NG";
  transaction_type = some "BUY";
}

-- Watched, and its fallback poll is under way.
abbrev polled : OrderWatcher fixed
polled = run (watches "A1" ∷ arms "A1" ∷ timer_fires 0 ∷ []) init

fills_once_example :
    let w = run (watches "A1" ∷ arms "A1" ∷ updates complete ∷ []) (init {n = fixed}) in
    (fills "A1" w.delivered
      ≤ watch_count {n = fixed} "A1" (watches "A1" ∷ arms "A1" ∷ updates complete ∷ []))
    × (awaited "A1" w + fills "A1" w.delivered
        ≤ watch_count {n = fixed} "A1" (watches "A1" ∷ arms "A1" ∷ updates complete ∷ []))
fills_once_example = fills_once "A1" (watches "A1" ∷ arms "A1" ∷ updates complete ∷ [])

fill_delivered_example :
    fills "A1" polled.delivered
    < fills "A1" (run (timer_fires 7 ∷ [] ++ updates complete ∷ []) polled).delivered
unfolding watch_order arm_timer fire fallback_begin init is_complete
fill_delivered_example =
    fill_delivered "A1" (timer_fires 7 ∷ []) [] complete polled refl refl (refl, refl)

-- Connected, with one token in full mode.
abbrev streaming : List (Event fixed)
streaming = starts "key" "token" ∷ subscribes_full (5 ∷ []) ∷ []

full_mode_restored_example :
    let w = run streaming init in
    (member 5 w.subscribed_tokens ≡ true)
    × Restores 5 w (on_connect w)
    × Restores 5 w (on_reconnect w)
unfolding subscribe_full subscribe apply_full_mode init start
full_mode_restored_example = full_mode_restored {n = fixed} 5 streaming refl refl
