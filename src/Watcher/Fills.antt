-- ===== src/Watcher/Fills.antt =====
-- The fills that `OrderWatcher` (app/watcher.py) hands on, over every run of its operations: none is
-- lost and none is handed on twice, with the updates and the fallback poll in any order.
use tv_zerodha_bot.Prelude.{
  ℕ, ◌+◌, ◌≤◌, String, ◌≡◌, refl, true, false, Option, none, some, or_default, List, [], ◌∷◌,
  member, remove_first, ◌==◌, nat_eq, string_eq, arith, eq_iff, Bool-cases, inl, inr,
}
use tv_zerodha_bot.Prelude.Dict.{lookup}
use tv_zerodha_bot.Numbers.{Numbers}
use tv_zerodha_bot.Watcher.Sets.{discard}
use tv_zerodha_bot.Watcher.Orders.{
  OrderUpdate, OrderWatcher, start, restart, watch_order, arm_timer, is_complete, last_complete,
  entry_event, fallback_begin, fire, claim, fallback_end, unwatch_order, subscribe, unsubscribe,
  apply_full_mode, subscribe_full, on_connect, on_reconnect, on_noreconnect, complete_update,
  on_order_update, init,
}
use tv_zerodha_bot.Watcher.Sets.{member-discard, member-add}
use tv_zerodha_bot.Watcher.Runs.{
  Event, starts, restarts, watches, arms, unwatches, timer_fires, poll_answers, updates, subscribes,
  unsubscribes, subscribes_full, connects, reconnects, gives_up, step, run, one_if, fills, is_watch,
  is_unwatch, watch_count, unwatch_count, awaited,
}

-- Taking a watched order for a fill.
taken :
    (id j : String) (xs : List String)
    → member j xs ≡ true
    → one_if (member id (discard j xs)) + one_if (j == id) ≡ one_if (member id xs)
taken id j xs h = ground (arith, member-discard id j xs, eq_iff id j, eq_iff j id)

module _ {n : Numbers} where
  -- The fills of `id` and what is awaited of it, together, are kept from `w` to `w'`.
  abbrev pub Kept : String → (w w' : OrderWatcher n) → Type 0
  Kept id w w' =
      (awaited id w' + fills id w'.delivered ≡ awaited id w + fills id w.delivered)
      × (fills id w.delivered ≤ fills id w'.delivered)

  -- They grow at most by what is watched, and shrink at most by what is taken off the list.
  abbrev pub Balanced : String → (watched unwatched : ℕ) → (w w' : OrderWatcher n) → Type 0
  Balanced id watched unwatched w w' =
      (awaited id w' + fills id w'.delivered ≤ awaited id w + fills id w.delivered + watched)
      × (awaited id w + fills id w.delivered ≤ awaited id w' + fills id w'.delivered + unwatched)
      × (fills id w.delivered ≤ fills id w'.delivered)

  abbrev StepBalanced : String → Event n → (w w' : OrderWatcher n) → Type 0
  StepBalanced id e = Balanced id (one_if (is_watch id e)) (one_if (is_unwatch id e))

  balanced :
      (id : String) (e : Event n) (w w' : OrderWatcher n) → Kept id w w' → StepBalanced id e w w'
  balanced id e w w' k = (omega arith, omega arith, omega arith)

  pub complete_update-Kept :
      (id j : String) (u : OrderUpdate n) (w : OrderWatcher n) → Kept id w (complete_update j u w)
  unfolding complete_update entry_event
  complete_update-Kept id j u w = elim (Bool-cases (member j w.watched_order_ids)) [
    | inl watched ↦
        rw watched
          (let t = taken id j w.watched_order_ids watched in (omega (arith, t), omega arith))
    | inr other ↦ rw other (omega arith, omega arith)
  ]

  pub claim-Kept :
      (id j : String) (o : Option (OrderUpdate n)) (w : OrderWatcher n) → Kept id w (claim j o w)
  unfolding claim entry_event
  claim-Kept id j none w = (refl, omega arith)
  claim-Kept id j (some u) w = elim (Bool-cases (member j w.watched_order_ids)) [
    | inl watched ↦
        rw watched
          (let t = taken id j w.watched_order_ids watched in (omega (arith, t), omega arith))
    | inr other ↦ rw other (refl, omega arith)
  ]

  pub fallback_end-Kept :
      (id j : String) (h : Option (List (OrderUpdate n))) (w : OrderWatcher n)
      → Kept id w (fallback_end j h w)
  unfolding fallback_end
  fallback_end-Kept id j none w = (refl, omega arith)
  fallback_end-Kept id j (some h) w = elim (Bool-cases (member j w.polling)) [
    | inl polled ↦
        rw polled
          (claim-Kept id j (last_complete h) (record w { polling = remove_first j w.polling }))
    | inr other ↦ rw other (refl, omega arith)
  ]

  -- Operations on timers and subscriptions touch neither the watched orders nor the deliveries.
  abbrev Unrelated : OrderWatcher n → OrderWatcher n → Type 0
  Unrelated w w' = (w'.watched_order_ids ≡ w.watched_order_ids) × (w'.delivered ≡ w.delivered)

  start-Unrelated : (k t : String) (w : OrderWatcher n) → Unrelated w (start k t w)
  unfolding start
  start-Unrelated k t w = ground arith

  restart-Unrelated : (k t : String) (w : OrderWatcher n) → Unrelated w (restart k t w)
  unfolding restart
  restart-Unrelated k t w =
      start-Unrelated k t (record w { has_ticker = false; started = false; sent = _ })

  fire-Unrelated : (o : Option String) (t : ℕ) (w : OrderWatcher n) → Unrelated w (fire o t w)
  unfolding fire fallback_begin
  fire-Unrelated none t w = (refl, refl)
  fire-Unrelated (some id) t w = ground arith

  apply_full_mode-Unrelated : (w : OrderWatcher n) → Unrelated w (apply_full_mode w)
  unfolding apply_full_mode
  apply_full_mode-Unrelated w = ground arith

  subscribe_full-Unrelated : (ts : List ℕ) (w : OrderWatcher n) → Unrelated w (subscribe_full ts w)
  unfolding subscribe_full subscribe apply_full_mode
  subscribe_full-Unrelated ts w = ground arith

  on_connect-Unrelated : (w : OrderWatcher n) → Unrelated w (on_connect w)
  unfolding on_connect apply_full_mode
  on_connect-Unrelated w = ground arith

  on_reconnect-Unrelated : (w : OrderWatcher n) → Unrelated w (on_reconnect w)
  unfolding on_reconnect apply_full_mode
  on_reconnect-Unrelated w = ground arith

  Unrelated-Kept : (id : String) (w w' : OrderWatcher n) → Unrelated w w' → Kept id w w'
  Unrelated-Kept id w w' u = rw (u.0, u.1) (refl, omega arith)

  unrelated :
      (id : String) (e : Event n) (w w' : OrderWatcher n) → Unrelated w w' → StepBalanced id e w w'
  unrelated id e w w' u = balanced id e w w' (Unrelated-Kept id w w' u)

  on_order_update-Kept :
      (id : String) (u : OrderUpdate n) (w : OrderWatcher n) → Kept id w (on_order_update u w)
  unfolding on_order_update
  on_order_update-Kept id u w = elim (Bool-cases (is_complete u)) [
    | inl complete ↦ rw complete (complete_update-Kept id (or_default "" u.order_id) u w)
    | inr other ↦ rw other (refl, omega arith)
  ]

  step-StepBalanced :
      (id : String) (e : Event n) (w : OrderWatcher n) → StepBalanced id e w (step e w)
  step-StepBalanced id (starts k t) w =
      unrelated id (starts k t) w (start k t w) (start-Unrelated k t w)
  step-StepBalanced id (restarts k t) w =
      unrelated id (restarts k t) w (restart k t w) (restart-Unrelated k t w)
  step-StepBalanced id (watches j) w =
      unfold watch_order in ground (arith, member-add id j w.watched_order_ids)
  step-StepBalanced id (arms j) w = unfold arm_timer in ground arith
  step-StepBalanced id (unwatches j) w =
      unfold unwatch_order in
      ground (arith, member-discard id j w.watched_order_ids, eq_iff id j, eq_iff j id)
  step-StepBalanced id (timer_fires t) w =
      unrelated id (timer_fires t) w (fire (lookup t w.armed) t w)
        (fire-Unrelated (lookup t w.armed) t w)
  step-StepBalanced id (poll_answers j h) w =
      balanced id (poll_answers j h) w (fallback_end j h w) (fallback_end-Kept id j h w)
  step-StepBalanced id (updates u) w =
      balanced id (updates u) w (on_order_update u w) (on_order_update-Kept id u w)
  step-StepBalanced id (subscribes ts) w =
      unrelated id (subscribes ts) w (subscribe ts w) (unfold subscribe in (refl, refl))
  step-StepBalanced id (unsubscribes ts) w =
      unrelated id (unsubscribes ts) w (unsubscribe ts w) (unfold unsubscribe in (refl, refl))
  step-StepBalanced id (subscribes_full ts) w =
      unrelated id (subscribes_full ts) w (subscribe_full ts w) (subscribe_full-Unrelated ts w)
  step-StepBalanced id connects w = unrelated id connects w (on_connect w) (on_connect-Unrelated w)
  step-StepBalanced id reconnects w =
      unrelated id reconnects w (on_reconnect w) (on_reconnect-Unrelated w)
  step-StepBalanced id gives_up w =
      unrelated id gives_up w (on_noreconnect w) (unfold on_noreconnect in (refl, refl))

  pub run-Balanced :
      (id : String) (es : List (Event n)) (w : OrderWatcher n)
      → Balanced id (watch_count id es) (unwatch_count id es) w (run es w)
  run-Balanced id [] w = (omega arith, omega arith, omega arith)
  run-Balanced id (e ∷ es) w =
      let one = step-StepBalanced id e w in
      let rest = run-Balanced id es (step e w) in
      (omega (arith, one, rest), omega (arith, one, rest), omega (arith, one, rest))

  -- From a fresh watcher, in whatever order orders are watched and taken off the list, updates
  -- come, timers fire and polls are answered, the fill of an order is handed on at most as often as
  -- the order was watched, and one time less while it is still awaited.
  pub fills_once :
      (id : String) (es : List (Event n))
      → let w = run es init in
        (fills id w.delivered ≤ watch_count id es)
        × (awaited id w + fills id w.delivered ≤ watch_count id es)
  unfolding init
  fills_once id es = let b = run-Balanced id es init in (omega (arith, b), omega (arith, b))
