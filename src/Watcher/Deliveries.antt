-- ===== src/Watcher/Deliveries.antt =====
-- What the callbacks of `OrderWatcher` (app/watcher.py) see of one order.
use tv_zerodha_bot.Prelude.{
  ◌<◌, String, ◌≡◌, refl, sym, subst, true, false, or_default, List, [], ◌∷◌, ◌++◌, member,
  string_eq, arith, Bool-cases, inl, inr,
}
use tv_zerodha_bot.Prelude.Dict.{eq_self}
use tv_zerodha_bot.Numbers.{Numbers}
use tv_zerodha_bot.Watcher.Sets.{discard, member-discard}
use tv_zerodha_bot.Watcher.Orders.{
  OrderUpdate, OrderWatcher, is_complete, complete_update, on_order_update,
}
use tv_zerodha_bot.Watcher.Runs.{Event, updates, step, run, fills, awaited, unwatch_count}
use tv_zerodha_bot.Watcher.Fills.{complete_update-Kept, run-Balanced}

member-discard_self : (id : String) (xs : List String) → member id (discard id xs) ≡ false
member-discard_self id xs = rw (member-discard id id xs, eq_self id) refl

module _ {n : Numbers} where
  run-append : (es fs : List (Event n)) (w : OrderWatcher n) → run (es ++ fs) w ≡ run fs (run es w)
  run-append [] fs w = refl
  run-append (e ∷ es) fs w = run-append es fs (step e w)

  -- After a complete update the order is not watched.
  member-complete_update :
      (id : String) (u : OrderUpdate n) (w : OrderWatcher n)
      → member id (complete_update id u w).watched_order_ids ≡ false
  unfolding complete_update
  member-complete_update id u w = elim (Bool-cases (member id w.watched_order_ids)) [
    | inl watched ↦ rw watched (member-discard_self id w.watched_order_ids)
    | inr other ↦ rw other (rw other refl)
  ]

  -- An order update that says that `id` is complete.
  abbrev pub IsFillOf : String → OrderUpdate n → Type 0
  IsFillOf id u = (is_complete u ≡ true) × (or_default "" u.order_id ≡ id)

  on_fill :
      (id : String) (u : OrderUpdate n) (w : OrderWatcher n)
      → IsFillOf id u
      → on_order_update u w ≡ complete_update id u w
  unfolding on_order_update
  on_fill id u w (complete, same) = rw (complete, same) refl

  -- If an order is watched and is not taken off the list before its complete update, then at the
  -- end its fill has been handed on, by that update or by a poll before it, whatever else happens
  -- before and after.
  pub fill_delivered :
      (id : String) (before after : List (Event n)) (u : OrderUpdate n) (w : OrderWatcher n)
      → member id w.watched_order_ids ≡ true
      → unwatch_count id before ≡ 0
      → IsFillOf id u
      → fills id w.delivered < fills id (run (before ++ updates u ∷ after) w).delivered
  fill_delivered id before after u w watched stays fill =
      let w1 = run before w in
      let w2 = complete_update id u w1 in
      let until = run-Balanced id before w in
      let now = complete_update-Kept id id u w1 in
      let gone : awaited id w2 ≡ 0 = rw (member-complete_update id u w1) refl in
      let later = run-Balanced id after w2 in
      let start : awaited id w ≡ 1 = rw watched refl in
      rw (run-append before (updates u ∷ after) w) (
        subst (λ v. fills id w.delivered < fills id (run after v).delivered)
          (sym (on_fill id u w1 fill)) (omega (arith, until, now, gone, later, start, stays)))
