-- ===== src/Watcher/Tokens.antt =====
-- The subscriptions of `OrderWatcher` (app/watcher.py).
use tv_zerodha_bot.Prelude.{
  ℕ, String, ◌≡◌, refl, true, false, not, ◌&&◌, Option, none, some, List, [], ◌∷◌, member,
  remove_first, nat_eq, string_eq, arith, Bool-cases, inl, inr,
}
use tv_zerodha_bot.Prelude.Dict.{lookup}
use tv_zerodha_bot.Numbers.{Numbers}
use tv_zerodha_bot.Watcher.Sets.{member-add_all, member-discard_all}
use tv_zerodha_bot.Watcher.Orders.{
  is_empty, set_mode_full, subscribe_tokens, OrderUpdate, OrderWatcher, start, restart, watch_order,
  arm_timer, fallback_begin, fire, claim, last_complete, fallback_end, unwatch_order, subscribe,
  unsubscribe, apply_full_mode, subscribe_full, on_connect, on_reconnect, on_noreconnect,
  complete_update, on_order_update, init,
}
use tv_zerodha_bot.Watcher.Runs.{
  Event, starts, restarts, watches, arms, unwatches, timer_fires, poll_answers, updates, subscribes,
  unsubscribes, subscribes_full, connects, reconnects, gives_up, step, run,
}

nonempty : (t : ℕ) (ts : List ℕ) → member t ts ≡ true → is_empty ts ≡ false
nonempty t [] h = cc
nonempty t (u ∷ us) h = refl

module _ {n : Numbers} where
  -- A token in full mode is subscribed.
  abbrev Covered : ℕ → OrderWatcher n → Type 0
  Covered t w = (member t w.full_mode_tokens && not (member t w.subscribed_tokens)) ≡ false

  abbrev SameTokens : OrderWatcher n → OrderWatcher n → Type 0
  SameTokens w w' =
      (w'.subscribed_tokens ≡ w.subscribed_tokens) × (w'.full_mode_tokens ≡ w.full_mode_tokens)

  same : (t : ℕ) (w w' : OrderWatcher n) → SameTokens w w' → Covered t w → Covered t w'
  same t w w' e h = rw (e.0, e.1) h

  start-SameTokens : (k s : String) (w : OrderWatcher n) → SameTokens w (start k s w)
  unfolding start
  start-SameTokens k s w = ground arith

  fire-SameTokens : (o : Option String) (t : ℕ) (w : OrderWatcher n) → SameTokens w (fire o t w)
  unfolding fire fallback_begin
  fire-SameTokens none t w = (refl, refl)
  fire-SameTokens (some id) t w = ground arith

  claim-SameTokens :
      (id : String) (o : Option (OrderUpdate n)) (w : OrderWatcher n) → SameTokens w (claim id o w)
  unfolding claim
  claim-SameTokens id none w = (refl, refl)
  claim-SameTokens id (some u) w = ground arith

  fallback_end-SameTokens :
      (id : String) (h : Option (List (OrderUpdate n))) (w : OrderWatcher n)
      → SameTokens w (fallback_end id h w)
  unfolding fallback_end
  fallback_end-SameTokens id none w = (refl, refl)
  fallback_end-SameTokens id (some h) w = elim (Bool-cases (member id w.polling)) [
    | inl polled ↦
        rw polled
          (claim-SameTokens id (last_complete h) (record w { polling = remove_first id w.polling }))
    | inr other ↦ rw other (refl, refl)
  ]

  on_order_update-SameTokens :
      (u : OrderUpdate n) (w : OrderWatcher n) → SameTokens w (on_order_update u w)
  unfolding on_order_update complete_update
  on_order_update-SameTokens u w = ground arith

  apply_full_mode-SameTokens : (w : OrderWatcher n) → SameTokens w (apply_full_mode w)
  unfolding apply_full_mode
  apply_full_mode-SameTokens w = ground arith

  on_connect-SameTokens : (w : OrderWatcher n) → SameTokens w (on_connect w)
  unfolding on_connect apply_full_mode
  on_connect-SameTokens w = ground arith

  on_reconnect-SameTokens : (w : OrderWatcher n) → SameTokens w (on_reconnect w)
  unfolding on_reconnect apply_full_mode
  on_reconnect-SameTokens w = ground arith

  step-Covered : (t : ℕ) (e : Event n) (w : OrderWatcher n) → Covered t w → Covered t (step e w)
  step-Covered t (starts k s) w h = same t w (start k s w) (start-SameTokens k s w) h
  step-Covered t (restarts k s) w h =
      unfold restart in
      same t w (restart k s w)
        (start-SameTokens k s (record w { has_ticker = false; started = false; sent = _ })) h
  step-Covered t (watches id) w h = unfold watch_order in h
  step-Covered t (arms id) w h = unfold arm_timer in h
  step-Covered t (unwatches id) w h = unfold unwatch_order in h
  step-Covered t (timer_fires k) w h =
      same t w (fire (lookup k w.armed) k w) (fire-SameTokens (lookup k w.armed) k w) h
  step-Covered t (poll_answers id a) w h =
      same t w (fallback_end id a w) (fallback_end-SameTokens id a w) h
  step-Covered t (updates u) w h = same t w (on_order_update u w) (on_order_update-SameTokens u w) h
  step-Covered t (subscribes ts) w h =
      unfold subscribe in ground (arith, member-add_all t ts w.subscribed_tokens)
  step-Covered t (unsubscribes ts) w h =
      unfold unsubscribe in
      ground (
        arith,
        member-discard_all t ts w.subscribed_tokens,
        member-discard_all t ts w.full_mode_tokens,
      )
  step-Covered t (subscribes_full ts) w h =
      unfold subscribe_full subscribe apply_full_mode in
      ground
        (arith, member-add_all t ts w.subscribed_tokens, member-add_all t ts w.full_mode_tokens)
  step-Covered t connects w h = same t w (on_connect w) (on_connect-SameTokens w) h
  step-Covered t reconnects w h = same t w (on_reconnect w) (on_reconnect-SameTokens w) h
  step-Covered t gives_up w h = unfold on_noreconnect in h

  run-Covered :
      (t : ℕ) (es : List (Event n)) (w : OrderWatcher n) → Covered t w → Covered t (run es w)
  run-Covered t [] w h = h
  run-Covered t (e ∷ es) w h = run-Covered t es (step e w) (step-Covered t e w h)

  connect_sends :
      (w : OrderWatcher n)
      → is_empty w.subscribed_tokens ≡ false
      → is_empty w.full_mode_tokens ≡ false
      → w.has_ticker ≡ true
      → (on_connect w).sent
        ≡ set_mode_full w.full_mode_tokens ∷ subscribe_tokens w.subscribed_tokens ∷ w.sent
  unfolding on_connect apply_full_mode
  connect_sends w subscribed full ticker = ground arith

  reconnect_sends :
      (w : OrderWatcher n)
      → is_empty w.subscribed_tokens ≡ false
      → is_empty w.full_mode_tokens ≡ false
      → w.has_ticker ≡ true
      → (on_reconnect w).sent
        ≡ set_mode_full w.full_mode_tokens ∷ subscribe_tokens w.subscribed_tokens ∷ w.sent
  unfolding on_reconnect apply_full_mode
  reconnect_sends w subscribed full ticker = ground arith

  -- The commands `w'.sent` that a connection adds to those of `w`, the newest first: it subscribes a
  -- list of tokens with `t` among them, and then sets a list with `t` among them to full mode.
  abbrev pub Restores : ℕ → OrderWatcher n → OrderWatcher n → Type 0
  Restores t w w' =
      (all full : List ℕ) × (member t all ≡ true)
      × (member t full ≡ true)
      × (w'.sent ≡ set_mode_full full ∷ subscribe_tokens all ∷ w.sent)

  -- In every run from a fresh watcher, a token that is kept for full mode is among the subscribed
  -- tokens; and as long as there is a ticker, each connection and each reconnection subscribes it
  -- again and sets it to full mode again.
  pub full_mode_restored :
      (t : ℕ) (es : List (Event n))
      → member t (run es init).full_mode_tokens ≡ true
      → (run es init).has_ticker ≡ true
      → (member t (run es init).subscribed_tokens ≡ true)
        × Restores t (run es init) (on_connect (run es init))
        × Restores t (run es init) (on_reconnect (run es init))
  full_mode_restored t es h ticker =
      let w = run es init in
      let c : Covered t w = run-Covered t es init (unfold init in refl) in
      let all : member t w.subscribed_tokens ≡ true = ground (arith, c, h) in
      let some_all = nonempty t w.subscribed_tokens all in
      let some_full = nonempty t w.full_mode_tokens h in
      (
        all,
        (
          w.subscribed_tokens,
          w.full_mode_tokens,
          all,
          h,
          connect_sends w some_all some_full ticker,
        ),
        (
          w.subscribed_tokens,
          w.full_mode_tokens,
          all,
          h,
          reconnect_sends w some_all some_full ticker,
        ),
      )
