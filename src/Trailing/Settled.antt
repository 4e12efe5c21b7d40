-- ===== src/Trailing/Settled.antt =====
-- After a thread of app/trailing.py (`_do_update`) the manager and the table agree on the stop.
use tv_zerodha_bot.Prelude.{
  ℕ, ◌≡◌, refl, sym, subst, ap, ◌∙◌, ◌⊎◌, inl, inr, true, false, Option, none, some, List, [], ◌∷◌,
  ◌==◌, nat_eq, string_eq, Bool-cases,
}
use tv_zerodha_bot.Prelude.Dict.{lookup, IsUnique, lookup-insert, lookup-erase, eq_self}
use tv_zerodha_bot.Numbers.{Numbers}
use tv_zerodha_bot.Orders.Broker.{Broker, Instrument, Process, Result, ok, err, Exception}
use tv_zerodha_bot.Orders.Gtt.{modify_gtt}
use tv_zerodha_bot.Storage.{Gtt, Position}
use tv_zerodha_bot.Paper.Monitor.{find_gtt}
use tv_zerodha_bot.Trailing.Tick.{TrailPos, Update}
use tv_zerodha_bot.Trailing.Manager.{Manager, unregister}
use tv_zerodha_bot.Trailing.Update.{
  Meets, Store, is_gone, find_instrument, put_found, put, limits_of, moved_gtt, change_gtt,
  move_position, has_position, cleaned, revert, drop, mark, failed, committed, answered, sent,
  with_gtt, with_instrument, fetched, do_update,
}

module _ {n : Numbers} where
  lookup-put :
      (p : TrailPos n) (m : Manager n) (q : TrailPos n)
      → lookup p.instrument_token m.positions ≡ some q
      → q.ref ≡ p.ref
      → lookup p.instrument_token (put p m).positions ≡ some p
  unfolding put put_found
  lookup-put p m q found same =
      let hit : (q.ref == p.ref) ≡ true = (nat_eq.same_iff q.ref p.ref).1 same in
      rw (found, hit)
        (lookup-insert p.instrument_token p.instrument_token p m.positions
          ∙ rw (eq_self p.instrument_token) refl)

  find_gtt-change_gtt :
      (f : Gtt n → Gtt n) (id : ℕ) (gs : List (Gtt n)) (g : Gtt n)
      → ((x : Gtt n) → (f x).id ≡ x.id)
      → find_gtt (some id) gs ≡ some g
      → find_gtt (some id) (change_gtt f id gs) ≡ some (f g)
  unfolding find_gtt change_gtt
  find_gtt-change_gtt f id [] g keeps h = cc
  find_gtt-change_gtt f id (x ∷ gs) g keeps h = elim (Bool-cases (x.id == id)) [
    | inl same ↦
        let e : some x ≡ some g = rw same at h in
        let xg : x ≡ g = cc in
        let hit : ((f x).id == id) ≡ true = subst (λ i. (i == id) ≡ true) (sym (keeps x)) same in
        rw (same, hit) (ap (λ y. some (f y)) xg)
    | inr other ↦ rw (other, other) (find_gtt-change_gtt f id gs g keeps (rw other at h))
  ]

  cleaned-Same :
      (p : TrailPos n) (rows : List (Position n))
      → (cleaned p rows ≡ p) ⊎ (cleaned p rows ≡ record p { excursions_dirty = false })
  unfolding cleaned
  cleaned-Same p rows = elim (Bool-cases (has_position p.gtt_db_id rows)) [
    | inl there ↦ inr (rw there refl)
    | inr missing ↦ inl (rw missing refl)
  ]

module _ {n : Numbers} {k : Broker n} where
  open n use {Float}

  -- The position is no longer registered, or its stop is that of the row of its GTT.
  abbrev pub IsSettled : (token gtt_id : ℕ) → Store n k → Type 0
  IsSettled token gtt_id s =
      (lookup token s.manager.positions ≡ none)
      ⊎ (p : TrailPos n) × (g : Gtt n) × (lookup token s.manager.positions ≡ some p)
        × (find_gtt (some gtt_id) s.gtts ≡ some g)
        × (g.sl_trigger ≡ p.current_sl)

  -- The thread's object is registered, and the row of its GTT has the stop from before the tick.
  abbrev pub IsMoving : TrailPos n → (old_sl : Float) → Store n k → Type 0
  IsMoving p old_sl s =
      IsUnique s.manager.positions
      × (q : TrailPos n) × (lookup p.instrument_token s.manager.positions ≡ some q)
      × (q.ref ≡ p.ref)
      × (g : Gtt n) × (find_gtt (some p.gtt_db_id) s.gtts ≡ some g)
      × (g.sl_trigger ≡ old_sl)

  revert-Settled :
      (p : TrailPos n) (old_sl : Float) (s : Store n k)
      → IsMoving p old_sl s
      → IsSettled p.instrument_token p.gtt_db_id (revert p old_sl s)
  unfolding revert
  revert-Settled p old_sl s (unique, q, found, same, g, row, stop) =
      let p' = record p { current_sl = old_sl; last_update = k.monotonic s.process.world } in
      inr (p', g, lookup-put p' s.manager q found same, row, stop)

  drop-Settled :
      (e : Meets n) (p : TrailPos n) (s : Store n k)
      → IsUnique s.manager.positions
      → IsSettled p.instrument_token p.gtt_db_id (drop e p s)
  unfolding drop unregister
  drop-Settled e p s unique = inl (
      lookup-erase p.instrument_token p.instrument_token s.manager.positions unique
      ∙ rw (eq_self p.instrument_token) refl)

  failed-Settled :
      (e : Meets n) (u : Update n) (exc : Exception) (p : TrailPos n) (s : Store n k)
      → IsMoving p u.old_sl s
      → IsSettled p.instrument_token p.gtt_db_id (failed e u exc p s)
  unfolding failed mark
  failed-Settled e u exc p s moving = elim (Bool-cases (is_gone exc)) [
    | inl gone ↦ rw gone (drop-Settled e p (mark e p s) moving.0)
    | inr stays ↦ rw stays (revert-Settled p u.old_sl s moving)
  ]

  committed-Settled :
      (e : Meets n) (u : Update n) (o : Option Exception) (p : TrailPos n) (s : Store n k)
      → p.current_sl ≡ u.new_sl
      → IsMoving p u.old_sl s
      → IsSettled p.instrument_token p.gtt_db_id (committed e u o p s)
  unfolding committed
  committed-Settled e u (some exc) p s moved moving = elim (cleaned-Same p s.manager.rows) [
    | inl as_it_was ↦ rw as_it_was (failed-Settled e u exc p s moving)
    | inr clean ↦ rw clean (failed-Settled e u exc (record p { excursions_dirty = false }) s moving)
  ]
  committed-Settled e u none p s moved (unique, q, found, same, g, row, stop) =
      let f = moved_gtt u.new_sl (limits_of e p u.new_sl) e.now in
      let m = record s.manager { rows = move_position p u.new_sl e.now s.manager.rows } in
      let written =
        find_gtt-change_gtt f p.gtt_db_id s.gtts g (λ x. unfold moved_gtt in refl) row in
      let stop' : (f g).sl_trigger ≡ p.current_sl = unfold moved_gtt in sym moved in
      elim (cleaned-Same p s.manager.rows) [
        | inl as_it_was ↦ rw as_it_was (inr (p, f g, lookup-put p m q found same, written, stop'))
        | inr clean ↦
            let p' = record p { excursions_dirty = false } in
            rw clean (inr (p', f g, lookup-put p' m q found same, written, stop'))
      ]

  answered-Settled :
      (e : Meets n) (u : Update n) (p : TrailPos n) (s : Store n k)
      (r : Result (Option ℕ) × Process n k)
      → p.current_sl ≡ u.new_sl
      → IsMoving p u.old_sl s
      → IsSettled p.instrument_token p.gtt_db_id (answered e u p s r)
  unfolding answered
  answered-Settled e u p s (ok answer, process) moved moving =
      committed-Settled e u e.commit_error p (record s { process = process }) moved moving
  answered-Settled e u p s (err exc, process) moved moving =
      failed-Settled e u exc p (record s { process = process }) moving

  sent-Settled :
      (e : Meets n) (u : Update n) (p : TrailPos n) (i : Instrument n) (o : Option ℕ)
      (s : Store n k)
      → p.current_sl ≡ u.new_sl
      → IsMoving p u.old_sl s
      → IsSettled p.instrument_token p.gtt_db_id (sent e u p i o s)
  unfolding sent
  sent-Settled e u p i none s moved moving = committed-Settled e u e.commit_error p s moved moving
  sent-Settled e u p i (some id) s moved moving =
      let limits = limits_of e p u.new_sl in
      answered-Settled e u p s
        (modify_gtt id u.new_sl limits.0 p.target_price limits.1 u.ltp i p.qty p.product
          p.entry_side s.process)
        moved moving

  with_gtt-Settled :
      (e : Meets n) (u : Update n) (p : TrailPos n) (i : Instrument n) (o : Option (Gtt n))
      (s : Store n k)
      → p.current_sl ≡ u.new_sl
      → IsMoving p u.old_sl s
      → IsSettled p.instrument_token p.gtt_db_id (with_gtt e u p i o s)
  unfolding with_gtt
  with_gtt-Settled e u p i none s moved moving = drop-Settled e p s moving.0
  with_gtt-Settled e u p i (some g) s moved moving = elim (Bool-cases (g.status == "ACTIVE")) [
    | inl active ↦ rw active (sent-Settled e u p i u.kite_gtt_id s moved moving)
    | inr over ↦ rw over (drop-Settled e p s moving.0)
  ]

  with_instrument-Settled :
      (e : Meets n) (u : Update n) (p : TrailPos n) (o : Option (Instrument n)) (s : Store n k)
      → p.current_sl ≡ u.new_sl
      → IsMoving p u.old_sl s
      → IsSettled p.instrument_token p.gtt_db_id (with_instrument e u p o s)
  unfolding with_instrument
  with_instrument-Settled e u p none s moved moving = revert-Settled p u.old_sl s moving
  with_instrument-Settled e u p (some i) s moved moving =
      with_gtt-Settled e u p i (find_gtt (some p.gtt_db_id) s.gtts) s moved moving

  fetched-Settled :
      (e : Meets n) (u : Update n) (o : Option Exception) (p : TrailPos n) (s : Store n k)
      → p.current_sl ≡ u.new_sl
      → IsMoving p u.old_sl s
      → IsSettled p.instrument_token p.gtt_db_id (fetched e u o p s)
  unfolding fetched
  fetched-Settled e u (some exc) p s moved moving = failed-Settled e u exc p s moving
  fetched-Settled e u none p s moved moving =
      with_instrument-Settled e u p (find_instrument p.instrument_token p.exchange e.instruments) s
        moved moving

  -- If the position of an update is still registered, with the stop that the update moves to, and
  -- the row of its GTT has the stop from before, then however the thread of the update ends, by the
  -- session, the instrument, the GTT, the broker or the commit, the position is no longer
  -- registered or its stop is that of the row.
  pub do_update-Settled :
      (e : Meets n) (u : Update n) (p : TrailPos n) (s : Store n k)
      → p.current_sl ≡ u.new_sl
      → IsMoving p u.old_sl s
      → IsSettled p.instrument_token p.gtt_db_id (do_update e u p s)
  unfolding do_update
  do_update-Settled e u p s moved moving = fetched-Settled e u e.fetch_error p s moved moving
