-- ===== src/Trailing/Update.antt =====
-- `_do_update` and `_revert` (app/trailing.py): what the thread that a tick starts does with a moved
-- stop. It is one step here, in which no other tick comes.
use tv_zerodha_bot.Prelude.{
  ℕ, ◌+◌, String, Bool, true, false, ◌&&◌, Option, none, some, List, [], ◌∷◌, ◌==◌, nat_eq,
  string_eq, if◌then◌else◌,
}
use tv_zerodha_bot.Prelude.Dict.{lookup, insert}
use tv_zerodha_bot.Prelude.Text.{lower, occurs}
use tv_zerodha_bot.Numbers.{Numbers}
use tv_zerodha_bot.Orders.Broker.{
  Broker, Instrument, Process, Result, ok, err, Exception, ExceptionClass, input_exception,
  monotonic,
}
use tv_zerodha_bot.Orders.Gtt.{compute_oco_limits, modify_gtt}
use tv_zerodha_bot.Storage.{Instant, Gtt, Position}
use tv_zerodha_bot.Paper.Monitor.{find_gtt}
use tv_zerodha_bot.Trailing.Tick.{TrailPos, Update, round_to_tick}
use tv_zerodha_bot.Trailing.Manager.{Manager, has_gtt, unregister}

abbrev is_input : ExceptionClass → Bool
is_input input_exception = true
is_input _ = false

-- The broker does not know the GTT any more.
unfoldable pub is_gone : Exception → Bool
is_gone exc = is_input exc.class && occurs (lower "invalid trigger") (lower exc.message)

module _ (n : Numbers) where
  open n use {Float}

  -- What the thread meets: an exception of the session or of the commit, if there is one, the table
  -- of instruments, whether the row of a lost GTT can be marked, and whether the database answers
  -- `_flush_excursions`.
  pub record Meets : Type 0 where
    pub fetch_error : Option Exception
    pub commit_error : Option Exception
    pub instruments : List (Instrument n)
    pub oco_slippage_buffer_pct : Float
    pub now : Instant
    pub can_mark : Bool
    pub available : Bool

  -- The manager with the table of positions, the table of GTTs, and the process.
  pub record Store (k : Broker n) : Type 0 where
    pub manager : Manager n
    pub gtts : List (Gtt n)
    pub process : Process n k

module _ {n : Numbers} where
  open n use {Float, to_float}

  unfoldable pub find_instrument :
      (instrument_token : ℕ) → (exchange : String) → List (Instrument n) → Option (Instrument n)
  find_instrument token exchange [] = none
  find_instrument token exchange (i ∷ is) =
      if i.instrument_token == token && i.exchange == exchange
      then some i
      else find_instrument token exchange is

  -- The object of the thread is changed; the manager sees it unless the token was registered anew.
  unfoldable pub put_found : TrailPos n → Option (TrailPos n) → Manager n → Manager n
  put_found p none m = m
  put_found p (some q) m =
      if q.ref == p.ref then record m { positions = insert p.instrument_token p m.positions } else m

  unfoldable pub put : TrailPos n → Manager n → Manager n
  unfolding put_found
  put p m = put_found p (lookup p.instrument_token m.positions) m

  -- The limits of the two legs, on a tick.
  unfoldable pub limits_of : Meets n → TrailPos n → (new_sl : Float) → Float × Float
  limits_of e p new_sl =
      let limits =
        compute_oco_limits n new_sl p.target_price p.entry_side e.oco_slippage_buffer_pct in
      (
        round_to_tick n (to_float limits.0) p.tick_size,
        round_to_tick n (to_float limits.1) p.tick_size,
      )

  unfoldable pub moved_gtt :
      (new_sl : Float) → (limits : Float × Float) → (now : Instant) → Gtt n → Gtt n
  moved_gtt new_sl limits now g = record g {
    sl_trigger = new_sl;
    sl_order_price = limits.0;
    target_order_price = limits.1;
    modification_count = g.modification_count + 1;
    updated_at = now;
  }

  -- A change of the row with an id.
  unfoldable pub change_gtt : (Gtt n → Gtt n) → (id : ℕ) → List (Gtt n) → List (Gtt n)
  change_gtt f id [] = []
  change_gtt f id (g ∷ gs) = if g.id == id then f g ∷ gs else g ∷ change_gtt f id gs

  unfoldable pub mark_invalid : Gtt n → Gtt n
  mark_invalid g = record g { status = "KITE_INVALID" }

  -- The first position of the GTT gets the stop and the extremes.
  unfoldable pub move_position :
      TrailPos n → (new_sl : Float) → (now : Instant) → List (Position n) → List (Position n)
  move_position p new_sl now [] = []
  move_position p new_sl now (row ∷ rows) =
      if has_gtt p.gtt_db_id row.gtt_id
      then (record row {
        current_sl = new_sl;
        trail_active = true;
        last_updated_at = now;
        max_favorable_price = some p.best_price;
        max_adverse_price = some p.worst_price;
      })
        ∷ rows
      else row ∷ move_position p new_sl now rows

  unfoldable pub has_position : (gtt_id : ℕ) → List (Position n) → Bool
  has_position gtt_id [] = false
  has_position gtt_id (row ∷ rows) =
      if has_gtt gtt_id row.gtt_id then true else has_position gtt_id rows

  -- `pos.excursions_dirty = False`, if there is a position
  unfoldable pub cleaned : TrailPos n → List (Position n) → TrailPos n
  unfolding has_position
  cleaned p rows =
      if has_position p.gtt_db_id rows then record p { excursions_dirty = false } else p

module _ {n : Numbers} {k : Broker n} where
  open n use {Float}

  unfoldable pub revert : TrailPos n → (old_sl : Float) → Store n k → Store n k
  unfolding put
  revert p old_sl s = record s {
    manager = put (record p { current_sl = old_sl; last_update = monotonic s.process }) s.manager;
  }

  unfoldable pub drop : Meets n → TrailPos n → Store n k → Store n k
  drop e p s = record s { manager = unregister e.available p.instrument_token s.manager }

  unfoldable pub mark : Meets n → TrailPos n → Store n k → Store n k
  unfolding change_gtt mark_invalid
  mark e p s = record s {
    gtts = if e.can_mark then change_gtt mark_invalid p.gtt_db_id s.gtts else s.gtts;
  }

  -- The handler of an exception.
  unfoldable pub failed : Meets n → Update n → Exception → TrailPos n → Store n k → Store n k
  unfolding revert drop mark
  failed e u exc p s = if is_gone exc then drop e p (mark e p s) else revert p u.old_sl s

  -- The commit: an exception leaves the rows, and not the object, as they were.
  unfoldable pub committed :
      Meets n → Update n → Option Exception → TrailPos n → Store n k → Store n k
  unfolding failed limits_of moved_gtt change_gtt move_position cleaned put
  committed e u (some exc) p s = failed e u exc (cleaned p s.manager.rows) s
  committed e u none p s =
      let rows = move_position p u.new_sl e.now s.manager.rows in
      record s {
        gtts = change_gtt (moved_gtt u.new_sl (limits_of e p u.new_sl) e.now) p.gtt_db_id s.gtts;
        manager = put (cleaned p s.manager.rows) (record s.manager { rows = rows });
      }

  unfoldable pub answered :
      Meets n → Update n → TrailPos n → Store n k → Result (Option ℕ) × Process n k → Store n k
  unfolding committed
  answered e u p s (ok answer, process) =
      committed e u e.commit_error p (record s { process = process })
  answered e u p s (err exc, process) = failed e u exc p (record s { process = process })

  unfoldable pub sent :
      Meets n → Update n → TrailPos n → Instrument n → Option ℕ → Store n k → Store n k
  unfolding answered
  sent e u p instrument none s = committed e u e.commit_error p s
  sent e u p instrument (some kite_gtt_id) s =
      let limits = limits_of e p u.new_sl in
      answered e u p s (
        modify_gtt kite_gtt_id u.new_sl limits.0 p.target_price limits.1 u.ltp instrument p.qty
          p.product p.entry_side s.process)

  unfoldable pub with_gtt :
      Meets n → Update n → TrailPos n → Instrument n → Option (Gtt n) → Store n k → Store n k
  unfolding sent
  with_gtt e u p instrument none s = drop e p s
  with_gtt e u p instrument (some g) s =
      if g.status == "ACTIVE" then sent e u p instrument u.kite_gtt_id s else drop e p s

  unfoldable pub with_instrument :
      Meets n → Update n → TrailPos n → Option (Instrument n) → Store n k → Store n k
  unfolding with_gtt
  with_instrument e u p none s = revert p u.old_sl s
  with_instrument e u p (some instrument) s =
      with_gtt e u p instrument (find_gtt (some p.gtt_db_id) s.gtts) s

  unfoldable pub fetched :
      Meets n → Update n → Option Exception → TrailPos n → Store n k → Store n k
  unfolding with_instrument
  fetched e u (some exc) p s = failed e u exc p s
  fetched e u none p s =
      with_instrument e u p (find_instrument p.instrument_token p.exchange e.instruments) s

  unfoldable pub do_update : Meets n → Update n → TrailPos n → Store n k → Store n k
  unfolding fetched
  do_update e u p s = fetched e u e.fetch_error p s
