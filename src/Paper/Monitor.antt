-- ===== src/Paper/Monitor.antt =====
-- The paper monitor (app/paper_trading.py, `paper_monitor_job`): one run over the open paper
-- positions. The session's rows are lists, a new row in front; one run sees one session.
use Prim.Native.String.{◌++◌ as concat}
use tv_zerodha_bot.Prelude.{
  ℕ, String, Bool, true, false, not, ◌&&◌, ◌||◌, Option, none, some, List, [], ◌∷◌, ◌++◌, ◌==◌,
  nat_eq, string_eq, if◌then◌else◌,
}
use tv_zerodha_bot.Numbers.{Numbers}
use tv_zerodha_bot.Storage.{
  Instant, Order, Gtt, Position, ClosedTrade, Alerts, trade_meta_for_order, booked_partial_pnl,
}
use tv_zerodha_bot.Paper.Exits.{
  HourMinute, Settings, entry_side_of, paper_pnl, gtt_exit, eod_exit_reason,
}

module _ (n : Numbers) where
  open n use {Float}

  pub record Database : Type 0 where
    pub orders : List (Order n)
    pub gtts : List (Gtt n)
    pub positions : List (Position n)
    pub closed_trades : List (ClosedTrade n)
    pub alerts : Alerts

  -- A row of the query for open positions.
  pub record Row : Type 0 where
    pub position : Position n
    pub order : Order n
    pub gtt : Option (Gtt n)

  -- The variables of a run: the session, and the two collections of `paper_monitor_job`.
  pub record Run : Type 0 where
    pub closed_trades : List (ClosedTrade n)
    pub gtts : List (Gtt n)
    pub closed_position_ids : List ℕ
    pub paired_exits : List String

  -- `kite.ltp(keys)`, by key.
  abbrev pub Quotes : Type 0
  Quotes = String → Option Float

  -- The moment of a run.
  pub record Now : Type 0 where
    pub at : Instant
    pub clock : HourMinute

abbrev pub has_id : ℕ → List ℕ → Bool
has_id k [] = false
has_id k (i ∷ is) = if i == k then true else has_id k is

is_trigger : String → Bool
is_trigger exit_reason = exit_reason == "SL_HIT" || exit_reason == "TARGET_HIT"

or_else : Option String → Option String → Option String
or_else none o = o
or_else (some a) o = some a

note_pair : Option String → String → List String → List String
unfolding is_trigger
note_pair none exit_reason pairs = pairs
note_pair (some straddle_id) exit_reason pairs =
    if not (straddle_id == "") && is_trigger exit_reason then pairs ++ straddle_id ∷ [] else pairs

unfoldable pub same_straddle : Option String → String → Bool
same_straddle none straddle_id = false
same_straddle (some s) straddle_id = s == straddle_id

module _ {n : Numbers} where
  open n use {Float, add}

  unfoldable pub is_closed : ℕ → List (ClosedTrade n) → Bool
  is_closed position_id [] = false
  is_closed position_id (t ∷ ts) =
      if t.position_id == position_id then true else is_closed position_id ts

  unfoldable pub find_order : ℕ → List (Order n) → Option (Order n)
  find_order id [] = none
  find_order id (o ∷ os) = if o.id == id then some o else find_order id os

  unfoldable pub find_gtt : Option ℕ → List (Gtt n) → Option (Gtt n)
  find_gtt none gs = none
  find_gtt (some id) [] = none
  find_gtt (some id) (g ∷ gs) = if g.id == id then some g else find_gtt (some id) gs

  unfoldable pub joined_row : Database n → Position n → Option (Order n) → List (Row n)
  joined_row db position none = []
  joined_row db position (some order) =
      if order.dry_run && not (is_closed position.id db.closed_trades)
      then (record { position = position; order = order; gtt = find_gtt position.gtt_id db.gtts })
        ∷ []
      else []

  -- The joins and filters of `_open_paper_rows`, for one position.
  unfoldable pub open_row : Database n → Position n → List (Row n)
  unfolding joined_row
  open_row db position = joined_row db position (find_order position.order_id db.orders)

  unfoldable pub open_paper_rows : Database n → List (Position n) → List (Row n)
  open_paper_rows db [] = []
  open_paper_rows db (p ∷ ps) = open_row db p ++ open_paper_rows db ps

  unfoldable pub quote : Quotes n → Position n → Option Float
  quote quotes p = quotes (concat p.exchange (concat ":" p.tradingsymbol))

  -- The GTT row of a closed position is retired.
  retire_gtt : Option (Gtt n) → (exit_reason : String) → Now n → List (Gtt n) → List (Gtt n)
  unfolding is_trigger
  retire_gtt none exit_reason now gs = gs
  retire_gtt (some gtt) exit_reason now [] = []
  retire_gtt (some gtt) exit_reason now (g ∷ gs) =
      if g.id == gtt.id
      then (record g {
        status = if is_trigger exit_reason then "TRIGGERED" else "CANCELLED";
        updated_at = now.at;
      })
        ∷ gs
      else g ∷ retire_gtt (some gtt) exit_reason now gs

  -- `position.underlying or position.tradingsymbol`
  unfoldable pub underlying_of : Position n → String
  underlying_of p = if p.underlying == "" then p.tradingsymbol else p.underlying

  unfoldable pub closed_trade :
      Alerts
      → Row n
      → (exit_premium : Float) → (exit_reason : String) → Now n
      → Settings
      → ClosedTrade n
  unfolding underlying_of
  closed_trade alerts row exit_premium exit_reason now settings =
      let p = row.position in
      record {
        position_id = p.id;
        exchange = p.exchange;
        tradingsymbol = p.tradingsymbol;
        entry_premium = p.entry_premium;
        exit_premium = exit_premium;
        pnl =
            add
              (paper_pnl n (entry_side_of row.order.transaction_type) p.entry_premium exit_premium
                p.quantity p.exchange (underlying_of p) settings)
              (booked_partial_pnl (some p));
        exit_reason = exit_reason;
        opened_at = p.opened_at;
        closed_at = now.at;
        strategy_id = (trade_meta_for_order alerts (some row.order)).0;
        dry_run = true;
      }

  -- `close_paper_position`, and the note of the position's id that follows each call of it.
  unfoldable pub close_paper_position :
      Alerts
      → Settings
      → Now n
      → Row n
      → (exit_premium : Float) → (exit_reason : String) → Run n
      → Run n
  unfolding closed_trade retire_gtt
  close_paper_position alerts settings now row exit_premium exit_reason run = record run {
    closed_trades =
        closed_trade alerts row exit_premium exit_reason now settings ∷ run.closed_trades;
    gtts = retire_gtt row.gtt exit_reason now run.gtts;
    closed_position_ids = row.position.id ∷ run.closed_position_ids;
  }

  -- The bracket first, then the end of the day.
  unfoldable pub exit_reason_of : Alerts → Settings → Now n → Row n → Float → Option String
  unfolding or_else
  exit_reason_of alerts settings now row ltp =
      or_else (gtt_exit n (entry_side_of row.order.transaction_type) row.gtt ltp) (
        eod_exit_reason n row.position (trade_meta_for_order alerts (some row.order)).0 now.clock
          settings)

  module _ (alerts : Alerts) (settings : Settings) (now : Now n) (quotes : Quotes n) where
    unfoldable pub monitor_priced : Row n → Float → Option String → Run n → Run n
    unfolding note_pair
    monitor_priced row ltp none run = run
    monitor_priced row ltp (some exit_reason) run =
        let closed = close_paper_position alerts settings now row ltp exit_reason run in
        record closed {
          paired_exits = note_pair row.order.straddle_id exit_reason closed.paired_exits;
        }

    -- One round of the first loop.
    unfoldable pub monitor_row : Row n → Run n → Run n
    monitor_row row run =
        if has_id row.position.id run.closed_position_ids
        then run
        else elim (quote quotes row.position) [
          | none ↦ run
          | some ltp ↦ monitor_priced row ltp (exit_reason_of alerts settings now row ltp) run
        ]

    unfoldable pub monitor_rows : List (Row n) → Run n → Run n
    monitor_rows [] run = run
    monitor_rows (row ∷ rows) run = monitor_rows rows (monitor_row row run)

    -- One round of the inner loop over the other legs.
    unfoldable pub pair_row : String → Row n → Run n → Run n
    pair_row straddle_id row run =
        if has_id row.position.id run.closed_position_ids
          || not (same_straddle row.order.straddle_id straddle_id)
        then run
        else elim (quote quotes row.position) [
          | none ↦ run
          | some ltp ↦
              close_paper_position alerts settings now row ltp "straddle_paired_sl_exit" run
        ]

    unfoldable pub pair_rows : String → List (Row n) → Run n → Run n
    pair_rows straddle_id [] run = run
    pair_rows straddle_id (row ∷ rows) run =
        pair_rows straddle_id rows (pair_row straddle_id row run)

    unfoldable pub pair_all : List String → List (Row n) → Run n → Run n
    pair_all [] rows run = run
    pair_all (s ∷ straddle_ids) rows run = pair_all straddle_ids rows (pair_rows s rows run)

  unfoldable pub run_monitor : Settings → Now n → Quotes n → Database n → Run n
  run_monitor settings now quotes db =
      let rows = open_paper_rows db db.positions in
      let run = monitor_rows db.alerts settings now quotes rows (record {
        closed_trades = db.closed_trades;
        gtts = db.gtts;
        closed_position_ids = [];
        paired_exits = [];
      }) in
      pair_all db.alerts settings now quotes run.paired_exits rows run

  -- Without a session, or if the quotes cannot be fetched (`none`), nothing is changed.
  unfoldable pub paper_monitor_job : Settings → Now n → Option (Quotes n) → Database n → Database n
  paper_monitor_job settings now none db = db
  paper_monitor_job settings now (some quotes) db =
      let run = run_monitor settings now quotes db in
      record db { closed_trades = run.closed_trades; gtts = run.gtts }
