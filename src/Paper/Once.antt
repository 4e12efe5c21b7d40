-- ===== src/Paper/Once.antt =====
-- A run of the paper monitor (app/paper_trading.py) closes a position at most once, and only paper
-- positions that were open.
use tv_zerodha_bot.Prelude.{
  ℕ, ◌≡◌, refl, sym, ap, ◌∙◌, Bool, true, false, not, ◌&&◌, Option, none, some, List, [], ◌∷◌, ◌++◌,
  nat_eq, string_eq, if◌then◌else◌, arith, inl, inr, Bool-cases, Option-cases, All, String,
}
use tv_zerodha_bot.Numbers.{Numbers}
use tv_zerodha_bot.Storage.{Order, Position, ClosedTrade, Alerts}
use tv_zerodha_bot.Paper.Exits.{Settings}
use tv_zerodha_bot.Paper.Monitor.{
  Database, Row, Run, Quotes, Now, has_id, is_closed, find_order, same_straddle, open_row,
  joined_row, open_paper_rows, quote, closed_trade, close_paper_position, exit_reason_of,
  monitor_priced, monitor_row, monitor_rows, pair_row, pair_rows, pair_all, run_monitor,
}

-- No number stands twice.
abbrev pub Distinct : List ℕ → Type 0
Distinct [] = Unit
Distinct (i ∷ is) = (has_id i is ≡ false) × Distinct is

pub second_false : (a b : Bool) → (a && not b) ≡ true → b ≡ false
second_false a b h = ground arith

module _ {n : Numbers} where
  open n use {Float}

  abbrev pub trade_ids : List (ClosedTrade n) → List ℕ
  trade_ids [] = []
  trade_ids (t ∷ ts) = t.position_id ∷ trade_ids ts

  -- The rows that this run has written stand in front of the old ones: all are paper trades, their
  -- positions are those noted as closed, and no position has two trades.
  pub record IsSound (old : List (ClosedTrade n)) (run : Run n) : Type 0 where
    pub written : List (ClosedTrade n)
    pub in_front : run.closed_trades ≡ written ++ old
    pub noted : run.closed_position_ids ≡ trade_ids written
    pub distinct : Distinct (trade_ids run.closed_trades)
    pub paper : All (λ t. t.dry_run ≡ true) written

  -- The position of the row had no trade before the run.
  abbrev pub WasOpen : List (ClosedTrade n) → Row n → Type 0
  WasOpen old row = has_id row.position.id (trade_ids old) ≡ false

  has_id-append :
      (k : ℕ) (xs ys : List (ClosedTrade n))
      → has_id k (trade_ids (xs ++ ys))
        ≡ (if has_id k (trade_ids xs) then true else has_id k (trade_ids ys))
  has_id-append k [] ys = refl
  has_id-append k (x ∷ xs) ys = ground (arith, has_id-append k xs ys)

  module _ (alerts : Alerts) (settings : Settings) (now : Now n) (old : List (ClosedTrade n)) where
    close_paper_position-IsSound :
        (row : Row n) (ltp : Float) (reason : String) (run : Run n)
        → WasOpen old row
        → has_id row.position.id run.closed_position_ids ≡ false
        → IsSound old run
        → IsSound old (close_paper_position alerts settings now row ltp reason run)
    unfolding close_paper_position closed_trade
    close_paper_position-IsSound row ltp reason run was_open fresh h = record {
      written = closed_trade alerts row ltp reason now settings ∷ h.written;
      in_front = ap (◌∷◌ (closed_trade alerts row ltp reason now settings)) h.in_front;
      noted = ap (◌∷◌ row.position.id) h.noted;
      distinct = (new_id, h.distinct);
      paper = (refl, h.paper);
    }
      where
        new_id : has_id row.position.id (trade_ids run.closed_trades) ≡ false
        new_id =
            rw (h.in_front, has_id-append row.position.id h.written old, ← h.noted, fresh, was_open)

    module _ (quotes : Quotes n) where
      monitor_row-IsSound :
          (row : Row n) (run : Run n)
          → WasOpen old row
          → IsSound old run
          → IsSound old (monitor_row alerts settings now quotes row run)
      unfolding monitor_row monitor_priced
      monitor_row-IsSound row run was_open h =
          elim (Bool-cases (has_id row.position.id run.closed_position_ids)) [
            | inl seen ↦ rw seen h
            | inr fresh ↦ elim (Option-cases (quote quotes row.position)) [
              | inl none_q ↦ rw (fresh, none_q) h
              | inr (ltp, some_q) ↦
                  elim (Option-cases (exit_reason_of alerts settings now row ltp)) [
                    | inl stays ↦ rw (fresh, some_q, stays) h
                    | inr (reason, exits) ↦
                        let closed =
                          close_paper_position-IsSound row ltp reason run was_open fresh h in
                        rw (fresh, some_q, exits)
                          (record {
                            written = closed.written;
                            in_front = closed.in_front;
                            noted = closed.noted;
                            distinct = closed.distinct;
                            paper = closed.paper;
                          })
                  ]
            ]
          ]

      monitor_rows-IsSound :
          (rows : List (Row n)) (run : Run n)
          → All (WasOpen old) rows
          → IsSound old run
          → IsSound old (monitor_rows alerts settings now quotes rows run)
      unfolding monitor_rows
      monitor_rows-IsSound [] run o h = h
      monitor_rows-IsSound (row ∷ rows) run o h =
          monitor_rows-IsSound rows (monitor_row alerts settings now quotes row run) o.1
            (monitor_row-IsSound row run o.0 h)

      pair_row-IsSound :
          (straddle_id : String) (row : Row n) (run : Run n)
          → WasOpen old row
          → IsSound old run
          → IsSound old (pair_row alerts settings now quotes straddle_id row run)
      unfolding pair_row
      pair_row-IsSound straddle_id row run was_open h =
          elim (Bool-cases (has_id row.position.id run.closed_position_ids)) [
            | inl seen ↦ rw seen h
            | inr fresh ↦ elim (Bool-cases (same_straddle row.order.straddle_id straddle_id)) [
              | inl same ↦ elim (Option-cases (quote quotes row.position)) [
                | inl none_q ↦ rw (fresh, same, none_q) h
                | inr (ltp, some_q) ↦
                    rw (fresh, same, some_q)
                      (close_paper_position-IsSound row ltp "straddle_paired_sl_exit" run was_open
                        fresh h)
              ]
              | inr differs ↦ rw (fresh, differs) h
            ]
          ]

      pair_rows-IsSound :
          (straddle_id : String) (rows : List (Row n)) (run : Run n)
          → All (WasOpen old) rows
          → IsSound old run
          → IsSound old (pair_rows alerts settings now quotes straddle_id rows run)
      unfolding pair_rows
      pair_rows-IsSound straddle_id [] run o h = h
      pair_rows-IsSound straddle_id (row ∷ rows) run o h =
          pair_rows-IsSound straddle_id rows
            (pair_row alerts settings now quotes straddle_id row run) o.1
            (pair_row-IsSound straddle_id row run o.0 h)

      pair_all-IsSound :
          (straddle_ids : List String) (rows : List (Row n)) (run : Run n)
          → All (WasOpen old) rows
          → IsSound old run
          → IsSound old (pair_all alerts settings now quotes straddle_ids rows run)
      unfolding pair_all
      pair_all-IsSound [] rows run o h = h
      pair_all-IsSound (s ∷ ss) rows run o h =
          pair_all-IsSound ss rows (pair_rows alerts settings now quotes s rows run) o
            (pair_rows-IsSound s rows run o h)

  pub is_closed-has_id :
      (id : ℕ) (ts : List (ClosedTrade n)) → is_closed id ts ≡ has_id id (trade_ids ts)
  unfolding is_closed
  is_closed-has_id id [] = refl
  is_closed-has_id id (t ∷ ts) = ground (arith, is_closed-has_id id ts)

  All-append : (P : Row n → Type 0) (xs ys : List (Row n)) → All P xs → All P ys → All P (xs ++ ys)
  All-append P [] ys hx hy = hy
  All-append P (x ∷ xs) ys hx hy = (hx.0, All-append P xs ys hx.1 hy)

  joined_row-WasOpen :
      (db : Database n) (p : Position n) (o : Option (Order n))
      → All (WasOpen db.closed_trades) (joined_row db p o)
  unfolding joined_row
  joined_row-WasOpen db p none = tt
  joined_row-WasOpen db p (some order) =
      elim (Bool-cases (order.dry_run && not (is_closed p.id db.closed_trades))) [
        | inl kept ↦ rw kept (
          sym (is_closed-has_id p.id db.closed_trades)
              ∙ second_false order.dry_run (is_closed p.id db.closed_trades) kept,
          tt,
        )
        | inr dropped ↦ rw dropped tt
      ]

  open_row-WasOpen :
      (db : Database n) (p : Position n) → All (WasOpen db.closed_trades) (open_row db p)
  unfolding open_row
  open_row-WasOpen db p = joined_row-WasOpen db p (find_order p.order_id db.orders)

  open_paper_rows-WasOpen :
      (db : Database n) (ps : List (Position n))
      → All (WasOpen db.closed_trades) (open_paper_rows db ps)
  unfolding open_paper_rows
  open_paper_rows-WasOpen db [] = tt
  open_paper_rows-WasOpen db (p ∷ ps) =
      All-append (WasOpen db.closed_trades) (open_row db p) (open_paper_rows db ps)
        (open_row-WasOpen db p) (open_paper_rows-WasOpen db ps)

  -- If no position has two closed trades, none has after a run of the paper monitor, at whatever
  -- quotes: the run only adds trades in front of the old ones, all of them paper trades, one for
  -- each position that it notes as closed.
  pub run_monitor-IsSound :
      (settings : Settings) (now : Now n) (quotes : Quotes n) (db : Database n)
      → Distinct (trade_ids db.closed_trades)
      → IsSound db.closed_trades (run_monitor settings now quotes db)
  unfolding run_monitor
  run_monitor-IsSound settings now quotes db d =
      let rows = open_paper_rows db db.positions in
      let were_open = open_paper_rows-WasOpen db db.positions in
      let start : Run n = record {
        closed_trades = db.closed_trades;
        gtts = db.gtts;
        closed_position_ids = [];
        paired_exits = [];
      } in
      let first = monitor_rows db.alerts settings now quotes rows start in
      pair_all-IsSound db.alerts settings now db.closed_trades quotes first.paired_exits rows first
        were_open
        (monitor_rows-IsSound db.alerts settings now db.closed_trades quotes rows start were_open
          (record { written = []; in_front = refl; noted = refl; distinct = d; paper = tt }))
