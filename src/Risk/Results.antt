-- ===== src/Risk/Results.antt =====
-- `record_trade_result` (app/risk.py): the result of a trade is written once for each position.
use tv_zerodha_bot.Prelude.{
  ℕ, String, Bool, false, Option, none, some, List, [], ◌∷◌, ◌==◌, nat_eq, string_eq, if◌then◌else◌,
}
use tv_zerodha_bot.Prelude.Int.{pos}
use tv_zerodha_bot.Numbers.{Numbers}
use tv_zerodha_bot.Storage.{
  Instant, Order, Position, ClosedTrade, Alerts, trade_meta_for_order, booked_partial_pnl,
}
use tv_zerodha_bot.Paper.Monitor.{Database, is_closed}

abbrev has_order_id : String → Option String → Bool
has_order_id order_id none = false
has_order_id order_id (some id) = id == order_id

module _ {n : Numbers} where
  open n use {Float, Decimal, of_int, add, to_float}

  unfoldable pub find_by_kite_id : String → List (Order n) → Option (Order n)
  find_by_kite_id order_id [] = none
  find_by_kite_id order_id (o ∷ os) =
      if has_order_id order_id o.kite_order_id then some o else find_by_kite_id order_id os

  unfoldable pub find_position : (order_id : ℕ) → List (Position n) → Option (Position n)
  find_position order_id [] = none
  find_position order_id (p ∷ ps) =
      if p.order_id == order_id then some p else find_position order_id ps

  -- The first trade of the position gets the result.
  unfoldable pub overwrite :
      ℕ → (total_pnl : Float) → Instant → List (ClosedTrade n) → List (ClosedTrade n)
  overwrite position_id total_pnl closed_at [] = []
  overwrite position_id total_pnl closed_at (t ∷ ts) =
      if t.position_id == position_id
      then (record t { pnl = total_pnl; closed_at = closed_at }) ∷ ts
      else t ∷ overwrite position_id total_pnl closed_at ts

  unfoldable pub gtt_trade :
      Alerts → Order n → Position n → (total_pnl : Float) → Instant → ClosedTrade n
  gtt_trade alerts order p total_pnl closed_at =
      let (strategy_id, entry_dry_run) = trade_meta_for_order alerts (some order) in
      record {
        position_id = p.id;
        exchange = p.exchange;
        tradingsymbol = p.tradingsymbol;
        entry_premium = p.entry_premium;
        exit_premium = of_int (pos 0);
        pnl = total_pnl;
        exit_reason = "GTT_FILLED";
        opened_at = p.opened_at;
        closed_at = closed_at;
        strategy_id = strategy_id;
        dry_run = entry_dry_run;
      }

  -- `float(pnl) + booked_partial_pnl(position)`
  abbrev pub total_pnl_of : (pnl : Decimal) → Position n → Float
  total_pnl_of pnl p = add (to_float pnl) (booked_partial_pnl (some p))

  unfoldable pub upsert :
      Alerts
      → Order n
      → Position n
      → Decimal
      → Instant
      → List (ClosedTrade n)
      → List (ClosedTrade n)
  upsert alerts order p pnl closed_at trades =
      if is_closed p.id trades
      then overwrite p.id (total_pnl_of pnl p) closed_at trades
      else gtt_trade alerts order p (total_pnl_of pnl p) closed_at ∷ trades

  unfoldable pub record_found :
      Alerts
      → Order n
      → Option (Position n)
      → Decimal
      → Instant
      → List (ClosedTrade n)
      → List (ClosedTrade n)
  record_found alerts order none pnl closed_at trades = trades
  record_found alerts order (some p) pnl closed_at trades =
      upsert alerts order p pnl closed_at trades

  unfoldable pub record_for :
      Alerts
      → Option (Order n)
      → List (Position n)
      → Decimal
      → Instant
      → List (ClosedTrade n)
      → List (ClosedTrade n)
  unfolding record_found
  record_for alerts none positions pnl closed_at trades = trades
  record_for alerts (some order) positions pnl closed_at trades =
      record_found alerts order (find_position order.id positions) pnl closed_at trades

  unfoldable pub record_trade_result :
      (order_id : String) → (pnl : Decimal) → (closed_at : Instant) → Database n → Database n
  unfolding record_for
  record_trade_result order_id pnl closed_at db = record db {
    closed_trades =
        record_for db.alerts (find_by_kite_id order_id db.orders) db.positions pnl closed_at
          db.closed_trades;
  }
