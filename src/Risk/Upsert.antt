-- ===== src/Risk/Upsert.antt =====
-- The result of a trade (app/risk.py) is an upsert: no position gets a second trade, and the last
-- result written is the one that stays.
use tv_zerodha_bot.Prelude.{
  ℕ, String, ◌≡◌, refl, sym, ap, ◌∙◌, Option, none, some, List, [], ◌∷◌, nat_eq, arith, inl, inr,
  Bool-cases,
}
use tv_zerodha_bot.Prelude.Dict.{eq_self}
use tv_zerodha_bot.Numbers.{Numbers}
use tv_zerodha_bot.Storage.{Instant, Order, Position, ClosedTrade, Alerts}
use tv_zerodha_bot.Paper.Monitor.{Database, has_id, is_closed}
use tv_zerodha_bot.Paper.Once.{Distinct, trade_ids, is_closed-has_id}
use tv_zerodha_bot.Risk.Results.{
  find_by_kite_id, find_position, overwrite, gtt_trade, upsert, record_found, record_for,
  record_trade_result, total_pnl_of,
}

module _ {n : Numbers} where
  open n use {Float, Decimal}

  trade_ids-overwrite :
      (id : ℕ) (total : Float) (at : Instant) (ts : List (ClosedTrade n))
      → trade_ids (overwrite id total at ts) ≡ trade_ids ts
  unfolding overwrite
  trade_ids-overwrite id total at [] = refl
  trade_ids-overwrite id total at (t ∷ ts) = ground (arith, trade_ids-overwrite id total at ts)

  overwrite-overwrite :
      (id : ℕ) (a b : Float) (s t : Instant) (ts : List (ClosedTrade n))
      → overwrite id b t (overwrite id a s ts) ≡ overwrite id b t ts
  unfolding overwrite
  overwrite-overwrite id a b s t [] = refl
  overwrite-overwrite id a b s t (u ∷ ts) = ground (arith, overwrite-overwrite id a b s t ts)

  is_closed-overwrite :
      (k id : ℕ) (total : Float) (at : Instant) (ts : List (ClosedTrade n))
      → is_closed k (overwrite id total at ts) ≡ is_closed k ts
  is_closed-overwrite k id total at ts =
      is_closed-has_id k (overwrite id total at ts)
      ∙ (ap (has_id k) (trade_ids-overwrite id total at ts) ∙ sym (is_closed-has_id k ts))

  module _ (alerts : Alerts) (order : Order n) (p : Position n) where
    upsert-Distinct :
        (pnl : Decimal) (at : Instant) (ts : List (ClosedTrade n))
        → Distinct (trade_ids ts)
        → Distinct (trade_ids (upsert alerts order p pnl at ts))
    unfolding upsert gtt_trade
    upsert-Distinct pnl at ts d = elim (Bool-cases (is_closed p.id ts)) [
      | inl old ↦ rw (old, trade_ids-overwrite p.id (total_pnl_of pnl p) at ts) d
      | inr new ↦ rw new (sym (is_closed-has_id p.id ts) ∙ new, d)
    ]

    upsert-upsert :
        (a b : Decimal) (s t : Instant) (ts : List (ClosedTrade n))
        → upsert alerts order p b t (upsert alerts order p a s ts) ≡ upsert alerts order p b t ts
    unfolding upsert gtt_trade is_closed overwrite
    upsert-upsert a b s t ts = elim (Bool-cases (is_closed p.id ts)) [
      | inl old ↦
          rw (old, is_closed-overwrite p.id p.id (total_pnl_of a p) s ts, old)
            (overwrite-overwrite p.id (total_pnl_of a p) (total_pnl_of b p) s t ts)
      | inr new ↦ rw (new, eq_self p.id) refl
    ]

  record_found-Distinct :
      (alerts : Alerts) (order : Order n) (o : Option (Position n)) (pnl : Decimal) (at : Instant)
      (ts : List (ClosedTrade n))
      → Distinct (trade_ids ts)
      → Distinct (trade_ids (record_found alerts order o pnl at ts))
  unfolding record_found
  record_found-Distinct alerts order none pnl at ts d = d
  record_found-Distinct alerts order (some p) pnl at ts d =
      upsert-Distinct alerts order p pnl at ts d

  record_for-Distinct :
      (alerts : Alerts) (o : Option (Order n)) (ps : List (Position n)) (pnl : Decimal)
      (at : Instant) (ts : List (ClosedTrade n))
      → Distinct (trade_ids ts)
      → Distinct (trade_ids (record_for alerts o ps pnl at ts))
  unfolding record_for
  record_for-Distinct alerts none ps pnl at ts d = d
  record_for-Distinct alerts (some order) ps pnl at ts d =
      record_found-Distinct alerts order (find_position order.id ps) pnl at ts d

  record_found-record_found :
      (alerts : Alerts) (order : Order n) (o : Option (Position n)) (a b : Decimal) (s t : Instant)
      (ts : List (ClosedTrade n))
      → record_found alerts order o b t (record_found alerts order o a s ts)
        ≡ record_found alerts order o b t ts
  unfolding record_found
  record_found-record_found alerts order none a b s t ts = refl
  record_found-record_found alerts order (some p) a b s t ts =
      upsert-upsert alerts order p a b s t ts

  record_for-record_for :
      (alerts : Alerts) (o : Option (Order n)) (ps : List (Position n)) (a b : Decimal)
      (s t : Instant) (ts : List (ClosedTrade n))
      → record_for alerts o ps b t (record_for alerts o ps a s ts) ≡ record_for alerts o ps b t ts
  unfolding record_for
  record_for-record_for alerts none ps a b s t ts = refl
  record_for-record_for alerts (some order) ps a b s t ts =
      record_found-record_found alerts order (find_position order.id ps) a b s t ts

  -- If no position has two closed trades, none has after record_trade_result, and of two results
  -- written for the same order only the later one counts, as if the first was never written.
  pub record_trade_result_lem :
      (order_id : String) (a b : Decimal) (s t : Instant) (db : Database n)
      → Distinct (trade_ids db.closed_trades)
      → Distinct (trade_ids (record_trade_result order_id a s db).closed_trades)
        × (record_trade_result order_id b t (record_trade_result order_id a s db)
            ≡ record_trade_result order_id b t db)
  unfolding record_trade_result
  record_trade_result_lem order_id a b s t db d =
      let order = find_by_kite_id order_id db.orders in
      (
        record_for-Distinct db.alerts order db.positions a s db.closed_trades d,
        ap (λ ts. record db { closed_trades = ts })
            (record_for-record_for db.alerts order db.positions a b s t db.closed_trades),
      )
