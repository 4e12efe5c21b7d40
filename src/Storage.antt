-- ===== src/Storage.antt =====
-- The tables of app/storage.py that the modelled parts read and write, a record for a row. A date is
-- a number of microseconds. A query is a function of the list of rows, in the order of the table.
use tv_zerodha_bot.Prelude.{
  ℕ, String, Bool, false, Option, none, some, List, [], ◌∷◌, ◌==◌, nat_eq, if◌then◌else◌,
}
use tv_zerodha_bot.Prelude.Int.{pos}
use tv_zerodha_bot.Numbers.{Numbers}
use tv_zerodha_bot.Orders.Broker.{Side}

abbrev pub Instant : Type 0
Instant = ℕ

module _ (n : Numbers) where
  open n use {Float}

  pub record Order : Type 0 where
    pub id : ℕ
    pub alert_id : Option ℕ
    pub kite_order_id : Option String
    pub variety : String
    pub exchange : String
    pub tradingsymbol : String
    pub transaction_type : Option Side
    pub order_type : String
    pub product : String
    pub quantity : ℕ
    pub price : Option Float
    pub trigger_price : Option Float
    pub market_protection : Option Float
    pub status : String
    pub fill_price : Option Float
    pub fill_qty : Option ℕ
    pub placed_at : Instant
    pub updated_at : Instant
    pub dry_run : Bool
    pub raw_response : Option String
    pub straddle_id : Option String

  pub record Gtt : Type 0 where
    pub id : ℕ
    pub order_id : ℕ
    pub kite_gtt_id : Option ℕ
    pub gtt_type : String
    pub exchange : String
    pub tradingsymbol : String
    pub sl_trigger : Float
    pub target_trigger : Float
    pub sl_order_price : Float
    pub target_order_price : Float
    pub last_price_at_placement : Float
    pub status : String
    pub placed_at : Instant
    pub updated_at : Instant
    pub modification_count : ℕ
    pub dry_run : Bool

  pub record Position : Type 0 where
    pub id : ℕ
    pub order_id : ℕ
    pub gtt_id : Option ℕ
    pub exchange : String
    pub tradingsymbol : String
    pub underlying : String
    pub instrument_type : String
    pub entry_premium : Float
    pub current_sl : Float
    pub breakeven_moved : Bool
    pub trail_active : Bool
    pub quantity : ℕ
    pub lot_size : ℕ
    pub opened_at : Instant
    pub last_updated_at : Instant
    pub max_favorable_price : Option Float
    pub max_adverse_price : Option Float
    pub partial_booked_qty : ℕ
    pub partial_booked_pnl : Option Float
    pub partial_booked_at : Option Instant

  pub record ClosedTrade : Type 0 where
    pub position_id : ℕ
    pub exchange : String
    pub tradingsymbol : String
    pub entry_premium : Float
    pub exit_premium : Float
    pub pnl : Float
    pub exit_reason : String
    pub opened_at : Instant
    pub closed_at : Instant
    pub strategy_id : Option String
    pub dry_run : Bool

-- The strategy of each alert, which is all that is read of the table of alerts.
abbrev pub Alerts : Type 0
Alerts = List (ℕ × String)

unfoldable pub strategy_of : ℕ → Alerts → Option String
strategy_of id [] = none
strategy_of id ((i, s) ∷ alerts) = if i == id then some s else strategy_of id alerts

module _ {n : Numbers} where
  open n use {Float, of_int}

  unfoldable pub trade_meta_for_order : Alerts → Option (Order n) → Option String × Bool
  trade_meta_for_order alerts none = (none, false)
  trade_meta_for_order alerts (some order) =
      (elim order.alert_id [ none ↦ none | some id ↦ strategy_of id alerts ], order.dry_run)

  -- `float(getattr(position, "partial_booked_pnl", 0.0) or 0.0)`
  unfoldable pub booked_partial_pnl : Option (Position n) → Float
  booked_partial_pnl none = of_int (pos 0)
  booked_partial_pnl (some position) = elim position.partial_booked_pnl [
    | none ↦ of_int (pos 0)
    | some pnl ↦ pnl
  ]
