-- ===== src/Wings/Place.antt =====
-- Buying, reversing and attaching the wings (app/entry_wings.py). The planning, which reads the option
-- chain and asks for quotes, is an argument, and so is the pool that runs the two orders: it says of
-- each what it answered, and whether in time.
use tv_zerodha_bot.Prelude.{
  ℕ, String, Bool, ◌&&◌, Option, none, some, ◌==◌, string_eq, if◌then◌else◌,
}
use tv_zerodha_bot.Prelude.Int.{pos}
use tv_zerodha_bot.Numbers.{Numbers}
use tv_zerodha_bot.Orders.Broker.{
  buy, Broker, Instrument, Process, Action, Result, ok, err, Exception, other_error,
}
use tv_zerodha_bot.Orders.Entry.{place_entry}
use tv_zerodha_bot.Orders.SquareOff.{square_off}

module _ (n : Numbers) where
  open n use {Float}

  pub record Plan : Type 0 where
    pub ce : Instrument n
    pub pe : Instrument n
    pub quantity : ℕ
    pub cost : Float
    pub credit : Float
    pub cost_pct : Float

  pub record WingSettings : Type 0 where
    pub wing_max_cost_pct : Float
    pub wings_required : Bool

-- The answer of a future, and whether it came within the timeout.
pub record Settled : Type 0 where
  pub answer : Result (Option String)
  pub in_time : Bool

pub record WingOrders : Type 0 where
  pub ce_order_id : Option String
  pub pe_order_id : Option String
  pub error : Option Exception

module _ {n : Numbers} (k : Broker n) where
  -- `ThreadPoolExecutor`: two calls at the same time.
  abbrev pub Pool : Type 0
  Pool =
      Action n k (Option String)
      → Action n k (Option String)
      → Process n k
      → (Settled × Settled) × Process n k

abbrev pub timeout_error : Exception
timeout_error = record { class = other_error; code = none; message = "" }

-- `fut.result(timeout=...)`
unfoldable pub result_of : Settled → Result (Option String)
result_of f = if f.in_time then f.answer else err timeout_error

-- The id, if it is a true one, and the exception.
unfoldable pub id_of : Result (Option String) → Option String
id_of (err exc) = none
id_of (ok none) = none
id_of (ok (some id)) = if id == "" then none else some id

unfoldable pub error_of : Result (Option String) → Option Exception
error_of (err exc) = some exc
error_of (ok answer) = none

abbrev pub or_else : Option Exception → Option Exception → Option Exception
or_else none e = e
or_else (some exc) e = some exc

module _ (n : Numbers) where
  -- The plan with its orders, none in paper mode, and the reason to abandon the straddle.
  pub record Attached : Type 0 where
    pub plan : Option (Plan n)
    pub orders : Option WingOrders
    pub blocking_reason : Option String

module _ {n : Numbers} where
  open n use {Float, lt, of_int}

  unfoldable pub wings_too_expensive : WingSettings n → Plan n → Bool
  wings_too_expensive settings plan =
      lt (of_int (pos 0)) settings.wing_max_cost_pct
      && lt (of_int (pos 0)) plan.credit
      && lt settings.wing_max_cost_pct plan.cost_pct

  -- The reasons are shortened: they hold no amounts.
  unfoldable pub give_up : WingSettings n → (reason : String) → Attached n
  give_up settings reason = record {
    plan = none;
    orders = none;
    blocking_reason = if settings.wings_required then some reason else none;
  }

  -- By the exception and the id of the call.
  unfoldable pub attached :
      WingSettings n
      → Plan n
      → WingOrders
      → (error : Option Exception) → (ce_oid : Option String) → Attached n
  unfolding give_up
  attached settings plan orders (some exc) ce_oid = give_up settings "wing placement failed"
  attached settings plan orders none none = give_up settings "wing placement failed"
  attached settings plan orders none (some ce_oid) = record {
    plan = some plan;
    orders = some orders;
    blocking_reason = none;
  }

module _ {n : Numbers} {k : Broker n} where
  open n use {Float}

  unfoldable pub buy_wing : Instrument n → ℕ → (product : String) → Action n k (Option String)
  buy_wing wing qty product = place_entry wing buy qty "MARKET" product none none "regular"

  -- A failure is only logged.
  unfoldable pub sell_back : Instrument n → ℕ → (product : String) → Process n k → Process n k
  sell_back wing qty product s = (square_off wing qty product buy "regular" none s).1

  -- By the two ids: a lone wing is sold back.
  unfoldable pub pair_up :
      Plan n
      → (product : String) → (error : Option Exception) → (ce_oid pe_oid : Option String)
      → Process n k
      → WingOrders × Process n k
  unfolding sell_back
  pair_up plan product error none none s =
      (record { ce_order_id = none; pe_order_id = none; error = error }, s)
  pair_up plan product error (some ce_oid) none s = (
    record { ce_order_id = none; pe_order_id = none; error = error },
    sell_back plan.ce plan.quantity product s,
  )
  pair_up plan product error none (some pe_oid) s = (
    record { ce_order_id = none; pe_order_id = none; error = error },
    sell_back plan.pe plan.quantity product s,
  )
  pair_up plan product error (some ce_oid) (some pe_oid) s =
      (record { ce_order_id = some ce_oid; pe_order_id = some pe_oid; error = none }, s)

  unfoldable pub after_pool :
      Plan n → (product : String) → (Settled × Settled) × Process n k → WingOrders × Process n k
  unfolding pair_up result_of id_of error_of
  after_pool plan product ((fut_ce, fut_pe), s) =
      let ce = result_of fut_ce in
      let pe = result_of fut_pe in
      pair_up plan product (or_else (error_of ce) (error_of pe)) (id_of ce) (id_of pe) s

  unfoldable pub place_entry_wings :
      Pool k → Plan n → (product : String) → Process n k → WingOrders × Process n k
  unfolding after_pool buy_wing
  place_entry_wings pool plan product s =
      after_pool plan product
        (pool (buy_wing plan.ce plan.quantity product) (buy_wing plan.pe plan.quantity product) s)

  unfoldable pub reverse_entry_wings : Plan n → (product : String) → Process n k → Process n k
  unfolding sell_back
  reverse_entry_wings plan product s =
      sell_back plan.pe plan.quantity product (sell_back plan.ce plan.quantity product s)

  unfoldable pub after_orders :
      WingSettings n → Plan n → WingOrders × Process n k → Attached n × Process n k
  unfolding give_up attached
  after_orders settings plan (orders, s) =
      (attached settings plan orders orders.error orders.ce_order_id, s)

  -- What the plan comes to: `dry` is paper mode.
  unfoldable pub attach_planned :
      Pool k
      → WingSettings n
      → Plan n
      → (product : String) → (dry : Bool) → Process n k
      → Attached n × Process n k
  unfolding after_orders place_entry_wings
  attach_planned pool settings plan product dry s =
      if wings_too_expensive settings plan
      then (give_up settings "wings cost too much", s)
      else if dry
      then (record { plan = some plan; orders = none; blocking_reason = none }, s)
      else after_orders settings plan (place_entry_wings pool plan product s)

  -- By what `plan_entry_wings` gave: an exception passes through.
  unfoldable pub after_plan :
      Pool k
      → WingSettings n
      → (product : String) → (dry : Bool) → Result (Option (Plan n)) × Process n k
      → Result (Attached n) × Process n k
  unfolding attach_planned
  after_plan pool settings product dry (err exc, s) = (err exc, s)
  after_plan pool settings product dry (ok none, s) =
      (ok (give_up settings "no wing strikes available"), s)
  after_plan pool settings product dry (ok (some plan), s) =
      let (a, t) = attach_planned pool settings plan product dry s in (ok a, t)

  -- The planning, which asks for quotes, is an argument.
  unfoldable pub attach_entry_wings :
      (plan_entry_wings : Action n k (Option (Plan n)))
      → Pool k
      → WingSettings n
      → (product : String) → (dry : Bool) → Action n k (Attached n)
  unfolding after_plan
  attach_entry_wings plan_entry_wings pool settings product dry s =
      after_plan pool settings product dry (plan_entry_wings s)
