-- ===== src/Wings/Required.antt =====
-- Wings that are required are on, both of them, or the straddle is abandoned (app/entry_wings.py).
use tv_zerodha_bot.Prelude.{
  is_none, ◌||◌, ◌==◌, string_eq, if◌then◌else◌, String, ◌≡◌, ◌⊎◌, Bool, true, false, not, Option,
  none, some,
}
use tv_zerodha_bot.Numbers.{Numbers}
use tv_zerodha_bot.Orders.Broker.{buy, Broker, Process, Result, ok, err}
use tv_zerodha_bot.Orders.Entry.{place_entry}
use tv_zerodha_bot.Orders.SquareOff.{square_off}
use tv_zerodha_bot.Wings.Place.{
  Plan, WingSettings, Settled, WingOrders, Pool, wings_too_expensive, Attached,
}

-- Both wings have an id.
abbrev pub IsPair : WingOrders → Type 0
IsPair o =
    (ce pe : String) × (o ≡ record { ce_order_id = some ce; pe_order_id = some pe; error = none })

abbrev pub IsNone : WingOrders → Type 0
IsNone o = (o.ce_order_id ≡ none) × (o.pe_order_id ≡ none)

-- The id of a wing whose order was answered in time, by a text that is not empty.
abbrev pub placed : Settled → Option String
placed f = elim f.answer [
  | err exc ↦ none
  | ok none ↦ none
  | ok (some id) ↦ if not f.in_time || id == "" then none else some id
]

module _ {n : Numbers} where
  -- There are no wings, and a reason to abandon the straddle exactly if they are required.
  abbrev pub GivenUp : WingSettings n → Attached n → Type 0
  GivenUp settings a =
      (a.plan ≡ none)
      × (a.orders ≡ none)
      × (is_none a.blocking_reason ≡ not settings.wings_required)

  -- The straddle goes on with the plan and these orders.
  abbrev pub GoesOn : Plan n → Option WingOrders → Attached n → Type 0
  GoesOn plan orders a = (a.plan ≡ some plan) × (a.orders ≡ orders) × (a.blocking_reason ≡ none)

module _ {n : Numbers} {k : Broker n} where
  -- The end of the buying, from the state `s1` behind the pool, by what each future comes to: both
  -- wings are kept, or a wing alone is sold back at the market, or there was none.
  abbrev pub Evened :
      Plan n
      → (product : String) → (ce pe : Option String) → Process n k
      → WingOrders × Process n k
      → Type 0
  Evened plan product (some ce) (some pe) s1 (o, t) =
      (o ≡ record { ce_order_id = some ce; pe_order_id = some pe; error = none }) × (t ≡ s1)
  Evened plan product (some ce) none s1 (o, t) =
      IsNone o × (t ≡ (square_off plan.ce plan.quantity product buy "regular" none s1).1)
  Evened plan product none (some pe) s1 (o, t) =
      IsNone o × (t ≡ (square_off plan.pe plan.quantity product buy "regular" none s1).1)
  Evened plan product none none s1 (o, t) = IsNone o × (t ≡ s1)

  -- The two orders that the pool runs: each buys one wing at the market.
  abbrev pub bought :
      Pool k → Plan n → (product : String) → Process n k → (Settled × Settled) × Process n k
  bought pool plan product s =
      pool (place_entry plan.ce buy plan.quantity "MARKET" product none none "regular")
        (place_entry plan.pe buy plan.quantity "MARKET" product none none "regular") s

  -- What happened, for a plan: the straddle is given up before an order; or it is on paper; or the
  -- wings were bought and evened, and it goes on exactly with both of them.
  abbrev pub IsSettled :
      Pool k
      → WingSettings n
      → Plan n
      → (product : String) → (dry : Bool) → Process n k
      → Attached n × Process n k
      → Type 0
  IsSettled pool settings plan product dry s (a, t) =
      (wings_too_expensive settings plan ≡ true) × GivenUp settings a × (t ≡ s)
      ⊎ (wings_too_expensive settings plan ≡ false) × (dry ≡ true) × GoesOn plan none a × (t ≡ s)
      ⊎ (wings_too_expensive settings plan ≡ false)
        × (dry ≡ false)
        × (o : WingOrders) × (let (futures, s1) = bought pool plan product s in
            Evened plan product (placed futures.0) (placed futures.1) s1 (o, t))
        × (GoesOn plan (some o) a × IsPair o ⊎ GivenUp settings a × IsNone o)

  -- By what the planning came to.
  abbrev pub IsAttached :
      Pool k
      → WingSettings n
      → (product : String) → (dry : Bool) → Result (Option (Plan n)) × Process n k
      → Result (Attached n) × Process n k
      → Type 0
  IsAttached pool settings product dry (err exc, s) o = o ≡ (err exc, s)
  IsAttached pool settings product dry (ok none, s) (r, t) =
      (a : Attached n) × (r ≡ ok a) × GivenUp settings a × (t ≡ s)
  IsAttached pool settings product dry (ok (some plan), s) (r, t) =
      (a : Attached n) × (r ≡ ok a) × IsSettled pool settings plan product dry s (a, t)
