-- ===== src/Orders/Broker.antt =====
-- The Kite client as app/orders.py calls it, and the process that calls it. The client is code of a
-- third party, and stands as the section parameter of every module below: what a call does to the
-- world, to the clock and to the network is unknown.
use tv_zerodha_bot.Prelude.{ℕ, ◌+◌, ◌≤◌, String, Bool, true, false, Option, List, nat_eq}
use tv_zerodha_bot.Prelude.Int.{ℤ}
use tv_zerodha_bot.Prelude.Dict.{Dict}
use tv_zerodha_bot.Numbers.{Numbers}

-- A transaction type. The source passes it as a string, in capitals.
pub data Side : Type 0 where
  buy sell : Side

abbrev pub opposite : Side → Side
opposite buy = sell
opposite sell = buy

abbrev pub is_buy : Side → Bool
is_buy buy = true
is_buy sell = false

-- An exception: the class it is caught by, its `code` where it has one, and its message.
pub data ExceptionClass : Type 0 where
  input_exception token_exception network_exception value_error other_error : ExceptionClass

pub record Exception : Type 0 where
  pub class : ExceptionClass
  pub code : Option ℕ
  pub message : String

pub data Result {ℓ} (A : Type ℓ) : Type ℓ where
  ok : A → Result A
  err : Exception → Result A

-- What `place_gtt` answers, which depends on the version of the client: an id, or a dict with the id
-- under "trigger_id".
pub data GttAnswer : Type 0 where
  gtt_id : ℕ → GttAnswer
  gtt_dict : (trigger_id : Option ℕ) → GttAnswer

module _ (n : Numbers) where
  open n use {Float}

  -- The arguments of `place_order`.
  pub record OrderParams : Type 0 where
    pub variety : String
    pub exchange : String
    pub tradingsymbol : String
    pub transaction_type : Side
    pub quantity : ℕ
    pub order_type : String
    pub product : String
    pub market_protection : Option ℤ
    pub price : Option Float
    pub trigger_price : Option Float

  -- One leg of a GTT.
  pub record Leg : Type 0 where
    pub exchange : String
    pub tradingsymbol : String
    pub transaction_type : Side
    pub quantity : ℕ
    pub order_type : String
    pub product : String
    pub price : Float

  -- The arguments of `place_gtt` and `modify_gtt`, whose type is always OCO.
  pub record OcoParams : Type 0 where
    pub tradingsymbol : String
    pub exchange : String
    pub trigger_values : Float × Float
    pub last_price : Float
    pub orders : Leg × Leg

  -- An entry of the `net` array of `positions()`.
  pub record NetPosition : Type 0 where
    pub tradingsymbol : String
    pub exchange : String
    pub quantity : ℤ

  pub record Instrument : Type 0 where
    pub instrument_token : ℕ
    pub exchange : String
    pub tradingsymbol : String
    pub lot_size : ℕ
    pub tick_size : Float

  -- The client, the clock and the random numbers; times are in nanoseconds.
  pub record Broker : Type 1 where
    pub World : Type 0
    pub monotonic : World → ℕ
    pub sleep : ℕ → World → World
    -- `random.uniform(0, 0.1)`
    pub uniform : World → ℕ × World
    pub place_order : OrderParams → World → Result String × World
    pub positions : World → Result (List NetPosition) × World
    pub place_gtt : OcoParams → World → Result GttAnswer × World
    pub modify_gtt : ℕ → OcoParams → World → Result ℕ × World
    pub delete_gtt : ℕ → World → Result (Unit {0}) × World

  -- What is documented of the clock: it does not go back, and a sleep lasts at least its time.
  pub record Ticks (k : Broker) : Type 0 where
    pub sleep_grows : (t : ℕ) (w : k.World) → k.monotonic w + t ≤ k.monotonic (k.sleep t w)

  -- The world, and the module variables of app/orders.py.
  pub record Process (k : Broker) : Type 0 where
    pub world : k.World
    pub recent_squareoffs : Dict String ℕ
    pub last_quote_ts : ℕ

-- A call: the state is there after an exception too.
abbrev pub Action : (n : Numbers) → Broker n → Type 0 → Type 0
Action n k A = Process n k → Result A × Process n k

module _ {n : Numbers} {k : Broker n} where
  module _ {A : Type 0} where
    abbrev pub pure : A → Action n k A
    pure a s = (ok a, s)

    abbrev pub raise : Exception → Action n k A
    raise e s = (err e, s)

    -- A call of the client, which changes nothing but the world.
    abbrev pub call : (k.World → Result A × k.World) → Action n k A
    call f s = let (r, w) = f s.world in (r, record s { world = w })

  infixl 5 ◌>>=◌ ◌>>◌
  abbrev pub ◌>>=◌ : {A B : Type 0} → Action n k A → (A → Action n k B) → Action n k B
  ◌>>=◌ m f s = let (r, s') = m s in elim r [ ok a ↦ f a s' | err e ↦ (err e, s') ]

  abbrev pub ◌>>◌ : {A B : Type 0} → Action n k A → Action n k B → Action n k B
  m >> f = m >>= λ _. f

  abbrev pub monotonic : Process n k → ℕ
  monotonic s = k.monotonic s.world
