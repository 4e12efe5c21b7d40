-- ===== src/Voice/Pending.antt =====
-- app/voice/pending.py: the store of orders that wait for a confirmation, with voice dedup, history
-- and rate limiting. A method takes the reading of `time.monotonic()` that it makes, in nanoseconds,
-- and returns its result with the new store; each runs under its lock, so calls do not overlap.
-- `V` is the type of the JSON values that the store keeps and never looks into.
pub mod Orders
pub mod Rate
pub mod Dedup
pub mod History
mod Tests
use text.Mathlib.Text.{starts_with}
use tv_zerodha_bot.Prelude.{
  or_default, ℕ, ◌+◌, ◌-◌, ◌*◌, ◌/◌, ◌%◌, String, Bool, true, false, ◌&&◌, ◌||◌, Option, none, some,
  List, [], ◌∷◌, ◌++◌, map, ltb, leb, ◌==◌, string_eq, nat_eq, if◌then◌else◌, length, take, keep,
  second,
}
use tv_zerodha_bot.Prelude.Dict.{Dict, lookup, insert, erase}

abbrev pub voice_dedup_seconds : ℕ
voice_dedup_seconds = 10

abbrev pub history_maxlen : ℕ
history_maxlen = 100

-- A pending order: the keys that the store reads, and the others as a dict.
pub record Entry (V : Type 0) : Type 0 where
  pub expires : ℕ
  pub token : String
  pub confirm_step : Option ℕ
  pub fields : Dict String V

pub record HistoryEntry (V : Type 0) : Type 0 where
  pub token : Option String
  pub ts : Option String
  pub decision : Option String
  pub result : Option V
  pub fields : Dict String V

pub record PendingOrderStore (V : Type 0) : Type 0 where
  pub orders : Dict String (Entry V)
  pub dedup : Dict String ℕ
  pub history : List (HistoryEntry V)
  pub rate : Dict String (List ℕ)

-- One item of `list_active`.
pub record ActiveOrder (V : Type 0) : Type 0 where
  pub token : String
  pub action : Option V
  pub action_type : Option V
  pub underlying : Option V
  pub quantity : Option V
  pub confidence : Option V
  pub low_confidence : Option V
  pub is_exit : Option V
  pub confirm_step : Option ℕ
  pub transcript : Option V
  pub expires_in_sec : ℕ
  pub source_ip : Option V

-- Python's `round` of a time that is not negative, in seconds: a half goes to the even number.
round_seconds : ℕ → ℕ
round_seconds t =
    let q = t / second in
    let r = t % second in
    if ltb (r * 2) second
    then q
    else if ltb second (r * 2)
    then q + 1
    else if q % 2 == 0
    then q
    else q + 1

-- `while q and now - q[0] > window_sec: q.popleft()`
pub prune : ℕ → ℕ → List ℕ → List ℕ
prune now window [] = []
prune now window (t ∷ q) = if ltb window (now - t) then prune now window q else t ∷ q

module _ {V : Type 0} where
  abbrev pub init : PendingOrderStore V
  init = record { orders = []; dedup = []; history = []; rate = [] }

  pub store : String → Entry V → PendingOrderStore V → PendingOrderStore V
  store token entry s = record s { orders = insert token entry s.orders }

  -- By the entry that was read, in the store at the second lock.
  get_found :
      String → ℕ → Option (Entry V) → PendingOrderStore V → Option (Entry V) × PendingOrderStore V
  get_found token now none s = (none, s)
  get_found token now (some entry) s =
      if ltb entry.expires now
      then (none, record s { orders = erase token s.orders })
      else (some entry, s)

  -- An entry that has expired is dropped when it is asked for. Between the reading and the dropping
  -- the lock is open: `between` is what others do to the store there.
  pub get :
      String
      → (now : ℕ) → (between : PendingOrderStore V → PendingOrderStore V) → PendingOrderStore V
      → Option (Entry V) × PendingOrderStore V
  unfolding get_found
  get token now between s = get_found token now (lookup token s.orders) (between s)

  pub pop : String → PendingOrderStore V → Option (Entry V) × PendingOrderStore V
  pop token s = (lookup token s.orders, record s { orders = erase token s.orders })

  bump_step : Entry V → Entry V
  bump_step entry = record entry { confirm_step = some (or_default 1 entry.confirm_step + 1) }

  advance_found : String → PendingOrderStore V → Option (Entry V) → Bool × PendingOrderStore V
  unfolding bump_step
  advance_found token s none = (false, s)
  advance_found token s (some entry) =
      (true, record s { orders = insert token (bump_step entry) s.orders })

  pub advance_confirm_step : String → PendingOrderStore V → Bool × PendingOrderStore V
  unfolding advance_found
  advance_confirm_step token s = advance_found token s (lookup token s.orders)

  -- `[k for k, v in self._orders.items() if now > v["_expires"]]`
  pub stale : ℕ → Dict String (Entry V) → List String
  stale now [] = []
  stale now ((k, v) ∷ d) = if ltb v.expires now then k ∷ stale now d else stale now d

  pub pop_all : List String → Dict String (Entry V) → Dict String (Entry V)
  pop_all [] d = d
  pop_all (k ∷ ks) d = pop_all ks (erase k d)

  pub expire_all : ℕ → PendingOrderStore V → PendingOrderStore V
  unfolding stale pop_all
  expire_all now s = record s { orders = pop_all (stale now s.orders) s.orders }

  active_item : ℕ → Entry V → ActiveOrder V
  unfolding round_seconds
  active_item now v = record {
    token = v.token;
    action = lookup "action" v.fields;
    action_type = lookup "action_type" v.fields;
    underlying = lookup "underlying" v.fields;
    quantity = lookup "quantity" v.fields;
    confidence = lookup "_confidence" v.fields;
    low_confidence = lookup "_low_confidence" v.fields;
    is_exit = lookup "_is_exit" v.fields;
    confirm_step = v.confirm_step;
    transcript = lookup "_transcript" v.fields;
    expires_in_sec = round_seconds (v.expires - now);
    source_ip = lookup "_source_ip" v.fields;
  }

  pub list_active : ℕ → PendingOrderStore V → List (ActiveOrder V)
  unfolding active_item
  list_active now s = map (λ e. active_item now e.1) (keep (λ e. leb now e.1.expires) s.orders)

  pub count : PendingOrderStore V → ℕ
  count s = length s.orders

  pub is_duplicate : String → ℕ → PendingOrderStore V → Bool × PendingOrderStore V
  is_duplicate key now s =
      let last = or_default 0 (lookup key s.dedup) in
      if ltb (now - last) (voice_dedup_seconds * second)
      then (true, s)
      else (false, record s { dedup = insert key now s.dedup })

  -- The deque holds `history_maxlen` entries: a new one pushes the oldest out.
  pub add_history : HistoryEntry V → PendingOrderStore V → PendingOrderStore V
  add_history entry s = record s { history = take history_maxlen (entry ∷ s.history) }

  pub has_token : String → HistoryEntry V → Bool
  has_token token h = elim h.token [ none ↦ false | some t ↦ t == token ]

  pub decide_first : String → String → Option V → List (HistoryEntry V) → List (HistoryEntry V)
  unfolding has_token
  decide_first token decision result [] = []
  decide_first token decision result (h ∷ hs) =
      if has_token token h
      then (record h { decision = some decision; result = result }) ∷ hs
      else h ∷ decide_first token decision result hs

  pub update_history : String → String → Option V → PendingOrderStore V → PendingOrderStore V
  unfolding decide_first
  update_history token decision result s = record s {
    history = decide_first token decision result s.history;
  }

  without_token : HistoryEntry V → HistoryEntry V
  without_token h = record h { token = none }

  pub get_history : ℕ → PendingOrderStore V → List (HistoryEntry V)
  unfolding without_token
  get_history limit s = map without_token (take limit s.history)

  executed_on : String → HistoryEntry V → Bool
  executed_on today h =
      starts_with (or_default "" h.ts) today
      && (or_default "" h.decision == "approved_executed"
          || or_default "" h.decision == "approved_failed")

  pub count_today : String → PendingOrderStore V → ℕ
  unfolding executed_on
  count_today today s = length (keep (executed_on today) s.history)

  pub check_rate :
      String → (limit window_sec now : ℕ) → PendingOrderStore V → Bool × PendingOrderStore V
  unfolding prune
  check_rate token limit window_sec now s =
      let q = prune now (window_sec * second) (or_default [] (lookup token s.rate)) in
      if leb limit (length q)
      then (false, record s { rate = insert token q s.rate })
      else (true, record s { rate = insert token (q ++ now ∷ []) s.rate })
