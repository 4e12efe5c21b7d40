-- ===== src/Trailing/Manager.antt =====
-- The positions under a trailing stop (app/trailing.py, `TrailingSlManager`): registration and ticks.
use tv_zerodha_bot.Prelude.{
  ℕ, ◌+◌, String, ◌≡◌, refl, sym, subst, ap, ◌∙◌, inl, inr, Option-cases, Bool-cases, Bool, false,
  not, Option, none, some, List, [], ◌∷◌, ◌++◌, ◌==◌, nat_eq, string_eq, if◌then◌else◌,
}
use mathlib.Core.Option
use tv_zerodha_bot.Prelude.Dict.{Dict, lookup, insert, erase, lookup-insert}
use tv_zerodha_bot.Numbers.{Numbers}
use tv_zerodha_bot.Storage.{Position}
use tv_zerodha_bot.Trailing.Tick.{TrailPos, Update, evaluate}

abbrev pub has_gtt : ℕ → Option ℕ → Bool
has_gtt id none = false
has_gtt id (some j) = j == id

map_same : {A : Type 0} (o : Option A) → o ≡ Option.map (λ a. a) o
map_same none = refl
map_same (some a) = refl

module _ (n : Numbers) where
  open n use {Float}

  pub record Manager : Type 0 where
    pub positions : Dict ℕ (TrailPos n)
    -- The rows of the table of positions.
    pub rows : List (Position n)
    -- The identity of the next object.
    pub next_ref : ℕ

  -- An entry of a tick packet, with the clock reading that its evaluation makes.
  pub record TickData : Type 0 where
    pub instrument_token : Option ℕ
    pub last_price : Option Float
    pub now : ℕ

module _ {n : Numbers} where
  open n use {Float}

  -- `register` takes the fields of the new position; the clock reading is its first `last_update`.
  pub register : TrailPos n → (fill_price : Float) → (now : ℕ) → Manager n → Manager n
  register p fill_price now m =
      let fresh = record p {
        best_price = fill_price;
        worst_price = fill_price;
        last_update = now;
        excursions_dirty = false;
        ref = m.next_ref;
      } in
      record m {
        positions = insert p.instrument_token fresh m.positions;
        next_ref = m.next_ref + 1;
      }

  -- The first row of the GTT gets the extremes.
  unfoldable pub write_excursions : TrailPos n → List (Position n) → List (Position n)
  write_excursions p [] = []
  write_excursions p (row ∷ rows) =
      if has_gtt p.gtt_db_id row.gtt_id
      then (record row {
        max_favorable_price = some p.best_price;
        max_adverse_price = some p.worst_price;
      })
        ∷ rows
      else row ∷ write_excursions p rows

  -- `available` tells whether the database answers; a failure is swallowed.
  pub flush_excursions : (available : Bool) → TrailPos n → List (Position n) → List (Position n)
  unfolding write_excursions
  flush_excursions available p rows =
      if not p.excursions_dirty then rows else if available then write_excursions p rows else rows

  flush_popped : (available : Bool) → Option (TrailPos n) → List (Position n) → List (Position n)
  unfolding flush_excursions
  flush_popped available none rows = rows
  flush_popped available (some p) rows = flush_excursions available p rows

  unfoldable pub unregister : (available : Bool) (instrument_token : ℕ) → Manager n → Manager n
  unfolding flush_popped
  unregister available instrument_token m = record m {
    positions = erase instrument_token m.positions;
    rows = flush_popped available (lookup instrument_token m.positions) m.rows;
  }

  -- `next((t for t, p in self._positions.items() if p.tradingsymbol == tradingsymbol), None)`
  token_of : String → Dict ℕ (TrailPos n) → Option ℕ
  token_of symbol [] = none
  token_of symbol ((t, p) ∷ ps) = if p.tradingsymbol == symbol then some t else token_of symbol ps

  pub unregister_by_symbol : (available : Bool) (tradingsymbol : String) → Manager n → Manager n
  unfolding token_of
  unregister_by_symbol available tradingsymbol m = elim (token_of tradingsymbol m.positions) [
    | none ↦ m
    | some t ↦ unregister available t m
  ]

  -- The position of the token, as a tick leaves it, with the update that the tick starts.
  pub evaluate_found :
      (token now : ℕ) (ltp : Float)
      → Option (TrailPos n)
      → Manager n
      → Manager n × List (ℕ × Update n)
  evaluate_found token now ltp none m = (m, [])
  evaluate_found token now ltp (some p) m =
      let (p', u) = evaluate now ltp p in
      (
        record m { positions = insert token p' m.positions },
        elim u [ none ↦ [] | some v ↦ (token, v) ∷ [] ],
      )

  pub on_tick : TickData n → Manager n → Manager n × List (ℕ × Update n)
  unfolding evaluate_found
  on_tick tick m = elim tick.instrument_token [
    | none ↦ (m, [])
    | some token ↦ elim tick.last_price [
      | none ↦ (m, [])
      | some ltp ↦ evaluate_found token tick.now ltp (lookup token m.positions) m
    ]
  ]

  -- The updates are those that `_do_update` threads are started for.
  pub on_ticks : List (TickData n) → Manager n → Manager n × List (ℕ × Update n)
  on_ticks [] m = (m, [])
  on_ticks (tick ∷ ticks) m =
      let (m1, us) = on_tick tick m in let (m2, vs) = on_ticks ticks m1 in (m2, us ++ vs)

  -- What one tick says of a token, with its time.
  pub tick_of : ℕ → TickData n → List (ℕ × Float)
  tick_of token tick = elim tick.instrument_token [
    | none ↦ []
    | some t ↦ elim tick.last_price [
      | none ↦ []
      | some ltp ↦ if t == token then (tick.now, ltp) ∷ [] else []
    ]
  ]

  pub ticks_of : ℕ → List (TickData n) → List (ℕ × Float)
  ticks_of token [] = []
  ticks_of token (tick ∷ ticks) = tick_of token tick ++ ticks_of token ticks

  -- A position after a run of ticks.
  pub after_ticks : List (ℕ × Float) → TrailPos n → TrailPos n
  after_ticks [] p = p
  after_ticks ((now, ltp) ∷ ticks) p = after_ticks ticks (evaluate now ltp p).0

  lookup-evaluate_found :
      (token k now : ℕ) (ltp : Float) (o : Option (TrailPos n)) (m : Manager n)
      → lookup k m.positions ≡ o
      → lookup token (evaluate_found k now ltp o m).0.positions
        ≡ Option.map
            (after_ticks (if k == token then (now, ltp) ∷ [] else []))
            (lookup token m.positions)
  unfolding evaluate_found after_ticks
  lookup-evaluate_found token k now ltp none m e = elim (Bool-cases (k == token)) [
    | inl same ↦
        let found = subst (λ t. lookup t m.positions ≡ none) ((nat_eq.same_iff k token).0 same) e in
        rw found
    | inr other ↦ rw other (map_same (lookup token m.positions))
  ]
  lookup-evaluate_found token k now ltp (some p) m e = elim (Bool-cases (k == token)) [
    | inl same ↦
        let found =
          subst (λ t. lookup t m.positions ≡ some p) ((nat_eq.same_iff k token).0 same) e in
        rw (lookup-insert k token (evaluate now ltp p).0 m.positions, same, found)
    | inr other ↦
        rw (lookup-insert k token (evaluate now ltp p).0 m.positions, other)
          (map_same (lookup token m.positions))
  ]

  lookup-on_tick :
      (token : ℕ) (tick : TickData n) (m : Manager n)
      → lookup token (on_tick tick m).0.positions
        ≡ Option.map (after_ticks (tick_of token tick)) (lookup token m.positions)
  unfolding on_tick tick_of after_ticks
  lookup-on_tick token tick m = elim (Option-cases tick.instrument_token) [
    | inl none_t ↦ rw none_t (map_same (lookup token m.positions))
    | inr (k, some_t) ↦ elim (Option-cases tick.last_price) [
      | inl none_p ↦ rw (some_t, none_p) (map_same (lookup token m.positions))
      | inr (ltp, some_p) ↦
          rw (some_t, some_p)
            (lookup-evaluate_found token k tick.now ltp (lookup k m.positions) m refl)
    ]
  ]

  after_ticks-append :
      (xs ys : List (ℕ × Float)) (p : TrailPos n)
      → after_ticks (xs ++ ys) p ≡ after_ticks ys (after_ticks xs p)
  unfolding after_ticks
  after_ticks-append [] ys p = refl
  after_ticks-append ((now, ltp) ∷ xs) ys p = after_ticks-append xs ys (evaluate now ltp p).0

  map-after_ticks-append :
      (xs ys : List (ℕ × Float)) (o : Option (TrailPos n))
      → Option.map (after_ticks (xs ++ ys)) o
        ≡ Option.map (after_ticks ys) (Option.map (after_ticks xs) o)
  map-after_ticks-append xs ys none = refl
  map-after_ticks-append xs ys (some p) = ap some (after_ticks-append xs ys p)

  -- A packet of ticks leaves each position as its own ticks do, in their order: the ticks of other
  -- tokens, and those without a token or a price, do not touch it, and no token is added or lost.
  pub lookup-on_ticks :
      (token : ℕ) (ticks : List (TickData n)) (m : Manager n)
      → lookup token (on_ticks ticks m).0.positions
        ≡ Option.map (after_ticks (ticks_of token ticks)) (lookup token m.positions)
  unfolding on_ticks ticks_of
  lookup-on_ticks token [] m = unfold after_ticks in map_same (lookup token m.positions)
  lookup-on_ticks token (tick ∷ ticks) m =
      lookup-on_ticks token ticks (on_tick tick m).0
      ∙ (ap (Option.map (after_ticks (ticks_of token ticks))) (lookup-on_tick token tick m)
          ∙ sym (
              map-after_ticks-append (tick_of token tick) (ticks_of token ticks)
                (lookup token m.positions)))
