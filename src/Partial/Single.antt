-- ===== src/Partial/Single.antt =====
-- The rows of the query `_eligible_rows` (app/partial_booking.py): a position has at most one.
use tv_zerodha_bot.Prelude.{
  All, ℕ, ◌+◌, ◌≤◌, ◌<◌, ◌≡◌, refl, sym, ap, ◌∙◌, ◌⊎◌, inl, inr, Bool, true, false, not, ◌&&◌,
  Option, none, some, or_default, List, [], ◌∷◌, ◌++◌, ◌==◌, nat_eq, string_eq, if◌then◌else◌,
  arith, Bool-cases, Option-cases,
}
use tv_zerodha_bot.Prelude.Dict.{Dict, lookup, insert, lookup-insert}
use tv_zerodha_bot.Numbers.{Numbers}
use tv_zerodha_bot.Orders.Broker.{Instrument}
use tv_zerodha_bot.Storage.{Order, Gtt, Position}
use tv_zerodha_bot.Paper.Monitor.{Database, is_closed}
use tv_zerodha_bot.Partial.Rows.{Row}
use tv_zerodha_bot.Partial.Job.{eligible, instrument_rows, joined_rows}

module _ {n : Numbers} where
  -- How many positions have an id, how many rows are of it, and how many instruments fit a position.
  abbrev pub positions_of : ℕ → List (Position n) → ℕ
  positions_of id [] = 0
  positions_of id (p ∷ ps) = let rest = positions_of id ps in if p.id == id then 1 + rest else rest

  abbrev pub fits : Position n → Instrument n → Bool
  fits p i = i.tradingsymbol == p.tradingsymbol && i.exchange == p.exchange

  abbrev pub instruments_of : Position n → List (Instrument n) → ℕ
  instruments_of p [] = 0
  instruments_of p (i ∷ is) = let rest = instruments_of p is in if fits p i then 1 + rest else rest

  abbrev pub find_position : ℕ → List (Position n) → Option (Position n)
  find_position id [] = none
  find_position id (p ∷ ps) = if p.id == id then some p else find_position id ps

  -- A position and what a run leaves of it: the same, or booked for the first time.
  abbrev pub IsBooked : Position n → Position n → Type 0
  IsBooked p q =
      (p.partial_booked_qty ≡ 0)
      × (q.id ≡ p.id)
      × (q.quantity + q.partial_booked_qty ≡ p.quantity)
      × (0 < q.quantity)
      × (0 < q.partial_booked_qty)

  -- The changed rows are filed under their ids.
  abbrev pub IsFiled : Dict ℕ (Position n) → Type 0
  IsFiled d = (id : ℕ) (p : Position n) → lookup id d ≡ some p → p.id ≡ id

  pub insert-IsFiled :
      (p : Position n) (d : Dict ℕ (Position n)) → IsFiled d → IsFiled (insert p.id p d)
  insert-IsFiled p d filed id q h =
      let h' = sym (lookup-insert p.id id p d) ∙ h in
      elim (Bool-cases (p.id == id)) [
        | inl same ↦
            let e : some p ≡ some q = rw same at h' in
            let pq : p ≡ q = cc in ap (λ x. x.id) (sym pq) ∙ (nat_eq.same_iff p.id id).0 same
        | inr other ↦ filed id q (rw other at h')
      ]

  pub or_default-id :
      (d : Dict ℕ (Position n)) (p : Position n)
      → IsFiled d
      → (or_default p (lookup p.id d)).id ≡ p.id
  or_default-id d p filed = elim (Option-cases (lookup p.id d)) [
    | inl nothing ↦ rw nothing refl
    | inr (q, found) ↦ rw found (filed p.id q found)
  ]

  -- The rows of other positions.
  abbrev pub Apart : ℕ → List (Row n) → Type 0
  Apart id = All (λ r. (r.position.id == id) ≡ false)

  pub Apart-append :
      (id : ℕ) (xs ys : List (Row n)) → Apart id xs → Apart id ys → Apart id (xs ++ ys)
  Apart-append id [] ys a b = b
  Apart-append id (x ∷ xs) ys a b = (a.0, Apart-append id xs ys a.1 b)

  instrument_rows-Apart :
      (id : ℕ) (p : Position n) (o : Order n) (g : Gtt n) (is : List (Instrument n))
      → (p.id == id) ≡ false
      → Apart id (instrument_rows p o g is)
  unfolding instrument_rows
  instrument_rows-Apart id p o g [] h = tt
  instrument_rows-Apart id p o g (i ∷ is) h = elim (Bool-cases (fits p i)) [
    | inl fit ↦ rw fit (h, instrument_rows-Apart id p o g is h)
    | inr unfit ↦ rw unfit (instrument_rows-Apart id p o g is h)
  ]

  pub joined_rows-Apart :
      (id : ℕ) (paper : Bool) (db : Database n) (is : List (Instrument n)) (p : Position n)
      (o : Option (Order n)) (g : Option (Gtt n))
      → (p.id == id) ≡ false
      → Apart id (joined_rows paper db is p o g)
  unfolding joined_rows
  joined_rows-Apart id paper db is p none g h = tt
  joined_rows-Apart id paper db is p (some o) none h = tt
  joined_rows-Apart id paper db is p (some o) (some g) h =
      elim (Bool-cases (not (is_closed p.id db.closed_trades) && eligible paper p o g)) [
        | inl taken ↦ rw taken (instrument_rows-Apart id p o g is h)
        | inr left ↦ rw left tt
      ]

  -- What the rows of one position are: none or one.
  abbrev pub IsSingle : Position n → List (Row n) → Type 0
  IsSingle p rows =
      (rows ≡ [])
      ⊎ (row : Row n) × (rows ≡ row ∷ []) × (row.position ≡ p) × (p.partial_booked_qty ≡ 0)

  instrument_rows-none :
      (p : Position n) (o : Order n) (g : Gtt n) (is : List (Instrument n))
      → instruments_of p is ≡ 0
      → instrument_rows p o g is ≡ []
  unfolding instrument_rows
  instrument_rows-none p o g [] h = refl
  instrument_rows-none p o g (i ∷ is) h = elim (Bool-cases (fits p i)) [
    | inl fit ↦ let h' = rw fit at h in absurd (omega (arith, h'))
    | inr unfit ↦ let h' = rw unfit at h in rw unfit (instrument_rows-none p o g is h')
  ]

  instrument_rows-Single :
      (p : Position n) (o : Order n) (g : Gtt n) (is : List (Instrument n))
      → p.partial_booked_qty ≡ 0
      → instruments_of p is ≤ 1
      → IsSingle p (instrument_rows p o g is)
  unfolding instrument_rows
  instrument_rows-Single p o g [] fresh h = inl refl
  instrument_rows-Single p o g (i ∷ is) fresh h = elim (Bool-cases (fits p i)) [
    | inl fit ↦
        let h' = rw fit at h in
        let rest = instrument_rows-none p o g is (omega (arith, h')) in
        rw (fit, rest) (inr (_, refl, refl, fresh))
    | inr unfit ↦ let h' = rw unfit at h in rw unfit (instrument_rows-Single p o g is fresh h')
  ]

  eligible-fresh :
      (paper : Bool) (p : Position n) (o : Order n) (g : Gtt n) (b : Bool)
      → (b && eligible paper p o g) ≡ true
      → p.partial_booked_qty ≡ 0
  unfolding eligible
  eligible-fresh paper p o g b h = ground (arith, h)

  pub joined_rows-Single :
      (paper : Bool) (db : Database n) (is : List (Instrument n)) (p : Position n)
      (o : Option (Order n)) (g : Option (Gtt n))
      → instruments_of p is ≤ 1
      → IsSingle p (joined_rows paper db is p o g)
  unfolding joined_rows
  joined_rows-Single paper db is p none g h = inl refl
  joined_rows-Single paper db is p (some o) none h = inl refl
  joined_rows-Single paper db is p (some o) (some g) h =
      elim (Bool-cases (not (is_closed p.id db.closed_trades) && eligible paper p o g)) [
        | inl taken ↦
            let fresh = eligible-fresh paper p o g (not (is_closed p.id db.closed_trades)) taken in
            rw taken (instrument_rows-Single p o g is fresh h)
        | inr left ↦ rw left (inl refl)
      ]
