-- ===== src/Partial/Latch.antt =====
-- What the visits of the loop (app/partial_booking.py) do to the changed rows.
use tv_zerodha_bot.Prelude.{
  ℕ, ◌≡◌, refl, ap, ◌∙◌, ◌≢◌, ◌⊎◌, inl, inr, Bool, true, false, ◌||◌, Option, none, some, List, [],
  ◌∷◌, ◌++◌, ◌==◌, nat_eq, arith, Bool-cases,
}
use tv_zerodha_bot.Prelude.Dict.{lookup, insert, lookup-insert}
use tv_zerodha_bot.Numbers.{Numbers}
use tv_zerodha_bot.Orders.Broker.{Broker, Process}
use tv_zerodha_bot.Paper.Monitor.{Quotes, quote}
use tv_zerodha_bot.Partial.Rows.{
  BookingSettings, Row, Band, band_of, bookable, slice_of, remaining_of, booked_position,
}
use tv_zerodha_bot.Partial.Booking.{Desk, requests, write, after_requests, book_partial}
use tv_zerodha_bot.Partial.Bounds.{slice-lt-quantity, bookable-slice}
use tv_zerodha_bot.Partial.Job.{triggered, live, visit_at, visit, visit_all}
use tv_zerodha_bot.Partial.Single.{IsBooked, IsFiled, insert-IsFiled, or_default-id, Apart}

module _ {n : Numbers} where
  pub booked_position-IsBooked :
      (settings : BookingSettings n) (row : Row n) (band : Band n) (now : ℕ)
      → row.position.partial_booked_qty ≡ 0
      → slice_of settings row ≢ 0
      → IsBooked row.position (booked_position settings row band now)
  unfolding booked_position remaining_of
  booked_position-IsBooked settings row band now fresh some_slice =
      let (lo, hi) = slice-lt-quantity settings row some_slice in
      (fresh, refl, omega (arith, hi), omega (arith, hi), lo)

  module _ {k : Broker n} where
    -- What the visit of a row does to the changed positions: nothing, or one booking.
    abbrev pub Effect : BookingSettings n → Row n → (now : ℕ) → Desk k → Desk k → Type 0
    Effect settings row now d d' =
        (d'.positions ≡ d.positions)
        ⊎ (band : Band n) × (d'.positions
            ≡ insert row.position.id (booked_position settings row band now) d.positions)
          × (slice_of settings row ≢ 0)

    after_requests-Effect :
        (settings : BookingSettings n) (row : Row n) (band : Band n) (now : ℕ) (available : Bool)
        (d : Desk k) (answer : Bool × Process n k)
        → slice_of settings row ≢ 0
        → Effect settings row now d (after_requests settings row band now available d answer).1
    unfolding after_requests write
    after_requests-Effect settings row band now available d (true, s) h = inr (band, refl, h)
    after_requests-Effect settings row band now available d (false, s) h = inl refl

    book_partial-Effect :
        (settings : BookingSettings n) (row : Row n) (ltp : n.Float) (now : ℕ) (available : Bool)
        (d : Desk k)
        → Effect settings row now d (book_partial settings row ltp now available d).1
    unfolding book_partial
    book_partial-Effect settings row ltp now available d =
        let band = band_of settings row ltp in
        elim (Bool-cases (bookable settings row band)) [
          | inl holds ↦ rw holds (
              after_requests-Effect settings row band now available d
                (requests settings row band d.process) (bookable-slice settings row band holds))
          | inr fails ↦ rw fails (inl refl)
        ]

    visit_at-Effect :
        (settings : BookingSettings n) (row : Row n) (now : ℕ) (available : Bool)
        (o : Option n.Float) (d : Desk k)
        → Effect settings row now d (visit_at settings row now available o d).1
    unfolding visit_at
    visit_at-Effect settings row now available none d = inl refl
    visit_at-Effect settings row now available (some ltp) d =
        elim (Bool-cases (triggered settings row ltp)) [
          | inl runs ↦ rw runs (book_partial-Effect settings row ltp now available d)
          | inr stays ↦ rw stays (inl refl)
        ]

    pub visit-Effect :
        (settings : BookingSettings n) (quotes : Quotes n) (now : ℕ) (available : Bool)
        (row : Row n) (d : Desk k)
        → Effect settings (live d row) now d (visit settings quotes now available row d).1
    unfolding visit
    visit-Effect settings quotes now available row d =
        visit_at-Effect settings (live d row) now available (quote quotes (live d row).position) d

    pub live-id :
        (d : Desk k) (row : Row n)
        → IsFiled d.positions
        → (live d row).position.id ≡ row.position.id
    unfolding live
    live-id d row filed = or_default-id d.positions row.position filed

    pub Effect-IsFiled :
        (settings : BookingSettings n) (row : Row n) (now : ℕ) (d d' : Desk k)
        → Effect settings row now d d'
        → IsFiled d.positions
        → IsFiled d'.positions
    unfolding booked_position
    Effect-IsFiled settings row now d d' (inl same) filed id p h = filed id p (rw same at h)
    Effect-IsFiled settings row now d d' (inr (band, e, some_slice)) filed id p h =
        insert-IsFiled (booked_position settings row band now) d.positions filed id p (rw e at h)

    Effect-other :
        (settings : BookingSettings n) (row : Row n) (now id : ℕ) (d d' : Desk k)
        → Effect settings row now d d'
        → (row.position.id == id) ≡ false
        → lookup id d'.positions ≡ lookup id d.positions
    Effect-other settings row now id d d' (inl same) h = ap (lookup id) same
    Effect-other settings row now id d d' (inr (band, e, some_slice)) h =
        ap (lookup id) e
        ∙ (lookup-insert row.position.id id (booked_position settings row band now) d.positions
            ∙ rw h refl)

    -- After some rounds the changed rows are filed, and those of an id stand as before.
    abbrev pub Kept : ℕ → Desk k → Desk k → Type 0
    Kept id d d' = IsFiled d'.positions × (lookup id d'.positions ≡ lookup id d.positions)

    pub visit_all-Kept :
        (settings : BookingSettings n) (quotes : Quotes n) (now id : ℕ) (available : Bool)
        (rows : List (Row n)) (b : Bool) (d : Desk k)
        → IsFiled d.positions
        → Apart id rows
        → Kept id d (visit_all settings quotes now available rows (b, d)).1
    unfolding visit_all
    visit_all-Kept settings quotes now id available [] b d filed apart = (filed, refl)
    visit_all-Kept settings quotes now id available (row ∷ rows) b d filed apart =
        let d1 = (visit settings quotes now available row d).1 in
        let effect = visit-Effect settings quotes now available row d in
        let filed1 = Effect-IsFiled settings (live d row) now d d1 effect filed in
        let other : ((live d row).position.id == id) ≡ false = rw (live-id d row filed) apart.0 in
        let rest =
          visit_all-Kept settings quotes now id available rows
            (b || (visit settings quotes now available row d).0) d1 filed1 apart.1 in
        (rest.0, rest.1 ∙ Effect-other settings (live d row) now id d d1 effect other)

    pub visit_all-append :
        (settings : BookingSettings n) (quotes : Quotes n) (now : ℕ) (available : Bool)
        (xs ys : List (Row n)) (b : Bool) (d : Desk k)
        → visit_all settings quotes now available (xs ++ ys) (b, d)
          ≡ visit_all settings quotes now available ys
              (visit_all settings quotes now available xs (b, d))
    unfolding visit_all
    visit_all-append settings quotes now available [] ys b d = refl
    visit_all-append settings quotes now available (x ∷ xs) ys b d =
        visit_all-append settings quotes now available xs ys
          (b || (visit settings quotes now available x d).0)
          (visit settings quotes now available x d).1
