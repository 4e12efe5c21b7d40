-- ===== src/Partial/Bounds.antt =====
-- The size of a slice (app/partial_booking.py), and what the order layer makes of it.
use tv_zerodha_bot.Prelude.{
  ℕ, zero, suc, ◌*◌, ◌/◌, ◌⊎◌, ◌%◌, ◌≤◌, ◌<◌, ◌≡◌, refl, ◌≢◌, Bool, true, false, Option, none, some,
  ◌==◌, nat_eq, arith, Bool-cases, inl, inr,
}
use native.Mathlib.Omega.{div_any}
use tv_zerodha_bot.Numbers.{Numbers}
use tv_zerodha_bot.Orders.Broker.{Broker, Process, Result, ok, err}
use tv_zerodha_bot.Orders.Entry.{place_entry, bad_quantity}
use tv_zerodha_bot.Partial.Slice.{qty_to_book}
use tv_zerodha_bot.Partial.Rows.{BookingSettings, Row, Band, band_of, slice_of, bookable}
use tv_zerodha_bot.Partial.Booking.{
  Desk, resize_gtt, reducing_order, after_order, reduce, after_resize, send, requests,
  after_requests, book_partial,
}

no_multiple : (a b q : ℕ) → b * q ≡ a → 0 < a → a < b → ⊥
no_multiple a b zero e = omega arith
no_multiple a b (suc q) e = omega arith

-- No number between 0 and the lot size is a whole number of lots.
split_lot : (a b : ℕ) → 0 < a → a < b → a % b ≢ 0
split_lot a b lo hi e = no_multiple a b (a / b) (omega (arith, div_any a b)) lo hi

module _ (n : Numbers) where
  -- A position of less than two units is not split; of any other one, the slice and the remainder
  -- are at least one unit, whatever the share is.
  pub qty_to_book_lem :
      (open_qty : ℕ) (pct : n.Float)
      → let slice = qty_to_book n open_qty pct in
        (slice ≡ 0) × (open_qty < 2) ⊎ (1 ≤ slice) × (slice < open_qty)
  unfolding qty_to_book
  qty_to_book_lem open_qty pct = ground arith

module _ {n : Numbers} where
  pub slice-lt-quantity :
      (settings : BookingSettings n) (row : Row n)
      → slice_of settings row ≢ 0
      → (0 < slice_of settings row) × (slice_of settings row < row.position.quantity)
  unfolding slice_of
  slice-lt-quantity settings row h =
      ground (arith, qty_to_book_lem n row.position.quantity settings.partial_book_qty_pct)

  pub bookable-slice :
      (settings : BookingSettings n) (row : Row n) (band : Band n)
      → bookable settings row band ≡ true
      → slice_of settings row ≢ 0
  unfolding bookable
  bookable-slice settings row band h = ground (arith, h)

module _ {n : Numbers} {k : Broker n} where
  open n use {Float}

  -- The order layer refuses the order for a part of a lot, and sends nothing.
  reducing_order_refused :
      (settings : BookingSettings n) (row : Row n) (s : Process n k)
      → slice_of settings row ≢ 0
      → row.position.quantity ≤ row.instrument.lot_size
      → reducing_order settings row s ≡ (err bad_quantity, s)
  unfolding reducing_order place_entry
  reducing_order_refused settings row s some_slice one_lot =
      let (lo, hi) = slice-lt-quantity settings row some_slice in
      let lot =
        split_lot (slice_of settings row) row.instrument.lot_size lo (omega (arith, hi, one_lot)) in
      let positive : row.instrument.lot_size ≢ 0 = omega (arith, lo, hi, one_lot) in
      let zero_test : (row.instrument.lot_size == 0) ≡ false = ground (arith, positive) in
      let lot_test : (slice_of settings row % row.instrument.lot_size == 0) ≡ false =
        ground (arith, lot) in
      rw (zero_test, lot_test) refl

  reduce_refused :
      (settings : BookingSettings n) (row : Row n) (band : Band n) (resized : Option ℕ)
      (s : Process n k)
      → slice_of settings row ≢ 0
      → row.position.quantity ≤ row.instrument.lot_size
      → (reduce settings row band resized s).0 ≡ false
  unfolding reduce after_order
  reduce_refused settings row band none s some_slice one_lot =
      rw (reducing_order_refused settings row s some_slice one_lot) refl
  reduce_refused settings row band (some id) s some_slice one_lot =
      rw (reducing_order_refused settings row s some_slice one_lot) refl

  after_resize_refused :
      (settings : BookingSettings n) (row : Row n) (band : Band n) (id : ℕ)
      (answer : Result (Option ℕ) × Process n k)
      → slice_of settings row ≢ 0
      → row.position.quantity ≤ row.instrument.lot_size
      → (after_resize settings row band id answer).0 ≡ false
  unfolding after_resize
  after_resize_refused settings row band id (ok a, s) some_slice one_lot =
      reduce_refused settings row band (some id) s some_slice one_lot
  after_resize_refused settings row band id (err e, s) some_slice one_lot = refl

  send_refused :
      (settings : BookingSettings n) (row : Row n) (band : Band n) (o : Option ℕ) (s : Process n k)
      → slice_of settings row ≢ 0
      → row.position.quantity ≤ row.instrument.lot_size
      → (send settings row band o s).0 ≡ false
  unfolding send
  send_refused settings row band none s some_slice one_lot =
      reduce_refused settings row band none s some_slice one_lot
  send_refused settings row band (some id) s some_slice one_lot =
      after_resize_refused settings row band id (resize_gtt settings row band id s) some_slice
        one_lot

  -- Requests that fail change no row.
  abbrev pub IsUnbooked : Desk k → Bool × Desk k → Type 0
  IsUnbooked d (booked, d') =
      (booked ≡ false)
      × (d'.positions ≡ d.positions)
      × (d'.gtts ≡ d.gtts)
      × (d'.manager ≡ d.manager)

  pub after_requests_failed :
      (settings : BookingSettings n) (row : Row n) (band : Band n) (now : ℕ) (available : Bool)
      (d : Desk k) (answer : Bool × Process n k)
      → answer.0 ≡ false
      → IsUnbooked d (after_requests settings row band now available d answer)
  unfolding after_requests
  after_requests_failed settings row band now available d (true, s) h = ground (arith, h)
  after_requests_failed settings row band now available d (false, s) h = (refl, refl, refl, refl)

  pub requests_live :
      (settings : BookingSettings n) (row : Row n) (band : Band n) (s : Process n k)
      → settings.paper_mode ≡ false
      → requests settings row band s ≡ send settings row band row.gtt.kite_gtt_id s
  unfolding requests
  requests_live settings row band s is_live = simp is_live

  -- A live position of at most one lot of its instrument is never booked, whatever the broker
  -- answers: the rows and the trailing manager stay as they are.
  pub one_lot_never_booked :
      (settings : BookingSettings n) (row : Row n) (ltp : Float) (now : ℕ) (available : Bool)
      (d : Desk k)
      → settings.paper_mode ≡ false
      → row.position.quantity ≤ row.instrument.lot_size
      → IsUnbooked d (book_partial settings row ltp now available d)
  unfolding book_partial
  one_lot_never_booked settings row ltp now available d is_live one_lot =
      let band = band_of settings row ltp in
      elim (Bool-cases (bookable settings row band)) [
        | inl holds ↦
            let refused : (requests settings row band d.process).0 ≡ false =
              rw (requests_live settings row band d.process is_live) (
                send_refused settings row band row.gtt.kite_gtt_id d.process
                  (bookable-slice settings row band holds) one_lot) in
            rw holds (
              after_requests_failed settings row band now available d
                (requests settings row band d.process) refused)
        | inr fails ↦ rw fails (refl, refl, refl, refl)
      ]
