-- ===== src/Partial/Ordering.antt =====
-- The order of the requests of a live booking (app/partial_booking.py).
use tv_zerodha_bot.Prelude.{
  ◌-◌, none, nat_eq, ℕ, ◌+◌, ◌<◌, String, ◌≡◌, refl, sym, subst, Bool, true, false, Option, some,
  arith, if◌then◌else◌,
}
use tv_zerodha_bot.Prelude.Dict.{insert}
use tv_zerodha_bot.Numbers.{Numbers}
use tv_zerodha_bot.Orders.Broker.{opposite, Action, Broker, Process, Result, Exception, ok, err}
use tv_zerodha_bot.Orders.Entry.{place_entry}
use tv_zerodha_bot.Orders.Gtt.{modify_gtt}
use tv_zerodha_bot.Partial.Rows.{
  BookingSettings, Row, Band, side_of, band_of, slice_of, remaining_of, bookable, booked_position,
  booked_gtt,
}
use tv_zerodha_bot.Partial.Booking.{
  Desk, resize_gtt, reducing_order, restore_gtt, after_order, reduce, after_resize, send, requests,
  write, after_requests, book_partial,
}
use tv_zerodha_bot.Partial.Bounds.{slice-lt-quantity, bookable-slice, requests_live}

module _ {n : Numbers} {k : Broker n} where
  open n use {Float}

  -- The three runs of a live booking of a position with a GTT, from one state to another, with what
  -- each ends in: the GTT cannot be resized; or it is, and the order is answered; or it is, the order
  -- fails, and the full size is asked for. The three requests are given.
  pub data Sent (resize : Action n k (Option ℕ)) (order : Action n k (Option String))
      (restore : Action n k (Option ℕ)) : Process n k → Bool → Process n k → Type 0 where
    not_resized :
        {s s1 : Process n k} (exc : Exception)
        → resize s ≡ (err exc, s1)
        → Sent resize order restore s false s1
    booked :
        {s s1 s2 : Process n k} (answer : Option ℕ) (order_id : Option String)
        → resize s ≡ (ok answer, s1)
        → order s1 ≡ (ok order_id, s2)
        → Sent resize order restore s true s2
    restored :
        {s s1 s2 s3 : Process n k} (answer : Option ℕ) (exc : Exception) (last : Result (Option ℕ))
        → resize s ≡ (ok answer, s1)
        → order s1 ≡ (err exc, s2)
        → restore s2 ≡ (last, s3)
        → Sent resize order restore s false s3

  -- A run with the requests of a row: the GTT keeps its target and gets the stop of the band for
  -- the quantity less the slice; the order is one at the market for the slice, against the
  -- position; and the last request has the levels and the quantity from before.
  abbrev pub Run :
      BookingSettings n → Row n → Band n → (gtt_id : ℕ) → Process n k → Bool → Process n k → Type 0
  Run settings row band gtt_id =
      let slice = slice_of settings row in
      let side = side_of row in
      let quantity = row.position.quantity in
      let product = row.order.product in
      Sent
        (modify_gtt gtt_id band.new_sl band.sl_limit row.gtt.target_trigger band.tgt_limit band.ltp
          row.instrument (quantity - slice) product side)
        (place_entry row.instrument (opposite side) slice "MARKET" product none none "regular")
        (modify_gtt gtt_id row.gtt.sl_trigger row.gtt.sl_order_price row.gtt.target_trigger
          row.gtt.target_order_price band.ltp row.instrument quantity product side)

  reduce-Sent :
      (settings : BookingSettings n) (row : Row n) (band : Band n) (gtt_id : ℕ) (answer : Option ℕ)
      (s s1 : Process n k) (o : Result (Option String) × Process n k)
      → resize_gtt settings row band gtt_id s ≡ (ok answer, s1)
      → reducing_order settings row s1 ≡ o
      → let (b, t) = after_order row band.ltp (some gtt_id) o in Run settings row band gtt_id s b t
  unfolding after_order resize_gtt reducing_order restore_gtt remaining_of
  reduce-Sent settings row band gtt_id answer s s1 (ok order_id, s2) resized ordered =
      Sent.booked answer order_id resized ordered
  reduce-Sent settings row band gtt_id answer s s1 (err exc, s2) resized ordered =
      let (last, s3) = restore_gtt row band.ltp gtt_id s2 in
      Sent.restored answer exc last resized ordered refl

  after_resize-Sent :
      (settings : BookingSettings n) (row : Row n) (band : Band n) (gtt_id : ℕ) (s : Process n k)
      (r : Result (Option ℕ) × Process n k)
      → resize_gtt settings row band gtt_id s ≡ r
      → let (b, t) = after_resize settings row band gtt_id r in Run settings row band gtt_id s b t
  unfolding after_resize reduce resize_gtt remaining_of
  after_resize-Sent settings row band gtt_id s (err exc, s1) resized = Sent.not_resized exc resized
  after_resize-Sent settings row band gtt_id s (ok answer, s1) resized =
      reduce-Sent settings row band gtt_id answer s s1 (reducing_order settings row s1) resized refl

  send-Sent :
      (settings : BookingSettings n) (row : Row n) (band : Band n) (gtt_id : ℕ) (s : Process n k)
      → let (b, t) = send settings row band (some gtt_id) s in Run settings row band gtt_id s b t
  unfolding send
  send-Sent settings row band gtt_id s =
      after_resize-Sent settings row band gtt_id s (resize_gtt settings row band gtt_id s) refl

  -- The outcome of a booking, by whether the requests were answered.
  abbrev pub Outcome :
      BookingSettings n → Row n → Band n → (now : ℕ) → Desk k → Bool × Desk k → Type 0
  Outcome settings row band now d (done, d') =
      (d'.positions ≡ (
        if done
        then insert row.position.id (booked_position settings row band now) d.positions
        else d.positions))
      × (d'.gtts ≡ (if done then insert row.gtt.id (booked_gtt row band now) d.gtts else d.gtts))

  after_requests_lem :
      (settings : BookingSettings n) (row : Row n) (band : Band n) (now : ℕ) (available : Bool)
      (d : Desk k) (gtt_id : ℕ) (answer : Bool × Process n k)
      → Run settings row band gtt_id d.process answer.0 answer.1
      → let (b, d') = after_requests settings row band now available d answer in
        Run settings row band gtt_id d.process b d'.process
        × Outcome settings row band now d (b, d')
  unfolding after_requests write
  after_requests_lem settings row band now available d gtt_id (true, s) sent = (sent, (refl, refl))
  after_requests_lem settings row band now available d gtt_id (false, s) sent = (sent, (refl, refl))

  -- A live booking of a position with a GTT whose band holds the price makes one of three runs: the
  -- GTT cannot be resized; or it is resized to the quantity less the slice, and only then an order
  -- at the market for the slice, against the position, is sent and answered; or the order fails
  -- after it, and the GTT is asked for again with the levels and the quantity from before. The rows
  -- are written exactly in the second case, and slice and remainder are positive and add up to the
  -- quantity.
  pub book_partial-Sent :
      (settings : BookingSettings n) (row : Row n) (ltp : Float) (now : ℕ) (available : Bool)
      (gtt_id : ℕ) (d : Desk k)
      → settings.paper_mode ≡ false
      → row.gtt.kite_gtt_id ≡ some gtt_id
      → bookable settings row (band_of settings row ltp) ≡ true
      → let (b, d') = book_partial settings row ltp now available d in
        let band = band_of settings row ltp in
        Run settings row band gtt_id d.process b d'.process
        × Outcome settings row band now d (b, d')
        × (remaining_of settings row + slice_of settings row ≡ row.position.quantity)
        × (0 < slice_of settings row)
        × (0 < remaining_of settings row)
  unfolding book_partial
  book_partial-Sent settings row ltp now available gtt_id d is_live has_gtt holds =
      let band = band_of settings row ltp in
      let s = d.process in
      let sent : Run settings row band gtt_id s (requests settings row band s).0
          (requests settings row band s).1 =
        rw (requests_live settings row band s is_live) (
          subst
            (λ o.
              Run settings row band gtt_id s (send settings row band o s).0
                (send settings row band o s).1)
            (sym has_gtt) (send-Sent settings row band gtt_id s)) in
      let outcome =
        after_requests_lem settings row band now available d gtt_id (requests settings row band s)
          sent in
      let (lo, hi) = slice-lt-quantity settings row (bookable-slice settings row band holds) in
      let left : remaining_of settings row + slice_of settings row ≡ row.position.quantity =
        unfold remaining_of in omega (arith, hi) in
      rw holds (outcome.0, outcome.1, left, lo, omega (arith, left, hi))
