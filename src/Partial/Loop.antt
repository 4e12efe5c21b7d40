-- ===== src/Partial/Loop.antt =====
-- The loop over the rows of all positions (app/partial_booking.py), seen from one of them.
use tv_zerodha_bot.Prelude.{
  ℕ, ◌≤◌, ◌≡◌, refl, sym, ap, ◌∙◌, subst, ◌⊎◌, inl, inr, Bool, false, Option, none, some, List, [],
  ◌∷◌, ◌++◌, ◌==◌, nat_eq, arith,
}
use tv_zerodha_bot.Prelude.Dict.{lookup, lookup-insert, eq_self}
use tv_zerodha_bot.Numbers.{Numbers}
use tv_zerodha_bot.Orders.Broker.{Broker, Instrument}
use tv_zerodha_bot.Storage.{Position}
use tv_zerodha_bot.Paper.Monitor.{Database, Quotes, find_order, find_gtt}
use tv_zerodha_bot.Partial.Rows.{BookingSettings, Row, booked_position}
use tv_zerodha_bot.Partial.Booking.{Desk}
use tv_zerodha_bot.Partial.Job.{rows_of, eligible_rows, live, visit, visit_all}
use tv_zerodha_bot.Partial.Single.{
  positions_of, instruments_of, Apart-append, IsBooked, IsFiled, Apart, IsSingle, joined_rows-Apart,
  joined_rows-Single,
}
use tv_zerodha_bot.Partial.Latch.{
  Effect, visit-Effect, Effect-IsFiled, visit_all-Kept, visit_all-append, booked_position-IsBooked,
}

module _ {n : Numbers} where
  rows_of-Apart :
      (id : ℕ) (paper : Bool) (db : Database n) (is : List (Instrument n)) (p : Position n)
      → (p.id == id) ≡ false
      → Apart id (rows_of paper db is p)
  unfolding rows_of
  rows_of-Apart id paper db is p h =
      joined_rows-Apart id paper db is p (find_order p.order_id db.orders)
        (find_gtt p.gtt_id db.gtts) h

  rows_of-Single :
      (paper : Bool) (db : Database n) (is : List (Instrument n)) (p : Position n)
      → instruments_of p is ≤ 1
      → IsSingle p (rows_of paper db is p)
  unfolding rows_of
  rows_of-Single paper db is p h =
      joined_rows-Single paper db is p (find_order p.order_id db.orders) (find_gtt p.gtt_id db.gtts)
        h

  -- An id that no position of the list has, except the first.
  pub apart_head :
      (id : ℕ) (p : Position n) (ps : List (Position n))
      → positions_of id (p ∷ ps) ≡ 0
      → ((p.id == id) ≡ false) × (positions_of id ps ≡ 0)
  apart_head id p ps h = ground (arith, h)

  eligible_rows-Apart :
      (id : ℕ) (paper : Bool) (db : Database n) (is : List (Instrument n)) (ps : List (Position n))
      → positions_of id ps ≡ 0
      → Apart id (eligible_rows paper db is ps)
  unfolding eligible_rows
  eligible_rows-Apart id paper db is [] h = tt
  eligible_rows-Apart id paper db is (p ∷ ps) h =
      let (head, tail) = apart_head id p ps h in
      Apart-append id (rows_of paper db is p) (eligible_rows paper db is ps)
        (rows_of-Apart id paper db is p head) (eligible_rows-Apart id paper db is ps tail)

  -- What the changed rows say of a position after a run.
  abbrev pub IsLeft : Position n → Option (Position n) → Type 0
  IsLeft p o = (o ≡ none) ⊎ (q : Position n) × (o ≡ some q) × IsBooked p q

  module _ {k : Broker n} (settings : BookingSettings n) (quotes : Quotes n) (now : ℕ)
      (available : Bool) where
    live-unchanged :
        (row : Row n) (p : Position n) (d : Desk k)
        → row.position ≡ p
        → lookup p.id d.positions ≡ none
        → (live d row).position ≡ p
    unfolding live
    live-unchanged row p d same h =
        let h' : lookup row.position.id d.positions ≡ none =
          subst (λ q. lookup q.id d.positions ≡ none) (sym same) h in
        rw h' same

    visit-Left :
        (row : Row n) (p : Position n) (d d' : Desk k)
        → Effect settings (live d row) now d d'
        → (live d row).position ≡ p
        → p.partial_booked_qty ≡ 0
        → lookup p.id d.positions ≡ none
        → IsLeft p (lookup p.id d'.positions)
    visit-Left row p d d' (inl e) same fresh h = inl (ap (lookup p.id) e ∙ h)
    visit-Left row p d d' (inr (band, e, some_slice)) same fresh h =
        let r = live d row in
        let q = booked_position settings r band now in
        let found : lookup r.position.id d'.positions ≡ some q =
          ap (lookup r.position.id) e
          ∙ (lookup-insert r.position.id r.position.id q d.positions
              ∙ rw (eq_self r.position.id) refl) in
        let fresh_r = subst (λ x. x.partial_booked_qty ≡ 0) (sym same) fresh in
        let booked = booked_position-IsBooked settings r band now fresh_r some_slice in
        inr (
          q,
          subst (λ x. lookup x.id d'.positions ≡ some q) same found,
          subst (λ x. IsBooked x q) same booked,
        )

    single-Left :
        (p : Position n) (rows : List (Row n)) (b : Bool) (d : Desk k)
        → IsSingle p rows
        → IsFiled d.positions
        → lookup p.id d.positions ≡ none
        → let d' = (visit_all settings quotes now available rows (b, d)).1 in
          IsFiled d'.positions × IsLeft p (lookup p.id d'.positions)
    unfolding visit_all
    single-Left p rows b d (inl e) filed h = rw e (filed, inl h)
    single-Left p rows b d (inr (row, e, same, fresh)) filed h =
        let d' = (visit settings quotes now available row d).1 in
        let effect = visit-Effect settings quotes now available row d in
        rw e (
          Effect-IsFiled settings (live d row) now d d' effect filed,
          visit-Left row p d d' effect (live-unchanged row p d same h) fresh h,
        )

    -- A loop over the rows of all positions, among them `p`.
    pub loop-Left :
        (paper : Bool) (db : Database n) (is : List (Instrument n))
        (before after : List (Position n)) (p : Position n) (b : Bool) (d : Desk k)
        → positions_of p.id before ≡ 0
        → positions_of p.id after ≡ 0
        → instruments_of p is ≤ 1
        → IsFiled d.positions
        → lookup p.id d.positions ≡ none
        → let d' =
            (visit_all settings quotes now available
              (eligible_rows paper db is (before ++ p ∷ after))
              (b, d)).1 in
          IsFiled d'.positions × IsLeft p (lookup p.id d'.positions)
    unfolding eligible_rows
    loop-Left paper db is [] after p b d alone_before alone_after fit filed h =
        let mine = rows_of paper db is p in
        let others = eligible_rows paper db is after in
        let run1 = visit_all settings quotes now available mine (b, d) in
        let (filed1, left1) = single-Left p mine b d (rows_of-Single paper db is p fit) filed h in
        let (filed2, kept) =
          visit_all-Kept settings quotes now p.id available others run1.0 run1.1 filed1
            (eligible_rows-Apart p.id paper db is after alone_after) in
        rw (visit_all-append settings quotes now available mine others b d)
          (filed2, subst (IsLeft p) (sym kept) left1)
    loop-Left paper db is (x ∷ before) after p b d alone_before alone_after fit filed h =
        let (head, tail) = apart_head p.id x before alone_before in
        let first = rows_of paper db is x in
        let run1 = visit_all settings quotes now available first (b, d) in
        let (filed1, kept) =
          visit_all-Kept settings quotes now p.id available first b d filed
            (rows_of-Apart p.id paper db is x head) in
        rw
          (visit_all-append settings quotes now available first
            (eligible_rows paper db is (before ++ p ∷ after)) b d)
          (loop-Left paper db is before after p run1.0 run1.1 tail alone_after fit filed1
            (kept ∙ h))
