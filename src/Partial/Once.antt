-- ===== src/Partial/Once.antt =====
-- A run of the job (app/partial_booking.py) books each position at most once.
use tv_zerodha_bot.Prelude.{
  ℕ, ◌≤◌, ◌≡◌, refl, sym, ◌∙◌, subst, ◌⊎◌, inl, inr, Bool, true, false, Option, none, some,
  or_default, List, [], ◌∷◌, ◌++◌, nat_eq, Bool-cases,
}
use tv_zerodha_bot.Prelude.Dict.{lookup, eq_self}
use tv_zerodha_bot.Numbers.{Numbers}
use tv_zerodha_bot.Orders.Broker.{Broker, Instrument}
use tv_zerodha_bot.Storage.{Position}
use tv_zerodha_bot.Paper.Monitor.{Database, Quotes}
use tv_zerodha_bot.Partial.Rows.{BookingSettings}
use tv_zerodha_bot.Partial.Booking.{Desk}
use tv_zerodha_bot.Partial.Job.{
  eligible_rows, visit_all, commit_positions, finish, partial_booking_job,
}
use tv_zerodha_bot.Partial.Single.{
  positions_of, instruments_of, find_position, IsBooked, IsFiled, or_default-id,
}
use tv_zerodha_bot.Partial.Loop.{IsLeft, apart_head, loop-Left}

module _ {n : Numbers} where
  find_position-before :
      (before after : List (Position n)) (p : Position n)
      → positions_of p.id before ≡ 0
      → find_position p.id (before ++ p ∷ after) ≡ some p
  find_position-before [] after p h = rw (eq_self p.id) refl
  find_position-before (x ∷ before) after p h =
      let (head, tail) = apart_head p.id x before h in
      rw head (find_position-before before after p tail)

  -- A position as the table has it after a run.
  abbrev pub IsConserved : Position n → List (Position n) → Type 0
  IsConserved p ps = (q : Position n) × (find_position p.id ps ≡ some q) × ((q ≡ p) ⊎ IsBooked p q)

  module _ {k : Broker n} where
    find_position-commit :
        (before after : List (Position n)) (p : Position n) (d : Desk k)
        → positions_of p.id before ≡ 0
        → IsFiled d.positions
        → find_position p.id (commit_positions true d (before ++ p ∷ after))
          ≡ some (or_default p (lookup p.id d.positions))
    unfolding commit_positions
    find_position-commit [] after p d h filed =
        rw (or_default-id d.positions p filed, eq_self p.id) refl
    find_position-commit (x ∷ before) after p d h filed =
        let (head, tail) = apart_head p.id x before h in
        rw (or_default-id d.positions x filed, head)
          (find_position-commit before after p d tail filed)

    committed :
        (before after : List (Position n)) (p : Position n) (b : Bool) (d : Desk k)
        → positions_of p.id before ≡ 0
        → IsFiled d.positions
        → IsLeft p (lookup p.id d.positions)
        → IsConserved p (commit_positions b d (before ++ p ∷ after))
    unfolding commit_positions
    committed before after p false d h filed left =
        (p, find_position-before before after p h, inl refl)
    committed before after p true d h filed (inl e) =
        (p, find_position-commit before after p d h filed ∙ rw e refl, inl refl)
    committed before after p true d h filed (inr (q, e, booked)) =
        (q, find_position-commit before after p d h filed ∙ rw e refl, inr booked)

    job_open :
        (settings : BookingSettings n) (is : List (Instrument n)) (quotes : Quotes n) (now : ℕ)
        (available : Bool) (db : Database n) (d : Desk k)
        → settings.partial_booking_enabled ≡ true
        → partial_booking_job settings is (some quotes) now available db d
          ≡ finish db (
              visit_all settings quotes now available
                (eligible_rows settings.paper_mode db is db.positions)
                (false, record d { positions = []; gtts = [] }))
    unfolding partial_booking_job
    job_open settings is quotes now available db d on = simp on

    job_shut :
        (settings : BookingSettings n) (is : List (Instrument n)) (quotes : Quotes n) (now : ℕ)
        (available : Bool) (db : Database n) (d : Desk k)
        → settings.partial_booking_enabled ≡ false
        → partial_booking_job settings is (some quotes) now available db d ≡ (db, d)
    unfolding partial_booking_job
    job_shut settings is quotes now available db d off = simp off

    -- If the id of a position is no other one's, and at most one instrument has its symbol and
    -- exchange, then after a run of the job the table has the position unchanged, or it was not
    -- booked before and has now been booked once, with the slice and the remainder both at least
    -- one unit and adding up to the quantity it had.
    pub partial_booking_job_lem :
        (settings : BookingSettings n) (is : List (Instrument n)) (quotes : Option (Quotes n))
        (now : ℕ) (available : Bool) (db : Database n) (d : Desk k)
        (before after : List (Position n)) (p : Position n)
        → db.positions ≡ before ++ p ∷ after
        → positions_of p.id before ≡ 0
        → positions_of p.id after ≡ 0
        → instruments_of p is ≤ 1
        → IsConserved p (partial_booking_job settings is quotes now available db d).0.positions
    unfolding finish
    partial_booking_job_lem settings is none now available db d before after p e h1 h2 fit =
        unfold partial_booking_job in rw e (p, find_position-before before after p h1, inl refl)
    partial_booking_job_lem settings is (some quotes) now available db d before after p e h1 h2
          fit =
        let fresh = record d { positions = []; gtts = [] } in
        let run : List (Position n) → Bool × Desk k = λ ps.
          visit_all settings quotes now available (eligible_rows settings.paper_mode db is ps)
            (false, fresh) in
        let whole = before ++ p ∷ after in
        elim (Bool-cases settings.partial_booking_enabled) [
          | inl on ↦
              let (filed, left) =
                loop-Left settings quotes now available settings.paper_mode db is before after p
                  false fresh h1 h2 fit (λ id q h. cc) refl in
              rw (job_open settings is quotes now available db d on) (
                subst (λ ps. IsConserved p (commit_positions (run ps).0 (run ps).1 ps)) (sym e)
                  (committed before after p (run whole).0 (run whole).1 h1 filed left))
          | inr off ↦
              rw (job_shut settings is quotes now available db d off, e)
                (p, find_position-before before after p h1, inl refl)
        ]
