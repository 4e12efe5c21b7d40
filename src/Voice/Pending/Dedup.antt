-- ===== src/Voice/Pending/Dedup.antt =====
-- Voice dedup (app/voice/pending.py, `is_duplicate`).
use tv_zerodha_bot.Prelude.{
  ℕ, ◌-◌, ◌*◌, String, ◌≡◌, true, false, none, arith, eq_iff, ltb, ◌==◌, string_eq, second,
}
use tv_zerodha_bot.Prelude.Dict.{lookup, insert, lookup-insert, eq_self}
use tv_zerodha_bot.Voice.Pending.{PendingOrderStore, voice_dedup_seconds, is_duplicate}

abbrev pub dedup_window : ℕ
dedup_window = voice_dedup_seconds * second

module _ {V : Type 0} (key : String) (first : ℕ) (s : PendingOrderStore V) where
  -- Once a key has been let through, a repeat is a duplicate exactly while less than ten seconds
  -- have passed since then, also when a call for another key stands between the two.
  pub is_duplicate_window :
      (other : String) (between now : ℕ)
      → (is_duplicate key first s).0 ≡ false
      → (key == other) ≡ false
      → let s' = (is_duplicate key first s).1 in
        let s'' = (is_duplicate other between s').1 in
        (is_duplicate key now s'').0 ≡ ltb (now - first) dedup_window
  unfolding is_duplicate
  is_duplicate_window other between now h ne = ground (
    arith,
    lookup-insert key key first s.dedup,
    eq_self key,
    eq_iff key other,
    eq_iff other key,
    lookup-insert other key between (insert key first s.dedup),
  )

  -- A key that was never seen is reported as a duplicate while the clock reads less than ten
  -- seconds, and only then: the missing time counts as 0.
  pub is_duplicate_unseen :
      lookup key s.dedup ≡ none → (is_duplicate key first s).0 ≡ ltb first dedup_window
  unfolding is_duplicate
  is_duplicate_unseen h = rw h (ground arith)

  -- A duplicate is not recorded: the window is counted from the call that was let through.
  pub is_duplicate_keeps : (is_duplicate key first s).0 ≡ true → (is_duplicate key first s).1 ≡ s
  unfolding is_duplicate
  is_duplicate_keeps h = ground arith
