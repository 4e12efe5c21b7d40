-- ===== src/Voice/Pending/Tests.antt =====
-- Runs of the pending-order store, and the theorems at inputs that meet their hypotheses.
use tv_zerodha_bot.Prelude.{
  ℕ, ◌*◌, ◌≤◌, String, ◌≡◌, refl, true, false, none, some, List, [], ◌∷◌, arith, string_eq, length,
  keep, second,
}
use tv_zerodha_bot.Voice.Pending.{
  Entry, HistoryEntry, PendingOrderStore, init, get, is_duplicate, check_rate,
}
use tv_zerodha_bot.Voice.Pending.Rate.{
  Tracks, admit, queue, check_rate_lem, served, within, served-le-limit,
}
use tv_zerodha_bot.Voice.Pending.Dedup.{is_duplicate_unseen}

abbrev Store : Type 0
Store = PendingOrderStore ℕ

-- Two pending orders, of which one has expired at 100 s; one decided history entry.
abbrev alive : Entry ℕ
alive = record { expires = 130 * second; token = "t1"; confirm_step = some 1; fields = [] }

abbrev stale_entry : Entry ℕ
stale_entry = record { expires = 90 * second; token = "t2"; confirm_step = none; fields = [] }

abbrev decision_of : String → HistoryEntry ℕ
decision_of token = record {
  token = some token;
  ts = some "2026-01-05";
  decision = none;
  result = none;
  fields = [];
}

abbrev demo : Store
demo = record {
  orders = ("t1", alive) ∷ ("t2", stale_entry) ∷ [];
  dedup = [];
  history = decision_of "t2" ∷ decision_of "t1" ∷ decision_of "t1" ∷ [];
  rate = [];
}

abbrev now : ℕ
now = 100 * second

get_expired : get "t2" now (λ s. s) demo ≡ (none, record demo { orders = ("t1", alive) ∷ [] })
unfolding get
get_expired = refl

-- The third call within the window is refused, and one of another token is not.
check_rate_run :
    let s1 = (check_rate "a" 2 60 (1 * second) (init {V = ℕ})).1 in
    let s2 = (check_rate "a" 2 60 (2 * second) s1).1 in
    let s3 = (check_rate "a" 2 60 (3 * second) s2).1 in
    ((check_rate "a" 2 60 (3 * second) s2).0 ≡ false)
    × ((check_rate "b" 2 60 (3 * second) s3).0 ≡ true)
    × ((check_rate "a" 2 60 (62 * second) s3).0 ≡ true)
unfolding check_rate
check_rate_run = (refl, refl, refl)

check_rate_lem_example :
    let (allowed, s') = check_rate "a" 2 60 now (init {V = ℕ}) in
    let (admitted, accepted') = admit 2 (60 * second) now [] in
    (allowed ≡ admitted) × Tracks (60 * second) now accepted' (queue "a" s') × (queue "b" s' ≡ [])
check_rate_lem_example =
    check_rate_lem "a" "b" 2 60 0 now [] init (record { ascends = omega arith; window_kept = refl })
      (omega arith)

abbrev calls : List (String × ℕ)
calls = ("a", 1 * second) ∷ ("b", 1 * second) ∷ ("a", 2 * second) ∷ ("a", 3 * second) ∷ []

served-le-limit_example :
    length (keep (within (5 * second) (60 * second)) (served "a" 2 60 calls (init {V = ℕ}))) ≤ 2
served-le-limit_example =
    served-le-limit ℕ "a" 2 60 calls (3 * second) (5 * second) (omega arith) (omega arith)

abbrev dedup_demo : Store
dedup_demo = (is_duplicate "k" now demo).1

is_duplicate_unseen_example : (is_duplicate "k" second demo).0 ≡ true
is_duplicate_unseen_example = is_duplicate_unseen "k" second demo refl

abbrev asked : String
asked = "t2"

abbrev other : String
other = "t1"
