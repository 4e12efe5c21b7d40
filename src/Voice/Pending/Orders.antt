-- ===== src/Voice/Pending/Orders.antt =====
-- Pending orders (app/voice/pending.py): what `get`, `pop`, `advance_confirm_step` and `expire_all`
-- do to the entry of each token.
use mathlib.Core.Option
use tv_zerodha_bot.Prelude.{
  or_default, ℕ, ◌+◌, String, ◌≡◌, refl, Bool, true, false, Option, none, some, List, [], ◌∷◌,
  arith, eq_iff, ltb, ◌==◌, string_eq, if◌then◌else◌, inl, inr, Option-cases,
}
use tv_zerodha_bot.Prelude.Dict.{
  Dict, lookup, erase, IsUnique, eq_self, lookup-insert, lookup-erase, erase-IsUnique,
}
use tv_zerodha_bot.Voice.Pending.{
  Entry, PendingOrderStore, get, pop, advance_confirm_step, stale, pop_all, expire_all,
}

-- The entry that a reader may still see at time `now`.
abbrev pub live : {V : Type 0} → ℕ → Option (Entry V) → Option (Entry V)
live now none = none
live now (some e) = if ltb e.expires now then none else some e

abbrev pub is_some : {A : Type 0} → Option A → Bool
is_some none = false
is_some (some a) = true

-- Is `k` one of the keys?
abbrev pub has : String → List String → Bool
has k [] = false
has k (j ∷ ks) = if j == k then true else has k ks

module _ {V : Type 0} where
  lookup-pop_all :
      (ks : List String) (j : String) (d : Dict String (Entry V))
      → IsUnique d
      → lookup j (pop_all ks d) ≡ (if has j ks then none else lookup j d)
  unfolding pop_all
  lookup-pop_all [] j d u = refl
  lookup-pop_all (k ∷ ks) j d u =
      ground (arith, lookup-pop_all ks j (erase k d) (erase-IsUnique k d u), lookup-erase k j d u)

  pub pop_all-IsUnique :
      (ks : List String) (d : Dict String (Entry V)) → IsUnique d → IsUnique (pop_all ks d)
  unfolding pop_all
  pop_all-IsUnique [] d u = u
  pop_all-IsUnique (k ∷ ks) d u = pop_all-IsUnique ks (erase k d) (erase-IsUnique k d u)

  -- A key that is not in the dict is not stale.
  has-stale-none :
      (now : ℕ) (j : String) (d : Dict String (Entry V))
      → lookup j d ≡ none
      → has j (stale now d) ≡ false
  unfolding stale
  has-stale-none now j [] h = refl
  has-stale-none now j ((k, v) ∷ d) h = ground (arith, has-stale-none now j d)

  has-stale :
      (now : ℕ) (j : String) (d : Dict String (Entry V)) (v : Entry V)
      → IsUnique d
      → lookup j d ≡ some v
      → has j (stale now d) ≡ ltb v.expires now
  unfolding stale
  has-stale now j [] v u h = cc
  has-stale now j ((k, w) ∷ d) v u h =
      ground (arith, has-stale now j d v u.1, has-stale-none now j d, eq_iff k j)

  -- In a dict without repeated tokens, expire_all leaves of each token exactly the entry that is
  -- still live at that time.
  pub lookup-expire_all :
      (now : ℕ) (j : String) (s : PendingOrderStore V)
      → IsUnique s.orders
      → lookup j (expire_all now s).orders ≡ live now (lookup j s.orders)
  unfolding expire_all
  lookup-expire_all now j s u = elim (Option-cases (lookup j s.orders)) [
    | inl e ↦
        rw (lookup-pop_all (stale now s.orders) j s.orders u, has-stale-none now j s.orders e, e)
    | inr (v, e) ↦
        rw (lookup-pop_all (stale now s.orders) j s.orders u, has-stale now j s.orders v u e, e)
  ]

  -- In a dict without repeated tokens, pop hands the entry of a token over once: afterwards neither
  -- pop nor get finds one, and every other token has the entry that it had.
  pub pop_lem :
      (token j : String) (now : ℕ) (s : PendingOrderStore V)
      → IsUnique s.orders
      → let (r, s') = pop token s in
        (r ≡ lookup token s.orders)
        × ((pop token s').0 ≡ none)
        × ((get token now (λ t. t) s').0 ≡ none)
        × (lookup j s'.orders ≡ (if token == j then none else lookup j s.orders))
  unfolding pop get
  pop_lem token j now s u =
      let gone : lookup token (erase token s.orders) ≡ none =
        rw (lookup-erase token token s.orders u, eq_self token) in
      (refl, gone, rw gone, lookup-erase token j s.orders u)

  -- What `advance_confirm_step` makes of an entry: no step counts as the first.
  abbrev pub advanced : Entry V → Entry V
  advanced e = record e { confirm_step = some (or_default 1 e.confirm_step + 1) }

  -- advance_confirm_step answers whether the token is pending, raises the step of its entry by one
  -- (a missing step counts as the first) and leaves the rest of it and every other entry alone.
  pub advance_confirm_step_lem :
      (token j : String) (s : PendingOrderStore V)
      → let (r, s') = advance_confirm_step token s in
        (r ≡ is_some (lookup token s.orders))
        × (lookup j s'.orders ≡ (
            if token == j then Option.map advanced (lookup token s.orders) else lookup j s.orders))
  unfolding advance_confirm_step
  advance_confirm_step_lem token j s = elim (Option-cases (lookup token s.orders)) [
    | inl e ↦ rw e (ground (arith, eq_iff token j))
    | inr (v, e) ↦ rw e (ground (arith, lookup-insert token j (advanced v) s.orders))
  ]
