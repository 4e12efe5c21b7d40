-- ===== src/Voice/Pending/History.antt =====
-- The history of voice orders (app/voice/pending.py): bounded, newest first, decided once.
use tv_zerodha_bot.Prelude.{
  ℕ, ◌+◌, min, String, string_eq, ◌≡◌, refl, ap, ◌∙◌, true, false, Option, none, some, List, [],
  ◌∷◌, arith, eq_iff, ◌==◌, if◌then◌else◌, length, take, length-take, length-map,
}
use tv_zerodha_bot.Voice.Pending.{
  HistoryEntry, PendingOrderStore, has_token, decide_first, add_history, update_history,
  get_history, history_maxlen,
}

module _ {V : Type 0} where
  -- The entry of `token` that was added last.
  abbrev pub newest : String → List (HistoryEntry V) → Option (HistoryEntry V)
  newest token [] = none
  newest token (h ∷ hs) = if has_token token h then some h else newest token hs

  abbrev pub decided : String → Option V → Option (HistoryEntry V) → Option (HistoryEntry V)
  decided decision result none = none
  decided decision result (some h) = some (record h { decision = some decision; result = result })

  -- An entry has one token at most.
  has_token_ne :
      (token other : String) (h : HistoryEntry V)
      → (token == other) ≡ false
      → has_token token h ≡ true
      → has_token other h ≡ false
  unfolding has_token
  has_token_ne token other h ne mine = go h.token mine
    where
      go :
          (o : Option String)
          → (elim o [ none ↦ false | some t ↦ t == token ]) ≡ true
          → (elim o [ none ↦ false | some t ↦ t == other ]) ≡ false
      go none e = cc
      go (some t) e = rw ((eq_iff t token).0 e) ne

  -- update_history decides the newest entry of its token; what is newest of another token and the
  -- number of entries stay as they are.
  pub newest-update_history :
      (token other decision : String) (result : Option V) (s : PendingOrderStore V)
      → let s' = update_history token decision result s in
        (newest token s'.history ≡ decided decision result (newest token s.history))
        × (newest other s'.history ≡ (
            if token == other
            then decided decision result (newest token s.history)
            else newest other s.history))
        × (length s'.history ≡ length s.history)
  unfolding update_history
  newest-update_history token other decision result s = go s.history
    where
      go :
          (hs : List (HistoryEntry V))
          → let hs' = decide_first token decision result hs in
            (newest token hs' ≡ decided decision result (newest token hs))
            × (newest other hs' ≡ (
                if token == other
                then decided decision result (newest token hs)
                else newest other hs))
            × (length hs' ≡ length hs)
      go [] = (refl, ground arith, refl)
      go (h ∷ hs) = ground (arith, go hs, eq_iff token other, has_token_ne token other h)

  -- After add_history the history holds one entry more than before, but at most a hundred, and a
  -- reader gets no more than it asks for.
  pub add_history_bounded :
      (entry : HistoryEntry V) (limit : ℕ) (s : PendingOrderStore V)
      → let s' = add_history entry s in
        (length s'.history ≡ min history_maxlen (length s.history + 1))
        × (length (get_history limit s') ≡ min limit (min history_maxlen (length s.history + 1)))
  unfolding add_history get_history
  add_history_bounded entry limit s =
      let kept : length (take history_maxlen (entry ∷ s.history))
          ≡ min history_maxlen (length s.history + 1) =
        omega (arith, length-take history_maxlen (entry ∷ s.history)) in
      (
        kept,
        length-map (take limit (take history_maxlen (entry ∷ s.history))) _
            ∙ (length-take limit (take history_maxlen (entry ∷ s.history)) ∙ ap (min limit) kept),
      )
