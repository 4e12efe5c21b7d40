-- ===== src/Voice/Pending/Rate.antt =====
-- Rate limiting (app/voice/pending.py, `check_rate`) against its specification: a call is admitted
-- when fewer than `limit` calls of its token were admitted in the window that ends at it.
use tv_zerodha_bot.Prelude.{
  or_default, ℕ, ◌-◌, ◌*◌, ◌≤◌, String, ◌≡◌, refl, ◌∙◌, Bool, true, false, ◌&&◌, List, [], ◌∷◌,
  ◌++◌, arith, eq_iff, ltb, leb, ◌==◌, string_eq, if◌then◌else◌, second, inl, inr, Bool-cases,
  length, keep, length-append, keep-append, length-keep, map, ltb→lt,
}
use mathlib.Core.List.{append-nil, append_assoc}
use tv_zerodha_bot.Prelude.Dict.{lookup, lookup-insert, eq_self}
use tv_zerodha_bot.Voice.Pending.{PendingOrderStore, second, prune, check_rate, init}

-- Was the call at `t` made within the window that ends at `now`?
abbrev pub within : ℕ → ℕ → ℕ → Bool
within now window t = leb (now - t) window

-- The specification: `accepted` lists the times of all calls admitted so far.
abbrev pub admit : (limit window now : ℕ) → List ℕ → Bool × List ℕ
admit limit window now accepted =
    if ltb (length (keep (within now window) accepted)) limit
    then (true, accepted ++ now ∷ [])
    else (false, accepted)

-- The times ascend from `lo` to at most `hi`.
abbrev pub Ascends : ℕ → List ℕ → ℕ → Type 0
Ascends lo [] hi = lo ≤ hi
Ascends lo (t ∷ ts) hi = (lo ≤ t) × Ascends t ts hi

Ascends-le : (lo hi : ℕ) (ts : List ℕ) → Ascends lo ts hi → lo ≤ hi
Ascends-le lo hi [] a = a
Ascends-le lo hi (t ∷ ts) a = omega (arith, Ascends-le t hi ts a.1)

Ascends-lower : (k lo hi : ℕ) (ts : List ℕ) → k ≤ lo → Ascends lo ts hi → Ascends k ts hi
Ascends-lower k lo hi [] h a = omega arith
Ascends-lower k lo hi (t ∷ ts) h a = (omega arith, a.1)

Ascends-keep :
    (p : ℕ → Bool) (lo hi : ℕ) (ts : List ℕ) → Ascends lo ts hi → Ascends lo (keep p ts) hi
Ascends-keep p lo hi [] a = a
Ascends-keep p lo hi (t ∷ ts) a = elim (Bool-cases (p t)) [
  | inl e ↦ rw e (a.0, Ascends-keep p t hi ts a.1)
  | inr e ↦ rw e (Ascends-lower lo t hi (keep p ts) a.0 (Ascends-keep p t hi ts a.1))
]

Ascends-append :
    (lo hi now : ℕ) (ts : List ℕ) → Ascends lo ts hi → hi ≤ now → Ascends lo (ts ++ now ∷ []) now
Ascends-append lo hi now [] a h = (omega arith, omega arith)
Ascends-append lo hi now (t ∷ ts) a h = (a.0, Ascends-append t hi now ts a.1 h)

Ascends-raise : (lo hi now : ℕ) (ts : List ℕ) → Ascends lo ts hi → hi ≤ now → Ascends lo ts now
Ascends-raise lo hi now [] a h = omega arith
Ascends-raise lo hi now (t ∷ ts) a h = (a.0, Ascends-raise t hi now ts a.1 h)

keep_all :
    (now window t hi : ℕ) (ts : List ℕ)
    → now - t ≤ window
    → Ascends t ts hi
    → keep (within now window) ts ≡ ts
keep_all now window t hi [] h a = refl
keep_all now window t hi (u ∷ ts) h a = ground (arith, keep_all now window u hi ts)

-- On ascending times, dropping the old ones from the front is filtering.
prune-keep :
    (now window lo hi : ℕ) (ts : List ℕ)
    → Ascends lo ts hi
    → prune now window ts ≡ keep (within now window) ts
unfolding prune
prune-keep now window lo hi [] a = refl
prune-keep now window lo hi (t ∷ ts) a =
    ground (arith, prune-keep now window t hi ts, keep_all now window t hi ts)

-- What was within the window at `last` and still is at `now` is what is within it at `now`.
keep_later :
    (last now window : ℕ) (ts : List ℕ)
    → last ≤ now
    → keep (within now window) (keep (within last window) ts) ≡ keep (within now window) ts
keep_later last now window [] h = refl
keep_later last now window (t ∷ ts) h = ground (arith, keep_later last now window ts)

-- The deque `q` holds the accepted calls that were in the window at the time of the last call.
pub record Tracks (window last : ℕ) (accepted q : List ℕ) : Type 0 where
  pub ascends : Ascends 0 accepted last
  pub window_kept : q ≡ keep (within last window) accepted

prune-Tracks :
    (window last now : ℕ) (accepted q : List ℕ)
    → Tracks window last accepted q
    → last ≤ now
    → prune now window q ≡ keep (within now window) accepted
prune-Tracks window last now accepted q t h = rw (t.window_kept) (
    prune-keep now window 0 last _ (Ascends-keep (within last window) 0 last accepted t.ascends)
    ∙ keep_later last now window accepted h)

abbrev pub queue : {V : Type 0} → String → PendingOrderStore V → List ℕ
queue token s = or_default [] (lookup token s.rate)

-- After the pruning, what the specification admits keeps the deque in step.
admit-Tracks :
    (limit window last now : ℕ) (accepted : List ℕ)
    → Ascends 0 accepted last
    → last ≤ now
    → let q = keep (within now window) accepted in
      Tracks window now
        (admit limit window now accepted).1
        (if leb limit (length q) then q else q ++ now ∷ [])
admit-Tracks limit window last now accepted a h =
    elim (Bool-cases (leb limit (length (keep (within now window) accepted)))) [
      | inl e ↦
          rw (e, not_ltb _ _ e)
            (record { ascends = Ascends-raise 0 last now accepted a h; window_kept = refl })
      | inr e ↦
          rw (e, is_ltb _ _ e)
            (record {
              ascends = Ascends-append 0 last now accepted a h;
              window_kept = rw (keep-append (within now window) accepted (now ∷ [])) (ground arith);
            })
    ]
  where
    not_ltb : (a b : ℕ) → leb a b ≡ true → ltb b a ≡ false
    not_ltb a b e = ground arith

    is_ltb : (a b : ℕ) → leb a b ≡ false → ltb b a ≡ true
    is_ltb a b e = ground arith

module _ {V : Type 0} (token other : String) (limit seconds now : ℕ) (s : PendingOrderStore V) where
  -- The deque of `token` with the calls dropped that are no longer in the window.
  abbrev pruned : List ℕ
  pruned = prune now (seconds * second) (queue token s)

  queue-check_rate :
      let (allowed, s') = check_rate token limit seconds now s in
      (allowed ≡ ltb (length pruned) limit)
      × (queue token s' ≡ (if leb limit (length pruned) then pruned else pruned ++ now ∷ []))
      × (queue other s' ≡ (if token == other then queue token s' else queue other s))
  unfolding check_rate
  queue-check_rate = elim (Bool-cases (leb limit (length pruned))) [
    | inl e ↦ rw e (
        ground (
          arith,
          eq_iff token other,
          eq_self token,
          lookup-insert token token pruned s.rate,
          lookup-insert token other pruned s.rate,
        ))
    | inr e ↦ rw e (
        ground (
          arith,
          eq_iff token other,
          eq_self token,
          lookup-insert token token (pruned ++ now ∷ []) s.rate,
          lookup-insert token other (pruned ++ now ∷ []) s.rate,
        ))
  ]

-- At times that do not go back, check_rate decides as the specification over all accepted calls
-- does (fewer than the limit within the window), keeps its deque in step with it, and leaves the
-- deque of any other token as it is.
pub check_rate_lem :
    {V : Type 0} (token other : String) (limit seconds last now : ℕ) (accepted : List ℕ)
    (s : PendingOrderStore V)
    → Tracks (seconds * second) last accepted (queue token s)
    → last ≤ now
    → let (allowed, s') = check_rate token limit seconds now s in
      let (admitted, accepted') = admit limit (seconds * second) now accepted in
      (allowed ≡ admitted)
      × Tracks (seconds * second) now accepted' (queue token s')
      × (queue other s' ≡ (if token == other then queue token s' else queue other s))
check_rate_lem token other limit seconds last now accepted s t h =
    let (allowed, mine, others) = queue-check_rate token other limit seconds now s in
    let same = prune-Tracks (seconds * second) last now accepted (queue token s) t h in
    let kept = admit-Tracks limit (seconds * second) last now accepted t.ascends h in
    (allowed ∙ rw same (ground arith), rw (mine, same) kept, others)

-- The times at which calls of `token` are let through, in a run of calls of any tokens.
pub served :
    {V : Type 0} (token : String) (limit seconds : ℕ)
    → List (String × ℕ)
    → PendingOrderStore V
    → List ℕ
served token limit seconds [] s = []
served token limit seconds ((k, now) ∷ calls) s =
    let (allowed, s') = check_rate k limit seconds now s in
    let rest = served token limit seconds calls s' in
    if (k == token) && allowed then now ∷ rest else rest

abbrev pub times : List (String × ℕ) → List ℕ
times = map (λ c. c.1)

still_le :
    (limit window last now : ℕ) (accepted : List ℕ)
    → last ≤ now
    → length (keep (within last window) accepted) ≤ limit
    → length (keep (within now window) accepted) ≤ limit
still_le limit window last now accepted h b =
    rw (← keep_later last now window accepted h)
      (omega (arith, length-keep (within now window) (keep (within last window) accepted)))

-- An admitted call stands in front of what is served after it.
append-admit :
    (limit window now : ℕ) (accepted rest : List ℕ)
    → let (admitted, accepted') = admit limit window now accepted in
      accepted ++ (if admitted then now ∷ rest else rest) ≡ accepted' ++ rest
append-admit limit window now accepted rest =
    elim (Bool-cases (ltb (length (keep (within now window) accepted)) limit)) [
      | inl e ↦ rw (e, append_assoc)
      | inr e ↦ rw e
    ]

-- The specification never lets the window overflow.
admit-le-limit :
    (limit window last now : ℕ) (accepted : List ℕ)
    → last ≤ now
    → length (keep (within last window) accepted) ≤ limit
    → length (keep (within now window) (admit limit window now accepted).1) ≤ limit
admit-le-limit limit window last now accepted h b =
    elim (Bool-cases (ltb (length (keep (within now window) accepted)) limit)) [
      | inl e ↦
          rw (e, keep-append (within now window) accepted (now ∷ []))
            (ground (
              arith,
              length-append (keep (within now window) accepted) (now ∷ []),
              ltb→lt (length (keep (within now window) accepted)) limit e,
            ))
      | inr e ↦ rw e (still_le limit window last now accepted h b)
    ]

module _ {V : Type 0} (token : String) (limit seconds : ℕ) where
  served_from :
      (calls : List (String × ℕ)) (last hi now : ℕ) (accepted : List ℕ) (s : PendingOrderStore V)
      → Tracks (seconds * second) last accepted (queue token s)
      → length (keep (within last (seconds * second)) accepted) ≤ limit
      → Ascends last (times calls) hi
      → hi ≤ now
      → length
          (keep (within now (seconds * second)) (accepted ++ served token limit seconds calls s))
        ≤ limit
  unfolding served
  served_from [] last hi now accepted s t b r h =
      rw append-nil (still_le limit (seconds * second) last now accepted (omega arith) b)
  served_from ((k, at) ∷ calls) last hi now accepted s t b r h = elim (Bool-cases (k == token)) [
    | inl e ↦
        let (allowed, tracked, _) =
          check_rate_lem token token limit seconds last at accepted s t r.0 in
        rw ((eq_iff k token).0 e, eq_self token, allowed, append-admit limit (seconds * second) at)
          (served_from calls at hi now _ _ tracked
            (admit-le-limit limit (seconds * second) last at accepted r.0 b) r.1 h)
    | inr e ↦
        let (_, _, others) = queue-check_rate k token limit seconds at s in
        rw e (
          served_from calls last hi now accepted (check_rate k limit seconds at s).1
            (rw (others, e) t) b (Ascends-lower last at hi (times calls) r.0 r.1) h)
  ]

-- Whatever calls of check_rate are made, for whatever tokens, at times that ascend, at most `limit`
-- of those of one token are let through within a window that ends at or after the last call.
pub served-le-limit :
    (V : Type 0) (token : String) (limit seconds : ℕ) (calls : List (String × ℕ)) (hi now : ℕ)
    → Ascends 0 (times calls) hi
    → hi ≤ now
    → length
        (keep (within now (seconds * second)) (served token limit seconds calls (init {V = V})))
      ≤ limit
served-le-limit V token limit seconds calls hi now r h =
    served_from token limit seconds calls 0 hi now [] init
      (record { ascends = omega arith; window_kept = refl }) (omega arith) r h
