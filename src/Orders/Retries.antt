-- ===== src/Orders/Retries.antt =====
-- What `backoff_call` (app/orders.py) promises: it ends with the answer of its last attempt, makes
-- another attempt exactly after a passing failure, and never more than `max_retries + 1`.
use tv_zerodha_bot.Prelude.{
  ℕ, zero, suc, ◌+◌, ◌≤◌, ◌≡◌, refl, sym, subst, ◌≢◌, ◌∙◌, inl, inr, true, false, Option, none,
  some, Bool-cases, arith,
}
use tv_zerodha_bot.Numbers.{Numbers}
use tv_zerodha_bot.Orders.Broker.{Broker, Process, Action, Result, ok, err, Exception, call}
use tv_zerodha_bot.Orders.Backoff.{
  goes_on, backoff_sleep, next_attempt, attempts, backoff_call_with, backoff_call,
  default_max_retries, default_base_delay, default_cap_delay,
}

module _ {n : Numbers} {k : Broker n} {A : Type 0} where
  -- A run of attempts, numbered from `attempt`, from one state to another: failures that the loop
  -- goes on after, each with its sleep, and then a last answer.
  pub data Attempts (max_retries base_delay cap : ℕ) (fn : Action n k A)
      : ℕ → Process n k → Result A → Process n k → Type 0 where
    succeeds :
        {attempt : ℕ} {s s' : Process n k} (a : A)
        → fn s ≡ (ok a, s')
        → Attempts max_retries base_delay cap fn attempt s (ok a) s'
    gives_up :
        {attempt : ℕ} {s s' : Process n k} (exc : Exception)
        → fn s ≡ (err exc, s')
        → goes_on max_retries attempt exc ≡ false
        → Attempts max_retries base_delay cap fn attempt s (err exc) s'
    retries :
        {attempt : ℕ} {s s' t : Process n k} {r : Result A} (exc : Exception)
        → fn s ≡ (err exc, s')
        → goes_on max_retries attempt exc ≡ true
        → Attempts max_retries base_delay cap fn
            (suc attempt)
            (backoff_sleep base_delay cap attempt s')
            r
            t
        → Attempts max_retries base_delay cap fn attempt s r t

  module _ {max_retries base_delay cap : ℕ} {fn : Action n k A} where
    -- How many times a run calls `fn`.
    abbrev pub calls :
        {attempt : ℕ} {s t : Process n k} {r : Result A}
        → Attempts max_retries base_delay cap fn attempt s r t
        → ℕ
    calls (succeeds a e) = 1
    calls (gives_up exc e g) = 1
    calls (retries exc e g run) = suc (calls run)

abbrev pub found : {A : Type 0} → Result A → Result (Option A)
found (ok a) = ok (some a)
found (err e) = err e

found-ne-none : {A : Type 0} (r : Result A) → found r ≢ ok none
found-ne-none (ok a) e = cc
found-ne-none (err exc) e = cc

found-ok : {A : Type 0} (r : Result A) (a : A) → found r ≡ ok (some a) → r ≡ ok a
found-ok (ok b) a e = cc
found-ok (err exc) a e = cc

last_attempt :
    (max_retries attempt : ℕ) (exc : Exception)
    → goes_on max_retries attempt exc ≡ true
    → attempt ≢ max_retries
unfolding goes_on
last_attempt max_retries attempt exc h = ground arith

module _ {n : Numbers} {k : Broker n} {A : Type 0} (max_retries base_delay cap : ℕ)
    (fn : Action n k A) where
  -- The run behind an outcome of the loop.
  abbrev Run : ℕ → ℕ → Process n k → Result (Option A) × Process n k → Type 0
  Run left attempt s (r, t) =
      (answer : Result A) × (run : Attempts max_retries base_delay cap fn attempt s answer t) × (r
        ≡ found answer)
      × (calls run ≤ left)

  next_attempt-Run :
      (left attempt : ℕ) (s : Process n k) (later : Action n k (Option A))
      (p : Result A × Process n k)
      → fn s ≡ p
      → ((s' : Process n k) → attempt ≢ max_retries → Run left (suc attempt) s' (later s'))
      → Run (suc left) attempt s (next_attempt max_retries base_delay cap fn later attempt p)
  unfolding next_attempt
  next_attempt-Run left attempt s later (ok a, s') e ih =
      (ok a, Attempts.succeeds a e, refl, omega arith)
  next_attempt-Run left attempt s later (err exc, s') e ih =
      elim (Bool-cases (goes_on max_retries attempt exc)) [
        | inl again ↦
            let (answer, run, same, few) =
              ih (backoff_sleep base_delay cap attempt s')
                (last_attempt max_retries attempt exc again) in
            rw (again, next_attempt) (answer, Attempts.retries exc e again run, same, omega arith)
        | inr stop ↦
            rw (stop, next_attempt) (err exc, Attempts.gives_up exc e stop, refl, omega arith)
      ]

  attempts-Run :
      (left attempt : ℕ) (s : Process n k)
      → left + attempt ≡ max_retries
      → Run (suc left) attempt s (attempts max_retries base_delay cap fn (suc left) attempt s)
  unfolding attempts
  attempts-Run zero attempt s e =
      next_attempt-Run zero attempt s (attempts max_retries base_delay cap fn zero (suc attempt))
        (fn s) refl (λ s' ne. absurd (ne (omega arith)))
  attempts-Run (suc left) attempt s e =
      next_attempt-Run (suc left) attempt s
        (attempts max_retries base_delay cap fn (suc left) (suc attempt)) (fn s) refl
        (λ s' ne. attempts-Run left (suc attempt) s' (omega arith))

  -- backoff_call always returns an answer of its function or raises an exception of it, never None;
  -- it calls the function again exactly after the failures that the loop goes on after, sleeping
  -- each time, and at most max_retries + 1 times.
  pub backoff_call-Attempts :
      (s : Process n k)
      → let (r, t) = backoff_call_with max_retries base_delay cap fn s in
        (answer : Result A) × (run : Attempts max_retries base_delay cap fn 0 s answer t) × (r
          ≡ found answer)
        × (calls run ≤ max_retries + 1)
  unfolding backoff_call_with
  backoff_call-Attempts s =
      let (answer, run, same, few) = attempts-Run max_retries 0 s (omega arith) in
      (answer, run, same, omega arith)

module _ {n : Numbers} {k : Broker n} {A : Type 0} (f : k.World → Result A × k.World) where
  -- A call of the client leaves the module variables alone, however often it is repeated.
  Attempts-call :
      {max_retries base_delay cap attempt : ℕ} {s t : Process n k} {r : Result A}
      → Attempts max_retries base_delay cap (call {k = k} f) attempt s r t
      → (t.recent_squareoffs ≡ s.recent_squareoffs) × (t.last_quote_ts ≡ s.last_quote_ts)
  unfolding backoff_sleep
  Attempts-call (Attempts.succeeds a e) = ground arith
  Attempts-call (Attempts.gives_up exc e g) = ground arith
  Attempts-call (Attempts.retries exc e g run) = let ih = Attempts-call run in ground arith

  -- A repeated call of the client answers or raises, and changes no module variable.
  pub backoff_call-call :
      (s : Process n k)
      → let (r, t) = backoff_call (call {k = k} f) s in
        (t.recent_squareoffs ≡ s.recent_squareoffs)
        × (t.last_quote_ts ≡ s.last_quote_ts)
        × (r ≢ ok none)
  unfolding backoff_call
  backoff_call-call s =
      let (answer, run, same, few) =
        backoff_call-Attempts default_max_retries default_base_delay default_cap_delay
          (call {k = k} f) s in
      let kept = Attempts-call run in (kept.0, kept.1, rw same (found-ne-none answer))

  -- What a repeated call returns is the broker's own answer.
  pub backoff_call-ok :
      (s : Process n k) (a : A)
      → (backoff_call (call {k = k} f) s).0 ≡ ok (some a)
      → (t : Process n k) × (run : Attempts default_max_retries default_base_delay default_cap_delay
          (call {k = k} f)
          0
          s
          (ok a)
          t)
        × (calls run ≤ 4)
  unfolding backoff_call
  backoff_call-ok s a h =
      let (answer, run, same, few) =
        backoff_call-Attempts default_max_retries default_base_delay default_cap_delay
          (call {k = k} f) s in
      subst
        (λ r.
          (t : Process n k) × (run : Attempts default_max_retries default_base_delay
            default_cap_delay (call {k = k} f) 0 s r t)
          × (calls run ≤ 4))
        (found-ok answer a (sym same ∙ h)) (_, run, few)
