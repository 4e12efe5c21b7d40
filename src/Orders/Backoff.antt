-- ===== src/Orders/Backoff.antt =====
-- `backoff_call` (app/orders.py): a call is repeated while it fails for a passing reason.
use tv_zerodha_bot.Prelude.{
  ℕ, zero, suc, ◌+◌, ◌*◌, ◌^◌, min, Bool, true, false, Option, none, some, ◌==◌, nat_eq,
  if◌then◌else◌, second,
}
use tv_zerodha_bot.Numbers.{Numbers}
use tv_zerodha_bot.Orders.Broker.{
  Broker, Process, Action, Result, ok, err, Exception, ExceptionClass, input_exception,
  token_exception, network_exception,
}

abbrev pub default_max_retries : ℕ
default_max_retries = 3

abbrev pub default_base_delay : ℕ
default_base_delay = second

abbrev pub default_cap_delay : ℕ
default_cap_delay = 8 * second

abbrev pub is_network : ExceptionClass → Bool
is_network network_exception = true
is_network _ = false

-- The classes of the first `except` clause.
abbrev pub is_input_or_token : ExceptionClass → Bool
is_input_or_token input_exception = true
is_input_or_token token_exception = true
is_input_or_token _ = false

abbrev pub has_code : ℕ → Option ℕ → Bool
has_code c none = false
has_code c (some d) = d == c

unfoldable pub is_retryable : Exception → Bool
is_retryable exc = if is_network exc.class then true else has_code 429 exc.code

-- The two `except` clauses: does the loop go on after this exception?
unfoldable pub goes_on : (max_retries attempt : ℕ) → Exception → Bool
unfolding is_retryable
goes_on max_retries attempt exc =
    if is_input_or_token exc.class
    then false
    else if is_retryable exc
    then (if attempt == max_retries then false else true)
    else false

module _ {n : Numbers} {k : Broker n} where
  unfoldable pub backoff_sleep : (base_delay cap attempt : ℕ) → Process n k → Process n k
  backoff_sleep base_delay cap attempt s =
      let (jitter, w) = k.uniform s.world in
      record s { world = k.sleep (min cap (base_delay * 2 ^ attempt) + jitter) w }

  module _ {A : Type 0} (max_retries base_delay cap : ℕ) (fn : Action n k A) where
    -- One round, after the call: `later` is the next round.
    unfoldable pub next_attempt :
        (later : Action n k (Option A)) (attempt : ℕ)
        → Result A × Process n k
        → Result (Option A) × Process n k
    unfolding goes_on backoff_sleep
    next_attempt later attempt (ok a, s) = (ok (some a), s)
    next_attempt later attempt (err exc, s) = elim (goes_on max_retries attempt exc) [
      | true ↦ later (backoff_sleep base_delay cap attempt s)
      | false ↦ (err exc, s)
    ]

    -- The loop with `left` rounds to go; `none` is the `return None` behind it.
    unfoldable pub attempts : (left attempt : ℕ) → Action n k (Option A)
    unfolding next_attempt
    attempts zero attempt s = (ok none, s)
    attempts (suc left) attempt s = next_attempt (attempts left (suc attempt)) attempt (fn s)

    unfoldable pub backoff_call_with : Action n k (Option A)
    backoff_call_with = attempts (suc max_retries) 0

  unfoldable pub backoff_call : {A : Type 0} → Action n k A → Action n k (Option A)
  backoff_call = backoff_call_with default_max_retries default_base_delay default_cap_delay
