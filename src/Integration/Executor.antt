-- ===== src/Integration/Executor.antt =====
-- executor.ts. The executor's surroundings, the deadline's signals, the rate limiter, the guards
-- around the operation, the operation itself, the random draw and the sleep, are functions on a state
-- of the world. Of an observed event the duration is left out.
pub mod Trace
pub mod Termination
use zsj_crm.Prelude.{
  ℕ, zero, suc, Bool, true, false, ◌&&◌, ◌||◌, not, List, [], ◌∷◌, ltb, ◌==◌, if◌then◌else◌,
  safe_from, is_some,
}
use zsj_crm.Prelude.Text.{Text, is_lower, is_digit, matches_pattern}
use zsj_crm.Integration.Errors.{
  Category, cancelled, internal, invalid_input, rate_limited, timeout, Thrown, runtime, foreign,
  Result, ok, throws, fatal, transient, ◌>>=◌, ◌>>◌, throw_if,
}
use zsj_crm.Integration.Retry.{
  GivenPolicy, Policy, validate_retry_policy, calculate_backoff_ms, should_retry,
}
use zsj_crm.Integration.Deadline.{GivenLimits, create_deadline_budget}

pub data Safety : Type 0 where
  read idempotent_write non_idempotent_write : Safety

pub record ExecutionPolicy (Ratio : Type 0) : Type 0 where
  pub deadlines : GivenLimits
  pub operation_id : Text
  pub retry : GivenPolicy Ratio
  pub safety : Safety

pub data ObservedOutcome : Type 0 where
  failed limited succeeded : ObservedOutcome

pub data Label : Type 0 where
  unlabelled unclassified : Label
  labelled : Category → Label

-- The argument of `record`.
pub record Observed : Type 0 where
  pub attempt : ℕ
  pub category : Label
  pub outcome : ObservedOutcome
  pub retrying : Bool

pub record World (Ratio S A : Type 0) : Type 0 where
  -- `budget.signal.aborted` and `signal?.aborted`
  pub budget_aborted : S → Bool
  pub caller_aborted : S → Bool
  -- `budget.remainingMs()`
  pub remaining : S → ℕ
  -- `rateLimiter.check()`, with `allowed`
  pub check_rate : S → S × Bool
  -- `concurrencyLimiter.run` around `circuitBreaker.execute`, with what they guard
  pub guarded : (S → S × Result A) → S → S × Result A
  -- `runWithDeadline` around the operation: the attempt, the milliseconds left
  pub operate : ℕ → ℕ → S → S × Result A
  -- `Math.round(base * factor)` with the random draw of this moment
  pub jittered : S → Ratio → ℕ → ℕ
  pub sleep : ℕ → S → S × Result (Unit {0})

abbrev pub label : Thrown → Label
label foreign = unclassified
label (runtime e) = labelled e.category

-- `/^[a-z][a-z0-9_.-]{2,79}$/`
unfoldable pub is_operation_id : Text → Bool
is_operation_id =
    matches_pattern is_lower
      (λ c. is_lower c || (is_digit c || (c == b'_' || (c == b'.' || c == b'-')))) 2 79

abbrev pub is_non_idempotent : Safety → Bool
is_non_idempotent non_idempotent_write = true
is_non_idempotent _ = false

-- `Object.values(policy.deadlines)` are all safe integers of at least 1.
unfoldable pub are_positive : GivenLimits → Bool
are_positive g =
    is_some (safe_from 1 g.connect_ms)
    && (is_some (safe_from 1 g.response_ms) && is_some (safe_from 1 g.total_ms))

-- The checks of `execute` before the loop.
unfoldable pub admit :
    {Ratio : Type 0} → (Ratio → Bool) → ℕ → ExecutionPolicy Ratio → Result (Policy Ratio)
admit is_unit now e = do
  throw_if (not (is_operation_id e.operation_id)) invalid_input
  p ← validate_retry_policy is_unit e.retry
  throw_if (not (are_positive e.deadlines)) invalid_input
  throw_if (is_non_idempotent e.safety && not (p.max_attempts == 1)) invalid_input
  budget ← create_deadline_budget e.deadlines now
  ok p

module _ {Ratio S A : Type 0} (w : World Ratio S A) where
  abbrev pub classify_budget_expiry : S → Thrown → Thrown
  classify_budget_expiry s e =
      if w.budget_aborted s && not (w.caller_aborted s) then transient timeout else e

  abbrev pub operated : S × Result A → S × Result A
  operated (s, ok a) =
      if w.budget_aborted s && not (w.caller_aborted s)
      then (s, throws (classify_budget_expiry s (transient timeout)))
      else (s, ok a)
  operated (s, throws e) = (s, throws (classify_budget_expiry s e))

  -- The function that the circuit breaker executes.
  unfoldable pub inner : ℕ → S → S × Result A
  inner attempt s =
      if ltb (w.remaining s) 1
      then (s, throws (classify_budget_expiry s (transient timeout)))
      else operated (w.operate attempt (w.remaining s) s)

  -- What the loop hands back: the world, the result, and what was recorded.
  abbrev pub Outcome : Type 0
  Outcome = S × Result A × List Observed

  abbrev pub recorded : Observed → Outcome → Outcome
  recorded e (s, r, es) = (s, r, e ∷ es)

  abbrev pub slept : (S → Outcome) → S × Result (Unit {0}) → Outcome
  slept next (s, ok _) = next s
  slept next (s, throws e) = (s, throws (classify_budget_expiry s e), [])

  abbrev pub back_off : (S → Outcome) → S → Result ℕ → Outcome
  back_off next s (ok ms) = slept next (w.sleep ms s)
  back_off next s (throws e) = (s, throws (classify_budget_expiry s e), [])

  module _ (p : Policy Ratio) where
    abbrev pub is_retrying : ℕ → S → Thrown → Bool
    is_retrying attempt s e = should_retry p attempt e && not (w.budget_aborted s)

    abbrev pub failure_event : ℕ → S → Thrown → Observed
    failure_event attempt s e = record {
      attempt = attempt;
      category = label e;
      outcome = failed;
      retrying = is_retrying attempt s e;
    }

    -- The `catch` of an attempt, for the error as it was classified.
    abbrev pub caught : (S → Outcome) → ℕ → S → Thrown → Outcome
    caught next attempt s e = recorded (failure_event attempt s e) (
        if is_retrying attempt s e
        then back_off next s (calculate_backoff_ms (w.jittered s) p attempt)
        else (s, throws e, []))

    abbrev pub attempted : (S → Outcome) → ℕ → S × Result A → Outcome
    attempted next attempt (s, ok a) = (
      s,
      ok a,
      record { attempt = attempt; category = unlabelled; outcome = succeeded; retrying = false }
          ∷ [],
    )
    attempted next attempt (s, throws e) = caught next attempt s (classify_budget_expiry s e)

    abbrev pub rated : (S → Outcome) → ℕ → S × Bool → Outcome
    rated next attempt (s, true) = attempted next attempt (w.guarded (inner attempt) s)
    rated next attempt (s, false) = (
      s,
      throws (transient rate_limited),
      record {
        attempt = attempt;
        category = labelled rate_limited;
        outcome = limited;
        retrying = false;
      }
          ∷ [],
    )

    -- One round of the `for` loop, and `next` for the rounds after it.
    unfoldable pub round : (S → Outcome) → ℕ → S → Outcome
    round next attempt s =
        if w.budget_aborted s
        then (s, throws (classify_budget_expiry s (fatal cancelled)), [])
        else rated next attempt (w.check_rate s)

    -- The loop, with the rounds that are left; after the last one it throws `internal`.
    unfoldable pub attempts : ℕ → ℕ → S → Outcome
    attempts zero attempt s = (s, throws (fatal internal), [])
    attempts (suc left) attempt s = round (attempts left (suc attempt)) attempt s

  abbrev pub started : S → Result (Policy Ratio) → Outcome
  started s (throws e) = (s, throws e, [])
  started s (ok p) = attempts p p.max_attempts 1 s

  unfoldable pub execute : (Ratio → Bool) → ℕ → ExecutionPolicy Ratio → S → Outcome
  execute is_unit now e s = started s (admit is_unit now e)
