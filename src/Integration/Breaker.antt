-- ===== src/Integration/Breaker.antt =====
-- circuit-breaker.ts. `execute` awaits its operation, so it is two steps, `begin` before the wait and
-- `settle` after it; other calls may take their own steps in between. The counter of half-open calls
-- is a signed integer, since the code decrements it without a test.
pub mod Invariant
pub mod Recovery
pub mod StaleProbe
use zsj_crm.Prelude.{
  ℕ, suc, ◌+◌, Bool, true, false, ◌&&◌, ◌||◌, Option, none, some, List, [], ◌∷◌, leb, if◌then◌else◌,
  Number, safe_from,
}
use zsj_crm.Prelude.Int.{ℤ, pos, increment, decrement, at_least}
use zsj_crm.Integration.Errors.{
  Category, authentication, connection, invalid_input, invalid_response, rate_limited, timeout,
  upstream_unavailable, circuit_open, Thrown, runtime, foreign, Result, ok, throws, fatal,
  transient,
}

pub data CircuitState : Type 0 where
  closed half_open opened : CircuitState

-- The options as the caller gives them, and after validation.
pub record GivenOptions : Type 0 where
  pub failure_threshold : Number
  pub half_open_max_calls : Number
  pub open_ms : Number

pub record Options : Type 0 where
  pub failure_threshold : ℕ
  pub half_open_max_calls : ℕ
  pub open_ms : ℕ

-- The variables that the closures of `createCircuitBreaker` share.
pub record Breaker : Type 0 where
  pub state : CircuitState
  pub failures : ℕ
  pub opened_at : Option ℕ
  pub half_open_active : ℤ

-- `defaultFailureClassifier`
abbrev pub is_default_category : Category → Bool
is_default_category authentication = true
is_default_category connection = true
is_default_category invalid_response = true
is_default_category rate_limited = true
is_default_category timeout = true
is_default_category upstream_unavailable = true
is_default_category _ = false

unfoldable pub default_failure_classifier : Thrown → Bool
default_failure_classifier foreign = true
default_failure_classifier (runtime e) = is_default_category e.category

abbrev with_options : Option ℕ → Option ℕ → Option ℕ → Result Options
with_options (some f) (some h) (some o) =
    ok (record { failure_threshold = f; half_open_max_calls = h; open_ms = o })
with_options _ _ _ = throws (fatal invalid_input)

unfoldable pub validate_options : GivenOptions → Result Options
validate_options g =
    with_options (safe_from 1 g.failure_threshold) (safe_from 1 g.half_open_max_calls)
      (safe_from 1 g.open_ms)

unfoldable pub init : Breaker
init = record { state = closed; failures = 0; opened_at = none; half_open_active = pos 0 }

abbrev pub is_open : CircuitState → Bool
is_open opened = true
is_open _ = false

abbrev pub is_half_open : CircuitState → Bool
is_half_open half_open = true
is_half_open _ = false

abbrev pub elapsed : Options → ℕ → Option ℕ → Bool
elapsed o now none = false
elapsed o now (some at) = leb (at + o.open_ms) now

unfoldable pub refresh : Options → ℕ → Breaker → Breaker
refresh o now b =
    if is_open b.state && elapsed o now b.opened_at
    then record b { state = half_open; half_open_active = pos 0 }
    else b

-- What `execute` does up to the `await`: the call is turned away, or goes on as a probe or not.
pub data Admission : Type 0 where
  turned_away : Admission
  admitted : (probe : Bool) → Admission

abbrev admit : Options → Breaker → Breaker × Admission
admit o b =
    if is_open b.state
      || (is_half_open b.state && at_least b.half_open_active o.half_open_max_calls)
    then (b, turned_away)
    else if is_half_open b.state
    then (record b { half_open_active = increment b.half_open_active }, admitted true)
    else (b, admitted false)

unfoldable pub begin : Options → ℕ → Breaker → Breaker × Admission
unfolding refresh
begin o now b = admit o (refresh o now b)

-- How the operation ended: with a result, or with an error that counts as a failure or does not.
pub data Outcome : Type 0 where
  success : Outcome
  failure : (counts : Bool) → Outcome

abbrev after_success : Bool → Breaker → Breaker
after_success probe b =
    if probe
    then record b { failures = 0; state = closed; opened_at = none; half_open_active = pos 0 }
    else record b { failures = 0 }

abbrev after_failure : Options → ℕ → Bool → Bool → Breaker → Breaker
after_failure o now counts probe b =
    let more = record b { failures = b.failures + 1 } in
    if counts
    then (if probe || leb o.failure_threshold more.failures
        then record more { state = opened; opened_at = some now; half_open_active = pos 0 }
        else more)
    else b

-- The `finally` block.
abbrev finally : Bool → Breaker → Breaker
finally probe b =
    if probe && is_half_open b.state
    then record b { half_open_active = decrement b.half_open_active }
    else b

unfoldable pub settle : Options → ℕ → Outcome → Bool → Breaker → Breaker
settle o now success probe b = finally probe (after_success probe b)
settle o now (failure counts) probe b = finally probe (after_failure o now counts probe b)

-- `execute` as one caller sees it. `others` is what happens to the breaker during the wait.
abbrev finish :
    {A : Type 0}
    → Options
    → ℕ
    → (Breaker → Breaker)
    → (Thrown → Bool)
    → Result A
    → Breaker × Admission
    → Breaker × Result A
finish o later others counts result (b, turned_away) = (b, throws (transient circuit_open))
finish o later others counts (ok a) (b, admitted probe) =
    (settle o later success probe (others b), ok a)
finish o later others counts (throws e) (b, admitted probe) =
    (settle o later (failure (counts e)) probe (others b), throws e)

unfoldable pub execute :
    {A : Type 0}
    → Options
    → (Thrown → Bool)
    → ℕ
    → ℕ
    → (Breaker → Breaker)
    → Result A
    → Breaker
    → Breaker × Result A
unfolding begin settle
execute o counts now later others result b = finish o later others counts result (begin o now b)

-- `snapshot` refreshes the state, and its result is that state.
unfoldable pub snapshot : Options → ℕ → Breaker → Breaker
unfolding refresh
snapshot o now b = refresh o now b

-- The breaker with the calls in flight: for each, whether it is a probe.
pub record System : Type 0 where
  pub breaker : Breaker
  pub in_flight : List Bool

pub data Event : Type 0 where
  arrive : (now : ℕ) → Event
  complete : (index : ℕ) (outcome : Outcome) (now : ℕ) → Event
  observe : (now : ℕ) → Event

-- A call in flight, and those that are left without it.
abbrev pub take_out : ℕ → List Bool → Option (Bool × List Bool)
take_out i [] = none
take_out ℕ.zero (p ∷ ps) = some (p, ps)
take_out (suc i) (p ∷ ps) = elim (take_out i ps) [ none ↦ none | some (q, qs) ↦ some (q, p ∷ qs) ]

abbrev arrived : List Bool → Breaker × Admission → System
arrived calls (b, turned_away) = record { breaker = b; in_flight = calls }
arrived calls (b, admitted probe) = record { breaker = b; in_flight = probe ∷ calls }

abbrev completed : Options → Outcome → ℕ → System → Option (Bool × List Bool) → System
completed o outcome now s none = s
completed o outcome now s (some (probe, rest)) = record {
  breaker = settle o now outcome probe s.breaker;
  in_flight = rest;
}

unfoldable pub step : Options → System → Event → System
unfolding begin settle
step o s (arrive now) = arrived s.in_flight (begin o now s.breaker)
step o s (complete i outcome now) = completed o outcome now s (take_out i s.in_flight)
step o s (observe now) = record s { breaker = refresh o now s.breaker }

unfoldable pub run : Options → System → List Event → System
run o s [] = s
run o s (e ∷ es) = run o (step o s e) es

abbrev pub fresh : System
fresh = record { breaker = init; in_flight = [] }
