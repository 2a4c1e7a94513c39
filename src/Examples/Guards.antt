-- ===== src/Examples/Guards.antt =====
-- The circuit breaker and the two limiters on concrete inputs.
use zsj_crm.Prelude.{◌+◌, ◌*◌, ◌≤◌, ◌≡◌, refl, true, false, some, List, [], ◌∷◌, nat, arith}
use zsj_crm.Prelude.Int.{pos, negsuc}
use zsj_crm.Integration.Errors.{ok}
use zsj_crm.Integration.Breaker.{
  GivenOptions, Options, Breaker, opened, Event, arrive, complete, failure, run, fresh,
  validate_options,
}
use zsj_crm.Integration.Breaker.Invariant.{Inv, run-Inv_of_valid}
use zsj_crm.Integration.Breaker.Recovery.{MayEnter}
use zsj_crm.Integration.Breaker.StaleProbe.{stale_probe}
use zsj_crm.Integration.RateLimit.{allowed_calls, check}
use zsj_crm.Integration.RateLimit.Windows.{allowed_calls-span}
use zsj_crm.Integration.RateLimit
use zsj_crm.Integration.Concurrency
use zsj_crm.Integration.Concurrency.Invariant.{run-within_limit, release-first}

abbrev given_breaker : GivenOptions
given_breaker = record { failure_threshold = nat 2; half_open_max_calls = nat 2; open_ms = nat 100 }

abbrev breaker_options : Options
breaker_options = record { failure_threshold = 2; half_open_max_calls = 2; open_ms = 100 }

abbrev open_breaker : Breaker
open_breaker = record {
  state = opened;
  failures = 2;
  opened_at = some 50;
  half_open_active = pos 0;
}

abbrev calls : List Event
calls =
    arrive 1
    ∷ arrive 2
    ∷ complete 0 (failure true) 3
    ∷ complete 0 (failure true) 4
    ∷ arrive 200
    ∷ []

valid_breaker : validate_options given_breaker ≡ ok breaker_options
unfolding validate_options
valid_breaker = refl

run-Inv_of_valid_example : Inv breaker_options (run breaker_options fresh calls).breaker
run-Inv_of_valid_example = run-Inv_of_valid given_breaker breaker_options calls valid_breaker

resting : ¬ (MayEnter breaker_options 60 open_breaker)
resting = λ h. ground arith

stale_probe_example :
    (es : List Event) × ((run breaker_options fresh es).breaker.half_open_active ≡ negsuc 0)
stale_probe_example = stale_probe breaker_options (omega arith) (omega arith)

abbrev rate_options : RateLimit.Options
rate_options = record { limit = 2; window_ms = 10 }

abbrev used_once : RateLimit.Limiter
used_once = record { window_start = 5; used = 1 }

abbrev used_up : RateLimit.Limiter
used_up = record { window_start = 5; used = 2 }

allowed_calls-span_example :
    allowed_calls rate_options used_once (12 ∷ 16 ∷ 17 ∷ 18 ∷ []) + used_once.used
    ≤ 2 * rate_options.limit
allowed_calls-span_example =
    allowed_calls-span rate_options used_once 12 (12 ∷ 16 ∷ 17 ∷ 18 ∷ []) (omega arith)
      (ground arith)

used_up_refuses : (check rate_options 8 used_up).1.allowed ≡ false
unfolding check
used_up_refuses = refl

abbrev slots : Concurrency.Options
slots = record { limit = 1; max_queue = 1 }

abbrev arrivals : List Concurrency.Event
arrivals =
    Concurrency.arrive 0 false
    ∷ Concurrency.arrive 1 false
    ∷ Concurrency.arrive 2 false
    ∷ Concurrency.finish 0
    ∷ []

run-within_limit_example :
    Concurrency.Invariant.Inv slots (Concurrency.run slots Concurrency.fresh arrivals)
run-within_limit_example = run-within_limit slots arrivals

abbrev gone : Concurrency.Waiting
gone = record { id = 3; aborted = true }

abbrev patient : Concurrency.Waiting
patient = record { id = 4; aborted = false }
