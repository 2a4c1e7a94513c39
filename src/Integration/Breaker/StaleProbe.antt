-- ===== src/Integration/Breaker/StaleProbe.antt =====
-- The counter of half-open calls goes below zero: a probe that outlives its half-open period
-- decrements the counter of the next one.
use zsj_crm.Prelude.{
  ℕ, zero, suc, ◌+◌, ◌-◌, ap, ◌≤◌, ◌<◌, ◌≡◌, none, some, List, [], ◌∷◌, arith, true, false, ◌∙◌,
}
use zsj_crm.Prelude.Int.{pos, negsuc}
use zsj_crm.Integration.Breaker.{
  Options, closed, opened, failure, Event, arrive, complete, System, init, step, run, fresh,
}

-- So many calls that fail and count, one after another, and then other events.
abbrev failing : ℕ → List Event → List Event
failing zero rest = rest
failing (suc k) rest = arrive 0 ∷ complete 0 (failure true) 0 ∷ failing k rest

-- Two probes; one fails, which opens the circuit again; when it is half open once more, a new probe
-- starts, and the old one and the new one end without an error that counts.
abbrev overlap : ℕ → List Event
overlap ms =
    arrive ms
    ∷ arrive ms
    ∷ complete 0 (failure true) ms
    ∷ arrive (ms + ms)
    ∷ complete 1 (failure false) (ms + ms)
    ∷ complete 0 (failure false) (ms + ms)
    ∷ []

abbrev after_failures : Options → System
after_failures o = record {
  breaker = record {
    state = opened;
    failures = o.failure_threshold;
    opened_at = some 0;
    half_open_active = pos 0;
  };
  in_flight = [];
}

abbrev counting : ℕ → System
counting f = record {
  breaker = record { state = closed; failures = f; opened_at = none; half_open_active = pos 0 };
  in_flight = [];
}

fail_more :
    (o : Options) (f : ℕ)
    → suc f < o.failure_threshold
    → step o (step o (counting f) (arrive 0)) (complete 0 (failure true) 0) ≡ counting (suc f)
unfolding step
fail_more o f h = ground arith

fail_enough :
    (o : Options) (f : ℕ)
    → suc f ≡ o.failure_threshold
    → step o (step o (counting f) (arrive 0)) (complete 0 (failure true) 0) ≡ after_failures o
unfolding step
fail_enough o f h = ground arith

run-failing :
    (o : Options) (k f : ℕ) (rest : List Event)
    → f + suc k ≡ o.failure_threshold
    → run o (counting f) (failing (suc k) rest) ≡ run o (after_failures o) rest
unfolding run
run-failing o zero f rest h = ap (λ s. run o s rest) (fail_enough o f (omega arith))
run-failing o (suc k) f rest h =
    ap (λ s. run o s (failing (suc k) rest)) (fail_more o f (omega arith))
    ∙ run-failing o k (suc f) rest (omega arith)

run-overlap :
    (o : Options)
    → 2 ≤ o.half_open_max_calls
    → (run o (after_failures o) (overlap o.open_ms)).breaker.half_open_active ≡ negsuc 0
unfolding run step
run-overlap o h = ground arith

abbrev stale_schedule : Options → List Event
stale_schedule o = failing (suc (o.failure_threshold - 1)) (overlap o.open_ms)

-- Whatever the options, as soon as two probes may run at once, there are events after which the
-- counter of half-open calls stands at -1.
pub stale_probe :
    (o : Options)
    → 0 < o.failure_threshold
    → 2 ≤ o.half_open_max_calls
    → (es : List Event) × ((run o fresh es).breaker.half_open_active ≡ negsuc 0)
unfolding init
stale_probe o t m = (
  stale_schedule o,
  ap (λ s. s.breaker.half_open_active)
        (run-failing o (o.failure_threshold - 1) 0 (overlap o.open_ms) (omega arith))
      ∙ run-overlap o m,
)
