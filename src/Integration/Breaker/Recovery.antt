-- ===== src/Integration/Breaker/Recovery.antt =====
-- When the breaker lets a call through, and how it opens and closes for one caller after another.
use zsj_crm.Prelude.{
  ℕ, zero, suc, ◌+◌, ◌≤◌, ◌<◌, ◌≡◌, refl, ◌≢◌, ◌∙◌, ◌↔◌, ◌⊎◌, Option, none, some, arith, Bool,
  Bool-cases, inl, inr, ◌==◌, if◌then◌else◌, true, false,
}
use zsj_crm.Prelude.Int.{ℤ, pos, negsuc}
use zsj_crm.Integration.Errors.{Thrown, Result, ok, throws, transient, circuit_open}
use zsj_crm.Integration.Breaker.{
  Options, Breaker, closed, half_open, opened, failure, begin, settle, init, execute, turned_away,
}

-- `openMs` have passed since the circuit opened.
abbrev pub Rested : Options → ℕ → Option ℕ → Type 0
Rested o now none = ⊥
Rested o now (some at) = at + o.open_ms ≤ now

abbrev pub Room : ℤ → ℕ → Type 0
Room (pos m) n = m < n
Room (negsuc m) n = Unit

abbrev pub MayEnter : Options → ℕ → Breaker → Type 0
MayEnter o now b =
    (b.state ≡ closed)
    ⊎ ((b.state ≡ opened) × Rested o now b.opened_at)
    ⊎ ((b.state ≡ half_open) × Room b.half_open_active o.half_open_max_calls)

-- A call is let through exactly when the circuit is closed, or its pause of `openMs` is over, or it
-- is half open with fewer than `halfOpenMaxCalls` probes counted.
pub begin-admits_iff :
    (o : Options) (now : ℕ) (b : Breaker)
    → 0 < o.half_open_max_calls
    → ((begin o now b).1 ≢ turned_away) ↔ MayEnter o now b
unfolding begin
begin-admits_iff o now b h = (λ f. ground arith, λ e. ground arith)

-- A call that is turned away changes nothing but what the passing of time changes, and fails with
-- the retryable `circuit_open`, whatever the operation would have done.
pub execute-turned_away :
    {A : Type 0} (o : Options) (counts : Thrown → Bool) (now later : ℕ) (others : Breaker → Breaker)
    (r : Result A) (b : Breaker)
    → 0 < o.half_open_max_calls
    → ¬ (MayEnter o now b)
    → execute o counts now later others r b ≡ (b, throws (transient circuit_open))
unfolding execute
execute-turned_away o counts now later others r b h shut = ground arith

-- One caller's calls, all of which fail and count, all at one time.
pub fail_times : Options → ℕ → ℕ → Breaker → Breaker
fail_times o now zero b = b
fail_times o now (suc k) b =
    settle o now (failure true) false (begin o now (fail_times o now k b)).0

fail_once :
    (o : Options) (now : ℕ) (b : Breaker)
    → b.state ≡ closed
    → suc b.failures < o.failure_threshold
    → settle o now (failure true) false (begin o now b).0 ≡ record b { failures = suc b.failures }
unfolding settle begin
fail_once o now b s h = ground arith

fail_last :
    (o : Options) (now : ℕ) (b : Breaker)
    → b.state ≡ closed
    → suc b.failures ≡ o.failure_threshold
    → settle o now (failure true) false (begin o now b).0 ≡ record {
      state = opened;
      failures = o.failure_threshold;
      opened_at = some now;
      half_open_active = pos 0;
    }
unfolding settle begin
fail_last o now b s h = ground arith

fail_times-closed :
    (o : Options) (now k : ℕ) (b : Breaker)
    → b.state ≡ closed
    → b.failures + k < o.failure_threshold
    → fail_times o now k b ≡ record b { failures = b.failures + k }
unfolding fail_times
fail_times-closed o now zero b s h = ground arith
fail_times-closed o now (suc k) b s h =
    rw (fail_times-closed o now k b s (omega arith))
      (fail_once o now (record b { failures = b.failures + k }) s (omega arith) ∙ ground arith)

-- After up to `failureThreshold` failures in a row, a new circuit is closed and has counted them if
-- they are fewer, and if they are exactly as many, it is open since the time of the last one.
pub fail_times-init :
    (o : Options) (now k : ℕ)
    → 0 < o.failure_threshold
    → k ≤ o.failure_threshold
    → fail_times o now k init ≡ (
        if k == o.failure_threshold
        then record {
          state = opened;
          failures = o.failure_threshold;
          opened_at = some now;
          half_open_active = pos 0;
        }
        else record init { failures = k })
unfolding init fail_times
fail_times-init o now zero h l = ground arith
fail_times-init o now (suc k) h l = elim (Bool-cases (suc k == o.failure_threshold)) [
  | inr e ↦ rw e (fail_times-closed o now (suc k) init refl (ground arith) ∙ ground arith)
  | inl e ↦ rw e (
      rw (fail_times-closed o now k init refl (ground arith))
        (fail_last o now (record init { failures = 0 + k }) refl (ground arith)))
]

-- One call with no other during its wait leaves no probe counted.
pub execute-quiet :
    {A : Type 0} (o : Options) (counts : Thrown → Bool) (now later : ℕ) (r : Result A) (b : Breaker)
    → b.half_open_active ≡ pos 0
    → (execute o counts now later (λ c. c) r b).0.half_open_active ≡ pos 0
unfolding execute
execute-quiet o counts now later (ok a) b h = ground arith
execute-quiet o counts now later (throws e) b h = ground arith
