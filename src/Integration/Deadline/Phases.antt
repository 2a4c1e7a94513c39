-- ===== src/Integration/Deadline/Phases.antt =====
-- A phase of a budgeted call stays within its own limit and within the whole deadline.
use zsj_crm.Prelude.{ℕ, ◌+◌, ◌-◌, ◌≤◌, ◌<◌, ◌≡◌, false, arith, min, if◌then◌else◌}
use zsj_crm.Integration.Errors.{cancelled, timeout, ok, throws, fatal, transient}
use zsj_crm.Integration.Deadline.{
  Phase, connect, response, GivenLimits, Budget, max_deadline_ms, create_deadline_budget, Race,
  race_result, Signals, phase_limit, relabel, run_phase,
}

limit_bounds :
    (g : GivenLimits) (start : ℕ) (b : Budget) (p : Phase)
    → create_deadline_budget g start ≡ ok b
    → (1 ≤ phase_limit p b.limits) × (phase_limit p b.limits ≤ max_deadline_ms)
unfolding create_deadline_budget
limit_bounds g start b connect h = ground arith
limit_bounds g start b response h = ground arith

-- While the budget lasts, the operation of a phase is started with a timeout of at least one
-- millisecond, at most the limit of the phase, which ends by the deadline; and nothing but the race
-- and the signals decides the result, so the timeout itself is never refused as invalid.
pub run_phase-timeout :
    {A : Type 0} (g : GivenLimits) (start : ℕ) (b : Budget) (p : Phase) (now : ℕ)
    (before after : Signals) (race : ℕ → Race A)
    → create_deadline_budget g start ≡ ok b
    → now < b.deadline_at
    → before.total_aborted ≡ false
    → (t : ℕ) × (1 ≤ t)
      × (t ≤ phase_limit p b.limits)
      × (now + t ≤ b.deadline_at)
      × (run_phase b p now before after race ≡ relabel after (race_result (race t)))
unfolding run_phase
run_phase-timeout g start b p now before after race v h q =
    let bounds = limit_bounds g start b p v in
    (
      min (phase_limit p b.limits) (b.deadline_at - now),
      omega arith,
      omega arith,
      omega arith,
      ground arith,
    )

-- A phase that begins at the deadline or later does not start its operation.
pub run_phase-late :
    {A : Type 0} (b : Budget) (p : Phase) (now : ℕ) (before after : Signals) (race : ℕ → Race A)
    → b.deadline_at ≤ now
    → run_phase b p now before after race
      ≡ throws (if before.caller_aborted then fatal cancelled else transient timeout)
unfolding run_phase
run_phase-late b p now before after race h = ground arith

-- A result gets through a phase only if neither the timer nor a signal ended it first.
pub run_phase-ok :
    {A : Type 0} (b : Budget) (p : Phase) (now : ℕ) (before after : Signals) (race : ℕ → Race A)
    (a : A)
    → run_phase b p now before after race ≡ ok a
    → (now < b.deadline_at)
      × (before.total_aborted ≡ false)
      × ((t : ℕ) × (now + t ≤ b.deadline_at)
          × ((race t).settled ≡ ok a)
          × ((race t).expired ≡ false)
          × ((race t).parent_aborted ≡ false))
unfolding run_phase
run_phase-ok b p now before after race a h = (
  ground arith,
  ground arith,
  (
    min (phase_limit p b.limits) (b.deadline_at - now),
    ground arith,
    ground arith,
    ground arith,
    ground arith,
  ),
)
