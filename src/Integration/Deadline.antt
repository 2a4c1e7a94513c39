-- ===== src/Integration/Deadline.antt =====
-- deadline.ts. Timers and abort signals are outside: what they show at the moments when the code
-- reads them is an argument, and so is what `Promise.race` settles with.
pub mod Phases
use zsj_crm.Prelude.{
  ℕ, ◌+◌, ◌-◌, Bool, ◌||◌, none, some, ltb, ◌==◌, if◌then◌else◌, Number, safe_between, min,
}
use zsj_crm.Integration.Errors.{
  invalid_input, cancelled, timeout, Result, ok, throws, fatal, transient, ◌>>=◌,
}

abbrev pub max_deadline_ms : ℕ
max_deadline_ms = 3600000

pub data Phase : Type 0 where
  connect response : Phase

pub record GivenLimits : Type 0 where
  pub connect_ms : Number
  pub response_ms : Number
  pub total_ms : Number

pub record Limits : Type 0 where
  pub connect_ms : ℕ
  pub response_ms : ℕ
  pub total_ms : ℕ

pub record Budget : Type 0 where
  pub limits : Limits
  pub deadline_at : ℕ

-- `positiveInteger`
abbrev pub positive_integer : Number → Result ℕ
positive_integer x = elim (safe_between 1 max_deadline_ms x) [
  | none ↦ throws (fatal invalid_input)
  | some n ↦ ok n
]

unfoldable pub create_deadline_budget : GivenLimits → ℕ → Result Budget
create_deadline_budget g now = do
  c ← positive_integer g.connect_ms
  r ← positive_integer g.response_ms
  t ← positive_integer g.total_ms
  ok (record {
    limits = record { connect_ms = c; response_ms = r; total_ms = t };
    deadline_at = now + t;
  })

-- What is seen when the race is over: its result, and whether the timer fired and the parent's signal
-- is aborted.
pub record Race (A : Type 0) : Type 0 where
  pub settled : Result A
  pub expired : Bool
  pub parent_aborted : Bool

-- The rest of `runWithDeadline` after the race, on its result and in its `catch`.
abbrev pub race_result : {A : Type 0} → Race A → Result A
race_result r =
    if r.expired
    then throws (transient timeout)
    else if r.parent_aborted
    then throws (fatal cancelled)
    else r.settled

unfoldable pub run_with_deadline : {A : Type 0} → ℕ → Bool → (ℕ → Race A) → Result A
run_with_deadline timeout_ms parent_aborted race =
    if timeout_ms == 0 || ltb max_deadline_ms timeout_ms
    then throws (fatal invalid_input)
    else if parent_aborted
    then throws (fatal cancelled)
    else race_result (race timeout_ms)

-- `remainingMs`: `Math.max(0, …)` is the subtraction of natural numbers.
unfoldable pub remaining_ms : Budget → ℕ → ℕ
remaining_ms b now = b.deadline_at - now

-- What the signals of a budget show: its own, its timer, and the caller's.
pub record Signals : Type 0 where
  pub total_aborted : Bool
  pub total_expired : Bool
  pub caller_aborted : Bool

abbrev pub phase_limit : Phase → Limits → ℕ
phase_limit connect l = l.connect_ms
phase_limit response l = l.response_ms

abbrev pub relabel : {A : Type 0} → Signals → Result A → Result A
relabel s (ok a) = ok a
relabel s (throws e) =
    if s.total_expired
    then (if s.caller_aborted then throws e else throws (transient timeout))
    else throws e

unfoldable pub run_phase :
    {A : Type 0} → Budget → Phase → ℕ → Signals → Signals → (ℕ → Race A) → Result A
unfolding run_with_deadline remaining_ms
run_phase b phase now before after race =
    if remaining_ms b now == 0 || before.total_aborted
    then (if before.caller_aborted then throws (fatal cancelled) else throws (transient timeout))
    else relabel after (
        run_with_deadline (min (phase_limit phase b.limits) (remaining_ms b now))
          before.total_aborted race)
