-- ===== src/Examples/Calls.antt =====
-- Retries, deadlines and the executor on concrete inputs.
use zsj_crm.Prelude.{
  ℕ, suc, ◌+◌, ◌≤◌, ◌≡◌, refl, Bool, true, false, [], ◌∷◌, nat, arith, length, ltb, leb,
  if◌then◌else◌, All,
}
use zsj_crm.Integration.Errors.{
  Category-discrete, connection, timeout, Result, ok, throws, transient,
}
use zsj_crm.Integration.Retry.{
  GivenPolicy, Policy, validate_retry_policy, should_retry, same_category,
}
use zsj_crm.Integration.Deadline.{
  GivenLimits, Budget, connect, Race, Signals, create_deadline_budget, run_phase,
}
use zsj_crm.Integration.Executor.{
  World, ExecutionPolicy, non_idempotent_write, read, execute, attempts,
}
use zsj_crm.Integration.Executor.Trace.{Counts, Good, execute-Good, execute-once}
use zsj_crm.Integration.Executor.Termination.{attempts-enough}

-- A jitter ratio in per cent.
abbrev is_percentage : ℕ → Bool
is_percentage r = leb r 100

abbrev unchanged : ℕ → ℕ → ℕ
unchanged r base = base

abbrev given_policy : GivenPolicy ℕ
given_policy = record {
  backoff_ms = nat 100 ∷ nat 200 ∷ [];
  jitter_ratio = 20;
  max_attempts = nat 3;
  retryable_categories = connection ∷ timeout ∷ [];
}

abbrev policy : Policy ℕ
policy = record {
  backoff_ms = 100 ∷ 200 ∷ [];
  jitter_ratio = 20;
  max_attempts = 3;
  retryable_categories = connection ∷ timeout ∷ [];
}

valid_policy : validate_retry_policy is_percentage given_policy ≡ ok policy
unfolding validate_retry_policy same_category Category-discrete
valid_policy = refl

retried_here : should_retry policy 2 (transient timeout) ≡ true
unfolding should_retry same_category Category-discrete
retried_here = refl

abbrev given_limits : GivenLimits
given_limits = record { connect_ms = nat 50; response_ms = nat 200; total_ms = nat 500 }

abbrev budget : Budget
budget = record {
  limits = record { connect_ms = 50; response_ms = 200; total_ms = 500 };
  deadline_at = 1500;
}

budget_created : create_deadline_budget given_limits 1000 ≡ ok budget
unfolding create_deadline_budget
budget_created = refl

abbrev calm : Signals
calm = record { total_aborted = false; total_expired = false; caller_aborted = false }

-- An operation that takes 30 milliseconds.
abbrev answering : ℕ → Race ℕ
answering t = record { settled = ok 7; expired = leb t 30; parent_aborted = false }

answered : run_phase budget connect 1100 calm calm answering ≡ ok 7
unfolding run_phase
answered = refl

abbrev call_world_step : ℕ → Result ℕ
call_world_step s = if ltb s 2 then throws (transient timeout) else ok 7

-- A world that counts the operations; the first two time out.
abbrev world : World ℕ ℕ ℕ
world = record {
  budget_aborted = λ s. false;
  caller_aborted = λ s. false;
  remaining = λ s. 500;
  check_rate = λ s. (s, true);
  guarded = λ f s. f s;
  operate = λ attempt left s. (suc s, call_world_step s);
  jittered = λ s r base. base;
  sleep = λ ms s. (s, ok tt);
}

abbrev reading : ExecutionPolicy ℕ
reading = record {
  deadlines = given_limits;
  operation_id = b'e' ∷ b'r' ∷ b'p' ∷ [];
  retry = given_policy;
  safety = read;
}

abbrev writing : ExecutionPolicy ℕ
writing = record {
  deadlines = given_limits;
  operation_id = b'e' ∷ b'r' ∷ b'p' ∷ [];
  retry = record {
    backoff_ms = [];
    jitter_ratio = 0;
    max_attempts = nat 1;
    retryable_categories = [];
  };
  safety = non_idempotent_write;
}

execute-Good_example : Good world 10 10 1 (execute world is_percentage 1000 reading 0)
execute-Good_example = execute-Good world is_percentage 1000 reading 0

-- The state of that world is the count.
abbrev calls : ℕ → ℕ
calls s = s

world-Counts : Counts world calls
world-Counts = record {
  operate_once = λ attempt left s. omega arith;
  guard_once = λ f h s. h s;
  check_none = λ s. refl;
  sleep_none = λ ms s. refl;
}

execute-once_example :
    ((execute world is_percentage 1000 writing 0).0 ≤ 1)
    × (length (execute world is_percentage 1000 writing 0).2 ≤ 1)
    × All (λ v. v.retrying ≡ false) (execute world is_percentage 1000 writing 0).2
execute-once_example = execute-once world is_percentage 1000 writing 0 calls world-Counts refl

attempts-enough_example :
    attempts world policy (policy.max_attempts + 4) 1 0
    ≡ attempts world policy policy.max_attempts 1 0
attempts-enough_example = attempts-enough world policy 4 0 (omega arith)
