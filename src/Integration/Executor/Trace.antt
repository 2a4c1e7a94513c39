-- ===== src/Integration/Executor/Trace.antt =====
-- What an execution shows to its observer.
use zsj_crm.Prelude.{
  ℕ, zero, suc, ◌+◌, ◌≤◌, ◌<◌, ltb, ◌≡◌, refl, Bool, true, false, List, [], ◌∷◌, arith, length, All,
  inl, inr, Bool-cases,
}
use zsj_crm.Integration.Retry.Safety.{validated}
use zsj_crm.Integration.Errors.{Thrown, runtime, foreign, Result, ok, throws}
use zsj_crm.Integration.Retry.{Policy, should_retry, calculate_backoff_ms, validate_retry_policy}
use zsj_crm.Integration.Executor.{
  ExecutionPolicy, non_idempotent_write, Observed, ObservedOutcome, failed, succeeded, World,
  Outcome, operated, recorded, slept, back_off, caught, attempted, rated, round, attempts, started,
  admit, execute, inner, classify_budget_expiry, is_retrying, failure_event,
}

abbrev pub is_ok : {A : Type 0} → Result A → Bool
is_ok (ok a) = true
is_ok (throws e) = false

abbrev pub is_succeeded : ObservedOutcome → Bool
is_succeeded succeeded = true
is_succeeded _ = false

-- Events of attempts n, n + 1, …: each but the last is a failure that will be retried, and the last
-- is a success exactly when the execution returns a result. With no event there is no result.
abbrev pub Shows : ℕ → List Observed → Bool → Type 0
Shows n [] r = r ≡ false
Shows n (e ∷ []) r = (e.attempt ≡ n) × (r ≡ is_succeeded e.outcome)
Shows n (e ∷ f ∷ es) r =
    (e.attempt ≡ n) × (e.outcome ≡ failed) × (e.retrying ≡ true) × Shows (suc n) (f ∷ es) r

Shows-cons :
    (n : ℕ) (e : Observed) (es : List Observed) (r : Bool)
    → e.attempt ≡ n
    → e.outcome ≡ failed
    → e.retrying ≡ true
    → Shows (suc n) es r
    → Shows n (e ∷ es) r
Shows-cons n e [] r a o t h = (a, ground arith)
Shows-cons n e (f ∷ es) r a o t h = (a, o, t, h)

should_retry-lt :
    {Ratio : Type 0} (p : Policy Ratio) (n : ℕ) (e : Thrown)
    → should_retry p n e ≡ true
    → n < p.max_attempts
unfolding should_retry
should_retry-lt p n foreign h = ground arith
should_retry-lt p n (runtime e) h = ground arith

-- No event of an attempt past the m-th is marked as one that will be retried.
abbrev pub RetriedBelow : ℕ → List Observed → Type 0
RetriedBelow m = All (λ e. e.retrying ≡ true → e.attempt < m)

module _ {Ratio S A : Type 0} (w : World Ratio S A) (m : ℕ) where
  -- The form of the events of one outcome, and their number.
  abbrev pub Good : ℕ → ℕ → Outcome w → Type 0
  Good left n (s, r, es) = Shows n es (is_ok r) × (length es ≤ left) × RetriedBelow m es

  module _ (p : Policy Ratio) (fits : p.max_attempts ≤ m) (left n : ℕ) (next : S → Outcome w)
      (ih : (s : S) → Good left (suc n) (next s)) where
    slept-Good : (x : S × Result (Unit {0})) → Good left (suc n) (slept w next x)
    slept-Good (s, ok _) = ih s
    slept-Good (s, throws e) = (refl, omega arith, tt)

    back_off-Good : (s : S) (d : Result ℕ) → Good left (suc n) (back_off w next s d)
    back_off-Good s (ok ms) = slept-Good (w.sleep ms s)
    back_off-Good s (throws e) = (refl, omega arith, tt)

    recorded-Good :
        (e : Observed) (o : Outcome w)
        → e.attempt ≡ n
        → e.outcome ≡ failed
        → e.retrying ≡ true
        → n < m
        → Good left (suc n) o
        → Good (suc left) n (recorded w e o)
    recorded-Good e (s, r, es) a f t l (h, b, z) =
        (Shows-cons n e es (is_ok r) a f t h, omega arith, (λ _. omega arith, z))

    caught-Good : (s : S) (e : Thrown) → Good (suc left) n (caught w p next n s e)
    caught-Good s e = elim (Bool-cases (is_retrying w p n s e)) [
      | inl t ↦
          let below : n < p.max_attempts = should_retry-lt p n e (ground arith) in
          rw t (
            recorded-Good (record (failure_event w p n s e) { retrying = true })
              (back_off w next s (calculate_backoff_ms (w.jittered s) p n)) refl refl refl
              (omega arith) (back_off-Good s (calculate_backoff_ms (w.jittered s) p n)))
      | inr f ↦ rw f ((refl, refl), omega arith, (λ t. cc, tt))
    ]

    attempted-Good : (x : S × Result A) → Good (suc left) n (attempted w p next n x)
    attempted-Good (s, ok a) = ((refl, refl), omega arith, (λ t. cc, tt))
    attempted-Good (s, throws e) = caught-Good s (classify_budget_expiry w s e)

    rated-Good : (x : S × Bool) → Good (suc left) n (rated w p next n x)
    rated-Good (s, true) = attempted-Good (w.guarded (inner w n) s)
    rated-Good (s, false) = ((refl, refl), omega arith, (λ t. cc, tt))

    round-Good : (s : S) → Good (suc left) n (round w p next n s)
    unfolding round
    round-Good s = elim (Bool-cases (w.budget_aborted s)) [
      | inl t ↦ rw t (refl, omega arith, tt)
      | inr f ↦ rw f (rated-Good (w.check_rate s))
    ]

  attempts-Good :
      (p : Policy Ratio)
      → p.max_attempts ≤ m
      → (left n : ℕ) (s : S) → Good left n (attempts w p left n s)
  unfolding attempts
  attempts-Good p fits zero n s = (refl, omega arith, tt)
  attempts-Good p fits (suc left) n s =
      round-Good p fits left n (attempts w p left (suc n))
        (λ t. attempts-Good p fits left (suc n) t) s

  started-Good :
      (s : S) (r : Result (Policy Ratio))
      → ((p : Policy Ratio) → r ≡ ok p → p.max_attempts ≤ m)
      → Good m 1 (started w s r)
  started-Good s (throws e) h = (refl, omega arith, tt)
  started-Good s (ok p) h =
      let g = attempts-Good p (h p refl) p.max_attempts 1 s in (g.0, omega (arith, h p refl), g.2)

admitted_policy :
    {Ratio : Type 0} (is_unit : Ratio → Bool) (now : ℕ) (e : ExecutionPolicy Ratio)
    (p : Policy Ratio)
    → admit is_unit now e ≡ ok p
    → (validate_retry_policy is_unit e.retry ≡ ok p)
      × (e.safety ≡ non_idempotent_write → p.max_attempts ≡ 1)
unfolding admit
admitted_policy is_unit now e p h = (ground arith, ground arith)

not_retried :
    (es : List Observed) (r : Bool)
    → Shows 1 es r
    → length es ≤ 1
    → RetriedBelow 1 es
    → All (λ v. v.retrying ≡ false) es
not_retried [] r h b z = tt
not_retried (v ∷ []) r h b z = (ground (arith, z.0), tt)
not_retried (v ∷ u ∷ es) r h b z = absurd (omega arith)

-- What is counted of the world: of the executor's surroundings, the operation alone adds to the count,
-- one at most each time it is called; and what stands around it, the concurrency limiter and the circuit
-- breaker, calls what it guards once at most, so that it adds no more than one call of that does.
pub record Counts {Ratio S A : Type 0} (w : World Ratio S A) (count : S → ℕ) : Type 0 where
  pub operate_once : (attempt left : ℕ) (s : S) → count (w.operate attempt left s).0 ≤ suc (count s)
  pub guard_once :
      (f : S → S × Result A)
      → ((s : S) → count (f s).0 ≤ suc (count s))
      → (s : S) → count (w.guarded f s).0 ≤ suc (count s)
  pub check_none : (s : S) → count (w.check_rate s).0 ≡ count s
  pub sleep_none : (ms : ℕ) (s : S) → count (w.sleep ms s).0 ≡ count s

module _ {Ratio S A : Type 0} (w : World Ratio S A) (count : S → ℕ) (k : Counts w count) where
  operated-count : (x : S × Result A) → count (operated w x).0 ≡ count x.0
  operated-count (s, ok a) = ground arith
  operated-count (s, throws e) = refl

  inner-count : (n : ℕ) (s : S) → count (inner w n s).0 ≤ suc (count s)
  unfolding inner
  inner-count n s = elim (Bool-cases (ltb (w.remaining s) 1)) [
    | inl t ↦ rw t (omega arith)
    | inr f ↦
        let o = operated-count (w.operate n (w.remaining s) s) in
        let p = k.operate_once n (w.remaining s) s in rw f (omega (arith, o, p))
  ]

  module _ (p : Policy Ratio) (left n : ℕ) (next : S → Outcome w)
      (ih : (s : S) → count (next s).0 ≤ left + count s) where
    slept-count : (x : S × Result (Unit {0})) → count (slept w next x).0 ≤ left + count x.0
    slept-count (s, ok _) = ih s
    slept-count (s, throws e) = omega arith

    back_off-count : (s : S) (d : Result ℕ) → count (back_off w next s d).0 ≤ left + count s
    back_off-count s (ok ms) =
        let h = slept-count (w.sleep ms s) in let q = k.sleep_none ms s in omega (arith, h, q)
    back_off-count s (throws e) = omega arith

    caught-count : (s : S) (e : Thrown) → count (caught w p next n s e).0 ≤ left + count s
    caught-count s e = elim (Bool-cases (is_retrying w p n s e)) [
      | inl t ↦ rw t (back_off-count s (calculate_backoff_ms (w.jittered s) p n))
      | inr f ↦ rw f (omega arith)
    ]

    attempted-count : (x : S × Result A) → count (attempted w p next n x).0 ≤ left + count x.0
    attempted-count (s, ok a) = omega arith
    attempted-count (s, throws e) = caught-count s (classify_budget_expiry w s e)

    rated-count : (x : S × Bool) → count (rated w p next n x).0 ≤ suc left + count x.0
    rated-count (s, true) =
        let h = attempted-count (w.guarded (inner w n) s) in
        let q = k.guard_once (inner w n) (inner-count n) s in omega (arith, h, q)
    rated-count (s, false) = omega arith

    round-count : (s : S) → count (round w p next n s).0 ≤ suc left + count s
    unfolding round
    round-count s = elim (Bool-cases (w.budget_aborted s)) [
      | inl t ↦ rw t (omega arith)
      | inr f ↦
          let h = rated-count (w.check_rate s) in
          let q = k.check_none s in rw f (omega (arith, h, q))
    ]

  -- As many calls of the operation as rounds are left, at most.
  attempts-count :
      (p : Policy Ratio) (left n : ℕ) (s : S) → count (attempts w p left n s).0 ≤ left + count s
  unfolding attempts
  attempts-count p zero n s = omega arith
  attempts-count p (suc left) n s =
      round-count p left n (attempts w p left (suc n)) (λ t. attempts-count p left (suc n) t) s

  started-count :
      (m : ℕ) (s : S) (r : Result (Policy Ratio))
      → ((p : Policy Ratio) → r ≡ ok p → p.max_attempts ≤ m)
      → count (started w s r).0 ≤ m + count s
  started-count m s (throws e) h = omega arith
  started-count m s (ok p) h =
      let a = attempts-count p p.max_attempts 1 s in let b = h p refl in omega (arith, a, b)

module _ {Ratio S A : Type 0} (w : World Ratio S A) (is_unit : Ratio → Bool) (now : ℕ)
    (e : ExecutionPolicy Ratio) (s : S) where
  -- Whatever the world does: an execution records at most ten attempts, numbered from one; each but
  -- the last is a failure that is retried; the last is a success exactly when a result is returned;
  -- and nothing is retried after the tenth.
  pub execute-Good : Good w 10 10 1 (execute w is_unit now e s)
  unfolding execute
  execute-Good =
      started-Good w 10 s (admit is_unit now e)
        λ p h. (validated is_unit e.retry p (admitted_policy is_unit now e p h).0).1

  -- The operation of a write that is not idempotent is called once at most, where the concurrency
  -- limiter and the circuit breaker call what they guard once at most; one attempt at most is recorded,
  -- and none is marked for a retry.
  pub execute-once :
      (count : S → ℕ)
      → Counts w count
      → e.safety ≡ non_idempotent_write
      → (count (execute w is_unit now e s).0 ≤ suc (count s))
        × (length (execute w is_unit now e s).2 ≤ 1)
        × All (λ v. v.retrying ≡ false) (execute w is_unit now e s).2
  unfolding execute
  execute-once count k h =
      let one : (p : Policy Ratio) → admit is_unit now e ≡ ok p → p.max_attempts ≤ 1 =
        λ p a. omega (arith, (admitted_policy is_unit now e p a).1 h) in
      let calls = started-count w count k 1 s (admit is_unit now e) one in
      let (shown, few, below) = started-Good w 1 s (admit is_unit now e) one in
      (omega (arith, calls), few, not_retried _ _ shown few below)
