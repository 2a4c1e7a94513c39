-- ===== src/Integration/Retry/Safety.antt =====
-- Only a policy that passed validation decides on retries, and such a policy is safe.
use zsj_crm.Prelude.{
  ℕ, min, zero, suc, ◌-◌, ◌+◌, ◌≤◌, ◌<◌, ◌≡◌, refl, Bool, true, some, List, [], ◌∷◌, arith, length,
  get_elem?, inl, inr, Option-cases, safe_between_bounds,
}
use zsj_crm.Integration.Errors.{Category, RuntimeError, Thrown, runtime, foreign, ok}
use zsj_crm.Integration.Retry.{
  max_delay_ms, GivenPolicy, Policy, same_category, contains, is_retryable, are_safe, delays,
  validate_retry_policy, calculate_backoff_ms, should_retry,
}

length-delays : (xs : List _) (ds : List ℕ) → delays xs ≡ some ds → length ds ≡ length xs
length-delays [] ds h = ground arith
length-delays (x ∷ xs) ds h = elim (Option-cases (delays xs)) [
  | inl e ↦ ground arith
  | inr (es, e) ↦ ground (arith, length-delays xs es)
]

contains-is_retryable :
    (cs : List Category) (c : Category)
    → are_safe cs ≡ true
    → contains cs c ≡ true
    → is_retryable c ≡ true
unfolding same_category
contains-is_retryable [] c s h = ground arith
contains-is_retryable (d ∷ ds) c s h = ground (arith, contains-is_retryable ds c)

module _ {Ratio : Type 0} (is_unit : Ratio → Bool) where
  pub validated :
      (g : GivenPolicy Ratio) (p : Policy Ratio)
      → validate_retry_policy is_unit g ≡ ok p
      → (1 ≤ p.max_attempts)
        × (p.max_attempts ≤ 10)
        × (length p.backoff_ms + 1 ≡ p.max_attempts)
        × (are_safe p.retryable_categories ≡ true)
  unfolding validate_retry_policy
  validated g p h = ground (
    arith,
    length-delays g.backoff_ms p.backoff_ms,
    safe_between_bounds 1 10 g.max_attempts p.max_attempts,
  )

base_delay-get_elem? : (ds : List ℕ) (i : ℕ) → i < length ds → (d : ℕ) × (get_elem? ds i ≡ some d)
base_delay-get_elem? [] i h = absurd (omega arith)
base_delay-get_elem? (d ∷ ds) zero h = (d, refl)
base_delay-get_elem? (d ∷ ds) (suc i) h = base_delay-get_elem? ds i (omega arith)

module _ {Ratio : Type 0} (is_unit : Ratio → Bool) (jittered : Ratio → ℕ → ℕ) where
  -- With a validated policy every retry, and nothing but a retry, has a delay: the attempts from the
  -- first to the last but one, each with the delay that the policy lists for it, jittered and cut off
  -- at an hour. The default `?? 0` of the code is never used.
  pub calculate_backoff_ms-listed :
      (g : GivenPolicy Ratio) (p : Policy Ratio) (attempt : ℕ)
      → validate_retry_policy is_unit g ≡ ok p
      → 1 ≤ attempt
      → attempt < p.max_attempts
      → (base : ℕ) × (get_elem? p.backoff_ms (attempt - 1) ≡ some base)
        × (calculate_backoff_ms jittered p attempt
            ≡ ok (min max_delay_ms (jittered p.jitter_ratio base)))
  unfolding calculate_backoff_ms
  calculate_backoff_ms-listed g p attempt v lo hi =
      let facts = validated is_unit g p v in
      let (base, e) = base_delay-get_elem? p.backoff_ms (attempt - 1) (omega arith) in
      (base, e, ground arith)

  -- Under a validated policy nothing is retried after its last attempt, and nothing but a retryable
  -- error of one of the four transient categories.
  pub should_retry_safe :
      (g : GivenPolicy Ratio) (p : Policy Ratio) (attempt : ℕ) (t : Thrown)
      → validate_retry_policy is_unit g ≡ ok p
      → should_retry p attempt t ≡ true
      → (attempt < 10)
        × (attempt < p.max_attempts)
        × ((e : RuntimeError) × (t ≡ runtime e)
            × (e.retryable ≡ true)
            × (is_retryable e.category ≡ true))
  unfolding should_retry
  should_retry_safe g p attempt foreign v h = ground arith
  should_retry_safe g p attempt (runtime e) v h =
      let facts = validated is_unit g p v in
      (
        ground arith,
        ground arith,
        (
          e,
          refl,
          ground arith,
          ground (arith, contains-is_retryable p.retryable_categories e.category),
        ),
      )
