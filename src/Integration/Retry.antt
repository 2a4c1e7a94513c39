-- ===== src/Integration/Retry.antt =====
-- retry.ts. The jitter ratio is a floating-point number: its type and the two things that the code
-- does with it, the test for the unit interval and the rounded product, are parameters.
pub mod Safety
use zsj_crm.Prelude.{
  ℕ, ◌-◌, Bool, true, false, ◌&&◌, not, Option, none, some, List, [], ◌∷◌, leb, ltb, ◌==◌,
  if◌then◌else◌, Number, safe_between, length, get_elem?, any, min,
}
use zsj_crm.Integration.Errors.{
  Category, Category-discrete, connection, rate_limited, timeout, upstream_unavailable,
  invalid_input, Thrown, runtime, foreign, Result, ok, throws, fatal, ◌>>=◌, ◌>>◌, throw_if,
}

abbrev pub max_delay_ms : ℕ
max_delay_ms = 3600000

-- A policy as the caller gives it, and after validation.
pub record GivenPolicy (Ratio : Type 0) : Type 0 where
  pub backoff_ms : List Number
  pub jitter_ratio : Ratio
  pub max_attempts : Number
  pub retryable_categories : List Category

pub record Policy (Ratio : Type 0) : Type 0 where
  pub backoff_ms : List ℕ
  pub jitter_ratio : Ratio
  pub max_attempts : ℕ
  pub retryable_categories : List Category

unfoldable pub same_category : Category → Category → Bool
same_category a b = elim (Category-discrete a b) [ yes _ ↦ true | no _ ↦ false ]

abbrev pub contains : List Category → Category → Bool
contains cs c = any (same_category c) cs

-- The set `allowed` of the validation.
abbrev pub is_retryable : Category → Bool
is_retryable connection = true
is_retryable rate_limited = true
is_retryable timeout = true
is_retryable upstream_unavailable = true
is_retryable _ = false

-- `new Set(categories).size === categories.length` and every category is allowed.
abbrev pub are_safe : List Category → Bool
are_safe [] = true
are_safe (c ∷ cs) = not (contains cs c) && (is_retryable c && are_safe cs)

abbrev pub delays : List Number → Option (List ℕ)
delays [] = some []
delays (x ∷ xs) = elim (safe_between 0 max_delay_ms x) [
  | none ↦ none
  | some d ↦ elim (delays xs) [ none ↦ none | some ds ↦ some (d ∷ ds) ]
]

abbrev pub or_invalid : {A : Type 0} → Option A → Result A
or_invalid none = throws (fatal invalid_input)
or_invalid (some a) = ok a

module _ {Ratio : Type 0} (is_unit : Ratio → Bool) where
  unfoldable pub validate_retry_policy : GivenPolicy Ratio → Result (Policy Ratio)
  validate_retry_policy p = do
    attempts ← or_invalid (safe_between 1 10 p.max_attempts)
    throw_if (not (length p.backoff_ms == attempts - 1)) invalid_input
    backoff ← or_invalid (delays p.backoff_ms)
    throw_if (not (is_unit p.jitter_ratio)) invalid_input
    throw_if (not (are_safe p.retryable_categories)) invalid_input
    ok (record {
      backoff_ms = backoff;
      jitter_ratio = p.jitter_ratio;
      max_attempts = attempts;
      retryable_categories = p.retryable_categories;
    })

-- `policy.backoffMs[attempt - 1] ?? 0`
abbrev pub base_delay : List ℕ → ℕ → ℕ
base_delay ds attempt = elim (get_elem? ds (attempt - 1)) [ none ↦ 0 | some d ↦ d ]

module _ {Ratio : Type 0} (jittered : Ratio → ℕ → ℕ) where
  -- `jittered r base` is `Math.round(base * factor)` for the factor that the random draw gives.
  unfoldable pub calculate_backoff_ms : Policy Ratio → ℕ → Result ℕ
  calculate_backoff_ms p attempt =
      if leb 1 attempt && ltb attempt p.max_attempts
      then ok (min max_delay_ms (jittered p.jitter_ratio (base_delay p.backoff_ms attempt)))
      else throws (fatal invalid_input)

unfoldable pub should_retry : {Ratio : Type 0} → Policy Ratio → ℕ → Thrown → Bool
should_retry p attempt foreign = false
should_retry p attempt (runtime e) =
    ltb attempt p.max_attempts && (e.retryable && contains p.retryable_categories e.category)
