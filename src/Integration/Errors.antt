-- ===== src/Integration/Errors.antt =====
-- errors.ts of the integration runtime. The message and the `cause` chain of an error are left out:
-- nothing in the runtime reads them.
use zsj_crm.Prelude.{Bool, true, false, ◌≡◌, refl, ◌⊎◌, inl, inr}

pub data Category : Type 0 where
  authentication cancelled circuit_open concurrency_limited connection internal : Category
  invalid_input invalid_response rate_limited rejected replay_detected signature_invalid : Category
  timeout upstream_unavailable : Category

unfoldable pub Category-discrete : Discrete Category
Category-discrete = hlevel

pub record RuntimeError : Type 0 where
  pub category : Category
  pub retryable : Bool

-- What a `catch` receives: an `IntegrationRuntimeError`, or anything else that was thrown.
pub data Thrown : Type 0 where
  runtime : RuntimeError → Thrown
  foreign : Thrown

pub data Result {ℓ} (A : Type ℓ) : Type ℓ where
  ok : A → Result A
  throws : Thrown → Result A

-- `new IntegrationRuntimeError(category)` and `new IntegrationRuntimeError(category, { retryable:
-- true })`
abbrev pub fatal : Category → Thrown
fatal c = runtime (record { category = c; retryable = false })

abbrev pub transient : Category → Thrown
transient c = runtime (record { category = c; retryable = true })

infixl 5 ◌>>=◌ ◌>>◌
abbrev pub ◌>>=◌ {ℓ₁ ℓ₂} : {X : Type ℓ₁} {Y : Type ℓ₂} → Result X → (X → Result Y) → Result Y
throws t >>= next = throws t
ok x >>= next = next x

abbrev pub ◌>>◌ {ℓ₂} : {Y : Type ℓ₂} → Result (Unit {0}) → Result Y → Result Y
check >> rest = check >>= λ _. rest

-- `if (bad) throw new IntegrationRuntimeError(category)`
abbrev pub throw_if : Bool → Category → Result (Unit {0})
throw_if true c = throws (fatal c)
throw_if false c = ok tt

-- Inversion of a block of which the first step succeeded.
pub >>=-eq-ok {ℓ₁ ℓ₂} :
    {X : Type ℓ₁} {Y : Type ℓ₂} (first : Result X) (next : X → Result Y) {y : Y}
    → (first >>= next) ≡ ok y
    → (x : X) × (first ≡ ok x) × (next x ≡ ok y)
>>=-eq-ok (throws t) next h = cc
>>=-eq-ok (ok x) next h = (x, refl, h)

pub throw_if-eq-ok {ℓ} :
    {B : Type ℓ} (t : Bool) (c : Category) (k : Result B) {b : B}
    → (throw_if t c >> k) ≡ ok b
    → (t ≡ false) × (k ≡ ok b)
throw_if-eq-ok true c k h = cc
throw_if-eq-ok false c k h = (refl, h)

pub Result-cases {ℓ} :
    {A : Type ℓ} (r : Result A) → ((a : A) × (r ≡ ok a)) ⊎ ((t : Thrown) × (r ≡ throws t))
Result-cases (ok a) = inl (a, refl)
Result-cases (throws t) = inr (t, refl)
