-- ===== src/Integration/RateLimit/Windows.antt =====
-- How many calls a fixed window lets through, and when a refused call may be repeated.
use zsj_crm.Prelude.{
  ℕ, ◌+◌, ◌-◌, ◌*◌, ◌≤◌, ◌<◌, ◌≡◌, min, true, false, List, [], ◌∷◌, leb, arith, All,
  All-map_implies, length, Bool-cases, inl, inr, Number,
}
use zsj_crm.Integration.Errors.{ok}
use zsj_crm.Integration.RateLimit.{Options, Limiter, check, allowed_calls, create}

pub create-pos :
    (limit window : Number) (now : ℕ) (o : Options) (s : Limiter)
    → create limit window now ≡ ok (o, s)
    → (0 < o.limit) × (0 < o.window_ms) × (s.used ≡ 0) × (s.window_start ≡ now)
unfolding create
create-pos limit window now o s h = ground arith

-- The limiter counts at most `limit` calls.
pub check-bounded :
    (o : Options) (t : ℕ) (s : Limiter) → s.used ≤ o.limit → (check o t s).0.used ≤ o.limit
unfolding check
check-bounded o t s h = ground arith

-- Within the current window exactly the first `limit - used` calls are allowed.
pub allowed_calls-window :
    (o : Options) (s : Limiter) (ts : List ℕ)
    → s.used ≤ o.limit
    → All (λ t. t < s.window_start + o.window_ms) ts
    → allowed_calls o s ts ≡ min (o.limit - s.used) (length ts)
unfolding allowed_calls check
allowed_calls-window o s [] h w = omega arith
allowed_calls-window o s (t ∷ ts) h w = ground (
  arith,
  allowed_calls-window o s ts,
  allowed_calls-window o (record s { used = s.used + 1 }) ts,
  w.0,
)

-- A check that opens a new window leaves room for at most `limit` calls before that window ends.
span_reset :
    (o : Options) (s : Limiter) (t₀ t : ℕ) (ts : List ℕ)
    → leb (s.window_start + o.window_ms) t ≡ true
    → t₀ ≤ t
    → All (λ x. (t₀ ≤ x) × (x < t₀ + o.window_ms)) ts
    → allowed_calls o s (t ∷ ts) ≤ o.limit
unfolding allowed_calls check
span_reset o s t₀ t ts e h w =
    let later : All (λ x. x < t + o.window_ms) ts =
      All-map_implies (λ x. (t₀ ≤ x) × (x < t₀ + o.window_ms)) (λ x. x < t + o.window_ms)
        (λ x b. omega arith) ts w in
    ground (
      arith,
      allowed_calls-window o (record { window_start = t; used = 1 }) ts,
      allowed_calls-window o (record { window_start = t; used = 0 }) ts,
    )

-- In any span of `windowMs` milliseconds, wherever it begins, at most twice the limit is allowed.
pub allowed_calls-span :
    (o : Options) (s : Limiter) (t₀ : ℕ) (ts : List ℕ)
    → s.used ≤ o.limit
    → All (λ t. (t₀ ≤ t) × (t < t₀ + o.window_ms)) ts
    → allowed_calls o s ts + s.used ≤ 2 * o.limit
unfolding allowed_calls check
allowed_calls-span o s t₀ [] h w = omega arith
allowed_calls-span o s t₀ (t ∷ ts) h w = elim (Bool-cases (leb (s.window_start + o.window_ms) t)) [
  | inl e ↦ ground (arith, span_reset o s t₀ t ts e w.0.0 w.1)
  | inr e ↦ ground (
    arith,
    allowed_calls-span o s t₀ ts h w.1,
    allowed_calls-span o (record s { used = s.used + 1 }) t₀ ts,
  )
]

-- A refused call says exactly how long to wait: asked again that much later or more, with no call
-- in between, the limiter allows it, and asked again before, it refuses.
pub retry_after_exact :
    (o : Options) (s : Limiter) (now later : ℕ)
    → 0 < o.limit
    → (check o now s).1.allowed ≡ false
    → (check o later (check o now s).0).1.allowed
      ≡ leb (now + (check o now s).1.retry_after_ms) later
unfolding check
retry_after_exact o s now later h e = ground arith
