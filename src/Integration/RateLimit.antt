-- ===== src/Integration/RateLimit.antt =====
-- limits.ts, `createFixedWindowRateLimiter`. The clock's reading is an argument of each call.
pub mod Windows
use zsj_crm.Prelude.{
  ℕ, suc, ◌+◌, ◌-◌, Bool, true, false, Option, some, List, [], ◌∷◌, leb, if◌then◌else◌, Number,
  safe_from,
}
use zsj_crm.Integration.Errors.{invalid_input, Result, ok, throws, fatal}

pub record Options : Type 0 where
  pub limit : ℕ
  pub window_ms : ℕ

-- The variables of the limiter's closure.
pub record Limiter : Type 0 where
  pub window_start : ℕ
  pub used : ℕ

pub record Decision : Type 0 where
  pub allowed : Bool
  pub remaining : ℕ
  pub retry_after_ms : ℕ

abbrev with_options : Option ℕ → Option ℕ → ℕ → Result (Options × Limiter)
with_options (some l) (some w) now =
    ok (record { limit = l; window_ms = w }, record { window_start = now; used = 0 })
with_options _ _ now = throws (fatal invalid_input)

unfoldable pub create : Number → Number → ℕ → Result (Options × Limiter)
create limit window_ms now = with_options (safe_from 1 limit) (safe_from 1 window_ms) now

abbrev in_window : Options → ℕ → Limiter → Limiter
in_window o current s =
    if leb (s.window_start + o.window_ms) current
    then record { window_start = current; used = 0 }
    else s

abbrev count_call : Options → ℕ → Limiter → Limiter × Decision
count_call o current s =
    if leb o.limit s.used
    then (
      s,
      record {
        allowed = false;
        remaining = 0;
        retry_after_ms = s.window_start + o.window_ms - current;
      },
    )
    else (
      record s { used = s.used + 1 },
      record { allowed = true; remaining = o.limit - (s.used + 1); retry_after_ms = 0 },
    )

-- `Math.max(0, …)` is the subtraction of natural numbers.
unfoldable pub check : Options → ℕ → Limiter → Limiter × Decision
check o current s = count_call o current (in_window o current s)

-- The calls at the given times, and how many of them are allowed.
pub allowed_calls : Options → Limiter → List ℕ → ℕ
allowed_calls o s [] = 0
allowed_calls o s (t ∷ ts) =
    let rest = allowed_calls o (check o t s).0 ts in
    if (check o t s).1.allowed then suc rest else rest
