-- ===== src/Integration/Executor/Termination.antt =====
-- The loop of the executor ends by itself: what the code does after its last round is never reached.
use zsj_crm.Prelude.{
  ℕ, zero, suc, ◌+◌, ◌-◌, sym, ◌≤◌, ◌≡◌, refl, ◌∙◌, ap, Bool, true, false, arith, inl, inr,
  Bool-cases,
}
use mathlib.Core.Path.{fun_ext}
use zsj_crm.Integration.Errors.{Thrown, runtime, foreign, Result, ok, throws}
use zsj_crm.Integration.Retry.{Policy, should_retry}
use zsj_crm.Integration.Executor.{
  World, Outcome, attempted, rated, round, attempts, inner, classify_budget_expiry,
}

should_retry-last :
    {Ratio : Type 0} (p : Policy Ratio) (n : ℕ) (e : Thrown)
    → p.max_attempts ≤ n
    → should_retry p n e ≡ false
unfolding should_retry
should_retry-last p n foreign h = refl
should_retry-last p n (runtime e) h = ground arith

suc_plus : (a b : ℕ) → suc a + b ≡ suc (a + b)
suc_plus a b = omega arith

module _ {Ratio S A : Type 0} (w : World Ratio S A) (p : Policy Ratio) where
  module _ (n : ℕ) (last : p.max_attempts ≤ n) (next other : S → Outcome w) where
    attempted-last : (x : S × Result A) → attempted w p next n x ≡ attempted w p other n x
    attempted-last (s, ok a) = refl
    attempted-last (s, throws e) = rw (should_retry-last p n (classify_budget_expiry w s e) last)

    rated-last : (x : S × Bool) → rated w p next n x ≡ rated w p other n x
    rated-last (s, true) = attempted-last (w.guarded (inner w n) s)
    rated-last (s, false) = refl

    round-last : (s : S) → round w p next n s ≡ round w p other n s
    unfolding round
    round-last s = elim (Bool-cases (w.budget_aborted s)) [
      | inl t ↦ rw t
      | inr f ↦ rw f (rated-last (w.check_rate s))
    ]

  attempts-extra :
      (left extra n : ℕ) (s : S)
      → p.max_attempts ≤ n + left
      → attempts w p (suc (left + extra)) n s ≡ attempts w p (suc left) n s
  unfolding attempts
  attempts-extra zero extra n s h = round-last n (omega arith) _ _ s
  attempts-extra (suc left) extra n s h =
      ap (λ k. attempts w p (suc k) n s) (suc_plus left extra)
      ∙ ap (λ next. round w p next n s)
          (fun_ext (λ t. attempts-extra left extra (suc n) t (omega arith)))

  -- With at least one attempt allowed, any number of rounds beyond `maxAttempts` makes no difference:
  -- the loop has returned or thrown by then, so the `internal` error behind it is never thrown.
  pub attempts-enough :
      (extra : ℕ) (s : S)
      → 1 ≤ p.max_attempts
      → attempts w p (p.max_attempts + extra) 1 s ≡ attempts w p p.max_attempts 1 s
  attempts-enough extra s h =
      let e : p.max_attempts ≡ suc (p.max_attempts - 1) = omega arith in
      ap (λ k. attempts w p k 1 s) {x = p.max_attempts + extra}
        {y = suc ((p.max_attempts - 1) + extra)} (omega arith)
      ∙ attempts-extra (p.max_attempts - 1) extra 1 s (omega arith)
      ∙ ap (λ k. attempts w p k 1 s) (sym e)
