-- ===== src/Integration/Breaker/Invariant.antt =====
-- What holds of a breaker after any interleaving of calls.
use zsj_crm.Prelude.{ℕ, ◌<◌, ◌≡◌, Option, none, some, List, [], ◌∷◌, arith, Bool}
use zsj_crm.Prelude.Int.{AtMost}
use zsj_crm.Integration.Errors.{ok}
use zsj_crm.Integration.Breaker.{
  Options, Breaker, closed, Outcome, Event, arrive, complete, observe, System, refresh, begin,
  settle, init, step, run, fresh, GivenOptions, validate_options, take_out, completed, arrived,
  turned_away, admitted, Admission,
}

pub record Inv (o : Options) (b : Breaker) : Type 0 where
  -- Never more probes are counted than the options allow.
  pub probes : AtMost b.half_open_active o.half_open_max_calls
  -- A closed circuit has not yet seen enough failures.
  pub below : b.state ≡ closed → b.failures < o.failure_threshold
  -- Exactly the closed circuit has no opening time.
  pub dated : b.opened_at ≡ none → b.state ≡ closed
  pub undated : b.state ≡ closed → b.opened_at ≡ none

refresh-Inv : (o : Options) (now : ℕ) (b : Breaker) → Inv o b → Inv o (refresh o now b)
unfolding refresh
refresh-Inv o now b h = ground arith

begin-Inv : (o : Options) (now : ℕ) (b : Breaker) → Inv o b → Inv o (begin o now b).0
unfolding begin
begin-Inv o now b h = ground arith

settle-Inv :
    (o : Options) (now : ℕ) (r : Outcome) (p : Bool) (b : Breaker)
    → 0 < o.failure_threshold
    → Inv o b
    → Inv o (settle o now r p b)
unfolding settle
settle-Inv o now r p b t h = ground arith

arrived-Inv :
    (o : Options) (calls : List Bool) (a : Breaker × Admission)
    → Inv o a.0
    → Inv o (arrived calls a).breaker
arrived-Inv o calls (b, turned_away) h = h
arrived-Inv o calls (b, admitted p) h = h

completed-Inv :
    (o : Options) (r : Outcome) (now : ℕ) (s : System) (t : Option (Bool × List Bool))
    → 0 < o.failure_threshold
    → Inv o s.breaker
    → Inv o (completed o r now s t).breaker
completed-Inv o r now s none t h = h
completed-Inv o r now s (some (p, rest)) t h = settle-Inv o now r p s.breaker t h

step-Inv :
    (o : Options) (s : System) (e : Event)
    → 0 < o.failure_threshold
    → Inv o s.breaker
    → Inv o (step o s e).breaker
unfolding step
step-Inv o s (arrive now) t h =
    arrived-Inv o s.in_flight (begin o now s.breaker) (begin-Inv o now s.breaker h)
step-Inv o s (complete i r now) t h = completed-Inv o r now s (take_out i s.in_flight) t h
step-Inv o s (observe now) t h = refresh-Inv o now s.breaker h

run-Inv :
    (o : Options) (s : System) (es : List Event)
    → 0 < o.failure_threshold
    → Inv o s.breaker
    → Inv o (run o s es).breaker
unfolding run
run-Inv o s [] t h = h
run-Inv o s (e ∷ es) t h = run-Inv o (step o s e) es t (step-Inv o s e t h)

pub validate_options-pos :
    (g : GivenOptions) (o : Options)
    → validate_options g ≡ ok o
    → (0 < o.failure_threshold) × (0 < o.half_open_max_calls) × (0 < o.open_ms)
unfolding validate_options
validate_options-pos g o h = ground arith

-- With options that passed validation, after any interleaving of arriving, completing and observed
-- calls: the counted probes do not exceed `halfOpenMaxCalls`, a closed circuit has fewer failures
-- than the threshold, and exactly a closed circuit has no opening time.
pub run-Inv_of_valid :
    (g : GivenOptions) (o : Options) (es : List Event)
    → validate_options g ≡ ok o
    → Inv o (run o fresh es).breaker
unfolding init
run-Inv_of_valid g o es valid =
    let (threshold, calls, ms) = validate_options-pos g o valid in
    run-Inv o fresh es threshold (ground arith)
