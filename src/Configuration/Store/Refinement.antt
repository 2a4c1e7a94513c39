-- ===== src/Configuration/Store/Refinement.antt =====
-- The activations and terminations of the store against a function of time.
use zsj_crm.Prelude.{
  ℕ, ◌≤◌, ◌≡◌, refl, inl, inr, Bool, true, false, not, ◌&&◌, List, [], ◌∷◌, ◌++◌, Option, some,
  none, String, str_eq, arith, Dict, lookup, insert, lookup-insert, Option-cases, any, select,
  length, length-select-le, if◌then◌else◌,
}
use zsj_crm.Prelude.TextOrder.{text_lt, text_le}
use zsj_crm.Configuration.Facts.{
  Scope, Activation, Termination, Event, Item, same_scope, Result, ok, fails,
}
use zsj_crm.Configuration.Store.{
  Store, Outcome, Write, Command, activate, terminate_activation, last_date, ends_after, collides,
  list_effective_activations, execute, attempt,
}
use zsj_crm.Configuration.Store.Timeline.{
  covers, spares, select-activate, select-terminate, ends_after-earlier_end,
}

-- An activation's identifier and the version of the value that it puts in force.
abbrev pub first : List Activation → Option (String × ℕ)
first [] = none
first (a ∷ as') = some (a.activation_id, a.value_version)

-- The activation that the store has in force for a parameter and a scope at a time.
abbrev pub active : {V : Type 0} → String → Scope → String → Store V → Option (String × ℕ)
active key c at s = first (list_effective_activations key (c ∷ []) at s)

abbrev pub is_over : Option Termination → String → Bool
is_over none at = false
is_over (some t) at = not (text_lt at t.effective_to)

abbrev pub contains : String → Scope → String → Activation → Bool
contains key c at a =
    str_eq a.parameter_key key
    && (same_scope c a.scope && (text_le a.effective_from at && ends_after a.effective_to at))

abbrev pub stop : Termination → String → Option (String × ℕ) → Option (String × ℕ)
stop t at none = none
stop t at (some (id, version)) =
    if str_eq t.activation_id id && not (text_lt at t.effective_to)
    then none
    else some (id, version)

covers-contains :
    (key : String) (c : Scope) (at : String) (ts : Dict Termination) (a : Activation)
    → covers ts key c at a ≡ (contains key c at a && not (is_over (lookup a.activation_id ts) at))
covers-contains key c at ts a = elim (Option-cases (lookup a.activation_id ts)) [
  | inl e ↦ elim (Option-cases a.effective_to) [ inl f ↦ ground arith | inr (x, f) ↦ ground arith ]
  | inr (t, e) ↦ let q = ends_after-earlier_end at a.effective_to t in ground arith
]

first-spares :
    (at : String) (t : Termination) (as' : List Activation)
    → length as' ≤ 1
    → first (select (spares t at) as') ≡ stop t at (first as')
first-spares at t [] h = refl
first-spares at t (a ∷ []) h = ground arith
first-spares at t (a ∷ b ∷ as') h = ground arith

module _ {V : Type 0} where
  -- The termination of an activation, in the accepted operations, the latest first.
  abbrev pub ended_by : String → List (Write V) → Option Termination
  ended_by id [] = none
  ended_by id (terminate_activation t e ∷ ws) =
      if str_eq t.activation_id id then some t else ended_by id ws
  ended_by id (_ ∷ ws) = ended_by id ws

  -- What the accepted operations say of a parameter and a scope at a time: an activation overrides
  -- what was said for the times of its interval, and a termination clears what its activation said
  -- for the times from its end on.
  abbrev pub timeline : String → Scope → String → List (Write V) → Option (String × ℕ)
  timeline key c at [] = none
  timeline key c at (activate a e ∷ ws) =
      if contains key c at a && not (is_over (ended_by a.activation_id ws) at)
      then some (a.activation_id, a.value_version)
      else timeline key c at ws
  timeline key c at (terminate_activation t e ∷ ws) = stop t at (timeline key c at ws)
  timeline key c at (_ ∷ ws) = timeline key c at ws

  abbrev pub noted : Write V → Result (Store V × Outcome V × Bool) → List (Write V) → List (Write V)
  noted w (fails e) ws = ws
  noted w (ok (t, o, true)) ws = ws
  noted w (ok (t, o, false)) ws = w ∷ ws

  -- The operations of a run that were accepted and were no replays, the latest first.
  abbrev pub journal :
      (List Item → String) → List (Command V) → Store V → List (Write V) → List (Write V)
  journal hash [] s ws = ws
  journal hash (c ∷ cs) s ws =
      journal hash cs (attempt hash c s)
        (noted c.write (execute hash c.operation c.fingerprint c.write s) ws)

-- A store and the accepted operations agree on a parameter, a scope and a time, and no two of the
-- store's activations are in force then.
pub record Shows (V : Type 0) (key : String) (c : Scope) (at : String) (s : Store V)
    (ws : List (Write V)) : Type 0 where
  pub endings : (id : String) → lookup id s.terminations ≡ ended_by id ws
  pub single : length (select (covers s.terminations key c at) s.activations) ≤ 1
  pub shown : first (select (covers s.terminations key c at) s.activations) ≡ timeline key c at ws

module _ {V : Type 0} (key : String) (c : Scope) (at : String)
    (l : text_lt at last_date ≡ true) where
  pub Shows-activate :
      (a : Activation) (e : Event) (s t : Store V) (ws : List (Write V))
      → any (collides s.terminations a) s.activations ≡ false
      → t.activations ≡ s.activations ++ a ∷ []
      → t.terminations ≡ s.terminations
      → Shows V key c at s ws
      → Shows V key c at t (activate a e ∷ ws)
  Shows-activate a e s t ws h p q k =
      let x = select-activate s.terminations key c at a s.activations l h in
      let y = covers-contains key c at s.terminations a in
      let z = k.endings a.activation_id in
      record {
        endings = rw q k.endings;
        single = rw (p, q) ground (arith, k.single);
        shown = rw (p, q) ground (arith, k.shown);
      }

  pub Shows-terminate :
      (x : Termination) (e : Event) (s t : Store V) (ws : List (Write V))
      → lookup x.activation_id s.terminations ≡ none
      → t.activations ≡ s.activations
      → t.terminations ≡ insert x.activation_id x s.terminations
      → Shows V key c at s ws
      → Shows V key c at t (terminate_activation x e ∷ ws)
  Shows-terminate x e s t ws h p q k =
      let y = select-terminate s.terminations x key c at s.activations h in
      let m =
        length-select-le (spares x at) (select (covers s.terminations key c at) s.activations) in
      let f = first-spares at x (select (covers s.terminations key c at) s.activations) k.single in
      record {
        endings = λ id.
            let i = lookup-insert x.activation_id id x s.terminations in
            rw q ground (arith, k.endings id);
        single = rw (p, q) ground (arith, k.single);
        shown = rw (p, q) ground (arith, k.shown);
      }
