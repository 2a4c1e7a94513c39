-- ===== src/Configuration/Store/Journal.antt =====
-- A run of the store's operations against the replay of the accepted ones.
use zsj_crm.Prelude.{
  ℕ, suc, ◌≤◌, ◌≡◌, refl, ap, inl, inr, Bool, true, ◌&&◌, List, [], ◌∷◌, Option, some, none, String,
  str_eq, eq_iff, arith, Dict, lookup, Option-cases, any, select, length, map,
}
use zsj_crm.Prelude.TextOrder.{text_lt, text_le}
use zsj_crm.Configuration.Facts.{
  Scope, Activation, Termination, Event, Draft, Item, same_scope, ok, Result-cases,
}
use zsj_crm.Configuration.Store.{
  Store, Outcome, Write, Command, save_dictionary_draft, publish_dictionary, register_parameter,
  publish_parameter_value, activate, terminate_activation, empty, last_date, effective_end,
  ends_after, list_effective_activations, perform, publish_draft, check_termination,
  find_activation, execute, attempt, run,
}
use zsj_crm.Configuration.Store.Timeline.{covers}
use zsj_crm.Configuration.Store.Refinement.{
  Shows, noted, Shows-activate, Shows-terminate, ended_by, timeline, journal, active, first,
}

find_activation-id :
    (id k : String) (as' : List Activation) (a : Activation)
    → find_activation id k as' ≡ some a
    → a.activation_id ≡ id
unfolding find_activation
find_activation-id id k [] a h = ground arith
find_activation-id id k (b ∷ bs) a h =
    let q = find_activation-id id k bs a in ground (arith, eq_iff b.activation_id id)

-- A termination that passes the checks is its activation's first.
check_termination-new :
    (t : Termination) (ts : Dict Termination) (as' : List Activation)
    → check_termination t ts (find_activation t.activation_id t.parameter_key as') ≡ ok tt
    → lookup t.activation_id ts ≡ none
check_termination-new t ts as' h =
    elim (Option-cases (find_activation t.activation_id t.parameter_key as')) [
      | inl e ↦ ground arith
      | inr (a, e) ↦
          let q = find_activation-id t.activation_id t.parameter_key as' a e in
          elim (Option-cases (lookup t.activation_id ts)) [
            | inl f ↦ f
            | inr (x, f) ↦ let g : lookup a.activation_id ts ≡ some x = rw q f in ground arith
          ]
    ]

module _ {V : Type 0} (hash : List Item → String) (key : String) (c : Scope) (at : String)
    (l : text_lt at last_date ≡ true) where
  publish_draft-keeps :
      (id : String) (e : Event) (expected : ℕ) (now : String) (s t : Store V) (o : Outcome V)
      (d : Option Draft)
      → publish_draft hash id e expected now s d ≡ ok (t, o)
      → (t.activations ≡ s.activations) × (t.terminations ≡ s.terminations)
  publish_draft-keeps id e expected now s t o none h = ground arith
  publish_draft-keeps id e expected now s t o (some d) h = ground arith

  Shows-keep :
      (w : Write V) (s t : Store V) (ws : List (Write V))
      → (t.activations ≡ s.activations) × (t.terminations ≡ s.terminations)
      → ((id : String) → ended_by id (w ∷ ws) ≡ ended_by id ws)
      → timeline key c at (w ∷ ws) ≡ timeline key c at ws
      → Shows V key c at s ws
      → Shows V key c at t (w ∷ ws)
  Shows-keep w s t ws (p, q) e x k = record {
    endings = λ id. rw (q, e id) (k.endings id);
    single = rw (p, q) (k.single);
    shown = rw (p, q, x) (k.shown);
  }

  Shows-perform :
      (w : Write V) (s t : Store V) (o : Outcome V) (ws : List (Write V))
      → perform hash w s ≡ ok (t, o)
      → Shows V key c at s ws
      → Shows V key c at t (w ∷ ws)
  unfolding perform
  Shows-perform (save_dictionary_draft draft expected) s t o ws h k =
      Shows-keep (save_dictionary_draft draft expected) s t ws (ground arith) (λ id. refl) refl k
  Shows-perform (publish_dictionary id e expected now) s t o ws h k =
      Shows-keep (publish_dictionary id e expected now) s t ws
        (publish_draft-keeps id e expected now s t o (lookup id s.drafts) h) (λ i. refl) refl k
  Shows-perform (register_parameter d) s t o ws h k =
      Shows-keep (register_parameter d) s t ws (ground arith) (λ i. refl) refl k
  Shows-perform (publish_parameter_value digest e p now v) s t o ws h k =
      Shows-keep (publish_parameter_value digest e p now v) s t ws (ground arith) (λ i. refl) refl k
  Shows-perform (activate a e) s t o ws h k =
      Shows-activate key c at l a e s t ws (ground arith) (ground arith) (ground arith) k
  Shows-perform (terminate_activation x e) s t o ws h k =
      elim (Result-cases (
        check_termination x s.terminations
          (find_activation x.activation_id x.parameter_key s.activations))) [
            | inr (y, n) ↦ ground arith
            | inl (tt, n) ↦
                Shows-terminate key c at l x e s t ws
                  (check_termination-new x s.terminations s.activations n) (ground arith)
                  (ground arith) k
          ]

  Shows-same :
      (s t : Store V) (ws : List (Write V))
      → t.activations ≡ s.activations
      → t.terminations ≡ s.terminations
      → Shows V key c at s ws
      → Shows V key c at t ws
  Shows-same s t ws p q k = record {
    endings = λ id. rw q (k.endings id);
    single = rw (p, q) (k.single);
    shown = rw (p, q) (k.shown);
  }

  Shows-attempt :
      (d : Command V) (s : Store V) (ws : List (Write V))
      → Shows V key c at s ws
      → Shows V key c at
          (attempt hash d s)
          (noted d.write (execute hash d.operation d.fingerprint d.write s) ws)
  unfolding execute
  Shows-attempt d s ws k = elim (Option-cases (lookup d.operation s.receipts)) [
    | inr (r, e) ↦
        let p : attempt hash d s ≡ s = ground arith in
        let n : noted d.write (execute hash d.operation d.fingerprint d.write s) ws ≡ ws =
          ground arith in
        rw (p, n) k
    | inl e ↦ elim (Result-cases (perform hash d.write s)) [
      | inr (x, a) ↦
          let p : attempt hash d s ≡ s = ground arith in
          let n : noted d.write (execute hash d.operation d.fingerprint d.write s) ws ≡ ws =
            ground arith in
          rw (p, n) k
      | inl ((u, o), a) ↦
          let m = Shows-perform d.write s u o ws a k in
          let p : (attempt hash d s).activations ≡ u.activations = ground arith in
          let q : (attempt hash d s).terminations ≡ u.terminations = ground arith in
          let n : noted d.write (execute hash d.operation d.fingerprint d.write s) ws
              ≡ d.write ∷ ws =
            ground arith in
          rw n (Shows-same u (attempt hash d s) (d.write ∷ ws) p q m)
    ]
  ]

  Shows-journal :
      (cs : List (Command V)) (s : Store V) (ws : List (Write V))
      → Shows V key c at s ws
      → Shows V key c at (run hash cs s) (journal hash cs s ws)
  Shows-journal [] s ws k = k
  Shows-journal (d ∷ cs) s ws k = Shows-journal cs (attempt hash d s) _ (Shows-attempt d s ws k)

  Shows-empty : Shows V key c at empty []
  unfolding lookup
  Shows-empty = record { endings = λ id. refl; single = omega arith; shown = refl }

module _ (key : String) (c : Scope) (at : String) (ts : Dict Termination) where
  -- The test that the listing makes, for a single scope.
  abbrev listed : Activation → Bool
  listed a =
      str_eq a.parameter_key key
      && (any (λ c'. same_scope c' a.scope) (c ∷ [])
          && (text_le a.effective_from at && ends_after (effective_end ts a) at))

  select-listed : (as' : List Activation) → select listed as' ≡ select (covers ts key c at) as'
  select-listed [] = refl
  select-listed (a ∷ as') = ground (arith, select-listed as')

module _ (ts : Dict Termination) where
  abbrev materialized : Activation → Activation
  materialized a = record a { effective_to = effective_end ts a }

  first-map : (as' : List Activation) → first (map materialized as') ≡ first as'
  first-map [] = refl
  first-map (a ∷ as') = refl

  length-map : (as' : List Activation) → length (map materialized as') ≡ length as'
  length-map [] = refl
  length-map (a ∷ as') = ap suc (length-map as')

module _ {V : Type 0} (hash : List Item → String) where
  -- Whatever operations were called, at most one activation of a parameter in a scope is in force at
  -- a time before the last date.
  pub length-list_effective :
      (cs : List (Command V)) (key : String) (c : Scope) (at : String)
      → text_lt at last_date ≡ true
      → length (list_effective_activations key (c ∷ []) at (run hash cs empty)) ≤ 1
  unfolding list_effective_activations
  length-list_effective cs key c at l =
      let s = run hash cs empty in
      let k = Shows-journal hash key c at l cs empty [] (Shows-empty hash key c at l) in
      rw (length-map s.terminations, select-listed key c at s.terminations s.activations) (k.single)

  -- Whatever operations were called, the activation in force at a time before the last date is the
  -- one that the accepted activations and terminations say, as writes and clears of a function of
  -- time, in their order.
  pub active-run :
      (cs : List (Command V)) (key : String) (c : Scope) (at : String)
      → text_lt at last_date ≡ true
      → active key c at (run hash cs empty) ≡ timeline key c at (journal hash cs empty [])
  unfolding list_effective_activations
  active-run cs key c at l =
      let s = run hash cs empty in
      let k = Shows-journal hash key c at l cs empty [] (Shows-empty hash key c at l) in
      rw (first-map s.terminations, select-listed key c at s.terminations s.activations) (k.shown)
