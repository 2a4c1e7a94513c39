-- ===== src/Configuration/Store/Timeline.antt =====
-- The activations of a parameter in a scope never compete: at each time at most one is in force.
use zsj_crm.Prelude.{
  ◌≡◌, refl, inl, inr, Bool, true, false, not, ◌&&◌, ◌||◌, if◌then◌else◌, List, [], ◌∷◌, ◌++◌,
  Option, some, none, String, str_eq, eq_iff, arith, Dict, lookup, insert, lookup-insert,
  Bool-cases, any, select,
}
use zsj_crm.Prelude.TextOrder.{
  text_lt, text_le, text_le-lt_trans, text_lt-le_trans, text_le_total, text_lt_weaken,
}
use zsj_crm.Prelude.Growth.{append_nil}
use zsj_crm.Configuration.Facts.{Scope, Activation, Termination, same_scope}
use zsj_crm.Configuration.Store.{
  last_date, earlier_end, effective_end, ends_after, or_last, collides,
}

-- An activation is for a parameter and a scope, and in force at a time.
abbrev pub covers : Dict Termination → String → Scope → String → Activation → Bool
covers ts key c at a =
    str_eq a.parameter_key key
    && (same_scope c a.scope && (text_le a.effective_from at && ends_after (effective_end ts a) at))

pub ends_after-earlier_end :
    (at : String) (o : Option String) (t : Termination)
    → ends_after (earlier_end o (some t)) at ≡ (ends_after o at && text_lt at t.effective_to)
ends_after-earlier_end at none t = refl
ends_after-earlier_end at (some e) t = ground (
  arith,
  text_lt-le_trans at t.effective_to e,
  text_lt_weaken t.effective_to e,
  text_le_total t.effective_to e,
  text_lt-le_trans at e t.effective_to,
)

-- A termination only takes away the times from its end on, and only those of its activation.
pub covers-insert :
    (ts : Dict Termination) (t : Termination) (key : String) (c : Scope) (at : String)
    (a : Activation)
    → lookup t.activation_id ts ≡ none
    → covers (insert t.activation_id t ts) key c at a ≡ (
        covers ts key c at a
        && (not (str_eq t.activation_id a.activation_id) || text_lt at t.effective_to))
covers-insert ts t key c at a h =
    let q = lookup-insert t.activation_id a.activation_id t ts in
    ground
      (arith, eq_iff t.activation_id a.activation_id, ends_after-earlier_end at a.effective_to t)

ends_after-or_last :
    (at : String) (o : Option String)
    → text_lt at last_date ≡ true
    → ends_after o at ≡ true
    → text_lt at (or_last o) ≡ true
ends_after-or_last at none l h = l
ends_after-or_last at (some e) l h = h

ends_after-given :
    (at : String) (o : Option String) (t : Option Termination)
    → ends_after (earlier_end o t) at ≡ true
    → ends_after o at ≡ true
ends_after-given at none none h = refl
ends_after-given at none (some t) h = refl
ends_after-given at (some e) none h = h
ends_after-given at (some e) (some t) h = ground (arith, ends_after-earlier_end at (some e) t)

module _ (ts : Dict Termination) (key : String) (c : Scope) (at : String)
    (l : text_lt at last_date ≡ true) where
  -- Two activations that are in force at one time collide.
  covers-collides :
      (a b : Activation)
      → covers ts key c at a ≡ true
      → covers ts key c at b ≡ true
      → collides ts a b ≡ true
  covers-collides a b h k =
      let e = ends_after-given at a.effective_to (lookup a.activation_id ts) in
      let f = ends_after-or_last at a.effective_to l in
      let g = ends_after-or_last at (effective_end ts b) l in
      let x = text_le-lt_trans b.effective_from at (or_last a.effective_to) in
      let y = text_le-lt_trans a.effective_from at (or_last (effective_end ts b)) in
      ground (
        arith,
        e,
        f,
        g,
        x,
        y,
        eq_iff a.parameter_key key,
        eq_iff b.parameter_key a.parameter_key,
        eq_iff c.scope_type a.scope.scope_type,
        eq_iff c.scope_reference a.scope.scope_reference,
        eq_iff b.scope.scope_type a.scope.scope_type,
        eq_iff b.scope.scope_reference a.scope.scope_reference,
        eq_iff c.scope_type b.scope.scope_type,
        eq_iff c.scope_reference b.scope.scope_reference,
        eq_iff b.parameter_key key,
      )

  pub select-covers :
      (a : Activation) (as' : List Activation)
      → any (collides ts a) as' ≡ false
      → covers ts key c at a ≡ true
      → select (covers ts key c at) as' ≡ []
  select-covers a [] h k = refl
  select-covers a (b ∷ bs) h k = elim (Bool-cases (covers ts key c at b)) [
    | inl e ↦ let q = covers-collides a b k e in ground arith
    | inr e ↦ let q = select-covers a bs in ground arith
  ]

select-append {ℓ} :
    {A : Type ℓ} (p : A → Bool) (xs ys : List A) → select p (xs ++ ys) ≡ select p xs ++ select p ys
select-append p [] ys = refl
select-append p (x ∷ xs) ys = ground (arith, select-append p xs ys)

-- What is in force after an activation that collides with none.
pub select-activate :
    (ts : Dict Termination) (key : String) (c : Scope) (at : String) (a : Activation)
    (as' : List Activation)
    → text_lt at last_date ≡ true
    → any (collides ts a) as' ≡ false
    → select (covers ts key c at) (as' ++ a ∷ [])
      ≡ (if covers ts key c at a then a ∷ [] else select (covers ts key c at) as')
select-activate ts key c at a as' l h =
    let p = select-append (covers ts key c at) as' (a ∷ []) in
    elim (Bool-cases (covers ts key c at a)) [
      | inl e ↦ let q = select-covers ts key c at l a as' h e in ground arith
      | inr e ↦ let q = append_nil (select (covers ts key c at) as') in ground arith
    ]

-- Whether a termination leaves an activation in force.
abbrev pub spares : Termination → String → Activation → Bool
spares t at a = not (str_eq t.activation_id a.activation_id) || text_lt at t.effective_to

-- What is in force after a termination.
pub select-terminate :
    (ts : Dict Termination) (t : Termination) (key : String) (c : Scope) (at : String)
    (as' : List Activation)
    → lookup t.activation_id ts ≡ none
    → select (covers (insert t.activation_id t ts) key c at) as'
      ≡ select (spares t at) (select (covers ts key c at) as')
select-terminate ts t key c at [] h = refl
select-terminate ts t key c at (a ∷ as') h =
    let q = select-terminate ts t key c at as' h in
    let p = covers-insert ts t key c at a h in ground arith
