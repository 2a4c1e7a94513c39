-- ===== src/Configuration/Service/Choice.antt =====
-- What the resolution of a parameter gives: the selected activation, its value, and no word of the cache.
use zsj_crm.Prelude.{
  ℕ, suc, ◌≤◌, ◌≡◌, refl, subst, ◌⊎◌, inl, inr, Bool, true, false, ◌&&◌, Option, none, some, List,
  [], ◌∷◌, ltb, all, any, find, select, Dict, lookup, insert, lookup-insert, map, leb, String,
  str_eq, eq_iff, if◌then◌else◌, arith, Option-cases, Bool-cases,
}
use mathlib.Core.Path.{fun_ext}
use zsj_crm.Prelude.TextOrder.{text_le}
use zsj_crm.Configuration.Facts.{
  missing, Definition, AllowedScope, Activation, ValueRelease, Scope, same_scope, MissingPolicy,
  fail_closed, use_default,
}
use zsj_crm.Configuration.Store.{
  Store, Command, run, empty, list_effective_activations, find_parameter_value, effective_end,
  ends_after,
}
use zsj_crm.Configuration.Store.Backing.{backed, Backed, run-Backed, find-backed}
use zsj_crm.Configuration.Store.Found.{found_value}
use zsj_crm.Configuration.Store.Growth.{Sound, Sound-empty, run-Sound}
use zsj_crm.Configuration.Validation.{Value}
use zsj_crm.Configuration.Cache.{Resolved, from_default, Cached}
use zsj_crm.Configuration.Service.{
  World, State, Answer, threw, gave, items_hash, outside, resolution, cache_key, find_definition,
  ◌>>=◌, catch, query, business,
}
use zsj_crm.Configuration.Service.Retry.{Answer-cases}
use zsj_crm.Configuration.Service.Queries.{
  priorities, rank, place, sort, first, selected, resolved_from, resolve_stored, default_of,
  answer_of, ask_cache, resolve_allowed,
}

module _ {A : Type 0} (r : A → ℕ) where
  abbrev pub below : A → A → Bool
  below a y = leb (r y) (r a)

  all-below :
      (a b : A) (xs : List A) → r a ≤ r b → all (below a) xs ≡ true → all (below b) xs ≡ true
  all-below a b [] h k = refl
  all-below a b (x ∷ xs) h k = ground (arith, all-below a b xs h)

  abbrev preferred : A → Option A → A
  preferred x none = x
  preferred x (some y) = if leb (r y) (r x) then x else y

  first-place : (x : A) (ys : List A) → first (place r x ys) ≡ some (preferred x (first ys))
  first-place x [] = refl
  first-place x (y ∷ ys) = ground arith

  first-sort-none : (xs : List A) → first (sort r xs) ≡ none → xs ≡ []
  first-sort-none [] h = refl
  first-sort-none (x ∷ xs) h = let p = first-place x (sort r xs) in cc

  -- The first element of the highest rank.
  abbrev pub IsFirst : List A → A → Type 0
  IsFirst xs a = (all (below a) xs ≡ true) × (find (λ y. leb (r a) (r y)) xs ≡ some a)

  -- The first of a stable sort is the first element of the highest rank.
  first-sort : (xs : List A) (a : A) → first (sort r xs) ≡ some a → IsFirst xs a
  first-sort [] a h = cc
  first-sort (x ∷ xs) a h =
      let p = first-place x (sort r xs) in
      elim (Option-cases (first (sort r xs))) [
        | inl e ↦
            let f = first-sort-none xs e in
            let g : x ≡ a = ground arith in
            rw f (subst (IsFirst (x ∷ [])) g (ground arith, ground arith))
        | inr (b, e) ↦
            let (k, l) = first-sort xs b e in
            elim (Bool-cases (leb (r b) (r x))) [
              | inl m ↦
                  let g : x ≡ a = ground arith in
                  let n = all-below b x xs (ground arith) k in
                  subst (IsFirst (x ∷ xs)) g (ground arith, ground arith)
              | inr m ↦
                  let g : b ≡ a = ground arith in
                  subst (IsFirst (x ∷ xs)) g (ground arith, ground arith)
            ]
      ]

-- How high a scope stands: one more than the priority that the definition gives its type, where of two
-- entries for a type the later one counts; and 0 if the definition has no entry for it.
abbrev pub weight : List AllowedScope → Scope → ℕ
weight [] c = 0
weight (d ∷ ds) c =
    let rest = weight ds c in
    if ltb 0 rest then rest else if str_eq d.scope_type c.scope_type then suc d.priority else 0

abbrev from_missing : Option ℕ → ℕ
from_missing none = 0
from_missing (some n) = suc n

priorities-weight :
    (ds : List AllowedScope) (c : Scope) (m : Dict ℕ)
    → from_missing (lookup c.scope_type (priorities ds m))
      ≡ (if ltb 0 (weight ds c) then weight ds c else from_missing (lookup c.scope_type m))
priorities-weight [] c m = ground arith
priorities-weight (d ∷ ds) c m = ground (
  arith,
  priorities-weight ds c (insert d.scope_type d.priority m),
  lookup-insert d.scope_type c.scope_type d.priority m,
)

rank-weight : (ds : List AllowedScope) (a : Activation) → rank ds a ≡ weight ds a.scope
unfolding lookup
rank-weight ds a =
    let p = priorities-weight ds a.scope [] in
    elim (Option-cases (lookup a.scope.scope_type (priorities ds []))) [
      | inl e ↦ ground (arith, p)
      | inr (n, e) ↦ ground (arith, p)
    ]

find-all {ℓ} :
    {A : Type ℓ} (p q : A → Bool) (xs : List A) (a : A)
    → all p xs ≡ true
    → find q xs ≡ some a
    → p a ≡ true
find-all p q [] a h k = cc
find-all p q (x ∷ xs) a h k = elim (Bool-cases (q x)) [
  | inl e ↦ let f : x ≡ a = ground arith in subst (λ y. p y ≡ true) f (ground arith)
  | inr e ↦ find-all p q xs a (ground arith) (ground arith)
]

-- The listed activations are of the parameter, and backed as the stored ones are.
listed-backed :
    (key : String) (scopes : List Scope) (at : String) (s : Store Value)
    → Backed s
    → all
        (λ (a : Activation). backed s.values a && str_eq a.parameter_key key)
        (list_effective_activations key scopes at s)
      ≡ true
unfolding list_effective_activations
listed-backed key scopes at s h = go s.activations h
  where
    go :
        (as' : List Activation)
        → all (backed s.values) as' ≡ true
        → all
            (λ (a : Activation). backed s.values a && str_eq a.parameter_key key)
            (map
              (λ (a : Activation). record a { effective_to = effective_end s.terminations a })
              (select
                (λ (a : Activation).
                  str_eq a.parameter_key key
                  && (any (λ c. same_scope c a.scope) scopes
                      && (text_le a.effective_from at
                          && ends_after (effective_end s.terminations a) at)))
                as'))
          ≡ true
    go [] k = refl
    go (a ∷ as') k = ground (arith, go as')

-- What is given where no activation is in force.
abbrev pub default_answer : MissingPolicy → Option Value → String → Answer Resolved
default_answer fail_closed o key = threw (business missing false)
default_answer use_default none key = threw (business missing false)
default_answer use_default (some v) key = gave (from_default key v)

module _ (w : World Resolved Cached) where
  default_of-answer :
      (d : Definition Value) (key : String) (s : State)
      → (default_of w d key s).1 ≡ default_answer d.missing_policy d.default_value key
  unfolding ◌>>=◌
  default_of-answer d key s = ground arith

  -- Among the activations in force: none, and the answer is the default; or the first whose scope stands
  -- highest, and the answer has the value that was released under its version.
  abbrev pub Chosen :
      Definition Value → String → List Activation → Store Value → Answer Resolved → Type 0
  Chosen d key as' st answer =
      ((as' ≡ []) × (answer ≡ default_answer d.missing_policy d.default_value key))
      ⊎ ((a : Activation) × (v : ValueRelease Value) × IsFirst
            (λ b. weight d.allowed_scopes b.scope) as' a
          × (find_parameter_value key a.value_version st ≡ some v)
          × (answer ≡ gave (resolved_from w key a v)))

  reachable :
      (cs : List (Command Value)) (s : State)
      → s.store ≡ run (items_hash w) cs empty
      → Sound Value (outside w s).0.store × Backed (outside w s).0.store
  reachable cs s h =
      let hash = items_hash w in
      let (sound, _) = run-Sound hash cs empty Sound-empty in
      let (later, _) = run-Sound hash (w.meanwhile s.calls) s.store (rw h sound) in
      (later, run-Backed hash (w.meanwhile s.calls) s.store (rw h (run-Backed hash cs empty refl)))

  -- From a store that commands have led to, and while it answers: where no activation of the parameter
  -- is in force for the scopes, the answer is the default, or `missing` if the policy or the
  -- definition has none; else it is the first of the activations in force whose scope type has the
  -- highest priority in the definition, with the value that was released under its version, which is
  -- always there.
  pub resolve_stored-Chosen :
      (cs : List (Command Value)) (d : Definition Value) (key : String) (scopes : List Scope)
      (at : String) (s : State)
      → s.store ≡ run (items_hash w) cs empty
      → ((n : ℕ) → w.stored n ≡ true)
      → Chosen d key
          (list_effective_activations key scopes at (outside w s).0.store)
          (outside w s).0.store
          (resolve_stored w d key scopes at s).1
  unfolding resolve_stored ◌>>=◌ catch query
  resolve_stored-Chosen cs d key scopes at s h k =
      let st = (outside w s).0.store in
      let as' = list_effective_activations key scopes at st in
      elim (Option-cases (selected d.allowed_scopes as')) [
        | inl e ↦ inl (
          first-sort-none (rank d.allowed_scopes) as' e,
          rw (k s.calls, e) (default_of-answer d key (outside w s).0),
        )
        | inr (a, e) ↦
            let (below_it, is_it) = first-sort (rank d.allowed_scopes) as' a e in
            let (sound, b) = reachable cs s h in
            let both = find-all _ _ as' a (listed-backed key scopes at st b) is_it in
            let (v, f) = find-backed st a (ground arith) in
            let same : a.parameter_key ≡ key = (eq_iff a.parameter_key key).0 (ground arith) in
            let found : find_parameter_value key a.value_version st ≡ some v = rw same at f in
            let (_, grown) = run-Sound (items_hash w) (w.meanwhile (suc s.calls)) st sound in
            let later = found_value (items_hash w) key a.value_version st _ v grown found in
            let highest : IsFirst (λ (b : Activation). weight d.allowed_scopes b.scope) as' a =
              subst (λ (g : Activation → ℕ). IsFirst g as' a)
                (fun_ext (rank-weight d.allowed_scopes)) (below_it, is_it) in
            inr (a, v, highest, found, rw (k s.calls, e, k (suc s.calls), later) refl)
      ]

  -- Two answers with one digest, or one failure.
  abbrev pub SameAnswer : Answer Resolved → Answer Resolved → Type 0
  SameAnswer (threw e) (threw f) = e ≡ f
  SameAnswer (threw e) (gave b) = ⊥
  SameAnswer (gave a) (threw f) = ⊥
  SameAnswer (gave a) (gave b) = w.hash (resolution a) ≡ w.hash (resolution b)

  answer_of-hash :
      (o : Option Resolved) (r : Resolved)
      → w.hash (resolution (answer_of w o r)) ≡ w.hash (resolution r)
  answer_of-hash none r = refl
  answer_of-hash (some c) r = ground (arith, eq_iff (w.hash (resolution c)) (w.hash (resolution r)))

  -- The same other parts, but for a cache that holds nothing.
  abbrev pub without_cache : World Resolved Cached
  without_cache = record w { cached = λ n key. none }

  same_definition :
      (key : String) (s : State) → find_definition without_cache key s ≡ find_definition w key s
  unfolding find_definition
  same_definition key s = refl

  same_resolution :
      (d : Definition Value) (key : String) (scopes : List Scope) (at : String) (s : State)
      → resolve_stored without_cache d key scopes at s ≡ resolve_stored w d key scopes at s
  unfolding resolve_stored ◌>>=◌ catch query
  same_resolution d key scopes at s = refl

  -- Whatever the cache holds, a resolution ends in the same state as without it, and fails with the same
  -- error or gives an answer with the same digest.
  pub resolve_allowed-without_cache :
      (key : String) (scopes : List Scope) (at : String) (s : State)
      → ((resolve_allowed w key scopes at s).0 ≡ (resolve_allowed without_cache key scopes at s).0)
        × SameAnswer
            (resolve_allowed w key scopes at s).1
            (resolve_allowed without_cache key scopes at s).1
  unfolding resolve_allowed ◌>>=◌
  resolve_allowed-without_cache key scopes at s =
      let u = (find_definition w key s).0 in
      rw (same_definition key s) (elim (Answer-cases (find_definition w key s).1) [
        | inl (e, a) ↦ rw a (refl, refl)
        | inr (d, a) ↦
            let v = (ask_cache w (w.hash (cache_key at key (w.sorted scopes))) u).0 in
            rw (a, same_resolution d key scopes at v)
              (elim (Answer-cases (resolve_stored w d key scopes at v).1) [
                | inl (e, b) ↦ rw b (refl, refl)
                | inr (r, b) ↦ rw b (refl, answer_of-hash _ r)
              ])
      ])
