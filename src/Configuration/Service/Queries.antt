-- ===== src/Configuration/Service/Queries.antt =====
-- service.ts of the business configuration: releases, the resolution of a parameter, and its cache.
use zsj_crm.Prelude.{
  ℕ, suc, ◌==◌, leb, length, false, not, Option, none, some, List, [], ◌∷◌, map, distinct, String,
  str_eq, if◌then◌else◌, Dict, lookup, insert, Number,
}
use zsj_crm.Configuration.Facts.{
  invalid_input, missing, denied, Release, ValueRelease, use_default, fail_closed, Definition,
  AllowedScope, Scope, Activation, EventType, Result, ok, fails,
}
use zsj_crm.Configuration.Store.{
  list_effective_activations, find_dictionary_release, find_parameter_value,
}
use zsj_crm.Configuration.Validation.{
  Value, Actor, valid_actor, valid_id, valid_uuid, valid_date, valid_version, valid_scope,
}
use zsj_crm.Configuration.Service.{
  World, Run, business, AuthorizationAction, cache_key, resolution, mapped, outage, catch, ◌>>=◌,
  ◌>>◌, give, throw, throw_if, lift, outside, authorize, query, present, find_definition,
}
use zsj_crm.Configuration.Cache.{Resolved, from_default, from_activation, Cached, cached_resolution}

-- `new Map(allowedScopes.map(({ scopeType, priority }) => [scopeType, priority]))`
abbrev pub priorities : List AllowedScope → Dict ℕ → Dict ℕ
priorities [] d = d
priorities (c ∷ cs) d = priorities cs (insert c.scope_type c.priority d)

-- The priority of an activation's scope, counted from -1.
abbrev pub rank : List AllowedScope → Activation → ℕ
rank allowed a = elim (lookup a.scope.scope_type (priorities allowed [])) [
  | none ↦ 0
  | some n ↦ suc n
]

-- A stable sort by rank, the highest first.
abbrev pub place : {A : Type 0} → (A → ℕ) → A → List A → List A
place r x [] = x ∷ []
place r x (y ∷ ys) = let rest = place r x ys in if leb (r y) (r x) then x ∷ y ∷ ys else y ∷ rest

abbrev pub sort : {A : Type 0} → (A → ℕ) → List A → List A
sort r [] = []
sort r (x ∷ xs) = place r x (sort r xs)

abbrev pub first : {A : Type 0} → List A → Option A
first [] = none
first (x ∷ xs) = some x

-- The activation that is selected.
abbrev pub selected : List AllowedScope → List Activation → Option Activation
selected allowed as' = first (sort (rank allowed) as')

abbrev pub scope_types : List Scope → List String
scope_types scopes = map (λ (c : Scope). c.scope_type) scopes

abbrev pub valid_scopes : List Scope → Result (List Scope)
valid_scopes [] = ok []
valid_scopes (c ∷ cs) = elim (valid_scope c) [
  | fails e ↦ fails e
  | ok d ↦ elim (valid_scopes cs) [ fails e ↦ fails e | ok ds ↦ ok (d ∷ ds) ]
]

module _ (w : World Resolved Cached) where
  -- `getDictionaryRelease`
  unfoldable pub get_dictionary_release : Actor → String → Number → Run Release
  get_dictionary_release raw id raw_version = do
    actor ← lift (valid_actor w.platform raw)
    dictionary_id ← lift (valid_id id)
    version ← lift (valid_version 1 raw_version)
    auth ← authorize w (record {
      action = AuthorizationAction.reads;
      actor = actor;
      owner_module = none;
      resource_id = dictionary_id;
    })
    throw_if (not auth.allowed) denied
    catch (do found ← query w (find_dictionary_release dictionary_id version); present w found)
        (λ e. throw (mapped e))

  abbrev pub or_missing : {A : Type 0} → Option A → Run A
  or_missing none = throw (business missing false)
  or_missing (some a) = give a

  -- The value of the parameter if no activation is selected.
  abbrev pub default_of : Definition Value → String → Run Resolved
  default_of d key = elim d.missing_policy [
    | fail_closed ↦ throw (business missing false)
    | use_default ↦ do v ← or_missing d.default_value; give (from_default key v)
  ]

  abbrev pub resolved_from : String → Activation → ValueRelease Value → Resolved
  resolved_from key a r =
      from_activation a.activation_id a.effective_from a.effective_to key a.scope r.value
        r.value_version

  -- What the store says.
  abbrev pub resolve_selected : Definition Value → String → Option Activation → Run Resolved
  resolve_selected d key none = default_of d key
  resolve_selected d key (some a) = do
    found ← catch (query w (find_parameter_value key a.value_version)) (λ e. throw (mapped e))
    release ← or_missing found
    give (resolved_from key a release)

  unfoldable pub resolve_stored : Definition Value → String → List Scope → String → Run Resolved
  resolve_stored d key scopes at = do
    as' ← catch (query w (list_effective_activations key scopes at)) (λ e. throw (mapped e))
    resolve_selected d key (selected d.allowed_scopes as')

  -- `cache.get`, for which an error is no answer.
  abbrev pub ask_cache : String → Run (Option Cached)
  ask_cache key = do n ← outside w; give (w.cached n key)

  abbrev pub checked :
      Option Cached → String → Definition Value → List Scope → String → Option Resolved
  checked none key d scopes at = none
  checked (some c) key d scopes at = cached_resolution w.platform c key d scopes at

  abbrev pub answer_of : Option Resolved → Resolved → Resolved
  answer_of none result = result
  answer_of (some c) result =
      if str_eq (w.hash (resolution c)) (w.hash (resolution result)) then c else result

  -- `resolveParameter` once it is allowed. `cache.set` may fail, which is of no consequence.
  unfoldable pub resolve_allowed : String → List Scope → String → Run Resolved
  resolve_allowed key scopes at = do
    d ← find_definition w key
    cached ← ask_cache (w.hash (cache_key at key (w.sorted scopes)))
    result ← resolve_stored d key scopes at
    n ← outside w
    give (answer_of (checked cached key d scopes at) result)

  -- `resolveParameter`
  unfoldable pub resolve_parameter : Actor → String → String → List Scope → Run Resolved
  resolve_parameter raw at_text raw_key raw_scopes = do
    throw_if (not (leb (length raw_scopes) 20)) invalid_input
    actor ← lift (valid_actor w.platform raw)
    at ← lift (valid_date w.platform at_text)
    key ← lift (valid_id raw_key)
    scopes ← lift (valid_scopes raw_scopes)
    throw_if (not (length (distinct (scope_types scopes)) == length scopes)) invalid_input
    auth ← authorize w (record {
      action = AuthorizationAction.reads;
      actor = actor;
      owner_module = none;
      resource_id = key;
    })
    throw_if (not auth.allowed) denied
    resolve_allowed key scopes at

  -- `handleInvalidation`, for an event of one of the types of types.ts.
  unfoldable pub handle_invalidation :
      String → EventType → (occurred_at resource_id : String) → Number → Run (Unit {0})
  handle_invalidation id event_type occurred_at resource_id version = do
    event_id ← lift (valid_uuid w.platform id)
    occurred ← lift (valid_date w.platform occurred_at)
    resource ← lift (valid_id resource_id)
    v ← lift (valid_version 0 version)
    n ← outside w
    if w.cache_takes n then give tt else throw outage
