-- ===== src/Configuration/Cache.antt =====
-- service.ts of the business configuration: a resolution of a parameter, and what the cache holds of it.
use zsj_crm.Prelude.{
  ℕ, ◌==◌, Bool, true, false, not, ◌&&◌, Option, none, some, List, any, String, str_eq, Number,
}
use zsj_crm.Prelude.TextOrder.{text_le}
use zsj_crm.Configuration.Facts.{
  invalid_input, MissingPolicy, use_default, fail_closed, Definition, AllowedScope, Scope,
  same_scope, Result, ok, fails, ◌>>=◌,
}
use zsj_crm.Configuration.Store.{ends_after}
use zsj_crm.Configuration.Validation.{
  Value, not_finite, same_value, Platform, valid_id, valid_uuid, valid_date, valid_version,
  valid_scope, valid_value, optional,
}
use zsj_crm.Configuration.Definitions.{accepts}

-- `ResolvedParameter`, by its source.
pub data Resolved : Type 0 where
  from_default : (parameter_key : String) (value : Value) → Resolved
  from_activation :
      (activation_id effective_from : String) (effective_to : Option String)
      (parameter_key : String) (scope : Scope) (value : Value) (value_version : ℕ)
      → Resolved

-- What the cache may hold: an object with the fields of a resolution, or anything else.
pub data Cached : Type 0 where
  malformed : Cached
  cached_default :
      (definition_version : Number) (parameter_key : String) (value : Value)
      (value_version version : Number)
      → Cached
  cached_activation :
      (activation_id : String) (definition_version : Number) (effective_from : String)
      (effective_to : Option String) (parameter_key : String) (scope : Scope) (value : Value)
      (value_version version : Number)
      → Cached

-- `configurationValue`
abbrev pub configuration_value : Value → Result Value
configuration_value not_finite = fails invalid_input
configuration_value v = ok v

abbrev pub has_default : MissingPolicy → Option Value → Value → Bool
has_default use_default (some d) v = same_value d v
has_default use_default none v = false
has_default fail_closed d v = false

abbrev pub undefined_on_error : {A : Type 0} → Result (Option A) → Option A
undefined_on_error (fails e) = none
undefined_on_error (ok o) = o

abbrev pub ends_early : String → Option String → Bool
ends_early from none = false
ends_early from (some to) = text_le to from

abbrev pub allows : List AllowedScope → Scope → Bool
allows allowed scope = any (λ (c : AllowedScope). str_eq c.scope_type scope.scope_type) allowed

abbrev pub keep_if : Bool → Resolved → Option Resolved
keep_if true r = some r
keep_if false r = none

module _ (p : Platform) where
  -- What `cachedResolution` computes, before an error of it becomes `undefined`.
  unfoldable pub check_cached :
      Cached → String → Definition Value → List Scope → String → Result (Option Resolved)
  check_cached malformed key d scopes at = ok none
  check_cached (cached_default definition_version k v value_version version) key d scopes at = do
    k' ← valid_id k
    n ← valid_version 1 definition_version
    m ← valid_version 0 value_version
    o ← valid_version 1 version
    c ← configuration_value v
    parsed ← valid_value c d.value_type
    fits ← accepts p d.value_schema parsed
    ok (
        keep_if
          (str_eq k' key
            && (n == 1
                && (m == 0
                    && (o == 1 && (has_default d.missing_policy d.default_value parsed && fits)))))
          (from_default key parsed))
  check_cached (cached_activation id definition_version from to k scope v value_version version) key
        d scopes at =
      do
        k' ← valid_id k
        n ← valid_version 1 definition_version
        o ← valid_version 1 version
        effective_from ← valid_date p from
        effective_to ← optional p (valid_date p) to
        parsed_scope ← valid_scope scope
        c ← configuration_value v
        parsed ← valid_value c d.value_type
        fits ← accepts p d.value_schema parsed
        activation_id ← valid_uuid p id
        m ← valid_version 1 value_version
        ok (
            keep_if
              (str_eq k' key
                && (n == 1
                    && (o == 1
                        && (not (ends_early effective_from effective_to)
                            && (any (λ c'. same_scope c' parsed_scope) scopes
                                && (allows d.allowed_scopes parsed_scope
                                    && (text_le effective_from at
                                        && (ends_after effective_to at && fits))))))))
              (from_activation activation_id effective_from effective_to key parsed_scope parsed m))

  -- `cachedResolution`
  unfoldable pub cached_resolution :
      Cached → String → Definition Value → List Scope → String → Option Resolved
  unfolding check_cached
  cached_resolution cached key d scopes at =
      undefined_on_error (check_cached cached key d scopes at)
