-- ===== src/Examples/Requests.antt =====
-- The service of the business configuration on concrete inputs: every part answers, and no other client
-- does anything.
use zsj_crm.Prelude.{◌≡◌, refl, Bool, true, false, some, none, [], ◌∷◌, String, lookup, insert, nat}
use zsj_crm.Configuration.Facts.{ok}
use zsj_crm.Configuration.Store.{
  Outcome, registered, empty, perform, execute, run, list_effective_activations,
}
use zsj_crm.Configuration.Validation.{
  Value, Platform, Actor, ActorType, Metadata, valid_id, valid_uuid, valid_decision,
}
use zsj_crm.Configuration.Definitions.{
  valid_definition, check_schema, scopes_from, IsSound, valid_definition-IsSound,
}
use zsj_crm.Configuration.Cache.{Resolved, Cached}
use zsj_crm.Configuration.Service.{
  World, State, gave, AuthorizationAction, items_hash, outside, mutate, commit, authorize,
  record_entry, do_audited,
}
use zsj_crm.Configuration.Service.Commands.{publishes_dictionary, serve_all}
use zsj_crm.Configuration.Service.Protocol.{in_order}
use zsj_crm.Configuration.Service.Order.{serve_all-in_order}
use zsj_crm.Configuration.Service.Retry.{OthersAlone, mutate-again}
use zsj_crm.Configuration.Service.Queries.{resolve_stored, resolve_allowed}
use zsj_crm.Configuration.Service.Choice.{
  Chosen, resolve_stored-Chosen, without_cache, SameAnswer, resolve_allowed-without_cache,
}
use zsj_crm.Examples.Settings.{quota, raw_quota, unit_scope, registration, settings, mid_march}

abbrev platform : Platform
platform = record {
  is_iso_date = λ s. true;
  to_lower_case = λ s. s;
  compile = λ s. some (λ v. true);
}

is_valid_quota : valid_definition platform raw_quota ≡ ok quota
unfolding valid_definition check_schema scopes_from valid_id
is_valid_quota = refl

valid_definition-IsSound_example : IsSound platform quota
valid_definition-IsSound_example = valid_definition-IsSound platform raw_quota quota is_valid_quota

abbrev an_id : String
an_id = "00000000-0000-4000-8000-000000000000"

abbrev willing : World Resolved Cached
willing = record {
  decide = λ n request. some (record { allowed = true; decision_id = an_id });
  audited = λ n. true;
  stored = λ n. true;
  meanwhile = λ n. [];
  now = λ n. "2026-01-01T00:00:00.000Z";
  new_id = λ n. an_id;
  cached = λ n key. some Cached.malformed;
  cache_takes = λ n. true;
  platform = platform;
  sorted = λ scopes. scopes;
  hash = λ x. "h";
}

abbrev somebody : Actor
somebody = record { actor_id = "u"; actor_type = ActorType.system; assignment_id = none }

abbrev some_metadata : Metadata
some_metadata = record {
  actor = somebody;
  operation_id = "o1";
  reason = "r";
  trace_id = "0123456789abcdef0123456789abcdef";
}

abbrev start : State
start = record { calls = 0; store = empty; log = [] }

abbrev configured : State
configured = record { calls = 0; store = run (items_hash willing) settings empty; log = [] }

serve_all-in_order_example :
    in_order (serve_all willing (publishes_dictionary some_metadata "colors" (nat 1) ∷ []) start)
    ≡ true
serve_all-in_order_example =
    serve_all-in_order willing (publishes_dictionary some_metadata "colors" (nat 1) ∷ []) start refl

abbrev first_run : State
first_run = (commit willing registration start).0

abbrev second_run : State
second_run =
    (mutate willing some_metadata "configuration.parameter.register" AuthorizationAction.manages
      "quota" (some "crm") (commit willing registration) first_run).0

is_committed : (commit willing registration start).1 ≡ gave (registered quota, false)
unfolding commit execute perform lookup insert
is_committed = refl

is_given :
    mutate willing some_metadata "configuration.parameter.register" AuthorizationAction.manages
      "quota"
      (some "crm")
      (commit willing registration)
      first_run
    ≡ (second_run, gave (registered quota, true))
unfolding mutate authorize record_entry do_audited valid_decision valid_uuid commit execute perform
    lookup insert
is_given = refl

mutate-again_example :
    (◌≡◌ {A = Outcome Value × Bool} (registered quota, true) (registered quota, true))
    × OthersAlone willing first_run second_run
mutate-again_example =
    mutate-again willing some_metadata "configuration.parameter.register"
      AuthorizationAction.manages "quota" (some "crm") registration registration start first_run
      second_run (registered quota) (registered quota, true) is_committed ([], refl) refl refl
      is_given

resolve_stored-Chosen_example :
    Chosen willing quota "quota"
      (list_effective_activations "quota"
        (unit_scope ∷ [])
        mid_march
        (outside willing configured).0.store)
      (outside willing configured).0.store
      (resolve_stored willing quota "quota" (unit_scope ∷ []) mid_march configured).1
resolve_stored-Chosen_example =
    resolve_stored-Chosen willing settings quota "quota" (unit_scope ∷ []) mid_march configured refl
      (λ n. refl)

resolve_allowed-without_cache_example :
    ((resolve_allowed willing "quota" (unit_scope ∷ []) mid_march configured).0
      ≡ (resolve_allowed (without_cache willing) "quota" (unit_scope ∷ []) mid_march configured).0)
    × SameAnswer willing
        (resolve_allowed willing "quota" (unit_scope ∷ []) mid_march configured).1
        (resolve_allowed (without_cache willing) "quota" (unit_scope ∷ []) mid_march configured).1
resolve_allowed-without_cache_example =
    resolve_allowed-without_cache willing "quota" (unit_scope ∷ []) mid_march configured
