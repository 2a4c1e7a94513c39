-- ===== src/Examples/Settings.antt =====
-- The business configuration on concrete inputs: one dictionary, and one parameter in one scope.
use zsj_crm.Prelude.{
  ◌≡◌, refl, Bool, true, false, some, List, [], ◌∷◌, String, lookup, insert, Number,
}
use zsj_crm.Prelude.TextOrder.{text_lt, text_le}
use zsj_crm.Configuration.Facts.{
  Result, ok, fails, Item, Draft, Release, Definition, Scope, Activation, Event, EventType,
  MissingPolicy, ValueType, Schema,
}
use zsj_crm.Configuration.Store.{
  Store, Outcome, released, Command, Write, empty, perform, execute, run, last_date,
  list_effective_activations, find_dictionary_release,
}
use zsj_crm.Configuration.Store.Refinement.{active, timeline, journal}
use zsj_crm.Configuration.Store.Journal.{active-run}
use zsj_crm.Configuration.Store.Releases.{Numbered, keeps_codes}
use zsj_crm.Configuration.Store.Growth.{releases}
use zsj_crm.Configuration.Store.Found.{Numbered-run, find-publish}
use zsj_crm.Configuration.Validation.{Value, RawDefinition}

abbrev plain_hash : List Item → String
plain_hash items = "h"

abbrev pub schema : Schema
schema = record {
  dialect = "https://json-schema.org/draft/2020-12/schema";
  type_name = "integer";
  keywords = ("minimum", "0") ∷ [];
}

abbrev pub quota : Definition Value
quota = record {
  allowed_scopes = record { priority = 10; scope_type = "unit" } ∷ [];
  default_value = some (Value.natural 5);
  missing_policy = MissingPolicy.use_default;
  owner_module = "crm";
  parameter_key = "quota";
  value_schema = schema;
  value_type = ValueType.integer_type;
}

abbrev pub raw_quota : RawDefinition
raw_quota = record {
  allowed_scopes = record { priority = Number.nat 10; scope_type = "unit" } ∷ [];
  default_value = some (Value.natural 5);
  missing_policy = MissingPolicy.use_default;
  owner_module = "crm";
  parameter_key = "quota";
  value_schema = schema;
  value_type = ValueType.integer_type;
}

abbrev pub unit_scope : Scope
unit_scope = record { scope_reference = "u1"; scope_type = "unit" }

abbrev pub changed : Event
changed = record {
  event_id = "e";
  event_type = EventType.activation_changed;
  occurred_at = "2026-01-01T00:00:00.000Z";
  resource_id = "quota";
  version = 0;
}

abbrev pub in_march : Activation
in_march = record {
  activation_id = "a";
  effective_from = "2026-03-01T00:00:00.000Z";
  effective_to = some "2026-04-01T00:00:00.000Z";
  parameter_key = "quota";
  scope = unit_scope;
  value_version = 1;
}

abbrev pub registration : Command Value
registration = record {
  operation = "o1";
  fingerprint = "f1";
  write = Write.register_parameter quota;
}

abbrev pub publication : Command Value
publication = record {
  operation = "o2";
  fingerprint = "f2";
  write =
      Write.publish_parameter_value "c" changed "quota" "2026-01-01T00:00:00.000Z"
        (Value.natural 7);
}

abbrev pub activation : Command Value
activation = record {
  operation = "o3";
  fingerprint = "f3";
  write = Write.activate in_march changed;
}

abbrev pub settings : List (Command Value)
settings = registration ∷ publication ∷ activation ∷ []

abbrev pub mid_march : String
mid_march = "2026-03-15T00:00:00.000Z"

mid_march-early : text_lt mid_march last_date ≡ true
unfolding text_lt
mid_march-early = refl

active-run_example :
    active "quota" unit_scope mid_march (run plain_hash settings empty)
    ≡ timeline "quota" unit_scope mid_march (journal plain_hash settings empty [])
active-run_example = active-run plain_hash settings "quota" unit_scope mid_march mid_march-early

-- The activation is in force.
active_in_march :
    active "quota" unit_scope mid_march (run plain_hash settings empty) ≡ some ("a", 1)
unfolding list_effective_activations execute perform lookup insert text_lt text_le
active_in_march = refl

abbrev colors : Draft
colors = record {
  dictionary_id = "colors";
  items = record { code = "red"; enabled = true; label = "Red"; order = 1 } ∷ [];
  owner_module = "crm";
  revision = 0;
  updated_at = "2026-01-01T00:00:00.000Z";
}

abbrev saved : Command Value
saved = record {
  operation = "o4";
  fingerprint = "f4";
  write = Write.save_dictionary_draft colors 0;
}

abbrev first_release : Release
first_release = record {
  dictionary_id = "colors";
  items = record { code = "red"; enabled = true; label = "Red"; order = 1 } ∷ [];
  owner_module = "crm";
  content_digest = "h";
  published_at = "2026-01-02T00:00:00.000Z";
  release_version = 1;
}

abbrev release_command : Command Value
release_command = record {
  operation = "o5";
  fingerprint = "f5";
  write = Write.publish_dictionary "colors" changed 1 "2026-01-02T00:00:00.000Z";
}

abbrev store_of : Result (Store Value × Outcome Value × Bool) → Store Value
store_of (ok (t, o, b)) = t
store_of (fails e) = empty

abbrev after_release : Store Value
after_release =
    store_of
      (execute plain_hash "o5" "f5" release_command.write (run plain_hash (saved ∷ []) empty))

is_released :
    execute plain_hash "o5" "f5" release_command.write (run plain_hash (saved ∷ []) empty)
    ≡ ok (after_release, released first_release, false)
unfolding execute perform lookup insert
is_released = refl

find-publish_example :
    find_dictionary_release "colors" 1 (run plain_hash settings after_release) ≡ some first_release
find-publish_example =
    find-publish plain_hash (saved ∷ []) settings "o5" "f5" "colors" changed 1
      "2026-01-02T00:00:00.000Z" after_release first_release is_released

Numbered-run_example :
    Numbered
      (λ (r : Release). r.release_version)
      1
      (releases "colors" (run plain_hash (saved ∷ release_command ∷ []) empty))
    × (keeps_codes (releases "colors" (run plain_hash (saved ∷ release_command ∷ []) empty)) ≡ true)
Numbered-run_example = Numbered-run plain_hash (saved ∷ release_command ∷ []) "colors"
