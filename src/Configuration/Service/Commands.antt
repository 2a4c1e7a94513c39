-- ===== src/Configuration/Service/Commands.antt =====
-- service.ts of the business configuration: the commands that change the store.
use zsj_crm.Prelude.{
  ℕ, zero, suc, Bool, false, not, ◌||◌, Option, none, some, List, [], ◌∷◌, String, str_eq, lookup,
  Number,
}
use zsj_crm.Prelude.TextOrder.{text_lt}
use zsj_crm.Configuration.Facts.{
  invalid_input, operation_conflict, Draft, Scope, Activation, EventType,
}
use zsj_crm.Configuration.Store.{Write, Outcome}
use zsj_crm.Configuration.Validation.{
  Value, Metadata, RawItem, RawDefinition, valid_id, valid_uuid, valid_date, valid_version,
  valid_metadata, valid_scope, valid_value, item_list, optional,
}
use zsj_crm.Configuration.Cache.{allows, ends_early}
use zsj_crm.Configuration.Definitions.{valid_definition, accepts}
use zsj_crm.Configuration.Service.{
  State, World, Run, AuthorizationAction, draft_fingerprint, publication_fingerprint,
  definition_fingerprint, value_fingerprint, value_content, activation_fingerprint,
  termination_fingerprint, mapped, catch, ◌>>=◌, ◌>>◌, give, throw, throw_if, lift, read_clock,
  authorize_before_lookup, mutate, query, commit, event_of, present, find_definition,
}

module _ {R C : Type 0} (w : World R C) where
  abbrev pub owned_by : String → Option Draft → Bool
  owned_by owner none = false
  owned_by owner (some d) = str_eq d.owner_module owner

  -- The check of a draft that is there already.
  abbrev pub check_current : Metadata → String → String → ℕ → Run (Unit {0})
  check_current meta dictionary_id owner zero = give tt
  check_current meta dictionary_id owner (suc n) = do
    authorize_before_lookup w meta "configuration.dictionary.draft.save" AuthorizationAction.manages
        dictionary_id
    current ← catch (query w (λ s. lookup dictionary_id s.drafts)) (λ e. throw (mapped e))
    throw_if (not (owned_by owner current)) operation_conflict

  -- `saveDictionaryDraft`
  unfoldable pub save_dictionary_draft :
      Metadata → String → Number → List RawItem → String → Run (Outcome Value × Bool)
  save_dictionary_draft raw id revision raw_items owner = do
    meta ← lift (valid_metadata w.platform raw)
    dictionary_id ← lift (valid_id id)
    owner_module ← lift (valid_id owner)
    expected ← lift (valid_version 0 revision)
    items ← lift (item_list raw_items)
    check_current meta dictionary_id owner_module expected
    now ← read_clock w
    let draft : Draft = record {
      dictionary_id = dictionary_id;
      items = items;
      owner_module = owner_module;
      revision = 0;
      updated_at = now;
    }
    mutate w meta "configuration.dictionary.draft.save" AuthorizationAction.manages dictionary_id
        (some owner_module)
        (commit w (record {
          operation = meta.operation_id;
          fingerprint = w.hash (draft_fingerprint dictionary_id expected items owner_module);
          write = Write.save_dictionary_draft draft expected;
        }))

  -- `publishDictionary`
  unfoldable pub publish_dictionary : Metadata → String → Number → Run (Outcome Value × Bool)
  publish_dictionary raw id revision = do
    meta ← lift (valid_metadata w.platform raw)
    dictionary_id ← lift (valid_id id)
    expected ← lift (valid_version 1 revision)
    authorize_before_lookup w meta "configuration.dictionary.publish" AuthorizationAction.publishes
        dictionary_id
    found ← catch (query w (λ s. lookup dictionary_id s.drafts)) (λ e. throw (mapped e))
    draft ← present w found
    mutate w meta "configuration.dictionary.publish" AuthorizationAction.publishes dictionary_id
        (some draft.owner_module)
        (do
          event ← event_of w EventType.dictionary_published dictionary_id
          now ← read_clock w
          commit w (record {
            operation = meta.operation_id;
            fingerprint = w.hash (publication_fingerprint dictionary_id expected);
            write = Write.publish_dictionary dictionary_id event expected now;
          }))

  -- `registerParameter`
  unfoldable pub register_parameter : Metadata → RawDefinition → Run (Outcome Value × Bool)
  register_parameter raw raw_definition = do
    meta ← lift (valid_metadata w.platform raw)
    definition ← lift (valid_definition w.platform raw_definition)
    mutate w meta "configuration.parameter.register" AuthorizationAction.manages
        definition.parameter_key (some definition.owner_module)
        (commit w (record {
          operation = meta.operation_id;
          fingerprint = w.hash (definition_fingerprint definition);
          write = Write.register_parameter definition;
        }))

  -- `publishParameterValue`
  unfoldable pub publish_parameter_value : Metadata → String → Value → Run (Outcome Value × Bool)
  publish_parameter_value raw key raw_value = do
    meta ← lift (valid_metadata w.platform raw)
    parameter_key ← lift (valid_id key)
    authorize_before_lookup w meta "configuration.parameter.publish" AuthorizationAction.publishes
        parameter_key
    definition ← find_definition w parameter_key
    typed ← lift (valid_value raw_value definition.value_type)
    fits ← lift (accepts w.platform definition.value_schema typed)
    throw_if (not fits) invalid_input
    mutate w meta "configuration.parameter.publish" AuthorizationAction.publishes parameter_key
        (some definition.owner_module)
        (do
          event ← event_of w EventType.parameter_published parameter_key
          now ← read_clock w
          commit w (record {
            operation = meta.operation_id;
            fingerprint = w.hash (value_fingerprint parameter_key typed);
            write =
                Write.publish_parameter_value (w.hash (value_content typed)) event parameter_key now
                  typed;
          }))

  -- `activateParameter`
  unfoldable pub activate_parameter :
      Metadata
      → (activation_id effective_from : String) → Option String
      → (parameter_key : String) → Scope
      → Number
      → Run (Outcome Value × Bool)
  activate_parameter raw id from to key raw_scope version = do
    meta ← lift (valid_metadata w.platform raw)
    parameter_key ← lift (valid_id key)
    authorize_before_lookup w meta "configuration.parameter.activate" AuthorizationAction.activates
        parameter_key
    definition ← find_definition w parameter_key
    scope ← lift (valid_scope raw_scope)
    value_version ← lift (valid_version 1 version)
    activation_id ← lift (valid_uuid w.platform id)
    effective_from ← lift (valid_date w.platform from)
    effective_to ← lift (optional w.platform (valid_date w.platform) to)
    throw_if
        (not (allows definition.allowed_scopes scope) || ends_early effective_from effective_to)
        invalid_input
    let activation : Activation = record {
      activation_id = activation_id;
      effective_from = effective_from;
      effective_to = effective_to;
      parameter_key = parameter_key;
      scope = scope;
      value_version = value_version;
    }
    mutate w meta "configuration.parameter.activate" AuthorizationAction.activates parameter_key
        (some definition.owner_module)
        (do
          event ← event_of w EventType.activation_changed parameter_key
          commit w (record {
            operation = meta.operation_id;
            fingerprint = w.hash (
                activation_fingerprint activation_id effective_from effective_to parameter_key scope
                  value_version);
            write = Write.activate activation event;
          }))

  -- `terminateParameterActivation`
  unfoldable pub terminate_parameter_activation :
      Metadata
      → (activation_id effective_to parameter_key termination_id : String)
      → Run (Outcome Value × Bool)
  terminate_parameter_activation raw id to key termination = do
    meta ← lift (valid_metadata w.platform raw)
    parameter_key ← lift (valid_id key)
    authorize_before_lookup w meta "configuration.parameter.activation.terminate"
        AuthorizationAction.activates parameter_key
    definition ← find_definition w parameter_key
    activation_id ← lift (valid_uuid w.platform id)
    termination_id ← lift (valid_uuid w.platform termination)
    effective_to ← lift (valid_date w.platform to)
    occurred_at ← read_clock w
    throw_if (text_lt effective_to occurred_at) invalid_input
    mutate w meta "configuration.parameter.activation.terminate" AuthorizationAction.activates
        parameter_key (some definition.owner_module)
        (do
          event ← event_of w EventType.activation_changed parameter_key
          commit w (record {
            operation = meta.operation_id;
            fingerprint =
                w.hash
                  (termination_fingerprint activation_id effective_to parameter_key termination_id);
            write =
                Write.terminate_activation
                  (record {
                    activation_id = activation_id;
                    effective_to = effective_to;
                    occurred_at = occurred_at;
                    parameter_key = parameter_key;
                    termination_id = termination_id;
                  })
                  event;
          }))

-- A command of the service, with its input.
pub data Input : Type 0 where
  saves_draft :
      Metadata
      → (dictionary_id : String) (expected_revision : Number) (items : List RawItem)
        (owner_module : String)
      → Input
  publishes_dictionary : Metadata → (dictionary_id : String) (expected_revision : Number) → Input
  registers : Metadata → RawDefinition → Input
  publishes_value : Metadata → (parameter_key : String) (value : Value) → Input
  activates :
      Metadata
      → (activation_id effective_from : String) (effective_to : Option String)
        (parameter_key : String) (scope : Scope) (value_version : Number)
      → Input
  terminates : Metadata → (activation_id effective_to parameter_key termination_id : String) → Input

module _ {R C : Type 0} (w : World R C) where
  unfoldable pub serve : Input → Run (Outcome Value × Bool)
  serve (saves_draft meta id revision items owner) =
      save_dictionary_draft w meta id revision items owner
  serve (publishes_dictionary meta id revision) = publish_dictionary w meta id revision
  serve (registers meta definition) = register_parameter w meta definition
  serve (publishes_value meta key value) = publish_parameter_value w meta key value
  serve (activates meta id from to key scope version) =
      activate_parameter w meta id from to key scope version
  serve (terminates meta id to key termination) =
      terminate_parameter_activation w meta id to key termination

  -- Commands one after the other, each from the state in which the one before ended.
  abbrev pub serve_all : List Input → State → State
  serve_all [] s = s
  serve_all (i ∷ is) s = serve_all is (serve i s).0
