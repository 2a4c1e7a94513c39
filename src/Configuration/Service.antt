-- ===== src/Configuration/Service.antt =====
-- service.ts of the business configuration: the calls of other parts, and what all commands share.
-- A command is a function on the state that it acts on, and ends in a result or in an exception. Every
-- await is a call of the outside, which other clients' commands on the store precede.
pub mod Commands
pub mod Queries
pub mod Protocol
pub mod Order
pub mod Retry
pub mod Choice
use zsj_crm.Prelude.{
  ℕ, suc, Bool, true, false, Option, none, some, List, ◌∷◌, String, if◌then◌else◌, lookup,
}
use zsj_crm.Configuration.Facts.{
  Error, denied, not_found, unavailable, Result, ok, fails, Item, Definition, Scope, EventType,
  Event,
}
use zsj_crm.Configuration.Store.{Store, Command, Outcome, run, execute}
use zsj_crm.Configuration.Validation.{Value, Actor, Metadata, Decision, Platform, valid_decision}

-- `BusinessConfigurationError`, or an error of another part.
pub data Failure : Type 0 where
  business : (code : Error) (retryable : Bool) → Failure
  foreign : Failure

pub data Answer {ℓ} (A : Type ℓ) : Type ℓ where
  threw : Failure → Answer A
  gave : A → Answer A

pub data AuthorizationAction : Type 0 where
  activates manages publishes reads : AuthorizationAction

-- `ConfigurationAuthorizationRequest`
pub record Request : Type 0 where
  pub action : AuthorizationAction
  pub actor : Actor
  pub owner_module : Option String
  pub resource_id : String

pub data AuditResult : Type 0 where
  attempted was_denied failed succeeded : AuditResult

-- What `ConfigurationAudit` records.
pub record Entry : Type 0 where
  pub action : String
  pub actor : Actor
  pub authorization_decision_id : String
  pub operation_id : String
  pub reason : String
  pub resource_id : String
  pub result : AuditResult
  pub trace_id : String

-- What is hashed.
pub data Hashed (R : Type 0) : Type 0 where
  items_content : List Item → Hashed R
  value_content : Value → Hashed R
  draft_fingerprint :
      (dictionary_id : String) (expected_revision : ℕ) (items : List Item) (owner_module : String)
      → Hashed R
  publication_fingerprint : (dictionary_id : String) (expected_revision : ℕ) → Hashed R
  definition_fingerprint : Definition Value → Hashed R
  value_fingerprint : (parameter_key : String) (value : Value) → Hashed R
  activation_fingerprint :
      (activation_id effective_from : String) (effective_to : Option String)
      (parameter_key : String) (scope : Scope) (value_version : ℕ)
      → Hashed R
  termination_fingerprint :
      (activation_id effective_to parameter_key termination_id : String) → Hashed R
  cache_key : (at parameter_key : String) (scopes : List Scope) → Hashed R
  resolution : R → Hashed R

-- What the service does to the other parts: it asks for a decision, which it gets or not, has an entry
-- recorded, and has a command accepted by the store.
pub data Effect : Type 0 where
  asked : Request → Option Decision → Effect
  noted : Entry → Effect
  committed : Command Value → Effect

-- The store, what was done, the latest first, and the number of calls of the outside.
pub record State : Type 0 where
  pub calls : ℕ
  pub store : Store Value
  pub log : List Effect

-- The other parts, each of which may answer otherwise at each call. `decide` and `cached` are empty
-- where the authorizer or the cache rejects, and `audited`, `stored` and `cache_takes` say whether
-- the audit, the store and the cache take a call; `meanwhile` is what other clients did before it.
-- `sorted` sorts scopes by `localeCompare` of their types. R is the type of what the cache is given,
-- and C of what is found there.
pub record World (R C : Type 0) : Type 0 where
  pub decide : ℕ → Request → Option Decision
  pub audited : ℕ → Bool
  pub stored : ℕ → Bool
  pub meanwhile : ℕ → List (Command Value)
  pub now : ℕ → String
  pub new_id : ℕ → String
  pub cached : ℕ → String → Option C
  pub cache_takes : ℕ → Bool
  pub platform : Platform
  pub sorted : List Scope → List Scope
  pub hash : Hashed R → String

abbrev pub Run : Type 0 → Type 0
Run A = State → State × Answer A

abbrev pub continued : {A B : Type 0} → State × Answer A → (A → Run B) → State × Answer B
continued (s, threw e) next = (s, threw e)
continued (s, gave a) next = next a s

abbrev pub handled : {A : Type 0} → State × Answer A → (Failure → Run A) → State × Answer A
handled (s, threw e) handler = handler e s
handled (s, gave a) handler = (s, gave a)

infixl 5 ◌>>=◌ ◌>>◌
unfoldable pub ◌>>=◌ : {A B : Type 0} → Run A → (A → Run B) → Run B
◌>>=◌ m next s = continued (m s) next

unfoldable pub ◌>>◌ : {B : Type 0} → Run (Unit {0}) → Run B → Run B
◌>>◌ m rest s = continued (m s) (λ _. rest)

unfoldable pub catch : {A : Type 0} → Run A → (Failure → Run A) → Run A
catch m handler s = handled (m s) handler

abbrev pub give : {A : Type 0} → A → Run A
give a s = (s, gave a)

abbrev pub throw : {A : Type 0} → Failure → Run A
throw e s = (s, threw e)

unfoldable pub lift : {A : Type 0} → Result A → Run A
lift (fails e) s = (s, threw (business e false))
lift (ok a) s = (s, gave a)

unfoldable pub throw_if : Bool → Error → Run (Unit {0})
throw_if true e s = (s, threw (business e false))
throw_if false e s = (s, gave tt)

abbrev pub outage : Failure
outage = business unavailable true

-- An error of another part becomes `configuration_unavailable`.
abbrev pub mapped : Failure → Failure
mapped (business code retryable) = business code retryable
mapped foreign = outage

abbrev pub emit : Effect → Run (Unit {0})
emit e s = (record s { log = e ∷ s.log }, gave tt)

module _ {R C : Type 0} (w : World R C) where
  -- The hash that the store makes of the items of a dictionary.
  abbrev pub items_hash : List Item → String
  items_hash items = w.hash (items_content items)

  -- A call of the outside, by its number.
  abbrev pub outside : Run ℕ
  outside s = (
    record s { calls = suc s.calls; store = run items_hash (w.meanwhile s.calls) s.store },
    gave s.calls,
  )

  -- `clock().toISOString()`
  abbrev pub read_clock : Run String
  read_clock s = (record s { calls = suc s.calls }, gave (w.now s.calls))

  -- The decision that an answer of the authorizer stands for.
  abbrev pub decided : Option Decision → Option Decision
  decided none = none
  decided (some d) = elim (valid_decision w.platform d) [
    | fails e ↦ none
    | ok decision ↦ some decision
  ]

  abbrev pub or_outage : {A : Type 0} → Option A → Run A
  or_outage none = throw outage
  or_outage (some a) = give a

  -- `authorize`
  unfoldable pub authorize : Request → Run Decision
  unfolding ◌>>=◌ ◌>>◌
  authorize request = do
    n ← outside
    emit (asked request (decided (w.decide n request)))
    or_outage (decided (w.decide n request))

  -- `record`
  unfoldable pub record_entry : Entry → Run (Unit {0})
  unfolding ◌>>=◌
  record_entry entry = do n ← outside; if w.audited n then emit (noted entry) else throw outage

  abbrev pub entry_of : Metadata → String → String → String → AuditResult → Entry
  entry_of meta action resource_id decision_id result = record {
    action = action;
    actor = meta.actor;
    authorization_decision_id = decision_id;
    operation_id = meta.operation_id;
    reason = meta.reason;
    resource_id = resource_id;
    result = result;
    trace_id = meta.trace_id;
  }

  unfoldable pub deny : {A : Type 0} → Entry → Run A
  unfolding ◌>>◌
  deny entry = do record_entry entry; throw (business denied false)

  -- `authorizeBeforeLookup`
  unfoldable pub authorize_before_lookup :
      Metadata → String → AuthorizationAction → String → Run (Unit {0})
  unfolding ◌>>=◌
  authorize_before_lookup meta action auth_action resource_id = do
    auth ← authorize (record {
      action = auth_action;
      actor = meta.actor;
      owner_module = none;
      resource_id = resource_id;
    })
    elim auth.allowed [
      | true ↦ give tt
      | false ↦ deny (entry_of meta action resource_id auth.decision_id was_denied)
    ]

  -- The rest of `mutate`, when it is allowed.
  unfoldable pub do_audited : {A : Type 0} → (AuditResult → Entry) → Run A → Run A
  unfolding ◌>>=◌ ◌>>◌ catch
  do_audited base work = do
    record_entry (base attempted)
    result ← catch work (λ e. do record_entry (base failed); throw (mapped e))
    record_entry (base succeeded)
    give result

  -- `mutate`
  unfoldable pub mutate :
      {A : Type 0}
      → Metadata
      → String
      → AuthorizationAction
      → String
      → Option String
      → Run A
      → Run A
  unfolding ◌>>=◌
  mutate meta action auth_action resource_id owner_module work = do
    auth ← authorize (record {
      action = auth_action;
      actor = meta.actor;
      owner_module = owner_module;
      resource_id = resource_id;
    })
    let base = entry_of meta action resource_id auth.decision_id
    elim auth.allowed [ true ↦ do_audited base work | false ↦ deny (base was_denied) ]

  -- A query of the store.
  unfoldable pub query : {A : Type 0} → (Store Value → A) → Run A
  unfolding ◌>>=◌
  query f = do n ← outside; λ s. if w.stored n then (s, gave (f s.store)) else (s, threw foreign)

  abbrev pub settle :
      Command Value
      → State
      → Result (Store Value × Outcome Value × Bool)
      → State × Answer (Outcome Value × Bool)
  settle c s (fails e) = (s, threw (business e false))
  settle c s (ok (t, outcome, replayed)) =
      (record s { store = t; log = committed c ∷ s.log }, gave (outcome, replayed))

  -- A command on the store.
  unfoldable pub commit : Command Value → Run (Outcome Value × Bool)
  unfolding ◌>>=◌
  commit c = do
    n ← outside
    λ s.
        if w.stored n
        then settle c s (execute items_hash c.operation c.fingerprint c.write s.store)
        else (s, threw foreign)

  -- `event`
  abbrev pub event_of : EventType → String → Run Event
  event_of event_type resource_id s = (
    record s { calls = suc s.calls },
    gave (record {
      event_id = w.new_id s.calls;
      event_type = event_type;
      occurred_at = w.now s.calls;
      resource_id = resource_id;
      version = 0;
    }),
  )

  abbrev pub present : {A : Type 0} → Option A → Run A
  present none = throw (business not_found false)
  present (some a) = give a

  -- `findDefinition`
  unfoldable pub find_definition : String → Run (Definition Value)
  unfolding ◌>>=◌ catch query
  find_definition key =
      catch (do found ← query (λ s. lookup key s.definitions); present found)
        (λ e. throw (mapped e))
