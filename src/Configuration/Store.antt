-- ===== src/Configuration/Store.antt =====
-- memory-store.ts of the business configuration.
pub mod Receipts
pub mod Timeline
pub mod Refinement
pub mod Journal
pub mod Releases
pub mod Growth
pub mod Extension
pub mod Found
pub mod Backing
use zsj_crm.Prelude.{
  ℕ, suc, ◌+◌, Bool, true, false, ◌&&◌, ◌||◌, not, Option, none, some, List, [], ◌∷◌, ◌++◌, String,
  str_eq, ◌==◌, if◌then◌else◌, Dict, lookup, insert, has, select, any, find, includes, length, map,
}
use zsj_crm.Prelude.TextOrder.{text_lt, text_le}
use zsj_crm.Configuration.Facts.{
  not_found, operation_conflict, overlap, Result, ok, fails, ◌>>=◌, ◌>>◌, refuse_if, Item, Draft,
  Release, Definition, ValueRelease, Scope, Activation, Termination, Event, same_scope,
}

-- What an operation answers, and what its receipt remembers.
pub data Outcome (V : Type 0) : Type 0 where
  draft_saved : Draft → Outcome V
  released : Release → Outcome V
  registered : Definition V → Outcome V
  value_released : ValueRelease V → Outcome V
  activated : Outcome V
  terminated : Termination → Outcome V

pub record Receipt (V : Type 0) : Type 0 where
  pub fingerprint : String
  pub outcome : Outcome V

pub record Store (V : Type 0) : Type 0 where
  pub drafts : Dict Draft
  pub dictionaries : Dict (List Release)
  pub definitions : Dict (Definition V)
  pub values : Dict (List (ValueRelease V))
  pub activations : List Activation
  pub terminations : Dict Termination
  pub receipts : Dict (Receipt V)
  pub outbox : Dict Event

-- The operations that change the store, with their arguments.
pub data Write (V : Type 0) : Type 0 where
  save_dictionary_draft : (draft : Draft) (expected_revision : ℕ) → Write V
  publish_dictionary :
      (dictionary_id : String) (event : Event) (expected_revision : ℕ) (published_at : String)
      → Write V
  register_parameter : Definition V → Write V
  publish_parameter_value :
      (content_digest : String) (event : Event) (parameter_key published_at : String) (value : V)
      → Write V
  activate : Activation → Event → Write V
  terminate_activation : Termination → Event → Write V

pub record Command (V : Type 0) : Type 0 where
  pub operation : String
  pub fingerprint : String
  pub write : Write V

abbrev pub empty : {V : Type 0} → Store V
empty = record {
  drafts = [];
  dictionaries = [];
  definitions = [];
  values = [];
  activations = [];
  terminations = [];
  receipts = [];
  outbox = [];
}

abbrev pub last_date : String
last_date = "9999-12-31T23:59:59.999Z"

-- The end that is in force: the earlier of the activation's own and that of its termination.
abbrev pub earlier_end : Option String → Option Termination → Option String
earlier_end none none = none
earlier_end none (some t) = some t.effective_to
earlier_end (some e) none = some e
earlier_end (some e) (some t) = if text_lt t.effective_to e then some t.effective_to else some e

abbrev pub effective_end : Dict Termination → Activation → Option String
effective_end ts a = earlier_end a.effective_to (lookup a.activation_id ts)

abbrev pub ends_after : Option String → String → Bool
ends_after none at = true
ends_after (some e) at = text_lt at e

abbrev pub or_last : Option String → String
or_last none = last_date
or_last (some e) = e

abbrev pub codes : List Item → List String
codes items = map (λ (i : Item). i.code) items

abbrev pub revision_of : Option Draft → ℕ
revision_of none = 0
revision_of (some d) = d.revision

abbrev pub owned_by_other : String → Option Draft → Bool
owned_by_other owner none = false
owned_by_other owner (some d) = not (str_eq d.owner_module owner)

abbrev pub or_empty : {A : Type 0} → Option (List A) → List A
or_empty none = []
or_empty (some xs) = xs

-- Some code of an earlier release is not among the new ones.
abbrev pub loses_code : List Release → List Item → Bool
loses_code [] items = false
loses_code (r ∷ rs) items =
    any (λ (i : Item). not (includes (codes items) i.code)) r.items || loses_code rs items

-- Whether two activations are for one parameter and scope, and some time is in both.
abbrev pub collides : Dict Termination → Activation → Activation → Bool
collides ts candidate current =
    str_eq current.parameter_key candidate.parameter_key
    && (same_scope current.scope candidate.scope
        && (text_lt current.effective_from (or_last candidate.effective_to)
            && text_lt candidate.effective_from (or_last (effective_end ts current))))

unfoldable pub find_activation : String → String → List Activation → Option Activation
find_activation id key [] = none
find_activation id key (a ∷ as') =
    let rest = find_activation id key as' in
    if str_eq a.activation_id id && str_eq a.parameter_key key then some a else rest

abbrev pub ends_later : String → Option String → Bool
ends_later to none = false
ends_later to (some e) = text_lt e to

abbrev pub check_termination :
    Termination → Dict Termination → Option Activation → Result (Unit {0})
check_termination t ts none = fails not_found
check_termination t ts (some a) =
    refuse_if
      (has a.activation_id ts
        || (text_lt t.effective_to t.occurred_at
            || (text_le t.effective_to a.effective_from
                || ends_later t.effective_to a.effective_to)))
      operation_conflict

module _ {V : Type 0} where
  abbrev pub has_version : ℕ → Option (List (ValueRelease V)) → Bool
  has_version version none = false
  has_version version (some rs) = any (λ (r : ValueRelease V). r.value_version == version) rs

  -- An activation that is called again answers no more than that it is replayed.
  abbrev pub replayed_outcome : Write V → Outcome V → Outcome V
  replayed_outcome (activate a event) outcome = activated
  replayed_outcome _ outcome = outcome

  module _ (hash : List Item → String) where
    abbrev pub publish_draft :
        String → Event → ℕ → String → Store V → Option Draft → Result (Store V × Outcome V)
    publish_draft id event expected published_at s none = fails operation_conflict
    publish_draft id event expected published_at s (some d) =
        let list = or_empty (lookup id s.dictionaries) in
        let release : Release = record {
          dictionary_id = d.dictionary_id;
          items = d.items;
          owner_module = d.owner_module;
          content_digest = hash d.items;
          published_at = published_at;
          release_version = suc (length list);
        } in
        if not (d.revision == expected) || loses_code list d.items
        then fails operation_conflict
        else ok (
          record s {
            dictionaries = insert d.dictionary_id (list ++ release ∷ []) s.dictionaries;
            outbox =
                insert event.event_id (record event { version = release.release_version }) s.outbox;
          },
          released release,
        )

    -- What an operation does when it has no receipt.
    unfoldable pub perform : Write V → Store V → Result (Store V × Outcome V)
    perform (save_dictionary_draft draft expected) s =
        let current = lookup draft.dictionary_id s.drafts in
        let saved = record draft { revision = suc expected } in
        if not (revision_of current == expected) || owned_by_other draft.owner_module current
        then fails operation_conflict
        else ok (record s { drafts = insert draft.dictionary_id saved s.drafts }, draft_saved saved)
    perform (publish_dictionary id event expected published_at) s =
        publish_draft id event expected published_at s (lookup id s.drafts)
    perform (register_parameter d) s = do
      refuse_if (has d.parameter_key s.definitions) operation_conflict
      ok (record s { definitions = insert d.parameter_key d s.definitions }, registered d)
    perform (publish_parameter_value digest event key published_at value) s = do
      refuse_if (not (has key s.definitions)) not_found
      let list = or_empty (lookup key s.values)
      let release : ValueRelease V = record {
        content_digest = digest;
        parameter_key = key;
        published_at = published_at;
        value = value;
        value_version = suc (length list);
      }
      ok (
        record s {
          values = insert key (list ++ release ∷ []) s.values;
          outbox =
              insert event.event_id (record event { version = release.value_version }) s.outbox;
        },
        value_released release,
      )
    perform (activate a event) s = do
      refuse_if
          (not (has a.parameter_key s.definitions)
            || not (has_version a.value_version (lookup a.parameter_key s.values)))
          not_found
      refuse_if (any (collides s.terminations a) s.activations) overlap
      ok (
        record s {
          activations = s.activations ++ a ∷ [];
          outbox = insert event.event_id event s.outbox;
        },
        activated,
      )
    perform (terminate_activation t event) s = do
      check_termination t s.terminations
          (find_activation t.activation_id t.parameter_key s.activations)
      ok (
        record s {
          terminations = insert t.activation_id t s.terminations;
          outbox = insert event.event_id event s.outbox;
        },
        terminated t,
      )

    -- An operation that was not done before: what it does, with its receipt.
    abbrev pub receipted :
        String → String → Result (Store V × Outcome V) → Result (Store V × Outcome V × Bool)
    receipted operation fingerprint r = do
      (t, outcome) ← r
      ok (
        record t {
          receipts =
              insert operation (record { fingerprint = fingerprint; outcome = outcome }) t.receipts;
        },
        outcome,
        false,
      )

    abbrev pub replay : String → Write V → Store V → Receipt V → Result (Store V × Outcome V × Bool)
    replay fingerprint w s prior =
        if str_eq prior.fingerprint fingerprint
        then ok (s, replayed_outcome w prior.outcome, true)
        else fails operation_conflict

    abbrev pub with_prior :
        String
        → String
        → Write V
        → Store V
        → Option (Receipt V)
        → Result (Store V × Outcome V × Bool)
    with_prior operation fingerprint w s none = receipted operation fingerprint (perform w s)
    with_prior operation fingerprint w s (some prior) = replay fingerprint w s prior

    -- An operation: its answer says whether it was replayed.
    unfoldable pub execute :
        String → String → Write V → Store V → Result (Store V × Outcome V × Bool)
    execute operation fingerprint w s =
        with_prior operation fingerprint w s (lookup operation s.receipts)

  module _ (hash : List Item → String) where
    -- A call, as a client sees it: one that is refused leaves the store as it was.
    abbrev pub attempt : Command V → Store V → Store V
    attempt c s = elim (execute hash c.operation c.fingerprint c.write s) [
      | fails e ↦ s
      | ok (t, o, b) ↦ t
    ]

    abbrev pub run : List (Command V) → Store V → Store V
    run [] s = s
    run (c ∷ cs) s = run cs (attempt c s)

  unfoldable pub list_effective_activations :
      String → List Scope → String → Store V → List Activation
  list_effective_activations key scopes at s =
      map (λ (a : Activation). record a { effective_to = effective_end s.terminations a })
        (select
          (λ (a : Activation).
            str_eq a.parameter_key key
            && (any (λ c. same_scope c a.scope) scopes
                && (text_le a.effective_from at && ends_after (effective_end s.terminations a) at)))
          s.activations)

  unfoldable pub find_dictionary_release : String → ℕ → Store V → Option Release
  find_dictionary_release id version s =
      find (λ (r : Release). r.release_version == version) (or_empty (lookup id s.dictionaries))

  unfoldable pub find_parameter_value : String → ℕ → Store V → Option (ValueRelease V)
  find_parameter_value key version s =
      find (λ (r : ValueRelease V). r.value_version == version) (or_empty (lookup key s.values))
