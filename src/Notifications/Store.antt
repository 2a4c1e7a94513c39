-- ===== src/Notifications/Store.antt =====
-- memory-store.ts, types.ts and errors.ts of the notifications. Releases of templates stand under a
-- template's key and a version, and intents under a producer and its key: an identifier holds no
-- U+0000, so the pair stands for the joined text. The order of `localeCompare` and `JSON.stringify` are
-- parameters.
pub mod Releases
pub mod Templates
pub mod Intents
pub mod Privacy
use zsj_crm.Prelude.{
  ◌≡◌, refl, ◌⊎◌, inl, inr, ℕ, suc, ◌+◌, ◌==◌, ltb, Bool, true, false, not, ◌&&◌, ◌||◌, Option,
  none, some, List, [], ◌∷◌, ◌++◌, String, str_eq, if◌then◌else◌, Dict, lookup, insert, has, values,
  select, find, is_some, length, take,
}
use zsj_crm.Prelude.TextOrder.{text_lt}

pub data Error : Type 0 where
  audit_failed authorization_failed conflict input_invalid not_found operation_denied : Error
  recipient_resolution_failed storage_unavailable template_invalid template_not_found : Error

pub data Result {ℓ} (X : Type ℓ) : Type ℓ where
  fails : Error → Result X
  ok : X → Result X

infixl 5 ◌>>=◌ ◌>>◌
abbrev pub ◌>>=◌ {ℓ₁ ℓ₂} : {X : Type ℓ₁} {Y : Type ℓ₂} → Result X → (X → Result Y) → Result Y
fails e >>= next = fails e
ok x >>= next = next x

abbrev pub ◌>>◌ {ℓ} : {Y : Type ℓ} → Result (Unit {0}) → Result Y → Result Y
check >> rest = check >>= λ _. rest

abbrev pub refuse_if : Bool → Error → Result (Unit {0})
refuse_if true e = fails e
refuse_if false e = ok tt

pub Result-cases {ℓ} :
    {X : Type ℓ} (r : Result X) → ((x : X) × (r ≡ ok x)) ⊎ ((e : Error) × (r ≡ fails e))
Result-cases (ok x) = inl (x, refl)
Result-cases (fails e) = inr (e, refl)

-- `NotificationTemplateDefinition`; D holds the fields that the store only keeps.
pub record Definition (D : Type 0) : Type 0 where
  pub template_key : String
  pub details : D

pub record Draft : Type 0 where
  pub body_template : String
  pub revision : ℕ
  pub summary_template : String
  pub template_key : String
  pub title_template : String
  pub updated_at : String

-- `TemplateRelease`; D holds the fields that the store only keeps.
pub record Release (D : Type 0) : Type 0 where
  pub template_key : String
  pub version : ℕ
  pub content_digest : String
  pub details : D

pub record ActivatedVersion : Type 0 where
  pub template_key : String
  pub version : ℕ

pub record IntentResult : Type 0 where
  pub intent_id : String
  pub notification_ids : List String

-- `StoredIntent`
pub record Intent : Type 0 where
  pub intent_id : String
  pub producer : String
  pub idempotency_key : String
  pub fingerprint : String
  pub result : IntentResult
  pub created_at : String

pub data Preference : Type 0 where
  deliver suppress : Preference

-- `InAppNotification`; D holds the fields that the store only keeps.
pub record Notification (D : Type 0) : Type 0 where
  pub notification_id : String
  pub principal_id : String
  pub preference_decision : Preference
  pub created_at : String
  pub state_version : ℕ
  pub read_at : Option String
  pub archived_at : Option String
  pub details : D

pub record Store (D : Type 0) : Type 0 where
  pub definitions : Dict (Definition D)
  pub drafts : Dict Draft
  pub draft_operations : Dict Draft
  pub templates : List (Release D)
  pub active_versions : Dict ℕ
  pub activation_ids : Dict ActivatedVersion
  pub intents : List Intent
  pub notifications : Dict (Notification D)

abbrev pub empty : {D : Type 0} → Store D
empty = record {
  definitions = [];
  drafts = [];
  draft_operations = [];
  templates = [];
  active_versions = [];
  activation_ids = [];
  intents = [];
  notifications = [];
}

-- What a call answers.
pub data Reply (D : Type 0) : Type 0 where
  created duplicate published activated : Reply D
  drafted : Draft → Reply D
  accepted : (status_created : Bool) → IntentResult → Reply D
  shown : Option (Notification D) → Reply D

-- The calls that change the store.
pub data Call (D : Type 0) : Type 0 where
  register_template_definition : Definition D → Call D
  save_template_draft : (draft : Draft) (expected_revision : ℕ) (operation_id : String) → Call D
  publish_template : Release D → Call D
  publish_and_activate_template : (activation_id : String) → Release D → Call D
  activate_template : (activation_id template_key : String) (version : ℕ) → Call D
  accept_intent : Intent → List (Notification D) → Call D
  mark_read archive : (principal_id notification_id at : String) → Call D

abbrev pub is_unset : Option String → Bool
is_unset none = true
is_unset (some at) = false

abbrev pub is_delivered : Preference → Bool
is_delivered deliver = true
is_delivered suppress = false

abbrev pub revision_of : Option Draft → ℕ
revision_of none = 0
revision_of (some d) = d.revision

-- A receipt answers the same command only.
abbrev pub same_draft : Draft → Draft → ℕ → Bool
same_draft receipt draft expected =
    str_eq receipt.template_key draft.template_key
    && (receipt.revision == suc expected
        && (str_eq receipt.title_template draft.title_template
            && (str_eq receipt.summary_template draft.summary_template
                && (str_eq receipt.body_template draft.body_template
                    && str_eq receipt.updated_at draft.updated_at))))

abbrev pub activation_fits : String → ℕ → Option ActivatedVersion → Bool
activation_fits key version none = true
activation_fits key version (some a) = str_eq a.template_key key && a.version == version

abbrev pub noted_activation : String → String → ℕ → Dict ActivatedVersion → Dict ActivatedVersion
noted_activation id key version ids =
    if has id ids then ids else insert id (record { template_key = key; version = version }) ids

-- `findIntent`
unfoldable pub find_intent : String → String → List Intent → Option Intent
find_intent producer key is =
    find (λ (i : Intent). str_eq i.producer producer && str_eq i.idempotency_key key) is

module _ {D : Type 0} where
  -- `getTemplate`
  unfoldable pub get_template : String → ℕ → List (Release D) → Option (Release D)
  get_template key version rs =
      find (λ (r : Release D). str_eq r.template_key key && r.version == version) rs

  -- `getActiveTemplate`
  abbrev pub active_template : Option ℕ → String → List (Release D) → Option (Release D)
  active_template none key rs = none
  active_template (some version) key rs = get_template key version rs

  unfoldable pub get_active_template : String → Store D → Option (Release D)
  get_active_template key s = active_template (lookup key s.active_versions) key s.templates

  abbrev pub publish : Release D → Store D → Option (Release D) → Result (Store D × Reply D)
  publish r s none = ok (record s { templates = s.templates ++ r ∷ [] }, published)
  publish r s (some existing) =
      if str_eq existing.content_digest r.content_digest then ok (s, duplicate) else fails conflict

  unfoldable pub activate_version : String → String → ℕ → Store D → Result (Store D × Reply D)
  activate_version id key version s = do
    refuse_if (not (is_some (get_template key version s.templates))) template_not_found
    refuse_if (not (activation_fits key version (lookup id s.activation_ids))) conflict
    ok (
      record s {
        activation_ids = noted_activation id key version s.activation_ids;
        active_versions = insert key version s.active_versions;
      },
      activated,
    )

  abbrev pub digest_fits : String → Option (Release D) → Bool
  digest_fits digest none = true
  digest_fits digest (some r) = str_eq r.content_digest digest

  -- Both steps, after the checks that let them succeed.
  abbrev pub activated_after :
      String → Release D → Result (Store D × Reply D) → Result (Store D × Reply D)
  activated_after id r published_release = do
    (t, reply) ← published_release
    (u, _) ← activate_version id r.template_key r.version t
    ok (u, reply)

  -- The notifications of an intent, unless one of them is there already.
  abbrev pub add_all :
      List (Notification D) → Dict (Notification D) → Option (Dict (Notification D))
  add_all [] d = some d
  add_all (n ∷ ns) d =
      if has n.notification_id d then none else add_all ns (insert n.notification_id n d)

  abbrev pub accept_new :
      Intent → Store D → Option (Dict (Notification D)) → Result (Store D × Reply D)
  accept_new i s none = fails conflict
  accept_new i s (some d) =
      ok (record s { intents = s.intents ++ i ∷ []; notifications = d }, accepted true i.result)

  abbrev pub accept :
      Intent → List (Notification D) → Store D → Option Intent → Result (Store D × Reply D)
  accept i ns s none = accept_new i s (add_all ns s.notifications)
  accept i ns s (some existing) =
      if str_eq existing.fingerprint i.fingerprint
      then ok (s, accepted false existing.result)
      else fails conflict

  -- A notification that a principal may see.
  abbrev pub is_visible : String → Notification D → Bool
  is_visible principal n = str_eq n.principal_id principal && is_delivered n.preference_decision

  abbrev pub read_now : String → Notification D → Notification D
  read_now at n =
      if is_unset n.read_at
      then record n { read_at = some at; state_version = suc n.state_version }
      else n

  abbrev pub archived_now : String → Notification D → Notification D
  archived_now at n =
      if is_unset n.archived_at
      then record n { archived_at = some at; state_version = suc n.state_version }
      else n

  -- A change of a notification of the principal.
  abbrev pub change :
      (Notification D → Notification D)
      → String
      → String
      → Store D
      → Option (Notification D)
      → Store D × Reply D
  change f principal id s none = (s, shown none)
  change f principal id s (some n) =
      if is_visible principal n
      then (record s { notifications = insert id (f n) s.notifications }, shown (some (f n)))
      else (s, shown none)

  module _ (json : Definition D → String) where
    abbrev pub register :
        Definition D → Store D → Option (Definition D) → Result (Store D × Reply D)
    register d s none =
        ok (record s { definitions = insert d.template_key d s.definitions }, created)
    register d s (some existing) =
        if str_eq (json existing) (json d) then ok (s, duplicate) else fails conflict

    abbrev pub save : Draft → ℕ → String → Store D → Option Draft → Result (Store D × Reply D)
    save draft expected id s (some receipt) =
        if same_draft receipt draft expected then ok (s, drafted receipt) else fails conflict
    save draft expected id s none = do
      refuse_if (not (revision_of (lookup draft.template_key s.drafts) == expected)) conflict
      let next = record draft { revision = suc expected }
      ok (
        record s {
          drafts = insert draft.template_key next s.drafts;
          draft_operations = insert id next s.draft_operations;
        },
        drafted next,
      )

    unfoldable pub call : Call D → Store D → Result (Store D × Reply D)
    call (register_template_definition d) s = register d s (lookup d.template_key s.definitions)
    call (save_template_draft draft expected id) s =
        save draft expected id s (lookup id s.draft_operations)
    call (publish_template r) s = publish r s (get_template r.template_key r.version s.templates)
    call (publish_and_activate_template id r) s = do
      refuse_if
          (not (digest_fits r.content_digest (get_template r.template_key r.version s.templates)))
          conflict
      refuse_if (not (activation_fits r.template_key r.version (lookup id s.activation_ids)))
          conflict
      activated_after id r (publish r s (get_template r.template_key r.version s.templates))
    call (activate_template id key version) s = activate_version id key version s
    call (accept_intent i ns) s = accept i ns s (find_intent i.producer i.idempotency_key s.intents)
    call (mark_read principal id at) s =
        ok (change (read_now at) principal id s (lookup id s.notifications))
    call (archive principal id at) s =
        ok (change (archived_now at) principal id s (lookup id s.notifications))

    -- A call, as a client sees it: one that is refused leaves the store as it was.
    abbrev pub attempt : Call D → Store D → Store D
    attempt c s = elim (call c s) [ fails e ↦ s | ok (t, reply) ↦ t ]

    abbrev pub run : List (Call D) → Store D → Store D
    run [] s = s
    run (c ∷ cs) s = run cs (attempt c s)

  -- `get`
  abbrev pub visible_only : String → Option (Notification D) → Option (Notification D)
  visible_only principal none = none
  visible_only principal (some n) = if is_visible principal n then some n else none

  unfoldable pub get : String → String → Store D → Option (Notification D)
  get principal id s = visible_only principal (lookup id s.notifications)

  -- `unreadCount`
  unfoldable pub unread_count : String → Store D → ℕ
  unread_count principal s = length (
      select
        (λ (n : Notification D).
          is_visible principal n && (is_unset n.read_at && is_unset n.archived_at))
        (values s.notifications))

  module _ (locale_lt : String → String → Bool) (joined : String → String → String) where
    -- The newest first, and of one time the greater identifier first.
    abbrev pub is_before : Notification D → Notification D → Bool
    is_before a b =
        locale_lt b.created_at a.created_at
        || not (locale_lt a.created_at b.created_at)
          && locale_lt b.notification_id a.notification_id

    abbrev pub place : Notification D → List (Notification D) → List (Notification D)
    place n [] = n ∷ []
    place n (m ∷ ms) = let rest = place n ms in if is_before m n then m ∷ rest else n ∷ m ∷ ms

    abbrev pub sort : List (Notification D) → List (Notification D)
    sort [] = []
    sort (n ∷ ns) = place n (sort ns)

    abbrev pub cursor_of : Notification D → String
    cursor_of n = joined n.created_at n.notification_id

    abbrev pub follows : Option String → Notification D → Bool
    follows none n = true
    follows (some cursor) n = text_lt (cursor_of n) cursor

    abbrev pub rows : String → Bool → Option String → Store D → List (Notification D)
    rows principal include_archived cursor s = select (follows cursor) (
        sort (
          select
            (λ (n : Notification D).
              is_visible principal n && (include_archived || is_unset n.archived_at))
            (values s.notifications)))

    abbrev pub last_cursor : List (Notification D) → Option String
    last_cursor [] = none
    last_cursor (n ∷ []) = some (cursor_of n)
    last_cursor (n ∷ m ∷ ms) = last_cursor (m ∷ ms)

    -- `list`
    unfoldable pub list :
        String → ℕ → Bool → Option String → Store D → List (Notification D) × Option String
    list principal limit include_archived cursor s =
        let rs = rows principal include_archived cursor s in
        let items = take limit rs in
        (items, if ltb limit (length rs) then last_cursor items else none)
