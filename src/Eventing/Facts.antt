-- ===== src/Eventing/Facts.antt =====
-- types.ts, store.ts and errors.ts of the event outbox: the records of its store, the calls of it, and
-- the tests of a record that its operations share. Instants are the numbers that `getTime` gives.
use zsj_crm.Prelude.{
  ℕ, leb, Bool, true, false, ◌&&◌, Option, none, some, String, str_eq, List, Dict, find,
}

pub data Error : Type 0 where
  conflict invalid_input handler_timeout not_found operation_denied storage_unavailable : Error

pub data Result {ℓ} (X : Type ℓ) : Type ℓ where
  fails : Error → Result X
  ok : X → Result X

pub data OutboxStatus : Type 0 where
  pending publishing published isolated : OutboxStatus

-- `OutboxRecord`; D holds the fields that the store only keeps.
pub record OutboxRecord (D : Type 0) : Type 0 where
  pub message_id : String
  pub available_at : ℕ
  pub attempt_count : ℕ
  pub status : OutboxStatus
  pub claim_token : Option String
  pub claimed_at : Option ℕ
  pub published_at : Option ℕ
  pub isolated_at : Option ℕ
  pub last_error_code : Option String
  pub details : D

pub record InboxReceipt : Type 0 where
  pub message_id : String
  pub consumer : String
  pub payload_sha256 : String
  pub completed_at : ℕ

pub data JobStatus : Type 0 where
  queued processing cancelled completed isolated : JobStatus

-- `JobRecord`; E is the type of its envelope.
pub record JobRecord (E : Type 0) : Type 0 where
  pub job_id : String
  pub idempotency_key : String
  pub fingerprint : String
  pub status : JobStatus
  pub envelope : E
  pub cancel_reason : Option String

pub data IsolationReason : Type 0 where
  payload_conflict unsupported_message authoritative_state_rejected : IsolationReason

pub record IsolationRecord : Type 0 where
  pub isolation_id : String
  pub message_id : String
  pub consumer : String
  pub payload_sha256 : String
  pub reason : IsolationReason
  pub attempt : ℕ
  pub isolated_at : ℕ

pub record Store (D E : Type 0) : Type 0 where
  pub outbox : Dict (OutboxRecord D)
  pub inbox : List InboxReceipt
  pub jobs : Dict (JobRecord E)
  pub isolations : Dict IsolationRecord
  pub fail_published_update : Bool

-- The calls that change the store; `token` gives the tokens of one claim in their order.
pub data Call (D E : Type 0) : Type 0 where
  append_outbox : OutboxRecord D → Call D E
  claim_outbox : (at stale_before limit : ℕ) (token : ℕ → String) → Call D E
  mark_outbox_published : (id token : String) (at : ℕ) → Call D E
  mark_outbox_failure :
      (id token : String) (at available_at : ℕ) (error_code : String) (isolate : Bool) → Call D E
  replay_outbox : (id : String) (at : ℕ) → Call D E
  create_inbox_receipt : InboxReceipt → Call D E
  create_isolation : IsolationRecord → Call D E
  create_job : JobRecord E → Call D E
  claim_job : (id : String) → Call D E
  cancel_job : (id reason : String) → Call D E
  complete_job isolate_job : (id : String) → Call D E

-- What a call answers.
pub data Reply (D E : Type 0) : Type 0 where
  done : Reply D E
  changed : Bool → Reply D E
  claimed : List (OutboxRecord D) → Reply D E
  job : Option (JobRecord E) → Reply D E

abbrev pub is_pending : OutboxStatus → Bool
is_pending pending = true
is_pending publishing = false
is_pending published = false
is_pending isolated = false

abbrev pub is_publishing : OutboxStatus → Bool
is_publishing pending = false
is_publishing publishing = true
is_publishing published = false
is_publishing isolated = false

abbrev pub is_isolated : OutboxStatus → Bool
is_isolated pending = false
is_isolated publishing = false
is_isolated published = false
is_isolated isolated = true

abbrev pub is_queued : JobStatus → Bool
is_queued queued = true
is_queued processing = false
is_queued cancelled = false
is_queued completed = false
is_queued isolated = false

abbrev pub is_processing : JobStatus → Bool
is_processing queued = false
is_processing processing = true
is_processing cancelled = false
is_processing completed = false
is_processing isolated = false

abbrev pub same_reason : IsolationReason → IsolationReason → Bool
same_reason payload_conflict payload_conflict = true
same_reason unsupported_message unsupported_message = true
same_reason authoritative_state_rejected authoritative_state_rejected = true
same_reason payload_conflict unsupported_message = false
same_reason payload_conflict authoritative_state_rejected = false
same_reason unsupported_message payload_conflict = false
same_reason unsupported_message authoritative_state_rejected = false
same_reason authoritative_state_rejected payload_conflict = false
same_reason authoritative_state_rejected unsupported_message = false

-- A claim that is older than the instant.
abbrev pub is_stale : ℕ → Option ℕ → Bool
is_stale stale_before none = false
is_stale stale_before (some at) = leb at stale_before

abbrev pub has_token : String → Option String → Bool
has_token token none = false
has_token token (some t) = str_eq t token

-- `findInboxReceipt`
abbrev pub find_inbox_receipt : String → String → List InboxReceipt → Option InboxReceipt
find_inbox_receipt id consumer rs =
    find (λ (r : InboxReceipt). str_eq r.message_id id && str_eq r.consumer consumer) rs

abbrev pub same_isolation : IsolationRecord → IsolationRecord → Bool
same_isolation row item =
    str_eq item.message_id row.message_id
    && (str_eq item.consumer row.consumer
        && (str_eq item.payload_sha256 row.payload_sha256 && same_reason item.reason row.reason))
