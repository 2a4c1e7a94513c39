-- ===== src/Eventing/Consumption.antt =====
-- service.ts of the event outbox: `consume`, from the point where its request has been validated. The
-- handler is a parameter, which may call the store inside the transaction, and whose answers include
-- those of `withTimeout`; the calls that other clients make before the transaction of the receipt
-- begins are a list.
pub mod Once
pub mod Rollback
use zsj_crm.Prelude.{
  ℕ, ◌==◌, Bool, true, false, ◌&&◌, Option, none, some, List, [], ◌∷◌, ◌++◌, String, str_eq, lookup,
  if◌then◌else◌,
}
use zsj_crm.Eventing.Facts.{
  Error, conflict, ok, fails, JobStatus, queued, processing, cancelled, completed, InboxReceipt,
  JobRecord, IsolationReason, payload_conflict, unsupported_message, authoritative_state_rejected,
  Store, Call, Reply, done, changed, claimed, job, create_inbox_receipt, create_isolation,
  claim_job, complete_job, isolate_job, find_inbox_receipt,
}
use zsj_crm.Eventing.Store.{restored, call, run}

pub data Kind : Type 0 where
  event job_kind : Kind

-- `ValidatedMessage`, as far as its consumption reads it.
pub record Message : Type 0 where
  pub message_id : String
  pub message_kind : Kind
  pub message_type : String
  pub message_version : ℕ
  pub payload_sha256 : String

pub data Thrown : Type 0 where
  eventing : Error → Thrown
  foreign : Thrown

pub data Answer (X : Type 0) : Type 0 where
  threw : Thrown → Answer X
  gave : X → Answer X

-- `MessageHandler`, with what it does of the store in the transaction: from the message and the store
-- as it finds it, the calls that it makes, of which one that is refused changes nothing, and its answer.
-- A handler without `recheckAuthoritativeState` makes none there, and its answer is `gave false`.
pub record Handler (D E : Type 0) : Type 0 where
  pub kind : Kind
  pub message_type : String
  pub message_version : ℕ
  pub recheck : Message → Store D E → List (Call D E) × Answer Bool
  pub handle : Message → Store D E → List (Call D E) × Answer (Unit {0})

pub data SkipReason : Type 0 where
  job_cancelled authoritative_state : SkipReason

-- `ConsumptionResult`
pub data Consumption : Type 0 where
  completed_message duplicate : Consumption
  skipped : SkipReason → Consumption
  isolated_message : IsolationReason → Consumption

-- The store, and the messages that were given to a handler.
pub record State (D E : Type 0) : Type 0 where
  pub store : Store D E
  pub handled : List String

-- What one request brings: the consumer, the attempt, the clock's instants and a new identifier.
pub record Request : Type 0 where
  pub consumer : String
  pub attempt : ℕ
  pub isolation_id : String
  pub isolated_at : ℕ
  pub completed_at : ℕ

abbrev pub same_kind : Kind → Kind → Bool
same_kind event event = true
same_kind event job_kind = false
same_kind job_kind event = false
same_kind job_kind job_kind = true

abbrev pub matches : {D E : Type 0} → Handler D E → Message → Bool
matches h m =
    same_kind h.kind m.message_kind
    && (str_eq h.message_type m.message_type && h.message_version == m.message_version)

abbrev pub receipt_of : Request → Message → InboxReceipt
receipt_of r m = record {
  message_id = m.message_id;
  consumer = r.consumer;
  payload_sha256 = m.payload_sha256;
  completed_at = r.completed_at;
}

abbrev pub isolation_answer : IsolationReason → Consumption
isolation_answer payload_conflict = isolated_message payload_conflict
isolation_answer unsupported_message = isolated_message unsupported_message
isolation_answer authoritative_state_rejected = skipped authoritative_state

abbrev pub Run : Type 0 → Type 0 → Type 0 → Type 0
Run D E X = State D E → State D E × Answer X

abbrev pub fits_job : {E : Type 0} → Message → Option (JobRecord E) → Bool
fits_job m none = false
fits_job m (some j) = str_eq j.fingerprint m.payload_sha256

module _ {D E : Type 0} where
  abbrev pub go_on : {X Y : Type 0} → (X → Run D E Y) → State D E × Answer X → State D E × Answer Y
  go_on next (s, threw e) = (s, threw e)
  go_on next (s, gave x) = next x s

  infixl 5 ◌>>=◌ ◌>>◌
  abbrev pub ◌>>=◌ : {X Y : Type 0} → Run D E X → (X → Run D E Y) → Run D E Y
  (first >>= next) s = go_on next (first s)

  abbrev pub ◌>>◌ : {X Y : Type 0} → Run D E X → Run D E Y → Run D E Y
  (first >> next) s = go_on (λ _. next) (first s)

  abbrev pub give : {X : Type 0} → X → Run D E X
  give x s = (s, gave x)

  abbrev pub throw : {X : Type 0} → Error → Run D E X
  throw e s = (s, threw (eventing e))

  abbrev pub read : {X : Type 0} → (Store D E → X) → Run D E X
  read f s = (s, gave (f s.store))

  abbrev pub invoke : Call D E → Run D E (Reply D E)
  invoke c s = elim (call c s.store) [
    | fails e ↦ (s, threw (eventing e))
    | ok (t, reply) ↦ (record s { store = t }, gave reply)
  ]

  abbrev pub settled : {X : Type 0} → State D E → State D E × Answer X → State D E × Answer X
  settled s (t, threw e) = (record t { store = restored s.store t.store }, threw e)
  settled s (t, gave x) = (t, gave x)

  -- `transaction`
  abbrev pub transaction : {X : Type 0} → Run D E X → Run D E X
  transaction work s = settled s (work s)

  -- `isolate`
  abbrev pub isolate : Request → Message → IsolationReason → Run D E Consumption
  isolate r m reason = do
    invoke (
        create_isolation (record {
          isolation_id = r.isolation_id;
          message_id = m.message_id;
          consumer = r.consumer;
          payload_sha256 = m.payload_sha256;
          reason = reason;
          attempt = r.attempt;
          isolated_at = r.isolated_at;
        }))
    give (isolation_answer reason)

  -- The receipt, and what is answered with it.
  abbrev pub finish : Request → Message → Consumption → Run D E Consumption
  finish r m x = do invoke (create_inbox_receipt (receipt_of r m)); give x

  abbrev pub recheck_message : Handler D E → Message → Run D E Bool
  recheck_message h m s =
      let (cs, answer) = h.recheck m s.store in (record s { store = run cs s.store }, answer)

  abbrev pub handle_message : Handler D E → Message → Run D E (Unit {0})
  handle_message h m s =
      let (cs, answer) = h.handle m s.store in
      (record s { store = run cs s.store; handled = s.handled ++ m.message_id ∷ [] }, answer)

  abbrev pub handle_if : Handler D E → Message → Bool → Run D E Bool
  handle_if h m false = give false
  handle_if h m true = do handle_message h m; give true

  abbrev pub is_true : Reply D E → Bool
  is_true done = false
  is_true (changed b) = b
  is_true (claimed rows) = false
  is_true (job row) = false

  abbrev pub job_of : Reply D E → Option (JobRecord E)
  job_of done = none
  job_of (changed b) = none
  job_of (claimed rows) = none
  job_of (job row) = row

  -- What becomes of a job that could not be claimed.
  abbrev pub answer_status : Request → Message → JobStatus → Run D E Consumption
  answer_status r m queued = throw conflict
  answer_status r m processing = throw conflict
  answer_status r m cancelled = finish r m (skipped job_cancelled)
  answer_status r m completed = finish r m (skipped job_cancelled)
  answer_status r m JobStatus.isolated = finish r m (skipped authoritative_state)

  abbrev pub not_queued : Request → Message → Option (JobRecord E) → Run D E Consumption
  not_queued r m none = throw conflict
  not_queued r m (some j) = answer_status r m j.status

  -- A claimed job, once the handler's view of the authoritative state is known.
  abbrev pub conclude : Request → Message → JobRecord E → Bool → Run D E Consumption
  conclude r m j true = do
    reply ← invoke (complete_job m.message_id)
    if is_true reply then finish r m completed_message else throw conflict
  conclude r m j false = do
    reply ← invoke (isolate_job j.job_id)
    if is_true reply
        then (do answer ← isolate r m authoritative_state_rejected; finish r m answer)
        else throw conflict

  abbrev pub work_on : Request → Handler D E → Message → Option (JobRecord E) → Run D E Consumption
  work_on r h m none = do
    current ← read (λ (s : Store D E). lookup m.message_id s.jobs)
    not_queued r m current
  work_on r h m (some j) = do
    allowed ← recheck_message h m
    authoritative ← handle_if h m allowed
    conclude r m j authoritative

  -- The work of the transaction, for a job and for an event.
  abbrev pub work : Request → Handler D E → Message → Kind → Run D E Consumption
  work r h m event = do handle_message h m; finish r m completed_message
  work r h m job_kind = do
    existing ← read (λ (s : Store D E). lookup m.message_id s.jobs)
    if fits_job m existing
        then (do reply ← invoke (claim_job m.message_id); work_on r h m (job_of reply))
        else isolate r m payload_conflict

  -- A receipt of the message answers for it.
  abbrev pub unless_received :
      Request → Message → Run D E Consumption → Option InboxReceipt → Run D E Consumption
  unless_received r m next none = next
  unless_received r m next (some receipt) =
      if str_eq receipt.payload_sha256 m.payload_sha256
      then give duplicate
      else isolate r m payload_conflict

  abbrev pub received : Request → Message → Run D E (Option InboxReceipt)
  received r m = read (λ (s : Store D E). find_inbox_receipt m.message_id r.consumer s.inbox)

  abbrev pub others : List (Call D E) → Run D E (Unit {0})
  others cs s = (record s { store = run cs s.store }, gave tt)

  -- `consume`
  unfoldable pub consume : Request → Handler D E → List (Call D E) → Message → Run D E Consumption
  consume r h meanwhile m =
      if matches h m
      then (do
        receipt ← received r m
        unless_received r m
            (do
              others meanwhile
              transaction (do raced ← received r m; unless_received r m (work r h m h.kind) raced))
            receipt)
      else isolate r m unsupported_message
