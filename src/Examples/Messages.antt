-- ===== src/Examples/Messages.antt =====
-- The event outbox on concrete inputs: one message, two publishers and one job.
use zsj_crm.Prelude.{
  ◌≡◌, refl, ℕ, Bool, true, false, none, some, List, [], ◌∷◌, String, lookup, insert,
}
use zsj_crm.Eventing.Facts.{
  OutboxRecord, Store, pending, JobRecord, queued, cancelled, Call, append_outbox, claim_outbox,
  mark_outbox_published, mark_outbox_failure, replay_outbox, create_job, claim_job, cancel_job,
  complete_job, isolate_job, find_inbox_receipt,
}
use zsj_crm.Eventing.Store.{claimed_by, published_row, empty, call, run}
use zsj_crm.Eventing.Store.Leases.{run-published, run-claimed}
use zsj_crm.Eventing.Store.Jobs.{run-ended}
use zsj_crm.Eventing.Consumption.{
  event, Message, foreign, threw, gave, Handler, duplicate, State, Request, receipt_of, transaction,
  work, consume,
}
use zsj_crm.Eventing.Consumption.Once.{consume-again}
use zsj_crm.Eventing.Consumption.Rollback.{consume-threw}

abbrev message : OutboxRecord Bool
message = record {
  message_id = "m1";
  available_at = 10;
  attempt_count = 0;
  status = pending;
  claim_token = none;
  claimed_at = none;
  published_at = none;
  isolated_at = none;
  last_error_code = none;
  details = true;
}

abbrev task : JobRecord Bool
task = record {
  job_id = "j1";
  idempotency_key = "k1";
  fingerprint = "f1";
  status = queued;
  envelope = true;
  cancel_reason = none;
}

abbrev token : ℕ → String
token n = "a"

abbrev claiming : List (Call Bool Bool)
claiming = append_outbox message ∷ claim_outbox 20 5 10 token ∷ []

abbrev claimed_message : OutboxRecord Bool
claimed_message = claimed_by "a" 20 message

-- Another publisher claims and reports while the claim is not stale.
abbrev rivals : List (Call Bool Bool)
rivals =
    claim_outbox 30 15 10 (λ n. "b")
    ∷ mark_outbox_published "m1" "b" 31
    ∷ mark_outbox_failure "m1" "b" 32 40 "timeout" true
    ∷ replay_outbox "m1" 33
    ∷ []

run-claimed_example : lookup "m1" (run rivals (run claiming empty)).outbox ≡ some claimed_message
unfolding call lookup insert
run-claimed_example =
    run-claimed claiming rivals "m1" "a" 20 claimed_message refl refl refl refl refl

abbrev publishing_calls : List (Call Bool Bool)
publishing_calls =
    append_outbox message ∷ claim_outbox 20 5 10 token ∷ mark_outbox_published "m1" "a" 25 ∷ []

abbrev later_calls : List (Call Bool Bool)
later_calls =
    claim_outbox 100 90 10 (λ n. "b")
    ∷ mark_outbox_failure "m1" "a" 101 120 "timeout" true
    ∷ replay_outbox "m1" 102
    ∷ append_outbox message
    ∷ []

run-published_example :
    lookup "m1" (run later_calls (run publishing_calls empty)).outbox
    ≡ some (published_row 25 claimed_message)
unfolding call lookup insert
run-published_example =
    run-published publishing_calls later_calls "m1" (published_row 25 claimed_message) refl refl

abbrev cancelled_task : JobRecord Bool
cancelled_task = record task { status = cancelled; cancel_reason = some "withdrawn" }

abbrev cancelling : List (Call Bool Bool)
cancelling = create_job task ∷ cancel_job "j1" "withdrawn" ∷ []

abbrev restarts : List (Call Bool Bool)
restarts =
    claim_job "j1"
    ∷ complete_job "j1"
    ∷ isolate_job "j1"
    ∷ cancel_job "j1" "again"
    ∷ create_job task
    ∷ []

run-ended_example : lookup "j1" (run restarts (run cancelling empty)).jobs ≡ some cancelled_task
unfolding call lookup insert
run-ended_example = run-ended restarts (run cancelling empty) "j1" cancelled_task refl refl

abbrev notice : Message
notice = record {
  message_id = "m1";
  message_kind = event;
  message_type = "task.created";
  message_version = 1;
  payload_sha256 = "p1";
}

abbrev mailer : Handler Bool Bool
mailer = record {
  kind = event;
  message_type = "task.created";
  message_version = 1;
  recheck = λ m s. ([], gave false);
  handle = λ m s. ([], gave tt);
}

-- A handler that appends a message and creates a job, and then throws.
abbrev broken_mailer : Handler Bool Bool
broken_mailer = record mailer {
  handle = λ m s.
      (append_outbox (record message { message_id = "m2" }) ∷ create_job task ∷ [], threw foreign);
}

abbrev delivery : Request
delivery = record {
  consumer = "mail";
  attempt = 1;
  isolation_id = "i1";
  isolated_at = 50;
  completed_at = 51;
}

abbrev at_first : State Bool Bool
at_first = record { store = run claiming empty; handled = [] }

abbrev delivered : State Bool Bool
delivered = record {
  store = record (run claiming empty) { inbox = receipt_of delivery notice ∷ [] };
  handled = "m1" ∷ [];
}

consume-again_example :
    consume delivery broken_mailer later_calls notice
      (record delivered { store = run rivals delivered.store })
    ≡ (record delivered { store = run rivals delivered.store }, gave duplicate)
unfolding consume call lookup insert
consume-again_example =
    consume-again delivery delivery mailer broken_mailer [] later_calls rivals notice notice
      at_first delivered refl refl refl refl refl

-- After the handler threw.
abbrev failed_once : State Bool Bool
failed_once = record { store = run rivals at_first.store; handled = "m1" ∷ [] }

consume-threw_example :
    (◌≡◌ {A = Store Bool Bool} (run rivals at_first.store) (run rivals at_first.store))
    × (find_inbox_receipt notice.message_id delivery.consumer (run rivals at_first.store).inbox
        ≡ none)
    × (consume delivery mailer [] notice failed_once
        ≡ transaction (work delivery mailer notice event) failed_once)
unfolding consume call lookup insert
consume-threw_example =
    consume-threw delivery delivery broken_mailer mailer rivals notice at_first failed_once foreign
      refl refl refl
