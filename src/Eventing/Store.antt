-- ===== src/Eventing/Store.antt =====
-- memory-store.ts of the event outbox. A receipt of the inbox stands under a message and a consumer: an
-- identifier holds no U+0000, so the pair stands for the joined text.
pub mod Outbox
pub mod Leases
pub mod Jobs
use zsj_crm.Prelude.{
  ℕ, suc, ◌+◌, leb, Bool, true, false, ◌&&◌, ◌||◌, Option, none, some, List, [], ◌∷◌, ◌++◌, String,
  str_eq, if◌then◌else◌, Dict, lookup, insert, has, values, select, find, any, is_some, take,
}
use zsj_crm.Eventing.Facts.{
  Call, JobRecord, JobStatus, OutboxRecord, OutboxStatus, Reply, Result, Store, append_outbox,
  cancel_job, cancelled, changed, claim_job, claim_outbox, claimed, complete_job, completed,
  conflict, create_inbox_receipt, create_isolation, create_job, done, fails, find_inbox_receipt,
  has_token, is_isolated, is_pending, is_processing, is_publishing, is_queued, is_stale,
  isolate_job, isolated, job, mark_outbox_failure, mark_outbox_published, ok, pending, processing,
  published, publishing, replay_outbox, same_isolation, storage_unavailable,
}

module _ {D E : Type 0} where
  abbrev pub empty : Store D E
  empty = record {
    outbox = [];
    inbox = [];
    jobs = [];
    isolations = [];
    fail_published_update = false;
  }

module _ {D : Type 0} where
  -- The messages that a claim may take.
  abbrev pub is_due : ℕ → ℕ → OutboxRecord D → Bool
  is_due at stale_before row =
      is_pending row.status && leb row.available_at at
      || is_publishing row.status && is_stale stale_before row.claimed_at

  abbrev pub place : OutboxRecord D → List (OutboxRecord D) → List (OutboxRecord D)
  place row [] = row ∷ []
  place row (first ∷ rows) =
      let rest = place row rows in
      if leb row.available_at first.available_at then row ∷ first ∷ rows else first ∷ rest

  -- The earliest available first.
  abbrev pub sort : List (OutboxRecord D) → List (OutboxRecord D)
  sort [] = []
  sort (row ∷ rows) = place row (sort rows)

  abbrev pub chosen : ℕ → ℕ → ℕ → Dict (OutboxRecord D) → List (OutboxRecord D)
  chosen at stale_before limit rows =
      take limit (sort (select (is_due at stale_before) (values rows)))

  abbrev pub claimed_by : String → ℕ → OutboxRecord D → OutboxRecord D
  claimed_by token at row = record row {
    status = publishing;
    attempt_count = row.attempt_count + 1;
    claim_token = some token;
    claimed_at = some at;
  }

  -- Each of the chosen messages gets the next token.
  abbrev pub claim_each :
      (ℕ → String) → ℕ → ℕ → List (OutboxRecord D) → Dict (OutboxRecord D) → Dict (OutboxRecord D)
  claim_each token n at [] rows = rows
  claim_each token n at (row ∷ more) rows =
      claim_each token (suc n) at more (insert row.message_id (claimed_by (token n) at row) rows)

  abbrev pub claims_of : (ℕ → String) → ℕ → ℕ → List (OutboxRecord D) → List (OutboxRecord D)
  claims_of token n at [] = []
  claims_of token n at (row ∷ more) = claimed_by (token n) at row ∷ claims_of token (suc n) at more

  -- The message is being published under the token.
  abbrev pub holds : String → OutboxRecord D → Bool
  holds token row = is_publishing row.status && has_token token row.claim_token

  abbrev pub published_row : ℕ → OutboxRecord D → OutboxRecord D
  published_row at row = record row {
    status = published;
    claim_token = none;
    claimed_at = none;
    published_at = some at;
  }

  abbrev pub failed_row : ℕ → ℕ → String → Bool → OutboxRecord D → OutboxRecord D
  failed_row at available_at error_code isolate row = record row {
    status = if isolate then OutboxStatus.isolated else pending;
    claim_token = none;
    claimed_at = none;
    available_at = available_at;
    last_error_code = some error_code;
    isolated_at = if isolate then some at else none;
  }

  abbrev pub replayed_row : ℕ → OutboxRecord D → OutboxRecord D
  replayed_row at row = record row {
    status = pending;
    attempt_count = 0;
    available_at = at;
    isolated_at = none;
    last_error_code = none;
  }

  -- A change of the message under an identifier, when it passes the test.
  abbrev pub change_row :
      (OutboxRecord D → Bool)
      → (OutboxRecord D → OutboxRecord D)
      → String
      → Dict (OutboxRecord D)
      → Option (OutboxRecord D)
      → Dict (OutboxRecord D) × Bool
  change_row test f id rows none = (rows, false)
  change_row test f id rows (some row) =
      if test row then (insert id (f row) rows, true) else (rows, false)

module _ {E : Type 0} where
  -- `findJobByIdempotencyKey`
  abbrev pub find_job_by_idempotency_key : String → Dict (JobRecord E) → Option (JobRecord E)
  find_job_by_idempotency_key key jobs =
      find (λ (row : JobRecord E). str_eq row.idempotency_key key) (values jobs)

  abbrev pub change_job :
      (JobStatus → Bool)
      → (JobRecord E → JobRecord E)
      → String
      → Dict (JobRecord E)
      → Option (JobRecord E)
      → Dict (JobRecord E) × Option (JobRecord E)
  change_job test f id jobs none = (jobs, none)
  change_job test f id jobs (some row) =
      if test row.status then (insert id (f row) jobs, some (f row)) else (jobs, none)

module _ {D E : Type 0} where
  abbrev pub with_outbox : Store D E → Dict (OutboxRecord D) × Bool → Result (Store D E × Reply D E)
  with_outbox s (rows, is_changed) = ok (record s { outbox = rows }, changed is_changed)

  unfoldable pub call : Call D E → Store D E → Result (Store D E × Reply D E)
  call (append_outbox row) s =
      if has row.message_id s.outbox
      then fails conflict
      else ok (record s { outbox = insert row.message_id row s.outbox }, done)
  call (claim_outbox at stale_before limit token) s =
      let rows = chosen at stale_before limit s.outbox in
      ok (
        record s { outbox = claim_each token 0 at rows s.outbox },
        claimed (claims_of token 0 at rows),
      )
  call (mark_outbox_published id token at) s =
      if s.fail_published_update
      then fails storage_unavailable
      else with_outbox s
          (change_row (holds token) (published_row at) id s.outbox (lookup id s.outbox))
  call (mark_outbox_failure id token at available_at error_code isolate) s = with_outbox s (
      change_row (holds token) (failed_row at available_at error_code isolate) id s.outbox
        (lookup id s.outbox))
  call (replay_outbox id at) s = with_outbox s (
      change_row (λ (row : OutboxRecord D). is_isolated row.status) (replayed_row at) id s.outbox
        (lookup id s.outbox))
  call (create_inbox_receipt row) s =
      if is_some (find_inbox_receipt row.message_id row.consumer s.inbox)
      then fails conflict
      else ok (record s { inbox = s.inbox ++ row ∷ [] }, done)
  call (create_isolation row) s = ok (
    if any (same_isolation row) (values s.isolations)
        then s
        else record s { isolations = insert row.isolation_id row s.isolations },
    done,
  )
  call (create_job row) s =
      if has row.job_id s.jobs || is_some (find_job_by_idempotency_key row.idempotency_key s.jobs)
      then fails conflict
      else ok (record s { jobs = insert row.job_id row s.jobs }, done)
  call (claim_job id) s =
      let (jobs, row) =
        change_job is_queued (λ (row : JobRecord E). record row { status = processing }) id s.jobs
          (lookup id s.jobs) in
      ok (record s { jobs = jobs }, job row)
  call (cancel_job id reason) s =
      let (jobs, row) =
        change_job is_queued
          (λ (row : JobRecord E). record row { status = cancelled; cancel_reason = some reason }) id
          s.jobs (lookup id s.jobs) in
      ok (record s { jobs = jobs }, job (lookup id jobs))
  call (complete_job id) s =
      let (jobs, row) =
        change_job is_processing (λ (row : JobRecord E). record row { status = completed }) id
          s.jobs (lookup id s.jobs) in
      ok (record s { jobs = jobs }, changed (is_some row))
  call (isolate_job id) s =
      let (jobs, row) =
        change_job (λ status. is_processing status || is_queued status)
          (λ (row : JobRecord E). record row { status = JobStatus.isolated }) id s.jobs
          (lookup id s.jobs) in
      ok (record s { jobs = jobs }, changed (is_some row))

  -- A call, as a client sees it: one that is refused leaves the store as it was.
  abbrev pub attempt : Call D E → Store D E → Store D E
  attempt c s = elim (call c s) [ fails e ↦ s | ok (t, reply) ↦ t ]

  abbrev pub run : List (Call D E) → Store D E → Store D E
  run [] s = s
  run (c ∷ cs) s = run cs (attempt c s)

  -- What `transaction` does when its work fails: the four tables are set back.
  abbrev pub restored : Store D E → Store D E → Store D E
  restored s t = record s { fail_published_update = t.fail_published_update }
