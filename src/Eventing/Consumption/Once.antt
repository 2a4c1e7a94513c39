-- ===== src/Eventing/Consumption/Once.antt =====
-- A message that was consumed is not given to a handler again.
use zsj_crm.Prelude.{
  ◌≡◌, refl, sym, ◌∙◌, Bool, true, false, Option, none, some, List, [], ◌∷◌, ◌++◌, String, str_eq,
  str_eq_self, eq_iff, lookup, is_some, find_still, find_added, if◌then◌else◌, arith, Option-cases,
  Bool-cases, inl, inr, ◌⊎◌,
}
use zsj_crm.Prelude.Growth.{Extends, Extends-refl, Extends-trans}
use zsj_crm.Eventing.Facts.{
  conflict, JobStatus, queued, processing, cancelled, completed, InboxReceipt, JobRecord,
  IsolationReason, payload_conflict, unsupported_message, authoritative_state_rejected, Store, Call,
  Reply, append_outbox, claim_outbox, mark_outbox_published, mark_outbox_failure, replay_outbox,
  create_inbox_receipt, create_isolation, create_job, claim_job, cancel_job, complete_job,
  isolate_job, find_inbox_receipt,
}
use zsj_crm.Eventing.Store.{call, attempt, run}
use zsj_crm.Eventing.Consumption.{
  Kind, event, job_kind, Message, Answer, threw, gave, Handler, Consumption, completed_message,
  duplicate, State, Request, matches, receipt_of, isolation_answer, Run, go_on, ◌>>=◌, ◌>>◌, give,
  throw, invoke, settled, transaction, isolate, finish, recheck_message, handle_message, handle_if,
  is_true, job_of, answer_status, not_queued, conclude, fits_job, work_on, work, unless_received,
  received, others, consume,
}

module _ {D E : Type 0} where
  -- The receipts only grow.
  call-Extends : (c : Call D E) (s : Store D E) → Extends s.inbox (attempt c s).inbox
  unfolding call
  call-Extends (append_outbox row) s = Extends-refl s.inbox _ (ground arith)
  call-Extends (claim_outbox at stale limit token) s = Extends-refl s.inbox _ refl
  call-Extends (mark_outbox_published id token at) s = Extends-refl s.inbox _ (ground arith)
  call-Extends (mark_outbox_failure id token at available code isolate) s =
      Extends-refl s.inbox _ refl
  call-Extends (replay_outbox id at) s = Extends-refl s.inbox _ refl
  call-Extends (create_inbox_receipt row) s =
      elim (Bool-cases (is_some (find_inbox_receipt row.message_id row.consumer s.inbox))) [
        | inl e ↦ Extends-refl s.inbox _ (ground arith)
        | inr e ↦ (row ∷ [], ground arith)
      ]
  call-Extends (create_isolation row) s = Extends-refl s.inbox _ (ground arith)
  call-Extends (create_job row) s = Extends-refl s.inbox _ (ground arith)
  call-Extends (claim_job id) s = Extends-refl s.inbox _ refl
  call-Extends (cancel_job id reason) s = Extends-refl s.inbox _ refl
  call-Extends (complete_job id) s = Extends-refl s.inbox _ refl
  call-Extends (isolate_job id) s = Extends-refl s.inbox _ refl

  run-Extends : (cs : List (Call D E)) (s : Store D E) → Extends s.inbox (run cs s).inbox
  run-Extends [] s = Extends-refl s.inbox s.inbox refl
  run-Extends (c ∷ cs) s =
      Extends-trans s.inbox (attempt c s).inbox (run cs (attempt c s)).inbox (call-Extends c s)
        (run-Extends cs (attempt c s))

  run-find_inbox_receipt :
      (cs : List (Call D E)) (s : Store D E) (id consumer : String) (x : InboxReceipt)
      → find_inbox_receipt id consumer s.inbox ≡ some x
      → find_inbox_receipt id consumer (run cs s).inbox ≡ some x
  run-find_inbox_receipt cs s id consumer x h =
      let (more, e) = run-Extends cs s in rw e (find_still _ s.inbox more x h)

  -- The store has the receipt of a message.
  abbrev pub HasReceipt : Request → Message → State D E → Type 0
  HasReceipt r m t =
      (x : InboxReceipt) × (find_inbox_receipt m.message_id r.consumer t.store.inbox ≡ some x)
      × (x.payload_sha256 ≡ m.payload_sha256)

  go_on-inv :
      {X Y : Type 0} (next : X → Run D E Y) (p : State D E × Answer X) (t : State D E) (y : Y)
      → go_on next p ≡ (t, gave y)
      → (u : State D E) × (x : X) × (p ≡ (u, gave x)) × (next x u ≡ (t, gave y))
  go_on-inv next (s, threw e) t y h = absurd (ground arith)
  go_on-inv next (s, gave x) t y h = (s, x, refl, h)

  settled-inv :
      {X : Type 0} (s : State D E) (p : State D E × Answer X) (t : State D E) (x : X)
      → settled s p ≡ (t, gave x)
      → p ≡ (t, gave x)
  settled-inv s (u, threw e) t x h = absurd (ground arith)
  settled-inv s (u, gave y) t x h = h

  isolate-answer :
      (r : Request) (m : Message) (reason : IsolationReason) (s t : State D E) (x : Consumption)
      → isolate r m reason s ≡ (t, gave x)
      → x ≡ isolation_answer reason
  unfolding call
  isolate-answer r m reason s t x h = ground arith

  isolate-incomplete :
      (r : Request) (m : Message) (reason : IsolationReason) (s t : State D E)
      → ¬ (isolate r m reason s ≡ (t, gave completed_message))
  isolate-incomplete r m payload_conflict s t h =
      let e = isolate-answer r m _ s t _ h in absurd (ground arith)
  isolate-incomplete r m unsupported_message s t h =
      let e = isolate-answer r m _ s t _ h in absurd (ground arith)
  isolate-incomplete r m authoritative_state_rejected s t h =
      let e = isolate-answer r m _ s t _ h in absurd (ground arith)

  finish-HasReceipt :
      (r : Request) (m : Message) (x y : Consumption) (s t : State D E)
      → finish r m x s ≡ (t, gave y)
      → HasReceipt r m t
  unfolding call
  finish-HasReceipt r m x y s t h =
      elim (Option-cases (find_inbox_receipt m.message_id r.consumer s.store.inbox)) [
        | inr (z, e) ↦ absurd (ground arith)
        | inl e ↦
            let p : t.store.inbox ≡ s.store.inbox ++ receipt_of r m ∷ [] = ground arith in
            let a = str_eq_self m.message_id in
            let b = str_eq_self r.consumer in
            (
              receipt_of r m,
              rw p (find_added _ s.store.inbox (receipt_of r m) (ground arith) e),
              refl,
            )
      ]

  answer_status-HasReceipt :
      (r : Request) (m : Message) (status : JobStatus) (y : Consumption) (s t : State D E)
      → answer_status r m status s ≡ (t, gave y)
      → HasReceipt r m t
  answer_status-HasReceipt r m queued y s t h = absurd (ground arith)
  answer_status-HasReceipt r m processing y s t h = absurd (ground arith)
  answer_status-HasReceipt r m cancelled y s t h = finish-HasReceipt r m _ y s t h
  answer_status-HasReceipt r m completed y s t h = finish-HasReceipt r m _ y s t h
  answer_status-HasReceipt r m JobStatus.isolated y s t h = finish-HasReceipt r m _ y s t h

  not_queued-HasReceipt :
      (r : Request) (m : Message) (j : Option (JobRecord E)) (y : Consumption) (s t : State D E)
      → not_queued r m j s ≡ (t, gave y)
      → HasReceipt r m t
  not_queued-HasReceipt r m none y s t h = absurd (ground arith)
  not_queued-HasReceipt r m (some j) y s t h = answer_status-HasReceipt r m j.status y s t h

  if-inv :
      {X : Type 0} (b : Bool) (a c : Run D E X) (s t : State D E) (y : X)
      → (if b then a else c) s ≡ (t, gave y)
      → (a s ≡ (t, gave y)) ⊎ (c s ≡ (t, gave y))
  if-inv true a c s t y h = inl h
  if-inv false a c s t y h = inr h

  conclude-HasReceipt :
      (r : Request) (m : Message) (j : JobRecord E) (b : Bool) (y : Consumption) (s t : State D E)
      → conclude r m j b s ≡ (t, gave y)
      → HasReceipt r m t
  conclude-HasReceipt r m j true y s t h =
      let (u, reply, e, k) =
        go_on-inv
          (λ (reply : Reply D E).
            if is_true reply then finish r m completed_message else throw conflict)
          (invoke (complete_job m.message_id) s) t y h in
      elim (if-inv (is_true reply) (finish r m completed_message) (throw conflict) u t y k) [
        | inl a ↦ finish-HasReceipt r m _ y u t a
        | inr a ↦ absurd (ground arith)
      ]
  conclude-HasReceipt r m j false y s t h =
      let rest : Run D E Consumption =
        isolate r m authoritative_state_rejected >>= λ answer. finish r m answer in
      let (u, reply, e, k) =
        go_on-inv (λ (reply : Reply D E). if is_true reply then rest else throw conflict)
          (invoke (isolate_job j.job_id) s) t y h in
      elim (if-inv (is_true reply) rest (throw conflict) u t y k) [
        | inl a ↦
            let (v, answer, f, l) =
              go_on-inv (λ (answer : Consumption). finish r m answer)
                (isolate r m authoritative_state_rejected u) t y a in
            finish-HasReceipt r m answer y v t l
        | inr a ↦ absurd (ground arith)
      ]

  work_on-HasReceipt :
      (r : Request) (h : Handler D E) (m : Message) (j : Option (JobRecord E)) (y : Consumption)
      (s t : State D E)
      → work_on r h m j s ≡ (t, gave y)
      → HasReceipt r m t
  work_on-HasReceipt r h m none y s t e =
      not_queued-HasReceipt r m (lookup m.message_id s.store.jobs) y s t e
  work_on-HasReceipt r h m (some j) y s t e =
      let (u, allowed, f, k) =
        go_on-inv (λ (allowed : Bool). handle_if h m allowed >>= λ (b : Bool). conclude r m j b)
          (recheck_message h m s) t y e in
      let (v, authoritative, g, l) =
        go_on-inv (λ (b : Bool). conclude r m j b) (handle_if h m allowed u) t y k in
      conclude-HasReceipt r m j authoritative y v t l

  work-HasReceipt :
      (r : Request) (h : Handler D E) (m : Message) (k : Kind) (s t : State D E)
      → work r h m k s ≡ (t, gave completed_message)
      → HasReceipt r m t
  work-HasReceipt r h m event s t e =
      let (u, x, f, k) =
        go_on-inv (λ (_ : Unit). finish r m completed_message) (handle_message h m s) t
          completed_message e in
      finish-HasReceipt r m completed_message completed_message u t k
  work-HasReceipt r h m job_kind s t e =
      elim (if-inv (fits_job m (lookup m.message_id s.store.jobs))
        (invoke (claim_job m.message_id) >>= λ (reply : Reply D E). work_on r h m (job_of reply))
        (isolate r m payload_conflict) s t completed_message e) [
          | inr a ↦ absurd (isolate-incomplete r m payload_conflict s t a)
          | inl a ↦
              let (u, reply, f, k) =
                go_on-inv (λ (reply : Reply D E). work_on r h m (job_of reply))
                  (invoke (claim_job m.message_id) s) t completed_message a in
              work_on-HasReceipt r h m (job_of reply) completed_message u t k
        ]

  unless_received-inv :
      (r : Request) (m : Message) (next : Run D E Consumption) (o : Option InboxReceipt)
      (s t : State D E)
      → unless_received r m next o s ≡ (t, gave completed_message)
      → next s ≡ (t, gave completed_message)
  unless_received-inv r m next none s t h = h
  unless_received-inv r m next (some x) s t h =
      elim (if-inv (str_eq x.payload_sha256 m.payload_sha256) (give duplicate)
        (isolate r m payload_conflict) s t completed_message h) [
          | inl a ↦ absurd (ground arith)
          | inr a ↦ absurd (isolate-incomplete r m payload_conflict s t a)
        ]

  consume-HasReceipt :
      (r : Request) (h : Handler D E) (meanwhile : List (Call D E)) (m : Message) (s t : State D E)
      → consume r h meanwhile m s ≡ (t, gave completed_message)
      → HasReceipt r m t
  unfolding consume
  consume-HasReceipt r h meanwhile m s t e =
      let locked : Run D E Consumption =
        received r m >>= λ o. unless_received r m (work r h m h.kind) o in
      let entered : Run D E Consumption = others meanwhile >> transaction locked in
      let whole : Run D E Consumption = received r m >>= λ o. unless_received r m entered o in
      elim (if-inv (matches h m) whole (isolate r m unsupported_message) s t completed_message e) [
        | inr a ↦ absurd (isolate-incomplete r m unsupported_message s t a)
        | inl a ↦
            let b =
              unless_received-inv r m entered
                (find_inbox_receipt m.message_id r.consumer s.store.inbox) s t a in
            let u : State D E = record s { store = run meanwhile s.store } in
            let c = settled-inv u (locked u) t completed_message b in
            let d =
              unless_received-inv r m (work r h m h.kind)
                (find_inbox_receipt m.message_id r.consumer u.store.inbox) u t c in
            work-HasReceipt r h m h.kind u t d
      ]

  -- A consumer works on a message once: after `consume` has answered that the message is completed, and
  -- after any calls of the store of which none is set back by a transaction, a message with the same
  -- identifier and payload that comes to the same consumer again, for any handler of its type, is a
  -- duplicate: no handler is called, and the store stays as it is.
  pub consume-again :
      (r r' : Request) (h h' : Handler D E) (before later cs : List (Call D E)) (m m' : Message)
      (s t : State D E)
      → consume r h before m s ≡ (t, gave completed_message)
      → r'.consumer ≡ r.consumer
      → m'.message_id ≡ m.message_id
      → m'.payload_sha256 ≡ m.payload_sha256
      → matches h' m' ≡ true
      → consume r' h' later m' (record t { store = run cs t.store })
        ≡ (record t { store = run cs t.store }, gave duplicate)
  unfolding consume
  consume-again r r' h h' before later cs m m' s t e a b c d =
      let (x, f, g) = consume-HasReceipt r h before m s t e in
      let k = run-find_inbox_receipt cs t.store m.message_id r.consumer x f in
      let k' : find_inbox_receipt m'.message_id r'.consumer (run cs t.store).inbox ≡ some x =
        rw (a, b) k in
      let l : str_eq x.payload_sha256 m'.payload_sha256 ≡ true =
        (eq_iff x.payload_sha256 m'.payload_sha256).1 (g ∙ sym c) in
      rw (d, k', l) refl
