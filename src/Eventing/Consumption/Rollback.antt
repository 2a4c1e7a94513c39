-- ===== src/Eventing/Consumption/Rollback.antt =====
-- A consumption that throws leaves the store as it found it.
use zsj_crm.Prelude.{
  ◌≡◌, refl, ap, sym, ◌∙◌, Bool, true, false, Option, none, some, List, [], ◌∷◌, str_eq, lookup,
  if◌then◌else◌, arith, inl, inr, ◌⊎◌, subst,
}
use zsj_crm.Eventing.Facts.{
  conflict, JobStatus, queued, processing, cancelled, completed, InboxReceipt, JobRecord,
  IsolationReason, payload_conflict, unsupported_message, authoritative_state_rejected, Store, Call,
  Reply, append_outbox, claim_outbox, mark_outbox_published, mark_outbox_failure, replay_outbox,
  create_inbox_receipt, create_isolation, create_job, claim_job, cancel_job, complete_job,
  isolate_job, find_inbox_receipt,
}
use zsj_crm.Eventing.Store.{call, attempt, run}
use zsj_crm.Eventing.Consumption.{
  Kind, event, job_kind, Message, Answer, Thrown, threw, gave, Handler, Consumption,
  completed_message, duplicate, skipped, job_cancelled, authoritative_state, State, Request,
  matches, receipt_of, Run, go_on, ◌>>=◌, ◌>>◌, give, throw, invoke, settled, transaction, isolate,
  finish, recheck_message, handle_message, handle_if, is_true, job_of, answer_status, not_queued,
  conclude, fits_job, work_on, work, unless_received, received, others, consume,
}

module _ {D E : Type 0} where
  isolate-gives :
      (r : Request) (m : Message) (reason : IsolationReason) (s t : State D E) (e : Thrown)
      → ¬ (isolate r m reason s ≡ (t, threw e))
  unfolding call
  isolate-gives r m reason s t e h = absurd (ground arith)

  if-threw :
      {X : Type 0} (b : Bool) (a c : Run D E X) (s t : State D E) (e : Thrown)
      → (if b then a else c) s ≡ (t, threw e)
      → (a s ≡ (t, threw e)) ⊎ (c s ≡ (t, threw e))
  if-threw true a c s t e h = inl h
  if-threw false a c s t e h = inr h

  unless_received-threw :
      (r : Request) (m : Message) (next : Run D E Consumption) (o : Option InboxReceipt)
      (s t : State D E) (e : Thrown)
      → unless_received r m next o s ≡ (t, threw e)
      → next s ≡ (t, threw e)
  unless_received-threw r m next none s t e h = h
  unless_received-threw r m next (some x) s t e h =
      elim (if-threw (str_eq x.payload_sha256 m.payload_sha256) (give duplicate)
        (isolate r m payload_conflict) s t e h) [
          | inl a ↦ absurd (ground arith)
          | inr a ↦ absurd (isolate-gives r m payload_conflict s t e a)
        ]

  -- A step that leaves the switch of the store as it is, which is no table.
  abbrev SameFlag : {X : Type 0} → Run D E X → Type 0
  SameFlag m = (s : State D E) → (m s).0.store.fail_published_update ≡ s.store.fail_published_update

  attempt-flag :
      (c : Call D E) (s : Store D E) → (attempt c s).fail_published_update ≡ s.fail_published_update
  unfolding call
  attempt-flag (append_outbox row) s = ground arith
  attempt-flag (claim_outbox at stale limit token) s = refl
  attempt-flag (mark_outbox_published id token at) s = ground arith
  attempt-flag (mark_outbox_failure id token at available code isolate) s = refl
  attempt-flag (replay_outbox id at) s = refl
  attempt-flag (create_inbox_receipt row) s = ground arith
  attempt-flag (create_isolation row) s = ground arith
  attempt-flag (create_job row) s = ground arith
  attempt-flag (claim_job id) s = refl
  attempt-flag (cancel_job id reason) s = refl
  attempt-flag (complete_job id) s = refl
  attempt-flag (isolate_job id) s = refl

  run-flag :
      (cs : List (Call D E)) (s : Store D E)
      → (run cs s).fail_published_update ≡ s.fail_published_update
  run-flag [] s = refl
  run-flag (c ∷ cs) s = run-flag cs (attempt c s) ∙ attempt-flag c s

  invoke-store : (c : Call D E) (s : State D E) → (invoke c s).0.store ≡ attempt c s.store
  invoke-store c s = ground arith

  invoke-SameFlag : (c : Call D E) → SameFlag (invoke c)
  invoke-SameFlag c s =
      ap (λ (x : Store D E). x.fail_published_update) (invoke-store c s) ∙ attempt-flag c s.store

  go_on-flag :
      {X Y : Type 0} (next : X → Run D E Y) (p : State D E × Answer X)
      → ((x : X) → SameFlag (next x))
      → (go_on next p).0.store.fail_published_update ≡ p.0.store.fail_published_update
  go_on-flag next (s, threw e) h = refl
  go_on-flag next (s, gave x) h = h x s

  >>=-SameFlag :
      {X Y : Type 0} (m : Run D E X) (next : X → Run D E Y)
      → SameFlag m
      → ((x : X) → SameFlag (next x))
      → SameFlag (m >>= next)
  >>=-SameFlag m next h k s = go_on-flag next (m s) k ∙ h s

  finish-SameFlag : (r : Request) (m : Message) (x : Consumption) → SameFlag (finish r m x)
  finish-SameFlag r m x =
      >>=-SameFlag (invoke (create_inbox_receipt (receipt_of r m))) (λ _. give x)
        (invoke-SameFlag (create_inbox_receipt (receipt_of r m))) (λ y s. refl)

  isolate-SameFlag :
      (r : Request) (m : Message) (reason : IsolationReason) → SameFlag (isolate r m reason)
  unfolding call
  isolate-SameFlag r m reason s = ground arith

  if-SameFlag :
      {X : Type 0} (b : Bool) (a c : Run D E X)
      → SameFlag a
      → SameFlag c
      → SameFlag (if b then a else c)
  if-SameFlag true a c h k = h
  if-SameFlag false a c h k = k

  conclude-SameFlag :
      (r : Request) (m : Message) (j : JobRecord E) (b : Bool) → SameFlag (conclude r m j b)
  conclude-SameFlag r m j true =
      >>=-SameFlag (invoke (complete_job m.message_id))
        (λ (reply : Reply D E).
          if is_true reply then finish r m completed_message else throw conflict)
        (invoke-SameFlag (complete_job m.message_id))
        (λ reply.
          if-SameFlag (is_true reply) (finish r m completed_message) (throw conflict)
            (finish-SameFlag r m completed_message) (λ s. refl))
  conclude-SameFlag r m j false =
      let rest : Run D E Consumption =
        isolate r m authoritative_state_rejected >>= λ answer. finish r m answer in
      >>=-SameFlag (invoke (isolate_job j.job_id))
        (λ (reply : Reply D E). if is_true reply then rest else throw conflict)
        (invoke-SameFlag (isolate_job j.job_id))
        (λ reply.
          if-SameFlag (is_true reply) rest (throw conflict)
            (>>=-SameFlag (isolate r m authoritative_state_rejected) (λ answer. finish r m answer)
              (isolate-SameFlag r m authoritative_state_rejected)
              (λ answer. finish-SameFlag r m answer))
            (λ s. refl))

  answer_status-SameFlag :
      (r : Request) (m : Message) (status : JobStatus) → SameFlag (answer_status r m status)
  answer_status-SameFlag r m queued = λ s. refl
  answer_status-SameFlag r m processing = λ s. refl
  answer_status-SameFlag r m cancelled = finish-SameFlag r m (skipped job_cancelled)
  answer_status-SameFlag r m completed = finish-SameFlag r m (skipped job_cancelled)
  answer_status-SameFlag r m JobStatus.isolated = finish-SameFlag r m (skipped authoritative_state)

  not_queued-SameFlag :
      (r : Request) (m : Message) (j : Option (JobRecord E)) → SameFlag (not_queued r m j)
  not_queued-SameFlag r m none = λ s. refl
  not_queued-SameFlag r m (some j) = answer_status-SameFlag r m j.status

  handle_if-SameFlag : (h : Handler D E) (m : Message) (b : Bool) → SameFlag (handle_if h m b)
  handle_if-SameFlag h m false = λ s. refl
  handle_if-SameFlag h m true =
      >>=-SameFlag (handle_message h m) (λ _. give true)
        (λ s. run-flag (h.handle m s.store).0 s.store) (λ x s. refl)

  work_on-SameFlag :
      (r : Request) (h : Handler D E) (m : Message) (j : Option (JobRecord E))
      → SameFlag (work_on r h m j)
  work_on-SameFlag r h m none = λ s. not_queued-SameFlag r m (lookup m.message_id s.store.jobs) s
  work_on-SameFlag r h m (some j) =
      >>=-SameFlag (recheck_message h m)
        (λ (allowed : Bool). handle_if h m allowed >>= λ (b : Bool). conclude r m j b)
        (λ s. run-flag (h.recheck m s.store).0 s.store)
        (λ allowed.
          >>=-SameFlag (handle_if h m allowed) (λ (b : Bool). conclude r m j b)
            (handle_if-SameFlag h m allowed) (λ b. conclude-SameFlag r m j b))

  work-SameFlag : (r : Request) (h : Handler D E) (m : Message) (k : Kind) → SameFlag (work r h m k)
  work-SameFlag r h m event =
      >>=-SameFlag (handle_message h m) (λ _. finish r m completed_message)
        (λ s. run-flag (h.handle m s.store).0 s.store) (λ x. finish-SameFlag r m completed_message)
  work-SameFlag r h m job_kind = λ s.
      if-SameFlag (fits_job m (lookup m.message_id s.store.jobs))
        (invoke (claim_job m.message_id) >>= λ (reply : Reply D E). work_on r h m (job_of reply))
        (isolate r m payload_conflict)
        (>>=-SameFlag (invoke (claim_job m.message_id))
          (λ (reply : Reply D E). work_on r h m (job_of reply))
          (invoke-SameFlag (claim_job m.message_id))
          (λ reply. work_on-SameFlag r h m (job_of reply)))
        (isolate-SameFlag r m payload_conflict) s

  unless_received-SameFlag :
      (r : Request) (m : Message) (next : Run D E Consumption) (o : Option InboxReceipt)
      → SameFlag next
      → SameFlag (unless_received r m next o)
  unless_received-SameFlag r m next none h = h
  unless_received-SameFlag r m next (some x) h =
      if-SameFlag (str_eq x.payload_sha256 m.payload_sha256) (give duplicate)
        (isolate r m payload_conflict) (λ s. refl) (isolate-SameFlag r m payload_conflict)

  -- The work of the transaction, after the second look for a receipt.
  abbrev locked_work : Request → Handler D E → Message → Run D E Consumption
  locked_work r h m = received r m >>= λ o. unless_received r m (work r h m h.kind) o

  locked-SameFlag : (r : Request) (h : Handler D E) (m : Message) → SameFlag (locked_work r h m)
  locked-SameFlag r h m s =
      unless_received-SameFlag r m (work r h m h.kind)
        (find_inbox_receipt m.message_id r.consumer s.store.inbox) (work-SameFlag r h m h.kind) s

  unless_received-none :
      (r : Request) (m : Message) (next : Run D E Consumption) (o : Option InboxReceipt)
      (s t : State D E) (e : Thrown)
      → unless_received r m next o s ≡ (t, threw e)
      → o ≡ none
  unless_received-none r m next none s t e h = refl
  unless_received-none r m next (some x) s t e h =
      elim (if-threw (str_eq x.payload_sha256 m.payload_sha256) (give duplicate)
        (isolate r m payload_conflict) s t e h) [
          | inl a ↦ absurd (ground arith)
          | inr a ↦ absurd (isolate-gives r m payload_conflict s t e a)
        ]

  settled-inv :
      {X : Type 0} (s : State D E) (p : State D E × Answer X) (t : State D E) (e : Thrown)
      → settled s p ≡ (t, threw e)
      → (u : State D E) × (p ≡ (u, threw e))
  settled-inv s (u, threw f) t e h = (u, ground arith)
  settled-inv s (u, gave y) t e h = absurd (ground arith)

  -- A transaction that threw had found no receipt.
  locked-none :
      (r : Request) (h : Handler D E) (m : Message) (s t : State D E) (e : Thrown)
      → settled s (locked_work r h m s) ≡ (t, threw e)
      → find_inbox_receipt m.message_id r.consumer s.store.inbox ≡ none
  locked-none r h m s t e k =
      let (u, p) = settled-inv s (locked_work r h m s) t e k in
      unless_received-none r m (work r h m h.kind)
        (find_inbox_receipt m.message_id r.consumer s.store.inbox) s u e p

  settled-threw :
      {X : Type 0} (s : State D E) (p : State D E × Answer X) (t : State D E) (e : Thrown)
      → p.0.store.fail_published_update ≡ s.store.fail_published_update
      → settled s p ≡ (t, threw e)
      → t.store ≡ s.store
  settled-threw s (u, threw f) t e k h =
      let a : t.store ≡ record s.store { fail_published_update = u.store.fail_published_update } =
        ground arith in
      a ∙ ap (λ b. record s.store { fail_published_update = b }) k
  settled-threw s (u, gave y) t e k h = absurd (ground arith)

  redelivered :
      (r : Request) (h : Handler D E) (m : Message) (t : State D E)
      → matches h m ≡ true
      → find_inbox_receipt m.message_id r.consumer t.store.inbox ≡ none
      → consume r h [] m t ≡ transaction (work r h m h.kind) t
  unfolding consume
  redelivered r h m t fits unreceived =
      let entered : Run D E Consumption = others [] >> transaction (locked_work r h m) in
      let whole : Run D E Consumption = received r m >>= λ o. unless_received r m entered o in
      ap (λ b. (if b then whole else isolate r m unsupported_message) t) fits
      ∙ ap (λ o. unless_received r m entered o t) unreceived
      ∙ ap (λ o. settled t (unless_received r m (work r h m h.kind) o t)) unreceived

  -- When `consume` throws, then whatever calls its handler made in the transaction and whichever step
  -- failed, the store is as the other clients left it when the transaction began, and the consumer has no
  -- receipt of the message there; so when the message is delivered to the consumer again, with a handler
  -- of its type, its work is done in a transaction on that store.
  pub consume-threw :
      (r r' : Request) (h h' : Handler D E) (meanwhile : List (Call D E)) (m : Message)
      (s t : State D E) (e : Thrown)
      → consume r h meanwhile m s ≡ (t, threw e)
      → r'.consumer ≡ r.consumer
      → matches h' m ≡ true
      → (t.store ≡ run meanwhile s.store)
        × (find_inbox_receipt m.message_id r.consumer t.store.inbox ≡ none)
        × (consume r' h' [] m t ≡ transaction (work r' h' m h'.kind) t)
  unfolding consume
  consume-threw r r' h h' meanwhile m s t e k same_consumer fits =
      let locked : Run D E Consumption =
        received r m >>= λ o. unless_received r m (work r h m h.kind) o in
      let entered : Run D E Consumption = others meanwhile >> transaction locked in
      let whole : Run D E Consumption = received r m >>= λ o. unless_received r m entered o in
      elim (if-threw (matches h m) whole (isolate r m unsupported_message) s t e k) [
        | inr a ↦ absurd (isolate-gives r m unsupported_message s t e a)
        | inl a ↦
            let b =
              unless_received-threw r m entered
                (find_inbox_receipt m.message_id r.consumer s.store.inbox) s t e a in
            let u : State D E = record s { store = run meanwhile s.store } in
            let same = settled-threw u (locked u) t e (locked-SameFlag r h m u) b in
            let none_before = locked-none r h m u t e b in
            let none_after : find_inbox_receipt m.message_id r.consumer t.store.inbox ≡ none =
              ap (λ (x : Store D E). find_inbox_receipt m.message_id r.consumer x.inbox) same
              ∙ none_before in
            (
              same,
              none_after,
              redelivered r' h' m t fits (
                  subst (λ c. find_inbox_receipt m.message_id c t.store.inbox ≡ none)
                    (sym same_consumer) none_after),
            )
      ]
