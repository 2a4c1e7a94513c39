-- ===== src/Eventing/Store/Jobs.antt =====
-- The jobs: one that has ended stays as it is.
use zsj_crm.Prelude.{
  ◌≡◌, subst, ◌∙◌, Bool, true, false, not, ◌&&◌, some, List, [], ◌∷◌, String, str_eq, eq_iff, Dict,
  lookup, lookup-insert, has, arith, Option-cases, Bool-cases, inl, inr,
}
use zsj_crm.Eventing.Facts.{
  JobStatus, JobRecord, Store, Call, append_outbox, claim_outbox, mark_outbox_published,
  mark_outbox_failure, replay_outbox, create_inbox_receipt, create_isolation, create_job, claim_job,
  cancel_job, complete_job, isolate_job, is_queued, is_processing,
}
use zsj_crm.Eventing.Store.{change_job, call, attempt, run}

abbrev pub has_ended : JobStatus → Bool
has_ended status = not (is_queued status) && not (is_processing status)

module _ {E : Type 0} where
  change_job-others :
      (test : JobStatus → Bool) (f : JobRecord E → JobRecord E) (at id : String)
      (jobs : Dict (JobRecord E)) (row : JobRecord E)
      → lookup id jobs ≡ some row
      → test row.status ≡ false
      → lookup id (change_job test f at jobs (lookup at jobs)).0 ≡ some row
  change_job-others test f at id jobs row e n = elim (Option-cases (lookup at jobs)) [
    | inl g ↦ rw g e
    | inr (x, g) ↦ elim (Bool-cases (test x.status)) [
      | inr t ↦ rw (g, t) e
      | inl t ↦
          let l = lookup-insert at id (f x) jobs in
          elim (Bool-cases (str_eq at id)) [
            | inr d ↦ rw (g, t) (l ∙ rw d e)
            | inl d ↦
                let p : at ≡ id = (eq_iff at id).0 d in
                let q : lookup id jobs ≡ some x = rw (← p) g in
                let r : x ≡ row = ground arith in
                let s : test row.status ≡ true =
                  subst (λ (z : JobRecord E). test z.status ≡ true) r t in
                absurd (ground arith)
          ]
    ]
  ]

module _ {D E : Type 0} where
  call-ended :
      (c : Call D E) (s : Store D E) (id : String) (row : JobRecord E)
      → lookup id s.jobs ≡ some row
      → has_ended row.status ≡ true
      → lookup id (attempt c s).jobs ≡ some row
  unfolding call
  call-ended (append_outbox x) s id row h e = ground arith
  call-ended (claim_outbox at stale limit token) s id row h e = h
  call-ended (mark_outbox_published i token at) s id row h e = ground arith
  call-ended (mark_outbox_failure i token at available code isolate) s id row h e = h
  call-ended (replay_outbox i at) s id row h e = h
  call-ended (create_inbox_receipt x) s id row h e = ground arith
  call-ended (create_isolation x) s id row h e = ground arith
  call-ended (create_job x) s id row h e = elim (Bool-cases (has x.job_id s.jobs)) [
    | inl d ↦ ground arith
    | inr d ↦
        let m = lookup-insert x.job_id id x s.jobs in
        elim (Bool-cases (str_eq x.job_id id)) [
          | inr g ↦ ground arith
          | inl g ↦
              let p : x.job_id ≡ id = (eq_iff x.job_id id).0 g in
              let q : has id s.jobs ≡ false = rw (← p) d in absurd (ground arith)
        ]
  ]
  call-ended (claim_job i) s id row h e =
      change_job-others is_queued _ i id s.jobs row h (ground arith)
  call-ended (cancel_job i reason) s id row h e =
      change_job-others is_queued _ i id s.jobs row h (ground arith)
  call-ended (complete_job i) s id row h e =
      change_job-others is_processing _ i id s.jobs row h (ground arith)
  call-ended (isolate_job i) s id row h e = change_job-others _ _ i id s.jobs row h (ground arith)

  -- A job that has been completed, cancelled or isolated stays as it is, whatever is called, where no
  -- transaction is set back: it is not started again, and its reason for cancellation stands.
  pub run-ended :
      (cs : List (Call D E)) (s : Store D E) (id : String) (row : JobRecord E)
      → lookup id s.jobs ≡ some row
      → has_ended row.status ≡ true
      → lookup id (run cs s).jobs ≡ some row
  run-ended [] s id row h e = h
  run-ended (c ∷ cs) s id row h e = run-ended cs (attempt c s) id row (call-ended c s id row h e) e
