-- ===== src/Eventing/Store/Leases.antt =====
-- Who changes a message of the outbox: the holder of its token, and a claim that is due.
use zsj_crm.Prelude.{
  ℕ, ltb, ◌≡◌, refl, subst, Bool, true, false, not, ◌&&◌, some, List, [], ◌∷◌, String, str_eq,
  eq_iff, lookup, insert, lookup-insert, has, all, arith, Bool-cases, inl, inr,
}
use zsj_crm.Eventing.Facts.{
  publishing, published, OutboxRecord, Store, Call, append_outbox, claim_outbox,
  mark_outbox_published, mark_outbox_failure, replay_outbox, create_inbox_receipt, create_isolation,
  create_job, claim_job, cancel_job, complete_job, isolate_job, is_isolated,
}
use zsj_crm.Eventing.Store.{
  empty, is_due, chosen, holds, published_row, failed_row, replayed_row, call, attempt, run,
}
use zsj_crm.Eventing.Store.Outbox.{
  is_distinct, is_distinct-insert, claim_each-is_distinct, claim-others, change_row-is_distinct,
  change_row-others,
}

module _ {D E : Type 0} where
  call-is_distinct :
      (c : Call D E) (s : Store D E)
      → is_distinct s.outbox ≡ true
      → is_distinct (attempt c s).outbox ≡ true
  unfolding call
  call-is_distinct (append_outbox row) s h = elim (Bool-cases (has row.message_id s.outbox)) [
    | inl e ↦
        let q : s.outbox ≡ (attempt (append_outbox row) s).outbox = ground arith in
        subst (λ d. is_distinct d ≡ true) q h
    | inr e ↦
        let q : insert row.message_id row s.outbox ≡ (attempt (append_outbox row) s).outbox =
          ground arith in
        subst (λ d. is_distinct d ≡ true) q (is_distinct-insert row s.outbox h)
  ]
  call-is_distinct (claim_outbox at stale limit token) s h =
      claim_each-is_distinct token 0 at (chosen at stale limit s.outbox) s.outbox h
  call-is_distinct (mark_outbox_published id token at) s h =
      elim (Bool-cases s.fail_published_update) [
        | inl e ↦ rw e h
        | inr e ↦
            rw e (change_row-is_distinct (holds token) (published_row at) id s.outbox (λ x. refl) h)
      ]
  call-is_distinct (mark_outbox_failure id token at available code isolate) s h =
      change_row-is_distinct (holds token) (failed_row at available code isolate) id s.outbox
        (λ x. refl) h
  call-is_distinct (replay_outbox id at) s h =
      change_row-is_distinct (λ (row : OutboxRecord D). is_isolated row.status) (replayed_row at) id
        s.outbox (λ x. refl) h
  call-is_distinct (create_inbox_receipt row) s h = ground arith
  call-is_distinct (create_isolation row) s h = ground arith
  call-is_distinct (create_job row) s h = ground arith
  call-is_distinct (claim_job id) s h = h
  call-is_distinct (cancel_job id reason) s h = h
  call-is_distinct (complete_job id) s h = h
  call-is_distinct (isolate_job id) s h = h

  run-is_distinct :
      (cs : List (Call D E)) (s : Store D E)
      → is_distinct s.outbox ≡ true
      → is_distinct (run cs s).outbox ≡ true
  run-is_distinct [] s h = h
  run-is_distinct (c ∷ cs) s h = run-is_distinct cs (attempt c s) (call-is_distinct c s h)

  -- The calls that leave a message as it is.
  abbrev pub leaves : String → OutboxRecord D → Call D E → Bool
  leaves id row (append_outbox x) = true
  leaves id row (claim_outbox at stale limit token) = not (is_due at stale row)
  leaves id row (mark_outbox_published i token at) = not (str_eq i id && holds token row)
  leaves id row (mark_outbox_failure i token at available code isolate) =
      not (str_eq i id && holds token row)
  leaves id row (replay_outbox i at) = not (str_eq i id && is_isolated row.status)
  leaves id row (create_inbox_receipt x) = true
  leaves id row (create_isolation x) = true
  leaves id row (create_job x) = true
  leaves id row (claim_job i) = true
  leaves id row (cancel_job i reason) = true
  leaves id row (complete_job i) = true
  leaves id row (isolate_job i) = true

  call-leaves :
      (c : Call D E) (s : Store D E) (id : String) (row : OutboxRecord D)
      → is_distinct s.outbox ≡ true
      → lookup id s.outbox ≡ some row
      → leaves id row c ≡ true
      → lookup id (attempt c s).outbox ≡ some row
  unfolding call
  call-leaves (append_outbox x) s id row w h l = elim (Bool-cases (has x.message_id s.outbox)) [
    | inl e ↦ ground arith
    | inr e ↦
        let m = lookup-insert x.message_id id x s.outbox in
        elim (Bool-cases (str_eq x.message_id id)) [
          | inr d ↦ ground arith
          | inl d ↦
              let p : x.message_id ≡ id = (eq_iff x.message_id id).0 d in
              let q : has id s.outbox ≡ false = rw (← p) e in absurd (ground arith)
        ]
  ]
  call-leaves (claim_outbox at stale limit token) s id row w h l =
      claim-others at stale limit token s.outbox id row w h (ground arith)
  call-leaves (mark_outbox_published i token at) s id row w h l =
      elim (Bool-cases s.fail_published_update) [
        | inl e ↦ rw e h
        | inr e ↦
            rw e (
              change_row-others (holds token) (published_row at) i id s.outbox row h (ground arith))
      ]
  call-leaves (mark_outbox_failure i token at available code isolate) s id row w h l =
      change_row-others (holds token) (failed_row at available code isolate) i id s.outbox row h
        (ground arith)
  call-leaves (replay_outbox i at) s id row w h l =
      change_row-others (λ (x : OutboxRecord D). is_isolated x.status) (replayed_row at) i id
        s.outbox row h (ground arith)
  call-leaves (create_inbox_receipt x) s id row w h l = ground arith
  call-leaves (create_isolation x) s id row w h l = ground arith
  call-leaves (create_job x) s id row w h l = ground arith
  call-leaves (claim_job i) s id row w h l = h
  call-leaves (cancel_job i reason) s id row w h l = h
  call-leaves (complete_job i) s id row w h l = h
  call-leaves (isolate_job i) s id row w h l = h

  run-leaves :
      (cs : List (Call D E)) (s : Store D E) (id : String) (row : OutboxRecord D)
      → is_distinct s.outbox ≡ true
      → lookup id s.outbox ≡ some row
      → all (leaves id row) cs ≡ true
      → lookup id (run cs s).outbox ≡ some row
  run-leaves [] s id row w h l = h
  run-leaves (c ∷ cs) s id row w h l =
      run-leaves cs (attempt c s) id row (call-is_distinct c s w)
        (call-leaves c s id row w h (ground arith)) (ground arith)

  published-leaves :
      (id : String) (row : OutboxRecord D) (c : Call D E)
      → row.status ≡ published
      → leaves id row c ≡ true
  published-leaves id row (append_outbox x) h = refl
  published-leaves id row (claim_outbox at stale limit token) h = rw h refl
  published-leaves id row (mark_outbox_published i token at) h = ground arith
  published-leaves id row (mark_outbox_failure i token at available code isolate) h = ground arith
  published-leaves id row (replay_outbox i at) h = ground arith
  published-leaves id row (create_inbox_receipt x) h = refl
  published-leaves id row (create_isolation x) h = refl
  published-leaves id row (create_job x) h = refl
  published-leaves id row (claim_job i) h = refl
  published-leaves id row (cancel_job i reason) h = refl
  published-leaves id row (complete_job i) h = refl
  published-leaves id row (isolate_job i) h = refl

  all-leaves :
      (id : String) (row : OutboxRecord D) (cs : List (Call D E))
      → row.status ≡ published
      → all (leaves id row) cs ≡ true
  all-leaves id row [] h = refl
  all-leaves id row (c ∷ cs) h = ground (arith, published-leaves id row c h, all-leaves id row cs h)

  -- A message that was published is published for good: after any calls on a new store, a message whose
  -- status is `published` is left as it is by whatever is called next, where no transaction is set
  -- back: it is never claimed again.
  pub run-published :
      (cs ds : List (Call D E)) (id : String) (row : OutboxRecord D)
      → lookup id (run cs empty).outbox ≡ some row
      → row.status ≡ published
      → lookup id (run ds (run cs empty)).outbox ≡ some row
  run-published cs ds id row h p =
      run-leaves ds (run cs empty) id row (run-is_distinct cs empty refl) h (all-leaves id row ds p)

  -- The calls that respect a claim of a message with a token at an instant: a claim that calls only
  -- older claims stale, and the outcomes of other messages or with other tokens.
  abbrev pub respects : String → String → ℕ → Call D E → Bool
  respects id token since (append_outbox x) = true
  respects id token since (claim_outbox at stale limit tokens) = ltb stale since
  respects id token since (mark_outbox_published i t at) = not (str_eq i id && str_eq token t)
  respects id token since (mark_outbox_failure i t at available code isolate) =
      not (str_eq i id && str_eq token t)
  respects id token since (replay_outbox i at) = true
  respects id token since (create_inbox_receipt x) = true
  respects id token since (create_isolation x) = true
  respects id token since (create_job x) = true
  respects id token since (claim_job i) = true
  respects id token since (cancel_job i reason) = true
  respects id token since (complete_job i) = true
  respects id token since (isolate_job i) = true

  respects-leaves :
      (id token : String) (since : ℕ) (row : OutboxRecord D) (c : Call D E)
      → row.status ≡ publishing
      → row.claim_token ≡ some token
      → row.claimed_at ≡ some since
      → respects id token since c ≡ true
      → leaves id row c ≡ true
  respects-leaves id token since row (append_outbox x) p q r h = refl
  respects-leaves id token since row (claim_outbox at stale limit tokens) p q r h =
      rw (p, r) (ground arith)
  respects-leaves id token since row (mark_outbox_published i t at) p q r h = rw (p, q) h
  respects-leaves id token since row (mark_outbox_failure i t at available code isolate) p q r h =
      rw (p, q) h
  respects-leaves id token since row (replay_outbox i at) p q r h = rw p (ground arith)
  respects-leaves id token since row (create_inbox_receipt x) p q r h = refl
  respects-leaves id token since row (create_isolation x) p q r h = refl
  respects-leaves id token since row (create_job x) p q r h = refl
  respects-leaves id token since row (claim_job i) p q r h = refl
  respects-leaves id token since row (cancel_job i reason) p q r h = refl
  respects-leaves id token since row (complete_job i) p q r h = refl
  respects-leaves id token since row (isolate_job i) p q r h = refl

  all-respects :
      (id token : String) (since : ℕ) (row : OutboxRecord D) (cs : List (Call D E))
      → row.status ≡ publishing
      → row.claim_token ≡ some token
      → row.claimed_at ≡ some since
      → all (respects id token since) cs ≡ true
      → all (leaves id row) cs ≡ true
  all-respects id token since row [] p q r h = refl
  all-respects id token since row (c ∷ cs) p q r h =
      let a = respects-leaves id token since row c p q r (ground arith) in
      let b = all-respects id token since row cs p q r (ground arith) in rw (a, b) refl

  -- A claim holds until it is stale: after any calls on a new store, a message that is being published
  -- under a token is left as it is by all further calls, where no transaction is set back, except an
  -- outcome of that message with that token, and a claim for which the instant of this one is not after
  -- the instant up to which claims are stale.
  pub run-claimed :
      (cs ds : List (Call D E)) (id token : String) (since : ℕ) (row : OutboxRecord D)
      → lookup id (run cs empty).outbox ≡ some row
      → row.status ≡ publishing
      → row.claim_token ≡ some token
      → row.claimed_at ≡ some since
      → all (respects id token since) ds ≡ true
      → lookup id (run ds (run cs empty)).outbox ≡ some row
  run-claimed cs ds id token since row h p q r a =
      run-leaves ds (run cs empty) id row (run-is_distinct cs empty refl) h
        (all-respects id token since row ds p q r a)
