-- ===== src/Notifications/Store/Intents.antt =====
-- The intents to notify: each is accepted once.
use zsj_crm.Prelude.{
  ◌≡◌, refl, subst, Bool, true, false, ◌&&◌, Option, none, some, List, [], ◌∷◌, ◌++◌, String,
  str_eq, eq_iff, if◌then◌else◌, lookup, find_still, find_added, arith, Option-cases, inl, inr,
}
use zsj_crm.Notifications.Store.{
  Result-cases, IntentResult, conflict, read_now, archived_now, ok, fails, Definition, Intent,
  Notification, Store, Reply, accepted, Call, register_template_definition, save_template_draft,
  publish_template, publish_and_activate_template, activate_template, accept_intent, mark_read,
  archive, get_template, accept, add_all, find_intent, change, call, attempt, run,
}
use zsj_crm.Prelude.Growth.{Extends, Extends-refl, Extends-trans}
use zsj_crm.Notifications.Store.Templates.{
  publish-SameInbox, activate_version-SameInbox, activated_after-SameInbox,
}

find-added :
    (producer key : String) (is : List Intent) (i : Intent)
    → (str_eq i.producer producer && str_eq i.idempotency_key key) ≡ true
    → find_intent producer key is ≡ none
    → find_intent producer key (is ++ i ∷ []) ≡ some i
unfolding find_intent
find-added producer key is i e h = find_added _ is i e h

module _ {D : Type 0} where
  accept-Extends :
      (i : Intent) (ns : List (Notification D)) (s t : Store D) (o : Option Intent)
      (reply : Reply D)
      → accept i ns s o ≡ ok (t, reply)
      → Extends s.intents t.intents
  accept-Extends i ns s t none reply h = elim (Option-cases (add_all ns s.notifications)) [
    | inl e ↦ absurd (ground arith)
    | inr (d, e) ↦ (i ∷ [], ground arith)
  ]
  accept-Extends i ns s t (some x) reply h = Extends-refl s.intents t.intents (ground arith)

  change-same :
      (f : Notification D → Notification D) (principal id : String) (s : Store D)
      (o : Option (Notification D))
      → (change f principal id s o).0.intents ≡ s.intents
  change-same f principal id s none = refl
  change-same f principal id s (some n) = ground arith

  module _ (json : Definition D → String) where
    call-Extends :
        (c : Call D) (s t : Store D) (reply : Reply D)
        → call json c s ≡ ok (t, reply)
        → Extends s.intents t.intents
    unfolding call
    call-Extends (register_template_definition d) s t reply h =
        elim (Option-cases (lookup d.template_key s.definitions)) [
          | inl e ↦ Extends-refl s.intents t.intents (ground arith)
          | inr (x, e) ↦ Extends-refl s.intents t.intents (ground arith)
        ]
    call-Extends (save_template_draft d n id) s t reply h =
        elim (Option-cases (lookup id s.draft_operations)) [
          | inl e ↦ Extends-refl s.intents t.intents (ground arith)
          | inr (x, e) ↦ Extends-refl s.intents t.intents (ground arith)
        ]
    call-Extends (publish_template r) s t reply h =
        Extends-refl s.intents t.intents
          (publish-SameInbox r s t (get_template r.template_key r.version s.templates) reply h).0
    call-Extends (publish_and_activate_template id r) s t reply h =
        Extends-refl s.intents t.intents
          (activated_after-SameInbox id r s t (get_template r.template_key r.version s.templates)
            reply (ground arith)).0
    call-Extends (activate_template id key version) s t reply h =
        Extends-refl s.intents t.intents (activate_version-SameInbox id key version s t reply h).0
    call-Extends (accept_intent i ns) s t reply h =
        accept-Extends i ns s t (find_intent i.producer i.idempotency_key s.intents) reply h
    call-Extends (mark_read principal id at) s t reply h =
        let p = change-same (read_now at) principal id s (lookup id s.notifications) in
        Extends-refl s.intents t.intents (ground arith)
    call-Extends (archive principal id at) s t reply h =
        let p = change-same (archived_now at) principal id s (lookup id s.notifications) in
        Extends-refl s.intents t.intents (ground arith)

    attempt-Extends : (c : Call D) (s : Store D) → Extends s.intents (attempt json c s).intents
    attempt-Extends c s = elim (Result-cases (call json c s)) [
      | inr (e, p) ↦ Extends-refl s.intents (attempt json c s).intents (ground arith)
      | inl ((t, reply), p) ↦
          let q : t ≡ attempt json c s = ground arith in
          subst (λ (u : Store D). Extends s.intents u.intents) q (call-Extends c s t reply p)
    ]

    run-Extends : (cs : List (Call D)) (s : Store D) → Extends s.intents (run json cs s).intents
    run-Extends [] s = Extends-refl s.intents s.intents refl
    run-Extends (c ∷ cs) s =
        Extends-trans s.intents (attempt json c s).intents (run json cs (attempt json c s)).intents
          (attempt-Extends c s) (run-Extends cs (attempt json c s))

    run-find_intent :
        (cs : List (Call D)) (s : Store D) (producer key : String) (i : Intent)
        → find_intent producer key s.intents ≡ some i
        → find_intent producer key (run json cs s).intents ≡ some i
    unfolding find_intent
    run-find_intent cs s producer key i h =
        let (ks, p) = run-Extends cs s in rw p (find_still _ s.intents ks i h)

    -- Whether an intent was new or not, the store has one under its key afterwards.
    accepted-found :
        (i : Intent) (ns : List (Notification D)) (s t : Store D) (created : Bool)
        (r : IntentResult)
        → call json (accept_intent i ns) s ≡ ok (t, accepted created r)
        → (k : Intent) × (find_intent i.producer i.idempotency_key t.intents ≡ some k)
          × (k.fingerprint ≡ i.fingerprint)
          × (k.result ≡ r)
    unfolding call
    accepted-found i ns s t created r h =
        elim (Option-cases (find_intent i.producer i.idempotency_key s.intents)) [
          | inr (k, e) ↦
              let b : str_eq k.fingerprint i.fingerprint ≡ true = ground arith in
              let p : t.intents ≡ s.intents = ground arith in
              (k, rw p e, (eq_iff k.fingerprint i.fingerprint).0 b, ground arith)
          | inl e ↦ elim (Option-cases (add_all ns s.notifications)) [
            | inl a ↦ absurd (ground arith)
            | inr (d, a) ↦
                let p : t.intents ≡ s.intents ++ i ∷ [] = ground arith in
                let x = (eq_iff i.producer i.producer).1 refl in
                let y = (eq_iff i.idempotency_key i.idempotency_key).1 refl in
                (
                  i,
                  rw p (find-added i.producer i.idempotency_key s.intents i (ground arith) e),
                  refl,
                  ground arith,
                )
          ]
        ]

    -- An intent is accepted once: after `acceptIntent` has answered it, whatever is called next, the same
    -- producer and key with the same fingerprint is a duplicate with the first answer, which changes
    -- nothing and adds no notification, and with another fingerprint it is a conflict.
    pub accept_intent-again :
        (i j : Intent) (ns ms : List (Notification D)) (cs : List (Call D)) (s t : Store D)
        (created : Bool) (r : IntentResult)
        → call json (accept_intent i ns) s ≡ ok (t, accepted created r)
        → j.producer ≡ i.producer
        → j.idempotency_key ≡ i.idempotency_key
        → call json (accept_intent j ms) (run json cs t) ≡ (
            if str_eq i.fingerprint j.fingerprint
            then ok (run json cs t, accepted false r)
            else fails conflict)
    unfolding call
    accept_intent-again i j ns ms cs s t created r h p q =
        let (k, e, f, g) = accepted-found i ns s t created r h in
        let l = run-find_intent cs t i.producer i.idempotency_key k e in rw (p, q, l, f, g) refl
