-- ===== src/Notifications/Store/Releases.antt =====
-- The releases of templates: kept for good, and there when their version is active.
use zsj_crm.Prelude.{
  ℕ, ◌==◌, ◌≡◌, refl, subst, true, ◌&&◌, Option, none, some, List, [], ◌∷◌, ◌++◌, String, str_eq,
  eq_iff, lookup, insert, lookup-insert, find_still, is_some, arith, Option-cases, Bool-cases, inl,
  inr, ◌⊎◌,
}
use zsj_crm.Notifications.Store.{
  Result-cases, read_now, archived_now, ok, Definition, Release, Intent, Notification, Store, Reply,
  Call, register_template_definition, save_template_draft, publish_template,
  publish_and_activate_template, activate_template, accept_intent, mark_read, archive, empty,
  get_template, get_active_template, publish, activate_version, activated_after, accept, add_all,
  find_intent, change, call, attempt, run,
}

module _ {D : Type 0} where
  -- How a call can change the releases and the active versions.
  pub record Steps (s t : Store D) : Type 0 where
    pub kept :
        (key : String) (version : ℕ) (r : Release D)
        → get_template key version s.templates ≡ some r
        → get_template key version t.templates ≡ some r
    pub active :
        (key : String) (version : ℕ)
        → lookup key t.active_versions ≡ some version
        → (lookup key s.active_versions ≡ some version)
          ⊎ (is_some (get_template key version t.templates) ≡ true)

  same-Steps :
      (s t : Store D)
      → t.templates ≡ s.templates
      → t.active_versions ≡ s.active_versions
      → Steps s t
  same-Steps s t p q = record {
    kept = λ key version r h. rw p h;
    active = λ key version h. inl (rw (← q) h);
  }

  publish-Steps :
      (r : Release D) (s t : Store D) (o : Option (Release D)) (reply : Reply D)
      → publish r s o ≡ ok (t, reply)
      → Steps s t
  unfolding get_template
  publish-Steps r s t none reply h =
      let p : t.templates ≡ s.templates ++ r ∷ [] = ground arith in
      let q : t.active_versions ≡ s.active_versions = ground arith in
      record {
        kept = λ key version x k. rw p (find_still _ s.templates (r ∷ []) x k);
        active = λ key version k. inl (rw (← q) k);
      }
  publish-Steps r s t (some x) reply h = same-Steps s t (ground arith) (ground arith)

  activate-Steps :
      (id key : String) (version : ℕ) (s t : Store D) (reply : Reply D)
      → activate_version id key version s ≡ ok (t, reply)
      → Steps s t
  unfolding activate_version
  activate-Steps id key version s t reply h =
      let p : t.templates ≡ s.templates = ground arith in
      let q : t.active_versions ≡ insert key version s.active_versions = ground arith in
      let f : is_some (get_template key version s.templates) ≡ true = ground arith in
      record {
        kept = λ k v r e. rw p e;
        active = λ k v e.
            let l = lookup-insert key k version s.active_versions in
            let e' : lookup k (insert key version s.active_versions) ≡ some v = rw (← q) e in
            elim (Bool-cases (str_eq key k)) [
              | inl b ↦
                  let m : key ≡ k = (eq_iff key k).0 b in
                  let n : version ≡ v = ground arith in inr (rw (p, ← m, ← n) f)
              | inr b ↦ inl (ground arith)
            ];
      }

  Steps-trans : (s t u : Store D) → Steps s t → Steps t u → Steps s u
  Steps-trans s t u a b = record {
    kept = λ key version r h. b.kept key version r (a.kept key version r h);
    active = λ key version h. elim (b.active key version h) [
      | inr k ↦ inr k
      | inl k ↦ elim (a.active key version k) [
        | inl l ↦ inl l
        | inr l ↦ elim (Option-cases (get_template key version t.templates)) [
          | inl e ↦ absurd (ground arith)
          | inr (r, e) ↦ inr (rw (b.kept key version r e) refl)
        ]
      ]
    ];
  }

  both-Steps :
      (id : String) (r : Release D) (s t : Store D) (o : Option (Release D)) (reply : Reply D)
      → activated_after id r (publish r s o) ≡ ok (t, reply)
      → Steps s t
  both-Steps id r s t o reply h = elim (Result-cases (publish r s o)) [
    | inr (e, p) ↦ absurd (ground arith)
    | inl ((u, a), p) ↦ elim (Result-cases (activate_version id r.template_key r.version u)) [
      | inr (e, q) ↦ absurd (ground arith)
      | inl ((v, b), q) ↦
          let m =
            Steps-trans s u v (publish-Steps r s u o a p)
              (activate-Steps id r.template_key r.version u v b q) in
          let n : v ≡ t = ground arith in subst (Steps s) n m
    ]
  ]

  accept-keeps :
      (i : Intent) (ns : List (Notification D)) (s t : Store D) (o : Option Intent)
      (reply : Reply D)
      → accept i ns s o ≡ ok (t, reply)
      → (t.templates ≡ s.templates) × (t.active_versions ≡ s.active_versions)
  accept-keeps i ns s t none reply h = elim (Option-cases (add_all ns s.notifications)) [
    | inl e ↦ absurd (ground arith)
    | inr (d, e) ↦ (ground arith, ground arith)
  ]
  accept-keeps i ns s t (some x) reply h = (ground arith, ground arith)

  change-keeps :
      (f : Notification D → Notification D) (principal id : String) (s : Store D)
      (o : Option (Notification D))
      → ((change f principal id s o).0.templates ≡ s.templates)
        × ((change f principal id s o).0.active_versions ≡ s.active_versions)
  change-keeps f principal id s none = (refl, refl)
  change-keeps f principal id s (some n) = (ground arith, ground arith)

  module _ (json : Definition D → String) where
    call-Steps :
        (c : Call D) (s t : Store D) (reply : Reply D) → call json c s ≡ ok (t, reply) → Steps s t
    unfolding call
    call-Steps (register_template_definition d) s t reply h =
        elim (Option-cases (lookup d.template_key s.definitions)) [
          | inl e ↦ same-Steps s t (ground arith) (ground arith)
          | inr (x, e) ↦ same-Steps s t (ground arith) (ground arith)
        ]
    call-Steps (save_template_draft d n id) s t reply h =
        elim (Option-cases (lookup id s.draft_operations)) [
          | inl e ↦ same-Steps s t (ground arith) (ground arith)
          | inr (x, e) ↦ same-Steps s t (ground arith) (ground arith)
        ]
    call-Steps (publish_template r) s t reply h =
        publish-Steps r s t (get_template r.template_key r.version s.templates) reply h
    call-Steps (publish_and_activate_template id r) s t reply h =
        both-Steps id r s t (get_template r.template_key r.version s.templates) reply (ground arith)
    call-Steps (activate_template id key version) s t reply h =
        activate-Steps id key version s t reply h
    call-Steps (accept_intent i ns) s t reply h =
        let (p, q) =
          accept-keeps i ns s t (find_intent i.producer i.idempotency_key s.intents) reply h in
        same-Steps s t p q
    call-Steps (mark_read principal id at) s t reply h =
        let (p, q) = change-keeps (read_now at) principal id s (lookup id s.notifications) in
        same-Steps s t (ground arith) (ground arith)
    call-Steps (archive principal id at) s t reply h =
        let (p, q) = change-keeps (archived_now at) principal id s (lookup id s.notifications) in
        same-Steps s t (ground arith) (ground arith)

    attempt-Steps : (c : Call D) (s : Store D) → Steps s (attempt json c s)
    attempt-Steps c s = elim (Result-cases (call json c s)) [
      | inr (e, p) ↦
          let q : s ≡ attempt json c s = ground arith in
          subst (Steps s) q (same-Steps s s refl refl)
      | inl ((t, reply), p) ↦
          let q : t ≡ attempt json c s = ground arith in
          subst (Steps s) q (call-Steps c s t reply p)
    ]

    run-Steps : (cs : List (Call D)) (s : Store D) → Steps s (run json cs s)
    run-Steps [] s = same-Steps s s refl refl
    run-Steps (c ∷ cs) s =
        Steps-trans s (attempt json c s) (run json cs (attempt json c s)) (attempt-Steps c s)
          (run-Steps cs (attempt json c s))

    run-active :
        (cs : List (Call D)) (key : String) (version : ℕ)
        → lookup key (run json cs empty).active_versions ≡ some version
        → is_some (get_template key version (run json cs empty).templates) ≡ true
    unfolding lookup
    run-active cs key version h = elim ((run-Steps cs empty).active key version h) [
      | inr k ↦ k
      | inl k ↦ absurd (ground arith)
    ]

    active-release :
        (t : Store D) (key : String) (version : ℕ)
        → is_some (get_template key version t.templates) ≡ true
        → (r : Release D) × (get_template key version t.templates ≡ some r)
    active-release t key version h = elim (Option-cases (get_template key version t.templates)) [
      | inl e ↦ absurd (ground arith)
      | inr k ↦ k
    ]

    found-key :
        (key : String) (version : ℕ) (rs : List (Release D)) (r : Release D)
        → get_template key version rs ≡ some r
        → (r.version ≡ version) × (r.template_key ≡ key)
    unfolding get_template
    found-key key version [] r h = cc
    found-key key version (x ∷ rs) r h =
        elim (Bool-cases (str_eq x.template_key key && x.version == version)) [
          | inl e ↦
              let f : x ≡ r = ground arith in
              subst (λ (y : Release D). (y.version ≡ version) × (y.template_key ≡ key)) f
                (ground arith, (eq_iff x.template_key key).0 (ground arith))
          | inr e ↦ found-key key version rs r (ground arith)
        ]

    -- After any calls on a new store, an active version of a template is one of its releases, which is
    -- what `getActiveTemplate` finds, and which is found unchanged under its key and version after any
    -- further calls.
    pub run-get_active_template :
        (cs ds : List (Call D)) (key : String) (version : ℕ)
        → lookup key (run json cs empty).active_versions ≡ some version
        → (r : Release D) × (get_active_template key (run json cs empty) ≡ some r)
          × (r.version ≡ version)
          × (r.template_key ≡ key)
          × (get_template key version (run json ds (run json cs empty)).templates ≡ some r)
    unfolding get_active_template
    run-get_active_template cs ds key version h =
        let t = run json cs empty in
        let (r, e) = active-release t key version (run-active cs key version h) in
        let (p, q) = found-key key version t.templates r e in
        (r, rw h e, p, q, (run-Steps ds t).kept key version r e)
