-- ===== src/Notifications/Store/Privacy.antt =====
-- A notification and the calls: what may change of it, and who may change it.
use zsj_crm.Prelude.{
  ◌≤◌, ◌≡◌, refl, subst, ap, ◌∙◌, Bool, true, false, Option, none, some, List, [], ◌∷◌, String,
  str_eq, eq_iff, Dict, lookup, insert, lookup-insert, has, any, arith, Option-cases, Bool-cases,
  inl, inr,
}
use zsj_crm.Notifications.Store.{
  Result-cases, ok, Definition, Intent, Notification, Store, Reply, Call,
  register_template_definition, save_template_draft, publish_template,
  publish_and_activate_template, activate_template, accept_intent, mark_read, archive, get_template,
  accept, add_all, find_intent, is_visible, read_now, archived_now, change, call, attempt, run,
}
use zsj_crm.Notifications.Store.Templates.{
  publish-SameInbox, activate_version-SameInbox, activated_after-SameInbox,
}

module _ {D : Type 0} where
  -- What may become of a notification: it is read once and archived once, and each of the two counts
  -- as one change of its state.
  pub record Later (n m : Notification D) : Type 0 where
    pub same_id : m.notification_id ≡ n.notification_id
    pub same_principal : m.principal_id ≡ n.principal_id
    pub same_decision : m.preference_decision ≡ n.preference_decision
    pub same_time : m.created_at ≡ n.created_at
    pub same_details : m.details ≡ n.details
    pub version : n.state_version ≤ m.state_version
    pub read : (at : String) → n.read_at ≡ some at → m.read_at ≡ some at
    pub archived : (at : String) → n.archived_at ≡ some at → m.archived_at ≡ some at

  Later-refl : (n : Notification D) → Later n n
  Later-refl n = record {
    same_id = refl;
    same_principal = refl;
    same_decision = refl;
    same_time = refl;
    same_details = refl;
    version = omega arith;
    read = λ at h. h;
    archived = λ at h. h;
  }

  Later-trans : (n m l : Notification D) → Later n m → Later m l → Later n l
  Later-trans n m l a b = record {
    same_id = b.same_id ∙ a.same_id;
    same_principal = b.same_principal ∙ a.same_principal;
    same_decision = b.same_decision ∙ a.same_decision;
    same_time = b.same_time ∙ a.same_time;
    same_details = b.same_details ∙ a.same_details;
    version = omega (arith, a.version, b.version);
    read = λ at h. b.read at (a.read at h);
    archived = λ at h. b.archived at (a.archived at h);
  }

  read_now-Later : (at : String) (n : Notification D) → Later n (read_now at n)
  read_now-Later at n = elim (Option-cases n.read_at) [
    | inl e ↦ record {
      same_id = ground arith;
      same_principal = ground arith;
      same_decision = ground arith;
      same_time = ground arith;
      same_details = ground arith;
      version = ground arith;
      read = λ x h. ground arith;
      archived = λ x h. ground arith;
    }
    | inr (x, e) ↦ let p : n ≡ read_now at n = ground arith in subst (Later n) p (Later-refl n)
  ]

  archived_now-Later : (at : String) (n : Notification D) → Later n (archived_now at n)
  archived_now-Later at n = elim (Option-cases n.archived_at) [
    | inl e ↦ record {
      same_id = ground arith;
      same_principal = ground arith;
      same_decision = ground arith;
      same_time = ground arith;
      same_details = ground arith;
      version = ground arith;
      read = λ x h. ground arith;
      archived = λ x h. ground arith;
    }
    | inr (x, e) ↦ let p : n ≡ archived_now at n = ground arith in subst (Later n) p (Later-refl n)
  ]

  -- What holds of the notification under an identifier after a call: it is there, and changed only if
  -- the call is its principal's.
  abbrev pub Kept : String → Notification D → Bool → Store D → Type 0
  Kept id n may t =
      (m : Notification D) × (lookup id t.notifications ≡ some m)
      × Later n m
      × (may ≡ false → m ≡ n)

  same-Kept :
      (id : String) (n : Notification D) (may : Bool) (s t : Store D)
      → t.notifications ≡ s.notifications
      → lookup id s.notifications ≡ some n
      → Kept id n may t
  same-Kept id n may s t p h = (n, rw p h, Later-refl n, λ _. refl)

  change-Kept :
      (f : Notification D → Notification D) (principal id' id : String) (s : Store D)
      (n : Notification D)
      → ((x : Notification D) → Later x (f x))
      → lookup id s.notifications ≡ some n
      → Kept id n
          (str_eq n.principal_id principal)
          (change f principal id' s (lookup id' s.notifications)).0
  change-Kept f principal id' id s n g h = elim (Option-cases (lookup id' s.notifications)) [
    | inl e ↦ rw e (same-Kept id n _ s s refl h)
    | inr (x, e) ↦ elim (Bool-cases (is_visible principal x)) [
      | inr v ↦ rw (e, v) (same-Kept id n _ s s refl h)
      | inl v ↦
          let l = lookup-insert id' id (f x) s.notifications in
          elim (Bool-cases (str_eq id' id)) [
            | inr b ↦ rw (e, v) (n, l ∙ rw b h, Later-refl n, λ _. refl)
            | inl b ↦
                let same : id' ≡ id = (eq_iff id' id).0 b in
                let q : lookup id s.notifications ≡ some x = rw same at e in
                let k : x ≡ n = ground arith in
                let y : str_eq x.principal_id principal ≡ true = ground arith in
                let y' : str_eq n.principal_id principal ≡ true =
                  subst (λ (z : Notification D). str_eq z.principal_id principal ≡ true) k y in
                rw (e, v)
                  (
                    f x,
                    l ∙ rw b refl,
                    subst (λ z. Later z (f x)) k (g x),
                    λ z. absurd (ground arith),
                  )
          ]
    ]
  ]

  add_all-keeps :
      (ns : List (Notification D)) (d e : Dict (Notification D)) (id : String) (n : Notification D)
      → add_all ns d ≡ some e
      → lookup id d ≡ some n
      → lookup id e ≡ some n
  add_all-keeps [] d e id n h k = ground arith
  add_all-keeps (x ∷ ns) d e id n h k = elim (Bool-cases (has x.notification_id d)) [
    | inl b ↦ absurd (ground arith)
    | inr b ↦
        let l = lookup-insert x.notification_id id x d in
        elim (Bool-cases (str_eq x.notification_id id)) [
          | inl c ↦
              let same : x.notification_id ≡ id = (eq_iff x.notification_id id).0 c in
              let q : has id d ≡ false = rw same at b in absurd (ground arith)
          | inr c ↦
              add_all-keeps ns (insert x.notification_id x d) e id n (ground arith) (l ∙ rw c k)
        ]
  ]

  accept-keeps :
      (i : Intent) (ns : List (Notification D)) (s t : Store D) (o : Option Intent)
      (reply : Reply D) (id : String) (n : Notification D)
      → accept i ns s o ≡ ok (t, reply)
      → lookup id s.notifications ≡ some n
      → lookup id t.notifications ≡ some n
  accept-keeps i ns s t none reply id n h k = elim (Option-cases (add_all ns s.notifications)) [
    | inl e ↦ absurd (ground arith)
    | inr (d, e) ↦
        let l = add_all-keeps ns s.notifications d id n e k in
        let p : t.notifications ≡ d = ground arith in rw p l
  ]
  accept-keeps i ns s t (some x) reply id n h k = ground arith

  -- The calls that may change a notification: its principal reads it, or files it away.
  abbrev pub is_own : Notification D → Call D → Bool
  is_own n (register_template_definition d) = false
  is_own n (save_template_draft d e id) = false
  is_own n (publish_template r) = false
  is_own n (publish_and_activate_template id r) = false
  is_own n (activate_template id key version) = false
  is_own n (accept_intent i ns) = false
  is_own n (mark_read principal id at) = str_eq n.principal_id principal
  is_own n (archive principal id at) = str_eq n.principal_id principal

  module _ (json : Definition D → String) where
    call-Kept :
        (c : Call D) (s t : Store D) (reply : Reply D) (id : String) (n : Notification D)
        → call json c s ≡ ok (t, reply)
        → lookup id s.notifications ≡ some n
        → Kept id n (is_own n c) t
    unfolding call
    call-Kept (register_template_definition d) s t reply id n h k =
        elim (Option-cases (lookup d.template_key s.definitions)) [
          | inl e ↦ same-Kept id n _ s t (ground arith) k
          | inr (x, e) ↦ same-Kept id n _ s t (ground arith) k
        ]
    call-Kept (save_template_draft d e i) s t reply id n h k =
        elim (Option-cases (lookup i s.draft_operations)) [
          | inl e ↦ same-Kept id n _ s t (ground arith) k
          | inr (x, e) ↦ same-Kept id n _ s t (ground arith) k
        ]
    call-Kept (publish_template r) s t reply id n h k =
        same-Kept id n _ s t
          (publish-SameInbox r s t (get_template r.template_key r.version s.templates) reply h).1 k
    call-Kept (publish_and_activate_template i r) s t reply id n h k =
        same-Kept id n _ s t
          (activated_after-SameInbox i r s t (get_template r.template_key r.version s.templates)
            reply (ground arith)).1
          k
    call-Kept (activate_template i key version) s t reply id n h k =
        same-Kept id n _ s t (activate_version-SameInbox i key version s t reply h).1 k
    call-Kept (accept_intent i ns) s t reply id n h k = (
      n,
      accept-keeps i ns s t (find_intent i.producer i.idempotency_key s.intents) reply id n h k,
      Later-refl n,
      λ _. refl,
    )
    call-Kept (mark_read principal i at) s t reply id n h k =
        let p : (change (read_now at) principal i s (lookup i s.notifications)).0 ≡ t =
          ground arith in
        subst (Kept id n _) p (change-Kept (read_now at) principal i id s n (read_now-Later at) k)
    call-Kept (archive principal i at) s t reply id n h k =
        let p : (change (archived_now at) principal i s (lookup i s.notifications)).0 ≡ t =
          ground arith in
        subst (Kept id n _) p
          (change-Kept (archived_now at) principal i id s n (archived_now-Later at) k)

    attempt-Kept :
        (c : Call D) (s : Store D) (id : String) (n : Notification D)
        → lookup id s.notifications ≡ some n
        → Kept id n (is_own n c) (attempt json c s)
    attempt-Kept c s id n k = elim (Result-cases (call json c s)) [
      | inr (e, p) ↦
          let q : s ≡ attempt json c s = ground arith in
          subst (Kept id n _) q (same-Kept id n _ s s refl k)
      | inl ((t, reply), p) ↦
          let q : t ≡ attempt json c s = ground arith in
          subst (Kept id n _) q (call-Kept c s t reply id n p k)
    ]

    is_own-Later : (n m : Notification D) (c : Call D) → Later n m → is_own m c ≡ is_own n c
    is_own-Later n m (register_template_definition d) l = refl
    is_own-Later n m (save_template_draft d e id) l = refl
    is_own-Later n m (publish_template r) l = refl
    is_own-Later n m (publish_and_activate_template id r) l = refl
    is_own-Later n m (activate_template id key version) l = refl
    is_own-Later n m (accept_intent i ns) l = refl
    is_own-Later n m (mark_read principal id at) l = rw l.same_principal refl
    is_own-Later n m (archive principal id at) l = rw l.same_principal refl

    run-Kept :
        (cs : List (Call D)) (s : Store D) (id : String) (n : Notification D)
        → lookup id s.notifications ≡ some n
        → Kept id n (any (is_own n) cs) (run json cs s)
    run-Kept [] s id n k = (n, k, Later-refl n, λ _. refl)
    run-Kept (c ∷ cs) s id n k =
        let (m, e, l, f) = attempt-Kept c s id n k in
        let (o, e', l', g) = run-Kept cs (attempt json c s) id m e in
        (
          o,
          e',
          Later-trans n m o l l',
          λ q.
              let a : is_own n c ≡ false = ground arith in
              let b : any (is_own n) cs ≡ false = ground arith in
              let same = f a in g (rw same b) ∙ same,
        )

    -- A notification is never lost or given to someone else: after any calls it is there under its
    -- identifier with the same principal, decision, time of creation and details, its version has not
    -- gone back, and a time at which it was read or archived stands.
    pub run-Later :
        (cs : List (Call D)) (s : Store D) (id : String) (n : Notification D)
        → lookup id s.notifications ≡ some n
        → (m : Notification D) × (lookup id (run json cs s).notifications ≡ some m) × Later n m
    run-Later cs s id n k = let (m, e, l, f) = run-Kept cs s id n k in (m, e, l)

    -- No one else changes a notification: after any calls of which none reads or archives in the name of
    -- its principal, it is there as it was.
    pub run-others :
        (cs : List (Call D)) (s : Store D) (id : String) (n : Notification D)
        → lookup id s.notifications ≡ some n
        → any (is_own n) cs ≡ false
        → lookup id (run json cs s).notifications ≡ some n
    run-others cs s id n k o =
        let (m, e, l, f) = run-Kept cs s id n k in let same = f o in e ∙ ap some same
