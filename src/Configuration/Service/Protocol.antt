-- ===== src/Configuration/Service/Protocol.antt =====
-- The order in which a command asks, records and commits.
use zsj_crm.Prelude.{
  ◌≡◌, refl, ◌∙◌, Bool, true, false, not, ◌&&◌, Option, none, some, List, [], ◌∷◌, String, str_eq,
  is_some, arith, Option-cases, Bool-cases, inl, inr, str_eq_self, eq_iff, ◌⊎◌,
}
use zsj_crm.Configuration.Facts.{Error, Result, ok, fails, denied}
use zsj_crm.Configuration.Store.{Store, Command, Outcome, execute}
use zsj_crm.Configuration.Validation.{Value, Metadata, Decision}
use zsj_crm.Configuration.Service.{
  mapped, business, foreign, Failure, continued, handled, outage, Answer, threw, gave,
  AuthorizationAction, Request, AuditResult, attempted, was_denied, failed, succeeded, Entry,
  Effect, asked, noted, committed, State, World, Run, ◌>>=◌, ◌>>◌, catch, give, throw, throw_if,
  lift, outside, decided, authorize, record_entry, entry_of, deny, authorize_before_lookup,
  do_audited, mutate, commit, settle, items_hash,
}

-- Where a log stands.
pub data Phase : Type 0 where
  idle : Phase
  asking : Request → Option Decision → Phase
  trying kept : Entry → Phase

abbrev pub opens : Request → Decision → Entry → Bool
opens q d e =
    d.allowed
    && (str_eq e.authorization_decision_id d.decision_id && str_eq e.resource_id q.resource_id)

abbrev pub move_if : Bool → Phase → Option Phase
move_if true p = some p
move_if false p = none

-- An entry moves a log on: an attempt follows on a decision that allows it, with its identifier and on
-- its resource; a denial on one that does not; a failure on an attempt of the same operation, and a
-- success on its commit.
abbrev pub note : Phase → Entry → AuditResult → Option Phase
note (asking q (some d)) e attempted = move_if (opens q d e) (trying e)
note (asking q (some d)) e was_denied = move_if (not d.allowed) idle
note (trying t) e failed = move_if (str_eq e.operation_id t.operation_id) idle
note (kept t) e succeeded = move_if (str_eq e.operation_id t.operation_id) idle
note _ _ _ = none

-- A command is committed only right after the entry of its attempt.
abbrev pub keep : Phase → Command Value → Option Phase
keep (trying t) c = move_if (str_eq c.operation t.operation_id) (kept t)
keep _ c = none

abbrev pub move : Effect → Option Phase → Option Phase
move e none = none
move (asked q d) (some p) = some (asking q d)
move (noted e) (some p) = note p e e.result
move (committed c) (some p) = keep p c

-- Where a log stands, if its effects are in order.
unfoldable pub phase : List Effect → Option Phase
phase [] = some idle
phase (e ∷ log) = move e (phase log)

abbrev pub in_order : State → Bool
in_order s = is_some (phase s.log)

-- A run leaves the effects in order.
abbrev pub Orderly : {A : Type 0} → Run A → Type 0
Orderly m = (s : State) → in_order s ≡ true → in_order (m s).0 ≡ true

continued-Orderly :
    {A B : Type 0} (x : State × Answer A) (next : A → Run B)
    → in_order x.0 ≡ true
    → ((a : A) → Orderly (next a))
    → in_order (continued x next).0 ≡ true
continued-Orderly (s, threw e) next h k = h
continued-Orderly (s, gave a) next h k = k a s h

pub >>=-Orderly :
    {A B : Type 0} (m : Run A) (next : A → Run B)
    → Orderly m
    → ((a : A) → Orderly (next a))
    → Orderly (m >>= next)
unfolding ◌>>=◌
>>=-Orderly m next h k s e = continued-Orderly (m s) next (h s e) k

pub >>-Orderly :
    {B : Type 0} (m : Run (Unit {0})) (rest : Run B)
    → Orderly m
    → Orderly rest
    → Orderly (m >> rest)
unfolding ◌>>◌
>>-Orderly m rest h k s e = continued-Orderly (m s) (λ _. rest) (h s e) (λ _. k)

pub catch-Orderly :
    {A : Type 0} (m : Run A) (handler : Failure → Run A)
    → Orderly m
    → ((e : Failure) → Orderly (handler e))
    → Orderly (catch m handler)
unfolding catch
catch-Orderly m handler h k s e = handled-Orderly (m s) handler (h s e) k
  where
    handled-Orderly :
        {A : Type 0} (x : State × Answer A) (handler : Failure → Run A)
        → in_order x.0 ≡ true
        → ((e : Failure) → Orderly (handler e))
        → in_order (handled x handler).0 ≡ true
    handled-Orderly (s, threw e) handler h k = k e s h
    handled-Orderly (s, gave a) handler h k = h

pub lift-Orderly : {A : Type 0} (r : Result A) → Orderly (lift r)
unfolding lift
lift-Orderly (fails e) s h = h
lift-Orderly (ok a) s h = h

pub throw_if-Orderly : (b : Bool) (e : Error) → Orderly (throw_if b e)
unfolding throw_if
throw_if-Orderly true e s h = h
throw_if-Orderly false e s h = h

-- What runs between an attempt and its result: it commits one command of the operation and gives its
-- outcome, or it fails without an effect.
abbrev pub Commits : {A : Type 0} → String → Run A → Type 0
Commits {A} operation work =
    (s : State)
    → ((c : Command Value) × (a : A) × (c.operation ≡ operation)
        × ((work s).0.log ≡ committed c ∷ s.log)
        × ((work s).1 ≡ gave a))
      ⊎ ((e : Failure) × ((work s).0.log ≡ s.log) × ((work s).1 ≡ threw e))

module _ {R C : Type 0} (w : World R C) where
  authorize-phase :
      (q : Request) (s : State)
      → in_order s ≡ true
      → ((phase (authorize w q s).0.log ≡ some (asking q none))
          × ((authorize w q s).1 ≡ threw outage))
        ⊎ ((d : Decision) × (phase (authorize w q s).0.log ≡ some (asking q (some d)))
            × ((authorize w q s).1 ≡ gave d))
  unfolding authorize phase
  authorize-phase q s h = elim (Option-cases (decided w (w.decide s.calls q))) [
    | inl e ↦ inl (ground arith, ground arith)
    | inr (d, e) ↦ inr (d, ground arith, ground arith)
  ]

  record_entry-log :
      (e : Entry) (s : State)
      → (((record_entry w e s).0.log ≡ noted e ∷ s.log) × ((record_entry w e s).1 ≡ gave tt))
        ⊎ (((record_entry w e s).0.log ≡ s.log) × ((record_entry w e s).1 ≡ threw outage))
  unfolding record_entry
  record_entry-log e s = elim (Bool-cases (w.audited s.calls)) [
    | inl a ↦ inl (ground arith, ground arith)
    | inr a ↦ inr (ground arith, ground arith)
  ]

  settle-log :
      (c : Command Value) (s : State) (r : Result (Store Value × Outcome Value × Bool))
      → ((a : Outcome Value × Bool) × ((settle w c s r).0.log ≡ committed c ∷ s.log)
          × ((settle w c s r).1 ≡ gave a))
        ⊎ ((e : Failure) × ((settle w c s r).0.log ≡ s.log) × ((settle w c s r).1 ≡ threw e))
  settle-log c s (fails e) = inr (business e false, refl, refl)
  settle-log c s (ok (t, o, b)) = inl ((o, b), refl, refl)

  pub commit-Commits : (c : Command Value) → Commits c.operation (commit w c)
  unfolding commit
  commit-Commits c s =
      let t = (outside w s).0 in
      elim (Bool-cases (w.stored s.calls)) [
        | inr a ↦ inr (foreign, ground arith, ground arith)
        | inl a ↦
            elim (settle-log c t
              (execute (items_hash w) c.operation c.fingerprint c.write t.store)) [
                | inl (x, p, q) ↦ inl (c, x, refl, rw a p, rw a q)
                | inr (e, p, q) ↦ inr (e, rw a p, rw a q)
              ]
      ]

  record-step :
      {A : Type 0} (e : Entry) (p : Phase) (s : State) (next : Run A)
      → phase s.log ≡ some p
      → is_some (note p e e.result) ≡ true
      → ((t : State) → phase t.log ≡ note p e e.result → in_order (next t).0 ≡ true)
      → in_order ((record_entry w e >> next) s).0 ≡ true
  unfolding phase ◌>>◌
  record-step e p s next h k f = elim (record_entry-log e s) [
    | inl (l, a) ↦
        let g : phase (record_entry w e s).0.log ≡ note p e e.result = rw l (ground arith) in
        rw a (f (record_entry w e s).0 g)
    | inr (l, a) ↦ rw a (ground arith)
  ]

  deny-Orderly :
      (A : Type 0) (e : Entry) (q : Request) (d : Decision) (s : State)
      → phase s.log ≡ some (asking q (some d))
      → d.allowed ≡ false
      → e.result ≡ was_denied
      → in_order (deny w {A = A} e s).0 ≡ true
  unfolding phase ◌>>◌ deny
  deny-Orderly A e q d s h k f =
      record-step {A = A} e (asking q (some d)) s (throw (business denied false)) h (ground arith)
        (λ t g. ground arith)

  -- What a run in `mutate` comes to, from the entry of the attempt on.
  after_attempt-Orderly :
      {A : Type 0} (base : AuditResult → Entry) (work : Run A) (t : State)
      → Commits (base attempted).operation_id work
      → ((r : AuditResult) → (base r).operation_id ≡ (base attempted).operation_id)
      → ((r : AuditResult) → (base r).result ≡ r)
      → phase t.log ≡ some (trying (base attempted))
      → in_order
          ((catch work (λ e. record_entry w (base failed) >> throw (mapped e)) >>= λ result.
              (record_entry w (base succeeded) >> give result))
            t).0
        ≡ true
  unfolding phase ◌>>=◌ ◌>>◌ catch
  after_attempt-Orderly {A} base work t h same result k = elim (h t) [
    | inl (c, x, e, l, g) ↦
        let f : phase (work t).0.log ≡ some (kept (base attempted)) =
          rw l (ground (arith, eq_iff c.operation (base attempted).operation_id)) in
        let n : note (kept (base attempted)) (base succeeded) (base succeeded).result ≡ some idle =
          rw (result succeeded) (
            ground (
              arith,
              same succeeded,
              eq_iff (base succeeded).operation_id (base attempted).operation_id,
            )) in
        rw g (
          record-step {A = A} (base succeeded) (kept (base attempted)) (work t).0 (give x) f
            (rw n refl) (λ u m. ground arith))
    | inr (e, l, g) ↦
        let f : phase (work t).0.log ≡ some (trying (base attempted)) = rw l k in
        let n : note (trying (base attempted)) (base failed) (base failed).result ≡ some idle =
          rw (result failed) (
            ground (
              arith,
              same failed,
              eq_iff (base failed).operation_id (base attempted).operation_id,
            )) in
        elim (record_entry-log (base failed) (work t).0) [
          | inl (m, a) ↦ rw (g, a) (rw m (rw f (rw n refl)))
          | inr (m, a) ↦ rw (g, a) (rw m (rw f refl))
        ]
  ]

  -- The entries of one `mutate`.
  do_audited-Orderly :
      {A : Type 0} (meta : Metadata) (action resource : String) (q : Request) (d : Decision)
      (work : Run A) (s : State)
      → Commits meta.operation_id work
      → phase s.log ≡ some (asking q (some d))
      → d.allowed ≡ true
      → q.resource_id ≡ resource
      → in_order (do_audited w (entry_of w meta action resource d.decision_id) work s).0 ≡ true
  unfolding phase do_audited
  do_audited-Orderly {A} meta action resource q d work s h k a r =
      let base = entry_of w meta action resource d.decision_id in
      let o : opens q d (base attempted) ≡ true =
        ground (arith, str_eq_self d.decision_id, eq_iff resource q.resource_id) in
      record-step {A = A} (base attempted) (asking q (some d)) s _ k (rw o refl)
        (λ t m. after_attempt-Orderly base work t h (λ x. refl) (λ x. refl) (m ∙ rw o refl))

  -- A run of `mutate` asks, records and commits in order.
  pub mutate-Orderly :
      {A : Type 0} (meta : Metadata) (action : String) (auth : AuthorizationAction)
      (resource : String) (owner : Option String) (work : Run A)
      → Commits meta.operation_id work
      → Orderly (mutate w meta action auth resource owner work)
  unfolding phase mutate
  mutate-Orderly {A} meta action auth resource owner work h s i =
      let q : Request = record {
        action = auth;
        actor = meta.actor;
        owner_module = owner;
        resource_id = resource;
      } in
      elim (authorize-phase q s i) [
        | inl (p, a) ↦ rw a (rw p refl)
        | inr (d, p, a) ↦ elim (Bool-cases d.allowed) [
          | inl b ↦
              rw (a, b)
                (do_audited-Orderly meta action resource q d work (authorize w q s).0 h p b refl)
          | inr b ↦
              rw (a, b)
                (deny-Orderly A (entry_of w meta action resource d.decision_id was_denied) q d
                  (authorize w q s).0 p b refl)
        ]
      ]

  pub authorize_before_lookup-Orderly :
      (meta : Metadata) (action : String) (auth : AuthorizationAction) (resource : String)
      → Orderly (authorize_before_lookup w meta action auth resource)
  unfolding phase authorize_before_lookup
  authorize_before_lookup-Orderly meta action auth resource s i =
      let q : Request = record {
        action = auth;
        actor = meta.actor;
        owner_module = none;
        resource_id = resource;
      } in
      elim (authorize-phase q s i) [
        | inl (p, a) ↦ rw a (rw p refl)
        | inr (d, p, a) ↦ elim (Bool-cases d.allowed) [
          | inl b ↦ rw (a, b) (rw p refl)
          | inr b ↦
              rw (a, b)
                (deny-Orderly (Unit {0}) (entry_of w meta action resource d.decision_id was_denied)
                  q d (authorize w q s).0 p b refl)
        ]
      ]
