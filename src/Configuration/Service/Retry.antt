-- ===== src/Configuration/Service/Retry.antt =====
-- A command that was committed, and whose answer was lost, is served again.
use zsj_crm.Prelude.{
  ℕ, zero, suc, ◌+◌, ◌≡◌, refl, sym, ap, subst, ◌∙◌, Bool, true, false, Option, List, [], ◌∷◌, ◌++◌,
  String, str_eq_self, arith, Bool-cases, inl, inr, ◌⊎◌,
}
use zsj_crm.Configuration.Facts.{ok, Result-cases, Item}
use zsj_crm.Configuration.Store.{Store, Command, Outcome, execute, run, attempt, replayed_outcome}
use zsj_crm.Configuration.Store.Receipts.{run-execute}
use zsj_crm.Configuration.Validation.{Value, Metadata}
use zsj_crm.Configuration.Service.{
  Failure, Answer, threw, gave, AuthorizationAction, Request, AuditResult, attempted, succeeded,
  failed, was_denied, deny, Entry, State, World, Run, authorize, record_entry, entry_of, do_audited,
  mutate, commit, items_hash, outside,
}

run-append :
    {V : Type 0} (hash : List Item → String) (cs ds : List (Command V)) (s : Store V)
    → run hash (cs ++ ds) s ≡ run hash ds (run hash cs s)
run-append hash [] ds s = refl
run-append hash (c ∷ cs) ds s = run-append hash cs ds (attempt hash c s)

pub Answer-cases :
    {A : Type 0} (a : Answer A) → ((e : Failure) × (a ≡ threw e)) ⊎ ((x : A) × (a ≡ gave x))
Answer-cases (threw e) = inl (e, refl)
Answer-cases (gave x) = inr (x, refl)

module _ {R C : Type 0} (w : World R C) where
  -- A store after the commands of other clients.
  abbrev pub Follows : Store Value → Store Value → Type 0
  Follows s t = (cs : List (Command Value)) × (t ≡ run (items_hash w) cs s)

  -- The store after what other clients do before each of the next calls of the outside.
  abbrev pub others_alone : (count first : ℕ) → Store Value → Store Value
  others_alone zero first s = s
  others_alone (suc count) first s =
      others_alone count (suc first) (run (items_hash w) (w.meanwhile first) s)

  -- Between two states, the store was changed by no one but the other clients, by what they do before
  -- each of the calls that were made.
  abbrev pub OthersAlone : State → State → Type 0
  OthersAlone s t =
      (count : ℕ) × (t.calls ≡ count + s.calls) × (t.store ≡ others_alone count s.calls s.store)

  others_alone-append :
      (k l first : ℕ) (s : Store Value)
      → others_alone l (k + first) (others_alone k first s) ≡ others_alone (k + l) first s
  others_alone-append zero l first s =
      ap (λ n. others_alone l n s) {x = 0 + first} {y = first} (omega arith)
      ∙ ap (λ n. others_alone n first s) {x = l} {y = 0 + l} (omega arith)
  others_alone-append (suc k) l first s =
      let s' = run (items_hash w) (w.meanwhile first) s in
      ap (λ n. others_alone l n (others_alone k (suc first) s')) {x = suc k + first}
        {y = k + suc first} (omega arith)
      ∙ others_alone-append k l (suc first) s'
      ∙ ap (λ n. others_alone n first s) {x = suc (k + l)} {y = suc k + l} (omega arith)

  others_alone-Follows : (k first : ℕ) (s : Store Value) → Follows s (others_alone k first s)
  others_alone-Follows zero first s = ([], refl)
  others_alone-Follows (suc k) first s =
      let s' = run (items_hash w) (w.meanwhile first) s in
      let (ds, p) = others_alone-Follows k (suc first) s' in
      (w.meanwhile first ++ ds, p ∙ sym (run-append (items_hash w) (w.meanwhile first) ds s))

  Follows-trans : (s t u : Store Value) → Follows s t → Follows t u → Follows s u
  Follows-trans s t u (cs, p) (ds, q) = (cs ++ ds, rw (run-append (items_hash w) cs ds s, ← p) q)

  OthersAlone-Follows : (s t : State) → OthersAlone s t → Follows s.store t.store
  OthersAlone-Follows s t (k, p, q) =
      let (ds, f) = others_alone-Follows k s.calls s.store in (ds, q ∙ f)

  OthersAlone-trans : (s t u : State) → OthersAlone s t → OthersAlone t u → OthersAlone s u
  OthersAlone-trans s t u (k, p, q) (l, a, b) = (
    k + l,
    omega (arith, p, a),
    b
        ∙ ap (λ n. others_alone l n t.store) p
        ∙ ap (others_alone l (k + s.calls)) q
        ∙ others_alone-append k l s.calls s.store,
  )

  authorize-alone : (q : Request) (s : State) → OthersAlone s (authorize w q s).0
  unfolding authorize
  authorize-alone q s = (1, ground arith, ground arith)

  record_entry-alone : (e : Entry) (s : State) → OthersAlone s (record_entry w e s).0
  unfolding record_entry
  record_entry-alone e s = (1, ground arith, ground arith)

  -- What happened if `mutate` gives a result.
  pub record Done {A : Type 0} (work : Run A) (t t' : State) (r : A) : Type 0 where
    pub before : State
    pub begun : OthersAlone t before
    pub result : (work before).1 ≡ gave r
    pub ended : OthersAlone (work before).0 t'

  do_audited-Done :
      {A : Type 0} (base : AuditResult → Entry) (work : Run A) (t t' : State) (r : A)
      → do_audited w base work t ≡ (t', gave r)
      → Done work t t' r
  unfolding do_audited
  do_audited-Done base work t t' r h =
      let u = (record_entry w (base attempted) t).0 in
      elim (Answer-cases (record_entry w (base attempted) t).1) [
        | inl (e, a) ↦ absurd (ground arith)
        | inr (_, a) ↦ elim (Answer-cases (work u).1) [
          | inl (e, b) ↦ elim (Answer-cases (record_entry w (base failed) (work u).0).1) [
            | inl (f, c) ↦ absurd (ground arith)
            | inr (_, c) ↦ absurd (ground arith)
          ]
          | inr (x, b) ↦ elim (Answer-cases (record_entry w (base succeeded) (work u).0).1) [
            | inl (f, c) ↦ absurd (ground arith)
            | inr (_, c) ↦
                let p : (record_entry w (base succeeded) (work u).0).0 ≡ t' = ground arith in
                record {
                  before = u;
                  begun = record_entry-alone (base attempted) t;
                  result = ground arith;
                  ended =
                      subst (OthersAlone (work u).0) p
                        (record_entry-alone (base succeeded) (work u).0);
                }
          ]
        ]
      ]

  mutate-Done :
      {A : Type 0} (meta : Metadata) (action : String) (auth : AuthorizationAction)
      (resource : String) (owner : Option String) (work : Run A) (t t' : State) (r : A)
      → mutate w meta action auth resource owner work t ≡ (t', gave r)
      → Done work t t' r
  unfolding mutate deny
  mutate-Done meta action auth resource owner work t t' r h =
      let q : Request = record {
        action = auth;
        actor = meta.actor;
        owner_module = owner;
        resource_id = resource;
      } in
      elim (Answer-cases (authorize w q t).1) [
        | inl (e, a) ↦ absurd (ground arith)
        | inr (d, a) ↦ elim (Bool-cases d.allowed) [
          | inr b ↦
              elim (Answer-cases
                (record_entry w (entry_of w meta action resource d.decision_id was_denied)
                  (authorize w q t).0).1) [
                    | inl (f, c) ↦ absurd (ground arith)
                    | inr (_, c) ↦ absurd (ground arith)
                  ]
          | inl b ↦
              let k =
                do_audited-Done (entry_of w meta action resource d.decision_id) work
                  (authorize w q t).0 t' r (ground arith) in
              record {
                before = k.before;
                begun =
                    OthersAlone-trans t (authorize w q t).0 k.before (authorize-alone q t) k.begun;
                result = k.result;
                ended = k.ended;
              }
        ]
      ]

  commit-fresh :
      (c : Command Value) (s : State) (o : Outcome Value)
      → (commit w c s).1 ≡ gave (o, false)
      → execute (items_hash w) c.operation c.fingerprint c.write (outside w s).0.store
        ≡ ok ((commit w c s).0.store, o, false)
  unfolding commit
  commit-fresh c s o h = elim (Bool-cases (w.stored s.calls)) [
    | inr a ↦ absurd (ground arith)
    | inl a ↦
        elim (Result-cases
          (execute (items_hash w) c.operation c.fingerprint c.write (outside w s).0.store)) [
            | inr (e, b) ↦ absurd (ground arith)
            | inl ((t, o', r), b) ↦ ground arith
          ]
  ]

  commit-again :
      (c c' : Command Value) (s u : State) (o : Outcome Value) (r : Outcome Value × Bool)
      → (commit w c s).1 ≡ gave (o, false)
      → Follows (commit w c s).0.store u.store
      → c'.operation ≡ c.operation
      → c'.fingerprint ≡ c.fingerprint
      → (commit w c' u).1 ≡ gave r
      → (r ≡ (replayed_outcome c'.write o, true)) × OthersAlone u (commit w c' u).0
  unfolding commit
  commit-again c c' s u o r h (ds, f) p q g =
      let hash = items_hash w in
      let v = (outside w u).0.store in
      let others = w.meanwhile u.calls in
      let x : v ≡ run hash (ds ++ others) (commit w c s).0.store =
        rw (run-append hash ds others (commit w c s).0.store, ← f) refl in
      let e : execute hash c'.operation c'.fingerprint c'.write v
          ≡ ok (v, replayed_outcome c'.write o, true) =
        rw
          (
            p,
            q,
            x,
            run-execute hash c (ds ++ others) c'.write c.fingerprint (outside w s).0.store
                (commit w c s).0.store o (commit-fresh c s o h),
            str_eq_self c.fingerprint,
          )
          refl in
      elim (Bool-cases (w.stored u.calls)) [
        | inr a ↦ absurd (ground arith)
        | inl a ↦ (ground arith, (1, ground arith, ground arith))
      ]

  -- A command was committed, and its answer may have been lost. Whatever commands were executed since, to
  -- make the same operation again gives, if it gives a result, the outcome of the first time, as a
  -- replay; and the store is changed by nothing but what other clients do before each of its calls.
  pub mutate-again :
      (meta : Metadata) (action : String) (auth : AuthorizationAction) (resource : String)
      (owner : Option String) (c c' : Command Value) (s t t' : State) (o : Outcome Value)
      (r : Outcome Value × Bool)
      → (commit w c s).1 ≡ gave (o, false)
      → Follows (commit w c s).0.store t.store
      → c'.operation ≡ c.operation
      → c'.fingerprint ≡ c.fingerprint
      → mutate w meta action auth resource owner (commit w c') t ≡ (t', gave r)
      → (r ≡ (replayed_outcome c'.write o, true)) × OthersAlone t t'
  mutate-again meta action auth resource owner c c' s t t' o r h f p q g =
      let k = mutate-Done meta action auth resource owner (commit w c') t t' r g in
      let b = Follows-trans _ _ _ f (OthersAlone-Follows t k.before k.begun) in
      let (x, y) = commit-again c c' s k.before o r h b p q k.result in
      let v = (commit w c' k.before).0 in
      (x, OthersAlone-trans t v t' (OthersAlone-trans t k.before v k.begun y) k.ended)
