-- ===== src/Configuration/Store/Receipts.antt =====
-- Operations are remembered by their identifiers.
use zsj_crm.Prelude.{
  ℕ, Option, ◌≡◌, inl, inr, true, false, List, [], ◌∷◌, some, none, String, str_eq, eq_iff, arith,
  lookup, lookup-insert, lookup-insert_self, Option-cases, if◌then◌else◌,
}
use zsj_crm.Configuration.Facts.{ok, fails, operation_conflict, Result-cases, Item, Draft, Event}
use zsj_crm.Configuration.Store.{
  replayed_outcome, Store, Receipt, save_dictionary_draft, publish_dictionary, register_parameter,
  publish_parameter_value, activate, terminate_activation, Outcome, Write, Command, perform,
  publish_draft, execute, attempt, run,
}

module _ {V : Type 0} (hash : List Item → String) where
  publish_draft-receipts :
      (id : String) (event : Event) (expected : ℕ) (at : String) (s t : Store V) (o : Outcome V)
      (d : Option Draft)
      → publish_draft hash id event expected at s d ≡ ok (t, o)
      → t.receipts ≡ s.receipts
  publish_draft-receipts id event expected at s t o none h = ground arith
  publish_draft-receipts id event expected at s t o (some d) h = ground arith

  pub perform-receipts :
      (w : Write V) (s t : Store V) (o : Outcome V)
      → perform hash w s ≡ ok (t, o)
      → t.receipts ≡ s.receipts
  unfolding perform
  perform-receipts (save_dictionary_draft draft expected) s t o h = ground arith
  perform-receipts (publish_dictionary id event expected at) s t o h =
      publish_draft-receipts id event expected at s t o (lookup id s.drafts) h
  perform-receipts (register_parameter d) s t o h = ground arith
  perform-receipts (publish_parameter_value digest event key at value) s t o h = ground arith
  perform-receipts (activate a event) s t o h = ground arith
  perform-receipts (terminate_activation t' event) s t o h = ground arith

  -- What is written in a store stays known.
  attempt-receipt :
      (c : Command V) (operation : String) (r : Receipt V) (s : Store V)
      → lookup operation s.receipts ≡ some r
      → lookup operation (attempt hash c s).receipts ≡ some r
  unfolding execute
  attempt-receipt c operation r s h = elim (Option-cases (lookup c.operation s.receipts)) [
    | inr (f, e) ↦ ground arith
    | inl e ↦ elim (Result-cases (perform hash c.write s)) [
      | inr (x, a) ↦ ground arith
      | inl ((u, o), a) ↦
          let k : u.receipts ≡ s.receipts = perform-receipts c.write s u o a in
          let q =
            lookup-insert c.operation operation
              (record { fingerprint = c.fingerprint; outcome = o }) u.receipts in
          ground (arith, eq_iff c.operation operation)
    ]
  ]

  run-receipt :
      (cs : List (Command V)) (operation : String) (r : Receipt V) (s : Store V)
      → lookup operation s.receipts ≡ some r
      → lookup operation (run hash cs s).receipts ≡ some r
  run-receipt [] operation r s h = h
  run-receipt (c ∷ cs) operation r s h =
      run-receipt cs operation r (attempt hash c s) (attempt-receipt c operation r s h)

  fresh-receipt :
      (c : Command V) (s t : Store V) (o : Outcome V)
      → execute hash c.operation c.fingerprint c.write s ≡ ok (t, o, false)
      → lookup c.operation t.receipts ≡ some (record { fingerprint = c.fingerprint; outcome = o })
  unfolding execute
  fresh-receipt c s t o h = elim (Option-cases (lookup c.operation s.receipts)) [
    | inr (f, e) ↦ ground arith
    | inl e ↦ elim (Result-cases (perform hash c.write s)) [
      | inr (x, a) ↦ ground arith
      | inl ((u, o'), a) ↦
          let q =
            lookup-insert_self c.operation (record { fingerprint = c.fingerprint; outcome = o' })
              u.receipts in
          ground arith
    ]
  ]

  -- After an operation that succeeded, and whatever calls were made since, to call with its
  -- identifier again changes nothing, whatever the arguments: with the same fingerprint it gives the
  -- outcome of the first call (an activation answers only that it is replayed), and with another one
  -- it is refused as a conflict.
  pub run-execute :
      (c : Command V) (cs : List (Command V)) (w : Write V) (fingerprint : String) (s t : Store V)
      (o : Outcome V)
      → execute hash c.operation c.fingerprint c.write s ≡ ok (t, o, false)
      → execute hash c.operation fingerprint w (run hash cs t) ≡ (
          if str_eq c.fingerprint fingerprint
          then ok (run hash cs t, replayed_outcome w o, true)
          else fails operation_conflict)
  unfolding execute
  run-execute c cs w fingerprint s t o h =
      let q =
        run-receipt cs c.operation (record { fingerprint = c.fingerprint; outcome = o }) t
          (fresh-receipt c s t o h) in
      ground arith
