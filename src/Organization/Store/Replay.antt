-- ===== src/Organization/Store/Replay.antt =====
-- A committed operation can be repeated, and its identifier cannot be used for another.
use zsj_crm.Prelude.{
  ◌≡◌, inl, inr, true, false, some, str_eq, arith, lookup, insert, lookup-insert_self, Option-cases,
  if◌then◌else◌,
}
use zsj_crm.Organization.Facts.{ok, err, Result-cases, idempotency_conflict, Calendar}
use zsj_crm.Organization.Store.{Store, Commit, apply, commit}

module _ (c : Calendar) where
  remembered :
      (m : Commit) (s t : Store)
      → commit c m s ≡ ok (t, false)
      → lookup m.operation_id t.operations ≡ some m.fingerprint
  unfolding commit
  remembered m s t h = elim (Option-cases (lookup m.operation_id s.operations)) [
    | inr (f, e) ↦ ground arith
    | inl e ↦ elim (Result-cases (apply c m.write s)) [
      | inr (x, a) ↦ ground arith
      | inl (u, a) ↦
          let q : t.operations ≡ insert m.operation_id m.fingerprint u.operations = ground arith in
          rw q (lookup-insert_self m.operation_id m.fingerprint u.operations)
    ]
  ]

  -- After a commit that was not a replay, a command with the same operation identifier changes
  -- nothing: with the same fingerprint it reports a replay, and with another it is refused.
  pub commit-commit :
      (m n : Commit) (s t : Store)
      → commit c m s ≡ ok (t, false)
      → n.operation_id ≡ m.operation_id
      → commit c n t
        ≡ (if str_eq m.fingerprint n.fingerprint then ok (t, true) else err idempotency_conflict)
  unfolding commit
  commit-commit m n s t h e =
      let l : lookup n.operation_id t.operations ≡ some m.fingerprint = rw e (remembered m s t h) in
      ground arith
