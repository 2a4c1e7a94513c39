-- ===== src/TaskCenter/Commands/Leases.antt =====
-- An accepted command stays accepted, and a lease is exclusive.
use zsj_crm.Prelude.{
  ◌<◌, ◌≡◌, ◌≢◌, refl, false, Option, none, some, List, [], ◌∷◌, String, eq_iff, arith, Dict,
  lookup, lookup-insert, lookup-remove, lookup-insert_self,
}
use zsj_crm.TaskCenter.Commands.{
  Row, leased_row, accepted_row, accepted, Claim, claimed, is_running, claim_command, claim_row,
  accept_command, accept_row, release_command, release_row, Call, claims, accepts, releases, call,
  calls,
}

claim_row-keeps :
    (i : Claim) (commands : Dict Row) (o : Option Row) (key : String) (row : Row)
    → lookup i.idempotency_key commands ≡ o
    → lookup key commands ≡ some row
    → row.status ≡ accepted
    → (r : String) → row.result ≡ some r
    → lookup key (claim_row i commands o).0 ≡ some row
claim_row-keeps i commands none key row l h a r e = ground (
  arith,
  eq_iff i.idempotency_key key,
  lookup-insert i.idempotency_key key (leased_row i) commands,
)
claim_row-keeps i commands (some old) key row l h a r e = ground (
  arith,
  eq_iff i.idempotency_key key,
  lookup-insert i.idempotency_key key (leased_row i) commands,
)

accept_row-keeps :
    (k token result : String) (commands : Dict Row) (o : Option Row) (key : String) (row : Row)
    → lookup k commands ≡ o
    → lookup key commands ≡ some row
    → row.status ≡ accepted
    → lookup key (accept_row k token result commands o).0 ≡ some row
accept_row-keeps k token result commands none key row l h a = h
accept_row-keeps k token result commands (some old) key row l h a =
    ground (arith, eq_iff k key, lookup-insert k key (accepted_row old result) commands)

release_row-keeps :
    (k token : String) (commands : Dict Row) (o : Option Row) (key : String) (row : Row)
    → lookup k commands ≡ o
    → lookup key commands ≡ some row
    → row.status ≡ accepted
    → lookup key (release_row k token commands o) ≡ some row
release_row-keeps k token commands none key row l h a = h
release_row-keeps k token commands (some old) key row l h a =
    ground (arith, eq_iff k key, lookup-remove k key commands)

-- Once a command is accepted, its row is never changed again, by whatever calls in whatever order.
pub calls-accepted :
    (xs : List Call) (commands : Dict Row) (key r : String) (row : Row)
    → lookup key commands ≡ some row
    → row.status ≡ accepted
    → row.result ≡ some r
    → lookup key (calls xs commands) ≡ some row
unfolding calls call claim_command accept_command release_command
calls-accepted [] commands key r row h a e = h
calls-accepted (claims i ∷ xs) commands key r row h a e =
    calls-accepted xs _ key r row
      (claim_row-keeps i commands (lookup i.idempotency_key commands) key row refl h a r e) a e
calls-accepted (accepts k token result ∷ xs) commands key r row h a e =
    calls-accepted xs _ key r row
      (accept_row-keeps k token result commands (lookup k commands) key row refl h a) a e
calls-accepted (releases k token ∷ xs) commands key r row h a e =
    calls-accepted xs _ key r row
      (release_row-keeps k token commands (lookup k commands) key row refl h a) a e

claim_row-taken :
    (i : Claim) (commands : Dict Row) (o : Option Row) (t : String)
    → (claim_row i commands o).1 ≡ claimed t
    → lookup i.idempotency_key (claim_row i commands o).0 ≡ some (leased_row i)
claim_row-taken i commands none t h = lookup-insert_self i.idempotency_key _ commands
claim_row-taken i commands (some old) t h =
    ground (arith, lookup-insert_self i.idempotency_key (leased_row i) commands)

-- Right after a claim is granted, and before its lease expires, the same command is not granted to
-- another claim, which is told that it is running, and no other token can accept it.
pub claim-exclusive :
    (i j : Claim) (commands : Dict Row) (t other result : String)
    → (claim_command i commands).1 ≡ claimed t
    → j.idempotency_key ≡ i.idempotency_key
    → j.fingerprint ≡ i.fingerprint
    → j.now < i.lease_expires_at
    → other ≢ i.lease_token
    → (claim_command j (claim_command i commands).0 ≡ ((claim_command i commands).0, is_running))
      × (accept_command i.idempotency_key other result (claim_command i commands).0
          ≡ ((claim_command i commands).0, false))
unfolding claim_command accept_command
claim-exclusive i j commands t other result h k f l n =
    let taken = claim_row-taken i commands (lookup i.idempotency_key commands) t h in
    (
      rw (k, taken) (ground (arith, eq_iff i.fingerprint j.fingerprint)),
      rw taken (ground (arith, eq_iff i.lease_token other)),
    )
