-- ===== src/TaskCenter/Commands.antt =====
-- memory-store.ts of the task center: a command is claimed under its idempotency key with a lease, and
-- accepted or released by the holder of the lease.
pub mod Leases
use zsj_crm.Prelude.{
  ℕ, Bool, true, false, not, Option, none, some, List, [], ◌∷◌, String, str_eq, ltb, if◌then◌else◌,
  Dict, lookup, insert, remove,
}

pub data Status : Type 0 where
  accepted running : Status

pub record Row : Type 0 where
  pub fingerprint : String
  pub lease_expires_at : Option ℕ
  pub lease_token : Option String
  -- The identifier of the source command.
  pub result : Option String
  pub status : Status

-- The arguments of `claimCommand`.
pub record Claim : Type 0 where
  pub idempotency_key : String
  pub fingerprint : String
  pub lease_token : String
  pub now : ℕ
  pub lease_expires_at : ℕ

pub data Claimed : Type 0 where
  conflict is_running : Claimed
  claimed : (lease_token : String) → Claimed
  is_accepted : (source_command_id : String) → Claimed

abbrev pub leased_row : Claim → Row
leased_row i = record {
  fingerprint = i.fingerprint;
  lease_expires_at = some i.lease_expires_at;
  lease_token = some i.lease_token;
  result = none;
  status = running;
}

abbrev pub take_lease : Claim → Dict Row → Dict Row × Claimed
take_lease i commands = (insert i.idempotency_key (leased_row i) commands, claimed i.lease_token)

abbrev pub is_leased : ℕ → Option ℕ → Bool
is_leased now none = false
is_leased now (some end) = ltb now end

-- What the row of an earlier claim answers, if it answers.
abbrev pub answered : ℕ → Status → Option String → Option ℕ → Option Claimed
answered now accepted (some result) lease = some (is_accepted result)
answered now accepted none lease = none
answered now running result lease = if is_leased now lease then some is_running else none

abbrev pub claim_row : Claim → Dict Row → Option Row → Dict Row × Claimed
claim_row i commands none = take_lease i commands
claim_row i commands (some row) =
    if not (str_eq row.fingerprint i.fingerprint)
    then (commands, conflict)
    else elim (answered i.now row.status row.result row.lease_expires_at) [
      | some answer ↦ (commands, answer)
      | none ↦ take_lease i commands
    ]

unfoldable pub claim_command : Claim → Dict Row → Dict Row × Claimed
claim_command i commands = claim_row i commands (lookup i.idempotency_key commands)

-- `row.leaseToken === leaseToken`, for a row that is running.
abbrev pub is_holder : String → Status → Option String → Bool
is_holder token running (some t) = str_eq t token
is_holder token running none = false
is_holder token accepted lease = false

abbrev pub accepted_row : Row → String → Row
accepted_row row result = record {
  fingerprint = row.fingerprint;
  lease_expires_at = none;
  lease_token = none;
  result = some result;
  status = accepted;
}

abbrev pub accept_row : String → String → String → Dict Row → Option Row → Dict Row × Bool
accept_row key token result commands none = (commands, false)
accept_row key token result commands (some row) =
    if is_holder token row.status row.lease_token
    then (insert key (accepted_row row result) commands, true)
    else (commands, false)

unfoldable pub accept_command : String → String → String → Dict Row → Dict Row × Bool
accept_command key token result commands =
    accept_row key token result commands (lookup key commands)

abbrev pub release_row : String → String → Dict Row → Option Row → Dict Row
release_row key token commands none = commands
release_row key token commands (some row) =
    if is_holder token row.status row.lease_token then remove key commands else commands

unfoldable pub release_command : String → String → Dict Row → Dict Row
release_command key token commands = release_row key token commands (lookup key commands)

-- The calls of all clients, in the order in which they arrive.
pub data Call : Type 0 where
  claims : Claim → Call
  accepts : (key token result : String) → Call
  releases : (key token : String) → Call

unfoldable pub call : Call → Dict Row → Dict Row
call (claims i) commands = (claim_command i commands).0
call (accepts key token result) commands = (accept_command key token result commands).0
call (releases key token) commands = release_command key token commands

unfoldable pub calls : List Call → Dict Row → Dict Row
calls [] commands = commands
calls (x ∷ xs) commands = calls xs (call x commands)
