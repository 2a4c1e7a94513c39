-- ===== src/Examples/Claims.antt =====
-- Claims of commands on concrete inputs.
use zsj_crm.Prelude.{◌≡◌, ◌≢◌, refl, false, none, some, List, [], ◌∷◌, arith, Dict, lookup}
use zsj_crm.Prelude.{true, str_eq, eq_iff}
use zsj_crm.TaskCenter.Commands.{
  Row, accepted, Claim, claimed, is_running, claim_command, accept_command, Call, claims, accepts,
  releases, calls,
}
use zsj_crm.TaskCenter.Commands.Leases.{calls-accepted, claim-exclusive}

abbrev first_claim : Claim
first_claim = record {
  idempotency_key = "k";
  fingerprint = "f";
  lease_token = "t1";
  now = 10;
  lease_expires_at = 20;
}

abbrev second_claim : Claim
second_claim = record {
  idempotency_key = "k";
  fingerprint = "f";
  lease_token = "t2";
  now = 15;
  lease_expires_at = 25;
}

abbrev done_row : Row
done_row = record {
  fingerprint = "f";
  lease_expires_at = none;
  lease_token = none;
  result = some "c";
  status = accepted;
}

abbrev done_commands : Dict Row
done_commands = ("k", done_row) ∷ []

abbrev later_calls : List Call
later_calls = claims second_claim ∷ accepts "k" "t2" "d" ∷ releases "k" "t2" ∷ []

row_found : lookup "k" done_commands ≡ some done_row
unfolding lookup
row_found = refl

calls-accepted_example : lookup "k" (calls later_calls done_commands) ≡ some done_row
calls-accepted_example =
    calls-accepted later_calls done_commands "k" "c" done_row row_found refl refl

first_granted : (claim_command first_claim []).1 ≡ claimed "t1"
unfolding claim_command lookup
first_granted = refl

other_token : second_claim.lease_token ≢ first_claim.lease_token
other_token h = let q : str_eq "t2" "t1" ≡ true = (eq_iff "t2" "t1").1 h in ground arith

claim-exclusive_example :
    (claim_command second_claim (claim_command first_claim []).0
      ≡ ((claim_command first_claim []).0, is_running))
    × (accept_command "k" "t2" "d" (claim_command first_claim []).0
        ≡ ((claim_command first_claim []).0, false))
claim-exclusive_example =
    claim-exclusive first_claim second_claim [] "t1" "t2" "d" first_granted refl refl (omega arith)
      other_token
