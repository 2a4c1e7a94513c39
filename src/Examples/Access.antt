-- ===== src/Examples/Access.antt =====
-- The authorization service on concrete inputs.
use zsj_crm.Prelude.{◌≡◌, ◌↔◌, refl, true, some, List, [], ◌∷◌, Any}
use zsj_crm.Authorization.Roles.{
  application_user, PermissionRequest, Grant, Subject, Options, permission_key, has_key,
  is_applicable, grant_allows, allowed, decide_grants, decide,
}
use zsj_crm.Authorization.Bundles.{application_bundle}
use zsj_crm.Authorization.Service.{
  Decision, ok, State, World, evaluate, evaluate_all, listing, check_permission,
  batch_check_permissions, require_allowed, resolve_scope, assignments,
}
use zsj_crm.Authorization.Decisions.{Permits, decide_iff}
use zsj_crm.Authorization.Batches.{AgreesWithChecks, batch-AgreesWithChecks, approved}
use zsj_crm.Authorization.Scopes.{Covers, require_allowed-Permits, resolve_scope-Covers}

abbrev upload : PermissionRequest
upload = record { action = "upload"; resource = "crm.file-center.file" }

abbrev configured : Options
configured = record {
  approved = upload ∷ [];
  application = upload ∷ [];
  administrator = upload ∷ [];
}

abbrev clerk : Subject
clerk = record {
  active_assignment_ids = "a1" ∷ [];
  selected_assignment_id = some "a1";
  workforce_person_id = "p1";
}

abbrev clerk_grant : Grant
clerk_grant = record {
  assignment_id = some "a1";
  grant_id = "g1";
  granted_at = "2026-01-01T00:00:00.000Z";
  role_key = application_user;
  workforce_person_id = "p1";
}

abbrev deployment : World
deployment = record {
  options = configured;
  list_active = λ n person at. ok (clerk_grant ∷ []);
  clock = λ n. "2026-02-01T00:00:00.000Z";
  identifier = λ n. "d";
  recorder = some (λ r. true);
}

abbrev new_state : State
new_state = record { log = []; drawn = 0; asked = 0 }

abbrev clerk_decision : Decision
clerk_decision = record {
  verdict = record { is_allowed = true; reason = allowed };
  decision_id = "d";
  evaluated_at = "2026-02-01T00:00:00.000Z";
}

upload_for_users : has_key application_bundle "crm.file-center.file:upload" ≡ true
unfolding permission_key
upload_for_users = refl

decide_iff_example : ((decide configured clerk upload (clerk_grant ∷ [])).is_allowed ≡ true) ↔ (
    (has_key configured.approved (permission_key upload) ≡ true)
    × Any (Permits configured clerk (permission_key upload)) (clerk_grant ∷ []))
decide_iff_example = decide_iff configured clerk upload (clerk_grant ∷ [])

batch_allowed :
    (batch_check_permissions deployment clerk (upload ∷ []) new_state).1 ≡ ok (clerk_decision ∷ [])
unfolding batch_check_permissions evaluate_all evaluate listing decide decide_grants is_applicable
    grant_allows permission_key
batch_allowed = refl

abbrev later_state : State
later_state = record { log = []; drawn = 7; asked = 5 }

batch-AgreesWithChecks_example :
    AgreesWithChecks deployment clerk later_state (upload ∷ []) (clerk_decision ∷ [])
unfolding listing
batch-AgreesWithChecks_example =
    batch-AgreesWithChecks deployment clerk (upload ∷ []) new_state later_state
      (clerk_decision ∷ []) batch_allowed refl

upload_required : (require_allowed deployment clerk upload new_state).1 ≡ ok clerk_decision
unfolding require_allowed check_permission evaluate listing decide decide_grants is_applicable
    grant_allows permission_key
upload_required = refl

require_allowed-Permits_example :
    (approved deployment upload ≡ true)
    × ((grants : List Grant) × (deployment.list_active 0 clerk.workforce_person_id
            (deployment.clock 0)
          ≡ ok grants)
        × Any (Permits deployment.options clerk (permission_key upload)) grants)
require_allowed-Permits_example =
    require_allowed-Permits deployment clerk upload new_state clerk_decision upload_required

scope_resolved :
    (resolve_scope deployment clerk upload new_state).1
    ≡ ok (clerk_decision, some (assignments ("a1" ∷ [])))
unfolding resolve_scope evaluate listing decide decide_grants is_applicable grant_allows
    permission_key
scope_resolved = refl

resolve_scope-Covers_example :
    (grants : List Grant) × (listing deployment clerk (approved deployment upload) 0 ≡ ok grants)
    × (clerk_decision.verdict ≡ decide deployment.options clerk upload grants)
    × Covers deployment clerk grants clerk_decision (some (assignments ("a1" ∷ [])))
resolve_scope-Covers_example =
    resolve_scope-Covers deployment clerk upload new_state clerk_decision
      (some (assignments ("a1" ∷ []))) scope_resolved
