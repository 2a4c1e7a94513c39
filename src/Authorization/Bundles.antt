-- ===== src/Authorization/Bundles.antt =====
-- fixed-roles.ts: the permission bundles of the two roles that have one.
use mathlib.Core.Path.{subst}
use zsj_crm.Prelude.{
  ◌≡◌, refl, Bool, true, false, List, [], ◌∷◌, String, str_eq, eq_iff, arith, Bool-cases, inl, inr,
}
use zsj_crm.Authorization.Roles.{PermissionRequest, permission_key, has_key}

abbrev permission : String → String → PermissionRequest
permission action resource = record { action = action; resource = resource }

abbrev pub application_bundle : List PermissionRequest
application_bundle =
    permission "upload" "crm.file-center.file"
    ∷ permission "download" "crm.file-center.file"
    ∷ permission "read" "crm.form-schema.form-release"
    ∷ permission "validate" "crm.form-schema.form-release"
    ∷ permission "list" "crm.notifications.in-app-notification"
    ∷ permission "read" "crm.notifications.in-app-notification"
    ∷ permission "mark-read" "crm.notifications.in-app-notification"
    ∷ permission "archive" "crm.notifications.in-app-notification"
    ∷ permission "list" "crm.task-center.task-projection"
    ∷ permission "read" "crm.task-center.task-projection"
    ∷ permission "complete" "crm.task-center.task-projection"
    ∷ permission "reconcile" "crm.task-center.task-projection"
    ∷ permission "read" "crm.workbench.shell"
    ∷ permission "access" "crm.application"
    ∷ []

abbrev pub administrator_bundle : List PermissionRequest
administrator_bundle =
    permission "upload" "crm.file-center.file"
    ∷ permission "download" "crm.file-center.file"
    ∷ permission "read" "crm.form-schema.form-release"
    ∷ permission "validate" "crm.form-schema.form-release"
    ∷ permission "list" "crm.notifications.in-app-notification"
    ∷ permission "read" "crm.notifications.in-app-notification"
    ∷ permission "mark-read" "crm.notifications.in-app-notification"
    ∷ permission "archive" "crm.notifications.in-app-notification"
    ∷ permission "read" "crm.notifications.template"
    ∷ permission "manage" "crm.notifications.template"
    ∷ permission "publish" "crm.notifications.template"
    ∷ permission "activate" "crm.notifications.template"
    ∷ permission "list" "crm.task-center.task-projection"
    ∷ permission "read" "crm.task-center.task-projection"
    ∷ permission "complete" "crm.task-center.task-projection"
    ∷ permission "reconcile" "crm.task-center.task-projection"
    ∷ permission "read" "crm.workbench.shell"
    ∷ permission "read" "crm.workforce-access.console"
    ∷ permission "manage" "crm.workforce-access.console"
    ∷ permission "access" "crm.application"
    ∷ []

-- Every key of the first list is one of the second.
abbrev pub all_in : List PermissionRequest → List PermissionRequest → Bool
all_in [] qs = true
all_in (p ∷ ps) qs = elim (has_key qs (permission_key p)) [ true ↦ all_in ps qs | false ↦ false ]

all_in-cons :
    (p : PermissionRequest) (ps qs : List PermissionRequest)
    → all_in (p ∷ ps) qs ≡ true
    → (has_key qs (permission_key p) ≡ true) × (all_in ps qs ≡ true)
all_in-cons p ps qs h = ground arith

has_key-all_in :
    (ps qs : List PermissionRequest) (key : String)
    → all_in ps qs ≡ true
    → has_key ps key ≡ true
    → has_key qs key ≡ true
has_key-all_in [] qs key a h = cc
has_key-all_in (p ∷ ps) qs key a h =
    let (here, later) = all_in-cons p ps qs a in
    elim (Bool-cases (str_eq (permission_key p) key)) [
      | inl e ↦ subst (λ k. has_key qs k ≡ true) ((eq_iff (permission_key p) key).0 e) here
      | inr e ↦ has_key-all_in ps qs key later (rw e at h)
    ]

-- Whatever an application user may do, a CRM administrator may do.
pub administrator_includes_application :
    (key : String) → has_key application_bundle key ≡ true → has_key administrator_bundle key ≡ true
unfolding permission_key
administrator_includes_application key h =
    has_key-all_in application_bundle administrator_bundle key refl h
