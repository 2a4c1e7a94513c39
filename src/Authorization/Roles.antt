-- ===== src/Authorization/Roles.antt =====
-- fixed-roles.ts and types.ts: permissions, grants, and which grants apply to a subject.
use Prim.Native.String.{◌++◌}
use Prim.Native.Char.{code}
use zsj_crm.Prelude.{
  Bool, true, false, ◌&&◌, ◌||◌, not, Option, none, some, List, [], ◌∷◌, String, str_eq, ◌==◌,
  includes, any, all, select, if◌then◌else◌,
}

pub data RoleKey : Type 0 where
  application_user crm_administrator system_administrator : RoleKey

pub record PermissionRequest : Type 0 where
  pub action : String
  pub resource : String

pub record Grant : Type 0 where
  pub assignment_id : Option String
  pub grant_id : String
  pub granted_at : String
  pub role_key : RoleKey
  pub workforce_person_id : String

pub record Subject : Type 0 where
  pub active_assignment_ids : List String
  pub selected_assignment_id : Option String
  pub workforce_person_id : String

-- The permissions of the deployment, and those of the two roles that have a bundle.
pub record Options : Type 0 where
  pub approved : List PermissionRequest
  pub application : List PermissionRequest
  pub administrator : List PermissionRequest

-- `permissionKey`
unfoldable pub permission_key : PermissionRequest → String
permission_key r = r.resource ++ (":" ++ r.action)

-- `new Set(permissions.map(permissionKey)).has(key)`
abbrev pub has_key : List PermissionRequest → String → Bool
has_key ps key = any (λ p. str_eq (permission_key p) key) ps

-- `text.includes("*")`
abbrev has_star : String → Bool
has_star String.[] = false
has_star (String.◌∷◌ c s) = code c == b'*' || has_star s

unfoldable pub is_valid_permission : PermissionRequest → Bool
is_valid_permission r =
    not (str_eq r.resource "")
    && (not (str_eq r.action "") && (not (has_star r.resource) && not (has_star r.action)))

pub data ConfigurationError : Type 0 where
  permission_invalid permission_unapproved : ConfigurationError

abbrev check_role : List PermissionRequest → List PermissionRequest → Option ConfigurationError
check_role approved [] = none
check_role approved (p ∷ ps) =
    let rest = check_role approved ps in
    if is_valid_permission p
    then (if has_key approved (permission_key p) then rest else some permission_unapproved)
    else some permission_invalid

-- The two loops at the head of `createFixedRoleAuthorizationService`: `none` if nothing is wrong.
unfoldable pub validate_options : Options → Option ConfigurationError
validate_options o =
    if all is_valid_permission o.approved
    then elim (check_role o.approved o.application) [
      | none ↦ check_role o.approved o.administrator
      | some e ↦ some e
    ]
    else some permission_invalid

abbrev pub same_assignment : String → Option String → Bool
same_assignment a none = false
same_assignment a (some b) = str_eq a b

abbrev pub applies_to : Subject → RoleKey → Option String → Bool
applies_to s system_administrator a = true
applies_to s _ none = false
applies_to s _ (some a) =
    same_assignment a s.selected_assignment_id && includes s.active_assignment_ids a

-- The filter of `applicable`.
unfoldable pub is_applicable : Subject → Grant → Bool
is_applicable s g = applies_to s g.role_key g.assignment_id

abbrev pub role_allows : Options → String → RoleKey → Bool
role_allows o key system_administrator = true
role_allows o key application_user = has_key o.application key
role_allows o key crm_administrator = has_key o.administrator key

unfoldable pub grant_allows : Options → String → Grant → Bool
grant_allows o key g = role_allows o key g.role_key

abbrev pub is_system_administrator : RoleKey → Bool
is_system_administrator system_administrator = true
is_system_administrator _ = false

pub data Reason : Type 0 where
  allowed unknown_permission no_applicable_grant : Reason

-- The decision of `evaluate`, without its identifier and time.
pub record Verdict : Type 0 where
  pub is_allowed : Bool
  pub reason : Reason

unfoldable pub decide_grants : Options → Subject → String → List Grant → Verdict
decide_grants o s key grants =
    let ok = any (grant_allows o key) (select (is_applicable s) grants) in
    record { is_allowed = ok; reason = if ok then allowed else no_applicable_grant }

unfoldable pub decide : Options → Subject → PermissionRequest → List Grant → Verdict
unfolding decide_grants
decide o s r grants =
    if has_key o.approved (permission_key r)
    then decide_grants o s (permission_key r) grants
    else record { is_allowed = false; reason = unknown_permission }
