-- ===== src/Organization/Context.antt =====
-- service.ts: resolveWorkforcePersonContext.
pub mod Places
use zsj_crm.Prelude.{
  Bool, true, false, ◌&&◌, not, Option, none, some, List, [], ◌∷◌, String, str_eq, if◌then◌else◌,
  lookup, map, select, includes, distinct,
}
use zsj_crm.Organization.Facts.{
  assignment_not_active, employment_not_active, organization_path_invalid, is_active, Result, ok,
  err, ◌>>=◌, ◌>>◌, require, Employment, OrganizationUnit, Position, Assignment, require_id,
  require_timestamp,
}
use zsj_crm.Organization.Store.{Store, sort, list_active_assignments, list_active_employments}
use zsj_crm.Organization.Hierarchy.{assert_valid_organization_path}
use zsj_crm.Organization.Service.{Platform}

pub record AssignmentReference : Type 0 where
  pub assignment_id : String
  pub employment_id : String
  pub unit_id : String
  pub position_id : String

pub record PersonContext : Type 0 where
  pub assignments : List AssignmentReference
  pub employment_ids : List String
  pub resolved_at : String
  pub person_id : String

-- `#assignmentReference`
abbrev pub reference : Assignment → AssignmentReference
reference a = record {
  assignment_id = a.assignment_id;
  employment_id = a.employment_id;
  unit_id = a.unit_id;
  position_id = a.position_id;
}

abbrev pub is_empty : List Employment → Bool
is_empty [] = true
is_empty _ = false

module _ (w : Platform) where
  -- `assignmentId` chooses one of the assignments.
  abbrev pub exactly_one : List Assignment → Result (List Assignment)
  exactly_one (a ∷ []) = ok (a ∷ [])
  exactly_one _ = err assignment_not_active

  abbrev pub chosen : Option String → List Assignment → Result (List Assignment)
  chosen none as' = ok as'
  chosen (some id) as' =
      if str_eq id ""
      then ok as'
      else require_id id >> exactly_one (select (λ (a : Assignment). str_eq a.assignment_id id) as')

  abbrev pub check_place :
      String → String → Option OrganizationUnit → Option Position → Result (Unit {0})
  check_place at unit_id (some u) (some p) =
      require
        (str_eq p.unit_id unit_id
          && (is_active w.calendar u.interval at && is_active w.calendar p.interval at))
        organization_path_invalid
  check_place at unit_id _ _ = err organization_path_invalid

  abbrev pub check_path : Store → String → Assignment → Result (Unit {0})
  check_path s at a = do
    check_place at a.unit_id (lookup a.unit_id s.units) (lookup a.position_id s.positions)
    assert_valid_organization_path w.calendar s a.unit_id at

  abbrev pub check_paths : Store → String → List Assignment → Result (Unit {0})
  check_paths s at [] = ok tt
  check_paths s at (a ∷ as') = check_path s at a >> check_paths s at as'

  abbrev pub employment_ids : List Employment → List String
  employment_ids es = distinct (map (λ (e : Employment). e.employment_id) es)

  -- The active assignments of the person in an employment that is active.
  abbrev pub employed_assignments : Store → String → String → List String → List Assignment
  employed_assignments s person at ids =
      select (λ (a : Assignment). includes ids a.employment_id)
        (list_active_assignments w.calendar s person at)

  unfoldable pub resolve_workforce_person_context :
      String → String → Option String → Store → Result PersonContext
  resolve_workforce_person_context person at assignment s = do
    require_id person
    t ← require_timestamp w.calendar at
    let employments = list_active_employments w.calendar s person at
    require (not (is_empty employments)) employment_not_active
    as' ← chosen assignment (employed_assignments s person at (employment_ids employments))
    check_paths s at as'
    ok (record {
      assignments = map reference as';
      employment_ids = sort (employment_ids employments);
      resolved_at = at;
      person_id = person;
    })
