-- ===== src/Organization/Service.antt =====
-- service.ts: the commands of the organization service. A command is the metadata with the fact that it
-- carries. The authorizer and the digest of a commit are outside.
pub mod Creation
use zsj_crm.Prelude.{
  Bool, false, ◌&&◌, ◌||◌, not, Option, none, some, List, [], ◌∷◌, String, str_eq, if◌then◌else◌,
  lookup, is_some,
}
use zsj_crm.Organization.Facts.{
  refused, entity_not_found, effective_interval_invalid, Result, ok, err, ◌>>=◌, ◌>>◌, require,
  Interval, Person, Employment, OrganizationUnit, Placement, Position, Assignment, Calendar,
  at_most, require_id, require_text, require_timestamp, require_interval, interval_contains,
}
use zsj_crm.Organization.Store.{
  Store, Write, create_person, create_employment, create_unit, create_placement, create_position,
  create_assignment, close, CloseKind, close_assignment, close_employment, close_placement,
  entity_type_of, commit, list_placement_change_times,
}
use zsj_crm.Organization.Hierarchy.{assert_at_each}

pub record Actor : Type 0 where
  pub actor_id : String
  pub actor_type : String

pub record Metadata : Type 0 where
  pub actor : Actor
  pub operation_id : String
  pub reason : String
  pub trace_id : String

pub record Request : Type 0 where
  pub action : String
  pub actor : Actor
  pub entity_id : String
  pub entity_type : String
  pub operation_id : String

pub record Platform : Type 0 where
  pub calendar : Calendar
  -- Whether the authorizer lets a request through.
  pub authorizes : Request → Bool
  -- SHA-256 of the actor, the audit action, the reason and the write, as JSON.
  pub digest : Actor → String → String → Write → String

module _ (w : Platform) where
  -- `#metadata`
  unfoldable pub metadata : Metadata → Result (Unit {0})
  metadata m = do
    require_id m.operation_id
    require_text w.calendar m.actor.actor_id 255
    require_text w.calendar m.reason 500
    require_text w.calendar m.trace_id 128

  -- `#authorize`
  unfoldable pub authorize : Metadata → String → String → String → Result (Unit {0})
  authorize m action entity_type entity_id =
      require
        (w.authorizes (record {
          action = action;
          actor = m.actor;
          entity_id = entity_id;
          entity_type = entity_type;
          operation_id = m.operation_id;
        }))
        refused

  -- `#intervalEntity`
  unfoldable pub interval_entity : String → Interval → Result (Unit {0})
  interval_entity id i = do require_id id; require_interval w.calendar i

  -- `#commit`
  unfoldable pub commit_write : Metadata → String → String → Write → Store → Result Store
  commit_write m action event write s = do
    (t, replayed) ←
        commit w.calendar
          (record {
            operation_id = m.operation_id;
            fingerprint = w.digest m.actor action m.reason write;
            audit_action = action;
            event_type = event;
            write = write;
          })
          s
    ok t

  abbrev pub contains : Interval → Interval → Result (Unit {0})
  contains outer inner =
      require (interval_contains w.calendar outer inner) effective_interval_invalid

  abbrev pub unit_contains : Option OrganizationUnit → Interval → Result (Unit {0})
  unit_contains none i = err entity_not_found
  unit_contains (some u) i = contains u.interval i

  -- `#assertNoHierarchyCycle`
  unfoldable pub assert_no_hierarchy_cycle : Store → String → String → Interval → Result (Unit {0})
  assert_no_hierarchy_cycle s unit parent i =
      assert_at_each w.calendar s unit parent
        (i.from ∷ list_placement_change_times w.calendar s i.from i.to)

  -- What is checked if a command names a parent.
  unfoldable pub check_parent : Store → String → Interval → Option String → Result (Unit {0})
  check_parent s unit i none = ok tt
  check_parent s unit i (some parent) =
      let checks = (do
        require_id parent
        unit_contains (lookup parent s.units) i
        assert_no_hierarchy_cycle s unit parent i) in
      if str_eq parent "" then ok tt else checks

  unfoldable pub create_workforce_person : Metadata → Person → Store → Result Store
  create_workforce_person m p s = do
    metadata m
    require_id p.person_id
    t ← require_timestamp w.calendar p.recorded_at
    authorize m "workforce_person_created" "workforce_person" p.person_id
    commit_write m "workforce_person_created" "organization.workforce_person.created.v1"
        (create_person p) s

  unfoldable pub create_employment_fact : Metadata → Employment → Store → Result Store
  create_employment_fact m e s = do
    metadata m
    interval_entity e.employment_id e.interval
    require_id e.person_id
    authorize m "employment_created" "employment" e.employment_id
    require (is_some (lookup e.person_id s.people)) entity_not_found
    commit_write m "employment_created" "organization.employment.created.v1" (create_employment e) s

  unfoldable pub create_organization_unit : Metadata → Placement → Store → Result Store
  create_organization_unit m p s = do
    metadata m
    interval_entity p.unit_id p.interval
    require_id p.placement_id
    authorize m "organization_unit_created" "organization_unit" p.unit_id
    check_parent s p.unit_id p.interval p.parent_id
    commit_write m "organization_unit_created" "organization.unit.created.v1"
        (create_unit (record { unit_id = p.unit_id; interval = p.interval }) p) s

  unfoldable pub create_position_fact : Metadata → Position → Store → Result Store
  create_position_fact m p s = do
    metadata m
    interval_entity p.position_id p.interval
    require_id p.unit_id
    authorize m "position_created" "position" p.position_id
    unit_contains (lookup p.unit_id s.units) p.interval
    commit_write m "position_created" "organization.position.created.v1" (create_position p) s

  unfoldable pub create_organization_unit_placement : Metadata → Placement → Store → Result Store
  create_organization_unit_placement m p s = do
    metadata m
    interval_entity p.placement_id p.interval
    require_id p.unit_id
    authorize m "organization_unit_placement_created" "organization_unit_placement" p.placement_id
    unit_contains (lookup p.unit_id s.units) p.interval
    check_parent s p.unit_id p.interval p.parent_id
    commit_write m "organization_unit_placement_created" "organization.unit_placement.created.v1"
        (create_placement p) s

  -- What an assignment refers to: the three facts are found, belong together and contain its interval.
  abbrev pub check_references :
      Assignment → Option Employment → Option OrganizationUnit → Option Position → Result (Unit {0})
  check_references a (some e) (some u) (some p) = do
    require (str_eq e.person_id a.person_id && str_eq p.unit_id a.unit_id) entity_not_found
    require
        (interval_contains w.calendar e.interval a.interval
          && (interval_contains w.calendar u.interval a.interval
              && interval_contains w.calendar p.interval a.interval))
        effective_interval_invalid
  check_references a _ _ _ = err entity_not_found

  abbrev pub require_ids : List String → Result (Unit {0})
  require_ids [] = ok tt
  require_ids (id ∷ ids) = require_id id >> require_ids ids

  unfoldable pub create_assignment_fact : Metadata → Assignment → Store → Result Store
  create_assignment_fact m a s = do
    metadata m
    interval_entity a.assignment_id a.interval
    require_ids (a.person_id ∷ a.employment_id ∷ a.unit_id ∷ a.position_id ∷ [])
    authorize m "assignment_created" "assignment" a.assignment_id
    check_references a (lookup a.employment_id s.employments) (lookup a.unit_id s.units)
        (lookup a.position_id s.positions)
    commit_write m "assignment_created" "organization.assignment.created.v1" (create_assignment a) s

  -- The fact to close, with the person that it names, if it is of a kind that names one.
  abbrev pub find_fact : Store → CloseKind → String → Option (Interval × Option String)
  find_fact s close_assignment id = elim (lookup id s.assignments) [
    | none ↦ none
    | some a ↦ some (a.interval, some a.person_id)
  ]
  find_fact s close_employment id = elim (lookup id s.employments) [
    | none ↦ none
    | some e ↦ some (e.interval, some e.person_id)
  ]
  find_fact s close_placement id = elim (lookup id s.placements) [
    | none ↦ none
    | some p ↦ some (p.interval, none)
  ]

  abbrev pub ends_elsewhere : Option String → String → Bool
  ends_elsewhere none to = false
  ends_elsewhere (some end) to = not (str_eq end to)

  abbrev pub closable : String → Option (Interval × Option String) → Result (Option String)
  closable to none = err entity_not_found
  closable to (some (i, person)) =
      if at_most (w.calendar.parse to) (w.calendar.parse i.from) || ends_elsewhere i.to to
      then err effective_interval_invalid
      else ok person

  -- `workforcePersonId ? { workforcePersonId } : {}`
  abbrev pub named : Option String → Option String
  named none = none
  named (some person) = if str_eq person "" then none else some person

  -- `#close`
  unfoldable pub close_fact :
      CloseKind → String → String → Metadata → String → String → Store → Result Store
  close_fact kind action event m id to s = do
    metadata m
    require_id id
    t ← require_timestamp w.calendar to
    authorize m action (entity_type_of kind) id
    person ← closable to (find_fact s kind id)
    commit_write m action event (close kind id to (named person)) s

  unfoldable pub close_assignment_fact : Metadata → String → String → Store → Result Store
  close_assignment_fact =
      close_fact close_assignment "assignment_closed" "organization.assignment.closed.v1"

  unfoldable pub close_employment_fact : Metadata → String → String → Store → Result Store
  close_employment_fact =
      close_fact close_employment "employment_closed" "organization.employment.closed.v1"

  unfoldable pub close_organization_unit_placement :
      Metadata → String → String → Store → Result Store
  close_organization_unit_placement =
      close_fact close_placement "organization_unit_placement_closed"
        "organization.unit_placement.closed.v1"
