-- ===== src/Organization/Store.antt =====
-- memory-store.ts and store.ts of the organization module.
pub mod Replay
pub mod History
pub mod Commits
use zsj_crm.Prelude.{
  Bool, true, false, ◌&&◌, ◌||◌, not, Option, none, some, List, [], ◌∷◌, String, str_eq,
  if◌then◌else◌, Dict, lookup, insert, has, values, select, map, compare, is_le, distinct,
}
use zsj_crm.Organization.Facts.{
  entity_conflict, entity_not_found, idempotency_conflict, effective_interval_invalid, Result, ok,
  err, ◌>>=◌, ◌>>◌, require, Interval, Person, Employment, OrganizationUnit, Placement, Position,
  Assignment, Calendar, at_most, is_active, before, begins_before,
}

pub data CloseKind : Type 0 where
  close_assignment close_employment close_placement : CloseKind

pub data Write : Type 0 where
  create_person : Person → Write
  create_employment : Employment → Write
  create_unit : OrganizationUnit → Placement → Write
  create_placement : Placement → Write
  create_position : Position → Write
  create_assignment : Assignment → Write
  close : CloseKind → (fact_id effective_to : String) (person_id : Option String) → Write

pub record Commit : Type 0 where
  pub operation_id : String
  pub fingerprint : String
  pub audit_action : String
  pub event_type : String
  pub write : Write

pub record Store : Type 0 where
  pub assignments : Dict Assignment
  pub employments : Dict Employment
  pub operations : Dict String
  pub placements : Dict Placement
  pub positions : Dict Position
  pub units : Dict OrganizationUnit
  pub people : Dict Person

abbrev pub empty : Store
empty = record {
  assignments = [];
  employments = [];
  operations = [];
  placements = [];
  positions = [];
  units = [];
  people = [];
}

-- `sort()` on texts.
abbrev pub insert_sorted : String → List String → List String
insert_sorted x [] = x ∷ []
insert_sorted x (y ∷ ys) =
    let rest = insert_sorted x ys in if is_le (compare x y) then x ∷ y ∷ ys else y ∷ rest

abbrev pub sort : List String → List String
sort [] = []
sort (x ∷ xs) = insert_sorted x (sort xs)

-- `current.effectiveTo && current.effectiveTo !== to`
abbrev pub ends_otherwise : Option String → String → Bool
ends_otherwise none to = false
ends_otherwise (some e) to = not (str_eq e "") && not (str_eq e to)

module _ {V : Type 0} where
  -- `#assertAbsent` and `#insert`
  abbrev pub assert_absent : Dict V → String → Result (Unit {0})
  assert_absent records id = require (not (has id records)) entity_conflict

  unfoldable pub insert_new : Dict V → String → V → Result (Dict V)
  insert_new records id value = do assert_absent records id; ok (insert id value records)

  abbrev pub close_found :
      Calendar
      → (V → Interval)
      → (V → Interval → V)
      → Dict V
      → String
      → String
      → Option V
      → Result (Dict V)
  close_found c get put records id to none = err entity_not_found
  close_found c get put records id to (some v) =
      if at_most (c.parse to) (c.parse (get v).from) || ends_otherwise (get v).to to
      then err effective_interval_invalid
      else ok (insert id (put v (record (get v) { to = some to })) records)

  -- `#close`
  unfoldable pub close_record :
      Calendar → (V → Interval) → (V → Interval → V) → Dict V → String → String → Result (Dict V)
  close_record c get put records id to = close_found c get put records id to (lookup id records)

abbrev pub with_employment : Employment → Interval → Employment
with_employment v i = record v { interval = i }

abbrev pub with_assignment : Assignment → Interval → Assignment
with_assignment v i = record v { interval = i }

abbrev pub with_placement : Placement → Interval → Placement
with_placement v i = record v { interval = i }

module _ (c : Calendar) where
  unfoldable pub apply : Write → Store → Result Store
  apply (create_person p) s = do
    people ← insert_new s.people p.person_id p
    ok (record s { people = people })
  apply (create_employment e) s = do
    employments ← insert_new s.employments e.employment_id e
    ok (record s { employments = employments })
  apply (create_unit u p) s = do
    assert_absent s.units u.unit_id
    assert_absent s.placements p.placement_id
    ok (record s {
      units = insert u.unit_id u s.units;
      placements = insert p.placement_id p s.placements;
    })
  apply (create_placement p) s = do
    placements ← insert_new s.placements p.placement_id p
    ok (record s { placements = placements })
  apply (create_position p) s = do
    positions ← insert_new s.positions p.position_id p
    ok (record s { positions = positions })
  apply (create_assignment a) s = do
    assignments ← insert_new s.assignments a.assignment_id a
    ok (record s { assignments = assignments })
  apply (close close_assignment id to person) s = do
    assignments ←
        close_record c (λ (v : Assignment). v.interval) with_assignment s.assignments id to
    ok (record s { assignments = assignments })
  apply (close close_employment id to person) s = do
    employments ←
        close_record c (λ (v : Employment). v.interval) with_employment s.employments id to
    ok (record s { employments = employments })
  apply (close close_placement id to person) s = do
    placements ← close_record c (λ (v : Placement). v.interval) with_placement s.placements id to
    ok (record s { placements = placements })

  abbrev pub commit_new : Commit → Store → Result (Store × Bool)
  commit_new m s = do
    t ← apply m.write s
    ok (record t { operations = insert m.operation_id m.fingerprint t.operations }, false)

  abbrev pub commit_prior : Commit → Store → Option String → Result (Store × Bool)
  commit_prior m s none = commit_new m s
  commit_prior m s (some f) =
      if str_eq f m.fingerprint then ok (s, true) else err idempotency_conflict

  -- `commit`: the new store, and whether the operation was replayed.
  unfoldable pub commit : Commit → Store → Result (Store × Bool)
  commit m s = commit_prior m s (lookup m.operation_id s.operations)

  unfoldable pub list_active_assignments : Store → String → String → List Assignment
  list_active_assignments s id at =
      select (λ v. str_eq v.person_id id && is_active c v.interval at) (values s.assignments)

  unfoldable pub list_active_employments : Store → String → String → List Employment
  list_active_employments s id at =
      select (λ v. str_eq v.person_id id && is_active c v.interval at) (values s.employments)

  unfoldable pub list_active_placements : Store → String → String → List Placement
  list_active_placements s id at =
      select (λ v. str_eq v.unit_id id && is_active c v.interval at) (values s.placements)

  -- Of the placements' beginnings, those between the two ends, once each and sorted.
  unfoldable pub list_placement_change_times : Store → String → Option String → List String
  list_placement_change_times s from to = sort (
      distinct (
        select (λ at. before (c.parse from) (c.parse at) && begins_before c (c.parse at) to)
          (map (λ (p : Placement). p.interval.from) (values s.placements))))

-- What the audit trail and the event of a write name.
pub record WriteTarget : Type 0 where
  pub effective_at : String
  pub entity_id : String
  pub entity_type : String
  pub person_id : Option String

abbrev pub entity_type_of : CloseKind → String
entity_type_of close_employment = "employment"
entity_type_of close_assignment = "assignment"
entity_type_of close_placement = "organization_unit_placement"

abbrev pub target : String → String → String → Option String → WriteTarget
target at id type person = record {
  effective_at = at;
  entity_id = id;
  entity_type = type;
  person_id = person;
}

unfoldable pub describe_organization_write : Write → WriteTarget
describe_organization_write (create_person p) =
    target p.recorded_at p.person_id "workforce_person" (some p.person_id)
describe_organization_write (create_employment e) =
    target e.interval.from e.employment_id "employment" (some e.person_id)
describe_organization_write (create_unit u p) =
    target u.interval.from u.unit_id "organization_unit" none
describe_organization_write (create_placement p) =
    target p.interval.from p.placement_id "organization_unit_placement" none
describe_organization_write (create_position p) =
    target p.interval.from p.position_id "position" none
describe_organization_write (create_assignment a) =
    target a.interval.from a.assignment_id "assignment" (some a.person_id)
describe_organization_write (close kind id to person) = target to id (entity_type_of kind) person
