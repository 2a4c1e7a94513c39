-- ===== src/Examples/Staff.antt =====
-- The organization service on concrete inputs: a head office with one department below it.
use zsj_crm.Prelude.{
  ℕ, ◌≡◌, ◌≢◌, refl, true, ◌==◌, Option, none, some, is_some, List, [], ◌∷◌, String, str_eq, All,
  if◌then◌else◌, lookup, insert, map,
}
use zsj_crm.Organization.Facts.{
  ok, Interval, Placement, Assignment, Calendar, require_id, is_uuid, require_text,
  require_timestamp, require_interval, interval_contains, is_active, ends_after,
}
use zsj_crm.Organization.Store.{
  Store, empty, apply, insert_new, commit, create_assignment, list_active_placements,
  list_active_assignments, list_active_employments,
}
use zsj_crm.Organization.Hierarchy.{
  parent_at, walk, enough, assert_no_hierarchy_cycle_at, assert_valid_organization_path,
}
use zsj_crm.Organization.Hierarchy.Walk.{here, IsPlaced, walk-is_some, no_cycle}
use zsj_crm.Organization.Service.{
  Metadata, Platform, metadata, authorize, interval_entity, commit_write, create_assignment_fact,
}
use zsj_crm.Organization.Context.{reference, PersonContext, resolve_workforce_person_context}
use zsj_crm.Organization.Service.Creation.{IsSupported, create_assignment-IsSupported}
use zsj_crm.Organization.Context.Places.{IsStored, IsHeld, HasPlace, resolve-HasPlace}

abbrev instant : String → Option ℕ
instant s =
    if str_eq s "a"
    then some 1
    else if str_eq s "b"
    then some 2
    else if str_eq s "c"
    then some 3
    else none

abbrev date : ℕ → String
date n = if n == 1 then "a" else if n == 2 then "b" else "c"

abbrev calendar : Calendar
calendar = record { parse = instant; print = date; size = λ s. 1; trimmed_size = λ s. 1 }

abbrev platform : Platform
platform = record {
  calendar = calendar;
  authorizes = λ r. true;
  digest = λ actor action reason write. "f";
}

abbrev always : Interval
always = record { from = "a"; to = none }

abbrev later : Interval
later = record { from = "b"; to = none }

abbrev head : String
head = "00000000-0000-1000-8000-000000000001"

abbrev department : String
department = "00000000-0000-1000-8000-000000000002"

abbrev identifier : String
identifier = "00000000-0000-1000-8000-000000000003"

abbrev office : Store
office = record empty {
  employments =
      (identifier, record { employment_id = identifier; person_id = identifier; interval = always })
      ∷ [];
  placements =
      (head, record { placement_id = head; unit_id = head; parent_id = none; interval = always })
      ∷ [];
  positions =
      (identifier, record { position_id = identifier; unit_id = department; interval = always })
      ∷ [];
  units =
      (head, record { unit_id = head; interval = always })
      ∷ (department, record { unit_id = department; interval = always })
      ∷ [];
}

abbrev order : Metadata
order = record {
  actor = record { actor_id = "someone"; actor_type = "system" };
  operation_id = identifier;
  reason = "r";
  trace_id = "t";
}

walk-is_some_example :
    is_some (walk calendar office "b" (enough calendar office) (department ∷ []) (some head)) ≡ true
walk-is_some_example = walk-is_some calendar office "b" (department ∷ []) (some head)

no_cycle_here : assert_no_hierarchy_cycle_at calendar office department head "b" ≡ ok tt
unfolding assert_no_hierarchy_cycle_at walk parent_at list_active_placements is_active ends_after
    lookup
no_cycle_here = refl

head-IsText : head ≢ ""
head-IsText h = cc

no_cycle_example : (head ≢ department) × IsPlaced calendar office "b" head
no_cycle_example =
    no_cycle calendar office department head "b" head no_cycle_here head-IsText (here head)

abbrev placing : Placement
placing = record {
  placement_id = department;
  unit_id = department;
  parent_id = some head;
  interval = later;
}

-- An office in which another unit is placed from a later time on.
abbrev opening : Placement
opening = record {
  placement_id = identifier;
  unit_id = identifier;
  parent_id = some head;
  interval = record { from = "c"; to = none };
}

abbrev growing_office : Store
growing_office = record office {
  placements =
      (head, record { placement_id = head; unit_id = head; parent_id = none; interval = always })
      ∷ (identifier, opening)
      ∷ [];
}

abbrev placed_office : Store
placed_office = record growing_office {
  placements =
      (head, record { placement_id = head; unit_id = head; parent_id = none; interval = always })
      ∷ (identifier, opening)
      ∷ (department, placing)
      ∷ [];
  operations = (identifier, "f") ∷ [];
}

abbrev assigning : Assignment
assigning = record {
  assignment_id = identifier;
  employment_id = identifier;
  unit_id = department;
  position_id = identifier;
  person_id = identifier;
  interval = later;
}

abbrev staffed_office : Store
staffed_office = record office {
  assignments = (identifier, assigning) ∷ [];
  operations = (identifier, "f") ∷ [];
}

assigning_done : create_assignment_fact platform order assigning office ≡ ok staffed_office
unfolding create_assignment_fact metadata interval_entity authorize commit_write interval_contains
    require_id is_uuid require_text require_timestamp require_interval commit apply insert_new
    lookup insert
assigning_done = refl

create_assignment-IsSupported_example :
    IsSupported platform office assigning
    × (interval_entity platform identifier later ≡ ok tt)
    × (commit_write platform order "assignment_created" "organization.assignment.created.v1"
          (create_assignment assigning)
          office
        ≡ ok staffed_office)
create_assignment-IsSupported_example =
    create_assignment-IsSupported platform order assigning office staffed_office assigning_done

abbrev full_office : Store
full_office = record placed_office { assignments = (identifier, assigning) ∷ [] }

abbrev context : PersonContext
context = record {
  assignments = reference assigning ∷ [];
  employment_ids = identifier ∷ [];
  resolved_at = "b";
  person_id = identifier;
}

context_resolved :
    resolve_workforce_person_context platform identifier "b" none full_office ≡ ok context
unfolding resolve_workforce_person_context list_active_assignments list_active_employments
    list_active_placements assert_valid_organization_path walk parent_at is_active ends_after
    require_id is_uuid require_timestamp lookup
context_resolved = refl

resolve-HasPlace_example :
    (context.person_id ≡ identifier)
    × (context.resolved_at ≡ "b")
    × ((as' : List Assignment) × (context.assignments ≡ map reference as')
        × All (IsStored platform full_office) as'
        × All (IsHeld platform identifier "b") as'
        × All (HasPlace platform full_office "b") as')
resolve-HasPlace_example =
    resolve-HasPlace platform identifier "b" none full_office context context_resolved
