-- ===== src/Organization/Hierarchy.antt =====
-- service.ts: the walk from a unit to the top of the hierarchy, at one time and at every time at which
-- a placement changes. The loop runs on fuel, of which the number of units is enough.
pub mod Walk
use zsj_crm.Prelude.{
  ℕ, zero, suc, Option, none, some, List, [], ◌∷◌, String, str_eq, if◌then◌else◌, includes, length,
  lookup,
}
use zsj_crm.Organization.Facts.{
  organization_hierarchy_cycle, organization_path_invalid, Result, ok, err, ◌>>=◌, ◌>>◌, require,
  OrganizationUnit, Placement, Calendar, is_active,
}
use zsj_crm.Organization.Store.{Store, list_active_placements}

-- `const [placement] = placements`, and the test that there is no other.
abbrev pub sole : List Placement → Result (Option String)
sole (p ∷ []) = ok p.parent_id
sole _ = err organization_path_invalid

abbrev pub active_unit : Calendar → String → Option OrganizationUnit → Result (Unit {0})
active_unit c at none = err organization_path_invalid
active_unit c at (some u) = require (is_active c u.interval at) organization_path_invalid

module _ (c : Calendar) (s : Store) where
  -- One turn of the loop: the parent of a unit, which is active and has one active placement.
  unfoldable pub parent_at : String → String → Result (Option String)
  parent_at at current = do
    active_unit c at (lookup current s.units)
    sole (list_active_placements c s current at)

  -- The loop; `none` if the fuel is used up.
  unfoldable pub walk : String → ℕ → List String → Option String → Option (Result (Unit {0}))
  walk at zero visited current = none
  walk at (suc left) visited none = some (ok tt)
  walk at (suc left) visited (some current) =
      if str_eq current ""
      then some (ok tt)
      else if includes visited current
      then some (err organization_hierarchy_cycle)
      else elim (parent_at at current) [
        | err e ↦ some (err e)
        | ok parent ↦ walk at left (current ∷ visited) parent
      ]

  abbrev pub finished : Option (Result (Unit {0})) → Result (Unit {0})
  finished none = err organization_hierarchy_cycle
  finished (some r) = r

  abbrev pub enough : ℕ
  enough = suc (length s.units)

  -- `#assertNoHierarchyCycleAt`
  unfoldable pub assert_no_hierarchy_cycle_at : String → String → String → Result (Unit {0})
  assert_no_hierarchy_cycle_at unit parent at = finished (walk at enough (unit ∷ []) (some parent))

  -- `#assertValidOrganizationPath`
  unfoldable pub assert_valid_organization_path : String → String → Result (Unit {0})
  assert_valid_organization_path unit at = finished (walk at enough [] (some unit))

  abbrev pub assert_at_each : String → String → List String → Result (Unit {0})
  assert_at_each unit parent [] = ok tt
  assert_at_each unit parent (at ∷ rest) =
      assert_no_hierarchy_cycle_at unit parent at >> assert_at_each unit parent rest
