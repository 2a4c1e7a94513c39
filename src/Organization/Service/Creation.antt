-- ===== src/Organization/Service/Creation.antt =====
-- What holds in the store when a command succeeds.
use zsj_crm.Prelude.{
  ◌≡◌, refl, Bool, true, ◌&&◌, Option, none, some, [], ◌∷◌, String, eq_iff, arith, lookup,
}
use zsj_crm.Organization.Facts.{
  ok, >>-eq-ok, Interval, Employment, OrganizationUnit, Placement, Position, Assignment,
  interval_contains, before, begins_before,
}
use zsj_crm.Organization.Store.{Store, create_assignment}
use zsj_crm.Organization.Hierarchy.Walk.{Reaches}
use zsj_crm.Organization.Service.{
  Platform, Metadata, metadata, authorize, interval_entity, commit_write, check_references,
  require_ids, create_assignment_fact,
}

module _ (w : Platform) where
  -- The facts that an assignment names are there, belong to its person and its unit, and contain its
  -- interval.
  pub record IsSupported (s : Store) (a : Assignment) : Type 0 where
    pub employment : Employment
    pub unit : OrganizationUnit
    pub position : Position
    pub employed : lookup a.employment_id s.employments ≡ some employment
    pub placed : lookup a.unit_id s.units ≡ some unit
    pub positioned : lookup a.position_id s.positions ≡ some position
    pub person : employment.person_id ≡ a.person_id
    pub of_unit : position.unit_id ≡ a.unit_id
    pub in_employment : interval_contains w.calendar employment.interval a.interval ≡ true
    pub in_unit : interval_contains w.calendar unit.interval a.interval ≡ true
    pub in_position : interval_contains w.calendar position.interval a.interval ≡ true

  check_references-IsSupported :
      (s : Store) (a : Assignment) (e : Option Employment) (u : Option OrganizationUnit)
      (p : Option Position)
      → lookup a.employment_id s.employments ≡ e
      → lookup a.unit_id s.units ≡ u
      → lookup a.position_id s.positions ≡ p
      → check_references w a e u p ≡ ok tt
      → IsSupported s a
  check_references-IsSupported s a (some e) (some u) (some p) f g k h = record {
    employment = e;
    unit = u;
    position = p;
    employed = f;
    placed = g;
    positioned = k;
    person = ground (arith, eq_iff e.person_id a.person_id);
    of_unit = ground (arith, eq_iff p.unit_id a.unit_id);
    in_employment = ground arith;
    in_unit = ground arith;
    in_position = ground arith;
  }
  check_references-IsSupported s a none u p f g k h = cc
  check_references-IsSupported s a (some e) none p f g k h = cc
  check_references-IsSupported s a (some e) (some u) none f g k h = cc

  -- An assignment is created only for an employment of its person, a unit, and a position of that unit
  -- that are in the store and whose intervals contain that of the assignment, which is itself valid;
  -- and the new store is what the commit of that assignment gives.
  pub create_assignment-IsSupported :
      (m : Metadata) (a : Assignment) (s t : Store)
      → create_assignment_fact w m a s ≡ ok t
      → IsSupported s a
        × (interval_entity w a.assignment_id a.interval ≡ ok tt)
        × (commit_write w m "assignment_created" "organization.assignment.created.v1"
              (create_assignment a)
              s
            ≡ ok t)
  unfolding create_assignment_fact
  create_assignment-IsSupported m a s t h =
      let (h₁, k₁) = >>-eq-ok (metadata w m) _ h in
      let (h₂, k₂) = >>-eq-ok (interval_entity w a.assignment_id a.interval) _ k₁ in
      let (h₃, k₃) =
        >>-eq-ok (require_ids w (a.person_id ∷ a.employment_id ∷ a.unit_id ∷ a.position_id ∷ [])) _
          k₂ in
      let (h₄, k₄) =
        >>-eq-ok (authorize w m "assignment_created" "assignment" a.assignment_id) _ k₃ in
      let (h₅, k₅) =
        >>-eq-ok
          (check_references w a (lookup a.employment_id s.employments) (lookup a.unit_id s.units)
            (lookup a.position_id s.positions))
          _ k₄ in
      (check_references-IsSupported s a _ _ _ refl refl refl h₅, h₂, k₅)

  -- At the time, the unit is neither the parent nor above it.
  abbrev pub IsBelow : Store → String → String → String → Type 0
  IsBelow s unit parent at = ¬ (Reaches w.calendar s at parent unit)

  -- The placement begins after the beginning of the interval and before its end.
  abbrev pub begins_during : Interval → Placement → Bool
  begins_during i q =
      before (w.calendar.parse i.from) (w.calendar.parse q.interval.from)
      && begins_before w.calendar (w.calendar.parse q.interval.from) i.to
