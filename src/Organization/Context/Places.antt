-- ===== src/Organization/Context/Places.antt =====
-- What the resolved context of a person says.
use zsj_crm.Prelude.{
  ◌≡◌, refl, Bool-cases, inl, inr, true, ◌&&◌, Option, none, some, List, [], ◌∷◌, String, str_eq,
  eq_iff, arith, All, Any, All-select, All-select_keep, All-map_implies, lookup, select, map,
  includes, values,
}
use zsj_crm.Prelude.Members.{All-Any_self}
use zsj_crm.Organization.Facts.{
  ok, >>-eq-ok, Result-cases, require_id, Assignment, OrganizationUnit, Position, is_active,
}
use zsj_crm.Organization.Store.{Store, list_active_assignments, list_active_employments}
use zsj_crm.Organization.Service.{Platform}
use zsj_crm.Organization.Context.{
  PersonContext, reference, exactly_one, chosen, check_place, check_path, check_paths,
  employment_ids, employed_assignments, resolve_workforce_person_context,
}

module _ (w : Platform) where
  exactly_one-eq : (as' bs : List Assignment) → exactly_one w as' ≡ ok bs → bs ≡ as'
  exactly_one-eq [] bs h = cc
  exactly_one-eq (a ∷ []) bs h = ground arith
  exactly_one-eq (a ∷ b ∷ as') bs h = cc

  chosen-All :
      (P : Assignment → Type 0) (o : Option String) (as' bs : List Assignment)
      → All P as'
      → chosen w o as' ≡ ok bs
      → All P bs
  chosen-All P none as' bs p h = let e : bs ≡ as' = ground arith in rw e p
  chosen-All P (some id) as' bs p h = elim (Bool-cases (str_eq id "")) [
    | inl f ↦ (let e : bs ≡ as' = ground arith in rw e p)
    | inr f ↦
        let k =
          >>-eq-ok (require_id id)
            (exactly_one w (select (λ (a : Assignment). str_eq a.assignment_id id) as')) {y = bs}
            (ground arith) in
        rw (exactly_one-eq _ bs k.1)
          (All-select_keep P (λ (a : Assignment). str_eq a.assignment_id id) as' p)
  ]

  -- The assignment is of the person and active at the time.
  abbrev pub IsHeld : String → String → Assignment → Type 0
  IsHeld person at a = (a.person_id ≡ person) × (is_active w.calendar a.interval at ≡ true)

  -- The assignment is one of those in the store.
  abbrev pub IsStored : Store → Assignment → Type 0
  IsStored s a = Any (λ (b : Assignment). b ≡ a) (values s.assignments)

  listed-IsStored :
      (s : Store) (person at : String)
      → All (IsStored s) (list_active_assignments w.calendar s person at)
  unfolding list_active_assignments
  listed-IsStored s person at =
      All-select_keep (IsStored s) _ (values s.assignments) (All-Any_self (values s.assignments))

  -- Its unit and its position are in the store and active at the time, and the position is of the unit.
  abbrev pub HasPlace : Store → String → Assignment → Type 0
  HasPlace s at a =
      (u : OrganizationUnit) × (p : Position) × (lookup a.unit_id s.units ≡ some u)
      × (lookup a.position_id s.positions ≡ some p)
      × (p.unit_id ≡ a.unit_id)
      × (is_active w.calendar u.interval at ≡ true)
      × (is_active w.calendar p.interval at ≡ true)

  check_place-HasPlace :
      (s : Store) (at : String) (a : Assignment) (u : Option OrganizationUnit) (p : Option Position)
      → lookup a.unit_id s.units ≡ u
      → lookup a.position_id s.positions ≡ p
      → check_place w at a.unit_id u p ≡ ok tt
      → HasPlace s at a
  check_place-HasPlace s at a none p f g h = cc
  check_place-HasPlace s at a (some u) none f g h = cc
  check_place-HasPlace s at a (some u) (some p) f g h =
      (u, p, f, g, ground (arith, eq_iff p.unit_id a.unit_id), ground arith, ground arith)

  check_paths-All :
      (s : Store) (at : String) (as' : List Assignment)
      → check_paths w s at as' ≡ ok tt
      → All (HasPlace s at) as'
  check_paths-All s at [] h = tt
  check_paths-All s at (a ∷ as') h =
      let (first, rest) = >>-eq-ok (check_path w s at a) _ h in
      let place =
        >>-eq-ok
          (check_place w at a.unit_id (lookup a.unit_id s.units) (lookup a.position_id s.positions))
          _ first in
      (check_place-HasPlace s at a _ _ refl refl place.0, check_paths-All s at as' rest)

  listed-IsHeld :
      (s : Store) (person at : String)
      → All (IsHeld person at) (list_active_assignments w.calendar s person at)
  unfolding list_active_assignments
  listed-IsHeld s person at =
      All-map_implies
        (λ (v : Assignment).
          (str_eq v.person_id person && is_active w.calendar v.interval at) ≡ true)
        (IsHeld person at) (λ v h. (ground (arith, eq_iff v.person_id person), ground arith))
        (select (λ v. str_eq v.person_id person && is_active w.calendar v.interval at)
          (values s.assignments))
        (All-select (λ v. str_eq v.person_id person && is_active w.calendar v.interval at)
          (values s.assignments))

  -- A resolved context is for the given person and time, and its assignments are those of stored ones
  -- that are the person's and active at that time, each with a stored unit and a stored position of
  -- that unit that are active then.
  pub resolve-HasPlace :
      (person at : String) (o : Option String) (s : Store) (x : PersonContext)
      → resolve_workforce_person_context w person at o s ≡ ok x
      → (x.person_id ≡ person)
        × (x.resolved_at ≡ at)
        × ((as' : List Assignment) × (x.assignments ≡ map reference as')
            × All (IsStored s) as'
            × All (IsHeld person at) as'
            × All (HasPlace s at) as')
  unfolding resolve_workforce_person_context
  resolve-HasPlace person at o s x h =
      let employments = list_active_employments w.calendar s person at in
      let listed = employed_assignments w s person at (employment_ids w employments) in
      let held =
        All-select_keep (IsHeld person at)
          (λ (a : Assignment). includes (employment_ids w employments) a.employment_id) _
          (listed-IsHeld s person at) in
      let stored =
        All-select_keep (IsStored s)
          (λ (a : Assignment). includes (employment_ids w employments) a.employment_id) _
          (listed-IsStored s person at) in
      elim (Result-cases (chosen w o listed)) [
        | inr (e, f) ↦ ground arith
        | inl (as', f) ↦ elim (Result-cases (check_paths w s at as')) [
          | inr (e, g) ↦ ground arith
          | inl (u, g) ↦ (
            ground arith,
            ground arith,
            (
              as',
              ground arith,
              chosen-All (IsStored s) o listed as' stored f,
              chosen-All (IsHeld person at) o listed as' held f,
              check_paths-All s at as' g,
            ),
          )
        ]
      ]
