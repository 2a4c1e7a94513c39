-- ===== src/Organization/Store/Commits.antt =====
-- Committed facts are never lost or changed, except that an open end may be set once.
use zsj_crm.Prelude.{◌≡◌, refl, subst, inl, inr, Bool, arith, Dict, lookup, insert, Option-cases}
use zsj_crm.Organization.Facts.{
  Result, ok, err, ◌>>=◌, ◌>>◌, Result-cases, Employment, Assignment, Placement, OrganizationUnit,
  Calendar,
}
use zsj_crm.Organization.Store.{
  Store, Commit, Write, create_person, create_employment, create_unit, create_placement,
  create_position, create_assignment, close, close_assignment, close_employment, close_placement,
  apply, commit, insert_new, assert_absent, close_record, with_employment, with_assignment,
  with_placement,
}
use zsj_crm.Organization.Store.History.{
  Preserves, Preserves-refl, Preserves-insert_new, Preserves-close, insert_new-absent, Keeps,
  Keeps-insert_new,
}

-- The second store holds every fact of the first: facts without an end unchanged, and facts with an
-- interval unchanged but for an end that was open.
pub record Later (s t : Store) : Type 0 where
  pub people : Keeps s.people t.people
  pub units : Keeps s.units t.units
  pub positions : Keeps s.positions t.positions
  pub employments :
      Preserves (λ (v : Employment). v.interval) with_employment s.employments t.employments
  pub assignments :
      Preserves (λ (v : Assignment). v.interval) with_assignment s.assignments t.assignments
  pub placements :
      Preserves (λ (v : Placement). v.interval) with_placement s.placements t.placements

same_employments :
    (a : Dict Employment) → Preserves (λ (v : Employment). v.interval) with_employment a a
same_employments a = Preserves-refl (λ v. v.interval) with_employment (λ v. refl) (λ v i. refl) a

same_assignments :
    (a : Dict Assignment) → Preserves (λ (v : Assignment). v.interval) with_assignment a a
same_assignments a = Preserves-refl (λ v. v.interval) with_assignment (λ v. refl) (λ v i. refl) a

same_placements :
    (a : Dict Placement) → Preserves (λ (v : Placement). v.interval) with_placement a a
same_placements a = Preserves-refl (λ v. v.interval) with_placement (λ v. refl) (λ v i. refl) a

Later-refl : (s : Store) → Later s s
Later-refl s = record {
  people = λ k v h. h;
  units = λ k v h. h;
  positions = λ k v h. h;
  employments = same_employments s.employments;
  assignments = same_assignments s.assignments;
  placements = same_placements s.placements;
}

Later-then :
    {A : Type 0} (s t : Store) (r : Result A) (f : A → Store)
    → ((a : A) → r ≡ ok a → Later s (f a))
    → (r >>= λ a. ok (f a)) ≡ ok t
    → Later s t
Later-then s t (ok a) f g h = subst (Later s) (ground arith) (g a refl)
Later-then s t (err e) f g h = cc

Later-unit :
    (s t : Store) (u : OrganizationUnit) (p : Placement)
    → (assert_absent s.units u.unit_id
        >> (assert_absent s.placements p.placement_id
            >> ok (record s {
              units = insert u.unit_id u s.units;
              placements = insert p.placement_id p s.placements;
            })))
      ≡ ok t
    → Later s t
Later-unit s t u p h = elim (Result-cases (assert_absent s.units u.unit_id)) [
  | inr (x, e) ↦ ground arith
  | inl (a, e) ↦ elim (Result-cases (assert_absent s.placements p.placement_id)) [
    | inr (x, f) ↦ ground arith
    | inl (b, f) ↦
        let q : t ≡ record s {
          units = insert u.unit_id u s.units;
          placements = insert p.placement_id p s.placements;
        } =
          ground arith in
        rw q (record {
          people = λ k v h. h;
          units =
              Keeps-insert_new s.units (insert u.unit_id u s.units) u.unit_id u
                (insert_new-absent s.units u.unit_id u a e);
          positions = λ k v h. h;
          employments = same_employments s.employments;
          assignments = same_assignments s.assignments;
          placements =
              Preserves-insert_new (λ v. v.interval) with_placement (λ v. refl) (λ v i. refl)
                s.placements (insert p.placement_id p s.placements) p.placement_id p
                (insert_new-absent s.placements p.placement_id p b f);
        })
  ]
]

module _ (c : Calendar) where
  apply-Later : (w : Write) (s t : Store) → apply c w s ≡ ok t → Later s t
  unfolding apply
  apply-Later (create_person p) s t h =
      Later-then s t (insert_new s.people p.person_id p) (λ a. record s { people = a })
        (λ a e. record {
          people = Keeps-insert_new s.people a p.person_id p e;
          units = λ k v h. h;
          positions = λ k v h. h;
          employments = same_employments s.employments;
          assignments = same_assignments s.assignments;
          placements = same_placements s.placements;
        })
        h
  apply-Later (create_employment p) s t h =
      Later-then s t (insert_new s.employments p.employment_id p)
        (λ a. record s { employments = a })
        (λ a e. record {
          people = λ k v h. h;
          units = λ k v h. h;
          positions = λ k v h. h;
          employments =
              Preserves-insert_new (λ v. v.interval) with_employment (λ v. refl) (λ v i. refl)
                s.employments a p.employment_id p e;
          assignments = same_assignments s.assignments;
          placements = same_placements s.placements;
        })
        h
  apply-Later (create_unit u p) s t h = Later-unit s t u p h
  apply-Later (create_placement p) s t h =
      Later-then s t (insert_new s.placements p.placement_id p) (λ a. record s { placements = a })
        (λ a e. record {
          people = λ k v h. h;
          units = λ k v h. h;
          positions = λ k v h. h;
          employments = same_employments s.employments;
          assignments = same_assignments s.assignments;
          placements =
              Preserves-insert_new (λ v. v.interval) with_placement (λ v. refl) (λ v i. refl)
                s.placements a p.placement_id p e;
        })
        h
  apply-Later (create_position p) s t h =
      Later-then s t (insert_new s.positions p.position_id p) (λ a. record s { positions = a })
        (λ a e. record {
          people = λ k v h. h;
          units = λ k v h. h;
          positions = Keeps-insert_new s.positions a p.position_id p e;
          employments = same_employments s.employments;
          assignments = same_assignments s.assignments;
          placements = same_placements s.placements;
        })
        h
  apply-Later (create_assignment p) s t h =
      Later-then s t (insert_new s.assignments p.assignment_id p)
        (λ a. record s { assignments = a })
        (λ a e. record {
          people = λ k v h. h;
          units = λ k v h. h;
          positions = λ k v h. h;
          employments = same_employments s.employments;
          assignments =
              Preserves-insert_new (λ v. v.interval) with_assignment (λ v. refl) (λ v i. refl)
                s.assignments a p.assignment_id p e;
          placements = same_placements s.placements;
        })
        h
  apply-Later (close close_assignment id to person) s t h =
      Later-then s t
        (close_record c (λ (v : Assignment). v.interval) with_assignment s.assignments id to)
        (λ a. record s { assignments = a })
        (λ a e. record {
          people = λ k v h. h;
          units = λ k v h. h;
          positions = λ k v h. h;
          employments = same_employments s.employments;
          assignments =
              Preserves-close (λ v. v.interval) with_assignment (λ v. refl) (λ v i. refl) c
                s.assignments a id to e;
          placements = same_placements s.placements;
        })
        h
  apply-Later (close close_employment id to person) s t h =
      Later-then s t
        (close_record c (λ (v : Employment). v.interval) with_employment s.employments id to)
        (λ a. record s { employments = a })
        (λ a e. record {
          people = λ k v h. h;
          units = λ k v h. h;
          positions = λ k v h. h;
          employments =
              Preserves-close (λ v. v.interval) with_employment (λ v. refl) (λ v i. refl) c
                s.employments a id to e;
          assignments = same_assignments s.assignments;
          placements = same_placements s.placements;
        })
        h
  apply-Later (close close_placement id to person) s t h =
      Later-then s t
        (close_record c (λ (v : Placement). v.interval) with_placement s.placements id to)
        (λ a. record s { placements = a })
        (λ a e. record {
          people = λ k v h. h;
          units = λ k v h. h;
          positions = λ k v h. h;
          employments = same_employments s.employments;
          assignments = same_assignments s.assignments;
          placements =
              Preserves-close (λ v. v.interval) with_placement (λ v. refl) (λ v i. refl) c
                s.placements a id to e;
        })
        h

  -- A successful commit loses no person, unit or position, and changes an employment, an assignment
  -- or a placement at most by setting an end that was open.
  pub commit-Later :
      (m : Commit) (s t : Store) (replayed : Bool) → commit c m s ≡ ok (t, replayed) → Later s t
  unfolding commit
  commit-Later m s t b h = elim (Option-cases (lookup m.operation_id s.operations)) [
    | inr (f, e) ↦ subst (Later s) (ground arith) (Later-refl s)
    | inl e ↦ elim (Result-cases (apply c m.write s)) [
      | inr (x, a) ↦ ground arith
      | inl (u, a) ↦
          let q : t ≡ record u { operations = insert m.operation_id m.fingerprint u.operations } =
            ground arith in
          let l : Later s u = apply-Later m.write s u a in
          rw q (record {
            people = l.people;
            units = l.units;
            positions = l.positions;
            employments = l.employments;
            assignments = l.assignments;
            placements = l.placements;
          })
    ]
  ]
