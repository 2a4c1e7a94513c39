-- ===== src/Organization/Hierarchy/Walk.antt =====
-- The walk ends, and where it ends well, the units above are a path without repetition.
use zsj_crm.Prelude.{
  ℕ, zero, suc, ◌≤◌, ◌<◌, ◌≡◌, ◌≢◌, refl, sym, ap, subst, ◌∙◌, Bool, ◌&&◌, select, values, All, inl,
  inr, Bool-cases, Option-cases, true, false, Option, none, some, List, [], ◌∷◌, String, str_eq,
  eq_iff, arith, if◌then◌else◌, includes, is_some, length, Dict, lookup,
}
use zsj_crm.Prelude.Members.{All-lookup, All-select_inv}
use zsj_crm.Organization.Facts.{
  ok, ◌>>◌, >>-eq-ok, Result-cases, OrganizationUnit, Placement, Calendar, is_active,
}
use zsj_crm.Organization.Store.{Store, list_active_placements}
use zsj_crm.Organization.Hierarchy.{
  parent_at, walk, finished, enough, active_unit, sole, assert_no_hierarchy_cycle_at,
}

module _ {V : Type 0} where
  -- How many keys were not visited.
  unvisited : List String → Dict V → ℕ
  unvisited visited [] = 0
  unvisited visited ((k, v) ∷ m) =
      let rest = unvisited visited m in if includes visited k then rest else suc rest

  unvisited-length : (visited : List String) (m : Dict V) → unvisited visited m ≤ length m
  unfolding unvisited
  unvisited-length visited [] = omega arith
  unvisited-length visited ((k, v) ∷ m) = ground (arith, unvisited-length visited m)

  unvisited_mono :
      (visited : List String) (u : String) (m : Dict V)
      → unvisited (u ∷ visited) m ≤ unvisited visited m
  unfolding unvisited
  unvisited_mono visited u [] = omega arith
  unvisited_mono visited u ((k, v) ∷ m) = ground (arith, unvisited_mono visited u m)

  unvisited-lt :
      (visited : List String) (u : String) (m : Dict V)
      → includes visited u ≡ false
      → is_some (lookup u m) ≡ true
      → unvisited (u ∷ visited) m < unvisited visited m
  unfolding unvisited lookup
  unvisited-lt visited u [] h k = cc
  unvisited-lt visited u ((j, v) ∷ m) h k =
      ground (arith, unvisited_mono visited u m, unvisited-lt visited u m h, eq_iff j u, eq_iff u j)

module _ (c : Calendar) (s : Store) where
  parent_at-exists :
      (at u : String) (p : Option String)
      → parent_at c s at u ≡ ok p
      → is_some (lookup u s.units) ≡ true
  unfolding parent_at
  parent_at-exists at u p h = exists (lookup u s.units) h
    where
      exists :
          (o : Option OrganizationUnit)
          → (active_unit c at o >> sole (list_active_placements c s u at)) ≡ ok p
          → is_some o ≡ true
      exists none h = cc
      exists (some v) h = refl

  -- The walk never runs out of fuel, when there is more than units that were not visited.
  walk-ends :
      (at : String) (fuel : ℕ) (visited : List String) (o : Option String)
      → unvisited visited s.units < fuel
      → is_some (walk c s at fuel visited o) ≡ true
  unfolding walk
  walk-ends at zero visited o h = ground arith
  walk-ends at (suc left) visited none h = refl
  walk-ends at (suc left) visited (some u) h = elim (Bool-cases (str_eq u "")) [
    | inl e ↦ rw e refl
    | inr e ↦ elim (Bool-cases (includes visited u)) [
      | inl f ↦ rw (e, f) refl
      | inr f ↦ elim (Result-cases (parent_at c s at u)) [
        | inr (x, g) ↦ rw (e, f, g) refl
        | inl (p, g) ↦
            rw (e, f, g)
              (walk-ends at left (u ∷ visited) p
                (omega (arith, unvisited-lt visited u s.units f (parent_at-exists at u p g), h)))
      ]
    ]
  ]

  -- The placement is stored, of the unit, and active at the time.
  abbrev pub Places : String → String → Placement → Type 0
  Places at u q =
      (id : String) × (lookup id s.placements ≡ some q)
      × (q.unit_id ≡ u)
      × (is_active c q.interval at ≡ true)

  -- `Reaches at u v`: at the time, `v` is `u`, or stands above it by placements that are active.
  pub data Reaches (at : String) : String → String → Type 0 where
    here : (u : String) → Reaches at u u
    up :
        (u p v : String) (q : Placement)
        → Places at u q
        → q.parent_id ≡ some p
        → p ≢ ""
        → Reaches at p v
        → Reaches at u v

  abbrev places : String → String → Placement → Bool
  places at u q = str_eq q.unit_id u && is_active c q.interval at

  -- The unit is stored and active at the time, and of the stored placements one alone is of that unit
  -- and active then.
  pub record IsPlaced (at u : String) : Type 0 where
    pub unit : OrganizationUnit
    pub placement : Placement
    pub stored : lookup u s.units ≡ some unit
    pub active : is_active c unit.interval at ≡ true
    pub alone :
        select
          (λ (q : Placement). str_eq q.unit_id u && is_active c q.interval at)
          (values s.placements)
        ≡ placement ∷ []

  active_unit-ok :
      (at : String) (o : Option OrganizationUnit)
      → active_unit c at o ≡ ok tt
      → (x : OrganizationUnit) × (o ≡ some x) × (is_active c x.interval at ≡ true)
  active_unit-ok at none h = cc
  active_unit-ok at (some x) h = (x, refl, ground arith)

  sole-ok :
      (qs : List Placement) (p : Option String)
      → sole qs ≡ ok p
      → (q : Placement) × (qs ≡ q ∷ []) × (q.parent_id ≡ p)
  sole-ok [] p h = cc
  sole-ok (q ∷ []) p h = (q, refl, ground arith)
  sole-ok (q ∷ r ∷ qs) p h = cc

  -- What a turn of the loop says of the unit: it is placed, and the parent is that of its placement.
  parent_at-IsPlaced :
      (at u : String) (p : Option String)
      → parent_at c s at u ≡ ok p
      → (x : IsPlaced at u) × (x.placement.parent_id ≡ p)
  unfolding parent_at list_active_placements
  parent_at-IsPlaced at u p h =
      let (a, b) = >>-eq-ok (active_unit c at (lookup u s.units)) _ h in
      let (x, e, f) = active_unit-ok at (lookup u s.units) a in
      let (q, g, k) = sole-ok (list_active_placements c s u at) p b in
      (record { unit = x; placement = q; stored = e; active = f; alone = g }, k)

  -- An active placement of a placed unit is the one that it has.
  Places-alone :
      (at u : String) (x : IsPlaced at u) (q : Placement) → Places at u q → q ≡ x.placement
  Places-alone at u x q (id, e, f, g) =
      let d : str_eq q.unit_id u ≡ true = (eq_iff q.unit_id u).1 f in
      All-lookup (λ r. places at u r ≡ true → r ≡ x.placement) s.placements id q
        (All-select_inv (λ r. r ≡ x.placement) (places at u) (values s.placements)
          (subst (All (λ r. r ≡ x.placement)) (sym x.alone) (refl, tt)))
        e (ground arith)

  walk-new :
      (at : String) (fuel : ℕ) (visited : List String) (u v : String)
      → u ≢ ""
      → Reaches at u v
      → walk c s at fuel visited (some u) ≡ some (ok tt)
      → (includes visited v ≡ false) × IsPlaced at v
  unfolding walk
  walk-new at zero visited u v n r h = cc
  walk-new at (suc left) visited u _ n (here _) h = elim (Result-cases (parent_at c s at u)) [
    | inr (x, g) ↦ ground (arith, eq_iff u "")
    | inl (p, g) ↦ (ground (arith, eq_iff u ""), (parent_at-IsPlaced at u p g).0)
  ]
  walk-new at (suc left) visited u v n (up _ p _ q a b m r) h =
      elim (Result-cases (parent_at c s at u)) [
        | inr (x, g) ↦ ground (arith, eq_iff u "")
        | inl (o, g) ↦
            let (x, f) = parent_at-IsPlaced at u o g in
            let same : q ≡ x.placement = Places-alone at u x q a in
            let e : o ≡ some p = sym f ∙ ap (λ (z : Placement). z.parent_id) (sym same) ∙ b in
            let g' : parent_at c s at u ≡ ok (some p) = rw e at g in
            let (new, known) =
              walk-new at left (u ∷ visited) p v m r (ground (arith, eq_iff u "")) in
            (ground (arith, eq_iff u v), known)
      ]

  finished-ok :
      (at : String) (fuel : ℕ) (visited : List String) (o : Option String)
      → finished c s (walk c s at fuel visited o) ≡ ok tt
      → walk c s at fuel visited o ≡ some (ok tt)
  finished-ok at fuel visited o h = elim (Option-cases (walk c s at fuel visited o)) [
    | inl e ↦ ground arith
    | inr (r, e) ↦ ground arith
  ]

  -- The fuel that the checks of the hierarchy give the walk is enough, from any unit, with or without
  -- a unit that was visited before.
  pub walk-is_some :
      (at : String) (visited : List String) (o : Option String)
      → is_some (walk c s at (enough c s) visited o) ≡ true
  walk-is_some at visited o =
      walk-ends at (enough c s) visited o (omega (arith, unvisited-length visited s.units))

  -- If `#assertNoHierarchyCycleAt` does not throw for a parent that is not the empty text, the unit is
  -- neither the parent nor above it at that time, by placements that are stored and active then; and the
  -- parent and every unit above it is stored and active, with exactly one active placement.
  pub no_cycle :
      (unit parent at v : String)
      → assert_no_hierarchy_cycle_at c s unit parent at ≡ ok tt
      → parent ≢ ""
      → Reaches at parent v
      → (v ≢ unit) × IsPlaced at v
  unfolding assert_no_hierarchy_cycle_at
  no_cycle unit parent at v h n r =
      let (new, known) =
        walk-new at (enough c s) (unit ∷ []) parent v n r
          (finished-ok at (enough c s) (unit ∷ []) (some parent) h) in
      (ground (arith, eq_iff unit v), known)
