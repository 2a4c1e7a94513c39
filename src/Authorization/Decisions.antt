-- ===== src/Authorization/Decisions.antt =====
-- Who is allowed what, stated without the filter and the sets of the code.
use zsj_crm.Prelude.{
  ◌≡◌, refl, ◌↔◌, inl, inr, true, false, Option, none, some, List, String, eq_iff, includes, any,
  Any, Any-map, any-select_iff, arith, Bool-cases, select,
}
use zsj_crm.Authorization.Roles.{
  RoleKey, application_user, crm_administrator, system_administrator, PermissionRequest, Grant,
  Subject, Options, permission_key, has_key, same_assignment, applies_to, role_allows,
  is_applicable, grant_allows, allowed, unknown_permission, decide,
}

-- A grant of a role permits a key: a system administrator everywhere; the other roles through the
-- assignment of the grant, which the subject has selected and which is active, and by their bundle.
abbrev pub RolePermits : Options → Subject → String → RoleKey → Option String → Type 0
RolePermits o s key system_administrator a = Unit
RolePermits o s key application_user none = ⊥
RolePermits o s key application_user (some a) =
    (s.selected_assignment_id ≡ some a)
    × (includes s.active_assignment_ids a ≡ true)
    × (has_key o.application key ≡ true)
RolePermits o s key crm_administrator none = ⊥
RolePermits o s key crm_administrator (some a) =
    (s.selected_assignment_id ≡ some a)
    × (includes s.active_assignment_ids a ≡ true)
    × (has_key o.administrator key ≡ true)

abbrev pub Permits : Options → Subject → String → Grant → Type 0
Permits o s key g = RolePermits o s key g.role_key g.assignment_id

same_assignment_iff : (a : String) (b : Option String) → (same_assignment a b ≡ true) ↔ (b ≡ some a)
same_assignment_iff a none = ground arith
same_assignment_iff a (some b) = ground (arith, eq_iff a b)

role_iff :
    (o : Options) (s : Subject) (key : String) (r : RoleKey) (a : Option String)
    → ((applies_to s r a ≡ true) × (role_allows o key r ≡ true)) ↔ RolePermits o s key r a
role_iff o s key system_administrator a = ground arith
role_iff o s key application_user none = ground arith
role_iff o s key application_user (some a) =
    grind (arith, same_assignment_iff a s.selected_assignment_id)
role_iff o s key crm_administrator none = ground arith
role_iff o s key crm_administrator (some a) =
    grind (arith, same_assignment_iff a s.selected_assignment_id)

Permits-iff :
    (o : Options) (s : Subject) (key : String) (g : Grant)
    → ((is_applicable s g ≡ true) × (grant_allows o key g ≡ true)) ↔ Permits o s key g
unfolding is_applicable grant_allows
Permits-iff o s key g = role_iff o s key g.role_key g.assignment_id

grants_iff :
    (o : Options) (s : Subject) (key : String) (grants : List Grant)
    → (any (grant_allows o key) (select (is_applicable s) grants) ≡ true)
      ↔ Any (Permits o s key) grants
grants_iff o s key grants =
    let (to, from) = any-select_iff (grant_allows o key) (is_applicable s) grants in
    (
      λ h. Any-map _ (Permits o s key) (λ g. (Permits-iff o s key g).0) grants (to h),
      λ h. from (Any-map (Permits o s key) _ (λ g. (Permits-iff o s key g).1) grants h),
    )

-- A request is allowed exactly when its key is an approved permission and some grant of the snapshot
-- permits it.
pub decide_iff :
    (o : Options) (s : Subject) (r : PermissionRequest) (grants : List Grant)
    → ((decide o s r grants).is_allowed ≡ true) ↔ (
        (has_key o.approved (permission_key r) ≡ true)
        × Any (Permits o s (permission_key r)) grants)
unfolding decide
decide_iff o s r grants = elim (Bool-cases (has_key o.approved (permission_key r))) [
  | inl e ↦ rw e (
    λ h. (refl, (grants_iff o s (permission_key r) grants).0 h),
    λ h. (grants_iff o s (permission_key r) grants).1 h.1,
  )
  | inr e ↦ rw e (λ h. cc, λ h. cc)
]

-- The reason always says what was decided: `allowed` exactly for what is allowed, and
-- `unknown_permission` exactly for a key that is not approved.
pub decide-reason :
    (o : Options) (s : Subject) (r : PermissionRequest) (grants : List Grant)
    → (((decide o s r grants).reason ≡ allowed) ↔ ((decide o s r grants).is_allowed ≡ true))
      × (((decide o s r grants).reason ≡ unknown_permission)
          ↔ (has_key o.approved (permission_key r) ≡ false))
unfolding decide
decide-reason o s r grants =
    ((λ h. ground arith, λ h. ground arith), (λ h. ground arith, λ h. ground arith))
