-- ===== src/Authorization/Scopes.antt =====
-- What `requireAllowed` and `resolveDataScope` grant.
use zsj_crm.Prelude.{
  ℕ, suc, ◌≡◌, refl, inl, inr, Bool, true, false, Option, none, some, List, [], ◌∷◌, String,
  includes, any, if◌then◌else◌, Any, arith, Bool-cases,
}
use zsj_crm.Authorization.Roles.{
  RoleKey, application_user, crm_administrator, system_administrator, PermissionRequest, Grant,
  Subject, permission_key, decide, is_system_administrator,
}
use zsj_crm.Authorization.Decisions.{Permits, RolePermits, decide_iff}
use zsj_crm.Authorization.Batches.{Result-cases, >>=-ok, check-ok, evaluate-ok, approved}
use zsj_crm.Authorization.Service.{
  resolve_data_scope, Decision, ok, State, World, M, ◌>>=◌, pure, evaluate, listing, snapshot,
  check_permission, require_allowed, resolve_scope, Scope, everything, assignments, scope_of,
}

module _ (w : World) where
  listing-ok :
      (u : Subject) (m : Bool) (n : ℕ) (grants : List Grant)
      → listing w u m n ≡ ok grants
      → m ≡ true
      → w.list_active n u.workforce_person_id (w.clock n) ≡ ok grants
  unfolding listing
  listing-ok u m n grants h t = ground arith

  require-ok :
      (u : Subject) (r : PermissionRequest) (s : State) (d : Decision)
      → (require_allowed w u r s).1 ≡ ok d
      → ((check_permission w u r s).1 ≡ ok d) × (d.verdict.is_allowed ≡ true)
  unfolding require_allowed
  require-ok u r s d h = elim (Result-cases (check_permission w u r s).1) [
    | inl (c, e) ↦ (ground arith, ground arith)
    | inr (x, e) ↦ ground arith
  ]

  -- `requireAllowed` returns only if the key is approved and a grant that is active now permits it.
  pub require_allowed-Permits :
      (u : Subject) (r : PermissionRequest) (s : State) (d : Decision)
      → (require_allowed w u r s).1 ≡ ok d
      → (approved w r ≡ true)
        × ((grants : List Grant) × (w.list_active s.asked u.workforce_person_id (w.clock s.asked)
              ≡ ok grants)
            × Any (Permits w.options u (permission_key r)) grants)
  require_allowed-Permits u r s d h =
      let (checked, yes') = require-ok u r s d h in
      let (grants, e, v) = check-ok w u r s d checked in
      let (known, permitted) = (decide_iff w.options u r grants).0 (rw v at yes') in
      (known, (grants, listing-ok u (approved w r) s.asked grants e known, permitted))

  no_administrator :
      (u : Subject) (key : String) (grants : List Grant)
      → Any (Permits w.options u key) grants
      → any (λ (g : Grant). is_system_administrator g.role_key) grants ≡ false
      → (a : String) × (u.selected_assignment_id ≡ some a)
        × (includes u.active_assignment_ids a ≡ true)
  no_administrator u key [] h f = absurd h
  no_administrator u key (g ∷ gs) (inl h) f = go g.role_key g.assignment_id h (ground arith)
    where
      go :
          (k : RoleKey) (b : Option String)
          → RolePermits w.options u key k b
          → is_system_administrator k ≡ false
          → (a : String) × (u.selected_assignment_id ≡ some a)
            × (includes u.active_assignment_ids a ≡ true)
      go system_administrator b h f = cc
      go application_user none h f = absurd h
      go application_user (some a) h f = (a, h.0, h.1)
      go crm_administrator none h f = absurd h
      go crm_administrator (some a) h f = (a, h.0, h.1)
  no_administrator u key (g ∷ gs) (inr h) f = no_administrator u key gs h (ground arith)

  -- What a scope may cover: everything only for a system administrator, and else exactly the selected
  -- assignment, which is then one of the active ones. A scope is given exactly for an allowed request.
  abbrev pub Covers : Subject → List Grant → Decision → Option Scope → Type 0
  Covers u grants d none = d.verdict.is_allowed ≡ false
  Covers u grants d (some everything) =
      (d.verdict.is_allowed ≡ true)
      × (any (λ (g : Grant). is_system_administrator g.role_key) grants ≡ true)
  Covers u grants d (some (assignments l)) =
      (d.verdict.is_allowed ≡ true)
      × ((a : String) × (l ≡ a ∷ [])
          × (u.selected_assignment_id ≡ some a)
          × (includes u.active_assignment_ids a ≡ true))

  scope-Covers :
      (u : Subject) (r : PermissionRequest) (grants : List Grant) (d : Decision)
      → d.verdict ≡ decide w.options u r grants
      → d.verdict.is_allowed ≡ true
      → Covers u grants d (some (scope_of w u grants))
  scope-Covers u r grants d v a =
      elim (Bool-cases (any (λ (g : Grant). is_system_administrator g.role_key) grants)) [
        | inl e ↦ rw e (a, e)
        | inr e ↦
            let permitted = (decide_iff w.options u r grants).0 (rw v at a) in
            let (b, selected, active) =
              no_administrator u (permission_key r) grants permitted.1 e in
            rw e (a, (b, rw selected refl, selected, active))
      ]

  -- The scope that `resolveDataScope` gives covers no more than its decision and the snapshot of active
  -- grants permit.
  pub resolve_scope-Covers :
      (u : Subject) (r : PermissionRequest) (s : State) (d : Decision) (scope : Option Scope)
      → (resolve_scope w u r s).1 ≡ ok (d, scope)
      → (grants : List Grant) × (listing w u (approved w r) s.asked ≡ ok grants)
        × (d.verdict ≡ decide w.options u r grants)
        × Covers u grants d scope
  unfolding resolve_scope
  resolve_scope-Covers u r s d scope h =
      let at = w.clock s.asked in
      let answer : List Grant → Decision → M (Decision × Option Scope) = λ grants c.
        if c.verdict.is_allowed then pure (c, some (scope_of w u grants)) else pure (c, none) in
      let (g, e, k) =
        >>=-ok (snapshot w u (approved w r))
          (λ grants. evaluate w u r resolve_data_scope grants at >>= answer grants) s (d, scope)
          h in
      let t : State = record s { asked = suc s.asked } in
      let (c, f, l) = >>=-ok (evaluate w u r resolve_data_scope g at) (answer g) t (d, scope) k in
      let v = evaluate-ok w u r resolve_data_scope g at t c f in
      elim (Bool-cases c.verdict.is_allowed) [
        | inl a ↦
            let same : (d ≡ c) × (scope ≡ some (scope_of w u g)) = ground arith in
            (g, e, rw same.0 v, rw (same.0, same.1) (scope-Covers u r g c v a))
        | inr a ↦
            let same : (d ≡ c) × (scope ≡ none) = ground arith in
            (g, e, rw same.0 v, rw (same.0, same.1) a)
      ]
