-- ===== src/Authorization/Batches.antt =====
-- A single check and a batch of checks agree.
use zsj_crm.Prelude.{
  suc, String, ◌≡◌, ◌∙◌, sym, refl, ◌⊎◌, inl, inr, Bool, true, false, List, [], ◌∷◌, any, arith,
  Bool-cases,
}
use zsj_crm.Authorization.Roles.{PermissionRequest, Grant, Subject, permission_key, has_key, decide}
use zsj_crm.Authorization.Service.{
  Operation, check, batch_check, Decision, Result, ok, err, State, World, M, ◌>>=◌, evaluate,
  listing, snapshot, check_permission, evaluate_all, batch_check_permissions, Error,
}

pub Result-cases :
    {A : Type 0} (r : Result A) → ((a : A) × (r ≡ ok a)) ⊎ ((e : Error) × (r ≡ err e))
Result-cases (ok a) = inl (a, refl)
Result-cases (err e) = inr (e, refl)

-- A first step that gives a result, and then the rest.
pub >>=-ok :
    {A B : Type 0} (m : M A) (f : A → M B) (s : State) (b : B)
    → ((m >>= f) s).1 ≡ ok b
    → (a : A) × ((m s).1 ≡ ok a) × ((f a (m s).0).1 ≡ ok b)
>>=-ok m f s b h = elim (Result-cases (m s).1) [
  | inl (a, e) ↦ (a, e, ground arith)
  | inr (x, e) ↦ absurd (ground arith)
]

module _ (w : World) where
  pub evaluate-ok :
      (u : Subject) (r : PermissionRequest) (o : Operation) (grants : List Grant) (at : String)
      (s : State) (d : Decision)
      → (evaluate w u r o grants at s).1 ≡ ok d
      → d.verdict ≡ decide w.options u r grants
  unfolding evaluate
  evaluate-ok u r o grants at s d h = ground arith

  -- The snapshot that a single check takes.
  abbrev pub approved : PermissionRequest → Bool
  approved r = has_key w.options.approved (permission_key r)

  pub check-ok :
      (u : Subject) (r : PermissionRequest) (s : State) (d : Decision)
      → (check_permission w u r s).1 ≡ ok d
      → (grants : List Grant) × (listing w u (approved r) s.asked ≡ ok grants)
        × (d.verdict ≡ decide w.options u r grants)
  unfolding check_permission
  check-ok u r s d h =
      let at = w.clock s.asked in
      let (g, e, k) =
        >>=-ok (snapshot w u (approved r)) (λ grants. evaluate w u r check grants at) s d h in
      (g, e, evaluate-ok u r check g at (record s { asked = suc s.asked }) d k)

  -- One decision for each request, with the verdict of the snapshot.
  abbrev Verdicts : Subject → List Grant → List PermissionRequest → List Decision → Type 0
  Verdicts u grants [] [] = Unit
  Verdicts u grants (r ∷ rs) (d ∷ ds) =
      (d.verdict ≡ decide w.options u r grants) × Verdicts u grants rs ds
  Verdicts u grants _ _ = ⊥

  evaluate_all-ok :
      (u : Subject) (grants : List Grant) (at : String) (rs : List PermissionRequest) (s : State)
      (ds : List Decision)
      → (evaluate_all w u grants at rs s).1 ≡ ok ds
      → Verdicts u grants rs ds
  unfolding evaluate_all
  evaluate_all-ok u grants at [] s [] h = tt
  evaluate_all-ok u grants at [] s (d ∷ ds) h = cc
  evaluate_all-ok u grants at (r ∷ rs) s [] h = ground arith
  evaluate_all-ok u grants at (r ∷ rs) s (d ∷ ds) h = (
    evaluate-ok u r batch_check grants at s d (ground arith),
    evaluate_all-ok u grants at rs (evaluate w u r batch_check grants at s).0 ds (ground arith),
  )

  -- Each request of the batch has the verdict that a check of its own gives in the state.
  abbrev pub AgreesWithChecks : Subject → State → List PermissionRequest → List Decision → Type 0
  AgreesWithChecks u t [] [] = Unit
  AgreesWithChecks u t (r ∷ rs) (d ∷ ds) =
      ((c : Decision) → (check_permission w u r t).1 ≡ ok c → c.verdict ≡ d.verdict)
      × AgreesWithChecks u t rs ds
  AgreesWithChecks u t _ _ = ⊥

  decide-unapproved :
      (u : Subject) (r : PermissionRequest) (g h : List Grant)
      → approved r ≡ false
      → decide w.options u r g ≡ decide w.options u r h
  unfolding decide
  decide-unapproved u r g h a = rw a

  -- The grant store answers of the subject as it did before.
  abbrev pub SameGrants : Subject → State → State → Type 0
  SameGrants u s t = listing w u true t.asked ≡ listing w u true s.asked

  verdict-check :
      (u : Subject) (r : PermissionRequest) (grants : List Grant) (m : Bool) (s t : State)
      (c : Decision)
      → SameGrants u s t
      → listing w u m s.asked ≡ ok grants
      → (approved r ≡ true → m ≡ true)
      → (check_permission w u r t).1 ≡ ok c
      → c.verdict ≡ decide w.options u r grants
  verdict-check u r grants m s t c same g k h =
      let (own, e, v) = check-ok u r t c h in
      elim (Bool-cases (approved r)) [
        | inl a ↦ cc (same, k a, a, e, v, g)
        | inr a ↦ v ∙ decide-unapproved u r own grants a
      ]

  any-later :
      (r : PermissionRequest) (rs : List PermissionRequest)
      → any approved rs ≡ true
      → any approved (r ∷ rs) ≡ true
  any-later r rs h = ground arith

  Verdicts-agree :
      (u : Subject) (m : Bool) (grants : List Grant) (s t : State) (rs : List PermissionRequest)
      (ds : List Decision)
      → SameGrants u s t
      → listing w u m s.asked ≡ ok grants
      → (any approved rs ≡ true → m ≡ true)
      → Verdicts u grants rs ds
      → AgreesWithChecks u t rs ds
  Verdicts-agree u m grants s t [] [] q g k v = tt
  Verdicts-agree u m grants s t [] (d ∷ ds) q g k v = v
  Verdicts-agree u m grants s t (r ∷ rs) [] q g k v = v
  Verdicts-agree u m grants s t (r ∷ rs) (d ∷ ds) q g k v = (
    λ c h. verdict-check u r grants m s t c q g (λ a. k (rw a refl)) h ∙ sym v.0,
    Verdicts-agree u m grants s t rs ds q g (λ a. k (any-later r rs a)) v.1,
  )

  -- A batch that succeeds has one decision for each request, in order; and in any state in which the
  -- grant store answers of the subject as it did for the batch, each request has the verdict that a
  -- check of its own gives, if that check succeeds.
  pub batch-AgreesWithChecks :
      (u : Subject) (rs : List PermissionRequest) (s t : State) (ds : List Decision)
      → (batch_check_permissions w u rs s).1 ≡ ok ds
      → SameGrants u s t
      → AgreesWithChecks u t rs ds
  unfolding batch_check_permissions
  batch-AgreesWithChecks u rs s t ds h q =
      let at = w.clock s.asked in
      let (g, e, k) =
        >>=-ok (snapshot w u (any approved rs)) (λ grants. evaluate_all w u grants at rs) s ds h in
      Verdicts-agree u (any approved rs) g s t rs ds q e (λ a. a)
        (evaluate_all-ok u g at rs (record s { asked = suc s.asked }) ds k)
