-- ===== src/Authorization/Service.antt =====
-- fixed-roles.ts: the operations of the authorization service. The grant store, the clock, the source
-- of identifiers and the optional decision recorder are outside; the log holds the records that the
-- recorder was given.
use zsj_crm.Prelude.{
  ℕ, suc, Bool, Option, none, some, List, [], ◌∷◌, ◌++◌, String, any, if◌then◌else◌,
}
use zsj_crm.Authorization.Roles.{
  PermissionRequest, Grant, Subject, Options, permission_key, has_key, Verdict, decide,
  is_system_administrator,
}

pub data Operation : Type 0 where
  batch_check check resolve_data_scope : Operation

pub record Decision : Type 0 where
  pub verdict : Verdict
  pub decision_id : String
  pub evaluated_at : String

pub record DecisionRecord : Type 0 where
  pub decision : Decision
  pub operation : Operation
  pub permission : PermissionRequest
  pub selected_assignment_id : Option String
  pub workforce_person_id : String

pub data Error : Type 0 where
  unavailable : Error
  denied : (decision_id : String) → Error

pub data Result {ℓ} (X : Type ℓ) : Type ℓ where
  err : Error → Result X
  ok : X → Result X

pub record State : Type 0 where
  pub log : List DecisionRecord
  pub drawn : ℕ
  -- How often the clock was read, with the grant store after it.
  pub asked : ℕ

-- The other parts. The clock and the grant store may answer otherwise each time, so that they are given
-- by the number of the time.
pub record World : Type 0 where
  pub options : Options
  pub list_active : ℕ → String → String → Result (List Grant)
  pub clock : ℕ → String
  pub identifier : ℕ → String
  -- The recorder, if there is one, and whether it accepts a record.
  pub recorder : Option (DecisionRecord → Bool)

abbrev pub M : Type 0 → Type 0
M A = State → State × Result A

infixl 5 ◌>>=◌
abbrev pub ◌>>=◌ : {A B : Type 0} → M A → (A → M B) → M B
◌>>=◌ m f s = let (s', r) = m s in elim r [ ok a ↦ f a s' | err e ↦ (s', err e) ]

abbrev pub pure : {A : Type 0} → A → M A
pure a s = (s, ok a)

abbrev pub throw : {A : Type 0} → Error → M A
throw e s = (s, err e)

pub data Scope : Type 0 where
  everything : Scope
  assignments : List String → Scope

module _ (w : World) where
  abbrev new_decision : Verdict → String → State → Decision
  new_decision v at s = record {
    verdict = v;
    decision_id = w.identifier s.drawn;
    evaluated_at = at;
  }

  abbrev recorded : DecisionRecord → Option (DecisionRecord → Bool) → M Decision
  recorded r none s = (s, ok r.decision)
  recorded r (some accepts) s =
      (record s { log = s.log ++ r ∷ [] }, if accepts r then ok r.decision else err unavailable)

  -- `evaluate` with its snapshot of the grants and the time of it.
  unfoldable pub evaluate :
      Subject → PermissionRequest → Operation → List Grant → String → M Decision
  evaluate subject request operation grants at s =
      recorded
        (record {
          decision = new_decision (decide w.options subject request grants) at s;
          operation = operation;
          permission = request;
          selected_assignment_id = subject.selected_assignment_id;
          workforce_person_id = subject.workforce_person_id;
        })
        w.recorder (record s { drawn = suc s.drawn })

  abbrev is_approved : PermissionRequest → Bool
  is_approved r = has_key w.options.approved (permission_key r)

  -- What the store answers of the subject's grants; it is asked only if that can matter.
  unfoldable pub listing : Subject → Bool → ℕ → Result (List Grant)
  listing subject matters n =
      if matters then w.list_active n subject.workforce_person_id (w.clock n) else ok []

  -- `clock().toISOString()`
  abbrev pub read_clock : M String
  read_clock s = (s, ok (w.clock s.asked))

  -- `listActive`, for the time that was read last.
  abbrev pub snapshot : Subject → Bool → M (List Grant)
  snapshot subject matters s = (record s { asked = suc s.asked }, listing subject matters s.asked)

  unfoldable pub check_permission : Subject → PermissionRequest → M Decision
  check_permission subject request = do
    at ← read_clock
    grants ← snapshot subject (is_approved request)
    evaluate subject request check grants at

  -- `Promise.all`: every evaluation runs, and the whole fails if one of them does.
  unfoldable pub evaluate_all :
      Subject → List Grant → String → List PermissionRequest → M (List Decision)
  evaluate_all subject grants at [] s = (s, ok [])
  evaluate_all subject grants at (r ∷ rs) s =
      let (s₁, first) = evaluate subject r batch_check grants at s in
      let (s₂, rest) = evaluate_all subject grants at rs s₁ in
      (s₂, elim first [ err e ↦ err e | ok d ↦ elim rest [ err e ↦ err e | ok ds ↦ ok (d ∷ ds) ] ])

  unfoldable pub batch_check_permissions : Subject → List PermissionRequest → M (List Decision)
  batch_check_permissions subject requests = do
    at ← read_clock
    grants ← snapshot subject (any is_approved requests)
    evaluate_all subject grants at requests

  abbrev require : Decision → M Decision
  require d = if d.verdict.is_allowed then pure d else throw (denied d.decision_id)

  unfoldable pub require_allowed : Subject → PermissionRequest → M Decision
  require_allowed subject request = do d ← check_permission subject request; require d

  abbrev pub scope_of : Subject → List Grant → Scope
  scope_of subject grants =
      if any (λ (g : Grant). is_system_administrator g.role_key) grants
      then everything
      else assignments (elim subject.selected_assignment_id [ none ↦ [] | some a ↦ a ∷ [] ])

  unfoldable pub resolve_scope : Subject → PermissionRequest → M (Decision × Option Scope)
  resolve_scope subject request = do
    at ← read_clock
    grants ← snapshot subject (is_approved request)
    d ← evaluate subject request resolve_data_scope grants at
    if d.verdict.is_allowed then pure (d, some (scope_of subject grants)) else pure (d, none)
