-- ===== src/Configuration/Facts.antt =====
-- types.ts and errors.ts. Dates are texts in the form of `toISOString`, which are compared as texts.
-- The values of parameters are of any type.
use zsj_crm.Prelude.{
  Dict, ◌≡◌, refl, ◌⊎◌, inl, inr, ℕ, Bool, true, false, Option, List, String, str_eq, ◌&&◌,
}

pub data Error : Type 0 where
  denied invalid_input missing not_found operation_conflict overlap unavailable : Error

pub data Result {ℓ} (X : Type ℓ) : Type ℓ where
  fails : Error → Result X
  ok : X → Result X

infixl 5 ◌>>=◌ ◌>>◌
abbrev pub ◌>>=◌ {ℓ₁ ℓ₂} : {X : Type ℓ₁} {Y : Type ℓ₂} → Result X → (X → Result Y) → Result Y
fails e >>= next = fails e
ok x >>= next = next x

abbrev pub ◌>>◌ {ℓ₂} : {Y : Type ℓ₂} → Result (Unit {0}) → Result Y → Result Y
check >> rest = check >>= λ _. rest

abbrev pub refuse_if : Bool → Error → Result (Unit {0})
refuse_if true e = fails e
refuse_if false e = ok tt

pub record Item : Type 0 where
  pub code : String
  pub enabled : Bool
  pub label : String
  pub order : ℕ

pub record Draft : Type 0 where
  pub dictionary_id : String
  pub items : List Item
  pub owner_module : String
  pub revision : ℕ
  pub updated_at : String

pub record Release : Type 0 where
  pub dictionary_id : String
  pub items : List Item
  pub owner_module : String
  pub content_digest : String
  pub published_at : String
  pub release_version : ℕ

pub record AllowedScope : Type 0 where
  pub priority : ℕ
  pub scope_type : String

pub data MissingPolicy : Type 0 where
  fail_closed use_default : MissingPolicy

pub data ValueType : Type 0 where
  boolean_type integer_type number_type string_type : ValueType

-- `valueSchema`: the keywords other than `$schema` and `type`, with their values as JSON texts.
pub record Schema : Type 0 where
  pub dialect : String
  pub type_name : String
  pub keywords : Dict String

pub record Definition (V : Type 0) : Type 0 where
  pub allowed_scopes : List AllowedScope
  pub default_value : Option V
  pub missing_policy : MissingPolicy
  pub owner_module : String
  pub parameter_key : String
  pub value_schema : Schema
  pub value_type : ValueType

pub record ValueRelease (V : Type 0) : Type 0 where
  pub content_digest : String
  pub parameter_key : String
  pub published_at : String
  pub value : V
  pub value_version : ℕ

pub record Scope : Type 0 where
  pub scope_reference : String
  pub scope_type : String

pub record Activation : Type 0 where
  pub activation_id : String
  pub effective_from : String
  pub effective_to : Option String
  pub parameter_key : String
  pub scope : Scope
  pub value_version : ℕ

pub record Termination : Type 0 where
  pub activation_id : String
  pub effective_to : String
  pub occurred_at : String
  pub parameter_key : String
  pub termination_id : String

pub data EventType : Type 0 where
  activation_changed dictionary_published parameter_published : EventType

pub record Event : Type 0 where
  pub event_id : String
  pub event_type : EventType
  pub occurred_at : String
  pub resource_id : String
  pub version : ℕ

abbrev pub same_scope : Scope → Scope → Bool
same_scope a b = str_eq a.scope_type b.scope_type && str_eq a.scope_reference b.scope_reference

pub Result-cases {ℓ} :
    {X : Type ℓ} (r : Result X) → ((x : X) × (r ≡ ok x)) ⊎ ((e : Error) × (r ≡ fails e))
Result-cases (ok x) = inl (x, refl)
Result-cases (fails e) = inr (e, refl)

-- A chain that succeeds, taken apart.
pub >>=-eq-ok {ℓ₁ ℓ₂} :
    {X : Type ℓ₁} {Y : Type ℓ₂} (r : Result X) (next : X → Result Y) {y : Y}
    → (r >>= next) ≡ ok y
    → (x : X) × (r ≡ ok x) × (next x ≡ ok y)
>>=-eq-ok (ok x) next h = (x, refl, h)
>>=-eq-ok (fails e) next h = cc

pub refuse_if-eq-ok : (b : Bool) (e : Error) {u : Unit {0}} → refuse_if b e ≡ ok u → b ≡ false
refuse_if-eq-ok true e h = cc
refuse_if-eq-ok false e h = refl
