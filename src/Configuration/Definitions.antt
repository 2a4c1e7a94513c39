-- ===== src/Configuration/Definitions.antt =====
-- validation.ts: `definition`, the registration of a parameter, and what an accepted one is.
use zsj_crm.Prelude.{
  ℕ, ◌==◌, ◌≤◌, ◌≡◌, refl, sym, ◌∙◌, Bool, true, false, not, ◌&&◌, ◌||◌, Option, some, none, List,
  [], ◌∷◌, String, str_eq, leb, Number, safe_between, safe_between_bounds, any, length, includes,
  Dict, arith, Option-cases, inl, inr,
}
use zsj_crm.Configuration.Facts.{
  invalid_input, Result, ok, fails, ◌>>=◌, ◌>>◌, refuse_if, AllowedScope, MissingPolicy,
  fail_closed, use_default, ValueType, boolean_type, integer_type, number_type, string_type, Schema,
  Definition, Result-cases,
}
use zsj_crm.Configuration.Validation.{
  Value, Platform, RawAllowedScope, RawDefinition, valid_id, valid_value, in_range,
}

abbrev pub type_text : ValueType → String
type_text boolean_type = "boolean"
type_text integer_type = "integer"
type_text number_type = "number"
type_text string_type = "string"

abbrev pub keywords : List String
keywords = "enum" ∷ "maxLength" ∷ "maximum" ∷ "minLength" ∷ "minimum" ∷ []

abbrev pub known_keywords : Dict String → Bool
known_keywords [] = true
known_keywords ((k, v) ∷ d) = includes keywords k && known_keywords d

unfoldable pub check_schema : Schema → ValueType → Result (Unit {0})
check_schema s t =
    refuse_if
      (not (
        known_keywords s.keywords
        && (str_eq s.dialect "https://json-schema.org/draft/2020-12/schema"
            && str_eq s.type_name (type_text t))))
      invalid_input

-- The scopes from the first on, with the priorities and the types that were seen.
unfoldable pub scopes_from :
    List ℕ → List String → List RawAllowedScope → Result (List AllowedScope)
scopes_from priorities types [] = ok []
scopes_from priorities types (r ∷ rs) = do
  priority ← in_range 0 1000 r.priority
  scope_type ← valid_id r.scope_type
  refuse_if (any (λ n. n == priority) priorities || includes types scope_type) invalid_input
  scopes ← scopes_from (priority ∷ priorities) (scope_type ∷ types) rs
  ok (record { priority = priority; scope_type = scope_type } ∷ scopes)

abbrev pub valid_default : Option Value → ValueType → Result (Option Value)
valid_default none t = ok none
valid_default (some v) t = do w ← valid_value v t; ok (some w)

abbrev pub is_empty : List AllowedScope → Bool
is_empty [] = true
is_empty (c ∷ cs) = false

-- A default is there exactly if it is used.
abbrev pub fits_policy : MissingPolicy → Option Value → Bool
fits_policy use_default (some v) = true
fits_policy use_default none = false
fits_policy fail_closed (some v) = false
fits_policy fail_closed none = true

module _ (p : Platform) where
  -- `compile(d)(v)`, which throws for a schema that Ajv refuses.
  abbrev pub accepts : Schema → Value → Result Bool
  accepts s v = elim (p.compile s) [ none ↦ fails invalid_input | some f ↦ ok (f v) ]

  abbrev pub check_default : Schema → Option Value → Result (Unit {0})
  check_default s none = ok tt
  check_default s (some v) = do b ← accepts s v; refuse_if (not b) invalid_input

  -- `definition`
  unfoldable pub valid_definition : RawDefinition → Result (Definition Value)
  valid_definition r = do
    check_schema r.value_schema r.value_type
    refuse_if (not (leb (length r.allowed_scopes) 20)) invalid_input
    scopes ← scopes_from [] [] r.allowed_scopes
    refuse_if (is_empty scopes) invalid_input
    owner_module ← valid_id r.owner_module
    parameter_key ← valid_id r.parameter_key
    default_value ← valid_default r.default_value r.value_type
    refuse_if (not (fits_policy r.missing_policy default_value)) invalid_input
    check_default r.value_schema default_value
    ok (record {
      allowed_scopes = scopes;
      default_value = default_value;
      missing_policy = r.missing_policy;
      owner_module = owner_module;
      parameter_key = parameter_key;
      value_schema = r.value_schema;
      value_type = r.value_type;
    })

-- What a policy asks of a default: one that falls back on it has one, and one that fails has none.
abbrev pub HasDefault : MissingPolicy → Option Value → Type 0
HasDefault use_default o = (v : Value) × (o ≡ some v)
HasDefault fail_closed o = o ≡ none

fits_policy-HasDefault :
    (m : MissingPolicy) (o : Option Value) → fits_policy m o ≡ true → HasDefault m o
fits_policy-HasDefault use_default none h = cc
fits_policy-HasDefault use_default (some v) h = (v, refl)
fits_policy-HasDefault fail_closed none h = refl
fits_policy-HasDefault fail_closed (some v) h = cc

-- No priority and no scope type is among those seen, nor stands twice.
abbrev pub Distinct : List ℕ → List String → List AllowedScope → Type 0
Distinct priorities types [] = Unit
Distinct priorities types (c ∷ cs) =
    (any (λ n. n == c.priority) priorities ≡ false)
    × (includes types c.scope_type ≡ false)
    × (c.priority ≤ 1000)
    × Distinct (c.priority ∷ priorities) (c.scope_type ∷ types) cs

in_range-le : (hi : ℕ) (v : Number) (n : ℕ) → in_range 0 hi v ≡ ok n → n ≤ hi
in_range-le hi v n h = elim (Option-cases (safe_between 0 hi v)) [
  | inl e ↦ ground arith
  | inr (m, e) ↦ let b = (safe_between_bounds 0 hi v m e).1 in ground arith
]

scopes_from-Distinct :
    (priorities : List ℕ) (types : List String) (rs : List RawAllowedScope) (cs : List AllowedScope)
    → scopes_from priorities types rs ≡ ok cs
    → Distinct priorities types cs
unfolding scopes_from
scopes_from-Distinct priorities types [] cs h = let e : cs ≡ [] = ground arith in rw e tt
scopes_from-Distinct priorities types (r ∷ rs) cs h =
    elim (Result-cases (in_range 0 1000 r.priority)) [
      | inr (x, a) ↦ ground arith
      | inl (n, a) ↦ elim (Result-cases (valid_id r.scope_type)) [
        | inr (x, b) ↦ ground arith
        | inl (t, b) ↦ elim (Result-cases (scopes_from (n ∷ priorities) (t ∷ types) rs)) [
          | inr (x, d) ↦ ground arith
          | inl (ds, d) ↦
              let e : cs ≡ record { priority = n; scope_type = t } ∷ ds = ground arith in
              let ih = scopes_from-Distinct (n ∷ priorities) (t ∷ types) rs ds d in
              rw e (ground arith, ground arith, in_range-le 1000 r.priority n a, ih)
        ]
      ]
    ]

module _ (p : Platform) where
  -- The schema compiles to a validator that accepts the value.
  abbrev pub Validates : Schema → Value → Type 0
  Validates s v = (f : Value → Bool) × (p.compile s ≡ some f) × (f v ≡ true)

  -- What is true of a definition that passed the validation.
  pub record IsSound (d : Definition Value) : Type 0 where
    pub distinct : Distinct [] [] d.allowed_scopes
    pub some_scope : ¬ (d.allowed_scopes ≡ [])
    pub policy : HasDefault d.missing_policy d.default_value
    pub default : (v : Value) → d.default_value ≡ some v → Validates d.value_schema v

  check_default-Validates :
      (s : Schema) (o : Option Value) (v : Value)
      → check_default p s o ≡ ok tt
      → o ≡ some v
      → Validates s v
  check_default-Validates s none v h e = cc
  check_default-Validates s (some w) v h e = elim (Option-cases (p.compile s)) [
    | inl f ↦ absurd (ground arith)
    | inr (g, f) ↦ (g, f, ground arith)
  ]

  -- A definition that passes the validation has scopes of distinct types and distinct priorities of at
  -- most 1000, at least one of them, a default if its policy falls back on it and none if its policy
  -- fails, and a default that the validator of its schema accepts.
  pub valid_definition-IsSound :
      (r : RawDefinition) (d : Definition Value) → valid_definition p r ≡ ok d → IsSound d
  unfolding valid_definition
  valid_definition-IsSound r d h = elim (Result-cases (scopes_from [] [] r.allowed_scopes)) [
    | inr (x, a) ↦ ground arith
    | inl (cs, a) ↦ elim (Result-cases (valid_default r.default_value r.value_type)) [
      | inr (x, b) ↦ ground arith
      | inl (o, b) ↦ elim (Result-cases (check_default p r.value_schema o)) [
        | inr (x, c) ↦ ground arith
        | inl (tt, c) ↦
            let e : d.allowed_scopes ≡ cs = ground arith in
            let f : d.default_value ≡ o = ground arith in
            let g : d.value_schema ≡ r.value_schema = ground arith in
            record {
              distinct = rw e (scopes_from-Distinct [] [] r.allowed_scopes cs a);
              some_scope = λ k. let l : cs ≡ [] = sym e ∙ k in absurd (ground arith);
              policy = fits_policy-HasDefault d.missing_policy d.default_value (ground arith);
              default = λ v k. rw g (check_default-Validates r.value_schema o v c (sym f ∙ k));
            }
      ]
    ]
  ]
