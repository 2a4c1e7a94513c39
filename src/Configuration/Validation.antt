-- ===== src/Configuration/Validation.antt =====
-- validation.ts of the business configuration: what a command, a dictionary's items, a parameter's
-- definition, a scope and a value must look like. The inputs have the shapes of types.ts, so a check
-- of the shape itself is not repeated; numbers and texts are any. The parsing of dates and the
-- validators that Ajv compiles are parameters.
use Prim.Native.Char.{code}
use zsj_crm.Prelude.{
  ℕ, ◌+◌, ◌==◌, Bool, true, false, not, ◌&&◌, ◌||◌, Option, some, none, List, [], ◌∷◌, zero, suc,
  String, str_eq, leb, if◌then◌else◌, any, all, length, includes, Number, safe_between, safe_from,
  max_safe_integer,
}
use zsj_crm.Prelude.Text.{Text, is_lower, is_upper, is_digit, matches_pattern}
use zsj_crm.Configuration.Facts.{
  invalid_input, Result, ok, fails, ◌>>=◌, ◌>>◌, refuse_if, Item, MissingPolicy, ValueType,
  boolean_type, integer_type, number_type, string_type, Schema, Scope,
}

-- A value of a parameter. `natural n` is the integer n and `negative n` is -(n + 1), `fraction b` is a
-- finite number that is no integer, by its bits, and `not_finite` is an infinity or NaN.
pub data Value : Type 0 where
  boolean : Bool → Value
  natural negative fraction : ℕ → Value
  not_finite : Value
  text : String → Value

abbrev pub same_bool : Bool → Bool → Bool
same_bool true b = b
same_bool false b = not b

-- `a === b`, for values that are finite.
abbrev pub same_value : Value → Value → Bool
same_value (boolean a) (boolean b) = same_bool a b
same_value (natural a) (natural b) = a == b
same_value (negative a) (negative b) = a == b
same_value (fraction a) (fraction b) = a == b
same_value (text a) (text b) = str_eq a b
same_value _ _ = false

pub data ActorType : Type 0 where
  authenticated_subject system : ActorType

pub record Actor : Type 0 where
  pub actor_id : String
  pub actor_type : ActorType
  pub assignment_id : Option String

-- `ConfigurationMetadata`
pub record Metadata : Type 0 where
  pub actor : Actor
  pub operation_id : String
  pub reason : String
  pub trace_id : String

pub record Decision : Type 0 where
  pub allowed : Bool
  pub decision_id : String

pub record RawItem : Type 0 where
  pub code : String
  pub enabled : Bool
  pub label : String
  pub order : Number

pub record RawAllowedScope : Type 0 where
  pub priority : Number
  pub scope_type : String

pub record RawDefinition : Type 0 where
  pub allowed_scopes : List RawAllowedScope
  pub default_value : Option Value
  pub missing_policy : MissingPolicy
  pub owner_module : String
  pub parameter_key : String
  pub value_schema : Schema
  pub value_type : ValueType

-- What stands outside: whether a text is a date in the form of `toISOString`, the lower-case text,
-- and Ajv, which has no validator for a schema that it refuses.
pub record Platform : Type 0 where
  pub is_iso_date : String → Bool
  pub to_lower_case : String → String
  pub compile : Schema → Option (Value → Bool)

abbrev pub chars : String → Text
chars String.[] = []
chars (String.◌∷◌ c s) = code c ∷ chars s

-- `s.length`, in UTF-16 code units
abbrev pub text_length : Text → ℕ
text_length [] = 0
text_length (c ∷ cs) = (if leb c 0xffff then 1 else 2) + text_length cs

-- The case folding of the patterns with the flags `iu`, on the characters that those patterns name.
abbrev pub fold_case : ℕ → ℕ
fold_case c =
    if is_upper c then c + 32 else if c == 0x17f then b's' else if c == 0x212a then b'k' else c

abbrev pub is_id_part : ℕ → Bool
is_id_part c = is_lower c || is_digit c || c == b'_' || c == b'.' || c == b'-'

abbrev pub is_ref_part : ℕ → Bool
is_ref_part c =
    is_lower c
    || is_upper c
    || is_digit c
    || c == b'_'
    || c == b'.'
    || c == b':'
    || c == b'@'
    || c == b'/'
    || c == b'-'

abbrev pub is_hex : ℕ → Bool
is_hex c = is_digit c || leb b'a' c && leb c b'f'

-- A text in which each character is of the class at its place.
abbrev pub matches_classes : List (ℕ → Bool) → Text → Bool
matches_classes [] [] = true
matches_classes [] (c ∷ cs) = false
matches_classes (p ∷ ps) [] = false
matches_classes (p ∷ ps) (c ∷ cs) = p c && matches_classes ps cs

-- A text that begins with characters of the classes.
abbrev pub begins_with : List (ℕ → Bool) → Text → Bool
begins_with [] cs = true
begins_with (p ∷ ps) [] = false
begins_with (p ∷ ps) (c ∷ cs) = p c && begins_with ps cs

-- A pattern without anchors.
abbrev pub occurs : List (ℕ → Bool) → Text → Bool
occurs ps [] = begins_with ps []
occurs ps (c ∷ cs) = begins_with ps (c ∷ cs) || occurs ps cs

-- The classes of a literal text under case folding.
abbrev pub folded : Text → List (ℕ → Bool)
folded [] = []
folded (c ∷ cs) = (λ d. fold_case d == fold_case c) ∷ folded cs

abbrev pub repeated : ℕ → (ℕ → Bool) → List (ℕ → Bool) → List (ℕ → Bool)
repeated zero p rest = rest
repeated (suc n) p rest = p ∷ repeated n p rest

abbrev pub uuid_classes : List (ℕ → Bool)
uuid_classes =
    let hex = λ (c : ℕ). is_hex (fold_case c) in
    let dash = λ (c : ℕ). c == b'-' in
    let version_digit = λ (c : ℕ). leb b'1' c && leb c b'8' in
    let variant_digit =
      λ (c : ℕ). c == b'8' || c == b'9' || fold_case c == b'a' || fold_case c == b'b' in
    repeated 8 hex (
      dash
      ∷ repeated 4 hex (
          dash
          ∷ version_digit
          ∷ repeated 3 hex (dash ∷ variant_digit ∷ repeated 3 hex (dash ∷ repeated 12 hex []))))

abbrev pub is_sensitive : Text → Bool
is_sensitive t =
    occurs (folded (chars "credential")) t
    || occurs (folded (chars "password")) t
    || occurs (folded (chars "secret")) t
    || occurs (folded (chars "token")) t

-- `\s`
abbrev pub is_space : ℕ → Bool
is_space c =
    leb 9 c && leb c 13
    || c == 32
    || c == 0xa0
    || c == 0x1680
    || leb 0x2000 c && leb c 0x200a
    || c == 0x2028
    || c == 0x2029
    || c == 0x202f
    || c == 0x205f
    || c == 0x3000
    || c == 0xfeff

abbrev pub appended : List (ℕ → Bool) → List (ℕ → Bool) → List (ℕ → Bool)
appended [] qs = qs
appended (p ∷ ps) qs = p ∷ appended ps qs

abbrev pub looks_secret : Text → Bool
looks_secret t =
    let key_part = λ (c : ℕ). is_lower (fold_case c) || is_digit c in
    occurs (folded (chars "-----BEGIN")) t
    || occurs (appended (folded (chars "Bearer")) (is_space ∷ [])) t
    || occurs (folded (chars "postgres://")) t
    || occurs (folded (chars "postgresql://")) t
    || occurs (appended (folded (chars "AKID")) (repeated 8 key_part [])) t

abbrev pub when : {A : Type 0} → Bool → A → Result A
when true a = ok a
when false a = fails invalid_input

-- `id`
unfoldable pub valid_id : String → Result String
valid_id s =
    let t = chars s in when (matches_pattern is_lower is_id_part 0 127 t && not (is_sensitive t)) s

unfoldable pub valid_reference : String → Result String
valid_reference s = when (matches_pattern is_ref_part is_ref_part 0 254 (chars s)) s

unfoldable pub valid_trace : String → Result String
valid_trace s =
    let t = chars s in
    when (matches_classes (repeated 32 is_hex []) t && not (all (λ c. c == b'0') t)) s

-- `version`, for the numbers from `lo` on
abbrev pub valid_version : ℕ → Number → Result ℕ
valid_version lo v = elim (safe_from lo v) [ none ↦ fails invalid_input | some n ↦ ok n ]

unfoldable pub valid_text : ℕ → String → Result String
valid_text hi s = let n = text_length (chars s) in when (leb 1 n && leb n hi) s

abbrev pub in_range : ℕ → ℕ → Number → Result ℕ
in_range lo hi v = elim (safe_between lo hi v) [ none ↦ fails invalid_input | some n ↦ ok n ]

module _ (p : Platform) where
  unfoldable pub valid_uuid : String → Result String
  valid_uuid s = when (matches_classes uuid_classes (chars s)) (p.to_lower_case s)

  unfoldable pub valid_date : String → Result String
  valid_date s = when (p.is_iso_date s) s

  abbrev pub optional : (String → Result String) → Option String → Result (Option String)
  optional check none = ok none
  optional check (some s) = do t ← check s; ok (some t)

  -- `actor`
  unfoldable pub valid_actor : Actor → Result Actor
  unfolding valid_uuid
  valid_actor a = do
    actor_id ← valid_reference a.actor_id
    assignment_id ← optional valid_uuid a.assignment_id
    ok (record { actor_id = actor_id; actor_type = a.actor_type; assignment_id = assignment_id })

  -- `command`
  unfoldable pub valid_metadata : Metadata → Result Metadata
  unfolding valid_uuid valid_actor
  valid_metadata m = do
    actor ← valid_actor m.actor
    operation_id ← valid_uuid m.operation_id
    reason ← valid_text 500 m.reason
    trace_id ← valid_trace m.trace_id
    ok (record { actor = actor; operation_id = operation_id; reason = reason; trace_id = trace_id })

  -- `decision`
  unfoldable pub valid_decision : Decision → Result Decision
  unfolding valid_uuid
  valid_decision d = do
    decision_id ← valid_uuid d.decision_id
    ok (record { allowed = d.allowed; decision_id = decision_id })

-- The label of an item: 1 to 200 code units, and neither `<` nor `>`.
unfoldable pub valid_label : String → Result String
unfolding valid_text
valid_label s = do t ← valid_text 200 s; when (not (any (λ c. c == b'<' || c == b'>') (chars s))) t

-- The items from the first on, with the codes that were seen.
unfoldable pub items_from : List String → List RawItem → Result (List Item)
unfolding valid_id valid_label
items_from seen [] = ok []
items_from seen (r ∷ rs) =
    let rest = items_from (r.code ∷ seen) rs in
    do
      code ← valid_id r.code
      refuse_if (includes seen code) invalid_input
      label ← valid_label r.label
      order ← in_range 0 100000 r.order
      items ← rest
      ok (record { code = code; enabled = r.enabled; label = label; order = order } ∷ items)

-- `itemList`
unfoldable pub item_list : List RawItem → Result (List Item)
unfolding items_from
item_list rs = do refuse_if (not (leb (length rs) 500)) invalid_input; items_from [] rs

-- `scope`
unfoldable pub valid_scope : Scope → Result Scope
unfolding valid_id valid_reference
valid_scope c = do
  scope_reference ← valid_reference c.scope_reference
  scope_type ← valid_id c.scope_type
  ok (record { scope_reference = scope_reference; scope_type = scope_type })

-- `value`
abbrev pub valid_value : Value → ValueType → Result Value
valid_value (boolean b) boolean_type = ok (boolean b)
valid_value (natural n) number_type = ok (natural n)
valid_value (negative n) number_type = ok (negative n)
valid_value (fraction n) number_type = ok (fraction n)
valid_value (natural n) integer_type = when (leb n max_safe_integer) (natural n)
valid_value (negative n) integer_type = when (leb (suc n) max_safe_integer) (negative n)
valid_value (text s) string_type =
    let t = chars s in when (not (looks_secret t) && leb (text_length t) 1000) (text s)
valid_value _ _ = fails invalid_input
