-- ===== src/Organization/Facts.antt =====
-- types.ts, errors.ts and validation.ts of the organization module. A timestamp is a text; `Date.parse`
-- is outside, and gives an instant in milliseconds from the earliest one that a `Date` can hold, or NaN.
use Prim.Native.Char.{code}
use zsj_crm.Prelude.{
  ℕ, zero, suc, ◌==◌, ◌||◌, List, [], ◌∷◌, ◌≡◌, refl, ◌⊎◌, inl, inr, Bool, true, false, ◌&&◌, not,
  Option, none, some, String, str_eq, leb, ltb, if◌then◌else◌,
}

pub data Error : Type 0 where
  assignment_not_active effective_interval_invalid employment_not_active entity_conflict : Error
  entity_not_found idempotency_conflict organization_hierarchy_cycle : Error
  organization_path_invalid : Error
  -- What the authorizer throws, which is none of the codes of `OrganizationError`.
  refused : Error

pub data Result {ℓ} (X : Type ℓ) : Type ℓ where
  err : Error → Result X
  ok : X → Result X

infixl 5 ◌>>=◌ ◌>>◌
-- A step that throws ends the command.
abbrev pub ◌>>=◌ {ℓ₁ ℓ₂} : {X : Type ℓ₁} {Y : Type ℓ₂} → Result X → (X → Result Y) → Result Y
err thrown >>= next = err thrown
ok x >>= next = next x

abbrev pub ◌>>◌ {ℓ₂} : {Y : Type ℓ₂} → Result (Unit {0}) → Result Y → Result Y
check >> rest = check >>= λ _. rest

pub >>-eq-ok {ℓ} :
    {Y : Type ℓ} (check : Result (Unit {0})) (rest : Result Y) {y : Y}
    → (check >> rest) ≡ ok y
    → (check ≡ ok tt) × (rest ≡ ok y)
>>-eq-ok (err thrown) rest h = cc
>>-eq-ok (ok x) rest h = (refl, h)

abbrev pub require : Bool → Error → Result (Unit {0})
require true e = ok tt
require false e = err e

pub Result-cases {ℓ} :
    {X : Type ℓ} (r : Result X) → ((x : X) × (r ≡ ok x)) ⊎ ((t : Error) × (r ≡ err t))
Result-cases (err t) = inr (t, refl)
Result-cases (ok x) = inl (x, refl)

pub record Interval : Type 0 where
  pub from : String
  pub to : Option String

pub record Person : Type 0 where
  pub person_id : String
  pub recorded_at : String

pub record Employment : Type 0 where
  pub employment_id : String
  pub person_id : String
  pub interval : Interval

pub record OrganizationUnit : Type 0 where
  pub unit_id : String
  pub interval : Interval

pub record Placement : Type 0 where
  pub placement_id : String
  pub unit_id : String
  pub parent_id : Option String
  pub interval : Interval

pub record Position : Type 0 where
  pub position_id : String
  pub unit_id : String
  pub interval : Interval

pub record Assignment : Type 0 where
  pub assignment_id : String
  pub employment_id : String
  pub unit_id : String
  pub position_id : String
  pub person_id : String
  pub interval : Interval

-- Comparisons of instants, which are false where one is NaN.
abbrev pub at_most : Option ℕ → Option ℕ → Bool
at_most (some a) (some b) = leb a b
at_most _ _ = false

abbrev pub before : Option ℕ → Option ℕ → Bool
before (some a) (some b) = ltb a b
before _ _ = false

-- What the platform computes on texts: dates, the length in code units, and that of the trimmed text.
pub record Calendar : Type 0 where
  pub parse : String → Option ℕ
  pub print : ℕ → String
  pub size : String → ℕ
  pub trimmed_size : String → ℕ

-- `/^[0-9a-f]{8}-[0-9a-f]{4}-[1-8][0-9a-f]{3}-[89ab][0-9a-f]{3}-[0-9a-f]{12}$/iu`, as one test for
-- each character.
abbrev between : ℕ → ℕ → ℕ → Bool
between lo hi x = leb lo x && leb x hi

abbrev is_hex : ℕ → Bool
is_hex x = between b'0' b'9' x || (between b'a' b'f' x || between b'A' b'F' x)

abbrev is_dash : ℕ → Bool
is_dash x = x == b'-'

abbrev hex : ℕ → List (ℕ → Bool) → List (ℕ → Bool)
hex zero rest = rest
hex (suc n) rest = is_hex ∷ hex n rest

abbrev is_variant : ℕ → Bool
is_variant x = between b'8' b'9' x || (between b'a' b'b' x || between b'A' b'B' x)

abbrev uuid_tests : List (ℕ → Bool)
uuid_tests = hex 8 (
    is_dash
    ∷ hex 4
        (is_dash ∷ between b'1' b'8' ∷ hex 3 (is_dash ∷ is_variant ∷ hex 3 (is_dash ∷ hex 12 []))))

abbrev passes : List (ℕ → Bool) → String → Bool
passes [] String.[] = true
passes (t ∷ ts) (String.◌∷◌ x s) = t (code x) && passes ts s
passes _ _ = false

unfoldable pub is_uuid : String → Bool
is_uuid s = passes uuid_tests s

unfoldable pub require_id : String → Result (Unit {0})
unfolding is_uuid
require_id s = require (is_uuid s) entity_conflict

module _ (c : Calendar) where
  unfoldable pub require_text : String → ℕ → Result (Unit {0})
  require_text s maximum =
      require (not (c.trimmed_size s == 0) && leb (c.size s) maximum) entity_conflict

  abbrev canonical : String → Option ℕ → Result ℕ
  canonical s none = err effective_interval_invalid
  canonical s (some t) = if str_eq (c.print t) s then ok t else err effective_interval_invalid

  unfoldable pub require_timestamp : String → Result ℕ
  require_timestamp s = canonical s (c.parse s)

  abbrev pub later_end : ℕ → Option String → Result (Unit {0})
  later_end from none = ok tt
  later_end from (some s) = do
    to ← require_timestamp s
    require (ltb from to) effective_interval_invalid

  unfoldable pub require_interval : Interval → Result (Unit {0})
  unfolding require_timestamp
  require_interval i = do from ← require_timestamp i.from; later_end from i.to

  unfoldable pub ends_after : Option ℕ → Option String → Bool
  ends_after at none = true
  ends_after at (some s) = before at (c.parse s)

  unfoldable pub is_active : Interval → String → Bool
  is_active i at = at_most (c.parse i.from) (c.parse at) && ends_after (c.parse at) i.to

  -- `from < end`, where a missing end is infinity. (An empty text is no end either, to the code; the
  -- validation of an interval refuses it.)
  unfoldable pub begins_before : Option ℕ → Option String → Bool
  begins_before none end = false
  begins_before (some t) none = true
  begins_before (some t) (some s) = if str_eq s "" then true else before (some t) (c.parse s)

  unfoldable pub intervals_overlap : Interval → Interval → Bool
  intervals_overlap l r = begins_before (c.parse l.from) r.to && begins_before (c.parse r.from) l.to

  abbrev ends_within : Option String → Option String → Bool
  ends_within none inner = true
  ends_within (some s) none = false
  ends_within (some s) (some t) = at_most (c.parse t) (c.parse s)

  unfoldable pub interval_contains : Interval → Interval → Bool
  interval_contains container contained =
      if before (c.parse contained.from) (c.parse container.from)
      then false
      else ends_within container.to contained.to
