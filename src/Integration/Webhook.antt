-- ===== src/Integration/Webhook.antt =====
-- webhook.ts. SHA-256, the parsing and printing of dates, the signature verifier and the replay store
-- are outside. An instant is counted in milliseconds from the earliest one that a `Date` can hold.
pub mod Acceptance
pub mod Replay
use zsj_crm.Prelude.{
  ℕ, ◌+◌, ◌-◌, ◌*◌, ◌^◌, Bool, true, false, ◌&&◌, ◌||◌, not, Option, none, some, List, [], ◌∷◌,
  ◌++◌, leb, ltb, ◌==◌, if◌then◌else◌, Number, safe_from, length, any, all, String, str_eq,
}
use zsj_crm.Prelude.Text.{Text, is_lower, is_upper, is_digit, matches_pattern}
use zsj_crm.Integration.Errors.{
  invalid_input, signature_invalid, upstream_unavailable, replay_detected, Result, ok, throws,
  fatal, transient, ◌>>=◌, ◌>>◌, throw_if,
}

pub record Envelope : Type 0 where
  pub event_id : Text
  pub nonce : Text
  pub raw_body : List ℕ
  pub received_at : Text
  pub signature : Text
  pub timestamp : Text
  pub version : Text

pub record Options : Type 0 where
  pub allowed_clock_skew_ms : Number
  pub max_body_bytes : Number
  pub replay_retention_ms : Number

-- A property of the object that the replay store returned.
pub data Value : Type 0 where
  boolean : Bool → Value
  text : Text → Value
  undefined another : Value

-- What `reserve` did: it threw, returned something that is no object, or an object.
pub data Candidate : Type 0 where
  rejected not_an_object : Candidate
  object : List (String × Value) → Candidate

pub record Reservation : Type 0 where
  pub accepted : Bool
  pub reservation_id : Option Text

pub record Accepted : Type 0 where
  pub body_digest : Text
  pub event_id : Text
  pub protocol_version : Text
  pub received_at : Text
  -- Cast to a string by the code.
  pub reservation_id : Option Text

pub record Surroundings (S : Type 0) : Type 0 where
  pub sha256 : List ℕ → Text
  pub now : Option ℕ
  pub parse_date : Text → Option ℕ
  pub print_date : ℕ → Text
  -- The verifier's answer, or its exception, and the copy of the body after the call.
  pub verify : Envelope → Result Bool × List ℕ
  pub reserve : Text → List Text → S → S × Candidate

-- `/^[A-Za-z0-9][A-Za-z0-9._:-]{0,127}$/`
abbrev is_alphanumeric : ℕ → Bool
is_alphanumeric c = is_lower c || (is_upper c || is_digit c)

unfoldable pub stable_identifier : Text → Bool
stable_identifier =
    matches_pattern is_alphanumeric
      (λ c. is_alphanumeric c || (c == b'.' || (c == b'_' || (c == b':' || c == b'-')))) 0 127

-- `/^v[1-9][0-9]*$/`
abbrev is_version_number : Text → Bool
is_version_number [] = false
is_version_number (c ∷ cs) = leb b'1' c && (leb c b'9' && all is_digit cs)

unfoldable pub is_version : Text → Bool
is_version [] = false
is_version (c ∷ cs) = c == b'v' && is_version_number cs

abbrev pub value_or : Option ℕ → ℕ
value_or none = 0
value_or (some n) = n

-- The settings in force: the skew, the retention and the largest body.
pub record Settings : Type 0 where
  pub skew : ℕ
  pub retention : ℕ
  pub max_body : ℕ

abbrev settings_of : Option ℕ → Option ℕ → Option ℕ → Result Settings
settings_of (some s) (some r) (some b) =
    if ltb r (s * 2)
    then throws (fatal invalid_input)
    else ok (record { skew = s; retention = r; max_body = b })
settings_of _ _ _ = throws (fatal invalid_input)

unfoldable pub validate_options : Options → Result Settings
validate_options o =
    settings_of (safe_from 0 o.allowed_clock_skew_ms) (safe_from 1 o.replay_retention_ms)
      (safe_from 1 o.max_body_bytes)

-- The rest of the first condition, on the envelope.
unfoldable pub is_well_formed : Settings → Envelope → Bool
is_well_formed s e =
    leb (length e.raw_body) s.max_body
    && (leb 1 (length e.signature)
        && (leb (length e.signature) 8192
            && (leb (length e.timestamp) 64
                && (leb (length e.received_at) 64
                    && (stable_identifier e.event_id
                        && (stable_identifier e.nonce && is_version e.version))))))

-- The largest instant of a `Date`, and the largest safe integer on the same scale.
abbrev pub max_instant : ℕ
max_instant = 17280000000000000

abbrev pub max_safe_instant : ℕ
max_safe_instant = 8640000000000000 + (2 ^ 53 - 1)

abbrev pub distance : ℕ → ℕ → ℕ
distance a b = (a - b) + (b - a)

unfoldable pub in_time : Settings → Option ℕ → Option ℕ → Option ℕ → Result (ℕ × ℕ)
in_time s (some now) (some signed) (some received) =
    if not (leb (now + s.retention) max_safe_instant)
      || (ltb max_instant (now + s.retention) || ltb s.skew (distance now signed))
    then throws (fatal signature_invalid)
    else ok (now + s.retention, received)
in_time s _ _ _ = throws (fatal signature_invalid)

-- `lookup` in an object with distinct keys; a missing key reads `undefined`.
abbrev pub property : String → List (String × Value) → Value
property k [] = undefined
property k ((j, v) ∷ ps) = if str_eq j k then v else property k ps

abbrev pub has_key : String → List (String × Value) → Bool
has_key k ps = any (λ (p : String × Value). str_eq p.0 k) ps

unfoldable pub reservation_of : Value → Value → Option Reservation
reservation_of (boolean true) (text id) =
    if stable_identifier id
    then some (record { accepted = true; reservation_id = some id })
    else none
reservation_of (boolean false) undefined = some (record { accepted = false; reservation_id = none })
reservation_of _ _ = none

unfoldable pub read_reservation : Candidate → Option Reservation
read_reservation rejected = none
read_reservation not_an_object = none
read_reservation (object ps) =
    if not (has_key "accepted" ps)
      || any
          (λ (p : String × Value). not (str_eq p.0 "accepted") && not (str_eq p.0 "reservationId"))
          ps
    then none
    else reservation_of (property "accepted" ps) (property "reservationId" ps)

module _ {S : Type 0} (w : Surroundings S) where
  -- `fingerprint(kind, value)`
  unfoldable pub fingerprint : List ℕ → Envelope → Text → Text
  fingerprint kind e value = w.sha256 (kind ++ (0 ∷ (e.version ++ (0 ∷ value))))

  abbrev pub fingerprints : Envelope → List Text
  fingerprints e =
      fingerprint (b'e' ∷ b'v' ∷ b'e' ∷ b'n' ∷ b't' ∷ []) e e.event_id
      ∷ fingerprint (b'n' ∷ b'o' ∷ b'n' ∷ b'c' ∷ b'e' ∷ []) e e.nonce
      ∷ []

  abbrev pub same_text : Text → Text → Bool
  same_text [] [] = true
  same_text (a ∷ as') (b ∷ bs) = a == b && same_text as' bs
  same_text _ _ = false

  -- The signature holds, and the digest of the body is still the one taken before.
  unfoldable pub verified : Envelope → Result Bool × List ℕ → Bool
  verified e (ok true, body) = same_text (w.sha256 body) (w.sha256 e.raw_body)
  verified e _ = false

  abbrev accept : Envelope → ℕ → Option Reservation → Result Accepted
  accept e received none = throws (transient upstream_unavailable)
  accept e received (some r) =
      if r.accepted
      then ok (record {
        body_digest = w.sha256 e.raw_body;
        event_id = e.event_id;
        protocol_version = e.version;
        received_at = w.print_date received;
        reservation_id = r.reservation_id;
      })
      else throws (fatal replay_detected)

  abbrev reserved : Envelope → ℕ → S × Candidate → S × Result Accepted
  reserved e received (store, c) = (store, accept e received (read_reservation c))

  -- The checks before the replay store is asked, and the instants that they give.
  unfoldable pub admit : Options → Envelope → Result (ℕ × ℕ)
  admit o e = do
    s ← validate_options o
    throw_if (not (is_well_formed s e)) invalid_input
    times ← in_time s w.now (w.parse_date e.timestamp) (w.parse_date e.received_at)
    throw_if (not (verified e (w.verify e))) signature_invalid
    ok times

  abbrev admitted : Envelope → S → Result (ℕ × ℕ) → S × Result Accepted
  admitted e store (throws t) = (store, throws t)
  admitted e store (ok (expires, received)) =
      reserved e received (w.reserve (w.print_date expires) (fingerprints e) store)

  unfoldable pub accept_verified_webhook : Options → Envelope → S → S × Result Accepted
  accept_verified_webhook o e store = admitted e store (admit o e)
