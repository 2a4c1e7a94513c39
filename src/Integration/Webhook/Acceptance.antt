-- ===== src/Integration/Webhook/Acceptance.antt =====
-- What is known of a webhook that was accepted, or that reached the replay store at all.
use zsj_crm.Prelude.{
  ℕ, ◌≤◌, ◌+◌, ◌≡◌, ◌≢◌, refl, subst, inl, inr, Bool, true, false, Option, none, some, List, [],
  ◌∷◌, Option-cases, arith,
}
use zsj_crm.Prelude.Text.{Text}
use zsj_crm.Integration.Errors.{Result, ok, throws, Result-cases}
use zsj_crm.Integration.Webhook.{
  Envelope, Options, Settings, Accepted, Surroundings, Reservation, Candidate, Value, boolean, text,
  undefined, rejected, not_an_object, object, validate_options, is_well_formed, in_time,
  max_instant, distance, stable_identifier, read_reservation, accept, admit, admitted,
  accept_verified_webhook, verified, same_text, reservation_of, property, fingerprints,
}

-- The checks that stand before the replay store.
pub record Passed {S : Type 0} (w : Surroundings S) (o : Options) (e : Envelope) : Type 0 where
  pub settings : Settings
  pub now : ℕ
  pub signed : ℕ
  pub received : ℕ
  pub valid : validate_options o ≡ ok settings
  pub well_formed : is_well_formed settings e ≡ true
  pub read_clock : w.now ≡ some now
  pub read_timestamp : w.parse_date e.timestamp ≡ some signed
  pub read_receipt : w.parse_date e.received_at ≡ some received
  pub recent : distance now signed ≤ settings.skew
  pub representable : now + settings.retention ≤ max_instant
  pub signature_holds : (w.verify e).0 ≡ ok true
  pub body_unchanged : w.sha256 (w.verify e).1 ≡ w.sha256 e.raw_body

in_time-ok :
    (s : Settings) (n g r : Option ℕ) (t : ℕ × ℕ)
    → in_time s n g r ≡ ok t
    → (now : ℕ) × (signed : ℕ) × (n ≡ some now)
      × (g ≡ some signed)
      × (r ≡ some t.1)
      × (distance now signed ≤ s.skew)
      × (now + s.retention ≤ max_instant)
unfolding in_time
in_time-ok s (some n) (some g) (some r) t h =
    (n, g, refl, refl, ground arith, ground arith, ground arith)
in_time-ok s none g r t h = cc
in_time-ok s (some n) none r t h = cc
in_time-ok s (some n) (some g) none t h = cc

reservation_of-accepted :
    (u v : Value) (r : Reservation)
    → reservation_of u v ≡ some r
    → r.accepted ≡ true
    → (id : Text) × (r.reservation_id ≡ some id) × (stable_identifier id ≡ true)
unfolding reservation_of
reservation_of-accepted (boolean true) (text id) r h a = (id, ground arith, ground arith)
reservation_of-accepted (boolean false) undefined r h a = ground arith
reservation_of-accepted _ _ r h a = cc

read_reservation-accepted :
    (c : Candidate) (r : Reservation)
    → read_reservation c ≡ some r
    → r.accepted ≡ true
    → (id : Text) × (r.reservation_id ≡ some id) × (stable_identifier id ≡ true)
unfolding read_reservation
read_reservation-accepted rejected r h a = cc
read_reservation-accepted not_an_object r h a = cc
read_reservation-accepted (object ps) r h a =
    reservation_of-accepted (property "accepted" ps) (property "reservationId" ps) r (ground arith)
      a

module _ {S : Type 0} (w : Surroundings S) where
  same_text-eq : (x y : Text) → same_text w x y ≡ true → x ≡ y
  same_text-eq [] [] h = refl
  same_text-eq [] (b ∷ y) h = cc
  same_text-eq (a ∷ x) [] h = cc
  same_text-eq (a ∷ x) (b ∷ y) h =
      let p = same_text-eq x y (ground arith) in
      let q : a ≡ b = ground arith in ground (arith, p, q)

  verified-ok :
      (e : Envelope) (v : Result Bool × List ℕ)
      → verified w e v ≡ true
      → (v.0 ≡ ok true) × (w.sha256 v.1 ≡ w.sha256 e.raw_body)
  unfolding verified
  verified-ok e (ok true, b) h = (refl, same_text-eq (w.sha256 b) (w.sha256 e.raw_body) h)
  verified-ok e (ok false, b) h = cc
  verified-ok e (throws t, b) h = cc

  pub admit-Passed : (o : Options) (e : Envelope) (t : ℕ × ℕ) → admit w o e ≡ ok t → Passed w o e
  unfolding admit
  admit-Passed o e t h = elim (Result-cases (validate_options o)) [
    | inr (x, v) ↦ ground arith
    | inl (s, v) ↦
        elim (Result-cases
          (in_time s w.now (w.parse_date e.timestamp) (w.parse_date e.received_at))) [
            | inr (x, i) ↦ ground arith
            | inl (u, i) ↦
                let (now, signed, read_now, read_signed, read_receipt, recent, fits) =
                  in_time-ok s _ _ _ u i in
                let (holds, same_body) = verified-ok e (w.verify e) (ground arith) in
                record {
                  settings = s;
                  now = now;
                  signed = signed;
                  received = u.1;
                  valid = v;
                  well_formed = ground arith;
                  read_clock = read_now;
                  read_timestamp = read_signed;
                  read_receipt = read_receipt;
                  recent = recent;
                  representable = fits;
                  signature_holds = holds;
                  body_unchanged = same_body;
                }
          ]
  ]

  admit-received :
      (o : Options) (e : Envelope) (t : ℕ × ℕ)
      → admit w o e ≡ ok t
      → w.parse_date e.received_at ≡ some t.1
  unfolding admit
  admit-received o e t h = elim (Result-cases (validate_options o)) [
    | inr (x, v) ↦ ground arith
    | inl (s, v) ↦
        elim (Result-cases
          (in_time s w.now (w.parse_date e.timestamp) (w.parse_date e.received_at))) [
            | inr (x, i) ↦ ground arith
            | inl (u, i) ↦
                let (now, signed, a, b, read_receipt, c, d) = in_time-ok s _ _ _ u i in
                let same : u ≡ t = ground arith in
                subst (λ (x : ℕ × ℕ). w.parse_date e.received_at ≡ some x.1) same read_receipt
          ]
  ]

  admitted-eq :
      (o : Options) (e : Envelope) (store : S) (r : Result (ℕ × ℕ))
      → ((t : ℕ × ℕ) → r ≡ ok t → Passed w o e)
      → (admitted w e store r).0 ≢ store
      → Passed w o e
  admitted-eq o e store (throws t) f c = absurd (c refl)
  admitted-eq o e store (ok t) f c = f t refl

  -- The state of the replay store changes only for a webhook whose envelope is well formed, whose
  -- timestamp lies within the allowed skew, and whose signature holds.
  pub store_reached :
      (o : Options) (e : Envelope) (store : S)
      → (accept_verified_webhook w o e store).0 ≢ store
      → Passed w o e
  unfolding accept_verified_webhook
  store_reached o e store = admitted-eq o e store (admit w o e) (admit-Passed o e)

  -- What an accepted webhook says: the digest, the identifiers and the time of receipt are those of the
  -- envelope, and the reservation has a stable identifier.
  abbrev pub Faithful : Envelope → Accepted → Type 0
  Faithful e a =
      (a.event_id ≡ e.event_id)
      × (a.protocol_version ≡ e.version)
      × (a.body_digest ≡ w.sha256 e.raw_body)
      × ((n : ℕ) × (w.parse_date e.received_at ≡ some n) × (a.received_at ≡ w.print_date n))
      × ((id : Text) × (a.reservation_id ≡ some id) × (stable_identifier id ≡ true))

  accept-Faithful :
      (e : Envelope) (received : ℕ) (c : Candidate) (a : Accepted)
      → w.parse_date e.received_at ≡ some received
      → accept w e received (read_reservation c) ≡ ok a
      → Faithful e a
  accept-Faithful e received c a p h = elim (Option-cases (read_reservation c)) [
    | inl n ↦ ground arith
    | inr (r, f) ↦
        let (id, i, stable) = read_reservation-accepted c r f (ground arith) in
        (
          ground arith,
          ground arith,
          ground arith,
          (received, p, ground arith),
          (id, ground arith, stable),
        )
  ]

  -- An accepted webhook passed every check: the options are valid, the envelope is well formed, its
  -- timestamp is recent, its time of receipt is a date, the reservation can be dated, and the verifier
  -- accepts the signature and has left the body as it was. What is returned has the digest, the
  -- identifiers and the time of receipt of the envelope, and a reservation of a stable identifier.
  pub accepted_facts :
      (o : Options) (e : Envelope) (store : S) (a : Accepted)
      → (accept_verified_webhook w o e store).1 ≡ ok a
      → Passed w o e × Faithful e a
  unfolding accept_verified_webhook
  accepted_facts o e store a h = elim (Result-cases (admit w o e)) [
    | inl (t, p) ↦ (
      admit-Passed o e t p,
      accept-Faithful e t.1 (w.reserve (w.print_date t.0) (fingerprints w e) store).1 a
          (admit-received o e t p) (ground arith),
    )
    | inr (x, p) ↦ ground arith
  ]
