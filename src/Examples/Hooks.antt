-- ===== src/Examples/Hooks.antt =====
-- Webhooks on concrete inputs, with a replay store that keeps a list of fingerprints.
use zsj_crm.Prelude.{
  ◌≡◌, ◌≢◌, ◌⊎◌, refl, inl, Bool, true, false, ◌&&◌, ◌||◌, some, List, [], ◌∷◌, nat, arith, ◌==◌,
  if◌then◌else◌,
}
use zsj_crm.Prelude.Text.{Text}
use zsj_crm.Integration.Errors.{Thrown, ok, throws, fatal, replay_detected}
use zsj_crm.Integration.Webhook.{
  Envelope, Options, Accepted, Surroundings, Candidate, object, boolean, text, Reservation,
  read_reservation, reservation_of, stable_identifier, is_version, validate_options, is_well_formed,
  in_time, verified, admit, accept_verified_webhook, fingerprint,
}
use zsj_crm.Integration.Webhook.Acceptance.{Passed, Faithful, accepted_facts}
use zsj_crm.Integration.Webhook.Replay.{IsReplayStore, accepted-Remembers, replay_refused}

abbrev same : Text → Text → Bool
same [] [] = true
same (a ∷ as') (b ∷ bs) = a == b && same as' bs
same _ _ = false

unfoldable holds : List Text → Text → Bool
holds [] f = false
holds (g ∷ gs) f = same g f || holds gs f

same_self : (f : Text) → same f f ≡ true
same_self [] = refl
same_self (a ∷ f) = ground (arith, same_self f)

-- The store for a pair of fingerprints.
abbrev reserve : Text → List Text → List Text → List Text × Candidate
reserve expires (f ∷ g ∷ []) held =
    if holds held f || holds held g then (held, object (("accepted", boolean false) ∷ [])) else (
      f ∷ g ∷ held,
      object (("accepted", boolean true) ∷ ("reservationId", text (b'r' ∷ [])) ∷ []),
    )
reserve expires fs held = (held, object (("accepted", boolean false) ∷ []))

abbrev platform : Surroundings (List Text)
platform = record {
  sha256 = λ bytes. bytes;
  now = some 5000;
  parse_date = λ t. some 4990;
  print_date = λ n. b'd' ∷ [];
  verify = λ e. (ok true, e.raw_body);
  reserve = reserve;
}

abbrev Held : List Text → Text → Type 0
Held held f = holds held f ≡ true

platform-keeps :
    (expires : Text) (f g : Text) (s : List Text) (r : Reservation)
    → read_reservation (reserve expires (f ∷ g ∷ []) s).1 ≡ some r
    → r.accepted ≡ true
    → Held (reserve expires (f ∷ g ∷ []) s).0 f × Held (reserve expires (f ∷ g ∷ []) s).0 g
unfolding holds read_reservation reservation_of
platform-keeps expires f g s r h a =
    (ground (arith, same_self f, same_self g), ground (arith, same_self f, same_self g))

platform-refuses :
    (expires : Text) (f g : Text) (s : List Text)
    → Held s f ⊎ Held s g
    → (reserve expires (f ∷ g ∷ []) s).1 ≡ object (("accepted", boolean false) ∷ [])
platform-refuses expires f g s h = ground arith

keeping : IsReplayStore platform Held
keeping = record { keeps = platform-keeps; refuses = platform-refuses }

abbrev settings : Options
settings = record {
  allowed_clock_skew_ms = nat 100;
  max_body_bytes = nat 10;
  replay_retention_ms = nat 1000;
}

abbrev hook : Envelope
hook = record {
  event_id = b'e' ∷ [];
  nonce = b'n' ∷ [];
  raw_body = 1 ∷ 2 ∷ [];
  received_at = [];
  signature = b's' ∷ [];
  timestamp = [];
  version = b'v' ∷ b'1' ∷ [];
}

abbrev accepted_hook : Accepted
accepted_hook = record {
  body_digest = 1 ∷ 2 ∷ [];
  event_id = b'e' ∷ [];
  protocol_version = b'v' ∷ b'1' ∷ [];
  received_at = b'd' ∷ [];
  reservation_id = some (b'r' ∷ []);
}

hook_accepted : (accept_verified_webhook platform settings hook []).1 ≡ ok accepted_hook
unfolding accept_verified_webhook admit validate_options is_well_formed stable_identifier is_version
    in_time verified read_reservation reservation_of holds fingerprint
hook_accepted = refl

accepted_facts_example : Passed platform settings hook × Faithful platform hook accepted_hook
accepted_facts_example = accepted_facts platform settings hook [] accepted_hook hook_accepted

hook_stored : (accept_verified_webhook platform settings hook []).0 ≢ []
unfolding accept_verified_webhook admit validate_options is_well_formed stable_identifier is_version
    in_time verified read_reservation reservation_of holds fingerprint
hook_stored h = ground arith

abbrev again : List Text
again = (accept_verified_webhook platform settings hook []).0

replay_refused_example :
    ((x : Thrown) × (admit platform settings hook ≡ throws x))
    ⊎ ((accept_verified_webhook platform settings hook again).1 ≡ throws (fatal replay_detected))
replay_refused_example =
    replay_refused platform Held keeping settings hook hook again
      (accepted-Remembers platform Held keeping settings hook [] accepted_hook hook_accepted) refl
      (inl refl)
