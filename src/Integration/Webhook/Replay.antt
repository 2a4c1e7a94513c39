-- ===== src/Integration/Webhook/Replay.antt =====
-- Replay protection, on top of what a replay store promises.
use zsj_crm.Prelude.{
  ℕ, ◌≡◌, ◌⊎◌, refl, inl, inr, true, false, none, some, List, [], ◌∷◌, arith, Option-cases,
}
use mathlib.Core.Path.{subst}
use zsj_crm.Prelude.Text.{Text}
use zsj_crm.Integration.Errors.{replay_detected, Thrown, ok, throws, fatal, Result-cases}
use zsj_crm.Integration.Webhook.{
  Envelope, Options, Accepted, Surroundings, object, boolean, Reservation, read_reservation, admit,
  accept_verified_webhook, fingerprints, fingerprint, reservation_of,
}

-- What a replay store promises, over the fingerprints that it holds: a reservation that it accepts is
-- held from then on, and one that names a held fingerprint is answered with `{ accepted: false }`.
pub record IsReplayStore {S : Type 0} (w : Surroundings S) (Held : S → Text → Type 0) : Type 0 where
  pub keeps :
      (expires : Text) (f g : Text) (s : S) (r : Reservation)
      → read_reservation (w.reserve expires (f ∷ g ∷ []) s).1 ≡ some r
      → r.accepted ≡ true
      → Held (w.reserve expires (f ∷ g ∷ []) s).0 f × Held (w.reserve expires (f ∷ g ∷ []) s).0 g
  pub refuses :
      (expires : Text) (f g : Text) (s : S)
      → Held s f ⊎ Held s g
      → (w.reserve expires (f ∷ g ∷ []) s).1 ≡ object (("accepted", boolean false) ∷ [])

refused_answer :
    read_reservation (object (("accepted", boolean false) ∷ []))
    ≡ some (record { accepted = false; reservation_id = none })
unfolding read_reservation reservation_of
refused_answer = refl

module _ {S : Type 0} (w : Surroundings S) (Held : S → Text → Type 0)
    (store : IsReplayStore w Held) where
  -- The two fingerprints of an envelope are held.
  abbrev pub Remembers : S → Envelope → Type 0
  Remembers s e =
      Held s (fingerprint w (b'e' ∷ b'v' ∷ b'e' ∷ b'n' ∷ b't' ∷ []) e e.event_id)
      × Held s (fingerprint w (b'n' ∷ b'o' ∷ b'n' ∷ b'c' ∷ b'e' ∷ []) e e.nonce)

  -- An accepted webhook is remembered.
  pub accepted-Remembers :
      (o : Options) (e : Envelope) (s : S) (a : Accepted)
      → (accept_verified_webhook w o e s).1 ≡ ok a
      → Remembers (accept_verified_webhook w o e s).0 e
  unfolding accept_verified_webhook
  accepted-Remembers o e s a h = elim (Result-cases (admit w o e)) [
    | inr (x, p) ↦ ground arith
    | inl (t, p) ↦
        let answer = w.reserve (w.print_date t.0) (fingerprints w e) s in
        rw p (elim (Option-cases (read_reservation answer.1)) [
          | inl n ↦ ground arith
          | inr (r, f) ↦ store.keeps (w.print_date t.0) _ _ s r f (ground arith)
        ])
  ]

  fingerprint-eq :
      (kind : List ℕ) (e d : Envelope) (x y : Text)
      → e.version ≡ d.version
      → x ≡ y
      → fingerprint w kind d y ≡ fingerprint w kind e x
  unfolding fingerprint
  fingerprint-eq kind e d x y v h = rw (v, h)

  held :
      (e d : Envelope) (s : S)
      → Remembers s d
      → e.version ≡ d.version
      → (e.event_id ≡ d.event_id) ⊎ (e.nonce ≡ d.nonce)
      → Held s (fingerprint w (b'e' ∷ b'v' ∷ b'e' ∷ b'n' ∷ b't' ∷ []) e e.event_id)
        ⊎ Held s (fingerprint w (b'n' ∷ b'o' ∷ b'n' ∷ b'c' ∷ b'e' ∷ []) e e.nonce)
  held e d s m v (inl x) = inl (subst (Held s) (fingerprint-eq _ e d _ _ v x) m.0)
  held e d s m v (inr x) = inr (subst (Held s) (fingerprint-eq _ e d _ _ v x) m.1)

  -- While the fingerprints of an accepted webhook are held, an envelope of the same version that
  -- repeats its event identifier or its nonce is never accepted: it fails a check, or the answer is
  -- `replay_detected`.
  pub replay_refused :
      (o : Options) (e d : Envelope) (s : S)
      → Remembers s d
      → e.version ≡ d.version
      → (e.event_id ≡ d.event_id) ⊎ (e.nonce ≡ d.nonce)
      → ((x : Thrown) × (admit w o e ≡ throws x))
        ⊎ ((accept_verified_webhook w o e s).1 ≡ throws (fatal replay_detected))
  unfolding accept_verified_webhook
  replay_refused o e d s m v r = elim (Result-cases (admit w o e)) [
    | inr (x, p) ↦ inl (x, p)
    | inl (t, p) ↦
        inr (
          rw p
            (rw (store.refuses (w.print_date t.0) _ _ s (held e d s m v r), refused_answer) refl))
  ]
