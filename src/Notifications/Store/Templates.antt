-- ===== src/Notifications/Store/Templates.antt =====
-- The calls on templates leave the intents and the notifications as they are.
use zsj_crm.Prelude.{ℕ, ◌≡◌, arith, Option, none, some, String, inl, inr}
use zsj_crm.Notifications.Store.{
  Result-cases, ok, Release, Store, Reply, publish, activate_version, activated_after,
}

module _ {D : Type 0} where
  abbrev pub SameInbox : Store D → Store D → Type 0
  SameInbox s t = (t.intents ≡ s.intents) × (t.notifications ≡ s.notifications)

  pub publish-SameInbox :
      (r : Release D) (s t : Store D) (o : Option (Release D)) (reply : Reply D)
      → publish r s o ≡ ok (t, reply)
      → SameInbox s t
  publish-SameInbox r s t none reply h = (ground arith, ground arith)
  publish-SameInbox r s t (some x) reply h = (ground arith, ground arith)

  pub activate_version-SameInbox :
      (id key : String) (version : ℕ) (s t : Store D) (reply : Reply D)
      → activate_version id key version s ≡ ok (t, reply)
      → SameInbox s t
  unfolding activate_version
  activate_version-SameInbox id key version s t reply h = (ground arith, ground arith)

  pub activated_after-SameInbox :
      (id : String) (r : Release D) (s t : Store D) (o : Option (Release D)) (reply : Reply D)
      → activated_after id r (publish r s o) ≡ ok (t, reply)
      → SameInbox s t
  activated_after-SameInbox id r s t o reply h = elim (Result-cases (publish r s o)) [
    | inr (e, p) ↦ absurd (ground arith)
    | inl ((u, a), p) ↦ elim (Result-cases (activate_version id r.template_key r.version u)) [
      | inr (e, q) ↦ absurd (ground arith)
      | inl ((v, b), q) ↦
          let (i, n) = publish-SameInbox r s u o a p in
          let (j, m) = activate_version-SameInbox id r.template_key r.version u v b q in
          (ground arith, ground arith)
    ]
  ]
