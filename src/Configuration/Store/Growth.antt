-- ===== src/Configuration/Store/Growth.antt =====
-- What every operation keeps of the drafts and the releases.
use zsj_crm.Prelude.{
  ℕ, suc, ◌≡◌, refl, inl, inr, true, false, List, [], ◌∷◌, ◌++◌, some, String, arith, lookup,
  insert, Option-cases, length,
}
use zsj_crm.Prelude.Growth.{Extends, Extends-refl, Extends-trans}
use zsj_crm.Configuration.Facts.{Item, Draft, Release, ValueRelease, Event, ok, Result-cases}
use zsj_crm.Configuration.Store.{
  Store, Outcome, Write, Command, save_dictionary_draft, publish_dictionary, register_parameter,
  publish_parameter_value, activate, terminate_activation, loses_code, or_empty, empty, perform,
  publish_draft, execute, attempt, run,
}
use zsj_crm.Configuration.Store.Releases.{Numbered, keeps_codes}
use zsj_crm.Configuration.Store.Extension.{
  Extends-insert, Numbered-insert, kept-insert, keyed-insert,
}

abbrev pub releases : {V : Type 0} → String → Store V → List Release
releases id s = or_empty (lookup id s.dictionaries)

abbrev pub value_releases : {V : Type 0} → String → Store V → List (ValueRelease V)
value_releases key s = or_empty (lookup key s.values)

-- The drafts stand under their own identifiers, and the releases are numbered from one.
pub record Sound (V : Type 0) (s : Store V) : Type 0 where
  pub keyed : (id : String) (d : Draft) → lookup id s.drafts ≡ some d → d.dictionary_id ≡ id
  pub numbered : (id : String) → Numbered (λ (r : Release). r.release_version) 1 (releases id s)
  pub kept : (id : String) → keeps_codes (releases id s) ≡ true
  pub valued :
      (key : String) → Numbered (λ (r : ValueRelease V). r.value_version) 1 (value_releases key s)

-- No release is lost or changed.
pub record Grows (V : Type 0) (s t : Store V) : Type 0 where
  pub dictionaries : (id : String) → Extends (releases id s) (releases id t)
  pub values : (key : String) → Extends (value_releases key s) (value_releases key t)

module _ {V : Type 0} (hash : List Item → String) where
  -- What is not about drafts and releases.
  same-Sound :
      (s t : Store V)
      → t.drafts ≡ s.drafts
      → t.dictionaries ≡ s.dictionaries
      → t.values ≡ s.values
      → Sound V s
      → Sound V t × Grows V s t
  same-Sound s t p q r h = (
    record {
      keyed = rw p h.keyed;
      numbered = rw q h.numbered;
      kept = rw q h.kept;
      valued = rw r h.valued;
    },
    record {
      dictionaries = λ id. Extends-refl _ _ (rw q refl);
      values = λ key. Extends-refl _ _ (rw r refl);
    },
  )

  publish-Sound :
      (id : String) (e : Event) (expected : ℕ) (now : String) (s t : Store V) (o : Outcome V)
      → publish_draft hash id e expected now s (lookup id s.drafts) ≡ ok (t, o)
      → Sound V s
      → Sound V t × Grows V s t
  publish-Sound id e expected now s t o h k = elim (Option-cases (lookup id s.drafts)) [
    | inl f ↦ ground arith
    | inr (d, f) ↦
        let i : d.dictionary_id ≡ id = k.keyed id d f in
        let release : Release = record {
          dictionary_id = d.dictionary_id;
          items = d.items;
          owner_module = d.owner_module;
          content_digest = hash d.items;
          published_at = now;
          release_version = suc (length (releases id s));
        } in
        let l : loses_code (releases id s) d.items ≡ false = ground arith in
        let p : t.drafts ≡ s.drafts = ground arith in
        let r : t.values ≡ s.values = ground arith in
        let q : t.dictionaries ≡ insert id (releases id s ++ release ∷ []) s.dictionaries =
          ground (arith, i) in
        (
          record {
            keyed = rw p k.keyed;
            numbered = λ key. rw q (
                Numbered-insert (λ (x : Release). x.release_version) id key release s.dictionaries
                  refl k.numbered);
            kept = λ key. rw q (kept-insert s.dictionaries id key release l k.kept);
            valued = rw r k.valued;
          },
          record {
            dictionaries = λ key. rw q (Extends-insert id key release s.dictionaries);
            values = λ key. Extends-refl _ _ (rw r refl);
          },
        )
  ]

  pub perform-Sound :
      (w : Write V) (s t : Store V) (o : Outcome V)
      → perform hash w s ≡ ok (t, o)
      → Sound V s
      → Sound V t × Grows V s t
  unfolding perform
  perform-Sound (save_dictionary_draft draft expected) s t o h k =
      let saved = record draft { revision = suc expected } in
      let p : t.drafts ≡ insert draft.dictionary_id saved s.drafts = ground arith in
      let q : t.dictionaries ≡ s.dictionaries = ground arith in
      let r : t.values ≡ s.values = ground arith in
      (
        record {
          keyed = rw p (keyed-insert s.drafts saved k.keyed);
          numbered = rw q k.numbered;
          kept = rw q k.kept;
          valued = rw r k.valued;
        },
        record {
          dictionaries = λ id. Extends-refl _ _ (rw q refl);
          values = λ key. Extends-refl _ _ (rw r refl);
        },
      )
  perform-Sound (publish_dictionary id e expected now) s t o h k =
      publish-Sound id e expected now s t o h k
  perform-Sound (register_parameter d) s t o h k =
      same-Sound s t (ground arith) (ground arith) (ground arith) k
  perform-Sound (publish_parameter_value digest e key now v) s t o h k =
      let release : ValueRelease V = record {
        content_digest = digest;
        parameter_key = key;
        published_at = now;
        value = v;
        value_version = suc (length (value_releases key s));
      } in
      let p : t.drafts ≡ s.drafts = ground arith in
      let q : t.dictionaries ≡ s.dictionaries = ground arith in
      let r : t.values ≡ insert key (value_releases key s ++ release ∷ []) s.values =
        ground arith in
      (
        record {
          keyed = rw p k.keyed;
          numbered = rw q k.numbered;
          kept = rw q k.kept;
          valued = λ j. rw r (
              Numbered-insert (λ (x : ValueRelease V). x.value_version) key j release s.values refl
                k.valued);
        },
        record {
          dictionaries = λ id. Extends-refl _ _ (rw q refl);
          values = λ j. rw r (Extends-insert key j release s.values);
        },
      )
  perform-Sound (activate a e) s t o h k =
      same-Sound s t (ground arith) (ground arith) (ground arith) k
  perform-Sound (terminate_activation x e) s t o h k =
      same-Sound s t (ground arith) (ground arith) (ground arith) k

  -- A call keeps what holds of the store, whether it is accepted, replayed or refused.
  pub attempt-Sound :
      (c : Command V) (s : Store V)
      → Sound V s
      → Sound V (attempt hash c s) × Grows V s (attempt hash c s)
  unfolding execute
  attempt-Sound c s k = elim (Option-cases (lookup c.operation s.receipts)) [
    | inr (r, e) ↦
        let p : attempt hash c s ≡ s = ground arith in rw p (same-Sound s s refl refl refl k)
    | inl e ↦ elim (Result-cases (perform hash c.write s)) [
      | inr (x, a) ↦
          let p : attempt hash c s ≡ s = ground arith in rw p (same-Sound s s refl refl refl k)
      | inl ((u, o), a) ↦
          let (m, g) = perform-Sound c.write s u o a k in
          let p : (attempt hash c s).drafts ≡ u.drafts = ground arith in
          let q : (attempt hash c s).dictionaries ≡ u.dictionaries = ground arith in
          let r : (attempt hash c s).values ≡ u.values = ground arith in
          let (n, _) = same-Sound u (attempt hash c s) p q r m in
          (n, record { dictionaries = rw q g.dictionaries; values = rw r g.values })
    ]
  ]

  pub run-Sound :
      (cs : List (Command V)) (s : Store V)
      → Sound V s
      → Sound V (run hash cs s) × Grows V s (run hash cs s)
  run-Sound [] s k = same-Sound s s refl refl refl k
  run-Sound (c ∷ cs) s k =
      let (m, g) = attempt-Sound c s k in
      let (n, h) = run-Sound cs (attempt hash c s) m in
      (
        n,
        record {
          dictionaries = λ id. Extends-trans _ _ _ (g.dictionaries id) (h.dictionaries id);
          values = λ key. Extends-trans _ _ _ (g.values key) (h.values key);
        },
      )

pub Sound-empty : {V : Type 0} → Sound V empty
unfolding lookup
Sound-empty = record {
  keyed = λ id d h. ground arith;
  numbered = λ id. tt;
  kept = λ id. refl;
  valued = λ key. tt;
}
