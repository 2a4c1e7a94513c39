-- ===== src/Configuration/Store/Backing.antt =====
-- Every activation is for a version of its parameter's value that was published.
use zsj_crm.Prelude.{
  ℕ, suc, ◌==◌, ◌≡◌, refl, Bool, true, Option, none, some, List, [], ◌∷◌, ◌++◌, String, str_eq,
  eq_iff, Dict, lookup, insert, lookup-insert, any, all, find, length, arith, Option-cases,
  Bool-cases, inl, inr,
}
use zsj_crm.Configuration.Facts.{Item, Draft, ValueRelease, Activation, Event, ok, Result-cases}
use zsj_crm.Configuration.Store.{
  Store, Command, Write, Outcome, save_dictionary_draft, publish_dictionary, register_parameter,
  publish_parameter_value, activate, terminate_activation, has_version, or_empty, publish_draft,
  perform, execute, attempt, run, find_parameter_value,
}

all-implies {ℓ} :
    {A : Type ℓ} (p q : A → Bool) (xs : List A)
    → ((x : A) → p x ≡ true → q x ≡ true)
    → all p xs ≡ true
    → all q xs ≡ true
all-implies p q [] f h = refl
all-implies p q (x ∷ xs) f h = elim (Bool-cases (p x)) [
  | inl e ↦ let k = f x e in ground (arith, all-implies p q xs f)
  | inr e ↦ ground arith
]

all-append {ℓ} :
    {A : Type ℓ} (p : A → Bool) (xs : List A) (x : A)
    → all p xs ≡ true
    → p x ≡ true
    → all p (xs ++ x ∷ []) ≡ true
all-append p [] x h k = ground arith
all-append p (y ∷ xs) x h k = ground (arith, all-append p xs x)

any-append {ℓ} :
    {A : Type ℓ} (p : A → Bool) (xs ys : List A) → any p xs ≡ true → any p (xs ++ ys) ≡ true
any-append p [] ys h = cc
any-append p (x ∷ xs) ys h = ground (arith, any-append p xs ys)

module _ {V : Type 0} where
  abbrev pub backed : Dict (List (ValueRelease V)) → Activation → Bool
  backed values a = has_version a.value_version (lookup a.parameter_key values)

  backed-insert :
      (key : String) (r : ValueRelease V) (values : Dict (List (ValueRelease V))) (a : Activation)
      → backed values a ≡ true
      → backed (insert key (or_empty (lookup key values) ++ r ∷ []) values) a ≡ true
  backed-insert key r values a h =
      let l = lookup-insert key a.parameter_key (or_empty (lookup key values) ++ r ∷ []) values in
      elim (Bool-cases (str_eq key a.parameter_key)) [
        | inr e ↦ ground arith
        | inl e ↦
            let f : key ≡ a.parameter_key = (eq_iff key a.parameter_key).0 e in
            elim (Option-cases (lookup a.parameter_key values)) [
              | inl g ↦ ground arith
              | inr (rs, g) ↦
                  let k =
                    any-append (λ (x : ValueRelease V). x.value_version == a.value_version) rs
                      (r ∷ []) in
                  let m : lookup key values ≡ some rs = rw f g in ground arith
            ]
      ]

  abbrev pub Backed : Store V → Type 0
  Backed s = all (backed s.values) s.activations ≡ true

  Backed-same :
      (s t : Store V) → t.values ≡ s.values → t.activations ≡ s.activations → Backed s → Backed t
  Backed-same s t p q h = rw (p, q) h

  module _ (hash : List Item → String) where
    publish_draft-Backed :
        (id : String) (e : Event) (n : ℕ) (at : String) (s t : Store V) (o : Outcome V)
        (d : Option Draft)
        → publish_draft hash id e n at s d ≡ ok (t, o)
        → Backed s
        → Backed t
    publish_draft-Backed id e n at s t o none h k = cc
    publish_draft-Backed id e n at s t o (some d) h k =
        Backed-same s t (ground arith) (ground arith) k

    perform-Backed :
        (w : Write V) (s t : Store V) (o : Outcome V)
        → perform hash w s ≡ ok (t, o)
        → Backed s
        → Backed t
    unfolding perform
    perform-Backed (save_dictionary_draft d n) s t o h k =
        Backed-same s t (ground arith) (ground arith) k
    perform-Backed (publish_dictionary id e n at) s t o h k =
        publish_draft-Backed id e n at s t o (lookup id s.drafts) h k
    perform-Backed (register_parameter d) s t o h k =
        Backed-same s t (ground arith) (ground arith) k
    perform-Backed (publish_parameter_value digest e key now v) s t o h k =
        let r : ValueRelease V = record {
          content_digest = digest;
          parameter_key = key;
          published_at = now;
          value = v;
          value_version = suc (length (or_empty (lookup key s.values)));
        } in
        let p : t.values ≡ insert key (or_empty (lookup key s.values) ++ r ∷ []) s.values =
          ground arith in
        let q : t.activations ≡ s.activations = ground arith in
        rw (p, q)
          (all-implies (backed s.values) _ s.activations (λ a. backed-insert key r s.values a) k)
    perform-Backed (activate a e) s t o h k =
        let p : t.values ≡ s.values = ground arith in
        let q : t.activations ≡ s.activations ++ a ∷ [] = ground arith in
        rw (p, q) (all-append (backed s.values) s.activations a k (ground arith))
    perform-Backed (terminate_activation x e) s t o h k =
        Backed-same s t (ground arith) (ground arith) k

    attempt-Backed : (c : Command V) (s : Store V) → Backed s → Backed (attempt hash c s)
    unfolding execute
    attempt-Backed c s k = elim (Option-cases (lookup c.operation s.receipts)) [
      | inr (r, e) ↦ let p : attempt hash c s ≡ s = ground arith in rw p k
      | inl e ↦ elim (Result-cases (perform hash c.write s)) [
        | inr (x, a) ↦ let p : attempt hash c s ≡ s = ground arith in rw p k
        | inl ((u, o), a) ↦
            Backed-same u (attempt hash c s) (ground arith) (ground arith)
              (perform-Backed c.write s u o a k)
      ]
    ]

    pub run-Backed : (cs : List (Command V)) (s : Store V) → Backed s → Backed (run hash cs s)
    run-Backed [] s k = k
    run-Backed (c ∷ cs) s k = run-Backed cs (attempt hash c s) (attempt-Backed c s k)

  any-find :
      (version : ℕ) (rs : List (ValueRelease V))
      → any (λ (r : ValueRelease V). r.value_version == version) rs ≡ true
      → (r : ValueRelease V) × (find (λ (x : ValueRelease V). x.value_version == version) rs
          ≡ some r)
  any-find version [] h = cc
  any-find version (r ∷ rs) h = elim (Bool-cases (r.value_version == version)) [
    | inl e ↦ (r, ground arith)
    | inr e ↦ let (x, f) = any-find version rs (ground arith) in (x, ground arith)
  ]

  -- The value of an activation that is backed is found.
  pub find-backed :
      (s : Store V) (a : Activation)
      → backed s.values a ≡ true
      → (r : ValueRelease V) × (find_parameter_value a.parameter_key a.value_version s ≡ some r)
  unfolding find_parameter_value
  find-backed s a h = elim (Option-cases (lookup a.parameter_key s.values)) [
    | inl e ↦ absurd (ground arith)
    | inr (rs, e) ↦ rw e (any-find a.value_version rs (rw e at h))
  ]
