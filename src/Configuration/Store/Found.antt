-- ===== src/Configuration/Store/Found.antt =====
-- What was published is found again, whatever was called since.
use zsj_crm.Prelude.{
  find_still, ℕ, suc, ◌==◌, ◌≡◌, refl, sym, inl, inr, true, false, List, [], ◌∷◌, ◌++◌, some,
  String, arith, lookup, insert, lookup-insert_self, Option-cases, length,
}
use zsj_crm.Configuration.Facts.{Item, Release, ValueRelease, Event, ok, Result-cases}
use zsj_crm.Configuration.Store.{
  Store, Outcome, Command, publish_dictionary, publish_parameter_value, empty, perform, execute,
  attempt, run, released, value_released,
}
use zsj_crm.Configuration.Store.Releases.{Numbered, keeps_codes}
use zsj_crm.Configuration.Store.{find_dictionary_release, find_parameter_value}
use zsj_crm.Configuration.Store.Releases.{find-append}
use zsj_crm.Configuration.Store.Growth.{
  Sound, Sound-empty, Grows, releases, value_releases, run-Sound, attempt-Sound,
}

module _ {V : Type 0} (hash : List Item → String) where
  -- Whatever operations were called, the releases of a dictionary are numbered from one without a
  -- gap, and each has every code of those before it.
  pub Numbered-run :
      (cs : List (Command V)) (id : String)
      → Numbered (λ (r : Release). r.release_version) 1 (releases id (run hash cs empty))
        × (keeps_codes (releases id (run hash cs empty)) ≡ true)
  Numbered-run cs id =
      let (k, _) = run-Sound hash cs empty Sound-empty in (k.numbered id, k.kept id)

  published :
      (id : String) (e : Event) (expected : ℕ) (now : String) (s t : Store V) (r : Release)
      → perform hash (publish_dictionary id e expected now) s ≡ ok (t, released r)
      → Sound V s
      → find_dictionary_release id r.release_version t ≡ some r
  unfolding perform find_dictionary_release
  published id e expected now s t r h k = elim (Option-cases (lookup id s.drafts)) [
    | inl f ↦ ground arith
    | inr (d, f) ↦
        let i : d.dictionary_id ≡ id = k.keyed id d f in
        let q : t.dictionaries ≡ insert id (releases id s ++ r ∷ []) s.dictionaries =
          ground (arith, i) in
        let v : r.release_version ≡ suc (length (releases id s)) = ground arith in
        let l : lookup id t.dictionaries ≡ some (releases id s ++ r ∷ []) =
          rw (q, lookup-insert_self id (releases id s ++ r ∷ []) s.dictionaries) refl in
        let n =
          find-append (λ (x : Release). x.release_version) 1 r.release_version r (releases id s)
            (k.numbered id) refl (omega (arith, v)) in
        rw l n
  ]

  published_value :
      (digest : String) (e : Event) (key now : String) (v : V) (s t : Store V) (r : ValueRelease V)
      → perform hash (publish_parameter_value digest e key now v) s ≡ ok (t, value_released r)
      → Sound V s
      → (find_parameter_value key r.value_version t ≡ some r) × (r.value ≡ v)
  unfolding perform find_parameter_value
  published_value digest e key now v s t r h k =
      let q : t.values ≡ insert key (value_releases key s ++ r ∷ []) s.values = ground arith in
      let x : r.value_version ≡ suc (length (value_releases key s)) = ground arith in
      let l : lookup key t.values ≡ some (value_releases key s ++ r ∷ []) =
        rw (q, lookup-insert_self key (value_releases key s ++ r ∷ []) s.values) refl in
      let n =
        find-append (λ (y : ValueRelease V). y.value_version) 1 r.value_version r
          (value_releases key s) (k.valued key) refl (omega (arith, x)) in
      (rw l n, ground arith)

  -- What is found stays found.
  found_release :
      (id : String) (version : ℕ) (s t : Store V) (r : Release)
      → Grows V s t
      → find_dictionary_release id version s ≡ some r
      → find_dictionary_release id version t ≡ some r
  unfolding find_dictionary_release
  found_release id version s t r g h =
      let (zs, e) = g.dictionaries id in
      rw e (find_still (λ (x : Release). x.release_version == version) (releases id s) zs r h)

  pub found_value :
      (key : String) (version : ℕ) (s t : Store V) (r : ValueRelease V)
      → Grows V s t
      → find_parameter_value key version s ≡ some r
      → find_parameter_value key version t ≡ some r
  unfolding find_parameter_value
  found_value key version s t r g h =
      let (zs, e) = g.values key in
      rw e (
        find_still (λ (x : ValueRelease V). x.value_version == version) (value_releases key s) zs r
          h)

  -- An accepted operation, but for its receipt.
  execute-perform :
      (c : Command V) (s t : Store V) (o : Outcome V)
      → execute hash c.operation c.fingerprint c.write s ≡ ok (t, o, false)
      → (u : Store V) × (perform hash c.write s ≡ ok (u, o))
        × (t.dictionaries ≡ u.dictionaries)
        × (t.values ≡ u.values)
        × (attempt hash c s ≡ t)
  unfolding execute
  execute-perform c s t o h = elim (Option-cases (lookup c.operation s.receipts)) [
    | inr (r, e) ↦ ground arith
    | inl e ↦ elim (Result-cases (perform hash c.write s)) [
      | inr (x, a) ↦ ground arith
      | inl ((u, o'), a) ↦ (u, ground arith, ground arith, ground arith, ground arith)
    ]
  ]

  -- The release that the publication of a dictionary answers with is the one found under its
  -- version, whatever operations were called before and after.
  pub find-publish :
      (cs ds : List (Command V)) (operation fingerprint id : String) (e : Event) (expected : ℕ)
      (now : String) (t : Store V) (r : Release)
      → execute hash operation fingerprint
          (publish_dictionary id e expected now)
          (run hash cs empty)
        ≡ ok (t, released r, false)
      → find_dictionary_release id r.release_version (run hash ds t) ≡ some r
  unfolding find_dictionary_release
  find-publish cs ds operation fingerprint id e expected now t r h =
      let c : Command V = record {
        operation = operation;
        fingerprint = fingerprint;
        write = publish_dictionary id e expected now;
      } in
      let s = run hash cs empty in
      let (k, _) = run-Sound hash cs empty Sound-empty in
      let (u, p, q, _, m) = execute-perform c s t (released r) h in
      let f = published id e expected now s u r p k in
      let (n, _) = attempt-Sound hash c s k in
      let n' : Sound V t = rw (sym m) n in
      let (_, g) = run-Sound hash ds t n' in
      found_release id r.release_version t (run hash ds t) r g (rw q f)

  -- The release of a value that its publication answers with has that value, and is the one found
  -- under its version, whatever operations were called before and after.
  pub find-publish_value :
      (cs ds : List (Command V)) (operation fingerprint digest : String) (e : Event)
      (key now : String) (v : V) (t : Store V) (r : ValueRelease V)
      → execute hash operation fingerprint
          (publish_parameter_value digest e key now v)
          (run hash cs empty)
        ≡ ok (t, value_released r, false)
      → (find_parameter_value key r.value_version (run hash ds t) ≡ some r) × (r.value ≡ v)
  unfolding find_parameter_value
  find-publish_value cs ds operation fingerprint digest e key now v t r h =
      let c : Command V = record {
        operation = operation;
        fingerprint = fingerprint;
        write = publish_parameter_value digest e key now v;
      } in
      let s = run hash cs empty in
      let (k, _) = run-Sound hash cs empty Sound-empty in
      let (u, p, _, q, m) = execute-perform c s t (value_released r) h in
      let (f, x) = published_value digest e key now v s u r p k in
      let (n, _) = attempt-Sound hash c s k in
      let n' : Sound V t = rw (sym m) n in
      let (_, g) = run-Sound hash ds t n' in
      (found_value key r.value_version t (run hash ds t) r g (rw q f), x)
