-- ===== src/Organization/Store/History.antt =====
-- What the operations on one dictionary of facts keep.
use zsj_crm.Prelude.{
  ◌≡◌, refl, sym, inl, inr, ◌⊎◌, false, Option, none, some, String, str_eq, eq_iff, arith, Dict,
  lookup, insert, lookup-insert, Bool-cases,
}
use zsj_crm.Organization.Facts.{ok, Interval, Calendar}
use zsj_crm.Organization.Store.{
  insert_new, assert_absent, close_record, close_found, ends_otherwise,
}

-- The later interval is the earlier one, or the earlier one had no end.
abbrev pub Extends : Interval → Interval → Type 0
Extends before after =
    (after.from ≡ before.from)
    × ((after.to ≡ before.to) ⊎ (before.to ≡ none) ⊎ (before.to ≡ some ""))

closed_end :
    (o : Option String) (to : String)
    → ends_otherwise o to ≡ false
    → (some to ≡ o) ⊎ (o ≡ none) ⊎ (o ≡ some "")
closed_end none to h = inr (inl refl)
closed_end (some e) to h = ground (arith, eq_iff e to, eq_iff e "")

module _ {V : Type 0} where
  -- Every fact of the first dictionary is in the second, and differs from it by a later end at most.
  abbrev pub Preserves : (V → Interval) → (V → Interval → V) → Dict V → Dict V → Type 0
  Preserves get put a b =
      (k : String) (v : V)
      → lookup k a ≡ some v
      → (w : V) × (lookup k b ≡ some w) × (w ≡ put v (get w)) × Extends (get v) (get w)

  module _ (get : V → Interval) (put : V → Interval → V) (put_get : (v : V) → put v (get v) ≡ v)
      (get_put : (v : V) (i : Interval) → get (put v i) ≡ i) where
    pub Preserves-refl : (a : Dict V) → Preserves get put a a
    Preserves-refl a k v h = (v, h, sym (put_get v), (refl, inl refl))

    pub Preserves-insert_new :
        (a b : Dict V) (id : String) (x : V) → insert_new a id x ≡ ok b → Preserves get put a b
    unfolding insert_new
    Preserves-insert_new a b id x h k v e =
        let q : (b ≡ insert id x a) × (lookup id a ≡ none) = ground arith in
        (
          v,
          rw q.0 (ground (arith, lookup-insert id k x a, eq_iff id k)),
          sym (put_get v),
          (refl, inl refl),
        )

    Preserves-close_found :
        (c : Calendar) (a b : Dict V) (id to : String) (o : Option V)
        → lookup id a ≡ o
        → close_found c get put a id to o ≡ ok b
        → Preserves get put a b
    Preserves-close_found c a b id to none l h k v e = cc
    Preserves-close_found c a b id to (some u) l h k v e =
        let i : Interval = record (get u) { to = some to } in
        let q : b ≡ insert id (put u i) a = ground arith in
        elim (Bool-cases (str_eq id k)) [
          | inr s ↦ (
            v,
            rw q (ground (arith, lookup-insert id k (put u i) a)),
            sym (put_get v),
            (refl, inl refl),
          )
          | inl s ↦
              let same : v ≡ u = ground (arith, eq_iff id k) in
              rw same (
                put u i,
                rw q (ground (arith, lookup-insert id k (put u i) a)),
                rw get_put refl,
                rw get_put (refl, closed_end (get u).to to (ground arith)),
              )
        ]

    pub Preserves-close :
        (c : Calendar) (a b : Dict V) (id to : String)
        → close_record c get put a id to ≡ ok b
        → Preserves get put a b
    unfolding close_record
    Preserves-close c a b id to h = Preserves-close_found c a b id to (lookup id a) refl h

module _ {V : Type 0} where
  abbrev pub Keeps : Dict V → Dict V → Type 0
  Keeps a b = (k : String) (v : V) → lookup k a ≡ some v → lookup k b ≡ some v

  pub Keeps-insert :
      (a : Dict V) (id : String) (x : V) → lookup id a ≡ none → Keeps a (insert id x a)
  Keeps-insert a id x l k v e = ground (arith, lookup-insert id k x a, eq_iff id k)

  pub insert_new-absent :
      (a : Dict V) (id : String) (x : V) (u : Unit {0})
      → assert_absent a id ≡ ok u
      → insert_new a id x ≡ ok (insert id x a)
  unfolding insert_new
  insert_new-absent a id x u h = rw h refl

  pub Keeps-insert_new : (a b : Dict V) (id : String) (x : V) → insert_new a id x ≡ ok b → Keeps a b
  unfolding insert_new
  Keeps-insert_new a b id x h k v e =
      let q : (b ≡ insert id x a) × (lookup id a ≡ none) = ground arith in
      rw q.0 (Keeps-insert a id x q.1 k v e)
