-- ===== src/Organization/Intervals.antt =====
-- What the tests on effective intervals mean, instant by instant.
use zsj_crm.Prelude.{
  ℕ, ◌<◌, ◌≡◌, refl, ◌↔◌, inl, inr, true, Option, none, some, String, str_eq, eq_iff, arith,
  Option-cases, Bool-cases, leb,
}
use mathlib.Core.Path.{subst}
use zsj_crm.Organization.Facts.{
  Result-cases, later_end, ends_after, begins_before, ok, Interval, Calendar, require_timestamp,
  require_interval, is_active, intervals_overlap, interval_contains,
}

module _ (c : Calendar) where
  -- An interval has a beginning, and an end after it or none.
  abbrev EndsAfter : ℕ → Option String → Type 0
  EndsAfter f none = Unit
  EndsAfter f (some s) = (t : ℕ) × (c.parse s ≡ some t) × (f < t)

  timestamp-ok : (s : String) (t : ℕ) → require_timestamp c s ≡ ok t → c.parse s ≡ some t
  unfolding require_timestamp
  timestamp-ok s t h = ground arith

  end-EndsAfter : (f : ℕ) (o : Option String) → later_end c f o ≡ ok tt → EndsAfter f o
  end-EndsAfter f none h = tt
  end-EndsAfter f (some s) h = elim (Result-cases (require_timestamp c s)) [
    | inl (t, e) ↦ (t, timestamp-ok s t e, ground arith)
    | inr (x, e) ↦ ground arith
  ]

  span :
      (i : Interval)
      → require_interval c i ≡ ok tt
      → (f : ℕ) × (c.parse i.from ≡ some f) × EndsAfter f i.to
  unfolding require_interval
  span i h = elim (Result-cases (require_timestamp c i.from)) [
    | inl (f, e) ↦ (f, timestamp-ok i.from f e, end-EndsAfter f i.to (ground arith))
    | inr (x, e) ↦ ground arith
  ]

  -- Every instant at which the inner interval is active is one at which the outer is.
  abbrev pub Covers : Interval → Interval → Type 0
  Covers outer inner = (at : String) → is_active c inner at ≡ true → is_active c outer at ≡ true

  -- The four cases of the two ends, over the instants.
  contains-Covers :
      (outer inner : Interval) (F f : ℕ)
      → c.parse outer.from ≡ some F
      → c.parse inner.from ≡ some f
      → EndsAfter F outer.to
      → EndsAfter f inner.to
      → interval_contains c outer inner ≡ true
      → Covers outer inner
  unfolding interval_contains is_active ends_after
  contains-Covers outer inner F f p q u v h at a = elim (Option-cases (c.parse at)) [
    | inl n ↦ ground arith
    | inr (t, e) ↦ ground arith
  ]

  Covers-contains :
      (outer inner : Interval) (F f : ℕ)
      → c.parse outer.from ≡ some F
      → c.parse inner.from ≡ some f
      → EndsAfter F outer.to
      → EndsAfter f inner.to
      → Covers outer inner
      → interval_contains c outer inner ≡ true
  unfolding interval_contains is_active ends_after
  Covers-contains outer inner F f p q u v h = elim (Option-cases outer.to) [
    | inl n ↦ ground (arith, h inner.from)
    | inr (s, e) ↦ elim (Option-cases inner.to) [
      | inl n ↦ ground (arith, h inner.from, h s)
      | inr (t, d) ↦ ground (arith, h inner.from, h s)
    ]
  ]

  -- For two intervals that passed validation, `intervalContains` says exactly that the outer one is
  -- active at every instant at which the inner one is.
  pub interval_contains_iff :
      (outer inner : Interval)
      → require_interval c outer ≡ ok tt
      → require_interval c inner ≡ ok tt
      → (interval_contains c outer inner ≡ true) ↔ Covers outer inner
  interval_contains_iff outer inner h k =
      let (F, p, u) = span outer h in
      let (f, q, v) = span inner k in
      (contains-Covers outer inner F f p q u v, Covers-contains outer inner F f p q u v)

  -- Some instant lies in both intervals.
  abbrev pub Meet : Interval → Interval → Type 0
  Meet l r = (at : String) × (is_active c l at ≡ true) × (is_active c r at ≡ true)

  ends_after-own : (f : ℕ) (e : Option String) → EndsAfter f e → ends_after c (some f) e ≡ true
  unfolding ends_after
  ends_after-own f none v = refl
  ends_after-own f (some s) v = ground arith

  begins_before-eq :
      (f a : ℕ) (e : Option String)
      → c.parse "" ≡ none
      → EndsAfter f e
      → begins_before c (some a) e ≡ ends_after c (some a) e
  unfolding ends_after begins_before
  begins_before-eq f a none z v = refl
  begins_before-eq f a (some s) z (t, p, lt) = elim (Bool-cases (str_eq s "")) [
    | inl e ↦ let w = subst (λ x. c.parse x ≡ some t) ((eq_iff s "").0 e) p in cc
    | inr e ↦ rw e refl
  ]

  overlap-Meet :
      (l r : Interval) (F f : ℕ)
      → c.parse "" ≡ none
      → c.parse l.from ≡ some F
      → c.parse r.from ≡ some f
      → EndsAfter F l.to
      → EndsAfter f r.to
      → intervals_overlap c l r ≡ true
      → Meet l r
  unfolding intervals_overlap is_active
  overlap-Meet l r F f z p q u v h =
      let a : ends_after c (some F) r.to ≡ true = ground (arith, begins_before-eq f F r.to z v) in
      let b : ends_after c (some f) l.to ≡ true = ground (arith, begins_before-eq F f l.to z u) in
      elim (Bool-cases (leb F f)) [
        | inl later ↦ (r.from, ground arith, ground (arith, ends_after-own f r.to v))
        | inr earlier ↦ (l.from, ground (arith, ends_after-own F l.to u), ground arith)
      ]

  Meet-overlap :
      (l r : Interval) (F f : ℕ)
      → c.parse "" ≡ none
      → c.parse l.from ≡ some F
      → c.parse r.from ≡ some f
      → EndsAfter F l.to
      → EndsAfter f r.to
      → Meet l r
      → intervals_overlap c l r ≡ true
  unfolding intervals_overlap is_active ends_after
  Meet-overlap l r F f z p q u v (at, a, b) = elim (Option-cases (c.parse at)) [
    | inl n ↦ ground arith
    | inr (t, e) ↦ ground (arith, begins_before-eq f F r.to z v, begins_before-eq F f l.to z u)
  ]

  -- For two intervals that passed validation, `intervalsOverlap` says exactly that some instant lies in
  -- both, given that the empty text is no date.
  pub intervals_overlap_iff :
      (l r : Interval)
      → c.parse "" ≡ none
      → require_interval c l ≡ ok tt
      → require_interval c r ≡ ok tt
      → (intervals_overlap c l r ≡ true) ↔ Meet l r
  intervals_overlap_iff l r z h k =
      let (F, p, u) = span l h in
      let (f, q, v) = span r k in (overlap-Meet l r F f z p q u v, Meet-overlap l r F f z p q u v)
