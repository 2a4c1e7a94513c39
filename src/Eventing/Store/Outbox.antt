-- ===== src/Eventing/Store/Outbox.antt =====
-- The messages of the outbox: each stands once, under its own identifier.
use zsj_crm.Prelude.{
  ℕ, zero, suc, ◌≡◌, refl, sym, subst, ap, ◌∙◌, Bool, true, false, not, ◌&&◌, some, List, [], ◌∷◌,
  String, str_eq, str_eq_self, eq_iff, Dict, lookup, insert, lookup-insert, has, values, select,
  All, All-select, All-select_keep, All-map_implies, take, arith, Option-cases, Bool-cases, inl,
  inr, leb,
}
use zsj_crm.Eventing.Facts.{OutboxRecord}
use zsj_crm.Eventing.Store.{is_due, place, sort, chosen, claimed_by, claim_each, change_row}

module _ {D : Type 0} where
  -- Each message stands under its identifier, and no identifier stands twice.
  abbrev pub is_distinct : Dict (OutboxRecord D) → Bool
  is_distinct [] = true
  is_distinct ((k, row) ∷ rows) = str_eq k row.message_id && (not (has k rows) && is_distinct rows)

  pub is_distinct-insert :
      (row : OutboxRecord D) (rows : Dict (OutboxRecord D))
      → is_distinct rows ≡ true
      → is_distinct (insert row.message_id row rows) ≡ true
  unfolding insert lookup
  is_distinct-insert row [] h = ground (arith, str_eq_self row.message_id)
  is_distinct-insert row ((k, old) ∷ rows) h = elim (Bool-cases (str_eq k row.message_id)) [
    | inl e ↦ ground arith
    | inr e ↦
        let l = lookup-insert row.message_id k row rows in
        let a = eq_iff k row.message_id in
        let b = eq_iff row.message_id k in ground (arith, is_distinct-insert row rows)
  ]

  -- Where a message is found.
  abbrev pub Stands : Dict (OutboxRecord D) → OutboxRecord D → Type 0
  Stands rows row = lookup row.message_id rows ≡ some row

  pub is_distinct-Stands :
      (rows : Dict (OutboxRecord D)) → is_distinct rows ≡ true → All (Stands rows) (values rows)
  unfolding lookup
  is_distinct-Stands [] h = tt
  is_distinct-Stands ((k, row) ∷ rows) h = (
    ground arith,
    All-map_implies (Stands rows) (Stands ((k, row) ∷ rows))
        (λ (x : OutboxRecord D) e. elim (Bool-cases (str_eq k x.message_id)) [
          | inr d ↦ ground arith
          | inl d ↦
              let p : k ≡ x.message_id = (eq_iff k x.message_id).0 d in
              let q : lookup k rows ≡ some x = rw p e in absurd (ground arith)
        ])
        (values rows) (is_distinct-Stands rows (ground arith)),
  )

  pub is_distinct-id :
      (rows : Dict (OutboxRecord D)) (id : String) (row : OutboxRecord D)
      → is_distinct rows ≡ true
      → lookup id rows ≡ some row
      → row.message_id ≡ id
  unfolding lookup
  is_distinct-id [] id row h e = cc
  is_distinct-id ((k, x) ∷ rows) id row h e = elim (Bool-cases (str_eq k id)) [
    | inr d ↦ is_distinct-id rows id row (ground arith) (ground arith)
    | inl d ↦
        let p : k ≡ id = (eq_iff k id).0 d in
        let q : x ≡ row = ground arith in
        let r : k ≡ x.message_id = (eq_iff k x.message_id).0 (ground arith) in
        ap (λ (z : OutboxRecord D). z.message_id) (sym q) ∙ sym r ∙ p
  ]

  All-place :
      (P : OutboxRecord D → Type 0) (row : OutboxRecord D) (rows : List (OutboxRecord D))
      → P row
      → All P rows
      → All P (place row rows)
  All-place P row [] p h = (p, tt)
  All-place P row (x ∷ rows) p h = elim (Bool-cases (leb row.available_at x.available_at)) [
    | inl e ↦ rw e (p, h)
    | inr e ↦ rw e (h.0, All-place P row rows p h.1)
  ]

  All-sort :
      (P : OutboxRecord D → Type 0) (rows : List (OutboxRecord D)) → All P rows → All P (sort rows)
  All-sort P [] h = tt
  All-sort P (x ∷ rows) h = All-place P x (sort rows) h.0 (All-sort P rows h.1)

  All-take :
      (P : OutboxRecord D → Type 0) (n : ℕ) (rows : List (OutboxRecord D))
      → All P rows
      → All P (take n rows)
  All-take P zero rows h = tt
  All-take P (suc n) [] h = tt
  All-take P (suc n) (x ∷ rows) h = (h.0, All-take P n rows h.1)

  -- A message that is not due is not claimed.
  chosen-others :
      (at stale limit : ℕ) (rows : Dict (OutboxRecord D)) (id : String) (row : OutboxRecord D)
      → is_distinct rows ≡ true
      → lookup id rows ≡ some row
      → is_due at stale row ≡ false
      → All (λ (x : OutboxRecord D). str_eq x.message_id id ≡ false) (chosen at stale limit rows)
  chosen-others at stale limit rows id row w e d =
      let due = All-select (is_due at stale) (values rows) in
      let stand =
        All-select_keep (Stands rows) (is_due at stale) (values rows) (is_distinct-Stands rows w) in
      All-take _ limit (sort (select (is_due at stale) (values rows))) (
        All-sort _ (select (is_due at stale) (values rows))
          (both (select (is_due at stale) (values rows)) due stand))
    where
      both :
          (xs : List (OutboxRecord D))
          → All (λ x. is_due at stale x ≡ true) xs
          → All (Stands rows) xs
          → All (λ (x : OutboxRecord D). str_eq x.message_id id ≡ false) xs
      both [] a b = tt
      both (x ∷ xs) a b = (
        elim (Bool-cases (str_eq x.message_id id)) [
          | inr f ↦ f
          | inl f ↦
              let p : x.message_id ≡ id = (eq_iff x.message_id id).0 f in
              let q : lookup id rows ≡ some x = rw (← p) b.0 in
              let r : x ≡ row = ground arith in
              let s : is_due at stale x ≡ false =
                subst (λ z. is_due at stale z ≡ false) (sym r) d in
              absurd (ground (arith, s, a.0))
        ],
        both xs a.1 b.1,
      )

  claim_each-others :
      (token : ℕ → String) (n at : ℕ) (xs : List (OutboxRecord D)) (rows : Dict (OutboxRecord D))
      (id : String)
      → All (λ (x : OutboxRecord D). str_eq x.message_id id ≡ false) xs
      → lookup id (claim_each token n at xs rows) ≡ lookup id rows
  claim_each-others token n at [] rows id h = refl
  claim_each-others token n at (x ∷ xs) rows id h =
      let l = lookup-insert x.message_id id (claimed_by (token n) at x) rows in
      claim_each-others token (suc n) at xs (insert x.message_id (claimed_by (token n) at x) rows)
        id h.1
      ∙ l
      ∙ rw h.0 refl

  pub claim_each-is_distinct :
      (token : ℕ → String) (n at : ℕ) (xs : List (OutboxRecord D)) (rows : Dict (OutboxRecord D))
      → is_distinct rows ≡ true
      → is_distinct (claim_each token n at xs rows) ≡ true
  claim_each-is_distinct token n at [] rows h = h
  claim_each-is_distinct token n at (x ∷ xs) rows h =
      claim_each-is_distinct token (suc n) at xs
        (insert x.message_id (claimed_by (token n) at x) rows)
        (is_distinct-insert (claimed_by (token n) at x) rows h)

  pub claim-others :
      (at stale limit : ℕ) (token : ℕ → String) (rows : Dict (OutboxRecord D)) (id : String)
      (row : OutboxRecord D)
      → is_distinct rows ≡ true
      → lookup id rows ≡ some row
      → is_due at stale row ≡ false
      → lookup id (claim_each token 0 at (chosen at stale limit rows) rows) ≡ some row
  claim-others at stale limit token rows id row w e d =
      claim_each-others token 0 at (chosen at stale limit rows) rows id
        (chosen-others at stale limit rows id row w e d)
      ∙ e

  pub change_row-is_distinct :
      (test : OutboxRecord D → Bool) (f : OutboxRecord D → OutboxRecord D) (id : String)
      (rows : Dict (OutboxRecord D))
      → ((x : OutboxRecord D) → (f x).message_id ≡ x.message_id)
      → is_distinct rows ≡ true
      → is_distinct (change_row test f id rows (lookup id rows)).0 ≡ true
  change_row-is_distinct test f id rows g h = elim (Option-cases (lookup id rows)) [
    | inl e ↦ rw e h
    | inr (x, e) ↦ elim (Bool-cases (test x)) [
      | inr t ↦ rw (e, t) h
      | inl t ↦
          let p : (f x).message_id ≡ id = g x ∙ is_distinct-id rows id x h e in
          let q : is_distinct (insert id (f x) rows) ≡ true =
            subst (λ k. is_distinct (insert k (f x) rows) ≡ true) p
              (is_distinct-insert (f x) rows h) in
          rw (e, t) q
    ]
  ]

  pub change_row-others :
      (test : OutboxRecord D → Bool) (f : OutboxRecord D → OutboxRecord D) (at id : String)
      (rows : Dict (OutboxRecord D)) (row : OutboxRecord D)
      → lookup id rows ≡ some row
      → (str_eq at id && test row) ≡ false
      → lookup id (change_row test f at rows (lookup at rows)).0 ≡ some row
  change_row-others test f at id rows row e n = elim (Option-cases (lookup at rows)) [
    | inl g ↦ rw g e
    | inr (x, g) ↦ elim (Bool-cases (test x)) [
      | inr t ↦ rw (g, t) e
      | inl t ↦
          let l = lookup-insert at id (f x) rows in
          elim (Bool-cases (str_eq at id)) [
            | inr d ↦ rw (g, t) (l ∙ rw d e)
            | inl d ↦
                let p : at ≡ id = (eq_iff at id).0 d in
                let q : lookup id rows ≡ some x = rw (← p) g in
                let r : x ≡ row = ground arith in
                let s : test row ≡ true = subst (λ z. test z ≡ true) r t in absurd (ground arith)
          ]
    ]
  ]
