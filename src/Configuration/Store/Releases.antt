-- ===== src/Configuration/Store/Releases.antt =====
-- The releases of dictionaries and of parameters' values: numbered, kept, and found again.
use zsj_crm.Prelude.{
  ℕ, suc, ◌+◌, ◌==◌, ◌≡◌, refl, Bool, true, false, not, ◌&&◌, List, [], ◌∷◌, ◌++◌, some, arith, any,
  all, find, length, includes,
}
use zsj_crm.Configuration.Facts.{Item, Release}
use zsj_crm.Configuration.Store.{codes, loses_code}

module _ {ℓ} {A : Type ℓ} (version : A → ℕ) where
  -- Versions that follow on one another.
  abbrev pub Numbered : ℕ → List A → Type 0
  Numbered n [] = Unit
  Numbered n (x ∷ xs) = (version x ≡ n) × Numbered (suc n) xs

  pub Numbered-append :
      (n : ℕ) (x : A) (xs : List A)
      → Numbered n xs
      → version x ≡ n + length xs
      → Numbered n (xs ++ x ∷ [])
  Numbered-append n x [] h e = (omega (arith, e), tt)
  Numbered-append n x (y ∷ xs) h e = (h.0, Numbered-append (suc n) x xs h.1 (omega (arith, e)))

  pub find-append :
      (n v : ℕ) (x : A) (xs : List A)
      → Numbered n xs
      → version x ≡ v
      → v ≡ n + length xs
      → find (λ y. version y == v) (xs ++ x ∷ []) ≡ some x
  find-append n v x [] h e f = ground arith
  find-append n v x (y ∷ xs) h e f =
      let q = find-append (suc n) v x xs h.1 e (omega (arith, f)) in let p = h.0 in ground arith

-- Every code of the items is among the others'.
abbrev pub has_codes : List Item → List Item → Bool
has_codes items others = all (λ (i : Item). includes (codes others) i.code) items

-- A later release has every code of an earlier one.
abbrev pub keeps_codes : List Release → Bool
keeps_codes [] = true
keeps_codes (r ∷ rs) = all (λ (q : Release). has_codes r.items q.items) rs && keeps_codes rs

has_codes-any :
    (items others : List Item)
    → any (λ (i : Item). not (includes (codes others) i.code)) items ≡ false
    → has_codes items others ≡ true
has_codes-any [] others h = refl
has_codes-any (i ∷ items) others h = ground (arith, has_codes-any items others)

all-append_one {ℓ} :
    {A : Type ℓ} (p : A → Bool) (xs : List A) (x : A) → all p (xs ++ x ∷ []) ≡ (all p xs && p x)
all-append_one p [] x = ground arith
all-append_one p (y ∷ xs) x = ground (arith, all-append_one p xs x)

pub keeps_codes-append :
    (rs : List Release) (r : Release)
    → loses_code rs r.items ≡ false
    → keeps_codes rs ≡ true
    → keeps_codes (rs ++ r ∷ []) ≡ true
keeps_codes-append [] r h k = refl
keeps_codes-append (q ∷ rs) r h k =
    let p = has_codes-any q.items r.items in
    let a = all-append_one (λ (x : Release). has_codes q.items x.items) rs r in
    ground (arith, keeps_codes-append rs r)
