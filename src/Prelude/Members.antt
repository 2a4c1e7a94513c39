-- ===== src/Prelude/Members.antt =====
-- What holds of every element, carried through the operations on lists, and of what a dictionary gives.
use Prim.Native.String.{String}
use mathlib.Core.Path.{◌≡◌, refl, subst}
use mathlib.Core.Logic.{inl, inr}
use mathlib.Core.Bool.{Bool, true, not}
use mathlib.Core.Option.{some}
use mathlib.Core.List.{List, [], ◌∷◌, map}
use native.Mathlib.Omega.{arith}
use text.Mathlib.Text.{◌==◌ as str_eq}
use text.Mathlib.TextEquality.{eq_iff}
use zsj_crm.Prelude.Tests.{Bool-cases}
use zsj_crm.Prelude.Lists.{All, Any, All-map_implies, select, distinct}
use zsj_crm.Prelude.Maps.{Dict, lookup, values}

-- Every element of a list is one of its elements.
pub All-Any_self : {A : Type 0} (xs : List A) → All (λ x. Any (λ y. y ≡ x) xs) xs
All-Any_self [] = tt
All-Any_self (x ∷ xs) = (
  inl refl,
  All-map_implies (λ y. Any (λ z. z ≡ y) xs) (λ y. Any (λ z. z ≡ y) (x ∷ xs)) (λ y h. inr h) xs
      (All-Any_self xs),
)

pub All-select_inv :
    {A : Type 0} (P : A → Type 0) (p : A → Bool) (xs : List A)
    → All P (select p xs)
    → All (λ x. p x ≡ true → P x) xs
All-select_inv P p [] h = tt
All-select_inv P p (x ∷ xs) h = elim (Bool-cases (p x)) [
  | inl e ↦ let k : All P (x ∷ select p xs) = rw e at h in (λ _. k.0, All-select_inv P p xs k.1)
  | inr e ↦
      let k : All P (select p xs) = rw e at h in
      (λ t. absurd (ground arith), All-select_inv P p xs k)
]

pub All-map_inv :
    {A B : Type 0} (P : B → Type 0) (f : A → B) (xs : List A)
    → All P (map f xs)
    → All (λ x. P (f x)) xs
All-map_inv P f [] h = tt
All-map_inv P f (x ∷ xs) h = (h.0, All-map_inv P f xs h.1)

pub All-distinct_inv : (P : String → Type 0) (xs : List String) → All P (distinct xs) → All P xs
All-distinct_inv P [] h = tt
All-distinct_inv P (x ∷ xs) h = (
  h.0,
  All-distinct_inv P xs (
      All-map_implies (λ y. not (str_eq x y) ≡ true → P y) P
        (λ y k. elim (Bool-cases (str_eq x y)) [
          | inl e ↦ subst P ((eq_iff x y).0 e) h.0
          | inr e ↦ k (ground arith)
        ])
        (distinct xs) (All-select_inv P (λ y. not (str_eq x y)) (distinct xs) h.1)),
)

pub All-lookup :
    {V : Type 0} (P : V → Type 0) (d : Dict V) (k : String) (v : V)
    → All P (values d)
    → lookup k d ≡ some v
    → P v
unfolding lookup
All-lookup P [] k v h e = cc
All-lookup P ((j, w) ∷ d) k v h e = elim (Bool-cases (str_eq j k)) [
  | inl f ↦ let g : w ≡ v = ground arith in subst P g h.0
  | inr f ↦ All-lookup P d k v h.1 (ground arith)
]
