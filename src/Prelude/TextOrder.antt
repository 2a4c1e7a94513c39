-- ===== src/Prelude/TextOrder.antt =====
-- The order of texts that `<` and `<=` stand for: by the code of the first character that differs.
use Prim.Native.String.compare
use Prim.Native.String.{String, [], ◌∷◌, compare}
use mathlib.Core.Path.{◌≡◌, refl}
use mathlib.Core.Bool.{Bool, true, false}
use native.Mathlib.Omega.{arith}
use text.Mathlib.Text.{is_lt, is_le}

unfoldable pub text_lt : String → String → Bool
text_lt s t = is_lt (compare s t)

unfoldable pub text_le : String → String → Bool
text_le s t = is_le (compare s t)

pub text_le-lt_trans :
    (a b c : String) → text_le a b ≡ true → text_lt b c ≡ true → text_lt a c ≡ true
unfolding text_le text_lt
text_le-lt_trans [] [] c h k = k
text_le-lt_trans [] (y ∷ b) [] h k = ground (arith, compare.cons-nil y b)
text_le-lt_trans [] (y ∷ b) (z ∷ c) h k = ground (arith, compare.nil-cons z c)
text_le-lt_trans (x ∷ a) [] c h k = ground (arith, compare.cons-nil x a)
text_le-lt_trans (x ∷ a) (y ∷ b) [] h k = ground (arith, compare.cons-nil y b)
text_le-lt_trans (x ∷ a) (y ∷ b) (z ∷ c) h k = ground (
  arith,
  text_le-lt_trans a b c,
  compare.cons-cons x y a b,
  compare.cons-cons y z b c,
  compare.cons-cons x z a c,
)

pub text_lt-le_trans :
    (a b c : String) → text_lt a b ≡ true → text_le b c ≡ true → text_lt a c ≡ true
unfolding text_le text_lt
text_lt-le_trans [] [] c h k = ground (arith, compare.nil-nil)
text_lt-le_trans [] (y ∷ b) [] h k = ground (arith, compare.cons-nil y b)
text_lt-le_trans [] (y ∷ b) (z ∷ c) h k = ground (arith, compare.nil-cons z c)
text_lt-le_trans (x ∷ a) [] c h k = ground (arith, compare.cons-nil x a)
text_lt-le_trans (x ∷ a) (y ∷ b) [] h k = ground (arith, compare.cons-nil y b)
text_lt-le_trans (x ∷ a) (y ∷ b) (z ∷ c) h k = ground (
  arith,
  text_lt-le_trans a b c,
  compare.cons-cons x y a b,
  compare.cons-cons y z b c,
  compare.cons-cons x z a c,
)

pub text_le_total : (a b : String) → text_lt a b ≡ false → text_le b a ≡ true
unfolding text_le text_lt
text_le_total [] [] h = refl
text_le_total [] (y ∷ b) h = ground (arith, compare.nil-cons y b)
text_le_total (x ∷ a) [] h = ground (arith, compare.nil-cons x a)
text_le_total (x ∷ a) (y ∷ b) h =
    ground (arith, text_le_total a b, compare.cons-cons x y a b, compare.cons-cons y x b a)

pub text_lt_irrefl : (a : String) → text_lt a a ≡ false
unfolding text_lt
text_lt_irrefl [] = refl
text_lt_irrefl (x ∷ a) = ground (arith, text_lt_irrefl a, compare.cons-cons x x a a)

pub text_lt_weaken : (a b : String) → text_lt a b ≡ true → text_le a b ≡ true
unfolding text_le text_lt
text_lt_weaken a b h = ground arith
