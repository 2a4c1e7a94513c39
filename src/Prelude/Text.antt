-- ===== src/Prelude/Text.antt =====
-- A JavaScript string as its UTF-16 code units, and the character classes of the program's patterns.
use Prim.Native.Nat.{ℕ}
use mathlib.Core.Bool.{Bool, false, ◌&&◌}
use mathlib.Core.List.{List, [], ◌∷◌}
use zsj_crm.Prelude.Tests.{leb}
use zsj_crm.Prelude.Lists.{all, length}

abbrev pub Text : Type 0
Text = List ℕ

abbrev pub is_lower : ℕ → Bool
is_lower c = leb b'a' c && leb c b'z'

abbrev pub is_upper : ℕ → Bool
is_upper c = leb b'A' c && leb c b'Z'

abbrev pub is_digit : ℕ → Bool
is_digit c = leb b'0' c && leb c b'9'

-- `/^[first][rest]{lo,hi}$/`
abbrev pub matches_pattern : (ℕ → Bool) → (ℕ → Bool) → ℕ → ℕ → Text → Bool
matches_pattern first rest lo hi [] = false
matches_pattern first rest lo hi (c ∷ cs) =
    first c && (all rest cs && (leb lo (length cs) && leb (length cs) hi))
