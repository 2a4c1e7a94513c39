-- ===== src/Prelude/Maps.antt =====
-- A JavaScript `Map` with string keys: entries in insertion order, as the program iterates over them.
use Prim.Native.String.{String}
use mathlib.Core.Path.{◌≡◌, refl}
use mathlib.Core.Bool.{Bool, true}
use mathlib.Core.Option.{Option, none, some}
use mathlib.Core.List.{List, [], ◌∷◌}
use native.Mathlib.Omega.{arith}
use text.Mathlib.Text.{◌==◌ as str_eq}
use text.Mathlib.TextEquality.{eq_iff}
use zsj_crm.Prelude.Tests.{if◌then◌else◌, is_some}

abbrev pub Dict {ℓ} : Type ℓ → Type ℓ
Dict V = List (String × V)

module _ {ℓ} {V : Type ℓ} where
  -- `map.get(k)`
  unfoldable pub lookup : String → Dict V → Option V
  lookup k [] = none
  lookup k ((j, v) ∷ m) = if str_eq j k then some v else lookup k m

  -- `map.set(k, v)`: a key that is present keeps its place.
  unfoldable pub insert : String → V → Dict V → Dict V
  insert id value [] = (id, value) ∷ []
  insert id value ((k, old) ∷ d) =
      if str_eq k id then (k, value) ∷ d else (k, old) ∷ insert id value d

  -- `map.delete(k)`
  unfoldable pub remove : String → Dict V → Dict V
  remove k [] = []
  remove k ((j, w) ∷ m) = let rest = remove k m in if str_eq j k then rest else (j, w) ∷ rest

  -- `map.has(k)`
  abbrev pub has : String → Dict V → Bool
  has k m = is_some (lookup k m)

  -- `[...map.values()]`
  abbrev pub values : Dict V → List V
  values [] = []
  values ((k, v) ∷ m) = v ∷ values m

  pub lookup-insert :
      (id key : String) (value : V) (d : Dict V)
      → lookup key (insert id value d) ≡ (if str_eq id key then some value else lookup key d)
  unfolding lookup insert
  lookup-insert id key value [] = refl
  lookup-insert id key value ((k, old) ∷ d) =
      ground (arith, lookup-insert id key value d, eq_iff k id, eq_iff k key, eq_iff id key)

  pub lookup-remove :
      (id key : String) (d : Dict V)
      → lookup key (remove id d) ≡ (if str_eq id key then none else lookup key d)
  unfolding lookup remove
  lookup-remove id key [] = ground arith
  lookup-remove id key ((k, old) ∷ d) =
      ground (arith, lookup-remove id key d, eq_iff k id, eq_iff k key, eq_iff id key)

pub str_eq_self : (s : String) → str_eq s s ≡ true
str_eq_self s = (eq_iff s s).1 refl

pub lookup-insert_self {ℓ} :
    {V : Type ℓ} (k : String) (v : V) (m : Dict V) → lookup k (insert k v m) ≡ some v
lookup-insert_self k v m = rw (lookup-insert, str_eq_self) refl
