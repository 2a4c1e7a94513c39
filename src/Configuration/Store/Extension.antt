-- ===== src/Configuration/Store/Extension.antt =====
-- A dictionary of lists, one of which goes on with a further element.
use zsj_crm.Prelude.{
  ℕ, suc, ◌≡◌, sym, inl, inr, true, false, List, [], ◌∷◌, ◌++◌, some, String, str_eq, eq_iff, arith,
  Dict, lookup, insert, lookup-insert, Bool-cases, length, if◌then◌else◌,
}
use zsj_crm.Prelude.Growth.{Extends, append_nil}
use zsj_crm.Configuration.Facts.{Draft, Release}
use zsj_crm.Configuration.Store.{loses_code, or_empty}
use zsj_crm.Configuration.Store.Releases.{
  Numbered, Numbered-append, keeps_codes, keeps_codes-append,
}

or_empty-insert :
    {A : Type 0} (id key : String) (x : A) (m : Dict (List A))
    → or_empty (lookup key (insert id (or_empty (lookup id m) ++ x ∷ []) m))
      ≡ (if str_eq id key then or_empty (lookup key m) ++ x ∷ [] else or_empty (lookup key m))
or_empty-insert id key x m =
    ground (arith, lookup-insert id key (or_empty (lookup id m) ++ x ∷ []) m, eq_iff id key)

pub Extends-insert :
    {A : Type 0} (id key : String) (x : A) (m : Dict (List A))
    → Extends
        (or_empty (lookup key m))
        (or_empty (lookup key (insert id (or_empty (lookup id m) ++ x ∷ []) m)))
Extends-insert id key x m = elim (Bool-cases (str_eq id key)) [
  | inl e ↦ (x ∷ [], ground (arith, or_empty-insert id key x m))
  | inr e ↦ (
    [],
    let q = sym (append_nil (or_empty (lookup key m))) in
        ground (arith, or_empty-insert id key x m),
  )
]

-- A list that gets an element of the next number stays numbered.
pub Numbered-insert :
    {A : Type 0} (version : A → ℕ) (id key : String) (x : A) (m : Dict (List A))
    → version x ≡ suc (length (or_empty (lookup id m)))
    → ((k : String) → Numbered version 1 (or_empty (lookup k m)))
    → Numbered version 1 (or_empty (lookup key (insert id (or_empty (lookup id m) ++ x ∷ []) m)))
Numbered-insert version id key x m e h = elim (Bool-cases (str_eq id key)) [
  | inl f ↦
      let g : id ≡ key = (eq_iff id key).0 f in
      let e' : version x ≡ suc (length (or_empty (lookup key m))) = rw (sym g) e in
      rw (or_empty-insert id key x m, f)
        (Numbered-append version 1 x (or_empty (lookup key m)) (h key) (omega (arith, e')))
  | inr f ↦ rw (or_empty-insert id key x m, f) (h key)
]

pub keyed-insert :
    (m : Dict Draft) (d : Draft)
    → ((id : String) (x : Draft) → lookup id m ≡ some x → x.dictionary_id ≡ id)
    → (id : String) (x : Draft) → lookup id (insert d.dictionary_id d m) ≡ some x
    → x.dictionary_id ≡ id
keyed-insert m d h id x e =
    let q = h id x in
    ground (arith, lookup-insert d.dictionary_id id d m, eq_iff d.dictionary_id id)

pub kept-insert :
    (m : Dict (List Release)) (id key : String) (r : Release)
    → loses_code (or_empty (lookup id m)) r.items ≡ false
    → ((k : String) → keeps_codes (or_empty (lookup k m)) ≡ true)
    → keeps_codes (or_empty (lookup key (insert id (or_empty (lookup id m) ++ r ∷ []) m))) ≡ true
kept-insert m id key r h k = elim (Bool-cases (str_eq id key)) [
  | inl f ↦
      let g : id ≡ key = (eq_iff id key).0 f in
      let l : loses_code (or_empty (lookup key m)) r.items ≡ false = rw (sym g) h in
      rw (or_empty-insert id key r m, f) (keeps_codes-append (or_empty (lookup key m)) r l (k key))
  | inr f ↦ rw (or_empty-insert id key r m, f) (k key)
]
