-- ===== src/Common/Assoc.antt =====
-- Go's `map[string]V` as an association list, in which a key stands at most once when it is built
-- by `insert`. The order of the entries is not that of Go, which has none.
pub mod Distinct
pub mod Sorted
use jwx.Common.{
  String, ◌≡◌, refl, Option, none, some, List, [], ◌∷◌, arith, str_eq, eq_iff, if◌then◌else◌,
}

module _ {ℓ} {V : Type ℓ} where
  -- `delete(m, key)`
  unfoldable pub delete : String → List (String × V) → List (String × V)
  delete key ((at, value) ∷ entries) =
      let rest = delete key entries in if str_eq at key then rest else (at, value) ∷ rest
  delete key [] = []

  -- `m[key] = value`
  unfoldable pub insert : String → V → List (String × V) → List (String × V)
  insert key value ((at, old) ∷ entries) =
      let rest = insert key value entries in
      if str_eq at key then (key, value) ∷ entries else (at, old) ∷ rest
  insert key value [] = (key, value) ∷ []

  -- `value, ok := m[key]`
  unfoldable pub lookup : String → List (String × V) → Option V
  lookup key ((at, value) ∷ entries) =
      let rest = lookup key entries in if str_eq at key then some value else rest
  lookup key [] = none

  pub lookup-delete :
      (key asked : String) (entries : List (String × V))
      → lookup asked (delete key entries)
        ≡ (if str_eq key asked then none else lookup asked entries)
  unfolding lookup delete
  lookup-delete key asked ((at, value) ∷ entries) =
      ground
        (arith, lookup-delete key asked entries, eq_iff at asked, eq_iff key asked, eq_iff at key)
  lookup-delete key asked [] = ground arith

  pub lookup-insert :
      (key asked : String) (value : V) (entries : List (String × V))
      → lookup asked (insert key value entries)
        ≡ (if str_eq key asked then some value else lookup asked entries)
  unfolding lookup insert
  lookup-insert key asked value ((at, old) ∷ entries) = ground (
    arith,
    lookup-insert key asked value entries,
    eq_iff at asked,
    eq_iff key asked,
    eq_iff at key,
  )
  lookup-insert key asked value [] = refl
