-- ===== src/Common/Assoc/Distinct.antt =====
-- Association lists in which no key stands twice, as `insert` and `delete` keep them.
use jwx.Common.{String, ◌≡◌, ◌⊎◌, refl, Option, none, some, List, [], ◌∷◌, ◌++◌, arith, eq_iff}
use jwx.Common.Assoc.{lookup, insert, delete, lookup-insert, lookup-delete}

-- The first of two that is there.
abbrev pub or_else {ℓ} : {V : Type ℓ} → Option V → Option V → Option V
or_else none o = o
or_else (some v) o = some v

module _ {ℓ} {V : Type ℓ} where
  abbrev pub Distinct : List (String × V) → Type ℓ
  Distinct [] = Unit {ℓ}
  Distinct ((k, v) ∷ m) = (lookup k m ≡ none) × Distinct m

  pub lookup-append :
      (n : String) (m l : List (String × V)) → lookup n (m ++ l) ≡ or_else (lookup n m) (lookup n l)
  unfolding lookup
  lookup-append n [] l = refl
  lookup-append n ((k, v) ∷ m) l = ground (arith, lookup-append n m l)

  pub Distinct-insert :
      (k : String) (v : V) (m : List (String × V)) → Distinct m → Distinct (insert k v m)
  unfolding insert lookup
  Distinct-insert k v [] d = (refl, tt)
  Distinct-insert k v ((j, w) ∷ m) d =
      ground (arith, eq_iff j k, eq_iff k j, lookup-insert k j v m, Distinct-insert k v m (d.1))

  pub Distinct-delete : (k : String) (m : List (String × V)) → Distinct m → Distinct (delete k m)
  unfolding delete
  Distinct-delete k [] d = tt
  Distinct-delete k ((j, w) ∷ m) d = ground (arith, lookup-delete k j m, Distinct-delete k m (d.1))

  -- No key of the one is a key of the other.
  abbrev pub Apart : List (String × V) → List (String × V) → Type ℓ
  Apart m l = (n : String) → (lookup n m ≡ none) ⊎ (lookup n l ≡ none)

  pub Distinct-append :
      (m l : List (String × V)) → Distinct m → Distinct l → Apart m l → Distinct (m ++ l)
  unfolding lookup
  Distinct-append [] l d e a = e
  Distinct-append ((k, v) ∷ m) l d e a = (
    ground (arith, lookup-append k m l, a k, eq_iff k k),
    Distinct-append m l (d.1) e (λ n. rest n),
  )
    where
      rest : (n : String) → (lookup n m ≡ none) ⊎ (lookup n l ≡ none)
      rest n = ground (arith, a n, d.0, eq_iff k n)
