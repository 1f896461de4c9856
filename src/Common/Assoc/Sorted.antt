-- ===== src/Common/Assoc/Sorted.antt =====
-- Association lists sorted by their keys: what `sort.Slice` or `sort.Strings` makes of different keys.
use jwx.Common.{
  String, ◌≡◌, refl, ◌∙◌, true, none, some, List, [], ◌∷◌, arith, str_eq, eq_iff, if◌then◌else◌,
}
use jwx.Common.Assoc.{lookup}
use jwx.Common.Assoc.Distinct.{Distinct}
use jwx.Common.TextOrder.{str_lt, str_lt_irrefl, str_lt_trans, str_lt_total}

module _ {ℓ} {V : Type ℓ} where
  unfoldable pub insert_sorted : String → V → List (String × V) → List (String × V)
  insert_sorted k v [] = (k, v) ∷ []
  insert_sorted k v ((j, w) ∷ m) =
      let rest = insert_sorted k v m in if str_lt j k then (j, w) ∷ rest else (k, v) ∷ (j, w) ∷ m

  unfoldable pub sort_pairs : List (String × V) → List (String × V)
  unfolding insert_sorted
  sort_pairs [] = []
  sort_pairs ((k, v) ∷ m) = insert_sorted k v (sort_pairs m)

  -- Every key is above `k`.
  abbrev pub Above : String → List (String × V) → Type ℓ
  Above k [] = Unit {ℓ}
  Above k ((j, v) ∷ m) = (str_lt k j ≡ true) × Above k m

  abbrev pub IsSorted : List (String × V) → Type ℓ
  IsSorted [] = Unit {ℓ}
  IsSorted ((k, v) ∷ m) = Above k m × IsSorted m

  Above-trans : (i j : String) (m : List (String × V)) → str_lt i j ≡ true → Above j m → Above i m
  Above-trans i j [] h a = tt
  Above-trans i j ((k, v) ∷ m) h a = (str_lt_trans i j k h (a.0), Above-trans i j m h (a.1))

  lookup-Above : (k : String) (m : List (String × V)) → Above k m → lookup k m ≡ none
  unfolding lookup
  lookup-Above k [] a = refl
  lookup-Above k ((j, v) ∷ m) a =
      ground (arith, lookup-Above k m (a.1), eq_iff j k, str_lt_irrefl k, a.0)

  Above-insert_sorted :
      (i k : String) (v : V) (m : List (String × V))
      → str_lt i k ≡ true
      → Above i m
      → Above i (insert_sorted k v m)
  unfolding insert_sorted
  Above-insert_sorted i k v [] h a = (h, tt)
  Above-insert_sorted i k v ((j, w) ∷ m) h a = ground (arith, Above-insert_sorted i k v m h (a.1))

  insert_sorted-IsSorted :
      (k : String) (v : V) (m : List (String × V))
      → lookup k m ≡ none
      → IsSorted m
      → IsSorted (insert_sorted k v m)
  unfolding insert_sorted lookup
  insert_sorted-IsSorted k v [] n s = (tt, tt)
  insert_sorted-IsSorted k v ((j, w) ∷ m) n s = ground (
    arith,
    eq_iff j k,
    str_lt_total j k,
    Above-insert_sorted j k v m,
    Above-trans k j m,
    insert_sorted-IsSorted k v m,
  )

  lookup-insert_sorted :
      (n k : String) (v : V) (m : List (String × V))
      → lookup k m ≡ none
      → lookup n (insert_sorted k v m) ≡ (if str_eq k n then some v else lookup n m)
  unfolding insert_sorted lookup
  lookup-insert_sorted n k v [] h = refl
  lookup-insert_sorted n k v ((j, w) ∷ m) h =
      ground (arith, eq_iff j k, eq_iff j n, eq_iff k n, lookup-insert_sorted n k v m)

  -- Sorting keeps what is found under every key.
  pub lookup-sort_pairs :
      (n : String) (m : List (String × V)) → Distinct m → lookup n (sort_pairs m) ≡ lookup n m
  unfolding sort_pairs lookup
  lookup-sort_pairs n [] d = refl
  lookup-sort_pairs n ((k, v) ∷ m) d = ground (
    arith,
    lookup-sort_pairs n m (d.1),
    lookup-sort_pairs k m (d.1),
    lookup-insert_sorted n k v (sort_pairs m),
  )

  pub sort_pairs-IsSorted : (m : List (String × V)) → Distinct m → IsSorted (sort_pairs m)
  unfolding sort_pairs
  sort_pairs-IsSorted [] d = tt
  sort_pairs-IsSorted ((k, v) ∷ m) d =
      insert_sorted-IsSorted k v (sort_pairs m) (lookup-sort_pairs k m (d.1) ∙ d.0)
        (sort_pairs-IsSorted m (d.1))

  first_key :
      (j k : String) (v w : V) (m l : List (String × V))
      → IsSorted ((j, v) ∷ m)
      → IsSorted ((k, w) ∷ l)
      → ((n : String) → lookup n ((j, v) ∷ m) ≡ lookup n ((k, w) ∷ l))
      → j ≡ k
  unfolding lookup
  first_key j k v w m l s t h = ground (
    arith,
    h j,
    h k,
    eq_iff j j,
    eq_iff k k,
    eq_iff j k,
    eq_iff k j,
    str_lt_total j k,
    lookup-Above j l,
    lookup-Above k m,
    Above-trans j k l,
    Above-trans k j m,
  )

  tail_lookup :
      (n j k : String) (v w : V) (m l : List (String × V))
      → Above j m
      → Above k l
      → j ≡ k
      → lookup n ((j, v) ∷ m) ≡ lookup n ((k, w) ∷ l)
      → lookup n m ≡ lookup n l
  unfolding lookup
  tail_lookup n j k v w m l a b e h =
      ground (arith, e, lookup-Above j m a, lookup-Above k l b, eq_iff j n, eq_iff k n)

  pub IsSorted-Distinct : (m : List (String × V)) → IsSorted m → Distinct m
  IsSorted-Distinct [] s = tt
  IsSorted-Distinct ((k, v) ∷ m) s = (lookup-Above k m (s.0), IsSorted-Distinct m (s.1))

  -- Two sorted lists in which the same is found under every key are the same list.
  pub IsSorted-ext :
      (m l : List (String × V))
      → IsSorted m
      → IsSorted l
      → ((n : String) → lookup n m ≡ lookup n l)
      → m ≡ l
  unfolding lookup
  IsSorted-ext [] [] s t h = refl
  IsSorted-ext [] ((k, v) ∷ l) s t h = absurd (ground (arith, h k, eq_iff k k))
  IsSorted-ext ((k, v) ∷ m) [] s t h = absurd (ground (arith, h k, eq_iff k k))
  IsSorted-ext ((j, v) ∷ m) ((k, w) ∷ l) s t h =
      let same : j ≡ k = first_key j k v w m l s t h in
      let value : v ≡ w = ground (arith, h j, eq_iff j j, eq_iff k j, same) in
      let tails : m ≡ l =
        IsSorted-ext m l (s.1) (t.1) (λ n. tail_lookup n j k v w m l (s.0) (t.0) same (h n)) in
      cc
