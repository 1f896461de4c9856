-- ===== src/Fields/Merge.antt =====
-- `Copy` and `mergeHeaders` of jws/headers.go.
use jwx.Common.{
  ◌≡◌, refl, sym, ap, ◌∙◌, none, some, String, List, [], ◌∷◌, arith, ok, str_eq, eq_iff,
  if◌then◌else◌,
}
use jwx.Common.Assoc.{lookup, lookup-insert}
use jwx.Common.Assoc.Distinct.{Distinct, or_else}
use jwx.Common.Assoc.Sorted.{IsSorted-Distinct}
use jwx.Fields.{
  Schema, Fields, no_fields, params, make_pairs, get_field, set_field, copy_pairs, merge_headers,
}
use jwx.Fields.Laws.{
  IsValid, stored, store, store-IsValid, set_field_lem, lookup-assign, no_fields-IsValid,
}
use jwx.Fields.Pairs.{make_pairs_lem}

module _ {V Raw : Type 0} (schema : Schema V Raw) where
  -- The pairs stored one after the other.
  unfoldable pub store_all : List (String × V) → Fields V → Fields V
  store_all [] dst = dst
  store_all ((k, v) ∷ pairs) dst = store_all pairs (store schema dst k (some v))

  pub get-store-some :
      (h : Fields V) (k n : String) (v : V)
      → get_field schema (store schema h k (some v)) n
        ≡ (if str_eq k n then some v else get_field schema h n)
  unfolding get_field
  get-store-some h k n v = ground (
    arith,
    eq_iff k n,
    lookup-assign schema k n (some v) h.standard,
    lookup-insert k n v (params h),
  )

  pub get-store_all :
      (n : String) (pairs : List (String × V)) (dst : Fields V)
      → Distinct pairs
      → get_field schema (store_all pairs dst) n ≡ or_else (lookup n pairs) (get_field schema dst n)
  unfolding store_all lookup
  get-store_all n [] dst d = refl
  get-store_all n ((k, v) ∷ pairs) dst d =
      get-store_all n pairs (store schema dst k (some v)) (d.1)
      ∙ ground (arith, eq_iff k n, get-store-some dst k n v, d.0)

  pub store_all-IsValid :
      (pairs : List (String × V)) (dst : Fields V)
      → IsValid schema dst
      → IsValid schema (store_all pairs dst)
  unfolding store_all
  store_all-IsValid [] dst v = v
  store_all-IsValid ((k, w) ∷ pairs) dst v =
      store_all-IsValid pairs (store schema dst k (some w)) (store-IsValid schema dst k (some w) v)

  -- Every value of the pairs is stored as it is.
  abbrev pub Accepted : List (String × V) → Type 0
  Accepted pairs =
      (n : String) (v : V) → lookup n pairs ≡ some v → stored schema n v ≡ some (some v)

  -- The same for what `Get` returns.
  abbrev pub Settable : Fields V → Type 0
  Settable h =
      (n : String) (v : V) → get_field schema h n ≡ some v → stored schema n v ≡ some (some v)

  copy_pairs_lem :
      (pairs : List (String × V)) (dst : Fields V)
      → Distinct pairs
      → Accepted pairs
      → copy_pairs schema pairs dst ≡ ok (store_all pairs dst)
  unfolding copy_pairs store_all lookup
  copy_pairs_lem [] dst d a = refl
  copy_pairs_lem ((k, v) ∷ pairs) dst d a =
      let own : stored schema k v ≡ some (some v) = a k v (ground (arith, eq_iff k k)) in
      let set : set_field schema dst k v ≡ ok (store schema dst k (some v)) =
        set_field_lem schema dst k v ∙ rw own refl in
      rw set (
        copy_pairs_lem pairs (store schema dst k (some v)) (d.1)
          (λ n w e. a n w (ground (arith, eq_iff k n, d.0, e))))

  pub get-no_fields : (n : String) → get_field schema no_fields n ≡ none
  unfolding get_field lookup
  get-no_fields n = ground arith

  pub copy_lem :
      (h dst : Fields V)
      → IsValid schema h
      → Settable h
      → IsValid schema dst
      → (g : Fields V) × (copy_pairs schema (make_pairs h) dst ≡ ok g)
        × IsValid schema g
        × ((n : String)
            → get_field schema g n ≡ or_else (get_field schema h n) (get_field schema dst n))
  copy_lem h dst v s w =
      let (sorted, looks) = make_pairs_lem schema h v in
      let d = IsSorted-Distinct (make_pairs h) sorted in
      (
        store_all (make_pairs h) dst,
        copy_pairs_lem (make_pairs h) dst d (λ n x e. s n x (sym (looks n) ∙ e)),
        store_all-IsValid (make_pairs h) dst w,
        λ n.
            get-store_all n (make_pairs h) dst d
            ∙ ap (λ o. or_else o (get_field schema dst n)) (looks n),
      )

  -- Merging two headers always succeeds, and gives for every name what the second has, or else what the
  -- first has, if each takes its own values back.
  pub get-merge_headers :
      (h1 h2 : Fields V)
      → IsValid schema h1
      → IsValid schema h2
      → Settable h1
      → Settable h2
      → (g : Fields V) × (merge_headers schema (some h1) (some h2) ≡ ok g)
        × IsValid schema g
        × ((n : String)
            → get_field schema g n ≡ or_else (get_field schema h2 n) (get_field schema h1 n))
  unfolding merge_headers
  get-merge_headers h1 h2 v1 v2 s1 s2 =
      let (g1, copied, w1, looks1) = copy_lem h1 no_fields v1 s1 (no_fields-IsValid schema) in
      let (g2, again, w2, looks2) = copy_lem h2 g1 v2 s2 w1 in
      (
        g2,
        rw copied again,
        w2,
        λ n.
            looks2 n
            ∙ ap (or_else (get_field schema h2 n)) (looks1 n ∙ ground (arith, get-no_fields n)),
      )
