-- ===== src/Fields/Pairs.antt =====
-- `makePairs` of the generated objects, which `MarshalJSON`, `Iterate` and `Copy` go by.
use jwx.Common.{◌≡◌, inl, inr, refl, sym, ◌∙◌, Option, String, ◌++◌, arith, Bool-cases}
use jwx.Common.Bytes.{Bytes}
use jwx.Common.Assoc.{lookup}
use jwx.Common.Assoc.Distinct.{Distinct, Apart, Distinct-append, lookup-append}
use jwx.Common.Assoc.Sorted.{IsSorted, lookup-sort_pairs, sort_pairs-IsSorted, IsSorted-ext}
use jwx.Fields.{Schema, Fields, params, make_pairs, get_field, marshal_json}
use jwx.Fields.Laws.{IsValid}

module _ {V Raw : Type 0} (schema : Schema V Raw) where
  apart : (h : Fields V) → IsValid schema h → Apart h.standard (params h)
  apart h v n = elim (Bool-cases (schema.known n)) [
    | inl known ↦ inr (v.params_unknown n known)
    | inr unknown ↦ inl (v.fields_known n unknown)
  ]

  pub Distinct-all : (h : Fields V) → IsValid schema h → Distinct (h.standard ++ params h)
  Distinct-all h v =
      Distinct-append h.standard (params h) v.fields_distinct v.params_distinct (apart h v)

  pub lookup-all :
      (h : Fields V) (n : String)
      → IsValid schema h
      → lookup n (h.standard ++ params h) ≡ get_field schema h n
  unfolding get_field
  lookup-all h n v =
      lookup-append n h.standard (params h) ∙ ground (arith, v.fields_known n, v.params_unknown n)

  -- The pairs of an object are sorted by name, and hold for every name just what `Get` returns.
  pub make_pairs_lem :
      (h : Fields V)
      → IsValid schema h
      → IsSorted (make_pairs h) × ((n : String) → lookup n (make_pairs h) ≡ get_field schema h n)
  unfolding make_pairs get_field
  make_pairs_lem h v = (
    sort_pairs-IsSorted (h.standard ++ params h) (Distinct-all h v),
    λ n. lookup-sort_pairs n (h.standard ++ params h) (Distinct-all h v) ∙ lookup-all h n v,
  )

  -- Two objects for which `Get` returns the same under every name have the same pairs and the same
  -- JSON, whatever the order of the private map and of the calls that built them.
  pub marshal_canonical :
      (text : String → Bytes) (encode : V → Option Bytes) (h g : Fields V)
      → IsValid schema h
      → IsValid schema g
      → ((n : String) → get_field schema h n ≡ get_field schema g n)
      → (make_pairs h ≡ make_pairs g) × (marshal_json text encode h ≡ marshal_json text encode g)
  unfolding marshal_json
  marshal_canonical text encode h g v w same =
      let (sorted_h, looks_h) = make_pairs_lem h v in
      let (sorted_g, looks_g) = make_pairs_lem g w in
      let pairs : make_pairs h ≡ make_pairs g =
        IsSorted-ext (make_pairs h) (make_pairs g) sorted_h sorted_g
          (λ n. looks_h n ∙ same n ∙ sym (looks_g n)) in
      (pairs, rw pairs refl)
