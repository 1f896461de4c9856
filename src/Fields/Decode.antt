-- ===== src/Fields/Decode.antt =====
-- `UnmarshalJSON` of the generated objects, on the tokens of a JSON object.
use jwx.Common.{
  ◌≡◌, inl, inr, refl, sym, ◌∙◌, Bool, true, false, ◌||◌, none, some, String, List, [], ◌∷◌, arith,
  ok, eq_iff, if◌then◌else◌, Bool-cases,
}
use jwx.Common.Assoc.{lookup}
use jwx.Common.Assoc.Distinct.{Distinct, or_else}
use jwx.Common.Assoc.Sorted.{IsSorted-Distinct}
use jwx.Fields.{
  Schema, Fields, Token, open_brace, close_brace, member, make_pairs, get_field, decode_member,
  decode_tokens, clear_fields, unmarshal_json,
}
use jwx.Fields.Laws.{IsValid, store, no_fields-IsValid}
use jwx.Fields.Pairs.{make_pairs_lem}
use jwx.Fields.Merge.{store_all, get-store_all, store_all-IsValid}

module _ {V Raw : Type 0} (schema : Schema V Raw) (raw_of : String → V → Raw) where
  -- The value of a member decodes to the value that it was written for.
  abbrev pub Decodes : String → V → Type 0
  Decodes n v =
      if schema.known n
      then schema.decode n (raw_of n v) ≡ some (some v)
      else schema.registry n (raw_of n v) ≡ some v

  abbrev pub members : List (String × V) → List (Token Raw) → List (Token Raw)
  members [] ts = ts
  members ((n, v) ∷ pairs) ts = member n (raw_of n v) ∷ members pairs ts

  decode_known :
      (h : Fields V) (n : String) (v : V)
      → schema.known n ≡ true
      → schema.decode n (raw_of n v) ≡ some (some v)
      → decode_member schema h n (raw_of n v) ≡ ok (store schema h n (some v))
  unfolding decode_member
  decode_known h n v known d = ground arith

  decode_unknown :
      (h : Fields V) (n : String) (v : V)
      → schema.known n ≡ false
      → schema.registry n (raw_of n v) ≡ some v
      → decode_member schema h n (raw_of n v) ≡ ok (store schema h n (some v))
  unfolding decode_member
  decode_unknown h n v unknown d = ground arith

  decode_member_lem :
      (h : Fields V) (n : String) (v : V)
      → Decodes n v
      → decode_member schema h n (raw_of n v) ≡ ok (store schema h n (some v))
  unfolding decode_member
  decode_member_lem h n v d = elim (Bool-cases (schema.known n)) [
    | inl known ↦ decode_known h n v known (rw known at d)
    | inr unknown ↦ decode_unknown h n v unknown (rw unknown at d)
  ]

  decode_tokens_lem :
      (pairs : List (String × V)) (dst : Fields V) (ts : List (Token Raw))
      → Distinct pairs
      → ((n : String) (v : V) → lookup n pairs ≡ some v → Decodes n v)
      → decode_tokens schema dst (members pairs (close_brace ∷ ts))
        ≡ ok (store_all schema pairs dst)
  unfolding decode_tokens store_all lookup
  decode_tokens_lem [] dst ts d a = refl
  decode_tokens_lem ((k, v) ∷ pairs) dst ts d a =
      rw (decode_member_lem dst k v (a k v (ground (arith, eq_iff k k)))) (
        decode_tokens_lem pairs (store schema dst k (some v)) ts (d.1)
          (λ n w e. a n w (ground (arith, eq_iff k n, d.0, e))))

  reset-IsValid :
      (clears : Bool) (h : Fields V)
      → IsValid schema h
      → IsValid schema
          (record { standard = []; private_params = if clears then none else h.private_params })
  reset-IsValid true h v = no_fields-IsValid schema
  reset-IsValid false h v = record {
    fields_distinct = tt;
    params_distinct = v.params_distinct;
    fields_known = λ n u. unfold lookup in refl;
    params_unknown = v.params_unknown;
  }

  clear_fields-IsValid : (h : Fields V) → IsValid schema h → IsValid schema (clear_fields schema h)
  clear_fields-IsValid h v = reset-IsValid schema.clears_private h v

  get-clear_fields :
      (old : Fields V) (n : String)
      → get_field schema (clear_fields schema old) n
        ≡ (if schema.known n || schema.clears_private then none else get_field schema old n)
  unfolding get_field lookup
  get-clear_fields old n = ground arith

  -- What `UnmarshalJSON` into `old` makes of the members that `MarshalJSON` writes for `h`, if each value
  -- is decoded to itself: `Get` returns what it does for `h`. A name that `h` has not is absent too, but for
  -- the private names of `old` where the map is not reset: these stay.
  pub unmarshal-marshal :
      (h old : Fields V) (ts : List (Token Raw))
      → IsValid schema h
      → IsValid schema old
      → ((n : String) (v : V) → get_field schema h n ≡ some v → Decodes n v)
      → (g : Fields V) × (unmarshal_json schema old
            (open_brace ∷ members (make_pairs h) (close_brace ∷ ts))
          ≡ ok g)
        × IsValid schema g
        × ((n : String)
            → get_field schema g n
              ≡ or_else (get_field schema h n) (
                  if schema.known n || schema.clears_private then none else get_field schema old n))
  unfolding unmarshal_json decode_tokens
  unmarshal-marshal h old ts v w d =
      let (sorted, looks) = make_pairs_lem schema h v in
      let distinct = IsSorted-Distinct (make_pairs h) sorted in
      (
        store_all schema (make_pairs h) (clear_fields schema old),
        decode_tokens_lem (make_pairs h) (clear_fields schema old) ts distinct
            (λ n x e. d n x (sym (looks n) ∙ e)),
        store_all-IsValid schema (make_pairs h) (clear_fields schema old)
            (clear_fields-IsValid old w),
        λ n.
            get-store_all schema n (make_pairs h) (clear_fields schema old) distinct
            ∙ ground (arith, looks n, get-clear_fields old n),
      )
