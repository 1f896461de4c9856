-- ===== src/Jws/Headers/Laws.antt =====
-- Headers of jws/headers_gen.go that `NewHeaders`, `Set` and `Remove` build, and `mergeHeaders` of them.
use jwx.Common.{◌≡◌, sym, ap, ◌∙◌, Option, some, String, arith, ok}
use jwx.Common.Bytes.{Bytes}
use jwx.Common.Assoc.Distinct.{or_else}
use jwx.Fields.{get_field, marshal_json}
use jwx.Fields.Values.{Value, Decoders, accept_text, accept_texts, accept_key, accept_chain}
use jwx.Fields.Merge.{get-merge_headers}
use jwx.Fields.Built.{Idempotent, Built, Built-IsValid, Built-Settable}
use jwx.Fields.Pairs.{marshal_canonical}
use jwx.Jws.Headers.{
  algorithm_name, accept_signature_algorithm, accept_header, header_schema, Headers, get, merge,
}

module _ {K C X : Type 0} where
  -- What a standard name accepts, it accepts as it is.
  accept_text_again :
      (v w : Value K C X) → accept_text v ≡ some (some w) → accept_text w ≡ some (some w)
  unfolding accept_text
  accept_text_again v w e = ground arith

  accept_texts_again :
      (v w : Value K C X) → accept_texts v ≡ some (some w) → accept_texts w ≡ some (some w)
  unfolding accept_texts
  accept_texts_again v w e = ground arith

  accept_key_again :
      (v w : Value K C X) → accept_key v ≡ some (some w) → accept_key w ≡ some (some w)
  unfolding accept_key
  accept_key_again v w e = ground arith

  accept_chain_again :
      (v w : Value K C X) → accept_chain v ≡ some (some w) → accept_chain w ≡ some (some w)
  unfolding accept_chain
  accept_chain_again v w e = ground arith

  accept_algorithm_again :
      (v w : Value K C X)
      → accept_signature_algorithm v ≡ some (some w)
      → accept_signature_algorithm w ≡ some (some w)
  unfolding accept_signature_algorithm algorithm_name
  accept_algorithm_again v w e = ground arith

  accept_header_again :
      (n : String) (v w : Value K C X)
      → accept_header n v ≡ some (some w)
      → accept_header n w ≡ some (some w)
  unfolding accept_header
  accept_header_again n v w e = ground (
    arith,
    accept_text_again v w,
    accept_texts_again v w,
    accept_key_again v w,
    accept_chain_again v w,
    accept_algorithm_again v w,
  )

module _ {K C X Raw : Type 0} (decoders : Decoders K C X Raw) where
  pub header_Idempotent : Idempotent (header_schema decoders)
  header_Idempotent = accept_header_again

  -- For headers that `NewHeaders`, `Set` and `Remove` build: `mergeHeaders` succeeds, and `Get` of the
  -- result returns for every name what the second header has, or else what the first has. The result does
  -- not depend on how the two were built: others in which `Get` returns the same give the same JSON.
  pub merge-get :
      (name_bytes : String → Bytes) (encode : Value K C X → Option Bytes)
      (h1 h2 k1 k2 : Headers decoders)
      → Built (header_schema decoders) h1
      → Built (header_schema decoders) h2
      → Built (header_schema decoders) k1
      → Built (header_schema decoders) k2
      → ((n : String) → get decoders h1 n ≡ get decoders k1 n)
      → ((n : String) → get decoders h2 n ≡ get decoders k2 n)
      → (g : Headers decoders) × (f : Headers decoders) × (merge decoders (some h1) (some h2)
          ≡ ok g)
        × (merge decoders (some k1) (some k2) ≡ ok f)
        × ((n : String) → get decoders g n ≡ or_else (get decoders h2 n) (get decoders h1 n))
        × (marshal_json name_bytes encode g ≡ marshal_json name_bytes encode f)
  unfolding get merge
  merge-get name_bytes encode h1 h2 k1 k2 b1 b2 c1 c2 same1 same2 =
      let schema = header_schema decoders in
      let (g, merged, valid_g, looks_g) =
        get-merge_headers schema h1 h2 (Built-IsValid schema b1) (Built-IsValid schema b2)
          (Built-Settable schema header_Idempotent b1)
          (Built-Settable schema header_Idempotent b2) in
      let (f, again, valid_f, looks_f) =
        get-merge_headers schema k1 k2 (Built-IsValid schema c1) (Built-IsValid schema c2)
          (Built-Settable schema header_Idempotent c1)
          (Built-Settable schema header_Idempotent c2) in
      let agree : (n : String) → get_field schema g n ≡ get_field schema f n = λ n.
        looks_g n
        ∙ ap (λ o. or_else o (get_field schema h1 n)) (same2 n)
        ∙ ap (or_else (get_field schema k2 n)) (same1 n)
        ∙ sym (looks_f n) in
      (
        g,
        f,
        merged,
        again,
        looks_g,
        (marshal_canonical schema name_bytes encode g f valid_g valid_f agree).1,
      )
