-- ===== src/Jwe/Headers.antt =====
-- jwe/headers_gen.go: the headers of a JWE.
mod Tests
use jwx.Common.{
  Bool, true, false, Option, none, some, String, List, [], ◌∷◌, Outcome, str_eq, if◌then◌else◌,
}
use jwx.Common.Bytes.{Bytes}
use jwx.Fields.{
  Error, Schema, Fields, Token, no_fields, make_pairs, get_field, set_field, remove_field,
  copy_pairs, merge_headers, unmarshal_json,
}
use jwx.Fields.Values.{
  Value, text, texts, bytes, algorithm, compression, encryption, key, chain, one_of, Decoders,
  accept_text, accept_texts, accept_bytes, accept_key, accept_chain, field_of, slice_of,
}

unfoldable pub is_standard : String → Bool
unfolding one_of
is_standard n = one_of n (
    "apu" ∷ "apv" ∷ "alg" ∷ "zip" ∷ "enc" ∷ "cty" ∷ "crit" ∷ "epk" ∷ "jwk" ∷ "jku" ∷ "kid" ∷ "typ"
    ∷ "x5c" ∷ "x5t" ∷ "x5t#S256" ∷ "x5u" ∷ [])

module _ {K C X : Type 0} where
  -- `value.(jwa.KeyEncryptionAlgorithm)`
  unfoldable pub accept_algorithm : Value K C X → Option (Option (Value K C X))
  accept_algorithm (algorithm s) = some (some (algorithm s))
  accept_algorithm v = none

  -- `value.(jwa.CompressionAlgorithm)`
  unfoldable pub accept_compression : Value K C X → Option (Option (Value K C X))
  accept_compression (compression s) = some (some (compression s))
  accept_compression v = none

  -- `value.(jwa.ContentEncryptionAlgorithm)`, which must not be empty.
  unfoldable pub accept_encryption : Value K C X → Option (Option (Value K C X))
  accept_encryption (encryption s) = if str_eq s "" then none else some (some (encryption s))
  accept_encryption v = none

  unfoldable pub accept_header : String → Value K C X → Option (Option (Value K C X))
  unfolding accept_text accept_texts accept_bytes accept_key accept_chain accept_algorithm
      accept_compression accept_encryption
  accept_header n v =
      if one_of n ("apu" ∷ "apv" ∷ [])
      then accept_bytes v
      else if str_eq n "alg"
      then accept_algorithm v
      else if str_eq n "zip"
      then accept_compression v
      else if str_eq n "enc"
      then accept_encryption v
      else if str_eq n "crit"
      then accept_texts v
      else if one_of n ("epk" ∷ "jwk" ∷ [])
      then accept_key v
      else if str_eq n "x5c"
      then accept_chain v
      else accept_text v

module _ {K C X Raw : Type 0} (decoders : Decoders K C X Raw) where
  unfoldable pub decode_header : String → Raw → Option (Option (Value K C X))
  decode_header n raw =
      if one_of n ("apu" ∷ "apv" ∷ [])
      then field_of bytes (decoders.as_bytes raw)
      else if str_eq n "alg"
      then field_of algorithm (decoders.as_text raw)
      else if str_eq n "zip"
      then field_of compression (decoders.as_text raw)
      else if str_eq n "enc"
      then field_of encryption (decoders.as_text raw)
      else if str_eq n "crit"
      then slice_of texts (decoders.as_texts raw)
      else if one_of n ("epk" ∷ "jwk" ∷ [])
      then field_of key (decoders.as_key raw)
      else if str_eq n "x5c"
      then field_of chain (decoders.as_chain raw)
      else field_of text (decoders.as_text raw)

  -- `UnmarshalJSON` leaves the private map as it is.
  abbrev pub header_schema : Schema (Value K C X) Raw
  header_schema = record {
    known = is_standard;
    accept = accept_header;
    decode = decode_header;
    registry = decoders.registry;
    clears_private = false;
  }

  abbrev pub Headers : Type 0
  Headers = Fields (Value K C X)

  unfoldable pub get : Headers → String → Option (Value K C X)
  unfolding get_field
  get h n = get_field header_schema h n

  unfoldable pub set : Headers → String → Value K C X → Outcome Error Headers
  unfolding set_field
  set h n v = set_field header_schema h n v

  unfoldable pub remove : Headers → String → Headers
  unfolding remove_field
  remove h n = remove_field header_schema h n

  unfoldable pub unmarshal : Headers → List (Token Raw) → Outcome Error Headers
  unfolding unmarshal_json
  unmarshal h ts = unmarshal_json header_schema h ts

  -- `Merge` of a header that is not nil.
  unfoldable pub merge : Headers → Option Headers → Outcome Error Headers
  unfolding merge_headers
  merge h h2 = merge_headers header_schema (some h) h2

  unfoldable pub clone : Headers → Outcome Error Headers
  unfolding copy_pairs
  clone h = copy_pairs header_schema (make_pairs h) no_fields
