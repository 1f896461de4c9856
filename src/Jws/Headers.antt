-- ===== src/Jws/Headers.antt =====
-- jws/headers_gen.go and jwa/signature_gen.go: the headers of a JWS.
pub mod Laws
mod Tests
use jwx.Common.{
  Bool, true, false, Option, none, some, String, List, [], ◌∷◌, Outcome, str_eq, if◌then◌else◌,
}
use jwx.Common.Bytes.{Bytes}
use jwx.Fields.{
  Error, Schema, Fields, Token, make_pairs, get_field, set_field, remove_field, merge_headers,
  unmarshal_json, marshal_json,
}
use jwx.Fields.Values.{
  Value, text, texts, algorithm, stringer, key, chain, one_of, Decoders, accept_text, accept_texts,
  accept_key, accept_chain, field_of, slice_of,
}

abbrev pub signature_algorithms : List String
signature_algorithms =
    "ES256" ∷ "ES256K" ∷ "ES384" ∷ "ES512" ∷ "EdDSA" ∷ "HS256" ∷ "HS384" ∷ "HS512" ∷ "none"
    ∷ "PS256" ∷ "PS384" ∷ "PS512" ∷ "RS256" ∷ "RS384" ∷ "RS512" ∷ []

unfoldable pub is_standard : String → Bool
unfolding one_of
is_standard n = one_of n (
    "alg" ∷ "cty" ∷ "crit" ∷ "jwk" ∷ "jku" ∷ "kid" ∷ "typ" ∷ "x5c" ∷ "x5t" ∷ "x5t#S256" ∷ "x5u"
    ∷ [])

module _ {K C X : Type 0} where
  -- The names of an algorithm in a value: its own type, a `Stringer`, or a string.
  unfoldable pub algorithm_name : Value K C X → Option String
  algorithm_name (algorithm s) = some s
  algorithm_name (stringer s) = some s
  algorithm_name (text s) = some s
  algorithm_name v = none

  -- `SignatureAlgorithm.Accept`
  unfoldable pub accept_signature_algorithm : Value K C X → Option (Option (Value K C X))
  unfolding algorithm_name
  accept_signature_algorithm v = elim (algorithm_name v) [
    | none ↦ none
    | some s ↦ if one_of s signature_algorithms then some (some (algorithm s)) else none
  ]

  unfoldable pub accept_header : String → Value K C X → Option (Option (Value K C X))
  unfolding accept_signature_algorithm accept_text accept_texts accept_key accept_chain
  accept_header n v =
      if str_eq n "alg"
      then accept_signature_algorithm v
      else if str_eq n "crit"
      then accept_texts v
      else if str_eq n "jwk"
      then accept_key v
      else if str_eq n "x5c"
      then accept_chain v
      else accept_text v

module _ {K C X Raw : Type 0} (decoders : Decoders K C X Raw) where
  -- A decoded "alg" is not looked up in the list.
  unfoldable pub decode_header : String → Raw → Option (Option (Value K C X))
  decode_header n raw =
      if str_eq n "alg"
      then field_of algorithm (decoders.as_text raw)
      else if str_eq n "crit"
      then slice_of texts (decoders.as_texts raw)
      else if str_eq n "jwk"
      then field_of key (decoders.as_key raw)
      else if str_eq n "x5c"
      then field_of chain (decoders.as_chain raw)
      else field_of text (decoders.as_text raw)

  abbrev pub header_schema : Schema (Value K C X) Raw
  header_schema = record {
    known = is_standard;
    accept = accept_header;
    decode = decode_header;
    registry = decoders.registry;
    clears_private = true;
  }

  abbrev pub Headers : Type 0
  Headers = Fields (Value K C X)

  unfoldable pub get : Headers → String → Option (Value K C X)
  unfolding get_field
  get h n = get_field header_schema h n

  unfoldable pub set : Headers → String → Value K C X → Outcome Error Headers
  unfolding set_field
  set h n v = set_field header_schema h n v

  unfoldable pub remove : Headers → String → Headers
  unfolding remove_field
  remove h n = remove_field header_schema h n

  unfoldable pub merge : Option Headers → Option Headers → Outcome Error Headers
  unfolding merge_headers
  merge h1 h2 = merge_headers header_schema h1 h2

  unfoldable pub unmarshal : Headers → List (Token Raw) → Outcome Error Headers
  unfolding unmarshal_json
  unmarshal h ts = unmarshal_json header_schema h ts

  -- The accessors of the fields that are strings.
  unfoldable pub get_text : Headers → String → String
  unfolding get_field
  get_text h n = elim (get_field header_schema h n) [
    | some (text s) ↦ s
    | some (algorithm s) ↦ s
    | _ ↦ ""
  ]
