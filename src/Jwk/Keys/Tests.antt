-- ===== src/Jwk/Keys/Tests.antt =====
-- Concrete keys. A JSON value is a string, which is base64 of one byte.
use jwx.Common.{ℕ, ◌≡◌, refl, false, none, some, String, str_eq, List, [], ◌∷◌, ok, err, ◌&&◌, not}
use jwx.Common.Assoc.{insert, lookup}
use jwx.Fields.{
  Token, open_brace, close_brace, member, no_fields, get_field, set_field, decode_member,
  invalid_value,
}
use jwx.Fields.Values.{one_of}
use jwx.Jwk.Values.{
  text, bytes, signature_alg, invalid_alg, content_encryption_alg, texts, key_algorithm_from,
  accept_algorithm, accept_operations, all_operations,
}
use jwx.Jwk.Keys.{
  symmetric, rsa_private, okp_public, shape_of, KeyDecoders, KeyFields, is_standard, accept_field,
  decode_field, get, set, decode_key, check_required, unmarshal, clone_key, kind_of_hint, parse_key,
  wrong_key_type, missing_field,
}
use jwx.Jwk.Keys.Decoded.{KtyAgrees}
use jwx.Jwk.Keys.Parsed.{AllPresent, unmarshal-clone_key, parse_key_sound}

abbrev decoders : KeyDecoders ℕ ℕ String
decoders = record {
  as_text = λ raw. some raw;
  as_bytes = λ raw. some (1 ∷ []);
  as_chain = λ raw. none;
  as_operations = λ raw. some (raw ∷ []);
  registry = λ n raw. some (text raw);
}

-- { "kty": "oct", "alg": "HS256", "p": "v", "k": "AQ" }
abbrev octets : List (Token String)
octets =
    open_brace
    ∷ member "kty" "oct"
    ∷ member "alg" "HS256"
    ∷ member "p" "v"
    ∷ member "k" "AQ"
    ∷ close_brace
    ∷ []

abbrev octet_key : KeyFields decoders
octet_key = record {
  standard = ("alg", signature_alg "HS256") ∷ ("k", bytes (1 ∷ [])) ∷ [];
  private_params = some (("p", text "v") ∷ []);
}

octets_run : unmarshal decoders symmetric no_fields octets ≡ ok octet_key
unfolding unmarshal decode_key decode_member decode_field is_standard one_of key_algorithm_from
    check_required get_field insert lookup
octets_run = refl

parse_run : parse_key decoders (some ("oct", false)) octets ≡ ok (symmetric, octet_key)
unfolding parse_key kind_of_hint unmarshal decode_key decode_member decode_field is_standard one_of
    key_algorithm_from check_required get_field insert lookup
parse_run = refl

-- An RSA key without "n", and with the "kty" of another type.
no_modulus :
    parse_key decoders
      (some ("RSA", false))
      (open_brace ∷ member "kty" "RSA" ∷ member "e" "AQ" ∷ close_brace ∷ [])
    ≡ err (missing_field "n")
unfolding parse_key kind_of_hint unmarshal decode_key decode_member decode_field is_standard one_of
    key_algorithm_from check_required get_field insert lookup
no_modulus = refl

other_type :
    unmarshal decoders okp_public no_fields (open_brace ∷ member "kty" "EC" ∷ close_brace ∷ [])
    ≡ err (wrong_key_type "EC")
unfolding unmarshal decode_key
other_type = refl

-- The algorithm of a key that is one of content encryption is an invalid one.
content_encryption :
    set decoders symmetric no_fields "alg" (content_encryption_alg "A128GCM")
    ≡ ok (record { standard = ("alg", invalid_alg "A128GCM") ∷ []; private_params = none })
unfolding set set_field is_standard one_of accept_field accept_algorithm insert
content_encryption = refl

unknown_operation :
    set decoders rsa_private no_fields "key_ops" (texts ("sign" ∷ "knit" ∷ [])) ≡ err invalid_value
unfolding set set_field is_standard one_of accept_field accept_operations all_operations
unknown_operation = refl

unmarshal-clone_key_example :
    KtyAgrees decoders symmetric octets
    × AllPresent decoders symmetric octet_key ("k" ∷ [])
    × (g : KeyFields decoders) × (clone_key decoders symmetric octet_key ≡ ok g)
    × ((n : String) → get decoders symmetric g n ≡ get decoders symmetric octet_key n)
unmarshal-clone_key_example = unmarshal-clone_key decoders symmetric octets octet_key octets_run

parse_key_sound_example :
    ((shape_of symmetric).kty ≡ "oct")
    × (one_of "d" (shape_of symmetric).required ≡ (false && not (str_eq "oct" "oct")))
    × KtyAgrees decoders symmetric octets
    × AllPresent decoders symmetric octet_key ("k" ∷ [])
parse_key_sound_example = parse_key_sound decoders "oct" false octets symmetric octet_key parse_run
