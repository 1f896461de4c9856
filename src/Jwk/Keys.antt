-- ===== src/Jwk/Keys.antt =====
-- The keys of jwk/symmetric_gen.go, jwk/rsa_gen.go, jwk/ecdsa_gen.go and jwk/okp_gen.go, which differ in
-- their names: `Shape` tells them apart. `cloneKey` and `ParseKey` of jwk/jwk.go.
mod RsaPublic
mod RsaPrivate
mod EcdsaPublic
mod EcdsaPrivate
mod OkpPublic
mod OkpPrivate
pub mod Decoded
pub mod Parsed
mod Tests
use jwx.Common.{
  ◌≡◌, Bool, true, false, ◌&&◌, ◌||◌, Option, none, some, String, List, [], ◌∷◌, ◌++◌, Outcome, ok,
  err, panic, ◌>>=◌, str_eq, if◌then◌else◌, ◌==◌, length,
}
use jwx.Common.Bytes.{Bytes}
use jwx.Common.Assoc.Sorted.{sort_pairs}
use jwx.Fields.{
  Error, Schema, Fields, Token, open_brace, close_brace, other_delimiter, not_a_name, member,
  no_fields, params, get_field, set_field, remove_field, decode_member, write_members, bad_token,
  bad_delimiter, bad_field, clear_fields,
}
use jwx.Fields.Values.{one_of}
use jwx.Jwk.Values.{
  Value, key_type, curve, text, bytes, chain, operations, key_algorithm_from, accept_algorithm,
  accept_text, accept_bytes, accept_curve, accept_chain, accept_usage, accept_operations,
}

-- The seven types of keys.
pub data KeyKind : Type 0 where
  symmetric rsa_public rsa_private ecdsa_public ecdsa_private okp_public okp_private : KeyKind

-- The errors of the keys: those of the members, a "kty" of another type, and a missing field.
pub data KeyError : Type 0 where
  bad_member : Error → KeyError
  wrong_key_type : String → KeyError
  missing_field : String → KeyError
  bad_hint unknown_key_type : KeyError

-- What a type of key has besides the fields that all have; `required` in the order of the tests.
pub record Shape : Type 0 where
  pub kty : String
  pub byte_names : List String
  pub has_curve : Bool
  pub required : List String

abbrev pub shape_of : KeyKind → Shape
shape_of symmetric = record {
  kty = "oct";
  byte_names = "k" ∷ [];
  has_curve = false;
  required = "k" ∷ [];
}
shape_of rsa_public = record {
  kty = "RSA";
  byte_names = "e" ∷ "n" ∷ [];
  has_curve = false;
  required = "e" ∷ "n" ∷ [];
}
shape_of rsa_private = record {
  kty = "RSA";
  byte_names = "d" ∷ "dp" ∷ "dq" ∷ "e" ∷ "n" ∷ "p" ∷ "qi" ∷ "q" ∷ [];
  has_curve = false;
  required = "d" ∷ "e" ∷ "n" ∷ [];
}
shape_of ecdsa_public = record {
  kty = "EC";
  byte_names = "x" ∷ "y" ∷ [];
  has_curve = true;
  required = "crv" ∷ "x" ∷ "y" ∷ [];
}
shape_of ecdsa_private = record {
  kty = "EC";
  byte_names = "d" ∷ "x" ∷ "y" ∷ [];
  has_curve = true;
  required = "crv" ∷ "d" ∷ "x" ∷ "y" ∷ [];
}
shape_of okp_public = record {
  kty = "OKP";
  byte_names = "x" ∷ [];
  has_curve = true;
  required = "crv" ∷ "x" ∷ [];
}
shape_of okp_private = record {
  kty = "OKP";
  byte_names = "d" ∷ "x" ∷ [];
  has_curve = true;
  required = "crv" ∷ "d" ∷ "x" ∷ [];
}

unfoldable pub is_standard : KeyKind → String → Bool
unfolding one_of
is_standard k n =
    one_of n ("alg" ∷ "kid" ∷ "key_ops" ∷ "use" ∷ "x5c" ∷ "x5t" ∷ "x5t#S256" ∷ "x5u" ∷ [])
    || (one_of n (shape_of k).byte_names || ((shape_of k).has_curve && str_eq n "crv"))

-- How a JSON value is decoded: into a string, base64 into bytes, a chain, a list of operations, and by the
-- registry.
pub record KeyDecoders (C X Raw : Type 0) : Type 0 where
  pub as_text : Raw → Option String
  pub as_bytes : Raw → Option Bytes
  pub as_chain : Raw → Option C
  pub as_operations : Raw → Option (List String)
  pub registry : String → Raw → Option (Value C X)

abbrev pub field_of : {A B : Type 0} → (A → B) → Option A → Option (Option B)
field_of wrap none = none
field_of wrap (some a) = some (some (wrap a))

module _ {C X : Type 0} where
  -- The cases of `setNoLock` but for "kty".
  unfoldable pub accept_field : KeyKind → String → Value C X → Option (Option (Value C X))
  unfolding one_of accept_algorithm accept_text accept_bytes accept_curve accept_chain accept_usage
      accept_operations
  accept_field k n v =
      if str_eq n "alg"
      then accept_algorithm v
      else if str_eq n "key_ops"
      then accept_operations v
      else if str_eq n "use"
      then accept_usage v
      else if str_eq n "x5c"
      then accept_chain v
      else if str_eq n "crv"
      then accept_curve v
      else if one_of n (shape_of k).byte_names
      then accept_bytes v
      else accept_text v

module _ {C X Raw : Type 0} (decoders : KeyDecoders C X Raw) where
  -- The cases of `UnmarshalJSON` but for "kty".
  unfoldable pub decode_field : KeyKind → String → Raw → Option (Option (Value C X))
  unfolding one_of key_algorithm_from
  decode_field k n raw =
      if str_eq n "alg"
      then field_of key_algorithm_from (decoders.as_text raw)
      else if str_eq n "key_ops"
      then field_of operations (decoders.as_operations raw)
      else if str_eq n "use"
      then field_of text (decoders.as_text raw)
      else if str_eq n "x5c"
      then field_of chain (decoders.as_chain raw)
      else if str_eq n "crv"
      then field_of curve (decoders.as_text raw)
      else if one_of n (shape_of k).byte_names
      then field_of bytes (decoders.as_bytes raw)
      else field_of text (decoders.as_text raw)

  -- `UnmarshalJSON` does not reset the map of the private names.
  abbrev pub key_schema : KeyKind → Schema (Value C X) Raw
  key_schema k = record {
    known = is_standard k;
    accept = accept_field k;
    decode = decode_field k;
    registry = decoders.registry;
    clears_private = false;
  }

  abbrev pub KeyFields : Type 0
  KeyFields = Fields (Value C X)

  unfoldable pub get : KeyKind → KeyFields → String → Option (Value C X)
  unfolding get_field
  get k h n =
      if str_eq n "kty" then some (key_type (shape_of k).kty) else get_field (key_schema k) h n

  unfoldable pub set : KeyKind → KeyFields → String → Value C X → Outcome Error KeyFields
  unfolding set_field
  set k h n v = if str_eq n "kty" then ok h else set_field (key_schema k) h n v

  unfoldable pub remove : KeyKind → KeyFields → String → KeyFields
  unfolding remove_field
  remove k h n = remove_field (key_schema k) h n

  unfoldable pub make_pairs : KeyKind → KeyFields → List (String × Value C X)
  make_pairs k h = ("kty", key_type (shape_of k).kty) ∷ (h.standard ++ params h)

  -- The loop of `UnmarshalJSON`.
  unfoldable pub decode_key : KeyKind → KeyFields → List (Token Raw) → Outcome KeyError KeyFields
  unfolding decode_member
  decode_key k h [] = err (bad_member bad_token)
  decode_key k h (open_brace ∷ ts) = decode_key k h ts
  decode_key k h (close_brace ∷ ts) = ok h
  decode_key k h (other_delimiter ∷ ts) = err (bad_member bad_delimiter)
  decode_key k h (not_a_name ∷ ts) = err (bad_member bad_token)
  decode_key k h (member n raw ∷ ts) =
      let rest = decode_key k h ts in
      if str_eq n "kty"
      then elim (decoders.as_text raw) [
        | none ↦ err (bad_member bad_token)
        | some s ↦ if str_eq s (shape_of k).kty then rest else err (wrong_key_type s)
      ]
      else elim (decode_member (key_schema k) h n raw) [
        | panic ↦ panic
        | err e ↦ err (bad_member e)
        | ok g ↦ decode_key k g ts
      ]

  -- The tests at the end of `UnmarshalJSON`.
  unfoldable pub check_required : KeyKind → KeyFields → List String → Outcome KeyError KeyFields
  unfolding get_field
  check_required k h [] = ok h
  check_required k h (n ∷ names) =
      let rest = check_required k h names in
      elim (get_field (key_schema k) h n) [ none ↦ err (missing_field n) | some v ↦ rest ]

  unfoldable pub unmarshal : KeyKind → KeyFields → List (Token Raw) → Outcome KeyError KeyFields
  unfolding decode_key check_required
  unmarshal k h ts = decode_key k (clear_fields (key_schema k) h) ts >>= λ g.
      check_required k g (shape_of k).required

  -- The loop of `cloneKey`.
  unfoldable pub set_all : KeyKind → List (String × Value C X) → KeyFields → Outcome Error KeyFields
  unfolding set
  set_all k [] dst = ok dst
  set_all k ((n, v) ∷ pairs) dst = set k dst n v >>= λ dst. set_all k pairs dst

  unfoldable pub clone_key : KeyKind → KeyFields → Outcome Error KeyFields
  unfolding set_all make_pairs
  clone_key k h = set_all k (make_pairs k h) no_fields

  -- The switch of `ParseKey`; `has_d` is `len(hint.D) > 0`.
  unfoldable pub kind_of_hint : String → Bool → Option KeyKind
  kind_of_hint kty has_d =
      if str_eq kty "RSA"
      then some (if has_d then rsa_private else rsa_public)
      else if str_eq kty "EC"
      then some (if has_d then ecdsa_private else ecdsa_public)
      else if str_eq kty "oct"
      then some symmetric
      else if str_eq kty "OKP"
      then some (if has_d then okp_private else okp_public)
      else none

  -- `ParseKey` of JSON: `hint` is what `json.Unmarshal` finds of "kty" and "d", `ts` the tokens.
  unfoldable pub parse_key :
      Option (String × Bool) → List (Token Raw) → Outcome KeyError (KeyKind × KeyFields)
  unfolding kind_of_hint unmarshal
  parse_key none ts = err bad_hint
  parse_key (some (kty, has_d)) ts = elim (kind_of_hint kty has_d) [
    | none ↦ err unknown_key_type
    | some k ↦ unmarshal k no_fields ts >>= λ h. ok (k, h)
  ]

-- `MarshalJSON`: `name_bytes` gives the bytes of a name, `encode` is the encoder of a value.
module _ {C X Raw : Type 0} (decoders : KeyDecoders C X Raw) (name_bytes : String → Bytes)
    (encode : Value C X → Option Bytes) where
  unfoldable pub marshal : KeyKind → Fields (Value C X) → Outcome Error Bytes
  unfolding write_members make_pairs
  marshal k h =
      write_members name_bytes encode true (sort_pairs (make_pairs decoders k h)) >>= λ body.
      ok (b'{' ∷ (body ++ b'}' ∷ []))
