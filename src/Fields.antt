-- ===== src/Fields.antt =====
-- The objects of the generated files (jws/headers_gen.go, jwe/headers_gen.go, jwt/token_gen.go): a
-- struct with a field for each standard name and a map for all other names. Each file gives a schema.
pub mod Values
pub mod Laws
pub mod Pairs
pub mod Merge
pub mod Built
pub mod Decode
pub mod Recovered
mod Tests
use jwx.Common.{
  ◌≡◌, Bool, true, false, Option, none, some, String, List, [], ◌∷◌, ◌++◌, Outcome, ok, err, panic,
  ◌>>=◌, str_eq, if◌then◌else◌,
}
use jwx.Common.Bytes.{Bytes}
use jwx.Common.Assoc.{lookup, insert, delete}
use jwx.Common.Assoc.Sorted.{sort_pairs}

pub data Error : Type 0 where
  invalid_value bad_token bad_delimiter bad_field bad_encoding : Error

-- `accept` is the case of a standard name in `setNoLock`, `decode` that in `UnmarshalJSON`: `none` is an
-- error, and `some none` a nil. `registry` decodes the value of any other name.
pub record Schema (V Raw : Type 0) : Type 0 where
  pub known : String → Bool
  pub accept : String → V → Option (Option V)
  pub decode : String → Raw → Option (Option V)
  pub registry : String → Raw → Option V
  pub clears_private : Bool

-- A nil field is absent from `standard`; `private_params` is `none` while the Go map is nil.
pub record Fields (V : Type 0) : Type 0 where
  pub standard : List (String × V)
  pub private_params : Option (List (String × V))

-- What `dec.Token()` returns; a member comes with its value, which the code decodes next.
pub data Token (Raw : Type 0) : Type 0 where
  open_brace close_brace other_delimiter not_a_name : Token Raw
  member : String → Raw → Token Raw

abbrev pub no_fields : {V : Type 0} → Fields V
no_fields = record { standard = []; private_params = none }

abbrev pub params : {V : Type 0} → Fields V → List (String × V)
params h = elim h.private_params [ none ↦ [] | some m ↦ m ]

abbrev pub assign : {V : Type 0} → String → Option V → List (String × V) → List (String × V)
assign n none m = delete n m
assign n (some v) m = insert n v m

-- `makePairs`: the fields that are set, sorted by name.
unfoldable pub make_pairs : {V : Type 0} → Fields V → List (String × V)
make_pairs h = sort_pairs (h.standard ++ params h)

module _ {V Raw : Type 0} (schema : Schema V Raw) where
  unfoldable pub get_field : Fields V → String → Option V
  get_field h n = if schema.known n then lookup n h.standard else lookup n (params h)

  -- `setNoLock`
  unfoldable pub set_field : Fields V → String → V → Outcome Error (Fields V)
  set_field h n v =
      if schema.known n
      then elim (schema.accept n v) [
        | none ↦ err invalid_value
        | some w ↦ ok (record h { standard = assign n w h.standard })
      ]
      else ok (record h { private_params = some (insert n v (params h)) })

  unfoldable pub remove_field : Fields V → String → Fields V
  remove_field h n =
      if schema.known n then record h { standard = delete n h.standard } else record h {
        private_params = elim h.private_params [ none ↦ none | some m ↦ some (delete n m) ];
      }

  -- `Copy`, and `mergeHeaders` of two headers that may be nil.
  unfoldable pub copy_pairs : List (String × V) → Fields V → Outcome Error (Fields V)
  unfolding set_field
  copy_pairs [] dst = ok dst
  copy_pairs ((n, v) ∷ pairs) dst = set_field dst n v >>= λ dst. copy_pairs pairs dst

  abbrev pub copy_optional : Option (Fields V) → Fields V → Outcome Error (Fields V)
  copy_optional none dst = ok dst
  copy_optional (some h) dst = copy_pairs (make_pairs h) dst

  unfoldable pub merge_headers : Option (Fields V) → Option (Fields V) → Outcome Error (Fields V)
  unfolding copy_pairs
  merge_headers h1 h2 = copy_optional h1 no_fields >>= λ h3. copy_optional h2 h3

  -- The case of a member in the loop of `UnmarshalJSON`.
  unfoldable pub decode_member : Fields V → String → Raw → Outcome Error (Fields V)
  decode_member h n raw =
      if schema.known n
      then elim (schema.decode n raw) [
        | none ↦ err bad_field
        | some w ↦ ok (record h { standard = assign n w h.standard })
      ]
      else elim (schema.registry n raw) [
        | none ↦ err bad_field
        | some v ↦ ok (record h { private_params = some (insert n v (params h)) })
      ]

  -- The loop; the end of the tokens is an error of `dec.Token()`.
  unfoldable pub decode_tokens : Fields V → List (Token Raw) → Outcome Error (Fields V)
  unfolding decode_member
  decode_tokens h [] = err bad_token
  decode_tokens h (open_brace ∷ ts) = decode_tokens h ts
  decode_tokens h (close_brace ∷ ts) = ok h
  decode_tokens h (other_delimiter ∷ ts) = err bad_delimiter
  decode_tokens h (not_a_name ∷ ts) = err bad_token
  decode_tokens h (member n raw ∷ ts) = decode_member h n raw >>= λ h. decode_tokens h ts

  -- What `UnmarshalJSON` resets first: all the fields, and in some of the files the map too.
  abbrev pub clear_fields : Fields V → Fields V
  clear_fields h = record {
    standard = [];
    private_params = if schema.clears_private then none else h.private_params;
  }

  unfoldable pub unmarshal_json : Fields V → List (Token Raw) → Outcome Error (Fields V)
  unfolding decode_tokens
  unmarshal_json h ts = decode_tokens (clear_fields h) ts

-- `MarshalJSON`: `text` gives the bytes of a name, which are written as they are; `encode` is the
-- encoder of a value.
module _ {V : Type 0} (text : String → Bytes) (encode : V → Option Bytes) where
  unfoldable pub write_members : Bool → List (String × V) → Outcome Error Bytes
  write_members first [] = ok []
  write_members first ((n, v) ∷ pairs) = elim (encode v) [
    | none ↦ err bad_encoding
    | some bs ↦ write_members false pairs >>= λ rest.
        ok ((if first then [] else b',' ∷ []) ++ (b'"' ∷ (text n ++ (b'"' ∷ b':' ∷ (bs ++ rest)))))
  ]

  unfoldable pub marshal_json : Fields V → Outcome Error Bytes
  unfolding write_members
  marshal_json h = write_members true (make_pairs h) >>= λ body. ok (b'{' ∷ (body ++ b'}' ∷ []))
