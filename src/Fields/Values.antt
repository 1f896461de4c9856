-- ===== src/Fields/Values.antt =====
-- The values that the generated files hold, and what a field of a Go type takes of a value.
use jwx.Common.{Bool, false, ◌||◌, Option, none, some, String, List, [], ◌∷◌, str_eq}
use jwx.Common.Bytes.{Bytes}

-- `K` is a `jwk.Key`, `C` a certificate chain, `X` any other value. `algorithm` is of the type of the
-- file's "alg", `stringer` of any other type with `String()`.
pub data Value (K C X : Type 0) : Type 0 where
  text : String → Value K C X
  texts : List String → Value K C X
  bytes : Bytes → Value K C X
  nil_texts nil_bytes nil_chain : Value K C X
  algorithm compression encryption stringer : String → Value K C X
  key : K → Value K C X
  chain : C → Value K C X
  other : X → Value K C X

unfoldable pub one_of : String → List String → Bool
one_of n [] = false
one_of n (m ∷ names) = str_eq n m || one_of n names

-- How a JSON value is decoded: by `dec.Decode` into the Go type, `jwk.ParseKey` and the registry. A JSON
-- null gives a nil slice.
pub record Decoders (K C X Raw : Type 0) : Type 0 where
  pub as_text : Raw → Option String
  pub as_texts : Raw → Option (Option (List String))
  pub as_bytes : Raw → Option Bytes
  pub as_key : Raw → Option K
  pub as_chain : Raw → Option C
  pub registry : String → Raw → Option (Value K C X)

module _ {K C X : Type 0} where
  -- `value.(string)`
  unfoldable pub accept_text : Value K C X → Option (Option (Value K C X))
  accept_text (text s) = some (some (text s))
  accept_text v = none

  -- `value.([]string)`
  unfoldable pub accept_texts : Value K C X → Option (Option (Value K C X))
  accept_texts (texts l) = some (some (texts l))
  accept_texts nil_texts = some none
  accept_texts v = none

  -- `value.([]byte)`
  unfoldable pub accept_bytes : Value K C X → Option (Option (Value K C X))
  accept_bytes (bytes b) = some (some (bytes b))
  accept_bytes nil_bytes = some none
  accept_bytes v = none

  -- `value.(jwk.Key)`
  unfoldable pub accept_key : Value K C X → Option (Option (Value K C X))
  accept_key (key k) = some (some (key k))
  accept_key v = none

  -- `value.(*cert.Chain)`
  unfoldable pub accept_chain : Value K C X → Option (Option (Value K C X))
  accept_chain (chain c) = some (some (chain c))
  accept_chain nil_chain = some none
  accept_chain v = none

  -- A field that is set to the value that is decoded, or an error.
  abbrev pub field_of : {A : Type 0} → (A → Value K C X) → Option A → Option (Option (Value K C X))
  field_of wrap none = none
  field_of wrap (some a) = some (some (wrap a))

  -- The same for a slice, which may be nil.
  abbrev pub slice_of :
      {A : Type 0} → (A → Value K C X) → Option (Option A) → Option (Option (Value K C X))
  slice_of wrap none = none
  slice_of wrap (some none) = some none
  slice_of wrap (some (some a)) = some (some (wrap a))
