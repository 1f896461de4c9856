-- ===== src/Jwk/Values.antt =====
-- The values of the fields of a key, and what `Set` takes for them: jwk/key_ops.go, jwk/usage.go and
-- `KeyAlgorithmFrom` of jwa/jwa.go.
use jwx.Common.{Bool, true, false, Option, none, some, String, List, [], ◌∷◌, if◌then◌else◌}
use jwx.Common.Bytes.{Bytes}
use jwx.Fields.Values.{one_of}
use jwx.Jws.Headers.{signature_algorithms}

-- `C` is a certificate chain, `X` any other value. The first three are `jwa.KeyAlgorithm`s; `stringer` is
-- of a type with `String()` that has no constructor here. A list of operations may be nil or empty: `[]`.
pub data Value (C X : Type 0) : Type 0 where
  signature_alg key_encryption_alg invalid_alg content_encryption_alg : String → Value C X
  curve key_type usage text stringer : String → Value C X
  texts operation_list operations : List String → Value C X
  mixed_list : List (Option String) → Value C X
  bytes : Bytes → Value C X
  nil_bytes nil_chain : Value C X
  chain : C → Value C X
  other : X → Value C X

abbrev pub key_encryption_algorithms : List String
key_encryption_algorithms =
    "A128GCMKW" ∷ "A128KW" ∷ "A192GCMKW" ∷ "A192KW" ∷ "A256GCMKW" ∷ "A256KW" ∷ "dir" ∷ "ECDH-ES"
    ∷ "ECDH-ES+A128KW" ∷ "ECDH-ES+A192KW" ∷ "ECDH-ES+A256KW" ∷ "PBES2-HS256+A128KW"
    ∷ "PBES2-HS384+A192KW" ∷ "PBES2-HS512+A256KW" ∷ "RSA1_5" ∷ "RSA-OAEP" ∷ "RSA-OAEP-256" ∷ []

abbrev pub key_operations : List String
key_operations =
    "sign" ∷ "verify" ∷ "encrypt" ∷ "decrypt" ∷ "wrapKey" ∷ "unwrapKey" ∷ "deriveKey" ∷ "deriveBits"
    ∷ []

-- The loop over a `[]string` or a `[]KeyOperation`.
unfoldable pub all_operations : List String → Bool
unfolding one_of
all_operations [] = true
all_operations (o ∷ os) =
    let rest = all_operations os in if one_of o key_operations then rest else false

-- The loop over a `[]interface{}`.
unfoldable pub all_texts : List (Option String) → Option (List String)
all_texts [] = some []
all_texts (none ∷ l) = none
all_texts (some s ∷ l) = elim (all_texts l) [ none ↦ none | some rest ↦ some (s ∷ rest) ]

module _ {C X : Type 0} where
  -- `KeyAlgorithmFrom` of a string.
  unfoldable pub key_algorithm_from : String → Value C X
  unfolding one_of
  key_algorithm_from s =
      if one_of s signature_algorithms
      then signature_alg s
      else if one_of s key_encryption_algorithms
      then key_encryption_alg s
      else invalid_alg s

  -- The case of "alg": a signature algorithm is kept, and one of content encryption is an invalid
  -- `KeyAlgorithm`; of any other value its string counts.
  unfoldable pub accept_algorithm : Value C X → Option (Option (Value C X))
  unfolding key_algorithm_from
  accept_algorithm (text s) = some (some (key_algorithm_from s))
  accept_algorithm (signature_alg s) = some (some (signature_alg s))
  accept_algorithm (content_encryption_alg s) = some (some (invalid_alg s))
  accept_algorithm (key_encryption_alg s) = some (some (key_algorithm_from s))
  accept_algorithm (invalid_alg s) = some (some (key_algorithm_from s))
  accept_algorithm (curve s) = some (some (key_algorithm_from s))
  accept_algorithm (key_type s) = some (some (key_algorithm_from s))
  accept_algorithm (usage s) = some (some (key_algorithm_from s))
  accept_algorithm (stringer s) = some (some (key_algorithm_from s))
  accept_algorithm v = none

  unfoldable pub accept_text : Value C X → Option (Option (Value C X))
  accept_text (text s) = some (some (text s))
  accept_text v = none

  unfoldable pub accept_bytes : Value C X → Option (Option (Value C X))
  accept_bytes (bytes b) = some (some (bytes b))
  accept_bytes nil_bytes = some none
  accept_bytes v = none

  unfoldable pub accept_curve : Value C X → Option (Option (Value C X))
  accept_curve (curve s) = some (some (curve s))
  accept_curve v = none

  unfoldable pub accept_chain : Value C X → Option (Option (Value C X))
  accept_chain (chain c) = some (some (chain c))
  accept_chain nil_chain = some none
  accept_chain v = none

  -- The case of "use": any string, but of the type `KeyUsageType` only the two.
  unfoldable pub accept_usage : Value C X → Option (Option (Value C X))
  unfolding one_of
  accept_usage (usage s) = if one_of s ("sig" ∷ "enc" ∷ []) then some (some (text s)) else none
  accept_usage (text s) = some (some (text s))
  accept_usage v = none

  abbrev checked_operations : List String → Option (Option (Value C X))
  checked_operations l = if all_operations l then some (some (operations l)) else none

  -- `KeyOperationList.Accept`, which does not look into a `KeyOperationList`.
  unfoldable pub accept_operations : Value C X → Option (Option (Value C X))
  unfolding all_operations all_texts
  accept_operations (text s) = checked_operations (s ∷ [])
  accept_operations (mixed_list l) = elim (all_texts l) [
    | none ↦ none
    | some ts ↦ checked_operations ts
  ]
  accept_operations (texts l) = checked_operations l
  accept_operations (operation_list l) = checked_operations l
  accept_operations (operations l) = some (some (operations l))
  accept_operations v = none
