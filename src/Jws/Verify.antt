-- ===== src/Jws/Verify.antt =====
-- jws/jws.go: `Parse`, `SplitCompact` and `Verify`.
pub mod Sound
pub mod Segments
mod Tests
use jwx.Common.{
  ℕ, ◌≡◌, Bool, true, false, Option, none, some, List, [], ◌∷◌, ◌++◌, Outcome, ok, err, panic,
  ◌>>=◌, ltb, ◌==◌, if◌then◌else◌, length, get_or,
}
use jwx.Common.Bytes.{Bytes}
use jwx.Format.{space_1, front_space}

-- `H` is `jws.Headers`. The unprotected header is not read by `Verify`.
pub record Signature (H : Type 0) : Type 0 where
  pub protected : H
  pub signature : Bytes

pub record Message (H : Type 0) : Type 0 where
  pub payload : Bytes
  pub signatures : List (Signature H)
  pub b64 : Bool

pub data Error : Type 0 where
  blank_input invalid_segments bad_header_encoding bad_header bad_payload bad_signature : Error
  bad_json bad_option no_providers detached_with_payload bad_marshal provider_failed : Error
  no_verifier bad_key_used not_verified : Error

-- The algorithms `A` and keys `K` that a provider finds for a signature; `none` is its error.
pub data KeyProvider (H A K : Type 0) : Type 0 where
  static_provider : A → K → KeyProvider H A K
  other_provider : (Signature H → Message H → Option (List (A × K))) → KeyProvider H A K

-- `with_key_option none` is a key with an algorithm of another kind.
pub data VerifyOption (H A K : Type 0) : Type 0 where
  with_message with_key_used with_context with_other : VerifyOption H A K
  with_detached_payload : Option Bytes → VerifyOption H A K
  with_key_option : Option A → K → VerifyOption H A K
  with_key_provider : KeyProvider H A K → VerifyOption H A K

-- What the code calls: base64 and JSON, the methods of a header, and the verifiers.
pub record Codec (H A K : Type 0) : Type 0 where
  pub decode : Bytes → Option Bytes
  pub encode : Bytes → Bytes
  pub unmarshal_header : Bytes → Option H
  pub unmarshal_message : Bytes → Option (Message H)
  pub get_b64 : H → Option (Option Bool)
  pub raw_buffer : H → Option Bytes
  pub marshal_header : H → Option Bytes
  pub new_verifier : A → Option (Bytes → Bytes → K → Bool)
  pub assign_key : K → Bool

-- The variables of `Verify` that the options set.
pub record Settings (H A K : Type 0) : Type 0 where
  pub message : Bool
  pub key_used : Bool
  pub detached_payload : Option Bytes
  pub key_providers : List (KeyProvider H A K)

-- What `Verify` returns, and what it stores into `dst` and `keyUsed`.
pub record Verified (H K : Type 0) : Type 0 where
  pub payload : Bytes
  pub stored_message : Option (Message H)
  pub stored_key : Option K

abbrev pub or_fail : {A : Type 0} → Error → Option A → Outcome Error A
or_fail e none = err e
or_fail e (some a) = ok a

-- `bytes.Split(src, []byte("."))`
unfoldable pub split : Bytes → List Bytes
split [] = [] ∷ []
split (b ∷ bs) =
    let rest = split bs in
    if b == b'.' then [] ∷ rest else elim rest [ [] ↦ [] | seg ∷ segs ↦ (b ∷ seg) ∷ segs ]

unfoldable pub split_compact : Bytes → Outcome Error (Bytes × Bytes × Bytes)
unfolding split
split_compact src = elim (split src) [
  | header ∷ payload ∷ signature ∷ more ↦ ok (header, payload, signature)
  | _ ↦ err invalid_segments
]

abbrev pub no_settings : {H A K : Type 0} → Settings H A K
no_settings = record {
  message = false;
  key_used = false;
  detached_payload = none;
  key_providers = [];
}

module _ {H A K : Type 0} (codec : Codec H A K) where
  unfoldable pub get_b64_value : H → Bool
  get_b64_value hdr = elim (codec.get_b64 hdr) [
    | none ↦ true
    | some none ↦ false
    | some (some b64) ↦ b64
  ]

  unfoldable pub parse_segments : Bytes → Bytes → Bytes → Outcome Error (Message H)
  unfolding get_b64_value
  parse_segments header payload signature =
      or_fail bad_header_encoding (codec.decode header) >>= λ decoded_header.
      or_fail bad_header (codec.unmarshal_header decoded_header) >>= λ hdr.
      (if get_b64_value hdr then or_fail bad_payload (codec.decode payload) else ok payload)
      >>= λ decoded_payload. or_fail bad_signature (codec.decode signature) >>= λ decoded_signature.
          ok (record {
            payload = decoded_payload;
            signatures = record { protected = hdr; signature = decoded_signature } ∷ [];
            b64 = get_b64_value hdr;
          })

  unfoldable pub parse_compact : Bytes → Outcome Error (Message H)
  unfolding split_compact parse_segments
  parse_compact src =
      split_compact src >>= λ (header, payload, signature). parse_segments header payload signature

  -- The loop of `Parse`, at the bytes `at`. A byte beyond ASCII is judged by the first character of
  -- `src`, since `DecodeRune` is called on the whole of it.
  unfoldable pub parse_from : Bytes → Bytes → Outcome Error (Message H)
  unfolding parse_compact
  parse_from src [] = err blank_input
  parse_from src (b ∷ bs) =
      let rest = parse_from src bs in
      let lead = if ltb b 0x80 then b else get_or src 0 0 in
      let space = if ltb b 0x80 then space_1 b else ltb 0 (front_space src) in
      if space
      then rest
      else if lead == b'{'
      then or_fail bad_json (codec.unmarshal_message src)
      else parse_compact src

  unfoldable pub parse : Bytes → Outcome Error (Message H)
  unfolding parse_from
  parse src = parse_from src src

  unfoldable pub read_options :
      Settings H A K → List (VerifyOption H A K) → Outcome Error (Settings H A K)
  read_options s [] = ok s
  read_options s (with_message ∷ os) = read_options (record s { message = true }) os
  read_options s (with_key_used ∷ os) = read_options (record s { key_used = true }) os
  read_options s (with_context ∷ os) = read_options s os
  read_options s (with_other ∷ os) = err bad_option
  read_options s (with_detached_payload p ∷ os) =
      read_options (record s { detached_payload = p }) os
  read_options s (with_key_option none key ∷ os) = err bad_option
  read_options s (with_key_option (some alg) key ∷ os) =
      read_options (record s { key_providers = s.key_providers ++ static_provider alg key ∷ [] }) os
  read_options s (with_key_provider kp ∷ os) =
      read_options (record s { key_providers = s.key_providers ++ kp ∷ [] }) os

  unfoldable pub fetch_keys : KeyProvider H A K → Signature H → Message H → Option (List (A × K))
  fetch_keys (static_provider alg key) sig msg = some ((alg, key) ∷ [])
  fetch_keys (other_provider f) sig msg = f sig msg

  -- The raw bytes of the header, as they were parsed, or else its JSON.
  unfoldable pub header_bytes : H → Outcome Error Bytes
  header_bytes hdr =
      let marshalled =
        or_fail bad_marshal (codec.marshal_header hdr) >>= λ b. ok (codec.encode b) in
      elim (codec.raw_buffer hdr) [
        | none ↦ marshalled
        | some raw ↦ if length (codec.encode raw) == 0 then marshalled else ok (codec.encode raw)
      ]

  unfoldable pub succeed : Settings H A K → Message H → K → Outcome Error (Option (Verified H K))
  succeed s msg key =
      if s.key_used
      then (if codec.assign_key key
          then ok (
              some (record {
                payload = msg.payload;
                stored_message = if s.message then some msg else none;
                stored_key = some key;
              }))
          else err bad_key_used)
      else ok (
          some (record {
            payload = msg.payload;
            stored_message = if s.message then some msg else none;
            stored_key = none;
          }))

  -- The three loops; `ok none` means that they go on.
  unfoldable pub try_keys :
      Settings H A K
      → Message H
      → Signature H
      → Bytes
      → List (A × K)
      → Outcome Error (Option (Verified H K))
  unfolding succeed
  try_keys s msg sig buf [] = ok none
  try_keys s msg sig buf ((alg, key) ∷ pairs) =
      or_fail no_verifier (codec.new_verifier alg) >>= λ verify.
      let rest = try_keys s msg sig buf pairs in
      if verify buf sig.signature key then succeed s msg key else rest

  unfoldable pub try_providers :
      Settings H A K
      → Message H
      → Signature H
      → Bytes
      → List (KeyProvider H A K)
      → Outcome Error (Option (Verified H K))
  unfolding try_keys fetch_keys
  try_providers s msg sig buf [] = ok none
  try_providers s msg sig buf (kp ∷ kps) =
      or_fail provider_failed (fetch_keys kp sig msg) >>= λ pairs.
      try_keys s msg sig buf pairs >>= λ found. elim found [
        | none ↦ try_providers s msg sig buf kps
        | some v ↦ ok (some v)
      ]

  unfoldable pub try_signatures :
      Settings H A K → Message H → Bytes → List (Signature H) → Outcome Error (Verified H K)
  unfolding try_providers header_bytes
  try_signatures s msg payload [] = err not_verified
  try_signatures s msg payload (sig ∷ sigs) = header_bytes sig.protected >>= λ header.
      try_providers s msg sig (header ++ b'.' ∷ payload) s.key_providers >>= λ found. elim found [
        | none ↦ try_signatures s msg payload sigs
        | some v ↦ ok v
      ]

  -- The message that is verified: with the detached payload, if one was given.
  unfoldable pub attach : Settings H A K → Message H → Outcome Error (Message H)
  attach s msg = elim s.detached_payload [
    | none ↦ ok msg
    | some p ↦
        if length msg.payload == 0
        then ok (record msg { payload = p })
        else err detached_with_payload
  ]

  abbrev pub signed_payload : Message H → Bytes
  signed_payload msg = if msg.b64 then codec.encode msg.payload else msg.payload

  unfoldable pub verify : Bytes → List (VerifyOption H A K) → Outcome Error (Verified H K)
  unfolding read_options parse attach try_signatures
  verify buf options = read_options no_settings options >>= λ s.
      if length s.key_providers == 0
      then err no_providers
      else (parse buf >>= λ parsed.
          attach s parsed >>= λ msg. try_signatures s msg (signed_payload msg) msg.signatures)
