-- ===== src/Jwe/Decrypt.antt =====
-- jwe/jwe.go: `Decrypt`, the choice of the recipient and the key, and `decryptKey`. What is stored through
-- `WithMessage` and `WithKeyUsed` is not part of the result.
pub mod Sound
mod Tests
use jwx.Common.{
  ◌≡◌, Bool, true, false, Option, none, some, String, List, [], ◌∷◌, ◌++◌, Outcome, ok, err, panic,
  ◌>>=◌, ltb, length, str_eq, if◌then◌else◌, ◌==◌,
}
use jwx.Common.Bytes.{Bytes}
use jwx.Common.Int.{ℤ}
use jwx.Fields.Values.{
  Value, text, algorithm, encryption, compression, key, bytes, other, one_of, Decoders,
}
use jwx.Jwe.Headers.{Headers, get, merge, clone}

pub data Error : Type 0 where
  bad_key_option no_providers bad_message bad_headers provider_failed bad_key_used no_recipient :
      Error
  bad_key other_algorithm bad_parameter not_decrypted not_inflated no_plaintext none_matches : Error

-- What a key encryption algorithm takes besides the key.
pub data KeyParameters (P : Type 0) : Type 0 where
  no_parameters : KeyParameters P
  agreement : P → Bytes → Bytes → KeyParameters P
  sealed : Bytes → Bytes → KeyParameters P
  password : Bytes → ℤ → KeyParameters P

-- The fields of the `decrypter`. `Q` is a raw key, `P` a public one.
pub record Decrypter (Q P : Type 0) : Type 0 where
  pub alg : String
  pub enc : String
  pub key : Q
  pub aad : Option Bytes
  pub computed_aad : Bytes
  pub iv : Bytes
  pub tag : Bytes
  pub parameters : KeyParameters P

-- `K`, `C` and `X` are those of the headers, `Raw` is a JSON value, `Q` a key.
module _ {K C X Raw : Type 0} (decoders : Decoders K C X Raw) where
  pub record Recipient : Type 0 where
    pub headers : Headers decoders
    pub encrypted_key : Bytes

  pub record Message : Type 0 where
    pub protected_headers : Headers decoders
    pub unprotected_headers : Option (Headers decoders)
    pub raw_protected_headers : Bytes
    pub authenticated_data : Option Bytes
    pub recipients : List Recipient
    pub initialization_vector : Bytes
    pub tag : Bytes
    pub cipher_text : Bytes

-- The options of `Decrypt`; a key of another kind of algorithm is `none`.
pub data DecryptOption (Q F : Type 0) : Type 0 where
  with_message with_key_used with_other : DecryptOption Q F
  with_key_provider : F → DecryptOption Q F
  with_key : Option String → Q → DecryptOption Q F

module _ {K C X Raw : Type 0} (decoders : Decoders K C X Raw) (Q P : Type 0) where
  -- The keys that a provider sends for a recipient; `none` is its error.
  abbrev pub Provider : Type 0
  Provider = Recipient decoders → Message decoders → Option (List (String × Q))

  -- What the code calls: the parsers, base64, the raw form of a key, the public key and the count of the
  -- headers, `decrypter.Decrypt` (`ok none` is a nil slice, and it may panic), the inflater and the encoder of headers.
  pub record Services : Type 0 where
    pub parse : Bytes → Option (Message decoders)
    pub encode : Bytes → Bytes
    pub decode : String → Option Bytes
    pub raw_key : Q → Option Q
    pub epk : K → Option P
    pub count : X → Option ℤ
    pub decrypt : Decrypter Q P → Bytes → Bytes → Outcome Error (Option Bytes)
    pub uncompress : Bytes → Option (Option Bytes)
    pub encode_headers : Headers decoders → Option Bytes
    pub assign_key : Q → Bool

abbrev pub or_fail : {A : Type 0} → Error → Option A → Outcome Error A
or_fail e none = err e
or_fail e (some a) = ok a

-- A failure of the methods of a header.
abbrev pub or_headers : {A E : Type 0} → Outcome E A → Outcome Error A
or_headers panic = panic
or_headers (err e) = err bad_headers
or_headers (ok a) = ok a

-- An error of `decrypter.Decrypt`; a panic goes on.
abbrev pub or_not_decrypted : {A E : Type 0} → Outcome E A → Outcome Error A
or_not_decrypted panic = panic
or_not_decrypted (err e) = err not_decrypted
or_not_decrypted (ok a) = ok a

-- `withKey` becomes a provider of this one key.
unfoldable pub key_providers :
    {Q F : Type 0} → (String → Q → F) → List (DecryptOption Q F) → Outcome Error (List F)
key_providers static [] = ok []
key_providers static (with_message ∷ os) = key_providers static os
key_providers static (with_key_used ∷ os) = key_providers static os
key_providers static (with_other ∷ os) = key_providers static os
key_providers static (with_key_provider f ∷ os) = key_providers static os >>= λ fs. ok (f ∷ fs)
key_providers static (with_key none k ∷ os) = err bad_key_option
key_providers static (with_key (some alg) k ∷ os) =
    key_providers static os >>= λ fs. ok (static alg k ∷ fs)

module _ {K C X Raw Q P : Type 0} (decoders : Decoders K C X Raw)
    (services : Services decoders Q P) where
  -- `Algorithm()`, `ContentEncryption()` and `Compression()`
  abbrev pub name_of : Option (Value K C X) → String
  name_of (some (algorithm s)) = s
  name_of (some (encryption s)) = s
  name_of (some (compression s)) = s
  name_of _ = ""

  abbrev bytes_of : Option (Value K C X) → Bytes
  bytes_of (some (bytes b)) = b
  bytes_of _ = []

  -- A header that is a base64 string.
  unfoldable decoded_text : Headers decoders → String → Outcome Error Bytes
  unfolding get
  decoded_text h n = elim (get decoders h n) [
    | some (text s) ↦ or_fail bad_parameter (services.decode s)
    | _ ↦ err bad_parameter
  ]

  unfoldable pub key_parameters : String → Headers decoders → Outcome Error (KeyParameters P)
  unfolding decoded_text one_of get
  key_parameters alg h =
      if one_of alg ("ECDH-ES" ∷ "ECDH-ES+A128KW" ∷ "ECDH-ES+A192KW" ∷ "ECDH-ES+A256KW" ∷ [])
      then elim (get decoders h "epk") [
        | some (key k) ↦ or_fail bad_parameter (services.epk k) >>= λ p.
            ok (agreement p (bytes_of (get decoders h "apu")) (bytes_of (get decoders h "apv")))
        | _ ↦ err bad_parameter
      ]
      else if one_of alg ("A128GCMKW" ∷ "A192GCMKW" ∷ "A256GCMKW" ∷ [])
      then (decoded_text h "iv" >>= λ iv. decoded_text h "tag" >>= λ tag. ok (sealed iv tag))
      else if one_of alg ("PBES2-HS256+A128KW" ∷ "PBES2-HS384+A192KW" ∷ "PBES2-HS512+A256KW" ∷ [])
      then (decoded_text h "p2s" >>= λ salt. elim (get decoders h "p2c") [
        | some (other x) ↦ or_fail bad_parameter (services.count x) >>= λ n. ok (password salt n)
        | _ ↦ err bad_parameter
      ])
      else ok no_parameters

  -- The end of `decryptKey`.
  unfoldable pub inflate : Headers decoders → Option Bytes → Outcome Error Bytes
  unfolding get
  inflate h plain =
      let inflated : Outcome Error (Option Bytes) =
        if str_eq (name_of (get decoders h "zip")) "DEF"
        then or_fail not_inflated (services.uncompress (elim plain [ none ↦ [] | some b ↦ b ]))
        else ok plain in
      inflated >>= λ p. or_fail no_plaintext p

  -- `dctx.aad`, `dctx.computedAad` and `dctx.protectedHeaders` are arguments.
  unfoldable pub decrypt_key :
      Message decoders
      → Option Bytes
      → Bytes
      → Headers decoders
      → String
      → Q
      → Recipient decoders
      → Outcome Error Bytes
  unfolding get clone merge key_parameters inflate
  decrypt_key msg aad computed h alg k r = or_fail bad_key (services.raw_key k) >>= λ raw.
      if str_eq (name_of (get decoders r.headers "alg")) alg
      then (or_headers (clone decoders h) >>= λ h2.
          or_headers (merge decoders h2 (some r.headers)) >>= λ h2.
          key_parameters alg h2 >>= λ parameters.
          or_not_decrypted (
            services.decrypt
              (record {
                alg = alg;
                enc = name_of (get decoders msg.protected_headers "enc");
                key = raw;
                aad = aad;
                computed_aad = computed;
                iv = msg.initialization_vector;
                tag = msg.tag;
                parameters = parameters;
              })
              r.encrypted_key msg.cipher_text)
          >>= λ plain. inflate h2 plain)
      else err other_algorithm

  -- The loops of `try` over the keys and the providers; `ok none` is that no key has matched.
  unfoldable pub try_keys :
      (String → Q → Recipient decoders → Outcome Error Bytes)
      → Bool
      → Recipient decoders
      → List (String × Q)
      → Outcome Error (Option Bytes)
  try_keys decrypt_with key_used r [] = ok none
  try_keys decrypt_with key_used r ((alg, k) ∷ pairs) =
      let rest = try_keys decrypt_with key_used r pairs in
      elim (decrypt_with alg k r) [
        | panic ↦ panic
        | err e ↦ rest
        | ok plain ↦
            if key_used
            then (if services.assign_key k then ok (some plain) else err bad_key_used)
            else ok (some plain)
      ]

  unfoldable pub try_providers :
      (String → Q → Recipient decoders → Outcome Error Bytes)
      → Bool
      → Message decoders
      → Recipient decoders
      → List (Provider decoders Q P)
      → Outcome Error Bytes
  unfolding try_keys
  try_providers decrypt_with key_used msg r [] = err none_matches
  try_providers decrypt_with key_used msg r (kp ∷ kps) =
      or_fail provider_failed (kp r msg) >>= λ pairs.
      try_keys decrypt_with key_used r pairs >>= λ found. elim found [
        | none ↦ try_providers decrypt_with key_used msg r kps
        | some plain ↦ ok plain
      ]

  -- The loop over the recipients, which goes on after an error.
  unfoldable pub try_recipients :
      (String → Q → Recipient decoders → Outcome Error Bytes)
      → Bool
      → Message decoders
      → List (Provider decoders Q P)
      → List (Recipient decoders)
      → Outcome Error Bytes
  unfolding try_providers
  try_recipients decrypt_with key_used msg kps [] = err none_matches
  try_recipients decrypt_with key_used msg kps (r ∷ rs) =
      let rest = try_recipients decrypt_with key_used msg kps rs in
      elim (try_providers decrypt_with key_used msg r kps) [
        | panic ↦ panic
        | err e ↦ rest
        | ok plain ↦ ok plain
      ]

  -- A message without recipients counts as one recipient with the protected headers.
  abbrev pub recipients_of : Message decoders → List (Recipient decoders)
  recipients_of msg = elim msg.recipients [
    | [] ↦ record { headers = msg.protected_headers; encrypted_key = [] } ∷ []
    | r ∷ rs ↦ r ∷ rs
  ]

  -- The bytes of the protected headers as they came, or else encoded again.
  abbrev pub computed_aad : Message decoders → Outcome Error Bytes
  computed_aad msg =
      if ltb 0 (length msg.raw_protected_headers)
      then ok msg.raw_protected_headers
      else or_fail bad_headers (services.encode_headers msg.protected_headers)

  abbrev pub encoded_aad : Message decoders → Option Bytes
  encoded_aad msg = elim msg.authenticated_data [ none ↦ none | some a ↦ some (services.encode a) ]

  abbrev pub static_provider : String → Q → Provider decoders Q P
  static_provider alg k r msg = some ((alg, k) ∷ [])

  unfoldable pub wants_key_used : List (DecryptOption Q (Provider decoders Q P)) → Bool
  wants_key_used [] = false
  wants_key_used (with_key_used ∷ os) = true
  wants_key_used (o ∷ os) = wants_key_used os

  unfoldable pub decrypt :
      Bytes → List (DecryptOption Q (Provider decoders Q P)) → Outcome Error Bytes
  unfolding key_providers clone merge decrypt_key try_recipients wants_key_used
  decrypt buf options = key_providers static_provider options >>= λ kps.
      if length kps == 0
      then err no_providers
      else (or_fail bad_message (services.parse buf) >>= λ msg.
          or_headers (clone decoders msg.protected_headers) >>= λ h.
          or_headers (merge decoders h msg.unprotected_headers) >>= λ h.
          computed_aad msg >>= λ computed.
          try_recipients (decrypt_key msg (encoded_aad msg) computed h) (wants_key_used options) msg
            kps (recipients_of msg))
