-- ===== src/Jwe/Decrypter.antt =====
-- jwe/decrypt.go: the `decrypter`, over the packages of jwe/internal.
use jwx.Common.{
  ◌/◌, Bool, ◌||◌, not, Option, none, some, String, List, [], ◌∷◌, ◌++◌, Outcome, ok, err, panic,
  ◌>>=◌, ◌==◌, str_eq, if◌then◌else◌, length,
}
use jwx.Common.Bytes.{Bytes}
use jwx.Common.Int.{ℤ, pos}
use jwx.Fields.Values.{one_of}
use jwx.Jwe.Decrypt.{Decrypter, KeyParameters, agreement, sealed, password}
use jwx.Jwe.Content.{AesContentCipher, new_aes}
use jwx.Jwe.Content as Content
use jwx.Jwe.KeyEncryption.{
  RawKey, RawPublicKey, Primitives, bytes_key, other_public, x25519_public, ecdsa_key, ecdsa_public,
  pbes2_parameters, pbes2_key, aes_decrypt, pkcs1_decrypt, oaep_decrypt, ecdhes_decrypt,
}
use jwx.Jwe.KeyEncryption as KeyEncryption

pub data Error : Type 0 where
  invalid_content_algorithm unsupported_algorithm bytes_required rsa_required ecdsa_required : Error
  bad_key_iv bad_key_tag no_cipher key_not_opened : Error
  key_failed : KeyEncryption.Error → Error
  content_failed : Content.Error → Error

abbrev pub or_error : {F A : Type 0} → (F → Error) → Outcome F A → Outcome Error A
or_error wrap panic = panic
or_error wrap (err e) = err (wrap e)
or_error wrap (ok a) = ok a

abbrev pub or_fail : {A : Type 0} → Error → Option A → Outcome Error A
or_fail e none = err e
or_fail e (some a) = ok a

-- The fields of the decrypter that an algorithm has not set are empty.
module _ {P : Type 0} where
  abbrev pub key_iv : KeyParameters P → Bytes
  key_iv (sealed iv tag) = iv
  key_iv p = []

  abbrev pub key_tag : KeyParameters P → Bytes
  key_tag (sealed iv tag) = tag
  key_tag p = []

  abbrev pub key_salt : KeyParameters P → Bytes
  key_salt (password salt count) = salt
  key_salt p = []

  abbrev pub key_count : KeyParameters P → ℤ
  key_count (password salt count) = count
  key_count p = pos 0

  abbrev pub party_u : KeyParameters P → Bytes
  party_u (agreement key apu apv) = apu
  party_u p = []

  abbrev pub party_v : KeyParameters P → Bytes
  party_v (agreement key apu apv) = apv
  party_v p = []

abbrev pub public_key : {D : Type 0} → KeyParameters (RawPublicKey D) → RawPublicKey D
public_key (agreement key apu apv) = key
public_key p = other_public

-- `IsSymmetric` of jwa/key_encryption_gen.go.
unfoldable pub is_symmetric : String → Bool
is_symmetric alg = one_of alg (
    "A128GCMKW" ∷ "A128KW" ∷ "A192GCMKW" ∷ "A192KW" ∷ "A256GCMKW" ∷ "A256KW" ∷ "dir"
    ∷ "PBES2-HS256+A128KW" ∷ "PBES2-HS384+A192KW" ∷ "PBES2-HS512+A256KW" ∷ [])

abbrev pub key_wrap_names : List String
key_wrap_names = "A128KW" ∷ "A192KW" ∷ "A256KW" ∷ []

abbrev pub gcm_names : List String
gcm_names = "A128GCMKW" ∷ "A192GCMKW" ∷ "A256GCMKW" ∷ []

abbrev pub agreement_names : List String
agreement_names = "ECDH-ES" ∷ "ECDH-ES+A128KW" ∷ "ECDH-ES+A192KW" ∷ "ECDH-ES+A256KW" ∷ []

-- The conversions of internal/keyconv are `to_rsa`, `to_ecdsa` and `to_ecdsa_public`.
module _ {R E D P : Type 0} (primitives : Primitives R E D P) (to_rsa : RawKey R E → Option R)
    (to_ecdsa : RawKey R E → Option E) (to_ecdsa_public : RawPublicKey D → Option D) where
  -- `ContentCipher`; `NewAES` knows the same six algorithms.
  unfoldable pub content_cipher : String → Outcome Error AesContentCipher
  content_cipher ctalg = or_error (λ e. invalid_content_algorithm) (new_aes ctalg)

  -- The case of AES-GCM key wrap.
  unfoldable pub open_key : Bytes → Bytes → Bytes → Bytes → Outcome Error Bytes
  open_key cek iv tag recipient_key =
      if not (length iv == 12)
      then err bad_key_iv
      else if not (length tag == 16)
      then err bad_key_tag
      else or_fail no_cipher (primitives.crypto.new_cipher cek) >>= λ block.
          or_fail no_cipher (primitives.crypto.new_gcm block) >>= λ aead.
          or_error (λ e. key_not_opened) (aead.open_sealed iv (recipient_key ++ tag) [])

  unfoldable pub decrypt_symmetric_key :
      Decrypter (RawKey R E) (RawPublicKey D) → Bytes → Bytes → Outcome Error Bytes
  decrypt_symmetric_key d recipient_key cek =
      if str_eq d.alg "dir" then ok cek else elim (pbes2_parameters d.alg) [
        | some (hash, keylen) ↦ or_error key_failed (
            aes_decrypt primitives
              (pbes2_key primitives d.alg hash keylen cek (key_salt d.parameters)
                (key_count d.parameters))
              recipient_key)
        | none ↦
            if one_of d.alg key_wrap_names
            then or_error key_failed (aes_decrypt primitives cek recipient_key)
            else if one_of d.alg gcm_names
            then open_key cek (key_iv d.parameters) (key_tag d.parameters) recipient_key
            else err unsupported_algorithm
      ]

  -- `BuildKeyDecrypter`, and `Decrypt` of what it builds.
  unfoldable pub decrypt_asymmetric_key :
      Decrypter (RawKey R E) (RawPublicKey D) → Bytes → Outcome Error Bytes
  decrypt_asymmetric_key d recipient_key = content_cipher d.enc >>= λ c.
      if str_eq d.alg "RSA1_5"
      then (or_fail rsa_required (to_rsa d.key) >>= λ key.
          or_error key_failed (pkcs1_decrypt primitives key (c.keysize / 2) recipient_key))
      else if str_eq d.alg "RSA-OAEP" || str_eq d.alg "RSA-OAEP-256"
      then (or_fail rsa_required (to_rsa d.key) >>= λ key.
          or_error key_failed (oaep_decrypt primitives d.alg key recipient_key))
      else if one_of d.alg key_wrap_names
      then elim d.key [
        | bytes_key key ↦ or_error key_failed (aes_decrypt primitives key recipient_key)
        | _ ↦ err bytes_required
      ]
      else if one_of d.alg agreement_names
      then elim (public_key d.parameters) [
        | x25519_public point ↦ or_error key_failed (
            ecdhes_decrypt primitives d.alg d.enc (x25519_public point) (party_u d.parameters)
              (party_v d.parameters) d.key recipient_key)
        | _ ↦ or_fail ecdsa_required (to_ecdsa_public (public_key d.parameters)) >>= λ point.
            or_fail ecdsa_required (to_ecdsa d.key) >>= λ key. or_error key_failed (
              ecdhes_decrypt primitives d.alg d.enc (ecdsa_public point) (party_u d.parameters)
                (party_v d.parameters) (ecdsa_key key) recipient_key)
      ]
      else err unsupported_algorithm

  -- `DecryptKey`
  unfoldable pub decrypt_key : Decrypter (RawKey R E) (RawPublicKey D) → Bytes → Outcome Error Bytes
  decrypt_key d recipient_key =
      if is_symmetric d.alg
      then elim d.key [
        | bytes_key cek ↦ decrypt_symmetric_key d recipient_key cek
        | _ ↦ err bytes_required
      ]
      else decrypt_asymmetric_key d recipient_key

  -- The additional data: that of the message is behind the protected headers.
  abbrev pub full_aad : Bytes → Option Bytes → Bytes
  full_aad computed none = computed
  full_aad computed (some aad) = computed ++ (b'.' ∷ aad)

  -- `Decrypt`
  unfoldable pub decrypt :
      Decrypter (RawKey R E) (RawPublicKey D) → Bytes → Bytes → Outcome Error Bytes
  decrypt d recipient_key ciphertext = decrypt_key d recipient_key >>= λ cek.
      content_cipher d.enc >>= λ c. or_error content_failed (
        Content.decrypt primitives.crypto c cek d.iv ciphertext d.tag
          (full_aad d.computed_aad d.aad))
