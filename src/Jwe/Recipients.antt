-- ===== src/Jwe/Recipients.antt =====
-- jwe/jwe.go: the key that `recipientBuilder.Build` encrypts, over the encrypters of jwe/internal/keyenc.
pub mod Names
pub mod Keys
pub mod Whole
mod Tests
use jwx.Common.{
  ℕ, ◌≡◌, Bool, true, false, ◌||◌, Option, none, some, String, List, [], ◌∷◌, Outcome, ok, err,
  panic, ◌>>=◌, str_eq, if◌then◌else◌,
}
use jwx.Common.Bytes.{Bytes}
use jwx.Common.Int.{ℤ}
use jwx.Fields.Values.{one_of}
use jwx.Jwe.KeyEncryption.{
  RawKey, RawPublicKey, Primitives, x25519_public, ecdsa_public, no_random, or_fail, aes_encrypt,
  gcm_encrypt, pbes2_encrypt, ecdhes_encrypt, pkcs1_encrypt, oaep_encrypt,
}
use jwx.Jwe.KeyEncryption as KeyEncryption
use jwx.Jwe.Decrypter.{key_wrap_names, agreement_names}

pub data Error : Type 0 where
  invalid_key invalid_algorithm : Error
  failed : KeyEncryption.Error → Error

-- The raw key of a recipient.
pub data SendKey (P D : Type 0) : Type 0 where
  shared : Bytes → SendKey P D
  rsa : P → SendKey P D
  public : RawPublicKey D → SendKey P D
  another : SendKey P D

-- The `ByteSource` of an encrypter: the bytes, with what it puts into the headers.
pub data ByteSource (D : Type 0) : Type 0 where
  byte_key : Bytes → ByteSource D
  with_ec_public_key : RawPublicKey D → Bytes → ByteSource D
  with_iv_and_tag : Bytes → Bytes → Bytes → ByteSource D
  with_salt_and_count : Bytes → ℤ → Bytes → ByteSource D

abbrev pub bytes_of : {D : Type 0} → ByteSource D → Bytes
bytes_of (byte_key k) = k
bytes_of (with_ec_public_key point k) = k
bytes_of (with_iv_and_tag iv tag k) = k
bytes_of (with_salt_and_count salt count k) = k

abbrev pub as_failed : {A : Type 0} → Outcome KeyEncryption.Error A → Outcome Error A
as_failed panic = panic
as_failed (err e) = err (failed e)
as_failed (ok a) = ok a

abbrev pub shared_key_names : List String
shared_key_names =
    "A128KW" ∷ "A192KW" ∷ "A256KW" ∷ "A128GCMKW" ∷ "A192GCMKW" ∷ "A256GCMKW" ∷ "PBES2-HS256+A128KW"
    ∷ "PBES2-HS384+A192KW" ∷ "PBES2-HS512+A256KW" ∷ []

abbrev pub pbes2_names : List String
pbes2_names = "PBES2-HS256+A128KW" ∷ "PBES2-HS384+A192KW" ∷ "PBES2-HS512+A256KW" ∷ []

-- The size of the key that an algorithm derives; for ECDH-ES that of the content cipher.
unfoldable pub agreement_size : String → ℕ → ℕ
agreement_size alg content_size =
    if str_eq alg "ECDH-ES"
    then content_size
    else if str_eq alg "ECDH-ES+A128KW"
    then 16
    else if str_eq alg "ECDH-ES+A192KW"
    then 24
    else 32

-- `to_rsa_public` and `to_ecdsa_public` are the conversions of internal/keyconv; `generate_key` makes the
-- key pair on the curve of a public key.
module _ {R E D P : Type 0} (primitives : Primitives R E D P)
    (to_rsa_public : SendKey P D → Option P) (to_ecdsa_public : SendKey P D → Option D)
    (generate_key : RawPublicKey D → Option (RawKey R E × RawPublicKey D)) where
  -- The cases of the shared keys.
  unfoldable pub encrypt_shared : String → Bytes → Bytes → Outcome Error (ByteSource D)
  encrypt_shared alg key cek =
      if one_of alg key_wrap_names
      then (as_failed (aes_encrypt primitives key cek) >>= λ w. ok (byte_key w))
      else if one_of alg pbes2_names
      then (as_failed (pbes2_encrypt primitives alg key cek) >>= λ (w, salt, count).
          ok (with_salt_and_count salt count w))
      else as_failed (gcm_encrypt primitives key cek) >>= λ (w, iv, tag).
          ok (with_iv_and_tag iv tag w)

  -- ECDH-ES to a public key of either kind.
  unfoldable pub encrypt_agreed :
      String → String → ℕ → RawPublicKey D → Bytes → Bytes → Bytes → Outcome Error (ByteSource D)
  encrypt_agreed alg enc content_size to apu apv cek =
      as_failed (or_fail no_random (generate_key to)) >>= λ (own, epk).
      as_failed
        (ecdhes_encrypt primitives alg enc (agreement_size alg content_size) to apu apv own cek)
      >>= λ w. ok (with_ec_public_key epk w)

  unfoldable pub recipient_point : SendKey P D → Option (RawPublicKey D)
  recipient_point (public (x25519_public point)) = some (x25519_public point)
  recipient_point raw = elim (to_ecdsa_public raw) [
    | none ↦ none
    | some point ↦ some (ecdsa_public point)
  ]

  -- The encrypter that `Build` chooses, and its `Encrypt`.
  unfoldable pub encrypt_key :
      String → String → ℕ → SendKey P D → Bytes → Bytes → Bytes → Outcome Error (ByteSource D)
  encrypt_key alg enc content_size raw apu apv cek =
      if str_eq alg "RSA1_5"
      then (elim (to_rsa_public raw) [
        | none ↦ err invalid_key
        | some key ↦ as_failed (pkcs1_encrypt primitives alg key cek) >>= λ w. ok (byte_key w)
      ])
      else if str_eq alg "RSA-OAEP" || str_eq alg "RSA-OAEP-256"
      then (elim (to_rsa_public raw) [
        | none ↦ err invalid_key
        | some key ↦ as_failed (oaep_encrypt primitives alg key cek) >>= λ w. ok (byte_key w)
      ])
      else if one_of alg shared_key_names
      then (elim raw [ shared key ↦ encrypt_shared alg key cek | _ ↦ err invalid_key ])
      else if one_of alg agreement_names
      then (elim (recipient_point raw) [
        | none ↦ err invalid_key
        | some point ↦ encrypt_agreed alg enc content_size point apu apv cek
      ])
      else if str_eq alg "dir"
      then (elim raw [ shared key ↦ ok (byte_key key) | _ ↦ err invalid_key ])
      else err invalid_algorithm

  -- `Build`: what it puts into the headers, the encrypted key, and the key that replaces that of the
  -- content. The two algorithms without key encryption set no encrypted key.
  unfoldable pub build :
      String
      → String
      → ℕ
      → SendKey P D
      → Bytes
      → Bytes
      → Bytes
      → Outcome Error (ByteSource D × Bytes × Option Bytes)
  build alg enc content_size raw apu apv cek =
      encrypt_key alg enc content_size raw apu apv cek >>= λ enckey.
      if str_eq alg "ECDH-ES" || str_eq alg "dir"
      then ok (enckey, [], some (bytes_of enckey))
      else ok (enckey, bytes_of enckey, none)
