-- ===== src/Jwe/KeyEncryption.antt =====
-- jwe/internal/keyenc/keyenc.go and jwe/internal/keygen/keygen.go: the encrypters and decrypters of the
-- content encryption key, over `Wrap`, `Unwrap` and the key derivation.
pub mod Agreed
mod Tests
use jwx.Common.{
  ℕ, ◌+◌, ◌-◌, ◌*◌, ◌/◌, ◌%◌, ◌^◌, ◌≡◌, Bool, true, false, Option, none, some, String, List, [],
  ◌∷◌, ◌++◌, Outcome, ok, err, panic, ◌>>=◌, ltb, ◌==◌, str_eq, if◌then◌else◌, length, take, drop,
}
use jwx.Common.Bytes.{Bytes, be_bytes}
use jwx.Common.Int.{ℤ, pos}
use jwx.Crypto.{BlockCipher, HashFunc, sha256, sha384, sha512}
use jwx.Jwe.KeyWrap.{wrap, unwrap}
use jwx.Jwe.ConcatKdf.{Kdf, read}
use jwx.Jwe.ConcatKdf as ConcatKdf
use jwx.Jwe.Content.{Crypto, Aead, new_aes}

pub data Error : Type 0 where
  no_cipher not_wrapped not_unwrapped no_random invalid_algorithm wrong_key : Error
  not_on_curve no_shared_secret not_derived wrong_size not_decrypted not_encrypted : Error

pub data OaepHash : Type 0 where
  sha1_oaep sha256_oaep : OaepHash

-- A raw key: bytes, the private keys of the standard library, the seed of an x25519 key, or another.
pub data RawKey (R E : Type 0) : Type 0 where
  bytes_key : Bytes → RawKey R E
  rsa_key : R → RawKey R E
  ecdsa_key : E → RawKey R E
  x25519_key : Bytes → RawKey R E
  other_key : RawKey R E

pub data RawPublicKey (D : Type 0) : Type 0 where
  ecdsa_public : D → RawPublicKey D
  x25519_public : Bytes → RawPublicKey D
  other_public : RawPublicKey D

-- What the code calls of `crypto` and `golang.org/x/crypto`. `scalar_mult` is the first coordinate as the
-- bytes of its curve's size; `decrypt_pkcs1` fills the key that it is given. `R` and `E` are the private keys
-- of RSA and ECDSA, `P` and `D` the public ones.
pub record Primitives (R E D P : Type 0) : Type 0 where
  pub crypto : Crypto
  pub sha_256 : Bytes → Bytes
  pub pbkdf2 : HashFunc → Bytes → Bytes → ℤ → ℕ → Bytes
  pub x25519 : Bytes → Bytes → Option Bytes
  pub on_curve : E → D → Bool
  pub scalar_mult : E → D → Bytes
  pub modulus_bits : R → ℕ
  pub decrypt_pkcs1 : R → Bytes → Bytes → Outcome Error Bytes
  pub decrypt_oaep : OaepHash → R → Bytes → Option Bytes
  pub encrypt_pkcs1 : P → Bytes → Option Bytes
  pub encrypt_oaep : OaepHash → P → Bytes → Option Bytes
  pub random : ℕ → Option Bytes
  pub name_bytes : String → Bytes

abbrev pub or_fail : {A : Type 0} → Error → Option A → Outcome Error A
or_fail e none = err e
or_fail e (some a) = ok a

abbrev pub as_key_error : {F A : Type 0} → Error → Outcome F A → Outcome Error A
as_key_error e panic = panic
as_key_error e (err inner) = err e
as_key_error e (ok a) = ok a

-- The hash and the size of the key of a PBES2 algorithm, as `NewPBES2Encrypt` and the decrypter choose them.
unfoldable pub pbes2_parameters : String → Option (HashFunc × ℕ)
pbes2_parameters alg =
    if str_eq alg "PBES2-HS256+A128KW"
    then some (sha256, 16)
    else if str_eq alg "PBES2-HS384+A192KW"
    then some (sha384, 24)
    else if str_eq alg "PBES2-HS512+A256KW"
    then some (sha512, 32)
    else none

-- The size of the key that ECDH-ES derives, and the name that goes into the derivation.
unfoldable pub agreed_size : String → String → Outcome Error (String × ℕ)
agreed_size keyalg contentalg =
    if str_eq keyalg "ECDH-ES"
    then (as_key_error invalid_algorithm (new_aes contentalg) >>= λ c. ok (contentalg, c.keysize))
    else if str_eq keyalg "ECDH-ES+A128KW"
    then ok (keyalg, 16)
    else if str_eq keyalg "ECDH-ES+A192KW"
    then ok (keyalg, 24)
    else if str_eq keyalg "ECDH-ES+A256KW"
    then ok (keyalg, 32)
    else err invalid_algorithm

module _ {R E D P : Type 0} (primitives : Primitives R E D P) where
  -- `AES.Encrypt` and `AES.Decrypt`, which the other encrypters repeat: `aes.NewCipher`, then `Wrap` or
  -- `Unwrap`.
  unfoldable pub aes_encrypt : Bytes → Bytes → Outcome Error Bytes
  aes_encrypt sharedkey cek =
      or_fail no_cipher (primitives.crypto.new_cipher sharedkey) >>= λ block.
      as_key_error not_wrapped (wrap block cek)

  unfoldable pub aes_decrypt : Bytes → Bytes → Outcome Error Bytes
  aes_decrypt sharedkey enckey =
      or_fail no_cipher (primitives.crypto.new_cipher sharedkey) >>= λ block.
      as_key_error not_unwrapped (unwrap block enckey)

  -- The key of PBES2: the salt is behind the name of the algorithm and a zero.
  unfoldable pub pbes2_key : String → HashFunc → ℕ → Bytes → Bytes → ℤ → Bytes
  pbes2_key alg hash keylen password salt count =
      primitives.pbkdf2 hash password (primitives.name_bytes alg ++ (0 ∷ salt)) count keylen

  -- `NewPBES2Encrypt` and `PBES2Encrypt.Encrypt`: the encrypted key, the salt and the count.
  unfoldable pub pbes2_encrypt : String → Bytes → Bytes → Outcome Error (Bytes × Bytes × ℤ)
  pbes2_encrypt alg password cek =
      or_fail invalid_algorithm (pbes2_parameters alg) >>= λ (hash, keylen).
      or_fail no_random (primitives.random keylen) >>= λ salt.
      aes_encrypt (pbes2_key alg hash keylen password salt (pos 10000)) cek >>= λ encrypted.
      ok (encrypted, salt, pos 10000)

  -- The key derivation of `DeriveECDHES` and of the generators; `keysize` is a `uint32`.
  unfoldable pub derive_key : Bytes → Bytes → Bytes → Bytes → ℕ → Outcome Error Bytes
  derive_key alg z apu apv keysize =
      let pubinfo = be_bytes 4 (keysize * 8 % 2 ^ 32) in
      or_fail not_derived (read (ConcatKdf.new primitives.sha_256 alg z apu apv pubinfo []) keysize)
      >>= λ (key, kdf). ok key

  -- `DeriveZ`
  unfoldable pub derive_z : RawKey R E → RawPublicKey D → Outcome Error Bytes
  derive_z (x25519_key seed) (x25519_public point) =
      or_fail no_shared_secret (primitives.x25519 seed point)
  derive_z (x25519_key seed) other = err wrong_key
  derive_z (ecdsa_key key) (ecdsa_public point) =
      if primitives.on_curve key point
      then ok (primitives.scalar_mult key point)
      else err not_on_curve
  derive_z (ecdsa_key key) other = err wrong_key
  derive_z (bytes_key key) other = err wrong_key
  derive_z (rsa_key key) other = err wrong_key
  derive_z other_key other = err wrong_key

  -- `DeriveECDHES`
  unfoldable pub derive_ecdhes :
      Bytes → Bytes → Bytes → RawKey R E → RawPublicKey D → ℕ → Outcome Error Bytes
  derive_ecdhes alg apu apv private_key public_key keysize =
      derive_z private_key public_key >>= λ z. derive_key alg z apu apv keysize

  -- `ECDHESDecrypt.Decrypt`
  unfoldable pub ecdhes_decrypt :
      String → String → RawPublicKey D → Bytes → Bytes → RawKey R E → Bytes → Outcome Error Bytes
  ecdhes_decrypt keyalg contentalg public_key apu apv private_key enckey =
      agreed_size keyalg contentalg >>= λ (name, keysize).
      derive_ecdhes (primitives.name_bytes name) apu apv private_key public_key keysize >>= λ key.
      if str_eq keyalg "ECDH-ES" then ok key else aes_decrypt key enckey

  -- `Ecdhes.Generate` and `X25519.Generate`, for the private key that `GenerateKey` returned. The second
  -- hands no party info to the derivation. The curve of `generated` is that of the public key.
  unfoldable pub generate_ecdhes :
      String → String → ℕ → RawPublicKey D → Bytes → Bytes → RawKey R E → Outcome Error Bytes
  generate_ecdhes alg enc keysize (ecdsa_public point) apu apv generated =
      derive_z generated (ecdsa_public point) >>= λ z.
      derive_key (primitives.name_bytes (if str_eq alg "ECDH-ES" then enc else alg)) z apu apv
        keysize
  generate_ecdhes alg enc keysize (x25519_public point) apu apv generated =
      derive_z generated (x25519_public point) >>= λ z.
      derive_key (primitives.name_bytes (if str_eq alg "ECDH-ES" then enc else alg)) z [] [] keysize
  generate_ecdhes alg enc keysize other_public apu apv generated = err wrong_key

  -- `ECDHESEncrypt.Encrypt`: the key itself for ECDH-ES, or else `cek` wrapped by it.
  unfoldable pub ecdhes_encrypt :
      String
      → String
      → ℕ
      → RawPublicKey D
      → Bytes
      → Bytes
      → RawKey R E
      → Bytes
      → Outcome Error Bytes
  ecdhes_encrypt alg enc keysize public_key apu apv generated cek =
      generate_ecdhes alg enc keysize public_key apu apv generated >>= λ key.
      if str_eq alg "ECDH-ES" then ok key else aes_encrypt key cek

  -- `RSAPKCS15Decrypt.Decrypt`: its `recover` turns a panic into an empty key and no error.
  unfoldable pub pkcs1_decrypt : R → ℕ → Bytes → Outcome Error Bytes
  pkcs1_decrypt key keysize enckey =
      if primitives.modulus_bits key / 8 == length enckey
      then (or_fail no_random (primitives.random (keysize * 2)) >>= λ cek.
          elim (primitives.decrypt_pkcs1 key enckey cek) [
            | panic ↦ ok []
            | err e ↦ err not_decrypted
            | ok filled ↦ ok filled
          ])
      else err wrong_size

  -- `NewRSAOAEPDecrypt` and `RSAOAEPDecrypt.Decrypt`
  unfoldable pub oaep_decrypt : String → R → Bytes → Outcome Error Bytes
  oaep_decrypt alg key enckey =
      if str_eq alg "RSA-OAEP"
      then or_fail not_decrypted (primitives.decrypt_oaep sha1_oaep key enckey)
      else if str_eq alg "RSA-OAEP-256"
      then or_fail not_decrypted (primitives.decrypt_oaep sha256_oaep key enckey)
      else err invalid_algorithm

  -- `AESGCMEncrypt.Encrypt`: the encrypted key, the IV and the tag.
  unfoldable pub gcm_encrypt : Bytes → Bytes → Outcome Error (Bytes × Bytes × Bytes)
  gcm_encrypt sharedkey cek =
      or_fail no_cipher (primitives.crypto.new_cipher sharedkey) >>= λ block.
      or_fail no_cipher (primitives.crypto.new_gcm block) >>= λ aead.
      or_fail no_random (primitives.random aead.nonce_size) >>= λ iv.
      as_key_error not_wrapped (aead.seal iv cek []) >>= λ sealed.
      let offset = length sealed - 16 in
      if ltb (length sealed) 16 then panic else ok (take offset sealed, iv, drop offset sealed)

  -- `NewRSAPKCSEncrypt` and `RSAPKCSEncrypt.Encrypt`
  unfoldable pub pkcs1_encrypt : String → P → Bytes → Outcome Error Bytes
  pkcs1_encrypt alg key cek =
      if str_eq alg "RSA1_5"
      then or_fail not_encrypted (primitives.encrypt_pkcs1 key cek)
      else err invalid_algorithm

  -- `NewRSAOAEPEncrypt` and `RSAOAEPEncrypt.Encrypt`
  unfoldable pub oaep_encrypt : String → P → Bytes → Outcome Error Bytes
  oaep_encrypt alg key cek =
      if str_eq alg "RSA-OAEP"
      then or_fail not_encrypted (primitives.encrypt_oaep sha1_oaep key cek)
      else if str_eq alg "RSA-OAEP-256"
      then or_fail not_encrypted (primitives.encrypt_oaep sha256_oaep key cek)
      else err invalid_algorithm
