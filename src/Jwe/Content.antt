-- ===== src/Jwe/Content.antt =====
-- jwe/internal/cipher/cipher.go, behind jwe/internal/content_crypt/content_crypt.go: the encryption of the
-- content, by AES in GCM or by the package aescbc.
pub mod RoundTrip
pub mod Recovered
mod Tests
use jwx.Common.{
  ℕ, ◌+◌, ◌-◌, ◌*◌, ◌≡◌, Bool, true, false, Option, none, some, String, List, [], ◌++◌, Outcome, ok,
  err, panic, ◌>>=◌, ltb, ◌==◌, str_eq, if◌then◌else◌, length, take, drop,
}
use jwx.Common.Bytes.{Bytes}
use jwx.Crypto.{BlockCipher, HashFunc}
use jwx.Jwe.AesCbc.{Hmac, nonce_size, new, hmac_seal, hmac_open}

pub data Error : Type 0 where
  invalid_algorithm no_aead no_nonce not_sealed not_opened : Error

-- `crypto/cipher.AEAD`, with `nil` for `dst`: it may panic, and fail.
pub record Aead : Type 0 where
  pub nonce_size : ℕ
  pub seal : Bytes → Bytes → Bytes → Outcome Error Bytes
  pub open_sealed : Bytes → Bytes → Bytes → Outcome Error Bytes

-- What the code calls: `aes.NewCipher`, `cipher.NewGCM`, and the MAC of `crypto/hmac`.
pub record Crypto : Type 0 where
  pub new_cipher : Bytes → Option BlockCipher
  pub new_gcm : BlockCipher → Option Aead
  pub mac : HashFunc → Bytes → Bytes → Bytes

pub data Fetcher : Type 0 where
  gcm cbc : Fetcher

pub record AesContentCipher : Type 0 where
  pub keysize : ℕ
  pub tagsize : ℕ
  pub fetch : Fetcher

abbrev pub cipher_of : ℕ → ℕ → Fetcher → AesContentCipher
cipher_of keysize tagsize fetch = record { keysize = keysize; tagsize = tagsize; fetch = fetch }

-- `NewAES`
unfoldable pub new_aes : String → Outcome Error AesContentCipher
new_aes alg =
    if str_eq alg "A128GCM"
    then ok (cipher_of 16 16 gcm)
    else if str_eq alg "A192GCM"
    then ok (cipher_of 24 16 gcm)
    else if str_eq alg "A256GCM"
    then ok (cipher_of 32 16 gcm)
    else if str_eq alg "A128CBC-HS256"
    then ok (cipher_of 32 16 cbc)
    else if str_eq alg "A192CBC-HS384"
    then ok (cipher_of 48 24 cbc)
    else if str_eq alg "A256CBC-HS512"
    then ok (cipher_of 64 32 cbc)
    else err invalid_algorithm

-- A deferred `recover` makes an error of a panic.
abbrev pub recovered : {A : Type 0} → Error → Outcome Error A → Outcome Error A
recovered e panic = err e
recovered e (err inner) = err inner
recovered e (ok a) = ok a

-- The error of a call, with a panic left as it is.
abbrev pub as_error : {E A : Type 0} → Error → Outcome E A → Outcome Error A
as_error e panic = panic
as_error e (err inner) = err e
as_error e (ok a) = ok a

module _ (crypto : Crypto) where
  -- `aescbc.Hmac` as an AEAD.
  abbrev pub aead_of : Hmac → Aead
  aead_of c = record {
    nonce_size = nonce_size;
    seal =
        λ nonce plaintext aad. as_error not_sealed (hmac_seal crypto.mac c [] nonce plaintext aad);
    open_sealed =
        λ nonce combined aad. as_error not_opened (hmac_open crypto.mac c [] nonce combined aad);
  }

  -- The two methods `Fetch`.
  unfoldable pub fetch_aead : Fetcher → Bytes → Outcome Error Aead
  fetch_aead gcm key = elim (crypto.new_cipher key) [
    | none ↦ err no_aead
    | some block ↦ elim (crypto.new_gcm block) [ none ↦ err no_aead | some aead ↦ ok aead ]
  ]
  fetch_aead cbc key = as_error no_aead (new key crypto.new_cipher) >>= λ c. ok (aead_of c)

  -- `Encrypt`: the IV, the ciphertext and the tag. `generate` is the nonce generator, at the size of a
  -- nonce, which runs behind the `defer` as `Seal` does. A combined text that is shorter than the tag is a
  -- panic.
  unfoldable pub encrypt :
      {F : Type 0}
      → AesContentCipher
      → (ℕ → Outcome F Bytes)
      → Bytes
      → Bytes
      → Bytes
      → Outcome Error (Bytes × Bytes × Bytes)
  unfolding fetch_aead
  encrypt c generate cek plaintext aad = fetch_aead c.fetch cek >>= λ aead. recovered not_sealed (
      as_error no_nonce (generate aead.nonce_size) >>= λ iv.
      aead.seal iv plaintext aad >>= λ combined.
      let tagoffset = length combined - c.tagsize in
      if ltb (length combined) c.tagsize
      then panic
      else ok (iv, take tagoffset combined, drop tagoffset combined))

  -- `Decrypt`
  unfoldable pub decrypt :
      AesContentCipher → Bytes → Bytes → Bytes → Bytes → Bytes → Outcome Error Bytes
  unfolding fetch_aead
  decrypt c cek iv ciphertext tag aad = fetch_aead c.fetch cek >>= λ aead.
      recovered not_opened (aead.open_sealed iv (ciphertext ++ tag) aad)
