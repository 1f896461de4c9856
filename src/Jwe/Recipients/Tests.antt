-- ===== src/Jwe/Recipients/Tests.antt =====
-- The two sides of a message with concrete libraries.
use jwx.Common.{
  ℕ, ◌<◌, ◌≡◌, refl, true, Option, none, [], ◌∷◌, ok, panic, arith, replicate, All-replicate,
}
use jwx.Common.Bytes.{Bytes}
use jwx.Fields.Values.{one_of}
use jwx.Jwe.Decrypt.{no_parameters}
use jwx.Jwe.Content.{AesContentCipher, cipher_of, gcm, new_aes}
use jwx.Jwe.Content as Content
use jwx.Jwe.KeyEncryption.{RawKey, RawPublicKey, bytes_key}
use jwx.Jwe.KeyEncryption.Agreed.{IsWrappable}
use jwx.Jwe.Decrypter.{key_wrap_names, is_symmetric, decrypt}
use jwx.Jwe.Recipients.{shared, ByteSource, build}
use jwx.Jwe.Recipients.Keys.{received, recipient, content_key}
use jwx.Jwe.Recipients.Whole.{decrypt_panics, decrypt-build}
use jwx.Jwe.Samples.{primitives, primitives-IsLawful, nonces, nonces_bytes}

abbrev cek : Bytes
cek = replicate 16 7

abbrev hi : Bytes
hi = 104 ∷ 105 ∷ []

abbrev no_key : {A : Type 0} → A → Option ℕ
no_key a = none

abbrev no_pair : RawPublicKey ℕ → Option (RawKey ℕ ℕ × RawPublicKey ℕ)
no_pair point = none

cek-IsWrappable : IsWrappable cek
cek-IsWrappable = record { blocks = refl; bytes = All-replicate (λ b. b < 256) 16 7 (omega arith) }

named : new_aes "A128GCM" ≡ ok (cipher_of 16 16 gcm)
unfolding new_aes
named = refl

gcm_symmetric : is_symmetric "A128GCMKW" ≡ true
unfolding is_symmetric one_of
gcm_symmetric = refl

wraps : one_of "A128KW" key_wrap_names ≡ true
unfolding one_of
wraps = refl

decrypt_panics_example :
    decrypt primitives no_key no_key no_key
      (recipient "A128KW" "A128GCM" (bytes_key (replicate 16 1)) no_parameters [] [] [])
      []
      hi
    ≡ panic
decrypt_panics_example =
    decrypt_panics primitives primitives-IsLawful no_key no_key no_key no_key no_key no_pair
      (recipient "A128KW" "A128GCM" (bytes_key (replicate 16 1)) no_parameters [] [] [])
      (replicate 16 1) hi refl wraps refl

decrypt-build_example :
    (source : ByteSource ℕ) × (w : Bytes) × (raw : Option Bytes) × (iv : Bytes)
    × (ciphertext : Bytes) × (tag : Bytes) × (build primitives no_key no_key no_pair "A128GCMKW"
          "A128GCM" 16
          (shared (replicate 16 1))
          []
          []
          cek
        ≡ ok (source, w, raw))
    × (Content.encrypt primitives.crypto
          (cipher_of 16 16 gcm)
          nonces
          (content_key raw cek)
          hi
          (1 ∷ [])
        ≡ ok (iv, ciphertext, tag))
    × (decrypt primitives no_key no_key no_key
          (recipient "A128GCMKW" "A128GCM"
            (bytes_key (replicate 16 1))
            (received source [] [])
            (1 ∷ [])
            iv
            tag)
          w
          ciphertext
        ≡ ok hi)
decrypt-build_example =
    decrypt-build primitives primitives-IsLawful no_key no_key no_key no_key no_key no_pair
      "A128GCMKW" "A128GCM" (cipher_of 16 16 gcm) nonces (replicate 16 1) [] [] cek hi (1 ∷ [])
      gcm_symmetric (λ other. refl) named cek-IsWrappable refl
      (λ same. absurd (ground (arith, same))) nonces_bytes (omega arith)
