-- ===== src/Jwe/Content/Tests.antt =====
-- Concrete ciphers for the content, and the theorems at them.
use jwx.Common.{◌≡◌, ◌≢◌, refl, [], ◌∷◌, ok, panic, arith, length, replicate}
use jwx.Common.Bytes.{Bytes}
use jwx.Jwe.Content.{cbc, cipher_of, new_aes, encrypt, decrypt}
use jwx.Jwe.Content.RoundTrip.{decrypt-encrypt}
use jwx.Jwe.Content.Recovered.{content_returns}
use jwx.Jwe.Samples.{crypto, crypto-IsCrypto, nonces, nonces_bytes}

named : new_aes "A128CBC-HS256" ≡ ok (cipher_of 32 16 cbc)
unfolding new_aes
named = refl

decrypt-encrypt_example :
    (iv : Bytes) × (ciphertext : Bytes) × (tag : Bytes) × (encrypt crypto
        (cipher_of 32 16 cbc)
        nonces
        (replicate 32 7)
        (104 ∷ 105 ∷ [])
        (1 ∷ [])
      ≡ ok (iv, ciphertext, tag))
    × (length tag ≡ 16)
    × (decrypt crypto (cipher_of 32 16 cbc) (replicate 32 7) iv ciphertext tag (1 ∷ [])
        ≡ ok (104 ∷ 105 ∷ []))
decrypt-encrypt_example =
    decrypt-encrypt crypto-IsCrypto "A128CBC-HS256" (cipher_of 32 16 cbc) nonces (replicate 32 7)
      (104 ∷ 105 ∷ []) (1 ∷ []) named refl nonces_bytes (omega arith)

content_returns_example :
    (encrypt crypto (cipher_of 32 16 cbc) nonces (replicate 32 7) [] [] ≢ panic)
    × (decrypt crypto (cipher_of 32 16 cbc) (replicate 32 7) (replicate 16 1) [] [] [] ≢ panic)
content_returns_example =
    content_returns crypto (cipher_of 32 16 cbc) nonces (replicate 32 7) (replicate 16 1) [] [] []
      []
