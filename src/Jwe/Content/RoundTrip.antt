-- ===== src/Jwe/Content/RoundTrip.antt =====
-- What jwe/internal/cipher/cipher.go encrypts, it decrypts.
use jwx.Common.{
  ℕ, Outcome, ◌-◌, ◌*◌, ◌≤◌, ◌≡◌, refl, sym, ◌∙◌, Bool, true, false, ◌||◌, some, String, [], ok,
  arith, ltb, ◌==◌, length, take, drop, length-drop, take-append-drop,
}
use jwx.Common.Bytes.{Bytes, AllBytes}
use jwx.Crypto.{BlockCipher, IsBlockCipher, HashFunc, hash_size}
use jwx.Jwe.AesCbc.{Hmac, new}
use jwx.Jwe.AesCbc.Aead.{IsUsable, open-seal}
use jwx.Jwe.AesCbc.Setup.{new_sizes, new_total}
use jwx.Jwe.Content.{
  Error, Aead, Crypto, Fetcher, gcm, cbc, AesContentCipher, new_aes, aead_of, fetch_aead, encrypt,
  decrypt,
}

abbrev pub is_aes_size : ℕ → Bool
is_aes_size n = n == 16 || (n == 24 || n == 32)

-- What an AEAD promises: it opens what it sealed, which is no shorter than the tag.
abbrev pub IsAead : ℕ → Aead → Type 0
IsAead tagsize aead =
    (nonce plaintext aad : Bytes)
    → length nonce ≡ aead.nonce_size
    → AllBytes nonce
    → AllBytes plaintext
    → (sealed : Bytes) × (aead.seal nonce plaintext aad ≡ ok sealed)
      × (aead.open_sealed nonce sealed aad ≡ ok plaintext)
      × (tagsize ≤ length sealed)

-- What the standard library promises of AES, GCM and the hash functions.
pub record IsCrypto (crypto : Crypto) : Type 0 where
  pub aes :
      (key : Bytes)
      → is_aes_size (length key) ≡ true
      → (block : BlockCipher) × (crypto.new_cipher key ≡ some block)
        × IsBlockCipher block
        × (block.block_size ≡ 16)
  pub aes_gcm :
      (block : BlockCipher)
      → IsBlockCipher block
      → block.block_size ≡ 16
      → (aead : Aead) × (crypto.new_gcm block ≡ some aead) × IsAead 16 aead
  pub mac_size : (h : HashFunc) (key m : Bytes) → length (crypto.mac h key m) ≡ hash_size h

-- The sizes of the six algorithms.
new_aes_sizes :
    (alg : String) (c : AesContentCipher)
    → new_aes alg ≡ ok c
    → (c.fetch ≡ gcm → (is_aes_size c.keysize ≡ true) × (c.tagsize ≡ 16))
      × (c.fetch ≡ cbc → (is_aes_size c.tagsize ≡ true) × (c.keysize ≡ 2 * c.tagsize))
unfolding new_aes
new_aes_sizes alg c e = ground arith

module _ {crypto : Crypto} (laws : IsCrypto crypto) where
  fetch_gcm :
      (key : Bytes)
      → is_aes_size (length key) ≡ true
      → (aead : Aead) × (fetch_aead crypto gcm key ≡ ok aead) × IsAead 16 aead
  unfolding fetch_aead
  fetch_gcm key size =
      let (block, made, lawful, wide) = laws.aes key size in
      let (aead, wrapped, is_aead) = laws.aes_gcm block lawful wide in
      (aead, rw (made, fetch_aead, wrapped) refl, is_aead)

  half_size : (key : Bytes) (size : ℕ) → length key ≡ 2 * size → length (drop size key) ≡ size
  half_size key size twice = omega (arith, length-drop size key)

  cbc_IsUsable :
      (key : Bytes) (size : ℕ) (c : Hmac) (nonce : Bytes)
      → new key crypto.new_cipher ≡ ok c
      → c.tagsize ≡ size
      → IsBlockCipher c.block_cipher
      → c.block_cipher.block_size ≡ 16
      → length nonce ≡ 16
      → AllBytes nonce
      → IsUsable c nonce
  cbc_IsUsable key size c nonce made tag lawful wide long bytes =
      let (half, same, hash, key_size, ekey, split, found) =
        new_sizes key crypto.new_cipher c made in
      record {
        cipher_laws = lawful;
        small_blocks = omega arith;
        tag_fits = omega arith;
        same_sizes = sym same;
        nonce_block = long ∙ sym wide;
        nonce_bytes = bytes;
      }

  fetch_cbc :
      (key : Bytes) (size : ℕ)
      → is_aes_size size ≡ true
      → length key ≡ 2 * size
      → (aead : Aead) × (fetch_aead crypto cbc key ≡ ok aead)
        × IsAead size aead
        × (aead.nonce_size ≡ 16)
  unfolding fetch_aead
  fetch_cbc key size good twice =
      let half = half_size key size twice in
      let (block, found, lawful, wide) = laws.aes (drop size key) (rw half good) in
      let (c, made, same, tag) = new_total key crypto.new_cipher block size good twice found in
      (
        aead_of crypto c,
        rw (fetch_aead, made) refl,
        (λ nonce plaintext aad long bytes plain.
            let usable =
              cbc_IsUsable key size c nonce made tag (rw same lawful) (rw same wide) long bytes in
            let (sealed, is_sealed, opened, grows) =
              open-seal crypto.mac laws.mac_size c nonce aad plaintext usable plain [] in
            (sealed, rw is_sealed refl, rw opened refl, omega arith)),
        refl,
      )

  -- The same for both kinds, at the size of a tag that the cipher has.
  fetch_lem :
      (f : Fetcher) (alg : String) (c : AesContentCipher) (cek : Bytes)
      → c.fetch ≡ f
      → new_aes alg ≡ ok c
      → length cek ≡ c.keysize
      → (aead : Aead) × (fetch_aead crypto c.fetch cek ≡ ok aead) × IsAead c.tagsize aead
  fetch_lem gcm alg c cek e made long =
      let (good, tag) = (new_aes_sizes alg c made).0 e in
      let (aead, fetched, is_aead) = fetch_gcm cek (rw long good) in
      (aead, rw e fetched, rw tag is_aead)
  fetch_lem cbc alg c cek e made long =
      let (good, twice) = (new_aes_sizes alg c made).1 e in
      let (aead, fetched, is_aead, nonce) = fetch_cbc cek c.tagsize good (long ∙ twice) in
      (aead, rw e fetched, is_aead)

  -- For each of the six algorithms, a key of its size, a nonce generator that gives as many bytes as it is
  -- asked for, and every plaintext of bytes: `Encrypt` succeeds, with a tag of the size of the algorithm,
  -- and `Decrypt` of the IV, the ciphertext and the tag is the plaintext.
  pub decrypt-encrypt :
      (alg : String) (c : AesContentCipher) (generate : ℕ → Outcome Error Bytes)
      (cek plaintext aad : Bytes)
      → new_aes alg ≡ ok c
      → length cek ≡ c.keysize
      → ((n : ℕ) → (iv : Bytes) × (generate n ≡ ok iv) × (length iv ≡ n) × AllBytes iv)
      → AllBytes plaintext
      → (iv : Bytes) × (ciphertext : Bytes) × (tag : Bytes) × (encrypt crypto c generate cek
            plaintext aad
          ≡ ok (iv, ciphertext, tag))
        × (length tag ≡ c.tagsize)
        × (decrypt crypto c cek iv ciphertext tag aad ≡ ok plaintext)
  unfolding encrypt decrypt
  decrypt-encrypt alg c generate cek plaintext aad made long nonces plain =
      let (aead, fetched, is_aead) = fetch_lem c.fetch alg c cek refl made long in
      let (iv, generated, iv_size, iv_bytes) = nonces aead.nonce_size in
      let (sealed, is_sealed, opened, grows) = is_aead iv plaintext aad iv_size iv_bytes plain in
      let offset = length sealed - c.tagsize in
      let room : ltb (length sealed) c.tagsize ≡ false = ground arith in
      (
        iv,
        take offset sealed,
        drop offset sealed,
        rw (encrypt, fetched, generated, is_sealed, room) refl,
        omega (arith, length-drop offset sealed),
        rw (decrypt, fetched, take-append-drop offset sealed, opened) refl,
      )
