-- ===== src/Jwe/Recipients/Whole.antt =====
-- `Build` and the content encryption of jwe/jwe.go, and `Decrypt` of jwe/decrypt.go.
use jwx.Common.{
  ℕ, Outcome, ◌≡◌, refl, true, false, ◌||◌, Option, none, some, String, [], ok, panic, str_eq,
  if◌then◌else◌, length, Bool-cases, inl, inr,
}
use jwx.Common.Bytes.{Bytes, AllBytes}
use jwx.Fields.Values.{one_of}
use jwx.Jwe.Decrypt.{Decrypter}
use jwx.Jwe.Content.{Aead, AesContentCipher, new_aes}
use jwx.Jwe.Content as Content
use jwx.Jwe.Content.RoundTrip.{is_aes_size, decrypt-encrypt}
use jwx.Jwe.KeyEncryption.{RawKey, RawPublicKey, Primitives, bytes_key, pbes2_parameters}
use jwx.Jwe.KeyEncryption.Agreed.{IsLawful, IsWrappable, aes_decrypt_panics}
use jwx.Jwe.Decrypter.{
  key_wrap_names, is_symmetric, decrypt_key, decrypt_symmetric_key, content_cipher, decrypt,
}
use jwx.Jwe.Recipients.{SendKey, shared, ByteSource, pbes2_names, build}
use jwx.Jwe.Recipients.Names.{NamedAs, named_as, one_of_elim}
use jwx.Jwe.Recipients.Keys.{received, recipient, content_key, decrypt_key-build}

module _ {R E D P : Type 0} (primitives : Primitives R E D P) (laws : IsLawful primitives)
    (to_rsa : RawKey R E → Option R) (to_ecdsa : RawKey R E → Option E)
    (to_ecdsa_public : RawPublicKey D → Option D) (to_rsa_public : SendKey P D → Option P)
    (to_point : SendKey P D → Option D)
    (generate_key : RawPublicKey D → Option (RawKey R E × RawPublicKey D)) where
  panics_lem :
      (d : Decrypter (RawKey R E) (RawPublicKey D)) (key : Bytes)
      → d.key ≡ bytes_key key
      → NamedAs d.alg true none false
      → is_aes_size (length key) ≡ true
      → decrypt_key primitives to_rsa to_ecdsa to_ecdsa_public d [] ≡ panic
  unfolding decrypt_key decrypt_symmetric_key
  panics_lem d key is_key t size =
      rw
        (
          t.symmetric,
          is_key,
          t.dir,
          t.parameters,
          t.key_wrap,
          aes_decrypt_panics primitives laws key size,
        )
        refl

  -- For every state of the `decrypter` of jwe/decrypt.go that has one of the three algorithms of AES key
  -- wrap and a shared key of an AES size, and for every ciphertext: its `Decrypt` with an empty encrypted
  -- key panics.
  pub decrypt_panics :
      (d : Decrypter (RawKey R E) (RawPublicKey D)) (key ciphertext : Bytes)
      → d.key ≡ bytes_key key
      → one_of d.alg key_wrap_names ≡ true
      → is_aes_size (length key) ≡ true
      → decrypt primitives to_rsa to_ecdsa to_ecdsa_public d [] ciphertext ≡ panic
  unfolding decrypt pbes2_parameters one_of is_symmetric
  decrypt_panics d key ciphertext is_key named size =
      let wraps =
        one_of_elim (λ n. NamedAs n true none false) key_wrap_names d.alg
          (named_as "A128KW" refl, (named_as "A192KW" refl, (named_as "A256KW" refl, tt))) named in
      rw (decrypt, panics_lem d key is_key wraps size) refl

  key_size :
      (alg : String) (key cek : Bytes) (raw : Option Bytes) (size : ℕ)
      → raw ≡ (if str_eq alg "dir" then some key else none)
      → length cek ≡ size
      → (str_eq alg "dir" ≡ true → length key ≡ size)
      → length (content_key raw cek) ≡ size
  key_size alg key cek raw size e long direct = elim (Bool-cases (str_eq alg "dir")) [
    | inl same ↦ let r = rw same at e in rw r (direct same)
    | inr apart ↦ let r = rw apart at e in rw r long
  ]

  -- The two sides together, for every symmetric algorithm and every content encryption algorithm: with a
  -- shared key of an AES size where the algorithm uses it as one, and of the size of the content cipher
  -- for "dir", a new content key of that size, a nonce generator that gives as many bytes as it is asked
  -- for, and a plaintext of bytes, `Build` and the content encryption succeed, and `Decrypt` of what they
  -- give is the plaintext.
  pub decrypt-build :
      (alg enc : String) (c : AesContentCipher) (generate : ℕ → Outcome Content.Error Bytes)
      (key apu apv cek plaintext aad : Bytes)
      → is_symmetric alg ≡ true
      → ((one_of alg pbes2_names || str_eq alg "dir") ≡ false → is_aes_size (length key) ≡ true)
      → new_aes enc ≡ ok c
      → IsWrappable cek
      → length cek ≡ c.keysize
      → (str_eq alg "dir" ≡ true → length key ≡ c.keysize)
      → ((n : ℕ) → (iv : Bytes) × (generate n ≡ ok iv) × (length iv ≡ n) × AllBytes iv)
      → AllBytes plaintext
      → (source : ByteSource D) × (w : Bytes) × (raw : Option Bytes) × (iv : Bytes)
        × (ciphertext : Bytes) × (tag : Bytes) × (build primitives to_rsa_public to_point
              generate_key alg enc c.keysize
              (shared key)
              apu
              apv
              cek
            ≡ ok (source, w, raw))
        × (Content.encrypt primitives.crypto c generate (content_key raw cek) plaintext aad
            ≡ ok (iv, ciphertext, tag))
        × (decrypt primitives to_rsa to_ecdsa to_ecdsa_public
              (recipient alg enc (bytes_key key) (received source apu apv) aad iv tag)
              w
              ciphertext
            ≡ ok plaintext)
  unfolding decrypt content_cipher
  decrypt-build alg enc c generate key apu apv cek plaintext aad symmetric size made can long direct
        nonces plain =
      let (source, w, raw, built, is_raw, opened) =
        decrypt_key-build primitives laws to_rsa to_ecdsa to_ecdsa_public to_rsa_public to_point
          generate_key alg enc c.keysize key apu apv cek symmetric size can in
      let fits = key_size alg key cek raw c.keysize is_raw long direct in
      let (iv, ciphertext, tag, encrypted, tag_size, decrypted) =
        decrypt-encrypt laws.is_crypto enc c generate (content_key raw cek) plaintext aad made fits
          nonces plain in
      (
        source,
        w,
        raw,
        iv,
        ciphertext,
        tag,
        built,
        encrypted,
        rw (decrypt, opened aad iv tag, made, decrypted) refl,
      )
