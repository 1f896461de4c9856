-- ===== src/Jwe/Recipients/Keys.antt =====
-- The key that `Build` of jwe/jwe.go encrypts to a shared key, `DecryptKey` of jwe/decrypt.go finds again.
use jwx.Common.{
  ℕ, ◌-◌, ◌≡◌, refl, ◌∙◌, true, false, ◌||◌, Option, none, some, String, [], ok, arith, ltb, str_eq,
  if◌then◌else◌, length, take, drop, All, length-drop, take-append-drop,
}
use jwx.Common.Bytes.{Bytes}
use jwx.Crypto.{HashFunc, sha256, sha384, sha512}
use jwx.Fields.Values.{one_of}
use jwx.Jwe.Decrypt.{Decrypter, KeyParameters, agreement, sealed, password, no_parameters}
use jwx.Jwe.Content.RoundTrip.{is_aes_size}
use jwx.Jwe.KeyEncryption.{
  RawKey, RawPublicKey, Primitives, bytes_key, pbes2_parameters, gcm_encrypt,
}
use jwx.Jwe.KeyEncryption.Agreed.{IsLawful, IsWrappable, aes_decrypt-aes_encrypt, pbes2_lem}
use jwx.Jwe.Decrypter.{is_symmetric, decrypt_key, decrypt_symmetric_key, open_key}
use jwx.Jwe.Recipients.{
  SendKey, shared, ByteSource, byte_key, with_ec_public_key, with_iv_and_tag, with_salt_and_count,
  pbes2_names, encrypt_shared, encrypt_key, build,
}
use jwx.Jwe.Recipients.Names.{NamedAs, named_as, symmetric_names, one_of_elim}

-- What the recipient reads of the headers, with the party info of the headers.
abbrev pub received : {D : Type 0} → ByteSource D → Bytes → Bytes → KeyParameters (RawPublicKey D)
received (byte_key k) apu apv = no_parameters
received (with_ec_public_key point k) apu apv = agreement point apu apv
received (with_iv_and_tag iv tag k) apu apv = sealed iv tag
received (with_salt_and_count salt count k) apu apv = password salt count

-- The decrypter of a recipient, for a message without additional data of its own.
abbrev pub recipient :
    {R E D : Type 0}
    → String
    → String
    → RawKey R E
    → KeyParameters (RawPublicKey D)
    → Bytes
    → Bytes
    → Bytes
    → Decrypter (RawKey R E) (RawPublicKey D)
recipient alg enc key parameters computed_aad iv tag = record {
  alg = alg;
  enc = enc;
  key = key;
  aad = none;
  computed_aad = computed_aad;
  iv = iv;
  tag = tag;
  parameters = parameters;
}

-- The key of the content, which some encrypters replace.
abbrev pub content_key : Option Bytes → Bytes → Bytes
content_key none cek = cek
content_key (some raw) cek = raw

module _ {R E D P : Type 0} (primitives : Primitives R E D P) (laws : IsLawful primitives)
    (to_rsa : RawKey R E → Option R) (to_ecdsa : RawKey R E → Option E)
    (to_ecdsa_public : RawPublicKey D → Option D) (to_rsa_public : SendKey P D → Option P)
    (to_point : SendKey P D → Option D)
    (generate_key : RawPublicKey D → Option (RawKey R E × RawPublicKey D)) where
  -- `build` succeeds, and the decrypter that reads its headers finds the key of the content.
  abbrev pub Recovers : String → String → ℕ → Bytes → Bytes → Bytes → Bytes → Type 0
  Recovers alg enc content_size key apu apv cek =
      (source : ByteSource D) × (w : Bytes) × (raw : Option Bytes) × (build primitives to_rsa_public
          to_point generate_key alg enc content_size (shared key) apu apv cek
        ≡ ok (source, w, raw))
      × (raw ≡ (if str_eq alg "dir" then some key else none))
      × ((computed_aad iv tag : Bytes)
          → decrypt_key primitives to_rsa to_ecdsa to_ecdsa_public
              (recipient alg enc (bytes_key key) (received source apu apv) computed_aad iv tag) w
            ≡ ok (content_key raw cek))

  wraps_lem :
      (alg enc : String) (content_size : ℕ) (key apu apv cek : Bytes)
      → NamedAs alg true none false
      → is_aes_size (length key) ≡ true
      → IsWrappable cek
      → Recovers alg enc content_size key apu apv cek
  unfolding build encrypt_key encrypt_shared decrypt_key decrypt_symmetric_key
  wraps_lem alg enc content_size key apu apv cek t size can =
      let (w, encrypted, decrypted) = aes_decrypt-aes_encrypt primitives laws key cek size can in
      (
        byte_key w,
        w,
        none,
        rw (t.pkcs1, t.oaep, t.shares, t.key_wrap, encrypted, t.agrees, t.dir) refl,
        rw t.dir refl,
        (λ computed_aad iv tag. rw (t.symmetric, t.dir, t.parameters, t.key_wrap, decrypted) refl),
      )

  derives_lem :
      (alg enc : String) (content_size : ℕ) (hash : HashFunc) (keylen : ℕ) (key apu apv cek : Bytes)
      → NamedAs alg false (some (hash, keylen)) false
      → IsWrappable cek
      → Recovers alg enc content_size key apu apv cek
  unfolding build encrypt_key encrypt_shared decrypt_key decrypt_symmetric_key
  derives_lem alg enc content_size hash keylen key apu apv cek t can =
      let (w, salt, count, encrypted, decrypted) =
        pbes2_lem primitives laws alg hash keylen key cek t.parameters can in
      (
        with_salt_and_count salt count w,
        w,
        none,
        rw (t.pkcs1, t.oaep, t.shares, t.key_wrap, t.pbes2, encrypted, t.agrees, t.dir) refl,
        rw t.dir refl,
        (λ computed_aad iv tag. rw (t.symmetric, t.dir, t.parameters, decrypted) refl),
      )

  direct_lem :
      (alg enc : String) (content_size : ℕ) (key apu apv cek : Bytes)
      → NamedAs alg false none true
      → Recovers alg enc content_size key apu apv cek
  unfolding build encrypt_key decrypt_key decrypt_symmetric_key
  direct_lem alg enc content_size key apu apv cek t = (
    byte_key key,
    [],
    some key,
    rw (t.pkcs1, t.oaep, t.shares, t.agreement, t.agrees, t.dir) refl,
    rw t.dir refl,
    (λ computed_aad iv tag. rw (t.symmetric, t.dir) refl),
  )

  gcm_lem :
      (key cek : Bytes)
      → is_aes_size (length key) ≡ true
      → IsWrappable cek
      → (w : Bytes) × (iv : Bytes) × (tag : Bytes) × (gcm_encrypt primitives key cek
          ≡ ok (w, iv, tag))
        × (open_key primitives to_rsa to_ecdsa to_ecdsa_public key iv tag w ≡ ok cek)
  unfolding gcm_encrypt open_key
  gcm_lem key cek size can =
      let (block, made, lawful, wide) = laws.is_crypto.aes key size in
      let (aead, wrapped, is_aead) = laws.is_crypto.aes_gcm block lawful wide in
      let (iv, drawn, iv_size, iv_bytes) = laws.random_bytes aead.nonce_size in
      let (combined, is_sealed, opened, grows) = is_aead iv cek [] iv_size iv_bytes can.bytes in
      let offset = length combined - 16 in
      let twelve : length iv ≡ 12 = iv_size ∙ laws.gcm_nonce block aead wrapped in
      let sixteen : length (drop offset combined) ≡ 16 =
        omega (arith, length-drop offset combined) in
      let room : ltb (length combined) 16 ≡ false = ground arith in
      (
        take offset combined,
        iv,
        drop offset combined,
        rw (gcm_encrypt, made, wrapped, drawn, is_sealed, room) refl,
        rw (open_key, twelve, sixteen, made, wrapped, take-append-drop offset combined, opened)
            refl,
      )

  seals_lem :
      (alg enc : String) (content_size : ℕ) (key apu apv cek : Bytes)
      → NamedAs alg false none false
      → is_aes_size (length key) ≡ true
      → IsWrappable cek
      → Recovers alg enc content_size key apu apv cek
  unfolding build encrypt_key encrypt_shared decrypt_key decrypt_symmetric_key
  seals_lem alg enc content_size key apu apv cek t size can =
      let (w, iv, tag, encrypted, decrypted) = gcm_lem key cek size can in
      (
        with_iv_and_tag iv tag w,
        w,
        none,
        rw (t.pkcs1, t.oaep, t.shares, t.key_wrap, t.pbes2, encrypted, t.agrees, t.dir) refl,
        rw t.dir refl,
        (λ computed_aad nonce mark.
            rw (t.symmetric, t.dir, t.parameters, t.key_wrap, t.gcm, decrypted) refl),
      )

  -- The same by the name of the algorithm.
  Round : String → ℕ → Bytes → Bytes → Bytes → Bytes → String → Type 0
  Round enc content_size key apu apv cek alg =
      ((one_of alg pbes2_names || str_eq alg "dir") ≡ false → is_aes_size (length key) ≡ true)
      → Recovers alg enc content_size key apu apv cek

  wraps_round :
      (enc : String) (content_size : ℕ) (key apu apv cek : Bytes)
      → IsWrappable cek
      → (alg : String) → NamedAs alg true none false
      → Round enc content_size key apu apv cek alg
  unfolding Round
  wraps_round enc n key apu apv cek can alg t size =
      wraps_lem alg enc n key apu apv cek t (size (rw (t.pbes2, t.dir) refl)) can

  seals_round :
      (enc : String) (content_size : ℕ) (key apu apv cek : Bytes)
      → IsWrappable cek
      → (alg : String) → NamedAs alg false none false
      → Round enc content_size key apu apv cek alg
  unfolding Round
  seals_round enc n key apu apv cek can alg t size =
      seals_lem alg enc n key apu apv cek t (size (rw (t.pbes2, t.dir) refl)) can

  rounds :
      (enc : String) (content_size : ℕ) (key apu apv cek : Bytes)
      → IsWrappable cek
      → All (Round enc content_size key apu apv cek) symmetric_names
  unfolding Round pbes2_parameters one_of is_symmetric
  rounds enc n key apu apv cek can =
      let wraps = wraps_round enc n key apu apv cek can in
      let seals = seals_round enc n key apu apv cek can in
      (
        seals "A128GCMKW" (named_as _ refl),
        (
          wraps "A128KW" (named_as _ refl),
          (
            seals "A192GCMKW" (named_as _ refl),
            (
              wraps "A192KW" (named_as _ refl),
              (
                seals "A256GCMKW" (named_as _ refl),
                (
                  wraps "A256KW" (named_as _ refl),
                  (
                    (λ size. direct_lem "dir" enc n key apu apv cek (named_as _ refl)),
                    (
                      (λ size.
                          derives_lem "PBES2-HS256+A128KW" enc n sha256 16 key apu apv cek
                            (named_as _ refl) can),
                      (
                        (λ size.
                            derives_lem "PBES2-HS384+A192KW" enc n sha384 24 key apu apv cek
                              (named_as _ refl) can),
                        (
                          (λ size.
                              derives_lem "PBES2-HS512+A256KW" enc n sha512 32 key apu apv cek
                                (named_as _ refl) can),
                          tt,
                        ),
                      ),
                    ),
                  ),
                ),
              ),
            ),
          ),
        ),
      )

  -- For every symmetric algorithm, a shared key of an AES size where the algorithm uses it as one, and a
  -- key of the content of bytes in blocks of eight: `Build` succeeds, and `DecryptKey` with the same key,
  -- what `Build` wrote into the headers and the encrypted key is the key of the content.
  pub decrypt_key-build :
      (alg enc : String) (content_size : ℕ) (key apu apv cek : Bytes)
      → is_symmetric alg ≡ true
      → ((one_of alg pbes2_names || str_eq alg "dir") ≡ false → is_aes_size (length key) ≡ true)
      → IsWrappable cek
      → Recovers alg enc content_size key apu apv cek
  unfolding Round is_symmetric
  decrypt_key-build alg enc content_size key apu apv cek symmetric size can =
      one_of_elim (Round enc content_size key apu apv cek) symmetric_names alg
        (rounds enc content_size key apu apv cek can) symmetric size
