-- ===== src/Jwe/KeyEncryption/Agreed.antt =====
-- What the encrypters of jwe/internal/keyenc/keyenc.go make, its decrypters take apart.
use jwx.Common.{
  ℕ, ◌*◌, ◌%◌, ◌^◌, ◌≡◌, inl, inr, refl, ap, ◌∙◌, true, false, some, String, [], ok, panic,
  >>=-eq-ok, arith, str_eq, if◌then◌else◌, length, Bool-cases,
}
use jwx.Common.Bytes.{Bytes, AllBytes, be_bytes}
use jwx.Common.Int.{ℤ, pos}
use jwx.Crypto.{BlockCipher, HashFunc}
use jwx.Jwe.KeyWrap.RoundTrip.{unwrap-wrap, unwrap_panics}
use jwx.Jwe.ConcatKdf as ConcatKdf
use jwx.Jwe.ConcatKdf.OtherInfo.{hash-new}
use jwx.Jwe.ConcatKdf.Stream.{read_total}
use jwx.Jwe.Content.{Aead, new_aes}
use jwx.Jwe.Content.RoundTrip.{is_aes_size, IsCrypto}
use jwx.Jwe.KeyEncryption.{
  as_key_error, invalid_algorithm, RawKey, RawPublicKey, Primitives, ecdsa_public, x25519_public,
  other_public, aes_encrypt, aes_decrypt, pbes2_parameters, pbes2_key, pbes2_encrypt, derive_key,
  derive_z, derive_ecdhes, agreed_size, ecdhes_decrypt, generate_ecdhes, ecdhes_encrypt,
}

-- A content encryption key that can be wrapped.
pub record IsWrappable (cek : Bytes) : Type 0 where
  pub blocks : length cek % 8 ≡ 0
  pub bytes : AllBytes cek

-- What the libraries promise: AES and the MACs, and the sizes of hashes, keys and random bytes.
pub record IsLawful {R E D P : Type 0} (primitives : Primitives R E D P) : Type 0 where
  pub is_crypto : IsCrypto primitives.crypto
  pub gcm_nonce :
      (block : BlockCipher) (aead : Aead)
      → primitives.crypto.new_gcm block ≡ some aead
      → aead.nonce_size ≡ 12
  pub digest : (m : Bytes) → length (primitives.sha_256 m) ≡ 32
  pub pbkdf2_size :
      (hash : HashFunc) (password salt : Bytes) (count : ℤ) (keylen : ℕ)
      → length (primitives.pbkdf2 hash password salt count keylen) ≡ keylen
  pub random_bytes :
      (n : ℕ) → (bs : Bytes) × (primitives.random n ≡ some bs) × (length bs ≡ n) × AllBytes bs

-- PBES2 derives keys of the AES sizes.
pbes2_sizes :
    (alg : String) (hash : HashFunc) (keylen : ℕ)
    → pbes2_parameters alg ≡ some (hash, keylen)
    → is_aes_size keylen ≡ true
unfolding pbes2_parameters
pbes2_sizes alg hash keylen e = ground arith

-- The keys that ECDH-ES wraps with have the AES sizes.
agreed_sizes :
    (alg enc name : String) (keysize : ℕ)
    → agreed_size alg enc ≡ ok (name, keysize)
    → str_eq alg "ECDH-ES" ≡ false
    → is_aes_size keysize ≡ true
unfolding agreed_size
agreed_sizes alg enc name keysize e wraps = ground arith

agreed_direct :
    (alg enc name : String) (keysize : ℕ)
    → str_eq alg "ECDH-ES" ≡ true
    → agreed_size alg enc ≡ ok (name, keysize)
    → name ≡ enc
unfolding agreed_size
agreed_direct alg enc name keysize direct e =
    let r = rw (agreed_size, direct) at e in
    let (c, made, last) = >>=-eq-ok (as_key_error invalid_algorithm (new_aes enc)) _ r in
    ground (arith, last)

agreed_wraps :
    (alg enc name : String) (keysize : ℕ)
    → str_eq alg "ECDH-ES" ≡ false
    → agreed_size alg enc ≡ ok (name, keysize)
    → name ≡ alg
unfolding agreed_size
agreed_wraps alg enc name keysize wraps e = ground arith

-- The name in the derivation is that which the generators choose.
agreed_name :
    (alg enc name : String) (keysize : ℕ)
    → agreed_size alg enc ≡ ok (name, keysize)
    → name ≡ (if str_eq alg "ECDH-ES" then enc else alg)
agreed_name alg enc name keysize e = elim (Bool-cases (str_eq alg "ECDH-ES")) [
  | inl direct ↦ rw direct (agreed_direct alg enc name keysize direct e)
  | inr wraps ↦ rw wraps (agreed_wraps alg enc name keysize wraps e)
]

module _ {R E D P : Type 0} (primitives : Primitives R E D P) (laws : IsLawful primitives) where
  -- Under a key of an AES size.
  pub aes_decrypt-aes_encrypt :
      (key cek : Bytes)
      → is_aes_size (length key) ≡ true
      → IsWrappable cek
      → (w : Bytes) × (aes_encrypt primitives key cek ≡ ok w)
        × (aes_decrypt primitives key w ≡ ok cek)
  unfolding aes_encrypt aes_decrypt
  aes_decrypt-aes_encrypt key cek size can =
      let (block, made, lawful, wide) = laws.is_crypto.aes key size in
      let (w, wrapped, unwrapped, grows) = unwrap-wrap lawful wide cek can.blocks can.bytes in
      (w, rw (aes_encrypt, made, wrapped) refl, rw (aes_decrypt, made, unwrapped) refl)

  -- The empty text is a panic under every key that AES takes.
  pub aes_decrypt_panics :
      (key : Bytes) → is_aes_size (length key) ≡ true → aes_decrypt primitives key [] ≡ panic
  unfolding aes_decrypt
  aes_decrypt_panics key size =
      let (block, made, lawful, wide) = laws.is_crypto.aes key size in
      rw (aes_decrypt, made, (unwrap_panics block []).1 refl) refl

  derive_key_total :
      (alg z apu apv : Bytes) (keysize : ℕ)
      → (key : Bytes) × (derive_key primitives alg z apu apv keysize ≡ ok key)
        × (length key ≡ keysize)
  unfolding derive_key
  derive_key_total alg z apu apv keysize =
      let info = be_bytes 4 (keysize * 8 % 2 ^ 32) in
      let kdf = ConcatKdf.new primitives.sha_256 alg z apu apv info [] in
      let same = hash-new primitives.sha_256 alg z apu apv info [] in
      let (key, left, result, size) =
        read_total kdf 32 (λ m. ap (λ f. length (f m)) same ∙ laws.digest m) (omega arith)
          keysize in
      (key, rw (derive_key, result) refl, size)

  -- What `PBES2Encrypt` encrypts under a password, the key that its salt and count give decrypts.
  pub pbes2_lem :
      (alg : String) (hash : HashFunc) (keylen : ℕ) (password cek : Bytes)
      → pbes2_parameters alg ≡ some (hash, keylen)
      → IsWrappable cek
      → (w : Bytes) × (salt : Bytes) × (count : ℤ) × (pbes2_encrypt primitives alg password cek
          ≡ ok (w, salt, count))
        × (aes_decrypt primitives (pbes2_key primitives alg hash keylen password salt count) w
            ≡ ok cek)
  unfolding pbes2_encrypt pbes2_key
  pbes2_lem alg hash keylen password cek named can =
      let (salt, drawn, size, bytes) = laws.random_bytes keylen in
      let key = pbes2_key primitives alg hash keylen password salt (pos 10000) in
      let key_size : length key ≡ keylen = laws.pbkdf2_size hash password _ (pos 10000) keylen in
      let (w, encrypted, decrypted) =
        aes_decrypt-aes_encrypt key cek (rw key_size (pbes2_sizes alg hash keylen named)) can in
      (w, salt, pos 10000, rw (pbes2_encrypt, named, drawn, encrypted) refl, decrypted)

  -- The party info that the generator hands to the derivation.
  abbrev pub Announces : RawPublicKey D → Bytes → Bytes → Type 0
  Announces (ecdsa_public point) apu apv = Unit {0}
  Announces (x25519_public point) apu apv = (apu ≡ []) × (apv ≡ [])
  Announces other_public apu apv = ⊥

  generated_key :
      (alg enc name : String) (keysize : ℕ) (to : RawPublicKey D) (apu apv z key : Bytes)
      (generated : RawKey R E)
      → name ≡ (if str_eq alg "ECDH-ES" then enc else alg)
      → Announces to apu apv
      → derive_z primitives generated to ≡ ok z
      → derive_key primitives (primitives.name_bytes name) z apu apv keysize ≡ ok key
      → generate_ecdhes primitives alg enc keysize to apu apv generated ≡ ok key
  unfolding generate_ecdhes
  generated_key alg enc name keysize (ecdsa_public point) apu apv z key generated named a agrees
        derived =
      rw agrees (rw (← named) derived)
  generated_key alg enc name keysize (x25519_public point) apu apv z key generated named a agrees
        derived =
      let same = rw (named, a.0, a.1) at derived in rw agrees same
  generated_key alg enc name keysize other_public apu apv z key generated named a agrees derived =
      elim a [ ]

  -- ECDH-ES agrees: when the two sides find the same shared secret, and the recipient takes the party info
  -- that the generator has used, the encryption succeeds, and its decryption is the content encryption
  -- key, or for ECDH-ES without key wrap the agreed key itself.
  pub ecdhes_decrypt-ecdhes_encrypt :
      (alg enc name : String) (keysize : ℕ) (to epk : RawPublicKey D) (apu apv z cek : Bytes)
      (generated own : RawKey R E)
      → agreed_size alg enc ≡ ok (name, keysize)
      → Announces to apu apv
      → derive_z primitives generated to ≡ ok z
      → derive_z primitives own epk ≡ ok z
      → IsWrappable cek
      → (w : Bytes) × (ecdhes_encrypt primitives alg enc keysize to apu apv generated cek ≡ ok w)
        × (ecdhes_decrypt primitives alg enc epk apu apv own w
            ≡ ok (if str_eq alg "ECDH-ES" then w else cek))
  unfolding ecdhes_encrypt ecdhes_decrypt derive_ecdhes
  ecdhes_decrypt-ecdhes_encrypt alg enc name keysize to epk apu apv z cek generated own sized a sent
        received can =
      let (key, derived, key_size) =
        derive_key_total (primitives.name_bytes name) z apu apv keysize in
      let made =
        generated_key alg enc name keysize to apu apv z key generated
          (agreed_name alg enc name keysize sized) a sent derived in
      elim (Bool-cases (str_eq alg "ECDH-ES")) [
        | inl direct ↦ (
          key,
          rw (ecdhes_encrypt, made, direct) refl,
          rw (ecdhes_decrypt, sized, derive_ecdhes, received, derived, direct) refl,
        )
        | inr wraps ↦
            let (w, encrypted, decrypted) =
              aes_decrypt-aes_encrypt key cek
                (rw key_size (agreed_sizes alg enc name keysize sized wraps)) can in
            (
              w,
              rw (ecdhes_encrypt, made, wraps, encrypted) refl,
              rw (ecdhes_decrypt, sized, derive_ecdhes, received, derived, wraps, decrypted) refl,
            )
      ]
