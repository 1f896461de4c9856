-- ===== src/Jwe/AesCbc/Aead.antt =====
-- `Seal` and `Open` of jwe/internal/aescbc/aescbc.go.
use jwx.Common.{
  ℕ, zero, suc, ◌+◌, ◌-◌, ◌*◌, ◌/◌, ◌%◌, ◌^◌, ◌≤◌, ◌<◌, ◌≡◌, refl, sym, ap, ◌∙◌, true, false, [],
  ◌∷◌, ◌++◌, ok, >>=-eq-ok, tests, arith, ltb, ◌==◌, length, take, drop, copy, copy_at, replicate,
  length-append, length-replicate, length-take, take-append, drop-append, take_all, drop_all,
  take-append-drop, copy_full, copy-append, Bool-cases, ==_iff, inl, inr, replicate-add,
  copy_at_behind,
}
use mathlib.Core.List.{append-nil, append_assoc}
use jwx.Common.Bytes.{Bytes, be_bytes, AllBytes, bytes_eq, bytes_eq→eq, bytes_eq_refl}
use jwx.Crypto.{IsBlockCipher, HashFunc, hash_size, cbc_encrypt_blocks, cbc_decrypt_blocks}
use jwx.Crypto.Cbc.{cbc_encrypt_blocks_shape, cbc_decrypt-cbc_encrypt}
use jwx.Jwe.AesCbc.{
  Hmac, pad, unpad, ensure_size, compute_auth_tag, hmac_seal, open_plaintext, hmac_open,
}
use jwx.Jwe.AesCbc.Padding.{unpad-pad, AllBytes-pad}
use native.Mathlib.Nat.{div-add-mod', add_assoc}

-- The buffer of `ensure_size` holds `dst` and then zeros.
ensure_size-append : (dst : Bytes) (k : ℕ) → ensure_size dst (length dst + k) ≡ dst ++ replicate k 0
unfolding ensure_size
ensure_size-append dst k = elim (Bool-cases (ltb (length dst) (length dst + k))) [
  | inl grows ↦
      rw (grows, replicate-add {A = ℕ} (length dst) k 0)
        (copy-append dst (replicate (length dst) 0) (replicate k 0) (length-replicate _ _))
  | inr fits ↦ let none_left : k ≡ 0 = ground arith in rw (fits, none_left) (sym (append-nil dst))
]

-- Two copies one after the other behind `dst` write the two sources.
copy_twice :
    (dst xs ys : Bytes)
    → copy_at
        (copy_at (dst ++ replicate (length xs + length ys) 0) (length dst) xs)
        (length dst + length xs)
        ys
      ≡ dst ++ (xs ++ ys)
copy_twice dst xs ys =
    let zeros : Bytes = replicate (length ys) 0 in
    rw
      (
        replicate-add {A = ℕ} (length xs) (length ys) 0,
        copy_at_behind dst xs (replicate (length xs) 0) zeros (length dst) refl
            (length-replicate _ _),
        ← append_assoc dst xs zeros,
        ← append_assoc dst xs ys,
      )
      (at (dst ++ xs) (length-append dst xs))
  where
    at :
        (front : Bytes)
        → length front ≡ length dst + length xs
        → copy_at (front ++ replicate (length ys) 0) (length dst + length xs) ys ≡ front ++ ys
    at front h = rw (
      take-append _ front (replicate (length ys) 0) h,
      drop-append _ front (replicate (length ys) 0) h,
      copy_full (replicate (length ys) 0) ys (length-replicate _ _),
    )

-- The end of `Seal`: the two copies fill what `ensureSize` has made room for.
write_sealed :
    (dst ct tag : Bytes)
    → copy_at
        (copy_at (ensure_size dst (length dst + length ct + length tag)) (length dst) ct)
        (length dst + length ct)
        tag
      ≡ dst ++ (ct ++ tag)
write_sealed dst ct tag =
    rw (add_assoc (length dst) (length ct) (length tag), ensure_size-append dst)
      (copy_twice dst ct tag)

-- The end of `Open` for an empty `dst`.
write_opened : (p : Bytes) → copy_at (ensure_size [] (length p)) 0 p ≡ p
write_opened p =
    let e : length p ≡ 0 + length p = omega arith in
    rw e (
      rw (ensure_size-append [] (length p))
        (copy_full (replicate (length p) 0) p (length-replicate _ _)))

copy_zeros : (k : ℕ) (xs : Bytes) → k ≤ length xs → copy (replicate k 0) xs ≡ take k xs
copy_zeros zero xs h = refl
copy_zeros (suc k) [] h = absurd (omega arith)
copy_zeros (suc k) (x ∷ xs) h = ap (λ t. x ∷ t) (copy_zeros k xs (omega arith))

-- The end of `Open` for any `dst`.
write_partly :
    (dst p : Bytes)
    → copy_at (ensure_size dst (length p)) (length dst) p ≡ dst ++ take (length p - length dst) p
write_partly dst p = elim (Bool-cases (ltb (length dst) (length p))) [
  | inl longer ↦
      let k = length p - length dst in
      let e : ensure_size dst (length p) ≡ dst ++ replicate k 0 =
        ap (ensure_size dst) (omega tests) ∙ ensure_size-append dst k in
      rw e (
        rw (
          take-append (length dst) dst (replicate k 0) refl,
          drop-append (length dst) dst (replicate k 0) refl,
          copy_zeros k p (omega arith),
        ))
  | inr short ↦
      let none_left : length p - length dst ≡ 0 = ground arith in
      let same : ensure_size dst (length p) ≡ dst = unfold ensure_size in rw short in
      rw (
        same,
        none_left,
        take_all (length dst) dst (omega arith),
        drop_all (length dst) dst (omega arith),
      )
]

-- What `New` sets up, and the nonce that the AEAD interface asks for.
pub record IsUsable (c : Hmac) (nonce : Bytes) : Type 0 where
  pub cipher_laws : IsBlockCipher c.block_cipher
  pub small_blocks : c.block_cipher.block_size < 256
  pub tag_fits : c.tagsize ≤ hash_size c.hash
  pub same_sizes : c.keysize ≡ c.tagsize
  pub nonce_block : length nonce ≡ c.block_cipher.block_size
  pub nonce_bytes : AllBytes nonce

-- The hash functions meet their documentation: `Sum` appends `Size()` bytes.
module _ (mac : HashFunc → Bytes → Bytes → Bytes)
    (mac_size : (h : HashFunc) (key m : Bytes) → length (mac h key m) ≡ hash_size h) where
  length-compute_auth_tag :
      (c : Hmac) (aad nonce ct : Bytes)
      → c.tagsize ≤ hash_size c.hash
      → length (compute_auth_tag mac c aad nonce ct) ≡ c.tagsize
  unfolding compute_auth_tag
  length-compute_auth_tag c aad nonce ct h =
      let all = aad ++ (nonce ++ (ct ++ be_bytes 8 (length aad * 8 % 2 ^ 64))) in
      omega (
        arith,
        length-take c.tagsize (mac c.hash c.integrity_key all),
        mac_size c.hash c.integrity_key all,
      )

  module _ (c : Hmac) (nonce aad p : Bytes) (u : IsUsable c nonce) (p_bytes : AllBytes p) where
    abbrev block : ℕ
    block = c.block_cipher.block_size

    -- The padded plaintext, and what CBC makes of it.
    record Sealed (padded ct : Bytes) : Type 0 where
      pad_result : pad p block ≡ ok padded
      unpad_result : unpad padded block ≡ ok p
      whole : length padded % block ≡ 0
      grows : length p < length padded
      encrypted : ct ≡ cbc_encrypt_blocks c.block_cipher (length padded / block) nonce padded
      decrypted : cbc_decrypt_blocks c.block_cipher (length padded / block) nonce ct ≡ padded
      same_length : length ct ≡ length padded

    Sealed-parts : (padded : Bytes) × (ct : Bytes) × Sealed padded ct
    Sealed-parts =
        let pos = u.cipher_laws.block_size_pos in
        let (padded, e, back, whole, lo, hi) = unpad-pad p block pos u.small_blocks in
        let n = length padded / block in
        let size : length padded ≡ n * block = omega (arith, div-add-mod' (length padded) block) in
        let bytes = AllBytes-pad p block padded e p_bytes in
        let shape =
          cbc_encrypt_blocks_shape u.cipher_laws n nonce padded size u.nonce_bytes bytes in
        (
          padded,
          cbc_encrypt_blocks c.block_cipher n nonce padded,
          record {
            pad_result = e;
            unpad_result = back;
            whole = whole;
            grows = lo;
            encrypted = refl;
            decrypted =
                cbc_decrypt-cbc_encrypt u.cipher_laws n nonce padded size u.nonce_bytes bytes;
            same_length = shape.0 ∙ sym size;
          },
        )

    hmac_seal_parts :
        (dst padded ct : Bytes)
        → Sealed padded ct
        → hmac_seal mac c dst nonce p aad ≡ ok (dst ++ (ct ++ compute_auth_tag mac c aad nonce ct))
    unfolding hmac_seal
    hmac_seal_parts dst padded ct s =
        rw
          (
            s.pad_result,
            (==_iff (length nonce) block).1 u.nonce_block,
            (==_iff (length padded % block) 0).1 s.whole,
            ← s.encrypted,
          )
          (ap ok (write_sealed dst ct (compute_auth_tag mac c aad nonce ct)))

    hmac_open_parts :
        (padded ct : Bytes)
        → Sealed padded ct
        → hmac_open mac c [] nonce (ct ++ compute_auth_tag mac c aad nonce ct) aad ≡ ok p
    unfolding hmac_open open_plaintext
    hmac_open_parts padded ct s =
        let tag = compute_auth_tag mac c aad nonce ct in
        let size = length-append ct tag in
        let tag_size = length-compute_auth_tag c aad nonce ct u.tag_fits in
        let pos = u.cipher_laws.block_size_pos in
        let offset : length (ct ++ tag) - c.tagsize ≡ length ct = omega arith in
        let long : ltb (length (ct ++ tag)) c.keysize ≡ false = ground (arith, u.same_sizes) in
        let some_block : (block == 0) ≡ false = ground arith in
        let whole : length ct % block ≡ 0 = rw s.same_length s.whole in
        rw
          (
            long,
            some_block,
            offset,
            take-append (length ct) ct tag refl,
            drop-append (length ct) ct tag refl,
            whole,
            bytes_eq_refl tag,
            (==_iff (length nonce) block).1 u.nonce_block,
            s.same_length,
            s.decrypted,
            s.unpad_result,
          )
          (ap ok (write_opened p))

    -- `Seal` keeps `dst` and appends to it a message longer than the plaintext and the tag;
    -- `Open` with no `dst` returns the plaintext from that message. This holds for a usable
    -- cipher and nonce, every plaintext and additional data of bytes, and a hash that returns
    -- its documented size.
    pub open-seal :
        (dst : Bytes)
        → (sealed : Bytes) × (hmac_seal mac c dst nonce p aad ≡ ok (dst ++ sealed))
          × (hmac_open mac c [] nonce sealed aad ≡ ok p)
          × (length p + c.tagsize < length sealed)
    open-seal dst =
        let (padded, ct, s) = Sealed-parts in
        let tag = compute_auth_tag mac c aad nonce ct in
        (
          ct ++ tag,
          hmac_seal_parts dst padded ct s,
          hmac_open_parts padded ct s,
          omega (
            arith,
            length-append ct tag,
            length-compute_auth_tag c aad nonce ct u.tag_fits,
            s.same_length,
            s.grows,
          ),
        )

module _ (mac : HashFunc → Bytes → Bytes → Bytes) (c : Hmac) (nonce combined aad : Bytes) where
  checks :
      (dst out : Bytes)
      → hmac_open mac c dst nonce combined aad ≡ ok out
      → (bytes_eq
            (compute_auth_tag mac c aad nonce (take (length combined - c.tagsize) combined))
            (drop (length combined - c.tagsize) combined)
          ≡ true)
        × ((length combined - c.tagsize) % c.block_cipher.block_size ≡ 0)
  unfolding hmac_open open_plaintext
  checks dst out h = ground arith

  -- Whatever `Open` accepts is whole blocks followed by the tag that belongs to them.
  pub open_authentic :
      (dst out : Bytes)
      → hmac_open mac c dst nonce combined aad ≡ ok out
      → (ct : Bytes) × (combined ≡ ct ++ compute_auth_tag mac c aad nonce ct)
        × (length ct % c.block_cipher.block_size ≡ 0)
  open_authentic dst out h =
      let offset = length combined - c.tagsize in
      let ct = take offset combined in
      let tag = compute_auth_tag mac c aad nonce ct in
      let (equal, whole) = checks dst out h in
      let size : length ct ≡ offset = omega (arith, length-take offset combined) in
      (
        ct,
        sym (take-append-drop offset combined)
            ∙ ap (λ t. ct ++ t) (sym (bytes_eq→eq tag (drop offset combined) equal)),
        rw size whole,
      )

  -- With a `dst` that is not empty `Open` does not append the plaintext: the last `len(dst)` bytes
  -- of the plaintext are lost, and all of it if `dst` is as long.
  pub open_truncates :
      (dst p : Bytes)
      → hmac_open mac c [] nonce combined aad ≡ ok p
      → hmac_open mac c dst nonce combined aad ≡ ok (dst ++ take (length p - length dst) p)
  unfolding hmac_open
  open_truncates dst p h =
      let (plaintext, e, written) = >>=-eq-ok (open_plaintext mac c nonce combined aad) _ h in
      let same : plaintext ≡ p = cc (written, write_opened plaintext) in
      rw e (ap ok (write_partly dst plaintext ∙ rw same))
