-- ===== src/Jwe/AesCbc/Setup.antt =====
-- `New` of jwe/internal/aescbc/aescbc.go, and the message on which `Open` panics.
use jwx.Common.{
  ℕ, ◌-◌, ◌*◌, ◌/◌, ◌%◌, ◌<◌, ◌≡◌, ◌≢◌, refl, inl, inr, sym, ap, ◌∙◌, true, false, ◌||◌, Option,
  some, [], ◌++◌, ok, panic, arith, ltb, ◌==◌, ==_iff, Bool-cases, Option-cases, length, take, drop,
  length-take, take-append-drop,
}
use native.Mathlib.Nat.{mod-eq_of_lt}
use jwx.Common.Bytes.{Bytes, bytes_eq_refl}
use jwx.Crypto.{BlockCipher, HashFunc, sha256, sha384, sha512, hash_size, cbc_decrypt_blocks}
use jwx.Jwe.AesCbc.{Hmac, hash_for, new, unpad, compute_auth_tag, open_plaintext, hmac_open}

keysize_lem :
    (key : Bytes) (f : Bytes → Option BlockCipher) (c : Hmac)
    → new key f ≡ ok c
    → c.keysize ≡ length key / 2
unfolding new
keysize_lem key f c h = ground arith

-- `New` succeeds only on a key of 32, 48 or 64 bytes (or one more). The first half authenticates and the
-- rest is the cipher's key; the tag is as long as the first half, and half as long as the hash.
pub new_sizes :
    (key : Bytes) (f : Bytes → Option BlockCipher) (c : Hmac)
    → new key f ≡ ok c
    → (c.keysize ≡ length key / 2)
      × (c.tagsize ≡ c.keysize)
      × (hash_size c.hash ≡ 2 * c.tagsize)
      × (length c.integrity_key ≡ c.keysize)
      × (ekey : Bytes) × (key ≡ c.integrity_key ++ ekey)
      × (f ekey ≡ some c.block_cipher)
unfolding new
new_sizes key f c h =
    let half = length key / 2 in
    let ikey : c.integrity_key ≡ take half key = ground arith in
    (
      ground arith,
      ground arith,
      ground arith,
      ap length ikey ∙ omega (arith, length-take half key, keysize_lem key f c h),
      drop half key,
      sym (take-append-drop half key) ∙ rw ikey,
      ground arith,
    )

-- A message that is nothing but the tag of an empty ciphertext passes every test of `Open`, and
-- `unpad` then reads the last byte of an empty buffer: a panic.
pub open_empty_panics :
    (mac : HashFunc → Bytes → Bytes → Bytes) (c : Hmac) (dst nonce aad : Bytes)
    → length (compute_auth_tag mac c aad nonce []) ≡ c.tagsize
    → c.keysize ≡ c.tagsize
    → 0 < c.block_cipher.block_size
    → length nonce ≡ c.block_cipher.block_size
    → hmac_open mac c dst nonce (compute_auth_tag mac c aad nonce []) aad ≡ panic
unfolding hmac_open open_plaintext unpad
open_empty_panics mac c dst nonce aad size same pos block =
    let tag = compute_auth_tag mac c aad nonce [] in
    let n = c.block_cipher.block_size in
    let offset : length tag - c.tagsize ≡ 0 = omega arith in
    let long : ltb (length tag) c.keysize ≡ false = ground arith in
    let some_block : (n == 0) ≡ false = ground arith in
    let whole : 0 % n ≡ 0 = mod-eq_of_lt pos in
    let rounds : 0 / n ≡ 0 = grind arith in
    rw
      (
        long,
        some_block,
        offset,
        whole,
        bytes_eq_refl tag,
        (==_iff (length nonce) n).1 block,
        rounds,
      )
      (unfold cbc_decrypt_blocks in rw whole)

hash_for_total :
    (n : ℕ) → (n == 16 || (n == 24 || n == 32)) ≡ true → (h : HashFunc) × (hash_for n ≡ ok h)
unfolding hash_for
hash_for_total n good = elim (Bool-cases (n == 16)) [
  | inl a ↦ (sha256, rw a refl)
  | inr not_a ↦ elim (Bool-cases (n == 24)) [
    | inl b ↦ (sha384, rw (not_a, b) refl)
    | inr not_b ↦ (sha512, ground arith)
  ]
]

-- `New` succeeds on a key of twice such a size, if the cipher takes its second half.
pub new_total :
    (key : Bytes) (f : Bytes → Option BlockCipher) (bc : BlockCipher) (size : ℕ)
    → (size == 16 || (size == 24 || size == 32)) ≡ true
    → length key ≡ 2 * size
    → f (drop size key) ≡ some bc
    → (c : Hmac) × (new key f ≡ ok c) × (c.block_cipher ≡ bc) × (c.tagsize ≡ size)
unfolding new
new_total key f bc size good twice made =
    let half : length key / 2 ≡ size = omega arith in
    let (h, hashed) = hash_for_total size good in
    (
      record {
        block_cipher = bc;
        hash = h;
        keysize = size;
        tagsize = size;
        integrity_key = take size key;
      },
      rw (half, made, hashed) refl,
      refl,
      refl,
    )

-- `New` returns.
pub new_returns : (key : Bytes) (f : Bytes → Option BlockCipher) → new key f ≢ panic
unfolding new hash_for
new_returns key f e = elim (Option-cases (f (drop (length key / 2) key))) [
  | inl failed ↦ ground (arith, failed)
  | inr (bc, made) ↦ ground (arith, made)
]
