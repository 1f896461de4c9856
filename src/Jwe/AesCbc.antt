-- ===== src/Jwe/AesCbc.antt =====
-- jwe/internal/aescbc/aescbc.go: AES-CBC with an HMAC tag, as a `crypto/cipher.AEAD`.
pub mod Padding
pub mod Aead
pub mod Setup
mod Tests
use jwx.Common.{
  ℕ, zero, suc, ◌+◌, ◌-◌, ◌*◌, ◌/◌, ◌%◌, ◌^◌, Bool, true, false, ◌||◌, Option, none, some, [], ◌++◌,
  Outcome, ok, err, panic, ◌>>=◌, ltb, ◌==◌, if◌then◌else◌, length, take, drop, replicate, get_or,
  copy_at,
}
use jwx.Common.Bytes.{Bytes, be_bytes, bytes_eq}
use jwx.Crypto.{BlockCipher, HashFunc, sha256, sha384, sha512, cbc_encrypt, cbc_decrypt}

pub data Error : Type 0 where
  not_multiple invalid_padding_byte invalid_padding : Error
  block_cipher_failed unsupported_key_size : Error
  too_short invalid_length tag_mismatch : Error

abbrev pub nonce_size : ℕ
nonce_size = 16

-- `len(buf) % n` panics at `n == 0`. The new bytes are all `byte(rem)`.
pub pad : Bytes → ℕ → Outcome Error Bytes
pad buf n =
    if n == 0
    then panic
    else (let rem = n - length buf % n in
        if rem == 0 then ok buf else ok (buf ++ replicate rem (rem % 256)))

-- The loop `for i := 1; i < expected; i++`, with `rounds` rounds left.
pub check_padding : Bytes → ℕ → ℕ → ℕ → Bool
check_padding buf last i zero = true
check_padding buf last i (suc rounds) =
    let rest = check_padding buf last (i + 1) rounds in
    if get_or buf (length buf - i) 0 == last then rest else false

-- `buf[lbuf-1]` panics on the empty buffer, whose length is a multiple of `n`.
pub unpad : Bytes → ℕ → Outcome Error Bytes
unpad buf n =
    let lbuf = length buf in
    let last = get_or buf (lbuf - 1) 0 in
    if n == 0
    then panic
    else if ltb 0 (lbuf % n)
    then err not_multiple
    else if lbuf == 0
    then panic
    else if last == 0 || (ltb n last || ltb lbuf last)
    then err invalid_padding_byte
    else if check_padding buf last 1 (last - 1)
    then ok (take (lbuf - last) buf)
    else err invalid_padding

pub record Hmac : Type 0 where
  pub block_cipher : BlockCipher
  pub hash : HashFunc
  pub keysize : ℕ
  pub tagsize : ℕ
  pub integrity_key : Bytes

-- `switch keysize`
pub hash_for : ℕ → Outcome Error HashFunc
hash_for keysize =
    if keysize == 16
    then ok sha256
    else if keysize == 24
    then ok sha384
    else if keysize == 32
    then ok sha512
    else err unsupported_key_size

abbrev or_cipher_error : Option BlockCipher → Outcome Error BlockCipher
or_cipher_error none = err block_cipher_failed
or_cipher_error (some bc) = ok bc

-- `f` is the caller's `BlockCipherFunc`; `none` is its error.
pub new : Bytes → (Bytes → Option BlockCipher) → Outcome Error Hmac
unfolding hash_for
new key f = do
  let keysize = length key / 2
  let ikey = take keysize key
  let ekey = drop keysize key
  bc ← or_cipher_error (f ekey)
  hfunc ← hash_for keysize
  ok (record {
    block_cipher = bc;
    hash = hfunc;
    keysize = keysize;
    tagsize = keysize;
    integrity_key = ikey;
  })

pub overhead : Hmac → ℕ
overhead c = c.block_cipher.block_size + c.tagsize

-- At least `n` bytes that begin with `dst`.
pub ensure_size : Bytes → ℕ → Bytes
ensure_size dst n = if ltb (length dst) n then copy_at (replicate n 0) 0 dst else dst

-- `mac h key message` is the `Sum` of `hmac.New(h, key)` after `Write(message)`.
module _ (mac : HashFunc → Bytes → Bytes → Bytes) where
  pub compute_auth_tag : Hmac → Bytes → Bytes → Bytes → Bytes
  compute_auth_tag c aad nonce ciphertext =
      let buf = aad ++ (nonce ++ (ciphertext ++ be_bytes 8 (length aad * 8 % 2 ^ 64))) in
      take c.tagsize (mac c.hash c.integrity_key buf)

  pub hmac_seal : Hmac → Bytes → Bytes → Bytes → Bytes → Outcome Error Bytes
  hmac_seal c dst nonce plaintext aad = do
    padded ← pad plaintext c.block_cipher.block_size
    ciphertext ← cbc_encrypt c.block_cipher nonce padded
    let authtag = compute_auth_tag c aad nonce ciphertext
    let retlen = length dst + length ciphertext + length authtag
    let ret = ensure_size dst retlen
    let filled = copy_at ret (length dst) ciphertext
    ok (copy_at filled (length dst + length ciphertext) authtag)

  -- `Open` up to the call of `ensureSize`.
  pub open_plaintext : Hmac → Bytes → Bytes → Bytes → Outcome Error Bytes
  open_plaintext c nonce combined aad =
      let tag_offset = length combined - c.tagsize in
      let tag = drop tag_offset combined in
      let ciphertext = take tag_offset combined in
      if ltb (length combined) c.keysize
      then err too_short
      else if c.block_cipher.block_size == 0
      then panic
      else if ltb 0 (tag_offset % c.block_cipher.block_size)
      then err invalid_length
      else if bytes_eq (compute_auth_tag c aad nonce ciphertext) tag
      then (do
        buf ← cbc_decrypt c.block_cipher nonce ciphertext
        unpad buf c.block_cipher.block_size)
      else err tag_mismatch

  pub hmac_open : Hmac → Bytes → Bytes → Bytes → Bytes → Outcome Error Bytes
  hmac_open c dst nonce combined aad = do
    plaintext ← open_plaintext c nonce combined aad
    ok (copy_at (ensure_size dst (length plaintext)) (length dst) plaintext)
