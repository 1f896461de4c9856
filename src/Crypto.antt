-- ===== src/Crypto.antt =====
-- What the program uses of Go's `crypto` packages. The block ciphers and the hash functions are
-- parameters; the CBC mode of `crypto/cipher` is written out over a block cipher.
pub mod Cbc
use jwx.Common.{
  ℕ, zero, suc, ◌+◌, ◌*◌, ◌/◌, ◌%◌, ◌<◌, ◌≡◌, Bool, List, [], ◌++◌, Outcome, ok, err, panic, arith,
  ◌==◌, if◌then◌else◌, length, take, drop,
}
use jwx.Common.Bytes.{Bytes, AllBytes, xor_into}

-- `crypto/cipher.Block`.
pub record BlockCipher : Type 0 where
  pub block_size : ℕ
  pub encrypt : Bytes → Bytes
  pub decrypt : Bytes → Bytes

-- What the documentation of `cipher.Block` promises: `encrypt` maps a block to a block, and
-- `decrypt` is its inverse.
pub record IsBlockCipher (b : BlockCipher) : Type 0 where
  pub block_size_pos : 0 < b.block_size
  pub encrypt_block :
      (x : Bytes)
      → length x ≡ b.block_size
      → AllBytes x
      → (length (b.encrypt x) ≡ b.block_size) × AllBytes (b.encrypt x)
  pub decrypt_encrypt :
      (x : Bytes) → length x ≡ b.block_size → AllBytes x → b.decrypt (b.encrypt x) ≡ x

-- The hash constructors that are handed to `crypto/hmac.New`.
pub data HashFunc : Type 0 where
  sha256 sha384 sha512 : HashFunc

-- `h().Size()`
abbrev pub hash_size : HashFunc → ℕ
hash_size sha256 = 32
hash_size sha384 = 48
hash_size sha512 = 64

module _ (b : BlockCipher) where
  -- `cipher.NewCBCEncrypter(b, iv).CryptBlocks` on `n` blocks.
  unfoldable pub cbc_encrypt_blocks : ℕ → Bytes → Bytes → Bytes
  cbc_encrypt_blocks zero iv src = []
  cbc_encrypt_blocks (suc n) iv src =
      let block = b.encrypt (xor_into (take b.block_size src) iv) in
      block ++ cbc_encrypt_blocks n block (drop b.block_size src)

  -- `cipher.NewCBCDecrypter(b, iv).CryptBlocks` on `n` blocks.
  unfoldable pub cbc_decrypt_blocks : ℕ → Bytes → Bytes → Bytes
  cbc_decrypt_blocks zero iv src = []
  cbc_decrypt_blocks (suc n) iv src =
      let block = take b.block_size src in
      xor_into (b.decrypt block) iv ++ cbc_decrypt_blocks n block (drop b.block_size src)

  -- Both panic on an IV that is no block, and on input that is not whole blocks.
  abbrev crypt_blocks : {E : Type 0} → (ℕ → Bytes → Bytes → Bytes) → Bytes → Bytes → Outcome E Bytes
  crypt_blocks crypt iv src =
      if length iv == b.block_size
      then (if length src % b.block_size == 0
          then ok (crypt (length src / b.block_size) iv src)
          else panic)
      else panic

  abbrev pub cbc_encrypt : {E : Type 0} → Bytes → Bytes → Outcome E Bytes
  cbc_encrypt = crypt_blocks cbc_encrypt_blocks

  abbrev pub cbc_decrypt : {E : Type 0} → Bytes → Bytes → Outcome E Bytes
  cbc_decrypt = crypt_blocks cbc_decrypt_blocks
