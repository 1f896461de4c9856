-- ===== src/Crypto/Cbc.antt =====
-- CBC decryption undoes CBC encryption, for every block cipher.
use jwx.Common.{
  ℕ, zero, suc, ◌+◌, ◌*◌, ◌≡◌, refl, [], ◌∷◌, arith, length, take, drop, take-append, drop-append,
  take-append-drop, length-append, length-take, length-drop, All-append, All-take, All-drop,
}
use jwx.Common.Bytes.{
  Bytes, IsByte, AllBytes, xor_into, length-xor_into, AllBytes-xor_into, xor_into_cancel,
}
use jwx.Crypto.{BlockCipher, IsBlockCipher, cbc_encrypt_blocks, cbc_decrypt_blocks}

module _ {b : BlockCipher} (laws : IsBlockCipher b) where
  -- The block that CBC encrypts first.
  abbrev mixed : Bytes → Bytes → Bytes
  mixed iv src = xor_into (take b.block_size src) iv

  length-mixed :
      (iv src : Bytes) (k : ℕ)
      → length src ≡ b.block_size + k
      → length (mixed iv src) ≡ b.block_size
  length-mixed iv src k h =
      omega (arith, length-xor_into (take b.block_size src) iv, length-take b.block_size src)

  AllBytes-mixed : (iv src : Bytes) → AllBytes iv → AllBytes src → AllBytes (mixed iv src)
  AllBytes-mixed iv src hi hs = AllBytes-xor_into _ iv (All-take IsByte b.block_size src hs) hi

  pub cbc_encrypt_blocks_shape :
      (n : ℕ) (iv src : Bytes)
      → length src ≡ n * b.block_size
      → AllBytes iv
      → AllBytes src
      → (length (cbc_encrypt_blocks b n iv src) ≡ n * b.block_size)
        × AllBytes (cbc_encrypt_blocks b n iv src)
  unfolding cbc_encrypt_blocks
  cbc_encrypt_blocks_shape zero iv src h hi hs = (omega arith, tt)
  cbc_encrypt_blocks_shape (suc n) iv src h hi hs =
      let first : length src ≡ b.block_size + n * b.block_size = omega arith in
      let (lm, bm) =
        laws.encrypt_block (mixed iv src) (length-mixed iv src _ first)
          (AllBytes-mixed iv src hi hs) in
      let (lr, br) =
        cbc_encrypt_blocks_shape n (b.encrypt (mixed iv src)) (drop b.block_size src)
          (omega (arith, length-drop b.block_size src)) bm (All-drop IsByte b.block_size src hs) in
      (
        omega (arith, length-append (b.encrypt (mixed iv src)) _, lm, lr),
        All-append IsByte (b.encrypt (mixed iv src)) _ bm br,
      )

  pub cbc_decrypt-cbc_encrypt :
      (n : ℕ) (iv src : Bytes)
      → length src ≡ n * b.block_size
      → AllBytes iv
      → AllBytes src
      → cbc_decrypt_blocks b n iv (cbc_encrypt_blocks b n iv src) ≡ src
  unfolding cbc_encrypt_blocks cbc_decrypt_blocks
  cbc_decrypt-cbc_encrypt zero iv [] h hi hs = refl
  cbc_decrypt-cbc_encrypt zero iv (x ∷ src) h hi hs = absurd (omega arith)
  cbc_decrypt-cbc_encrypt (suc n) iv src h hi hs =
      let first : length src ≡ b.block_size + n * b.block_size = omega arith in
      let lm = length-mixed iv src _ first in
      let bm = AllBytes-mixed iv src hi hs in
      let (lb, bb) = laws.encrypt_block (mixed iv src) lm bm in
      let later = drop b.block_size src in
      let block = b.encrypt (mixed iv src) in
      let rest = cbc_encrypt_blocks b n block later in
      let ih =
        cbc_decrypt-cbc_encrypt n block later (omega (arith, length-drop b.block_size src)) bb
          (All-drop IsByte b.block_size src hs) in
      rw
        (
          take-append b.block_size block rest lb,
          drop-append b.block_size block rest lb,
          laws.decrypt_encrypt (mixed iv src) lm bm,
          xor_into_cancel (take b.block_size src) iv (All-take IsByte b.block_size src hs) hi,
          ih,
        )
        (take-append-drop b.block_size src)
