-- ===== src/Jwe/KeyWrap/Tests.antt =====
-- Concrete runs of the key wrap over a toy cipher, and the theorems at concrete inputs.
use jwx.Common.{◌+◌, ◌≡◌, refl, [], ◌∷◌, ok, err, arith, length, replicate}
use jwx.Common.Bytes.{
  Bytes, xor_into, be_bytes, bytes_eq, length-xor_into, AllBytes-xor_into, xor_into_cancel,
}
use jwx.Crypto.{BlockCipher, IsBlockCipher}
use jwx.Jwe.KeyWrap.{not_blocks, unwrap_failed, unwrap_round, unwrap_loop, wrap, unwrap}
use jwx.Jwe.KeyWrap.RoundTrip.{unwrap-wrap}

abbrev mask : Bytes
mask = 1 ∷ 2 ∷ 3 ∷ 4 ∷ 5 ∷ 6 ∷ 7 ∷ 8 ∷ 9 ∷ 10 ∷ 11 ∷ 12 ∷ 13 ∷ 14 ∷ 15 ∷ 16 ∷ []

abbrev masking : BlockCipher
masking = record { block_size = 16; encrypt = λ x. xor_into x mask; decrypt = λ x. xor_into x mask }

masking-IsBlockCipher : IsBlockCipher masking
masking-IsBlockCipher = record {
  block_size_pos = omega arith;
  encrypt_block =
      λ x h b. (omega (arith, length-xor_into x mask), AllBytes-xor_into x mask b (omega arith));
  decrypt_encrypt = λ x h b. xor_into_cancel x mask b (omega arith);
}

abbrev key16 : Bytes
key16 = 0xde ∷ 0xad ∷ 0xbe ∷ 0xef ∷ 1 ∷ 2 ∷ 3 ∷ 4 ∷ 5 ∷ 6 ∷ 7 ∷ 8 ∷ 0xca ∷ 0xfe ∷ 0xba ∷ 0xbe ∷ []

wrap_odd : wrap masking (1 ∷ 2 ∷ 3 ∷ []) ≡ err not_blocks
unfolding wrap
wrap_odd = refl

unwrap_forged : unwrap masking (replicate 16 0) ≡ err unwrap_failed
unfolding unwrap unwrap_loop unwrap_round xor_into be_bytes bytes_eq
unwrap_forged = refl

unwrap-wrap_example :
    (w : Bytes) × (wrap masking key16 ≡ ok w)
    × (unwrap masking w ≡ ok key16)
    × (length w ≡ length key16 + 8)
unwrap-wrap_example = unwrap-wrap masking-IsBlockCipher refl key16 refl (omega arith)
