-- ===== src/Jwe/AesCbc/Tests.antt =====
-- Concrete runs of the AEAD over a toy cipher, and the theorems at concrete inputs.
use jwx.Common.{
  ℕ, ◌+◌, ◌*◌, ◌%◌, ◌≤◌, ◌<◌, ◌≡◌, refl, some, [], ◌∷◌, ◌++◌, ok, err, panic, arith, length,
  replicate, length-replicate, ◌/◌, ◌-◌,
}
use jwx.Common.Bytes.{
  Bytes, xor_into, be_bytes, bytes_eq, length-xor_into, AllBytes-xor_into, xor_into_cancel,
}
use jwx.Crypto.{BlockCipher, IsBlockCipher, HashFunc, sha256, hash_size, cbc_decrypt_blocks}
use jwx.Jwe.AesCbc.{
  Hmac, pad, unpad, check_padding, new, ensure_size, compute_auth_tag, hmac_seal, open_plaintext,
  hmac_open, invalid_padding,
}
use jwx.Jwe.AesCbc.Padding.{unpad_sound, unpad_complete, unpad-pad}
use jwx.Jwe.AesCbc.Aead.{IsUsable, open-seal, open_authentic, open_truncates}
use jwx.Jwe.AesCbc.Setup.{new_sizes, open_empty_panics}

abbrev pattern4 : Bytes
pattern4 = 0x5a ∷ 0x17 ∷ 0xff ∷ 0x01 ∷ []

-- Blocks of four bytes under a fixed mask.
abbrev masking : BlockCipher
masking = record {
  block_size = 4;
  encrypt = λ x. xor_into x pattern4;
  decrypt = λ x. xor_into x pattern4;
}

masking-IsBlockCipher : IsBlockCipher masking
masking-IsBlockCipher = record {
  block_size_pos = omega arith;
  encrypt_block = λ x h b.
      (omega (arith, length-xor_into x pattern4), AllBytes-xor_into x pattern4 b (omega arith));
  decrypt_encrypt = λ x h b. xor_into_cancel x pattern4 b (omega arith);
}

abbrev toy_mac : HashFunc → Bytes → Bytes → Bytes
toy_mac h key m = replicate (hash_size h) (length m % 256)

toy_mac_size : (h : HashFunc) (key m : Bytes) → length (toy_mac h key m) ≡ hash_size h
toy_mac_size h key m = length-replicate (hash_size h) (length m % 256)

abbrev sealer : Hmac
sealer = record {
  block_cipher = masking;
  hash = sha256;
  keysize = 16;
  tagsize = 16;
  integrity_key = replicate 16 7;
}

abbrev nonce4 : Bytes
nonce4 = 1 ∷ 2 ∷ 3 ∷ 4 ∷ []

sealer-IsUsable : IsUsable sealer nonce4
sealer-IsUsable = record {
  cipher_laws = masking-IsBlockCipher;
  small_blocks = omega arith;
  tag_fits = omega arith;
  same_sizes = refl;
  nonce_block = refl;
  nonce_bytes = omega arith;
}

abbrev hello : Bytes
hello = 104 ∷ 101 ∷ 108 ∷ 108 ∷ 111 ∷ []

pad-hello : pad hello 4 ≡ ok (104 ∷ 101 ∷ 108 ∷ 108 ∷ 111 ∷ 3 ∷ 3 ∷ 3 ∷ [])
unfolding pad
pad-hello = refl

-- The byte 99 stands where the padding begins.
unpad_loose : unpad (104 ∷ 99 ∷ 3 ∷ 3 ∷ []) 4 ≡ ok (104 ∷ [])
unfolding unpad check_padding
unpad_loose = refl

unpad_bad : unpad (104 ∷ 3 ∷ 99 ∷ 3 ∷ []) 4 ≡ err invalid_padding
unfolding unpad check_padding
unpad_bad = refl

unpad_sound_example :
    (r : ℕ) × (x : ℕ) × (1 ≤ r)
    × (r ≤ 4)
    × (4 % 4 ≡ 0)
    × (104 ∷ 99 ∷ 3 ∷ 3 ∷ [] ≡ (104 ∷ []) ++ x ∷ replicate (r - 1) r)
    × (r ≡ 1 → x ≡ 1)
unpad_sound_example = unpad_sound (104 ∷ 99 ∷ 3 ∷ 3 ∷ []) 4 (104 ∷ []) unpad_loose

unpad_complete_example : unpad (104 ∷ 99 ∷ 3 ∷ 3 ∷ []) 4 ≡ ok (104 ∷ [])
unpad_complete_example =
    unpad_complete (104 ∷ []) 99 2 4 (omega arith) refl (λ z. absurd (omega arith))

unpad-pad_example :
    (p : Bytes) × (pad hello 4 ≡ ok p)
    × (unpad p 4 ≡ ok hello)
    × (length p % 4 ≡ 0)
    × (5 < length p)
    × (length p ≤ 5 + 4)
unpad-pad_example = unpad-pad hello 4 (omega arith) (omega arith)

open-seal_example :
    (sealed : Bytes) × (hmac_seal toy_mac sealer (9 ∷ []) nonce4 hello (8 ∷ []) ≡ ok (9 ∷ sealed))
    × (hmac_open toy_mac sealer [] nonce4 sealed (8 ∷ []) ≡ ok hello)
    × (5 + 16 < length sealed)
open-seal_example =
    open-seal toy_mac toy_mac_size sealer nonce4 (8 ∷ []) hello sealer-IsUsable (omega arith)
      (9 ∷ [])

-- The bytes that `Seal` makes of `hello`.
abbrev sealed_hello : Bytes
sealed_hello = (0x33 ∷ 0x70 ∷ 0x90 ∷ 0x69 ∷ 0x06 ∷ 0x64 ∷ 0x6c ∷ 0x6b ∷ []) ++ replicate 16 21

open_hello : hmac_open toy_mac sealer [] nonce4 sealed_hello (8 ∷ []) ≡ ok hello
unfolding hmac_open open_plaintext compute_auth_tag cbc_decrypt_blocks unpad check_padding
    ensure_size xor_into be_bytes bytes_eq
open_hello = refl

open_authentic_example :
    (ct : Bytes) × (sealed_hello ≡ ct ++ compute_auth_tag toy_mac sealer (8 ∷ []) nonce4 ct)
    × (length ct % 4 ≡ 0)
open_authentic_example =
    open_authentic toy_mac sealer nonce4 sealed_hello (8 ∷ []) [] hello open_hello

-- Behind a `dst` of two bytes only three bytes of the plaintext are left.
open_truncates_example :
    hmac_open toy_mac sealer (1 ∷ 2 ∷ []) nonce4 sealed_hello (8 ∷ [])
    ≡ ok (1 ∷ 2 ∷ 104 ∷ 101 ∷ 108 ∷ [])
open_truncates_example =
    open_truncates toy_mac sealer nonce4 sealed_hello (8 ∷ []) (1 ∷ 2 ∷ []) hello open_hello

abbrev two_keys : Bytes
two_keys = replicate 16 7 ++ replicate 16 8

new-sealer : new two_keys (λ key. some masking) ≡ ok sealer
unfolding new
new-sealer = refl

new_sizes_example :
    (16 ≡ length two_keys / 2)
    × (sealer.tagsize ≡ 16)
    × (32 ≡ 2 * sealer.tagsize)
    × (length sealer.integrity_key ≡ 16)
    × (ekey : Bytes) × (two_keys ≡ sealer.integrity_key ++ ekey)
    × (some masking ≡ some masking)
new_sizes_example = new_sizes two_keys (λ key. some masking) sealer new-sealer

open_empty_panics_example :
    hmac_open toy_mac sealer [] nonce4 (compute_auth_tag toy_mac sealer hello nonce4 []) hello
    ≡ panic
unfolding compute_auth_tag
open_empty_panics_example =
    open_empty_panics toy_mac sealer [] nonce4 hello refl refl (omega arith) refl
