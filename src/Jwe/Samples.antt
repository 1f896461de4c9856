-- ===== src/Jwe/Samples.antt =====
-- Concrete libraries for the tests of the encryption: a block cipher that masks, an AEAD that appends zeros,
-- and constant keys.
use jwx.Common.{
  ℕ, Outcome, ◌-◌, ◌%◌, ◌<◌, ◌≡◌, refl, true, Option, some, [], ◌++◌, ok, arith, length, take,
  replicate, length-replicate, length-append, take-append, All-replicate,
}
use jwx.Common.Bytes.{
  Bytes, AllBytes, xor_into, length-xor_into, AllBytes-xor_into, xor_into_cancel,
}
use jwx.Crypto.{BlockCipher, IsBlockCipher, hash_size}
use jwx.Jwe.Content.{Error, Aead, Crypto}
use jwx.Jwe.Content.RoundTrip.{IsAead, IsCrypto}
use jwx.Jwe.KeyEncryption.{Primitives}
use jwx.Jwe.KeyEncryption.Agreed.{IsLawful}

abbrev pub pattern16 : Bytes
pattern16 = replicate 16 0x5a

abbrev pub masking : BlockCipher
masking = record {
  block_size = 16;
  encrypt = λ x. xor_into x pattern16;
  decrypt = λ x. xor_into x pattern16;
}

masking-IsBlockCipher : IsBlockCipher masking
masking-IsBlockCipher = record {
  block_size_pos = omega arith;
  encrypt_block = λ x h b.
      (omega (arith, length-xor_into x pattern16), AllBytes-xor_into x pattern16 b (omega arith));
  decrypt_encrypt = λ x h b. xor_into_cancel x pattern16 b (omega arith);
}

-- A text with sixteen zeros behind it.
abbrev pub open_zeros : Aead
open_zeros = record {
  nonce_size = 12;
  seal = λ nonce plaintext aad. ok (plaintext ++ replicate 16 0);
  open_sealed = λ nonce combined aad. ok (take (length combined - 16) combined);
}

open_zeros-IsAead : IsAead 16 open_zeros
open_zeros-IsAead nonce plaintext aad size bytes plain =
    let n = length-append plaintext (replicate 16 0) in
    let offset : length (plaintext ++ replicate 16 0) - 16 ≡ length plaintext = omega arith in
    (
      plaintext ++ replicate 16 0,
      refl,
      rw (offset, take-append (length plaintext) plaintext (replicate 16 0) refl) refl,
      omega arith,
    )

abbrev pub crypto : Crypto
crypto = record {
  new_cipher = λ key. some masking;
  new_gcm = λ block. some open_zeros;
  mac = λ h key m. replicate (hash_size h) (length m % 256);
}

pub crypto-IsCrypto : IsCrypto crypto
crypto-IsCrypto = record {
  aes = λ key size. (masking, refl, masking-IsBlockCipher, refl);
  aes_gcm = λ block lawful wide. (open_zeros, refl, open_zeros-IsAead);
  mac_size = λ h key m. length-replicate (hash_size h) (length m % 256);
}

abbrev pub ones : ℕ → Option Bytes
ones n = some (replicate n 1)

pub ones_bytes : (n : ℕ) → (iv : Bytes) × (ones n ≡ some iv) × (length iv ≡ n) × AllBytes iv
ones_bytes n =
    (replicate n 1, refl, length-replicate n 1, All-replicate (λ b. b < 256) n 1 (omega arith))

abbrev pub nonces : ℕ → Outcome Error Bytes
nonces n = ok (replicate n 1)

pub nonces_bytes : (n : ℕ) → (iv : Bytes) × (nonces n ≡ ok iv) × (length iv ≡ n) × AllBytes iv
nonces_bytes n =
    (replicate n 1, refl, length-replicate n 1, All-replicate (λ b. b < 256) n 1 (omega arith))

-- The private keys and the public keys are numbers; a shared secret is the same for all of them.
abbrev pub primitives : Primitives ℕ ℕ ℕ ℕ
primitives = record {
  crypto = crypto;
  sha_256 = λ m. replicate 32 (length m % 256);
  pbkdf2 = λ hash password salt count keylen. replicate keylen 9;
  x25519 = λ seed point. some (replicate 32 3);
  on_curve = λ key point. true;
  scalar_mult = λ key point. replicate 32 5;
  modulus_bits = λ key. 2048;
  decrypt_pkcs1 = λ key text cek. ok cek;
  decrypt_oaep = λ hash key text. some text;
  encrypt_pkcs1 = λ key cek. some cek;
  encrypt_oaep = λ hash key cek. some cek;
  random = ones;
  name_bytes = λ name. [];
}

pub primitives-IsLawful : IsLawful primitives
primitives-IsLawful = record {
  is_crypto = crypto-IsCrypto;
  gcm_nonce = λ block aead e. grind arith;
  digest = λ m. length-replicate 32 (length m % 256);
  pbkdf2_size = λ hash password salt count keylen. length-replicate keylen 9;
  random_bytes = ones_bytes;
}
