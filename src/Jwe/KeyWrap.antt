-- ===== src/Jwe/KeyWrap.antt =====
-- `Wrap` and `Unwrap` of jwe/internal/keyenc/keyenc.go: AES key wrap (RFC 3394).
pub mod Rounds
pub mod RoundTrip
mod Tests
use jwx.Common.{
  ℕ, zero, suc, ◌+◌, ◌-◌, ◌*◌, ◌/◌, ◌%◌, ◌^◌, List, [], ◌∷◌, ◌++◌, Outcome, ok, err, panic, ltb,
  ◌==◌, if◌then◌else◌, length, take, drop, replicate, get_or, set, copy, copy_at,
}
use jwx.Common.Bytes.{Bytes, be_bytes, bytes_eq, xor_into}
use jwx.Crypto.{BlockCipher}

pub data Error : Type 0 where
  not_blocks unwrap_failed : Error

abbrev pub default_iv : Bytes
default_iv = replicate 8 0xa6

-- The two variables that the loops change: the two halves under the cipher, and the chunks.
pub record Registers : Type 0 where
  pub buffer : Bytes
  pub r : List Bytes

-- `r[i] = make([]byte, 8); copy(r[i], src[i*8:])` for the `n` chunks.
pub chunks : ℕ → Bytes → List Bytes
chunks zero src = []
chunks (suc n) src = copy (replicate 8 0) src ∷ chunks n (drop 8 src)

-- `copy(out[i*8:], r[i])` for all chunks.
pub join : List Bytes → Bytes
join [] = []
join (c ∷ cs) = c ++ join cs

-- `binary.BigEndian.PutUint64(tBytes, uint64(t+1))`
abbrev pub t_bytes : ℕ → Bytes
t_bytes t = be_bytes 8 ((t + 1) % 2 ^ 64)

module _ (kek : BlockCipher) (n : ℕ) where
  -- The body of the loop of `Wrap`.
  pub wrap_round : ℕ → Registers → Registers
  wrap_round t s =
      let row = t % n in
      let loaded = copy_at s.buffer 8 (get_or s.r row []) in
      let buffer = xor_into (kek.encrypt loaded) (t_bytes t) in
      record { buffer = buffer; r = set s.r row (copy (get_or s.r row []) (drop 8 buffer)) }

  -- The rounds 0, …, t - 1.
  pub wrap_loop : ℕ → Registers → Registers
  wrap_loop zero s = s
  wrap_loop (suc t) s = wrap_round t (wrap_loop t s)

  -- The body of the loop of `Unwrap`.
  pub unwrap_round : ℕ → Registers → Registers
  unwrap_round t s =
      let row = t % n in
      let mixed = xor_into s.buffer (t_bytes t) in
      let buffer = kek.decrypt (copy_at mixed 8 (get_or s.r row [])) in
      record { buffer = buffer; r = set s.r row (copy (get_or s.r row []) (drop 8 buffer)) }

  -- The rounds t - 1, …, 0.
  pub unwrap_loop : ℕ → Registers → Registers
  unwrap_loop zero s = s
  unwrap_loop (suc t) s = unwrap_loop t (unwrap_round t s)

pub wrap : BlockCipher → Bytes → Outcome Error Bytes
unfolding chunks join
wrap kek cek =
    let n = length cek / 8 in
    let start : Registers = record { buffer = default_iv ++ replicate 8 0; r = chunks n cek } in
    let s = wrap_loop kek n (6 * n) start in
    if ltb 0 (length cek % 8) then err not_blocks else ok (take 8 s.buffer ++ join s.r)

-- Below one block `n` would be negative, where `make([][]byte, n)` panics; above it `-` is exact.
pub unwrap : BlockCipher → Bytes → Outcome Error Bytes
unfolding chunks join
unwrap block ciphertxt =
    let n = length ciphertxt / 8 - 1 in
    let start : Registers = record {
      buffer = take 8 ciphertxt ++ replicate 8 0;
      r = chunks n (drop 8 ciphertxt);
    } in
    let s = unwrap_loop block n (6 * n) start in
    if ltb 0 (length ciphertxt % 8)
    then err not_blocks
    else if ltb (length ciphertxt / 8) 1
    then panic
    else if bytes_eq (take 8 s.buffer) default_iv
    then ok (join s.r)
    else err unwrap_failed
