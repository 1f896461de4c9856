-- ===== src/Jwe/ConcatKdf.antt =====
-- jwe/internal/concatkdf/concatkdf.go: the single-step key derivation of NIST SP 800-56A.
pub mod Stream
pub mod OtherInfo
mod Tests
use jwx.Common.{
  ℕ, zero, suc, ◌+◌, ◌%◌, ◌^◌, Option, some, none, [], ◌++◌, ltb, if◌then◌else◌, length, take, drop,
}
use mathlib.Core.Option
use jwx.Common.Bytes.{Bytes, be_bytes}

-- The length prefix is `uint32(len(src))`.
pub ndata : Bytes → Bytes
ndata src = be_bytes 4 (length src % 2 ^ 32) ++ src

-- `hash` is the digest that `h.Sum(nil)` gives for all that was written since `h.Reset()`.
pub record Kdf : Type 0 where
  pub buf : Bytes
  pub otherinfo : Bytes
  pub z : Bytes
  pub hash : Bytes → Bytes

pub new : (Bytes → Bytes) → Bytes → Bytes → Bytes → Bytes → Bytes → Bytes → Kdf
new hash alg z apu apv pubinfo privinfo = record {
  buf = [];
  otherinfo = ndata alg ++ (ndata apu ++ (ndata apv ++ (pubinfo ++ privinfo)));
  z = z;
  hash = hash;
}

-- One block of key material.
pub block : Kdf → ℕ → Bytes
block k round = k.hash (be_bytes 4 round ++ (k.z ++ k.otherinfo))

-- `for len(out) > len(k.buf)`, on fuel; `none` means that the fuel ran out. The result is `k.buf`.
pub fill : Kdf → ℕ → ℕ → ℕ → Bytes → Option Bytes
fill k zero wanted round buf = none
fill k (suc fuel) wanted round buf =
    let rest = fill k fuel wanted ((round + 1) % 2 ^ 32) (buf ++ block k round) in
    if ltb (length buf) wanted then rest else some buf

-- `Read(out)` for `wanted = len(out)`: the bytes that `out` receives, and the new state. Every call
-- begins at round 1. The fuel is one more than the bytes wanted.
pub read : Kdf → ℕ → Option (Bytes × Kdf)
unfolding fill block
read k wanted =
    Option.map (λ buf. (take wanted buf, record k { buf = drop wanted buf }))
      (fill k (suc wanted) wanted 1 k.buf)
