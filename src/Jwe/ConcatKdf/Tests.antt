-- ===== src/Jwe/ConcatKdf/Tests.antt =====
-- Concrete runs of the key derivation over a toy hash, and the theorems at concrete inputs.
use jwx.Common.{
  ℕ, ◌+◌, ◌*◌, ◌≤◌, ◌<◌, ◌≡◌, ◌≢◌, refl, some, [], ◌∷◌, ◌++◌, arith, length, get_or, take, drop,
  ◌%◌,
}
use jwx.Common.Bytes.{Bytes, be_bytes}
use jwx.Jwe.ConcatKdf.{Kdf, ndata, new, read}
use jwx.Jwe.ConcatKdf.Stream.{material, read-material, read_repeats}
use jwx.Jwe.ConcatKdf.OtherInfo.{otherinfo_separates}

-- Three bytes: the length of the message, a constant and the low byte of the counter.
abbrev toy_hash : Bytes → Bytes
toy_hash m = (length m % 256) ∷ 0xaa ∷ get_or m 3 0 ∷ []

abbrev abc : Bytes
abc = 97 ∷ 98 ∷ 99 ∷ []

abbrev kdf : Kdf
kdf = new toy_hash abc (1 ∷ []) (2 ∷ []) [] [] []

read_five : read kdf 5 ≡ some (21 ∷ 0xaa ∷ 1 ∷ 21 ∷ 0xaa ∷ [], record kdf { buf = 2 ∷ [] })
unfolding read new ndata be_bytes
read_five = refl

read-material_example :
    (n : ℕ) × (read kdf 5
      ≡ some (
        take 5 (kdf.buf ++ material kdf 1 n),
        record kdf { buf = drop 5 (kdf.buf ++ material kdf 1 n) },
      ))
    × (5 ≤ length kdf.buf + n * 3)
    × (n ≢ 0 → length kdf.buf + n * 3 < 5 + 3)
read-material_example = read-material kdf 3 (unfold new in λ m. refl) (omega arith) 5

read_repeats_example : (out : Bytes) × (length out ≡ 2 * 3) × (read kdf (2 * 3) ≡ some (out, kdf))
unfolding new
read_repeats_example = read_repeats kdf 3 (λ m. refl) (omega arith) 2 refl

otherinfo_separates_example :
    (abc ≡ abc)
    × (◌≡◌ {A = Bytes} (1 ∷ []) (1 ∷ []))
    × (◌≡◌ {A = Bytes} [] [])
    × (◌≡◌ {A = Bytes} (4 ∷ 5 ∷ []) (4 ∷ 5 ∷ []))
unfolding new
otherinfo_separates_example =
    otherinfo_separates toy_hash abc (1 ∷ []) [] (4 ∷ []) (5 ∷ []) abc (1 ∷ []) [] (4 ∷ 5 ∷ []) []
      [] [] (omega arith) (omega arith) (omega arith) (omega arith) (omega arith) (omega arith) refl
