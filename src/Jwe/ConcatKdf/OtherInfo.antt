-- ===== src/Jwe/ConcatKdf/OtherInfo.antt =====
-- The `OtherInfo` of jwe/internal/concatkdf/concatkdf.go keeps its fields apart.
use native.Mathlib.Nat.{mod-eq_of_lt}
use mathlib.Core.List.{append_assoc}
use jwx.Common.{
  ◌%◌, ◌^◌, ◌<◌, ◌≡◌, refl, sym, ap, ◌∙◌, ◌++◌, arith, length, take, drop, take-append, drop-append,
}
use jwx.Common.Bytes.{Bytes, be_bytes, length-be_bytes, be_value, be_value-be_bytes}
use jwx.Jwe.ConcatKdf.{ndata, new}

-- Equal texts with fronts of equal lengths have equal fronts and equal rests.
append_split : (a b x y : Bytes) → length a ≡ length b → a ++ x ≡ b ++ y → (a ≡ b) × (x ≡ y)
append_split a b x y size e = (
  sym (take-append (length b) a x size) ∙ ap (take (length b)) e ∙ take-append (length b) b y refl,
  sym (drop-append (length b) a x size) ∙ ap (drop (length b)) e ∙ drop-append (length b) b y refl,
)

read_length :
    (a : Bytes) → length a < 2 ^ 32 → be_value 0 (be_bytes 4 (length a % 2 ^ 32)) ≡ length a
read_length a h = be_value-be_bytes 4 (length a % 2 ^ 32) (omega arith) ∙ mod-eq_of_lt h

ndata_split :
    (a b x y : Bytes)
    → length a < 2 ^ 32
    → length b < 2 ^ 32
    → ndata a ++ x ≡ ndata b ++ y
    → (a ≡ b) × (x ≡ y)
unfolding ndata
ndata_split a b x y ha hb e =
    let prefix_a = be_bytes 4 (length a % 2 ^ 32) in
    let prefix_b = be_bytes 4 (length b % 2 ^ 32) in
    let regrouped = sym (append_assoc prefix_a a x) ∙ e ∙ append_assoc prefix_b b y in
    let (prefixes, rests) =
      append_split prefix_a prefix_b (a ++ x) (b ++ y)
        (length-be_bytes 4 _ ∙ sym (length-be_bytes 4 _)) regrouped in
    let size : length a ≡ length b =
      sym (read_length a ha) ∙ ap (be_value 0) prefixes ∙ read_length b hb in
    append_split a b x y size rests

-- Two key derivations whose names are shorter than 4 GiB and whose other info is the same bytes
-- were given the same algorithm, the same party names, and the same public info followed by the private
-- info. Where the public info ends and the private info begins is not told apart.
pub otherinfo_separates :
    (hash : Bytes → Bytes)
    (alg apu apv pubinfo privinfo alg' apu' apv' pubinfo' privinfo' z z' : Bytes)
    → length alg < 2 ^ 32
    → length apu < 2 ^ 32
    → length apv < 2 ^ 32
    → length alg' < 2 ^ 32
    → length apu' < 2 ^ 32
    → length apv' < 2 ^ 32
    → (new hash alg z apu apv pubinfo privinfo).otherinfo
      ≡ (new hash alg' z' apu' apv' pubinfo' privinfo').otherinfo
    → (alg ≡ alg') × (apu ≡ apu') × (apv ≡ apv') × (pubinfo ++ privinfo ≡ pubinfo' ++ privinfo')
unfolding new
otherinfo_separates hash alg apu apv pubinfo privinfo alg' apu' apv' pubinfo' privinfo' z z' h1 h2
      h3 k1 k2 k3 e =
    let (first, e2) = ndata_split alg alg' _ _ h1 k1 e in
    let (second, e3) = ndata_split apu apu' _ _ h2 k2 e2 in
    let (third, e4) = ndata_split apv apv' _ _ h3 k3 e3 in (first, second, third, e4)

-- The hash of a key derivation is the one that it was given.
pub hash-new :
    (hash : Bytes → Bytes) (alg z apu apv pubinfo privinfo : Bytes)
    → (new hash alg z apu apv pubinfo privinfo).hash ≡ hash
unfolding new
hash-new hash alg z apu apv pubinfo privinfo = refl
