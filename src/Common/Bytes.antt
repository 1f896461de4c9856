-- ===== src/Common/Bytes.antt =====
-- Bytes, exclusive or, and the big-endian writers of Go's `encoding/binary`.
use Prim.Native.Nat.{bit_xor}
use native.Mathlib.Nat.{pow-suc}
use jwx.Common.{
  if◌then◌else◌, ℕ, zero, suc, ◌+◌, ◌*◌, ◌/◌, ◌%◌, ◌^◌, ◌<◌, ◌≡◌, refl, ap, ◌∙◌, Bool, true, false,
  ◌&&◌, List, [], ◌∷◌, ◌++◌, arith, ltb, ◌==◌, length, take, drop, All, length-append, All-append,
}

abbrev pub Bytes : Type 0
Bytes = List ℕ

abbrev pub IsByte : ℕ → Type 0
IsByte b = b < 256

abbrev pub AllBytes : Bytes → Type 0
AllBytes = All IsByte

-- `a[i] ^= b[i]` for every `i` below both lengths.
unfoldable pub xor_into : Bytes → Bytes → Bytes
xor_into [] bs = []
xor_into (a ∷ more) [] = a ∷ more
xor_into (a ∷ more) (b ∷ bs) = bit_xor a b ∷ xor_into more bs

-- The `w` low bytes of `v`, the highest first: `binary.BigEndian.PutUint32` and `PutUint64`.
unfoldable pub be_bytes : ℕ → ℕ → Bytes
be_bytes zero v = []
be_bytes (suc w) v = be_bytes w (v / 256) ++ (v % 256) ∷ []

-- The number that bytes spell, the highest first.
unfoldable pub be_value : ℕ → Bytes → ℕ
be_value acc [] = acc
be_value acc (b ∷ bs) = be_value (acc * 256 + b) bs

-- A test that holds of every number below `top`.
passes : (ℕ → Bool) → ℕ → Bool
passes test (suc top) = let rest = passes test top in if test top then rest else false
passes test zero = true

passes_lem : (test : ℕ → Bool) (v top : ℕ) → passes test top ≡ true → v < top → test v ≡ true
unfolding passes
passes_lem test v (suc top) e below = ground (arith, passes_lem test v top)
passes_lem test v zero e below = absurd (omega arith)

-- Checked by evaluation on all pairs of bytes.
abbrev xor_restores : ℕ → ℕ → Bool
xor_restores a b = ltb (bit_xor a b) 256 && bit_xor (bit_xor a b) b == a

xor_restores_bytes : passes (λ a. passes (xor_restores a) 256) 256 ≡ true
unfolding passes
xor_restores_bytes = refl

xor_restores_byte : (a : ℕ) → a < 256 → passes (xor_restores a) 256 ≡ true
xor_restores_byte a below =
    passes_lem (λ a. passes (xor_restores a) 256) a 256 xor_restores_bytes below

pub bit_xor_byte :
    (a b : ℕ) → a < 256 → b < 256 → (bit_xor (bit_xor a b) b ≡ a) × (bit_xor a b < 256)
bit_xor_byte a b ha hb =
    ground (arith, passes_lem (xor_restores a) b 256 (xor_restores_byte a ha) hb)

pub length-xor_into : (xs ys : Bytes) → length (xor_into xs ys) ≡ length xs
unfolding xor_into
length-xor_into [] bs = refl
length-xor_into (a ∷ more) [] = refl
length-xor_into (a ∷ more) (b ∷ bs) = ap suc (length-xor_into more bs)

pub xor_into_cancel :
    (xs ys : Bytes) → AllBytes xs → AllBytes ys → xor_into (xor_into xs ys) ys ≡ xs
unfolding xor_into
xor_into_cancel [] bs h k = refl
xor_into_cancel (a ∷ more) [] h k = refl
xor_into_cancel (a ∷ more) (b ∷ bs) h k =
    cc ((bit_xor_byte a b h.0 k.0).0, xor_into_cancel more bs h.1 k.1)

pub AllBytes-xor_into : (xs ys : Bytes) → AllBytes xs → AllBytes ys → AllBytes (xor_into xs ys)
unfolding xor_into
AllBytes-xor_into [] bs h k = tt
AllBytes-xor_into (a ∷ more) [] h k = h
AllBytes-xor_into (a ∷ more) (b ∷ bs) h k =
    ((bit_xor_byte a b h.0 k.0).1, AllBytes-xor_into more bs h.1 k.1)

pub length-be_bytes : (w v : ℕ) → length (be_bytes w v) ≡ w
unfolding be_bytes
length-be_bytes zero v = refl
length-be_bytes (suc w) v =
    omega
      (arith, length-append (be_bytes w (v / 256)) ((v % 256) ∷ []), length-be_bytes w (v / 256))

pub AllBytes-be_bytes : (w v : ℕ) → AllBytes (be_bytes w v)
unfolding be_bytes
AllBytes-be_bytes zero v = tt
AllBytes-be_bytes (suc w) v =
    All-append IsByte (be_bytes w (v / 256)) _ (AllBytes-be_bytes w (v / 256)) (omega arith)

be_value-append :
    (acc : ℕ) (xs : Bytes) (b : ℕ) → be_value acc (xs ++ b ∷ []) ≡ be_value acc xs * 256 + b
unfolding be_value
be_value-append acc [] b = refl
be_value-append acc (x ∷ xs) b = be_value-append (acc * 256 + x) xs b

-- What was written big-endian is read back, if it fits.
pub be_value-be_bytes : (w v : ℕ) → v < 256 ^ w → be_value 0 (be_bytes w v) ≡ v
unfolding be_bytes be_value
be_value-be_bytes zero v h = omega arith
be_value-be_bytes (suc w) v h =
    be_value-append 0 (be_bytes w (v / 256)) (v % 256)
    ∙ omega (arith, be_value-be_bytes w (v / 256) (omega (arith, pow-suc 256 w)))

-- `bytes.Equal`, and `subtle.ConstantTimeCompare(xs, ys) == 1`.
unfoldable pub bytes_eq : Bytes → Bytes → Bool
bytes_eq [] [] = true
bytes_eq [] (y ∷ ys) = false
bytes_eq (x ∷ xs) [] = false
bytes_eq (x ∷ xs) (y ∷ ys) = x == y && bytes_eq xs ys

pub bytes_eq→eq : (xs ys : Bytes) → bytes_eq xs ys ≡ true → xs ≡ ys
unfolding bytes_eq
bytes_eq→eq [] [] h = refl
bytes_eq→eq [] (y ∷ ys) h = cc
bytes_eq→eq (x ∷ xs) [] h = cc
bytes_eq→eq (x ∷ xs) (y ∷ ys) h = ground (arith, bytes_eq→eq xs ys)

pub bytes_eq_refl : (xs : Bytes) → bytes_eq xs xs ≡ true
unfolding bytes_eq
bytes_eq_refl [] = refl
bytes_eq_refl (x ∷ xs) = ground (arith, bytes_eq_refl xs)

pub take-xor_into : (k : ℕ) (xs ys : Bytes) → take k (xor_into xs ys) ≡ xor_into (take k xs) ys
unfolding xor_into
take-xor_into zero xs ys = refl
take-xor_into (suc k) [] ys = refl
take-xor_into (suc k) (x ∷ xs) [] = refl
take-xor_into (suc k) (x ∷ xs) (y ∷ ys) = ap (λ t. bit_xor x y ∷ t) (take-xor_into k xs ys)

pub drop-xor_into : (xs ys : Bytes) → drop (length ys) (xor_into xs ys) ≡ drop (length ys) xs
unfolding xor_into
drop-xor_into [] ys = refl
drop-xor_into (x ∷ xs) [] = refl
drop-xor_into (x ∷ xs) (y ∷ ys) = drop-xor_into xs ys
