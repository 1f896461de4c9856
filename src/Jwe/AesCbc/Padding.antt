-- ===== src/Jwe/AesCbc/Padding.antt =====
-- `pad` and `unpad` of jwe/internal/aescbc/aescbc.go.
use native.Mathlib.Nat.{mod-lt, mod-add-mod}
use native.Mathlib.Decide.{dec_lt}
use jwx.Common.{
  ℕ, zero, suc, ◌+◌, ◌-◌, ◌%◌, ◌≤◌, ◌<◌, ◌≡◌, refl, sym, ap, ◌∙◌, true, List, [], ◌∷◌, ◌++◌, ok,
  arith, ◌==◌, length, take, drop, replicate, get_or, length-append, length-replicate, length-drop,
  take-append, take-append-drop, get_or-drop, get_or-append_right, get_or-replicate, All-append,
  All-replicate, Bool-cases, inl, inr,
}
use jwx.Common.Bytes.{Bytes, IsByte, AllBytes}
use mathlib.Core.Path.{subst}
use jwx.Jwe.AesCbc.{pad, unpad, check_padding}

check_padding_sound :
    (buf : Bytes) (last i rounds j : ℕ)
    → check_padding buf last i rounds ≡ true
    → i ≤ j
    → j < i + rounds
    → get_or buf (length buf - j) 0 ≡ last
unfolding check_padding
check_padding_sound buf last i zero j h lo hi = absurd (omega arith)
check_padding_sound buf last i (suc rounds) j h lo hi = ground (
  arith,
  check_padding_sound buf last (i + 1) rounds j,
  ap (λ k. get_or buf (length buf - k) 0) {x = i} {y = j},
)

eq_replicate {ℓ} :
    {A : Type ℓ} (xs : List A) (a d : A)
    → ((i : ℕ) → i < length xs → get_or xs i d ≡ a)
    → xs ≡ replicate (length xs) a
eq_replicate [] a d h = refl
eq_replicate (x ∷ xs) a d h =
    cc (h 0 (omega arith), eq_replicate xs a d (λ i k. h (suc i) (omega arith)))

-- What the tests of `unpad` establish on success.
record Passed (buf : Bytes) (n : ℕ) (out : Bytes) (last : ℕ) : Type 0 where
  whole_blocks : length buf % n ≡ 0
  last_byte : get_or buf (length buf - 1) 0 ≡ last
  positive : 1 ≤ last
  le_block : last ≤ n
  le_buffer : last ≤ length buf
  checked : check_padding buf last 1 (last - 1) ≡ true
  result : out ≡ take (length buf - last) buf

unpad-Passed :
    (buf : Bytes) (n : ℕ) (out : Bytes)
    → unpad buf n ≡ ok out
    → Passed buf n out (get_or buf (length buf - 1) 0)
unfolding unpad
unpad-Passed buf n out h = ground arith

tail_replicate :
    (buf : Bytes) (r : ℕ)
    → 1 ≤ r
    → r ≤ length buf
    → check_padding buf r 1 (r - 1) ≡ true
    → drop (suc (length buf - r)) buf ≡ replicate (r - 1) r
tail_replicate buf r lo hi h =
    let start = suc (length buf - r) in
    let size : length (drop start buf) ≡ r - 1 = omega (arith, length-drop start buf) in
    rw (← size) (
      eq_replicate (drop start buf) r 0
        λ i k. get_or-drop start i buf 0 ∙ at i (omega (arith, size)))
  where
    at : (i : ℕ) → i < r - 1 → get_or buf (suc (length buf - r) + i) 0 ≡ r
    at i k =
        let e : suc (length buf - r) + i ≡ length buf - (r - 1 - i) = omega arith in
        ap (λ t. get_or buf t 0) e
        ∙ check_padding_sound buf r 1 (r - 1) (r - 1 - i) h (omega arith) (omega arith)

drop_head : (buf : Bytes) (k : ℕ) → k < length buf → drop k buf ≡ get_or buf k 0 ∷ drop (suc k) buf
drop_head [] k h = absurd (omega arith)
drop_head (x ∷ xs) zero h = refl
drop_head (x ∷ xs) (suc k) h = drop_head xs k (omega arith)

-- What `unpad` accepts on success: the buffer is whole blocks, and it is the result followed by
-- `r` bytes, 1 ≤ r ≤ n, the last of which is `r`. All of the `r` bytes but the first are `r`.
pub unpad_sound :
    (buf : Bytes) (n : ℕ) (out : Bytes)
    → unpad buf n ≡ ok out
    → (r : ℕ) × (x : ℕ) × (1 ≤ r)
      × (r ≤ n)
      × (length buf % n ≡ 0)
      × (buf ≡ out ++ x ∷ replicate (r - 1) r)
      × (r ≡ 1 → x ≡ 1)
unpad_sound buf n out h =
    let p = unpad-Passed buf n out h in
    let r = get_or buf (length buf - 1) 0 in
    let k = length buf - r in
    let whole : buf ≡ take k buf ++ drop k buf = sym (take-append-drop k buf) in
    let tail : drop k buf ≡ get_or buf k 0 ∷ replicate (r - 1) r =
      drop_head buf k (omega (arith, p.positive, p.le_buffer))
      ∙ ap (λ t. get_or buf k 0 ∷ t) (tail_replicate buf r p.positive p.le_buffer p.checked) in
    (
      r,
      get_or buf k 0,
      p.positive,
      p.le_block,
      p.whole_blocks,
      whole ∙ cc (tail, p.result),
      λ e. ap (λ t. get_or buf (length buf - t) 0) e ∙ e,
    )

check_padding_complete :
    (buf : Bytes) (last i rounds : ℕ)
    → ((j : ℕ) → i ≤ j → j < i + rounds → get_or buf (length buf - j) 0 ≡ last)
    → check_padding buf last i rounds ≡ true
unfolding check_padding
check_padding_complete buf last i zero h = refl
check_padding_complete buf last i (suc rounds) h = ground (
  arith,
  h i (omega arith) (omega arith),
  check_padding_complete buf last (i + 1) rounds (λ j lo hi. h j (omega arith) (omega arith)),
)

-- A buffer that ends in `x` and then `r` bytes of the value `r + 1`.
module _ (out : Bytes) (x r : ℕ) where
  abbrev padded : Bytes
  padded = out ++ x ∷ replicate r (suc r)

  length-padded : length padded ≡ length out + suc r
  length-padded =
      omega (arith, length-append out (x ∷ replicate r (suc r)), length-replicate r (suc r))

  padded_byte : (j : ℕ) → 1 ≤ j → j < suc r → get_or padded (length padded - j) 0 ≡ suc r
  padded_byte j lo hi =
      let e : length padded - j ≡ length out + suc (r - j) = omega (arith, length-padded) in
      ap (λ t. get_or padded t 0) e
      ∙ get_or-append_right out (x ∷ replicate r (suc r)) (suc (r - j)) 0
      ∙ get_or-replicate r (r - j) (suc r) 0 (omega arith)

  last-padded : (r ≡ 0 → x ≡ 1) → get_or padded (length padded - 1) 0 ≡ suc r
  last-padded h = elim (dec_lt 0 r) [
    | yes p ↦ padded_byte 1 (omega arith) (omega arith)
    | no p ↦
        let e : length padded - 1 ≡ length out + 0 = omega (arith, length-padded) in
        ap (λ t. get_or padded t 0) e
        ∙ get_or-append_right out (x ∷ replicate r (suc r)) 0 0
        ∙ omega arith
  ]

  -- The converse of `unpad_sound`: the first of the padding bytes may hold any value, unless it
  -- is the only one.
  pub unpad_complete :
      (n : ℕ) → suc r ≤ n → length padded % n ≡ 0 → (r ≡ 0 → x ≡ 1) → unpad padded n ≡ ok out
  unfolding unpad
  unpad_complete n fits whole single =
      let l = length-padded in
      let t : take (length padded - suc r) padded ≡ out = take-append _ out _ (omega arith) in
      let c =
        check_padding_complete padded (suc r) 1 r (λ j lo hi. padded_byte j lo (omega arith)) in
      rw (last-padded single) (ground arith)

whole_blocks : (l n k : ℕ) → 0 < n → n - l % n ≡ suc k → (l + suc k) % n ≡ 0
whole_blocks l n k h e =
    let full : l % n + suc k ≡ n = omega (arith, mod-lt l h) in
    sym (mod-add-mod l n (suc k)) ∙ ap (λ t. t % n) full ∙ grind arith

-- `pad` fills the last block: 1 to `n` bytes are added, to whole blocks, and `unpad` takes them
-- off again. The block size is 1 to 255.
pub unpad-pad :
    (buf : Bytes) (n : ℕ)
    → 0 < n
    → n < 256
    → (p : Bytes) × (pad buf n ≡ ok p)
      × (unpad p n ≡ ok buf)
      × (length p % n ≡ 0)
      × (length buf < length p)
      × (length p ≤ length buf + n)
unfolding pad
unpad-pad buf n lo hi =
    let k = n - length buf % n - 1 in
    let e : n - length buf % n ≡ suc k = omega (arith, mod-lt (length buf) lo) in
    let p = padded buf (suc k) k in
    let l = length-padded buf (suc k) k in
    let whole : length p % n ≡ 0 = rw l (whole_blocks (length buf) n k lo e) in
    (
      p,
      rw (e) (ground arith),
      unpad_complete buf (suc k) k n (omega arith) whole (λ z. omega arith),
      whole,
      omega arith,
      omega arith,
    )

pub AllBytes-pad : (buf : Bytes) (n : ℕ) (p : Bytes) → pad buf n ≡ ok p → AllBytes buf → AllBytes p
unfolding pad
AllBytes-pad buf n p h b =
    let rem = n - length buf % n in
    let more =
      All-append IsByte buf (replicate rem (rem % 256)) b
        (All-replicate IsByte rem (rem % 256) (omega arith)) in
    elim (Bool-cases (rem == 0)) [
      | inl z ↦ subst AllBytes (ground arith) b
      | inr z ↦ subst AllBytes (ground arith) more
    ]
