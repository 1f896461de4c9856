-- ===== src/Jwe/ConcatKdf/Stream.antt =====
-- What `Read` of jwe/internal/concatkdf/concatkdf.go writes, against the blocks of the standard.
use mathlib.Core.List.{append-nil, append_assoc}
use jwx.Common.{
  ℕ, zero, suc, ◌+◌, ◌*◌, ◌%◌, ◌^◌, ◌≤◌, ◌<◌, ◌≡◌, ◌≢◌, refl, sym, ap, ◌∙◌, false, some, [], ◌++◌,
  ltb, Bool-cases, inl, inr, arith, length, take, drop, length-append, length-take, drop_all,
  take_all, lt→ltb, ltb→lt,
}
use mathlib.Core.Path.{ap₂}
use native.Mathlib.Decide.{dec_lt}
use jwx.Common.Bytes.{Bytes}
use jwx.Jwe.ConcatKdf.{Kdf, block, fill, read}

-- The concatenation of `n` blocks, with the counter of the first.
pub material : Kdf → ℕ → ℕ → Bytes
material k round zero = []
material k round (suc n) = block k round ++ material k ((round + 1) % 2 ^ 32) n

module _ (k : Kdf) (size : ℕ) (digest : (m : Bytes) → length (k.hash m) ≡ size)
    (pos : 0 < size) where
  length-block : (round : ℕ) → length (block k round) ≡ size
  unfolding block
  length-block round = digest _

  length-material : (n round : ℕ) → length (material k round n) ≡ n * size
  unfolding material
  length-material zero round = omega arith
  length-material (suc n) round =
      let next = (round + 1) % 2 ^ 32 in
      omega (
        arith,
        length-append (block k round) (material k next n),
        length-block round,
        length-material n next,
      )

  -- The loop adds the fewest blocks that are enough.
  record Filled (fuel wanted round : ℕ) (buf : Bytes) (n : ℕ) : Type 0 where
    result : fill k fuel wanted round buf ≡ some (buf ++ material k round n)
    enough : wanted ≤ length buf + n * size
    fewest : n ≢ 0 → length buf + n * size < wanted + size

  fewest_suc :
      (l wanted n : ℕ)
      → l < wanted
      → (n ≢ 0 → l + size + n * size < wanted + size)
      → l + suc n * size < wanted + size
  fewest_suc l wanted zero h f = omega arith
  fewest_suc l wanted (suc n) h f = omega (arith, f (λ e. absurd (omega (arith, e))))

  fill_step :
      (fuel wanted round : ℕ) (buf : Bytes)
      → length buf < wanted
      → (n : ℕ) × Filled fuel wanted ((round + 1) % 2 ^ 32) (buf ++ block k round) n
      → (n : ℕ) × Filled (suc fuel) wanted round buf n
  unfolding fill material
  fill_step fuel wanted round buf short (n, f) =
      let next = (round + 1) % 2 ^ 32 in
      let l : length (buf ++ block k round) ≡ length buf + size =
        omega (arith, length-append buf (block k round), length-block round) in
      (
        suc n,
        record {
          result =
              rw (lt→ltb _ _ short)
                (f.result ∙ ap some (append_assoc buf (block k round) (material k next n)));
          enough = omega (arith, f.enough);
          fewest = λ z. fewest_suc (length buf) wanted n short (λ y. omega (arith, f.fewest y));
        },
      )

  done :
      (fuel wanted round : ℕ) (buf : Bytes)
      → wanted ≤ length buf
      → Filled (suc fuel) wanted round buf 0
  unfolding fill material
  done fuel wanted round buf h =
      let full : ltb (length buf) wanted ≡ false = ground arith in
      record {
        result = rw full (ap some (sym (append-nil buf)));
        enough = omega arith;
        fewest = λ z. absurd (z refl);
      }

  -- `fuel + 1` rounds of the test are enough for `fuel` more bytes.
  fill_total :
      (fuel wanted round : ℕ) (buf : Bytes)
      → wanted ≤ length buf + fuel
      → (n : ℕ) × Filled (suc fuel) wanted round buf n
  fill_total zero wanted round buf h = (0, done zero wanted round buf (omega arith))
  fill_total (suc fuel) wanted round buf h = elim (Bool-cases (ltb (length buf) wanted)) [
    | inr full ↦ (0, done (suc fuel) wanted round buf (ground arith))
    | inl short ↦
        let l = length-append buf (block k round) in
        fill_step (suc fuel) wanted round buf (ltb→lt _ _ short) (
          fill_total fuel wanted ((round + 1) % 2 ^ 32) (buf ++ block k round)
            (omega (arith, l, ltb→lt _ _ short, length-block round)))
  ]

  exact_blocks : (n m : ℕ) → m * size ≤ n * size → (n ≢ 0 → n * size < m * size + size) → n ≡ m
  exact_blocks n m lo hi = elim (dec_lt n m) [
    | yes less ↦ let gap : n * size + size ≤ m * size = grind arith in absurd (omega arith)
    | no h ↦ elim (dec_lt m n) [
      | yes more ↦
          let gap : m * size + size ≤ n * size = grind arith in
          absurd (omega (arith, hi (λ z. absurd (omega (arith, z)))))
      | no j ↦ omega arith
    ]
  ]

  -- `Read(out)` always returns, for a hash of a fixed positive size: `out` receives the front of
  -- what was left over and the blocks from round 1 on, the rest is left over, and no block is
  -- computed that is not needed.
  pub read-material :
      (wanted : ℕ)
      → (n : ℕ) × (read k wanted
          ≡ some (
            take wanted (k.buf ++ material k 1 n),
            record k { buf = drop wanted (k.buf ++ material k 1 n) },
          ))
        × (wanted ≤ length k.buf + n * size)
        × (n ≢ 0 → length k.buf + n * size < wanted + size)
  unfolding read
  read-material wanted =
      let (n, f) = fill_total wanted wanted 1 k.buf (omega arith) in
      (n, rw f.result, f.enough, f.fewest)

  -- As many bytes as are wanted.
  pub read_total :
      (wanted : ℕ)
      → (key : Bytes) × (left : Kdf) × (read k wanted ≡ some (key, left)) × (length key ≡ wanted)
  read_total wanted =
      let (n, result, enough, fewest) = read-material wanted in
      let all = k.buf ++ material k 1 n in
      (
        take wanted all,
        record k { buf = drop wanted all },
        result,
        omega (
          arith,
          length-take wanted all,
          length-append k.buf (material k 1 n),
          length-material n 1,
        ),
      )

  -- `Read` is no stream: with nothing left over, a call for whole blocks ends in the state in which
  -- it began, so that a second call returns the same bytes again.
  pub read_repeats :
      (m : ℕ)
      → k.buf ≡ []
      → (out : Bytes) × (length out ≡ m * size) × (read k (m * size) ≡ some (out, k))
  read_repeats m h =
      let (n, e, lo, hi) = read-material (m * size) in
      let same =
        exact_blocks n m (omega (arith, ap length h)) (λ z. omega (arith, ap length h, hi z)) in
      let out = material k 1 n in
      let size_out : length out ≡ m * size = length-material n 1 ∙ ap (λ t. t * size) same in
      let all : k.buf ++ out ≡ out = ap (λ b. b ++ out) h in
      let kept = ap (take (m * size)) all ∙ take_all (m * size) out (omega arith) in
      let left = ap (drop (m * size)) all ∙ drop_all (m * size) out (omega arith) ∙ sym h in
      (out, size_out, e ∙ ap₂ (λ a b. some (a, record k { buf = b })) kept left)
