-- ===== src/Jwe/KeyWrap/RoundTrip.antt =====
-- `Unwrap` returns the key that `Wrap` was given.
use jwx.Common.{
  ℕ, zero, suc, ◌+◌, ◌-◌, ◌*◌, ◌/◌, ◌%◌, ◌≤◌, ◌≡◌, ◌↔◌, refl, sym, ap, ◌∙◌, false, ltb, List, [],
  ◌∷◌, ◌++◌, ok, panic, arith, length, take, drop, replicate, copy, All, All-take, All-drop,
  length-append, length-take, length-drop, take-append, drop-append, take-append-drop, copy_short,
}
use jwx.Common.Bytes.{Bytes, IsByte, AllBytes, bytes_eq_refl}
use jwx.Crypto.{BlockCipher, IsBlockCipher}
use jwx.Jwe.KeyWrap.{Registers, default_iv, chunks, join, wrap_loop, unwrap_loop, wrap, unwrap}
use jwx.Jwe.KeyWrap.Rounds.{IsChunk, IsLoaded, Agrees, wrap_loop-IsLoaded, unwrap_loop-wrap_loop}

-- A chunk is the next eight bytes.
first_chunk : (src : Bytes) → 8 ≤ length src → copy (replicate 8 0) src ≡ take 8 src
first_chunk src h = copy_short (replicate 8 0) src h

chunks_shape :
    (n : ℕ) (src : Bytes)
    → length src ≡ 8 * n
    → AllBytes src
    → (length (chunks n src) ≡ n) × All IsChunk (chunks n src) × (join (chunks n src) ≡ src)
unfolding chunks join
chunks_shape zero [] h b = (refl, tt, refl)
chunks_shape zero (x ∷ src) h b = absurd (omega arith)
chunks_shape (suc n) src h b =
    let (size, rows, whole) =
      chunks_shape n (drop 8 src) (omega (arith, length-drop 8 src)) (All-drop IsByte 8 src b) in
    rw (first_chunk src (omega arith)) (
      ap suc size,
      ((omega (arith, length-take 8 src), All-take IsByte 8 src b), rows),
      ap (λ t. take 8 src ++ t) whole ∙ take-append-drop 8 src,
    )

chunks-join : (cs : List Bytes) → All IsChunk cs → chunks (length cs) (join cs) ≡ cs
unfolding chunks join
chunks-join [] h = refl
chunks-join (c ∷ cs) h =
    let size = h.0.0 in
    let head : copy (replicate 8 0) (c ++ join cs) ≡ c =
      first_chunk (c ++ join cs) (omega (arith, length-append c (join cs)))
      ∙ take-append 8 c (join cs) size in
    rw (head, drop-append 8 c (join cs) size) (ap (λ t. c ∷ t) (chunks-join cs h.1))

length-join : (cs : List Bytes) → All IsChunk cs → length (join cs) ≡ 8 * length cs
unfolding join
length-join [] h = refl
length-join (c ∷ cs) h = omega (arith, length-append c (join cs), h.0.0, length-join cs h.1)

module _ {kek : BlockCipher} (laws : IsBlockCipher kek) (wide : kek.block_size ≡ 16) where
  -- The loops at `6 * n` rounds, with no chunk too.
  loops :
      (n : ℕ) (s : Registers)
      → IsLoaded n s
      → IsLoaded n (wrap_loop kek n (6 * n) s)
        × ((u : Registers)
            → Agrees u (wrap_loop kek n (6 * n) s)
            → Agrees (unwrap_loop kek n (6 * n) u) s)
  loops zero s l = unfold wrap_loop unwrap_loop in (l, λ u a. a)
  loops (suc n) s l = (
    wrap_loop-IsLoaded laws wide (omega arith) (6 * suc n) s l,
    λ u a. unwrap_loop-wrap_loop laws wide (omega arith) (6 * suc n) s u l a,
  )

  module _ (cek : Bytes) (blocks : length cek % 8 ≡ 0) (bytes : AllBytes cek) where
    abbrev n : ℕ
    n = length cek / 8

    abbrev start : Registers
    start = record { buffer = default_iv ++ replicate 8 0; r = chunks n cek }

    abbrev final : Registers
    final = wrap_loop kek n (6 * n) start

    abbrev wrapped : Bytes
    wrapped = take 8 final.buffer ++ join final.r

    cek_shape :
        (length (chunks n cek) ≡ n) × All IsChunk (chunks n cek) × (join (chunks n cek) ≡ cek)
    cek_shape = chunks_shape n cek (omega arith) bytes

    start-IsLoaded : IsLoaded n start
    start-IsLoaded = record {
      buffer_size = refl;
      buffer_bytes = omega arith;
      row_count = cek_shape.0;
      rows = cek_shape.1;
    }

    final-IsLoaded : IsLoaded n final
    final-IsLoaded = (loops n start start-IsLoaded).0

    length-half : length (take 8 final.buffer) ≡ 8
    length-half = omega (arith, length-take 8 final.buffer, final-IsLoaded.buffer_size)

    length-wrapped : length wrapped ≡ length cek + 8
    length-wrapped = omega (
      arith,
      length-append (take 8 final.buffer) (join final.r),
      length-half,
      length-join final.r final-IsLoaded.rows,
      final-IsLoaded.row_count,
    )

    abbrev received : Registers
    received = record { buffer = take 8 wrapped ++ replicate 8 0; r = chunks n (drop 8 wrapped) }

    half-wrapped : take 8 wrapped ≡ take 8 final.buffer
    half-wrapped = take-append 8 (take 8 final.buffer) (join final.r) length-half

    rest-wrapped : drop 8 wrapped ≡ join final.r
    rest-wrapped = drop-append 8 (take 8 final.buffer) (join final.r) length-half

    received-Agrees : Agrees received final
    received-Agrees = record {
      half =
          take-append 8 (take 8 wrapped) (replicate 8 0) (ap length half-wrapped ∙ length-half)
          ∙ half-wrapped;
      same_rows =
          ap (chunks n) rest-wrapped
          ∙ ap (λ k. chunks k (join final.r)) (sym final-IsLoaded.row_count)
          ∙ chunks-join final.r final-IsLoaded.rows;
      size =
          length-append (take 8 wrapped) (replicate 8 0)
          ∙ omega (arith, ap length half-wrapped, length-half);
    }

    recovered : Agrees (unwrap_loop kek n (6 * n) received) start
    recovered = (loops n start start-IsLoaded).1 received received-Agrees

    wrap_lem : wrap kek cek ≡ ok wrapped
    unfolding wrap
    wrap_lem = rw blocks

    unwrap_lem : unwrap kek wrapped ≡ ok cek
    unfolding unwrap
    unwrap_lem =
        let count : length wrapped / 8 - 1 ≡ n = omega (arith, length-wrapped) in
        let whole : length wrapped % 8 ≡ 0 = omega (arith, length-wrapped) in
        let filled : ltb (length wrapped / 8) 1 ≡ false = ground (arith, length-wrapped) in
        rw (
          count,
          whole,
          filled,
          recovered.half,
          recovered.same_rows,
          cek_shape.2,
          bytes_eq_refl default_iv,
        )

    -- For every key of whole 8-byte blocks, the empty one too, and every block cipher of 16-byte
    -- blocks: `Wrap` succeeds with a result that is 8 bytes longer, and `Unwrap` of that result
    -- is the key.
    pub unwrap-wrap :
        (w : Bytes) × (wrap kek cek ≡ ok w) × (unwrap kek w ≡ ok cek) × (length w ≡ length cek + 8)
    unwrap-wrap = (wrapped, wrap_lem, unwrap_lem, length-wrapped)

nil_of_length : (xs : Bytes) → length xs ≡ 0 → xs ≡ []
nil_of_length [] h = refl
nil_of_length (x ∷ xs) h = absurd (omega arith)

unwrap_panic_length : (kek : BlockCipher) (w : Bytes) → unwrap kek w ≡ panic → length w ≡ 0
unfolding unwrap
unwrap_panic_length kek w h = ground arith

-- `Unwrap` panics on the empty ciphertext and on no other input.
pub unwrap_panics : (kek : BlockCipher) (w : Bytes) → (unwrap kek w ≡ panic) ↔ (w ≡ [])
unwrap_panics kek w =
    (λ h. nil_of_length w (unwrap_panic_length kek w h), λ e. rw e (unfold unwrap in refl))
