-- ===== src/Jwe/KeyWrap/Rounds.antt =====
-- One round of `Unwrap` undoes one round of `Wrap`.
use jwx.Common.{
  ℕ, zero, suc, ◌+◌, ◌%◌, ◌^◌, ◌<◌, ◌≡◌, refl, sym, ap, ◌∙◌, List, [], ◌∷◌, ◌++◌, arith, length,
  take, drop, get_or, set, copy, copy_at, All, All-append, All-take, All-drop, All-set, All-get_or,
  length-set, length-append, length-take, length-drop, take-append, drop-append, take-append-drop,
  copy_full,
}
use jwx.Common.Bytes.{
  Bytes, IsByte, AllBytes, length-be_bytes, AllBytes-be_bytes, xor_into, length-xor_into,
  AllBytes-xor_into, xor_into_cancel, take-xor_into, drop-xor_into,
}
use native.Mathlib.Nat.{mod-lt}
use jwx.Crypto.{BlockCipher, IsBlockCipher}
use jwx.Jwe.KeyWrap.{Registers, t_bytes, wrap_round, unwrap_round, wrap_loop, unwrap_loop}

abbrev pub IsChunk : Bytes → Type 0
IsChunk c = (length c ≡ 8) × AllBytes c

-- The registers during a run over `n` chunks.
pub record IsLoaded (n : ℕ) (s : Registers) : Type 0 where
  pub buffer_size : length s.buffer ≡ 16
  pub buffer_bytes : AllBytes s.buffer
  pub row_count : length s.r ≡ n
  pub rows : All IsChunk s.r

-- What `Unwrap` has to know of the registers: the second half of the buffer is overwritten.
pub record Agrees (s u : Registers) : Type 0 where
  pub half : take 8 s.buffer ≡ take 8 u.buffer
  pub same_rows : s.r ≡ u.r
  pub size : length s.buffer ≡ 16

set-set_get {ℓ} :
    {A : Type ℓ} (xs : List A) (i : ℕ) (v d : A) → set (set xs i v) i (get_or xs i d) ≡ xs
set-set_get [] i v d = refl
set-set_get (x ∷ xs) zero v d = refl
set-set_get (x ∷ xs) (suc i) v d = ap (λ t. x ∷ t) (set-set_get xs i v d)

get_or-set {ℓ} :
    {A : Type ℓ} (xs : List A) (i : ℕ) (v d : A) → i < length xs → get_or (set xs i v) i d ≡ v
get_or-set [] i v d h = absurd (omega arith)
get_or-set (x ∷ xs) zero v d h = refl
get_or-set (x ∷ xs) (suc i) v d h = get_or-set xs i v d (omega arith)

module _ {kek : BlockCipher} (laws : IsBlockCipher kek) (wide : kek.block_size ≡ 16) {n : ℕ}
    (some_rows : 0 < n) (t : ℕ) (s : Registers) (l : IsLoaded n s) where
  abbrev row : Bytes
  row = get_or s.r (t % n) []

  row_lt : t % n < length s.r
  row_lt = omega (arith, l.row_count, mod-lt t some_rows)

  row-IsChunk : IsChunk row
  row-IsChunk = All-get_or IsChunk s.r (t % n) [] l.rows row_lt

  abbrev loaded : Bytes
  loaded = take 8 s.buffer ++ row

  copy_row : copy_at s.buffer 8 row ≡ loaded
  copy_row =
      ap (λ x. take 8 s.buffer ++ x)
        (copy_full (drop 8 s.buffer) row
          (omega (arith, length-drop 8 s.buffer, l.buffer_size, row-IsChunk.0)))

  length-loaded : length loaded ≡ kek.block_size
  length-loaded = omega (
    arith,
    length-append (take 8 s.buffer) row,
    length-take 8 s.buffer,
    l.buffer_size,
    row-IsChunk.0,
  )

  AllBytes-loaded : AllBytes loaded
  AllBytes-loaded =
      All-append IsByte (take 8 s.buffer) row (All-take IsByte 8 s.buffer l.buffer_bytes)
        row-IsChunk.1

  abbrev crypted : Bytes
  crypted = kek.encrypt loaded

  length-crypted : length crypted ≡ 16
  length-crypted = (laws.encrypt_block loaded length-loaded AllBytes-loaded).0 ∙ wide

  AllBytes-crypted : AllBytes crypted
  AllBytes-crypted = (laws.encrypt_block loaded length-loaded AllBytes-loaded).1

  second_half : length row ≡ length (drop 8 crypted)
  second_half = omega (arith, row-IsChunk.0, length-drop 8 crypted, length-crypted)

  drop_mask : (xs : Bytes) → drop 8 (xor_into xs (t_bytes t)) ≡ drop 8 xs
  drop_mask xs = rw (length-be_bytes 8 ((t + 1) % 2 ^ 64)) at (drop-xor_into xs (t_bytes t))

  -- The result of the round, with the copies resolved.
  wrap_round_lem :
      wrap_round kek n t s
      ≡ record { buffer = xor_into crypted (t_bytes t); r = set s.r (t % n) (drop 8 crypted) }
  unfolding wrap_round
  wrap_round_lem = rw (copy_row, drop_mask crypted, copy_full row (drop 8 crypted) second_half)

  -- The registers stay loaded.
  pub wrap_round-IsLoaded : IsLoaded n (wrap_round kek n t s)
  wrap_round-IsLoaded = rw wrap_round_lem (record {
    buffer_size = length-xor_into crypted (t_bytes t) ∙ length-crypted;
    buffer_bytes = AllBytes-xor_into crypted (t_bytes t) AllBytes-crypted (AllBytes-be_bytes 8 _);
    row_count = length-set s.r (t % n) (drop 8 crypted) ∙ l.row_count;
    rows =
        All-set IsChunk s.r (t % n) (drop 8 crypted) l.rows
          (sym second_half ∙ row-IsChunk.0, All-drop IsByte 8 crypted AllBytes-crypted);
  })

  module _ (u : Registers) (a : Agrees u (wrap_round kek n t s)) where
    abbrev mask : Bytes
    mask = t_bytes t

    same_half : take 8 (xor_into u.buffer mask) ≡ take 8 crypted
    same_half =
        take-xor_into 8 u.buffer mask
        ∙ ap (λ x. xor_into x mask)
            (a.half ∙ ap (λ (x : Registers). take 8 x.buffer) wrap_round_lem)
        ∙ sym (take-xor_into 8 (xor_into crypted mask) mask)
        ∙ ap (take 8) (xor_into_cancel crypted mask AllBytes-crypted (AllBytes-be_bytes 8 _))

    rows_then : u.r ≡ set s.r (t % n) (drop 8 crypted)
    rows_then = a.same_rows ∙ ap (λ (x : Registers). x.r) wrap_round_lem

    row_then : get_or u.r (t % n) [] ≡ drop 8 crypted
    row_then = rw rows_then (get_or-set s.r (t % n) (drop 8 crypted) [] row_lt)

    deciphered : copy_at (xor_into u.buffer mask) 8 (get_or u.r (t % n) []) ≡ crypted
    deciphered =
        let size : length (drop 8 (xor_into u.buffer mask)) ≡ length (drop 8 crypted) = omega (
          arith,
          length-drop 8 (xor_into u.buffer mask),
          length-xor_into u.buffer mask,
          a.size,
          length-drop 8 crypted,
          length-crypted,
        ) in
        rw (same_half, row_then, copy_full (drop 8 (xor_into u.buffer mask)) (drop 8 crypted) size)
          (take-append-drop 8 crypted)

    drop-loaded : drop 8 loaded ≡ row
    drop-loaded =
        drop-append 8 (take 8 s.buffer) row (omega (arith, length-take 8 s.buffer, l.buffer_size))

    rows_now : set u.r (t % n) (copy (get_or u.r (t % n) []) (drop 8 loaded)) ≡ s.r
    rows_now =
        rw (row_then, drop-loaded, copy_full (drop 8 crypted) row (sym second_half), rows_then)
          (set-set_get s.r (t % n) (drop 8 crypted) [])

    -- The round of `Unwrap` leads back.
    pub unwrap_round-wrap_round : Agrees (unwrap_round kek n t u) s
    unfolding unwrap_round
    unwrap_round-wrap_round =
        rw (deciphered, laws.decrypt_encrypt loaded length-loaded AllBytes-loaded, rows_now)
          (record {
            half =
                take-append 8 (take 8 s.buffer) row
                  (omega (arith, length-take 8 s.buffer, l.buffer_size));
            same_rows = refl;
            size = length-loaded ∙ wide;
          })

-- All rounds.
module _ {kek : BlockCipher} (laws : IsBlockCipher kek) (wide : kek.block_size ≡ 16) {n : ℕ}
    (some_rows : 0 < n) where
  pub wrap_loop-IsLoaded : (t : ℕ) (s : Registers) → IsLoaded n s → IsLoaded n (wrap_loop kek n t s)
  unfolding wrap_loop
  wrap_loop-IsLoaded zero s l = l
  wrap_loop-IsLoaded (suc t) s l =
      wrap_round-IsLoaded laws wide some_rows t (wrap_loop kek n t s) (wrap_loop-IsLoaded t s l)

  pub unwrap_loop-wrap_loop :
      (t : ℕ) (s u : Registers)
      → IsLoaded n s
      → Agrees u (wrap_loop kek n t s)
      → Agrees (unwrap_loop kek n t u) s
  unfolding wrap_loop unwrap_loop
  unwrap_loop-wrap_loop zero s u l a = a
  unwrap_loop-wrap_loop (suc t) s u l a = unwrap_loop-wrap_loop t s (unwrap_round kek n t u) l (
      unwrap_round-wrap_round laws wide some_rows t (wrap_loop kek n t s) (wrap_loop-IsLoaded t s l)
        u a)
