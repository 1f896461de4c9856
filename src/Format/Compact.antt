-- ===== src/Format/Compact.antt =====
-- What `GuessFormat` of format.go makes of the compact serializations.
use mathlib.Core.List.{reverse, reverse-cons, reverse-append, reverse-reverse, append-nil}
use jwx.Common.{
  ℕ, suc, ◌≤◌, ◌<◌, ◌≡◌, ◌≢◌, refl, sym, ap, ◌∙◌, Option, List, [], ◌∷◌, ◌++◌, arith, ◌==◌,
  if◌then◌else◌, length, get_or, All, All-append, true,
}
use jwx.Common.Bytes.{Bytes}
use jwx.Format.{
  FormatHint, jws, jwe, invalid_format, space_1, front_space, back_space, trim_front, trim_space,
  count, compact_kind, guess_format,
}

-- A printable ASCII character that is no dot and no brace, as those of base64.
abbrev pub IsSegmentChar : ℕ → Type 0
IsSegmentChar b = (33 ≤ b) × (b < 127) × (b ≢ b'.') × (b ≢ b'{')

abbrev pub IsSegment : Bytes → Type 0
IsSegment = All IsSegmentChar

-- An ASCII white space character.
abbrev pub IsBlank : ℕ → Type 0
IsBlank b = space_1 b ≡ true

abbrev IsVisible : ℕ → Type 0
IsVisible b = (33 ≤ b) × (b < 127)

-- The segments with a dot between each two.
unfoldable pub join : Bytes → List Bytes → Bytes
join seg [] = seg
join seg (next ∷ segs) = seg ++ b'.' ∷ join next segs

All-reverse : (P : ℕ → Type 0) (xs : Bytes) → All P xs → All P (reverse xs)
All-reverse P [] h = tt
All-reverse P (x ∷ xs) h =
    rw (reverse-cons x xs) (All-append P (reverse xs) (x ∷ []) (All-reverse P xs (h.1)) (h.0, tt))

trim_front-blank :
    (ws xs : Bytes)
    → All IsBlank ws
    → trim_front front_space 0 (ws ++ xs) ≡ trim_front front_space 0 xs
unfolding trim_front
trim_front-blank [] xs h = refl
trim_front-blank (w ∷ ws) xs h = rw (h.0) (trim_front-blank ws xs (h.1))

trim_back-blank :
    (ws xs : Bytes)
    → All IsBlank ws
    → trim_front back_space 0 (ws ++ xs) ≡ trim_front back_space 0 xs
unfolding trim_front
trim_back-blank [] xs h = refl
trim_back-blank (w ∷ ws) xs h = rw (h.0) (trim_back-blank ws xs (h.1))

trim_front_visible : (b : ℕ) (bs : Bytes) → IsVisible b → trim_front front_space 0 (b ∷ bs) ≡ b ∷ bs
unfolding trim_front
trim_front_visible b bs h = ground arith

trim_back_visible : (bs : Bytes) → All IsVisible bs → trim_front back_space 0 bs ≡ bs
unfolding trim_front
trim_back_visible [] h = refl
trim_back_visible (b ∷ bs) h = ground arith

trim_space_lem :
    (front back : Bytes) (b : ℕ) (bs : Bytes)
    → All IsBlank front
    → All IsBlank back
    → All IsVisible (b ∷ bs)
    → trim_space (front ++ ((b ∷ bs) ++ back)) ≡ b ∷ bs
unfolding trim_space
trim_space_lem front back b bs f k v =
    ap (λ x. reverse (trim_front back_space 0 (reverse x)))
      (trim_front-blank front (b ∷ (bs ++ back)) f ∙ trim_front_visible b (bs ++ back) (v.0))
    ∙ ap (λ x. reverse (trim_front back_space 0 x)) (reverse-append (b ∷ bs) back)
    ∙ ap reverse (
        trim_back-blank (reverse back) (reverse (b ∷ bs)) (All-reverse IsBlank back k)
        ∙ trim_back_visible (reverse (b ∷ bs)) (All-reverse IsVisible (b ∷ bs) v))
    ∙ reverse-reverse (b ∷ bs)

count-segment : (xs ys : Bytes) → IsSegment xs → count b'.' (xs ++ ys) ≡ count b'.' ys
unfolding count
count-segment [] ys h = refl
count-segment (x ∷ xs) ys h = ground (arith, count-segment xs ys (h.1))

count-join :
    (seg : Bytes) (segs : List Bytes)
    → All IsSegment (seg ∷ segs)
    → count b'.' (join seg segs) ≡ length segs
unfolding count join
count-join seg [] h = ap (count b'.') (sym (append-nil seg)) ∙ count-segment seg [] (h.0)
count-join seg (next ∷ segs) h =
    count-segment seg (b'.' ∷ join next segs) (h.0) ∙ ap suc (count-join next segs (h.1))

visible : (xs : Bytes) → IsSegment xs → All IsVisible xs
visible [] h = tt
visible (x ∷ xs) h = ((h.0.0, h.0.1), visible xs (h.1))

join-IsVisible :
    (seg : Bytes) (segs : List Bytes) → All IsSegment (seg ∷ segs) → All IsVisible (join seg segs)
unfolding join
join-IsVisible seg [] h = visible seg (h.0)
join-IsVisible seg (next ∷ segs) h =
    All-append IsVisible seg (b'.' ∷ join next segs) (visible seg (h.0))
      ((omega arith, omega arith), join-IsVisible next segs (h.1))

-- The first byte of a compact serialization is no brace.
first_plain :
    (seg : Bytes) (segs : List Bytes)
    → All IsSegment (seg ∷ segs)
    → get_or (join seg segs) 0 0 ≢ b'{'
unfolding join
first_plain [] [] h = λ e. absurd (omega arith)
first_plain (x ∷ xs) [] h = h.0.0.3
first_plain [] (next ∷ segs) h = λ e. absurd (omega arith)
first_plain (x ∷ xs) (next ∷ segs) h = h.0.0.3

guess_trimmed :
    (read_hint : Bytes → Option FormatHint) (input : Bytes) (b : ℕ) (bs : Bytes)
    → trim_space input ≡ b ∷ bs
    → b ≢ b'{'
    → guess_format read_hint input ≡ compact_kind (count b'.' (b ∷ bs))
unfolding guess_format
guess_trimmed read_hint input b bs t p = rw (t) (ground (arith, p))

guess_spaced :
    (read_hint : Bytes → Option FormatHint) (front back bs : Bytes)
    → All IsBlank front
    → All IsBlank back
    → All IsVisible bs
    → 0 < length bs
    → get_or bs 0 0 ≢ b'{'
    → guess_format read_hint (front ++ (bs ++ back)) ≡ compact_kind (count b'.' bs)
guess_spaced read_hint front back [] f k v pos p = absurd (omega arith)
guess_spaced read_hint front back (b ∷ bs) f k v pos p =
    guess_trimmed read_hint (front ++ ((b ∷ bs) ++ back)) b bs
      (trim_space_lem front back b bs f k v) p

-- `GuessFormat` of at least one segment, joined by dots and with any white space around them,
-- depends on the number of the segments alone: a JWS for 3, a JWE for 5, and otherwise invalid.
pub guess_format-join :
    (read_hint : Bytes → Option FormatHint) (front back seg : Bytes) (segs : List Bytes)
    → All IsBlank front
    → All IsBlank back
    → All IsSegment (seg ∷ segs)
    → 0 < length (join seg segs)
    → guess_format read_hint (front ++ (join seg segs ++ back))
      ≡ (if length segs == 2 then jws else if length segs == 4 then jwe else invalid_format)
guess_format-join read_hint front back seg segs f k s pos =
    guess_spaced read_hint front back (join seg segs) f k (join-IsVisible seg segs s) pos
      (first_plain seg segs s)
    ∙ ap compact_kind (count-join seg segs s)
