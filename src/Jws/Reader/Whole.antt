-- ===== src/Jws/Reader/Whole.antt =====
-- `SplitCompactReader` of jws/jws.go against the segments of all the bytes, and against `SplitCompact`.
use mathlib.Core.List.{append_assoc, append-nil}
use jwx.Common.{
  ℕ, suc, ◌+◌, ◌≡◌, refl, sym, ap, ◌∙◌, true, false, none, some, List, [], ◌∷◌, ◌++◌, Outcome, ok,
  err, arith, length, ◌==◌, Bool-cases, Option-cases, inl, inr,
}
use jwx.Common.Bytes.{Bytes}
use jwx.Jws.Verify.{split, split_compact}
use jwx.Jws.Reader.{
  Reads, ReadError, Scan, keep, at_dot, start, result, split_reads, split_compact_reader,
  read_failed, wrong_segments,
}
use jwx.Jws.Reader.Chunks.{feed, feed_dot, feed_other, close, contents, read_loop-feed}

-- The segments taken one by one; the first goes behind what is in `sofar`.
abbrev absorb : Scan → List Bytes → Scan
absorb s [] = s
absorb s (seg ∷ []) = close true (record s { sofar = s.sofar ++ seg })
absorb s (seg ∷ next ∷ segs) = absorb (at_dot s (s.sofar ++ seg) []) (next ∷ segs)

abbrev IsCons : List Bytes → Type 0
IsCons segs = (seg : Bytes) × (rest : List Bytes) × (segs ≡ seg ∷ rest)

split-IsCons : (bs : Bytes) → IsCons (split bs)
unfolding split
split-IsCons [] = ([], [], refl)
split-IsCons (b ∷ bs) = elim (Bool-cases (b == b'.')) [
  | inl dot ↦ ([], split bs, rw dot refl)
  | inr other ↦ let (seg, rest, e) = split-IsCons bs in (b ∷ seg, rest, rw (other, e) refl)
]

split_dot : (b : ℕ) (bs : Bytes) → b == b'.' ≡ true → split (b ∷ bs) ≡ [] ∷ split bs
unfolding split
split_dot b bs dot = rw dot refl

split_other :
    (b : ℕ) (bs seg : Bytes) (rest : List Bytes)
    → b == b'.' ≡ false
    → split bs ≡ seg ∷ rest
    → split (b ∷ bs) ≡ (b ∷ seg) ∷ rest
unfolding split
split_other b bs seg rest other e = rw (other, e) refl

absorb_next :
    (s : Scan) (seg : Bytes) (segs : List Bytes)
    → IsCons segs
    → absorb s (seg ∷ segs) ≡ absorb (at_dot s (s.sofar ++ seg) []) segs
absorb_next s seg segs (next, rest, e) = rw e refl

-- A byte of the first segment may as well be in `sofar`.
absorb_shift :
    (s : Scan) (b : ℕ) (seg : Bytes) (rest : List Bytes)
    → absorb s ((b ∷ seg) ∷ rest) ≡ absorb (record s { sofar = s.sofar ++ b ∷ [] }) (seg ∷ rest)
unfolding keep
absorb_shift s b seg [] =
    ap (λ q. close true (record s { sofar = q })) (sym (append_assoc s.sofar (b ∷ []) seg))
absorb_shift s b seg (next ∷ rest) =
    ap (λ q. absorb (at_dot s q []) (next ∷ rest)) (sym (append_assoc s.sofar (b ∷ []) seg))

feed-split : (c : Bytes) (s : Scan) → close true (feed s c) ≡ absorb s (split c)
feed-split [] s =
    unfold feed split in ap (λ q. close true (record s { sofar = q })) (sym (append-nil s.sofar))
feed-split (b ∷ bs) s = elim (Bool-cases (b == b'.')) [
  | inl dot ↦
      ap (close true) (feed_dot s b bs dot)
      ∙ feed-split bs (at_dot s s.sofar [])
      ∙ ap (λ q. absorb (at_dot s q []) (split bs)) (sym (append-nil s.sofar))
      ∙ sym (absorb_next s [] (split bs) (split-IsCons bs))
      ∙ ap (absorb s) (sym (split_dot b bs dot))
  | inr other ↦
      let (seg, rest, e) = split-IsCons bs in
      ap (close true) (feed_other s b bs other)
      ∙ feed-split bs (record s { sofar = s.sofar ++ b ∷ [] })
      ∙ ap (absorb (record s { sofar = s.sofar ++ b ∷ [] })) e
      ∙ sym (absorb_shift s b seg rest)
      ∙ ap (absorb s) (sym (split_other b bs seg rest other e))
]

absorb-periods :
    (s : Scan) (seg : Bytes) (rest : List Bytes)
    → (absorb s (seg ∷ rest)).periods ≡ s.periods + length rest
unfolding keep
absorb-periods s seg [] = omega arith
absorb-periods s seg (next ∷ rest) =
    absorb-periods (at_dot s (s.sofar ++ seg) []) next rest ∙ omega arith

-- Exactly three segments, or an error.
abbrev pub three_segments : List Bytes → Outcome ReadError (Bytes × Bytes × Bytes)
three_segments (header ∷ payload ∷ signature ∷ []) = ok (header, payload, signature)
three_segments _ = err wrong_segments

many_periods : (s : Scan) (n : ℕ) → s.periods ≡ suc (suc (suc n)) → result s ≡ err wrong_segments
many_periods s n e = ground (arith, e)

result-absorb : (segs : List Bytes) → IsCons segs → result (absorb start segs) ≡ three_segments segs
unfolding keep
result-absorb [] (seg, rest, e) = cc
result-absorb (a ∷ []) c = refl
result-absorb (a ∷ b ∷ []) c = refl
result-absorb (a ∷ b ∷ d ∷ []) c = refl
result-absorb (a ∷ b ∷ d ∷ x ∷ segs) c =
    many_periods (absorb start (a ∷ b ∷ d ∷ x ∷ segs)) (length segs)
      (absorb-periods start a (b ∷ d ∷ x ∷ segs) ∙ omega arith)

-- Where `readAll` does not know the reader, `SplitCompactReader` returns the three segments between the dots
-- of all the bytes, or an error if there are not exactly three, however the bytes are divided into reads;
-- and it fails if a read does.
pub split_compact_reader-split :
    (reads : Reads)
    → split_compact_reader none reads
      ≡ elim (contents reads) [ none ↦ err read_failed | some bs ↦ three_segments (split bs) ]
unfolding split_compact_reader split_reads
split_compact_reader-split reads = elim (Option-cases (contents reads)) [
  | inl nothing ↦ rw (read_loop-feed reads start tt, nothing) refl
  | inr (bs, found) ↦
      rw (read_loop-feed reads start tt, found)
        (ap result (feed-split bs start) ∙ result-absorb (split bs) (split-IsCons bs))
]

-- With the same bytes, the two ways of reading give the same parts, unless there are more than three
-- segments: those are refused in the loop, and dropped by `SplitCompact`, which reads what `readAll` finds.
pub readers_agree :
    (bs : Bytes) (reads : Reads) (header payload signature : Bytes) (more_segments : List Bytes)
    → contents reads ≡ some bs
    → split bs ≡ header ∷ payload ∷ signature ∷ more_segments
    → (split_compact_reader (some bs) reads ≡ ok (header, payload, signature))
      × (split_compact_reader none reads ≡ elim more_segments [
        | [] ↦ ok (header, payload, signature)
        | _ ∷ _ ↦ err wrong_segments
      ])
unfolding split_compact_reader split_compact
readers_agree bs reads header payload signature [] found segs = (
  rw (segs, split_compact_reader, split_compact) refl,
  split_compact_reader-split reads ∙ rw (found, segs) refl,
)
readers_agree bs reads header payload signature (x ∷ xs) found segs = (
  rw (segs, split_compact_reader, split_compact) refl,
  split_compact_reader-split reads ∙ rw (found, segs) refl,
)
