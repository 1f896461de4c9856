-- ===== src/Jws/Reader/Tests.antt =====
-- Concrete reads of "a.b.c" and "a.b.c.d".
use jwx.Common.{◌≡◌, refl, none, some, [], ◌∷◌, ok, err}
use jwx.Common.Bytes.{Bytes}
use jwx.Jws.Verify.{split}
use jwx.Jws.Reader.{
  Reads, more, last, cut, keep, scan, read_loop, split_reads, split_compact_reader, wrong_segments,
  read_failed,
}
use jwx.Jws.Reader.Chunks.{contents}
use jwx.Jws.Reader.Whole.{three_segments, split_compact_reader-split, readers_agree}

-- In two reads, the second with an `io.EOF`.
abbrev in_two : Reads
in_two = more (b'a' ∷ b'.' ∷ b'b' ∷ []) (last (b'.' ∷ b'c' ∷ []))

two_run : split_compact_reader none in_two ≡ ok (b'a' ∷ [], b'b' ∷ [], b'c' ∷ [])
unfolding split_compact_reader split_reads read_loop scan cut keep
two_run = refl

split_compact_reader-split_example :
    split_compact_reader none in_two
    ≡ elim (contents in_two) [ none ↦ err read_failed | some bs ↦ three_segments (split bs) ]
split_compact_reader-split_example = split_compact_reader-split in_two

abbrev four : Bytes
four = b'a' ∷ b'.' ∷ b'b' ∷ b'.' ∷ b'c' ∷ b'.' ∷ b'd' ∷ []

four_segments : split four ≡ (b'a' ∷ []) ∷ (b'b' ∷ []) ∷ (b'c' ∷ []) ∷ (b'd' ∷ []) ∷ []
unfolding split
four_segments = refl

readers_agree_example :
    (split_compact_reader (some four) (last four) ≡ ok (b'a' ∷ [], b'b' ∷ [], b'c' ∷ []))
    × (split_compact_reader none (last four) ≡ err wrong_segments)
readers_agree_example =
    readers_agree four (last four) (b'a' ∷ []) (b'b' ∷ []) (b'c' ∷ []) ((b'd' ∷ []) ∷ [])
      (unfold contents in refl) four_segments
