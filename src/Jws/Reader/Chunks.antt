-- ===== src/Jws/Reader/Chunks.antt =====
-- The loop of `SplitCompactReader` does not depend on how the bytes come in.
use mathlib.Core.List.{append_assoc, append-nil}
use jwx.Common.{
  ℕ, zero, suc, ◌<◌, ◌≡◌, refl, sym, ap, ◌∙◌, Bool, true, false, Option, none, some, [], ◌∷◌, ◌++◌,
  ok, err, arith, length, length-append, ◌==◌, if◌then◌else◌, Bool-cases, Option-cases, inl, inr,
}
use jwx.Common.Bytes.{Bytes}
use jwx.Jws.Reader.{
  Reads, more, last, broken, Scan, cut, keep, at_dot, scan, take_in, read_loop, read_failed,
}

-- The bytes taken one by one.
unfoldable pub feed : Scan → Bytes → Scan
feed s [] = s
feed s (b ∷ bs) = elim (b == b'.') [
  | true ↦ feed (at_dot s s.sofar []) bs
  | false ↦ feed (record s { sofar = s.sofar ++ b ∷ [] }) bs
]

-- What happens to the rest when the loop ends.
abbrev pub close : Bool → Scan → Scan
close eof s = if eof then keep s s.sofar else s

abbrev NoDot : Bytes → Type 0
NoDot [] = Unit
NoDot (b ∷ bs) = (b == b'.' ≡ false) × NoDot bs

cut-NoDot : (p : Bytes) → NoDot p → cut p ≡ none
unfolding cut
cut-NoDot [] n = refl
cut-NoDot (b ∷ p) n = rw (n.0, cut-NoDot p (n.1)) refl

cut_at_dot : (p bs : Bytes) (b : ℕ) → NoDot p → b == b'.' ≡ true → cut (p ++ b ∷ bs) ≡ some (p, bs)
unfolding cut
cut_at_dot [] bs b n dot = rw dot refl
cut_at_dot (x ∷ p) bs b n dot = rw (n.0, cut_at_dot p bs b (n.1) dot) refl

NoDot-append : (p : Bytes) (b : ℕ) → NoDot p → b == b'.' ≡ false → NoDot (p ++ b ∷ [])
NoDot-append [] b n other = (other, tt)
NoDot-append (x ∷ p) b n other = (n.0, NoDot-append p b (n.1) other)

append_one : (p bs : Bytes) (b : ℕ) → p ++ b ∷ bs ≡ (p ++ b ∷ []) ++ bs
append_one p bs b = sym (append_assoc p (b ∷ []) bs)

scan_end :
    (rounds : ℕ) (eof : Bool) (s : Scan) (q : Bytes)
    → cut q ≡ none
    → scan (suc rounds) eof (record s { sofar = q }) ≡ close eof (record s { sofar = q })
unfolding scan
scan_end rounds eof s q e = rw (e, scan) refl

pub feed_dot :
    (s : Scan) (b : ℕ) (bs : Bytes)
    → b == b'.' ≡ true
    → feed s (b ∷ bs) ≡ feed (at_dot s s.sofar []) bs
unfolding feed
feed_dot s b bs dot = rw (dot, feed) refl

pub feed_other :
    (s : Scan) (b : ℕ) (bs : Bytes)
    → b == b'.' ≡ false
    → feed s (b ∷ bs) ≡ feed (record s { sofar = s.sofar ++ b ∷ [] }) bs
unfolding feed
feed_other s b bs other = rw (other, feed) refl

scan_dot :
    (rounds : ℕ) (eof : Bool) (s : Scan) (seg rest q : Bytes)
    → cut q ≡ some (seg, rest)
    → scan (suc rounds) eof (record s { sofar = q })
      ≡ scan rounds eof (at_dot (record s { sofar = q }) seg rest)
unfolding scan
scan_dot rounds eof s seg rest q e = rw (e, scan) refl

scan_lem :
    (c p : Bytes) (rounds : ℕ) (eof : Bool) (s : Scan)
    → NoDot p
    → length (p ++ c) < rounds
    → scan rounds eof (record s { sofar = p ++ c }) ≡ close eof (feed (record s { sofar = p }) c)
unfolding scan feed keep
scan_lem c p zero eof s n enough = absurd (omega arith)
scan_lem [] p (suc rounds) eof s n enough =
    scan_end rounds eof s (p ++ []) (ap cut (append-nil p) ∙ cut-NoDot p n)
    ∙ ap (λ q. close eof (record s { sofar = q })) (append-nil p)
scan_lem (b ∷ bs) p (suc rounds) eof s n enough = elim (Bool-cases (b == b'.')) [
  | inl dot ↦
      scan_dot rounds eof s p bs (p ++ b ∷ bs) (cut_at_dot p bs b n dot)
      ∙ scan_lem bs [] rounds eof (at_dot (record s { sofar = p }) p []) tt
          (omega (arith, length-append p (b ∷ bs)))
      ∙ ap (close eof) (sym (feed_dot (record s { sofar = p }) b bs dot))
  | inr other ↦
      ap (λ q. scan (suc rounds) eof (record s { sofar = q })) (append_one p bs b)
      ∙ scan_lem bs (p ++ b ∷ []) (suc rounds) eof s (NoDot-append p b n other) (
          omega (
            arith,
            length-append p (b ∷ bs),
            length-append (p ++ b ∷ []) bs,
            length-append p (b ∷ []),
          ))
      ∙ ap (close eof) (sym (feed_other (record s { sofar = p }) b bs other))
]

feed-NoDot : (c : Bytes) (s : Scan) → NoDot s.sofar → NoDot ((feed s c).sofar)
feed-NoDot [] s n = unfold feed in n
feed-NoDot (b ∷ bs) s n = elim (Bool-cases (b == b'.')) [
  | inl dot ↦
      let step : feed s (b ∷ bs) ≡ feed (at_dot s s.sofar []) bs = feed_dot s b bs dot in
      rw step (feed-NoDot bs (at_dot s s.sofar []) tt)
  | inr other ↦
      let step : feed s (b ∷ bs) ≡ feed (record s { sofar = s.sofar ++ b ∷ [] }) bs =
        feed_other s b bs other in
      rw step
        (feed-NoDot bs (record s { sofar = s.sofar ++ b ∷ [] }) (NoDot-append s.sofar b n other))
]

feed-append : (c d : Bytes) (s : Scan) → feed s (c ++ d) ≡ feed (feed s c) d
feed-append [] d s = unfold feed in refl
feed-append (b ∷ c) d s = elim (Bool-cases (b == b'.')) [
  | inl dot ↦
      feed_dot s b (c ++ d) dot
      ∙ feed-append c d (at_dot s s.sofar [])
      ∙ ap (λ x. feed x d) (sym (feed_dot s b c dot))
  | inr other ↦
      feed_other s b (c ++ d) other
      ∙ feed-append c d (record s { sofar = s.sofar ++ b ∷ [] })
      ∙ ap (λ x. feed x d) (sym (feed_other s b c other))
]

-- One read.
take_in_lem :
    (eof : Bool) (s : Scan) (bs : Bytes) → NoDot s.sofar → take_in eof s bs ≡ close eof (feed s bs)
take_in_lem eof s bs n = scan_lem bs s.sofar (suc (length (s.sofar ++ bs))) eof s n (omega arith)

-- All bytes of the calls that ended in an `io.EOF`.
unfoldable pub contents : Reads → Option Bytes
contents broken = none
contents (last bs) = some bs
contents (more bs reads) = elim (contents reads) [ none ↦ none | some rest ↦ some (bs ++ rest) ]

-- The loop does with any division of the bytes into reads what it does with them one by one, and fails
-- exactly if a read does.
pub read_loop-feed :
    (reads : Reads) (s : Scan)
    → NoDot s.sofar
    → read_loop s reads
      ≡ elim (contents reads) [ none ↦ err read_failed | some bs ↦ ok (close true (feed s bs)) ]
unfolding read_loop contents
read_loop-feed broken s n = refl
read_loop-feed (last bs) s n = ap ok (take_in_lem true s bs n)
read_loop-feed (more bs reads) s n =
    ap (λ x. read_loop x reads) (take_in_lem false s bs n)
    ∙ read_loop-feed reads (feed s bs) (feed-NoDot bs s n)
    ∙ elim (Option-cases (contents reads)) [
      | inl nothing ↦ rw nothing refl
      | inr (rest, found) ↦ rw found (ap (λ x. ok (close true x)) (sym (feed-append bs rest s)))
    ]
