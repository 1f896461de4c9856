-- ===== src/Jws/Verify/Segments.antt =====
-- `SplitCompact` of jws/jws.go on segments, and `parseCompact` on what a compact message is made of.
use jwx.Common.{
  ◌≡◌, ◌≢◌, refl, ap, ◌∙◌, true, false, some, List, [], ◌∷◌, ◌++◌, ok, err, arith, All, ltb, length,
}
use jwx.Common.Bytes.{Bytes}
use jwx.Format.Compact.{join}
use jwx.Jws.Verify.{
  Codec, invalid_segments, split, split_compact, get_b64_value, parse_segments, parse_compact,
}

-- A segment has no dot.
abbrev pub Dotless : Bytes → Type 0
Dotless = All (λ b. b ≢ b'.')

split-Dotless : (seg : Bytes) → Dotless seg → split seg ≡ seg ∷ []
unfolding split
split-Dotless [] h = refl
split-Dotless (b ∷ bs) h = rw (split-Dotless bs (h.1)) (ground (arith, h.0))

split-segment : (seg rest : Bytes) → Dotless seg → split (seg ++ b'.' ∷ rest) ≡ seg ∷ split rest
unfolding split
split-segment [] rest h = refl
split-segment (b ∷ bs) rest h = rw (split-segment bs rest (h.1)) (ground (arith, h.0))

split-join :
    (seg : Bytes) (segs : List Bytes)
    → All Dotless (seg ∷ segs)
    → split (join seg segs) ≡ seg ∷ segs
unfolding join
split-join seg [] h = split-Dotless seg (h.0)
split-join seg (next ∷ segs) h =
    split-segment seg (join next segs) (h.0) ∙ ap (λ x. seg ∷ x) (split-join next segs (h.1))

-- `SplitCompact` of dotless segments, joined by dots, returns the first three, and whatever follows
-- them is dropped; with fewer than three it is an error.
pub split_compact-join :
    (seg : Bytes) (segs : List Bytes)
    → All Dotless (seg ∷ segs)
    → ((payload signature : Bytes) (more : List Bytes)
        → segs ≡ payload ∷ signature ∷ more
        → split_compact (join seg segs) ≡ ok (seg, payload, signature))
      × (ltb (length segs) 2 ≡ true → split_compact (join seg segs) ≡ err invalid_segments)
unfolding split_compact
split_compact-join seg [] h =
    rw (split-join seg [] h, split_compact) ((λ p s more e. cc), λ few. refl)
split_compact-join seg (a ∷ []) h =
    rw (split-join seg (a ∷ []) h, split_compact) ((λ p s more e. cc), λ few. refl)
split_compact-join seg (a ∷ b ∷ segs) h =
    rw (split-join seg (a ∷ b ∷ segs) h, split_compact)
      ((λ p s more e. cc), λ few. absurd (ground arith))

module _ {H A K : Type 0} (codec : Codec H A K) where
  -- For a base64 coder that decodes what it encodes, and encodes without dots: `parseCompact` of a
  -- header, a payload and a signature, encoded and joined by dots, is the message of these, if the
  -- header asks for base64. Where it does not, a payload without dots is taken as it is.
  pub parse_compact-join :
      (raw payload signature : Bytes) (hdr : H)
      → ((bs : Bytes) → codec.decode (codec.encode bs) ≡ some bs)
      → ((bs : Bytes) → Dotless (codec.encode bs))
      → codec.unmarshal_header raw ≡ some hdr
      → ((get_b64_value codec hdr ≡ true)
          → parse_compact codec
              (join (codec.encode raw) (codec.encode payload ∷ codec.encode signature ∷ []))
            ≡ ok (record {
              payload = payload;
              signatures = record { protected = hdr; signature = signature } ∷ [];
              b64 = true;
            }))
        × (Dotless payload
            → get_b64_value codec hdr ≡ false
            → parse_compact codec (join (codec.encode raw) (payload ∷ codec.encode signature ∷ []))
              ≡ ok (record {
                payload = payload;
                signatures = record { protected = hdr; signature = signature } ∷ [];
                b64 = false;
              }))
  unfolding parse_compact parse_segments
  parse_compact-join raw payload signature hdr decodes dotless header = (
    (λ b64.
        rw
          (
            (split_compact-join (codec.encode raw)
                  (codec.encode payload ∷ codec.encode signature ∷ [])
                  (dotless raw, (dotless payload, (dotless signature, tt)))).0
                (codec.encode payload) (codec.encode signature) [] refl,
            decodes raw,
            header,
            b64,
            decodes payload,
            decodes signature,
          )
          refl),
    (λ plain b64.
        rw
          (
            (split_compact-join (codec.encode raw) (payload ∷ codec.encode signature ∷ [])
                  (dotless raw, (plain, (dotless signature, tt)))).0
                payload (codec.encode signature) [] refl,
            decodes raw,
            header,
            b64,
            decodes signature,
          )
          refl),
  )
