-- ===== src/Jws/Reader.antt =====
-- jws/jws.go: `SplitCompactReader`, on what the calls of `Read` return.
pub mod Chunks
pub mod Whole
mod Tests
use jwx.Common.{
  ℕ, zero, suc, ◌+◌, Bool, true, false, Option, none, some, List, [], ◌∷◌, ◌++◌, Outcome, ok, err,
  panic, ◌>>=◌, ◌==◌, length, if◌then◌else◌,
}
use jwx.Common.Bytes.{Bytes}
use jwx.Jws.Verify.{split_compact, invalid_segments}
use jwx.Jws.Verify as Jws

-- The results of `rdr.Read`, up to an `io.EOF`, which may come with bytes, or another error.
pub data Reads : Type 0 where
  more : Bytes → Reads → Reads
  last : Bytes → Reads
  broken : Reads

pub data ReadError : Type 0 where
  read_failed wrong_segments : ReadError
  split_failed : Jws.Error → ReadError

-- The variables of the loop.
pub record Scan : Type 0 where
  pub protected : Bytes
  pub payload : Bytes
  pub signature : Bytes
  pub sofar : Bytes
  pub periods : ℕ
  pub state : ℕ

-- What stands before the first dot, and behind it: `sofar[:i]` and `sofar[i+1:]`.
unfoldable pub cut : Bytes → Option (Bytes × Bytes)
cut [] = none
cut (b ∷ bs) =
    let rest = cut bs in
    if b == b'.' then some ([], bs) else elim rest [ none ↦ none | some (u, v) ↦ some (b ∷ u, v) ]

-- `switch state`, field by field.
unfoldable pub keep : Scan → Bytes → Scan
keep s seg = record s {
  protected = if s.state == 0 then seg else s.protected;
  payload = if s.state == 1 then seg else s.payload;
  signature = if s.state == 2 then seg else s.signature;
  state = if s.state == 0 then 1 else if s.state == 1 then 2 else s.state;
}

-- A dot was found: one more period, and the segment before it is kept.
abbrev pub at_dot : Scan → Bytes → Bytes → Scan
at_dot s seg rest = record (keep (record s { periods = s.periods + 1 }) seg) { sofar = rest }

-- The loop over `sofar`, with the rounds left; `eof` is `err == io.EOF`.
unfoldable pub scan : ℕ → Bool → Scan → Scan
unfolding cut keep
scan zero eof s = s
scan (suc rounds) eof s = elim (cut s.sofar) [
  | none ↦ if eof then keep s s.sofar else s
  | some (seg, rest) ↦ scan rounds eof (at_dot s seg rest)
]

-- One round more than there are bytes.
abbrev pub take_in : Bool → Scan → Bytes → Scan
take_in eof s bs = scan (suc (length (s.sofar ++ bs))) eof (record s { sofar = s.sofar ++ bs })

unfoldable pub read_loop : Scan → Reads → Outcome ReadError Scan
unfolding scan
read_loop s broken = err read_failed
read_loop s (more bs reads) = read_loop (take_in false s bs) reads
read_loop s (last bs) = ok (take_in true s bs)

abbrev pub start : Scan
start = record { protected = []; payload = []; signature = []; sofar = []; periods = 0; state = 0 }

abbrev pub result : Scan → Outcome ReadError (Bytes × Bytes × Bytes)
result s = if s.periods == 2 then ok (s.protected, s.payload, s.signature) else err wrong_segments

unfoldable pub split_reads : Reads → Outcome ReadError (Bytes × Bytes × Bytes)
unfolding read_loop
split_reads reads = read_loop start reads >>= λ s. result s

-- `whole` is what `readAll` finds: all of the bytes, for the readers that it knows.
unfoldable pub split_compact_reader :
    Option Bytes → Reads → Outcome ReadError (Bytes × Bytes × Bytes)
unfolding split_reads split_compact
split_compact_reader none reads = split_reads reads
split_compact_reader (some data_read) reads = elim (split_compact data_read) [
  | panic ↦ panic
  | err e ↦ err (split_failed e)
  | ok parts ↦ ok parts
]
