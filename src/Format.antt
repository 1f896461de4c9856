-- ===== src/Format.antt =====
-- format.go: `GuessFormat`, with `bytes.TrimSpace` and `bytes.Count` as they are used there.
pub mod Compact
pub mod Hints
mod Tests
use jwx.Common.{
  ℕ, zero, suc, ◌+◌, ◌-◌, Bool, true, false, ◌&&◌, ◌||◌, Option, none, some, List, [], ◌∷◌, ◌==◌,
  ltb, leb, if◌then◌else◌, length, drop, get_or,
}
use mathlib.Core.List.{reverse}
use jwx.Common.Bytes.{Bytes}

pub data FormatKind : Type 0 where
  invalid_format unknown_format jwe jws jwk jwks jwt : FormatKind

-- A field is `none` while the Go field is nil; its bytes are never read.
pub record FormatHint : Type 0 where
  pub payload : Option Bytes
  pub signatures : Option Bytes
  pub ciphertext : Option Bytes
  pub key_type : Option Bytes
  pub keys : Option Bytes
  pub audience : Option Bytes

-- The white space of `unicode.IsSpace`, in UTF-8: one, two or three bytes.
abbrev pub space_1 : ℕ → Bool
space_1 a = (leb 9 a && leb a 13) || a == 32

abbrev pub space_2 : ℕ → ℕ → Bool
space_2 a b = a == 0xC2 && (b == 0x85 || b == 0xA0)

abbrev pub space_3 : ℕ → ℕ → ℕ → Bool
space_3 a b c =
    (a == 0xE1 && b == 0x9A && c == 0x80)
    || (a == 0xE2 && b == 0x80 && (leb 0x80 c && leb c 0x8A || c == 0xA8 || c == 0xA9 || c == 0xAF))
    || (a == 0xE2 && b == 0x81 && c == 0x9F)
    || (a == 0xE3 && b == 0x80 && c == 0x80)

-- The length of the white space character at the front, and at the end of the reversed bytes.
abbrev pub front_space : Bytes → ℕ
front_space bs =
    if space_1 (get_or bs 0 0)
    then 1
    else if space_2 (get_or bs 0 0) (get_or bs 1 0)
    then 2
    else if space_3 (get_or bs 0 0) (get_or bs 1 0) (get_or bs 2 0)
    then 3
    else 0

abbrev pub back_space : Bytes → ℕ
back_space bs =
    if space_1 (get_or bs 0 0)
    then 1
    else if space_2 (get_or bs 1 0) (get_or bs 0 0)
    then 2
    else if space_3 (get_or bs 2 0) (get_or bs 1 0) (get_or bs 0 0)
    then 3
    else 0

-- `skip` bytes of the character that was seen last are still to be dropped.
unfoldable pub trim_front : (Bytes → ℕ) → ℕ → Bytes → Bytes
trim_front space skip [] = []
trim_front space (suc skip) (b ∷ bs) = trim_front space skip bs
trim_front space zero (b ∷ bs) =
    let rest = trim_front space (space (b ∷ bs) - 1) bs in
    if space (b ∷ bs) == 0 then b ∷ bs else rest

-- `bytes.TrimSpace`
unfoldable pub trim_space : Bytes → Bytes
trim_space bs = reverse (trim_front back_space 0 (reverse (trim_front front_space 0 bs)))

-- `bytes.Count` of one byte.
unfoldable pub count : ℕ → Bytes → ℕ
count sep [] = 0
count sep (b ∷ bs) = if b == sep then suc (count sep bs) else count sep bs

-- `switch count := bytes.Count(payload, sep)`
abbrev pub compact_kind : ℕ → FormatKind
compact_kind dots = if dots == 2 then jws else if dots == 4 then jwe else invalid_format

abbrev pub has : Option Bytes → Bool
has none = false
has (some raw) = true

-- The tests on the hints, in the order of the code.
unfoldable pub hinted_kind : FormatHint → FormatKind
hinted_kind h =
    if has h.audience
    then jwt
    else if has h.key_type
    then jwk
    else if has h.keys
    then jwks
    else if has h.ciphertext
    then jwe
    else if has h.signatures && has h.payload
    then jws
    else unknown_format

-- `read_hint` is `json.Unmarshal` into a `formatHint`; `none` is its error.
module _ (read_hint : Bytes → Option FormatHint) where
  unfoldable pub guess_format : Bytes → FormatKind
  guess_format bs =
      let payload = trim_space bs in
      if length payload == 0
      then unknown_format
      else if get_or payload 0 0 == b'{'
      then elim (read_hint payload) [ none ↦ unknown_format | some h ↦ hinted_kind h ]
      else compact_kind (count b'.' payload)
