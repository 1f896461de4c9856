-- ===== src/Jwk/KeySet.antt =====
-- jwk/set.go: `set`, the implementation of `jwk.Set`. The lock is not modelled: a method is one step.
pub mod Search
pub mod Updates
pub mod Unmarshal
pub mod Reach
mod Tests
use jwx.Common.{
  ℕ, zero, suc, ◌+◌, ◌-◌, String, ◌≡◌, ◌↔◌, Bool, true, false, Option, none, some, List, [], ◌∷◌,
  ◌++◌, Outcome, ok, err, panic, ltb, ◌==◌, str_eq, if◌then◌else◌, length, take, drop, get_elem?,
}
use jwx.Common.Int.{ℤ, pos, negsuc}
use jwx.Common.Assoc.{lookup, insert, delete}

-- What `set` uses of `jwk.Key`: `==` on the interface values, and `KeyID()`.
pub record KeyLike (K : Type 0) : Type 0 where
  pub same : K → K → Bool
  pub same_iff : (a b : K) → (same a b ≡ true) ↔ (a ≡ b)
  pub key_id : K → String

-- A value handed to `Set`: a `[]Key`, or anything else.
pub data Value (K V : Type 0) : Type 0 where
  keys_value : List K → Value K V
  plain : V → Value K V

-- `private_params` is `none` while the Go map is nil.
pub record KeySet (K V : Type 0) : Type 0 where
  pub keys : List K
  pub private_params : Option (List (String × Value K V))

pub data Error : Type 0 where
  keys_not_a_list key_exists no_such_key : Error
  token_error unexpected_delimiter bad_keys bad_key bad_value bad_sole_key : Error

pub new_set : {K V : Type 0} → KeySet K V
new_set = record { keys = []; private_params = some [] }

module _ {K V : Type 0} where
  -- A read of a nil map finds nothing, a write to it panics, a delete does nothing.
  abbrev pub param : KeySet K V → String → Option (Value K V)
  param s n = elim s.private_params [ none ↦ none | some m ↦ lookup n m ]

  abbrev put_param : KeySet K V → String → Value K V → Outcome Error (KeySet K V)
  put_param s n v = elim s.private_params [
    | none ↦ panic
    | some m ↦ ok (record s { private_params = some (insert n v m) })
  ]

  abbrev put_keys : KeySet K V → Value K V → Outcome Error (KeySet K V)
  put_keys s (keys_value vl) = ok (record s { keys = vl })
  put_keys s (plain v) = err keys_not_a_list

  pub set_field : KeySet K V → String → Value K V → Outcome Error (KeySet K V)
  set_field s n v = if str_eq n "keys" then put_keys s v else put_param s n v

  pub get_field : KeySet K V → String → Option (Value K V)
  get_field s n = param s n

  -- `idx >= 0 && idx < len(s.keys)`
  unfoldable pub key_at : KeySet K V → ℤ → Option K
  key_at s (pos i) = get_elem? s.keys i
  key_at s (negsuc i) = none

  unfoldable pub len : KeySet K V → ℕ
  len s = length s.keys

  pub remove : KeySet K V → String → KeySet K V
  remove s name = elim s.private_params [
    | none ↦ s
    | some m ↦ record s { private_params = some (delete name m) }
  ]

  pub clear : KeySet K V → KeySet K V
  clear s = new_set

  -- The composite literal `&set{}` leaves `privateParams` nil.
  pub clone : KeySet K V → KeySet K V
  clone s = record { keys = s.keys; private_params = none }

-- The slices that `RemoveKey` makes, by the index of the key.
pub remove_at : {K : Type 0} → List K → ℕ → List K
remove_at ks i =
    if i == 0
    then drop 1 ks
    else if i == length ks - 1
    then take i ks
    else take i ks ++ drop (i + 1) ks

module _ {K : Type 0} (like : KeyLike K) where
  -- The index of the first key that is `key`, counted from `i`.
  pub find_from : ℕ → K → List K → Option ℕ
  find_from i key [] = none
  find_from i key (k ∷ ks) =
      let rest = find_from (i + 1) key ks in if like.same k key then some i else rest

  -- The loop of `LookupKeyID`.
  unfoldable pub first_with_id : List K → String → Option K
  first_with_id [] kid = none
  first_with_id (k ∷ ks) kid =
      let rest = first_with_id ks kid in if str_eq (like.key_id k) kid then some k else rest

module _ {K V : Type 0} (like : KeyLike K) where
  pub index_nl : KeySet K V → K → ℤ
  index_nl s key = elim (find_from like 0 key s.keys) [ none ↦ negsuc 0 | some i ↦ pos i ]

  pub add_key : KeySet K V → K → Outcome Error (KeySet K V)
  add_key s key = elim (index_nl s key) [
    | pos i ↦ err key_exists
    | negsuc n ↦ ok (record s { keys = s.keys ++ key ∷ [] })
  ]

  pub remove_key : KeySet K V → K → Outcome Error (KeySet K V)
  unfolding remove_at
  remove_key s key = elim (find_from like 0 key s.keys) [
    | none ↦ err no_such_key
    | some i ↦ ok (record s { keys = remove_at s.keys i })
  ]

  unfoldable pub lookup_key_id : KeySet K V → String → Option K
  unfolding first_with_id
  lookup_key_id s kid = first_with_id like s.keys kid

-- One step of the decoder: `dec.Token()`, and for a name what `dec.Decode` gives for the value that
-- follows, as raw keys and as a plain value. `none` is a decoding error.
pub data Token (Raw V : Type 0) : Type 0 where
  delim : ℕ → Token Raw V
  name : String → Option (List Raw) → Option V → Token Raw V
  scalar : Token Raw V

-- `parse_key` is `ParseKey` with the options of the set, and `ignore` is `ignoreParseError`.
module _ {K V Raw : Type 0} (parse_key : Raw → Option K) (ignore : Bool) where
  -- The loop over the list under "keys". What was appended before an error stays.
  pub add_parsed : KeySet K V → List Raw → KeySet K V × Outcome Error (Unit {0})
  add_parsed s [] = (s, ok tt)
  add_parsed s (raw ∷ list) = elim (parse_key raw) [
    | some key ↦ add_parsed (record s { keys = s.keys ++ key ∷ [] }) list
    | none ↦ elim ignore [ true ↦ add_parsed s list | false ↦ (s, err bad_key) ]
  ]

  -- The loop over the tokens. The flag is `sawKeysField`; the end of the list is a read error.
  pub read_tokens : KeySet K V → Bool → List (Token Raw V) → KeySet K V × Outcome Error Bool
  unfolding add_parsed
  read_tokens s saw [] = (s, err token_error)
  read_tokens s saw (delim c ∷ ts) =
      let rest = read_tokens s saw ts in
      if c == b'}' then (s, ok saw) else if c == b'{' then rest else (s, err unexpected_delimiter)
  read_tokens s saw (scalar ∷ ts) = read_tokens s saw ts
  read_tokens s saw (name n list v ∷ ts) = elim (str_eq n "keys") [
    | true ↦ elim list [
      | none ↦ (s, err bad_keys)
      | some raws ↦
          let (s', done) = add_parsed s raws in
          elim done [ ok u ↦ read_tokens s' true ts | err e ↦ (s', err e) | panic ↦ (s', panic) ]
    ]
    | false ↦ elim v [
      | none ↦ (s, err bad_value)
      | some x ↦ elim s.private_params [
        | none ↦ (s, panic)
        | some m ↦ read_tokens (record s { private_params = some (insert n (plain x) m) }) saw ts
      ]
    ]
  ]

  -- With no "keys" field the whole input is parsed as one key.
  pub sole_key : Option K → KeySet K V × Outcome Error Bool → KeySet K V × Outcome Error (Unit {0})
  sole_key whole (s, ok true) = (s, ok tt)
  sole_key none (s, ok false) = (s, err bad_sole_key)
  sole_key (some key) (s, ok false) = (record s { keys = s.keys ++ key ∷ [] }, ok tt)
  sole_key whole (s, err e) = (s, err e)
  sole_key whole (s, panic) = (s, panic)

  -- `whole` is what `ParseKey` gives for all of the data.
  pub unmarshal_json :
      KeySet K V → List (Token Raw V) → Option K → KeySet K V × Outcome Error (Unit {0})
  unfolding read_tokens sole_key
  unmarshal_json s tokens whole = sole_key whole (read_tokens new_set false tokens)
