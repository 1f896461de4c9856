-- ===== src/Jwk/Keys/OkpPublic.antt =====
-- `okpPublicKey` of jwk/okp_gen.go.
use jwx.Common.{Option, String, List, Outcome}
use jwx.Common.Bytes.{Bytes}
use jwx.Fields.{Error, Token}
use jwx.Jwk.Values.{Value}
use jwx.Jwk.Keys.{KeyError, Shape, shape_of, okp_public, KeyDecoders, KeyFields}
use jwx.Jwk.Keys as Keys

abbrev shape : Shape
shape = shape_of okp_public

module _ {C X Raw : Type 0} (decoders : KeyDecoders C X Raw) where
  unfoldable get : KeyFields decoders → String → Option (Value C X)
  unfolding Keys.get
  get h n = Keys.get decoders okp_public h n

  unfoldable set : KeyFields decoders → String → Value C X → Outcome Error (KeyFields decoders)
  unfolding Keys.set
  set h n v = Keys.set decoders okp_public h n v

  unfoldable remove : KeyFields decoders → String → KeyFields decoders
  unfolding Keys.remove
  remove h n = Keys.remove decoders okp_public h n

  unfoldable make_pairs : KeyFields decoders → List (String × Value C X)
  unfolding Keys.make_pairs
  make_pairs h = Keys.make_pairs decoders okp_public h

  unfoldable unmarshal :
      KeyFields decoders → List (Token Raw) → Outcome KeyError (KeyFields decoders)
  unfolding Keys.unmarshal
  unmarshal h ts = Keys.unmarshal decoders okp_public h ts

  unfoldable marshal :
      (String → Bytes) → (Value C X → Option Bytes) → KeyFields decoders → Outcome Error Bytes
  unfolding Keys.marshal
  marshal name_bytes encode h = Keys.marshal decoders name_bytes encode okp_public h
