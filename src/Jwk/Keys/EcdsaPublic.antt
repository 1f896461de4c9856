-- ===== src/Jwk/Keys/EcdsaPublic.antt =====
-- `ecdsaPublicKey` of jwk/ecdsa_gen.go.
use jwx.Common.{Option, String, List, Outcome}
use jwx.Common.Bytes.{Bytes}
use jwx.Fields.{Error, Token}
use jwx.Jwk.Values.{Value}
use jwx.Jwk.Keys.{KeyError, Shape, shape_of, ecdsa_public, KeyDecoders, KeyFields}
use jwx.Jwk.Keys as Keys

abbrev shape : Shape
shape = shape_of ecdsa_public

module _ {C X Raw : Type 0} (decoders : KeyDecoders C X Raw) where
  unfoldable get : KeyFields decoders → String → Option (Value C X)
  unfolding Keys.get
  get h n = Keys.get decoders ecdsa_public h n

  unfoldable set : KeyFields decoders → String → Value C X → Outcome Error (KeyFields decoders)
  unfolding Keys.set
  set h n v = Keys.set decoders ecdsa_public h n v

  unfoldable remove : KeyFields decoders → String → KeyFields decoders
  unfolding Keys.remove
  remove h n = Keys.remove decoders ecdsa_public h n

  unfoldable make_pairs : KeyFields decoders → List (String × Value C X)
  unfolding Keys.make_pairs
  make_pairs h = Keys.make_pairs decoders ecdsa_public h

  unfoldable unmarshal :
      KeyFields decoders → List (Token Raw) → Outcome KeyError (KeyFields decoders)
  unfolding Keys.unmarshal
  unmarshal h ts = Keys.unmarshal decoders ecdsa_public h ts

  unfoldable marshal :
      (String → Bytes) → (Value C X → Option Bytes) → KeyFields decoders → Outcome Error Bytes
  unfolding Keys.marshal
  marshal name_bytes encode h = Keys.marshal decoders name_bytes encode ecdsa_public h
