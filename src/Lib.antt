-- ===== src/Lib.antt =====
-- A model of the library jwx (Go, module github.com/lestrrat-go/jwx/v2): JSON Web Keys, Signatures,
-- Encryption and Tokens.
--
-- The parts. `jwt.Parse` guesses the format of its input (format.go), has a JWS verified by `jws`,
-- decodes the claims and validates them. `jws` and `jwe` take keys from `jwk` sets. `jwe` encrypts
-- the content with an AEAD (aescbc), wraps the content key (keyenc) and derives keys (concatkdf).
--
-- Common: what all share. Tests, Lists and Results hold the Boolean tests, the functions on slices
--   and `Outcome`, Go's `(value, error)` with a panic as a third outcome; Int, Bytes and Assoc hold
--   signed integers, bytes with `encoding/binary`, and maps.
-- Crypto: the interfaces of crypto/cipher and crypto/hmac, and CBC over any block cipher.
--   TextOrder, Assoc.Distinct and Assoc.Sorted hold the order of strings and sorted maps.
-- Fields: the objects of the generated files, a struct with a field for each standard name and a map
--   for the others. A `Schema` says which names are standard and what they take; `Get`, `setNoLock`,
--   `Remove`, `makePairs`, `UnmarshalJSON` and `MarshalJSON` are `get_field`, `set_field`, `remove_field`,
--   `make_pairs`, `unmarshal_json` and `marshal_json`. Values holds what the headers take, and Laws,
--   Pairs, Merge, Built, Decode and Recovered the proofs. JSON comes as the tokens of its decoder.
-- Format: format.go. `guess_format` is `GuessFormat`; Compact and Hints are about the two
--   serializations. `json.Unmarshal` into the hints is a parameter.
-- Jwe.AesCbc: jwe/internal/aescbc/aescbc.go. `pad`, `unpad`, `New`, `Seal` and `Open` under their
--   names; Padding, Aead and Setup hold the proofs. The block cipher and the HMAC are parameters.
-- Jwe.KeyWrap: `Wrap` and `Unwrap` of jwe/internal/keyenc/keyenc.go, with a function for the body of
--   each loop.
-- Jwe.ConcatKdf: jwe/internal/concatkdf/concatkdf.go. The loop of `Read` runs on fuel, one more than
--   the bytes wanted, which is enough since a block has a byte at least.
-- Jwe.Decrypt: `Decrypt`, `try` and `decryptKey` of jwe/jwe.go, over the headers of Jwe.Headers. The
--   record `Services` holds the parsers, base64, the `decrypter` and the inflater.
-- Jwe.Content: jwe/internal/cipher/cipher.go. `new_aes`, `encrypt` and `decrypt` are `NewAES`, `Encrypt`
--   and `Decrypt`, over Jwe.AesCbc and a GCM that is a parameter.
-- Jwe.KeyEncryption: jwe/internal/keyenc/keyenc.go and jwe/internal/keygen/keygen.go, a function for each
--   encrypter and decrypter. The record `Primitives` holds what they call of the standard library.
-- Jwe.Decrypter: `DecryptKey` and `Decrypt` of jwe/decrypt.go. The conversions of internal/keyconv are
--   parameters.
-- Jwe.Recipients: the key that `recipientBuilder.Build` of jwe/jwe.go encrypts. Names, Keys and Whole hold
--   the proofs about the two sides.
-- Jwk.KeySet: the type `set` of jwk/set.go with its methods, and `UnmarshalJSON` over the tokens of
--   the decoder; `ParseKey` is a parameter.
-- Jwk.Values, Jwk.Keys: jwk/symmetric_gen.go, rsa_gen.go, ecdsa_gen.go and okp_gen.go. `Shape` says what
--   the seven types of keys differ in; each has a module with its methods. `clone_key` and `parse_key` are
--   `cloneKey` and `ParseKey` of jwk/jwk.go; Decoded and Parsed hold the proofs.
-- Jws.Headers, Jwe.Headers, Jwt.Token: the schemas of jws/headers_gen.go, jwe/headers_gen.go and
--   jwt/token_gen.go, with `mergeHeaders` of jws/headers.go, and `Merge` and `Clone` of jwe/headers.go.
-- Jwt.Parse: `Parse` and `ParseInsecure` of jwt/jwt.go, with `toVerifyOptions` of jwt/options.go. The
--   record `Services` holds what they call: `jws.Verify`, `jws.Parse`, `json.Unmarshal`, `Validate`.
--   The loop runs at most twice (`maxDecodeLevels`).
-- Jwt.Times, Jwt.Validate: jwt/validate.go. A time is an integer of nanoseconds since the year 1, a
--   duration an int64 whose wrap-around is written out. The clock stands still during one call.
-- Jwt.Whole: Jwt.Parse with Jws.Verify, Jwt.Token and Jwt.Validate in place of its parameters.
-- Jwt.Birthdate, Jwt.Openid: jwt/openid/birthdate.go and jwt/openid/token_gen.go.
-- Jws.KeySets: the key providers of jws/key_provider.go for `WithKeySet` and `WithVerifyAuto`, over
--   the sets of Jwk.KeySet. What is sent to the sink is the result; Selected, Fetched, Panics and Url
--   hold the proofs.
-- Jws.Reader: `SplitCompactReader` of jws/jws.go on the results of the calls of `Read`. Its inner loop
--   runs on fuel, one more than the bytes in `sofar`, which is enough since a round takes a dot away.
-- Jws.Verify: `Parse`, `SplitCompact` and `Verify` of jws/jws.go. The record `Codec` holds base64, JSON
--   and the verifiers of the algorithms, and a key provider is a function; Sound and Segments hold the
--   proofs.
-- Jws.Signers, Jws.Sign: the registered signers of jws/signer.go and jws/jws.go, and `Sign` of jws/jws.go
--   with `Signature.Sign` and `Compact` of jws/message.go. The headers are shared objects in a store.
-- Jws.Message: the JSON of jws/message.go. What `json.Unmarshal` gives the probes is the input of
--   `unmarshal_message`; a nil that the code does not test for is a panic.
--
-- Not modelled: the locks, and what only calls the standard library or an HTTP client. The builders,
-- the commands and the examples are left out. Of `jwe.Encrypt` there is the key encryption; what it
-- writes into the headers and the serializations of jwe/message.go are not modelled. The error texts
-- are kept apart only where the code makes different errors.
pub mod Common
pub mod Crypto
pub mod Fields
pub mod Format
pub mod Jwe
pub mod Jwk
pub mod Jws
pub mod Jwt
