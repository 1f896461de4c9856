-- ===== src/Jws/KeySets/Tests.antt =====
-- A set of two symmetric keys, of which "a" is for HS256 and "b" has no algorithm; a key is its key ID.
use jwx.Common.{
  ℕ, ◌≡◌, ◌↔◌, refl, true, false, Option, none, some, String, str_eq, eq_iff, [], ◌∷◌, ok, err,
  panic, if◌then◌else◌,
}
use jwx.Fields.Values.{one_of}
use jwx.Jwk.KeySet.{KeyLike, KeySet, lookup_key_id, first_with_id}
use jwx.Jws.Verify.Sound.{here}
use jwx.Jws.KeySets.{
  KeyInfo, HeaderInfo, KeySetProvider, not_https, algorithms_for_key, select_inferred,
  select_usable, select_key, select_matching, fetch_from_set, first_algorithm, keys_of_url,
  fetch_from_url,
}
use jwx.Jws.KeySets.Fetched.{Fetched, fetch_from_set-Fetched}
use jwx.Jws.KeySets.Panics.{fetch_from_set_panics}
use jwx.Jws.KeySets.Url.{FromUrl, fetch_from_url-FromUrl}

abbrev like : KeyLike String
like = record { same = str_eq; same_iff = eq_iff; key_id = λ k. k }

abbrev info : KeyInfo String
info = record {
  usage = λ k. "";
  algorithm = λ k. if str_eq k "a" then "HS256" else "";
  key_type = λ k. "oct";
}

abbrev two_keys : KeySet String ℕ
two_keys = record { keys = "a" ∷ "b" ∷ []; private_params = none }

abbrev provider : KeySetProvider String ℕ
provider = record {
  set = two_keys;
  require_kid = true;
  use_default = false;
  infer_algorithm = true;
  multiple_keys_per_key_id = true;
}

-- The header asks for another algorithm than that of the key.
abbrev header : HeaderInfo
header = record { kid = "a"; alg = "HS512"; jku = "https://a" }

-- The key is sent with its own algorithm.
own_algorithm : fetch_from_set like info provider header ≡ ok (("HS256", "a") ∷ [])
unfolding fetch_from_set select_matching select_key select_usable select_inferred algorithms_for_key
    one_of
own_algorithm = refl

inferred :
    fetch_from_set like info provider (record header { kid = "b" }) ≡ ok (("HS512", "b") ∷ [])
unfolding fetch_from_set select_matching select_key select_usable select_inferred algorithms_for_key
    one_of
inferred = refl

fetch_from_set-Fetched_example : Fetched like info provider header (("HS256", "a") ∷ [])
fetch_from_set-Fetched_example =
    fetch_from_set-Fetched like info provider header (("HS256", "a") ∷ []) own_algorithm

abbrev empty_default : KeySetProvider String ℕ
empty_default = record provider {
  set = record { keys = []; private_params = none };
  use_default = true;
}

abbrev nameless : HeaderInfo
nameless = record header { kid = "" }

fetch_from_set_panics_example : (fetch_from_set like info empty_default nameless ≡ panic) ↔ (
    (empty_default.require_kid ≡ true)
    × (nameless.kid ≡ "")
    × (empty_default.use_default ≡ true)
    × (empty_default.set.keys ≡ []))
fetch_from_set_panics_example = fetch_from_set_panics like info empty_default nameless

abbrev scheme : String → Option String
scheme url = if str_eq url "https://a" then some "https" else some "http"

abbrev fetch : String → Option (KeySet String ℕ)
fetch url = some two_keys

url_run : fetch_from_url like info scheme fetch header ≡ ok (("HS512", "a") ∷ [])
unfolding fetch_from_url keys_of_url first_algorithm algorithms_for_key lookup_key_id first_with_id
url_run = refl

plain_http :
    fetch_from_url like info scheme fetch (record header { jku = "http://a" }) ≡ err not_https
unfolding fetch_from_url
plain_http = refl

fetch_from_url-FromUrl_example :
    (set : KeySet String ℕ) × FromUrl like info scheme fetch header set "HS512" "a"
fetch_from_url-FromUrl_example =
    fetch_from_url-FromUrl like info scheme fetch header (("HS512", "a") ∷ []) "HS512" "a" url_run
      here
