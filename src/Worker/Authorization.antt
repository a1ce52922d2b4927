-- ===== src/Worker/Authorization.antt =====
-- workers/realtime-relay/src/index.ts: `streamAuthorizationValid`. The keyed hash and `btoa` are
-- parameters, and so are the bytes of a text and the comparison of the runtime.
pub mod Alphabet
pub mod Agreement
use Prim.Native.Char.{code}
use Prim.Native.String.{String}
use volta_hackathon.Prelude.{ℕ, Bool, ◌&&◌, ◌==◌, List, eqb, length, if◌then◌else◌}

-- `.replace(/\+/g, "-").replace(/\//g, "_")`
unfoldable pub url_letters : String → String
url_letters String.[] = ""
url_letters (String.◌∷◌ c s) =
    let rest = url_letters s in
    if eqb (code c) b'+'
    then String.◌∷◌ "-" rest
    else if eqb (code c) b'/'
    then String.◌∷◌ "_" rest
    else String.◌∷◌ c rest

-- `.replace(/=+$/, "")`
unfoldable pub without_padding : String → String
without_padding String.[] = ""
without_padding (String.◌∷◌ c s) =
    let rest = without_padding s in
    if eqb (code c) b'=' && rest == "" then "" else String.◌∷◌ c rest

unfoldable pub url_form : String → String
unfolding url_letters without_padding
url_form text = without_padding (url_letters text)

module _ (bytes : String → List ℕ) (timing_safe_equal : List ℕ → List ℕ → Bool)
    (hmac : String → String → List ℕ) (base64 : List ℕ → String) where
  unfoldable pub stream_authorization_valid : String → String → String → Bool
  stream_authorization_valid call_id provided secret =
      let expected = url_form (base64 (hmac secret call_id)) in
      eqb (length (bytes expected)) (length (bytes provided))
      && timing_safe_equal (bytes expected) (bytes provided)
