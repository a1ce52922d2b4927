-- ===== src/Server/RelayAuth.antt =====
-- lib/server/relay-auth.ts: the secret that the relay and the server share. The environment variable,
-- the bytes of a text, the keyed hash, base64url and the comparison of node:crypto are parameters.
use volta_hackathon.Prelude.{
  ℕ, String, Option, none, some, Bool, ◌&&◌, ◌==◌, List, eqb, length, Result, ok, err,
  if◌then◌else◌,
}
use volta_hackathon.Prelude.Text.{◌<>◌, trim}

-- `process.env.RELAY_SHARED_SECRET?.trim()`
unfoldable pub relay_secret : Option String → Result String
relay_secret none = err "RELAY_SHARED_SECRET is not configured"
relay_secret (some value) =
    if trim value == "" then err "RELAY_SHARED_SECRET is not configured" else ok (trim value)

abbrev pub map_result : {A B : Type 0} → (A → B) → Result A → Result B
map_result f (ok a) = ok (f a)
map_result f (err message) = err message

module _ (bytes : String → List ℕ) (timing_safe_equal : List ℕ → List ℕ → Bool) where
  unfoldable pub secure_equal : String → String → Bool
  secure_equal left right =
      eqb (length (bytes left)) (length (bytes right))
      && timing_safe_equal (bytes left) (bytes right)

  abbrev provided_or_empty : Option String → String
  provided_or_empty none = ""
  provided_or_empty (some text) = text

  -- The first text is the `authorization` header of the request.
  unfoldable pub authorize_relay_request : Option String → Option String → Result Bool
  unfolding relay_secret secure_equal
  authorize_relay_request header setting =
      map_result (λ secret. secure_equal (provided_or_empty header) ("Bearer " <> secret))
        (relay_secret setting)

-- `hmac` takes the key and the message.
module _ (hmac : String → String → List ℕ) (base64url : List ℕ → String) where
  unfoldable pub create_stream_authorization : String → Option String → Result String
  create_stream_authorization call_id setting =
      map_result (λ secret. base64url (hmac secret call_id)) (relay_secret setting)
