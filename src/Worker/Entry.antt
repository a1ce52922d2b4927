-- ===== src/Worker/Entry.antt =====
-- workers/realtime-relay/src/index.ts: `fetch`, `twilioSignatureValid` and `fetchRealtimeToken`. The keyed
-- hash, `btoa`, the bytes of a text and the comparison of the runtime are parameters, and so is what
-- the token endpoint answers.
use Prim.Native.Char.{code}
use volta_hackathon.Prelude.{
  ℕ, String, Option, none, some, List, [], ◌∷◌, Bool, false, not, ◌&&◌, ◌==◌, any, eqb, leb, length,
  Result, ok, err, if◌then◌else◌,
}
use volta_hackathon.Prelude.Text.{◌<>◌, decimal}
use volta_hackathon.Worker.Messages.{Json, property, text_at, as_record}

-- `request.url.endsWith("/")`
abbrev ends_with_slash : String → Bool
ends_with_slash String.[] = false
ends_with_slash (String.◌∷◌ c s) = if s == "" then eqb (code c) b'/' else ends_with_slash s

abbrev candidates : String → List String
candidates url = if ends_with_slash url then url ∷ [] else url ∷ (url <> "/") ∷ []

module _ (bytes : String → List ℕ) (timing_safe_equal : List ℕ → List ℕ → Bool)
    (hmac : String → String → List ℕ) (base64 : List ℕ → String) where
  abbrev signs : String → String → String → Bool
  signs provided auth_token url =
      let expected = base64 (hmac auth_token url) in
      eqb (length (bytes expected)) (length (bytes provided))
      && timing_safe_equal (bytes expected) (bytes provided)

  -- The `x-twilio-signature` header, for the URL with or without a final slash.
  unfoldable pub twilio_signature_valid : Option String → String → String → Bool
  twilio_signature_valid none url auth_token = false
  twilio_signature_valid (some provided) url auth_token =
      not (provided == "") && any (signs provided auth_token) (candidates url)

pub record RealtimeToken : Type 0 where
  pub value : String
  pub expires_at : ℕ
  pub project_id : Option String

abbrev number_at : String → Json → Option ℕ
number_at key value = elim (property key value) [
  | some (Json.num n) ↦ some n
  | some Json.null ↦ none
  | some (Json.bool b) ↦ none
  | some (Json.str text) ↦ none
  | some (Json.array items) ↦ none
  | some (Json.object fields) ↦ none
  | none ↦ none
]

abbrev token_of : Option String → Option ℕ → Option String → Result RealtimeToken
token_of (some value) (some expires_at) project_id =
    ok (record { value = value; expires_at = expires_at; project_id = project_id })
token_of _ _ _ = err "Token endpoint returned an invalid payload"

-- The payload of a successful answer.
unfoldable pub read_token : Json → Result RealtimeToken
read_token value = elim (as_record (some value)) [
  | none ↦ err "Token endpoint returned an invalid payload"
  | some r ↦ token_of (text_at "value" r) (number_at "expiresAt" r) (text_at "projectId" r)
]

-- The status of the answer, and its body or what `json()` throws.
unfoldable pub fetch_realtime_token : ℕ → Result Json → Result RealtimeToken
fetch_realtime_token status body =
    if leb 200 status && leb status 299
    then elim body [ err message ↦ err message | ok value ↦ read_token value ]
    else err ("Token endpoint returned " <> decimal status)

-- What the worker does with a request: it answers, or it goes on to `handleTwilioStream`.
pub data Routed : Type 0 where
  health : Routed
  refused : ℕ → String → Routed
  stream : Routed

abbrev is_websocket : (String → String) → Option String → Bool
is_websocket lower_case none = false
is_websocket lower_case (some upgrade) = lower_case upgrade == "websocket"

-- `signed` is the check of the signature, with which `handleTwilioStream` begins.
unfoldable pub route : (String → String) → String → Option String → Bool → Routed
route lower_case pathname upgrade signed =
    if pathname == "/health"
    then health
    else if not (pathname == "/twilio/")
    then refused 404 "Not found"
    else if not (is_websocket lower_case upgrade)
    then refused 426 "Expected Upgrade: websocket"
    else if not signed
    then refused 403 "Invalid Twilio signature"
    else stream
