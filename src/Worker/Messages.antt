-- ===== src/Worker/Messages.antt =====
-- workers/realtime-relay/src/index.ts: the messages of both sockets. `parse` is `JSON.parse`: `none`
-- where it throws.
use volta_hackathon.Prelude.{ℕ, String, Option, none, some, Bool, ◌==◌, if◌then◌else◌}

mutual
  pub data Json : Type 0 where
    null : Json
    bool : Bool → Json
    num : ℕ → Json
    str : String → Json
    array : Items → Json
    object : Fields → Json

  pub data Items : Type 0 where
    end : Items
    item : Json → Items → Items

  pub data Fields : Type 0 where
    close : Fields
    entry : String → Json → Fields → Fields

-- A later entry of the same key wins.
unfoldable pub find_entry : String → Fields → Option Json
find_entry key close = none
find_entry key (entry k v fields) = elim (find_entry key fields) [
  | some later ↦ some later
  | none ↦ if k == key then some v else none
]

-- `value.key` of a record. An array has none of the keys that are asked for.
unfoldable pub property : String → Json → Option Json
unfolding find_entry
property key (object fields) = find_entry key fields
property key _ = none

-- `typeof value === "string"`
abbrev pub text_of : Option Json → Option String
text_of (some (str text)) = some text
text_of _ = none

abbrev pub text_at : String → Json → Option String
text_at key value = text_of (property key value)

-- `isRecord`
abbrev pub as_record : Option Json → Option Json
as_record (some (object fields)) = some (object fields)
as_record (some (array items)) = some (array items)
as_record _ = none

abbrev pub record_at : String → Json → Option Json
record_at key value = as_record (property key value)

pub data TwilioMessage : Type 0 where
  -- `streamSid`, and the `callId` and `streamAuth` of the custom parameters.
  start : String → Option String → Option String → TwilioMessage
  media : String → String → TwilioMessage
  stop : String → TwilioMessage
  other : TwilioMessage

pub record OpenAiEvent : Type 0 where
  pub type : String
  pub delta : Option String
  pub session_id : Option String
  pub error_message : Option String

unfoldable pub parse_json : (String → Option Json) → Option String → Json
parse_json parse none = null
parse_json parse (some received) = elim (parse received) [ none ↦ null | some value ↦ value ]

infixl 5 ◌>>=◌
abbrev ◌>>=◌ : {A B : Type 0} → Option A → (A → Option B) → Option B
◌>>=◌ none f = none
◌>>=◌ (some a) f = f a

abbrev or_text : Option String → String → String
or_text none text = text
or_text (some s) text = s

-- The start of a stream, if it has the three fields that are asked for.
unfoldable pub parse_start : Json → Option TwilioMessage
parse_start value = do
  start_value ← record_at "start" value
  stream_sid ← text_at "streamSid" start_value
  call_sid ← text_at "callSid" start_value
  parameters ← record_at "customParameters" start_value
  some (
      start (or_text (text_at "streamSid" value) stream_sid) (text_at "callId" parameters)
        (text_at "streamAuth" parameters))

unfoldable pub parse_media : Json → Option TwilioMessage
parse_media value = do
  stream_sid ← text_at "streamSid" value
  media_value ← record_at "media" value
  payload ← text_at "payload" media_value
  some (media stream_sid payload)

unfoldable pub parse_stop : Json → Option TwilioMessage
parse_stop value = do stream_sid ← text_at "streamSid" value; some (stop stream_sid)

abbrev or_other : Option TwilioMessage → Option TwilioMessage
or_other none = some other
or_other (some message) = some message

-- `value` is what `parseJson` returned; `none` is the result `null`.
unfoldable pub parse_twilio_message : Json → Option TwilioMessage
unfolding parse_start parse_media parse_stop
parse_twilio_message value = do
  event ← text_at "event" value
  if event == "start"
      then or_other (parse_start value)
      else if event == "media"
      then or_other (parse_media value)
      else if event == "stop"
      then or_other (parse_stop value)
      else some other

abbrev nested_text : String → String → Json → Option String
nested_text outer inner value = elim (record_at outer value) [
  | none ↦ none
  | some r ↦ text_at inner r
]

unfoldable pub parse_open_ai_event : Json → Option OpenAiEvent
parse_open_ai_event value = do
  type ← text_at "type" value
  some (record {
    type = type;
    delta = text_at "delta" value;
    session_id = nested_text "session" "id" value;
    error_message = nested_text "error" "message" value;
  })
