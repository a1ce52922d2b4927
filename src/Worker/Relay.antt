-- ===== src/Worker/Relay.antt =====
-- workers/realtime-relay/src/index.ts: `handleTwilioStream`, from the accepted socket on. What its
-- closures share is a record, each listener is a case of `handle`, and what a listener does to the
-- outside is a list of effects. The asynchronous part that a `start` begins is a task: it waits for the
-- check of its authorization and then for its token. Events are taken in any order: one that cannot
-- come, such as the open event of a socket that is not connecting, changes nothing or does what its
-- listener would.
pub mod Audio
pub mod Admission
use volta_hackathon.Prelude.{
  ℕ, String, Option, none, some, Bool, true, false, ◌&&◌, ◌==◌, List, [], ◌∷◌, ◌++◌, map, length,
  ltb, or_else, if◌then◌else◌,
}
use volta_hackathon.Prelude.Text.{slice_units}
use volta_hackathon.Prelude.Indexed.{get_elem?, put}
use volta_hackathon.Worker.Messages.{TwilioMessage, OpenAiEvent}
pub use volta_hackathon.Worker.Stream.{
  ReadyState, connecting, opened, closing, closed, Task, authorizing, fetching, finished, Relay,
  Event, twilio_message, twilio_error, twilio_closed, checked, thrown, token, upstream_opened,
  upstream_message, upstream_error, upstream_closed, OpenAiCommand, append, create_response,
  TwilioCommand, media, clear, Effect, report, log_error, to_open_ai, to_twilio, close_upstream,
  close_twilio,
}

abbrev pub audio_limit : ℕ
audio_limit = 150

abbrev pub is_opened : Option ReadyState → Bool
is_opened (some opened) = true
is_opened _ = false

abbrev pub may_close : ReadyState → Bool
may_close opened = true
may_close connecting = true
may_close _ = false

-- `socket.close()` takes a socket that is not closed to CLOSING.
abbrev pub after_close : ReadyState → ReadyState
after_close state = if may_close state then closing else state

abbrev pub state_of : Option ℕ → List ReadyState → Option ReadyState
state_of none upstreams = none
state_of (some n) upstreams = get_elem? upstreams n

abbrev if_open : ReadyState → Effect → List Effect
if_open state effect = if may_close state then effect ∷ [] else []

-- `if (openaiSocket) closeSocket(openaiSocket, code, reason)`
unfoldable pub closed_upstreams : Option ℕ → List ReadyState → List ReadyState
closed_upstreams none upstreams = upstreams
closed_upstreams (some n) upstreams = elim (get_elem? upstreams n) [
  | none ↦ upstreams
  | some state ↦ put n (after_close state) upstreams
]

unfoldable pub upstream_closes : Option ℕ → List ReadyState → ℕ → String → List Effect
upstream_closes none upstreams code reason = []
upstream_closes (some n) upstreams code reason = elim (get_elem? upstreams n) [
  | none ↦ []
  | some state ↦ if_open state (close_upstream n code (slice_units 123 reason))
]

-- Both sockets are closed.
unfoldable pub close_both : ℕ → String → Relay → Relay × List Effect
close_both code reason r = (
  record r { upstreams = closed_upstreams r.current r.upstreams; twilio = after_close r.twilio },
  upstream_closes r.current r.upstreams code reason
      ++ if_open r.twilio (close_twilio code (slice_units 123 reason)),
)

abbrev reported : Option String → String → Option String → List Effect
reported none type extra = []
reported (some call_id) type extra =
    if call_id == "" then [] else report (some call_id) type extra ∷ []

abbrev with_effects : List Effect → Relay × List Effect → Relay × List Effect
with_effects effects (r, more) = (r, effects ++ more)

unfoldable pub fail : String → Relay → Relay × List Effect
fail message r =
    with_effects (log_error r.call_id message ∷ reported r.call_id "relay.error" (some message))
      (close_both 1011 "Relay failed" r)

unfoldable pub on_start : String → Option String → Option String → Relay → Relay × List Effect
on_start stream_sid none stream_auth r =
    fail "Missing Volta call id" (record r { stream_sid = some stream_sid; call_id = none })
on_start stream_sid (some call_id) stream_auth r =
    let r' = record r { stream_sid = some stream_sid; call_id = some call_id } in
    if call_id == ""
    then fail "Missing Volta call id" r'
    else (record r' { tasks = r.tasks ++ authorizing call_id (or_else stream_auth "") ∷ [] }, [])

unfoldable pub on_media : String → Relay → Relay × List Effect
on_media audio r = elim (is_opened (state_of r.current r.upstreams)) [
  | true ↦ (r, elim r.current [ none ↦ [] | some n ↦ to_open_ai n (append audio) ∷ [] ])
  | false ↦ (
    if ltb (length r.pending_audio) audio_limit
        then record r { pending_audio = r.pending_audio ++ audio ∷ [] }
        else r,
    [],
  )
]

unfoldable pub on_stop : Relay → Relay × List Effect
on_stop r =
    with_effects (reported r.call_id "stream.stopped" none)
      (close_both 1000 "Twilio stream stopped" r)

unfoldable pub on_twilio_message : Option TwilioMessage → Relay → Relay × List Effect
on_twilio_message none r = (r, [])
on_twilio_message (some (TwilioMessage.start stream_sid call_id stream_auth)) r =
    on_start stream_sid call_id stream_auth r
on_twilio_message (some (TwilioMessage.media stream_sid payload)) r = on_media payload r
on_twilio_message (some (TwilioMessage.stop stream_sid)) r = on_stop r
on_twilio_message (some TwilioMessage.other) r = (r, [])

unfoldable pub on_twilio_closed : Relay → Relay × List Effect
on_twilio_closed r = (
  record r { upstreams = closed_upstreams r.current r.upstreams; twilio = closed },
  upstream_closes r.current r.upstreams 1000 "Twilio disconnected",
)

abbrev finish : ℕ → Relay → Relay
finish n r = record r { tasks = put n finished r.tasks }

unfoldable pub on_thrown : ℕ → String → Relay → Relay × List Effect
on_thrown n message r = elim (get_elem? r.tasks n) [
  | none ↦ (r, [])
  | some finished ↦ (r, [])
  | some fetching ↦ fail message (finish n r)
  | some (authorizing call_id stream_auth) ↦ fail message (finish n r)
]

-- The new socket becomes `openaiSocket`.
unfoldable pub on_token : ℕ → Relay → Relay × List Effect
on_token n r = elim (get_elem? r.tasks n) [
  | some fetching ↦ (
    record r {
      tasks = put n finished r.tasks;
      upstreams = r.upstreams ++ connecting ∷ [];
      current = some (length r.upstreams);
    },
    [],
  )
  | some finished ↦ (r, [])
  | some (authorizing call_id stream_auth) ↦ (r, [])
  | none ↦ (r, [])
]

-- The audio that waits is sent, and the model is told to speak first.
unfoldable pub on_upstream_opened : ℕ → Relay → Relay × List Effect
on_upstream_opened n r = elim (get_elem? r.upstreams n) [
  | some connecting ↦ (
    record r { upstreams = put n opened r.upstreams; pending_audio = [] },
    map (λ audio. to_open_ai n (append audio)) r.pending_audio ++ to_open_ai n create_response ∷ [],
  )
  | some opened ↦ (r, [])
  | some closing ↦ (r, [])
  | some closed ↦ (r, [])
  | none ↦ (r, [])
]

abbrev is_some_text : Option String → Bool
is_some_text none = false
is_some_text (some text) = if text == "" then false else true

abbrev or_empty : Option String → String
or_empty none = ""
or_empty (some text) = text

-- The chain of tests on the type of a realtime event.
unfoldable pub on_open_ai_event : OpenAiEvent → String → Relay → Relay × List Effect
on_open_ai_event event stream_sid r =
    if event.type == "response.output_audio.delta" && is_some_text event.delta
    then (r, to_twilio (media stream_sid (or_empty event.delta)) ∷ [])
    else if event.type == "input_audio_buffer.speech_started"
    then (r, to_twilio (clear stream_sid) ∷ [])
    else if event.type == "session.created" && is_some_text r.call_id
    then (r, report r.call_id "session.created" event.session_id ∷ [])
    else if event.type == "response.done" && is_some_text r.call_id
    then (r, report r.call_id "response.done" none ∷ [])
    else if event.type == "error"
    then fail (or_else event.error_message "OpenAI Realtime error") r
    else (r, [])

unfoldable pub on_upstream_message : Option OpenAiEvent → Relay → Relay × List Effect
on_upstream_message none r = (r, [])
on_upstream_message (some event) r = elim r.stream_sid [
  | none ↦ (r, [])
  | some stream_sid ↦ if stream_sid == "" then (r, []) else on_open_ai_event event stream_sid r
]

-- `upstream.addEventListener("close", …)`
unfoldable pub on_upstream_closed : ℕ → Relay → Relay × List Effect
on_upstream_closed n r = (
  record r { upstreams = put n closed r.upstreams; twilio = after_close r.twilio },
  if_open r.twilio (close_twilio 1000 "OpenAI session ended"),
)

-- `valid` is `streamAuthorizationValid` under the secret of the worker.
module _ (valid : String → String → Bool) where
  unfoldable pub on_checked : ℕ → Relay → Relay × List Effect
  on_checked n r = elim (get_elem? r.tasks n) [
    | some (authorizing call_id stream_auth) ↦
        if valid call_id stream_auth
        then (
          record r { tasks = put n fetching r.tasks },
          report r.call_id "stream.started" none ∷ [],
        )
        else fail "Invalid stream authorization" (finish n r)
    | some fetching ↦ (r, [])
    | some finished ↦ (r, [])
    | none ↦ (r, [])
  ]

  unfoldable pub handle : Event → Relay → Relay × List Effect
  handle (twilio_message message) r = on_twilio_message message r
  handle twilio_error r = fail "Twilio WebSocket error" r
  handle twilio_closed r = on_twilio_closed r
  handle (checked n) r = on_checked n r
  handle (thrown n message) r = on_thrown n message r
  handle (token n) r = on_token n r
  handle (upstream_opened n) r = on_upstream_opened n r
  handle (upstream_message n event) r = on_upstream_message event r
  handle (upstream_error n) r = fail "OpenAI WebSocket error" r
  handle (upstream_closed n) r = on_upstream_closed n r

  abbrev pub accepted : Relay
  accepted = record {
    stream_sid = none;
    call_id = none;
    pending_audio = [];
    tasks = [];
    upstreams = [];
    current = none;
    twilio = opened;
  }

  -- The events that came, the state they led to, and the effects on the way.
  pub data Trace : List Event → Relay → List Effect → Type 0 where
    start : Trace [] accepted []
    next :
        {events : List Event} {r : Relay} {effects : List Effect}
        → Trace events r effects
        → (event : Event)
        → Trace (events ++ event ∷ []) (handle event r).0 (effects ++ (handle event r).1)
