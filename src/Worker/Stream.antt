-- ===== src/Worker/Stream.antt =====
-- workers/realtime-relay/src/index.ts: what the closures of `handleTwilioStream` share, the events that its
-- listeners and its awaits take, and what they do to the outside.
use volta_hackathon.Prelude.{ℕ, String, Option, List}
use volta_hackathon.Worker.Messages.{TwilioMessage, OpenAiEvent}

pub data ReadyState : Type 0 where
  connecting opened closing closed : ReadyState

pub data Task : Type 0 where
  -- With the call and the authorization that it was started with.
  authorizing : String → String → Task
  fetching : Task
  finished : Task

-- `openaiSocket` is the socket that was opened last; an earlier one keeps its listeners.
pub record Relay : Type 0 where
  pub stream_sid : Option String
  pub call_id : Option String
  pub pending_audio : List String
  pub tasks : List Task
  pub upstreams : List ReadyState
  pub current : Option ℕ
  pub twilio : ReadyState

pub data Event : Type 0 where
  -- The message as `parseTwilioMessage` reads it.
  twilio_message : Option TwilioMessage → Event
  twilio_error twilio_closed : Event
  -- The check of a task's authorization is done.
  checked : ℕ → Event
  -- What a task waits for has thrown.
  thrown : ℕ → String → Event
  -- The token of a task came: its socket is made.
  token : ℕ → Event
  upstream_opened : ℕ → Event
  upstream_message : ℕ → Option OpenAiEvent → Event
  upstream_error upstream_closed : ℕ → Event

pub data OpenAiCommand : Type 0 where
  append : String → OpenAiCommand
  create_response : OpenAiCommand

pub data TwilioCommand : Type 0 where
  media : String → String → TwilioCommand
  clear : String → TwilioCommand

pub data Effect : Type 0 where
  -- `reportEvent`, with its call, its type, and its session or its detail.
  report : Option String → String → Option String → Effect
  log_error : Option String → String → Effect
  to_open_ai : ℕ → OpenAiCommand → Effect
  to_twilio : TwilioCommand → Effect
  close_upstream : ℕ → ℕ → String → Effect
  close_twilio : ℕ → String → Effect
