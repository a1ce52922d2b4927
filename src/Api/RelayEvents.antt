-- ===== src/Api/RelayEvents.antt =====
-- app/api/openai/realtime/relay-events/route.ts: what the relays report. The event is what the schema
-- makes of the body, or what it throws; `authorized` is what `authorizeRelayRequest` returns or throws.
use volta_hackathon.Prelude.{
  String, Option, none, some, [], ◌∷◌, Bool, true, false, or_else, Result, ok, err, if◌then◌else◌,
}
use volta_hackathon.Prelude.Text.{◌<>◌}
use volta_hackathon.Domain.Types.{
  CallAttempt, CallStatus, Carrier, Severity, TranscriptSpeaker, VoiceProvider,
}
use volta_hackathon.Domain.Confirmation.Words.{Text, codes}
use volta_hackathon.Domain.Transcripts.{is_transcription_context_echo}
use volta_hackathon.Store.Environment.{Environment}
use volta_hackathon.Store.Ledger.{add_event, field, optional_text}
use volta_hackathon.Store.Calls.{UpdateCallInput, update_call}
use volta_hackathon.Store.Transcripts.{record_transcript, finalize_call_brief}
use volta_hackathon.Store.Mutation.{World, default_operation}
use volta_hackathon.Store.Session.{Session, Interference, answer, perform, ◌>>◌}
use volta_hackathon.Services.Operations.{Legs, no_change}
use volta_hackathon.Services.Handoff.{present}
use volta_hackathon.Services.Market.{auto_book_if_settled}
use volta_hackathon.Services.Verification.{Channels, send_commitment_recap}
use volta_hackathon.Api.Receipts.{Response, empty_response}

pub data RelayEventType : Type 0 where
  stream_started session_created response_done stream_stopped relay_error call_ringing call_active
        call_ended transcript_final :
      RelayEventType

pub record RelayEvent : Type 0 where
  pub call_id : String
  pub event_type : RelayEventType
  pub session_id : Option String
  pub provider_call_id : Option String
  pub detail : Option String
  pub speaker : Option TranscriptSpeaker
  pub item_id : Option String
  pub transcript : Option String

abbrev pub event_type_text : RelayEventType → String
event_type_text stream_started = "stream.started"
event_type_text session_created = "session.created"
event_type_text response_done = "response.done"
event_type_text stream_stopped = "stream.stopped"
event_type_text relay_error = "relay.error"
event_type_text call_ringing = "call.ringing"
event_type_text call_active = "call.active"
event_type_text call_ended = "call.ended"
event_type_text transcript_final = "transcript.final"

abbrev severity_of : RelayEventType → Severity
severity_of relay_error = Severity.danger
severity_of _ = Severity.info

abbrev pub error_response : Response → String → Response
error_response r error = record r { body = error }

abbrev pub incomplete : Response
incomplete = record { status = 400; body = "Transcript payload is incomplete" }

-- `event.providerCallId ?? undefined`
abbrev kept_or_undefined : Option String → Option (Option String)
kept_or_undefined none = none
kept_or_undefined (some id) = some (some id)

abbrev status_update : CallStatus → UpdateCallInput
status_update status = record no_change { status = some status }

-- `.catch` with a handler that only logs.
abbrev ignoring_errors : {A : Type 0} → Session A → Session (Unit {0})
ignoring_errors m w = (ok tt, (m w).1)

module _ (env : Environment) (interference : Interference) (channels : Channels)
    (dial_voice_call : CallAttempt → Carrier → Result Legs) (live : Bool)
    (nfd lower_case : Text → Text) where
  unfoldable pub record_final :
      RelayEvent → Option TranscriptSpeaker → Option String → Option String → Session Response
  record_final event (some speaker) (some item_id) (some transcript) =
      if is_transcription_context_echo nfd lower_case (codes transcript)
      then answer (empty_response 204)
      else perform env interference (
          record_transcript env (record {
            operation_id = default_operation;
            call_id = event.call_id;
            speaker = speaker;
            provider_item_id = item_id;
            text = transcript;
          }))
        >> answer (empty_response 204)
  record_final event speaker item_id transcript = answer incomplete

  -- The quote call that closes last settles the market.
  unfoldable pub end_call : String → Session (Unit {0})
  end_call call_id = do
    perform env interference (update_call env call_id (status_update CallStatus.completed))
    perform env interference (finalize_call_brief env call_id)
    ignoring_errors
        (auto_book_if_settled env interference channels dial_voice_call live default_operation)

  unfoldable pub follow_event : RelayEvent → RelayEventType → Session (Unit {0})
  follow_event event session_created =
      perform env interference (
        update_call env event.call_id (record no_change {
          status = some CallStatus.in_progress;
          openai_call_id = some event.session_id;
          provider = some VoiceProvider.whatsapp;
          provider_call_id = kept_or_undefined event.provider_call_id;
        }))
      >> answer tt
  follow_event event call_ringing =
      perform env interference (
        update_call env event.call_id (record no_change {
          status = some CallStatus.ringing;
          provider = some VoiceProvider.whatsapp;
          provider_call_id = kept_or_undefined event.provider_call_id;
        }))
      >> answer tt
  follow_event event call_active =
      perform env interference
        (update_call env event.call_id (status_update CallStatus.in_progress))
      >> answer tt
  follow_event event call_ended = end_call event.call_id
  follow_event event stream_stopped =
      end_call event.call_id
      >> send_commitment_recap env interference channels event.call_id
      >> answer tt
  follow_event event relay_error =
      perform env interference (
        update_call env event.call_id (record no_change {
          status = some CallStatus.failed;
          failure_reason = some (some (or_else event.detail "Realtime relay error"));
        }))
      >> answer tt
  follow_event event _ = answer tt

  unfoldable pub log_event : RelayEvent → Session Response
  log_event event =
      perform env interference (
        add_event env (record {
          operation_id = default_operation;
          call_id = some event.call_id;
          type = "relay." <> event_type_text event.event_type;
          severity = some (severity_of event.event_type);
          summary = or_else event.detail (event_type_text event.event_type);
          payload =
              field "sessionId" (optional_text event.session_id)
              ∷ field "providerCallId" (optional_text event.provider_call_id)
              ∷ [];
        }))
      >> answer (empty_response 204)

  unfoldable pub take_event : RelayEvent → RelayEventType → Session Response
  take_event event transcript_final =
      record_final event event.speaker (present event.item_id) (present event.transcript)
  take_event event type = follow_event event type >> log_event event

  abbrev or_rejected : Session Response → World → Response × World
  or_rejected m w = elim (m w).0 [
    | ok response ↦ (response, (m w).1)
    | err message ↦ (record { status = 400; body = "Invalid relay event" }, (m w).1)
  ]

  unfoldable pub post_relay_event : Result Bool → Result RelayEvent → World → Response × World
  post_relay_event (err message) event w =
      (record { status = 400; body = "Invalid relay event" }, w)
  post_relay_event (ok false) event w = (record { status = 401; body = "Unauthorized" }, w)
  post_relay_event (ok true) (err message) w =
      (record { status = 400; body = "Invalid relay event" }, w)
  post_relay_event (ok true) (ok event) w = or_rejected (take_event event event.event_type) w
