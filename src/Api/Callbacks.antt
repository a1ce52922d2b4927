-- ===== src/Api/Callbacks.antt =====
-- app/api/twilio/voice/status/route.ts, app/api/telnyx/texml/status/route.ts,
-- app/api/twilio/messages/route.ts and app/api/twilio/conference/route.ts: the status callbacks. The form
-- is what the check of the signature returns, by the name of its field, or what it throws.
pub mod Repeats
use volta_hackathon.Prelude.{
  String, Option, none, some, [], ◌∷◌, ◌==◌, Bool, true, false, ◌&&◌, find, or_else, Result, ok,
  err, if◌then◌else◌,
}
use volta_hackathon.Prelude.Text.{◌<>◌, includes}
use volta_hackathon.Domain.Types.{
  CallAttempt, CallStatus, Commitment, CommitmentStatus, EscalationStatus, OperationSnapshot,
  VoiceProvider,
}
use volta_hackathon.Domain.Commitment.{same_status}
use volta_hackathon.Store.Environment.{Environment}
use volta_hackathon.Store.Booking.{mark_recap_sent}
use volta_hackathon.Store.Calls.{UpdateCallInput, update_call}
use volta_hackathon.Store.Escalations.{update_escalation}
use volta_hackathon.Store.Mutation.{default_operation}
use volta_hackathon.Store.Session.{Session, Interference, answer, read, perform, ◌>>=◌, ◌>>◌}
use volta_hackathon.Services.Operations.{lifted, no_change}
use volta_hackathon.Services.Handoff.{present}
use volta_hackathon.Services.Verification.{Channels, send_commitment_recap}
use volta_hackathon.Api.Receipts.{Inserted, Handler, Response, empty_response, once}

pub record Callback : Type 0 where
  pub form : Result (String → Option String)
  -- `url.searchParams.get(name)`
  pub search_param : String → Option String

abbrev pub forbidden : Response
forbidden = record { status = 403; body = "Forbidden" }

-- A form whose signature holds, and then the id in the query.
abbrev pub guarded :
    Result (String → Option String)
    → Option String
    → ((String → Option String) → String → Handler)
    → Handler
guarded (err message) id go s = (forbidden, s)
guarded (ok form) none go s = (empty_response 400, s)
guarded (ok form) (some id) go s = go form id s

-- The `statusMap` of Twilio.
unfoldable pub twilio_status : String → Option CallStatus
twilio_status text =
    if text == "queued"
    then some CallStatus.queued
    else if text == "initiated"
    then some CallStatus.queued
    else if text == "ringing"
    then some CallStatus.ringing
    else if text == "in-progress"
    then some CallStatus.in_progress
    else if text == "completed"
    then some CallStatus.completed
    else if text == "busy"
    then some CallStatus.failed
    else if text == "failed"
    then some CallStatus.failed
    else if text == "no-answer"
    then some CallStatus.failed
    else if text == "canceled"
    then some CallStatus.failed
    else none

-- The `statusMap` of Telnyx.
unfoldable pub telnyx_status : String → Option CallStatus
telnyx_status text = if text == "answered" then some CallStatus.in_progress else twilio_status text

abbrev is_completed : CallStatus → Bool
is_completed CallStatus.completed = true
is_completed _ = false

abbrev failure_of : CallStatus → Option String → Option String
failure_of CallStatus.failed text = text
failure_of _ text = none

abbrev reported_status : Option String → (String → Option CallStatus) → Option CallStatus
reported_status none map = none
reported_status (some text) map = map text

abbrev is_role : String → Option String → Bool
is_role name none = false
is_role name (some role) = role == name

module _ (env : Environment) (interference : Interference) (channels : Channels)
    (insert : Option (String → String → Inserted)) where
  -- The update of the call, and the recap of a call that is completed.
  unfoldable pub follow_status : String → CallStatus → UpdateCallInput → Session (Unit {0})
  follow_status call_id status input = do
    perform env interference (update_call env call_id input)
    if is_completed status
        then send_commitment_recap env interference channels call_id >> answer tt
        else answer tt

  unfoldable pub twilio_status_body :
      String → Option String → (String → Option String) → Session (Unit {0})
  twilio_status_body call_id role form = elim (reported_status (form "CallStatus") twilio_status) [
    | none ↦ answer tt
    | some status ↦
        if is_role "carrier" role
        then follow_status call_id status (record no_change {
          status = some status;
          twilio_call_sid = some (form "CallSid");
          failure_reason = some (failure_of status (form "CallStatus"));
        })
        else answer tt
  ]

  unfoldable pub post_twilio_status : Callback → Handler
  post_twilio_status q = guarded q.form (present (q.search_param "callId")) (λ form call_id.
      once insert "twilio-call"
        (or_else (form "CallSid") call_id
          <> ":"
          <> or_else (form "CallStatus") "unknown"
          <> ":"
          <> or_else (q.search_param "role") "unknown")
        (twilio_status_body call_id (q.search_param "role") form) forbidden)

  unfoldable pub telnyx_status_body : String → (String → Option String) → Session (Unit {0})
  telnyx_status_body call_id form = elim (telnyx_status (or_else (form "CallStatus") "")) [
    | none ↦ answer tt
    | some status ↦ follow_status call_id status (record no_change {
      status = some status;
      provider = some VoiceProvider.telnyx;
      provider_call_id = some (form "CallSid");
      failure_reason = some (failure_of status (some (or_else (form "CallStatus") "failed")));
    })
  ]

  -- What the body throws is only logged.
  unfoldable pub post_telnyx_status : Callback → Handler
  post_telnyx_status q = guarded q.form (present (q.search_param "callId")) (λ form call_id.
      once insert "telnyx-call"
        (or_else (form "CallSid") call_id <> ":" <> or_else (form "CallStatus") "unknown")
        (telnyx_status_body call_id form) (empty_response 204))

  abbrev awaiting : String → Option Commitment → Bool
  awaiting id none = false
  awaiting id (some c) = c.id == id && same_status c.status CommitmentStatus.verbally_confirmed

  -- Twilio names every message; a form without the name would store `undefined`.
  unfoldable pub mark_delivered :
      String → (String → Option String) → OperationSnapshot → Session (Unit {0})
  mark_delivered commitment_id form s =
      if awaiting commitment_id s.commitment
      then perform env interference
          (mark_recap_sent env commitment_id (or_else (form "MessageSid") "undefined"))
        >> answer tt
      else answer tt

  unfoldable pub message_body : String → (String → Option String) → Session (Unit {0})
  message_body commitment_id form =
      if includes ("sent" ∷ "delivered" ∷ []) (or_else (form "MessageStatus") "")
      then (read default_operation >>= λ s. mark_delivered commitment_id form s)
      else answer tt

  unfoldable pub post_twilio_message : Callback → Handler
  post_twilio_message q =
      guarded q.form (present (q.search_param "commitmentId")) (λ form commitment_id.
        once insert "twilio-message"
          (or_else (form "MessageSid") commitment_id
            <> ":"
            <> or_else (form "MessageStatus") "unknown")
          (message_body commitment_id form) forbidden)

  abbrev agent_leg : Option CallAttempt → Option String
  agent_leg none = none
  agent_leg (some call) = present call.twilio_agent_call_sid

  -- `hang_up` ends a leg at Twilio, or throws.
  module _ (hang_up : String → Result (Unit {0})) where
    -- The human is connected, and the leg of the agent ends.
    unfoldable pub human_joined : String → OperationSnapshot → Session (Unit {0})
    human_joined call_id s = do
      elim s.escalation [
        | none ↦ answer tt
        | some e ↦
            perform env interference (update_escalation env e.id EscalationStatus.connected)
            >> answer tt
      ]
      elim (agent_leg (find (λ c. c.id == call_id) s.calls)) [
        | none ↦ answer tt
        | some sid ↦ lifted (hang_up sid)
      ]

    unfoldable pub conference_body :
        String → Option String → (String → Option String) → Session (Unit {0})
    conference_body call_id role form =
        if is_role "human" role && is_role "participant-join" (form "StatusCallbackEvent")
        then (read default_operation >>= λ s. human_joined call_id s)
        else answer tt

    unfoldable pub post_twilio_conference : Callback → Handler
    post_twilio_conference q = guarded q.form (present (q.search_param "callId")) (λ form call_id.
        once insert "twilio-conference"
          (or_else (form "ConferenceSid") call_id
            <> ":"
            <> or_else (form "CallSid") "none"
            <> ":"
            <> or_else (form "StatusCallbackEvent") "unknown"
            <> ":"
            <> or_else (q.search_param "role") "unknown")
          (conference_body call_id (q.search_param "role") form) forbidden)
