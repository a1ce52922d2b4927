-- ===== src/Api/Telephone.antt =====
-- app/api/twilio/voice/join/route.ts, app/api/twilio/voice/stream/route.ts, app/api/twilio/voice/inbound/route.ts
-- and app/api/telnyx/texml/handoff/route.ts: the documents that tell a telephone leg what to do. Their
-- printing and the dialling of the agent's leg are arguments.
use volta_hackathon.Prelude.{
  String, Option, none, some, List, [], ◌∷◌, ◌==◌, Bool, false, find, or_else, Result, ok, err,
}
use volta_hackathon.Prelude.Text.{◌<>◌}
use volta_hackathon.Domain.Types.{CallAttempt, CallStatus, Carrier, Escalation, OperationSnapshot}
use volta_hackathon.Store.Environment.{Environment}
use volta_hackathon.Store.Calls.{update_call}
use volta_hackathon.Store.Mutation.{World, default_operation, get_snapshot}
use volta_hackathon.Store.Session.{Session, Interference, answer, read, perform, ◌>>=◌, ◌>>◌}
use volta_hackathon.Services.Operations.{lifted, no_change}
use volta_hackathon.Services.Handoff.{present}
use volta_hackathon.Api.Receipts.{Response}
use volta_hackathon.Api.Callbacks.{Callback, forbidden}
use volta_hackathon.Api.Inbound.{create_inbound_call}

abbrev document : String → Response
document body = record { status = 200; body = body }

abbrev document_for : (CallAttempt → String) → Option CallAttempt → Response
document_for print none = record { status = 404; body = "Call not found" }
document_for print (some call) = document (print call)

-- The document of a call that the query names.
abbrev named_document : (CallAttempt → String) → Option String → World → Response
named_document print none w = record { status = 400; body = "Missing callId" }
named_document print (some call_id) w = elim (get_snapshot default_operation w) [
  | err message ↦ forbidden
  | ok s ↦ document_for print (find (λ c. c.id == call_id) s.calls)
]

abbrev signed_document : (CallAttempt → String) → Callback → World → Response
signed_document print q w = elim q.form [
  | err message ↦ forbidden
  | ok form ↦ named_document print (present (q.search_param "callId")) w
]

unfoldable pub post_twilio_join : (CallAttempt → String → String) → Callback → World → Response
post_twilio_join conference_twiml q w =
    signed_document (λ call. conference_twiml call (or_else (q.search_param "role") "carrier")) q w

unfoldable pub post_twilio_stream : (CallAttempt → String) → Callback → World → Response
post_twilio_stream streaming_twiml q w = signed_document streaming_twiml q w

-- What is read to the human who answers.
unfoldable pub handoff_lines : OperationSnapshot → Option Escalation → List String
handoff_lines s none = "Llamada de Pact. La escalación ya fue resuelta." ∷ []
handoff_lines s (some e) =
    ("Llamada de Pact, operación " <> s.operation.reference <> ", cliente " <> s.operation.customer
      <> ".")
    ∷ ("Se alcanzó el límite de autoridad. " <> e.reason <> ".")
    ∷ ("Lo que piden: " <> e.requested_change <> ".")
    ∷ "El agente no está autorizado a cambiar los términos acordados. La conversación completa está en el panel."
    ∷ []

-- The read of the store stands outside the `try`: what it throws is thrown on.
unfoldable pub post_telnyx_handoff : (List String → String) → Callback → World → Result Response
post_telnyx_handoff handoff_texml q w = elim q.form [
  | err message ↦ ok forbidden
  | ok form ↦ elim (get_snapshot default_operation w) [
    | err message ↦ err message
    | ok s ↦ ok (document (handoff_texml (handoff_lines s s.escalation)))
  ]
]

abbrev phone_is : Option String → Carrier → Bool
phone_is none c = false
phone_is (some phone) c = c.phone_e164 == phone

module _ (env : Environment) (interference : Interference)
    (dial_agent_leg : CallAttempt → Result String) (conference : CallAttempt → String) where
  unfoldable pub join_caller : (String → Option String) → OperationSnapshot → Session String
  join_caller form s = do
    call ← create_inbound_call env interference s (find (phone_is (form "From")) s.carriers)
    perform env interference (
        update_call env call.id (record no_change {
          status = some CallStatus.in_progress;
          twilio_call_sid = some (form "CallSid");
        }))
    sid ← lifted (dial_agent_leg call)
    perform env interference
        (update_call env call.id (record no_change { twilio_agent_call_sid = some (some sid) }))
    answer (conference call)

  unfoldable pub answer_caller : (String → Option String) → Session String
  answer_caller form = do s ← read default_operation; join_caller form s

  unfoldable pub post_twilio_inbound : Callback → World → Response × World
  post_twilio_inbound q w = elim q.form [
    | err message ↦ (forbidden, w)
    | ok form ↦
        let (r, w') = answer_caller form w in
        elim r [ ok body ↦ (document body, w') | err message ↦ (forbidden, w') ]
  ]
