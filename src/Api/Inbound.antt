-- ===== src/Api/Inbound.antt =====
-- app/api/openai/realtime/route.ts, app/api/whatsapp/inbound/route.ts and app/api/telnyx/texml/voice/route.ts:
-- calls that come in, and the calls that Volta dialled and that come back with their id. What the checks
-- of signature and schema return or throw is an argument.
pub mod Openai
use Prim.Native.Char.{code}
use Prim.Native.String
use volta_hackathon.Prelude.{
  String, Option, none, some, List, [], ◌∷◌, Bool, false, ◌&&◌, ◌==◌, leb, find, or_else, Result,
  ok, err, if◌then◌else◌,
}
use volta_hackathon.Prelude.Text.{◌<>◌}
use volta_hackathon.Domain.Types.{
  CallAttempt, CallMode, CallStatus, Carrier, OperationSnapshot, PayloadField, Severity,
  VoiceProvider,
}
use volta_hackathon.Store.Environment.{Environment}
use volta_hackathon.Store.Ledger.{EventInput, add_event, field, optional_text}
use volta_hackathon.Store.Calls.{create_call, update_call}
use volta_hackathon.Store.Escalations.{create_escalation}
use volta_hackathon.Store.Mutation.{World, default_operation}
use volta_hackathon.Store.Session.{Session, Interference, answer, read, perform, ◌>>=◌, ◌>>◌}
use volta_hackathon.Services.Operations.{no_change}
use volta_hackathon.Services.Handoff.{present}
use volta_hackathon.Api.Receipts.{Response}

-- `value.replace(/\D/g, "")`
abbrev pub digits : String → String
digits String.[] = ""
digits (String.◌∷◌ c s) =
    let rest = digits s in
    if leb b'0' (code c) && leb (code c) b'9' then String.◌∷◌ c rest else rest

abbrev pub carrier_by_digits : String → OperationSnapshot → Option Carrier
carrier_by_digits number s = find (λ c. digits c.phone_e164 == number) s.carriers

abbrev id_of : Option Carrier → Option String
id_of none = none
id_of (some c) = some c.id

abbrev matched_severity : Option Carrier → Severity
matched_severity none = Severity.warning
matched_severity (some c) = Severity.success

abbrev matched_summary : String → String → Option Carrier → String
matched_summary matched otherwise none = otherwise
matched_summary matched otherwise (some c) = matched <> c.name

abbrev has_id : String → CallAttempt → Bool
has_id id c = c.id == id

abbrev inbound_event :
    OperationSnapshot
    → CallAttempt
    → String
    → Option Carrier
    → String
    → String
    → List PayloadField
    → EventInput
inbound_event s call type carrier matched otherwise payload = record {
  operation_id = s.operation.id;
  call_id = some call.id;
  type = type;
  severity = some (matched_severity carrier);
  summary = matched_summary matched otherwise carrier;
  payload = payload;
}

module _ (env : Environment) (interference : Interference) where
  unfoldable pub create_inbound_call : OperationSnapshot → Option Carrier → Session CallAttempt
  create_inbound_call s carrier = perform env interference (
      create_call env (record {
        operation_id = s.operation.id;
        carrier_id = id_of carrier;
        mode = CallMode.inbound;
        conference_name = none;
      }))

  abbrev is_whatsapp_call : String → CallAttempt → Bool
  is_whatsapp_call id c = elim c.provider [
    | some VoiceProvider.whatsapp ↦ elim c.provider_call_id [
      | none ↦ false
      | some other ↦ other == id
    ]
    | some VoiceProvider.twilio ↦ false
    | some VoiceProvider.telnyx ↦ false
    | none ↦ false
  ]

  -- A caller that no carrier's number matches is escalated at once.
  unfoldable pub identify_caller : OperationSnapshot → String → Option Carrier → Session String
  identify_caller s provider_call_id carrier = do
    call ← create_inbound_call s carrier
    perform env interference (
        update_call env call.id (record no_change {
          status = some CallStatus.ringing;
          provider = some VoiceProvider.whatsapp;
          provider_call_id = some (some provider_call_id);
        }))
    perform env interference (
        add_event env (
          inbound_event s call "inbound.identified" carrier "Inbound caller matched to "
            "Inbound caller identity is uncertain"
            (field "carrierId" (optional_text (id_of carrier))
              ∷ field "providerCallId" (optional_text (some provider_call_id))
              ∷ [])))
    elim carrier [
      | some c ↦ answer call.id
      | none ↦
          perform env interference (
            create_escalation env s.operation.id call.id
              "Inbound caller identity could not be verified"
              "Continue the operational conversation with an unrecognized caller")
          >> answer call.id
    ]

  unfoldable pub accept_whatsapp_call : String → String → Session String
  accept_whatsapp_call provider_call_id peer = read default_operation >>= λ s.
      elim (find (is_whatsapp_call provider_call_id) s.calls) [
        | some call ↦ answer call.id
        | none ↦ identify_caller s provider_call_id (carrier_by_digits (digits peer) s)
      ]

  -- Telnyx: the call to dial into the realtime model, or what to say before hanging up.
  unfoldable pub bind_telnyx_call :
      OperationSnapshot → (String → Option String) → Option Carrier → Session CallAttempt
  bind_telnyx_call s form carrier = do
    call ← create_inbound_call s carrier
    call' ← perform env interference (
        update_call env call.id (record no_change {
          status = some CallStatus.in_progress;
          provider = some VoiceProvider.telnyx;
          provider_call_id = some (form "CallSid");
        }))
    perform env interference (
        add_event env (
          inbound_event s call' "inbound.identified" carrier "Inbound PSTN call matched to "
            ("Inbound PSTN call from an unrecognised number ("
              <> or_else (form "From") "unknown"
              <> ")")
            (field "carrierId" (optional_text (id_of carrier))
              ∷ field "from" (optional_text (form "From"))
              ∷ field "callSid" (optional_text (form "CallSid"))
              ∷ [])))
    answer call'

  unfoldable pub answer_telnyx_call :
      (CallAttempt → String)
      → (String → String)
      → (String → Option String)
      → Option String
      → Session String
  answer_telnyx_call dial_sip hangup form (some call_id) = do
    s ← read default_operation
    answer (elim (find (has_id call_id) s.calls) [
      | none ↦ hangup "Unknown Volta call"
      | some call ↦ dial_sip call
    ])
  answer_telnyx_call dial_sip hangup form none = do
    s ← read default_operation
    call ← bind_telnyx_call s form (carrier_by_digits (digits (or_else (form "From") "")) s)
    answer (dial_sip call)

  unfoldable pub post_telnyx_voice :
      (CallAttempt → String)
      → (String → String)
      → Result (String → Option String)
      → Option String
      → World
      → Response × World
  post_telnyx_voice dial_sip hangup (err message) call_id w =
      (record { status = 403; body = "Forbidden" }, w)
  post_telnyx_voice dial_sip hangup (ok form) call_id w =
      let (r, w') = answer_telnyx_call dial_sip hangup form (present call_id) w in
      elim r [
        | ok body ↦ (record { status = 200; body = body }, w')
        | err message ↦
            (record { status = 200; body = hangup "Volta could not accept this call" }, w')
      ]
