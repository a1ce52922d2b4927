-- ===== src/Services/Handoff.antt =====
-- lib/services/operations.ts: `takeOver` and `simulateInboundException`. What the voice providers do for
-- a handoff is the fields of a record: they answer or throw.
pub mod Order
use volta_hackathon.Prelude.{
  String, Option, none, some, List, [], ◌∷◌, ◌==◌, Bool, find, or_throw, Result, if◌then◌else◌,
}
use volta_hackathon.Prelude.Text.{◌<>◌, trim}
use volta_hackathon.Domain.Types.{
  CallAttempt, CallMode, CallStatus, Commitment, Escalation, EscalationStatus, OperationSnapshot,
  PayloadField, PayloadValue, Severity, VoiceProvider,
}
use volta_hackathon.Store.Environment.{Environment}
use volta_hackathon.Store.Ledger.{EventInput, add_event, field}
use volta_hackathon.Store.Calls.{create_call, update_call}
use volta_hackathon.Store.Escalations.{create_escalation, update_escalation}
use volta_hackathon.Store.Session.{Session, Interference, answer, read, perform, ◌>>=◌, ◌>>◌}
use volta_hackathon.Services.Operations.{lifted, no_change, new_call}

pub record HandoffProvider : Type 0 where
  pub transport : VoiceProvider
  -- `transferWhatsAppCall`, with the id of the leg that it dialled.
  pub transfer_whatsapp_call : String → String → Result String
  pub is_telnyx_configured : Bool
  pub call_operator_with_context : String → String → Result (Unit {0})
  pub refer_call_to_operator : String → Option String → Result (Unit {0})
  pub dial_human_takeover : CallAttempt → Option String → Result (Unit {0})

-- A text that is there and not empty.
abbrev pub present : Option String → Option String
present none = none
present (some text) = if text == "" then none else some text

abbrev trimmed : Option String → Option String
trimmed none = none
trimmed (some text) = present (some (trim text))

abbrev handoff_event :
    String → CallAttempt → String → Severity → String → List PayloadField → EventInput
handoff_event operation_id call type severity summary payload = record {
  operation_id = operation_id;
  call_id = some call.id;
  type = type;
  severity = some severity;
  summary = summary;
  payload = payload;
}

abbrev committed_carrier : Option Commitment → String
committed_carrier none = "carrier-rutapac"
committed_carrier (some c) = c.carrier_id

module _ (env : Environment) (interference : Interference) (provider : HandoffProvider)
    (live : Bool) where
  -- The handoff stays in the dashboard.
  unfoldable pub stay_in_dashboard : String → Escalation → CallAttempt → String → Session (Unit {0})
  stay_in_dashboard operation_id e call summary =
      perform env interference (update_escalation env e.id EscalationStatus.connected)
      >> perform env interference (
          add_event env (
            handoff_event operation_id call "escalation.dashboard_only" Severity.warning summary
              []))
      >> answer tt

  unfoldable pub call_operator : String → Escalation → CallAttempt → String → Session (Unit {0})
  call_operator operation_id e call phone =
      if provider.is_telnyx_configured
      then lifted (provider.call_operator_with_context phone call.id)
        >> perform env interference (
            add_event env (
              handoff_event operation_id call "escalation.operator_called" Severity.warning
                ("Calling " <> phone <> " with the escalation context") []))
        >> answer tt
      else stay_in_dashboard operation_id e call
          "No PSTN transport is configured, so the handoff stays in the dashboard"

  unfoldable pub take_over_whatsapp :
      String → Escalation → CallAttempt → Option String → Option String → Session (Unit {0})
  take_over_whatsapp operation_id e call none provider_call_id =
      stay_in_dashboard operation_id e call
        "No handoff number is set on the briefing, so the handoff stays in the dashboard"
  take_over_whatsapp operation_id e call (some phone) none = call_operator operation_id e call phone
  take_over_whatsapp operation_id e call (some phone) (some provider_call_id) = do
    dialed ← lifted (provider.transfer_whatsapp_call provider_call_id phone)
    perform env interference (
        add_event env (
          handoff_event operation_id call "escalation.transferring" Severity.warning
            ("Transferring the live call to " <> phone)
            (field "dialedId" (PayloadValue.text dialed) ∷ [])))
    answer tt

  unfoldable pub hand_off :
      String → Escalation → CallAttempt → Option String → VoiceProvider → Session (Unit {0})
  hand_off operation_id e call phone VoiceProvider.whatsapp =
      take_over_whatsapp operation_id e call (trimmed phone) (present call.provider_call_id)
  hand_off operation_id e call phone VoiceProvider.telnyx = do
    session ←
        lifted
          (or_throw (present call.openai_call_id) "The escalated call has no live realtime session")
    lifted (provider.refer_call_to_operator session phone)
  hand_off operation_id e call phone VoiceProvider.twilio =
      lifted (provider.dial_human_takeover call phone)

  unfoldable pub take_over : String → Session OperationSnapshot
  take_over operation_id = do
    s ← read operation_id
    e ← lifted (or_throw s.escalation "No open escalation")
    call ← lifted (or_throw (find (λ c. c.id == e.call_id) s.calls) "Escalated call not found")
    perform env interference (update_escalation env e.id EscalationStatus.dialing)
    if live
        then hand_off operation_id e call s.operation.handoff_phone_e164 provider.transport
        else perform env interference (update_escalation env e.id EscalationStatus.connected)
          >> answer tt
    read operation_id

  unfoldable pub simulate_inbound_exception : String → Session OperationSnapshot
  simulate_inbound_exception operation_id = do
    s ← read operation_id
    call ←
        perform env interference (
          create_call env (new_call operation_id (committed_carrier s.commitment) CallMode.inbound))
    perform env interference
        (update_call env call.id (record no_change { status = some CallStatus.in_progress }))
    perform env interference (
        add_event env (
          handoff_event operation_id call "change.blocked" Severity.danger
            "Truck breakdown; carrier requested Friday pickup"
            (field "from" (PayloadValue.text s.operation.pickup_date)
              ∷ field "to" (PayloadValue.text "2026-09-04")
              ∷ [])))
    perform env interference (
        create_escalation env operation_id call.id "Truck unavailable for the committed pickup day"
          "Move pickup from Thursday to Friday at 09:00")
    perform env interference (
        add_event env (
          handoff_event operation_id call "demo.inbound_simulated" Severity.warning
            "Inbound exception simulated for adversarial demo" []))
    read operation_id
