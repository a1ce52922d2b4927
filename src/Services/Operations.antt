-- ===== src/Services/Operations.antt =====
-- lib/services/operations.ts: a single quote call and the renegotiation. The dialling of the voice
-- provider is a parameter: it returns the two legs of the call, or throws. `live` says whether the
-- telephony is configured and the demo mode is off.
use volta_hackathon.Prelude.{
  String, Option, none, some, [], ◌==◌, Bool, if◌then◌else◌, find, or_throw, Result, ok, err,
}
use volta_hackathon.Prelude.Text.{◌<>◌}
use volta_hackathon.Domain.Types.{
  CallAttempt, CallMode, CallStatus, Carrier, Commitment, OperationSnapshot, Severity,
  VoiceProvider,
}
use volta_hackathon.Domain.Commitment.{is_retired}
use volta_hackathon.Store.Environment.{Environment}
use volta_hackathon.Store.Ledger.{add_event}
use volta_hackathon.Store.Booking.{supersede_commitment}
use volta_hackathon.Store.Calls.{CreateCallInput, UpdateCallInput, create_call, update_call}
use volta_hackathon.Store.Transcripts.{finalize_call_brief}
use volta_hackathon.Store.Session.{Session, Interference, answer, fail, read, perform, ◌>>=◌, ◌>>◌}

pub record Legs : Type 0 where
  pub carrier_call_sid : String
  pub agent_call_sid : Option String

abbrev pub lifted : {A : Type 0} → Result A → Session A
lifted r w = (r, w)

abbrev pub no_change : UpdateCallInput
no_change = record {
  status = none;
  twilio_call_sid = none;
  twilio_agent_call_sid = none;
  openai_call_id = none;
  provider = none;
  provider_call_id = none;
  started_at = none;
  ended_at = none;
  failure_reason = none;
}

unfoldable pub ringing : VoiceProvider → Legs → UpdateCallInput
ringing provider legs = record no_change {
  status = some CallStatus.ringing;
  twilio_call_sid = some (some legs.carrier_call_sid);
  twilio_agent_call_sid = some legs.agent_call_sid;
  provider = some provider;
  provider_call_id = some (some legs.carrier_call_sid);
}

-- `String(error)` of an `Error` puts the name of its class before the message.
unfoldable pub failed_with : String → UpdateCallInput
failed_with message = record no_change {
  status = some CallStatus.failed;
  failure_reason = some (some ("Error: " <> message));
}

abbrev pub new_call : String → String → CallMode → CreateCallInput
new_call operation_id carrier_id mode = record {
  operation_id = operation_id;
  carrier_id = some carrier_id;
  mode = mode;
  conference_name = none;
}

-- `try { await body } catch (error) { await onError; throw error }`
abbrev or_rethrow : {A : Type 0} → Session A → (String → Session CallAttempt) → Session A
or_rethrow body on_error w =
    let (r, w') = body w in
    elim r [ ok a ↦ (ok a, w') | err message ↦ (on_error message >> fail message) w' ]

abbrev pub standing_commitment : Option Commitment → Option Commitment
standing_commitment none = none
standing_commitment (some c) = if is_retired c.status then none else some c

module _ (env : Environment) (interference : Interference)
    (dial_voice_call : CallAttempt → Carrier → Result Legs) (live : Bool) where
  -- Dials, and records the ringing call; where that throws, the call fails and the error is thrown on.
  unfoldable pub dial : CallAttempt → Carrier → Session CallAttempt
  unfolding ringing failed_with
  dial call carrier =
      or_rethrow
        (lifted (dial_voice_call call carrier) >>= λ legs.
          perform env interference (update_call env call.id (ringing env.voice_provider_tag legs)))
        (λ message. perform env interference (update_call env call.id (failed_with message)))

  unfoldable pub start_single_quote_call : String → String → Session OperationSnapshot
  start_single_quote_call operation_id carrier_id = do
    s ← read operation_id
    carrier ← lifted (or_throw (find (λ c. c.id == carrier_id) s.carriers) "Carrier not found")
    if live then answer tt else fail "Live telephony is not configured"
    call ←
        perform env interference (create_call env (new_call operation_id carrier_id CallMode.quote))
    dial call carrier
    read operation_id

  simulated_renegotiation : String → CallAttempt → Session CallAttempt
  simulated_renegotiation operation_id call = do
    perform env interference
        (update_call env call.id (record no_change { status = some CallStatus.completed }))
    perform env interference (
        add_event env (record {
          operation_id = operation_id;
          call_id = some call.id;
          type = "demo.renegotiation_simulated";
          severity = some Severity.warning;
          summary = "Renegotiation call simulated because live telephony is not configured";
          payload = [];
        }))
    perform env interference (finalize_call_brief env call.id)
    answer call

  unfoldable pub start_renegotiation : String → Session OperationSnapshot
  unfolding simulated_renegotiation
  start_renegotiation operation_id = do
    s ← read operation_id
    commitment ← lifted (
        or_throw (standing_commitment s.commitment) "There is no standing agreement to renegotiate")
    carrier ← lifted (
        or_throw (find (λ c. c.id == commitment.carrier_id) s.carriers)
          "Committed carrier not found")
    perform env interference (
        supersede_commitment env commitment.id
          "Briefing changed after agreement; calling the carrier back to renegotiate under the new mandate")
    call ←
        perform env interference
          (create_call env (new_call operation_id carrier.id CallMode.renegotiation))
    if live then dial call carrier else simulated_renegotiation operation_id call
    read operation_id
