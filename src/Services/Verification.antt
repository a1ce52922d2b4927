-- ===== src/Services/Verification.antt =====
-- lib/services/verification.ts: `deliverTextRecap` and `sendCommitmentRecap`, with `voiceTransport` and
-- `voiceProviderTag` of lib/providers/transport.ts. The channels are the fields of a record: what a
-- provider answers, or the message that it throws.
pub mod Recording
pub mod Recap
use volta_hackathon.Prelude.{
  String, Option, none, some, List, [], ◌∷◌, ◌++◌, ◌==◌, Bool, not, ◌||◌, find, Result, ok, err,
  if◌then◌else◌,
}
use volta_hackathon.Prelude.Text.{◌<>◌, trim, join}
use volta_hackathon.Domain.Types.{
  Commitment, CommitmentStatus, OperationSnapshot, Severity, PayloadValue, PayloadField,
  VoiceProvider,
}
use volta_hackathon.Domain.Commitment.{same_status}
use volta_hackathon.Store.Environment.{Environment}
use volta_hackathon.Store.Mutation.{default_operation}
use volta_hackathon.Store.Ledger.{EventInput, add_event, field}
use volta_hackathon.Store.Booking.{mark_recap_sent}
use volta_hackathon.Store.Session.{Session, Interference, answer, fail, read, perform, ◌>>=◌, ◌>>◌}

unfoldable pub voice_transport : Option String → VoiceProvider
voice_transport none = VoiceProvider.twilio
voice_transport (some value) =
    if trim value == "whatsapp"
    then VoiceProvider.whatsapp
    else if trim value == "telnyx"
    then VoiceProvider.telnyx
    else VoiceProvider.twilio

pub record SmsRequest : Type 0 where
  pub to : String
  pub body : String
  pub status_callback : String

pub record Channels : Type 0 where
  pub demo_mode : Bool
  pub transport : VoiceProvider
  -- Each of these answers with the id of its message.
  pub send_whatsapp_text : String → String → Result String
  pub send_telnyx_sms : String → String → Result String
  pub is_twilio_configured : Bool
  pub create_message : SmsRequest → Result String
  pub is_email_configured : Bool
  pub send_recap_email : String → String → String → Result String
  pub public_base_url : String

pub record Delivery : Type 0 where
  pub channel : String
  pub reference : String

abbrev pub simulated : Delivery
simulated = record { channel = "simulated"; reference = "SM_SIMULATED_NO_DELIVERY" }

abbrev pub delivered_as : String → String → Result String → Result Delivery
delivered_as channel prefix (ok id) = ok (record { channel = channel; reference = prefix <> id })
delivered_as channel prefix (err message) = err message

abbrev by_transport : Channels → String → String → VoiceProvider → Result Delivery
by_transport c phone body VoiceProvider.whatsapp =
    delivered_as "WhatsApp" "WA_" (c.send_whatsapp_text phone body)
by_transport c phone body VoiceProvider.telnyx =
    delivered_as "SMS" "TX_" (c.send_telnyx_sms phone body)
by_transport c phone body VoiceProvider.twilio =
    if c.is_twilio_configured
    then delivered_as "SMS" "SM_" (
        c.create_message (record {
          to = phone;
          body = body;
          status_callback = c.public_base_url <> "/api/twilio/messages?commitmentId=" <> phone;
        }))
    else ok simulated

unfoldable pub deliver_text_recap : Channels → String → String → Result Delivery
deliver_text_recap c phone body =
    if c.demo_mode then ok simulated else by_transport c phone body c.transport

-- `delivered` and `failed`, as the two attempts fill them.
pub record Attempts : Type 0 where
  pub delivered : List String
  pub failed : List String

abbrev pub no_attempts : Attempts
no_attempts = record { delivered = []; failed = [] }

abbrev landed : String → Attempts → Attempts
landed reference a = record a { delivered = a.delivered ++ reference ∷ [] }

abbrev missed : String → String → Attempts → Attempts
missed channel message a = record a {
  failed = a.failed ++ (channel <> ": Error: " <> message) ∷ [];
}

-- A commitment that this call has confirmed and whose recap is not sent yet.
abbrev pub awaits_recap : String → Option Commitment → Option Commitment
awaits_recap call_id none = none
awaits_recap call_id (some c) =
    if not (c.booking_call_id == call_id)
      || not (same_status c.status CommitmentStatus.verbally_confirmed)
    then none
    else some c

abbrev pub has_address : Option String → Option String
has_address none = none
has_address (some address) = if address == "" then none else some address

abbrev pub recap_body : Commitment → String
recap_body c = c.recap_text <> " Responde CORRECCIÓN si algún dato no coincide."

abbrev pub recap_subject : OperationSnapshot → String
recap_subject s = s.operation.reference <> " · confirmación de recolección"

abbrev recap_event :
    Commitment → String → String → Severity → String → List PayloadField → EventInput
recap_event c call_id type severity summary payload = record {
  operation_id = c.operation_id;
  call_id = some call_id;
  type = type;
  severity = some severity;
  summary = summary;
  payload = payload;
}

module _ (env : Environment) (interference : Interference) where
  -- `try { await deliver; delivered.push(…); await addEvent } catch { failed.push(…) }`
  unfoldable pub attempt :
      String → String → Result Delivery → (Delivery → EventInput) → Attempts → Session Attempts
  attempt channel prefix (err message) event a w = (ok (missed channel message a), w)
  attempt channel prefix (ok d) event a w =
      let (r, w') = perform env interference (add_event env (event d)) w in
      let sent = landed (prefix <> d.reference) a in
      elim r [ ok logged ↦ (ok sent, w') | err message ↦ (ok (missed channel message sent), w') ]

  -- What follows the two attempts.
  unfoldable pub conclude :
      Commitment → String → List String → List String → Session (Option Commitment)
  conclude c call_id [] failed = do
    perform env interference (
        add_event env (
          recap_event c call_id "recap.failed" Severity.danger
            "No written recap could be delivered; the commitment cannot advance"
            (field "failed" (PayloadValue.texts failed) ∷ [])))
    answer none
  conclude c call_id (d ∷ delivered) failed = do
    elim failed [
      | [] ↦ answer tt
      | f ∷ more ↦
          perform env interference (
            add_event env (
              recap_event c call_id "recap.partial" Severity.warning
                "One recap channel failed; another delivered"
                (field "failed" (PayloadValue.texts (f ∷ more)) ∷ [])))
          >> answer tt
    ]
    sent ← perform env interference (mark_recap_sent env c.id (join "+" (d ∷ delivered)))
    answer (some sent)

  module _ (channels : Channels) where
    unfoldable pub attempt_text : Commitment → String → String → Attempts → Session Attempts
    attempt_text c call_id phone a =
        attempt "text" "" (deliver_text_recap channels phone (recap_body c))
          (λ d.
            recap_event c call_id "recap.sent" Severity.success
              ("Written recap sent by " <> d.channel)
              (field "reference" (PayloadValue.text d.reference) ∷ []))
          a

    unfoldable pub attempt_email :
        Commitment → String → String → Option String → Attempts → Session Attempts
    attempt_email c call_id subject none a = answer a
    attempt_email c call_id subject (some email) a =
        if channels.is_email_configured
        then attempt "email" "EM_"
            (delivered_as "email" "" (channels.send_recap_email email subject (recap_body c)))
            (λ d.
              recap_event c call_id "recap.sent" Severity.success
                ("Written recap emailed to " <> email)
                (field "reference" (PayloadValue.text d.reference) ∷ []))
            a
        else (perform env interference (
              add_event env (
                recap_event c call_id "recap.channel_unavailable" Severity.warning
                  (email <> " is on the briefing but no email sender is configured") []))
            >> answer a)

    unfoldable pub send_recap :
        OperationSnapshot → String → Option Commitment → Session (Option Commitment)
    send_recap s call_id none = answer none
    send_recap s call_id (some c) = elim (find (λ x. x.id == c.carrier_id) s.carriers) [
      | none ↦ fail "Commitment carrier not found"
      | some carrier ↦ attempt_text c call_id carrier.phone_e164 no_attempts >>= λ a.
          attempt_email c call_id (recap_subject s) (has_address carrier.email) a >>= λ b.
          conclude c call_id b.delivered b.failed
    ]

    unfoldable pub send_commitment_recap : String → Session (Option Commitment)
    send_commitment_recap call_id = do
      s ← read default_operation
      send_recap s call_id (awaits_recap call_id s.commitment)
