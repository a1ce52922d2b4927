-- ===== src/Api/Takeover.antt =====
-- app/api/operations/[id]/takeover/webrtc/route.ts, with `apiError` of lib/server/http.ts. `allowed` is
-- what `requireOperator` and the schema return or throw; `bridge` is `startWhatsAppBrowserTakeover`.
use volta_hackathon.Prelude.{
  ℕ, String, Option, none, some, Bool, true, false, ◌==◌, find, or_throw, Result, if◌then◌else◌,
}
use volta_hackathon.Domain.Types.{
  CallAttempt, Escalation, EscalationStatus, OperationSnapshot, VoiceProvider,
}
use volta_hackathon.Store.Environment.{Environment}
use volta_hackathon.Store.Escalations.{update_escalation}
use volta_hackathon.Store.Session.{Session, Interference, answer, read, perform, ◌>>=◌, ◌>>◌}
use volta_hackathon.Services.Operations.{lifted}
use volta_hackathon.Services.Handoff.{present}

-- What a handler may throw: an `HttpError`, a `ZodError`, another `Error`, or a value of another type.
pub data Thrown : Type 0 where
  http_error : ℕ → String → Thrown
  zod_error : Thrown
  plain_error : String → Thrown
  other_value : Thrown

pub record Failure : Type 0 where
  pub status : ℕ
  pub error : String

unfoldable pub api_error : Thrown → Failure
api_error (http_error status message) = record { status = status; error = message }
api_error zod_error = record { status = 400; error = "Invalid request" }
api_error (plain_error message) =
    if message == "UNAUTHORIZED"
    then record { status = 401; error = "Unauthorized" }
    else record { status = 500; error = message }
api_error other_value = record { status = 500; error = "Internal error" }

abbrev is_whatsapp : Option VoiceProvider → Bool
is_whatsapp (some VoiceProvider.whatsapp) = true
is_whatsapp _ = false

-- The leg of a WhatsApp call that is still known.
abbrev whatsapp_leg : Option CallAttempt → Option String
whatsapp_leg none = none
whatsapp_leg (some call) = if is_whatsapp call.provider then present call.provider_call_id else none

abbrev dialing_escalation : Option Escalation → Option Escalation
dialing_escalation none = none
dialing_escalation (some e) = elim e.status [
  | EscalationStatus.dialing ↦ some e
  | EscalationStatus.open_ ↦ none
  | EscalationStatus.connected ↦ none
  | EscalationStatus.resolved ↦ none
]

module _ (env : Environment) (interference : Interference) where
  -- `POST`: the answer of the bridge and the operation.
  unfoldable pub start_browser_takeover :
      (String → String → Result String) → String → String → Session (String × OperationSnapshot)
  start_browser_takeover bridge id sdp_offer = do
    s ← read id
    e ← lifted (or_throw s.escalation "No open escalation")
    leg ← lifted (
        or_throw (whatsapp_leg (find (λ c. c.id == e.call_id) s.calls))
          "The escalated WhatsApp call is no longer available")
    perform env interference (update_escalation env e.id EscalationStatus.dialing)
    sdp_answer ← lifted (bridge leg sdp_offer)
    s' ← read id
    answer (sdp_answer, s')

  -- `PATCH`
  unfoldable pub confirm_browser_takeover : String → Session OperationSnapshot
  confirm_browser_takeover id = do
    s ← read id
    e ← lifted (
        or_throw (dialing_escalation s.escalation)
          "No browser takeover is waiting for confirmation")
    perform env interference (update_escalation env e.id EscalationStatus.connected)
    read id
