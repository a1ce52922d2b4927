-- ===== src/Store/Calls.antt =====
-- lib/store/base.ts: `createCall` and `updateCall`. lib/store/types.ts: their inputs. A key that an
-- input leaves out is `none`.
use volta_hackathon.Prelude.{
  ◌+◌, String, Option, none, some, [], ◌∷◌, ◌++◌, ◌==◌, Bool, true, false, not, ◌&&◌, find, is_some,
  or_else, or_throw, update_first, if◌then◌else◌,
}
use volta_hackathon.Prelude.Text.{◌<>◌, slice_units}
use volta_hackathon.Domain.Types.{
  CallAttempt, CallMode, CallStatus, OperationStatus, Severity, VoiceProvider,
}
use volta_hackathon.Domain.Policy.{is_quote, is_settled}
use volta_hackathon.Store.Environment.{Environment}
use volta_hackathon.Store.Action.{
  Draft, Action, pure, always, lift, gets, throw_if, modify, fresh_id, ◌>>=◌, ◌>>◌,
}
use volta_hackathon.Store.Ledger.{EventInput, push_event, field, optional_text}
use volta_hackathon.Store.Offers.{quotes_are_settled}

pub record CreateCallInput : Type 0 where
  pub operation_id : String
  pub carrier_id : Option String
  pub mode : CallMode
  pub conference_name : Option String

-- The fields that may be null have a second `Option`.
pub record UpdateCallInput : Type 0 where
  pub status : Option CallStatus
  pub twilio_call_sid : Option (Option String)
  pub twilio_agent_call_sid : Option (Option String)
  pub openai_call_id : Option (Option String)
  pub provider : Option VoiceProvider
  pub provider_call_id : Option (Option String)
  pub started_at : Option (Option String)
  pub ended_at : Option (Option String)
  pub failure_reason : Option (Option String)

-- `mode.toLowerCase()`
abbrev pub mode_text : CallMode → String
mode_text CallMode.quote = "quote"
mode_text CallMode.booking = "booking"
mode_text CallMode.renegotiation = "renegotiation"
mode_text CallMode.inbound = "inbound"
mode_text CallMode.handoff = "handoff"

-- `status.toLowerCase()`
abbrev pub call_status_text : CallStatus → String
call_status_text CallStatus.queued = "queued"
call_status_text CallStatus.ringing = "ringing"
call_status_text CallStatus.in_progress = "in_progress"
call_status_text CallStatus.completed = "completed"
call_status_text CallStatus.failed = "failed"

abbrev pub settles : Option CallStatus → Bool
settles none = false
settles (some status) = is_settled status

abbrev starts : Option CallStatus → Bool
starts (some CallStatus.in_progress) = true
starts _ = false

abbrev fails : Option CallStatus → Bool
fails (some CallStatus.failed) = true
fails _ = false

abbrev provider_or : Option VoiceProvider → Option VoiceProvider → Option VoiceProvider
provider_or none old = old
provider_or (some p) old = some p

-- `Object.assign(call, input)`
unfoldable pub assigned : UpdateCallInput → CallAttempt → CallAttempt
assigned input call = record call {
  status = or_else input.status call.status;
  twilio_call_sid = or_else input.twilio_call_sid call.twilio_call_sid;
  twilio_agent_call_sid = or_else input.twilio_agent_call_sid call.twilio_agent_call_sid;
  openai_call_id = or_else input.openai_call_id call.openai_call_id;
  provider = provider_or input.provider call.provider;
  provider_call_id = or_else input.provider_call_id call.provider_call_id;
  started_at = or_else input.started_at call.started_at;
  ended_at = or_else input.ended_at call.ended_at;
  failure_reason = or_else input.failure_reason call.failure_reason;
}

abbrev set_if : Bool → Option String → String → Option String
set_if condition old at = if condition && not (is_some old) then some at else old

module _ (env : Environment) where
  unfoldable pub create_call : CreateCallInput → Action CallAttempt
  create_call input = do
    s ← gets (λ s. s)
    throw_if (not (s.operation.id == input.operation_id)) "Operation not found"
    id ← fresh_id env
    let call : CallAttempt = record {
      id = id;
      operation_id = input.operation_id;
      carrier_id = input.carrier_id;
      mode = input.mode;
      status = CallStatus.queued;
      conference_name =
          or_else input.conference_name ("volta-" <> input.operation_id <> "-" <> slice_units 8 id);
      twilio_call_sid = none;
      twilio_agent_call_sid = none;
      openai_call_id = none;
      provider = some env.voice_provider_tag;
      provider_call_id = none;
      started_at = none;
      ended_at = none;
      failure_reason = none;
    }
    modify (λ s. record s { calls = s.calls ++ call ∷ [] })
    push_event env (record {
      operation_id = input.operation_id;
      call_id = some id;
      type = "call.queued";
      severity = none;
      summary = mode_text input.mode <> " call queued";
      payload = field "carrierId" (optional_text call.carrier_id) ∷ [];
    })
    pure call

  -- The two times that a status sets, each read only where it is set.
  unfoldable pub timed : UpdateCallInput → CallAttempt → Draft → CallAttempt × Draft
  timed input call d =
      let begin = starts input.status && not (is_some call.started_at) in
      let d' : Draft = if begin then record d { tick = d.tick + 1 } else d in
      let close = settles input.status && not (is_some call.ended_at) in
      let d'' : Draft = if close then record d' { tick = d'.tick + 1 } else d' in
      (
        record call {
          started_at = if begin then some (env.iso (env.millis d.tick)) else call.started_at;
          ended_at = if close then some (env.iso (env.millis d'.tick)) else call.ended_at;
        },
        record d { tick = d''.tick },
      )

  call_event : UpdateCallInput → CallAttempt → EventInput
  call_event input call = record {
    operation_id = call.operation_id;
    call_id = some call.id;
    type = "call." <> call_status_text (or_else input.status call.status);
    severity = some (if fails input.status then Severity.danger else Severity.info);
    summary =
        "Call " <> elim input.status [ none ↦ "updated" | some status ↦ call_status_text status ];
    payload = [];
  }

  unfoldable pub update_call : String → UpdateCallInput → Action CallAttempt
  unfolding call_event timed
  update_call call_id input = do
    s ← gets (λ s. s)
    found ← lift (or_throw (find (λ c. c.id == call_id) s.calls) "Call not found")
    call ← always (timed input (assigned input found))
    modify (λ s. record s { calls = update_first (λ c. c.id == call_id) (λ _. call) s.calls })
    modify (λ s. record s {
      operation = record s.operation {
        status =
            if is_quote call.mode && (settles input.status && quotes_are_settled s)
            then OperationStatus.quoted
            else s.operation.status;
      };
    })
    push_event env (call_event input call)
    pure call
