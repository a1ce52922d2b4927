-- ===== src/Api/Inbound/Openai.antt =====
-- app/api/openai/realtime/route.ts: the webhook of a call that reaches the realtime model over SIP. The
-- event is what the check of its signature returns, or what it throws.
use volta_hackathon.Prelude.{
  String, Option, none, some, List, [], ◌∷◌, ◌==◌, find, or_else, Result, ok, err, if◌then◌else◌,
}
use volta_hackathon.Domain.Types.{CallAttempt, CallStatus, Carrier, OperationSnapshot}
use volta_hackathon.Store.Environment.{Environment}
use volta_hackathon.Store.Ledger.{add_event, field, optional_text}
use volta_hackathon.Store.Calls.{update_call}
use volta_hackathon.Store.Mutation.{default_operation}
use volta_hackathon.Store.Session.{Session, Interference, answer, read, perform, ◌>>=◌, ◌>>◌}
use volta_hackathon.Services.Operations.{lifted, no_change}
use volta_hackathon.Services.Handoff.{present}
use volta_hackathon.Api.Receipts.{
  Inserted, Response, Handler, empty_response, register_webhook_receipt,
}
use volta_hackathon.Api.Inbound.{
  digits, carrier_by_digits, id_of, inbound_event, has_id, create_inbound_call,
}

pub record SipHeader : Type 0 where
  pub name : String
  pub value : String

pub record IncomingCallEvent : Type 0 where
  pub type : String
  pub call_id : Option String
  pub sip_headers : List SipHeader

abbrev carrier_named : Option String → OperationSnapshot → Option Carrier
carrier_named none s = none
carrier_named (some id) s = find (λ c. c.id == id) s.carriers

abbrev value_of : Option SipHeader → Option String
value_of none = none
value_of (some header) = some header.value

module _ (env : Environment) (interference : Interference)
    (accept_realtime_call : String
      → OperationSnapshot
      → CallAttempt
      → Option Carrier
      → Result (Unit {0})) where
  unfoldable pub header_value : IncomingCallEvent → String → Option String
  header_value event name =
      value_of (find (λ h. env.lower_case h.name == env.lower_case name) event.sip_headers)

  abbrev matching_carrier : String → OperationSnapshot → Option Carrier
  matching_carrier number s = if number == "" then none else carrier_by_digits number s

  unfoldable pub bind_inbound_call :
      OperationSnapshot → String → Option Carrier → Session CallAttempt
  bind_inbound_call s from carrier = do
    call ← create_inbound_call env interference s carrier
    perform env interference (
        add_event env (
          inbound_event s call "inbound.unattributed" carrier "Inbound SIP call matched to "
            "Inbound SIP call from an unrecognised number; the mandate still governs the conversation"
            (field "from" (optional_text (present (some from)))
              ∷ field "carrierId" (optional_text (id_of carrier))
              ∷ [])))
    answer call

  unfoldable pub resolve_inbound_call : IncomingCallEvent → OperationSnapshot → Session CallAttempt
  resolve_inbound_call event s =
      let from = or_else (header_value event "From") "" in
      bind_inbound_call s from (matching_carrier (digits from) s)

  abbrev known_call : Option String → OperationSnapshot → Option CallAttempt
  known_call none s = none
  known_call (some id) s = find (has_id id) s.calls

  unfoldable pub call_of_event : IncomingCallEvent → OperationSnapshot → Session CallAttempt
  call_of_event event s = elim (known_call (present (header_value event "X-Volta-Call-Id")) s) [
    | some call ↦ answer call
    | none ↦ resolve_inbound_call event s
  ]

  unfoldable pub take_call : IncomingCallEvent → String → Session (Unit {0})
  take_call event openai_call_id = do
    s ← read default_operation
    call ← call_of_event event s
    lifted (accept_realtime_call openai_call_id s call (carrier_named call.carrier_id s))
    perform env interference (
        update_call env call.id (record no_change {
          status = some CallStatus.in_progress;
          openai_call_id = some (some openai_call_id);
        }))
    answer tt

  abbrev incoming : IncomingCallEvent → Option String
  incoming event = if event.type == "realtime.call.incoming" then present event.call_id else none

  abbrev invalid_webhook : Response
  invalid_webhook = record { status = 400; body = "Invalid webhook" }

  unfoldable pub handle_event : IncomingCallEvent → Handler
  handle_event event s = elim (incoming event) [
    | none ↦ (empty_response 200, s)
    | some openai_call_id ↦
        let (r, w) = take_call event openai_call_id s.world in
        elim r [
          | ok done ↦ (empty_response 200, record s { world = w })
          | err message ↦ (invalid_webhook, record s { world = w })
        ]
  ]

  -- The receipt is registered under the `webhook-id` header, where there is one.
  unfoldable pub post_realtime :
      Option (String → String → Inserted) → Option String → Result IncomingCallEvent → Handler
  post_realtime insert webhook_id (err message) s = (invalid_webhook, s)
  post_realtime insert none (ok event) s = handle_event event s
  post_realtime insert (some id) (ok event) s =
      let (fresh, receipts) = register_webhook_receipt insert "openai" id s.receipts in
      elim fresh [
        | err message ↦ (invalid_webhook, s)
        | ok is_new ↦
            if is_new
            then handle_event event (record s { receipts = receipts })
            else (empty_response 200, s)
      ]
