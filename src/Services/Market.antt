-- ===== src/Services/Market.antt =====
-- lib/services/operations.ts: `bookWinningOffer` and `autoBookIfSettled`.
pub mod Settled
pub mod Scan
use volta_hackathon.Prelude.{
  String, Option, none, some, List, [], ◌∷◌, map, ◌==◌, Bool, true, false, not, ◌&&◌, any, all,
  filter, find, last?, or_throw, Result, if◌then◌else◌,
}
use volta_hackathon.Prelude.Text.{◌<>◌, join}
use volta_hackathon.Domain.Types.{
  CallAttempt, CallMode, CallStatus, Carrier, Commitment, Offer, OperationSnapshot, Severity,
}
use volta_hackathon.Domain.Policy.{winner, latest_offers}
use volta_hackathon.Store.Environment.{Environment}
use volta_hackathon.Store.Ledger.{EventInput, add_event}
use volta_hackathon.Store.Booking.{stage_booking, confirm_booking}
use volta_hackathon.Store.Calls.{create_call, update_call}
use volta_hackathon.Store.Escalations.{create_escalation}
use volta_hackathon.Store.Transcripts.{finalize_call_brief}
use volta_hackathon.Store.Session.{Session, Interference, answer, read, perform, ◌>>=◌, ◌>>◌}
use volta_hackathon.Services.Operations.{
  Legs, lifted, no_change, ringing, new_call, standing_commitment,
}
use volta_hackathon.Services.Verification.{Channels, send_commitment_recap}

abbrev is_booking : CallMode → Bool
is_booking CallMode.booking = true
is_booking _ = false

abbrev is_quote : CallMode → Bool
is_quote CallMode.quote = true
is_quote _ = false

abbrev is_failed : CallStatus → Bool
is_failed CallStatus.failed = true
is_failed _ = false

abbrev has_ended : CallStatus → Bool
has_ended CallStatus.completed = true
has_ended CallStatus.failed = true
has_ended _ = false

abbrev pub quotes_of : OperationSnapshot → List CallAttempt
quotes_of s = filter (λ c. is_quote c.mode) s.calls

abbrev pub booking_under_way : OperationSnapshot → Bool
booking_under_way s = any (λ c. is_booking c.mode && not (is_failed c.status)) s.calls

abbrev pub blocked_offers : OperationSnapshot → List Offer
blocked_offers s = filter (λ o. not o.eligible) (latest_offers s.offers)

-- What the mandate blocks, carrier by carrier.
abbrev violations_text : List Offer → String
violations_text offers =
    join " · " (map (λ o. o.carrier_id <> ": " <> join ", " o.violations) offers)

abbrev pub operation_event : String → Option String → String → Severity → String → EventInput
operation_event operation_id call_id type severity summary = record {
  operation_id = operation_id;
  call_id = call_id;
  type = type;
  severity = some severity;
  summary = summary;
  payload = [];
}

module _ (env : Environment) (interference : Interference) (channels : Channels)
    (dial_voice_call : CallAttempt → Carrier → Result Legs) (live : Bool) where
  -- A booking on the telephone: what the dial throws is thrown on.
  unfoldable pub call_winner : CallAttempt → Carrier → Session (Unit {0})
  call_winner call carrier = do
    legs ← lifted (dial_voice_call call carrier)
    perform env interference (update_call env call.id (ringing env.voice_provider_tag legs))
    answer tt

  unfoldable pub simulated_booking : String → Offer → CallAttempt → Session (Unit {0})
  simulated_booking operation_id selected call = do
    perform env interference
        (update_call env call.id (record no_change { status = some CallStatus.completed }))
    staged ← perform env interference (stage_booking env operation_id selected.id call.id)
    perform env interference (confirm_booking env staged.commitment.id staged.confirmation_token)
    send_commitment_recap env interference channels call.id
    perform env interference (
        add_event env (
          operation_event operation_id (some call.id) "demo.booking_simulated" Severity.warning
            "Booking confirmation simulated because live telephony is not configured; no audio evidence exists, so this commitment stops at RECAP_SENT"))
    perform env interference (finalize_call_brief env call.id)
    answer tt

  unfoldable pub book_winning_offer : String → Session OperationSnapshot
  book_winning_offer operation_id = do
    s ← read operation_id
    selected ← lifted (or_throw (winner env.locale_compare s) "No eligible offer is available")
    carrier ← lifted (
        or_throw (find (λ c. c.id == selected.carrier_id) s.carriers)
          "Cannot read properties of undefined (reading 'id')")
    call ←
        perform env interference
          (create_call env (new_call operation_id carrier.id CallMode.booking))
    if live then call_winner call carrier else simulated_booking operation_id selected call
    read operation_id

  -- The market allows nothing: a human is asked, if a quote says why.
  unfoldable pub escalate_market : String → OperationSnapshot → Session (Option OperationSnapshot)
  escalate_market operation_id s = elim (last? (quotes_of s)) [
    | none ↦ answer none
    | some call ↦ elim (blocked_offers s) [
      | [] ↦ answer none
      | o ∷ offers ↦
          perform env interference (
            create_escalation env operation_id call.id
              "Every quote the market returned falls outside the mandate"
              (violations_text (o ∷ offers)))
          >> (read operation_id >>= λ s'. answer (some s'))
    ]
  ]

  unfoldable pub settle : String → OperationSnapshot → Session (Option OperationSnapshot)
  settle operation_id s = elim (winner env.locale_compare s) [
    | none ↦ escalate_market operation_id s
    | some selected ↦
        perform env interference (
          add_event env (
            operation_event operation_id none "market.settled" Severity.info
              "All quote calls settled; booking the standing winner without waiting for an operator"))
        >> (book_winning_offer operation_id >>= λ s'. answer (some s'))
  ]

  abbrev has_standing : Option Commitment → Bool
  has_standing c = elim (standing_commitment c) [ none ↦ false | some standing ↦ true ]

  unfoldable pub settle_if_ended : String → OperationSnapshot → Session (Option OperationSnapshot)
  settle_if_ended operation_id s =
      if has_standing s.commitment
      then answer none
      else if booking_under_way s
      then answer none
      else elim (quotes_of s) [
        | [] ↦ answer none
        | c ∷ calls ↦
            if all (λ q. has_ended q.status) (c ∷ calls) then settle operation_id s else answer none
      ]

  unfoldable pub auto_book_if_settled : String → Session (Option OperationSnapshot)
  auto_book_if_settled operation_id = do s ← read operation_id; settle_if_ended operation_id s
