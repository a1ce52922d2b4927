-- ===== src/Store/Booking.antt =====
-- lib/store/base.ts: the methods on the commitment, from `stageBooking` to `linkEvidence`.
pub mod Invariant
pub mod Steps
pub mod Committing
use volta_hackathon.Prelude.{
  ℕ, ◌+◌, ◌*◌, String, Option, none, some, List, [], ◌∷◌, map, ◌==◌, Bool, true, false, not, ◌&&◌,
  find, filter, take_last, ltb, if◌then◌else◌, or_throw,
}
use volta_hackathon.Prelude.Text.{◌<>◌}
use volta_hackathon.Domain.Types.{
  Operation, OperationStatus, OperationSnapshot, Carrier, Offer, Commitment, CommitmentStatus,
  Evidence, TranscriptSegment, TranscriptSpeaker, DecisionInput, DecisionOutcome, DecisionSource,
  Severity, PayloadValue,
}
use volta_hackathon.Domain.Policy.{assert_offer_bookable}
use volta_hackathon.Domain.Commitment.{transition_commitment, is_retired, same_status}
use volta_hackathon.Store.Environment.{Environment}
use volta_hackathon.Store.Action.{
  Action, pure, lift, gets, throw_if, modify, fresh_id, fresh_token, clock, now, ◌>>=◌, ◌>>◌,
}
use volta_hackathon.Store.Ledger.{EventInput, push_event, push_decision, field}

pub record StageBookingResult : Type 0 where
  pub commitment : Commitment
  pub confirmation_token : String

-- `Omit<Evidence, "id" | "operationId" | "commitmentId" | "verifiedAt">`
pub record EvidenceInput : Type 0 where
  pub call_id : String
  pub recording_url : String
  pub storage_path : Option String
  pub speaker : String
  pub segment_text : String
  pub start_seconds : ℕ
  pub end_seconds : ℕ

abbrev pub set_commitment : Commitment → OperationSnapshot → OperationSnapshot
set_commitment c s = record s { commitment = some c }

abbrev pub set_operation_status : OperationStatus → OperationSnapshot → OperationSnapshot
set_operation_status status s = record s { operation = record s.operation { status = status } }

abbrev is_live : Option Commitment → Bool
is_live none = false
is_live (some c) = not (is_retired c.status)

-- `!commitment || commitment.id !== commitmentId`
abbrev matching : String → Option Commitment → Option Commitment
matching id none = none
matching id (some c) = if c.id == id then some c else none

pub find_commitment : String → Action Commitment
find_commitment id d = (or_throw (matching id d.snapshot.commitment) "Commitment not found", d)

abbrev by_counterparty : TranscriptSpeaker → Bool
by_counterparty TranscriptSpeaker.counterparty = true
by_counterparty TranscriptSpeaker.agent = false

-- The ids of the last `n` segments of the call that pass the test.
abbrev pub last_segment_ids : ℕ → (TranscriptSegment → Bool) → OperationSnapshot → List String
last_segment_ids n p s = map (λ x. x.id) (take_last n (filter p s.transcripts))

abbrev pub of_call : String → TranscriptSegment → Bool
of_call call_id x = x.call_id == call_id

abbrev pub said_on : String → TranscriptSegment → Bool
said_on call_id x = x.call_id == call_id && by_counterparty x.speaker

-- `snapshot.evidence?.commitmentId === commitment.id`
abbrev pub evidences : Option Evidence → String → Bool
evidences none id = false
evidences (some e) id = e.commitment_id == id

abbrev evidence_id : Option Evidence → PayloadValue
evidence_id none = PayloadValue.null
evidence_id (some e) = PayloadValue.text e.id

module _ (env : Environment) where
  recap : OperationSnapshot → Carrier → Offer → String
  recap s carrier offer =
      "Volta / "
      <> s.operation.reference
      <> ": "
      <> carrier.name
      <> " confirma recolección el "
      <> offer.pickup_date
      <> " a las "
      <> offer.pickup_time
      <> ", de "
      <> s.operation.pickup_location
      <> " a "
      <> s.operation.delivery_location
      <> ", por MXN "
      <> env.amount_text offer.amount
      <> "."

  -- The decision that a commitment step writes.
  commitment_decision :
      Commitment
      → String
      → DecisionOutcome
      → String
      → List String
      → Option (List String)
      → String
      → DecisionInput
  commitment_decision c kind outcome rationale codes segments suffix = record {
    operation_id = c.operation_id;
    call_id = c.booking_call_id;
    kind = kind;
    outcome = outcome;
    rationale = rationale;
    reason_codes = some codes;
    source = DecisionSource.commitment_engine;
    related_offer_id = some c.offer_id;
    transcript_segment_ids = segments;
    idempotency_key = "commitment:" <> c.id <> ":" <> suffix;
  }

  commitment_event : Commitment → String → Severity → String → EventInput
  commitment_event c type severity summary = record {
    operation_id = c.operation_id;
    call_id = some c.booking_call_id;
    type = type;
    severity = some severity;
    summary = summary;
    payload = [];
  }

  unfoldable pub stage_booking : String → String → String → Action StageBookingResult
  unfolding recap commitment_decision
  stage_booking operation_id offer_id call_id = do
    s ← gets (λ s. s)
    throw_if (not (s.operation.id == operation_id)) "Operation not found"
    offer ← lift (assert_offer_bookable env.locale_compare s offer_id)
    carrier ← lift (or_throw (find (λ c. c.id == offer.carrier_id) s.carriers) "Carrier not found")
    throw_if (is_live s.commitment) "An active commitment already exists"
    token ← fresh_token env
    id ← fresh_id env
    staged_at ← clock env
    let commitment : Commitment = record {
      id = id;
      operation_id = operation_id;
      carrier_id = offer.carrier_id;
      offer_id = offer_id;
      booking_call_id = call_id;
      status = CommitmentStatus.proposed;
      recap_text = recap s carrier offer;
      confirmation_token_hash = env.sha256 token;
      token_expires_at = env.iso (staged_at + 20 * 60000);
      verbally_confirmed_at = none;
      recap_sent_at = none;
      twilio_message_sid = none;
      committed_at = none;
    }
    modify (λ s. set_operation_status OperationStatus.booking (set_commitment commitment s))
    push_event env (record {
      operation_id = operation_id;
      call_id = some call_id;
      type = "commitment.proposed";
      severity = none;
      summary = "Canonical booking recap staged";
      payload =
          field "offerId" (PayloadValue.text offer_id)
          ∷ field "carrierId" (PayloadValue.text carrier.id)
          ∷ [];
    })
    push_decision env (
        commitment_decision commitment "BOOKING_STAGED" DecisionOutcome.select
          "The server revalidated the current policy-ranked winner before staging canonical terms."
          ("winner_revalidated" ∷ "canonical_recap_generated" ∷ [])
          (some (last_segment_ids 2 (of_call call_id) s)) "staged")
    pure (record { commitment = commitment; confirmation_token = token })

  unfoldable pub confirm_booking : String → String → Action Commitment
  unfolding find_commitment commitment_event commitment_decision
  confirm_booking commitment_id confirmation_token = do
    c ← find_commitment commitment_id
    at ← clock env
    throw_if (ltb (env.parse_time c.token_expires_at) at) "Confirmation token expired"
    throw_if (not (env.sha256 confirmation_token == c.confirmation_token_hash))
        "Invalid confirmation token"
    s ← gets (λ s. s)
    lift (assert_offer_bookable env.locale_compare s c.offer_id)
    status ← lift (transition_commitment c.status CommitmentStatus.verbally_confirmed)
    confirmed_at ← now env
    let confirmed = record c { status = status; verbally_confirmed_at = some confirmed_at }
    modify (set_commitment confirmed)
    push_event env (
        commitment_event confirmed "commitment.verbally_confirmed" Severity.success
          "Dispatcher verbally confirmed the canonical recap")
    push_decision env (
        commitment_decision confirmed "BOOKING_CONFIRMED" DecisionOutcome.allow
          "An explicit confirmation matched a valid staged token and a still-bookable offer."
          ("explicit_confirmation" ∷ "token_valid" ∷ "mandate_revalidated" ∷ [])
          (some (last_segment_ids 1 (said_on c.booking_call_id) s)) "confirmed")
    pure confirmed

  -- The end that `markRecapSent` and `linkEvidence` share: a commitment with its recap sent and its
  -- evidence linked is committed.
  commit : Commitment → EventInput → Action Commitment
  commit c event = do
    linked ← lift (transition_commitment c.status CommitmentStatus.evidence_linked)
    status ← lift (transition_commitment linked CommitmentStatus.committed)
    committed_at ← now env
    let committed = record c { status = status; committed_at = some committed_at }
    modify (λ s. set_operation_status OperationStatus.committed (set_commitment committed s))
    push_event env event
    pure committed

  unfoldable pub mark_recap_sent : String → String → Action Commitment
  unfolding find_commitment commitment_event commit
  mark_recap_sent commitment_id message_sid = do
    c ← find_commitment commitment_id
    status ← lift (transition_commitment c.status CommitmentStatus.recap_sent)
    sent_at ← now env
    let sent = record c {
      status = status;
      recap_sent_at = some sent_at;
      twilio_message_sid = some message_sid;
    }
    modify (set_commitment sent)
    push_event env
        (record (commitment_event sent "commitment.recap_sent" Severity.success
          "Written recap sent by SMS") {
            payload = field "messageSid" (PayloadValue.text message_sid) ∷ [];
          })
    evidence ← gets (λ s. s.evidence)
    if evidences evidence sent.id
        then commit sent
            (record (commitment_event sent "commitment.committed" Severity.success
              "Verified operational commitment created") {
                payload = field "evidenceId" (evidence_id evidence) ∷ [];
              })
        else pure sent

  unfoldable pub supersede_commitment : String → String → Action Commitment
  unfolding find_commitment commitment_event commitment_decision
  supersede_commitment commitment_id reason = do
    c ← find_commitment commitment_id
    status ← lift (transition_commitment c.status CommitmentStatus.superseded)
    let retired = record c { status = status }
    modify (λ s.
        set_operation_status OperationStatus.at_risk
          (record (set_commitment retired s) { evidence = none }))
    push_event env
        (record (commitment_event retired "commitment.superseded" Severity.warning reason) {
          payload =
              field "commitmentId" (PayloadValue.text commitment_id)
              ∷ field "previousRecap" (PayloadValue.text c.recap_text)
              ∷ [];
        })
    push_decision env (
        commitment_decision retired "COMMITMENT_SUPERSEDED" DecisionOutcome.observe reason
          ("briefing_changed" ∷ []) none "superseded")
    pure retired

  unfoldable pub link_evidence : String → EvidenceInput → Action Evidence
  unfolding find_commitment commitment_event commit
  link_evidence commitment_id input = do
    c ← find_commitment commitment_id
    throw_if (same_status c.status CommitmentStatus.proposed)
        "Cannot link evidence before the terms are verbally confirmed"
    id ← fresh_id env
    verified_at ← now env
    let evidence : Evidence = record {
      id = id;
      operation_id = c.operation_id;
      commitment_id = commitment_id;
      call_id = input.call_id;
      recording_url = input.recording_url;
      storage_path = input.storage_path;
      speaker = input.speaker;
      segment_text = input.segment_text;
      start_seconds = input.start_seconds;
      end_seconds = input.end_seconds;
      verified_at = verified_at;
    }
    modify (λ s. record s { evidence = some evidence })
    if same_status c.status CommitmentStatus.recap_sent
        then commit c
            (record (commitment_event c "commitment.committed" Severity.success
              "Verified operational commitment created") {
                payload =
                    field "evidenceId" (PayloadValue.text id)
                    ∷ field "startSeconds" (PayloadValue.number input.start_seconds)
                    ∷ [];
              })
          >> pure evidence
        else push_event env
            (record (commitment_event c "evidence.linked_pending_recap" Severity.info
              "Audio evidence linked; waiting for written recap") {
                payload = field "evidenceId" (PayloadValue.text id) ∷ [];
              })
          >> pure evidence
