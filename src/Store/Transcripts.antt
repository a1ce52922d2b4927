-- ===== src/Store/Transcripts.antt =====
-- lib/store/base.ts: `recordTranscript` and `finalizeCallBrief`.
pub mod Capture
use volta_hackathon.Prelude.{
  ℕ, ◌+◌, String, Option, none, some, List, [], ◌∷◌, ◌++◌, map, ◌==◌, Bool, true, false, not, ◌&&◌,
  find, filter, last?, length, ltb, or_throw, update_first, if◌then◌else◌,
}
use volta_hackathon.Prelude.Text.{◌<>◌, trim, slice_units, underscores_to_spaces, decimal, distinct}
use volta_hackathon.Prelude.Sort.{sort}
use volta_hackathon.Domain.Types.{
  OperationSnapshot, CallAttempt, CallBrief, Commitment, Offer, OperationalDecision, PayloadValue,
  Severity, TranscriptInput, TranscriptSegment, TranscriptSpeaker,
}
use volta_hackathon.Store.Environment.{Environment}
use volta_hackathon.Store.Action.{Action, pure, lift, gets, modify, fresh_id, now, ◌>>=◌, ◌>>◌}
use volta_hackathon.Store.Ledger.{push_event, field, optional_text, outcome_text}
use volta_hackathon.Store.Booking.{of_call}

abbrev same_speaker : TranscriptSpeaker → TranscriptSpeaker → Bool
same_speaker TranscriptSpeaker.agent TranscriptSpeaker.agent = true
same_speaker TranscriptSpeaker.counterparty TranscriptSpeaker.counterparty = true
same_speaker _ _ = false

abbrev speaker_text : TranscriptSpeaker → String
speaker_text TranscriptSpeaker.agent = "AGENT"
speaker_text TranscriptSpeaker.counterparty = "COUNTERPARTY"

abbrev speaker_label : String → TranscriptSpeaker → String
speaker_label agent TranscriptSpeaker.agent = agent
speaker_label agent TranscriptSpeaker.counterparty = "Counterparty"

-- `!call || call.operationId !== input.operationId`
abbrev call_of : String → Option CallAttempt → Option CallAttempt
call_of operation_id none = none
call_of operation_id (some call) = if call.operation_id == operation_id then some call else none

-- The segment that an input repeats.
unfoldable pub is_repeat : TranscriptInput → TranscriptSegment → Bool
is_repeat input segment =
    segment.call_id == input.call_id
    && (same_speaker segment.speaker input.speaker
        && segment.provider_item_id == input.provider_item_id)

abbrev is_nil : List String → Bool
is_nil [] = true
is_nil (x ∷ xs) = false

-- `decision.callId === input.callId && decision.transcriptSegmentIds.length === 0`
abbrev is_unlinked : String → OperationalDecision → Bool
is_unlinked call_id decision = decision.call_id == call_id && is_nil decision.transcript_segment_ids

abbrev decision_id : Option OperationalDecision → Option String
decision_id none = none
decision_id (some decision) = some decision.id

-- The first decision of the call without a segment gets this one.
unfoldable pub link_decision : String → String → List OperationalDecision → List OperationalDecision
link_decision call_id segment_id decisions =
    update_first (is_unlinked call_id)
      (λ decision. record decision { transcript_segment_ids = segment_id ∷ [] }) decisions

-- The offers that a brief tells of: those of the call, or the one that the call booked.
abbrev booked_offer : String → OperationSnapshot → Option Commitment → List Offer
booked_offer call_id s none = []
booked_offer call_id s (some commitment) =
    if commitment.booking_call_id == call_id
    then elim (find (λ offer. offer.id == commitment.offer_id) s.offers) [
      | none ↦ []
      | some offer ↦ offer ∷ []
    ]
    else []

abbrev or_booked : List Offer → List Offer → List Offer
or_booked [] booked = booked
or_booked (offer ∷ offers) booked = offer ∷ offers

unfoldable pub brief_offers : String → OperationSnapshot → List Offer
brief_offers call_id s =
    or_booked
      (sort (λ a b. ltb a.revision b.revision)
        (filter (λ offer. offer.call_id == call_id) s.offers))
      (booked_offer call_id s s.commitment)

abbrev amount_of : Option Offer → Option ℕ
amount_of none = none
amount_of (some offer) = some offer.amount

change_text : Offer → Offer → String
change_text previous offer =
    "Revision "
    <> decimal previous.revision
    <> " → "
    <> decimal offer.revision
    <> ": MXN "
    <> decimal previous.amount
    <> " → "
    <> decimal offer.amount
    <> ", "
    <> previous.pickup_date
    <> " "
    <> previous.pickup_time
    <> " → "
    <> offer.pickup_date
    <> " "
    <> offer.pickup_time

unfoldable pub changes_from : Offer → List Offer → List String
unfolding change_text
changes_from previous [] = []
changes_from previous (offer ∷ offers) = change_text previous offer ∷ changes_from offer offers

unfoldable pub changes : List Offer → List String
unfolding changes_from
changes [] = []
changes (offer ∷ offers) = changes_from offer offers

conditions_of : List Offer → List String
conditions_of [] = []
conditions_of (offer ∷ offers) = offer.conditions ++ conditions_of offers

abbrev existing_or : {A : Type 0} → (CallBrief → A) → Option CallBrief → A → A
existing_or f none new = new
existing_or f (some brief) new = f brief

module _ (env : Environment) where
  capture : TranscriptInput → Action TranscriptSegment
  unfolding link_decision
  capture input = do
    id ← fresh_id env
    occurred_at ← now env
    let segment : TranscriptSegment = record {
      id = id;
      operation_id = input.operation_id;
      call_id = input.call_id;
      speaker = input.speaker;
      provider_item_id = input.provider_item_id;
      text = trim input.text;
      occurred_at = occurred_at;
    }
    unlinked ← gets (λ s. find (is_unlinked input.call_id) s.decisions)
    modify (λ s. record s {
      transcripts = s.transcripts ++ segment ∷ [];
      decisions = link_decision input.call_id id s.decisions;
    })
    push_event env (record {
      operation_id = input.operation_id;
      call_id = some input.call_id;
      type = "transcript.captured";
      severity = none;
      summary = speaker_label "Agent" input.speaker <> " transcript captured";
      payload =
          field "segmentId" (PayloadValue.text id)
          ∷ field "speaker" (PayloadValue.text (speaker_text input.speaker))
          ∷ field "text" (PayloadValue.text (slice_units 240 segment.text))
          ∷ field "linkedDecisionId" (optional_text (decision_id unlinked))
          ∷ [];
    })
    pure segment

  unfoldable pub record_transcript : TranscriptInput → Action TranscriptSegment
  unfolding capture
  record_transcript input = do
    s ← gets (λ s. s)
    lift (
        or_throw (call_of input.operation_id (find (λ call. call.id == input.call_id) s.calls))
          "Call not found")
    elim (find (is_repeat input) s.transcripts) [
      | some segment ↦ pure segment
      | none ↦ capture input
    ]

  action_text : OperationalDecision → String
  action_text decision =
      outcome_text decision.outcome
      <> ": "
      <> underscores_to_spaces decision.kind
      <> " — "
      <> decision.rationale

  brief_of : CallAttempt → OperationSnapshot → String → String → String → CallBrief
  unfolding action_text conditions_of changes brief_offers
  brief_of call s id created_at updated_at = record {
    id = id;
    operation_id = call.operation_id;
    call_id = call.id;
    carrier_id = call.carrier_id;
    mode = call.mode;
    outcome = call.status;
    quoted_rates = map (λ offer. offer.amount) (brief_offers call.id s);
    final_rate = amount_of (last? (brief_offers call.id s));
    conditions = distinct (conditions_of (brief_offers call.id s));
    changes = changes (brief_offers call.id s);
    actions = map action_text (filter (λ decision. decision.call_id == call.id) s.decisions);
    relevant_mentions =
        map (λ segment. speaker_label "Volta" segment.speaker <> ": " <> segment.text)
          (filter (of_call call.id) s.transcripts);
    created_at = created_at;
    updated_at = updated_at;
  }

  -- A new brief takes an identifier; an existing one keeps its own.
  brief_id : Option CallBrief → Action String
  brief_id none = fresh_id env
  brief_id (some brief) = pure brief.id

  unfoldable pub put_brief : CallBrief → List CallBrief → List CallBrief
  put_brief brief briefs = elim (find (λ b. b.call_id == brief.call_id) briefs) [
    | none ↦ brief ∷ briefs
    | some existing ↦ update_first (λ b. b.call_id == brief.call_id) (λ _. brief) briefs
  ]

  unfoldable pub finalize_call_brief : String → Action CallBrief
  unfolding brief_id brief_of put_brief
  finalize_call_brief call_id = do
    s ← gets (λ s. s)
    call ← lift (or_throw (find (λ call. call.id == call_id) s.calls) "Call not found")
    let existing = find (λ brief. brief.call_id == call_id) s.call_briefs
    timestamp ← now env
    id ← brief_id existing
    let brief = brief_of call s id (existing_or (λ b. b.created_at) existing timestamp) timestamp
    modify (λ s. record s { call_briefs = put_brief brief s.call_briefs })
    push_event env (record {
      operation_id = call.operation_id;
      call_id = some call_id;
      type = "call_brief.finalized";
      severity = some Severity.success;
      summary = "Structured call brief finalized";
      payload =
          field "briefId" (PayloadValue.text id)
          ∷ field "offers" (PayloadValue.number (length (brief_offers call_id s)))
          ∷ field "decisions" (
              PayloadValue.number
                (length (filter (λ decision. decision.call_id == call_id) s.decisions)))
          ∷ [];
    })
    pure brief
