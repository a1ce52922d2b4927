-- ===== src/Tools.antt =====
-- lib/mcp/tools.ts: `executeTool`, one function per tool. The arguments come as the schemas parse
-- them, which is what `parse` of the zod library answers for.
pub mod Answers
pub mod Authority
unfoldable pub use Answers.*
use volta_hackathon.Prelude.{
  String, Option, none, some, List, [], ◌∷◌, map, ◌==◌, Bool, not, ◌&&◌, find, if◌then◌else◌,
}
use volta_hackathon.Prelude.Text.{◌<>◌, join, slice_units}
use volta_hackathon.Domain.Types.{
  Commitment, DecisionInput, DecisionOutcome, DecisionSource, OfferInput,
}
use volta_hackathon.Domain.Policy.{winner, may_close_on_quote}
use volta_hackathon.Domain.Confirmation.Words.{Text}
use volta_hackathon.Store.Environment.{Environment}
use volta_hackathon.Store.Ledger.{add_event, record_decision}
use volta_hackathon.Store.Booking.{stage_booking, confirm_booking}
use volta_hackathon.Store.Offers.{record_offer}
use volta_hackathon.Store.Escalations.{create_escalation}
use volta_hackathon.Store.Mutation.{default_operation}
use volta_hackathon.Store.Session.{Session, Interference, answer, read, perform, ◌>>=◌, ◌>>◌}
use volta_hackathon.Services.Judge.{ClassifierReply, ConfirmationJudgement, judge_confirmation}

module _ (env : Environment) (interference : Interference) where
  unfoldable pub get_operation_context : String → Session OperationContext
  get_operation_context operation_id = do
    s ← read operation_id
    answer (record {
      operation = s.operation;
      mandate = s.mandate;
      carriers = map carrier_view s.carriers;
      offers = s.offers;
      winning_offer_id = offer_id_of (winner env.locale_compare s);
      commitment = without_hash s.commitment;
    })

  unfoldable pub record_offer_tool : OfferInput → Session OfferAnswer
  record_offer_tool input = do
    offer ← perform env interference (record_offer env input)
    answer (record {
      offer_id = offer.id;
      revision = offer.revision;
      eligible = offer.eligible;
      violations = offer.violations;
      instruction = instruction_for offer.eligible offer.violations;
    })

  unfoldable pub stage : String → String → String → Session StageAnswer
  stage operation_id call_id offer_id = do
    result ← perform env interference (stage_booking env operation_id offer_id call_id)
    answer (
        staged result.commitment.id result.confirmation_token result.commitment.recap_text
          "Read the recap exactly, then ask for an explicit yes or no.")

  unfoldable pub stage_booking_tool : String → String → String → Session StageAnswer
  stage_booking_tool operation_id call_id offer_id = do
    s ← read operation_id
    let call = find (λ call. call.id == call_id) s.calls
    let verdict = may_close_on_quote env.locale_compare s offer_id
    if is_quote_call call && not verdict.allowed
        then answer (refused verdict.reason (stage_instruction verdict.reason))
        else stage operation_id call_id offer_id

  ambiguous_decision : Commitment → ConfirmationJudgement → String → DecisionInput
  ambiguous_decision c judgement confirmation_text = record {
    operation_id = c.operation_id;
    call_id = c.booking_call_id;
    kind = "AMBIGUOUS_CONFIRMATION";
    outcome = DecisionOutcome.block;
    rationale =
        "Answer judged "
        <> verdict_text judgement.verdict
        <> " against the canonical terms: "
        <> judgement.reason
        <> ".";
    reason_codes = some (verdict_text judgement.verdict ∷ source_text judgement.source ∷ []);
    source = DecisionSource.commitment_engine;
    related_offer_id = some c.offer_id;
    transcript_segment_ids = none;
    idempotency_key =
        "commitment:" <> c.id <> ":ambiguous:" <> slice_units 80 (env.lower_case confirmation_text);
  }

  unfoldable pub reject : Option Commitment → ConfirmationJudgement → String → Session ConfirmAnswer
  unfolding ambiguous_decision
  reject pending judgement confirmation_text = do
    elim pending [
      | none ↦ answer tt
      | some c ↦
          perform env interference
            (record_decision env (ambiguous_decision c judgement confirmation_text))
          >> answer tt
    ]
    answer (rejected (rejection_reason judgement.verdict) (rejection_instruction judgement.verdict))

  unfoldable pub accept : String → String → Session ConfirmAnswer
  accept commitment_id confirmation_token = do
    commitment ← perform env interference (confirm_booking env commitment_id confirmation_token)
    answer (
        accepted commitment.status
          "Thank the dispatcher. The written recap will be sent after the call ends.")

  module _ (nfd lower_case : Text → Text)
      (client : Option (String → String → ClassifierReply)) where
    abbrev pub judgement_on : Option Commitment → String → ConfirmationJudgement
    judgement_on pending confirmation_text =
        judge_confirmation nfd lower_case client (recap_of pending) confirmation_text

    unfoldable pub confirm_booking_tool : ConfirmArguments → Session ConfirmAnswer
    confirm_booking_tool input = do
      s ← read default_operation
      let judgement = judgement_on s.commitment input.confirmation_text
      if is_confirming judgement.verdict
          then accept input.commitment_id input.confirmation_token
          else reject s.commitment judgement input.confirmation_text

  change_decision : ChangeArguments → List String → DecisionInput
  change_decision input violations = record {
    operation_id = input.operation_id;
    call_id = input.call_id;
    kind = "OPERATIONAL_CHANGE_EVALUATED";
    outcome = if is_clear violations then DecisionOutcome.observe else DecisionOutcome.block;
    rationale =
        if is_clear violations
        then "Requested change did not expand authority, but still requires explicit confirmation before commitment."
        else "Requested change violates: " <> join ", " violations <> ".";
    reason_codes =
        some (if is_clear violations then "within_current_authority" ∷ [] else violations);
    source = DecisionSource.mandate_engine;
    related_offer_id = none;
    transcript_segment_ids = none;
    idempotency_key =
        "change:"
        <> input.call_id
        <> ":"
        <> slice_units 100 (env.lower_case input.description)
        <> ":"
        <> join "|" violations;
  }

  -- The end of the report: a blocked change opens an escalation.
  unfoldable pub conclude : ChangeArguments → List String → Session ChangeAnswer
  conclude input [] = answer (change_answer [])
  conclude input (v ∷ vs) =
      perform env interference (
        create_escalation env input.operation_id input.call_id
          ("Blocked change outside the mandate: " <> input.description) input.description)
      >> answer (change_answer (v ∷ vs))

  unfoldable pub report_operational_change : ChangeArguments → Session ChangeAnswer
  unfolding change_event change_decision
  report_operational_change input = do
    s ← read input.operation_id
    let violations = change_violations s input
    perform env interference (add_event env (change_event input violations))
    perform env interference (record_decision env (change_decision input violations))
    conclude input violations

  unfoldable pub request_handoff : String → String → String → String → Session HandoffAnswer
  request_handoff operation_id call_id reason requested_change = do
    escalation ←
        perform env interference
          (create_escalation env operation_id call_id reason requested_change)
    answer (record {
      escalation_id = escalation.id;
      status = escalation.status;
      instruction =
          "Tell the caller a human operator is being brought in, then wait without negotiating.";
    })
