-- ===== src/Tools/Answers.antt =====
-- lib/mcp/tools.ts: the arguments and the answers of the tools, and the texts in them.
use volta_hackathon.Prelude.{
  ℕ, String, Option, none, some, List, [], ◌∷◌, ◌==◌, Bool, true, false, not, ◌&&◌, ltb,
  if◌then◌else◌,
}
use volta_hackathon.Prelude.Text.{includes}
use volta_hackathon.Domain.Types.{
  CallAttempt, Carrier, Commitment, CommitmentStatus, EscalationStatus, Mandate, Offer, Operation,
  OperationSnapshot, PayloadValue, Severity,
}
use volta_hackathon.Domain.Policy.{CloseReason, is_quote}
use volta_hackathon.Store.Ledger.{EventInput, field}
use volta_hackathon.Services.Judge.{ConfirmationVerdict, JudgementSource}

pub record ConfirmArguments : Type 0 where
  pub commitment_id : String
  pub confirmation_token : String
  pub confirmation_text : String

pub record ChangeArguments : Type 0 where
  pub operation_id : String
  pub call_id : String
  pub requested_pickup_date : Option String
  pub requested_amount : Option ℕ
  pub description : String

-- A carrier without its telephone number and address.
pub record CarrierView : Type 0 where
  pub id : String
  pub operation_id : String
  pub name : String
  pub dispatcher : String

pub record OperationContext : Type 0 where
  pub operation : Operation
  pub mandate : Mandate
  pub carriers : List CarrierView
  pub offers : List Offer
  pub winning_offer_id : Option String
  -- Its `confirmation_token_hash`, which the tool removes, is the empty text.
  pub commitment : Option Commitment

pub record OfferAnswer : Type 0 where
  pub offer_id : String
  pub revision : ℕ
  pub eligible : Bool
  pub violations : List String
  pub instruction : String

pub data StageAnswer : Type 0 where
  refused : CloseReason → String → StageAnswer
  staged : String → String → String → String → StageAnswer

pub data ConfirmAnswer : Type 0 where
  rejected : String → String → ConfirmAnswer
  accepted : CommitmentStatus → String → ConfirmAnswer

pub record ChangeAnswer : Type 0 where
  pub allowed : Bool
  pub escalation_required : Bool
  pub violations : List String
  pub instruction : String

pub record HandoffAnswer : Type 0 where
  pub escalation_id : String
  pub status : EscalationStatus
  pub instruction : String

unfoldable pub instruction_for : Bool → List String → String
instruction_for eligible violations =
    if eligible
    then "Offer recorded. Do not call it a booking."
    else if includes violations "counter_limit_exhausted"
    then "The authorised number of counter-offers is spent. Take the best standing offer or request_handoff — do not counter again."
    else if includes violations "rate_negotiation_not_authorized"
    then "You were not authorised to negotiate price. Record what they quoted, do not counter, and move on."
    else "Offer is outside authority. Do not accept it."

abbrev pub offer_id_of : Option Offer → Option String
offer_id_of none = none
offer_id_of (some offer) = some offer.id

abbrev pub without_hash : Option Commitment → Option Commitment
without_hash none = none
without_hash (some c) = some (record c { confirmation_token_hash = "" })

abbrev pub carrier_view : Carrier → CarrierView
carrier_view c = record {
  id = c.id;
  operation_id = c.operation_id;
  name = c.name;
  dispatcher = c.dispatcher;
}

abbrev pub is_quote_call : Option CallAttempt → Bool
is_quote_call none = false
is_quote_call (some call) = is_quote call.mode

abbrev pub stage_instruction : CloseReason → String
stage_instruction CloseReason.market_still_open =
    "Other carriers have not answered yet. Finish this as a quote and say a decision follows shortly."
stage_instruction _ = "This offer cannot be booked. Keep it as a quote."

abbrev pub verdict_text : ConfirmationVerdict → String
verdict_text ConfirmationVerdict.confirms = "confirms"
verdict_text ConfirmationVerdict.refuses = "refuses"
verdict_text ConfirmationVerdict.conditional = "conditional"
verdict_text ConfirmationVerdict.ambiguous = "ambiguous"

abbrev pub source_text : JudgementSource → String
source_text JudgementSource.classifier = "classifier"
source_text JudgementSource.rules = "rules"
source_text JudgementSource.rules_veto = "rules_veto"

abbrev pub is_confirming : ConfirmationVerdict → Bool
is_confirming ConfirmationVerdict.confirms = true
is_confirming _ = false

abbrev pub rejection_reason : ConfirmationVerdict → String
rejection_reason ConfirmationVerdict.conditional = "conditional_agreement"
rejection_reason _ = "ambiguous_confirmation"

abbrev pub rejection_instruction : ConfirmationVerdict → String
rejection_instruction ConfirmationVerdict.refuses =
    "They declined. Ask what they need changed, or close the call without a commitment."
rejection_instruction ConfirmationVerdict.conditional =
    "They attached a condition. Handle it as a new offer, not a confirmation."
rejection_instruction _ =
    "Read the recap once more and ask plainly whether they confirm those exact terms."

abbrev pub recap_of : Option Commitment → String
recap_of none = ""
recap_of (some c) = c.recap_text

abbrev is_given : String → Bool
is_given text = not (text == "")

abbrev date_violations : OperationSnapshot → Option String → List String → List String
date_violations s none rest = rest
date_violations s (some date) rest =
    if is_given date && (not (date == s.operation.pickup_date) && not s.mandate.change_pickup_day)
    then "pickup_day_change_not_authorized" ∷ rest
    else rest

abbrev amount_violations : OperationSnapshot → Option ℕ → List String
amount_violations s none = []
amount_violations s (some amount) =
    if ltb s.mandate.maximum_rate amount then "rate_above_mandate" ∷ [] else []

-- What a requested change breaks.
unfoldable pub change_violations : OperationSnapshot → ChangeArguments → List String
change_violations s input =
    date_violations s input.requested_pickup_date (amount_violations s input.requested_amount)

abbrev pub is_clear : List String → Bool
is_clear [] = true
is_clear (v ∷ vs) = false

unfoldable pub change_event : ChangeArguments → List String → EventInput
change_event input violations = record {
  operation_id = input.operation_id;
  call_id = some input.call_id;
  type = if is_clear violations then "change.observed" else "change.blocked";
  severity = some (if is_clear violations then Severity.warning else Severity.danger);
  summary = input.description;
  payload = field "violations" (PayloadValue.texts violations) ∷ [];
}

abbrev pub change_answer : List String → ChangeAnswer
change_answer violations = record {
  allowed = is_clear violations;
  escalation_required = not (is_clear violations);
  violations = violations;
  instruction =
      if is_clear violations
      then "Record the request; do not imply a new commitment without explicit confirmation."
      else "A human has already been brought in. Tell the caller that, explain the authority limit, and wait without negotiating.";
}
