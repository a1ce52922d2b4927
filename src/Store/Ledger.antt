-- ===== src/Store/Ledger.antt =====
-- lib/store/base.ts: `pushEvent` and `pushDecision`, which keep the hundred newest entries, and the
-- methods that only call them. lib/store/types.ts: the inputs.
pub mod Limits
use volta_hackathon.Prelude.{
  ℕ, ◌+◌, String, Option, none, some, List, [], ◌∷◌, ◌==◌, Bool, take, find, or_else, if◌then◌else◌,
}
use volta_hackathon.Prelude.Text.{◌<>◌}
use volta_hackathon.Domain.Types.{
  LedgerEvent, OperationalDecision, DecisionInput, DecisionOutcome, Severity, PayloadField,
  PayloadValue,
}
use volta_hackathon.Store.Environment.{Environment}
use volta_hackathon.Store.Action.{Draft, Action, always}

pub record EventInput : Type 0 where
  pub operation_id : String
  pub call_id : Option String
  pub type : String
  pub severity : Option Severity
  pub summary : String
  pub payload : List PayloadField

abbrev pub ledger_limit : ℕ
ledger_limit = 100

abbrev pub field : String → PayloadValue → PayloadField
field k v = record { key = k; value = v }

abbrev pub optional_text : Option String → PayloadValue
optional_text none = PayloadValue.null
optional_text (some s) = PayloadValue.text s

abbrev pub outcome_text : DecisionOutcome → String
outcome_text DecisionOutcome.allow = "ALLOW"
outcome_text DecisionOutcome.block = "BLOCK"
outcome_text DecisionOutcome.select = "SELECT"
outcome_text DecisionOutcome.escalate = "ESCALATE"
outcome_text DecisionOutcome.observe = "OBSERVE"

abbrev pub decision_severity : DecisionOutcome → Severity
decision_severity DecisionOutcome.block = Severity.warning
decision_severity DecisionOutcome.escalate = Severity.warning
decision_severity _ = Severity.success

-- The part of a draft that a decision is written to.
pub record Logs : Type 0 where
  pub decisions : List OperationalDecision
  pub events : List LedgerEvent
  pub tick : ℕ

abbrev pub logs_of : Draft → Logs
logs_of d = record { decisions = d.snapshot.decisions; events = d.snapshot.events; tick = d.tick }

abbrev pub with_logs : Logs → Draft → Draft
with_logs logs d = record d {
  snapshot = record d.snapshot { decisions = logs.decisions; events = logs.events };
  tick = logs.tick;
}

module _ (env : Environment) where
  unfoldable pub event_of : EventInput → ℕ → LedgerEvent
  event_of input tick = record {
    id = env.uuid tick;
    operation_id = input.operation_id;
    call_id = input.call_id;
    type = input.type;
    severity = or_else input.severity Severity.info;
    summary = input.summary;
    payload = input.payload;
    occurred_at = env.iso (env.millis (tick + 1));
  }

  unfoldable pub write_event : EventInput → Draft → LedgerEvent × Draft
  write_event input d =
      let event = event_of input d.tick in
      let events = take ledger_limit (event ∷ d.snapshot.events) in
      (event, record d { snapshot = record d.snapshot { events = events }; tick = d.tick + 2 })

  abbrev pub push_event : EventInput → Action LedgerEvent
  push_event input = always (write_event input)

  abbrev decision_event : OperationalDecision → EventInput
  decision_event decision = record {
    operation_id = decision.operation_id;
    call_id = some decision.call_id;
    type = "decision." <> env.lower_case decision.kind;
    severity = some (decision_severity decision.outcome);
    summary = decision.rationale;
    payload =
        field "decisionId" (PayloadValue.text decision.id)
        ∷ field "outcome" (PayloadValue.text (outcome_text decision.outcome))
        ∷ field "reasonCodes" (PayloadValue.texts decision.reason_codes)
        ∷ field "relatedOfferId" (optional_text decision.related_offer_id)
        ∷ [];
  }

  unfoldable pub append_decision : DecisionInput → Logs → OperationalDecision × Logs
  unfolding event_of
  append_decision input logs =
      let decision : OperationalDecision = record {
        id = env.uuid logs.tick;
        operation_id = input.operation_id;
        call_id = input.call_id;
        kind = input.kind;
        outcome = input.outcome;
        rationale = input.rationale;
        reason_codes = or_else input.reason_codes [];
        source = input.source;
        related_offer_id = input.related_offer_id;
        transcript_segment_ids = or_else input.transcript_segment_ids [];
        idempotency_key = input.idempotency_key;
        created_at = env.iso (env.millis (logs.tick + 1));
      } in
      let event = event_of (decision_event decision) (logs.tick + 2) in
      (
        decision,
        record {
          decisions = take ledger_limit (decision ∷ logs.decisions);
          events = take ledger_limit (event ∷ logs.events);
          tick = logs.tick + 4;
        },
      )

  unfoldable pub decide : DecisionInput → Logs → OperationalDecision × Logs
  unfolding append_decision
  decide input logs = elim (find (λ x. x.idempotency_key == input.idempotency_key) logs.decisions) [
    | some existing ↦ (existing, logs)
    | none ↦ append_decision input logs
  ]

  unfoldable pub write_decision : DecisionInput → Draft → OperationalDecision × Draft
  write_decision input d =
      let (decision, logs) = decide input (logs_of d) in (decision, with_logs logs d)

  abbrev pub push_decision : DecisionInput → Action OperationalDecision
  push_decision input = always (write_decision input)

  unfoldable pub add_event : EventInput → Action LedgerEvent
  add_event input = push_event input

  unfoldable pub record_decision : DecisionInput → Action OperationalDecision
  record_decision input = push_decision input
