-- ===== src/Store/Escalations.antt =====
-- lib/store/base.ts: `createEscalation` and `updateEscalation`.
pub mod Live
use volta_hackathon.Prelude.{
  String, Option, none, some, [], ◌∷◌, ◌==◌, Bool, true, false, not, ◌&&◌, or_throw, if◌then◌else◌,
}
use volta_hackathon.Prelude.Text.{◌<>◌}
use volta_hackathon.Domain.Types.{
  Escalation, EscalationStatus, OperationStatus, Severity, PayloadValue, DecisionOutcome,
  DecisionSource,
}
use volta_hackathon.Store.Environment.{Environment}
use volta_hackathon.Store.Action.{Action, pure, lift, gets, modify, fresh_id, now, ◌>>=◌, ◌>>◌}
use volta_hackathon.Store.Ledger.{push_event, push_decision, field}
use volta_hackathon.Store.Booking.{set_operation_status}

abbrev is_resolved : EscalationStatus → Bool
is_resolved EscalationStatus.resolved = true
is_resolved _ = false

abbrev pub is_connected : EscalationStatus → Bool
is_connected EscalationStatus.connected = true
is_connected _ = false

abbrev pub escalation_status_text : EscalationStatus → String
escalation_status_text EscalationStatus.open_ = "open"
escalation_status_text EscalationStatus.dialing = "dialing"
escalation_status_text EscalationStatus.connected = "connected"
escalation_status_text EscalationStatus.resolved = "resolved"

-- The live escalation of the call, which a second request joins.
abbrev pub live_escalation : String → Option Escalation → Option Escalation
live_escalation call_id none = none
live_escalation call_id (some e) =
    if e.call_id == call_id && not (is_resolved e.status) then some e else none

abbrev escalation_with : String → Option Escalation → Option Escalation
escalation_with id none = none
escalation_with id (some e) = if e.id == id then some e else none

module _ (env : Environment) where
  open_escalation : String → String → String → String → Action Escalation
  open_escalation operation_id call_id reason requested_change = do
    id ← fresh_id env
    created_at ← now env
    let escalation : Escalation = record {
      id = id;
      operation_id = operation_id;
      call_id = call_id;
      status = EscalationStatus.open_;
      reason = reason;
      requested_change = requested_change;
      created_at = created_at;
      connected_at = none;
    }
    modify (λ s.
        set_operation_status OperationStatus.at_risk (record s { escalation = some escalation }))
    push_event env (record {
      operation_id = operation_id;
      call_id = some call_id;
      type = "escalation.requested";
      severity = some Severity.danger;
      summary = reason;
      payload = field "requestedChange" (PayloadValue.text requested_change) ∷ [];
    })
    push_decision env (record {
      operation_id = operation_id;
      call_id = call_id;
      kind = "HUMAN_HANDOFF_REQUIRED";
      outcome = DecisionOutcome.escalate;
      rationale = reason;
      reason_codes = some ("outside_delegated_authority" ∷ []);
      source = DecisionSource.mandate_engine;
      related_offer_id = none;
      transcript_segment_ids = none;
      idempotency_key = "escalation:" <> id <> ":required";
    })
    pure escalation

  unfoldable pub create_escalation : String → String → String → String → Action Escalation
  unfolding open_escalation
  create_escalation operation_id call_id reason requested_change = do
    live ← gets (λ s. live_escalation call_id s.escalation)
    elim live [
      | some e ↦ pure e
      | none ↦ open_escalation operation_id call_id reason requested_change
    ]

  -- `connectedAt` is read from the clock only on the way to CONNECTED.
  connection : EscalationStatus → Escalation → Action (Option String)
  connection EscalationStatus.connected e = do at ← now env; pure (some at)
  connection _ e = pure e.connected_at

  unfoldable pub update_escalation : String → EscalationStatus → Action Escalation
  unfolding connection
  update_escalation id status = do
    s ← gets (λ s. s)
    e ← lift (or_throw (escalation_with id s.escalation) "Escalation not found")
    connected_at ← connection status e
    let updated = record e { status = status; connected_at = connected_at }
    modify (λ s. record s { escalation = some updated })
    push_event env (record {
      operation_id = e.operation_id;
      call_id = some e.call_id;
      type = "escalation." <> escalation_status_text status;
      severity = some (if is_connected status then Severity.success else Severity.warning);
      summary = "Human handoff " <> escalation_status_text status;
      payload = [];
    })
    pure updated
