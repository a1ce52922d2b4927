-- ===== src/Store/Escalations/Live.antt =====
-- lib/store/base.ts: `createEscalation`, and the live escalation of a call.
use volta_hackathon.Prelude.{String, true, ◌≡◌, inl, inr, refl, eq_refl, Option-cases, is_some}
use volta_hackathon.Store.Environment.{Environment}
use volta_hackathon.Store.Action.{Draft}
use volta_hackathon.Store.Ledger.{write_event, write_decision}
use volta_hackathon.Store.Escalations.{create_escalation, live_escalation, open_escalation}

module _ (env : Environment) where
  open_escalation-live :
      (operation_id call_id reason requested_change : String) (d : Draft)
      → is_some (
          live_escalation call_id
            (open_escalation env operation_id call_id reason requested_change
              d).1.snapshot.escalation)
        ≡ true
  unfolding open_escalation write_event write_decision
  open_escalation-live operation_id call_id reason requested_change d =
      rw (eq_refl call_id, is_some, live_escalation) refl

  pub create_escalation-live :
      (operation_id call_id reason requested_change : String) (d : Draft)
      → is_some (
          live_escalation call_id
            (create_escalation env operation_id call_id reason requested_change
              d).1.snapshot.escalation)
        ≡ true
  unfolding create_escalation
  create_escalation-live operation_id call_id reason requested_change d =
      elim (Option-cases (live_escalation call_id d.snapshot.escalation)) [
        | inl f ↦
            rw (f, create_escalation, is_some, live_escalation)
              (open_escalation-live operation_id call_id reason requested_change d)
        | inr (x, f) ↦ rw (f, create_escalation, is_some, live_escalation) (rw (f, is_some) refl)
      ]
