-- ===== src/Store/Ledger/Limits.antt =====
-- The two logs: their limit, and decisions that come twice.
use volta_hackathon.Prelude.{
  ◌≤◌, ◌≡◌, none, some, arith, length, length-take-le, find, Option-cases, inl, inr, ◌==◌, eq_refl,
  subst, Bool, String,
}
use volta_hackathon.Domain.Types.{OperationSnapshot, OperationalDecision, DecisionInput}
use volta_hackathon.Store.Environment.{Environment}
use volta_hackathon.Store.Action.{Draft}
use volta_hackathon.Store.Ledger.{
  EventInput, write_event, append_decision, decide, write_decision, ledger_limit, Logs,
}

-- Both logs hold at most a hundred entries.
pub record WithinLimit (s : OperationSnapshot) : Type 0 where
  pub events : length s.events ≤ ledger_limit
  pub decisions : length s.decisions ≤ ledger_limit

record LogsWithinLimit (l : Logs) : Type 0 where
  events : length l.events ≤ ledger_limit
  decisions : length l.decisions ≤ ledger_limit

abbrev has_key : String → OperationalDecision → Bool
has_key key x = x.idempotency_key == key

module _ (env : Environment) where
  pub write_event-WithinLimit :
      (i : EventInput) (d : Draft)
      → WithinLimit d.snapshot
      → WithinLimit (write_event env i d).1.snapshot
  unfolding write_event
  write_event-WithinLimit i d w = record {
    events = omega (arith, length-take-le 99 d.snapshot.events);
    decisions = w.decisions;
  }

  append_decision-WithinLimit :
      (i : DecisionInput) (l : Logs) → LogsWithinLimit (append_decision env i l).1
  unfolding append_decision
  append_decision-WithinLimit i l = record {
    events = omega (arith, length-take-le 99 l.events);
    decisions = omega (arith, length-take-le 99 l.decisions);
  }

  decide_found :
      (i : DecisionInput) (l : Logs) (x : OperationalDecision)
      → find (has_key i.idempotency_key) l.decisions ≡ some x
      → decide env i l ≡ (x, l)
  unfolding decide
  decide_found i l x e = rw (e, decide)

  decide_new :
      (i : DecisionInput) (l : Logs)
      → find (has_key i.idempotency_key) l.decisions ≡ none
      → decide env i l ≡ append_decision env i l
  unfolding decide
  decide_new i l e = rw (e, decide)

  decide-WithinLimit :
      (i : DecisionInput) (l : Logs) → LogsWithinLimit l → LogsWithinLimit (decide env i l).1
  decide-WithinLimit i l w = elim (Option-cases (find (has_key i.idempotency_key) l.decisions)) [
    | inl e ↦ rw (decide_new i l e) (append_decision-WithinLimit i l)
    | inr (x, e) ↦ rw (decide_found i l x e) w
  ]

  -- Writing a decision keeps the log of decisions and the ledger at a hundred entries at most.
  pub write_decision-WithinLimit :
      (i : DecisionInput) (d : Draft)
      → WithinLimit d.snapshot
      → WithinLimit (write_decision env i d).1.snapshot
  unfolding write_decision
  write_decision-WithinLimit i d w =
      let l : Logs = record {
        decisions = d.snapshot.decisions;
        events = d.snapshot.events;
        tick = d.tick;
      } in
      let v = decide-WithinLimit i l (record { events = w.events; decisions = w.decisions }) in
      record { events = v.events; decisions = v.decisions }

  found_after_append :
      (i : DecisionInput) (l : Logs)
      → find (has_key i.idempotency_key) (append_decision env i l).1.decisions
        ≡ some (append_decision env i l).0
  unfolding append_decision
  found_after_append i l = rw (eq_refl i.idempotency_key)

  logged :
      (i : DecisionInput) (l : Logs)
      → find (has_key i.idempotency_key) (decide env i l).1.decisions ≡ some (decide env i l).0
  logged i l = elim (Option-cases (find (has_key i.idempotency_key) l.decisions)) [
    | inl e ↦ rw (decide_new i l e) (found_after_append i l)
    | inr (x, e) ↦ rw (decide_found i l x e) e
  ]

  decide_idempotent :
      (i j : DecisionInput) (l : Logs)
      → i.idempotency_key ≡ j.idempotency_key
      → decide env j (decide env i l).1 ≡ decide env i l
  decide_idempotent i j l e = decide_found j (decide env i l).1 (decide env i l).0 (
      subst (λ k. find (has_key k) (decide env i l).1.decisions ≡ some (decide env i l).0) e
        (logged i l))

  -- A second decision under a key that was just logged returns the first decision and changes
  -- nothing, whatever else it says.
  pub write_decision_idempotent :
      (i j : DecisionInput) (d : Draft)
      → i.idempotency_key ≡ j.idempotency_key
      → write_decision env j (write_decision env i d).1 ≡ write_decision env i d
  unfolding write_decision
  write_decision_idempotent i j d e =
      let l : Logs = record {
        decisions = d.snapshot.decisions;
        events = d.snapshot.events;
        tick = d.tick;
      } in
      rw (decide_idempotent i j l e)
