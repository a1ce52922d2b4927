-- ===== src/Store/Booking/Invariant.antt =====
-- lib/store/base.ts: the timestamps and the evidence beside the status of the commitment.
use volta_hackathon.Prelude.{
  String, ◌≡◌, Option, none, some, Bool, true, false, arith, ok, is_some, Option-cases, Bool-cases,
  eq_sym, inl, inr,
}
use volta_hackathon.Domain.Types.{
  Commitment, CommitmentStatus, verbally_confirmed, recap_sent, evidence_linked, committed,
  Evidence, OperationSnapshot,
}
use volta_hackathon.Domain.Commitment.{transition_commitment, same_status}
use volta_hackathon.Store.Environment.{Environment}
use volta_hackathon.Store.Action.{Draft, Action}
use volta_hackathon.Store.Ledger.{write_event, write_decision}
use volta_hackathon.Store.Booking.{
  stage_booking, confirm_booking, mark_recap_sent, supersede_commitment, link_evidence, evidences,
  EvidenceInput,
}

abbrev was_confirmed : CommitmentStatus → Bool
was_confirmed verbally_confirmed = true
was_confirmed recap_sent = true
was_confirmed evidence_linked = true
was_confirmed committed = true
was_confirmed _ = false

abbrev was_recapped : CommitmentStatus → Bool
was_recapped recap_sent = true
was_recapped evidence_linked = true
was_recapped committed = true
was_recapped _ = false

abbrev is_committed : CommitmentStatus → Bool
is_committed committed = true
is_committed _ = false

-- A confirmed commitment has the time of its confirmation, one past its recap the time and the
-- reference of the recap, and a committed one the time of the commit and evidence that names it.
pub record Backed (c : Commitment) (e : Option Evidence) : Type 0 where
  pub confirmed : was_confirmed c.status ≡ true → is_some c.verbally_confirmed_at ≡ true
  pub recapped : was_recapped c.status ≡ true → is_some c.recap_sent_at ≡ true
  pub referenced : was_recapped c.status ≡ true → is_some c.twilio_message_sid ≡ true
  pub dated : is_committed c.status ≡ true → is_some c.committed_at ≡ true
  pub evidenced : is_committed c.status ≡ true → evidences e c.id ≡ true

abbrev pub BackedBy : Option Commitment → Option Evidence → Type 0
BackedBy none e = Unit
BackedBy (some c) e = Backed c e

abbrev pub IsBacked : OperationSnapshot → Type 0
IsBacked s = BackedBy s.commitment s.evidence

-- A successful run of the action keeps `P`.
abbrev pub Keeps : {A : Type 0} → (OperationSnapshot → Type 0) → Action A → Type 0
Keeps {A} P m = (d : Draft) (a : A) → P d.snapshot → (m d).0 ≡ ok a → P (m d).1.snapshot

module _ (env : Environment) where
  -- Marking the recap as sent keeps what the timestamps and the evidence say of the status: if it
  -- commits, the evidence names the commitment.
  pub mark_recap_sent-IsBacked :
      (id sid : String) (d : Draft) (c : Commitment)
      → IsBacked d.snapshot
      → (mark_recap_sent env id sid d).0 ≡ ok c
      → IsBacked (mark_recap_sent env id sid d).1.snapshot
  unfolding mark_recap_sent transition_commitment write_event write_decision
  mark_recap_sent-IsBacked id sid d a h r = ground (arith)

  -- Linking evidence keeps it too: if that commits, the commitment has been confirmed and its recap
  -- has been sent.
  pub link_evidence-IsBacked :
      (id : String) (i : EvidenceInput) (d : Draft) (e : Evidence)
      → IsBacked d.snapshot
      → (link_evidence env id i d).0 ≡ ok e
      → IsBacked (link_evidence env id i d).1.snapshot
  unfolding link_evidence transition_commitment write_event write_decision
  link_evidence-IsBacked id i d a h r = elim (Option-cases d.snapshot.commitment) [
    | inl e ↦ absurd (ground arith)
    | inr (c, e) ↦ elim (Bool-cases (same_status c.status recap_sent)) [
      | inl st ↦ ground (arith, eq_sym id c.id)
      | inr st ↦ ground (arith, eq_sym id c.id)
    ]
  ]

  supersede_commitment-IsBacked :
      (id reason : String) → Keeps IsBacked (supersede_commitment env id reason)
  unfolding supersede_commitment transition_commitment write_event write_decision
  supersede_commitment-IsBacked id reason d a h r = ground arith

  confirm_booking-IsBacked : (id token : String) → Keeps IsBacked (confirm_booking env id token)
  unfolding confirm_booking transition_commitment write_event write_decision
  confirm_booking-IsBacked id token d a h r = ground arith

  stage_booking-IsBacked :
      (op offer call : String) → Keeps IsBacked (stage_booking env op offer call)
  unfolding stage_booking write_event write_decision
  stage_booking-IsBacked op offer call d a h r = ground arith
