-- ===== src/Domain/Commitment/Lifecycle.antt =====
-- The traces that the transition table allows.
use volta_hackathon.Prelude.{◌≡◌, ◌≢◌, ◌↔◌, refl, arith, ok, In}
use volta_hackathon.Domain.Types.{
  CommitmentStatus, proposed, verbally_confirmed, recap_sent, evidence_linked, committed,
  superseded, rejected, verification_failed, escalated,
}
use volta_hackathon.Domain.Commitment.{transition_commitment, transitions}

-- A run of `transition_commitment` calls that all succeed and never enter `avoided`.
pub data Trace (avoided from : CommitmentStatus) : CommitmentStatus → Type 0 where
  start : Trace avoided from from
  step :
      {via to : CommitmentStatus}
      → Trace avoided from via
      → transition_commitment via to ≡ ok to
      → to ≢ avoided
      → Trace avoided from to

-- The statuses that a proposal reaches without a verbal confirmation.
abbrev Unconfirmed : CommitmentStatus → Type 0
Unconfirmed proposed = Unit
Unconfirmed superseded = Unit
Unconfirmed rejected = Unit
Unconfirmed escalated = Unit
Unconfirmed _ = ⊥

-- ... and without linked evidence.
abbrev Unevidenced : CommitmentStatus → Type 0
Unevidenced evidence_linked = ⊥
Unevidenced committed = ⊥
Unevidenced _ = Unit

Unconfirmed-step :
    (via to : CommitmentStatus)
    → Unconfirmed via
    → transition_commitment via to ≡ ok to
    → to ≢ verbally_confirmed
    → Unconfirmed to
unfolding transition_commitment
Unconfirmed-step via to u h n = ground arith

Unevidenced-step :
    (via to : CommitmentStatus)
    → Unevidenced via
    → transition_commitment via to ≡ ok to
    → to ≢ evidence_linked
    → Unevidenced to
unfolding transition_commitment
Unevidenced-step via to u h n = ground arith

Trace-Unconfirmed : {to : CommitmentStatus} → Trace verbally_confirmed proposed to → Unconfirmed to
Trace-Unconfirmed start = tt
Trace-Unconfirmed (step {via} {to} t h n) = Unconfirmed-step via to (Trace-Unconfirmed t) h n

Trace-Unevidenced : {to : CommitmentStatus} → Trace evidence_linked proposed to → Unevidenced to
Trace-Unevidenced start = tt
Trace-Unevidenced (step {via} {to} t h n) = Unevidenced-step via to (Trace-Unevidenced t) h n

-- No run of allowed transitions takes a proposal to COMMITTED around VERBALLY_CONFIRMED, or around
-- EVIDENCE_LINKED.
pub committed_needs_both :
    (¬ Trace verbally_confirmed proposed committed) × (¬ Trace evidence_linked proposed committed)
committed_needs_both = (λ t. Trace-Unconfirmed t, λ t. Trace-Unevidenced t)

-- The table alone does not ask for a sent recap: VERIFICATION_FAILED leads round RECAP_SENT.
pub recap_can_be_passed_by : Trace recap_sent proposed committed
unfolding transition_commitment
recap_can_be_passed_by =
    let confirmed : Trace recap_sent proposed verbally_confirmed = step start refl (ground arith) in
    let failed : Trace recap_sent proposed verification_failed =
      step confirmed refl (ground arith) in
    let linked : Trace recap_sent proposed evidence_linked = step failed refl (ground arith) in
    step linked refl (ground arith)

-- A transition succeeds exactly when the table lists it, and returns its target.
pub transition_commitment_iff :
    (from to : CommitmentStatus)
    → (transition_commitment from to ≡ ok to) ↔ In to (transitions from)
unfolding transition_commitment
transition_commitment_iff from to = ground arith
