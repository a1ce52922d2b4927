-- ===== src/Domain/Commitment.antt =====
-- lib/domain/commitment.ts: the statuses that may follow each other.
pub mod Lifecycle
use volta_hackathon.Prelude.{
  ℕ, String, Bool, true, false, ◌||◌, List, [], ◌∷◌, eqb, if◌then◌else◌, Result, ok, err,
}
use volta_hackathon.Prelude.Text.{◌<>◌}
use volta_hackathon.Domain.Types.{
  CommitmentStatus, proposed, verbally_confirmed, recap_sent, evidence_linked, committed,
  superseded, rejected, verification_failed, escalated,
}

unfoldable pub transitions : CommitmentStatus → List CommitmentStatus
transitions proposed = verbally_confirmed ∷ superseded ∷ rejected ∷ escalated ∷ []
transitions verbally_confirmed = recap_sent ∷ superseded ∷ rejected ∷ verification_failed ∷ []
transitions recap_sent = evidence_linked ∷ superseded ∷ verification_failed ∷ []
transitions evidence_linked = committed ∷ superseded ∷ verification_failed ∷ []
transitions committed = superseded ∷ escalated ∷ []
transitions superseded = []
transitions rejected = []
transitions verification_failed = evidence_linked ∷ escalated ∷ []
transitions escalated = []

abbrev tag : CommitmentStatus → ℕ
tag proposed = 0
tag verbally_confirmed = 1
tag recap_sent = 2
tag evidence_linked = 3
tag committed = 4
tag superseded = 5
tag rejected = 6
tag verification_failed = 7
tag escalated = 8

-- `===` on two statuses.
abbrev pub same_status : CommitmentStatus → CommitmentStatus → Bool
same_status a b = eqb (tag a) (tag b)

abbrev pub contains : List CommitmentStatus → CommitmentStatus → Bool
contains [] status = false
contains (s ∷ rest) status = same_status s status || contains rest status

unfoldable pub can_transition_commitment : CommitmentStatus → CommitmentStatus → Bool
unfolding transitions
can_transition_commitment from to = contains (transitions from) to

abbrev pub status_text : CommitmentStatus → String
status_text proposed = "PROPOSED"
status_text verbally_confirmed = "VERBALLY_CONFIRMED"
status_text recap_sent = "RECAP_SENT"
status_text evidence_linked = "EVIDENCE_LINKED"
status_text committed = "COMMITTED"
status_text superseded = "SUPERSEDED"
status_text rejected = "REJECTED"
status_text verification_failed = "VERIFICATION_FAILED"
status_text escalated = "ESCALATED"

unfoldable pub transition_commitment : CommitmentStatus → CommitmentStatus → Result CommitmentStatus
unfolding can_transition_commitment
transition_commitment from to =
    if can_transition_commitment from to
    then ok to
    else err ("Invalid commitment transition: " <> status_text from <> " -> " <> status_text to)

-- `["SUPERSEDED", "REJECTED"].includes(status)`
abbrev pub is_retired : CommitmentStatus → Bool
is_retired superseded = true
is_retired rejected = true
is_retired _ = false
