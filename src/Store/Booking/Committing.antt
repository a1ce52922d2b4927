-- ===== src/Store/Booking/Committing.antt =====
-- From a confirmed commitment to a committed one: the recap and the evidence, in either order.
use volta_hackathon.Prelude.{
  String, ◌≡◌, some, arith, eq_iff, eq_sym, ok, Result, Option-cases, inl, inr,
}
use volta_hackathon.Domain.Types.{Commitment, Evidence, verbally_confirmed, committed}
use volta_hackathon.Domain.Commitment.{transition_commitment}
use volta_hackathon.Store.Environment.{Environment}
use volta_hackathon.Store.Action.{Draft, ◌>>◌}
use volta_hackathon.Store.Mutation.Isolation.{Result-cases}
use volta_hackathon.Store.Ledger.{write_event}
use volta_hackathon.Store.Booking.{mark_recap_sent, link_evidence, EvidenceInput}

-- What a run to the end leaves: it returned `a`, and the stored commitment is `c` committed, with
-- the recap's message, and the stored evidence is that of the input, for this commitment.
pub record Commits {A : Type 0} (sid : String) (i : EvidenceInput) (c : Commitment)
    (run : Result A × Draft) : Type 0 where
  pub answer : A
  pub returned : run.0 ≡ ok answer
  pub committed_one : Commitment
  pub stored : run.1.snapshot.commitment ≡ some committed_one
  pub now_committed : committed_one.status ≡ committed
  pub same_terms :
      (committed_one.id ≡ c.id)
      × (committed_one.offer_id ≡ c.offer_id)
      × (committed_one.recap_text ≡ c.recap_text)
  pub message : committed_one.twilio_message_sid ≡ some sid
  pub evidence : Evidence
  pub linked : run.1.snapshot.evidence ≡ some evidence
  pub for_commitment : evidence.commitment_id ≡ c.id
  pub quoted : (evidence.segment_text ≡ i.segment_text) × (evidence.recording_url ≡ i.recording_url)

module _ (env : Environment) (id sid : String) (i : EvidenceInput) (d : Draft) (c : Commitment)
    (standing : d.snapshot.commitment ≡ some c) (named : c.id ≡ id)
    (confirmed : c.status ≡ verbally_confirmed) where
  recap_then_evidence : Commits sid i c ((mark_recap_sent env id sid >> link_evidence env id i) d)
  unfolding mark_recap_sent link_evidence transition_commitment write_event
  recap_then_evidence =
      elim (Result-cases ((mark_recap_sent env id sid >> link_evidence env id i) d).0) [
        | inr (m, e) ↦ absurd (ground (arith, eq_iff c.id id, eq_sym id c.id))
        | inl (a, e) ↦
            elim (Option-cases
              ((mark_recap_sent env id sid >> link_evidence env id i) d).1.snapshot.commitment) [
                | inl f ↦ absurd (ground (arith, eq_iff c.id id, eq_sym id c.id))
                | inr (c', f) ↦
                    elim (Option-cases
                      ((mark_recap_sent env id sid >> link_evidence env id i)
                        d).1.snapshot.evidence) [
                          | inl g ↦ absurd (ground (arith, eq_iff c.id id, eq_sym id c.id))
                          | inr (v, g) ↦ record {
                            answer = a;
                            returned = e;
                            committed_one = c';
                            stored = f;
                            now_committed = ground (arith, eq_iff c.id id, eq_sym id c.id);
                            same_terms = ground (arith, eq_iff c.id id, eq_sym id c.id);
                            message = ground (arith, eq_iff c.id id, eq_sym id c.id);
                            evidence = v;
                            linked = g;
                            for_commitment = ground (arith, eq_iff c.id id, eq_sym id c.id);
                            quoted = ground (arith, eq_iff c.id id, eq_sym id c.id);
                          }
                        ]
              ]
      ]

  evidence_then_recap : Commits sid i c ((link_evidence env id i >> mark_recap_sent env id sid) d)
  unfolding mark_recap_sent link_evidence transition_commitment write_event
  evidence_then_recap =
      elim (Result-cases ((link_evidence env id i >> mark_recap_sent env id sid) d).0) [
        | inr (m, e) ↦ absurd (ground (arith, eq_iff c.id id, eq_sym id c.id))
        | inl (a, e) ↦
            elim (Option-cases
              ((link_evidence env id i >> mark_recap_sent env id sid) d).1.snapshot.commitment) [
                | inl f ↦ absurd (ground (arith, eq_iff c.id id, eq_sym id c.id))
                | inr (c', f) ↦
                    elim (Option-cases
                      ((link_evidence env id i >> mark_recap_sent env id sid)
                        d).1.snapshot.evidence) [
                          | inl g ↦ absurd (ground (arith, eq_iff c.id id, eq_sym id c.id))
                          | inr (v, g) ↦ record {
                            answer = a;
                            returned = e;
                            committed_one = c';
                            stored = f;
                            now_committed = ground (arith, eq_iff c.id id, eq_sym id c.id);
                            same_terms = ground (arith, eq_iff c.id id, eq_sym id c.id);
                            message = ground (arith, eq_iff c.id id, eq_sym id c.id);
                            evidence = v;
                            linked = g;
                            for_commitment = ground (arith, eq_iff c.id id, eq_sym id c.id);
                            quoted = ground (arith, eq_iff c.id id, eq_sym id c.id);
                          }
                        ]
              ]
      ]

  -- From a verbally confirmed commitment, marking the recap as sent and linking the evidence both
  -- succeed in either order, and leave the same commitment stored as committed, with the recap's
  -- message and the evidence of the input.
  pub recap_evidence_any_order :
      Commits sid i c ((mark_recap_sent env id sid >> link_evidence env id i) d)
      × Commits sid i c ((link_evidence env id i >> mark_recap_sent env id sid) d)
  recap_evidence_any_order = (recap_then_evidence, evidence_then_recap)
