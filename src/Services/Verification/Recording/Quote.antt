-- ===== src/Services/Verification/Recording/Quote.antt =====
-- lib/services/verification.ts: the segment that `processRecording` quotes.
use volta_hackathon.Prelude.{
  ℕ, ◌-◌, String, some, List, find, or_else, ◌≡◌, inl, inr, ◌∙◌, Option-cases,
}
use volta_hackathon.Domain.Confirmation.Words.{Text}
use volta_hackathon.Store.Booking.{EvidenceInput}
use volta_hackathon.Services.Verification.Recording.{
  DiarizedSegment, Provider, confirms, evidence_of, evidence_input,
}
use volta_hackathon.Prelude.Last.{Last, find-reversed, reversed}

module _ (nfd lower_case : Text → Text) where
  -- The evidence input stems from the last segment that confirms.
  pub record FromLast (p : Provider) (call_id url : String) (segments : List DiarizedSegment)
      (input : EvidenceInput) : Type 0 where
    pub segment : DiarizedSegment
    pub last : Last (confirms nfd lower_case) segments segment
    pub same_text : input.segment_text ≡ or_else segment.text ""
    pub same_call : input.call_id ≡ call_id
    pub from : ℕ
    pub starts : segment.start ≡ some from
    pub lead_in : input.start_seconds ≡ from - 1
    pub ends : segment.end_ ≡ some input.end_seconds

  pub evidence_of-FromLast :
      (p : Provider) (call_id url : String) (segments : List DiarizedSegment)
      (input : EvidenceInput)
      → evidence_of nfd lower_case p call_id url segments ≡ some input
      → FromLast p call_id url segments input
  unfolding evidence_of
  evidence_of-FromLast p call_id url segments input h =
      elim (Option-cases (find (confirms nfd lower_case) (reversed segments))) [
        | inl e ↦ absurd (let h' = rw (e, evidence_of) at h in cc)
        | inr (segment, e) ↦ elim (Option-cases segment.start) [
          | inl f ↦ absurd (let h' = rw (e, f, evidence_of) at h in cc)
          | inr (from, f) ↦ elim (Option-cases segment.end_) [
            | inl g ↦ absurd (let h' = rw (e, f, g, evidence_of) at h in cc)
            | inr (to, g) ↦
                let l = find-reversed (confirms nfd lower_case) segments segment e in
                let k : some (evidence_input nfd lower_case p call_id url segment (from, to))
                    ≡ some input =
                  rw (e, f, g, evidence_of) at h in
                record {
                  segment = segment;
                  last = l;
                  same_text = cc;
                  same_call = cc;
                  from = from;
                  starts = f;
                  lead_in = cc;
                  ends = g ∙ cc;
                }
          ]
        ]
      ]
