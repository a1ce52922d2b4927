-- ===== src/Services/Verification/Recording/Evidence.antt =====
-- lib/services/verification.ts: `processRecording`, and the segment that becomes the evidence.
use volta_hackathon.Prelude.{
  ℕ, String, Option, none, some, List, Result, ok, ◌≡◌, ◌⊎◌, inl, inr, refl, arith, ap, sym, subst,
  ◌∙◌, Bool-cases,
}
use volta_hackathon.Domain.Types.{Commitment, CommitmentStatus, Evidence, OperationSnapshot}
use volta_hackathon.Domain.Commitment.{same_status, transition_commitment}
use volta_hackathon.Domain.Confirmation.Words.{Text}
use volta_hackathon.Store.Environment.{Environment}
use volta_hackathon.Store.Action.{Draft}
use volta_hackathon.Store.Mutation.{World, mutate, attempts, get_snapshot, default_operation}
use volta_hackathon.Store.Mutation.Isolation.{Result-cases}
use volta_hackathon.Store.Mutation.Isolation.Keeps.{attempt_mutation-Keeps}
use volta_hackathon.Store.Ledger.{EventInput, add_event, write_event}
use volta_hackathon.Store.Booking.{EvidenceInput, link_evidence}
use volta_hackathon.Store.Session.{Session, Interference, answer, perform, ◌>>=◌, ◌>>◌}
use volta_hackathon.Services.Verification.Recording.{
  DiarizedSegment, Media, Provider, evidence_of, link, transcribe, process_booked,
  process_recording, download, booked_by,
}
use volta_hackathon.Services.Verification.Recording.Quote.{FromLast, evidence_of-FromLast}

module _ (nfd lower_case : Text → Text) where
  -- The stored evidence quotes the last segment that confirms, of what the transcription returned.
  pub record Quotes (p : Provider) (call_id url : String) (s : OperationSnapshot) : Type 0 where
    pub client : Media → Result (List DiarizedSegment)
    pub configured : p.client ≡ some client
    pub media : Media
    pub downloaded : download p call_id url ≡ ok media
    pub segments : List DiarizedSegment
    pub transcribed : client media ≡ ok segments
    pub input : EvidenceInput
    pub from_last : FromLast nfd lower_case p call_id url segments input
    pub evidence : Evidence
    pub stored : s.evidence ≡ some evidence
    pub same_text : evidence.segment_text ≡ input.segment_text
    pub same_call : evidence.call_id ≡ input.call_id
    pub same_start : evidence.start_seconds ≡ input.start_seconds
    pub same_end : evidence.end_seconds ≡ input.end_seconds

  abbrev Holds : EvidenceInput → Option Evidence → Type 0
  Holds input none = ⊥
  Holds input (some e) =
      (e.segment_text ≡ input.segment_text)
      × (e.call_id ≡ input.call_id)
      × (e.start_seconds ≡ input.start_seconds)
      × (e.end_seconds ≡ input.end_seconds)

  module _ (env : Environment) (interference : Interference)
      (keep : (tick n : ℕ) (s : OperationSnapshot)
        → (interference tick n s).evidence ≡ s.evidence) where
    add_event-evidence :
        (input : EventInput) (w : World)
        → (perform env interference (add_event env input) w).1.stored.evidence ≡ w.stored.evidence
    unfolding mutate
    add_event-evidence input w =
        attempt_mutation-Keeps env (interference w.tick) (add_event env input)
          (λ s. s.evidence ≡ w.stored.evidence) (λ n s p. keep w.tick n s ∙ p) (λ s v at p. p)
          (λ d a p e. unfold add_event write_event in p) attempts w refl

    link_body :
        (id : String) (input : EvidenceInput) (d : Draft) (e : Evidence)
        → (link_evidence env id input d).0 ≡ ok e
        → Holds input (link_evidence env id input d).1.snapshot.evidence
    unfolding link_evidence transition_commitment write_event
    link_body id input d e r = ground arith

    link-evidence :
        (id : String) (input : EvidenceInput) (w : World)
        → ((perform env interference (link_evidence env id input) w).1.stored.evidence
            ≡ w.stored.evidence)
          ⊎ Holds input (perform env interference (link_evidence env id input) w).1.stored.evidence
    unfolding mutate
    link-evidence id input w =
        attempt_mutation-Keeps env (interference w.tick) (link_evidence env id input)
          (λ s. (s.evidence ≡ w.stored.evidence) ⊎ Holds input s.evidence)
          (λ n s p. subst (λ e. (e ≡ w.stored.evidence) ⊎ Holds input e) (sym (keep w.tick n s)) p)
          (λ s v at p. p) (λ d a p e. inr (link_body id input d a e)) attempts w (inl refl)

    module _ (p : Provider) (call_id url : String) where
      -- What `processRecording` may make of the evidence.
      abbrev pub Outcome : Session (Unit {0}) → World → Type 0
      Outcome m w =
          ((m w).1.stored.evidence ≡ w.stored.evidence) ⊎ Quotes p call_id url (m w).1.stored

      ignored :
          {A : Type 0} (m : Session A) (w : World) → (m w).1.stored ≡ ((m >> answer tt) w).1.stored
      ignored m w = elim (Result-cases (m w).0) [
        | inl (a, e) ↦ rw (e, ◌>>◌, ◌>>=◌) refl
        | inr (message, e) ↦ rw (e, ◌>>◌, ◌>>=◌) refl
      ]

      held :
          (client : Media → Result (List DiarizedSegment)) (media : Media)
          (segments : List DiarizedSegment) (input : EvidenceInput) (s : OperationSnapshot)
          → p.client ≡ some client
          → download p call_id url ≡ ok media
          → client media ≡ ok segments
          → FromLast nfd lower_case p call_id url segments input
          → (r : Option Evidence) → s.evidence ≡ r
          → Holds input r
          → Quotes p call_id url s
      held client media segments input s c d t l none e h = absurd h
      held client media segments input s c d t l (some evidence) e h = record {
        client = client;
        configured = c;
        media = media;
        downloaded = d;
        segments = segments;
        transcribed = t;
        input = input;
        from_last = l;
        evidence = evidence;
        stored = e;
        same_text = h.0;
        same_call = h.1;
        same_start = h.2;
        same_end = h.3;
      }

      link-Outcome :
          (c : Commitment) (client : Media → Result (List DiarizedSegment)) (media : Media)
          (segments : List DiarizedSegment) (w : World)
          → p.client ≡ some client
          → download p call_id url ≡ ok media
          → client media ≡ ok segments
          → (r : Option EvidenceInput) → evidence_of nfd lower_case p call_id url segments ≡ r
          → Outcome (link nfd lower_case env interference p c call_id r) w
      unfolding link
      link-Outcome c client media segments w k d t none e =
          let add = perform env interference (add_event env _) in
          inl (ap (λ s. s.evidence) (sym (ignored add w)) ∙ add_event-evidence _ w)
      link-Outcome c client media segments w k d t (some input) e =
          let m = perform env interference (link_evidence env c.id input) in
          subst (λ s. (s.evidence ≡ w.stored.evidence) ⊎ Quotes p call_id url s) (ignored m w)
            (elim (link-evidence c.id input w) [
              | inl same ↦ inl same
              | inr h ↦ inr (
                  held client media segments input (m w).1.stored k d t
                    (evidence_of-FromLast nfd lower_case p call_id url segments input e)
                    (m w).1.stored.evidence refl h)
            ])

      transcribe-Outcome :
          (c : Commitment) (w : World) (client : Option (Media → Result (List DiarizedSegment)))
          → p.client ≡ client
          → Outcome (transcribe nfd lower_case env interference p c call_id url client) w
      unfolding transcribe
      transcribe-Outcome c w none k = inl refl
      transcribe-Outcome c w (some client) k = elim (Result-cases (download p call_id url)) [
        | inr (message, d) ↦ rw (d, transcribe, Outcome) (inl refl)
        | inl (media, d) ↦ elim (Result-cases (client media)) [
          | inr (message, t) ↦ rw (d, transcribe, Outcome) (rw (t, transcribe, Outcome) (inl refl))
          | inl (segments, t) ↦
              rw (d, transcribe, Outcome)
                (rw (t, transcribe, Outcome)
                  (link-Outcome c client media segments w k d t
                    (evidence_of nfd lower_case p call_id url segments) refl))
        ]
      ]

      booked-Outcome :
          (w : World) (c : Option Commitment)
          → Outcome (process_booked nfd lower_case env interference p call_id url c) w
      unfolding process_booked
      booked-Outcome w none = inl refl
      booked-Outcome w (some c) =
          elim (Bool-cases (same_status c.status CommitmentStatus.proposed)) [
            | inl e ↦
                rw (e, process_booked, Outcome)
                  (inl (
                    ap (λ s. s.evidence)
                      (sym (ignored (perform env interference (add_event env _)) w))
                    ∙ add_event-evidence _ w))
            | inr e ↦ rw (e, process_booked, Outcome) (transcribe-Outcome c w p.client refl)
          ]

      -- If the other writers leave the evidence alone, then after `processRecording` the stored evidence
      -- is what it was, or it quotes the text and the times of a segment of this recording's
      -- transcript that confirms without doubt, and after which no segment does; the quote starts one
      -- second before the segment, or at zero.
      pub process_recording_evidence :
          (w : World) → Outcome (process_recording nfd lower_case env interference p call_id url) w
      unfolding process_recording
      process_recording_evidence w = elim (Result-cases (get_snapshot default_operation w)) [
        | inl (s, e) ↦
            rw (e, process_recording, ◌>>=◌, Outcome)
              (booked-Outcome w (booked_by call_id s.commitment))
        | inr (message, e) ↦ rw (e, process_recording, ◌>>=◌, Outcome) (inl refl)
      ]
