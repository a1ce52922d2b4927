-- ===== src/Store/Transcripts/Capture.antt =====
-- A transcript that the provider delivers twice.
use volta_hackathon.Prelude.{
  String, none, some, List, [], ◌∷◌, ◌++◌, ◌==◌, ◌≡◌, refl, sym, ap, ◌∙◌, inl, inr, ◌⊎◌, ◌≢◌, subst,
  arith, Bool, true, find, Result, ok, err, eq_refl,
}
use volta_hackathon.Domain.Types.{TranscriptInput, TranscriptSegment, TranscriptSpeaker}
use volta_hackathon.Store.Environment.{Environment}
use volta_hackathon.Store.Action.{Draft}
use volta_hackathon.Store.Ledger.{write_event}
use volta_hackathon.Store.Transcripts.{is_repeat, record_transcript, capture, same_speaker, call_of}

same_speaker_refl : (s : TranscriptSpeaker) → same_speaker s s ≡ true
same_speaker_refl TranscriptSpeaker.agent = refl
same_speaker_refl TranscriptSpeaker.counterparty = refl

find-append-last :
    (p : TranscriptSegment → Bool) (xs : List TranscriptSegment) (x : TranscriptSegment)
    → find p xs ≡ none
    → p x ≡ true
    → find p (xs ++ x ∷ []) ≡ some x
find-append-last p [] x h e = ground arith
find-append-last p (y ∷ xs) x h e = ground (arith, find-append-last p xs x)

abbrev value_of : Result TranscriptSegment → List TranscriptSegment
value_of (ok segment) = segment ∷ []
value_of (err message) = []

module _ (env : Environment) where
  captured-is_repeat :
      (input : TranscriptInput) (segment : TranscriptSegment) (d d' : Draft)
      → capture env input d ≡ (ok segment, d')
      → is_repeat input segment ≡ true
  unfolding capture is_repeat
  captured-is_repeat input segment d d' h = ground (
    arith,
    eq_refl input.call_id,
    eq_refl input.provider_item_id,
    same_speaker_refl input.speaker,
  )

  captured-last :
      (input : TranscriptInput) (segment : TranscriptSegment) (d d' : Draft)
      → capture env input d ≡ (ok segment, d')
      → d'.snapshot.transcripts ≡ d.snapshot.transcripts ++ segment ∷ []
  unfolding capture write_event
  captured-last input segment d d' h =
      sym (ap (λ p. p.1.snapshot.transcripts) h)
      ∙ ap (λ p. d.snapshot.transcripts ++ value_of p.0) h

  captured-calls :
      (input : TranscriptInput) (segment : TranscriptSegment) (d d' : Draft)
      → capture env input d ≡ (ok segment, d')
      → d'.snapshot.calls ≡ d.snapshot.calls
  unfolding capture write_event
  captured-calls input segment d d' h = sym (ap (λ p. p.1.snapshot.calls) h)

  -- With its call known, an input that repeats a recorded segment returns it and changes nothing.
  repeated :
      (input : TranscriptInput) (segment : TranscriptSegment) (d : Draft)
      → (is_known : call_of input.operation_id
            (find (λ call. call.id == input.call_id) d.snapshot.calls)
          ≢ none)
      → find (is_repeat input) d.snapshot.transcripts ≡ some segment
      → record_transcript env input d ≡ (ok segment, d)
  unfolding record_transcript
  repeated input segment d k e = ground (arith, e, k)

  recorded-known :
      (input : TranscriptInput) (segment : TranscriptSegment) (d d' : Draft)
      → record_transcript env input d ≡ (ok segment, d')
      → call_of input.operation_id (find (λ call. call.id == input.call_id) d.snapshot.calls) ≢ none
  unfolding record_transcript
  recorded-known input segment d d' h = ground arith

  recorded_cases :
      (input : TranscriptInput) (segment : TranscriptSegment) (d d' : Draft)
      → record_transcript env input d ≡ (ok segment, d')
      → ((find (is_repeat input) d.snapshot.transcripts ≡ some segment) × (d ≡ d'))
        ⊎ ((find (is_repeat input) d.snapshot.transcripts ≡ none)
            × (capture env input d ≡ (ok segment, d')))
  unfolding record_transcript
  recorded_cases input segment d d' h = ground arith

  -- A second delivery of a transcript that was recorded returns the recorded segment and changes
  -- nothing, even if its text is another one.
  pub record_transcript_idempotent :
      (input : TranscriptInput) (text : String) (segment : TranscriptSegment) (d d' : Draft)
      → record_transcript env input d ≡ (ok segment, d')
      → record_transcript env (record input { text = text }) d' ≡ (ok segment, d')
  unfolding is_repeat
  record_transcript_idempotent input text segment d d' h =
      let again : TranscriptInput = record input { text = text } in
      elim (recorded_cases input segment d d' h) [
        | inl (e, q) ↦
            repeated again segment d'
              (subst
                (λ d.
                  call_of input.operation_id
                    (find (λ call. call.id == input.call_id) d.snapshot.calls)
                  ≢ none)
                q (recorded-known input segment d d' h))
              (subst (λ d. find (is_repeat input) d.snapshot.transcripts ≡ some segment) q e)
        | inr (e, q) ↦
            repeated again segment d'
              (subst
                (λ calls.
                  call_of input.operation_id (find (λ call. call.id == input.call_id) calls) ≢ none)
                (sym (captured-calls input segment d d' q)) (recorded-known input segment d d' h))
              (ap (find (is_repeat input)) (captured-last input segment d d' q)
                ∙ find-append-last (is_repeat input) d.snapshot.transcripts segment e
                    (captured-is_repeat input segment d d' q))
      ]
