-- ===== src/Domain/Transcripts.antt =====
-- lib/domain/transcripts.ts: a transcript that only repeats the prompt of the transcriber.
use volta_hackathon.Prelude.{ℕ, Bool, false, not, ◌&&◌, ◌||◌, filter, leb}
use volta_hackathon.Domain.Confirmation.Words.{Text, codes, squeeze, trim, same_text}
use volta_hackathon.Domain.Confirmation.{is_mark}

unfoldable pub legacy_transcription_context : Text
legacy_transcription_context =
    codes
      "llamada logistica en espanol sobre tarifas mxn fechas horarios manzanillo guadalajara transportistas y confirmacion de recoleccion"

-- `/[^a-z0-9]/`
abbrev is_separator : ℕ → Bool
is_separator c = not ((leb b'a' c && leb c b'z') || (leb b'0' c && leb c b'9'))

module _ (nfd lower_case : Text → Text) where
  unfoldable pub normalize_transcript : Text → Text
  normalize_transcript text =
      trim (squeeze is_separator false (lower_case (filter (λ c. not (is_mark c)) (nfd text))))

  unfoldable pub is_transcription_context_echo : Text → Bool
  unfolding normalize_transcript legacy_transcription_context
  is_transcription_context_echo text =
      same_text (normalize_transcript text) legacy_transcription_context
