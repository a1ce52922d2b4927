-- ===== src/Services/Verification/Recording.antt =====
-- lib/services/verification.ts: `processRecording`. The download and the transcription are parameters:
-- what they return, or the message that they throw. `client` is none where no OpenAI key is set. The
-- bytes of a recording are a text that only the transcription reads; seconds are natural numbers.
pub mod Quote
pub mod Evidence
use Prim.Native.Char.{code}
use Prim.Native.String
use volta_hackathon.Prelude.{
  ℕ, ◌-◌, String, Option, none, some, List, [], ◌∷◌, ◌==◌, Bool, true, false, not, ◌&&◌, eqb, leb,
  find, or_else, Result, ok, err, if◌then◌else◌,
}
use volta_hackathon.Prelude.Last.{reversed}
use volta_hackathon.Prelude.Text.{◌<>◌, decimal, trim}
use volta_hackathon.Domain.Types.{Commitment, CommitmentStatus, Severity, VoiceProvider}
use volta_hackathon.Domain.Commitment.{same_status}
use volta_hackathon.Domain.Confirmation.{is_unequivocal_confirmation}
use volta_hackathon.Domain.Confirmation.Words.{Text, codes}
use volta_hackathon.Store.Environment.{Environment}
use volta_hackathon.Store.Mutation.{default_operation}
use volta_hackathon.Store.Ledger.{EventInput, add_event}
use volta_hackathon.Store.Booking.{EvidenceInput, link_evidence}
use volta_hackathon.Store.Session.{Session, Interference, answer, fail, read, perform, ◌>>=◌, ◌>>◌}

pub record DiarizedSegment : Type 0 where
  pub speaker : Option String
  pub text : Option String
  pub start : Option ℕ
  pub end_ : Option ℕ

pub record MediaResponse : Type 0 where
  pub status : ℕ
  pub bytes : String

pub record Media : Type 0 where
  pub bytes : String
  pub filename : String

pub record Provider : Type 0 where
  pub transport : VoiceProvider
  pub telnyx_api_key : Option String
  pub twilio_account_sid : Option String
  pub twilio_auth_token : Option String
  pub is_twilio_configured : Bool
  pub public_base_url : String
  pub base64 : String → String
  -- `downloadRecording` of lib/server/recording-storage.ts
  pub download_recording : String → Result String
  -- `fetch` with a URL and an `Authorization` header.
  pub fetch : String → Option String → Result MediaResponse
  pub client : Option (Media → Result (List DiarizedSegment))

-- `text.startsWith(prefix)`
abbrev pub starts_with : String → String → Bool
starts_with text String.[] = true
starts_with String.[] (String.◌∷◌ d rest) = false
starts_with (String.◌∷◌ c text) (String.◌∷◌ d rest) = eqb (code c) (code d) && starts_with text rest

abbrev is_ok_status : ℕ → Bool
is_ok_status status = leb 200 status && leb status 299

abbrev fetched : String → Result MediaResponse → Result Media
fetched filename (err message) = err message
fetched filename (ok response) =
    if is_ok_status response.status
    then ok (record { bytes = response.bytes; filename = filename })
    else err ("Recording download failed (" <> decimal response.status <> ")")

abbrev stored_as : String → Result String → Result Media
stored_as filename (err message) = err message
stored_as filename (ok bytes) = ok (record { bytes = bytes; filename = filename })

abbrev is_telnyx : VoiceProvider → Bool
is_telnyx VoiceProvider.telnyx = true
is_telnyx _ = false

unfoldable pub download : Provider → String → String → Result Media
download p call_id url =
    if starts_with url "supabase://"
    then stored_as (call_id <> ".wav") (p.download_recording url)
    else if is_telnyx p.transport
    then fetched (call_id <> ".wav")
        (p.fetch url (some ("Bearer " <> trim (or_else p.telnyx_api_key ""))))
    else fetched (call_id <> ".mp3") (
        p.fetch (url <> ".mp3") (
          if p.is_twilio_configured
          then some (
              "Basic "
              <> p.base64
                  (or_else p.twilio_account_sid "" <> ":" <> or_else p.twilio_auth_token ""))
          else none))

-- A commitment that this call booked.
abbrev pub booked_by : String → Option Commitment → Option Commitment
booked_by call_id none = none
booked_by call_id (some c) = if c.booking_call_id == call_id then some c else none

abbrev evidence_event : Commitment → String → String → Severity → String → EventInput
evidence_event c call_id type severity summary = record {
  operation_id = c.operation_id;
  call_id = some call_id;
  type = type;
  severity = some severity;
  summary = summary;
  payload = [];
}

module _ (nfd lower_case : Text → Text) where
  abbrev pub confirms : DiarizedSegment → Bool
  confirms segment = is_unequivocal_confirmation nfd lower_case (codes (or_else segment.text ""))

  abbrev pub timed : DiarizedSegment → Option (ℕ × ℕ)
  timed segment = elim segment.start [
    | none ↦ none
    | some from ↦ elim segment.end_ [ none ↦ none | some to ↦ some (from, to) ]
  ]

  abbrev pub evidence_input : Provider → String → String → DiarizedSegment → ℕ × ℕ → EvidenceInput
  evidence_input p call_id url segment (from, to) = record {
    call_id = call_id;
    recording_url = p.public_base_url <> "/api/recordings/" <> call_id;
    storage_path = some url;
    speaker = or_else segment.speaker "unknown";
    segment_text = or_else segment.text "";
    start_seconds = from - 1;
    end_seconds = to;
  }

  -- The last segment that confirms, if it says when it starts and ends.
  unfoldable pub evidence_of :
      Provider → String → String → List DiarizedSegment → Option EvidenceInput
  evidence_of p call_id url segments = elim (find confirms (reversed segments)) [
    | none ↦ none
    | some segment ↦ elim (timed segment) [
      | none ↦ none
      | some times ↦ some (evidence_input p call_id url segment times)
    ]
  ]

  module _ (env : Environment) (interference : Interference) (p : Provider) where
    unfoldable pub link : Commitment → String → Option EvidenceInput → Session (Unit {0})
    link c call_id none =
        perform env interference (
          add_event env (
            evidence_event c call_id "evidence.verification_failed" Severity.danger
              "No unequivocal confirmation segment found in the recording"))
        >> answer tt
    link c call_id (some input) =
        perform env interference (link_evidence env c.id input) >> answer tt

    unfoldable pub transcribe :
        Commitment
        → String
        → String
        → Option (Media → Result (List DiarizedSegment))
        → Session (Unit {0})
    transcribe c call_id url none = fail "OpenAI client is not configured"
    transcribe c call_id url (some client) = elim (download p call_id url) [
      | err message ↦ fail message
      | ok media ↦ elim (client media) [
        | err message ↦ fail message
        | ok segments ↦ link c call_id (evidence_of p call_id url segments)
      ]
    ]

    unfoldable pub process_booked : String → String → Option Commitment → Session (Unit {0})
    process_booked call_id url none = answer tt
    process_booked call_id url (some c) =
        if same_status c.status CommitmentStatus.proposed
        then (perform env interference (
              add_event env (
                evidence_event c call_id "evidence.skipped_unconfirmed" Severity.warning
                  "Recording processed but the terms were never verbally confirmed; nothing to evidence"))
            >> answer tt)
        else transcribe c call_id url p.client

    unfoldable pub process_recording : String → String → Session (Unit {0})
    process_recording call_id url = do
      s ← read default_operation
      process_booked call_id url (booked_by call_id s.commitment)
