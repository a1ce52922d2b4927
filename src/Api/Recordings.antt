-- ===== src/Api/Recordings.antt =====
-- app/api/twilio/recordings/route.ts, app/api/telnyx/recordings/route.ts, app/api/whatsapp/recordings/route.ts and
-- app/api/jobs/process/route.ts. A queued job is run after the response: its id is part of the answer.
use volta_hackathon.Prelude.{
  ℕ, ◌*◌, String, Option, none, some, List, Bool, true, false, ◌||◌, ◌==◌, ltb, or_else, Result, ok,
  err, if◌then◌else◌,
}
use volta_hackathon.Prelude.Text.{◌<>◌}
use volta_hackathon.Domain.Confirmation.Words.{Text}
use volta_hackathon.Store.Environment.{Environment}
use volta_hackathon.Store.Session.{Interference}
use volta_hackathon.Services.Handoff.{present}
use volta_hackathon.Services.Jobs.{JobRow, Queue, RecordingJob, enqueue_recording_job}
use volta_hackathon.Services.Verification.Recording.{Provider, process_recording}
use volta_hackathon.Api.Receipts.{Inserted, Handler, Response, empty_response, once}
use volta_hackathon.Api.Callbacks.{Callback, forbidden}

-- The answer, the job that is run after it, and the two places of the jobs.
pub record Queued (Table : Type 0) : Type 0 where
  pub response : Response
  pub after_response : Option String
  pub jobs : Queue Table

abbrev pub max_bytes : ℕ
max_bytes = 30 * 1024 * 1024

abbrev invalid_recording : Response
invalid_recording = record { status = 400; body = "Invalid recording" }

module _ {Table : Type 0} where
  abbrev answered : Response → Queue Table → Queued Table
  answered response jobs = record { response = response; after_response = none; jobs = jobs }

  -- The answer once the job is in the queue, or that of the `catch` around it.
  abbrev enqueued : Response → Response → Result String × Queue Table → Queued Table
  enqueued response refusal (ok id, jobs) = record {
    response = response;
    after_response = some id;
    jobs = jobs;
  }
  enqueued response refusal (err message, jobs) = answered refusal jobs

-- `id` and `now` are what `enqueueRecordingJob` takes from the runtime.
module _ {Table : Type 0} (configured : Bool) (upsert : JobRow → Table → Result String × Table)
    (id : String) (now : ℕ) where
  abbrev enqueue_form : Option String → Option String → Queue Table → Queued Table
  enqueue_form (some call_id) (some url) jobs =
      enqueued (empty_response 204) forbidden
        (enqueue_recording_job configured upsert id now call_id url jobs)
  enqueue_form _ _ jobs = answered (empty_response 400) jobs

  unfoldable pub post_twilio_recording : Callback → Queue Table → Queued Table
  post_twilio_recording q jobs = elim q.form [
    | err message ↦ answered forbidden jobs
    | ok form ↦
        enqueue_form (present (q.search_param "callId")) (present (form "RecordingUrl")) jobs
  ]

  -- A recording that came whole: its length, and what the upload returns or throws.
  abbrev store_upload : String → ℕ → Result String → Queue Table → Queued Table
  store_upload call_id byte_length upload jobs =
      if ltb byte_length 44 || ltb max_bytes byte_length
      then answered invalid_recording jobs
      else elim upload [
        | err message ↦ answered invalid_recording jobs
        | ok source ↦
            enqueued (record { status = 202; body = source }) invalid_recording
              (enqueue_recording_job configured upsert id now call_id source jobs)
      ]

  unfoldable pub post_whatsapp_recording :
      Result Bool → Result String → ℕ → ℕ → Result String → Queue Table → Queued Table
  post_whatsapp_recording (err message) call_id content_length byte_length upload jobs =
      answered invalid_recording jobs
  post_whatsapp_recording (ok false) call_id content_length byte_length upload jobs =
      answered (record { status = 401; body = "Unauthorized" }) jobs
  post_whatsapp_recording (ok true) (err message) content_length byte_length upload jobs =
      answered invalid_recording jobs
  post_whatsapp_recording (ok true) (ok call_id) content_length byte_length upload jobs =
      if ltb max_bytes content_length
      then answered (record { status = 413; body = "Recording too large" }) jobs
      else store_upload call_id byte_length upload jobs

module _ (nfd lower_case : Text → Text) (env : Environment) (interference : Interference)
    (provider : Provider) (insert : Option (String → String → Inserted)) where
  abbrev take_recording : (String → Option String) → Option String → Option String → Handler
  take_recording form (some call_id) (some url) s =
      once insert "telnyx-recording" (or_else (form "RecordingSid") url)
        (process_recording nfd lower_case env interference provider call_id url)
        (empty_response 204) s
  take_recording form _ _ s = (empty_response 204, s)

  -- What the processing throws is only logged.
  unfoldable pub post_telnyx_recording : Callback → Handler
  post_telnyx_recording q s = elim q.form [
    | err message ↦ (forbidden, s)
    | ok form ↦
        take_recording form (present (q.search_param "callId")) (present (form "RecordingUrl")) s
  ]

abbrev may_process : Option String → Option String → Bool
may_process none header = true
may_process (some expected) none = false
may_process (some expected) (some given) = given == ("Bearer " <> expected)

-- `process` is `processPendingRecordingJobs`: how many jobs were due, or none where the header is not the secret of the cron job.
unfoldable pub get_jobs_process :
    (ℕ → List RecordingJob → ℕ × List RecordingJob)
    → Option String
    → Option String
    → ℕ
    → List RecordingJob
    → Option ℕ × List RecordingJob
get_jobs_process process secret header now jobs =
    if may_process (present secret) header
    then (let (n, rest) = process now jobs in (some n, rest))
    else (none, jobs)
