-- ===== src/Services/Jobs.antt =====
-- lib/jobs/recordings.ts: the putting of a job in the database's table or in the queue in memory, and
-- the processing of the latter, where no database is configured. `work` is `processRecording`: `none` where it returns, and the text of the error where it throws.
pub mod Joins
pub mod Retries
use volta_hackathon.Prelude.{
  ℕ, ◌+◌, ◌*◌, ◌^◌, String, Option, none, some, List, [], ◌∷◌, ◌++◌, ◌==◌, Bool, true, false, ◌&&◌,
  find, filter, length, leb, update_first, if◌then◌else◌, Result, ok, err,
}
use volta_hackathon.Prelude.Text.{◌<>◌}

pub data JobStatus : Type 0 where
  pending processing done failed : JobStatus

pub record RecordingJob : Type 0 where
  pub id : String
  pub call_id : String
  pub recording_url : String
  pub status : JobStatus
  pub attempts : ℕ
  -- The time of `availableAt` in milliseconds.
  pub available_at : ℕ
  pub last_error : Option String

abbrev pub is_pending : JobStatus → Bool
is_pending JobStatus.pending = true
is_pending _ = false

abbrev pub is_done : JobStatus → Bool
is_done JobStatus.done = true
is_done _ = false

new_job : String → String → String → ℕ → RecordingJob
new_job id call_id recording_url now = record {
  id = id;
  call_id = call_id;
  recording_url = recording_url;
  status = JobStatus.pending;
  attempts = 0;
  available_at = now;
  last_error = none;
}

-- The columns that `enqueueRecordingJob` gives for a row of the table `volta_jobs`. The payload is the
-- call and the address of its recording.
pub record JobRow : Type 0 where
  pub kind : String
  pub dedupe_key : String
  pub call_id : String
  pub recording_url : String
  pub status : JobStatus
  pub available_at : ℕ

unfoldable pub job_row : String → String → ℕ → JobRow
job_row call_id recording_url now = record {
  kind = "PROCESS_RECORDING";
  dedupe_key = "recording:" <> call_id;
  call_id = call_id;
  recording_url = recording_url;
  status = JobStatus.pending;
  available_at = now;
}

-- The two places of the jobs: the array of the process, and the table, which is the database's own.
pub record Queue (Table : Type 0) : Type 0 where
  pub memory : List RecordingJob
  pub table : Table

unfoldable pub enqueue_in_memory :
    String → ℕ → String → String → List RecordingJob → String × List RecordingJob
unfolding new_job
enqueue_in_memory id now call_id recording_url jobs =
    elim (find (λ job. job.call_id == call_id) jobs) [
      | some existing ↦ (existing.id, jobs)
      | none ↦ (id, jobs ++ new_job id call_id recording_url now ∷ [])
    ]

abbrev enqueue_failed : Result String → Result String
enqueue_failed (ok id) = ok id
enqueue_failed (err message) = err ("Job enqueue failed: " <> message)

-- `configured` is whether `database()` is not null, `upsert` the write with `onConflict: "dedupe_key"`,
-- which answers the id of the row or a message. `id` is what `randomUUID()` gives, if the job is new.
module _ {Table : Type 0} (configured : Bool)
    (upsert : JobRow → Table → Result String × Table) where
  unfoldable pub enqueue_recording_job :
      String → ℕ → String → String → Queue Table → Result String × Queue Table
  unfolding enqueue_in_memory job_row
  enqueue_recording_job id now call_id recording_url q =
      if configured
      then (let (r, table) = upsert (job_row call_id recording_url now) q.table in
          (enqueue_failed r, record q { table = table }))
      else (let (joined, jobs) = enqueue_in_memory id now call_id recording_url q.memory in
          (ok joined, record q { memory = jobs }))

-- What one run of a job makes of it.
unfoldable pub attempted : Option String → ℕ → RecordingJob → RecordingJob
attempted none now job = record job { status = JobStatus.done; attempts = job.attempts + 1 }
attempted (some error) now job = record job {
  status = if leb 4 (job.attempts + 1) then JobStatus.failed else JobStatus.pending;
  attempts = job.attempts + 1;
  available_at = now + 2 ^ (job.attempts + 1) * 30000;
  last_error = some error;
}

module _ (work : String → String → Option String) where
  -- The error that is thrown again comes first.
  unfoldable pub process_recording_job :
      ℕ → String → List RecordingJob → Option String × List RecordingJob
  process_recording_job now id jobs = elim (find (λ job. job.id == id) jobs) [
    | none ↦ (none, jobs)
    | some job ↦
        if is_done job.status
        then (none, jobs)
        else let error = work job.call_id job.recording_url in
          (error, update_first (λ j. j.id == id) (attempted error now) jobs)
  ]

  process_all : ℕ → List RecordingJob → List RecordingJob → List RecordingJob
  process_all now [] jobs = jobs
  process_all now (job ∷ due) jobs = process_all now due (process_recording_job now job.id jobs).1

  -- The jobs are run in their order; `Promise.allSettled` drops their errors.
  unfoldable pub process_pending_recording_jobs : ℕ → List RecordingJob → ℕ × List RecordingJob
  unfolding process_all
  process_pending_recording_jobs now jobs =
      let due = filter (λ job. is_pending job.status && leb job.available_at now) jobs in
      (length due, process_all now due jobs)
