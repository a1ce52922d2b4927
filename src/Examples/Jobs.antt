-- ===== src/Examples/Jobs.antt =====
-- Runs of the queue of recordings.
use volta_hackathon.Prelude.{
  String, ◌∷◌, Option, none, some, List, [], All, true, ◌≡◌, refl, ok, arith, eq_iff, eq_refl,
  Result, find, find_sound, Option-cases, inl, inr, ◌==◌,
}
use volta_hackathon.Services.Jobs.{
  RecordingJob, JobRow, Queue, job_row, enqueue_in_memory, enqueue_recording_job,
  process_pending_recording_jobs,
}
use volta_hackathon.Services.Jobs.Joins.{Joins, enqueue_recording_job-Joins}
use volta_hackathon.Services.Jobs.Retries.{Retryable, process_pending_recording_jobs-Retryable}

abbrev one_job : List RecordingJob
one_job = (enqueue_in_memory "job-1" 5 "call-azul" "https://recordings.example/1" []).1

one_job-Retryable : All Retryable one_job
unfolding enqueue_in_memory
one_job-Retryable = (λ h. omega arith, tt)

retries_example :
    All Retryable (process_pending_recording_jobs (λ call_id url. some "no transcript") 9 one_job).1
retries_example =
    process_pending_recording_jobs-Retryable (λ call_id url. some "no transcript") 9 one_job
      one_job-Retryable

-- A table with the keyed rows in it, the newest first; the id of a row is its key.
abbrev Rows : Type 0
Rows = List JobRow

abbrev upsert_row : JobRow → Rows → Result String × Rows
upsert_row row t = (ok row.dedupe_key, row ∷ t)

abbrev with_id : Option JobRow → Option (String × JobRow)
with_id none = none
with_id (some row) = some (row.dedupe_key, row)

abbrev row_of : Rows → String → Option (String × JobRow)
row_of t key = with_id (find (λ row. row.dedupe_key == key) t)

upsert_row-writes :
    (row : JobRow) (t : Rows) (id : String)
    → (upsert_row row t).0 ≡ ok id
    → row_of (upsert_row row t).1 row.dedupe_key ≡ some (id, row)
upsert_row-writes row t id h = ground (arith, eq_refl row.dedupe_key)

upsert_row-keeps_id :
    (row old : JobRow) (t : Rows) (id id' : String)
    → row_of t row.dedupe_key ≡ some (id, old)
    → (upsert_row row t).0 ≡ ok id'
    → id' ≡ id
upsert_row-keeps_id row old t id id' h k =
    elim (Option-cases (find (λ r. r.dedupe_key == row.dedupe_key) t)) [
      | inl e ↦ absurd (ground arith)
      | inr (r, e) ↦ ground (
        arith,
        eq_iff r.dedupe_key row.dedupe_key,
        find_sound (λ x. x.dedupe_key == row.dedupe_key) t r,
      )
    ]

abbrev first_jobs : Queue Rows
first_jobs =
    (enqueue_recording_job true upsert_row "job-1" 5 "call-azul" "https://recordings.example/1"
      (record { memory = []; table = [] })).1

enqueue_example :
    (◌≡◌ {A = String} "recording:call-azul" "recording:call-azul")
    × Joins row_of true "call-azul" "https://recordings.example/2" "recording:call-azul" first_jobs
        (enqueue_recording_job true upsert_row "job-2" 9 "call-azul" "https://recordings.example/2"
          first_jobs).1
unfolding enqueue_recording_job job_row
enqueue_example =
    enqueue_recording_job-Joins upsert_row row_of upsert_row-writes upsert_row-keeps_id true "job-1"
      "job-2" 5 9 "call-azul" "https://recordings.example/1" "https://recordings.example/2"
      (record { memory = []; table = [] }) "recording:call-azul" "recording:call-azul" refl refl
