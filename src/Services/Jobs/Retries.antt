-- ===== src/Services/Jobs/Retries.antt =====
-- lib/jobs/recordings.ts: how often a job is tried.
use volta_hackathon.Prelude.{
  ℕ, ◌<◌, String, Option, none, some, List, [], ◌∷◌, ◌==◌, ◌≡◌, true, ◌&&◌, Bool-cases, find,
  filter, leb, All, update_first, arith, Option-cases, inl, inr,
}
use volta_hackathon.Services.Jobs.{
  RecordingJob, is_pending, is_done, attempted, process_recording_job, process_all,
  process_pending_recording_jobs,
}

-- A job that waits has been tried three times at most.
abbrev pub Retryable : RecordingJob → Type 0
Retryable job = is_pending job.status ≡ true → job.attempts < 4

attempted-Retryable :
    (error : Option String) (now : ℕ) (job : RecordingJob) → Retryable (attempted error now job)
unfolding attempted
attempted-Retryable none now job h = absurd (ground arith)
attempted-Retryable (some error) now job h = ground arith

update-Retryable :
    (error : Option String) (now : ℕ) (id : String) (jobs : List RecordingJob)
    → All Retryable jobs
    → All Retryable (update_first (λ j. j.id == id) (attempted error now) jobs)
update-Retryable error now id [] h = tt
update-Retryable error now id (job ∷ jobs) (k, h) = elim (Bool-cases (job.id == id)) [
  | inl e ↦ rw e (attempted-Retryable error now job, h)
  | inr e ↦ rw e (k, update-Retryable error now id jobs h)
]

module _ (work : String → String → Option String) where
  process_recording_job-Retryable :
      (now : ℕ) (id : String) (jobs : List RecordingJob)
      → All Retryable jobs
      → All Retryable (process_recording_job work now id jobs).1
  unfolding process_recording_job
  process_recording_job-Retryable now id jobs h =
      elim (Option-cases (find (λ job. job.id == id) jobs)) [
        | inl e ↦ rw (e, All, process_recording_job) h
        | inr (job, e) ↦ elim (Bool-cases (is_done job.status)) [
          | inl d ↦ rw (e, All, process_recording_job) (rw (d, All, process_recording_job) h)
          | inr d ↦
              rw (e, All, process_recording_job)
                (rw (d, All, process_recording_job)
                  (update-Retryable (work job.call_id job.recording_url) now id jobs h))
        ]
      ]

  process_all-Retryable :
      (now : ℕ) (due jobs : List RecordingJob)
      → All Retryable jobs
      → All Retryable (process_all work now due jobs)
  unfolding process_all
  process_all-Retryable now [] jobs h = h
  process_all-Retryable now (job ∷ due) jobs h =
      process_all-Retryable now due (process_recording_job work now job.id jobs).1
        (process_recording_job-Retryable now job.id jobs h)

  -- Whatever the processing does, a run over the due jobs of the queue in memory leaves no job waiting
  -- that has been tried four times, if there was none before.
  pub process_pending_recording_jobs-Retryable :
      (now : ℕ) (jobs : List RecordingJob)
      → All Retryable jobs
      → All Retryable (process_pending_recording_jobs work now jobs).1
  unfolding process_pending_recording_jobs
  process_pending_recording_jobs-Retryable now jobs h =
      process_all-Retryable now
        (filter (λ job. is_pending job.status && leb job.available_at now) jobs) jobs h
