-- ===== src/Services/Jobs/Joins.antt =====
-- lib/jobs/recordings.ts: the recordings of one call share one job, in memory and in the table.
use volta_hackathon.Prelude.{
  ℕ, String, ◌≡◌, refl, ap, ◌∙◌, inl, inr, Option, none, some, List, [], ◌∷◌, ◌++◌, ◌==◌, Bool,
  true, false, find, arith, eq_iff, Option-cases, Result, ok, In, In-find, find_sound,
}
use volta_hackathon.Prelude.Text.{◌<>◌}
use volta_hackathon.Store.Mutation.Isolation.{Result-cases}
use volta_hackathon.Services.Jobs.{
  RecordingJob, JobStatus, new_job, JobRow, job_row, Queue, enqueue_in_memory,
  enqueue_recording_job,
}

find-after-append :
    (call_id : String) (jobs : List RecordingJob) (job : RecordingJob)
    → find (λ j. j.call_id == call_id) jobs ≡ none
    → job.call_id ≡ call_id
    → find (λ j. j.call_id == call_id) (jobs ++ job ∷ []) ≡ some job
find-after-append call_id [] job h e = ground (arith, eq_iff job.call_id call_id)
find-after-append call_id (j ∷ jobs) job h e = ground (arith, find-after-append call_id jobs job)

enqueued :
    (id : String) (now : ℕ) (call_id url : String) (jobs : List RecordingJob)
    → (job : RecordingJob) × (find
          (λ j. j.call_id == call_id)
          (enqueue_in_memory id now call_id url jobs).1
        ≡ some job)
      × (job.id ≡ (enqueue_in_memory id now call_id url jobs).0)
unfolding enqueue_in_memory
enqueued id now call_id url jobs = elim (Option-cases (find (λ j. j.call_id == call_id) jobs)) [
  | inl e ↦ (
    new_job id call_id url now,
    rw (e, enqueue_in_memory) (find-after-append call_id jobs (new_job id call_id url now) e refl),
    rw (e, enqueue_in_memory) refl,
  )
  | inr (job, e) ↦ (job, rw (e, enqueue_in_memory) e, rw (e, enqueue_in_memory) refl)
]

enqueue_found :
    (id : String) (now : ℕ) (call_id url : String) (jobs : List RecordingJob) (job : RecordingJob)
    → find (λ j. j.call_id == call_id) jobs ≡ some job
    → enqueue_in_memory id now call_id url jobs ≡ (job.id, jobs)
unfolding enqueue_in_memory
enqueue_found id now call_id url jobs job e = rw (e, enqueue_in_memory) refl

enqueue_in_memory_twice :
    (id id' : String) (now now' : ℕ) (call_id url url' : String) (jobs : List RecordingJob)
    → enqueue_in_memory id' now' call_id url' (enqueue_in_memory id now call_id url jobs).1
      ≡ enqueue_in_memory id now call_id url jobs
enqueue_in_memory_twice id id' now now' call_id url url' jobs =
    let (job, found, same) = enqueued id now call_id url jobs in
    enqueue_found id' now' call_id url' (enqueue_in_memory id now call_id url jobs).1 job found
    ∙ ap (λ x. (x, (enqueue_in_memory id now call_id url jobs).1)) same

module _ {Table : Type 0} (find_row : Table → String → Option (String × JobRow)) where
  -- In memory the second call left the queue as it is, with the job in it; in the database the row of
  -- the call waits with the address of the second.
  abbrev pub Joins : Bool → String → String → String → Queue Table → Queue Table → Type 0
  Joins false call_id url job before after =
      (after ≡ before)
      × ((entry : RecordingJob) × In entry after.memory
          × (entry.id ≡ job)
          × (entry.call_id ≡ call_id))
  Joins true call_id url job before after =
      (after.memory ≡ before.memory)
      × ((row : JobRow) × (find_row after.table ("recording:" <> call_id) ≡ some (job, row))
          × (row.call_id ≡ call_id)
          × (row.recording_url ≡ url)
          × (row.status ≡ JobStatus.pending))

module _ {Table : Type 0} (upsert : JobRow → Table → Result String × Table)
    (find_row : Table → String → Option (String × JobRow))
    (writes : (row : JobRow) (t : Table) (id : String)
      → (upsert row t).0 ≡ ok id
      → find_row (upsert row t).1 row.dedupe_key ≡ some (id, row))
    (keeps_id : (row old : JobRow) (t : Table) (id id' : String)
      → find_row t row.dedupe_key ≡ some (id, old)
      → (upsert row t).0 ≡ ok id'
      → id' ≡ id) where
  upserted :
      (id : String) (now : ℕ) (call_id url : String) (q : Queue Table) (job : String)
      → (enqueue_recording_job true upsert id now call_id url q).0 ≡ ok job
      → (upsert (job_row call_id url now) q.table).0 ≡ ok job
  unfolding enqueue_recording_job
  upserted id now call_id url q job h =
      elim (Result-cases (upsert (job_row call_id url now) q.table).0) [
        | inl (a, e) ↦ ground arith
        | inr (m, e) ↦ absurd (ground arith)
      ]

  -- Of two recordings of one call that are put in the queue one after the other, the second joins the
  -- job of the first: the same id is returned. In memory the queue then stays as it is; in the
  -- database, where an upsert writes its columns and keeps the id of the row with its key, the row
  -- of the job waits again with the address of the second.
  pub enqueue_recording_job-Joins :
      (configured : Bool) (id id' : String) (now now' : ℕ) (call_id url url' : String)
      (q : Queue Table) (job job' : String)
      → (enqueue_recording_job configured upsert id now call_id url q).0 ≡ ok job
      → (enqueue_recording_job configured upsert id' now' call_id url'
          (enqueue_recording_job configured upsert id now call_id url q).1).0
        ≡ ok job'
      → (job' ≡ job)
        × Joins find_row configured call_id url' job
            (enqueue_recording_job configured upsert id now call_id url q).1
            (enqueue_recording_job configured upsert id' now' call_id url'
              (enqueue_recording_job configured upsert id now call_id url q).1).1
  unfolding enqueue_recording_job job_row
  enqueue_recording_job-Joins false id id' now now' call_id url url' q job job' h k =
      let (entry, found, same) = enqueued id now call_id url q.memory in
      let twice = enqueue_in_memory_twice id id' now now' call_id url url' q.memory in
      let mine = (enqueue_in_memory id now call_id url q.memory).1 in
      let k' = rw twice at k in
      rw twice (
        ground arith,
        (
          refl,
          (
            entry,
            In-find (λ j. j.call_id == call_id) mine entry found,
            ground arith,
            (eq_iff entry.call_id call_id).0
                (find_sound (λ j. j.call_id == call_id) mine entry found),
          ),
        ),
      )
  enqueue_recording_job-Joins true id id' now now' call_id url url' q job job' h k =
      let row = job_row call_id url now in
      let row' = job_row call_id url' now' in
      let first = upserted id now call_id url q job h in
      let again =
        upserted id' now' call_id url' (enqueue_recording_job true upsert id now call_id url q).1
          job' k in
      let same : job' ≡ job =
        keeps_id row' row (upsert row q.table).1 job job' (writes row q.table job first) again in
      (
        same,
        (
          refl,
          (
            row',
            writes row' (upsert row q.table).1 job' again ∙ ap (λ x. some (x, row')) same,
            refl,
            refl,
            refl,
          ),
        ),
      )
