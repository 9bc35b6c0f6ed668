-- ===== src/Worker/Jobs/Outcome.antt =====
-- The database writes of a run (jobs.py).
use hass_clips_manager.Prelude.{
  ℕ, ◌+◌, ◌-◌, String, Bool, true, false, ◌&&◌, Option, none, some, List, [], ◌∷◌, ◌++◌,
  if◌then◌else◌,
}
use hass_clips_manager.Prelude.Tables.{drop, length, find_where, update_where}
use hass_clips_manager.Prelude.Text.{first_chars}
use hass_clips_manager.Prelude.Results.{Result, ok, err, after}
use hass_clips_manager.Prelude.Effects.{pass, raise, resume, ◌>>=◌, ◌>>◌}
use hass_clips_manager.Worker.Database.{
  Database, Job, JobState, JobStage, Progress, Clip, ClipState, Metadata, is_compile,
}
use hass_clips_manager.Worker.Queue
use hass_clips_manager.Worker.Queue.{QueueError, has_id, clip_has_id}
use hass_clips_manager.Worker.Jobs.{
  World, Outside, Run, from_queue, Log, Level, Call, cancel, submit,
}

-- A time that is stored for a clip or a job
unfoldable pub stored_time : Outside → Run String
stored_time o w = pass (o.clock w.clock_reads) (record w { clock_reads = w.clock_reads + 1 })

unfoldable pub in_queue : {A : Type 0} → (Database → Result QueueError (Database × A)) → Run A
in_queue f w = elim (f w.db) [
  | ok r ↦ pass r.1 (record w { db = r.0 })
  | err e ↦ raise (from_queue e) w
]

-- `self.queue.update`
unfoldable pub update : Outside → Job → Run Job
unfolding stored_time in_queue
update o job = do now ← stored_time o; in_queue (Queue.update now job)

-- `_record_log`; the table keeps the newest 500 rows.
unfoldable pub record_log : Outside → Level → String → String → Run (Unit {0})
unfolding stored_time
record_log o level message job_id = do
  now ← stored_time o
  λ w.
      let row : Log = record {
        timestamp = now;
        level = level;
        message = o.sanitize message;
        job_id = job_id;
      } in
      let logs = w.worker_logs ++ row ∷ [] in
      pass tt (record w { worker_logs = drop (length logs - 500) logs })

-- A call of another thread; one that raises has changed nothing.
unfoldable pub call : Call → Database → Database
call (cancel now job_id) db = after db (Queue.request_cancel now job_id db)
call (submit now jobs) db = after db (Queue.enqueue_many now jobs db)

unfoldable pub calls : List Call → Database → Database
unfolding call
calls [] db = db
calls (c ∷ cs) db = calls cs (call c db)

unfoldable pub hear : List Call → Run (Unit {0})
unfolding calls
hear cs w = pass tt (record w { db = calls cs w.db })

-- `_cancelled`
unfoldable pub stop_requested : String → Run Bool
stop_requested job_id w = elim (Queue.get w.db job_id) [
  | ok job ↦ pass job.cancel_requested w
  | err _ ↦ pass true w
]

unfoldable pub set_clip : String → (Clip → Clip) → World → World
set_clip clip_id f w = record w {
  db = record w.db { clips = update_where (clip_has_id clip_id) f w.db.clips };
}

unfoldable pub with_reason : Option String → Metadata → Metadata
with_reason reason m = record m { failed_reason = reason }

-- The failure reason of a clip that is there, and what else the caller writes to it
unfoldable pub write_reason : Outside → String → (Clip → Clip) → String → Run (Unit {0})
unfolding stored_time set_clip with_reason
write_reason o clip_id mark error w = elim (find_where (clip_has_id clip_id) w.db.clips) [
  | none ↦ pass tt w
  | some row ↦
      let written : String → Clip → Clip = λ now c. record (mark c) {
        metadata = with_reason (some (first_chars 500 error)) row.metadata;
        updated_at = now;
      } in
      resume (λ now w. pass tt (set_clip clip_id (written now) w)) (stored_time o w)
]

-- `_record_clip_failure`
unfoldable pub record_clip_failure : Outside → Job → Option String → Run (Unit {0})
unfolding write_reason
record_clip_failure o job none = pass tt
record_clip_failure o job (some error) = write_reason o job.clip_id (λ c. c) error

-- `_record_edit_failure`
unfoldable pub record_edit_failure : Outside → String → Option String → Run (Unit {0})
unfolding write_reason
record_edit_failure o clip_id none = pass tt
record_edit_failure o clip_id (some error) =
    write_reason o clip_id (λ c. record c { state = ClipState.failed }) error

abbrev pub progress_at : JobStage → ℕ → Progress
progress_at stage percent = record { stage = stage; percent = percent; eta_seconds = none }

-- The states that `_finish` is called with
pub data Ending : Type 0 where
  succeeded cancelled failed : Ending

abbrev pub state_of : Ending → JobState
state_of Ending.succeeded = JobState.succeeded
state_of Ending.cancelled = JobState.cancelled
state_of Ending.failed = JobState.failed

-- The progress that `_finish` writes
abbrev pub progress_of : Ending → Progress
progress_of Ending.succeeded = progress_at JobStage.complete 100
progress_of Ending.cancelled = progress_at JobStage.cancelled 0
progress_of Ending.failed = progress_at JobStage.failed 0

abbrev pub is_cancelled : Ending → Bool
is_cancelled Ending.cancelled = true
is_cancelled _ = false

abbrev pub is_failed : Ending → Bool
is_failed Ending.failed = true
is_failed _ = false

-- The job that `_finish` stores when a retry is due
unfoldable pub requeued : Option String → Job → Job
requeued error job = record job {
  state = JobState.queued;
  progress = progress_at JobStage.queued 0;
  error = error;
  started_at = none;
}

-- The job that `_finish` stores when none is due
unfoldable pub ended : Ending → String → Option String → Job → Job
ended ending now error job = record job {
  state = state_of ending;
  progress = progress_of ending;
  error = error;
  finished_at = some now;
  cancel_requested = is_cancelled ending;
}

unfoldable pub log_error : Outside → Bool → Job → Option String → Run (Unit {0})
unfolding record_log
log_error o retry job none = pass tt
log_error o retry job (some safe) =
    record_log o (if retry then Level.warning else Level.error) safe job.id

-- The rest of `_finish` when no retry is due
unfoldable pub store_end : Outside → Job → Ending → Option String → Run Job
unfolding update ended record_clip_failure stored_time
store_end o job ending safe = do
  now ← stored_time o
  updated ← update o (ended ending now safe job)
  if is_failed ending && is_compile job.kind then record_clip_failure o job safe else pass tt
  pass updated

-- `_finish`
unfoldable pub finish : Outside → Job → Ending → Option String → Bool → Run Job
unfolding log_error update requeued store_end
finish o job ending error retry = do
  let safe : Option String = elim error [ none ↦ none | some e ↦ some (o.sanitize e) ]
  log_error o retry job safe
  if retry then update o (requeued safe job) else store_end o job ending safe
