-- ===== src/Worker/Ends.antt =====
-- How a run ends: the claimed job runs until `_finish` (jobs.py).
pub mod Finish
pub mod Calls
pub mod Processes
pub mod Compilation
pub mod Upkeep
use mathlib.Core.Path.{subst⁻¹}
use hass_clips_manager.Prelude.{
  ◌≡◌, refl, sym, ap, ◌∙◌, ◌⊎◌, inl, inr, ℕ, ◌+◌, ◌<◌, String, Bool, true, false, Option, none,
  some, List, arith, Option-cases, Bool-cases, if◌then◌else◌, ◌&&◌,
}
use hass_clips_manager.Prelude.Tables.{find_where}
use hass_clips_manager.Prelude.Results.{Result, ok, err, after}
use hass_clips_manager.Prelude.Effects.{
  Effect, Post, Post-resume, Post-map, pass, resume, ◌>>=◌, ◌>>◌,
}
use hass_clips_manager.Worker.Database.{Database, Job, JobState, is_running, is_compile}
use hass_clips_manager.Worker.Queue
use hass_clips_manager.Worker.Queue.{QueueError, has_id, clip_has_id, update_tables, overwrite, get}
use hass_clips_manager.Worker.Queue.Outcome.{find-update_tables}
use hass_clips_manager.Worker.Queue.Invariant.{IsConsistent, update-IsConsistent}
use hass_clips_manager.Worker.Jobs.{World, Outside, Run, Failure, Level}
use hass_clips_manager.Worker.Jobs.Outcome.{
  update, stored_time, finish, store_end, requeued, ended, log_error, record_log,
  record_clip_failure, write_reason, in_queue, set_clip, Ending, state_of, is_failed,
}
use hass_clips_manager.Worker.Jobs.Compile.{JobRunResult}

-- The job that was claimed is still running, with the limit that it was claimed with, and the tables
-- are consistent.
pub record Running (job : Job) (db : Database) : Type 0 where
  pub row : Job
  pub found : find_where (has_id job.id) db.jobs ≡ some row
  pub runs : row.state ≡ JobState.running
  pub limit : row.max_attempts ≡ job.max_attempts
  pub consistent : IsConsistent db

-- States that no worker leaves again
abbrev pub is_finished : JobState → Bool
is_finished JobState.succeeded = true
is_finished JobState.failed = true
is_finished JobState.cancelled = true
is_finished _ = false

-- The result is what the table holds: either the job waits for a further attempt that it has left, or
-- it is finished.
pub record Settled (job : Job) (result : JobRunResult) (db : Database) : Type 0 where
  pub stored : find_where (has_id job.id) db.jobs ≡ some result.job
  pub attempt : result.job.attempt ≡ job.attempt
  pub limit : result.job.max_attempts ≡ job.max_attempts
  pub outcome :
      ((result.retry_scheduled ≡ true)
        × (result.job.state ≡ JobState.queued)
        × (job.attempt < job.max_attempts))
      ⊎ ((result.retry_scheduled ≡ false) × (is_finished result.job.state ≡ true))
  pub consistent : IsConsistent db

-- The invariants read the jobs only.
IsConsistent-jobs : (d e : Database) → e.jobs ≡ d.jobs → IsConsistent d → IsConsistent e
IsConsistent-jobs d e same c = record {
  ids = λ k. rw same (c.ids k);
  one_running = rw same c.one_running;
  one_active = λ f. rw same (c.one_active f);
}

pub Running-jobs : (job : Job) (d e : Database) → e.jobs ≡ d.jobs → Running job d → Running job e
Running-jobs job d e same r = record {
  row = r.row;
  found = rw same r.found;
  runs = r.runs;
  limit = r.limit;
  consistent = IsConsistent-jobs d e same r.consistent;
}

pub Settled-jobs :
    (job : Job) (result : JobRunResult) (d e : Database)
    → e.jobs ≡ d.jobs
    → Settled job result d
    → Settled job result e
Settled-jobs job result d e same s = record {
  stored = rw same s.stored;
  attempt = s.attempt;
  limit = s.limit;
  outcome = s.outcome;
  consistent = IsConsistent-jobs d e same s.consistent;
}

-- A write to the log or to the clips returns and leaves the jobs.
abbrev pub Leaves : {A : Type 0} → Run A → Type 1
Leaves m = (J : World → Type 0) (w : World) → Post J (λ s _. s.db.jobs ≡ w.db.jobs) (m w)

pub record_log-Leaves :
    (o : Outside) (level : Level) (message job_id : String)
    → Leaves (record_log o level message job_id)
unfolding record_log
record_log-Leaves o level message job_id J w = refl

pub log_error-Leaves :
    (o : Outside) (retry : Bool) (job : Job) (error : Option String)
    → Leaves (log_error o retry job error)
unfolding log_error
log_error-Leaves o retry job none J w = refl
log_error-Leaves o retry job (some e) J w = refl

pub write_reason-Leaves :
    (o : Outside) (clip_id : String) (mark : _) (error : String)
    → Leaves (write_reason o clip_id mark error)
unfolding write_reason stored_time set_clip
write_reason-Leaves o clip_id mark error J w =
    elim (Option-cases (find_where (clip_has_id clip_id) w.db.clips)) [
      | inl e ↦ ground (arith, e)
      | inr (row, e) ↦ ground (arith, e)
    ]

pub record_clip_failure-Leaves :
    (o : Outside) (job : Job) (error : Option String) → Leaves (record_clip_failure o job error)
unfolding record_clip_failure
record_clip_failure-Leaves o job none J w = refl
record_clip_failure-Leaves o job (some e) J w = write_reason-Leaves o job.clip_id (λ c. c) e J w
