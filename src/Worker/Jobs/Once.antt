-- ===== src/Worker/Jobs/Once.antt =====
-- One pass of the worker (jobs.py, `run_once`).
use hass_clips_manager.Prelude.{Option, none, some}
use hass_clips_manager.Prelude.Text.{concat}
use hass_clips_manager.Prelude.Effects.{pass, ◌>>=◌}
use hass_clips_manager.Worker.Database.{Job, JobKind}
use hass_clips_manager.Worker.Queue
use hass_clips_manager.Worker.Jobs.{Outside, Run}
use hass_clips_manager.Worker.Jobs.Outcome.{stored_time, Ending}
use hass_clips_manager.Worker.Jobs.Compile.{JobRunResult}
use hass_clips_manager.Worker.Jobs.Publish.{run_compile}
use hass_clips_manager.Worker.Jobs.Maintenance.{
  run_scan_job, run_cleanup_job, run_edit_job, finish_run,
}

-- `claim_next`
unfoldable pub claim : Outside → Run (Option Job)
unfolding stored_time
claim o = do
  now ← stored_time o
  λ w. let (db, claimed) = Queue.claim_next now w.db in pass claimed (record w { db = db })

-- What `run_once` does with a job, by its kind
unfoldable pub run_job : Outside → Job → Run JobRunResult
unfolding run_scan_job run_cleanup_job run_edit_job run_compile finish_run
run_job o job = elim job.kind [
  | JobKind.scan ↦ run_scan_job o job
  | JobKind.cleanup ↦ run_cleanup_job o job
  | JobKind.edit ↦ run_edit_job o job
  | JobKind.compile ↦ run_compile o job
  | JobKind.other ↦
      finish_run o job Ending.failed (some (concat "unsupported job kind: " (o.kind_text job)))
]

-- The part of `run_once` after the claim: no job, no result
unfoldable pub run_claimed : Outside → Option Job → Run (Option JobRunResult)
unfolding run_job
run_claimed o none = pass none
run_claimed o (some job) = run_job o job >>= λ r. pass (some r)

-- `run_once`
unfoldable pub run_once : Outside → Run (Option JobRunResult)
unfolding claim run_claimed
run_once o = claim o >>= run_claimed o
