-- ===== src/Worker/Jobs/Maintenance.antt =====
-- The jobs that are no compilation: scans, cleanups and edits (jobs.py).
use hass_clips_manager.Prelude.{
  ℕ, ◌+◌, ◌-◌, ◌*◌, max, String, Bool, false, ◌&&◌, ◌||◌, not, Option, none, some, List, [], ◌∷◌,
  ◌++◌, if◌then◌else◌,
}
use hass_clips_manager.Prelude.Tables.{find_where}
use hass_clips_manager.Prelude.Text.{concat, first_chars}
use hass_clips_manager.Prelude.Results.{Result, ok, err}
use hass_clips_manager.Prelude.Effects.{pass, raise, outcome, catch, finally, resume, ◌>>=◌, ◌>>◌}
use hass_clips_manager.Worker.Database.{Database, Job, JobStage, Clip, ClipState, is_running}
use hass_clips_manager.Worker.Queue.{has_id, last_100}
use hass_clips_manager.Worker.Jobs.{
  Outside, Run, Failure, value_error, Edit, edit, RootKey, Level, Probe, ScanSummary,
}
use hass_clips_manager.Worker.Jobs.Outcome.{
  stored_time, update, record_log, set_clip, with_reason, record_edit_failure, progress_at, Ending,
  finish,
}
use hass_clips_manager.Worker.Jobs.Progress.{failure_reason}
use hass_clips_manager.Worker.Jobs.Loop.{run_process}
use hass_clips_manager.Worker.Jobs.Compile.{JobRunResult}
use hass_clips_manager.Worker.Jobs.Publish.{remove, check_directory}

-- A call of the catalogue is one transaction: a raise leaves the tables as they were.
unfoldable pub in_catalog : {A : Type 0} → (Database → Result Failure (Database × A)) → Run A
in_catalog f w = elim (f w.db) [ ok r ↦ pass r.1 (record w { db = r.0 }) | err e ↦ raise e w ]

abbrev pub final_result : Job → JobRunResult
final_result job = record { job = job; retry_scheduled = false }

-- `JobRunResult(job=self._finish(…))`
unfoldable pub finish_run : Outside → Job → Ending → Option String → Run JobRunResult
unfolding finish
finish_run o job ending error = do
  finished ← finish o job ending error false
  pass (final_result finished)

abbrev pub add_log : String → Job → Job
add_log line job = record job { logs = last_100 (job.logs ++ line ∷ []) }

unfoldable pub fail_with : Outside → Job → Failure → Run JobRunResult
unfolding finish_run
fail_with o job e = finish_run o job Ending.failed (some (first_chars 1000 (o.describe e)))

-- The end of a job with a line in its log and in the worker's
unfoldable pub finish_logged : Outside → String → Job → Run JobRunResult
unfolding record_log finish_run last_100
finish_logged o line job = do
  record_log o Level.info line job.id
  finish_run o (add_log line job) Ending.succeeded none

-- The row `last_scan`, which an earlier one gives way to
unfoldable pub record_scan : Outside → Option (List String) → ScanSummary → Run (Unit {0})
unfolding stored_time
record_scan o ids summary = do
  completed_at ← stored_time o
  updated_at ← stored_time o
  λ w. pass tt (record w {
    last_scan = some (record {
      collection_ids = ids;
      summary = summary;
      completed_at = completed_at;
      updated_at = updated_at;
    });
  })

-- `_run_scan_job`
unfoldable pub run_scan_job : Outside → Job → Run JobRunResult
unfolding in_catalog record_scan finish_logged fail_with
run_scan_job o job =
    catch
      (do
        ids ← outcome (o.request_of job)
        summary ← in_catalog (o.scan ids)
        record_scan o ids summary
        finish_logged o (o.describe_scan summary) job)
      (fail_with o job)

-- Whether a temporary directory belongs to a job that is known and not running
unfoldable pub is_abandoned : Outside → String × Bool → List Job → Bool
is_abandoned o (name, is_dir) jobs =
    o.is_uuid name
    && (is_dir && elim (find_where (has_id name) jobs) [
      | none ↦ false
      | some r ↦ not (is_running r.state)
    ])

-- The body of the loop of `_cleanup_worker_temporaries`
unfoldable pub remove_if : Outside → String × Bool → Run ℕ
unfolding is_abandoned remove
remove_if o entry w =
    if is_abandoned o entry w.db.jobs then resume (λ _. pass 1) (remove o entry.0 w) else pass 0 w

-- The loop of `_cleanup_worker_temporaries`
unfoldable pub remove_abandoned : Outside → List (String × Bool) → Run ℕ
unfolding remove_if
remove_abandoned o [] = pass 0
remove_abandoned o (entry ∷ entries) = do
  more ← remove_if o entry
  rest ← remove_abandoned o entries
  pass (more + rest)

-- `_cleanup_worker_temporaries`
unfoldable pub cleanup_temporaries : Outside → Run ℕ
unfolding remove_abandoned
cleanup_temporaries o = do
  removed ← remove_abandoned o o.temporary_entries
  uploads ← outcome o.abandoned_uploads
  pass (removed + uploads)

-- `_run_cleanup_job`
unfoldable pub run_cleanup_job : Outside → Job → Run JobRunResult
unfolding cleanup_temporaries finish_logged fail_with
run_cleanup_job o job =
    catch (do removed ← cleanup_temporaries o; finish_logged o (o.describe_cleanup removed) job)
      (fail_with o job)

-- `_publish_edit`
unfoldable pub publish_edit : Outside → String → Run (Unit {0})
publish_edit o source = do
  if not (o.is_within RootKey.source source)
      then raise (value_error "edited clip escapes the source root")
      else pass tt
  outcome (o.replace source)
  λ w. pass tt (record w { edited = w.edited ++ source ∷ [] })

-- The job that the process of an edit reports for
unfoldable pub editing : Edit → Job → Job
editing settings job = record job {
  snapshot = record job.snapshot {
    duration_ns = (settings.trim_end_ms - settings.trim_start_ms) * 1000000;
  };
  progress = progress_at JobStage.encoding 0;
}

-- The row that an edit leaves
unfoldable pub edited_clip : Probe → String → Clip → Clip
unfolding with_reason
edited_clip probe now c = record c {
  state = ClipState.discovered;
  duration_ns = probe.duration_ns;
  metadata = with_reason none c.metadata;
  updated_at = now;
}

-- The row of the clip that was edited
unfoldable pub record_edited : Outside → Job → Probe → Run (Unit {0})
unfolding stored_time set_clip edited_clip
record_edited o job probe = do
  now ← stored_time o
  λ w. pass tt (set_clip job.clip_id (edited_clip probe now) w)

-- `_run_edit_job`, from the process's success to the result
unfoldable pub publish_edit_run : Outside → Job → (source output : String) → Run JobRunResult
unfolding publish_edit record_edited record_log finish_run
publish_edit_run o job source output = do
  probe ← outcome (o.probe output)
  if not probe.valid then raise (value_error "edited clip failed validation") else pass tt
  publish_edit o source
  record_edited o job probe
  record_log o Level.info (o.describe_edit probe) job.id
  finish_run o job Ending.succeeded none

-- `_run_edit_job`, the body of the `try`
unfoldable pub edit_body : Outside → Job → Edit → Run JobRunResult
unfolding editing update run_process finish_run failure_reason publish_edit_run
edit_body o job settings = do
  outcome (o.make_directory job.id)
  source ← outcome (o.resolve RootKey.source job.snapshot.source_relative_path)
  if not (o.is_file source) then raise (value_error "clip source is unavailable") else pass tt
  let output = concat job.id (concat "/edited" (o.suffix source))
  let running = editing settings job
  let timeout = max 60000000000 ((settings.trim_end_ms - settings.trim_start_ms) * 4000000)
  update o running
  ended ← run_process o running (edit source output settings) timeout
  if ended.cancelled
      then finish_run o job Ending.cancelled none
      else if not ended.success || not (o.is_file output)
      then raise (value_error (failure_reason o ended.output "clip edit failed"))
      else publish_edit_run o job source output

-- `_run_edit_job`, `except Exception`
unfoldable pub fail_edit : Outside → Job → Failure → Run JobRunResult
unfolding finish record_edit_failure
fail_edit o job e = do
  finished ← finish o job Ending.failed (some (first_chars 1000 (o.describe e))) false
  record_edit_failure o job.clip_id finished.error
  pass (final_result finished)

-- `_run_edit_job`
unfoldable pub run_edit_job : Outside → Job → Run JobRunResult
unfolding check_directory edit_body fail_edit remove
run_edit_job o job = do
  settings ← outcome (o.edit_of job)
  check_directory o job
  finally (catch (edit_body o job settings) (fail_edit o job)) (remove o job.id)
