-- ===== src/Worker/Jobs/Publish.antt =====
-- A compilation from its encoded file on, and as a whole (jobs.py, `run_once`).
use hass_clips_manager.Prelude.{
  String, true, false, ◌&&◌, not, none, some, [], ◌∷◌, ◌++◌, if◌then◌else◌, ltb, is_none,
}
use hass_clips_manager.Prelude.Text.{first_chars}
use hass_clips_manager.Prelude.Effects.{pass, raise, outcome, catch, finally, ◌>>=◌, ◌>>◌}
use hass_clips_manager.Worker.Database.{Job, JobStage, Clip, ClipState, Metadata, Timing}
use hass_clips_manager.Worker.Queue.{last_100}
use hass_clips_manager.Worker.Jobs.{
  Outside, Run, Failure, value_error, Profile, Probe, RootKey, Level,
}
use hass_clips_manager.Worker.Jobs.Outcome.{
  stored_time, update, record_log, stop_requested, set_clip, progress_at, Ending, finish,
}
use hass_clips_manager.Worker.Jobs.Progress.{parse_progress, failure_reason}
use hass_clips_manager.Worker.Jobs.Output.{valid_output, compiled_timing}
use hass_clips_manager.Worker.Jobs.Compile.{JobRunResult, runtime_job, cancel_run, fail_run}
use hass_clips_manager.Worker.Jobs.Phases.{
  Phase, goes_on, end_run, next_phase, after_phase, Encoded, phases,
}

-- `_publish`; the file is copied beside the final one and takes its place at once.
unfoldable pub publish : Outside → String → Run (Unit {0})
publish o final = do
  if not (o.is_within RootKey.compiled final)
      then raise (value_error "final output escapes compiled root")
      else pass tt
  outcome (o.replace final)
  λ w. pass tt (record w { compiled = w.compiled ++ final ∷ [] })

-- `metadata.update`
abbrev pub compiled_metadata : Job → String → Timing → Metadata → Metadata
compiled_metadata job output timing m = record m {
  source_fingerprint = some job.snapshot.source_fingerprint;
  profile_fingerprint = some job.snapshot.profile_fingerprint;
  output_fingerprint = some output;
  timing = timing;
}

-- The row that a compilation leaves
unfoldable pub ready_clip : Job → Probe → Timing → String → String → Clip → Clip
ready_clip job probe timing output now c = record c {
  state = ClipState.ready;
  output_available = true;
  output_duration_ns = some probe.duration_ns;
  metadata = compiled_metadata job output timing c.metadata;
  updated_at = now;
}

-- From the published file to the result
unfoldable pub record_ready : Outside → Job → Probe → Timing → String → Run JobRunResult
unfolding stored_time set_clip ready_clip finish record_log
record_ready o job probe timing final = do
  output ← outcome (o.fingerprint final)
  now ← stored_time o
  λ w. pass tt (set_clip job.clip_id (ready_clip job probe timing output now) w)
  finished ← finish o job Ending.succeeded none false
  record_log o Level.info "compilation completed" job.id
  pass (record { job = finished; retry_scheduled = false })

-- From the valid output to the result
unfoldable pub publish_run : Outside → Profile → Encoded → Job → Probe → Run JobRunResult
unfolding compiled_timing update publish record_ready
publish_run o profile e job probe = do
  timing ← outcome (compiled_timing e.runtime profile probe)
  final ← outcome (o.resolve RootKey.compiled job.snapshot.output_relative_path)
  update o (record job { progress = progress_at JobStage.publishing 100 })
  publish o final
  record_ready o job probe timing final

-- From the successful process to the result
unfoldable pub validate_run : Outside → Profile → Encoded → Job → Run JobRunResult
unfolding update valid_output fail_run publish_run
validate_run o profile e job = do
  update o (record job { progress = progress_at JobStage.validating 100 })
  probe ← outcome (o.probe e.runtime.temporary_output)
  if valid_output probe profile
      then publish_run o profile e job probe
      else fail_run o job "temporary output validation failed"

-- The job with the note that its progress is unknown
unfoldable pub noted : Outside → Encoded → Job → Job
unfolding parse_progress last_100
noted o e job =
    if is_none (parse_progress o e.ended.output job.snapshot.duration_ns)
    then record job { logs = last_100 (job.logs ++ "ffmpeg progress was unavailable" ∷ []) }
    else job

-- From the last process to the result, with the job that may have been noted
unfoldable pub conclude : Outside → Profile → Encoded → Job → Run JobRunResult
unfolding parse_progress update cancel_run fail_run failure_reason validate_run
conclude o profile e job = do
  if is_none (parse_progress o e.ended.output job.snapshot.duration_ns)
      then update o job >> pass tt
      else pass tt
  if e.ended.cancelled
      then cancel_run o job
      else if not e.ended.success
      then fail_run o job (failure_reason o e.ended.output "FFmpeg failed")
      else validate_run o profile e job

-- `except Exception`
unfoldable pub fail_exception : Outside → Job → Failure → Run JobRunResult
unfolding stop_requested finish
fail_exception o job e = do
  stop ← stop_requested job.id
  let retry = ltb job.attempt job.max_attempts && not stop
  finished ← finish o job Ending.failed (some (first_chars 1000 (o.describe e))) retry
  pass (record { job = finished; retry_scheduled = retry })

-- The run up to its last process, with the profile
unfoldable pub prepare : Outside → Job → Run (Phase (Profile × Encoded))
unfolding runtime_job phases
prepare o job = do
  outcome (o.make_directory job.id)
  profile ← outcome (o.profile_of job)
  runtime ← runtime_job o profile job
  phases o profile runtime job >>= next_phase (λ e. pass (goes_on (profile, e)))

-- The body of the `try`. An exception finds the job as it is then, noted or not.
unfoldable pub compile_guarded : Outside → Job → Run JobRunResult
unfolding prepare fail_exception noted conclude
compile_guarded o job =
    catch (prepare o job) (λ e. end_run (fail_exception o job e))
    >>= after_phase (λ (profile, e).
      catch (conclude o profile e (noted o e job)) (fail_exception o (noted o e job)))

-- `_cleanup`
unfoldable pub remove : Outside → String → Run (Unit {0})
remove o name = outcome (o.remove_directory name) >> λ w.
    pass tt (record w { removed = w.removed ++ name ∷ [] })

-- `_temporary_directory`
unfoldable pub check_directory : Outside → Job → Run (Unit {0})
check_directory o job =
    if o.is_uuid job.id
    then pass tt
    else raise (value_error "job ID must be a UUID for temporary work")

-- `run_once` for a compilation
unfoldable pub run_compile : Outside → Job → Run JobRunResult
unfolding compile_guarded remove check_directory
run_compile o job = check_directory o job >> finally (compile_guarded o job) (remove o job.id)
