-- ===== src/Worker/Jobs/Compile.antt =====
-- The inputs of a compilation, and how a run ends (jobs.py).
use hass_clips_manager.Prelude.{
  ℕ, String, Bool, true, false, ◌&&◌, not, Option, none, some, if◌then◌else◌, ltb, ◌==◌,
}
use hass_clips_manager.Prelude.Text.{concat, is_empty}
use hass_clips_manager.Prelude.Effects.{pass, raise, outcome, ◌>>=◌}
use hass_clips_manager.Worker.Database.{Job}
use hass_clips_manager.Worker.Jobs.{Outside, Run, value_error, Profile, Runtime, RootKey}
use hass_clips_manager.Worker.Jobs.Outcome.{Ending, finish}

-- `JobRunResult`
pub record JobRunResult : Type 0 where
  pub job : Job
  pub retry_scheduled : Bool

-- `asset_probe`
unfoldable pub asset_probe : Outside → Profile → Option String → Run (ℕ × Bool)
asset_probe o profile none = pass (0, true)
asset_probe o profile (some path) = do
  probe ← outcome (o.probe path)
  if not probe.valid
      then raise (value_error "referenced asset could not be probed")
      else if profile.audio_required && not probe.has_audio
      then raise (value_error "referenced asset audio is required by this processing profile")
      else pass (probe.duration_ns, probe.has_audio)

-- The path of an asset that a profile names; an empty reference counts as none.
unfoldable pub asset_path : Outside → Option String → Run (Option String)
asset_path o none = pass none
asset_path o (some reference) =
    if is_empty reference
    then pass none
    else outcome (o.resolve RootKey.assets reference) >>= λ path. pass (some path)

abbrev pub same_path : Option String → Option String → Bool
same_path (some a) (some b) = a == b
same_path _ _ = false

-- `_runtime_job`, with the profile that it has validated
unfoldable pub runtime_job : Outside → Profile → Job → Run Runtime
unfolding asset_path asset_probe
runtime_job o profile job = do
  source ← outcome (o.resolve RootKey.source job.snapshot.source_relative_path)
  intro ← asset_path o profile.intro_reference
  outro ← asset_path o profile.outro_reference
  intro_probe ← asset_probe o profile intro
  outro_probe ← (if same_path outro intro then pass intro_probe else asset_probe o profile outro)
  pass (record {
    job = job;
    source_path = source;
    temporary_output = concat job.id (concat "/output." profile.extension);
    intro_path = intro;
    outro_path = outro;
    intro_duration_ns = intro_probe.0;
    outro_duration_ns = outro_probe.0;
    intro_has_audio = intro_probe.1;
    outro_has_audio = outro_probe.1;
  })

-- The end of a run without a result of its own: a cancelled run, and one that failed
unfoldable pub cancel_run : Outside → Job → Run JobRunResult
unfolding finish
cancel_run o job = do
  finished ← finish o job Ending.cancelled (some "cancelled") false
  pass (record { job = finished; retry_scheduled = false })

-- `retry = job.attempt < job.max_attempts`
unfoldable pub fail_run : Outside → Job → String → Run JobRunResult
unfolding finish
fail_run o job reason = do
  let retry = ltb job.attempt job.max_attempts
  finished ← finish o job Ending.failed (some reason) retry
  pass (record { job = finished; retry_scheduled = retry })
