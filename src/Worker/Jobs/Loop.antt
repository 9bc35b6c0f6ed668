-- ===== src/Worker/Jobs/Loop.antt =====
-- One FFmpeg process of a run (jobs.py, `_run_process`).
use hass_clips_manager.Prelude.{ℕ, String, Bool, true, false, none, some, if◌then◌else◌, leb}
use hass_clips_manager.Prelude.Text.{concat, last_chars, is_empty}
use hass_clips_manager.Prelude.Effects.{pass, outcome, ◌>>=◌, ◌>>◌}
use hass_clips_manager.Worker.Database.{Job}
use hass_clips_manager.Worker.Jobs.{Outside, Run, Turn, Process, waits, exits, Command}
use hass_clips_manager.Worker.Jobs.Outcome.{update, hear, stop_requested}
use hass_clips_manager.Worker.Jobs.Progress.{parse_progress}

-- What `_run_process` returns
pub record Ended : Type 0 where
  pub success : Bool
  pub cancelled : Bool
  pub output : String

abbrev pub bounded : String → String
bounded captured = last_chars 16000 captured

abbrev pub was_cancelled : String → Ended
was_cancelled captured = record { success = false; cancelled = true; output = bounded captured }

abbrev pub timed_out : String → Ended
timed_out captured = record {
  success = false;
  cancelled = false;
  output = bounded (concat captured "\nFFmpeg timed out");
}

abbrev pub done : Bool → String → Ended
done success captured = record { success = success; cancelled = false; output = bounded captured }

-- The update of the job's progress that an output leads to
unfoldable pub report : Outside → Job → String → Run (Unit {0})
unfolding parse_progress update
report o job raw = elim (parse_progress o raw job.snapshot.duration_ns) [
  | none ↦ pass tt
  | some progress ↦ update o (record job { progress = progress }) >> pass tt
]

-- A turn of the loop: the flag, the deadline, and only then the process
unfoldable pub turn : Outside → Job → ℕ → String → Turn → Run Ended → Run Ended
unfolding hear stop_requested
turn o job timeout_ns captured now next = do
  hear now.calls
  stop ← stop_requested job.id
  if stop
      then pass (was_cancelled (concat captured now.stopped))
      else if leb timeout_ns now.elapsed_ns
      then pass (timed_out (concat captured now.stopped))
      else next

-- The loop of `_run_process`
unfoldable pub run_loop : Outside → Job → ℕ → String → Process → Run Ended
unfolding turn report
run_loop o job timeout_ns captured (waits now partial rest) =
    let more = run_loop o job timeout_ns (concat captured partial) rest in
    turn o job timeout_ns captured now
      (if is_empty partial then more else report o job partial >> more)
run_loop o job timeout_ns captured (exits now stdout stderr success) =
    turn o job timeout_ns captured now
      (report o job stdout >> pass (done success (concat stdout (concat "\n" stderr))))

-- `_run_process`
unfoldable pub run_process : Outside → Job → Command → ℕ → Run Ended
unfolding run_loop
run_process o job command timeout_ns = do
  process ← outcome (o.start command)
  run_loop o job timeout_ns "" process
