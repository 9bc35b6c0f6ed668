-- ===== src/Worker/Ends/Processes.antt =====
-- A process of a run leaves the job running (jobs.py, `_run_process`).
use hass_clips_manager.Prelude.{
  ◌≡◌, inl, inr, ℕ, String, Bool, true, false, Option, List, Option-cases, if◌then◌else◌, leb,
}
use hass_clips_manager.Prelude.Text.{concat, is_empty}
use hass_clips_manager.Prelude.Tables.{All}
use hass_clips_manager.Prelude.Results.{ok, Result-cases}
use hass_clips_manager.Prelude.Effects.{Post, Post-resume, Post-outcome, pass, ◌>>◌}
use hass_clips_manager.Worker.Database.{Database, Job, JobState}
use hass_clips_manager.Worker.Queue
use hass_clips_manager.Worker.Jobs.{
  World, Outside, Run, Turn, Process, waits, exits, Command, ScanSummary,
}
use hass_clips_manager.Worker.Jobs.Outcome.{update, hear, calls, stop_requested}
use hass_clips_manager.Worker.Jobs.Progress.{parse_progress}
use hass_clips_manager.Worker.Jobs.Loop.{
  Ended, run_process, run_loop, turn, report, was_cancelled, timed_out,
}
use hass_clips_manager.Worker.Ends.{Running}
use hass_clips_manager.Worker.Ends.Finish.{progress-Running}
use hass_clips_manager.Worker.Ends.Calls.{IsProper, calls-Running}

-- The calls of other threads while a process runs are proper.
abbrev pub IsProperProcess : Process → Type 0
IsProperProcess (waits now partial rest) = All IsProper now.calls × IsProperProcess rest
IsProperProcess (exits now stdout stderr success) = All IsProper now.calls

-- What is asked of the outside: other threads make proper calls only, and a scan leaves the jobs.
pub record IsProperOutside (o : Outside) : Type 0 where
  pub processes : (c : Command) (p : Process) → o.start c ≡ ok p → IsProperProcess p
  pub scans :
      (ids : Option (List String)) (db : Database) (r : Database × ScanSummary)
      → o.scan ids db ≡ ok r
      → r.0.jobs ≡ db.jobs

-- The claimed job, up to what its row keeps
pub record IsCopy (job copy : Job) : Type 0 where
  pub same : copy.id ≡ job.id
  pub limit : copy.max_attempts ≡ job.max_attempts
  pub runs : copy.state ≡ JobState.running

module _ (o : Outside) (job : Job) where
  abbrev pub Still : World → Type 0
  Still s = Running job s.db

  abbrev pub Goes : {A : Type 0} → Run A → Type 0
  Goes m = (w : World) → Still w → Post Still (λ s _. Still s) (m w)

  -- A look at the flag returns.
  pub stop_requested-Running :
      (J : World → Type 0) (id : String) (w : World)
      → Still w
      → Post J (λ s _. Still s) (stop_requested id w)
  unfolding stop_requested
  stop_requested-Running J id w r = elim (Result-cases (Queue.get w.db id)) [
    | inl (row, e) ↦ rw (e, stop_requested, Post) r
    | inr (x, e) ↦ rw (e, stop_requested, Post) r
  ]

  pub update-Goes : (copy : Job) → IsCopy job copy → Goes (update o copy)
  update-Goes copy c w r = progress-Running o Still w job copy c.same c.limit c.runs r

  report-Goes : (copy : Job) (raw : String) → IsCopy job copy → Goes (report o copy raw)
  unfolding report
  report-Goes copy raw c w r =
      elim (Option-cases (parse_progress o raw copy.snapshot.duration_ns)) [
        | inl e ↦ rw (e, report, Post) r
        | inr (p, e) ↦ let written = progress_written p w r in rw (e, report, Post) written
      ]
    where
      progress_written : (p : _) → Goes (update o (record copy { progress = p }) >> pass tt)
      progress_written p w r =
          Post-resume Still (λ s _. Still s) (λ s _. Still s) _
            (update o (record copy { progress = p }) w)
            (update-Goes (record copy { progress = p })
              (record { same = c.same; limit = c.limit; runs = c.runs }) w r)
            (λ _ s r. r)

  turn-Goes :
      (copy : Job) (timeout_ns : ℕ) (captured : String) (now : Turn) (next : Run Ended)
      → All IsProper now.calls
      → Goes next
      → Goes (turn o copy timeout_ns captured now next)
  unfolding turn hear
  turn-Goes copy timeout_ns captured now next proper goes w r =
      let w' : World = record w { db = calls now.calls w.db } in
      Post-resume Still (λ s _. Still s) (λ s _. Still s) _ (stop_requested copy.id w')
        (stop_requested-Running Still copy.id w' (calls-Running job now.calls w.db proper r))
        (λ stop s r. branches stop (leb timeout_ns now.elapsed_ns) s r)
    where
      branches :
          (stop late : Bool)
          → Goes (
              if stop
              then pass (was_cancelled (concat captured now.stopped))
              else if late
              then pass (timed_out (concat captured now.stopped))
              else next)
      branches true late s r = r
      branches false true s r = r
      branches false false s r = goes s r

  partial-Goes :
      (copy : Job) (partial : String) (b : Bool) (more : Run Ended)
      → IsCopy job copy
      → Goes more
      → Goes (if b then more else report o copy partial >> more)
  partial-Goes copy partial true more c goes w r = goes w r
  partial-Goes copy partial false more c goes w r =
      Post-resume Still (λ s _. Still s) (λ s _. Still s) _ (report o copy partial w)
        (report-Goes copy partial c w r) (λ _ s r. goes s r)

  run_loop-Goes :
      (copy : Job) (timeout_ns : ℕ) (captured : String) (p : Process)
      → IsCopy job copy
      → IsProperProcess p
      → Goes (run_loop o copy timeout_ns captured p)
  unfolding run_loop
  run_loop-Goes copy timeout_ns captured (waits now partial rest) c proper =
      turn-Goes copy timeout_ns captured now _ proper.0 (
        partial-Goes copy partial (is_empty partial) _ c
          (run_loop-Goes copy timeout_ns (concat captured partial) rest c proper.1))
  run_loop-Goes copy timeout_ns captured (exits now stdout stderr success) c proper =
      turn-Goes copy timeout_ns captured now _ proper (λ w r.
        Post-resume Still (λ s _. Still s) (λ s _. Still s) _ (report o copy stdout w)
          (report-Goes copy stdout c w r) (λ _ s r. r))

  -- A process leaves the job running, whatever it does.
  pub run_process-Goes :
      (copy : Job) (command : Command) (timeout_ns : ℕ)
      → IsProperOutside o
      → IsCopy job copy
      → Goes (run_process o copy command timeout_ns)
  unfolding run_process
  run_process-Goes copy command timeout_ns proper c w r =
      Post-resume Still (λ s p. Still s × IsProperProcess p) (λ s _. Still s) _ _
        (Post-outcome Still _ (o.start command) w r (λ p e. (r, proper.processes command p e)))
        (λ p s (r, q). run_loop-Goes copy timeout_ns "" p c q s r)
