-- ===== src/Worker/Ends/Upkeep.antt =====
-- Scans, cleanups and edits settle their job, and so does every pass of the worker (jobs.py).
pub mod Once
pub mod Pass
use mathlib.Core.Bool.{false≢true}
use hass_clips_manager.Prelude.{
  ◌≡◌, refl, sym, ap, ◌∙◌, inl, inr, ℕ, ◌+◌, String, Bool, true, false, not, ◌||◌, Option, none,
  some, List, [], ◌∷◌, ◌++◌, Option-cases, Bool-cases, if◌then◌else◌,
}
use hass_clips_manager.Prelude.Text.{concat, first_chars}
use hass_clips_manager.Prelude.Results.{Result, ok, err, Result-cases}
use hass_clips_manager.Prelude.Effects.{
  Effect, Reply, returned, raised, Post, Post-resume, Post-map, Post-outcome, Post-rescue, pass,
  raise, resume, outcome, catch, finally, ◌>>=◌, ◌>>◌,
}
use hass_clips_manager.Worker.Database.{Database, Job, JobState, JobStage}
use hass_clips_manager.Worker.Jobs.{
  World, Outside, Run, Failure, value_error, Edit, edit, RootKey, Level, Probe, ScanSummary,
}
use hass_clips_manager.Worker.Jobs.Outcome.{
  finish, Ending, update, stored_time, set_clip, record_log, record_edit_failure,
}
use hass_clips_manager.Worker.Jobs.Progress.{failure_reason}
use hass_clips_manager.Worker.Jobs.Loop.{run_process}
use hass_clips_manager.Worker.Jobs.Compile.{JobRunResult}
use hass_clips_manager.Worker.Jobs.Publish.{remove, check_directory}
use hass_clips_manager.Worker.Jobs.Maintenance.{
  in_catalog, final_result, finish_run, finish_logged, add_log, fail_with, record_scan,
  run_scan_job, is_abandoned, remove_if, remove_abandoned, cleanup_temporaries, run_cleanup_job,
  publish_edit, editing, publish_edit_run, edit_body, fail_edit, run_edit_job,
}
use hass_clips_manager.Worker.Ends.{
  Running, Settled, record_log-Leaves, write_reason-Leaves, Leaves, Settled-jobs, Running-jobs,
}
use hass_clips_manager.Worker.Ends.Finish.{Settles, finish-Settled, Settled-same, Running-same}
use hass_clips_manager.Worker.Ends.Processes.{
  IsProperOutside, IsCopy, Still, Goes, update-Goes, run_process-Goes,
}
use hass_clips_manager.Worker.Ends.Compilation.{Good}
use hass_clips_manager.Worker.Ends.Compilation.Whole.{CanClean, in_directory-Settled}

finish_logged-Settled :
    (o : Outside) (job : Job) (line : String) (w : World)
    → Running job w.db
    → Post (Still o job) (Good o job) (finish_logged o line job w)
unfolding finish_logged finish_run
finish_logged-Settled o job line w r =
    let job' = add_log line job in
    Post-resume (Still o job) (λ s _. s.db.jobs ≡ w.db.jobs) (Good o job)
      (λ _. finish_run o (add_log line job) Ending.succeeded none)
      (record_log o Level.info line job.id w)
      (record_log-Leaves o Level.info line job.id (Still o job) w)
      (λ _ s same.
        Post-resume (Still o job) (Settles job' false) (Good o job) _
          (finish o job' Ending.succeeded none false s)
          (finish-Settled o (Still o job) job' Ending.succeeded none false s
            (Running-same job job' s.db refl refl (Running-jobs job w.db s.db same r))
            (λ e. absurd (false≢true e)))
          (λ row s settled. Settled-same job job' _ s.db refl refl refl settled))

record_scan-Leaves :
    (o : Outside) (ids : Option (List String)) (summary : ScanSummary)
    → Leaves (record_scan o ids summary)
unfolding record_scan
record_scan-Leaves o ids summary J w = refl

module _ (o : Outside) (job : Job) where
  pub finish_run-Settled :
      (J : World → Type 0) (ending : Ending) (error : Option String) (w : World)
      → Running job w.db
      → Post J (Good o job) (finish_run o job ending error w)
  unfolding finish_run
  finish_run-Settled J ending error w r =
      Post-resume J (Settles job false) (Good o job) _ (finish o job ending error false w)
        (finish-Settled o J job ending error false w r (λ e. absurd (false≢true e)))
        (λ row s settled. settled)

  fail_with-Settled :
      (J : World → Type 0) (e : Failure) (w : World)
      → Running job w.db
      → Post J (Good o job) (fail_with o job e w)
  unfolding fail_with
  fail_with-Settled J e w r =
      finish_run-Settled J Ending.failed (some (first_chars 1000 (o.describe e))) w r

  scan-Running :
      (ids : Option (List String)) → IsProperOutside o → Goes o job (in_catalog (o.scan ids))
  unfolding in_catalog
  scan-Running ids proper w r = elim (Result-cases (o.scan ids w.db)) [
    | inr (e, x) ↦ rw (x, in_catalog, Post) r
    | inl (done, x) ↦
        let kept = Running-jobs job w.db done.0 (proper.scans ids w.db done x) r in
        rw (x, in_catalog, Post) kept
  ]

  pub run_scan_job-Settled :
      (J : World → Type 0) (w : World)
      → IsProperOutside o
      → Running job w.db
      → Post J (Good o job) (run_scan_job o job w)
  unfolding run_scan_job
  run_scan_job-Settled J w proper r =
      Post-rescue (Still o job) J (Good o job) _ _
        (Post-resume (Still o job) (λ s _. Running job s.db) (Good o job) _ _
          (Post-outcome (Still o job) _ (o.request_of job) w r (λ _ _. r))
          (λ ids s r.
            Post-resume (Still o job) (λ s _. Running job s.db) (Good o job) _ _
              (scan-Running ids proper s r)
              (λ summary s r.
                Post-resume (Still o job) (λ s' _. s'.db.jobs ≡ s.db.jobs) (Good o job)
                  (λ _. finish_logged o (o.describe_scan summary) job) (record_scan o ids summary s)
                  (record_scan-Leaves o ids summary (Still o job) s)
                  (λ _ s' same.
                    finish_logged-Settled o job (o.describe_scan summary) s'
                      (Running-jobs job s.db s'.db same r)))))
        (λ e s r. fail_with-Settled J e s r)

  remove-Running : (name : String) → Goes o job (remove o name)
  unfolding remove
  remove-Running name w r =
      Post-resume (Still o job) (λ s _. Running job s.db) (λ s _. Running job s.db) _ _
        (Post-outcome (Still o job) _ (o.remove_directory name) w r (λ _ _. r)) (λ _ s r. r)

  remove_if-Running : (entry : String × Bool) → Goes o job (remove_if o entry)
  unfolding remove_if
  remove_if-Running entry w r = elim (Bool-cases (is_abandoned o entry w.db.jobs)) [
    | inr f ↦ rw (f, remove_if, Post) r
    | inl t ↦
        let gone =
          Post-resume (Still o job) (λ s _. Running job s.db) (λ s _. Running job s.db)
            (λ _. pass 1) (remove o entry.0 w) (remove-Running entry.0 w r) (λ _ s r. r) in
        rw (t, remove_if, Post) gone
  ]

  remove_abandoned-Running :
      (entries : List (String × Bool)) → Goes o job (remove_abandoned o entries)
  unfolding remove_abandoned
  remove_abandoned-Running [] w r = r
  remove_abandoned-Running (entry ∷ entries) w r =
      Post-resume (Still o job) (λ s _. Running job s.db) (λ s _. Running job s.db) _ _
        (remove_if-Running entry w r)
        (λ more s r.
          Post-resume (Still o job) (λ s _. Running job s.db) (λ s _. Running job s.db) _ _
            (remove_abandoned-Running entries s r) (λ rest s r. r))

  pub run_cleanup_job-Settled :
      (J : World → Type 0) (w : World)
      → Running job w.db
      → Post J (Good o job) (run_cleanup_job o job w)
  unfolding run_cleanup_job cleanup_temporaries
  run_cleanup_job-Settled J w r =
      Post-rescue (Still o job) J (Good o job) _ _
        (Post-resume (Still o job) (λ s _. Running job s.db) (Good o job) _ _
          (Post-resume (Still o job) (λ s _. Running job s.db) (λ s _. Running job s.db) _ _
            (remove_abandoned-Running o.temporary_entries w r)
            (λ removed s r.
              Post-resume (Still o job) (λ s _. Running job s.db) (λ s _. Running job s.db) _ _
                (Post-outcome (Still o job) _ o.abandoned_uploads s r (λ _ _. r)) (λ _ s r. r)))
          (λ removed s r. finish_logged-Settled o job (o.describe_cleanup removed) s r))
        (λ e s r. fail_with-Settled J e s r)
