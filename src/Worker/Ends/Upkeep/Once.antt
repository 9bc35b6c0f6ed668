-- ===== src/Worker/Ends/Upkeep/Once.antt =====
-- Edits, and every pass of the worker, settle their job (jobs.py, `run_once`).
use mathlib.Core.Bool.{false≢true}
use hass_clips_manager.Prelude.{
  ◌≡◌, refl, String, Bool, true, false, not, Option, none, some, if◌then◌else◌,
}
use hass_clips_manager.Prelude.Text.{first_chars}
use hass_clips_manager.Prelude.Results.{ok}
use hass_clips_manager.Prelude.Effects.{
  Post, Post-resume, Post-outcome, Post-rescue, pass, raise, catch, ◌>>◌,
}
use hass_clips_manager.Worker.Database.{Job, JobState, ClipState}
use hass_clips_manager.Worker.Jobs.{World, Outside, Failure, Edit, RootKey, Level, Probe}
use hass_clips_manager.Worker.Jobs.Outcome.{finish, Ending, record_log, record_edit_failure}
use hass_clips_manager.Worker.Jobs.Maintenance.{
  final_result, finish_run, publish_edit, editing, record_edited, publish_edit_run, edit_body,
  fail_edit, run_edit_job,
}
use hass_clips_manager.Worker.Ends.{
  Running, record_log-Leaves, write_reason-Leaves, Leaves, Settled-jobs, Running-jobs,
}
use hass_clips_manager.Worker.Ends.Finish.{Settles, finish-Settled}
use hass_clips_manager.Worker.Ends.Processes.{
  IsProperOutside, IsCopy, Still, Goes, update-Goes, run_process-Goes,
}
use hass_clips_manager.Worker.Ends.Compilation.{Good}
use hass_clips_manager.Worker.Ends.Compilation.Whole.{CanClean, in_directory-Settled}
use hass_clips_manager.Worker.Ends.Upkeep.{finish_run-Settled}

module _ (o : Outside) (job : Job) where
  record_edit_failure-Leaves :
      (clip_id : String) (error : Option String) → Leaves (record_edit_failure o clip_id error)
  unfolding record_edit_failure
  record_edit_failure-Leaves clip_id none J w = refl
  record_edit_failure-Leaves clip_id (some e) J w =
      write_reason-Leaves o clip_id (λ c. record c { state = ClipState.failed }) e J w

  fail_edit-Settled :
      (J : World → Type 0) (e : Failure) (w : World)
      → Running job w.db
      → Post J (Good o job) (fail_edit o job e w)
  unfolding fail_edit
  fail_edit-Settled J e w r =
      Post-resume J (Settles job false) (Good o job) _
        (finish o job Ending.failed (some (first_chars 1000 (o.describe e))) false w)
        (finish-Settled o J job Ending.failed (some (first_chars 1000 (o.describe e))) false w r
          (λ e. absurd (false≢true e)))
        (λ row s settled.
          Post-resume J (λ s' _. s'.db.jobs ≡ s.db.jobs) (Good o job) (λ _. pass (final_result row))
            (record_edit_failure o job.clip_id row.error s)
            (record_edit_failure-Leaves job.clip_id row.error J s)
            (λ _ s' same. Settled-jobs job _ s.db s'.db same settled))

  check-Running : (b : Bool) (e : Failure) → Goes o job (if b then raise e else pass tt)
  check-Running true e w r = r
  check-Running false e w r = r

  publish_edit-Running : (source : String) → Goes o job (publish_edit o source)
  unfolding publish_edit
  publish_edit-Running source w r =
      Post-resume (Still o job) (λ s _. Running job s.db) (λ s _. Running job s.db) _ _
        (check-Running (not (o.is_within RootKey.source source)) _ w r)
        (λ _ s r.
          Post-resume (Still o job) (λ s _. Running job s.db) (λ s _. Running job s.db) _ _
            (Post-outcome (Still o job) _ (o.replace source) s r (λ _ _. r)) (λ _ s r. r))

  record_edited-Leaves : (probe : Probe) → Leaves (record_edited o job probe)
  unfolding record_edited
  record_edited-Leaves probe J w = refl

  publish_edit_run-Settled :
      (source output : String) (w : World)
      → Running job w.db
      → Post (Still o job) (Good o job) (publish_edit_run o job source output w)
  unfolding publish_edit_run
  publish_edit_run-Settled source output w r =
      Post-resume (Still o job) (λ s _. Running job s.db) (Good o job) _ _
        (Post-outcome (Still o job) _ (o.probe output) w r (λ _ _. r))
        (λ probe s r.
          Post-resume (Still o job) (λ s _. Running job s.db) (Good o job) _ _
            (check-Running (not probe.valid) _ s r)
            (λ _ s r.
              Post-resume (Still o job) (λ s _. Running job s.db) (Good o job) _ _
                (publish_edit-Running source s r)
                (λ _ s r.
                  Post-resume (Still o job) (λ s' _. s'.db.jobs ≡ s.db.jobs) (Good o job)
                    (λ _.
                      record_log o Level.info (o.describe_edit probe) job.id
                      >> finish_run o job Ending.succeeded none)
                    (record_edited o job probe s) (record_edited-Leaves probe (Still o job) s)
                    (λ _ s' same.
                      Post-resume (Still o job) (λ t _. t.db.jobs ≡ s'.db.jobs) (Good o job)
                        (λ _. finish_run o job Ending.succeeded none)
                        (record_log o Level.info (o.describe_edit probe) job.id s')
                        (record_log-Leaves o Level.info (o.describe_edit probe) job.id (Still o job)
                          s')
                        (λ _ t same'.
                          finish_run-Settled o job (Still o job) Ending.succeeded none t (
                            Running-jobs job s'.db t.db same'
                              (Running-jobs job s.db s'.db same r)))))))

  edit_body-Settled :
      (settings : Edit) (w : World)
      → IsProperOutside o
      → job.state ≡ JobState.running
      → Running job w.db
      → Post (Still o job) (Good o job) (edit_body o job settings w)
  unfolding edit_body
  edit_body-Settled settings w proper runs r =
      Post-resume (Still o job) (λ s _. Running job s.db) (Good o job) _ _
        (Post-outcome (Still o job) _ (o.make_directory job.id) w r (λ _ _. r))
        (λ _ s r.
          Post-resume (Still o job) (λ s _. Running job s.db) (Good o job) _ _
            (Post-outcome (Still o job) _
              (o.resolve RootKey.source job.snapshot.source_relative_path) s r (λ _ _. r))
            (λ source s r.
              Post-resume (Still o job) (λ s _. Running job s.db) (Good o job) _ _
                (check-Running (not (o.is_file source)) _ s r)
                (λ _ s r.
                  Post-resume (Still o job) (λ s _. Running job s.db) (Good o job) _ _
                    (update-Goes o job (editing settings job) copy s r)
                    (λ _ s r.
                      Post-resume (Still o job) (λ s _. Running job s.db) (Good o job) _ _
                        (run_process-Goes o job (editing settings job) _ _ proper copy s r)
                        (λ ended s r. branches source ended.cancelled _ _ _ s r)))))
    where
      copy : IsCopy job (editing settings job)
      copy = unfold editing in record { same = refl; limit = refl; runs = runs }

      branches :
          (source : String) (cancelled failed : Bool) (e : Failure) (output : String) (s : World)
          → Running job s.db
          → Post (Still o job) (Good o job) (
              (if cancelled
                  then finish_run o job Ending.cancelled none
                  else if failed
                  then raise e
                  else publish_edit_run o job source output)
                s)
      branches source true failed e output s r =
          finish_run-Settled o job (Still o job) Ending.cancelled none s r
      branches source false true e output s r = r
      branches source false false e output s r = publish_edit_run-Settled source output s r

-- The settings of an edit can be read, which the run does before it takes care of exceptions.
abbrev pub CanRead : Outside → Job → Type 0
CanRead o job = (settings : Edit) × (o.edit_of job ≡ ok settings)

pub run_edit_job-Settled :
    (o : Outside) (job : Job) (J : World → Type 0) (w : World)
    → IsProperOutside o
    → job.state ≡ JobState.running
    → CanClean o job
    → CanRead o job
    → Running job w.db
    → Post J (Good o job) (run_edit_job o job w)
unfolding run_edit_job
run_edit_job-Settled o job J w proper runs can (settings, read) r =
    let done =
      in_directory-Settled o job J (catch (edit_body o job settings) (fail_edit o job)) w can (
        Post-rescue (Still o job) (λ _. ⊥) (Good o job) (fail_edit o job)
          (edit_body o job settings w) (edit_body-Settled o job settings w proper runs r)
          (λ e s r. fail_edit-Settled o job (λ _. ⊥) e s r)) in
    rw (read, run_edit_job, Post) done
