-- ===== src/Worker/Ends/Compilation/Published.antt =====
-- A compilation from its encoded file on settles its job (jobs.py, `run_once`).
use mathlib.Core.Bool.{false≢true}
use hass_clips_manager.Prelude.{
  ◌≡◌, refl, inl, inr, ℕ, String, Bool, true, false, not, ◌&&◌, none, some, [], ◌∷◌, ◌++◌,
  Bool-cases, if◌then◌else◌, ltb, arith, is_none,
}
use hass_clips_manager.Prelude.Text.{first_chars}
use hass_clips_manager.Prelude.Effects.{Post, Post-resume, Post-outcome, pass, ◌>>◌}
use hass_clips_manager.Worker.Database.{Job, JobState, JobStage, Timing}
use hass_clips_manager.Worker.Jobs.{World, Outside, Failure, Profile, Probe, RootKey, Level}
use hass_clips_manager.Worker.Jobs.Outcome.{
  finish, Ending, update, stored_time, set_clip, record_log, stop_requested, progress_at,
}
use hass_clips_manager.Worker.Jobs.Progress.{parse_progress}
use hass_clips_manager.Worker.Jobs.Output.{valid_output, compiled_timing}
use hass_clips_manager.Worker.Jobs.Phases.{Encoded}
use hass_clips_manager.Worker.Jobs.Publish.{
  publish, record_ready, publish_run, validate_run, noted, conclude, fail_exception,
}
use hass_clips_manager.Worker.Ends.{Running, record_log-Leaves, Settled-jobs, Running-jobs}
use hass_clips_manager.Worker.Ends.Finish.{Settles, finish-Settled}
use hass_clips_manager.Worker.Ends.Processes.{Still, Goes, update-Goes, stop_requested-Running}
use hass_clips_manager.Worker.Ends.Compilation.{Good, cancel_run-Settled, fail_run-Settled}

module _ (o : Outside) (job : Job) where
  -- The exception handler ends the run without a further raise.
  pub fail_exception-Settled :
      (J : World → Type 0) (e : Failure) (w : World)
      → Running job w.db
      → Post J (Good o job) (fail_exception o job e w)
  unfolding fail_exception
  fail_exception-Settled J e w r =
      Post-resume J (λ s _. Running job s.db) (Good o job) _ (stop_requested job.id w)
        (stop_requested-Running o job J job.id w r)
        (λ stop s r.
          let retry = ltb job.attempt job.max_attempts && not stop in
          Post-resume J (Settles job retry) (Good o job) _
            (finish o job Ending.failed (some (first_chars 1000 (o.describe e))) retry s)
            (finish-Settled o J job Ending.failed (some (first_chars 1000 (o.describe e))) retry s r
              (λ t. ground arith))
            (λ row s settled. settled))

  module _ (runs : job.state ≡ JobState.running) where
    at_stage :
        (stage : JobStage) (percent : ℕ)
        → Goes o job (update o (record job { progress = progress_at stage percent }))
    at_stage stage percent =
        update-Goes o job (record job { progress = progress_at stage percent })
          (record { same = refl; limit = refl; runs = runs })

    record_ready-Settled :
        (probe : Probe) (timing : Timing) (final : String) (w : World)
        → Running job w.db
        → Post (Still o job) (Good o job) (record_ready o job probe timing final w)
    unfolding record_ready stored_time set_clip
    record_ready-Settled probe timing final w r =
        Post-resume (Still o job) (λ s _. Running job s.db) (Good o job) _ _
          (Post-outcome (Still o job) (λ s _. Running job s.db) (o.fingerprint final) w r
            (λ _ _. r))
          (λ output s r.
            Post-resume (Still o job) (Settles job false) (Good o job) _
              (finish o job Ending.succeeded none false _)
              (finish-Settled o (Still o job) job Ending.succeeded none false _
                (Running-jobs job s.db _ refl r) (λ e. absurd (false≢true e)))
              (λ row s settled.
                Post-resume (Still o job) (λ s' _. s'.db.jobs ≡ s.db.jobs) (Good o job)
                  (λ _. pass (record { job = row; retry_scheduled = false }))
                  (record_log o Level.info "compilation completed" job.id s)
                  (record_log-Leaves o Level.info "compilation completed" job.id (Still o job) s)
                  (λ _ s' same. Settled-jobs job _ s.db s'.db same settled)))

    publish-Goes : (final : String) → Goes o job (publish o final)
    unfolding publish
    publish-Goes final w r = elim (Bool-cases (o.is_within RootKey.compiled final)) [
      | inr f ↦ rw (f, publish, Post) r
      | inl t ↦
          let placed =
            Post-resume (Still o job) (λ s _. Running job s.db) (λ s _. Running job s.db)
              (λ _ w. pass tt (record w { compiled = w.compiled ++ final ∷ [] })) _
              (Post-outcome (Still o job) (λ s _. Running job s.db) (o.replace final) w r
                (λ _ _. r))
              (λ _ s r. r) in
          rw (t, publish, Post) placed
    ]

    publish_run-Settled :
        (profile : Profile) (e : Encoded) (probe : Probe) (w : World)
        → Running job w.db
        → Post (Still o job) (Good o job) (publish_run o profile e job probe w)
    unfolding publish_run
    publish_run-Settled profile e probe w r =
        Post-resume (Still o job) (λ s _. Running job s.db) (Good o job) _ _
          (Post-outcome (Still o job) _ (compiled_timing e.runtime profile probe) w r (λ _ _. r))
          (λ timing s r.
            Post-resume (Still o job) (λ s _. Running job s.db) (Good o job) _ _
              (Post-outcome (Still o job) _
                (o.resolve RootKey.compiled job.snapshot.output_relative_path) s r (λ _ _. r))
              (λ final s r.
                Post-resume (Still o job) (λ s _. Running job s.db) (Good o job) _ _
                  (at_stage JobStage.publishing 100 s r)
                  (λ _ s r.
                    Post-resume (Still o job) (λ s _. Running job s.db) (Good o job) _ _
                      (publish-Goes final s r)
                      (λ _ s r. record_ready-Settled probe timing final s r))))

    validate_run-Settled :
        (profile : Profile) (e : Encoded) (w : World)
        → Running job w.db
        → Post (Still o job) (Good o job) (validate_run o profile e job w)
    unfolding validate_run
    validate_run-Settled profile e w r =
        Post-resume (Still o job) (λ s _. Running job s.db) (Good o job) _ _
          (at_stage JobStage.validating 100 w r)
          (λ _ s r.
            Post-resume (Still o job) (λ s _. Running job s.db) (Good o job) _ _
              (Post-outcome (Still o job) _ (o.probe e.runtime.temporary_output) s r (λ _ _. r))
              (λ probe s r. elim (Bool-cases (valid_output probe profile)) [
                | inl t ↦ rw (t, Post) (publish_run-Settled profile e probe s r)
                | inr f ↦ rw (f, Post) (fail_run-Settled o job (Still o job) _ s r)
              ]))

    pub conclude-Settled :
        (profile : Profile) (e : Encoded) (w : World)
        → Running job w.db
        → Post (Still o job) (Good o job) (conclude o profile e job w)
    unfolding conclude
    conclude-Settled profile e w r =
        Post-resume (Still o job) (λ s _. Running job s.db) (Good o job) _ _
          (updated (is_none (parse_progress o e.ended.output job.snapshot.duration_ns)) w r)
          (λ _ s r. elim (Bool-cases e.ended.cancelled) [
            | inl t ↦ rw (t, Post) (cancel_run-Settled o job (Still o job) s r)
            | inr c ↦ elim (Bool-cases e.ended.success) [
              | inl t ↦ rw (c, t, Post) (validate_run-Settled profile e s r)
              | inr f ↦ rw (c, f, Post) (fail_run-Settled o job (Still o job) _ s r)
            ]
          ])
      where
        updated : (b : Bool) → Goes o job (if b then update o job >> pass tt else pass tt)
        updated true s r =
            Post-resume (Still o job) (λ s _. Running job s.db) (λ s _. Running job s.db) _ _
              (update-Goes o job job (record { same = refl; limit = refl; runs = runs }) s r)
              (λ _ s r. r)
        updated false s r = r

  -- The noted job is the same job, with another line in its log.
  pub noted_same :
      (e : Encoded)
      → ((noted o e job).id ≡ job.id)
        × ((noted o e job).attempt ≡ job.attempt)
        × ((noted o e job).max_attempts ≡ job.max_attempts)
        × ((noted o e job).state ≡ job.state)
  unfolding noted
  noted_same e =
      elim (Bool-cases (is_none (parse_progress o e.ended.output job.snapshot.duration_ns))) [
        | inl t ↦ rw (t, noted) (refl, refl, refl, refl)
        | inr f ↦ rw (f, noted) (refl, refl, refl, refl)
      ]
