-- ===== src/Worker/Ends/Compilation.antt =====
-- The phases of a compilation: the job runs on, or the run has settled it (jobs.py, `run_once`).
pub mod Published
pub mod Whole
use mathlib.Core.Bool.{false≢true}
use hass_clips_manager.Prelude.{
  ◌≡◌, refl, sym, ◌∙◌, inl, inr, ℕ, ◌*◌, ◌<◌, String, Bool, true, false, not, ◌&&◌, Option, none,
  some, List, [], ◌∷◌, ◌++◌, Option-cases, Bool-cases, if◌then◌else◌, leb, ltb, ◌==◌, arith,
}
use hass_clips_manager.Prelude.Tables.{find_where}
use hass_clips_manager.Prelude.Text.{concat}
use hass_clips_manager.Prelude.Results.{ok, Result-cases}
use hass_clips_manager.Prelude.Effects.{
  Effect, Reply, returned, raised, Post, Post-resume, Post-outcome, pass, raise, resume, outcome,
  ◌>>=◌, ◌>>◌,
}
use hass_clips_manager.Worker.Database.{Database, Job, JobState}
use hass_clips_manager.Worker.Jobs.{
  World, Outside, Run, Failure, Command, Profile, Runtime, Segment, Loudness, LoudnessMode,
  two_pass, disabled, segment_analysis, composition, final_analysis, final_normalization, encode,
}
use hass_clips_manager.Worker.Jobs.Outcome.{finish, Ending}
use hass_clips_manager.Worker.Jobs.Progress.{
  phase_timeout_seconds, composed_duration, failure_reason,
}
use hass_clips_manager.Worker.Jobs.Loop.{Ended, run_process}
use hass_clips_manager.Worker.Jobs.Compile.{
  JobRunResult, cancel_run, fail_run, runtime_job, asset_probe, asset_path, same_path,
}
use hass_clips_manager.Worker.Jobs.Phases.{
  Phase, goes_on, over, end_run, next_phase, analyse, segment_name, segment_path, segment_audio,
  segment_duration, Measurements, reuse, add, measure_segment, measure_segments, segments, Encoded,
  compose, encode_with, normalise, phases_by, phases,
}
use hass_clips_manager.Worker.Ends.{Running, Settled}
use hass_clips_manager.Worker.Ends.Finish.{Settles, finish-Settled}
use hass_clips_manager.Worker.Ends.Processes.{
  IsProperOutside, IsCopy, Still, Goes, run_process-Goes,
}

module _ (o : Outside) (job : Job) where
  -- The result of a run settles the job.
  abbrev pub Good : World → JobRunResult → Type 0
  Good s r = Settled job r s.db

  -- A run that goes on leaves the job running.
  abbrev pub Fine : {A : Type 0} → World → Phase A → Type 0
  Fine s (goes_on a) = Running job s.db
  Fine s (over r) = Settled job r s.db

  module _ (J : World → Type 0) where
    pub cancel_run-Settled : (w : World) → Running job w.db → Post J Good (cancel_run o job w)
    unfolding cancel_run
    cancel_run-Settled w r =
        Post-resume J (Settles job false) Good _
          (finish o job Ending.cancelled (some "cancelled") false w)
          (finish-Settled o J job Ending.cancelled (some "cancelled") false w r
            (λ e. absurd (false≢true e)))
          (λ row s settled. settled)

    pub fail_run-Settled :
        (reason : String) (w : World) → Running job w.db → Post J Good (fail_run o job reason w)
    unfolding fail_run
    fail_run-Settled reason w r =
        let retry = ltb job.attempt job.max_attempts in
        Post-resume J (Settles job retry) Good _ (finish o job Ending.failed (some reason) retry w)
          (finish-Settled o J job Ending.failed (some reason) retry w r (λ e. ground arith))
          (λ row s settled. settled)

    ends :
        (A : Type 0) (m : Run JobRunResult) (w : World)
        → Post J Good (m w)
        → Post J (Fine {A = A}) (end_run m w)
    ends A m w p = Post-resume J Good Fine _ (m w) p (λ result s settled. settled)

  module _ (proper : IsProperOutside o) (runs : job.state ≡ JobState.running) where
    abbrev Phases : (A : Type 0) → Run (Phase A) → Type 0
    Phases A m = (w : World) → Running job w.db → Post (Still o job) Fine (m w)

    Fine-bind :
        (A B : Type 0) (k : A → Run (Phase B)) (r : Reply World Failure (Phase A))
        → Post (Still o job) Fine r
        → ((a : A) → Phases B (k a))
        → Post (Still o job) Fine (resume (next_phase k) r)
    Fine-bind A B k (returned s (goes_on a)) p next = next a s p
    Fine-bind A B k (returned s (over result)) p next = p
    Fine-bind A B k (raised s e) p next = p

    module _ (runtime : Runtime) (copy : IsCopy job runtime.job) where
      analyse-Fine :
          (command : Command) (timeout : ℕ) (message : String)
          → Phases Loudness (analyse o runtime job command timeout message)
      unfolding analyse
      analyse-Fine command timeout message w r =
          Post-resume (Still o job) (λ s _. Running job s.db) Fine _
            (run_process o runtime.job command timeout w)
            (run_process-Goes o job runtime.job command timeout proper copy w r)
            (λ ended s r. branches ended.cancelled (o.loudness_of ended.output) ended.success s r)
        where
          failed : Phases Loudness (end_run (fail_run o job message))
          failed s r =
              ends (Still o job) Loudness (fail_run o job message) s
                (fail_run-Settled (Still o job) message s r)

          branches :
              (cancelled : Bool) (measured : Option Loudness) (success : Bool)
              → Phases Loudness (
                  if cancelled then end_run (cancel_run o job) else elim measured [
                    | none ↦ end_run (fail_run o job message)
                    | some m ↦
                        if success then pass (goes_on m) else end_run (fail_run o job message)
                  ])
          branches true measured success s r =
              ends (Still o job) Loudness (cancel_run o job) s
                (cancel_run-Settled (Still o job) s r)
          branches false none success s r = failed s r
          branches false (some m) true s r = r
          branches false (some m) false s r = failed s r

      measure_segment-Fine :
          (profile : Profile) (name : Segment) (m : Measurements)
          → Phases Measurements (measure_segment o profile runtime job name m)
      unfolding measure_segment
      measure_segment-Fine profile name m w r = elim (Option-cases (segment_path runtime name)) [
        | inl e ↦ rw (e, measure_segment, Post) r
        | inr (path, e) ↦ elim (Bool-cases (segment_audio runtime name)) [
          | inr f ↦ rw (e, f, measure_segment, Post) r
          | inl t ↦ elim (Option-cases (find_where (λ known. known.0 == path) m.by_path)) [
            | inr (known, g) ↦ rw (e, t, g, measure_segment, Post) r
            | inl g ↦ let fine = measured path w r in rw (e, t, g, measure_segment, Post) fine
          ]
        ]
      ]
        where
          measured :
              (path : String)
              → Phases Measurements (
                  analyse o runtime job
                    (segment_analysis name runtime)
                    (phase_timeout_seconds profile (segment_duration runtime name) * 1000000000)
                    (concat (segment_name name) " loudness analysis failed")
                  >>= next_phase (λ l. pass (goes_on (add name path l m))))
          measured path w r =
              Fine-bind Loudness Measurements _ _ (analyse-Fine _ _ _ w r) (λ l s r. r)

      measure_segments-Fine :
          (profile : Profile) (names : List Segment) (m : Measurements)
          → Phases Measurements (measure_segments o profile runtime job names m)
      unfolding measure_segments
      measure_segments-Fine profile [] m w r = r
      measure_segments-Fine profile (name ∷ names) m w r =
          Fine-bind _ _ _ (measure_segment o profile runtime job name m w)
            (measure_segment-Fine profile name m w r) (λ m'. measure_segments-Fine profile names m')

      compose-Fine :
          (profile : Profile) (timeout : ℕ) (m : Measurements)
          → Phases Encoded (compose o profile runtime job timeout m)
      unfolding compose
      compose-Fine profile timeout m w r =
          Post-resume (Still o job) (λ s _. Running job s.db) Fine _
            (run_process o runtime.job _ timeout w)
            (run_process-Goes o job runtime.job _ timeout proper copy w r)
            (λ ended s r. elim (Bool-cases ended.cancelled) [
              | inl c ↦
                  rw (c, Post)
                    (ends (Still o job) Encoded (cancel_run o job) s
                      (cancel_run-Settled (Still o job) s r))
              | inr c ↦ elim (Bool-cases ended.success) [
                | inl t ↦ rw (c, t, Post) r
                | inr f ↦
                    rw (c, f, Post)
                      (ends (Still o job) Encoded (fail_run o job _) s
                        (fail_run-Settled (Still o job) _ s r))
              ]
            ])

      encode_with-Fine :
          (command : Command) (timeout : ℕ) → Phases Encoded (encode_with o runtime command timeout)
      unfolding encode_with
      encode_with-Fine command timeout w r =
          Post-resume (Still o job) (λ s _. Running job s.db) Fine _
            (run_process o runtime.job command timeout w)
            (run_process-Goes o job runtime.job command timeout proper copy w r) (λ ended s r. r)

      normalise-Fine : (timeout : ℕ) → Phases Encoded (normalise o runtime job timeout)
      unfolding normalise
      normalise-Fine timeout w r =
          Fine-bind Loudness Encoded _ _ (analyse-Fine _ timeout _ w r)
            (λ l. encode_with-Fine _ timeout)

      mixed-Fine :
          (final : Bool) (timeout : ℕ) (e : Encoded)
          → Phases Encoded (if final then normalise o runtime job timeout else pass (goes_on e))
      mixed-Fine true timeout e w r = normalise-Fine timeout w r
      mixed-Fine false timeout e w r = r

      phases_by-Fine :
          (profile : Profile) (timeout : ℕ) (mode : LoudnessMode)
          → Phases Encoded (phases_by o profile runtime job timeout mode)
      unfolding phases_by
      phases_by-Fine profile timeout disabled w r = encode_with-Fine (encode runtime) timeout w r
      phases_by-Fine profile timeout (two_pass final) w r =
          Fine-bind Measurements Encoded _ _ (measure_segments-Fine profile segments _ w r)
            (λ m s r.
              Fine-bind Encoded Encoded _ _ (compose-Fine profile timeout m s r)
                (mixed-Fine final timeout))

      -- The phases leave the job running, or have settled it.
      pub phases-Fine : (profile : Profile) → Phases Encoded (phases o profile runtime job)
      unfolding phases
      phases-Fine profile = phases_by-Fine profile _ profile.loudness
