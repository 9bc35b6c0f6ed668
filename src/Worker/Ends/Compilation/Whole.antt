-- ===== src/Worker/Ends/Compilation/Whole.antt =====
-- A compilation as a whole settles its job (jobs.py, `run_once`).
use hass_clips_manager.Prelude.{
  ◌≡◌, refl, ap, ◌∙◌, inl, inr, ℕ, String, Bool, true, false, not, ◌&&◌, Option, none, some,
  Bool-cases, if◌then◌else◌,
}
use hass_clips_manager.Prelude.Text.{is_empty}
use hass_clips_manager.Prelude.Results.{ok}
use hass_clips_manager.Prelude.Effects.{
  Post, Post-resume, Post-map, Post-outcome, Post-rescue, Post-settle, pass, raise, catch, finally,
  ◌>>◌,
}
use hass_clips_manager.Worker.Database.{Job, JobState}
use hass_clips_manager.Worker.Jobs.{World, Outside, Run, Failure, Profile, Runtime, RootKey}
use hass_clips_manager.Worker.Jobs.Compile.{
  JobRunResult, runtime_job, asset_probe, asset_path, same_path,
}
use hass_clips_manager.Worker.Jobs.Phases.{Phase, goes_on, over, next_phase, after_phase, Encoded}
use hass_clips_manager.Worker.Jobs.Publish.{
  noted, conclude, fail_exception, prepare, compile_guarded, remove, check_directory, run_compile,
}
use hass_clips_manager.Worker.Ends.{Running}
use hass_clips_manager.Worker.Ends.Finish.{Settled-same, Running-same}
use hass_clips_manager.Worker.Ends.Processes.{IsProperOutside, IsCopy, Still}
use hass_clips_manager.Worker.Ends.Compilation.{Good, Fine, phases-Fine}
use hass_clips_manager.Worker.Ends.Compilation.Published.{
  fail_exception-Settled, conclude-Settled, noted_same,
}

asset_path-Still :
    (o : Outside) (I : World → Type 0) (reference : Option String) (w : World)
    → I w
    → Post I (λ s _. I s) (asset_path o reference w)
unfolding asset_path
asset_path-Still o I none w i = i
asset_path-Still o I (some reference) w i = elim (Bool-cases (is_empty reference)) [
  | inl t ↦ rw (t, asset_path, Post) i
  | inr f ↦
      let read =
        Post-resume I (λ s _. I s) (λ s _. I s) (λ path. pass (some path)) _
          (Post-outcome I _ (o.resolve RootKey.assets reference) w i (λ _ _. i)) (λ _ s i. i) in
      rw (f, asset_path, Post) read
]

asset_probe-Still :
    (o : Outside) (I : World → Type 0) (profile : Profile) (path : Option String) (w : World)
    → I w
    → Post I (λ s _. I s) (asset_probe o profile path w)
unfolding asset_probe
asset_probe-Still o I profile none w i = i
asset_probe-Still o I profile (some path) w i =
    Post-resume I (λ s _. I s) (λ s _. I s) _ _ (Post-outcome I _ (o.probe path) w i (λ _ _. i))
      (λ probe s i.
        checked (not probe.valid) (profile.audio_required && not probe.has_audio) _ _ _ s i)
  where
    checked :
        (a b : Bool) (x y : Failure) (r : ℕ × Bool) (s : World)
        → I s
        → Post I (λ s _. I s) ((if a then raise x else if b then raise y else pass r) s)
    checked true b x y r s i = i
    checked false true x y r s i = i
    checked false false x y r s i = i

-- What is read for a run leaves the state; its job is the claimed one.
runtime_job-Still :
    (o : Outside) (I : World → Type 0) (profile : Profile) (job : Job) (w : World)
    → I w
    → Post I (λ s runtime. I s × (runtime.job ≡ job)) (runtime_job o profile job w)
unfolding runtime_job
runtime_job-Still o I profile job w i =
    let Q : World → Runtime → Type 0 = λ s runtime. I s × (runtime.job ≡ job) in
    Post-resume I (λ s _. I s) Q _ _
      (Post-outcome I _ (o.resolve RootKey.source job.snapshot.source_relative_path) w i (λ _ _. i))
      (λ source s i.
        Post-resume I (λ s _. I s) Q _ _ (asset_path-Still o I profile.intro_reference s i)
          (λ intro s i.
            Post-resume I (λ s _. I s) Q _ _ (asset_path-Still o I profile.outro_reference s i)
              (λ outro s i.
                Post-resume I (λ s _. I s) Q _ _ (asset_probe-Still o I profile intro s i)
                  (λ probe s i.
                    Post-resume I (λ s _. I s) Q _ _
                      (reused (same_path outro intro) probe outro s i) (λ _ s i. (i, refl))))))
  where
    reused :
        (b : Bool) (probe : _) (outro : Option String) (s : World)
        → I s
        → Post I (λ s _. I s) ((if b then pass probe else asset_probe o profile outro) s)
    reused true probe outro s i = i
    reused false probe outro s i = asset_probe-Still o I profile outro s i

module _ (o : Outside) (job : Job) (proper : IsProperOutside o)
    (runs : job.state ≡ JobState.running) where
  prepare-Fine : (w : World) → Running job w.db → Post (Still o job) (Fine o job) (prepare o job w)
  unfolding prepare
  prepare-Fine w r =
      Post-resume (Still o job) (λ s _. Running job s.db) (Fine o job) _ _
        (Post-outcome (Still o job) _ (o.make_directory job.id) w r (λ _ _. r))
        (λ _ s r.
          Post-resume (Still o job) (λ s _. Running job s.db) (Fine o job) _ _
            (Post-outcome (Still o job) _ (o.profile_of job) s r (λ _ _. r))
            (λ profile s r.
              Post-resume (Still o job) (λ s runtime. Running job s.db × (runtime.job ≡ job))
                (Fine o job) _ _ (runtime_job-Still o (Still o job) profile job s r)
                (λ runtime s (r, e).
                  Post-resume (Still o job) (Fine o job {A = Encoded})
                    (Fine o job {A = Profile × Encoded})
                    (next_phase (λ e. pass (goes_on (profile, e)))) _
                    (phases-Fine o job proper runs runtime (copied runtime e) profile s r)
                    (λ p s fine. kept p profile s fine))))
    where
      copied : (runtime : Runtime) → runtime.job ≡ job → IsCopy job runtime.job
      copied runtime e = record {
        same = ap (λ (j : Job). j.id) e;
        limit = ap (λ (j : Job). j.max_attempts) e;
        runs = ap (λ (j : Job). j.state) e ∙ runs;
      }

      kept :
          (p : Phase Encoded) (profile : Profile) (s : World)
          → Fine o job s p
          → Post
              (Still o job)
              (Fine o job {A = Profile × Encoded})
              (next_phase (λ e. pass (goes_on (profile, e))) p s)
      kept (goes_on e) profile s fine = fine
      kept (over result) profile s fine = fine

  compile_guarded-Settled :
      (J : World → Type 0) (w : World)
      → Running job w.db
      → Post J (Good o job) (compile_guarded o job w)
  unfolding compile_guarded
  compile_guarded-Settled J w r =
      Post-resume J (Fine o job) (Good o job) _ _
        (Post-rescue (Still o job) J (Fine o job) _ (prepare o job w) (prepare-Fine w r) (λ e s r.
          Post-resume J (Good o job) (Fine o job) _ (fail_exception o job e s)
            (fail_exception-Settled o job J e s r) (λ _ s settled. settled)))
        (λ p s fine. rest p s fine)
    where
      rest :
          (p : Phase (Profile × Encoded)) (s : World)
          → Fine o job s p
          → Post J (Good o job) (
              after_phase
                (λ (profile, e).
                  catch (conclude o profile e (noted o e job)) (fail_exception o (noted o e job)))
                p
                s)
      rest (over result) s settled = settled
      rest (goes_on (profile, e)) s r =
          let (same, attempt, limit, state) = noted_same o job e in
          let job' = noted o e job in
          Post-map J (Good o job') (Good o job) _
            (Post-rescue (Still o job') J (Good o job') _ (conclude o profile e job' s)
              (conclude-Settled o job' (state ∙ runs) profile e s
                (Running-same job job' s.db same limit r))
              (λ x s r. fail_exception-Settled o job' J x s r))
            (λ result s settled. Settled-same job job' result s.db same attempt limit settled)

-- The temporary directory of the job can be named, and is removed without a raise.
pub record CanClean (o : Outside) (job : Job) : Type 0 where
  pub named : o.is_uuid job.id ≡ true
  pub cleaned : o.remove_directory job.id ≡ ok tt

-- A run in a directory that is removed at its end settles the job as its body does.
pub in_directory-Settled :
    (o : Outside) (job : Job) (J : World → Type 0) (body : Run JobRunResult) (w : World)
    → CanClean o job
    → Post (λ _. ⊥) (Good o job) (body w)
    → Post J (Good o job) ((check_directory o job >> finally body (remove o job.id)) w)
unfolding remove check_directory
in_directory-Settled o job J body w can p =
    rw (can.named, Post)
      (Post-settle (λ _. ⊥) J (Good o job) (remove o job.id) (body w) p
        (λ result s settled. rw (can.cleaned, remove, Post) settled) (λ s j. absurd j))

pub run_compile-Settled :
    (o : Outside) (job : Job) (J : World → Type 0) (w : World)
    → IsProperOutside o
    → job.state ≡ JobState.running
    → CanClean o job
    → Running job w.db
    → Post J (Good o job) (run_compile o job w)
unfolding run_compile
run_compile-Settled o job J w proper runs can r =
    in_directory-Settled o job J (compile_guarded o job) w can
      (compile_guarded-Settled o job proper runs (λ _. ⊥) w r)
