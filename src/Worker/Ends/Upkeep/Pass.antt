-- ===== src/Worker/Ends/Upkeep/Pass.antt =====
-- Every pass of the worker settles the job that it claims (jobs.py, `run_once`).
use mathlib.Core.Option
use mathlib.Core.Path.{subst, subst⁻¹}
use hass_clips_manager.Prelude.{
  ◌≡◌, refl, sym, ap, ◌∙◌, inl, inr, ◌+◌, String, Bool, true, ◌&&◌, Option, some, Option-cases,
  Bool-cases, if◌then◌else◌, arith, eq_refl,
}
use hass_clips_manager.Prelude.Tables.{find_where, select_where, exists_where, first_by, Stored}
use hass_clips_manager.Prelude.Tables.Search.{
  first_by-Stored, select_where-Stored, find_where_unique, find_where-update_where,
}
use hass_clips_manager.Prelude.Text.{concat}
use hass_clips_manager.Prelude.Effects.{Post, Post-resume, pass, ◌>>=◌}
use hass_clips_manager.Worker.Database.{Database, Job, JobKind, JobState, is_queued, is_running}
use hass_clips_manager.Worker.Queue.{has_id, claim_next, claim_job, start_job, claimed_before}
use hass_clips_manager.Worker.Queue.Invariant.{IsConsistent, claim-IsConsistent}
use hass_clips_manager.Worker.Jobs.{World, Outside}
use hass_clips_manager.Worker.Jobs.Outcome.{Ending}
use hass_clips_manager.Worker.Jobs.Compile.{JobRunResult}
use hass_clips_manager.Worker.Jobs.Once.{claim, run_job, run_claimed, run_once}
use hass_clips_manager.Worker.Ends.{Running, Settled}
use hass_clips_manager.Worker.Ends.Processes.{IsProperOutside}
use hass_clips_manager.Worker.Ends.Compilation.{Good}
use hass_clips_manager.Worker.Ends.Compilation.Whole.{CanClean, run_compile-Settled}
use hass_clips_manager.Worker.Ends.Upkeep.{
  finish_run-Settled, run_scan_job-Settled, run_cleanup_job-Settled,
}
use hass_clips_manager.Worker.Ends.Upkeep.Once.{CanRead, run_edit_job-Settled}

abbrev queued_test : Job → Bool
queued_test r = is_queued r.state

abbrev running_test : Job → Bool
running_test r = is_running r.state

-- What a run does where no exception is caught succeeds.
abbrev pub CanRun : Outside → Job → Type 0
CanRun o job = elim job.kind [
  | JobKind.compile ↦ CanClean o job
  | JobKind.edit ↦ CanClean o job × CanRead o job
  | _ ↦ Unit {0}
]

run_job-Settled :
    (o : Outside) (job : Job) (J : World → Type 0) (w : World)
    → IsProperOutside o
    → job.state ≡ JobState.running
    → CanRun o job
    → Running job w.db
    → Post J (Good o job) (run_job o job w)
unfolding run_job
run_job-Settled o job J w proper runs can r = go job.kind refl
  where
    go : (k : JobKind) → job.kind ≡ k → Post J (Good o job) (run_job o job w)
    go JobKind.compile e =
        let done = run_compile-Settled o job J w proper runs (rw (e, CanRun) at can) r in
        rw (e, run_job, Post) done
    go JobKind.edit e =
        let both : CanClean o job × CanRead o job = rw (e, CanRun) at can in
        let done = run_edit_job-Settled o job J w proper runs both.0 both.1 r in
        rw (e, run_job, Post) done
    go JobKind.scan e =
        let done = run_scan_job-Settled o job J w proper r in rw (e, run_job, Post) done
    go JobKind.cleanup e =
        let done = run_cleanup_job-Settled o job J w r in rw (e, run_job, Post) done
    go JobKind.other e =
        let done =
          finish_run-Settled o job J Ending.failed
            (some (concat "unsupported job kind: " (o.kind_text job))) w r in
        rw (e, run_job, Post) done

-- A claim that returns a job took a queued row, which is then stored and running as it says.
abbrev pub Claims : String → Database → Job → Type 0
Claims now db job =
    (row : Job) × Stored row db.jobs × (row.state ≡ JobState.queued) × (job ≡ start_job now row)

claim_job-Running :
    (now : String) (db : Database) (row : Job)
    → IsConsistent db
    → IsConsistent (claim_job now row db).0
    → Stored row db.jobs
    → is_queued row.state ≡ true
    → Running (start_job now row) (claim_job now row db).0
unfolding claim_job start_job
claim_job-Running now db row c c' stored queued = record {
  row = start_job now row;
  found =
      find_where-update_where (has_id row.id) (λ r. has_id row.id r && is_queued r.state)
        (start_job now) db.jobs (λ x _. refl)
      ∙ ap (Option.map _) there
      ∙ ap (λ b. some (if b then start_job now row else row)) hit;
  runs = refl;
  limit = refl;
  consistent = c';
}
  where
    hit : has_id row.id row && is_queued row.state ≡ true
    hit = ground (arith, queued, eq_refl row.id)

    there : find_where (has_id row.id) db.jobs ≡ some row
    there = find_where_unique (has_id row.id) row db.jobs (c.ids row.id) stored (eq_refl row.id)

claim_next-Running :
    (now : String) (db : Database) (job : Job)
    → IsConsistent db
    → (claim_next now db).1 ≡ some job
    → Running job (claim_next now db).0 × (job.state ≡ JobState.running) × Claims now db job
unfolding claim_next
claim_next-Running now db job c h =
    elim (Option-cases (first_by claimed_before (select_where queued_test db.jobs))) [
      | inl e ↦ absurd (ground (arith, h, e))
      | inr (row, e) ↦ elim (Bool-cases (exists_where running_test db.jobs)) [
        | inl busy ↦ absurd (ground (arith, h, e, busy))
        | inr idle ↦
            let (stored, queued) =
              select_where-Stored queued_test row db.jobs
                (first_by-Stored claimed_before row (select_where queued_test db.jobs) e) in
            let claimed : claim_next now db ≡ claim_job now row db =
              rw (e, idle, claim_next) refl in
            let c' : IsConsistent (claim_job now row db).0 =
              subst (λ (x : Database × Option Job). IsConsistent x.0) claimed
                (claim-IsConsistent now db c) in
            let same : job ≡ start_job now row =
              taken row (sym (ap (λ (x : Database × Option Job). x.1) claimed) ∙ h) in
            (
              subst⁻¹ (λ j. Running j (claim_next now db).0) same
                  (subst⁻¹ (λ (x : Database × Option Job). Running (start_job now row) x.0) claimed
                    (claim_job-Running now db row c c' stored queued)),
              ap (λ (j : Job). j.state) same ∙ unfold start_job in refl,
              (row, stored, ground (arith, queued), same),
            )
      ]
    ]
  where
    taken : (row : Job) → (claim_job now row db).1 ≡ some job → job ≡ start_job now row
    taken row t = unfold claim_job in ground (arith, t)

-- What a pass leaves
abbrev pub Passed : Job → World → Option JobRunResult → Type 0
Passed job s result = (r : JobRunResult) × (result ≡ some r) × Settled job r s.db

-- A pass of the worker over consistent tables that claims a job returns, provided that other threads make
-- proper calls, scans leave the jobs, and what a run does where it catches no exception succeeds. The
-- claimed job was queued. The tables are then consistent, and hold the result: the job waits
-- for a further attempt and has one left, or it is finished and no retry is scheduled.
pub once-Settled :
    (o : Outside) (job : Job) (w : World)
    → IsProperOutside o
    → IsConsistent w.db
    → (claim_next (o.clock w.clock_reads) w.db).1 ≡ some job
    → CanRun o job
    → Claims (o.clock w.clock_reads) w.db job × Post (λ _. ⊥) (Passed job) (run_once o w)
unfolding run_once claim run_claimed
once-Settled o job w proper c claimed can =
    let now = o.clock w.clock_reads in
    let (running, runs, claims) = claim_next-Running now w.db job c claimed in
    let w' : World = record w { db = (claim_next now w.db).0; clock_reads = w.clock_reads + 1 } in
    let done : Post (λ _. ⊥) (Passed job) ((run_job o job >>= λ r. pass (some r)) w') =
      Post-resume (λ _. ⊥) (Good o job) (Passed job) (λ r. pass (some r)) (run_job o job w')
        (run_job-Settled o job (λ _. ⊥) w' proper runs can running)
        (λ result s settled. (result, refl, settled)) in
    (
      claims,
      subst⁻¹ (λ (x : Option Job). Post (λ _. ⊥) (Passed job) (run_claimed o x w')) claimed done,
    )
