-- ===== src/Worker/Ends/Finish.antt =====
-- The writes of a run to its job, and `_finish` (jobs.py).
use mathlib.Core.Path.{subst⁻¹}
use hass_clips_manager.Prelude.{
  ◌≡◌, refl, sym, ◌∙◌, inl, inr, ◌+◌, ◌<◌, String, Bool, true, false, Option, none, some, arith,
  if◌then◌else◌, ◌&&◌,
}
use hass_clips_manager.Prelude.Tables.{find_where}
use hass_clips_manager.Prelude.Results.{Result, ok}
use hass_clips_manager.Prelude.Effects.{Post, Post-resume, Post-map, pass}
use hass_clips_manager.Worker.Database.{Database, Job, JobState, is_compile}
use hass_clips_manager.Worker.Queue
use hass_clips_manager.Worker.Queue.{QueueError, has_id, clip_has_id, update_tables, overwrite, get}
use hass_clips_manager.Worker.Queue.Outcome.{find-update_tables}
use hass_clips_manager.Worker.Queue.Invariant.{IsConsistent, update-IsConsistent}
use hass_clips_manager.Worker.Jobs.{World, Outside}
use hass_clips_manager.Worker.Jobs.Outcome.{
  update, stored_time, finish, store_end, requeued, ended, log_error, record_clip_failure, in_queue,
  Ending, state_of, is_failed,
}
use hass_clips_manager.Worker.Jobs.Compile.{JobRunResult}
use hass_clips_manager.Worker.Ends.{
  Running, Settled, Running-jobs, Settled-jobs, log_error-Leaves, record_clip_failure-Leaves,
  is_finished,
}

in_queue-eq_ok :
    {A : Type 0} (f : Database → Result QueueError (Database × A)) (w : World) (r : Database × A)
    → f w.db ≡ ok r
    → in_queue f w ≡ pass r.1 (record w { db = r.0 })
unfolding in_queue
in_queue-eq_ok f w r e = rw (e, in_queue) refl

-- What `update` leaves where its job is stored
abbrev pub updated_world : Outside → Job → World → World
updated_world o job w = record w {
  db = update_tables (o.clock w.clock_reads) job w.db;
  clock_reads = w.clock_reads + 1;
}

update-eq_ok :
    (o : Outside) (w : World) (job row : Job)
    → find_where (has_id job.id) w.db.jobs ≡ some row
    → update o job w ≡ pass (overwrite job row) (updated_world o job w)
unfolding update stored_time
update-eq_ok o w job row found =
    in_queue-eq_ok (Queue.update (o.clock w.clock_reads) job) _ _
      (Queue.Outcome.update-eq_ok (o.clock w.clock_reads) job row w.db found)

-- The row before has been overwritten, and is what a look-up finds.
abbrev pub Written : Job → Job → World → Job → Type 0
Written job before s row =
    (find_where (has_id job.id) s.db.jobs ≡ some row)
    × (row ≡ overwrite job before)
    × IsConsistent s.db

-- A write of the job that runs: it returns the row as written, and the tables stay consistent.
pub update-Post :
    (o : Outside) (J : World → Type 0) (w : World) (job : Job) (r : Running job w.db)
    → Post J (Written job r.row) (update o job w)
unfolding get
update-Post o J w job r =
    let now = o.clock w.clock_reads in
    let tables = update-IsConsistent now job r.row w.db (rw r.found refl) r.runs r.consistent in
    subst⁻¹ (Post J (Written job r.row)) (update-eq_ok o w job r.row r.found) (
      find-update_tables now job r.row w.db r.found,
      refl,
      rw (Queue.Outcome.update-eq_ok now job r.row w.db r.found) at tables,
    )

pub Running-same :
    (job job' : Job) (db : Database)
    → job'.id ≡ job.id
    → job'.max_attempts ≡ job.max_attempts
    → Running job db
    → Running job' db
Running-same job job' db same limit r = record {
  row = r.row;
  found = rw same r.found;
  runs = r.runs;
  limit = r.limit ∙ sym limit;
  consistent = r.consistent;
}

pub Settled-same :
    (job job' : Job) (result : JobRunResult) (db : Database)
    → job'.id ≡ job.id
    → job'.attempt ≡ job.attempt
    → job'.max_attempts ≡ job.max_attempts
    → Settled job' result db
    → Settled job result db
Settled-same job job' result db same attempt limit s = record {
  stored = rw same at s.stored;
  attempt = s.attempt ∙ attempt;
  limit = s.limit ∙ limit;
  outcome = elim s.outcome [
    | inl (retry, queued, left) ↦ inl (retry, queued, ground arith)
    | inr finished ↦ inr finished
  ];
  consistent = s.consistent;
}

-- A write of the progress of the job that runs
pub progress-Running :
    (o : Outside) (J : World → Type 0) (w : World) (job job' : Job)
    → job'.id ≡ job.id
    → job'.max_attempts ≡ job.max_attempts
    → job'.state ≡ JobState.running
    → Running job w.db
    → Post J (λ s _. Running job s.db) (update o job' w)
unfolding overwrite
progress-Running o J w job job' same limit runs r =
    let r' = Running-same job job' w.db same limit r in
    Post-map J (Written job' r'.row) _ (update o job' w) (update-Post o J w job' r')
      (λ row s (found, e, c). Running-same job' job s.db (sym same) (sym limit) (record {
        row = row;
        found = found;
        runs = ground (arith, e);
        limit = ground (arith, e, r'.limit);
        consistent = c;
      }))

-- What `_finish` returns settles the job.
abbrev pub Settles : Job → Bool → World → Job → Type 0
Settles job retry s row = Settled job (record { job = row; retry_scheduled = retry }) s.db

module _ (o : Outside) (J : World → Type 0) (job : Job) where
  requeue-Settled :
      (safe : Option String) (w : World)
      → Running job w.db
      → job.attempt < job.max_attempts
      → Post J (Settles job true) (update o (requeued safe job) w)
  unfolding requeued overwrite
  requeue-Settled safe w r left =
      let r' = Running-same job (requeued safe job) w.db refl refl r in
      Post-map J (Written (requeued safe job) r'.row) (Settles job true)
        (update o (requeued safe job) w) (update-Post o J w (requeued safe job) r')
        (λ row s (found, e, c). record {
          stored = found;
          attempt = ground (arith, e);
          limit = ground (arith, e, r.limit);
          outcome = inl (refl, ground (arith, e), left);
          consistent = c;
        })

  ended-Settled :
      (ending : Ending) (now : String) (safe : Option String) (w : World)
      → Running job w.db
      → Post J (Settles job false) (update o (ended ending now safe job) w)
  unfolding ended overwrite
  ended-Settled ending now safe w r =
      let job' = ended ending now safe job in
      let r' = Running-same job job' w.db refl refl r in
      Post-map J (Written job' r'.row) (Settles job false) (update o job' w)
        (update-Post o J w job' r')
        (λ row s (found, e, c). record {
          stored = found;
          attempt = ground (arith, e);
          limit = ground (arith, e, r.limit);
          outcome = inr (refl, ground (arith, e, finished ending));
          consistent = c;
        })
    where
      finished : (ending : Ending) → is_finished (state_of ending) ≡ true
      finished Ending.succeeded = refl
      finished Ending.cancelled = refl
      finished Ending.failed = refl

  store_end-Settled :
      (ending : Ending) (safe : Option String) (w : World)
      → Running job w.db
      → Post J (Settles job false) (store_end o job ending safe w)
  unfolding store_end stored_time
  store_end-Settled ending safe w r =
      let now = o.clock w.clock_reads in
      let w' : World = record w { clock_reads = w.clock_reads + 1 } in
      Post-resume J (Settles job false) (Settles job false) _
        (update o (ended ending now safe job) w') (ended-Settled ending now safe w' r)
        (λ row s settled.
          Post-resume J (λ s' _. s'.db.jobs ≡ s.db.jobs) (Settles job false) _ _
            (noted (is_failed ending && is_compile job.kind) s)
            (λ _ s' same. Settled-jobs job _ s.db s'.db same settled))
    where
      noted :
          (b : Bool) (s : World)
          → Post J
              (λ s' _. s'.db.jobs ≡ s.db.jobs)
              ((if b then record_clip_failure o job safe else pass tt) s)
      noted true s = record_clip_failure-Leaves o job safe J s
      noted false s = refl

  -- `_finish` of the running job returns, and the job is then as the result says.
  pub finish-Settled :
      (ending : Ending) (error : Option String) (retry : Bool) (w : World)
      → Running job w.db
      → (retry ≡ true → job.attempt < job.max_attempts)
      → Post J (Settles job retry) (finish o job ending error retry w)
  unfolding finish
  finish-Settled ending error retry w r left =
      let safe : Option String = elim error [ none ↦ none | some e ↦ some (o.sanitize e) ] in
      Post-resume J (λ s _. s.db.jobs ≡ w.db.jobs) (Settles job retry) _
        (log_error o retry job safe w) (log_error-Leaves o retry job safe J w)
        (λ _ s same. go retry left s (Running-jobs job w.db s.db same r))
    where
      go :
          (retry : Bool)
          → (retry ≡ true → job.attempt < job.max_attempts)
          → (s : World) → Running job s.db
          → Post J (Settles job retry) (
              (if retry
                  then update o
                      (requeued (elim error [ none ↦ none | some e ↦ some (o.sanitize e) ]) job)
                  else store_end o job ending
                      (elim error [ none ↦ none | some e ↦ some (o.sanitize e) ]))
                s)
      go true left s r = requeue-Settled _ s r (left refl)
      go false left s r = store_end-Settled ending _ s r
