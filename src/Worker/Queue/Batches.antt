-- ===== src/Worker/Queue/Batches.antt =====
-- What a batch gets back from `enqueue_many`, and that sending it again is harmless (queue.py).
use mathlib.Core.Path.{subst}
use hass_clips_manager.Prelude.{
  ◌≡◌, refl, String, true, some, inl, inr, List, [], ◌∷◌, arith, eq_iff, Option-cases,
}
use hass_clips_manager.Prelude.Tables.{select_where, first_by, Stored}
use hass_clips_manager.Prelude.Tables.Search.{
  first_by-Stored, select_where-Stored, select_where_unique, Stored-append, Stored-append_last,
}
use hass_clips_manager.Prelude.Results.{ok, Result-cases, >>=-eq_ok}
use hass_clips_manager.Worker.Database.{Database, Job, JobState, is_active}
use hass_clips_manager.Worker.Queue.{
  enqueue, enqueue_one, enqueue_many, insert_job, is_active_for, older,
}
use hass_clips_manager.Worker.Queue.Invariant.{IsConsistent}
use hass_clips_manager.Worker.Queue.History.{AllQueued, enqueue_many-IsConsistent}

-- The job that stands for a request: stored, queued or running, and for the same work.
pub record StandsFor (db : Database) (job result : Job) : Type 0 where
  pub same_work : result.fingerprint ≡ job.fingerprint
  pub active : is_active result.state ≡ true
  pub stored : Stored result db.jobs

abbrev pub Served : Database → List Job → List Job → Type 0
Served db [] [] = Unit
Served db (job ∷ jobs) (result ∷ results) = StandsFor db job result × Served db jobs results
Served db _ _ = ⊥

enqueue_one-StandsFor :
    (now : String) (job : Job) (db : Database) (r : Database × Job)
    → job.state ≡ JobState.queued
    → enqueue_one now job db ≡ ok r
    → StandsFor r.0 job r.1
unfolding enqueue_one insert_job
enqueue_one-StandsFor now job db r q h =
    elim (Option-cases (first_by older (select_where (is_active_for job.fingerprint) db.jobs))) [
      | inr (duplicate, e) ↦
          let (stored, active) =
            select_where-Stored (is_active_for job.fingerprint) duplicate db.jobs
              (first_by-Stored older duplicate _ e) in
          ground (arith, stored, active, eq_iff duplicate.fingerprint job.fingerprint)
      | inl e ↦ ground (arith, Stored-append_last job db.jobs)
    ]

enqueue_one-keeps :
    (now : String) (job a : Job) (db : Database) (r : Database × Job)
    → enqueue_one now job db ≡ ok r
    → Stored a db.jobs
    → Stored a r.0.jobs
unfolding enqueue_one insert_job
enqueue_one-keeps now job a db r h s = ground (arith, Stored-append a db.jobs (job ∷ []))

enqueue_many-keeps :
    (now : String) (jobs : List Job) (a : Job) (db : Database) (r : Database × List Job)
    → enqueue_many now jobs db ≡ ok r
    → Stored a db.jobs
    → Stored a r.0.jobs
unfolding enqueue_many
enqueue_many-keeps now [] a db r h s = ground arith
enqueue_many-keeps now (job ∷ jobs) a db r h s =
    let (one, e₁, rest) = >>=-eq_ok (enqueue_one now job db) _ h in
    let (many, e₂, done) = >>=-eq_ok (enqueue_many now jobs one.0) _ rest in
    let kept : Stored a many.0.jobs =
      enqueue_many-keeps now jobs a one.0 many e₂ (enqueue_one-keeps now job a db one e₁ s) in
    ground arith

-- `enqueue` of a job is the step of the loop for it: its batch always has a first result.
pub enqueue-enqueue_one :
    (now : String) (job : Job) (db : Database) → enqueue now job db ≡ enqueue_one now job db
unfolding enqueue enqueue_many
enqueue-enqueue_one now job db = elim (Result-cases (enqueue_one now job db)) [
  | inl (r, e) ↦ rw (e)
  | inr (e, h) ↦ rw (h)
]

-- A batch that is accepted gets one job for each of its jobs, in order: a queued or running job of
-- the table that does the same work.
pub enqueue_many-Served :
    (now : String) (jobs : List Job) (db : Database) (r : Database × List Job)
    → AllQueued jobs
    → enqueue_many now jobs db ≡ ok r
    → Served r.0 jobs r.1
unfolding enqueue_many
enqueue_many-Served now [] db r q h =
    let e : ◌≡◌ {A = Database × List Job} (db, []) r = cc in subst (λ r. Served r.0 [] r.1) e tt
enqueue_many-Served now (job ∷ jobs) db r q h =
    let (one, e₁, rest) = >>=-eq_ok (enqueue_one now job db) _ h in
    let (many, e₂, done) = >>=-eq_ok (enqueue_many now jobs one.0) _ rest in
    let e : ◌≡◌ {A = Database × List Job} (many.0, one.1 ∷ many.1) r = cc in
    let first : StandsFor one.0 job one.1 = enqueue_one-StandsFor now job db one q.0 e₁ in
    let kept : Stored one.1 many.0.jobs =
      enqueue_many-keeps now jobs one.1 one.0 many e₂ first.stored in
    subst (λ r. Served r.0 (job ∷ jobs) r.1) e
      (
        record { same_work = first.same_work; active = first.active; stored = kept },
        enqueue_many-Served now jobs one.0 many q.1 e₂,
      )

duplicate :
    (job result : Job) (db : Database)
    → IsConsistent db
    → StandsFor db job result
    → first_by older (select_where (is_active_for job.fingerprint) db.jobs) ≡ some result
unfolding first_by
duplicate job result db c s = rw (
    select_where_unique (is_active_for job.fingerprint) result db.jobs
      (c.one_active job.fingerprint) s.stored
      (ground (arith, eq_iff result.fingerprint job.fingerprint)))

again :
    (now : String) (job result : Job) (db : Database)
    → IsConsistent db
    → StandsFor db job result
    → enqueue_one now job db ≡ ok (db, result)
unfolding enqueue_one
again now job result db c s = rw (duplicate job result db c s, enqueue_one)

enqueue_many_again :
    (now : String) (jobs results : List Job) (db : Database)
    → IsConsistent db
    → Served db jobs results
    → enqueue_many now jobs db ≡ ok (db, results)
unfolding enqueue_many
enqueue_many_again now [] [] db c s = refl
enqueue_many_again now (job ∷ jobs) (result ∷ results) db c s =
    rw (again now job result db c s.0, enqueue_many)
      (rw (enqueue_many_again now jobs results db c s.1))
enqueue_many_again now [] (result ∷ results) db c s = elim s [ ]
enqueue_many_again now (job ∷ jobs) [] db c s = elim s [ ]

-- Sending an accepted batch once more, at any later time, returns the same jobs and writes nothing.
pub enqueue_twice :
    (now later : String) (jobs : List Job) (db : Database) (r : Database × List Job)
    → AllQueued jobs
    → IsConsistent db
    → enqueue_many now jobs db ≡ ok r
    → enqueue_many later jobs r.0 ≡ ok r
enqueue_twice now later jobs db r q c h =
    enqueue_many_again later jobs r.1 r.0 (enqueue_many-IsConsistent now jobs db r q h c)
      (enqueue_many-Served now jobs db r q h)
