-- ===== src/Worker/Queue/History.antt =====
-- Histories of calls on the queue (queue.py): every table that they can lead to is consistent.
use hass_clips_manager.Prelude.{◌≡◌, refl, String, List, [], ◌∷◌, arith}
use mathlib.Core.Path.{subst}
use hass_clips_manager.Prelude.Tables.{All}
use hass_clips_manager.Prelude.Results.{Result, ok, err, after, >>=-eq_ok}
use hass_clips_manager.Worker.Database.{Database, Job, JobState}
use hass_clips_manager.Worker.Queue.{
  QueueError, get, enqueue_one, enqueue_many, claim_next, update, request_cancel,
}
use hass_clips_manager.Worker.Queue.Invariant.{
  IsConsistent, enqueue_one-IsConsistent, claim-IsConsistent, update-IsConsistent,
  cancel-IsConsistent,
}

-- A new job is queued: `JobRecord` starts so, and no caller writes another state.
abbrev pub AllQueued : List Job → Type 0
AllQueued = All (λ job. job.state ≡ JobState.queued)

pub enqueue_many-IsConsistent :
    (now : String) (jobs : List Job) (db : Database) (r : Database × List Job)
    → AllQueued jobs
    → enqueue_many now jobs db ≡ ok r
    → IsConsistent db
    → IsConsistent r.0
unfolding enqueue_many
enqueue_many-IsConsistent now [] db r q e c = ground arith
enqueue_many-IsConsistent now (job ∷ jobs) db r q e c =
    let (one, e₁, rest) = >>=-eq_ok (enqueue_one now job db) _ e in
    let (many, e₂, done) = >>=-eq_ok (enqueue_many now jobs one.0) _ rest in
    let c₁ : IsConsistent one.0 = rw e₁ at (enqueue_one-IsConsistent now job db q.0 c) in
    let c₂ : IsConsistent many.0 = enqueue_many-IsConsistent now jobs one.0 many q.1 e₂ c₁ in
    subst IsConsistent (let same : many.0 ≡ r.0 = ground arith in same) c₂

-- One call on the queue, by the API, by the scheduler of jobs or by the worker.
pub data Step (db : Database) : Database → Type 0 where
  enqueues :
      (now : String) (jobs : List Job)
      → AllQueued jobs
      → Step db (after db (enqueue_many now jobs db))
  claims : (now : String) → Step db (claim_next now db).0
  updates :
      (now : String) (job row : Job)
      → get db job.id ≡ ok row
      → row.state ≡ JobState.running
      → Step db (after db (update now job db))
  cancels : (now job_id : String) → Step db (after db (request_cancel now job_id db))

pub data Reach (db : Database) : Database → Type 0 where
  here : Reach db db
  next : {d e : Database} → Reach db d → Step d e → Reach db e

enqueues-IsConsistent :
    (now : String) (jobs : List Job) (db : Database)
    → AllQueued jobs
    → IsConsistent db
    → IsConsistent (after db (enqueue_many now jobs db))
enqueues-IsConsistent now jobs db q c = go (enqueue_many now jobs db) refl
  where
    go :
        (r : Result QueueError (Database × List Job))
        → enqueue_many now jobs db ≡ r
        → IsConsistent (after db (enqueue_many now jobs db))
    go (err x) e = rw e c
    go (ok r) e = rw e (enqueue_many-IsConsistent now jobs db r q e c)

Step-IsConsistent : {d e : Database} → Step d e → IsConsistent d → IsConsistent e
Step-IsConsistent {d} (enqueues now jobs q) c = enqueues-IsConsistent now jobs d q c
Step-IsConsistent {d} (claims now) c = claim-IsConsistent now d c
Step-IsConsistent {d} (updates now job row found runs) c =
    update-IsConsistent now job row d found runs c
Step-IsConsistent {d} (cancels now job_id) c = cancel-IsConsistent now job_id d c

-- From consistent tables, after any history of batches, claims, updates of running jobs and
-- cancellations: job ids are unique, one job runs at most, and at most one queued or running job
-- has any one fingerprint.
pub Reach-IsConsistent : {d e : Database} → Reach d e → IsConsistent d → IsConsistent e
Reach-IsConsistent here c = c
Reach-IsConsistent (next r s) c = Step-IsConsistent s (Reach-IsConsistent r c)
