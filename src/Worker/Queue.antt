-- ===== src/Worker/Queue.antt =====
-- The durable job queue (queue.py). Each method is one transaction on the tables, so a raise leaves
-- them as they were; the time that it reads from the clock is an argument.
pub mod Outcome
pub mod Invariant
pub mod History
pub mod Claims
pub mod Batches
pub mod Cancellation
mod Tests
use hass_clips_manager.Prelude.{
  ℕ, suc, ◌+◌, ◌-◌, String, Bool, true, ◌&&◌, ◌||◌, Option, none, some, List, [], ◌∷◌, ◌++◌,
  if◌then◌else◌, ◌==◌, is_none,
}
use hass_clips_manager.Prelude.Order.{str_lt}
use hass_clips_manager.Prelude.Tables.{
  drop, length, find_where, exists_where, select_where, update_where, first_by,
}
use hass_clips_manager.Prelude.Results.{Result, ok, err, ◌>>=◌, ◌>>◌, or_raise}
use hass_clips_manager.Worker.Database.{
  Database, Job, JobState, JobStage, Progress, Clip, ClipState, Attempt, is_queued, is_running,
  is_succeeded, is_active, is_compile,
}

pub data QueueError : Type 0 where
  key_error : String → QueueError
  integrity_error : String → QueueError

-- `id=?`
abbrev pub has_id : String → Job → Bool
has_id key r = r.id == key

abbrev pub clip_has_id : String → Clip → Bool
clip_has_id key r = r.id == key

-- `fingerprint=? AND state IN ('queued','running')`
abbrev pub is_active_for : String → Job → Bool
is_active_for key r = r.fingerprint == key && is_active r.state

-- `ORDER BY created_at`
abbrev pub older : Job → Job → Bool
older a b = str_lt a.created_at b.created_at

-- `ORDER BY created_at, id`
abbrev pub claimed_before : Job → Job → Bool
claimed_before a b =
    str_lt a.created_at b.created_at || (a.created_at == b.created_at && str_lt a.id b.id)

-- `get`
unfoldable pub get : Database → String → Result QueueError Job
get db job_id = or_raise (find_where (has_id job_id) db.jobs) (key_error job_id)

abbrev pub set_clip_state : ClipState → String → Clip → Clip
set_clip_state state now c = record c { state = state; updated_at = now }

-- `UPDATE clips SET state=?, updated_at=? WHERE id=?`
abbrev pub mark_clip : String → ClipState → String → List Clip → List Clip
mark_clip clip_id state now = update_where (clip_has_id clip_id) (set_clip_state state now)

-- The `INSERT` of a new job, and the clip of a compilation marked pending
unfoldable pub insert_job : String → Job → Database → Database
insert_job now job db = record db {
  jobs = db.jobs ++ job ∷ [];
  clips =
      if is_compile job.kind
      then mark_clip job.clip_id ClipState.pending now db.clips
      else db.clips;
}

-- The body of the loop of `enqueue_many`
unfoldable pub enqueue_one : String → Job → Database → Result QueueError (Database × Job)
unfolding insert_job
enqueue_one now job db =
    elim (first_by older (select_where (is_active_for job.fingerprint) db.jobs)) [
      | some duplicate ↦ ok (db, duplicate)
      | none ↦
          if exists_where (has_id job.id) db.jobs
          then err (integrity_error job.id)
          else ok (insert_job now job db, job)
    ]

-- `enqueue_many`
unfoldable pub enqueue_many : String → List Job → Database → Result QueueError (Database × List Job)
unfolding enqueue_one
enqueue_many now [] db = ok (db, [])
enqueue_many now (job ∷ jobs) db = do
  (db', first) ← enqueue_one now job db
  (db'', rest) ← enqueue_many now jobs db'
  ok (db'', first ∷ rest)

-- `enqueue`: a batch of one job has one result.
unfoldable pub enqueue : String → Job → Database → Result QueueError (Database × Job)
unfolding enqueue_many
enqueue now job db = do
  (db', results) ← enqueue_many now (job ∷ []) db
  elim results [ [] ↦ ok (db', job) | first ∷ _ ↦ ok (db', first) ]

-- `has_succeeded`
unfoldable pub has_succeeded : String → Database → Bool
has_succeeded key db = exists_where (λ r. r.fingerprint == key && is_succeeded r.state) db.jobs

abbrev pub started_progress : Progress
started_progress = record { stage = JobStage.encoding; percent = 0; eta_seconds = none }

-- The row that `UPDATE jobs SET state='running', …` leaves
unfoldable pub start_job : String → Job → Job
start_job now r = record r {
  state = JobState.running;
  started_at = some now;
  attempt = r.attempt + 1;
  progress = started_progress;
}

-- What the transaction of `claim_next` writes once its guarded `UPDATE` has hit a row
unfoldable pub claim_job : String → Job → Database → Database × Option Job
unfolding start_job
claim_job now candidate db =
    let row = start_job now candidate in
    (
      record {
        jobs =
            update_where (λ r. has_id candidate.id r && is_queued r.state) (start_job now) db.jobs;
        clips =
            if is_compile row.kind
            then mark_clip row.clip_id ClipState.compiling now db.clips
            else db.clips;
        attempts =
            db.attempts
            ++ record {
              job_id = row.id;
              attempt = row.attempt;
              state = JobState.running;
              started_at = now;
              finished_at = none;
            }
              ∷ [];
      },
      some row,
    )

-- `claim_next`
unfoldable pub claim_next : String → Database → Database × Option Job
unfolding claim_job
claim_next now db = elim (first_by claimed_before (select_where (λ r. is_queued r.state) db.jobs)) [
  | none ↦ (db, none)
  | some candidate ↦
      if exists_where (λ r. is_running r.state) db.jobs
      then (db, none)
      else claim_job now candidate db
]

-- `logs[-100:]`
unfoldable pub last_100 : List String → List String
last_100 logs = drop (length logs - 100) logs

-- The columns that `update` writes; the others keep what the row has.
unfoldable pub overwrite : Job → Job → Job
unfolding last_100
overwrite job r = record r {
  state = job.state;
  progress = job.progress;
  finished_at = job.finished_at;
  error = job.error;
  attempt = job.attempt;
  cancel_requested = job.cancel_requested;
  started_at = job.started_at;
  logs = last_100 job.logs;
}

pub close_attempts : String → Job → List Attempt → List Attempt
close_attempts now job attempts =
    if is_running job.state
    then attempts
    else update_where (λ a. a.job_id == job.id && is_none a.finished_at)
        (λ a. record a { state = job.state; finished_at = some now }) attempts

-- `clip_state` in `update`
pub clip_state_after : Job → List Clip → Option ClipState
clip_state_after job clips = elim job.state [
  | JobState.queued ↦ some ClipState.pending
  | JobState.failed ↦ some ClipState.failed
  | JobState.cancelled ↦ elim (find_where (clip_has_id job.clip_id) clips) [
    | none ↦ some ClipState.discovered
    | some c ↦ some (if c.output_available then ClipState.stale else ClipState.discovered)
  ]
  | _ ↦ none
]

pub mark_after : String → Job → List Clip → List Clip
unfolding clip_state_after
mark_after now job clips =
    if is_compile job.kind
    then elim (clip_state_after job clips) [
      | none ↦ clips
      | some s ↦ mark_clip job.clip_id s now clips
    ]
    else clips

-- What the transaction of `update` writes
unfoldable pub update_tables : String → Job → Database → Database
unfolding overwrite close_attempts mark_after
update_tables now job db = record {
  jobs = update_where (has_id job.id) (overwrite job) db.jobs;
  clips = mark_after now job db.clips;
  attempts = close_attempts now job db.attempts;
}

-- `update`
unfoldable pub update : String → Job → Database → Result QueueError (Database × Job)
unfolding update_tables get
update now job db = do
  get db job.id
  let db' : Database = update_tables now job db
  row ← get db' job.id
  ok (db', row)

-- What `request_cancel` writes to a queued job
unfoldable pub cancel_job : String → Job → Job
cancel_job now r = record r {
  state = JobState.cancelled;
  cancel_requested = true;
  finished_at = some now;
  progress = record { stage = JobStage.cancelled; percent = 0; eta_seconds = none };
}

-- `CASE WHEN output_available=1 THEN 'stale' ELSE 'discovered' END`
pub release_clip : String → Clip → Clip
release_clip now c =
    set_clip_state (if c.output_available then ClipState.stale else ClipState.discovered) now c

-- `UPDATE jobs SET cancel_requested=1`
unfoldable pub flag_cancel : Job → Job
flag_cancel r = record r { cancel_requested = true }

unfoldable pub cancel_tables : String → Job → Database → Database
unfolding cancel_job release_clip flag_cancel
cancel_tables now row db = elim row.state [
  | JobState.queued ↦ record db {
    jobs = update_where (has_id row.id) (cancel_job now) db.jobs;
    clips =
        if is_compile row.kind
        then update_where (clip_has_id row.clip_id) (release_clip now) db.clips
        else db.clips;
  }
  | JobState.running ↦ record db { jobs = update_where (has_id row.id) flag_cancel db.jobs }
  | _ ↦ db
]

-- `request_cancel`
unfoldable pub request_cancel : String → String → Database → Result QueueError (Database × Job)
unfolding cancel_tables get
request_cancel now job_id db = do
  row ← get db job_id
  let db' : Database = cancel_tables now row db
  current ← get db' job_id
  ok (db', current)
