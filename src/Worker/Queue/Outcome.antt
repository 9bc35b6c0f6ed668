-- ===== src/Worker/Queue/Outcome.antt =====
-- What each call of the queue returns and writes, on every branch (queue.py).
use hass_clips_manager.Prelude.{◌≡◌, refl, String, true, none, some, arith, eq_iff, ◌∙◌, ap}
use mathlib.Core.Option
use mathlib.Core.Path.{subst, subst⁻¹}
use hass_clips_manager.Prelude.Tables.{find_where, update_where}
use hass_clips_manager.Prelude.Tables.Search.{find_where-update_self}
use hass_clips_manager.Prelude.Tables.Counts.{find_where-eq_some}
use hass_clips_manager.Prelude.Results.{ok, err}
use hass_clips_manager.Worker.Database.{Database, Job, JobState}
use hass_clips_manager.Worker.Queue.{
  has_id, get, update, update_tables, overwrite, request_cancel, cancel_tables, cancel_job,
  flag_cancel, key_error,
}

module _ (now : String) (job row : Job) (db : Database) where
  pub find-update_tables :
      find_where (has_id job.id) db.jobs ≡ some row
      → find_where (has_id job.id) (update_tables now job db).jobs ≡ some (overwrite job row)
  unfolding update_tables overwrite
  find-update_tables found =
      find_where-update_self (has_id job.id) (overwrite job) db.jobs (λ r h. h)
      ∙ ap (Option.map (overwrite job)) found

  -- `update` of a job that is there writes the mutable columns and returns the row as written.
  pub update-eq_ok :
      find_where (has_id job.id) db.jobs ≡ some row
      → update now job db ≡ ok (update_tables now job db, overwrite job row)
  unfolding update get
  update-eq_ok found = rw (found, find-update_tables found) refl

-- The row that `request_cancel` leaves: a queued job is cancelled at once, a running one is asked to
-- stop, and a finished one stays as it is.
abbrev pub cancelled_row : String → Job → Job
cancelled_row now r = elim r.state [
  | JobState.queued ↦ cancel_job now r
  | JobState.running ↦ flag_cancel r
  | _ ↦ r
]

find-cancel_tables :
    (now : String) (row : Job) (db : Database)
    → find_where (has_id row.id) db.jobs ≡ some row
    → find_where (has_id row.id) (cancel_tables now row db).jobs ≡ some (cancelled_row now row)
unfolding cancel_tables
find-cancel_tables now row db found = ground (
  arith,
  found,
  written (cancel_job now) (unfold cancel_job in λ r h. h),
  written flag_cancel (unfold flag_cancel in λ r h. h),
)
  where
    written :
        (f : Job → Job)
        → ((r : Job) → has_id row.id r ≡ true → has_id row.id (f r) ≡ true)
        → find_where (has_id row.id) (update_where (has_id row.id) f db.jobs) ≡ some (f row)
    written f keeps =
        find_where-update_self (has_id row.id) f db.jobs keeps ∙ ap (Option.map f) found

module _ (now job_id : String) (row : Job) (db : Database) where
  pub find-cancel :
      find_where (has_id job_id) db.jobs ≡ some row
      → find_where (has_id job_id) (cancel_tables now row db).jobs ≡ some (cancelled_row now row)
  find-cancel found =
      subst
        (λ k. find_where (has_id k) (cancel_tables now row db).jobs ≡ some (cancelled_row now row))
        same
        (find-cancel_tables now row db
          (subst⁻¹ (λ k. find_where (has_id k) db.jobs ≡ some row) same found))
    where
      same : row.id ≡ job_id
      same = (eq_iff row.id job_id).0 (find_where-eq_some (has_id job_id) db.jobs row found)

  pub cancel-eq_ok :
      find_where (has_id job_id) db.jobs ≡ some row
      → request_cancel now job_id db ≡ ok (cancel_tables now row db, cancelled_row now row)
  unfolding request_cancel get
  cancel-eq_ok found = rw (found, find-cancel found) refl

-- A call for a job that is not there raises `KeyError`.
pub cancel-eq_err :
    (now job_id : String) (db : Database)
    → find_where (has_id job_id) db.jobs ≡ none
    → request_cancel now job_id db ≡ err (key_error job_id)
unfolding request_cancel get
cancel-eq_err now job_id db gone = rw gone refl

pub update-eq_err :
    (now : String) (job : Job) (db : Database)
    → find_where (has_id job.id) db.jobs ≡ none
    → update now job db ≡ err (key_error job.id)
unfolding update get
update-eq_err now job db gone = rw gone refl
