-- ===== src/Worker/Queue/Cancellation.antt =====
-- What becomes of a cancelled job (queue.py).
use hass_clips_manager.Prelude.{◌≡◌, ◌≢◌, refl, String, true, false, some, arith, eq_iff}
use hass_clips_manager.Prelude.Tables.{find_where, All}
use hass_clips_manager.Prelude.Tables.Search.{All-update_where, All-Stored}
use hass_clips_manager.Prelude.Tables.Counts.{find_where-eq_some}
use hass_clips_manager.Prelude.Results.{ok, after}
use hass_clips_manager.Worker.Database.{Database, Job, JobState}
use hass_clips_manager.Worker.Queue.{
  get, has_id, claim_next, start_job, update, overwrite, request_cancel, cancel_tables, cancel_job,
  flag_cancel,
}
use hass_clips_manager.Worker.Queue.Outcome.{
  cancel-eq_ok, update-eq_ok, cancelled_row, find-cancel, find-update_tables,
}
use hass_clips_manager.Worker.Queue.Claims.{claims_oldest}

-- A queued job that is cancelled is not what the worker claims next.
pub cancelled_not_claimed :
    (now later job_id : String) (row job : Job) (db : Database)
    → find_where (has_id job_id) db.jobs ≡ some row
    → row.state ≡ JobState.queued
    → (claim_next later (after db (request_cancel now job_id db))).1 ≡ some job
    → job.id ≢ job_id
unfolding cancel_tables cancel_job start_job
cancelled_not_claimed now later job_id row job db found queued claimed same =
    let (r, stored, waits, _, started) = claims_oldest later (cancel_tables now row db) job cut in
    let id : has_id row.id r ≡ true = (eq_iff r.id row.id).1 (ground (arith, row_id)) in
    absurd (ground (arith, All-Stored _ r _ gone stored id))
  where
    cut : (claim_next later (cancel_tables now row db)).1 ≡ some job
    cut = rw (cancel-eq_ok now job_id row db found) at claimed

    row_id : row.id ≡ job_id
    row_id = (eq_iff row.id job_id).0 (find_where-eq_some (has_id job_id) db.jobs row found)

    gone :
        All
          (λ r. has_id row.id r ≡ true → r.state ≡ JobState.cancelled)
          (cancel_tables now row db).jobs
    gone =
        rw (queued, cancel_tables)
          (All-update_where (λ r. r.state ≡ JobState.cancelled) (has_id row.id) (cancel_job now)
            db.jobs (λ r. refl))

-- A running job that is asked to stop runs on, and a read shows the request.
pub cancel_shows :
    (now job_id : String) (row : Job) (db : Database)
    → find_where (has_id job_id) db.jobs ≡ some row
    → row.state ≡ JobState.running
    → get (after db (request_cancel now job_id db)) job_id
      ≡ ok (record row { cancel_requested = true })
unfolding get flag_cancel
cancel_shows now job_id row db found runs =
    rw (cancel-eq_ok now job_id row db found)
      (rw (find-cancel now job_id row db found) (ground arith))

-- The worker's next update from the snapshot that it claimed, whose own flag is not set, clears the
-- request again: a later read does not show it.
pub update_drops_cancel :
    (now later : String) (row job : Job) (db : Database)
    → find_where (has_id job.id) db.jobs ≡ some row
    → job.cancel_requested ≡ false
    → let asked = after db (request_cancel now job.id db) in
      (r : Job) × (get (after asked (update later job asked)) job.id ≡ ok r)
      × (r.cancel_requested ≡ false)
unfolding get overwrite
update_drops_cancel now later row job db found unset =
    let there = find-cancel now job.id row db found in
    let asked = cancel_tables now row db in
    (
      overwrite job (cancelled_row now row),
      rw (cancel-eq_ok now job.id row db found) (
          rw (update-eq_ok later job (cancelled_row now row) asked there)
            (rw (find-update_tables later job (cancelled_row now row) asked there))),
      unset,
    )
