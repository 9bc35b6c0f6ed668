-- ===== src/Worker/Queue/Invariant.antt =====
-- The invariant of the queue's tables, and every history of calls keeps it.
use hass_clips_manager.Prelude.{
  ◌≤◌, ◌≡◌, refl, String, Bool, true, ◌&&◌, ◌||◌, none, some, inl, inr, List, [], ◌∷◌, arith,
  if◌then◌else◌, eq_iff, Bool-cases, Option-cases,
}
use native.Mathlib.Nat.{le_trans}
use hass_clips_manager.Prelude.Tables.{
  find_where, exists_where, select_where, update_where, count_where, first_by,
}
use hass_clips_manager.Prelude.Tables.Counts.{
  count-append, count-update, count-update_found, count_mono, count-or, All-intro,
  exists_where-count,
}
use hass_clips_manager.Prelude.Tables.Search.{first_by-eq_none, select_where-eq_nil}
use hass_clips_manager.Prelude.Results.{ok, after}
use hass_clips_manager.Worker.Database.{Database, Job, JobState, is_queued, is_running, is_active}
use hass_clips_manager.Worker.Queue.Outcome.{update-eq_ok, cancel-eq_ok, cancel-eq_err}
use hass_clips_manager.Worker.Queue.{
  has_id, is_active_for, insert_job, enqueue_one, claim_next, claim_job, start_job, update,
  update_tables, overwrite, request_cancel, cancel_tables, cancel_job, flag_cancel, get,
  claimed_before, older,
}

-- No two rows share an id, one job runs at most, and no two active jobs do the same work.
pub record IsConsistent (db : Database) : Type 0 where
  pub ids : (k : String) → count_where (has_id k) db.jobs ≤ 1
  pub one_running : count_where (λ r. is_running r.state) db.jobs ≤ 1
  pub one_active : (f : String) → count_where (is_active_for f) db.jobs ≤ 1

-- The three tests of the invariant, as one family: what holds of each is proved once.
abbrev running_test : Job → Bool
running_test r = is_running r.state

insert-IsConsistent :
    (now : String) (job : Job) (db : Database)
    → job.state ≡ JobState.queued
    → count_where (is_active_for job.fingerprint) db.jobs ≡ 0
    → count_where (has_id job.id) db.jobs ≡ 0
    → IsConsistent db
    → IsConsistent (insert_job now job db)
unfolding insert_job count_where
insert-IsConsistent now job db q fresh new c = record {
  ids = λ k. ground (arith, count-append (has_id k) db.jobs (job ∷ []), c.ids k, eq_iff job.id k);
  one_running = ground (arith, count-append running_test db.jobs (job ∷ []));
  one_active = λ f. ground (
    arith,
    count-append (is_active_for f) db.jobs (job ∷ []),
    c.one_active f,
    eq_iff job.fingerprint f,
  );
}

none_selected :
    (p : Job → Bool) (rows : List Job)
    → first_by older (select_where p rows) ≡ none
    → count_where p rows ≡ 0
none_selected p rows h =
    exists_where-count p rows
      (select_where-eq_nil p rows (first_by-eq_none older (select_where p rows) h))

pub enqueue_one-IsConsistent :
    (now : String) (job : Job) (db : Database)
    → job.state ≡ JobState.queued
    → IsConsistent db
    → IsConsistent (after db (enqueue_one now job db))
unfolding enqueue_one
enqueue_one-IsConsistent now job db q c =
    elim (Option-cases (first_by older (select_where (is_active_for job.fingerprint) db.jobs))) [
      | inr (duplicate, e) ↦ rw (e, enqueue_one) c
      | inl e ↦ elim (Bool-cases (exists_where (has_id job.id) db.jobs)) [
        | inl taken ↦ rw (e, taken, enqueue_one) c
        | inr new ↦
            rw (e, new, enqueue_one)
              (insert-IsConsistent now job db q (none_selected _ db.jobs e)
                (exists_where-count _ db.jobs new) c)
      ]
    ]

claim_job-IsConsistent :
    (now : String) (row : Job) (db : Database)
    → count_where running_test db.jobs ≡ 0
    → IsConsistent db
    → IsConsistent (claim_job now row db).0
unfolding claim_job
claim_job-IsConsistent now row db idle c = record {
  ids = λ k. rw (count-update (has_id k) hit (start_job now) db.jobs) (
      le_trans (count_mono _ (has_id k) db.jobs (All-intro db.jobs λ r t. ground arith)) (c.ids k));
  one_running = rw (count-update running_test hit (start_job now) db.jobs) (
      omega (
        arith,
        idle,
        c.ids row.id,
        count-or running_test (has_id row.id) db.jobs,
        count_mono (λ r. running_test (if hit r then start_job now r else r))
            (λ r. running_test r || has_id row.id r) db.jobs
            (All-intro db.jobs λ r t. ground arith),
      ));
  one_active = λ f. rw (count-update (is_active_for f) hit (start_job now) db.jobs) (
      le_trans (count_mono _ (is_active_for f) db.jobs (All-intro db.jobs λ r t. ground arith))
        (c.one_active f));
}
  where
    hit : Job → Bool
    hit r = has_id row.id r && is_queued r.state

pub claim-IsConsistent :
    (now : String) (db : Database) → IsConsistent db → IsConsistent (claim_next now db).0
unfolding claim_next
claim-IsConsistent now db c =
    elim (Option-cases (first_by claimed_before (select_where (λ r. is_queued r.state) db.jobs))) [
      | inl e ↦ rw (e, claim_next) c
      | inr (row, e) ↦ elim (Bool-cases (exists_where running_test db.jobs)) [
        | inl busy ↦ rw (e, busy, claim_next) c
        | inr idle ↦
            rw (e, idle, claim_next)
              (claim_job-IsConsistent now row db (exists_where-count running_test db.jobs idle) c)
      ]
    ]

update_tables-IsConsistent :
    (now : String) (job row : Job) (db : Database)
    → find_where (has_id job.id) db.jobs ≡ some row
    → row.state ≡ JobState.running
    → IsConsistent db
    → IsConsistent (update_tables now job db)
unfolding update_tables
update_tables-IsConsistent now job row db found runs c = record {
  ids = λ k. le_trans (overwritten (has_id k) (λ t. t)) (c.ids k);
  one_running = le_trans (overwritten running_test (λ _. ground arith)) c.one_running;
  one_active = λ f. le_trans (overwritten (is_active_for f) (λ t. ground arith)) (c.one_active f);
}
  where
    overwritten :
        (p : Job → Bool)
        → (p (overwrite job row) ≡ true → p row ≡ true)
        → count_where p (update_where (has_id job.id) (overwrite job) db.jobs)
          ≤ count_where p db.jobs
    overwritten p keeps =
        count-update_found p (has_id job.id) (overwrite job) row db.jobs (c.ids job.id) found keeps

-- The worker updates the job that it runs. Whatever it writes, also a retry that is queued again,
-- the invariant stands.
pub update-IsConsistent :
    (now : String) (job row : Job) (db : Database)
    → get db job.id ≡ ok row
    → row.state ≡ JobState.running
    → IsConsistent db
    → IsConsistent (after db (update now job db))
unfolding get
update-IsConsistent now job row db found runs c =
    let found_row : find_where (has_id job.id) db.jobs ≡ some row = ground arith in
    rw (update-eq_ok now job row db found_row)
      (update_tables-IsConsistent now job row db found_row runs c)

-- Where a call changes rows with one key only, and no row gains a test by it, the invariant stands.
overwrite-IsConsistent :
    (key : String) (f : Job → Job) (db db' : Database)
    → db'.jobs ≡ update_where (has_id key) f db.jobs
    → ((r : Job) → (f r).id ≡ r.id)
    → ((r : Job) → (f r).fingerprint ≡ r.fingerprint)
    → ((r : Job) → is_running (f r).state ≡ true → is_running r.state ≡ true)
    → ((r : Job) → is_active (f r).state ≡ true → is_active r.state ≡ true)
    → IsConsistent db
    → IsConsistent db'
overwrite-IsConsistent key f db db' e same_id same_work runs active c = record {
  ids = λ k. le_trans (rewritten (has_id k) (λ r t. ground (arith, same_id r))) (c.ids k);
  one_running = le_trans (rewritten running_test (λ r t. ground (arith, runs r))) c.one_running;
  one_active = λ f.
      le_trans (rewritten (is_active_for f) (λ r t. ground (arith, active r, same_work r)))
        (c.one_active f);
}
  where
    rewritten :
        (p : Job → Bool)
        → ((r : Job) → p (if has_id key r then f r else r) ≡ true → p r ≡ true)
        → count_where p db'.jobs ≤ count_where p db.jobs
    rewritten p keeps = rw e (
        rw (count-update p (has_id key) f db.jobs)
          (count_mono _ p db.jobs (All-intro db.jobs keeps)))

cancel_tables-IsConsistent :
    (now : String) (row : Job) (db : Database)
    → IsConsistent db
    → IsConsistent (cancel_tables now row db)
unfolding cancel_tables cancel_job flag_cancel
cancel_tables-IsConsistent now row db c = go row.state refl
  where
    go : (s : JobState) → row.state ≡ s → IsConsistent (cancel_tables now row db)
    go JobState.queued e =
        overwrite-IsConsistent row.id (cancel_job now) db _ (rw (e, cancel_tables) refl) (λ r. refl)
          (λ r. refl) (λ r t. cc) (λ r t. cc) c
    go JobState.running e =
        overwrite-IsConsistent row.id flag_cancel db _ (rw (e, cancel_tables) refl) (λ r. refl)
          (λ r. refl) (λ r t. t) (λ r t. t) c
    go _ e = rw (e, cancel_tables) c

pub cancel-IsConsistent :
    (now job_id : String) (db : Database)
    → IsConsistent db
    → IsConsistent (after db (request_cancel now job_id db))
cancel-IsConsistent now job_id db c = elim (Option-cases (find_where (has_id job_id) db.jobs)) [
  | inl gone ↦ rw (cancel-eq_err now job_id db gone) c
  | inr (row, found) ↦
      rw (cancel-eq_ok now job_id row db found) (cancel_tables-IsConsistent now row db c)
]
