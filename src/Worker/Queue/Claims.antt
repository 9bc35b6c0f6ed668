-- ===== src/Worker/Queue/Claims.antt =====
-- Which job `claim_next` takes (queue.py).
use hass_clips_manager.Prelude.{
  ◌≡◌, ◌≢◌, String, Bool, true, false, none, some, inl, inr, ◌↔◌, arith, eq_iff, Option-cases,
}
use hass_clips_manager.Prelude.Order.{str_lt_asymm, str_lt_total, str_lt_not}
use hass_clips_manager.Prelude.Tables.{exists_where, select_where, first_by, All, Stored}
use hass_clips_manager.Prelude.Tables.Search.{
  IsOrder, first_by-least, first_by-Stored, select_where-Stored, exists_where-Stored,
  first_by-eq_none, select_where-eq_nil, All-select_where,
}
use hass_clips_manager.Prelude.Tables.Counts.{All-map}
use hass_clips_manager.Worker.Database.{Database, Job, JobState, is_queued, is_running}
use hass_clips_manager.Worker.Queue.{claim_next, claim_job, start_job, claimed_before}

claimed_before_not :
    (a b c : Job)
    → claimed_before a b ≡ false
    → claimed_before b c ≡ false
    → claimed_before a c ≡ false
claimed_before_not a b c h k = ground (
  arith,
  eq_iff a.created_at b.created_at,
  eq_iff b.created_at c.created_at,
  eq_iff a.created_at c.created_at,
  str_lt_not a.created_at b.created_at c.created_at,
  str_lt_total a.created_at b.created_at,
  str_lt_total b.created_at c.created_at,
  str_lt_asymm a.created_at b.created_at,
  str_lt_asymm b.created_at a.created_at,
  str_lt_not a.id b.id c.id,
)

claimed_before-IsOrder : IsOrder claimed_before
claimed_before-IsOrder = record {
  asymm = λ a b h. ground (
    arith,
    str_lt_asymm a.created_at b.created_at,
    str_lt_asymm a.id b.id,
    eq_iff a.created_at b.created_at,
    eq_iff b.created_at a.created_at,
  );
  irrefl = λ a. ground (arith, str_lt_asymm a.created_at a.created_at, str_lt_asymm a.id a.id);
  not_less = λ a b c h k. claimed_before_not a b c h k;
}

abbrev queued_test : Job → Bool
queued_test r = is_queued r.state

-- A job is claimed exactly when one is queued and none runs.
pub claims_iff :
    (now : String) (db : Database)
    → ((claim_next now db).1 ≢ none) ↔ (
        (exists_where (λ r. is_queued r.state) db.jobs ≡ true)
        × (exists_where (λ r. is_running r.state) db.jobs ≡ false))
unfolding claim_next claim_job
claims_iff now db =
    elim (Option-cases (first_by claimed_before (select_where queued_test db.jobs))) [
      | inl e ↦ ground (arith, nothing_queued e)
      | inr (row, e) ↦ ground (arith, something_queued row e)
    ]
  where
    nothing_queued :
        first_by claimed_before (select_where queued_test db.jobs) ≡ none
        → exists_where queued_test db.jobs ≡ false
    nothing_queued e =
        select_where-eq_nil queued_test db.jobs
          (first_by-eq_none claimed_before (select_where queued_test db.jobs) e)

    something_queued :
        (row : Job)
        → first_by claimed_before (select_where queued_test db.jobs) ≡ some row
        → exists_where queued_test db.jobs ≡ true
    something_queued row e =
        let (stored, queued) =
          select_where-Stored queued_test row db.jobs
            (first_by-Stored claimed_before row (select_where queued_test db.jobs) e) in
        exists_where-Stored queued_test row db.jobs stored queued

-- The job that is claimed was stored and queued, no queued job has an earlier `(created_at, id)`, and
-- it comes back running, with one more attempt.
pub claims_oldest :
    (now : String) (db : Database) (job : Job)
    → (claim_next now db).1 ≡ some job
    → (row : Job) × Stored row db.jobs
      × (row.state ≡ JobState.queued)
      × All (λ r. r.state ≡ JobState.queued → claimed_before r row ≡ false) db.jobs
      × (job ≡ start_job now row)
unfolding claim_next claim_job
claims_oldest now db job h =
    elim (Option-cases (first_by claimed_before (select_where queued_test db.jobs))) [
      | inl e ↦ ground arith
      | inr (row, e) ↦
          let (stored, queued) =
            select_where-Stored queued_test row db.jobs
              (first_by-Stored claimed_before row (select_where queued_test db.jobs) e) in
          let least : All (λ r. claimed_before r row ≡ false) (select_where queued_test db.jobs) =
            first_by-least claimed_before-IsOrder row (select_where queued_test db.jobs) e in
          (
            row,
            stored,
            ground arith,
            All-map db.jobs (λ r k q. k (ground arith))
                (All-select_where (λ r. claimed_before r row ≡ false) queued_test db.jobs least),
            ground arith,
          )
    ]
