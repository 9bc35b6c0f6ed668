-- ===== src/Worker/Ends/Calls.antt =====
-- What other threads ask of the queue leaves the running job running (jobs.py, queue.py).
use mathlib.Core.Option
use mathlib.Core.Path.{subst}
use hass_clips_manager.Prelude.{
  ◌≡◌, refl, ap, sym, ◌∙◌, inl, inr, String, false, some, List, [], ◌∷◌, arith, eq_iff,
  Option-cases, Bool-cases, if◌then◌else◌,
}
use hass_clips_manager.Prelude.Tables.{find_where, update_where, All}
use hass_clips_manager.Prelude.Tables.Counts.{find_where-eq_some}
use hass_clips_manager.Prelude.Tables.Search.{find_where-update_where, find_where-append}
use hass_clips_manager.Prelude.Results.{ok, >>=-eq_ok, Result-cases}
use hass_clips_manager.Worker.Database.{Database, Job, JobState}
use hass_clips_manager.Worker.Queue.{
  has_id, cancel_tables, cancel_job, flag_cancel, enqueue_one, enqueue_many, insert_job,
}
use hass_clips_manager.Worker.Queue.Outcome.{cancel-eq_ok, cancel-eq_err}
use hass_clips_manager.Worker.Queue.Invariant.{IsConsistent, cancel-IsConsistent}
use hass_clips_manager.Worker.Queue.History.{AllQueued, enqueue_many-IsConsistent}
use hass_clips_manager.Worker.Jobs.{Call, cancel, submit}
use hass_clips_manager.Worker.Jobs.Outcome.{call, calls}
use hass_clips_manager.Worker.Ends.{Running}

-- A new job is queued, as the callers of the queue make it.
abbrev pub IsProper : Call → Type 0
IsProper (cancel now job_id) = Unit
IsProper (submit now jobs) = AllQueued jobs

-- Running, once the consistency of the tables is known
still_running :
    (job row : Job) (d e : Database)
    → IsConsistent e
    → (r : Running job d) → find_where (has_id job.id) e.jobs ≡ some row
    → row.state ≡ JobState.running
    → row.max_attempts ≡ r.row.max_attempts
    → Running job e
still_running job row d e c r found runs limit = record {
  row = row;
  found = found;
  runs = runs;
  limit = limit ∙ r.limit;
  consistent = c;
}

cancel_tables-Running :
    (now : String) (job row : Job) (db : Database)
    → find_where (has_id row.id) db.jobs ≡ some row
    → IsConsistent (cancel_tables now row db)
    → Running job db
    → Running job (cancel_tables now row db)
unfolding cancel_tables cancel_job flag_cancel
cancel_tables-Running now job row db stored c r = go row.state refl
  where
    changed :
        (f : Job → Job)
        → ((x : Job) → (f x).id ≡ x.id)
        → find_where (has_id job.id) (update_where (has_id row.id) f db.jobs)
          ≡ some (if has_id row.id r.row then f r.row else r.row)
    changed f same =
        find_where-update_where (has_id job.id) (has_id row.id) f db.jobs
          (λ x _. ground (arith, same x))
        ∙ ap (Option.map (λ x. if has_id row.id x then f x else x)) r.found

    other : row.state ≡ JobState.queued → has_id row.id r.row ≡ false
    other q = elim (Bool-cases (has_id row.id r.row)) [
      | inr f ↦ f
      | inl t ↦
          let same : r.row.id ≡ row.id = (eq_iff r.row.id row.id).0 t in
          let mine : r.row.id ≡ job.id =
            (eq_iff r.row.id job.id).0 (find_where-eq_some (has_id job.id) db.jobs r.row r.found) in
          let key : row.id ≡ job.id = sym same ∙ mine in
          let found : find_where (has_id job.id) db.jobs ≡ some row =
            subst (λ k. find_where (has_id k) db.jobs ≡ some row) key stored in
          absurd (ground (arith, found, r.found, r.runs))
    ]

    go : (s : JobState) → row.state ≡ s → Running job (cancel_tables now row db)
    go JobState.queued e =
        still_running job r.row db _ c r
          (rw (e, cancel_tables)
            (changed (cancel_job now) (λ x. refl)
              ∙ ap (λ b. some (if b then cancel_job now r.row else r.row)) (other e)))
          r.runs refl
    go JobState.running e = elim (Bool-cases (has_id row.id r.row)) [
      | inl t ↦
          still_running job (flag_cancel r.row) db _ c r
            (rw (e, cancel_tables)
              (changed flag_cancel (λ x. refl)
                ∙ ap (λ b. some (if b then flag_cancel r.row else r.row)) t))
            r.runs refl
      | inr f ↦
          still_running job r.row db _ c r
            (rw (e, cancel_tables)
              (changed flag_cancel (λ x. refl)
                ∙ ap (λ b. some (if b then flag_cancel r.row else r.row)) f))
            r.runs refl
    ]
    go _ e = still_running job r.row db _ c r (rw (e, cancel_tables) r.found) r.runs refl

enqueue_one-found :
    (now key : String) (row job : Job) (db : Database) (r : Database × Job)
    → enqueue_one now job db ≡ ok r
    → find_where (has_id key) db.jobs ≡ some row
    → find_where (has_id key) r.0.jobs ≡ some row
unfolding enqueue_one insert_job
enqueue_one-found now key row job db r e found =
    ground (arith, find_where-append (has_id key) row db.jobs (job ∷ []) found)

enqueue_many-found :
    (now key : String) (row : Job) (jobs : List Job) (db : Database) (r : Database × List Job)
    → enqueue_many now jobs db ≡ ok r
    → find_where (has_id key) db.jobs ≡ some row
    → find_where (has_id key) r.0.jobs ≡ some row
unfolding enqueue_many
enqueue_many-found now key row [] db r e found = ground arith
enqueue_many-found now key row (job ∷ jobs) db r e found =
    let (one, e₁, rest) = >>=-eq_ok (enqueue_one now job db) _ e in
    let (many, e₂, done) = >>=-eq_ok (enqueue_many now jobs one.0) _ rest in
    let there : find_where (has_id key) many.0.jobs ≡ some row =
      enqueue_many-found now key row jobs one.0 many e₂
        (enqueue_one-found now key row job db one e₁ found) in
    let same : many.0 ≡ r.0 = ground arith in
    subst (λ d. find_where (has_id key) d.jobs ≡ some row) same there

call-Running :
    (job : Job) (c : Call) (db : Database) → IsProper c → Running job db → Running job (call c db)
unfolding call
call-Running job (cancel now job_id) db p r =
    elim (Option-cases (find_where (has_id job_id) db.jobs)) [
      | inl gone ↦ rw (cancel-eq_err now job_id db gone) r
      | inr (row, found) ↦
          let same : row.id ≡ job_id =
            (eq_iff row.id job_id).0 (find_where-eq_some (has_id job_id) db.jobs row found) in
          rw (cancel-eq_ok now job_id row db found) (
            cancel_tables-Running now job row db
              (subst (λ k. find_where (has_id k) db.jobs ≡ some row) (sym same) found)
              (rw (cancel-eq_ok now job_id row db found) at
                (cancel-IsConsistent now job_id db r.consistent))
              r)
    ]
call-Running job (submit now jobs) db p r = elim (Result-cases (enqueue_many now jobs db)) [
  | inr (e, raised) ↦ rw raised r
  | inl (done, e) ↦ rw e (
      still_running job r.row db done.0
        (enqueue_many-IsConsistent now jobs db done p e r.consistent) r
        (enqueue_many-found now job.id r.row jobs db done e r.found) r.runs refl)
]

-- Proper calls of other threads leave a running job running.
pub calls-Running :
    (job : Job) (cs : List Call) (db : Database)
    → All IsProper cs
    → Running job db
    → Running job (calls cs db)
unfolding calls
calls-Running job [] db p r = r
calls-Running job (c ∷ cs) db p r =
    calls-Running job cs (call c db) p.1 (call-Running job c db p.0 r)
