-- ===== src/Worker/Queue/Tests.antt =====
-- Runs of the queue at concrete tables, and the theorems at inputs that meet their hypotheses.
use hass_clips_manager.Prelude.{
  ◌≡◌, ◌≢◌, refl, String, true, false, none, some, List, [], ◌∷◌, arith, ◌↔◌,
}
use hass_clips_manager.Prelude.Tables.{
  count_where, find_where, exists_where, select_where, update_where, first_by, All, Stored,
}
use hass_clips_manager.Prelude.Results.{ok, after}
use hass_clips_manager.Worker.Database.{
  Database, Job, JobState, JobStage, JobKind, Snapshot, is_queued, is_running,
}
use hass_clips_manager.Worker.Queue.{
  get, enqueue_many, claim_next, update, request_cancel, start_job, claimed_before,
}
use hass_clips_manager.Worker.Queue.Invariant.{IsConsistent}
use hass_clips_manager.Worker.Queue.History.{
  here, next, enqueues, claims, cancels, Reach-IsConsistent,
}
use hass_clips_manager.Worker.Queue.Claims.{claims_oldest, claims_iff}
use hass_clips_manager.Worker.Queue.Batches.{enqueue_twice, enqueue_many-Served, Served}
use hass_clips_manager.Worker.Queue.Cancellation.{update_drops_cancel}

abbrev clip_snapshot : Snapshot
clip_snapshot = record {
  source_relative_path = "trailers/a.mp4";
  output_relative_path = "cinema/a.mp4";
  source_fingerprint = "s";
  profile_fingerprint = "p";
  duration_ns = 60000000000;
  lead_in_duration_ns = 2000000000;
  tail_out_duration_ns = 2000000000;
  has_audio = true;
}

abbrev new_job : String → String → String → Job
new_job id created_at fingerprint = record {
  id = id;
  kind = JobKind.compile;
  state = JobState.queued;
  progress = record { stage = JobStage.queued; percent = 0; eta_seconds = none };
  created_at = created_at;
  started_at = none;
  finished_at = none;
  error = none;
  collection_id = "cinema";
  clip_id = "clip";
  fingerprint = fingerprint;
  attempt = 0;
  max_attempts = 3;
  cancel_requested = false;
  snapshot = clip_snapshot;
  logs = [];
}

abbrev empty : Database
empty = record { jobs = []; clips = []; attempts = [] }

abbrev first_job : Job
first_job = new_job "j1" "2026-09-01T10:00:00" "f1"

abbrev second_job : Job
second_job = new_job "j2" "2026-09-01T09:00:00" "f2"

abbrev batch : List Job
batch = first_job ∷ second_job ∷ []

abbrev waiting : Database
waiting = record { jobs = batch; clips = []; attempts = [] }

batch_is_stored : enqueue_many "now" batch empty ≡ ok (waiting, batch)
unfolding enqueue_many find_where exists_where select_where update_where first_by
batch_is_stored = refl

-- The job created first is claimed, not the one inserted first.
abbrev working : Database
working = (claim_next "later" waiting).0

claimed_second : (claim_next "later" waiting).1 ≡ some (start_job "later" second_job)
unfolding claim_next exists_where select_where first_by
claimed_second = refl

empty-IsConsistent : IsConsistent empty
unfolding count_where
empty-IsConsistent = record {
  ids = λ k. omega arith;
  one_running = omega arith;
  one_active = λ f. omega arith;
}

Reach-IsConsistent_example : IsConsistent (
    after (claim_next "later" (after empty (enqueue_many "now" batch empty))).0 (
      request_cancel "end" "j1"
        (claim_next "later" (after empty (enqueue_many "now" batch empty))).0))
Reach-IsConsistent_example =
    Reach-IsConsistent
      (next (next (next here (enqueues "now" batch (refl, (refl, tt)))) (claims "later"))
        (cancels "end" "j1"))
      empty-IsConsistent

claims_oldest_example :
    (row : Job) × Stored row waiting.jobs
    × (row.state ≡ JobState.queued)
    × All (λ r. r.state ≡ JobState.queued → claimed_before r row ≡ false) waiting.jobs
    × (start_job "later" second_job ≡ start_job "later" row)
claims_oldest_example = claims_oldest "later" waiting (start_job "later" second_job) claimed_second

claims_iff_example : ((claim_next "later" waiting).1 ≢ none) ↔ (
    (exists_where (λ r. is_queued r.state) waiting.jobs ≡ true)
    × (exists_where (λ r. is_running r.state) waiting.jobs ≡ false))
claims_iff_example = claims_iff "later" waiting

enqueue_many-Served_example : Served waiting batch batch
enqueue_many-Served_example =
    enqueue_many-Served "now" batch empty (waiting, batch) (refl, (refl, tt)) batch_is_stored

enqueue_twice_example : enqueue_many "again" batch waiting ≡ ok (waiting, batch)
enqueue_twice_example =
    enqueue_twice "now" "again" batch empty (waiting, batch) (refl, (refl, tt)) empty-IsConsistent
      batch_is_stored

claims_other :
    (claim_next "later" (after waiting (request_cancel "now" "j2" waiting))).1
    ≡ some (start_job "later" first_job)
unfolding claim_next request_cancel exists_where select_where first_by update_where find_where
claims_other = refl

abbrev running_job : Job
running_job = record first_job { state = JobState.running; attempt = 1 }

abbrev busy : Database
busy = record { jobs = running_job ∷ []; clips = []; attempts = [] }

update_drops_cancel_example :
    let asked = after busy (request_cancel "now" "j1" busy) in
    (r : Job) × (get (after asked (update "later" running_job asked)) "j1" ≡ ok r)
    × (r.cancel_requested ≡ false)
unfolding find_where
update_drops_cancel_example =
    update_drops_cancel "now" "later" running_job running_job busy refl refl
