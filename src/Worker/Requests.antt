-- ===== src/Worker/Requests.antt =====
-- Requests to compile (jobs.py, `JobService`): which clips become jobs, and what stops a request.
pub mod Planned
mod Tests
use hass_clips_manager.Prelude.{
  ℕ, suc, ◌+◌, ◌-◌, String, Bool, true, false, ◌&&◌, ◌||◌, not, Option, none, some, List, [], ◌∷◌,
  ◌++◌, if◌then◌else◌, ltb, ◌==◌,
}
use hass_clips_manager.Prelude.Text.{concat, is_empty}
use hass_clips_manager.Prelude.Tables.{select_where, exists_where, first_by}
use hass_clips_manager.Prelude.Results.{Result, ok, err, ◌>>=◌, ◌>>◌}
use hass_clips_manager.Prelude.Effects
use hass_clips_manager.Prelude.Effects.{Effect, pass, raise, outcome, resume}
use hass_clips_manager.Worker.Database.{
  Database, Job, JobState, JobStage, JobKind, Snapshot, Clip, ClipState, is_active, is_compile,
}
use hass_clips_manager.Worker.Queue.{QueueError, claimed_before, enqueue_many, has_succeeded, get}
use hass_clips_manager.Worker.Jobs.{Failure, from_queue, value_error, Profile, RootKey}
use hass_clips_manager.Worker.Library.{Catalog, CompileOptions, Files, job_profile}

-- `CompileRequest.strategy`
pub data Strategy : Type 0 where
  scan_and_compile_changed_or_missing compile_stale_only scan_only : Strategy

-- `CompileRequest`
pub record CompileRequest : Type 0 where
  pub collection_id : String
  pub clip_ids : Option (List String)
  pub strategy : Strategy
  pub skip_if_processing : Bool
  pub max_attempts : ℕ

-- What a `JobService` is made with, and the time at which it is called
pub record Service : Type 0 where
  pub disk_reserve_bytes : ℕ
  pub lead_in_duration_ns : ℕ
  pub tail_out_duration_ns : ℕ
  pub now : String
  pub scan : Option (String → Database → Result Failure Database)

-- The `compile_options` of a `JobService`
abbrev pub options_of : Service → CompileOptions
options_of service = record {
  lead_in_duration_ns = service.lead_in_duration_ns;
  tail_out_duration_ns = service.tail_out_duration_ns;
}

-- The states that a strategy takes clips from
abbrev pub is_stale : Strategy → ClipState → Bool
is_stale strategy ClipState.stale = true
is_stale strategy ClipState.failed = true
is_stale compile_stale_only ClipState.discovered = false
is_stale _ ClipState.discovered = true
is_stale _ _ = false

abbrev pub is_processing : ClipState → Bool
is_processing ClipState.pending = true
is_processing ClipState.compiling = true
is_processing _ = false

-- `id IN (…)`, where the request names clips
abbrev pub is_named : Option (List String) → Clip → Bool
is_named none clip = true
is_named (some ids) clip = exists_where (λ id. id == clip.id) ids

unfoldable pub is_eligible : CompileRequest → Clip → Bool
unfolding exists_where
is_eligible request clip =
    clip.collection_id == request.collection_id
    && ((is_stale request.strategy clip.state
          || (not request.skip_if_processing && is_processing clip.state))
        && is_named request.clip_ids clip)

-- `_eligible_clips`
unfoldable pub eligible_clips : CompileRequest → List Clip → List Clip
unfolding is_eligible select_where
eligible_clips request clips = select_where (is_eligible request) clips

-- `clip["relative_output_path"] or f"…"`
abbrev pub output_path : CompileRequest → Profile → Clip → String
output_path request profile clip = elim clip.relative_output_path [
  | none ↦ concat request.collection_id (concat "/" (concat clip.id (concat "." profile.extension)))
  | some path ↦
      if is_empty path
      then concat request.collection_id (concat "/" (concat clip.id (concat "." profile.extension)))
      else path
]

abbrev pub text_or_empty : Option String → String
text_or_empty none = ""
text_or_empty (some s) = s

-- The job for a clip, the n-th that the request looks at. The validation of a `JobRecord` finds nothing
-- more: its paths have been resolved before, which includes the check of relative paths, and its
-- collection and its attempts are those of a validated request.
unfoldable pub job_for :
    Files → Service → CompileRequest → Profile → (profile_fingerprint : String) → ℕ → Clip → Job
job_for f service request profile profile_fingerprint n clip = record {
  id = f.new_id n;
  kind = JobKind.compile;
  state = JobState.queued;
  progress = record { stage = JobStage.queued; percent = 0; eta_seconds = none };
  created_at = f.created_at n;
  started_at = none;
  finished_at = none;
  error = none;
  collection_id = request.collection_id;
  clip_id = clip.id;
  fingerprint =
      f.job_digest clip.id (text_or_empty clip.metadata.source_fingerprint) profile_fingerprint;
  attempt = 0;
  max_attempts = request.max_attempts;
  cancel_requested = false;
  snapshot = record {
    source_relative_path = clip.relative_source_path;
    output_relative_path = output_path request profile clip;
    source_fingerprint = text_or_empty clip.metadata.source_fingerprint;
    profile_fingerprint = profile_fingerprint;
    duration_ns = clip.duration_ns;
    lead_in_duration_ns = service.lead_in_duration_ns;
    tail_out_duration_ns = service.tail_out_duration_ns;
    has_audio = clip.metadata.has_audio;
  };
  logs = [];
}

-- The output is there and a job for the same work has succeeded.
unfoldable pub is_up_to_date : Files → Database → Clip → (output : String) → Job → Bool
unfolding has_succeeded
is_up_to_date f db clip output job =
    clip.output_available && (f.is_file output && has_succeeded job.fingerprint db)

-- The loop of `enqueue_compile` over the eligible clips, with the bytes that remain
unfoldable pub plan :
    Files
    → Service
    → CompileRequest
    → Profile × String
    → Database
    → ℕ
    → (remaining_bytes : ℕ) → List Clip
    → Result Failure (List Job)
unfolding job_for is_up_to_date
plan f service request details db n remaining_bytes [] = ok []
plan f service request details db n remaining_bytes (clip ∷ clips) =
    let job = job_for f service request details.0 details.1 n clip in
    let size = clip.metadata.size_bytes in
    let skipped = plan f service request details db (suc n) remaining_bytes clips in
    let taken = plan f service request details db (suc n) (remaining_bytes - size) clips in
    f.resolve RootKey.source job.snapshot.source_relative_path
    >> (f.resolve RootKey.compiled job.snapshot.output_relative_path >>= λ output.
        if is_up_to_date f db clip output job
        then skipped
        else if ltb remaining_bytes (size + service.disk_reserve_bytes)
        then err (value_error "insufficient disk space for compilation")
        else taken >>= λ rest. ok (job ∷ rest))

-- The scan that a request asks for
unfoldable pub scan_job : Files → CompileRequest → Job
scan_job f request = record {
  id = f.new_id 0;
  kind = JobKind.scan;
  state = JobState.queued;
  progress = record { stage = JobStage.queued; percent = 0; eta_seconds = none };
  created_at = f.created_at 0;
  started_at = none;
  finished_at = none;
  error = none;
  collection_id = "system";
  clip_id = f.new_id 0;
  fingerprint = f.job_digest (f.new_id 0) "compile-request" "compile-request";
  attempt = 0;
  max_attempts = 3;
  cancel_requested = false;
  snapshot = record {
    source_relative_path = concat "scan/" (concat (f.new_id 0) ".request");
    output_relative_path = concat "scan/" (concat (f.new_id 0) ".result");
    source_fingerprint = "compile-request";
    profile_fingerprint = "compile-request";
    duration_ns = 0;
    lead_in_duration_ns = 2000000000;
    tail_out_duration_ns = 2000000000;
    has_audio = true;
  };
  logs = [];
}

-- A call of the queue: one transaction
abbrev pub submit : Service → List Job → Effect Database Failure (List Job)
submit service jobs db = elim (enqueue_many service.now jobs db) [
  | ok r ↦ pass r.1 r.0
  | err e ↦ raise (from_queue e) db
]

-- The scan before a compilation commits on its own: a raise after it leaves what it wrote.
abbrev pub scan_first : Service → CompileRequest → Effect Database Failure (Unit {0})
scan_first service request db = elim request.strategy [
  | scan_and_compile_changed_or_missing ↦ elim service.scan [
    | none ↦ pass tt db
    | some scan ↦ elim (scan request.collection_id db) [ ok db' ↦ pass tt db' | err e ↦ raise e db ]
  ]
  | _ ↦ pass tt db
]

-- The jobs that `enqueue_compile` makes, or why there are none
unfoldable pub chosen_jobs :
    Files → Service → Catalog → CompileRequest → Database → Result Failure (List Job)
unfolding job_profile plan eligible_clips
chosen_jobs f service catalog request db = do
  details ← job_profile f (options_of service) catalog request.collection_id
  available ← f.free_bytes
  plan f service request details db 0 available (eligible_clips request db.clips)

-- `enqueue_compile`, from the profile on
unfoldable pub enqueue_clips :
    Files → Service → Catalog → CompileRequest → Effect Database Failure (List Job)
unfolding chosen_jobs enqueue_many
enqueue_clips f service catalog request db = elim (chosen_jobs f service catalog request db) [
  | err e ↦ raise e db
  | ok jobs ↦ submit service jobs db
]

abbrev pub active_compilation : Job → Bool
active_compilation r = is_compile r.kind && is_active r.state

-- `enqueue_compile`
unfoldable pub enqueue_compile :
    Files → Service → Catalog → CompileRequest → Effect Database Failure (List Job)
unfolding scan_job enqueue_clips select_where first_by get
enqueue_compile f service catalog request db = elim request.strategy [
  | scan_only ↦ submit service (scan_job f request ∷ []) db
  | _ ↦ elim (first_by claimed_before (select_where active_compilation db.jobs)) [
    | none ↦ resume (λ _. enqueue_clips f service catalog request) (scan_first service request db)
    | some active ↦
        if request.skip_if_processing
        then pass (active ∷ []) db
        else resume (λ _. enqueue_clips f service catalog request) (scan_first service request db)
  ]
]
