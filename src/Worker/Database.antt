-- ===== src/Worker/Database.antt =====
-- The rows of the Worker's SQLite tables that jobs and clips live in (database.py, jobs.py,
-- models.py). Texts that the source compares are texts; times that it adds up are nanoseconds.
use hass_clips_manager.Prelude.{ℕ, Bool, true, false, Option, List, String}

-- `JobState`
pub data JobState : Type 0 where
  queued running succeeded failed cancelled : JobState

-- `JobStage`
pub data JobStage : Type 0 where
  queued encoding validating publishing complete cancelled failed : JobStage

-- `JobRecord.kind`, a text in the source; `other` is any text that no test names.
pub data JobKind : Type 0 where
  compile scan cleanup edit other : JobKind

-- `ClipState`
pub data ClipState : Type 0 where
  discovered invalid pending compiling ready failed stale deleted : ClipState

-- `JobProgress`
pub record Progress : Type 0 where
  pub stage : JobStage
  pub percent : ℕ
  pub eta_seconds : Option ℕ

-- The part of a job that is written once and kept as JSON in the column `payload`.
pub record Snapshot : Type 0 where
  pub source_relative_path : String
  pub output_relative_path : String
  pub source_fingerprint : String
  pub profile_fingerprint : String
  pub duration_ns : ℕ
  pub lead_in_duration_ns : ℕ
  pub tail_out_duration_ns : ℕ
  pub has_audio : Bool

-- `JobRecord`, and a row of `jobs`
pub record Job : Type 0 where
  pub id : String
  pub kind : JobKind
  pub state : JobState
  pub progress : Progress
  pub created_at : String
  pub started_at : Option String
  pub finished_at : Option String
  pub error : Option String
  pub collection_id : String
  pub clip_id : String
  pub fingerprint : String
  pub attempt : ℕ
  pub max_attempts : ℕ
  pub cancel_requested : Bool
  pub snapshot : Snapshot
  pub logs : List String

-- The measured bounds of a compiled file, keys of a clip's metadata
pub record Timing : Type 0 where
  pub content_duration : Option ℕ
  pub lead_in_duration : Option ℕ
  pub tail_out_duration : Option ℕ
  pub content_start_offset : Option ℕ
  pub content_end_offset : Option ℕ

-- The keys of a clip's JSON metadata that the code reads
pub record Metadata : Type 0 where
  pub source_fingerprint : Option String
  pub profile_fingerprint : Option String
  pub output_fingerprint : Option String
  pub has_audio : Bool
  pub size_bytes : ℕ
  pub timing : Timing
  pub failed_reason : Option String

-- A row of `clips`
pub record Clip : Type 0 where
  pub id : String
  pub collection_id : String
  pub state : ClipState
  pub relative_source_path : String
  pub relative_output_path : Option String
  pub duration_ns : ℕ
  pub output_duration_ns : Option ℕ
  pub output_available : Bool
  pub metadata : Metadata
  pub updated_at : String

-- A row of `job_attempts`
pub record Attempt : Type 0 where
  pub job_id : String
  pub attempt : ℕ
  pub state : JobState
  pub started_at : String
  pub finished_at : Option String

pub record Database : Type 0 where
  pub jobs : List Job
  pub clips : List Clip
  pub attempts : List Attempt

-- Tests on states that the SQL and Python conditions make
abbrev pub is_queued : JobState → Bool
is_queued JobState.queued = true
is_queued _ = false

abbrev pub is_running : JobState → Bool
is_running JobState.running = true
is_running _ = false

abbrev pub is_succeeded : JobState → Bool
is_succeeded JobState.succeeded = true
is_succeeded _ = false

-- `state IN ('queued','running')`
abbrev pub is_active : JobState → Bool
is_active JobState.queued = true
is_active JobState.running = true
is_active _ = false

abbrev pub is_compile : JobKind → Bool
is_compile JobKind.compile = true
is_compile _ = false
