-- ===== src/Worker/Jobs.antt =====
-- What the compilation worker reads and writes (jobs.py, probe.py, profile_validation.py): the state
-- that it changes, and what it asks of the outside. A duration is in nanoseconds, a frame rate that was
-- probed in billionths of a frame per second.
pub mod Outcome
pub mod Progress
pub mod Loop
pub mod Output
pub mod Compile
pub mod Phases
pub mod Publish
pub mod Maintenance
pub mod Once
pub mod Bounds
mod Tests
use hass_clips_manager.Prelude.{ℕ, Bool, true, false, String, Option, List, ◌++◌}
use hass_clips_manager.Prelude.Int.{ℤ}
use hass_clips_manager.Prelude.Results.{Result}
use hass_clips_manager.Prelude.Effects.{Effect}
use hass_clips_manager.Worker.Database.{Database, Job}
use hass_clips_manager.Worker.Queue.{QueueError}

-- The exceptions that a run meets: those of the queue, the `ValueError`s that the source raises, and
-- what the calls of the outside raise.
pub data Failure : Type 0 where
  from_queue : QueueError → Failure
  value_error : String → Failure
  outside_error : String → Failure

-- `MediaProbeResult`
pub record Probe : Type 0 where
  pub valid : Bool
  pub duration_ns : ℕ
  pub width : Option ℕ
  pub height : Option ℕ
  pub frame_rate : Option ℕ
  pub has_audio : Bool
  pub video_duration_ns : Option ℕ
  pub audio_duration_ns : Option ℕ
  pub size_bytes : ℕ

-- `TwoPassLoudness`, by its `final_mix_normalization`, and `DisabledLoudness`
pub data LoudnessMode : Type 0 where
  two_pass : Bool → LoudnessMode
  disabled : LoudnessMode

-- The settings of a `ProcessingProfile` that the worker itself reads
pub record Profile : Type 0 where
  pub fps : ℕ
  pub width : ℕ
  pub height : ℕ
  pub extension : String
  pub intro_reference : Option String
  pub outro_reference : Option String
  pub transitions : List ℕ
  pub audio_required : Bool
  pub loudness : LoudnessMode
  pub timeout_seconds : ℕ
  pub timeout_seconds_per_minute : ℕ

-- What `_runtime_job` adds to a job
pub record Runtime : Type 0 where
  pub job : Job
  pub source_path : String
  pub temporary_output : String
  pub intro_path : Option String
  pub outro_path : Option String
  pub intro_duration_ns : ℕ
  pub outro_duration_ns : ℕ
  pub intro_has_audio : Bool
  pub outro_has_audio : Bool

pub data Segment : Type 0 where
  clip intro outro : Segment

-- The five numbers that a loudness analysis prints, in billionths
pub record Loudness : Type 0 where
  pub input_i : ℤ
  pub input_tp : ℤ
  pub input_lra : ℤ
  pub input_thresh : ℤ
  pub target_offset : ℤ

-- The trim of an edit, in milliseconds, and whether it crops
pub record Edit : Type 0 where
  pub trim_start_ms : ℕ
  pub trim_end_ms : ℕ
  pub crop : Option String

-- The command lines, by the call of the builder that makes them
pub data Command : Type 0 where
  segment_analysis : Segment → Runtime → Command
  composition : List (Segment × Loudness) → Runtime → Command
  final_analysis : Runtime → Command
  final_normalization : Loudness → Runtime → Command
  encode : Runtime → Command
  edit : (source output : String) → Edit → Command

-- What another thread asks of the queue
pub data Call : Type 0 where
  cancel : (now job_id : String) → Call
  submit : (now : String) → List Job → Call

-- One turn of the loop of `_run_process`: the calls that other threads made before it, the time since
-- the process began, and what the process prints if it is stopped in it
pub record Turn : Type 0 where
  pub calls : List Call
  pub elapsed_ns : ℕ
  pub stopped : String

-- A process, as `communicate` shows it turn by turn: it prints a part and is not done, or it is done, and
-- whether its return code is 0. A process that hangs has turns up to and past the deadline.
pub data Process : Type 0 where
  waits : Turn → String → Process → Process
  exits : Turn → (stdout stderr : String) → Bool → Process

pub data Level : Type 0 where
  info warning error : Level

-- A row of `worker_logs`
pub record Log : Type 0 where
  pub timestamp : String
  pub level : Level
  pub message : String
  pub job_id : String

-- `ScanSummary`
pub record ScanSummary : Type 0 where
  pub added : ℕ
  pub modified : ℕ
  pub deleted : ℕ
  pub invalid : ℕ
  pub unchanged : ℕ

-- The row `last_scan` of `worker_status`
pub record ScanStatus : Type 0 where
  pub collection_ids : Option (List String)
  pub summary : ScanSummary
  pub completed_at : String
  pub updated_at : String

-- What a run changes: the tables, the files that it has replaced under the compiled root and under the
-- source root, the temporary directories that it has removed, and how often it has read the clock
pub record World : Type 0 where
  pub db : Database
  pub worker_logs : List Log
  pub last_scan : Option ScanStatus
  pub compiled : List String
  pub edited : List String
  pub removed : List String
  pub clock_reads : ℕ

pub data RootKey : Type 0 where
  source assets compiled : RootKey

-- What a run asks of the outside: the clock, the file system, FFmpeg and FFprobe, JSON and the
-- validation of settings.
pub record Outside : Type 0 where
  pub clock : ℕ → String
  pub describe : Failure → String
  pub sanitize : String → String
  pub int_of : String → Option ℤ
  pub loudness_of : String → Option Loudness
  pub lower : String → String
  pub is_statistics : String → Bool
  pub profile_of : Job → Result Failure Profile
  pub edit_of : Job → Result Failure Edit
  pub request_of : Job → Result Failure (Option (List String))
  pub is_uuid : String → Bool
  pub make_directory : String → Result Failure (Unit {0})
  pub remove_directory : String → Result Failure (Unit {0})
  pub resolve : RootKey → String → Result Failure String
  pub is_file : String → Bool
  pub suffix : String → String
  pub probe : String → Result Failure Probe
  pub start : Command → Result Failure Process
  pub is_within : RootKey → String → Bool
  pub replace : String → Result Failure (Unit {0})
  pub fingerprint : String → Result Failure String
  pub scan : Option (List String) → Database → Result Failure (Database × ScanSummary)
  pub describe_scan : ScanSummary → String
  pub temporary_entries : List (String × Bool)
  pub abandoned_uploads : Result Failure ℕ
  pub describe_cleanup : ℕ → String
  pub describe_edit : Probe → String
  pub kind_text : Job → String

abbrev pub Run : Type 0 → Type 0
Run A = Effect World Failure A
