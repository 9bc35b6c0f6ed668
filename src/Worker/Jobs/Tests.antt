-- ===== src/Worker/Jobs/Tests.antt =====
-- A worker over concrete tables, with a file system and an FFmpeg that answer what is written here.
use mathlib.Core.Path.{subst}
use hass_clips_manager.Prelude.{
  ◌≡◌, refl, sym, ap, String, Bool, true, false, none, some, List, [], ◌∷◌, arith,
}
use hass_clips_manager.Prelude.Int.{pos}
use hass_clips_manager.Prelude.Tables.{
  count_where, find_where, exists_where, select_where, update_where, first_by,
}
use hass_clips_manager.Prelude.Text.{split_lines, key_value, last_chars, first_chars}
use hass_clips_manager.Prelude.Results.{ok, ok_injective}
use hass_clips_manager.Prelude.Effects.{Post, final}
use hass_clips_manager.Worker.Database.{
  Database, Job, JobState, JobStage, Clip, ClipState, Timing, Progress,
}
use hass_clips_manager.Worker.Queue
use hass_clips_manager.Worker.Queue.{enqueue_many, claim_next, start_job}
use hass_clips_manager.Worker.Queue.Invariant.{IsConsistent}
use hass_clips_manager.Worker.Queue.History.{enqueue_many-IsConsistent}
use hass_clips_manager.Worker.Jobs.{
  World, Runtime, Outside, Process, Turn, waits, exits, ScanSummary, cancel,
}
use hass_clips_manager.Worker.Samples.{new_job, clip_row, good_probe, profile}
use hass_clips_manager.Worker.Jobs.Progress.{parse_progress}
use hass_clips_manager.Worker.Jobs.Output.{compiled_timing}
use hass_clips_manager.Worker.Jobs.Publish.{ready_clip}
use hass_clips_manager.Worker.Jobs.Bounds.{
  AddsUp, ready_clip-accepted, IsReport, parse_progress-bounds,
}
use hass_clips_manager.Integration.WorkerClip.{check_timing}
use hass_clips_manager.Worker.Jobs.Once.{run_once}
use hass_clips_manager.Worker.Ends.Processes.{IsProperOutside, IsProperProcess}
use hass_clips_manager.Worker.Ends.Upkeep.Pass.{once-Settled, Claims, Passed}

abbrev waiting : World
waiting = record {
  db = record { jobs = new_job ∷ []; clips = clip_row ∷ []; attempts = [] };
  worker_logs = [];
  last_scan = none;
  compiled = [];
  edited = [];
  removed = [];
  clock_reads = 0;
}

abbrev first_turn : Turn
first_turn = record { calls = []; elapsed_ns = 1000000000; stopped = "" }

abbrev good_process : Process
good_process =
    waits first_turn "out_time_us=30000000\nprogress=continue\n"
      (exits first_turn "out_time_us=64000000\nprogress=end\n" "" true)

abbrev bad_process : Process
bad_process = exits first_turn "" "Conversion failed!" false

-- The flag is set before the second turn.
abbrev stopped_process : Process
stopped_process =
    waits first_turn ""
      (exits (record first_turn { calls = cancel "t" "j1" ∷ [] }) "progress=end" "" true)

-- The outside, with the process that it starts
abbrev outside : Process → Outside
outside process = record {
  clock = λ n. "t";
  describe = λ e. "error";
  sanitize = λ s. s;
  int_of = λ s. some (pos 30000000);
  loudness_of = λ s. none;
  lower = λ s. s;
  is_statistics = λ s. false;
  profile_of = λ job. ok profile;
  edit_of = λ job. ok (record { trim_start_ms = 0; trim_end_ms = 1000; crop = none });
  request_of = λ job. ok none;
  is_uuid = λ s. true;
  make_directory = λ s. ok tt;
  remove_directory = λ s. ok tt;
  resolve = λ k s. ok s;
  is_file = λ s. true;
  suffix = λ s. ".mp4";
  probe = λ s. ok good_probe;
  start = λ c. ok process;
  is_within = λ k s. true;
  replace = λ s. ok tt;
  fingerprint = λ s. ok "out";
  scan = λ ids db.
      ok (db, record { added = 0; modified = 0; deleted = 0; invalid = 0; unchanged = 1 });
  describe_scan = λ s. "scan complete";
  temporary_entries = [];
  abandoned_uploads = ok 0;
  describe_cleanup = λ n. "temporary cleanup";
  describe_edit = λ p. "edit complete";
  kind_text = λ job. "other";
}

-- What the tests look at: the jobs' states and flags, the clips' states and the compiled files
abbrev states : List Job → List (JobState × Bool)
states [] = []
states (j ∷ js) = (j.state, j.cancel_requested) ∷ states js

abbrev clip_states : List Clip → List ClipState
clip_states [] = []
clip_states (c ∷ cs) = c.state ∷ clip_states cs

abbrev seen : World → List (JobState × Bool) × List ClipState × List String
seen w = (states w.db.jobs, clip_states w.db.clips, w.compiled)

-- A compilation that goes well
compiles :
    seen (final (run_once (outside good_process) waiting))
    ≡ ((JobState.succeeded, false) ∷ [], ClipState.ready ∷ [], "cinema/a.mp4" ∷ [])
unfolding run_once claim_next find_where exists_where select_where update_where first_by split_lines
    key_value last_chars first_chars Queue.get Queue.update
compiles = refl

-- One that fails is queued again while an attempt is left.
retries :
    seen (final (run_once (outside bad_process) waiting))
    ≡ ((JobState.queued, false) ∷ [], ClipState.pending ∷ [], [])
unfolding run_once claim_next find_where exists_where select_where update_where first_by split_lines
    key_value last_chars first_chars Queue.get Queue.update
retries = refl

-- One that is cancelled while it runs
stops :
    seen (final (run_once (outside stopped_process) waiting))
    ≡ ((JobState.cancelled, true) ∷ [], ClipState.discovered ∷ [], [])
unfolding run_once claim_next find_where exists_where select_where update_where first_by split_lines
    key_value last_chars first_chars Queue.get Queue.update Queue.request_cancel
stops = refl

waiting-IsConsistent : IsConsistent waiting.db
unfolding enqueue_many find_where exists_where select_where update_where first_by count_where
waiting-IsConsistent =
    enqueue_many-IsConsistent "t" (new_job ∷ [])
      (record { jobs = []; clips = clip_row ∷ []; attempts = [] }) (waiting.db, new_job ∷ [])
      (refl, tt) refl
      (record { ids = λ k. omega arith; one_running = omega arith; one_active = λ f. omega arith })

outside-IsProper : IsProperOutside (outside good_process)
outside-IsProper = record {
  processes = λ c p e. subst IsProperProcess (ok_injective good_process p e) (tt, tt);
  scans = λ ids db r e. sym (ap (λ (x : Database × ScanSummary). x.0.jobs) (ok_injective _ r e));
}

once-Settled_example :
    Claims "t" waiting.db (start_job "t" new_job)
    × Post (λ _. ⊥) (Passed (start_job "t" new_job)) (run_once (outside good_process) waiting)
unfolding claim_next find_where exists_where select_where update_where first_by start_job
once-Settled_example =
    once-Settled (outside good_process) (start_job "t" new_job) waiting outside-IsProper
      waiting-IsConsistent refl (record { named = refl; cleaned = refl })

abbrev runtime : Runtime
runtime = record {
  job = new_job;
  source_path = "trailers/a.mp4";
  temporary_output = "j1/output.mp4";
  intro_path = none;
  outro_path = none;
  intro_duration_ns = 0;
  outro_duration_ns = 0;
  intro_has_audio = true;
  outro_has_audio = true;
}

abbrev measured : Timing
measured = record {
  content_duration = some 60000000000;
  lead_in_duration = some 2000000000;
  tail_out_duration = some 2000000000;
  content_start_offset = some 2000000000;
  content_end_offset = some 62000000000;
}

measures : compiled_timing runtime profile good_probe ≡ ok measured
unfolding compiled_timing
measures = refl

ready_clip-accepted_example :
    (check_timing
        (some 64000000000)
        (some 60000000000)
        (some 2000000000)
        (some 2000000000)
        (some 2000000000)
        (some 62000000000)
      ≡ ok tt)
    × AddsUp 64000000000 measured
unfolding ready_clip
ready_clip-accepted_example =
    ready_clip-accepted runtime profile good_probe measured new_job "out" "now" clip_row measures

abbrev half_way : Progress
half_way = record { stage = JobStage.encoding; percent = 50; eta_seconds = some 30000000000 }

reads_half :
    parse_progress (outside good_process) "out_time_us=30000000" 60000000000 ≡ some half_way
unfolding parse_progress split_lines key_value
reads_half = refl

parse_progress-bounds_example :
    IsReport (outside good_process) (split_lines "out_time_us=30000000") 60000000000 half_way
parse_progress-bounds_example =
    parse_progress-bounds (outside good_process) "out_time_us=30000000" 60000000000 half_way
      reads_half
