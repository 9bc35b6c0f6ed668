-- ===== src/Worker/Samples.antt =====
-- Sample rows, settings and files for the tests.
use hass_clips_manager.Prelude.{String, true, false, none, some, [], ◌∷◌, ◌==◌, if◌then◌else◌}
use hass_clips_manager.Prelude.Results.{ok}
use hass_clips_manager.Worker.Database.{Job, JobState, JobStage, JobKind, Snapshot, Clip, ClipState}
use hass_clips_manager.Worker.Jobs.{Profile, Probe, disabled}
use hass_clips_manager.Worker.Library.{Catalog, CompileOptions, Files, Entry}

abbrev pub clip_snapshot : Snapshot
clip_snapshot = record {
  source_relative_path = "trailers/a.mp4";
  output_relative_path = "cinema/a.mp4";
  source_fingerprint = "s";
  profile_fingerprint = "p";
  duration_ns = 60000000000;
  lead_in_duration_ns = 2000000000;
  tail_out_duration_ns = 2000000000;
  has_audio = true;
}

abbrev pub new_job : Job
new_job = record {
  id = "j1";
  kind = JobKind.compile;
  state = JobState.queued;
  progress = record { stage = JobStage.queued; percent = 0; eta_seconds = none };
  created_at = "2026-09-01T10:00:00";
  started_at = none;
  finished_at = none;
  error = none;
  collection_id = "cinema";
  clip_id = "clip";
  fingerprint = "f1";
  attempt = 0;
  max_attempts = 3;
  cancel_requested = false;
  snapshot = clip_snapshot;
  logs = [];
}

abbrev pub clip_row : Clip
clip_row = record {
  id = "clip";
  collection_id = "cinema";
  state = ClipState.pending;
  relative_source_path = "trailers/a.mp4";
  relative_output_path = some "cinema/a.mp4";
  duration_ns = 60000000000;
  output_duration_ns = none;
  output_available = false;
  metadata = record {
    source_fingerprint = some "s";
    profile_fingerprint = some "p";
    output_fingerprint = none;
    has_audio = true;
    size_bytes = 1000;
    timing = record {
      content_duration = none;
      lead_in_duration = none;
      tail_out_duration = none;
      content_start_offset = none;
      content_end_offset = none;
    };
    failed_reason = none;
  };
  updated_at = "t";
}

abbrev pub good_probe : Probe
good_probe = record {
  valid = true;
  duration_ns = 64000000000;
  width = some 1920;
  height = some 1080;
  frame_rate = some 25000000000;
  has_audio = true;
  video_duration_ns = some 64000000000;
  audio_duration_ns = some 64000000000;
  size_bytes = 5000;
}

abbrev pub profile : Profile
profile = record {
  fps = 25;
  width = 1920;
  height = 1080;
  extension = "mp4";
  intro_reference = none;
  outro_reference = none;
  transitions = [];
  audio_required = false;
  loudness = disabled;
  timeout_seconds = 600;
  timeout_seconds_per_minute = 60;
}

abbrev pub catalog : Catalog
catalog = record {
  collections =
      record {
        id = "cinema";
        enabled = true;
        processing_profile_id = "standard";
        source_directory = "trailers";
        compiled_output_prefix = "cinema";
      }
      ∷ [];
  profiles = record { id = "standard"; settings = "{}" } ∷ [];
}

abbrev pub entry : String → Entry
entry relative = record {
  relative = relative;
  path = relative;
  is_symlink = false;
  suffix = ".mp4";
}

abbrev pub margins : CompileOptions
margins = record { lead_in_duration_ns = 2000000000; tail_out_duration_ns = 2000000000 }

-- A library with one file; a compiled file reads as `out`, another as `s`.
abbrev pub library : Files
library = record {
  validate = λ s. ok profile;
  profile_digest = λ p i o m. "p";
  job_digest = λ c s p. "f1";
  resolve = λ k s. ok s;
  fingerprint = λ s. ok (if s == "cinema/a.mp4" then "out" else "s");
  walk = λ s. entry "trailers/a.mp4" ∷ [];
  is_safe = λ s. true;
  exists = λ s. true;
  is_file = λ s. true;
  is_symlink = λ s. false;
  probe = λ s. some good_probe;
  free_bytes = ok 5000;
  new_id = λ n. "j1";
  created_at = λ n. "2026-09-01T10:00:00";
}
