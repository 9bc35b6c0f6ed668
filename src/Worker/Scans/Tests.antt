-- ===== src/Worker/Scans/Tests.antt =====
-- Scans of a library with one file.
use hass_clips_manager.Prelude.{◌≡◌, refl, if◌then◌else◌, nat_eq, none, some, true, [], ◌∷◌}
use hass_clips_manager.Prelude.Tables.{
  count_where, find_where, exists_where, select_where, update_where,
}
use hass_clips_manager.Prelude.Results.{ok}
use hass_clips_manager.Worker.Database.{Job, Clip, ClipState, Timing}
use hass_clips_manager.Worker.Jobs.{Runtime}
use hass_clips_manager.Worker.Jobs.Output.{compiled_timing}
use hass_clips_manager.Worker.Jobs.Publish.{ready_clip}
use hass_clips_manager.Worker.Library.{Source, Files}
use hass_clips_manager.Worker.Requests.{CompileRequest, Service, compile_stale_only, job_for}
use hass_clips_manager.Worker.Samples.{
  new_job, clip_row, good_probe, profile, library, margins, catalog,
}
use hass_clips_manager.Worker.Scans.{Counts, scan}
use hass_clips_manager.Worker.Sources.{
  Seen, keeps, next_state, retain_output_timing, probed_metadata,
}
use hass_clips_manager.Worker.Scans.Current.{IsPublished, compiled_stays_ready}

abbrev no_counts : Counts
no_counts = record { added = 0; modified = 0; deleted = 0; invalid = 0; unchanged = 0 }

abbrev cinema : Source
cinema = record {
  id = "cinema";
  enabled = true;
  processing_profile_id = "standard";
  source_directory = "trailers";
  compiled_output_prefix = "cinema";
}

-- A row whose file is gone
abbrev lost_clip : Clip
lost_clip = record clip_row { id = "lost"; relative_source_path = "trailers/b.mp4" }

abbrev scanned_clip : Clip
scanned_clip = record clip_row {
  duration_ns = 64000000000;
  metadata = record clip_row.metadata { size_bytes = 5000 };
  updated_at = "now";
}

abbrev marked_clip : Clip
marked_clip = record lost_clip { state = ClipState.deleted; updated_at = "now" }

abbrev counted : Counts
counted = record { added = 0; modified = 0; deleted = 1; invalid = 0; unchanged = 1 }

scans_all :
    scan library margins catalog "/source" "now" none (clip_row ∷ lost_clip ∷ [])
    ≡ ok (scanned_clip ∷ marked_clip ∷ [], counted)
unfolding scan find_where exists_where select_where update_where count_where
scans_all = refl

abbrev file : Seen
file = record {
  collection_id = "cinema";
  relative = "trailers/a.mp4";
  fingerprint = "s";
  profile_fingerprint = "p";
  probe = some good_probe;
  output = "cinema/j1.mp4";
  new_id = "j1";
  now = "now";
}

abbrev runtime : Runtime
runtime = record {
  job = new_job;
  source_path = "trailers/a.mp4";
  temporary_output = "j1/output.mp4";
  intro_path = none;
  outro_path = none;
  intro_duration_ns = 0;
  outro_duration_ns = 0;
  intro_has_audio = true;
  outro_has_audio = true;
}

abbrev measured : Timing
measured = record {
  content_duration = some 60000000000;
  lead_in_duration = some 2000000000;
  tail_out_duration = some 2000000000;
  content_start_offset = some 2000000000;
  content_end_offset = some 62000000000;
}

abbrev compiled : Clip
compiled = ready_clip new_job good_probe measured "out" "now" clip_row

compiled-IsPublished : IsPublished library compiled "out"
unfolding ready_clip
compiled-IsPublished = record {
  path = "cinema/a.mp4";
  at = refl;
  named = refl;
  file = "cinema/a.mp4";
  resolved = refl;
  plain = refl;
  there = refl;
  digest = refl;
}

measures : compiled_timing runtime profile good_probe ≡ ok measured
unfolding compiled_timing
measures = refl

compiled_stays_ready_example :
    let kept = retain_output_timing library (probed_metadata file) compiled in
    (next_state file compiled ≡ (ClipState.ready, keeps))
    × (kept.timing ≡ measured)
    × (kept.output_fingerprint ≡ some "out")
compiled_stays_ready_example =
    compiled_stays_ready library file runtime profile new_job good_probe measured "out" "now"
      clip_row measures compiled-IsPublished refl refl

-- A digest that tells the usual margins from others, and a service with a shorter lead-in
abbrev telling : Files
telling = record library {
  profile_digest = λ p i o m. if nat_eq m.lead_in_duration_ns 2000000000 then "p" else "q";
}

abbrev request : CompileRequest
request = record {
  collection_id = "cinema";
  clip_ids = none;
  strategy = compile_stale_only;
  skip_if_processing = true;
  max_attempts = 3;
}

abbrev short_service : Service
short_service = record {
  disk_reserve_bytes = 4000;
  lead_in_duration_ns = 1000000000;
  tail_out_duration_ns = 2000000000;
  now = "t";
  scan = none;
}

abbrev short_job : Job
short_job = job_for telling short_service request profile "q" 0 clip_row
