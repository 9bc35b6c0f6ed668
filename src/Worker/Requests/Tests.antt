-- ===== src/Worker/Requests/Tests.antt =====
-- A request to compile, over a library with one clip.
use hass_clips_manager.Prelude.{◌≡◌, refl, none, true, [], ◌∷◌}
use hass_clips_manager.Prelude.Tables.{
  find_where, exists_where, select_where, update_where, first_by,
}
use hass_clips_manager.Prelude.Effects.{returned}
use hass_clips_manager.Worker.Database.{Database, Clip, ClipState}
use hass_clips_manager.Worker.Samples.{new_job, clip_row, library, catalog}
use hass_clips_manager.Worker.Requests.{
  CompileRequest, Service, compile_stale_only, enqueue_compile,
}

abbrev stale_clip : Clip
stale_clip = record clip_row { state = ClipState.stale }

abbrev request : CompileRequest
request = record {
  collection_id = "cinema";
  clip_ids = none;
  strategy = compile_stale_only;
  skip_if_processing = true;
  max_attempts = 3;
}

abbrev service : Service
service = record {
  disk_reserve_bytes = 4000;
  lead_in_duration_ns = 2000000000;
  tail_out_duration_ns = 2000000000;
  now = "t";
  scan = none;
}

abbrev before : Database
before = record { jobs = []; clips = stale_clip ∷ []; attempts = [] }

abbrev queued : Database
queued = record { jobs = new_job ∷ []; clips = clip_row ∷ []; attempts = [] }

-- The clip takes 1000 bytes, which leaves the reserve of 4000 of 5000.
compiles : enqueue_compile library service catalog request before ≡ returned queued (new_job ∷ [])
unfolding enqueue_compile find_where exists_where select_where update_where first_by
compiles = refl
