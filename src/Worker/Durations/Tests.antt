-- ===== src/Worker/Durations/Tests.antt =====
-- The recovery of durations at a concrete row.
use hass_clips_manager.Prelude.{◌≡◌, refl, true, false, none, some, [], ◌∷◌}
use hass_clips_manager.Prelude.Tables.{find_where, update_where}
use hass_clips_manager.Prelude.Dict.{lookup, insert, delete}
use hass_clips_manager.Prelude.Results.{ok}
use hass_clips_manager.Worker.Database.{Clip, ClipState}
use hass_clips_manager.Worker.Samples.{clip_row}
use hass_clips_manager.Worker.Jobs.{Probe}
use hass_clips_manager.Worker.Durations.{
  Stat, Encounter, Durations, ensure, ensure_many, set_duration,
}
use hass_clips_manager.Worker.Durations.Careful.{IsHarmless, ensure-IsHarmless}

abbrev row : Clip
row = record clip_row { state = ClipState.ready; output_available = true }

abbrev stat : Stat
stat = record { inode = 7; size = 1000; modified_ns = 5 }

abbrev measured : Probe
measured = record {
  valid = true;
  duration_ns = 64000000000;
  width = some 1920;
  height = some 1080;
  frame_rate = none;
  has_audio = true;
  video_duration_ns = none;
  audio_duration_ns = none;
  size_bytes = 1000;
}

abbrev quiet : Encounter
quiet = record {
  asked = 10;
  entered = 11;
  is_locked = false;
  throttle_read = 12;
  throttle_set = 13;
  started = 14;
  is_plain_file = λ path. ok true;
  before = ok stat;
  probe = ok measured;
  after = ok stat;
  is_finite = true;
  meanwhile = λ clips. clips;
}

-- The file is replaced while it is probed.
abbrev replaced : Encounter
replaced = record quiet { after = ok (record stat { inode = 8 }) }

-- Another connection touches the row while the file is probed.
abbrev touched : Encounter
touched = record quiet {
  meanwhile = update_where (λ _. true) (λ c. record c { updated_at = "later" });
}

abbrev store : Durations
store = record { clips = row ∷ []; retry_after = [] }

finds_the_duration : (ensure none quiet row store).0 ≡ some (set_duration 64000000000 row)
unfolding ensure find_where update_where lookup insert delete
finds_the_duration = refl

waits_a_minute :
    (ensure none replaced row store).1
    ≡ record { clips = row ∷ []; retry_after = ("clip", 60000000013) ∷ [] }
unfolding ensure find_where update_where lookup insert delete
waits_a_minute = refl

does_not_probe_again :
    (ensure none quiet row (ensure none replaced row store).1).1
    ≡ (ensure none replaced row store).1
unfolding ensure find_where update_where lookup insert delete
does_not_probe_again = refl

keeps_a_new_row : (ensure none touched row store).1.clips ≡ record row { updated_at = "later" } ∷ []
unfolding ensure find_where update_where lookup insert delete
keeps_a_new_row = refl

one_after_another :
    (ensure_many 10 ((quiet, row) ∷ (quiet, row) ∷ []) store).0
    ≡ some (set_duration 64000000000 row) ∷ some (set_duration 64000000000 row) ∷ []
unfolding ensure_many ensure find_where update_where lookup insert delete
one_after_another = refl

ensure-IsHarmless_example : IsHarmless row.id quiet store (ensure none quiet row store).1
ensure-IsHarmless_example = ensure-IsHarmless none quiet row store
