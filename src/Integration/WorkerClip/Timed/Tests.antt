-- ===== src/Integration/WorkerClip/Timed/Tests.antt =====
-- A payload that is accepted, and one whose bounds contradict each other.
use hass_clips_manager.Prelude.{◌≡◌, refl, ℕ, String, true, some, [], ◌∷◌}
use hass_clips_manager.Prelude.Int.{pos}
use hass_clips_manager.Prelude.Dict.{Dict, lookup}
use hass_clips_manager.Prelude.Results.{ok, err}
use hass_clips_manager.Integration.Availability.{ClipAvailability, selection_timing}
use hass_clips_manager.Integration.WorkerClip.{
  Value, boolean, number, text, from_dict, inconsistent,
}
use hass_clips_manager.Integration.WorkerClip.Timed.{accepted_is_timed, Bounded}

abbrev payload : ℕ → Dict Value
payload end =
    ("id", text "c1")
    ∷ ("collection_id", text "cinema")
    ∷ ("state", text "ready")
    ∷ ("relative_output_path", text "cinema/a.mp4")
    ∷ ("relative_source_path", text "trailers/a.mp4")
    ∷ ("duration_seconds", number (pos 60000000000))
    ∷ ("output_duration_seconds", number (pos 64000000000))
    ∷ ("content_duration_seconds", number (pos 60000000000))
    ∷ ("lead_in_duration_seconds", number (pos 2000000000))
    ∷ ("tail_out_duration_seconds", number (pos 2000000000))
    ∷ ("content_start_offset_seconds", number (pos 2000000000))
    ∷ ("content_end_offset_seconds", number (pos end))
    ∷ ("output_available", boolean true)
    ∷ []

abbrev no_text : Value → String
no_text v = ""

abbrev clip : ClipAvailability
clip = record {
  id = "c1";
  collection_id = "cinema";
  state = "ready";
  relative_output_path = some "cinema/a.mp4";
  duration = 60000000000;
  output_available = true;
  output_duration = some 64000000000;
  relative_source_path = "trailers/a.mp4";
  content_duration = some 60000000000;
  lead_in_duration = some 2000000000;
  tail_out_duration = some 2000000000;
  content_start_offset = some 2000000000;
  content_end_offset = some 62000000000;
}

accepts_clip : from_dict no_text (payload 62000000000) ≡ ok clip
unfolding from_dict lookup
accepts_clip = refl

refuses_late_end : from_dict no_text (payload 65000000000) ≡ err inconsistent
unfolding from_dict lookup
refuses_late_end = refl

accepted_is_timed_example : Bounded (selection_timing clip)
accepted_is_timed_example = accepted_is_timed no_text (payload 62000000000) clip accepts_clip
