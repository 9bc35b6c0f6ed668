-- ===== src/Integration/Availability.antt =====
-- Clips as the Worker lists them, and requests and responses of the selection (selection.py).
use hass_clips_manager.Prelude.{
  ℕ, Bool, false, ◌&&◌, not, String, Option, none, some, List, if◌then◌else◌, is_some,
}
use hass_clips_manager.Prelude.Tables.{is_nil}
use hass_clips_manager.Prelude.Text.{is_empty}
use hass_clips_manager.Prelude.Results.{Result, ok, ◌>>=◌, ◌>>◌, raise_if}
use hass_clips_manager.Integration.Const.{
  PlaybackMode, is_custom, ValueError, missing_collection, custom_needs_order, order_needs_custom,
  normalize_clip_order,
}

-- `ClipAvailability`
pub record ClipAvailability : Type 0 where
  pub id : String
  pub collection_id : String
  pub state : String
  pub relative_output_path : Option String
  pub duration : ℕ
  pub output_available : Bool
  pub output_duration : Option ℕ
  pub relative_source_path : String
  pub content_duration : Option ℕ
  pub lead_in_duration : Option ℕ
  pub tail_out_duration : Option ℕ
  pub content_start_offset : Option ℕ
  pub content_end_offset : Option ℕ

-- `SelectRequest`
pub record SelectRequest : Type 0 where
  pub collection_id : Option String
  pub dry_run : Bool
  pub playback_mode : PlaybackMode
  pub ordered_clip_ids : List String

abbrev pub is_blank : Option String → Bool
is_blank none = false
is_blank (some s) = is_empty s

-- `SelectRequest.__post_init__`
unfoldable pub check_request : SelectRequest → Result ValueError SelectRequest
check_request q = do
  raise_if (is_blank q.collection_id) missing_collection
  ordered ← normalize_clip_order q.ordered_clip_ids
  raise_if (is_custom q.playback_mode && is_nil ordered) custom_needs_order
  raise_if (not (is_custom q.playback_mode) && not (is_nil ordered)) order_needs_custom
  ok (record q { ordered_clip_ids = ordered })

-- What `_selection_timing` returns
pub record Timing : Type 0 where
  pub duration : Option ℕ
  pub content_duration : Option ℕ
  pub lead_in_duration : Option ℕ
  pub tail_out_duration : Option ℕ
  pub content_start_offset : Option ℕ
  pub content_end_offset : Option ℕ

abbrev pub no_timing : Timing
no_timing = record {
  duration = none;
  content_duration = none;
  lead_in_duration = none;
  tail_out_duration = none;
  content_start_offset = none;
  content_end_offset = none;
}

abbrev pub is_timed : ClipAvailability → Bool
is_timed c =
    is_some c.content_duration
    && (is_some c.lead_in_duration
        && (is_some c.tail_out_duration
            && (is_some c.content_start_offset && is_some c.content_end_offset)))

-- `_selection_timing`
unfoldable pub selection_timing : ClipAvailability → Timing
selection_timing c = elim c.output_duration [
  | none ↦ no_timing
  | some d ↦
      if is_timed c
      then record {
        duration = some d;
        content_duration = c.content_duration;
        lead_in_duration = c.lead_in_duration;
        tail_out_duration = c.tail_out_duration;
        content_start_offset = c.content_start_offset;
        content_end_offset = c.content_end_offset;
      }
      else record {
        duration = some d;
        content_duration = some d;
        lead_in_duration = some 0;
        tail_out_duration = some 0;
        content_start_offset = some 0;
        content_end_offset = some d;
      }
]

-- `SelectResponse`; `duration_seconds` is a field of its own.
pub record SelectResponse : Type 0 where
  pub collection_id : Option String
  pub clip_id : Option String
  pub relative_output_path : Option String
  pub media_uri : Option String
  pub duration_seconds : Option ℕ
  pub history_reset : Bool
  pub output_is_stale : Bool
  pub timing : Timing

abbrev pub no_clip : Option String → Bool → SelectResponse
no_clip collection_id was_reset = record {
  collection_id = collection_id;
  clip_id = none;
  relative_output_path = none;
  media_uri = none;
  duration_seconds = none;
  history_reset = was_reset;
  output_is_stale = false;
  timing = no_timing;
}
