-- ===== src/Integration/Selection/Tests.antt =====
-- The selection at concrete clips.
use hass_clips_manager.Prelude.{
  ◌≡◌, refl, sym, ap, ◌∙◌, inl, inr, true, false, String, none, some, List, [], ◌∷◌, arith, eq_refl,
  is_some,
}
use hass_clips_manager.Prelude.Tables.{select_where, exists_where, find_where, Stored}
use hass_clips_manager.Prelude.Sorting.{sort_by}
use hass_clips_manager.Prelude.Dict.{lookup, insert, sorted_items}
use hass_clips_manager.Prelude.Results.{ok}
use hass_clips_manager.Prelude.Text.{is_empty}
use hass_clips_manager.Integration.Const.{on_exhaustion, sequential, contains}
use hass_clips_manager.Integration.Rounds.{LocalTime, HistoryStore, distinct}
use hass_clips_manager.Integration.History.{select}
use hass_clips_manager.Integration.Selection.{select_clip, is_playable}
use hass_clips_manager.Integration.Availability.{ClipAvailability, SelectRequest, SelectResponse}
use hass_clips_manager.Integration.Selection.Answers.{chosen_described, Describes}
use hass_clips_manager.Integration.Selection.Total.{selection_total}

abbrev clip : String → String → String → ClipAvailability
clip id state path = record {
  id = id;
  collection_id = "cinema";
  state = state;
  relative_output_path = some path;
  duration = 60000000000;
  output_available = true;
  output_duration = some 64000000000;
  relative_source_path = "trailers/summer/a.mp4";
  content_duration = none;
  lead_in_duration = none;
  tail_out_duration = none;
  content_start_offset = none;
  content_end_offset = none;
}

abbrev stale_clip : ClipAvailability
stale_clip = clip "c1" "stale" "cinema/a.mp4"

abbrev ready_clip : ClipAvailability
ready_clip = clip "c2" "ready" "cinema/b.mp4"

abbrev catalog : List ClipAvailability
catalog = stale_clip ∷ ready_clip ∷ []

abbrev unfolded : String → String
unfolded path = path

abbrev uri : String → String
uri path = path

abbrev first_of : List String → String
first_of [] = ""
first_of (x ∷ xs) = x

abbrev request : SelectRequest
request = record {
  collection_id = some "cinema";
  dry_run = false;
  playback_mode = sequential;
  ordered_clip_ids = [];
}

abbrev history : HistoryStore
history = record {
  reset_mode = on_exhaustion;
  reset_time = 0;
  collections = [];
  last_selection = none;
  disk = none;
}

abbrev evening : LocalTime
evening = record {
  date = "2026-09-01";
  yesterday = "2026-08-31";
  time_of_day = 72000000000;
  iso = "2026-09-01T20:00:00+02:00";
}

abbrev second_chosen : SelectResponse
second_chosen = record {
  collection_id = some "cinema";
  clip_id = some "c2";
  relative_output_path = some "cinema/b.mp4";
  media_uri = some "cinema/b.mp4";
  duration_seconds = some 64000000000;
  history_reset = false;
  output_is_stale = false;
  timing = record {
    duration = some 64000000000;
    content_duration = some 64000000000;
    lead_in_duration = some 0;
    tail_out_duration = some 0;
    content_start_offset = some 0;
    content_end_offset = some 64000000000;
  };
}

-- A clip that is ready is chosen before one that is stale and comes first.
ready_before_stale :
    (select_clip unfolded uri first_of evening request catalog history).0 ≡ ok second_chosen
unfolding select_clip select sort_by exists_where select_where find_where insert lookup sorted_items
    distinct
ready_before_stale = refl

chosen_described_example :
    (c : ClipAvailability) × Describes uri catalog "cinema" "c2" second_chosen c
chosen_described_example =
    chosen_described unfolded uri first_of evening request catalog history "cinema" second_chosen
      "c2" refl ready_before_stale refl

catalog_has_ids : (c : ClipAvailability) → Stored c catalog → is_empty c.id ≡ false
catalog_has_ids c (inl e) = ap (λ c. is_empty c.id) (sym e) ∙ refl
catalog_has_ids c (inr (inl e)) = ap (λ c. is_empty c.id) (sym e) ∙ refl
catalog_has_ids c (inr (inr b)) = elim b [ ]

first_among : (x : String) (rest : List String) → contains (x ∷ rest) (first_of (x ∷ rest)) ≡ true
unfolding exists_where
first_among x rest = ground (arith, eq_refl x)

selection_total_example :
    (r : SelectResponse) × ((select_clip unfolded uri first_of evening request catalog history).0
      ≡ ok r)
    × (is_some r.clip_id ≡ exists_where (is_playable "cinema") catalog)
selection_total_example =
    selection_total unfolded uri first_of evening request catalog history "cinema" refl
      catalog_has_ids first_among
