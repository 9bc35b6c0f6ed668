-- ===== src/Integration/History/Loading/Tests.antt =====
-- The playback history at concrete payloads.
use hass_clips_manager.Prelude.{◌≡◌, refl, String, true, false, none, some, List, [], ◌∷◌}
use hass_clips_manager.Prelude.Int.{pos, negsuc}
use hass_clips_manager.Prelude.Tables.{select_where, exists_where}
use hass_clips_manager.Prelude.Json.{Json, integer, text, array, object, array_of, object_of}
use hass_clips_manager.Prelude.Dict.{Dict, lookup, insert}
use hass_clips_manager.Integration.Const.{on_exhaustion, PlaybackMode}
use hass_clips_manager.Integration.Rounds.{LocalTime, distinct}
use hass_clips_manager.Integration.History.{Request, serialized}
use hass_clips_manager.Integration.History.Loading.{
  HistoryService, construct, setup, select_call, normalize,
}
use hass_clips_manager.Integration.History.Loading.Rounds.{IsKept}
use hass_clips_manager.Integration.History.Loading.Runs.{Runs, constructed, selects, Runs-IsKept}
use hass_clips_manager.Integration.History.Loading.Restart.{restart_keeps, stored_json}

abbrev evening : LocalTime
evening = record {
  date = "2026-09-01";
  yesterday = "2026-08-31";
  time_of_day = 72000000000;
  iso = "2026-09-01T20:00:00+02:00";
}

abbrev played_twice : Dict Json
played_twice =
    ("period_start", text "2026-08-30")
    ∷ ("round_number", integer (pos 3))
    ∷ ("played_clip_ids", array (array_of (text "b" ∷ text "a" ∷ text "b" ∷ [])))
    ∷ []

-- A record that repeats a clip, one whose round is negative, and one without an id
abbrev loaded : Json
loaded = object (
    object_of (
      (
        "collections",
        object (
            object_of (
              ("cinema", object (object_of played_twice))
              ∷ ("shorts", object (object_of (("round_number", integer (negsuc 0)) ∷ [])))
              ∷ ("", object (object_of played_twice))
              ∷ [])),
      )
      ∷ []))

reads_the_first :
    normalize loaded
    ≡ (
      "cinema",
      record {
        period_start = "2026-08-30";
        round_number = 3;
        played_clip_ids = "b" ∷ "a" ∷ [];
        last_selected_clip_id = none;
        last_reset_at = none;
        reset_pending = false;
      },
    )
      ∷ []
unfolding normalize lookup insert distinct select_where object_of array_of
reads_the_first = refl

abbrev request : Request
request = record {
  collection_id = "cinema";
  eligible_clip_ids = "a" ∷ "b" ∷ "c" ∷ [];
  dry_run = false;
  playback_mode = PlaybackMode.sequential;
  clip_details = [];
}

abbrev last_of : List String → String
last_of xs = "c"

abbrev service : HistoryService
service = (select_call loaded request last_of evening evening (construct on_exhaustion 0)).1

abbrev runs : Runs service
runs = selects loaded request last_of evening evening refl (constructed on_exhaustion 0)

Runs-IsKept_example : IsKept service.store.collections
Runs-IsKept_example = Runs-IsKept service runs

is_saved : service.store.disk ≡ some (serialized service.store)
unfolding select_call serialized normalize lookup insert distinct select_where exists_where
    object_of array_of
is_saved = refl

restart_keeps_example :
    ((setup true (stored_json service.store.disk) evening (construct on_exhaustion 0)).0 ≡ [])
    × ((j : String)
        → lookup j
            (setup true
              (stored_json service.store.disk)
              evening
              (construct on_exhaustion 0)).1.store.collections
          ≡ lookup j service.store.collections)
    × ((setup true
          (stored_json service.store.disk)
          evening
          (construct on_exhaustion 0)).1.store.last_selection
        ≡ service.store.last_selection)
restart_keeps_example = restart_keeps service true evening 0 runs is_saved
