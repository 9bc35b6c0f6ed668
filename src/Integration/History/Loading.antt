-- ===== src/Integration/History/Loading.antt =====
-- How the playback history is read from storage and set up (history.py). The payload is JSON, so the
-- keys of its objects are texts.
pub mod Whole
pub mod Rounds
pub mod Runs
pub mod Reread
pub mod Restart
mod Tests
use hass_clips_manager.Prelude.{
  ℕ, Bool, true, false, not, ◌&&◌, String, Option, none, some, List, [], ◌∷◌, map, if◌then◌else◌,
}
use hass_clips_manager.Prelude.Int.{ℤ, pos, negsuc}
use hass_clips_manager.Prelude.Tables.{is_nil}
use hass_clips_manager.Prelude.Text.{is_empty}
use hass_clips_manager.Prelude.Json.{
  Json, null, boolean, integer, text, array, object, to_list, to_dict, array_of, object_of, get,
  is_truthy,
}
use hass_clips_manager.Prelude.Dict.{Dict, lookup, insert}
use hass_clips_manager.Prelude.Options.{◌>>=◌}
use hass_clips_manager.Prelude.Results.{Result}
use hass_clips_manager.Integration.Const.{HistoryResetMode, ValueError}
use hass_clips_manager.Integration.Rounds.{
  LocalTime, HistoryRecord, Saved, HistoryStore, HistorySelection, reconcile, distinct,
}
use hass_clips_manager.Integration.History.{
  save, serialized, Request, select, reset, handle_daily_reset,
}

-- What the JSON writer makes of a value that may be `None`
abbrev pub text_or_null : Option String → Json
text_or_null none = null
text_or_null (some s) = text s

-- A record and the whole payload as they are in the file
unfoldable pub record_json : HistoryRecord → Dict Json
record_json r =
    ("period_start", text r.period_start)
    ∷ ("round_number", integer (pos r.round_number))
    ∷ ("played_clip_ids", array (array_of (map text r.played_clip_ids)))
    ∷ ("last_selected_clip_id", text_or_null r.last_selected_clip_id)
    ∷ ("last_reset_at", text_or_null r.last_reset_at)
    ∷ ("reset_pending", boolean r.reset_pending)
    ∷ []

unfoldable pub collections_json : Dict HistoryRecord → Dict Json
unfolding record_json
collections_json = map (λ e. (e.0, object (object_of (record_json e.1))))

unfoldable pub saved_json : Saved → Json
unfolding collections_json
saved_json saved = object (
    object_of (
      ("last_selection", elim saved.last_selection [ none ↦ null | some d ↦ object (object_of d) ])
      ∷ ("collections", object (object_of (collections_json saved.collections)))
      ∷ []))

-- The checks of `_normalize` on the fields of a record
abbrev pub text_field : Json → Option String
text_field (text s) = some s
text_field _ = none

abbrev pub round_field : Json → Option ℕ
round_field (integer (pos ℕ.zero)) = none
round_field (integer (pos n)) = some n
round_field _ = none

unfoldable pub all_ids : List Json → Option (List String)
all_ids [] = some []
all_ids (text s ∷ vs) =
    let rest = all_ids vs in
    if is_empty s then none else (elim rest [ none ↦ none | some ids ↦ some (s ∷ ids) ])
all_ids (_ ∷ vs) = none

unfoldable pub ids_field : Json → Option (List String)
unfolding all_ids to_list
ids_field (array vs) = all_ids (to_list vs)
ids_field _ = none

-- A text or null
abbrev pub optional_text_field : Json → Option (Option String)
optional_text_field null = some none
optional_text_field (text s) = some (some s)
optional_text_field _ = none

-- `record.get("reset_pending", False)`, as a truth value
unfoldable pub pending_field : Dict Json → Bool
pending_field raw = elim (lookup "reset_pending" raw) [ none ↦ false | some v ↦ is_truthy v ]

-- One record of `_normalize`, or nothing where it is skipped. No id is empty here, so `distinct` only
-- drops repeats, as `dict.fromkeys` does.
unfoldable pub record_of : Dict Json → Option HistoryRecord
unfolding ids_field distinct pending_field
record_of raw = do
  period ← text_field (get "period_start" raw)
  number ← round_field (get "round_number" raw)
  played ← ids_field (get "played_clip_ids" raw)
  last_selected ← optional_text_field (get "last_selected_clip_id" raw)
  last_reset ← optional_text_field (get "last_reset_at" raw)
  some (record {
    period_start = period;
    round_number = number;
    played_clip_ids = distinct played;
    last_selected_clip_id = last_selected;
    last_reset_at = last_reset;
    reset_pending = pending_field raw;
  })

abbrev pub record_at : String → Json → Option HistoryRecord
record_at id (object vs) = if is_empty id then none else record_of (to_dict vs)
record_at id _ = none

-- The loop of `_normalize`
unfoldable pub normalize_each : Dict Json → Dict HistoryRecord → Dict HistoryRecord
unfolding record_of to_dict
normalize_each [] d = d
normalize_each ((id, raw) ∷ rest) d =
    normalize_each rest (elim (record_at id raw) [ none ↦ d | some r ↦ insert id r d ])

-- `_normalize`
unfoldable pub normalize : Json → Dict HistoryRecord
unfolding normalize_each to_dict
normalize (object payload) = elim (get "collections" (to_dict payload)) [
  | object raw ↦ normalize_each (to_dict raw) []
  | _ ↦ []
]
normalize _ = []

-- `loaded["last_selection"]`, where it is an object
unfoldable pub loaded_selection : Json → Option (Dict Json)
unfolding to_dict
loaded_selection (object payload) = elim (get "last_selection" (to_dict payload)) [
  | object d ↦ some (to_dict d)
  | _ ↦ none
]
loaded_selection _ = none

-- A `PlaybackHistoryStore` from its construction on: `_initialized` and the rest
pub record HistoryService : Type 0 where
  pub initialized : Bool
  pub store : HistoryStore

-- What `async_setup` takes from storage
unfoldable pub load : Json → HistoryStore → HistoryStore
unfolding normalize loaded_selection
load loaded s = record s {
  collections = normalize loaded;
  last_selection = elim (loaded_selection loaded) [ none ↦ s.last_selection | some d ↦ some d ];
}

-- `self._reconcile(now) if reconcile else ()`, with the collections after it
unfoldable pub reconcile_if : Bool → LocalTime → HistoryStore → Dict HistoryRecord × List String
unfolding reconcile
reconcile_if true now s = reconcile s now
reconcile_if false now s = (s.collections, [])

-- `async_setup`, of what storage has. The listener that it registers with Home Assistant is its last
-- step and changes none of this.
unfoldable pub setup : Bool → Json → LocalTime → HistoryService → List String × HistoryService
unfolding load reconcile_if serialized
setup should_reconcile loaded now v =
    let fresh = load loaded v.store in
    let (collections, ids) = reconcile_if should_reconcile now fresh in
    let s = record fresh { collections = collections } in
    if v.initialized
    then ([], v)
    else (ids, record { initialized = true; store = if is_nil ids then s else save s })

-- The public calls set the store up first, each with its own reading of the clock: `async_select`
unfoldable pub select_call :
    Json
    → Request
    → (List String → String)
    → (at_setup now : LocalTime) → HistoryService
    → Result ValueError HistorySelection × HistoryService
unfolding setup select
select_call loaded q chooser at_setup now v =
    let v' = (setup (not q.dry_run) loaded at_setup v).1 in
    let (answer, s) = select q chooser now v'.store in (answer, record v' { store = s })

-- `async_reset`
unfoldable pub reset_call :
    Json
    → Option String
    → (at_setup now : LocalTime) → HistoryService
    → List String × HistoryService
unfolding setup reset
reset_call loaded collection_id at_setup now v =
    let v' = (setup true loaded at_setup v).1 in
    let (ids, s) = reset collection_id now v'.store in (ids, record v' { store = s })

-- `async_handle_daily_reset`, of an aware time
unfoldable pub daily_call :
    Json → (at_setup now : LocalTime) → HistoryService → List String × HistoryService
unfolding setup handle_daily_reset
daily_call loaded at_setup now v =
    let v' = (setup true loaded at_setup v).1 in
    let (ids, s) = handle_daily_reset now v'.store in (ids, record v' { store = s })

-- `PlaybackHistoryStore.__init__`
abbrev pub construct : HistoryResetMode → ℕ → HistoryService
construct reset_mode reset_time = record {
  initialized = false;
  store = record {
    reset_mode = reset_mode;
    reset_time = reset_time;
    collections = [];
    last_selection = none;
    disk = none;
  };
}
