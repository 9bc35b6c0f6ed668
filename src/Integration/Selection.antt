-- ===== src/Integration/Selection.antt =====
-- The choice of the next clip from what the Worker has compiled (selection.py). `casefold` is Python's,
-- and the builder of media URIs is an argument, as it is in the source. Seconds are nanoseconds here:
-- they are passed on and not computed with.
pub mod Candidates
pub mod Answers
pub mod Total
mod Tests
use Prim.Native.Char.{code}
use hass_clips_manager.Prelude.{
  ℕ, Bool, true, false, ◌||◌, ◌&&◌, not, String, Option, none, some, List, [], ◌∷◌, ◌++◌, map,
  if◌then◌else◌, ◌==◌, nat_eq, is_some,
}
use hass_clips_manager.Prelude.Order.{str_lt}
use hass_clips_manager.Prelude.Tables.{select_where, exists_where, find_where, is_nil}
use hass_clips_manager.Prelude.Sorting.{sort_by}
use hass_clips_manager.Prelude.Text.{is_empty, codes}
use hass_clips_manager.Prelude.Int.{pos}
use hass_clips_manager.Prelude.Json.{Json, null, float, text}
use hass_clips_manager.Prelude.Dict.{Dict, lookup, insert}
use hass_clips_manager.Prelude.Results.{Result, ok, err, ◌>>=◌, ◌>>◌, raise_if}
use hass_clips_manager.Integration.Const.{
  PlaybackMode, random, sequential, custom, is_random, is_custom, ValueError, missing_collection,
  custom_needs_order, order_needs_custom, normalize_clip_order, contains,
}
use hass_clips_manager.Integration.Rounds.{LocalTime, HistoryStore, HistorySelection}
use hass_clips_manager.Integration.History.{Request, select}
use hass_clips_manager.Integration.Availability.{
  ClipAvailability, SelectRequest, is_blank, check_request, Timing, no_timing, is_timed,
  selection_timing, SelectResponse, no_clip,
}

abbrev pub has_output : ClipAvailability → Bool
has_output c = elim c.relative_output_path [ none ↦ false | some path ↦ not (is_empty path) ]

unfoldable pub is_playable : String → ClipAvailability → Bool
is_playable collection_id c =
    (c.collection_id == collection_id)
    && (c.output_available && (has_output c && not (c.state == "deleted")))

abbrev pub is_ready : ClipAvailability → Bool
is_ready c = c.state == "ready"

-- `ready or playable`
unfoldable pub ready_or_playable : String → List ClipAvailability → List ClipAvailability
unfolding is_playable
ready_or_playable collection_id available =
    let playable = select_where (is_playable collection_id) available in
    let ready = select_where is_ready playable in if is_nil ready then playable else ready

-- `rsplit("/", 1)[-1]`
pub base_name : String → String
base_name String.[] = ""
base_name (String.◌∷◌ c s) =
    let rest = base_name s in
    if exists_where (nat_eq 47) (codes s)
    then rest
    else if nat_eq 47 (code c)
    then s
    else String.◌∷◌ c s

abbrev pub path_of : ClipAvailability → String
path_of c = elim c.relative_output_path [ none ↦ "" | some path ↦ path ]

-- `{clip.id: clip for clip in clips}`
unfoldable pub index_clips : List ClipAvailability → Dict ClipAvailability → Dict ClipAvailability
index_clips [] d = d
index_clips (c ∷ cs) d = index_clips cs (insert c.id c d)

-- `tuple(by_id[clip_id] for clip_id in ids if clip_id in by_id)`
pub listed : List String → Dict ClipAvailability → List ClipAvailability
listed [] d = []
listed (id ∷ ids) d =
    let rest = listed ids d in elim (lookup id d) [ none ↦ rest | some c ↦ c ∷ rest ]

-- The details that the history keeps of a clip
pub details_of : List ClipAvailability → Dict (Dict Json) → Dict (Dict Json)
unfolding base_name
details_of [] d = d
details_of (c ∷ cs) d =
    let name = base_name c.relative_source_path in
    details_of cs (
      insert c.id
        (("name", text (if is_empty name then c.id else name))
          ∷ ("duration_seconds", elim c.output_duration [ none ↦ null | some n ↦ float (pos n) ])
          ∷ ("relative_output_path", elim c.relative_output_path [ none ↦ null | some p ↦ text p ])
          ∷ [])
        d)

-- What a call raises: the history's error, or the `StopIteration` of a `next` that finds no clip, or a
-- failed assertion
pub data SelectError : Type 0 where
  from_history : ValueError → SelectError
  no_such_clip no_output : SelectError

module _ (casefold : String → String) where
  -- `_sequential_key`, a triple, compared
  pub by_path : ClipAvailability → ClipAvailability → Bool
  by_path a b =
      let folded_a = casefold (path_of a) in
      let folded_b = casefold (path_of b) in
      str_lt folded_a folded_b
      || ((folded_a == folded_b)
          && (str_lt (path_of a) (path_of b) || ((path_of a == path_of b) && str_lt a.id b.id)))

  -- The candidates in the order in which they are offered
  unfoldable pub ordered_clips :
      PlaybackMode → List String → List ClipAvailability → List ClipAvailability
  unfolding by_path index_clips listed
  ordered_clips random ids candidates = candidates
  ordered_clips sequential ids candidates = sort_by by_path candidates
  ordered_clips custom ids candidates =
      let in_order = sort_by by_path candidates in
      listed ids (index_clips in_order []) ++ select_where (λ c. not (contains ids c.id)) in_order

  unfoldable pub candidates_for :
      String → SelectRequest → List ClipAvailability → List ClipAvailability
  unfolding ordered_clips ready_or_playable
  candidates_for collection_id q available =
      ordered_clips q.playback_mode q.ordered_clip_ids (ready_or_playable collection_id available)

  -- What is asked of the history
  unfoldable pub history_request : String → SelectRequest → List ClipAvailability → Request
  unfolding details_of
  history_request collection_id q candidates = record {
    collection_id = collection_id;
    eligible_clip_ids = map (λ c. c.id) candidates;
    dry_run = q.dry_run;
    playback_mode = q.playback_mode;
    clip_details = details_of candidates [];
  }

  module _ (media_uri_builder : String → String) where
    -- The response for the clip that the history has chosen
    pub response_for :
        String → List ClipAvailability → HistorySelection → Result SelectError SelectResponse
    unfolding selection_timing
    response_for collection_id candidates selected = elim selected.clip_id [
      | none ↦ ok (no_clip (some collection_id) selected.history_reset)
      | some id ↦ elim (find_where (λ c. c.id == id) candidates) [
        | none ↦ err no_such_clip
        | some c ↦ elim c.relative_output_path [
          | none ↦ err no_output
          | some path ↦ ok (record {
            collection_id = some collection_id;
            clip_id = some c.id;
            relative_output_path = some path;
            media_uri = some (media_uri_builder path);
            duration_seconds = c.output_duration;
            history_reset = selected.history_reset;
            output_is_stale = not (is_ready c);
            timing = selection_timing c;
          })
        ]
      ]
    ]

    abbrev pub answered :
        String
        → List ClipAvailability
        → Result ValueError HistorySelection
        → Result SelectError SelectResponse
    answered collection_id candidates (ok h) = response_for collection_id candidates h
    answered collection_id candidates (err e) = err (from_history e)

    -- `SelectionService.async_select`, of a collection
    pub select_in :
        (List String → String)
        → LocalTime
        → String
        → SelectRequest
        → List ClipAvailability
        → HistoryStore
        → Result SelectError SelectResponse × HistoryStore
    unfolding candidates_for history_request response_for
    select_in chooser now collection_id q available s =
        let candidates = candidates_for collection_id q available in
        let (h, s') = select (history_request collection_id q candidates) chooser now s in
        (answered collection_id candidates h, s')

    -- `SelectionService.async_select`
    unfoldable pub select_clip :
        (List String → String)
        → LocalTime
        → SelectRequest
        → List ClipAvailability
        → HistoryStore
        → Result SelectError SelectResponse × HistoryStore
    unfolding select_in
    select_clip chooser now q available s = elim q.collection_id [
      | none ↦ (ok (no_clip none false), s)
      | some collection_id ↦ select_in chooser now collection_id q available s
    ]
