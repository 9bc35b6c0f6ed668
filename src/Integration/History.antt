-- ===== src/Integration/History.antt =====
-- The no-repeat playback history (history.py). The clock's reading is an argument of each call, and
-- so is the chooser of random mode, which the source takes from outside.
pub mod Claims
pub mod Answers
pub mod InRound
pub mod Plays
pub mod Resets
pub mod Daily
pub mod Explicit
pub mod Loading
mod Tests
use hass_clips_manager.Prelude.{
  ℕ, Bool, true, false, ◌&&◌, not, String, Option, none, some, List, [], ◌∷◌, ◌++◌, map,
  if◌then◌else◌,
}
use hass_clips_manager.Prelude.Tables.{select_where, length, is_nil}
use hass_clips_manager.Prelude.Json.{Json, text}
use hass_clips_manager.Prelude.Dict.{Dict, lookup, insert, sorted_items, keys}
use hass_clips_manager.Prelude.Results.{Result, ok, err}
use hass_clips_manager.Integration.Const.{
  PlaybackMode, is_random, contains, ValueError, ineligible_choice,
}
use hass_clips_manager.Integration.Rounds.{
  LocalTime, HistoryRecord, Saved, HistoryStore, HistorySelection, period_start, reset_each,
  reconcile, distinct, Round, round_for,
}

-- `_serialized`
unfoldable pub serialized : HistoryStore → Saved
serialized s = record {
  last_selection = s.last_selection;
  collections = sorted_items s.collections;
}

-- `await self._store.async_save(self._serialized())`
abbrev pub save : HistoryStore → HistoryStore
save s = record s { disk = some (serialized s) }

-- The parts of a call of `async_select` that stay the same while it runs
pub record Request : Type 0 where
  pub collection_id : String
  pub eligible_clip_ids : List String
  pub dry_run : Bool
  pub playback_mode : PlaybackMode
  pub clip_details : Dict (Dict Json)

-- The record that `async_select` writes for the clip that it claims
unfoldable pub claimed_record :
    HistoryStore → LocalTime → Option HistoryRecord → Round → String → HistoryRecord
unfolding period_start
claimed_record s now stored r clip = record {
  period_start = period_start s now;
  round_number = r.round_number;
  played_clip_ids = r.played ++ clip ∷ [];
  last_selected_clip_id = some clip;
  last_reset_at = elim stored [ none ↦ none | some h ↦ h.last_reset_at ];
  reset_pending = false;
}

-- The details of the clip, and over them its id, its collection and the time
unfoldable pub selection_of : Request → LocalTime → String → Dict Json
selection_of q now clip =
    let details : Dict Json = elim (lookup clip q.clip_details) [ none ↦ [] | some d ↦ d ] in
    insert "selected_at" (text now.iso)
      (insert "collection_id" (text q.collection_id) (insert "clip_id" (text clip) details))

-- What `async_select` writes once it has its clip
pub claim :
    Request → LocalTime → Option HistoryRecord → Round → String → HistoryStore → HistoryStore
unfolding claimed_record selection_of
claim q now stored r clip s = record s {
  last_selection = some (selection_of q now clip);
  collections = insert q.collection_id (claimed_record s now stored r clip) s.collections;
}

abbrev pub answer : Request → Round → Option String → HistorySelection
answer q r clip = record {
  collection_id = q.collection_id;
  clip_id = clip;
  round_number = r.round_number;
  history_reset = r.history_reset;
}

-- `async_select` from the choice of a clip on, where clips remain
pub take_clip :
    Request
    → (List String → String)
    → LocalTime
    → Option HistoryRecord
    → Round
    → String
    → HistoryStore
    → Result ValueError HistorySelection × HistoryStore
unfolding claim serialized
take_clip q chooser now stored r first s =
    let clip = if is_random q.playback_mode then chooser r.remaining else first in
    if not (contains r.remaining clip)
    then (err ineligible_choice, s)
    else if q.dry_run
    then (ok (answer q r (some clip)), s)
    else (ok (answer q r (some clip)), save (claim q now stored r clip s))

-- The round that a call finds: the collections after `_reconcile`, the ids that it reset, the
-- collection's record and its round
pub record Opened : Type 0 where
  pub collections : Dict HistoryRecord
  pub reset_ids : List String
  pub stored : Option HistoryRecord
  pub round : Round

pub open_round : Request → LocalTime → HistoryStore → Opened
unfolding reconcile distinct round_for
open_round q now s =
    let (collections, reset_ids) = reconcile s now in
    let stored = lookup q.collection_id collections in
    record {
      collections = collections;
      reset_ids = reset_ids;
      stored = stored;
      round = round_for stored (contains reset_ids q.collection_id) (distinct q.eligible_clip_ids);
    }

-- `async_select` once it has found its round
pub choose_from :
    Request
    → (List String → String)
    → LocalTime
    → Opened
    → HistoryStore
    → Result ValueError HistorySelection × HistoryStore
unfolding take_clip serialized
choose_from q chooser now o s = elim o.round.remaining [
  | [] ↦
      (ok (answer q o.round none), if not (is_nil o.reset_ids) && not q.dry_run then save s else s)
  | first ∷ rest ↦ take_clip q chooser now o.stored o.round first s
]

-- `async_select`. A dry run works on a copy of the collections.
unfoldable pub select :
    Request
    → (List String → String)
    → LocalTime
    → HistoryStore
    → Result ValueError HistorySelection × HistoryStore
unfolding open_round choose_from
select q chooser now s =
    let o = open_round q now s in
    choose_from q chooser now o (if q.dry_run then s else record s { collections = o.collections })

-- `async_reset`
abbrev pub reset_targets : Option String → Dict HistoryRecord → List String
reset_targets none d = keys (sorted_items d)
reset_targets (some id) d = id ∷ []

abbrev pub has_key : Dict HistoryRecord → String → Bool
has_key d id = elim (lookup id d) [ none ↦ false | some r ↦ true ]

unfoldable pub reset : Option String → LocalTime → HistoryStore → List String × HistoryStore
unfolding reset_each serialized
reset collection_id now s =
    let ids = select_where (has_key s.collections) (reset_targets collection_id s.collections) in
    let s' = record s { collections = reset_each s now ids s.collections } in
    (ids, if is_nil ids then s' else save s')

-- `async_handle_daily_reset`, of an aware time
unfoldable pub handle_daily_reset : LocalTime → HistoryStore → List String × HistoryStore
unfolding reconcile serialized
handle_daily_reset now s =
    let (collections, ids) = reconcile s now in
    let s' = record s { collections = collections } in (ids, if is_nil ids then s' else save s')

-- `snapshot`, of one record
pub record Summary : Type 0 where
  pub round_number : ℕ
  pub played_count : ℕ
  pub last_selected_clip_id : Option String
  pub last_reset_at : Option String

abbrev pub summary : HistoryRecord → Summary
summary r = record {
  round_number = r.round_number;
  played_count = length r.played_clip_ids;
  last_selected_clip_id = r.last_selected_clip_id;
  last_reset_at = r.last_reset_at;
}

-- `snapshot`
unfoldable pub snapshot : HistoryStore → Dict Summary
snapshot s = map (λ e. (e.0, summary e.1)) s.collections
