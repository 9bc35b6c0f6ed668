-- ===== src/Integration/Rounds.antt =====
-- The records of the playback history and its rounds (history.py).
pub mod Played
use hass_clips_manager.Prelude.{
  ℕ, ◌+◌, Bool, true, false, ◌||◌, ◌&&◌, not, String, Option, none, some, List, [], ◌∷◌,
  if◌then◌else◌, ◌==◌, leb,
}
use hass_clips_manager.Prelude.Tables.{select_where, is_nil}
use hass_clips_manager.Prelude.Text.{is_empty}
use hass_clips_manager.Prelude.Json.{Json}
use hass_clips_manager.Prelude.Dict.{Dict, lookup, insert, sorted_items, keys}
use hass_clips_manager.Integration.Const.{HistoryResetMode, on_exhaustion, daily, contains}

-- An aware `datetime` in local time: the ISO texts of its date and of the day before, the microseconds
-- of its day, its ISO text
pub record LocalTime : Type 0 where
  pub date : String
  pub yesterday : String
  pub time_of_day : ℕ
  pub iso : String

pub record HistoryRecord : Type 0 where
  pub period_start : String
  pub round_number : ℕ
  pub played_clip_ids : List String
  pub last_selected_clip_id : Option String
  pub last_reset_at : Option String
  pub reset_pending : Bool

-- What `_serialized` hands to Home Assistant's storage
pub record Saved : Type 0 where
  pub last_selection : Option (Dict Json)
  pub collections : Dict HistoryRecord

-- `PlaybackHistoryStore`, once set up; `disk` is the last payload that was saved.
pub record HistoryStore : Type 0 where
  pub reset_mode : HistoryResetMode
  pub reset_time : ℕ
  pub collections : Dict HistoryRecord
  pub last_selection : Option (Dict Json)
  pub disk : Option Saved

-- `HistorySelection`
pub record HistorySelection : Type 0 where
  pub collection_id : String
  pub clip_id : Option String
  pub round_number : ℕ
  pub history_reset : Bool

-- `_period_start`
unfoldable pub period_start : HistoryStore → LocalTime → String
period_start s now = if leb s.reset_time now.time_of_day then now.date else now.yesterday

-- `_reset_record`
unfoldable pub reset_record : HistoryStore → LocalTime → HistoryRecord → HistoryRecord
unfolding period_start
reset_record s now r = record {
  period_start = period_start s now;
  round_number = r.round_number + 1;
  played_clip_ids = [];
  last_selected_clip_id = none;
  last_reset_at = some now.iso;
  reset_pending = true;
}

-- `collections[identifier] = self._reset_record(collections[identifier], now)`
unfoldable pub reset_at :
    HistoryStore → LocalTime → String → Dict HistoryRecord → Dict HistoryRecord
unfolding reset_record
reset_at s now id d = elim (lookup id d) [ none ↦ d | some r ↦ insert id (reset_record s now r) d ]

unfoldable pub reset_each :
    HistoryStore → LocalTime → List String → Dict HistoryRecord → Dict HistoryRecord
unfolding reset_at
reset_each s now [] d = d
reset_each s now (id ∷ ids) d = reset_each s now ids (reset_at s now id d)

-- The ids whose period is not the present one
unfoldable pub outdated : HistoryStore → LocalTime → Dict HistoryRecord → List String
unfolding period_start
outdated s now d =
    keys (select_where (λ e. not (e.1.period_start == period_start s now)) (sorted_items d))

-- `_reconcile`: the collections after it, and the ids that it reset
unfoldable pub reconcile : HistoryStore → LocalTime → Dict HistoryRecord × List String
unfolding outdated reset_each
reconcile s now = elim s.reset_mode [
  | on_exhaustion ↦ (s.collections, [])
  | daily ↦ let ids = outdated s now s.collections in (reset_each s now ids s.collections, ids)
]

-- `tuple(dict.fromkeys(value for value in eligible_clip_ids if value))`
unfoldable pub distinct : List String → List String
distinct [] = []
distinct (x ∷ xs) =
    let rest = distinct xs in if is_empty x then rest else x ∷ select_where (λ y. not (y == x)) rest

-- A round as `async_select` works it out: its number, whether the history was reset, the clips that
-- it has played, and those that remain.
pub record Round : Type 0 where
  pub round_number : ℕ
  pub history_reset : Bool
  pub played : List String
  pub remaining : List String

abbrev pub unplayed : List String → List String → List String
unplayed eligible played = select_where (λ c. not (contains played c)) eligible

-- The round that is in progress
unfoldable pub current_round : Option HistoryRecord → Bool → List String → Round
current_round none was_reset eligible = record {
  round_number = 1;
  history_reset = false;
  played = [];
  remaining = unplayed eligible [];
}
current_round (some r) was_reset eligible =
    let played = select_where (contains eligible) r.played_clip_ids in
    record {
      round_number = r.round_number;
      history_reset = was_reset || r.reset_pending;
      played = played;
      remaining = unplayed eligible played;
    }

-- `if eligible and not remaining:` a new round begins.
unfoldable pub next_round : List String → Round → Round
next_round eligible r =
    if not (is_nil eligible) && is_nil r.remaining
    then record {
      round_number = r.round_number + 1;
      history_reset = true;
      played = [];
      remaining = eligible;
    }
    else r

unfoldable pub round_for : Option HistoryRecord → Bool → List String → Round
unfolding current_round next_round
round_for stored was_reset eligible = next_round eligible (current_round stored was_reset eligible)
