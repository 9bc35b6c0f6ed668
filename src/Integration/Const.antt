-- ===== src/Integration/Const.antt =====
-- Choices and their checks that the integration's modules share (const.py).
use hass_clips_manager.Prelude.{
  Bool, true, false, ◌||◌, String, List, [], ◌∷◌, map, if◌then◌else◌, ◌==◌,
}
use hass_clips_manager.Prelude.Tables.{exists_where}
use hass_clips_manager.Prelude.Text.{strip, is_empty}
use hass_clips_manager.Prelude.Results.{Result, ok, err}

-- `HistoryResetMode`
pub data HistoryResetMode : Type 0 where
  on_exhaustion daily : HistoryResetMode

-- `PlaybackMode`
pub data PlaybackMode : Type 0 where
  random sequential custom : PlaybackMode

abbrev pub is_random : PlaybackMode → Bool
is_random PlaybackMode.random = true
is_random _ = false

abbrev pub is_custom : PlaybackMode → Bool
is_custom PlaybackMode.custom = true
is_custom _ = false

-- A Python `ValueError`, by what it complains of
pub data ValueError : Type 0 where
  bad_clip_order custom_needs_order order_needs_custom naive_time bad_identifier bad_window
        bad_override missing_collection bad_weekday bad_strategy ineligible_choice bad_time
        bad_mode :
      ValueError

-- `value in values`
abbrev pub contains : List String → String → Bool
contains values value = exists_where (λ v. v == value) values

-- `len(values) != len(set(values))`
unfoldable pub has_duplicate : List String → Bool
has_duplicate [] = false
has_duplicate (x ∷ xs) = contains xs x || has_duplicate xs

-- `normalize_clip_order`, of a list of texts
unfoldable pub normalize_clip_order : List String → Result ValueError (List String)
unfolding has_duplicate
normalize_clip_order values =
    let ordered = map strip values in
    if exists_where is_empty ordered || has_duplicate ordered
    then err bad_clip_order
    else ok ordered
