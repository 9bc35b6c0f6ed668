-- ===== src/Integration/Schedules.antt =====
-- How the schedule of a collection is read from its JSON (scheduler.py, `schedules_from_mapping`).
use hass_clips_manager.Prelude.{ℕ, Bool, true, false, String, Option, none, some, List, [], ◌∷◌}
use hass_clips_manager.Prelude.Int.{ℤ, pos}
use hass_clips_manager.Prelude.Options.{◌>>=◌}
use hass_clips_manager.Prelude.Results.{Result, ok, err}
use hass_clips_manager.Prelude.Json.{
  Json, integer, boolean, text, array, object, to_list, to_dict, get, is_truthy,
}
use hass_clips_manager.Prelude.Dict.{Dict, lookup}
use hass_clips_manager.Integration.Const.{ValueError}
use hass_clips_manager.Integration.Scheduler.{CompilationSchedule, check_schedule}

-- A `time`, by its hour, its minute and the microseconds that are left of it
pub record ClockTime : Type 0 where
  pub hour : ℕ
  pub minute : ℕ
  pub microseconds : ℕ

abbrev pub text_value : Json → Option String
text_value (text s) = some s
text_value _ = none

abbrev pub mapping_value : Json → Option (Dict Json)
mapping_value (object vs) = some (to_dict vs)
mapping_value _ = none

-- An `int`, of which `bool` is a subclass
abbrev pub int_value : Json → Option ℤ
int_value (integer n) = some n
int_value (boolean true) = some (pos 1)
int_value (boolean false) = some (pos 0)
int_value _ = none

unfoldable pub all_ints : List Json → Option (List ℤ)
all_ints [] = some []
all_ints (v ∷ vs) = let rest = all_ints vs in int_value v >>= λ n. rest >>= λ ns. some (n ∷ ns)

-- `raw.get("weekdays", ())`, a list of integers
abbrev pub weekdays_value : Option Json → Option (List ℤ)
weekdays_value none = some []
weekdays_value (some (array vs)) = all_ints (to_list vs)
weekdays_value (some _) = none

-- `bool(raw.get(name, default))`
abbrev pub flag : Bool → Option Json → Bool
flag default none = default
flag default (some v) = is_truthy v

module _ (time_of : String → Option ClockTime) (str_of : Json → String) where
  -- `str(v)`
  abbrev pub str : Json → String
  str (text s) = s
  str v = str_of v

  abbrev pub strategy_value : Option Json → String
  strategy_value none = "scan_and_compile_changed_or_missing"
  strategy_value (some v) = str v

  -- The schedule of a mapping, before its own checks
  unfoldable pub read_schedule : Dict Json → Option CompilationSchedule
  unfolding all_ints to_list to_dict
  read_schedule values = do
    raw ← mapping_value (get "schedule" values)
    local_time ← text_value (get "local_time" raw)
    parsed_time ← time_of local_time
    weekdays ← weekdays_value (lookup "weekdays" raw)
    collection_id ← text_value (get "collection_id" values)
    some (record {
      collection_id = collection_id;
      enabled = flag false (lookup "enabled" raw);
      weekdays = weekdays;
      hour = parsed_time.hour;
      minute = parsed_time.minute;
      microseconds = parsed_time.microseconds;
      strategy = strategy_value (lookup "strategy" raw);
      skip_if_processing = flag true (lookup "skip_if_processing" raw);
    })

  -- `schedules_from_mapping`
  unfoldable pub schedules_from_mapping : Dict Json → Result ValueError (List CompilationSchedule)
  unfolding read_schedule check_schedule
  schedules_from_mapping values = elim (read_schedule values) [
    | none ↦ ok []
    | some s ↦ elim (check_schedule s) [ err e ↦ err e | ok checked ↦ ok (checked ∷ []) ]
  ]
