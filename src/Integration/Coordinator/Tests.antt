-- ===== src/Integration/Coordinator/Tests.antt =====
-- The coordinator at concrete answers of the Worker.
use hass_clips_manager.Prelude.{
  ◌≡◌, refl, ◌≤◌, ◌+◌, ◌*◌, ◌^◌, min, true, false, ◌&&◌, ◌||◌, leb, some, none, [], ◌∷◌,
}
use hass_clips_manager.Prelude.Int.{pos}
use hass_clips_manager.Prelude.Tables.{first_by, exists_where, select_where}
use hass_clips_manager.Prelude.Json.{Json, integer, text, boolean, array, array_of, object_of}
use hass_clips_manager.Prelude.Dict.{lookup, insert}
use hass_clips_manager.Prelude.Results.{ok}
use hass_clips_manager.Prelude.Effects.{returned, raised, final}
use hass_clips_manager.Slug.{is_slug}
use hass_clips_manager.Integration.Upcoming.{moment, candidates, first_occurrence}
use hass_clips_manager.Integration.Const.{normalize_clip_order}
use hass_clips_manager.Integration.Resolver.{SelectionResult, SelectionReason, automatic, explicit}
use hass_clips_manager.Integration.Coordinator.{
  WorkerCollection, WorkerStatus, WorkerHealth, Answer, answered, unavailable, Calendar, Sources,
  Coordinator, CoordinatorSnapshot, overflow_error, constructed_coordinator,
}
use hass_clips_manager.Integration.Coordinator.Policies.{schedules, resolve, override_for_entry}
use hass_clips_manager.Integration.Coordinator.Describe.{is_answered, clip_state_counts}
use hass_clips_manager.Integration.Coordinator.Poll.{poll}
use hass_clips_manager.Integration.Coordinator.Returns.{
  is_returned, is_ok, informed, is_returned-poll,
}
use hass_clips_manager.Integration.Coordinator.Outage.{Tells, begins, fails, outage_lem}

abbrev calendar : Calendar
calendar = record {
  as_local = λ t. t;
  local_now = λ t. record { ordinal = 739860; time_of_day = t.instant };
  datetime_of = λ s. none;
  time_of = λ s. some (record { hour = 3; minute = 30; microseconds = 0 });
  str_of = λ v. "None";
}

abbrev evening : Sources
evening = record {
  collections = none;
  override = automatic;
  schedules = none;
  history = none;
  now = record { instant = 72000000000; aware = true };
}

-- A collection that compiles on one weekday
abbrev compiled_on : Json → WorkerCollection
compiled_on day = record {
  id = "cinema";
  enabled = true;
  priority = pos 0;
  is_default = true;
  allow_manual_override = false;
  starts_at = none;
  ends_at = none;
  schedule =
      ("enabled", boolean true)
      ∷ ("local_time", text "03:30")
      ∷ ("weekdays", array (array_of (day ∷ [])))
      ∷ [];
  playback_mode = "random";
  ordered_clip_ids = [];
}

abbrev healthy : WorkerHealth
healthy = record {
  worker_version = "1.0.0";
  api_version = "1";
  min_client_version = "1.0.0";
  max_client_version = "2.0.0";
}

abbrev idle : WorkerStatus
idle = record { queue_depth = 0; current_job = none; latest_errors = "disk full" ∷ [] }

abbrev answer_with : WorkerCollection → Answer
answer_with c = answered healthy idle ("ready" ∷ "stale" ∷ "ready" ∷ []) (c ∷ [])

abbrev connected : Coordinator
connected =
    final
      (poll calendar evening (answer_with (compiled_on (integer (pos 1)))) constructed_coordinator)

counts_states :
    clip_state_counts ("ready" ∷ "stale" ∷ "ready" ∷ []) ≡ ("ready", 2) ∷ ("stale", 1) ∷ []
unfolding clip_state_counts
counts_states = refl

-- Weekday 7 in one collection's schedule, which the Worker does not check, stops every poll.
bad_schedule_raises :
    is_returned
      (poll calendar evening (answer_with (compiled_on (integer (pos 7)))) constructed_coordinator)
    ≡ false
unfolding poll exists_where first_by object_of array_of
bad_schedule_raises = refl

-- The 42nd failure in a row
too_long_away :
    poll calendar evening (unavailable "refused") (record connected { failure_count = 41 })
    ≡ raised (record connected { failure_count = 42 }) overflow_error
unfolding poll exists_where first_by object_of array_of lookup insert select_where
too_long_away = refl

keeps_the_override :
    override_for_entry (λ v. "summer") (("override_mode", text "explicit") ∷ []) ≡ explicit "summer"
unfolding override_for_entry is_slug
keeps_the_override = refl

is_returned-poll_example : is_returned (poll calendar evening (unavailable "refused") connected) ≡ (
    true
    && (is_ok (schedules calendar evening (informed calendar (unavailable "refused") connected))
        && (is_answered (unavailable "refused") || leb connected.failure_count 40)))
is_returned-poll_example = is_returned-poll calendar evening (unavailable "refused") connected

abbrev away_once : Coordinator
away_once = final (poll calendar evening (unavailable "refused") connected)

abbrev away_twice : Coordinator
away_twice = final (poll calendar evening (unavailable "timeout") away_once)

abbrev third : CoordinatorSnapshot
third = record {
  active_collection_id = some "cinema";
  reason = SelectionReason.schedule;
  override_rejected = false;
  status = none;
  health = none;
  available = false;
  error = some "refused";
  next_schedule = some (moment 739867 12600000000);
  priorities = ("cinema", pos 0) ∷ [];
  clip_states = [];
  history = [];
}

away_third :
    poll calendar evening (unavailable "refused") away_twice
    ≡ returned (record connected { failure_count = 3; update_interval = 240 }) third
unfolding poll exists_where first_by object_of array_of lookup insert select_where candidates
    first_occurrence is_slug normalize_clip_order
away_third = refl

outage_lem_example :
    (selection : SelectionResult) × (resolve calendar evening connected ≡ ok selection)
    × Tells false selection third
    × (240 ≡ min (30 * 2 ^ (connected.failure_count + 2 + 1)) 300)
    × (connected.failure_count + 2 ≤ 40)
outage_lem_example =
    outage_lem calendar connected away_twice
      (record connected { failure_count = 3; update_interval = 240 }) 2 evening "refused" third
      (fails evening "timeout" (fails evening "refused" begins)) away_third
