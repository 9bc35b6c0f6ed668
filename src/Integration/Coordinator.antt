-- ===== src/Integration/Coordinator.antt =====
-- The coordinator that polls the Worker (coordinator.py). A poll changes the coordinator and returns a
-- snapshot or raises; what it changed before a raise stays. Time spans are whole seconds.
pub mod Policies
pub mod Describe
pub mod Poll
pub mod Returns
pub mod Outage
mod Tests
use hass_clips_manager.Prelude.{
  ℕ, ◌+◌, ◌*◌, ◌/◌, ◌^◌, min, Bool, true, false, String, Option, none, some, List, [], ◌∷◌, ◌++◌,
  if◌then◌else◌, ◌==◌, ltb,
}
use hass_clips_manager.Prelude.Int.{ℤ}
use hass_clips_manager.Prelude.Text.{is_empty}
use hass_clips_manager.Prelude.Json.{Json, text, object, object_of, to_dict, get}
use hass_clips_manager.Prelude.Dict.{Dict, lookup, insert, sorted_items}
use hass_clips_manager.Prelude.Tables.{is_nil}
use hass_clips_manager.Prelude.Results.{Result, ok, err, ◌>>=◌}
use hass_clips_manager.Integration.Const.{
  PlaybackMode, random, sequential, custom, ValueError, bad_time, bad_mode,
}
use hass_clips_manager.Integration.Resolver.{
  DateTime, OverrideMode, automatic, default, explicit_override, SelectionReason, SelectionResult,
  CollectionPolicy, check_policy, resolve_active_collection,
}
use hass_clips_manager.Integration.Scheduler.{CompilationSchedule}
use hass_clips_manager.Integration.Schedules.{ClockTime, schedules_from_mapping}
use hass_clips_manager.Integration.Upcoming
use hass_clips_manager.Integration.Upcoming.{LocalNow, next_schedule}
use hass_clips_manager.Integration.History.{Summary}

-- `WorkerCollection`, by the fields that the coordinator reads
pub record WorkerCollection : Type 0 where
  pub id : String
  pub enabled : Bool
  pub priority : ℤ
  pub is_default : Bool
  pub allow_manual_override : Bool
  pub starts_at : Option String
  pub ends_at : Option String
  pub schedule : Dict Json
  pub playback_mode : String
  pub ordered_clip_ids : List String

-- `WorkerStatus`, with the message of each of its latest errors
pub record WorkerStatus : Type 0 where
  pub queue_depth : ℕ
  pub current_job : Option (Dict Json)
  pub latest_errors : List String

-- `WorkerHealth`, by its versions
pub record WorkerHealth : Type 0 where
  pub worker_version : String
  pub api_version : String
  pub min_client_version : String
  pub max_client_version : String

-- What the four requests of a poll come to: their answers, with the state of each clip, or the
-- message of a `WorkerApiError`
pub data Answer : Type 0 where
  answered :
      WorkerHealth → WorkerStatus → (clip_states : List String) → List WorkerCollection → Answer
  unavailable : String → Answer

-- What Home Assistant and Python's `datetime` say of times
pub record Calendar : Type 0 where
  pub as_local : DateTime → DateTime
  pub local_now : DateTime → LocalNow
  pub datetime_of : String → Option DateTime
  pub time_of : String → Option ClockTime
  pub str_of : Json → String

-- What the callables given to the coordinator return at a poll, and its time
pub record Sources : Type 0 where
  pub collections : Option (List CollectionPolicy)
  pub override : OverrideMode
  pub schedules : Option (List CompilationSchedule)
  pub history : Option (Dict Summary)
  pub now : DateTime

-- `CinemaCollectionsCoordinator`
pub record Coordinator : Type 0 where
  pub policies : List CollectionPolicy
  pub worker_collections : List WorkerCollection
  pub failure_count : ℕ
  pub update_interval : ℕ

-- `CoordinatorSnapshot`
pub record CoordinatorSnapshot : Type 0 where
  pub active_collection_id : Option String
  pub reason : SelectionReason
  pub override_rejected : Bool
  pub status : Option WorkerStatus
  pub health : Option WorkerHealth
  pub available : Bool
  pub error : Option String
  pub next_schedule : Option ℕ
  pub priorities : Dict ℤ
  pub clip_states : Dict ℕ
  pub history : Dict Summary

pub data PollError : Type 0 where
  policy_error : ValueError → PollError
  overflow_error : PollError

-- The properties of a snapshot: `queue_depth`, `progress` and `latest_error`
unfoldable pub queue_depth : CoordinatorSnapshot → Option ℕ
queue_depth s = elim s.status [ none ↦ none | some status ↦ some status.queue_depth ]

unfoldable pub progress : CoordinatorSnapshot → Option (Dict Json)
unfolding to_dict
progress s = elim s.status [
  | none ↦ none
  | some status ↦ elim status.current_job [
    | none ↦ none
    | some job ↦ elim (get "progress" job) [ object p ↦ some (to_dict p) | _ ↦ none ]
  ]
]

abbrev pub first_error : List String → Option String
first_error [] = none
first_error (e ∷ es) = some e

abbrev pub status_error : Option WorkerStatus → Option String
status_error none = none
status_error (some status) = first_error status.latest_errors

unfoldable pub latest_error : CoordinatorSnapshot → Option String
latest_error s = elim s.error [
  | none ↦ status_error s.status
  | some message ↦ if is_empty message then status_error s.status else some message
]

-- `__init__`
abbrev pub constructed_coordinator : Coordinator
constructed_coordinator = record {
  policies = [];
  worker_collections = [];
  failure_count = 0;
  update_interval = 30;
}
