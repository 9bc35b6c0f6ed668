-- ===== src/Integration/Coordinator/Policies.antt =====
-- Policies, schedules and the override that the coordinator reads (coordinator.py).
use hass_clips_manager.Prelude.{
  true, String, Option, none, some, List, [], ◌∷◌, ◌++◌, if◌then◌else◌, ◌==◌,
}
use hass_clips_manager.Prelude.Text.{is_empty}
use hass_clips_manager.Prelude.Json.{Json, text, object, object_of, get}
use hass_clips_manager.Prelude.Dict.{Dict, lookup}
use hass_clips_manager.Prelude.Results.{Result, ok, err, ◌>>=◌}
use hass_clips_manager.Integration.Const.{
  PlaybackMode, random, sequential, custom, ValueError, bad_time, bad_mode,
}
use hass_clips_manager.Integration.Resolver.{
  DateTime, OverrideMode, automatic, default, explicit_override, SelectionResult, CollectionPolicy,
  check_policy, resolve_active_collection,
}
use hass_clips_manager.Integration.Scheduler.{CompilationSchedule}
use hass_clips_manager.Integration.Schedules.{schedules_from_mapping}
use hass_clips_manager.Integration.Coordinator.{WorkerCollection, Calendar, Sources, Coordinator}

-- `_policy_datetime`
unfoldable pub policy_datetime :
    (String → Option DateTime) → Option String → Result ValueError (Option DateTime)
policy_datetime datetime_of none = ok none
policy_datetime datetime_of (some value) =
    if is_empty value then ok none else (elim (datetime_of value) [
      | none ↦ err bad_time
      | some parsed ↦ ok (some (record parsed { aware = true }))
    ])

-- `PlaybackMode(value)`
unfoldable pub playback_mode_of : String → Result ValueError PlaybackMode
playback_mode_of value =
    if value == "random"
    then ok random
    else if value == "sequential"
    then ok sequential
    else if value == "custom"
    then ok custom
    else err bad_mode

-- The policy of one collection
unfoldable pub policy_of :
    (String → Option DateTime) → WorkerCollection → Result ValueError CollectionPolicy
unfolding policy_datetime playback_mode_of check_policy
policy_of datetime_of c = policy_datetime datetime_of c.starts_at >>= λ starts_at.
    policy_datetime datetime_of c.ends_at >>= λ ends_at.
    playback_mode_of c.playback_mode >>= λ mode. check_policy (record {
      id = c.id;
      enabled = c.enabled;
      priority = c.priority;
      starts_at = starts_at;
      ends_at = ends_at;
      is_default = c.is_default;
      allow_manual_override = c.allow_manual_override;
      playback_mode = mode;
      ordered_clip_ids = c.ordered_clip_ids;
    })

-- `policies_from_collections`
unfoldable pub policies_from_collections :
    (String → Option DateTime) → List WorkerCollection → List CollectionPolicy
unfolding policy_of
policies_from_collections datetime_of [] = []
policies_from_collections datetime_of (c ∷ cs) =
    let rest = policies_from_collections datetime_of cs in
    elim (policy_of datetime_of c) [ err _ ↦ rest | ok p ↦ p ∷ rest ]

-- `current_policies`
unfoldable pub current_policies : Sources → Coordinator → List CollectionPolicy
current_policies src c = elim src.collections [ some policies ↦ policies | none ↦ c.policies ]

-- What `schedules_from_mapping` is given for a collection
abbrev pub schedule_values : WorkerCollection → Dict Json
schedule_values c = ("collection_id", text c.id) ∷ ("schedule", object (object_of c.schedule)) ∷ []

unfoldable pub collected_schedules :
    Calendar → List WorkerCollection → Result ValueError (List CompilationSchedule)
unfolding schedules_from_mapping object_of
collected_schedules cal [] = ok []
collected_schedules cal (c ∷ cs) =
    let rest = collected_schedules cal cs in
    schedules_from_mapping cal.time_of cal.str_of (schedule_values c) >>= λ first.
    rest >>= λ others. ok (first ++ others)

-- `schedules`
unfoldable pub schedules :
    Calendar → Sources → Coordinator → Result ValueError (List CompilationSchedule)
unfolding collected_schedules
schedules cal src c = elim src.schedules [
  | some ss ↦ ok ss
  | none ↦ collected_schedules cal c.worker_collections
]

-- `_resolve`
unfoldable pub resolve : Calendar → Sources → Coordinator → Result ValueError SelectionResult
unfolding current_policies resolve_active_collection
resolve cal src c =
    resolve_active_collection cal.as_local (current_policies src c) src.override src.now

-- `override_for_entry`, of the options of a config entry
unfoldable pub override_for_entry : (Json → String) → Dict Json → OverrideMode
unfolding explicit_override lookup
override_for_entry str_of options =
    let kind = elim (lookup "override_mode" options) as (λ _. Json) [
      | none ↦ text "automatic"
      | some v ↦ v
    ] in
    elim kind [
      | text s ↦
          if s == "explicit"
          then (elim (explicit_override (some (str_of (get "override_collection_id" options)))) [
            | ok mode ↦ mode
            | err _ ↦ automatic
          ])
          else if s == "default"
          then default
          else automatic
      | _ ↦ automatic
    ]
