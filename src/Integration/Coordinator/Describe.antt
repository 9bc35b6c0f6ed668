-- ===== src/Integration/Coordinator/Describe.antt =====
-- The snapshot of a poll (coordinator.py).
use hass_clips_manager.Prelude.{
  ℕ, ◌+◌, Bool, true, false, String, Option, none, some, List, [], ◌∷◌,
}
use hass_clips_manager.Prelude.Int.{ℤ}
use hass_clips_manager.Prelude.Dict.{Dict, lookup, insert, sorted_items}
use hass_clips_manager.Prelude.Results.{Result, ok, ◌>>=◌}
use hass_clips_manager.Integration.Const.{ValueError}
use hass_clips_manager.Integration.Resolver.{SelectionResult, CollectionPolicy}
use hass_clips_manager.Integration.Upcoming
use hass_clips_manager.Integration.Upcoming.{LocalNow, next_schedule}
use hass_clips_manager.Integration.History.{Summary}
use hass_clips_manager.Integration.Coordinator.{
  WorkerStatus, WorkerHealth, Answer, answered, unavailable, Calendar, Sources, Coordinator,
  CoordinatorSnapshot,
}
use hass_clips_manager.Integration.Coordinator.Policies.{current_policies, schedules}

-- `_priorities`, over the policies from the first on
unfoldable pub priorities_of : List CollectionPolicy → Dict ℤ → Dict ℤ
unfolding insert
priorities_of [] d = d
priorities_of (p ∷ ps) d = priorities_of ps (insert p.id p.priority d)

-- The loop of `_clip_state_counts`
unfoldable pub count_states : List String → Dict ℕ → Dict ℕ
unfolding insert lookup
count_states [] d = d
count_states (state ∷ states) d =
    let earlier : ℕ = elim (lookup state d) [ none ↦ 0 | some n ↦ n ] in
    count_states states (insert state (earlier + 1) d)

-- `_clip_state_counts`
unfoldable pub clip_state_counts : List String → Dict ℕ
unfolding count_states sorted_items
clip_state_counts states = sorted_items (count_states states [])

-- `_history_snapshot`
abbrev pub history_snapshot : Option (Dict Summary) → Dict Summary
history_snapshot none = []
history_snapshot (some d) = d

-- What the requests tell of the Worker
abbrev pub told_status : Answer → Option WorkerStatus
told_status (unavailable message) = none
told_status (answered health status states collections) = some status

abbrev pub told_health : Answer → Option WorkerHealth
told_health (unavailable message) = none
told_health (answered health status states collections) = some health

abbrev pub told_error : Answer → Option String
told_error (unavailable message) = some message
told_error (answered health status states collections) = none

abbrev pub told_states : Answer → Dict ℕ
told_states (unavailable message) = []
told_states (answered health status states collections) = clip_state_counts states

abbrev pub is_answered : Answer → Bool
is_answered (unavailable message) = false
is_answered (answered health status states collections) = true

-- `CoordinatorSnapshot(…)`, once the collection is resolved
unfoldable pub snapshot_of :
    Calendar
    → Sources
    → Answer
    → SelectionResult
    → Coordinator
    → Result ValueError CoordinatorSnapshot
unfolding schedules next_schedule priorities_of clip_state_counts
snapshot_of cal src answer selection c = schedules cal src c >>= λ ss. ok (record {
  active_collection_id = elim selection.collection [ none ↦ none | some p ↦ some p.id ];
  reason = selection.reason;
  override_rejected = selection.override_rejected;
  status = told_status answer;
  health = told_health answer;
  available = is_answered answer;
  error = told_error answer;
  next_schedule = Upcoming.next_schedule ss (cal.local_now src.now);
  priorities = priorities_of (current_policies src c) [];
  clip_states = told_states answer;
  history = history_snapshot src.history;
})
