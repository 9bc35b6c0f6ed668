-- ===== src/Integration/Upcoming/Tests.antt =====
-- The next schedule on a concrete day.
use hass_clips_manager.Prelude.{◌≡◌, refl, ◌≤◌, ℕ, true, false, some, none, [], ◌∷◌, arith}
use hass_clips_manager.Prelude.Int.{pos}
use hass_clips_manager.Prelude.Tables.{first_by, exists_where}
use hass_clips_manager.Integration.Scheduler.{CompilationSchedule}
use hass_clips_manager.Integration.Upcoming.{
  LocalNow, candidates, first_occurrence, next_schedule, moment,
}
use hass_clips_manager.Integration.Upcoming.Earliest.{next_schedule_lem, IsScheduled}

-- Tuesdays at 03:30
abbrev weekly : CompilationSchedule
weekly = record {
  collection_id = "cinema";
  enabled = true;
  weekdays = pos 1 ∷ [];
  hour = 3;
  minute = 30;
  microseconds = 0;
  strategy = "scan_only";
  skip_if_processing = true;
}

-- Wednesdays, but it is not enabled.
abbrev paused : CompilationSchedule
paused = record weekly { enabled = false; weekdays = pos 2 ∷ [] }

-- Tuesday, 1 September 2026, at 03:30 and a microsecond
abbrev just_missed : LocalNow
just_missed = record { ordinal = 739860; time_of_day = 12600000001 }

waits_a_week : next_schedule (paused ∷ weekly ∷ []) just_missed ≡ some (moment 739867 12600000000)
unfolding next_schedule candidates first_occurrence first_by exists_where
waits_a_week = refl

is_today :
    next_schedule (weekly ∷ []) (record just_missed { time_of_day = 12600000000 })
    ≡ some (moment 739860 12600000000)
unfolding next_schedule candidates first_occurrence first_by exists_where
is_today = refl

never : next_schedule (paused ∷ []) just_missed ≡ none
unfolding next_schedule candidates first_occurrence first_by
never = refl

next_schedule_lem_example :
    ((c : ℕ)
      → next_schedule (paused ∷ weekly ∷ []) just_missed ≡ some c
      → IsScheduled (paused ∷ weekly ∷ []) just_missed c
        × ((t : ℕ) → IsScheduled (paused ∷ weekly ∷ []) just_missed t → c ≤ t))
    × (next_schedule (paused ∷ weekly ∷ []) just_missed ≡ none
        → (t : ℕ) → ¬ IsScheduled (paused ∷ weekly ∷ []) just_missed t)
next_schedule_lem_example =
    next_schedule_lem (paused ∷ weekly ∷ []) just_missed (omega arith)
      (omega arith, (omega arith, tt))
