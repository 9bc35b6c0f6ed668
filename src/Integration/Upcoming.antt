-- ===== src/Integration/Upcoming.antt =====
-- When the next compilation is due (coordinator.py, `_next_schedule`). A wall-clock time is the number
-- of microseconds since the day before the first day of the calendar.
pub mod Earliest
mod Tests
use hass_clips_manager.Prelude.{
  ℕ, suc, ◌+◌, ◌*◌, ◌%◌, Bool, ◌&&◌, Option, none, some, List, [], ◌∷◌, if◌then◌else◌, leb, ltb,
}
use hass_clips_manager.Prelude.Tables.{first_by}
use hass_clips_manager.Integration.Scheduler.{CompilationSchedule, on_weekday}

-- A local time: the ordinal of its date and the microseconds of its day. The occurrences have its
-- zone, so Python compares them by the wall clock.
pub record LocalNow : Type 0 where
  pub ordinal : ℕ
  pub time_of_day : ℕ

abbrev pub day_length : ℕ
day_length = 86400000000

-- `date.weekday()`
abbrev pub weekday : ℕ → ℕ
weekday ordinal = (ordinal + 6) % 7

-- `schedule.local_time`, in microseconds
abbrev pub schedule_time : CompilationSchedule → ℕ
schedule_time s = (s.hour * 60 + s.minute) * 60000000 + s.microseconds

-- `datetime.combine(day, time)`
abbrev pub moment : ℕ → ℕ → ℕ
moment ordinal time = ordinal * day_length + time

-- The day some days ahead is one of the schedule's, and its time is not past.
unfoldable pub fits : CompilationSchedule → LocalNow → ℕ → Bool
fits s now offset =
    on_weekday (weekday (now.ordinal + offset)) s.weekdays
    && leb (moment now.ordinal now.time_of_day) (moment (now.ordinal + offset) (schedule_time s))

-- The loop over the days ahead, from an offset and for some days
unfoldable pub occurrence : CompilationSchedule → LocalNow → ℕ → ℕ → Option ℕ
unfolding fits
occurrence s now offset ℕ.zero = none
occurrence s now offset (suc days) =
    let rest = occurrence s now (offset + 1) days in
    if fits s now offset then some (moment (now.ordinal + offset) (schedule_time s)) else rest

-- The occurrence of a schedule that is enabled
unfoldable pub first_occurrence : CompilationSchedule → LocalNow → Option ℕ
unfolding occurrence
first_occurrence s now = if s.enabled then occurrence s now 0 8 else none

abbrev pub with_candidate : Option ℕ → List ℕ → List ℕ
with_candidate none rest = rest
with_candidate (some c) rest = c ∷ rest

unfoldable pub candidates : List CompilationSchedule → LocalNow → List ℕ
candidates [] now = []
candidates (s ∷ ss) now = with_candidate (first_occurrence s now) (candidates ss now)

-- `_next_schedule`
unfoldable pub next_schedule : List CompilationSchedule → LocalNow → Option ℕ
next_schedule ss now = first_by ltb (candidates ss now)
