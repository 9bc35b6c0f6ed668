-- ===== src/Integration/Scheduler/Tests.antt =====
-- The scheduler and its token stores at concrete schedules.
use hass_clips_manager.Prelude.{
  ◌≡◌, refl, ◌≤◌, Bool, true, false, String, List, [], ◌∷◌, arith, inl,
}
use hass_clips_manager.Prelude.Int.{pos}
use hass_clips_manager.Prelude.Tables.{exists_where, select_where}
use hass_clips_manager.Prelude.Dict.{Dict, lookup, insert}
use hass_clips_manager.Prelude.Dict.Sorted.{IsDict}
use hass_clips_manager.Prelude.Sorting.{sort_by}
use hass_clips_manager.Prelude.Results.{ok, err}
use hass_clips_manager.Integration.Tokens.{begin_in, in_memory, in_entry, mapped, states_of}
use hass_clips_manager.Integration.Tokens.Laws.{in_memory-IsTokenStore, succeeded_in}
use hass_clips_manager.Integration.Tokens.Pruned.{succeeded_is_pruned}
use hass_clips_manager.Integration.Tokens.Room.{entry_keeps, Agrees}
use hass_clips_manager.Integration.Scheduler.{
  CompilationSchedule, Minute, Call, Sent, World, token, is_due, refused, handle_due, ScheduledRun,
}
use hass_clips_manager.Integration.Scheduler.Once.{dispatched_once, acceptances, start, tick}
use hass_clips_manager.Integration.Scheduler.Due.{due_dispatched}

abbrev nightly : CompilationSchedule
nightly = record {
  collection_id = "cinema";
  enabled = true;
  weekdays = pos 1 ∷ [];
  hour = 3;
  minute = 30;
  microseconds = 0;
  strategy = "compile_stale_only";
  skip_if_processing = true;
}

abbrev tuesday : Minute
tuesday = record {
  aware = true;
  weekday = 1;
  hour = 3;
  minute = 30;
  stamp = "2026-09-01T03:30+0200";
}

abbrev as_is : Minute → Minute
as_is now = now

abbrev accepts : List Sent → Call → Bool
accepts sent call = true

-- A Worker that refuses the first request alone
abbrev recovers : List Sent → Call → Bool
recovers [] call = false
recovers (r ∷ rs) call = true

abbrev idle : World (Dict String)
idle = record { tokens = []; sent = [] }

abbrev refused_once : World (Dict String)
refused_once = (handle_due in_memory recovers as_is (nightly ∷ []) tuesday idle).1

abbrev accepted_then : World (Dict String)
accepted_then = (handle_due in_memory recovers as_is (nightly ∷ []) tuesday refused_once).1

abbrev run_of_cinema : ScheduledRun
run_of_cinema = record {
  collection_id = "cinema";
  token = "cinema:2026-09-01T03:30+0200";
  strategy = "compile_stale_only";
}

first_raises : (handle_due in_memory recovers as_is (nightly ∷ []) tuesday idle).0 ≡ err refused
unfolding handle_due sort_by exists_where lookup insert begin_in
first_raises = refl

retry_runs :
    (handle_due in_memory recovers as_is (nightly ∷ []) tuesday refused_once).0
    ≡ ok (run_of_cinema ∷ [])
unfolding handle_due sort_by exists_where lookup insert begin_in
retry_runs = refl

third_is_idle : (handle_due in_memory recovers as_is (nightly ∷ []) tuesday accepted_then).0 ≡ ok []
unfolding handle_due sort_by exists_where lookup insert begin_in
third_is_idle = refl

dispatched_once_example :
    (acceptances "cinema:2026-09-01T03:30+0200" accepted_then ≤ 1)
    × (succeeded_in "cinema:2026-09-01T03:30+0200" accepted_then.tokens ≡ false
        → acceptances "cinema:2026-09-01T03:30+0200" accepted_then ≡ 0)
dispatched_once_example =
    dispatched_once in_memory succeeded_in in_memory-IsTokenStore recovers [] accepted_then
      "cinema:2026-09-01T03:30+0200"
      (tick as_is (nightly ∷ []) tuesday refused_once
        (tick as_is (nightly ∷ []) tuesday idle start))

due_on_tuesday : is_due nightly tuesday ≡ true
unfolding is_due exists_where
due_on_tuesday = refl

due_dispatched_example :
    succeeded_in
      (token nightly tuesday)
      (handle_due in_memory recovers as_is (nightly ∷ []) tuesday refused_once).1.tokens
    ≡ true
due_dispatched_example =
    due_dispatched in_memory succeeded_in in_memory-IsTokenStore recovers as_is (nightly ∷ [])
      tuesday refused_once (run_of_cinema ∷ []) nightly retry_runs (inl refl) due_on_tuesday

-- Two occurrences of one collection, and a later one of a collection whose id comes first
abbrev full : Dict String
full =
    ("cinema:2026-08-30T03:30+0200", "succeeded")
    ∷ ("cinema:2026-08-31T03:30+0200", "succeeded")
    ∷ []

full_is_valid : states_of (mapped full) ≡ full
unfolding states_of select_where
full_is_valid = refl

full-IsDict : IsDict full
unfolding lookup
full-IsDict = (refl, (refl, tt))

succeeded_is_pruned_example :
    ((in_entry 2).begin "ads:2026-09-01T03:30+0200"
      ((in_entry 2).succeed "ads:2026-09-01T03:30+0200" (mapped full))).0
    ≡ true
succeeded_is_pruned_example =
    succeeded_is_pruned "ads:2026-09-01T03:30+0200" full full-IsDict full_is_valid
      (refl, (refl, tt))

entry_keeps_example :
    (((in_entry 512).begin "ads:2026-09-01T03:30+0200" (mapped full)).0
      ≡ (in_memory.begin "ads:2026-09-01T03:30+0200" full).0)
    × Agrees
        (in_memory.begin "ads:2026-09-01T03:30+0200" full).1
        ((in_entry 512).begin "ads:2026-09-01T03:30+0200" (mapped full)).1
    × Agrees
        (in_memory.succeed "ads:2026-09-01T03:30+0200" full)
        ((in_entry 512).succeed "ads:2026-09-01T03:30+0200" (mapped full))
    × Agrees
        (in_memory.fail "ads:2026-09-01T03:30+0200" full)
        ((in_entry 512).fail "ads:2026-09-01T03:30+0200" (mapped full))
entry_keeps_example =
    entry_keeps 512 "ads:2026-09-01T03:30+0200" full full-IsDict (refl, (refl, tt)) (omega arith)
