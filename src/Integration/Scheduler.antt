-- ===== src/Integration/Scheduler.antt =====
-- The dispatch of due compilations (scheduler.py). The Worker is outside this module: its response to
-- a request is a function of the requests made before it.
pub mod Once
pub mod Due
mod Tests
use Prim.Native.String.{◌++◌ as ◌<>◌}
use hass_clips_manager.Prelude.{
  ℕ, suc, Bool, true, false, ◌||◌, ◌&&◌, not, String, Option, none, some, List, [], ◌∷◌, ◌++◌,
  if◌then◌else◌, ◌==◌, nat_eq,
}
use hass_clips_manager.Prelude.Int.{ℤ, pos, int_lt}
use hass_clips_manager.Prelude.Order.{str_lt}
use hass_clips_manager.Prelude.Tables.{exists_where}
use hass_clips_manager.Prelude.Sorting.{sort_by}
use hass_clips_manager.Prelude.Results.{Result, ok, err, ◌>>=◌, ◌>>◌, raise_if}
use hass_clips_manager.Prelude.Text.{is_empty}
use hass_clips_manager.Integration.Const.{
  ValueError, missing_collection, bad_weekday, bad_strategy, naive_time,
}
use hass_clips_manager.Integration.Tokens.{RunTokenStore}

-- `CompilationSchedule`, with the hour and the minute of its local time, and the microseconds that
-- are left of it
pub record CompilationSchedule : Type 0 where
  pub collection_id : String
  pub enabled : Bool
  pub weekdays : List ℤ
  pub hour : ℕ
  pub minute : ℕ
  pub microseconds : ℕ
  pub strategy : String
  pub skip_if_processing : Bool

abbrev pub is_strategy : String → Bool
is_strategy s =
    s == "scan_and_compile_changed_or_missing" || (s == "compile_stale_only" || s == "scan_only")

-- `CompilationSchedule.__post_init__`
unfoldable pub check_schedule : CompilationSchedule → Result ValueError CompilationSchedule
check_schedule s = do
  raise_if (is_empty s.collection_id) missing_collection
  raise_if (exists_where (λ day. int_lt day (pos 0) || int_lt (pos 6) day) s.weekdays) bad_weekday
  raise_if (not (is_strategy s.strategy)) bad_strategy
  ok s

-- A `datetime`: whether it has a zone, its weekday, hour and minute, and the text that
-- `strftime('%Y-%m-%dT%H:%M%z')` gives for it
pub record Minute : Type 0 where
  pub aware : Bool
  pub weekday : ℕ
  pub hour : ℕ
  pub minute : ℕ
  pub stamp : String

-- `ScheduledRun`
pub record ScheduledRun : Type 0 where
  pub collection_id : String
  pub token : String
  pub strategy : String

-- What the scheduler asks of the Worker, `async_scan` or `async_compile`
pub data Call : Type 0 where
  scan : (collection_id token : String) → Call
  compile :
      (collection_id strategy : String) → (skip_if_processing : Bool) → (token : String) → Call

-- A request that was made, and whether the call of the client returned; a response that is lost counts
-- as a call that raised, whether or not the Worker took the request.
pub record Sent : Type 0 where
  pub call : Call
  pub accepted : Bool

pub record World (S : Type 0) : Type 0 where
  pub tokens : S
  pub sent : List Sent

-- `_token`
unfoldable pub token : CompilationSchedule → Minute → String
token s now = s.collection_id <> (":" <> now.stamp)

-- `local_now.weekday() in schedule.weekdays`
abbrev pub on_weekday : ℕ → List ℤ → Bool
on_weekday day days = exists_where (λ d. not (int_lt d (pos day)) && not (int_lt (pos day) d)) days

unfoldable pub is_due : CompilationSchedule → Minute → Bool
is_due s now =
    s.enabled
    && (on_weekday now.weekday s.weekdays && (nat_eq now.hour s.hour && nat_eq now.minute s.minute))

-- The request for a schedule's occurrence
unfoldable pub call_for : CompilationSchedule → String → Call
call_for s t =
    if s.strategy == "scan_only"
    then scan s.collection_id t
    else compile s.collection_id s.strategy s.skip_if_processing t

-- `key=lambda item: item.collection_id`
abbrev pub by_collection : CompilationSchedule → CompilationSchedule → Bool
by_collection s t = str_lt s.collection_id t.collection_id

-- What the scheduler's loop does with one schedule: it passes it by, it runs it, or it raises.
pub data Turn (S : Type 0) : Type 0 where
  passed : World S → Turn S
  ran : ScheduledRun → World S → Turn S
  raised : World S → Turn S

-- What a call of `async_handle_due` raises: for a naive time, or what the Worker's client has raised
pub data DispatchError : Type 0 where
  naive : DispatchError
  refused : DispatchError

module _ {S : Type 0} (store : RunTokenStore S) (respond : List Sent → Call → Bool) where
  pub send : CompilationSchedule → String → World S → Turn S
  unfolding call_for
  send s t w =
      let call = call_for s t in
      let accepted = respond w.sent call in
      let sent = w.sent ++ record { call = call; accepted = accepted } ∷ [] in
      if accepted
      then ran (record { collection_id = s.collection_id; token = t; strategy = s.strategy })
          (record { tokens = store.succeed t w.tokens; sent = sent })
      else raised (record { tokens = store.fail t w.tokens; sent = sent })

  pub turn : CompilationSchedule → Minute → World S → Turn S
  unfolding is_due token send
  turn s now w =
      let t = token s now in
      let (begun, tokens) = store.begin t w.tokens in
      if not (is_due s now)
      then passed w
      else if not begun
      then passed (record w { tokens = tokens })
      else send s t (record w { tokens = tokens })

  pub run_due :
      List CompilationSchedule
      → Minute
      → List ScheduledRun
      → World S
      → Result DispatchError (List ScheduledRun) × World S
  unfolding turn
  run_due [] now runs w = (ok runs, w)
  run_due (s ∷ ss) now runs w = elim (turn s now w) [
    | passed w' ↦ run_due ss now runs w'
    | ran run w' ↦ run_due ss now (runs ++ run ∷ []) w'
    | raised w' ↦ (err refused, w')
  ]

  -- `async_handle_due`, where `as_local` is Home Assistant's conversion to local time
  unfoldable pub handle_due :
      (Minute → Minute)
      → List CompilationSchedule
      → Minute
      → World S
      → Result DispatchError (List ScheduledRun) × World S
  unfolding run_due
  handle_due as_local schedules now w =
      if not now.aware
      then (err naive, w)
      else run_due (sort_by by_collection schedules) (as_local now) [] w
