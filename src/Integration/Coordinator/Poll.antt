-- ===== src/Integration/Coordinator/Poll.antt =====
-- A poll of the Worker and its back-off (coordinator.py).
use hass_clips_manager.Prelude.{ℕ, ◌+◌, ◌*◌, ◌/◌, ◌^◌, min, List, if◌then◌else◌, ltb}
use hass_clips_manager.Prelude.Tables.{is_nil}
use hass_clips_manager.Prelude.Results.{Result, ok, err}
use hass_clips_manager.Integration.Const.{ValueError}
use hass_clips_manager.Prelude.Effects.{Effect, returned, outcome, ◌>>=◌, ◌>>◌}
use hass_clips_manager.Integration.Coordinator.{
  WorkerCollection, Answer, answered, unavailable, Calendar, Sources, Coordinator,
  CoordinatorSnapshot, PollError, policy_error, overflow_error,
}
use hass_clips_manager.Integration.Coordinator.Policies.{policies_from_collections, resolve}
use hass_clips_manager.Integration.Coordinator.Describe.{snapshot_of}

-- `_BASE_UPDATE_INTERVAL * (2**n)` and its minimum with `_MAX_UPDATE_INTERVAL`. A `timedelta` of more than
-- 999,999,999 days is an `OverflowError`.
unfoldable pub backoff : ℕ → Result PollError ℕ
backoff n =
    let seconds = 30 * 2 ^ n in
    if ltb 999999999 (seconds / 86400) then err overflow_error else ok (min seconds 300)

abbrev pub as_policy_error : {A : Type 0} → Result ValueError A → Result PollError A
as_policy_error (ok a) = ok a
as_policy_error (err e) = err (policy_error e)

-- A step that reads the coordinator and may raise, and one that writes it
abbrev pub reading :
    {A : Type 0} → (Coordinator → Result PollError A) → Effect Coordinator PollError A
reading f c = outcome (f c) c

abbrev pub writing : (Coordinator → Coordinator) → Effect Coordinator PollError (Unit {0})
writing f c = returned (f c) tt

-- `if collections:` the policy of the Worker replaces what was there.
unfoldable pub adopt : Calendar → List WorkerCollection → Coordinator → Coordinator
unfolding policies_from_collections
adopt cal collections c = if is_nil collections then c else record c {
  worker_collections = collections;
  policies = policies_from_collections cal.datetime_of collections;
}

-- `async_update_data`
unfoldable pub poll : Calendar → Sources → Answer → Effect Coordinator PollError CoordinatorSnapshot
unfolding resolve snapshot_of backoff adopt
poll cal src (unavailable message) =
    writing (λ c. record c { failure_count = c.failure_count + 1 })
    >> reading (λ c. backoff c.failure_count)
    >>= λ seconds.
        writing (λ c. record c { update_interval = seconds })
        >> reading (λ c. as_policy_error (resolve cal src c))
        >>= λ selection.
            reading (λ c. as_policy_error (snapshot_of cal src (unavailable message) selection c))
poll cal src (answered health status states collections) =
    writing (adopt cal collections)
    >> reading (λ c. as_policy_error (resolve cal src c))
    >>= λ selection.
        writing (λ c. record c { failure_count = 0; update_interval = 30 })
        >> reading (λ c.
          as_policy_error
            (snapshot_of cal src (answered health status states collections) selection c))
