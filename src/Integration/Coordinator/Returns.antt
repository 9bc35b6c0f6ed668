-- ===== src/Integration/Coordinator/Returns.antt =====
-- When a poll returns, and when it raises (coordinator.py).
use native.Mathlib.Nat.{pow-le-pow_right}
use hass_clips_manager.Prelude.{
  ◌≡◌, refl, sym, ap, ◌∙◌, inl, inr, ℕ, ◌+◌, ◌*◌, ◌/◌, ◌^◌, ◌≤◌, min, Bool, true, false, ◌&&◌, ◌||◌,
  leb, ltb, arith, Bool-cases, leb→le, leb→lt,
}
use hass_clips_manager.Prelude.Results.{Result, ok, err, Result-cases}
use hass_clips_manager.Prelude.Effects.{Effect, Reply, returned, raised, outcome, resume}
use hass_clips_manager.Integration.Resolver.{SelectionResult}
use hass_clips_manager.Integration.Coordinator.{
  Answer, answered, unavailable, Calendar, Sources, Coordinator, CoordinatorSnapshot, PollError,
  overflow_error,
}
use hass_clips_manager.Integration.Coordinator.Policies.{schedules, resolve}
use hass_clips_manager.Integration.Coordinator.Describe.{snapshot_of, is_answered}
use hass_clips_manager.Integration.Coordinator.Poll.{as_policy_error, backoff, adopt, poll}

small_power : (n : ℕ) → n ≤ 41 → 2 ^ n ≤ 2199023255552
small_power n h = pow-le-pow_right {n = 2} (omega arith) h

large_power : (n : ℕ) → 42 ≤ n → 4398046511104 ≤ 2 ^ n
large_power n h = pow-le-pow_right {n = 2} (omega arith) h

pub backoff-eq_ok : (n : ℕ) → n ≤ 41 → backoff n ≡ ok (min (30 * 2 ^ n) 300)
unfolding backoff
backoff-eq_ok n h =
    let small = small_power n h in
    let fits : ltb 999999999 (30 * 2 ^ n / 86400) ≡ false = ground (arith, small) in rw fits refl

pub backoff-eq_err : (n : ℕ) → 42 ≤ n → backoff n ≡ err overflow_error
unfolding backoff
backoff-eq_err n h =
    let large = large_power n h in
    let over : ltb 999999999 (30 * 2 ^ n / 86400) ≡ true = ground (arith, large) in rw over refl

abbrev pub is_returned : {S E A : Type 0} → Reply S E A → Bool
is_returned (returned s a) = true
is_returned (raised s e) = false

abbrev pub is_ok : {E A : Type 0} → Result E A → Bool
is_ok (ok a) = true
is_ok (err e) = false

-- The coordinator once a poll has taken over what the Worker answered
abbrev pub informed : Calendar → Answer → Coordinator → Coordinator
informed cal (unavailable message) c = c
informed cal (answered health status states collections) c = adopt cal collections c

resolve-is_ok :
    (cal : Calendar) (src : Sources) (c : Coordinator) → is_ok (resolve cal src c) ≡ src.now.aware
unfolding resolve
resolve-is_ok cal src c = ground arith

-- The last step of a poll returns if every schedule is valid.
described :
    (cal : Calendar) (src : Sources) (answer : Answer) (selection : SelectionResult)
    (c : Coordinator)
    → is_returned
        (outcome {S = Coordinator} (as_policy_error (snapshot_of cal src answer selection c)) c)
      ≡ is_ok (schedules cal src c)
unfolding snapshot_of
described cal src answer selection c = elim (Result-cases (schedules cal src c)) [
  | inl (ss, e) ↦ rw e refl
  | inr (x, e) ↦ rw e refl
]

-- What follows a resolution, if the selection changes nothing that the schedules are read from
resolved :
    (cal : Calendar) (src : Sources) (c : Coordinator)
    (next : SelectionResult → Effect Coordinator PollError CoordinatorSnapshot)
    → ((selection : SelectionResult) → is_returned (next selection c) ≡ is_ok (schedules cal src c))
    → is_returned (resume next (outcome (as_policy_error (resolve cal src c)) c))
      ≡ (src.now.aware && is_ok (schedules cal src c))
unfolding schedules
resolved cal src c next h = elim (Result-cases (resolve cal src c)) [
  | inl (selection, e) ↦
      let aware : src.now.aware ≡ true = sym (resolve-is_ok cal src c) ∙ ap is_ok e in
      rw (e, aware) (h selection)
  | inr (x, e) ↦
      let naive : src.now.aware ≡ false = sym (resolve-is_ok cal src c) ∙ ap is_ok e in
      rw (e, naive) refl
]

abbrev pub backed_off : Coordinator → Coordinator
backed_off c = record c {
  failure_count = c.failure_count + 1;
  update_interval = min (30 * 2 ^ (c.failure_count + 1)) 300;
}

abbrev pub reconnected : Coordinator → Coordinator
reconnected c = record c { failure_count = 0; update_interval = 30 }

-- A poll returns exactly if its time has a zone, the schedule of every collection is a valid one, and
-- the Worker answers or has failed at most 40 times since it last did.
pub is_returned-poll :
    (cal : Calendar) (src : Sources) (answer : Answer) (c : Coordinator)
    → is_returned (poll cal src answer c) ≡ (
        src.now.aware
        && (is_ok (schedules cal src (informed cal answer c))
            && (is_answered answer || leb c.failure_count 40)))
unfolding poll schedules
is_returned-poll cal src (unavailable message) c = elim (Bool-cases (leb c.failure_count 40)) [
  | inl h ↦
      rw (backoff-eq_ok (c.failure_count + 1) (omega (arith, leb→le c.failure_count 40 h)), h)
        (resolved cal src (backed_off c) _
            (λ selection. described cal src (unavailable message) selection (backed_off c))
          ∙ ground arith)
  | inr h ↦
      rw (backoff-eq_err (c.failure_count + 1) (omega (arith, leb→lt c.failure_count 40 h)), h)
        (ground arith)
]
is_returned-poll cal src (answered health status states collections) c =
    let answer = answered health status states collections in
    resolved cal src (adopt cal collections c) _
      (λ selection. described cal src answer selection (reconnected (adopt cal collections c)))
    ∙ ground arith
