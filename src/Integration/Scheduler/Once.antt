-- ===== src/Integration/Scheduler/Once.antt =====
-- Each occurrence is accepted by the Worker at most once (scheduler.py).
use mathlib.Core.Path.{subst}
use hass_clips_manager.Prelude.{
  ◌≡◌, refl, sym, ap, ◌⊎◌, inl, inr, ℕ, ◌≤◌, Bool, true, false, ◌&&◌, not, String, List, [], ◌∷◌,
  ◌++◌, if◌then◌else◌, ◌==◌, arith, eq_iff, Bool-cases,
}
use hass_clips_manager.Prelude.Tables.{count_where}
use hass_clips_manager.Prelude.Tables.Counts.{count-append}
use hass_clips_manager.Prelude.Sorting.{sort_by}
use hass_clips_manager.Prelude.Results.{Result, err}
use hass_clips_manager.Integration.Tokens.{RunTokenStore}
use hass_clips_manager.Integration.Tokens.Laws.{IsTokenStore}
use hass_clips_manager.Integration.Scheduler.{
  CompilationSchedule, Minute, ScheduledRun, Call, scan, compile, Sent, World, token, is_due,
  call_for, Turn, passed, ran, raised, DispatchError, send, turn, run_due, handle_due,
  by_collection,
}

-- The token that a request carries as its idempotency key
abbrev pub token_of : Call → String
token_of (scan collection_id t) = t
token_of (compile collection_id strategy skip t) = t

-- The Worker has accepted a request for the occurrence.
abbrev pub is_accepted : String → Sent → Bool
is_accepted t r = r.accepted && (token_of r.call == t)

abbrev pub acceptances : {S : Type 0} → String → World S → ℕ
acceptances t w = count_where (is_accepted t) w.sent

call_for_token : (s : CompilationSchedule) (t : String) → token_of (call_for s t) ≡ t
unfolding call_for
call_for_token s t = ground arith

-- Where a turn of the loop has gone to
abbrev pub after_turn : {S : Type 0} → Turn S → World S
after_turn (passed w) = w
after_turn (ran run w) = w
after_turn (raised w) = w

pub Turn-cases :
    {S : Type 0} (r : Turn S)
    → ((w : World S) × (r ≡ passed w))
      ⊎ (((run : ScheduledRun) × (w : World S) × (r ≡ ran run w))
          ⊎ ((w : World S) × (r ≡ raised w)))
Turn-cases (passed w) = inl (w, refl)
Turn-cases (ran run w) = inr (inl (run, w, refl))
Turn-cases (raised w) = inr (inr (w, refl))

module _ {S : Type 0} (store : RunTokenStore S) (succeeded : String → S → Bool)
    (laws : IsTokenStore store succeeded) (respond : List Sent → Call → Bool) where
  -- No occurrence was accepted twice, and none that is not recorded as succeeded was accepted.
  abbrev Once : World S → Type 0
  Once w =
      (t : String) → (acceptances t w ≤ 1) × (succeeded t w.tokens ≡ false → acceptances t w ≡ 0)

  send-Once :
      (s : CompilationSchedule) (t : String) (w : World S)
      → succeeded t w.tokens ≡ false
      → Once w
      → Once (after_turn (send store respond s t w))
  unfolding send count_where
  send-Once s t w h once u =
      let (a, b) = once u in
      let (c, d) = once t in
      let accepted = respond w.sent (call_for s t) in
      let more =
        count-append (is_accepted u) w.sent
          (record { call = call_for s t; accepted = accepted } ∷ []) in
      let known = laws.succeed_lem t u w.tokens in
      let kept = laws.fail_keeps t u w.tokens h in
      ground (arith, a, b, d, h, more, known, kept, call_for_token s t, eq_iff t u)

  turn-Once :
      (s : CompilationSchedule) (now : Minute) (w : World S)
      → Once w
      → Once (after_turn (turn store respond s now w))
  unfolding turn
  turn-Once s now w once =
      let t = token s now in
      let tokens = (store.begin t w.tokens).1 in
      let begun : Once (record w { tokens = tokens }) =
        λ u. ground (arith, once u, laws.begin_keeps t u w.tokens) in
      elim (Bool-cases (is_due s now)) [
        | inl e ↦ elim (Bool-cases (store.begin t w.tokens).0) [
          | inl f ↦
              let fresh : succeeded t tokens ≡ false =
                ground (arith, laws.begin_lem t w.tokens, laws.begin_keeps t t w.tokens) in
              rw (e, f, turn) (send-Once s t (record w { tokens = tokens }) fresh begun)
          | inr f ↦ rw (e, f, turn) begun
        ]
        | inr e ↦ rw (e, turn) once
      ]

  -- The rest of the loop, once a turn has been taken
  abbrev pub next_turn :
      List CompilationSchedule
      → Minute
      → List ScheduledRun
      → Turn S
      → Result DispatchError (List ScheduledRun) × World S
  next_turn ss now runs r = elim r [
    | passed w' ↦ run_due store respond ss now runs w'
    | ran run w' ↦ run_due store respond ss now (runs ++ run ∷ []) w'
    | raised w' ↦ (err DispatchError.refused, w')
  ]

  pub run_due_next :
      (s : CompilationSchedule) (ss : List CompilationSchedule) (now : Minute)
      (runs : List ScheduledRun) (w : World S) (r : Turn S)
      → turn store respond s now w ≡ r
      → run_due store respond (s ∷ ss) now runs w ≡ next_turn ss now runs r
  unfolding run_due
  run_due_next s ss now runs w r e = ap (next_turn ss now runs) e

  run_due-Once :
      (ss : List CompilationSchedule) (now : Minute) (runs : List ScheduledRun) (w : World S)
      → Once w
      → Once (run_due store respond ss now runs w).1
  unfolding run_due
  run_due-Once [] now runs w once = once
  run_due-Once (s ∷ ss) now runs w once =
      let taken : (r : Turn S) → turn store respond s now w ≡ r → Once (after_turn r) =
        λ r e. subst (λ r. Once (after_turn r)) e (turn-Once s now w once) in
      let back : (r : Turn S)
          → turn store respond s now w ≡ r
          → Once (next_turn ss now runs r).1
          → Once (run_due store respond (s ∷ ss) now runs w).1 =
        λ r e h. subst (λ x. Once x.1) (sym (run_due_next s ss now runs w r e)) h in
      elim (Turn-cases (turn store respond s now w)) [
        | inl (w', e) ↦ back (passed w') e (run_due-Once ss now runs w' (taken (passed w') e))
        | inr (inl (run, w', e)) ↦
            back (ran run w') e (run_due-Once ss now (runs ++ run ∷ []) w' (taken (ran run w') e))
        | inr (inr (w', e)) ↦ back (raised w') e (taken (raised w') e)
      ]

  handle_due-Once :
      (as_local : Minute → Minute) (schedules : List CompilationSchedule) (now : Minute)
      (w : World S)
      → Once w
      → Once (handle_due store respond as_local schedules now w).1
  unfolding handle_due
  handle_due-Once as_local schedules now w once =
      let due = run_due store respond (sort_by by_collection schedules) (as_local now) [] w in
      let taken : (b : Bool) → Once (if not b then (err DispatchError.naive, w) else due).1 = λ b.
        elim b as (λ b. Once (if not b then (err DispatchError.naive, w) else due).1) [
          | true ↦ run_due-Once (sort_by by_collection schedules) (as_local now) [] w once
          | false ↦ once
        ] in
      taken now.aware

  -- What calls of `async_handle_due` at some times, with the schedules of each time, lead to
  pub data Ticks (w : World S) : World S → Type 0 where
    start : Ticks w w
    tick :
        (as_local : Minute → Minute) (schedules : List CompilationSchedule) (now : Minute)
        (v : World S)
        → Ticks w v
        → Ticks w (handle_due store respond as_local schedules now v).1

  Ticks-Once : (w v : World S) → Ticks w v → Once w → Once v
  Ticks-Once w _ start once = once
  Ticks-Once w _ (tick as_local schedules now v before) once =
      handle_due-Once as_local schedules now v (Ticks-Once w v before once)

  -- Over a store of tokens with the laws, however often the scheduler runs, at whatever times and over
  -- whatever schedules, the Worker accepts
  -- at most one request for any occurrence, and none for one that is not recorded as succeeded;
  -- requests that it refuses are not counted.
  pub dispatched_once :
      (tokens : S) (v : World S) (t : String)
      → Ticks (record { tokens = tokens; sent = [] }) v
      → (acceptances t v ≤ 1) × (succeeded t v.tokens ≡ false → acceptances t v ≡ 0)
  unfolding count_where
  dispatched_once tokens v t ticks =
      Ticks-Once (record { tokens = tokens; sent = [] }) v ticks (λ u. (omega arith, λ h. refl)) t
