-- ===== src/Integration/Scheduler/Due.antt =====
-- Every due occurrence is dispatched (scheduler.py).
use mathlib.Core.Path.{subst}
use hass_clips_manager.Prelude.{
  ◌≡◌, refl, sym, ap, ◌∙◌, inl, inr, Bool, true, false, not, String, List, [], ◌∷◌, ◌++◌,
  if◌then◌else◌, arith, eq_refl, Bool-cases,
}
use hass_clips_manager.Prelude.Tables.{Stored}
use hass_clips_manager.Prelude.Sorting.{sort_by, Stored-sort_by}
use hass_clips_manager.Prelude.Results.{Result, ok, err}
use hass_clips_manager.Integration.Tokens.{RunTokenStore}
use hass_clips_manager.Integration.Tokens.Laws.{IsTokenStore}
use hass_clips_manager.Integration.Scheduler.{
  CompilationSchedule, Minute, ScheduledRun, Call, Sent, World, token, is_due, Turn, passed, ran,
  raised, DispatchError, send, turn, run_due, handle_due, by_collection,
}
use hass_clips_manager.Integration.Scheduler.Once.{Turn-cases, run_due_next, after_turn}

abbrev pub is_raised : {S : Type 0} → Turn S → Bool
is_raised (raised w) = true
is_raised _ = false

module _ {S : Type 0} (store : RunTokenStore S) (succeeded : String → S → Bool)
    (laws : IsTokenStore store succeeded) (respond : List Sent → Call → Bool) where
  -- The turn of a schedule that is due leaves its token succeeded, unless it raises.
  turn_due :
      (s : CompilationSchedule) (now : Minute) (w : World S)
      → is_due s now ≡ true
      → succeeded (token s now) (after_turn (turn store respond s now w)).tokens
        ≡ not (is_raised (turn store respond s now w))
  unfolding turn send
  turn_due s now w h =
      let u = token s now in
      let tokens = (store.begin u w.tokens).1 in
      ground (
        arith,
        h,
        laws.begin_lem u w.tokens,
        laws.begin_keeps u u w.tokens,
        laws.succeed_lem u u tokens,
        laws.fail_keeps u u tokens,
        eq_refl u,
      )

  turn_keeps :
      (s : CompilationSchedule) (now : Minute) (w : World S) (t : String)
      → succeeded t w.tokens ≡ true
      → succeeded t (after_turn (turn store respond s now w)).tokens ≡ true
  unfolding turn send
  turn_keeps s now w t h =
      let u = token s now in
      let tokens = (store.begin u w.tokens).1 in
      ground (
        arith,
        h,
        laws.begin_lem u w.tokens,
        laws.begin_keeps u t w.tokens,
        laws.begin_keeps u u w.tokens,
        laws.succeed_lem u t tokens,
        laws.fail_keeps u t tokens,
      )

  run_due_keeps :
      (ss : List CompilationSchedule) (now : Minute) (runs : List ScheduledRun) (w : World S)
      (t : String)
      → succeeded t w.tokens ≡ true
      → succeeded t (run_due store respond ss now runs w).1.tokens ≡ true
  unfolding run_due
  run_due_keeps [] now runs w t h = h
  run_due_keeps (s ∷ ss) now runs w t h =
      let kept = turn_keeps s now w t h in
      let next = run_due_next store succeeded laws respond s ss now runs w in
      elim (Turn-cases (turn store respond s now w)) [
        | inl (w', e) ↦
            ap (λ x. succeeded t x.1.tokens) (next (passed w') e)
            ∙ run_due_keeps ss now runs w' t
                (subst (λ r. succeeded t (after_turn r).tokens ≡ true) e kept)
        | inr (inl (run, w', e)) ↦
            ap (λ x. succeeded t x.1.tokens) (next (ran run w') e)
            ∙ run_due_keeps ss now (runs ++ run ∷ []) w' t
                (subst (λ r. succeeded t (after_turn r).tokens ≡ true) e kept)
        | inr (inr (w', e)) ↦
            ap (λ x. succeeded t x.1.tokens) (next (raised w') e)
            ∙ subst (λ r. succeeded t (after_turn r).tokens ≡ true) e kept
      ]

  -- Where the loop goes on after a turn, that turn's token has succeeded if its schedule was due.
  goes_on :
      (s x : CompilationSchedule) (ss : List CompilationSchedule) (now : Minute)
      (runs : List ScheduledRun) (w v : World S) (r : Turn S)
      → turn store respond s now w ≡ r
      → is_raised r ≡ false
      → after_turn r ≡ v
      → s ≡ x
      → is_due x now ≡ true
      → succeeded (token x now) (run_due store respond ss now runs v).1.tokens ≡ true
  goes_on s x ss now runs w v r e calm there same due =
      let due' : is_due s now ≡ true = ap (λ s. is_due s now) same ∙ due in
      let done : succeeded (token s now) v.tokens ≡ true =
        ap (λ v. succeeded (token s now) v.tokens) (sym there)
        ∙ (ap (λ r. succeeded (token s now) (after_turn r).tokens) (sym e)
            ∙ (turn_due s now w due' ∙ ap not (ap is_raised e ∙ calm))) in
      subst (λ s. succeeded (token s now) (run_due store respond ss now runs v).1.tokens ≡ true)
        same (run_due_keeps ss now runs v (token s now) done)

  run_due_all :
      (x : CompilationSchedule) (ss : List CompilationSchedule) (now : Minute)
      (runs rs : List ScheduledRun) (w : World S)
      → (run_due store respond ss now runs w).0 ≡ ok rs
      → Stored x ss
      → is_due x now ≡ true
      → succeeded (token x now) (run_due store respond ss now runs w).1.tokens ≡ true
  run_due_all x [] now runs rs w e h due = elim h [ ]
  run_due_all x (s ∷ ss) now runs rs w e h due =
      let next = run_due_next store succeeded laws respond s ss now runs w in
      elim (Turn-cases (turn store respond s now w)) [
        | inl (v, k) ↦
            let n = next (passed v) k in
            ap (λ r. succeeded (token x now) r.1.tokens) n ∙ elim h [
              | inl same ↦ goes_on s x ss now runs w v (passed v) k refl refl same due
              | inr later ↦ run_due_all x ss now runs rs v (sym (ap (λ r. r.0) n) ∙ e) later due
            ]
        | inr (inl (run, v, k)) ↦
            let n = next (ran run v) k in
            let runs' = runs ++ run ∷ [] in
            ap (λ r. succeeded (token x now) r.1.tokens) n ∙ elim h [
              | inl same ↦ goes_on s x ss now runs' w v (ran run v) k refl refl same due
              | inr later ↦ run_due_all x ss now runs' rs v (sym (ap (λ r. r.0) n) ∙ e) later due
            ]
        | inr (inr (v, k)) ↦ absurd (ground (arith, sym (ap (λ r. r.0) (next (raised v) k)) ∙ e))
      ]

  -- Over a store of tokens with the laws, when a call of `async_handle_due` returns, every schedule that
  -- was due at its local time is recorded
  -- as dispatched, by this call or by an earlier one.
  pub due_dispatched :
      (as_local : Minute → Minute) (schedules : List CompilationSchedule) (now : Minute)
      (w : World S) (rs : List ScheduledRun) (x : CompilationSchedule)
      → (handle_due store respond as_local schedules now w).0 ≡ ok rs
      → Stored x schedules
      → is_due x (as_local now) ≡ true
      → succeeded
          (token x (as_local now))
          (handle_due store respond as_local schedules now w).1.tokens
        ≡ true
  unfolding handle_due
  due_dispatched as_local schedules now w rs x e h due =
      let due_now = run_due store respond (sort_by by_collection schedules) (as_local now) [] w in
      let at : Bool → Result DispatchError (List ScheduledRun) × World S =
        λ b. if not b then (err DispatchError.naive, w) else due_now in
      elim (Bool-cases now.aware) [
        | inl k ↦
            ap (λ b. succeeded (token x (as_local now)) (at b).1.tokens) k
            ∙ run_due_all x (sort_by by_collection schedules) (as_local now) [] rs w
                (sym (ap (λ b. (at b).0) k) ∙ e) (Stored-sort_by by_collection x schedules h) due
        | inr k ↦ absurd (ground (arith, sym (ap (λ b. (at b).0) k) ∙ e))
      ]
