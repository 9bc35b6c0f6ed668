-- ===== src/Integration/Coordinator/Outage.antt =====
-- What the coordinator keeps while the Worker is away (coordinator.py).
use mathlib.Core.Path.{subst}
use hass_clips_manager.Prelude.{
  ◌≡◌, refl, sym, ap, ◌∙◌, inl, inr, ℕ, suc, ◌+◌, ◌*◌, ◌^◌, ◌≤◌, min, Bool, false, String, none,
  some, leb, arith, Bool-cases, leb→le, leb→lt,
}
use hass_clips_manager.Prelude.Results.{ok, Result-cases}
use hass_clips_manager.Prelude.Effects.{
  Reply, returned, raised, outcome, final, Post, Post-map, Post-resume, Post-outcome,
}
use hass_clips_manager.Integration.Resolver.{SelectionResult}
use hass_clips_manager.Integration.Coordinator.{
  Answer, unavailable, Calendar, Sources, Coordinator, CoordinatorSnapshot, PollError,
}
use hass_clips_manager.Integration.Coordinator.Policies.{schedules, resolve, current_policies}
use hass_clips_manager.Integration.Coordinator.Describe.{snapshot_of, is_answered}
use hass_clips_manager.Integration.Coordinator.Poll.{as_policy_error, backoff, poll}
use hass_clips_manager.Integration.Coordinator.Returns.{backoff-eq_ok, backoff-eq_err, backed_off}

-- A snapshot tells of a selection.
abbrev pub Tells : Bool → SelectionResult → CoordinatorSnapshot → Type 0
Tells available selection snapshot =
    (snapshot.active_collection_id
      ≡ (elim selection.collection [ none ↦ none | some p ↦ some p.id ]))
    × (snapshot.reason ≡ selection.reason)
    × (snapshot.override_rejected ≡ selection.override_rejected)
    × (snapshot.available ≡ available)

abbrev Nothing : Coordinator → Type 0
Nothing c = Unit

tells :
    (cal : Calendar) (src : Sources) (answer : Answer) (selection : SelectionResult)
    (c : Coordinator)
    → Post Nothing
        (λ s snapshot. (s ≡ c) × Tells (is_answered answer) selection snapshot)
        (outcome {S = Coordinator} (as_policy_error (snapshot_of cal src answer selection c)) c)
unfolding snapshot_of
tells cal src answer selection c = elim (Result-cases (schedules cal src c)) [
  | inl (ss, e) ↦ rw e (refl, (refl, refl, refl, refl))
  | inr (x, e) ↦ rw e tt
]

-- What a failing poll that returns has done
abbrev pub HasFailed : Calendar → Sources → Coordinator → Coordinator → CoordinatorSnapshot → Type 0
HasFailed cal src c s snapshot =
    (selection : SelectionResult) × (resolve cal src c ≡ ok selection)
    × Tells false selection snapshot
    × (s ≡ backed_off c)
    × (c.failure_count ≤ 40)

failing_poll :
    (cal : Calendar) (src : Sources) (message : String) (c : Coordinator)
    → Post Nothing (HasFailed cal src c) (poll cal src (unavailable message) c)
unfolding poll resolve
failing_poll cal src message c = elim (Bool-cases (leb c.failure_count 40)) [
  | inl h ↦
      let few = leb→le c.failure_count 40 h in
      elim (Result-cases (resolve cal src c)) [
        | inl (selection, e) ↦
            rw (backoff-eq_ok (c.failure_count + 1) (omega (arith, few)), e)
              (Post-map Nothing (λ s snapshot. (s ≡ backed_off c) × Tells false selection snapshot)
                (HasFailed cal src c) _
                (tells cal src (unavailable message) selection (backed_off c))
                (λ snapshot s (same, told). (selection, e, told, same, few)))
        | inr (x, e) ↦ rw (backoff-eq_ok (c.failure_count + 1) (omega (arith, few)), e) tt
      ]
  | inr h ↦
      rw (backoff-eq_err (c.failure_count + 1) (omega (arith, leb→lt c.failure_count 40 h))) tt
]

-- From one state, some polls one after the other have found the Worker away and led to another.
pub data Outage (cal : Calendar) (c : Coordinator) : ℕ → Coordinator → Type 0 where
  begins : Outage cal c 0 c
  fails :
      {m : ℕ} {t : Coordinator} (src : Sources) (message : String)
      → Outage cal c m t
      → Outage cal c (suc m) (final (poll cal src (unavailable message) t))

-- What an outage leaves as it was
abbrev pub IsKept : Coordinator → ℕ → Coordinator → Type 0
IsKept c n s =
    (s.policies ≡ c.policies)
    × (s.worker_collections ≡ c.worker_collections)
    × (s.failure_count ≡ c.failure_count + n)

abbrev Kept : Coordinator → {A : Type 0} → Coordinator → A → Type 0
Kept c s a = IsKept c 1 s

Post-final :
    {A : Type 0} (P : Coordinator → Type 0) (r : Reply Coordinator PollError A)
    → Post P (λ s _. P s) r
    → P (final r)
Post-final P (returned s a) p = p
Post-final P (raised s e) p = p

poll-IsKept :
    (cal : Calendar) (src : Sources) (message : String) (c : Coordinator)
    → IsKept c 1 (final (poll cal src (unavailable message) c))
unfolding poll
poll-IsKept cal src message c =
    let first : Coordinator = record c { failure_count = c.failure_count + 1 } in
    Post-final (IsKept c 1) (poll cal src (unavailable message) c) (
      Post-resume (IsKept c 1) (Kept c) (Kept c) _ (outcome (backoff first.failure_count) first)
        (Post-outcome (IsKept c 1) (Kept c) (backoff first.failure_count) first (refl, refl, refl)
          (λ _ _. (refl, refl, refl)))
        (λ seconds s k.
          let waits : Coordinator = record s { update_interval = seconds } in
          Post-resume (IsKept c 1) (Kept c) (Kept c) _
            (outcome (as_policy_error (resolve cal src waits)) waits)
            (Post-outcome (IsKept c 1) (Kept c) (as_policy_error (resolve cal src waits)) waits k
              (λ _ _. k))
            (λ selection s k.
              Post-outcome (IsKept c 1) (Kept c)
                (as_policy_error (snapshot_of cal src (unavailable message) selection s)) s k
                (λ _ _. k))))

Outage-IsKept :
    (cal : Calendar) (c : Coordinator) (n : ℕ) (s : Coordinator) → Outage cal c n s → IsKept c n s
Outage-IsKept cal c n s begins = (refl, refl, omega arith)
Outage-IsKept cal c n s (fails {m} {t} src message o) =
    let (policies, collections, count) = Outage-IsKept cal c m t o in
    let (policies', collections', count') = poll-IsKept cal src message t in
    (policies' ∙ policies, collections' ∙ collections, omega (arith, count, count'))

same_resolution :
    (cal : Calendar) (src : Sources) (c s : Coordinator)
    → s.policies ≡ c.policies
    → resolve cal src c ≡ resolve cal src s
unfolding resolve current_policies
same_resolution cal src c s h = ap (λ p. resolve cal src (record c { policies = p })) (sym h)

-- However many polls in a row have found the Worker away, a further one that finds it away and returns
-- answers with what the resolver makes of the policies from before, waits for 30 seconds doubled with
-- each failure, and 300 at most, and is not the 42nd failure or a later one.
pub outage_lem :
    (cal : Calendar) (c s s' : Coordinator) (n : ℕ) (src : Sources) (message : String)
    (snapshot : CoordinatorSnapshot)
    → Outage cal c n s
    → poll cal src (unavailable message) s ≡ returned s' snapshot
    → (selection : SelectionResult) × (resolve cal src c ≡ ok selection)
      × Tells false selection snapshot
      × (s'.update_interval ≡ min (30 * 2 ^ (c.failure_count + n + 1)) 300)
      × (c.failure_count + n ≤ 40)
outage_lem cal c s s' n src message snapshot o r =
    let (policies, collections, count) = Outage-IsKept cal c n s o in
    let (selection, resolves, told, after, few) =
      subst (Post Nothing (HasFailed cal src s)) r (failing_poll cal src message s) in
    (
      selection,
      same_resolution cal src c s policies ∙ resolves,
      told,
      ap (λ x. x.update_interval) after ∙ ap (λ k. min (30 * 2 ^ (k + 1)) 300) count,
      omega (arith, few, count),
    )
