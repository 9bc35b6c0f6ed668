-- ===== src/Integration/Upcoming/Earliest.antt =====
-- The next schedule is the earliest occurrence of any (coordinator.py).
use mathlib.Core.Path.{subst}
use mathlib.Core.Option.{none-ne-some}
use hass_clips_manager.Prelude.{
  leb→le, leb→lt, ◌≡◌, ◌⊎◌, refl, sym, ap, ◌∙◌, inl, inr, ℕ, suc, ◌+◌, ◌-◌, ◌%◌, ◌≤◌, ◌<◌, true,
  Option, none, some, List, [], ◌∷◌, if◌then◌else◌, leb, ltb, arith, Bool-cases,
}
use hass_clips_manager.Prelude.Tables.{Stored, All}
use hass_clips_manager.Prelude.Tables.Search.{
  IsOrder, first_by-Stored, first_by-least, first_by-eq_none, All-Stored,
}
use hass_clips_manager.Integration.Scheduler.{CompilationSchedule, on_weekday}
use hass_clips_manager.Integration.Upcoming.{
  LocalNow, day_length, weekday, schedule_time, moment, fits, occurrence, first_occurrence,
  with_candidate, candidates, next_schedule,
}

-- A time at which a schedule runs and that is not past: the day may be any.
abbrev pub IsOccurrence : CompilationSchedule → LocalNow → ℕ → Type 0
IsOccurrence s now t =
    (day : ℕ) × (on_weekday (weekday day) s.weekdays ≡ true)
    × (t ≡ moment day (schedule_time s))
    × (moment now.ordinal now.time_of_day ≤ t)

fits-IsOccurrence :
    (s : CompilationSchedule) (now : LocalNow) (k : ℕ)
    → fits s now k ≡ true
    → IsOccurrence s now (moment (now.ordinal + k) (schedule_time s))
unfolding fits
fits-IsOccurrence s now k h = (now.ordinal + k, ground (arith, h), refl, ground (arith, h))

occurrence-IsOccurrence :
    (s : CompilationSchedule) (now : LocalNow) (k n c : ℕ)
    → occurrence s now k n ≡ some c
    → IsOccurrence s now c
unfolding occurrence
occurrence-IsOccurrence s now k ℕ.zero c h = cc
occurrence-IsOccurrence s now k (suc n) c h = elim (Bool-cases (fits s now k)) [
  | inl e ↦ subst (IsOccurrence s now) (ground (arith, h, e)) (fits-IsOccurrence s now k e)
  | inr e ↦ occurrence-IsOccurrence s now (k + 1) n c (ground (arith, h, e))
]

-- A day that fits among those ahead gives an occurrence that is no later.
occurrence_first :
    (s : CompilationSchedule) (now : LocalNow) (k n j : ℕ)
    → k ≤ j
    → j < k + n
    → fits s now j ≡ true
    → (c : ℕ) × (occurrence s now k n ≡ some c) × (c ≤ moment (now.ordinal + j) (schedule_time s))
unfolding occurrence
occurrence_first s now k ℕ.zero j h l f = absurd (omega arith)
occurrence_first s now k (suc n) j h l f = elim (Bool-cases (fits s now k)) [
  | inl e ↦ (moment (now.ordinal + k) (schedule_time s), rw e refl, omega arith)
  | inr e ↦ elim (Bool-cases (leb j k)) [
    | inl g ↦
        let same : k ≡ j = omega (arith, leb→le j k g) in
        absurd (ground (arith, ap (fits s now) same, e, f))
    | inr g ↦
        rw e (occurrence_first s now (k + 1) n j (omega (arith, leb→lt j k g)) (omega arith) f)
  ]
]

fits_on :
    (s : CompilationSchedule) (now : LocalNow) (day j : ℕ)
    → on_weekday (weekday day) s.weekdays ≡ true
    → weekday (now.ordinal + j) ≡ weekday day
    → moment now.ordinal now.time_of_day ≤ moment (now.ordinal + j) (schedule_time s)
    → fits s now j ≡ true
unfolding fits
fits_on s now day j on_day same later =
    ground (arith, ap (λ w. on_weekday w s.weekdays) same, on_day, later)

-- An occurrence on any day is no earlier than one on a day among the next eight.
within_eight_days :
    (s : CompilationSchedule) (now : LocalNow) (t : ℕ)
    → now.time_of_day < day_length
    → schedule_time s < day_length
    → IsOccurrence s now t
    → (j : ℕ) × (j < 8) × (fits s now j ≡ true) × (moment (now.ordinal + j) (schedule_time s) ≤ t)
within_eight_days s now t a b (day, on_day, at, later) = elim (Bool-cases (leb day now.ordinal)) [
  | inl g ↦
      let today : day ≡ now.ordinal + 0 = omega (arith, leb→le day now.ordinal g) in
      (0, omega arith, fits_on s now day 0 on_day (omega arith) (omega arith), omega arith)
  | inr g ↦
      let ahead = leb→lt day now.ordinal g in
      let j : ℕ = 1 + (day - now.ordinal - 1) % 7 in
      (j, omega arith, fits_on s now day j on_day (omega arith) (omega arith), omega arith)
]

-- The first occurrence of a schedule is no later than any other.
found_first :
    (s : CompilationSchedule) (now : LocalNow) (t : ℕ)
    → now.time_of_day < day_length
    → schedule_time s < day_length
    → s.enabled ≡ true
    → IsOccurrence s now t
    → (c : ℕ) × (first_occurrence s now ≡ some c) × (c ≤ t)
unfolding first_occurrence
found_first s now t a b e o =
    let (j, near, fit, earlier) = within_eight_days s now t a b o in
    let (c, found, first) = occurrence_first s now 0 8 j (omega arith) near fit in
    (c, ap (λ b. if b then occurrence s now 0 8 else none) e ∙ found, omega (arith, first, earlier))

first_occurrence-IsOccurrence :
    (s : CompilationSchedule) (now : LocalNow) (c : ℕ)
    → first_occurrence s now ≡ some c
    → (s.enabled ≡ true) × IsOccurrence s now c
unfolding first_occurrence
first_occurrence-IsOccurrence s now c h = elim (Bool-cases s.enabled) [
  | inl e ↦ (e, occurrence-IsOccurrence s now 0 8 c (rw e at h))
  | inr e ↦ absurd (none-ne-some c (rw e at h))
]

-- The times of the schedules' occurrences are those of clocks.
abbrev pub HasTimes : List CompilationSchedule → Type 0
HasTimes ss = All (λ s. schedule_time s < day_length) ss

is_candidate :
    (o : Option ℕ) (rest : List ℕ) (c : ℕ)
    → Stored c (with_candidate o rest)
    → (o ≡ some c) ⊎ Stored c rest
is_candidate none rest c h = inr h
is_candidate (some x) rest c (inl e) = inl (ap some e)
is_candidate (some x) rest c (inr h) = inr h

keeps_candidates :
    (o : Option ℕ) (rest : List ℕ) (c : ℕ) → Stored c rest → Stored c (with_candidate o rest)
keeps_candidates none rest c h = h
keeps_candidates (some x) rest c h = inr h

-- A time is a candidate only of an enabled schedule.
abbrev pub IsScheduled : List CompilationSchedule → LocalNow → ℕ → Type 0
IsScheduled ss now c =
    (s : CompilationSchedule) × Stored s ss × (s.enabled ≡ true) × IsOccurrence s now c

candidates-IsScheduled :
    (ss : List CompilationSchedule) (now : LocalNow) (c : ℕ)
    → Stored c (candidates ss now)
    → IsScheduled ss now c
unfolding candidates
candidates-IsScheduled [] now c h = elim h [ ]
candidates-IsScheduled (s ∷ ss) now c h =
    let rest = candidates-IsScheduled ss now c in
    elim (is_candidate (first_occurrence s now) (candidates ss now) c h) [
      | inl e ↦
          let (enabled, o) = first_occurrence-IsOccurrence s now c e in (s, inl refl, enabled, o)
      | inr k ↦ let (x, stored, enabled, o) = rest k in (x, inr stored, enabled, o)
    ]

candidates_cover :
    (ss : List CompilationSchedule) (now : LocalNow) (s : CompilationSchedule) (t : ℕ)
    → now.time_of_day < day_length
    → HasTimes ss
    → Stored s ss
    → s.enabled ≡ true
    → IsOccurrence s now t
    → (c : ℕ) × Stored c (candidates ss now) × (c ≤ t)
unfolding candidates
candidates_cover [] now s t a b h e o = elim h [ ]
candidates_cover (x ∷ ss) now s t a b h e o = elim h [
  | inl same ↦
      let (c, found, first) =
        found_first x now t a b.0 (ap (λ s. s.enabled) same ∙ e)
          (subst (λ s. IsOccurrence s now t) (sym same) o) in
      (c, rw found (inl refl), first)
  | inr k ↦
      let (c, stored, first) = candidates_cover ss now s t a b.1 k e o in
      (c, keeps_candidates (first_occurrence x now) (candidates ss now) c stored, first)
]

ltb-IsOrder : IsOrder ltb
ltb-IsOrder = record {
  asymm = λ a b h. ground (arith, h);
  irrefl = λ a. ground arith;
  not_less = λ a b c h k. ground (arith, h, k);
}

-- With times that clocks have, the next schedule is an occurrence of an enabled schedule that is not
-- past, and no occurrence of an enabled schedule, on whatever day, comes before it; where there is
-- none, no enabled schedule has an occurrence at all.
pub next_schedule_lem :
    (ss : List CompilationSchedule) (now : LocalNow)
    → now.time_of_day < day_length
    → HasTimes ss
    → ((c : ℕ)
        → next_schedule ss now ≡ some c
        → IsScheduled ss now c × ((t : ℕ) → IsScheduled ss now t → c ≤ t))
      × (next_schedule ss now ≡ none → (t : ℕ) → ¬ IsScheduled ss now t)
unfolding next_schedule
next_schedule_lem ss now a b = (
  λ c h. (
    candidates-IsScheduled ss now c (first_by-Stored ltb c (candidates ss now) h),
    λ t (s, stored, enabled, o).
        let (first, member, earlier) = candidates_cover ss now s t a b stored enabled o in
        let least =
          All-Stored _ first (candidates ss now)
            (first_by-least ltb-IsOrder c (candidates ss now) h) member in
        ground (arith, least, earlier),
  ),
  λ h t (s, stored, enabled, o).
      let (first, member, _) = candidates_cover ss now s t a b stored enabled o in
      subst (Stored first) (first_by-eq_none ltb (candidates ss now) h) member,
)
