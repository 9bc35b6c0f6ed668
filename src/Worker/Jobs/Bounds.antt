-- ===== src/Worker/Jobs/Bounds.antt =====
-- Bounds of what a run reports and records (jobs.py), and that the integration accepts them (models.py).
use mathlib.Core.Bool.{false≢true}
use hass_clips_manager.Prelude.{
  ◌≡◌, ℕ, ◌+◌, ◌-◌, ◌*◌, ◌/◌, ◌≤◌, ◌<◌, ◌↔◌, true, false, ◌||◌, String, none, some, ltb, leb, List,
  [], ◌∷◌, ◌⊎◌, ◌∙◌, ap, refl, ◌&&◌, ◌==◌, eq_iff, Option-cases, Bool-cases, inl, inr, arith, min,
}
use hass_clips_manager.Prelude.Int.{ℤ, pos, negsuc}
use hass_clips_manager.Prelude.Results.{ok}
use hass_clips_manager.Prelude.Text.{split_lines, key_value}
use hass_clips_manager.Prelude.Tables.{Stored}
use hass_clips_manager.Worker.Database.{Clip, Job, Progress, Timing}
use hass_clips_manager.Worker.Jobs.{Outside, Profile, Probe, Runtime}
use hass_clips_manager.Worker.Jobs.Progress.{
  Reading, read_line, read_lines, percent_of, eta_of, progress_from, parse_progress,
}
use hass_clips_manager.Worker.Jobs.Output.{timing_from, compiled_timing}
use hass_clips_manager.Worker.Jobs.Publish.{ready_clip}
use hass_clips_manager.Integration.WorkerClip.{check_timing, is_inconsistent}

-- The parts of a file add up to it, and its content is not empty.
abbrev pub AddsUp : ℕ → Timing → Type 0
AddsUp duration t =
    (lead_in : ℕ) × (content : ℕ) × (tail_out : ℕ) × (t.lead_in_duration ≡ some lead_in)
    × (t.content_duration ≡ some content)
    × (t.tail_out_duration ≡ some tail_out)
    × (lead_in + content + tail_out ≡ duration)
    × (0 < content)

timing_from-accepted :
    (lead_in end duration : ℕ) (t : Timing)
    → timing_from lead_in end duration ≡ ok t
    → (check_timing
          (some duration)
          t.content_duration
          t.lead_in_duration
          t.tail_out_duration
          t.content_start_offset
          t.content_end_offset
        ≡ ok tt)
      × AddsUp duration t
unfolding timing_from check_timing is_inconsistent
timing_from-accepted lead_in end duration t h =
    elim (Bool-cases (leb end lead_in || ltb duration end)) [
      | inl bad ↦ absurd (ground (arith, bad, h))
      | inr good ↦ (
        ground arith,
        (
          lead_in,
          end - lead_in,
          duration - end,
          ground arith,
          ground arith,
          ground arith,
          ground arith,
          ground arith,
        ),
      )
    ]

-- The bounds that a compilation records for its file are ones that the integration accepts for a clip
-- with the row that it leaves: they add up to the length of the file, and the content is not empty.
pub ready_clip-accepted :
    (runtime : Runtime) (profile : Profile) (probe : Probe) (t : Timing) (job : Job)
    (output now : String) (c : Clip)
    → compiled_timing runtime profile probe ≡ ok t
    → let c' = ready_clip job probe t output now c in
      (check_timing c'.output_duration_ns c'.metadata.timing.content_duration
          c'.metadata.timing.lead_in_duration c'.metadata.timing.tail_out_duration
          c'.metadata.timing.content_start_offset c'.metadata.timing.content_end_offset
        ≡ ok tt)
      × AddsUp probe.duration_ns c'.metadata.timing
unfolding compiled_timing ready_clip
ready_clip-accepted runtime profile probe t job output now c h =
    timing_from-accepted _ _ probe.duration_ns t h

capped : (n : ℕ) → min 99 n ≤ 99
capped n = omega arith

percent_of-capped : (us : ℤ) (duration_ns : ℕ) → percent_of us duration_ns ≤ 99
percent_of-capped (pos us) duration_ns = capped (us * 1000 * 100 / duration_ns)
percent_of-capped (negsuc us) duration_ns = omega arith

-- Of some lines, one says that the process has ended.
abbrev pub SaysEnd : List String → Type 0
SaysEnd lines = (line : String) × Stored line lines × (key_value line ≡ some ("progress", "end"))

-- Of some lines, one gives a time, under either of FFmpeg's keys for it.
abbrev pub SaysTime : Outside → List String → ℤ → Type 0
SaysTime o lines us =
    (line : String) × (key : String) × (value : String) × Stored line lines
    × (key_value line ≡ some (key, value))
    × ((key ≡ "out_time_us") ⊎ (key ≡ "out_time_ms"))
    × (o.int_of value ≡ some us)

later_end : (line : String) (lines : List String) → SaysEnd lines → SaysEnd (line ∷ lines)
later_end line lines (l, there, says) = (l, inr there, says)

later_time :
    (o : Outside) (line : String) (lines : List String) (us : ℤ)
    → SaysTime o lines us
    → SaysTime o (line ∷ lines) us
later_time o line lines us (l, key, value, there, read, named, says) =
    (l, key, value, inr there, read, named, says)

read_line-ended :
    (o : Outside) (line : String) (r : Reading)
    → ((read_line o line r).ended ≡ true)
      ↔ ((r.ended ≡ true) ⊎ (key_value line ≡ some ("progress", "end")))
unfolding read_line
read_line-ended o line r =
    (ended, λ says. elim says [ inl e ↦ kept e | inr e ↦ rw (read_line, e) refl ])
  where
    ended :
        (read_line o line r).ended ≡ true
        → (r.ended ≡ true) ⊎ (key_value line ≡ some ("progress", "end"))
    ended h = elim (Option-cases (key_value line)) [
      | inl e ↦ ground (arith, h, e)
      | inr ((key, value), e) ↦ elim (Bool-cases (key == "progress" && value == "end")) [
        | inl t ↦ inr (
            e
            ∙ ap (λ k. some (k, value)) ((eq_iff key "progress").0 (ground (arith, t)))
            ∙ ap (λ v. some ("progress", v)) ((eq_iff value "end").0 (ground (arith, t))))
        | inr t ↦ elim (Option-cases (o.int_of value)) [
          | inl n ↦ ground (arith, h, e, t, n)
          | inr (us, n) ↦ ground (arith, h, e, t, n)
        ]
      ]
    ]

    kept : r.ended ≡ true → (read_line o line r).ended ≡ true
    kept h = elim (Option-cases (key_value line)) [
      | inl e ↦ ground (arith, h, e)
      | inr ((key, value), e) ↦ elim (Option-cases (o.int_of value)) [
        | inl n ↦ ground (arith, h, e, n)
        | inr (us, n) ↦ ground (arith, h, e, n)
      ]
    ]

read_lines-ended :
    (o : Outside) (lines : List String) (r : Reading)
    → ((read_lines o lines r).ended ≡ true) ↔ ((r.ended ≡ true) ⊎ SaysEnd lines)
unfolding read_lines
read_lines-ended o [] r = (inl, λ says. elim says [ inl e ↦ e | inr (_, there, _) ↦ absurd there ])
read_lines-ended o (line ∷ lines) r =
    let (from, to) = read_lines-ended o lines (read_line o line r) in
    let (from₁, to₁) = read_line-ended o line r in
    (
      λ h. elim (from h) [
        | inl e ↦ elim (from₁ e) [ inl e ↦ inl e | inr e ↦ inr (line, inl refl, e) ]
        | inr says ↦ inr (later_end line lines says)
      ],
      λ says. to (elim says [
        | inl e ↦ inl (to₁ (inl e))
        | inr (l, inl e, says) ↦ inl (to₁ (inr (ap key_value e ∙ says)))
        | inr (l, inr there, says) ↦ inr (l, there, says)
      ]),
    )

read_line-time :
    (o : Outside) (line : String) (r : Reading) (us : ℤ)
    → (read_line o line r).out_time_us ≡ some us
    → (r.out_time_us ≡ some us) ⊎ SaysTime o (line ∷ []) us
unfolding read_line
read_line-time o line r us h = elim (Option-cases (key_value line)) [
  | inl e ↦ inl (ground (arith, h, e))
  | inr ((key, value), e) ↦ elim (Bool-cases (key == "out_time_us" || key == "out_time_ms")) [
    | inr t ↦ inl (ground (arith, h, e, t))
    | inl t ↦ elim (Option-cases (o.int_of value)) [
      | inl n ↦ inl (ground (arith, h, e, t, n))
      | inr (us', n) ↦ inr (
        line,
        key,
        value,
        inl refl,
        e,
        ground (arith, t, eq_iff key "out_time_us", eq_iff key "out_time_ms"),
        n ∙ ground (arith, h, e, t, n),
      )
    ]
  ]
]

read_lines-time :
    (o : Outside) (lines : List String) (r : Reading) (us : ℤ)
    → (read_lines o lines r).out_time_us ≡ some us
    → (r.out_time_us ≡ some us) ⊎ SaysTime o lines us
unfolding read_lines
read_lines-time o [] r us h = inl h
read_lines-time o (line ∷ lines) r us h = elim (read_lines-time o lines (read_line o line r) us h) [
  | inr says ↦ inr (later_time o line lines us says)
  | inl e ↦ elim (read_line-time o line r us e) [
    | inl before ↦ inl before
    | inr (l, key, value, inl same, split, named, says) ↦
        inr (l, key, value, inl same, split, named, says)
    | inr (_, _, _, inr none_left, _, _, _) ↦ absurd none_left
  ]
]

-- What a progress says, given whether the process has ended and what times it has given
abbrev pub IsReport : Outside → List String → ℕ → Progress → Type 0
IsReport o lines duration_ns p =
    (p.percent ≤ 100)
    × ((p.percent ≡ 100) ↔ SaysEnd lines)
    × (SaysEnd lines
        ⊎ ((us : ℤ) × SaysTime o lines us
            × (0 < duration_ns)
            × (p.percent ≡ percent_of us duration_ns)
            × (p.eta_seconds ≡ some (eta_of us duration_ns))))

progress_from-bounds :
    (r : Reading) (duration_ns : ℕ) (p : Progress)
    → progress_from r duration_ns ≡ some p
    → (p.percent ≤ 100)
      × ((p.percent ≡ 100) ↔ (r.ended ≡ true))
      × ((r.ended ≡ true)
          ⊎ ((us : ℤ) × (r.out_time_us ≡ some us)
              × (0 < duration_ns)
              × (p.percent ≡ percent_of us duration_ns)
              × (p.eta_seconds ≡ some (eta_of us duration_ns))))
unfolding progress_from
progress_from-bounds r duration_ns p h = elim (Option-cases r.out_time_us) [
  | inl e ↦ (ground (arith, h, e), ground (arith, h, e), inl (ground (arith, h, e)))
  | inr (us, e) ↦
      let low : percent_of us duration_ns ≤ 99 = percent_of-capped us duration_ns in
      elim (Bool-cases r.ended) [
        | inl t ↦ (ground (arith, h, e, t), ground (arith, h, e, t), inl t)
        | inr t ↦ (
          ground (arith, h, e, low, t),
          ground (arith, h, e, low, t),
          inr (us, e, ground (arith, h, e, t), ground (arith, h, e, t), ground (arith, h, e, t)),
        )
      ]
]

-- A progress that is read is at most 100 percent, and 100 exactly when a line of the output is
-- `progress=end`. If it is less, the output has a line that gives a time under one of FFmpeg's keys, and
-- the percentage and the remaining time are those of this time, out of a positive duration.
pub parse_progress-bounds :
    (o : Outside) (raw : String) (duration_ns : ℕ) (p : Progress)
    → parse_progress o raw duration_ns ≡ some p
    → IsReport o (split_lines raw) duration_ns p
unfolding parse_progress
parse_progress-bounds o raw duration_ns p h =
    let lines = split_lines raw in
    let start : Reading = record { out_time_us = none; ended = false } in
    let (ends, says) = read_lines-ended o lines start in
    let from : (read_lines o lines start).ended ≡ true → SaysEnd lines =
      λ e. elim (ends e) [ inl never ↦ absurd (false≢true never) | inr s ↦ s ] in
    let (most, full, less) = progress_from-bounds (read_lines o lines start) duration_ns p h in
    (
      most,
      (λ e. from (full.0 e), λ s. full.1 (says (inr s))),
      elim less [
        | inl e ↦ inl (from e)
        | inr (us, e, positive, percent, eta) ↦ elim (read_lines-time o lines start us e) [
          | inl never ↦ absurd (ground (arith, never))
          | inr s ↦ inr (us, s, positive, percent, eta)
        ]
      ],
    )
