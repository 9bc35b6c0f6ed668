-- ===== src/Worker/Jobs/Progress.antt =====
-- What the worker computes from a process's output and from durations (jobs.py, ffmpeg.py).
use hass_clips_manager.Prelude.{
  ℕ, ◌+◌, ◌-◌, ◌*◌, ◌/◌, min, max, String, Bool, true, false, ◌&&◌, ◌||◌, not, Option, none, some,
  List, [], ◌∷◌, ◌++◌, map, if◌then◌else◌, nat_eq, is_some, ◌==◌,
}
use hass_clips_manager.Prelude.Int.{ℤ, pos, negsuc}
use hass_clips_manager.Prelude.Tables.{drop, length, select_where, exists_where}
use hass_clips_manager.Prelude.Text.{
  split_lines, key_value, last_chars, is_empty, strip, concat, contains,
}
use hass_clips_manager.Worker.Database.{JobStage, Progress}
use hass_clips_manager.Worker.Jobs.{Outside, Profile, Runtime}

-- What the lines read so far have said
pub record Reading : Type 0 where
  pub out_time_us : Option ℤ
  pub ended : Bool

abbrev is_time_key : String → Bool
is_time_key key = key == "out_time_us" || key == "out_time_ms"

-- The body of the loop over the lines
unfoldable pub read_line : Outside → String → Reading → Reading
read_line o line r = elim (key_value line) [
  | none ↦ r
  | some (key, value) ↦
      if is_time_key key
      then (elim (o.int_of value) [ none ↦ r | some us ↦ record r { out_time_us = some us } ])
      else if key == "progress" && value == "end"
      then record r { ended = true }
      else r
]

unfoldable pub read_lines : Outside → List String → Reading → Reading
unfolding read_line
read_lines o [] r = r
read_lines o (line ∷ lines) r = read_lines o lines (read_line o line r)

-- `min(99.0, max(0.0, elapsed / duration_seconds * 100))`, its whole part
abbrev pub percent_of : ℤ → ℕ → ℕ
percent_of (pos us) duration_ns = min 99 (us * 1000 * 100 / duration_ns)
percent_of (negsuc us) duration_ns = 0

-- `max(0.0, duration_seconds - elapsed)`
abbrev pub eta_of : ℤ → ℕ → ℕ
eta_of (pos us) duration_ns = duration_ns - us * 1000
eta_of (negsuc us) duration_ns = duration_ns + (us + 1) * 1000

-- `_parse_progress`, once the lines are read
unfoldable pub progress_from : Reading → ℕ → Option Progress
progress_from r duration_ns =
    if r.ended
    then some (record { stage = JobStage.encoding; percent = 100; eta_seconds = some 0 })
    else elim r.out_time_us [
      | none ↦ none
      | some us ↦
          if nat_eq duration_ns 0
          then none
          else some (record {
            stage = JobStage.encoding;
            percent = percent_of us duration_ns;
            eta_seconds = some (eta_of us duration_ns);
          })
    ]

-- `_parse_progress`
unfoldable pub parse_progress : Outside → String → ℕ → Option Progress
unfolding read_lines progress_from
parse_progress o raw duration_ns =
    progress_from (read_lines o (split_lines raw) (record { out_time_us = none; ended = false }))
      duration_ns

-- `frame_aligned_duration`: the 1e-9 frames that it allows for are 1 / (frame rate) nanoseconds.
unfoldable pub frame_count : ℕ → ℕ → ℕ
frame_count duration_ns frame_rate = (duration_ns * frame_rate - 1 + 999999999) / 1000000000

unfoldable pub frame_aligned_duration : ℕ → ℕ → ℕ
unfolding frame_count
frame_aligned_duration duration_ns frame_rate =
    frame_count duration_ns frame_rate * 1000000000 / frame_rate

-- `_phase_timeout_seconds`
unfoldable pub phase_timeout_seconds : Profile → ℕ → ℕ
phase_timeout_seconds profile duration_ns =
    let minutes = (duration_ns + 59999999999) / 60000000000 in
    max profile.timeout_seconds (minutes * profile.timeout_seconds_per_minute)

-- `profile.transitions[0].duration_seconds if profile.transitions else 0.0`
abbrev pub first_transition : List ℕ → ℕ
first_transition [] = 0
first_transition (t ∷ ts) = t

-- `_composed_duration_seconds`: what is added, less what is taken away, and at least 0
unfoldable pub composed_duration : Runtime → Profile → ℕ
unfolding frame_aligned_duration
composed_duration runtime profile =
    let transition = first_transition profile.transitions in
    let job = runtime.job.snapshot in
    let added =
      job.duration_ns
      + (if is_some runtime.intro_path then runtime.intro_duration_ns else 0)
      + (if is_some runtime.outro_path then runtime.outro_duration_ns else 0)
      + frame_aligned_duration job.lead_in_duration_ns profile.fps
      + frame_aligned_duration job.tail_out_duration_ns profile.fps in
    added
    - (if is_some runtime.intro_path then transition else 0)
    - (if is_some runtime.outro_path then transition else 0)

-- `_FAILURE_MARKERS`
abbrev pub failure_markers : List String
failure_markers =
    "error" ∷ "invalid" ∷ "failed" ∷ "timed out" ∷ "no such" ∷ "permission denied"
    ∷ "conversion failed" ∷ "signal" ∷ []

-- `any(marker in line.lower() for marker in _FAILURE_MARKERS)`
unfoldable pub is_decisive : Outside → String → Bool
is_decisive o line = exists_where (λ marker. contains marker (o.lower line)) failure_markers

unfoldable pub join_lines : List String → String
join_lines [] = ""
join_lines (line ∷ []) = line
join_lines (line ∷ next ∷ lines) = concat line (concat "\n" (join_lines (next ∷ lines)))

abbrev pub last_5 : List String → List String
last_5 lines = drop (length lines - 5) lines

-- `_failure_reason`
unfoldable pub failure_reason : Outside → String → String → String
unfolding is_decisive join_lines
failure_reason o output fallback =
    let lines = select_where (λ line. not (is_empty line)) (map strip (split_lines output)) in
    let informative = select_where (λ l. not (o.is_statistics l) || is_decisive o l) lines in
    let decisive = select_where (is_decisive o) informative in
    let context =
      select_where (λ line. not (exists_where (λ l. l == line) decisive)) (last_5 informative) in
    let reason = last_chars 1000 (join_lines (decisive ++ context)) in
    if is_empty reason then fallback else reason
