-- ===== src/Worker/Jobs/Phases.antt =====
-- The phases of a compilation up to its encoded file (jobs.py, `run_once`).
use hass_clips_manager.Prelude.{
  ℕ, ◌*◌, String, Bool, not, Option, none, some, List, [], ◌∷◌, ◌++◌, if◌then◌else◌, ◌==◌,
}
use hass_clips_manager.Prelude.Tables.{find_where}
use hass_clips_manager.Prelude.Text.{concat}
use hass_clips_manager.Prelude.Effects.{pass, ◌>>=◌}
use hass_clips_manager.Worker.Database.{Job}
use hass_clips_manager.Worker.Jobs.{
  Outside, Run, Profile, Runtime, Segment, Loudness, LoudnessMode, two_pass, disabled, Command,
  segment_analysis, composition, final_analysis, final_normalization, encode,
}
use hass_clips_manager.Worker.Jobs.Progress.{
  phase_timeout_seconds, composed_duration, failure_reason,
}
use hass_clips_manager.Worker.Jobs.Loop.{Ended, run_process}
use hass_clips_manager.Worker.Jobs.Compile.{JobRunResult, cancel_run, fail_run}

-- What a phase leaves: the run goes on with a value, or it has ended.
pub data Phase (A : Type 0) : Type 0 where
  goes_on : A → Phase A
  over : JobRunResult → Phase A

abbrev pub end_run : {A : Type 0} → Run JobRunResult → Run (Phase A)
end_run m = m >>= λ r. pass (over r)

abbrev pub next_phase : {A B : Type 0} → (A → Run (Phase B)) → Phase A → Run (Phase B)
next_phase k (goes_on a) = k a
next_phase k (over r) = pass (over r)

abbrev pub after_phase : {A : Type 0} → (A → Run JobRunResult) → Phase A → Run JobRunResult
after_phase k (goes_on a) = k a
after_phase k (over r) = pass r

-- The loudness that an analysis printed: the run is over if it was cancelled, failed or unreadable.
unfoldable pub analyse : Outside → Runtime → Job → Command → ℕ → String → Run (Phase Loudness)
unfolding run_process cancel_run fail_run
analyse o runtime job command timeout message = do
  analysis ← run_process o runtime.job command timeout
  if analysis.cancelled then end_run (cancel_run o job) else elim (o.loudness_of analysis.output) [
    | none ↦ end_run (fail_run o job message)
    | some measured ↦
        if analysis.success then pass (goes_on measured) else end_run (fail_run o job message)
  ]

abbrev pub segment_name : Segment → String
segment_name Segment.clip = "clip"
segment_name Segment.intro = "intro"
segment_name Segment.outro = "outro"

-- `segment_paths`, `segment_audio` and `segment_durations`
abbrev pub segment_path : Runtime → Segment → Option String
segment_path r Segment.clip = some r.source_path
segment_path r Segment.intro = r.intro_path
segment_path r Segment.outro = r.outro_path

abbrev pub segment_audio : Runtime → Segment → Bool
segment_audio r Segment.clip = r.job.snapshot.has_audio
segment_audio r Segment.intro = r.intro_has_audio
segment_audio r Segment.outro = r.outro_has_audio

abbrev pub segment_duration : Runtime → Segment → ℕ
segment_duration r Segment.clip = r.job.snapshot.duration_ns
segment_duration r Segment.intro = r.intro_duration_ns
segment_duration r Segment.outro = r.outro_duration_ns

-- `measured_by_path` and `measured_segments`
pub record Measurements : Type 0 where
  pub by_path : List (String × Loudness)
  pub segments : List (Segment × Loudness)

-- A segment whose path was measured takes that measurement.
abbrev pub reuse : Segment → Loudness → Measurements → Measurements
reuse name l m = record m { segments = m.segments ++ (name, l) ∷ [] }

abbrev pub add : Segment → String → Loudness → Measurements → Measurements
add name path l m = record {
  by_path = (path, l) ∷ m.by_path;
  segments = m.segments ++ (name, l) ∷ [];
}

-- The body of the loop over the segments
unfoldable pub measure_segment :
    Outside → Profile → Runtime → Job → Segment → Measurements → Run (Phase Measurements)
unfolding analyse
measure_segment o profile runtime job name m = elim (segment_path runtime name) [
  | none ↦ pass (goes_on m)
  | some path ↦
      if not (segment_audio runtime name)
      then pass (goes_on m)
      else elim (find_where (λ known. known.0 == path) m.by_path) [
        | some (_, known) ↦ pass (goes_on (reuse name known m))
        | none ↦
            analyse o runtime job (segment_analysis name runtime)
              (phase_timeout_seconds profile (segment_duration runtime name) * 1000000000)
              (concat (segment_name name) " loudness analysis failed")
            >>= next_phase (λ l. pass (goes_on (add name path l m)))
      ]
]

abbrev pub segments : List Segment
segments = Segment.clip ∷ Segment.intro ∷ Segment.outro ∷ []

-- The loop over the segments
unfoldable pub measure_segments :
    Outside → Profile → Runtime → Job → List Segment → Measurements → Run (Phase Measurements)
unfolding measure_segment
measure_segments o profile runtime job [] m = pass (goes_on m)
measure_segments o profile runtime job (name ∷ names) m =
    measure_segment o profile runtime job name m
    >>= next_phase (measure_segments o profile runtime job names)

-- The encoded file: the runtime job that it belongs to, and what `_run_process` returned for it
pub record Encoded : Type 0 where
  pub runtime : Runtime
  pub ended : Ended

-- The composition of the segments, which is the encoded file unless the mix is normalised
unfoldable pub compose : Outside → Profile → Runtime → Job → ℕ → Measurements → Run (Phase Encoded)
unfolding run_process cancel_run fail_run failure_reason
compose o profile runtime job timeout m = do
  let composed : Runtime = record runtime {
    temporary_output = concat job.id (concat "/composed." profile.extension);
  }
  ended ← run_process o composed.job (composition m.segments composed) timeout
  if ended.cancelled
      then end_run (cancel_run o job)
      else if not ended.success
      then end_run (fail_run o job (failure_reason o ended.output "composition failed"))
      else pass (goes_on (record { runtime = composed; ended = ended }))

-- The last process of a run
unfoldable pub encode_with : Outside → Runtime → Command → ℕ → Run (Phase Encoded)
unfolding run_process
encode_with o runtime command timeout = do
  ended ← run_process o runtime.job command timeout
  pass (goes_on (record { runtime = runtime; ended = ended }))

-- The final mix, normalised to what its analysis measured
unfoldable pub normalise : Outside → Runtime → Job → ℕ → Run (Phase Encoded)
unfolding analyse encode_with
normalise o runtime job timeout =
    analyse o runtime job (final_analysis runtime) timeout "final-mix loudness analysis failed"
    >>= next_phase (λ l. encode_with o runtime (final_normalization l runtime) timeout)

-- The phases, by the mode of the loudness
unfoldable pub phases_by :
    Outside → Profile → Runtime → Job → ℕ → LoudnessMode → Run (Phase Encoded)
unfolding measure_segments compose normalise encode_with
phases_by o profile runtime job timeout disabled = encode_with o runtime (encode runtime) timeout
phases_by o profile runtime job timeout (two_pass final) =
    measure_segments o profile runtime job segments (record { by_path = []; segments = [] })
    >>= next_phase (λ m.
      compose o profile runtime job timeout m
      >>= next_phase (λ e. if final then normalise o runtime job timeout else pass (goes_on e)))

-- The run up to `encode_command` and its process
unfoldable pub phases : Outside → Profile → Runtime → Job → Run (Phase Encoded)
unfolding phases_by phase_timeout_seconds composed_duration
phases o profile runtime job =
    let timeout = phase_timeout_seconds profile (composed_duration runtime profile) * 1000000000 in
    phases_by o profile runtime job timeout profile.loudness
