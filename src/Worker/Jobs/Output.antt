-- ===== src/Worker/Jobs/Output.antt =====
-- What the worker demands of a compiled file, and what it records of it (jobs.py).
use hass_clips_manager.Prelude.{
  ℕ, ◌+◌, ◌-◌, ◌*◌, ◌/◌, max, Bool, true, false, ◌&&◌, ◌||◌, not, Option, none, some, if◌then◌else◌,
  ltb, leb, nat_eq,
}
use hass_clips_manager.Prelude.Results.{Result, ok, err}
use hass_clips_manager.Worker.Database.{Timing}
use hass_clips_manager.Worker.Jobs.{Profile, Probe, Runtime, Failure, value_error}
use hass_clips_manager.Worker.Jobs.Progress.{frame_aligned_duration}

-- `abs(a - b)`
abbrev pub distance : ℕ → ℕ → ℕ
distance a b = (a - b) + (b - a)

abbrev pub equals : Option ℕ → ℕ → Bool
equals none n = false
equals (some m) n = nat_eq m n

-- `probe.frame_rate is not None and abs(probe.frame_rate - profile.video.fps) < 0.05`
abbrev pub is_rate : Option ℕ → ℕ → Bool
is_rate none fps = false
is_rate (some rate) fps = ltb (distance rate (fps * 1000000000)) 50000000

-- The streams are within `max(0.1, 1 / fps)` of each other, where both were measured.
abbrev pub in_sync : Option ℕ → Option ℕ → ℕ → Bool
in_sync (some video) (some audio) fps =
    not (ltb (max 100000000 (1000000000 / fps)) (distance video audio))
in_sync _ _ fps = true

-- `_valid_output`
unfoldable pub valid_output : Probe → Profile → Bool
valid_output probe profile =
    (probe.valid
      && (ltb 0 probe.duration_ns
          && (equals probe.width profile.width
              && (equals probe.height profile.height
                  && (is_rate probe.frame_rate profile.fps && probe.has_audio)))))
    && in_sync probe.video_duration_ns probe.audio_duration_ns profile.fps

-- `probe.video_duration_seconds or duration`
abbrev pub measured_or : Option ℕ → ℕ → ℕ
measured_or none duration = duration
measured_or (some ℕ.zero) duration = duration
measured_or (some (ℕ.suc n)) duration = ℕ.suc n

-- Where the content ends: a difference below 0 is refused as one of 0 is.
abbrev pub content_end : ℕ → ℕ → ℕ → ℕ
content_end video_duration requested_tail duration =
    if ltb 0 requested_tail then video_duration - requested_tail else duration

-- The bounds that `_compiled_timing_metadata` returns, or raises
unfoldable pub timing_from : (lead_in end duration : ℕ) → Result Failure Timing
timing_from lead_in end duration =
    if leb end lead_in || ltb duration end
    then err (value_error "compiled output timing metadata is outside the final file")
    else ok (record {
      content_duration = some (end - lead_in);
      lead_in_duration = some lead_in;
      tail_out_duration = some (duration - end);
      content_start_offset = some lead_in;
      content_end_offset = some end;
    })

-- `_compiled_timing_metadata`
unfoldable pub compiled_timing : Runtime → Profile → Probe → Result Failure Timing
unfolding timing_from frame_aligned_duration
compiled_timing runtime profile probe =
    let job = runtime.job.snapshot in
    let duration = probe.duration_ns in
    let lead_in = frame_aligned_duration job.lead_in_duration_ns profile.fps in
    let requested_tail = frame_aligned_duration job.tail_out_duration_ns profile.fps in
    let end = content_end (measured_or probe.video_duration_ns duration) requested_tail duration in
    timing_from lead_in end duration
