-- ===== src/Worker/Scans/Current.antt =====
-- Which clips a scan leaves ready (catalog.py, jobs.py).
use mathlib.Core.Bool.{false≢true}
use hass_clips_manager.Prelude.{
  ◌≡◌, refl, ap, ◌⊎◌, String, true, false, Option, none, some, arith, eq_iff, eq_refl,
}
use hass_clips_manager.Prelude.Text.{is_empty}
use hass_clips_manager.Prelude.Results.{ok}
use hass_clips_manager.Worker.Database.{Job, Clip, ClipState, Timing}
use hass_clips_manager.Worker.Jobs.{Probe, Profile, Runtime, RootKey}
use hass_clips_manager.Worker.Jobs.Output.{timing_from, compiled_timing}
use hass_clips_manager.Worker.Jobs.Publish.{ready_clip}
use hass_clips_manager.Worker.Library.{Files}
use hass_clips_manager.Worker.Sources.{
  Seen, keeps, next_state, same_fingerprint, is_complete, is_same_output, retain_output_timing,
  probed_metadata,
}

fingerprint_eq : (r : Option String) (s : String) → same_fingerprint r s ≡ true → r ≡ some s
fingerprint_eq none s h = absurd (false≢true h)
fingerprint_eq (some r) s h = ap some ((eq_iff r s).0 h)

-- A row that a scan leaves ready has the content and the profile that the scan has found, and was ready or
-- marked as deleted with an output.
pub ready_is_current :
    (file : Seen) (row : Clip)
    → (next_state file row).0 ≡ ClipState.ready
    → (row.metadata.source_fingerprint ≡ some file.fingerprint)
      × (row.metadata.profile_fingerprint ≡ some file.profile_fingerprint)
      × ((row.state ≡ ClipState.ready)
          ⊎ ((row.state ≡ ClipState.deleted) × (row.output_available ≡ true)))
unfolding next_state
ready_is_current file row h =
    let sources = fingerprint_eq row.metadata.source_fingerprint file.fingerprint in
    let profiles = fingerprint_eq row.metadata.profile_fingerprint file.profile_fingerprint in
    (ground (arith, h, sources), ground (arith, h, profiles), ground (arith, h))

complete :
    (lead_in end duration : _) (t : Timing)
    → timing_from lead_in end duration ≡ ok t
    → is_complete t ≡ true
unfolding timing_from
complete lead_in end duration t h = ground arith

-- The compiled file is where the row says, as it was published.
pub record IsPublished (f : Files) (row : Clip) (output : String) : Type 0 where
  pub path : String
  pub at : row.relative_output_path ≡ some path
  pub named : is_empty path ≡ false
  pub file : String
  pub resolved : f.resolve RootKey.compiled path ≡ ok file
  pub plain : f.is_symlink file ≡ false
  pub there : f.is_file file ≡ true
  pub digest : f.fingerprint file ≡ ok output

published_is_same :
    (f : Files) (row : Clip) (output : String)
    → IsPublished f row output
    → row.output_available ≡ true
    → row.metadata.output_fingerprint ≡ some output
    → is_same_output f row ≡ true
unfolding is_same_output
published_is_same f row output p available measured = ground (
  arith,
  p.at,
  p.named,
  p.resolved,
  p.plain,
  p.there,
  p.digest,
  available,
  measured,
  eq_refl output,
)

-- A clip that was compiled, whose file is as it was published, stays ready at a scan that finds the
-- content and the profile that the job had, and keeps the bounds that were measured.
pub compiled_stays_ready :
    (f : Files) (file : Seen) (runtime : Runtime) (profile : Profile) (job : Job) (probe : Probe)
    (t : Timing) (output now : String) (c : Clip)
    → compiled_timing runtime profile probe ≡ ok t
    → IsPublished f (ready_clip job probe t output now c) output
    → file.fingerprint ≡ job.snapshot.source_fingerprint
    → file.profile_fingerprint ≡ job.snapshot.profile_fingerprint
    → let row = ready_clip job probe t output now c in
      let kept = retain_output_timing f (probed_metadata file) row in
      (next_state file row ≡ (ClipState.ready, keeps))
      × (kept.timing ≡ t)
      × (kept.output_fingerprint ≡ some output)
unfolding next_state compiled_timing ready_clip retain_output_timing probed_metadata
compiled_stays_ready f file runtime profile job probe t output now c h p same same_profile =
    let row = ready_clip job probe t output now c in
    let all_there : is_complete t ≡ true = complete _ _ probe.duration_ns t h in
    let published : is_same_output f row ≡ true = published_is_same f row output p refl refl in
    (
      ground (
        arith,
        same,
        same_profile,
        eq_refl job.snapshot.source_fingerprint,
        eq_refl job.snapshot.profile_fingerprint,
      ),
      ground (arith, all_there, published),
      ground (arith, all_there, published),
    )
