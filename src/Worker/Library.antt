-- ===== src/Worker/Library.antt =====
-- What scans and requests read of the library: the collections, their profiles and the files
-- (catalog.py, jobs.py, profile_validation.py).
pub mod Agreement
use hass_clips_manager.Prelude.{
  ℕ, Bool, true, false, String, Option, none, some, List, ◌==◌, ◌&&◌, if◌then◌else◌,
}
use hass_clips_manager.Prelude.Text.{is_empty}
use hass_clips_manager.Prelude.Tables.{find_where}
use hass_clips_manager.Prelude.Results.{Result, ok, err, ◌>>=◌, or_raise}
use hass_clips_manager.Worker.Queue.{key_error}
use hass_clips_manager.Worker.Jobs.{Failure, from_queue, value_error, Profile, Probe, RootKey}

-- The columns of `collections` that are read here
pub record Source : Type 0 where
  pub id : String
  pub enabled : Bool
  pub processing_profile_id : String
  pub source_directory : String
  pub compiled_output_prefix : String

-- A row of `profiles`; the settings are JSON.
pub record ProfileRow : Type 0 where
  pub id : String
  pub settings : String

pub record Catalog : Type 0 where
  pub collections : List Source
  pub profiles : List ProfileRow

-- A file below a directory, as `os.walk` finds it
pub record Entry : Type 0 where
  pub relative : String
  pub path : String
  pub is_symlink : Bool
  pub suffix : String

-- `compile_options`: the margins that a service was made with
pub record CompileOptions : Type 0 where
  pub lead_in_duration_ns : ℕ
  pub tail_out_duration_ns : ℕ

-- What is asked of the outside: the validation of settings, digests, and the file system
pub record Files : Type 0 where
  pub validate : String → Result Failure Profile
  pub profile_digest : Profile → (intro outro : Option String) → CompileOptions → String
  pub job_digest : (clip_id source_fingerprint profile_fingerprint : String) → String
  pub resolve : RootKey → String → Result Failure String
  pub fingerprint : String → Result Failure String
  pub walk : String → List Entry
  pub is_safe : String → Bool
  pub exists : String → Bool
  pub is_file : String → Bool
  pub is_symlink : String → Bool
  pub probe : String → Option Probe
  pub free_bytes : Result Failure ℕ
  pub new_id : ℕ → String
  pub created_at : ℕ → String

-- The fingerprint of an asset that a profile names
unfoldable pub asset_fingerprint : Files → String → Result Failure String
asset_fingerprint f reference = do path ← f.resolve RootKey.assets reference; f.fingerprint path

-- `fingerprint` of `_profile_details`
unfoldable pub reference_fingerprint : Files → Option String → Result Failure (Option String)
unfolding asset_fingerprint
reference_fingerprint f none = ok none
reference_fingerprint f (some reference) = do
  digest ← asset_fingerprint f reference
  ok (some digest)

abbrev pub same_reference : Option String → Option String → Bool
same_reference none none = true
same_reference (some a) (some b) = a == b
same_reference _ _ = false

-- A profile with its fingerprint, from those of its assets; the outro's is not asked for where it is the
-- intro.
abbrev pub with_fingerprint :
    Files
    → CompileOptions
    → Profile
    → (intro outro : Result Failure (Option String)) → Result Failure (Profile × String)
with_fingerprint f options profile intro_result outro_result = do
  intro ← intro_result
  outro ←
      (if same_reference profile.outro_reference profile.intro_reference
        then ok intro
        else outro_result)
  ok (profile, f.profile_digest profile intro outro options)

-- `CatalogService._profile_details`
unfoldable pub profile_details : Files → CompileOptions → String → Result Failure (Profile × String)
unfolding reference_fingerprint
profile_details f options settings = do
  profile ← f.validate settings
  with_fingerprint f options profile (reference_fingerprint f profile.intro_reference)
      (reference_fingerprint f profile.outro_reference)

-- `… if profile.intro_reference else None`: an empty reference counts as none.
unfoldable pub truthy_fingerprint : Files → Option String → Result Failure (Option String)
unfolding asset_fingerprint
truthy_fingerprint f none = ok none
truthy_fingerprint f (some reference) = elim (is_empty reference) [
  | true ↦ ok none
  | false ↦ asset_fingerprint f reference >>= λ digest. ok (some digest)
]

-- The fingerprint of `JobService._profile`, once the settings are read
unfoldable pub job_profile_details :
    Files → CompileOptions → String → Result Failure (Profile × String)
unfolding truthy_fingerprint
job_profile_details f options settings = do
  profile ← f.validate settings
  with_fingerprint f options profile (truthy_fingerprint f profile.intro_reference)
      (truthy_fingerprint f profile.outro_reference)

abbrev pub profile_has_id : String → ProfileRow → Bool
profile_has_id key p = p.id == key

-- `JobService._profile`: the profile of an enabled collection
unfoldable pub job_profile :
    Files → CompileOptions → Catalog → String → Result Failure (Profile × String)
unfolding job_profile_details
job_profile f options catalog collection_id = do
  row ←
      or_raise (find_where (λ c. c.id == collection_id && c.enabled) catalog.collections)
        (from_queue (key_error collection_id))
  profile ←
      or_raise (find_where (profile_has_id row.processing_profile_id) catalog.profiles)
        (from_queue (key_error collection_id))
  job_profile_details f options profile.settings
