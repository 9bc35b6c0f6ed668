-- ===== src/Worker/Scans/Margins.antt =====
-- What a compilation's margins mean to the next scan (jobs.py, catalog.py): the profile's fingerprint
-- contains them, and each of the two services computes it with its own.
use hass_clips_manager.Prelude.{◌≡◌, String, Bool, Option}
use hass_clips_manager.Worker.Jobs.{Profile}
use hass_clips_manager.Worker.Library.{CompileOptions, Files}

-- The digest of a profile and its assets tells these margins apart.
abbrev pub TellsMargins : Files → CompileOptions → CompileOptions → Type 0
TellsMargins f a b =
    (p : Profile) (intro outro : Option String)
    → f.profile_digest p intro outro a ≡ f.profile_digest p intro outro b
    → a ≡ b
