-- ===== src/Worker/Library/Agreement.antt =====
-- The two places that compute a profile's fingerprint agree (catalog.py, jobs.py).
use hass_clips_manager.Prelude.{◌≡◌, refl, ap, ◌∙◌, String, false, Option, none, some}
use hass_clips_manager.Prelude.Text.{is_empty}
use hass_clips_manager.Prelude.Results.{Result, ok, err}
use hass_clips_manager.Worker.Jobs.{Failure, Profile}
use hass_clips_manager.Worker.Library.{
  CompileOptions, Files, reference_fingerprint, truthy_fingerprint, profile_details,
  job_profile_details, with_fingerprint,
}

-- A reference is none or a text that is not empty, as the validation of profiles demands.
abbrev pub IsReference : Option String → Type 0
IsReference none = Unit {0}
IsReference (some reference) = is_empty reference ≡ false

fingerprint_agrees :
    (f : Files) (reference : Option String)
    → IsReference reference
    → truthy_fingerprint f reference ≡ reference_fingerprint f reference
unfolding truthy_fingerprint reference_fingerprint
fingerprint_agrees f none h = refl
fingerprint_agrees f (some reference) h = rw (h, truthy_fingerprint) refl

-- Where every valid profile names its assets by texts that are not empty, a scan and a request
-- compute the same profile and the same fingerprint, or raise alike, for the same settings and margins.
pub details_agree :
    (f : Files) (options : CompileOptions) (settings : String)
    → ((p : Profile)
        → f.validate settings ≡ ok p
        → IsReference p.intro_reference × IsReference p.outro_reference)
    → job_profile_details f options settings ≡ profile_details f options settings
unfolding job_profile_details profile_details
details_agree f options settings named = go (f.validate settings) refl
  where
    go :
        (r : Result Failure Profile)
        → f.validate settings ≡ r
        → job_profile_details f options settings ≡ profile_details f options settings
    go (err e) h = rw (h, job_profile_details, profile_details) refl
    go (ok p) h =
        let (i, o) = named p h in
        rw (h, job_profile_details, profile_details)
          (ap (λ r. with_fingerprint f options p r (truthy_fingerprint f p.outro_reference))
              (fingerprint_agrees f p.intro_reference i)
            ∙ ap (with_fingerprint f options p (reference_fingerprint f p.intro_reference))
                (fingerprint_agrees f p.outro_reference o))
