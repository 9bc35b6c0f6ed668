-- ===== src/Worker/Requests/Planned.antt =====
-- Which jobs a request makes, and the room that they need (jobs.py, `enqueue_compile`).
use hass_clips_manager.Prelude.{◌≡◌, ◌⊎◌, ℕ, suc, ◌+◌, ◌≤◌, String, true, false, List, [], ◌∷◌}
use hass_clips_manager.Prelude.Results.{ok}
use hass_clips_manager.Prelude.Effects.{Reply, returned, raised}
use hass_clips_manager.Worker.Database.{Database, Job, Clip}
use hass_clips_manager.Worker.Queue.Invariant.{IsConsistent}
use hass_clips_manager.Worker.Queue.Batches.{Served}
use hass_clips_manager.Worker.Jobs.{Failure, Profile, RootKey}
use hass_clips_manager.Worker.Library.{Catalog, Files, job_profile}
use hass_clips_manager.Worker.Requests.{
  CompileRequest, Service, options_of, output_path, job_for, is_up_to_date, eligible_clips,
}

module _ (f : Files) (service : Service) (request : CompileRequest) (details : Profile × String)
    (db : Database) where
  abbrev pub nth_job : ℕ → Clip → Job
  nth_job n clip = job_for f service request details.0 details.1 n clip

  -- The resolver approves the source and the output of a clip, and places them at the given paths.
  abbrev pub IsPlaced : Clip → (source output : String) → Type 0
  IsPlaced clip source output =
      (f.resolve RootKey.source clip.relative_source_path ≡ ok source)
      × (f.resolve RootKey.compiled (output_path request details.0 clip) ≡ ok output)

  -- Of some clips, from the n-th on: one whose output is up to date is skipped, and one whose output is
  -- not gets its job; and the bytes that those with a job take.
  pub data Planned : ℕ → List Clip → List Job → ℕ → Type 0 where
    nothing : {n : ℕ} → Planned n [] [] 0
    skips :
        {n : ℕ} {clip : Clip} {clips : List Clip} {jobs : List Job} {total : ℕ}
        (source output : String)
        → IsPlaced clip source output
        → is_up_to_date f db clip output (nth_job n clip) ≡ true
        → Planned (suc n) clips jobs total
        → Planned n (clip ∷ clips) jobs total
    takes :
        {n : ℕ} {clip : Clip} {clips : List Clip} {jobs : List Job} {total : ℕ}
        (source output : String)
        → IsPlaced clip source output
        → is_up_to_date f db clip output (nth_job n clip) ≡ false
        → Planned (suc n) clips jobs total
        → Planned n (clip ∷ clips) (nth_job n clip ∷ jobs) (clip.metadata.size_bytes + total)

  -- The reserve stays free once the jobs have what they take.
  abbrev pub Fits : ℕ → ℕ → Type 0
  Fits remaining total = (total ≡ 0) ⊎ (total + service.disk_reserve_bytes ≤ remaining)

value_of : {S A : Type 0} → S × A → Reply S Failure A → S × A
value_of d (returned s a) = (s, a)
value_of d (raised s e) = d

-- What a request to compile has done
pub record Accepted (f : Files) (service : Service) (catalog : Catalog) (request : CompileRequest)
    (db db' : Database) (results : List Job) : Type 0 where
  pub details : Profile × String
  pub profile : job_profile f (options_of service) catalog request.collection_id ≡ ok details
  pub available : ℕ
  pub measured : f.free_bytes ≡ ok available
  pub jobs : List Job
  pub total : ℕ
  pub planned : Planned f service request details db 0 (eligible_clips request db.clips) jobs total
  pub fits : (total ≡ 0) ⊎ (total + service.disk_reserve_bytes ≤ available)
  pub served : Served db' jobs results
  pub consistent : IsConsistent db'
