-- ===== src/Worker/Domain.antt =====
-- What the API creates, patches and returns of a collection (domain.py).
use hass_clips_manager.Prelude.{ℕ, Bool, String, Option, List}
use hass_clips_manager.Prelude.Int.{ℤ}

-- `PlaybackMode` of domain.py
pub data PlaybackMode : Type 0 where
  random sequential custom : PlaybackMode

-- `CollectionCreate`, less its secret
pub record CollectionCreate : Type 0 where
  pub id : String
  pub name : String
  pub source_directory : String
  pub processing_profile_id : String
  pub enabled : Bool
  pub is_default : Bool
  pub starts_at : Option String
  pub ends_at : Option String
  pub schedule : String
  pub playback_mode : PlaybackMode
  pub ordered_clip_ids : List String

-- `CollectionPatch`: a field that is none is not patched.
pub record CollectionPatch : Type 0 where
  pub name : Option String
  pub enabled : Option Bool
  pub priority : Option ℤ
  pub source_directory : Option String
  pub processing_profile_id : Option String
  pub is_default : Option Bool
  pub allow_manual_override : Option Bool
  pub tags : Option (List String)
  pub notes : Option String
  pub starts_at : Option String
  pub ends_at : Option String
  pub schedule : Option String
  pub playback_mode : Option PlaybackMode
  pub ordered_clip_ids : Option (List String)

-- `CollectionRecord`, as it is stored and as it is returned
pub record CollectionRecord : Type 0 where
  pub id : String
  pub name : String
  pub enabled : Bool
  pub priority : ℤ
  pub source_directory : String
  pub compiled_output_prefix : String
  pub processing_profile_id : String
  pub is_default : Bool
  pub allow_manual_override : Bool
  pub tags : List String
  pub notes : Option String
  pub starts_at : Option String
  pub ends_at : Option String
  pub schedule : String
  pub playback_mode : PlaybackMode
  pub ordered_clip_ids : List String
  pub revision : ℕ
