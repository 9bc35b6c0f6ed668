-- ===== src/Worker/Collections/Tests.antt =====
-- The repository of collections at concrete tables.
use hass_clips_manager.Prelude.{arith, eq_iff, ◌≡◌, refl, String, true, false, none, some, [], ◌∷◌}
use hass_clips_manager.Prelude.Int.{pos}
use hass_clips_manager.Prelude.Tables.{
  count_where, select_where, find_where, exists_where, update_where,
}
use hass_clips_manager.Prelude.Results.{Result, ok, err}
use hass_clips_manager.Worker.Collections.{create, patch, replay, is_unchanged}
use hass_clips_manager.Worker.Records.{
  Material, Tables, RepositoryError, Caller, changes, optimistic_conflict,
}
use hass_clips_manager.Worker.Domain.{
  PlaybackMode, CollectionCreate, CollectionPatch, CollectionRecord,
}
use hass_clips_manager.Worker.Collections.Replay.{create_again}
use hass_clips_manager.Worker.Collections.Revisions.{no_lost_update}
use hass_clips_manager.Worker.Collections.Invariant.{IsSound, create-IsSound, patch-IsSound}

abbrev digest : Material → String
digest m = m.target

abbrev empty : Tables
empty = record { collections = []; profile_ids = "cinema" ∷ []; remembered = []; audit = [] }

abbrev manager : String → Caller
manager request_id = record {
  actor = "manager";
  request_id = request_id;
  now = "2026-09-01T10:00:00+00:00";
}

abbrev summer : CollectionCreate
summer = record {
  id = "summer";
  name = "Summer";
  source_directory = "summer";
  processing_profile_id = "cinema";
  enabled = true;
  is_default = true;
  starts_at = none;
  ends_at = none;
  schedule = "{}";
  playback_mode = PlaybackMode.random;
  ordered_clip_ids = [];
}

abbrev no_change : CollectionPatch
no_change = record {
  name = none;
  enabled = none;
  priority = none;
  source_directory = none;
  processing_profile_id = none;
  is_default = none;
  allow_manual_override = none;
  tags = none;
  notes = none;
  starts_at = none;
  ends_at = none;
  schedule = none;
  playback_mode = none;
  ordered_clip_ids = none;
}

abbrev rename : String → CollectionPatch
rename name = record no_change { name = some name }

abbrev value_of :
    Result RepositoryError (Tables × CollectionRecord)
    → Tables × CollectionRecord
    → Tables × CollectionRecord
value_of (ok r) other = r
value_of (err e) other = other

abbrev summer_record : CollectionRecord
summer_record = record {
  id = "summer";
  name = "Summer";
  enabled = true;
  priority = pos 0;
  source_directory = "summer";
  compiled_output_prefix = "summer";
  processing_profile_id = "cinema";
  is_default = true;
  allow_manual_override = false;
  tags = [];
  notes = none;
  starts_at = none;
  ends_at = none;
  schedule = "{}";
  playback_mode = PlaybackMode.random;
  ordered_clip_ids = [];
  revision = 1;
}

abbrev nowhere : Tables × CollectionRecord
nowhere = (empty, summer_record)

abbrev created : Tables × CollectionRecord
created = value_of (create digest summer (manager "r1") empty) nowhere

creates : create digest summer (manager "r1") empty ≡ ok created
unfolding create find_where exists_where select_where
creates = refl

create_again_example :
    create digest summer (record (manager "r1") { now = "later" }) created.0 ≡ ok created
create_again_example = create_again digest summer (manager "r1") "later" empty created creates

abbrev renamed : Tables × CollectionRecord
renamed = value_of (patch digest "summer" 1 (rename "Sun") (manager "r2") created.0) nowhere

renames : patch digest "summer" 1 (rename "Sun") (manager "r2") created.0 ≡ ok renamed
unfolding create patch find_where exists_where select_where update_where
renames = refl

first_is_new :
    replay digest "collection.patch" "summer"
      (some 1)
      (changes (rename "Sun"))
      (manager "r2")
      created.0
    ≡ ok none
unfolding create replay find_where exists_where select_where
first_is_new = refl

second_is_new :
    replay digest "collection.patch" "summer"
      (some 1)
      (changes (rename "Sea"))
      (manager "r3")
      renamed.0
    ≡ ok none
unfolding create patch replay find_where exists_where select_where update_where
second_is_new = refl

sea_differs : is_unchanged (rename "Sea") ≡ false
unfolding is_unchanged
sea_differs = refl

no_lost_update_example :
    patch digest "summer" 1 (rename "Sea") (manager "r3") renamed.0 ≡ err optimistic_conflict
no_lost_update_example =
    no_lost_update digest "summer" 1 (rename "Sun") (rename "Sea") (manager "r2") (manager "r3")
      created.0 renamed first_is_new renames second_is_new sea_differs refl

empty-IsSound : IsSound empty.collections
unfolding count_where
empty-IsSound = record { ids = λ k. omega arith; one_default = omega arith }

create-IsSound_example : IsSound created.0.collections
create-IsSound_example =
    create-IsSound digest summer (manager "r1") empty created creates empty-IsSound

created-IsSound : IsSound created.0.collections
unfolding create count_where find_where exists_where select_where
created-IsSound = record { ids = λ k. ground (arith, eq_iff "summer" k); one_default = omega arith }

patch-IsSound_example : IsSound renamed.0.collections
patch-IsSound_example =
    patch-IsSound digest "summer" 1 (rename "Sun") (manager "r2") created.0 renamed renames
      created-IsSound
