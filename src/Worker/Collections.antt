-- ===== src/Worker/Collections.antt =====
-- The repository of collections with its audit trail and idempotency keys (repositories.py, domain.py).
-- Each mutation is a transaction: an error leaves the tables as they were. JSON columns hold the texts
-- of their values; `digest` is the SHA-256 of a request's JSON; an absent actor or request id is "".
pub mod Demotion
pub mod Replay
pub mod Revisions
pub mod Invariant
mod Tests
use hass_clips_manager.Prelude.{
  ℕ, suc, ◌+◌, Bool, true, false, ◌||◌, ◌&&◌, not, String, Option, none, some, List, [], ◌∷◌, ◌++◌,
  if◌then◌else◌, ◌==◌, nat_eq, is_none,
}
use hass_clips_manager.Prelude.Int.{ℤ, pos}
use hass_clips_manager.Prelude.Tables.{select_where, find_where, exists_where, update_where, is_nil}
use hass_clips_manager.Prelude.Text.{is_empty}
use hass_clips_manager.Prelude.Results.{Result, ok, err, ◌>>=◌, ◌>>◌, raise_if, or_raise}
use hass_clips_manager.Worker.Domain.{
  PlaybackMode, random, sequential, custom, CollectionCreate, CollectionPatch, CollectionRecord,
}
use hass_clips_manager.Worker.Records.{
  Row, Payload, creation, changes, demotion, Material, Remembered, AuditEvent, Tables,
  RepositoryError, optimistic_conflict, idempotency_conflict, value_error, resource_not_found,
  key_error, Caller,
}

abbrev pub has_id : String → Row → Bool
has_id id r = r.collection.id == id

-- `CollectionRepository.get`
unfoldable pub get : String → Tables → Result RepositoryError CollectionRecord
get id db = do
  row ← or_raise (find_where (has_id id) db.collections) (key_error id)
  ok row.collection

-- `_require_profile`
unfoldable pub require_profile : String → Tables → Result RepositoryError (Unit {0})
require_profile id db =
    raise_if (not (exists_where (λ p. p == id) db.profile_ids)) (resource_not_found id)

-- `_audit`
abbrev pub audited : String → String → Caller → Payload → Tables → Tables
audited action target who payload db = record db {
  audit =
      db.audit
      ++ record {
        action = action;
        target = target;
        actor = who.actor;
        request_id = who.request_id;
        payload = payload;
        occurred_at = who.now;
      }
        ∷ [];
}

abbrev pub is_other_default : String → Row → Bool
is_other_default keep_id r = r.collection.is_default && not (r.collection.id == keep_id)

-- The `UPDATE` of `_demote_other_defaults`
abbrev pub demoted : String → Row → Row
demoted now r = record r {
  collection = record r.collection { is_default = false; revision = r.collection.revision + 1 };
  updated_at = now;
}

-- The loop of `_demote_other_defaults`, over the rows selected before it
pub demote_each : String → Caller → List Row → Tables → Tables
demote_each keep_id who [] db = db
demote_each keep_id who (r ∷ rs) db = demote_each keep_id who rs (
    audited "collection.default_demoted" r.collection.id who
      (demotion keep_id r.collection.revision)
      (record db {
        collections =
            update_where
              (λ x. has_id r.collection.id x && nat_eq x.collection.revision r.collection.revision)
              (demoted who.now) db.collections;
      }))

-- `_demote_other_defaults`
unfoldable pub demote_other_defaults : String → Caller → Tables → Tables
unfolding demote_each
demote_other_defaults keep_id who db =
    demote_each keep_id who (select_where (is_other_default keep_id) db.collections) db

-- The row that `create` inserts, with the columns' defaults
abbrev pub new_row : CollectionCreate → String → Row
new_row p now = record {
  collection = record {
    id = p.id;
    name = p.name;
    enabled = p.enabled;
    priority = pos 0;
    source_directory = p.source_directory;
    compiled_output_prefix = p.id;
    processing_profile_id = p.processing_profile_id;
    is_default = p.is_default;
    allow_manual_override = false;
    tags = [];
    notes = none;
    starts_at = p.starts_at;
    ends_at = p.ends_at;
    schedule = p.schedule;
    playback_mode = p.playback_mode;
    ordered_clip_ids = p.ordered_clip_ids;
    revision = 1;
  };
  created_at = now;
  updated_at = now;
}

-- The `INSERT` of `create`: the id is the primary key and the prefix is unique. The index that allows
-- one default is not tested here, nor by the `UPDATE` of `patch`: the others are demoted before.
unfoldable pub insert_row : Row → Tables → Result RepositoryError Tables
insert_row r db =
    if exists_where
      (λ x.
        has_id r.collection.id x
        || (x.collection.compiled_output_prefix == r.collection.compiled_output_prefix))
      db.collections
    then err value_error
    else ok (record db { collections = db.collections ++ r ∷ [] })

abbrev pub or_kept : {A : Type 0} → Option A → A → A
or_kept none a = a
or_kept (some b) a = b

abbrev pub or_kept_some : {A : Type 0} → Option A → Option A → Option A
or_kept_some none a = a
or_kept_some (some b) a = some b

-- The `SET` of the `UPDATE` of `patch`
unfoldable pub patched : CollectionPatch → String → Row → Row
patched p now r = record {
  collection = record {
    id = r.collection.id;
    name = or_kept p.name r.collection.name;
    enabled = or_kept p.enabled r.collection.enabled;
    priority = or_kept p.priority r.collection.priority;
    source_directory = or_kept p.source_directory r.collection.source_directory;
    compiled_output_prefix = r.collection.compiled_output_prefix;
    processing_profile_id = or_kept p.processing_profile_id r.collection.processing_profile_id;
    is_default = or_kept p.is_default r.collection.is_default;
    allow_manual_override = or_kept p.allow_manual_override r.collection.allow_manual_override;
    tags = or_kept p.tags r.collection.tags;
    notes = or_kept_some p.notes r.collection.notes;
    starts_at = or_kept_some p.starts_at r.collection.starts_at;
    ends_at = or_kept_some p.ends_at r.collection.ends_at;
    schedule = or_kept p.schedule r.collection.schedule;
    playback_mode = or_kept p.playback_mode r.collection.playback_mode;
    ordered_clip_ids = or_kept p.ordered_clip_ids r.collection.ordered_clip_ids;
    revision = r.collection.revision + 1;
  };
  created_at = r.created_at;
  updated_at = now;
}

-- `not values`
unfoldable pub is_unchanged : CollectionPatch → Bool
is_unchanged p =
    is_none p.name
    && (is_none p.enabled
        && (is_none p.priority
            && (is_none p.source_directory
                && (is_none p.processing_profile_id
                    && (is_none p.is_default
                        && (is_none p.allow_manual_override
                            && (is_none p.tags
                                && (is_none p.notes
                                    && (is_none p.starts_at
                                        && (is_none p.ends_at
                                            && (is_none p.schedule
                                                && (is_none p.playback_mode
                                                    && is_none p.ordered_clip_ids))))))))))))

abbrev pub at_revision : String → ℕ → Row → Bool
at_revision id revision r = has_id id r && nat_eq r.collection.revision revision

abbrev pub makes_default : CollectionPatch → Bool
makes_default p = or_kept p.is_default false

-- `_require_profile` of a patch that has a profile
abbrev pub require_patched_profile : CollectionPatch → Tables → Result RepositoryError (Unit {0})
require_patched_profile p db = elim p.processing_profile_id [
  | none ↦ ok tt
  | some id ↦ require_profile id db
]

module _ (digest : Material → String) where
  -- `_replay`
  unfoldable pub replay :
      String
      → String
      → Option ℕ
      → Payload
      → Caller
      → Tables
      → Result RepositoryError (Option CollectionRecord)
  replay operation target revision payload who db = do
    raise_if (is_empty who.actor || is_empty who.request_id) value_error
    elim (find_where (λ r. r.request_id == who.request_id) db.remembered) [
      | none ↦ ok none
      | some r ↦
          if (r.actor == who.actor)
            && ((r.operation == operation)
                && (r.fingerprint
                    == digest (record {
                      actor = who.actor;
                      operation = operation;
                      target = target;
                      revision = revision;
                      payload = payload;
                    })))
          then ok (some r.response)
          else err idempotency_conflict
    ]

  -- `_remember`
  abbrev pub remember :
      String → String → Option ℕ → Payload → Caller → CollectionRecord → Tables → Tables
  remember operation target revision payload who response db = record db {
    remembered =
        db.remembered
        ++ record {
          request_id = who.request_id;
          actor = who.actor;
          operation = operation;
          response = response;
          created_at = who.now;
          fingerprint = digest (record {
            actor = who.actor;
            operation = operation;
            target = target;
            revision = revision;
            payload = payload;
          });
        }
          ∷ [];
  }

  -- The end of a mutation: the audit event, the remembered response, and what is returned
  unfoldable pub finish :
      String
      → String
      → Option ℕ
      → Payload
      → Caller
      → Tables
      → Result RepositoryError (Tables × CollectionRecord)
  unfolding get
  finish operation target revision payload who db = do
    response ← get target db
    ok (
      remember operation target revision payload who response
          (audited operation target who payload db),
      response,
    )

  -- `create`, when no response is replayed
  pub create_new :
      CollectionCreate → Caller → Tables → Result RepositoryError (Tables × CollectionRecord)
  unfolding require_profile insert_row demote_other_defaults finish
  create_new p who db = do
    require_profile p.processing_profile_id db
    db' ←
        insert_row (new_row p who.now)
          (if p.is_default then demote_other_defaults p.id who db else db)
    finish "collection.create" p.id none (creation p) who db'

  -- `CollectionRepository.create`
  unfoldable pub create :
      CollectionCreate → Caller → Tables → Result RepositoryError (Tables × CollectionRecord)
  unfolding replay create_new
  create p who db = do
    replayed ← replay "collection.create" p.id none (creation p) who db
    elim replayed [ some r ↦ ok (db, r) | none ↦ create_new p who db ]

  -- The `UPDATE` of `patch`, and what it raises when it hits no row
  pub update_row : String → ℕ → CollectionPatch → Caller → Tables → Result RepositoryError Tables
  unfolding patched
  update_row id revision p who db =
      if exists_where (at_revision id revision) db.collections
      then ok (record db {
        collections = update_where (at_revision id revision) (patched p who.now) db.collections;
      })
      else if not (exists_where (has_id id) db.collections)
      then err (resource_not_found id)
      else err optimistic_conflict

  -- `patch`, when no response is replayed
  pub patch_new :
      String
      → ℕ
      → CollectionPatch
      → Caller
      → Tables
      → Result RepositoryError (Tables × CollectionRecord)
  unfolding is_unchanged require_profile update_row demote_other_defaults finish
  patch_new id revision p who db = do
    raise_if (is_unchanged p) value_error
    require_patched_profile p db
    db' ←
        update_row id revision p who
          (if makes_default p then demote_other_defaults id who db else db)
    finish "collection.patch" id (some revision) (changes p) who db'

  -- `CollectionRepository.patch`
  unfoldable pub patch :
      String
      → ℕ
      → CollectionPatch
      → Caller
      → Tables
      → Result RepositoryError (Tables × CollectionRecord)
  unfolding replay patch_new
  patch id revision p who db = do
    replayed ← replay "collection.patch" id (some revision) (changes p) who db
    elim replayed [ some r ↦ ok (db, r) | none ↦ patch_new id revision p who db ]
