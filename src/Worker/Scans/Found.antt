-- ===== src/Worker/Scans/Found.antt =====
-- What a scan does to the rows (catalog.py): no row goes, each file counts once, gone files are marked.
use hass_clips_manager.Prelude.{◌≡◌, ◌⊎◌, ℕ, ◌+◌, String, Bool, true, List, ◌==◌}
use hass_clips_manager.Prelude.Tables.{length, exists_where, All}
use hass_clips_manager.Prelude.Results.{ok}
use hass_clips_manager.Worker.Database.{Clip, ClipState}
use hass_clips_manager.Worker.Jobs.{RootKey}
use hass_clips_manager.Worker.Library.{Source, Files, Entry}
use hass_clips_manager.Worker.Scans.{Counts, files}
use hass_clips_manager.Worker.Scans.Rows.{Kept}

-- Between two points of a scan: the rows are kept, the new rows are those that were counted, and of the
-- outcomes as many as files were counted.
pub record Went (files : ℕ) (rows : List Clip) (counts : Counts) (rows' : List Clip)
    (counts' : Counts) : Type 0 where
  pub kept : Kept rows rows'
  pub grown : length rows' + counts.added ≡ length rows + counts'.added
  pub counted :
      counts'.added + counts'.modified + counts'.unchanged
      ≡ counts.added + counts.modified + counts.unchanged + files

-- After its collection was scanned, a row of it is at a path that was seen, or marked as deleted.
abbrev pub IsFound : String → List String → Clip → Type 0
IsFound collection_id seen c =
    (c.collection_id ≡ collection_id)
    → (exists_where (λ s. s == c.relative_source_path) seen ≡ true) ⊎ (c.state ≡ ClipState.deleted)

-- A file of the list is at the path.
abbrev pub has_file : String → List Entry → Bool
has_file path entries = exists_where (λ entry. entry.relative == path) entries

-- A row of a collection is at a file's path or is marked as deleted.
abbrev pub IsAccounted : String → List Entry → Clip → Type 0
IsAccounted collection_id entries c =
    (c.collection_id ≡ collection_id)
    → (has_file c.relative_source_path entries ≡ true) ⊎ (c.state ≡ ClipState.deleted)

-- What the scan of one collection has done
pub record ScannedCollection (f : Files) (source : Source) (rows : List Clip) (counts : Counts)
    (rows' : List Clip) (counts' : Counts) : Type 0 where
  pub root : String
  pub resolved : f.resolve RootKey.source source.source_directory ≡ ok root
  pub went : Went (length (files f root)) rows counts rows' counts'
  pub accounted : All (IsAccounted source.id (files f root)) rows'
