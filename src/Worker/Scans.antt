-- ===== src/Worker/Scans.antt =====
-- The scan of the source files (catalog.py). It is one transaction: a raise leaves the tables.
pub mod Rows
pub mod Found
pub mod Current
pub mod Margins
mod Tests
use hass_clips_manager.Prelude.{
  ℕ, suc, ◌+◌, String, Bool, true, false, ◌&&◌, ◌||◌, not, Option, none, some, List, [], ◌∷◌, ◌++◌,
  if◌then◌else◌, ◌==◌, is_some, is_none,
}
use hass_clips_manager.Prelude.Text.{concat, is_empty}
use hass_clips_manager.Prelude.Tables.{
  length, select_where, find_where, exists_where, update_where, count_where,
}
use hass_clips_manager.Prelude.Results.{Result, ok, err, ◌>>=◌, ◌>>◌, or_raise}
use hass_clips_manager.Worker.Database.{Clip, ClipState, Metadata, Timing}
use hass_clips_manager.Worker.Queue.{clip_has_id}
use hass_clips_manager.Worker.Jobs.{Failure, value_error, Profile, Probe, RootKey, ScanSummary}
use hass_clips_manager.Worker.Library.{
  Catalog, CompileOptions, Source, Files, Entry, profile_details, profile_has_id,
}
use hass_clips_manager.Worker.Sources.{
  Seen, no_timing, is_valid, probe_duration, probed_metadata, probed_state, is_complete,
  same_fingerprint, is_same_output, retain_output_timing, is_at, has_content, Change, adds, changes,
  keeps, next_state, rewrite, new_clip, moved_from, rescan, move, scan_file,
}

-- `_EXTENSIONS`, of a suffix in lower case
abbrev pub extensions : List String
extensions = ".mp4" ∷ ".m4v" ∷ ".mov" ∷ ".mkv" ∷ ".avi" ∷ ".webm" ∷ ".ts" ∷ []

-- The files that `_files` keeps
abbrev pub is_source : Files → Entry → Bool
is_source f entry =
    not entry.is_symlink
    && (exists_where (λ e. e == entry.suffix) extensions && f.is_safe entry.relative)

unfoldable pub files : Files → String → List Entry
unfolding select_where exists_where
files f root = select_where (is_source f) (f.walk root)

-- What a scan has counted
pub record Counts : Type 0 where
  pub added : ℕ
  pub modified : ℕ
  pub deleted : ℕ
  pub invalid : ℕ
  pub unchanged : ℕ

unfoldable pub count_change : Change → Bool → Counts → Counts
count_change change valid n = record n {
  added = n.added + (elim change [ adds ↦ 1 | _ ↦ 0 ]);
  modified = n.modified + (elim change [ changes ↦ 1 | _ ↦ 0 ]);
  unchanged = n.unchanged + (elim change [ keeps ↦ 1 | _ ↦ 0 ]);
  invalid = n.invalid + (if valid then 0 else 1);
}

-- The loop over the files of a collection: the rows, the paths that were seen, and the counts
pub record ScanState : Type 0 where
  pub clips : List Clip
  pub seen : List String
  pub counts : Counts

-- What the scan knows of a collection
pub record Scanned : Type 0 where
  pub source : Source
  pub profile : Profile
  pub profile_fingerprint : String
  pub source_root : String
  pub now : String

unfoldable pub seen_file : Files → Scanned → String → Entry → (fingerprint : String) → Seen
seen_file f c new_id entry fingerprint = record {
  collection_id = c.source.id;
  relative = entry.relative;
  fingerprint = fingerprint;
  profile_fingerprint = c.profile_fingerprint;
  probe = f.probe entry.path;
  output =
      concat c.source.compiled_output_prefix
        (concat "/" (concat new_id (concat "." c.profile.extension)));
  new_id = new_id;
  now = c.now;
}

-- The body of the loop
unfoldable pub scan_entry : Files → Scanned → Entry → ScanState → Result Failure ScanState
unfolding seen_file scan_file count_change
scan_entry f c entry p = f.fingerprint entry.path >>= λ fingerprint.
    let file = seen_file f c (f.new_id (length p.clips)) entry fingerprint in
    let r = scan_file f c.source_root file p.clips in
    ok (record {
      clips = r.0;
      seen = entry.relative ∷ p.seen;
      counts = count_change r.1 (is_valid file.probe) p.counts;
    })

unfoldable pub scan_entries : Files → Scanned → List Entry → ScanState → Result Failure ScanState
unfolding scan_entry
scan_entries f c [] p = ok p
scan_entries f c (entry ∷ entries) p = scan_entry f c entry p >>= scan_entries f c entries

-- A row of the collection whose file was not seen, and that is not marked deleted yet
unfoldable pub is_missing : String → List String → Clip → Bool
unfolding exists_where
is_missing collection_id seen c =
    c.collection_id == collection_id
    && (not (exists_where (λ s. s == c.relative_source_path) seen)
        && elim c.state [ ClipState.deleted ↦ false | _ ↦ true ])

-- The rows whose files are gone are marked; nothing is removed.
unfoldable pub mark_missing : Scanned → ScanState → ScanState
unfolding is_missing update_where count_where
mark_missing c p = record p {
  clips =
      update_where (is_missing c.source.id p.seen)
        (λ r. record r { state = ClipState.deleted; updated_at = c.now }) p.clips;
  counts = record p.counts {
    deleted = p.counts.deleted + count_where (is_missing c.source.id p.seen) p.clips;
  };
}

-- The body of the loop over the collections. A path counts as seen in its own collection.
unfoldable pub scan_collection :
    Files
    → CompileOptions
    → Catalog
    → (source_root now : String) → Source
    → List Clip × Counts
    → Result Failure (List Clip × Counts)
unfolding find_where profile_details files scan_entries mark_missing
scan_collection f options catalog source_root now source (clips, counts) = do
  row ←
      or_raise (find_where (profile_has_id source.processing_profile_id) catalog.profiles)
        (value_error "collection references an unavailable processing profile")
  details ← profile_details f options row.settings
  root ← f.resolve RootKey.source source.source_directory
  let c : Scanned = record {
    source = source;
    profile = details.0;
    profile_fingerprint = details.1;
    source_root = source_root;
    now = now;
  }
  p ← scan_entries f c (files f root) (record { clips = clips; seen = []; counts = counts })
  let marked : ScanState = mark_missing c p
  ok (marked.clips, marked.counts)

unfoldable pub scan_collections :
    Files
    → CompileOptions
    → Catalog
    → (source_root now : String) → List Source
    → List Clip × Counts
    → Result Failure (List Clip × Counts)
unfolding scan_collection
scan_collections f options catalog source_root now [] p = ok p
scan_collections f options catalog source_root now (source ∷ sources) p =
    scan_collection f options catalog source_root now source p
    >>= scan_collections f options catalog source_root now sources

abbrev pub is_selected : Option (List String) → Source → Bool
is_selected none source = source.enabled
is_selected (some ids) source = source.enabled && exists_where (λ id. id == source.id) ids

-- `scan`
unfoldable pub scan :
    Files
    → CompileOptions
    → Catalog
    → (source_root now : String) → Option (List String)
    → List Clip
    → Result Failure (List Clip × Counts)
unfolding select_where scan_collections
scan f options catalog source_root now ids clips =
    scan_collections f options catalog source_root now
      (select_where (is_selected ids) catalog.collections)
      (clips, record { added = 0; modified = 0; deleted = 0; invalid = 0; unchanged = 0 })
