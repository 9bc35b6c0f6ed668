-- ===== src/Worker/Sources.antt =====
-- One source file of a scan, and the row that it leads to (catalog.py).
use hass_clips_manager.Prelude.{
  ℕ, String, Bool, false, ◌&&◌, ◌||◌, not, Option, none, some, List, [], ◌∷◌, ◌++◌, if◌then◌else◌,
  ◌==◌, is_some,
}
use hass_clips_manager.Prelude.Text.{concat, is_empty}
use hass_clips_manager.Prelude.Tables.{select_where, find_where, update_where}
use hass_clips_manager.Prelude.Results.{ok, err}
use hass_clips_manager.Worker.Database.{Clip, ClipState, Metadata, Timing}
use hass_clips_manager.Worker.Queue.{clip_has_id}
use hass_clips_manager.Worker.Jobs.{Probe, RootKey}
use hass_clips_manager.Worker.Library.{Files}

-- What is known of a file before its row is looked up
pub record Seen : Type 0 where
  pub collection_id : String
  pub relative : String
  pub fingerprint : String
  pub profile_fingerprint : String
  pub probe : Option Probe
  pub output : String
  pub new_id : String
  pub now : String

abbrev pub no_timing : Timing
no_timing = record {
  content_duration = none;
  lead_in_duration = none;
  tail_out_duration = none;
  content_start_offset = none;
  content_end_offset = none;
}

-- `probe.valid`, and what a failed probe reads as
abbrev pub is_valid : Option Probe → Bool
is_valid none = false
is_valid (some p) = p.valid

abbrev pub probe_duration : Option Probe → ℕ
probe_duration none = 0
probe_duration (some p) = p.duration_ns

-- The metadata that a probe gives
unfoldable pub probed_metadata : Seen → Metadata
probed_metadata file = record {
  source_fingerprint = some file.fingerprint;
  profile_fingerprint = some file.profile_fingerprint;
  output_fingerprint = none;
  has_audio = elim file.probe [ none ↦ false | some p ↦ p.has_audio ];
  size_bytes = elim file.probe [ none ↦ 0 | some p ↦ p.size_bytes ];
  timing = no_timing;
  failed_reason = none;
}

-- `state = "discovered" if probe.valid else "invalid"`
abbrev pub probed_state : Seen → ClipState
probed_state file = if is_valid file.probe then ClipState.discovered else ClipState.invalid

-- All five bounds are there.
abbrev pub is_complete : Timing → Bool
is_complete t =
    is_some t.content_duration
    && (is_some t.lead_in_duration
        && (is_some t.tail_out_duration
            && (is_some t.content_start_offset && is_some t.content_end_offset)))

abbrev pub same_fingerprint : Option String → String → Bool
same_fingerprint none s = false
same_fingerprint (some r) s = r == s

-- The output file is the one that the old metadata measured.
unfoldable pub is_same_output : Files → Clip → Bool
is_same_output f row = elim row.relative_output_path [
  | none ↦ false
  | some path ↦
      if not row.output_available || is_empty path
      then false
      else elim (f.resolve RootKey.compiled path) [
        | err _ ↦ false
        | ok output ↦
            if f.is_symlink output || not (f.is_file output)
            then false
            else elim (f.fingerprint output) [
              | err _ ↦ false
              | ok digest ↦ same_fingerprint row.metadata.output_fingerprint digest
            ]
      ]
]

-- `_retain_output_timing`
unfoldable pub retain_output_timing : Files → Metadata → Clip → Metadata
unfolding is_same_output
retain_output_timing f metadata row =
    if is_complete row.metadata.timing && is_same_output f row
    then record metadata {
      timing = row.metadata.timing;
      output_fingerprint = row.metadata.output_fingerprint;
    }
    else metadata

-- `WHERE collection_id=? AND relative_source_path=?`
abbrev pub is_at : String → String → Clip → Bool
is_at collection_id relative c =
    c.collection_id == collection_id && c.relative_source_path == relative

-- The rows of a collection with a fingerprint
abbrev pub has_content : String → String → Clip → Bool
has_content collection_id fingerprint c =
    c.collection_id == collection_id && same_fingerprint c.metadata.source_fingerprint fingerprint

-- The outcomes for a file that count: a new row, a change, or none
pub data Change : Type 0 where
  adds changes keeps : Change

-- The state and the count for a row that is at the path of the file
unfoldable pub next_state : Seen → Clip → ClipState × Change
next_state file row =
    if not (same_fingerprint row.metadata.source_fingerprint file.fingerprint)
      || not (same_fingerprint row.metadata.profile_fingerprint file.profile_fingerprint)
    then (if row.output_available then ClipState.stale else probed_state file, changes)
    else elim row.state [
      | ClipState.deleted ↦ (
        if row.output_available && is_valid file.probe then ClipState.ready else probed_state file,
        changes,
      )
      | s ↦ (s, keeps)
    ]

-- `UPDATE clips SET state=?, duration_seconds=?, metadata=?, updated_at=?`
abbrev pub rewrite : Seen → ClipState → Metadata → Clip → Clip
rewrite file state metadata c = record c {
  state = state;
  duration_ns = probe_duration file.probe;
  metadata = metadata;
  updated_at = file.now;
}

-- The row of a file that was not known
unfoldable pub new_clip : Seen → Clip
unfolding probed_metadata
new_clip file = record {
  id = file.new_id;
  collection_id = file.collection_id;
  state = probed_state file;
  relative_source_path = file.relative;
  relative_output_path = some file.output;
  duration_ns = probe_duration file.probe;
  output_duration_ns = none;
  output_available = false;
  metadata = probed_metadata file;
  updated_at = file.now;
}

-- The row that a file has moved from: the only one with its content whose own file is gone
unfoldable pub moved_from : Files → (source_root : String) → Seen → List Clip → Option Clip
moved_from f source_root file clips =
    elim (select_where
      (λ c. not (f.exists (concat source_root (concat "/" c.relative_source_path))))
      (select_where (has_content file.collection_id file.fingerprint) clips)) [
        | row ∷ [] ↦ some row
        | _ ↦ none
      ]

-- The rows after a file whose path has a row
unfoldable pub rescan : Files → Seen → Clip → List Clip → List Clip × Change
unfolding next_state retain_output_timing probed_metadata update_where
rescan f file row clips =
    let next = next_state file row in
    (
      update_where (clip_has_id row.id)
          (rewrite file next.0 (retain_output_timing f (probed_metadata file) row)) clips,
      next.1,
    )

-- The rows after a file that has moved
unfoldable pub move : Files → Seen → Clip → List Clip → List Clip
unfolding retain_output_timing probed_metadata update_where
move f file row clips =
    update_where (clip_has_id row.id)
      (λ c.
        record (rewrite file (probed_state file) (retain_output_timing f (probed_metadata file) row)
          c) { relative_source_path = file.relative })
      clips

-- The rows after a file, and what counts
unfoldable pub scan_file : Files → (source_root : String) → Seen → List Clip → List Clip × Change
unfolding rescan moved_from move new_clip find_where
scan_file f source_root file clips =
    elim (find_where (is_at file.collection_id file.relative) clips) [
      | some row ↦ rescan f file row clips
      | none ↦ elim (moved_from f source_root file clips) [
        | some row ↦ (move f file row clips, changes)
        | none ↦ (clips ++ new_clip file ∷ [], adds)
      ]
    ]
