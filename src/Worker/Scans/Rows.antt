-- ===== src/Worker/Scans/Rows.antt =====
-- What a scan leaves of each row (catalog.py).
use hass_clips_manager.Prelude.{
  ◌≡◌, refl, sym, ap, ◌∙◌, inl, inr, ℕ, suc, ◌+◌, String, Bool, List, [], ◌∷◌, ◌++◌, arith,
  Bool-cases, Option-cases,
}
use hass_clips_manager.Prelude.Tables.{length, find_where, update_where}
use hass_clips_manager.Worker.Database.{Clip}
use hass_clips_manager.Worker.Queue.{clip_has_id}
use hass_clips_manager.Worker.Library.{Files}
use hass_clips_manager.Worker.Sources.{
  Seen, Change, adds, rewrite, new_clip, next_state, moved_from, rescan, move, scan_file, is_at,
  retain_output_timing, probed_metadata,
}

-- A scan changes neither whose row it is nor the columns about its output.
pub record SameRow (c c' : Clip) : Type 0 where
  pub id : c'.id ≡ c.id
  pub collection_id : c'.collection_id ≡ c.collection_id
  pub output_available : c'.output_available ≡ c.output_available
  pub relative_output_path : c'.relative_output_path ≡ c.relative_output_path
  pub output_duration_ns : c'.output_duration_ns ≡ c.output_duration_ns

-- The rows are still there, in their order, and new rows follow them.
abbrev pub Kept : List Clip → List Clip → Type 0
Kept [] rows' = Unit {0}
Kept (c ∷ rows) [] = ⊥
Kept (c ∷ rows) (c' ∷ rows') = SameRow c c' × Kept rows rows'

same_row : (c : Clip) → SameRow c c
same_row c = record {
  id = refl;
  collection_id = refl;
  output_available = refl;
  relative_output_path = refl;
  output_duration_ns = refl;
}

pub Kept-refl : (rows : List Clip) → Kept rows rows
Kept-refl [] = tt
Kept-refl (c ∷ rows) = (same_row c, Kept-refl rows)

pub Kept-trans : (xs ys zs : List Clip) → Kept xs ys → Kept ys zs → Kept xs zs
Kept-trans [] ys zs h k = tt
Kept-trans (a ∷ xs) [] zs h k = elim h [ ]
Kept-trans (a ∷ xs) (b ∷ ys) [] h k = k
Kept-trans (a ∷ xs) (b ∷ ys) (c ∷ zs) h k = (
  record {
    id = k.0.id ∙ h.0.id;
    collection_id = k.0.collection_id ∙ h.0.collection_id;
    output_available = k.0.output_available ∙ h.0.output_available;
    relative_output_path = k.0.relative_output_path ∙ h.0.relative_output_path;
    output_duration_ns = k.0.output_duration_ns ∙ h.0.output_duration_ns;
  },
  Kept-trans xs ys zs h.1 k.1,
)

pub update_where-Kept :
    (p : Clip → Bool) (f : Clip → Clip) (rows : List Clip)
    → ((c : Clip) → SameRow c (f c))
    → Kept rows (update_where p f rows) × (length (update_where p f rows) ≡ length rows)
unfolding update_where
update_where-Kept p f [] same = (tt, refl)
update_where-Kept p f (c ∷ rows) same =
    let (kept, counted) = update_where-Kept p f rows same in
    elim (Bool-cases (p c)) [
      | inl t ↦ (rw t (same c, kept), ap suc counted)
      | inr e ↦ (rw e (same_row c, kept), ap suc counted)
    ]

pub append-Kept :
    (rows : List Clip) (c : Clip)
    → Kept rows (rows ++ c ∷ []) × (length (rows ++ c ∷ []) ≡ length rows + 1)
append-Kept [] c = (tt, refl)
append-Kept (r ∷ rows) c =
    let (kept, counted) = append-Kept rows c in ((same_row r, kept), omega arith)

abbrev pub added_by : Change → ℕ
added_by adds = 1
added_by _ = 0

next_state-added : (file : Seen) (row : Clip) → added_by (next_state file row).1 ≡ 0
unfolding next_state
next_state-added file row = ground arith

rescan-Kept :
    (f : Files) (file : Seen) (row : Clip) (rows : List Clip)
    → let r = rescan f file row rows in Kept rows r.0 × (length r.0 ≡ length rows + added_by r.1)
unfolding rescan
rescan-Kept f file row rows =
    let (kept, counted) =
      update_where-Kept (clip_has_id row.id)
        (rewrite file (next_state file row).0 (retain_output_timing f (probed_metadata file) row))
        rows
        (λ c. record {
          id = refl;
          collection_id = refl;
          output_available = refl;
          relative_output_path = refl;
          output_duration_ns = refl;
        }) in
    (kept, counted ∙ sym (rw (next_state-added file row) (omega arith)))

move-Kept :
    (f : Files) (file : Seen) (row : Clip) (rows : List Clip)
    → Kept rows (move f file row rows) × (length (move f file row rows) ≡ length rows + 0)
unfolding move
move-Kept f file row rows =
    let (kept, counted) = update_where-Kept (clip_has_id row.id) _ rows (λ c. record {
      id = refl;
      collection_id = refl;
      output_available = refl;
      relative_output_path = refl;
      output_duration_ns = refl;
    }) in
    (kept, counted ∙ omega arith)

-- A file's row is written in place, or is new.
pub scan_file-Kept :
    (f : Files) (source_root : String) (file : Seen) (rows : List Clip)
    → let r = scan_file f source_root file rows in
      Kept rows r.0 × (length r.0 ≡ length rows + added_by r.1)
unfolding scan_file
scan_file-Kept f source_root file rows =
    elim (Option-cases (find_where (is_at file.collection_id file.relative) rows)) [
      | inr (row, e) ↦ rw (e, scan_file) (rescan-Kept f file row rows)
      | inl e ↦ elim (Option-cases (moved_from f source_root file rows)) [
        | inr (row, m) ↦ rw (e, m, scan_file) (move-Kept f file row rows)
        | inl m ↦ rw (e, m, scan_file) (append-Kept rows (new_clip file))
      ]
    ]
