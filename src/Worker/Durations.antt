-- ===== src/Worker/Durations.antt =====
-- The recovery of missing durations of compiled files (output_duration.py, `OutputDurations`). A call
-- holds the lock or does nothing, so calls that examine a file come one after another.
pub mod Careful
mod Tests
use hass_clips_manager.Prelude.{
  ℕ, ◌+◌, Bool, true, false, ◌||◌, ◌&&◌, not, String, Option, none, some, List, [], ◌∷◌,
  if◌then◌else◌, leb, ltb, nat_eq, ◌==◌, is_some, is_none,
}
use hass_clips_manager.Prelude.Text.{is_empty}
use hass_clips_manager.Prelude.Tables.{find_where, update_where}
use hass_clips_manager.Prelude.Dict.{Dict, lookup, insert, delete}
use hass_clips_manager.Prelude.Options.{◌>>=◌, ◌>>◌, check, attempt}
use hass_clips_manager.Prelude.Results.{Result}
use hass_clips_manager.Worker.Database.{Clip}
use hass_clips_manager.Worker.Jobs.{Failure, Probe}

-- `st_ino`, `st_size` and `st_mtime_ns`
pub record Stat : Type 0 where
  pub inode : ℕ
  pub size : ℕ
  pub modified_ns : ℕ

-- What a call meets: the readings of the monotonic clock in their order, whether another call holds
-- the lock, the file at a path (whether it is a file and no link), its stat before and after the
-- probe, what the probe says and whether the duration is finite, and what the other connections do to
-- the table in the meantime
pub record Encounter : Type 0 where
  pub asked : ℕ
  pub entered : ℕ
  pub is_locked : Bool
  pub throttle_read : ℕ
  pub throttle_set : ℕ
  pub started : ℕ
  pub is_plain_file : String → Result Failure Bool
  pub before : Result Failure Stat
  pub probe : Result Failure Probe
  pub after : Result Failure Stat
  pub is_finite : Bool
  pub meanwhile : List Clip → List Clip

-- `OutputDurations`, with the table of clips
pub record Durations : Type 0 where
  pub clips : List Clip
  pub retry_after : Dict ℕ

abbrev pub retry_delay : ℕ
retry_delay = 60000000000

abbrev pub same_stat : Stat → Stat → Bool
same_stat a b =
    nat_eq a.inode b.inode && (nat_eq a.size b.size && nat_eq a.modified_ns b.modified_ns)

-- The row has an output, by its column and its path.
abbrev pub is_listed_output : Clip → Bool
is_listed_output c =
    c.output_available
    && (elim c.relative_output_path [ none ↦ false | some path ↦ not (is_empty path) ])

-- `SELECT * FROM clips WHERE id=?`
unfoldable pub clip_by_id : String → List Clip → Option Clip
unfolding find_where
clip_by_id id clips = find_where (λ c. c.id == id) clips

abbrev pub path_text : Clip → String
path_text c = elim c.relative_output_path [ none ↦ "" | some path ↦ path ]

-- The examination of the file: the duration that a probe gives, where nothing speaks against it. An
-- exception is caught, and the file stays as it is.
unfoldable pub examine : ℕ → Encounter → Clip → Option ℕ
examine deadline e current = do
  is_plain ← attempt (e.is_plain_file (path_text current))
  check is_plain
  stat_before ← attempt e.before
  check (ltb e.started deadline)
  probe ← attempt e.probe
  stat_after ← attempt e.after
  check (same_stat stat_before stat_after)
  check (probe.valid && e.is_finite)
  check (ltb 0 probe.duration_ns)
  some probe.duration_ns

-- The condition of the UPDATE
abbrev pub is_still_current : Clip → Clip → Bool
is_still_current current c =
    c.id == current.id
    && (is_none c.output_duration_ns
        && (c.output_available
            && ((path_text c == path_text current) && (c.updated_at == current.updated_at))))

abbrev pub set_duration : ℕ → Clip → Clip
set_duration n c = record c { output_duration_ns = some n }

-- What follows a successful examination: the UPDATE, and the row read again
unfoldable pub write_duration : String → ℕ → Clip → Durations → Option Clip × Durations
unfolding update_where clip_by_id delete
write_duration id n current s =
    let clips = update_where (is_still_current current) (set_duration n) s.clips in
    (clip_by_id id clips, record { clips = clips; retry_after = delete id s.retry_after })

-- `ensure`, once it has the row as it is now
unfoldable pub refresh : ℕ → Encounter → String → Clip → Durations → Option Clip × Durations
unfolding examine write_duration lookup insert
refresh deadline e id current s =
    let retry_at : ℕ = elim (lookup id s.retry_after) [ none ↦ 0 | some t ↦ t ] in
    let throttled : Durations = record {
      clips = e.meanwhile s.clips;
      retry_after = insert id (e.throttle_set + retry_delay) s.retry_after;
    } in
    if is_some current.output_duration_ns || not (is_listed_output current)
    then (some current, s)
    else if ltb e.throttle_read retry_at
    then (some current, s)
    else elim (examine deadline e current) [
      | none ↦ (some current, throttled)
      | some n ↦ write_duration id n current throttled
    ]

-- `ensure`
unfoldable pub ensure : Option ℕ → Encounter → Clip → Durations → Option Clip × Durations
unfolding refresh clip_by_id
ensure deadline e row s =
    let limit : ℕ = elim deadline [ none ↦ e.asked + 3000000000 | some t ↦ t ] in
    if not (is_listed_output row) || is_some row.output_duration_ns
    then (some row, s)
    else if leb limit e.entered || e.is_locked
    then (some row, s)
    else elim (clip_by_id row.id s.clips) [
      | none ↦ (some row, s)
      | some current ↦ refresh limit e row.id current s
    ]

ensure_each : ℕ → List (Encounter × Clip) → Durations → List (Option Clip) × Durations
unfolding ensure
ensure_each deadline [] s = ([], s)
ensure_each deadline ((e, row) ∷ rows) s =
    let (found, s') = ensure (some deadline) e row s in
    let (rest, s'') = ensure_each deadline rows s' in (found ∷ rest, s'')

-- `ensure_many`, from the clock's reading on
unfoldable pub ensure_many :
    ℕ → List (Encounter × Clip) → Durations → List (Option Clip) × Durations
unfolding ensure_each
ensure_many now rows s = ensure_each (now + 2000000000) rows s
