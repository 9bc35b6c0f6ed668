-- ===== src/Integration/Resolver.antt =====
-- Which collection is active (resolver.py). A time is an instant, in microseconds, with a mark for a
-- time zone; `as_local` is Home Assistant's conversion to local time.
pub mod Order
pub mod Choice
pub mod Listing
mod Tests
use hass_clips_manager.Prelude.{
  ℕ, Bool, true, false, ◌||◌, ◌&&◌, not, String, Option, some, List, [], ◌∷◌, if◌then◌else◌, ◌==◌,
  leb, ltb, is_none,
}
use hass_clips_manager.Prelude.Int.{ℤ, int_lt}
use hass_clips_manager.Prelude.Order.{str_lt}
use hass_clips_manager.Prelude.Tables.{find_where, select_where, first_by, is_nil}
use hass_clips_manager.Prelude.Results.{Result, ok, err, ◌>>=◌, ◌>>◌, raise_if}
use hass_clips_manager.Slug.{is_slug}
use hass_clips_manager.Integration.Const.{
  PlaybackMode, is_custom, ValueError, bad_identifier, naive_time, bad_window, bad_override,
  custom_needs_order, normalize_clip_order,
}

-- A Python `datetime`
pub record DateTime : Type 0 where
  pub instant : ℕ
  pub aware : Bool

-- `OverrideMode`: only an explicit one can hold a collection.
pub data OverrideMode : Type 0 where
  automatic default : OverrideMode
  explicit : String → OverrideMode

-- `OverrideMode.explicit`
unfoldable pub explicit_override : Option String → Result ValueError OverrideMode
explicit_override Option.none = err bad_override
explicit_override (some id) = if is_slug id then ok (explicit id) else err bad_override

-- `SelectionReason`
pub data SelectionReason : Type 0 where
  manual manual_default schedule default none : SelectionReason

-- `CollectionPolicy`
pub record CollectionPolicy : Type 0 where
  pub id : String
  pub enabled : Bool
  pub priority : ℤ
  pub starts_at : Option DateTime
  pub ends_at : Option DateTime
  pub is_default : Bool
  pub allow_manual_override : Bool
  pub playback_mode : PlaybackMode
  pub ordered_clip_ids : List String

abbrev pub is_naive : Option DateTime → Bool
is_naive Option.none = false
is_naive (some t) = not t.aware

abbrev pub is_reversed : Option DateTime → Option DateTime → Bool
is_reversed (some a) (some b) = ltb b.instant a.instant
is_reversed _ _ = false

-- `CollectionPolicy.__post_init__`
unfoldable pub check_policy : CollectionPolicy → Result ValueError CollectionPolicy
check_policy p = do
  raise_if (not (is_slug p.id)) bad_identifier
  raise_if (is_naive p.starts_at || is_naive p.ends_at) naive_time
  raise_if (is_reversed p.starts_at p.ends_at) bad_window
  ordered ← normalize_clip_order p.ordered_clip_ids
  raise_if (is_custom p.playback_mode && is_nil ordered) custom_needs_order
  ok (record p { ordered_clip_ids = ordered })

abbrev pub starts_by : DateTime → Option DateTime → Bool
starts_by now Option.none = true
starts_by now (some start) = leb start.instant now.instant

abbrev pub ends_after : DateTime → Option DateTime → Bool
ends_after now Option.none = true
ends_after now (some end) = ltb now.instant end.instant

-- `CollectionPolicy.is_scheduled_at`
unfoldable pub is_scheduled_at : DateTime → CollectionPolicy → Bool
is_scheduled_at now p = p.enabled && (starts_by now p.starts_at && ends_after now p.ends_at)

-- `SelectionResult`
pub record SelectionResult : Type 0 where
  pub collection : Option CollectionPolicy
  pub reason : SelectionReason
  pub override_rejected : Bool

abbrev pub nothing : SelectionResult
nothing = record {
  collection = Option.none;
  reason = SelectionReason.none;
  override_rejected = false;
}

abbrev pub chosen : CollectionPolicy → SelectionReason → SelectionResult
chosen c reason = record { collection = some c; reason = reason; override_rejected = false }

-- `key=lambda collection: collection.id`
abbrev pub by_id : CollectionPolicy → CollectionPolicy → Bool
by_id a b = str_lt a.id b.id

-- `key=lambda item: (-item.priority, item.id)`
abbrev pub by_priority : CollectionPolicy → CollectionPolicy → Bool
by_priority a b =
    int_lt b.priority a.priority || (not (int_lt a.priority b.priority) && str_lt a.id b.id)

abbrev pub is_default_choice : CollectionPolicy → Bool
is_default_choice c = c.enabled && c.is_default

-- `_default_collection`
unfoldable pub default_collection : List CollectionPolicy → Option CollectionPolicy
default_collection collections = first_by by_id (select_where is_default_choice collections)

pub resolve_explicit : List CollectionPolicy → String → SelectionResult
resolve_explicit collections id = elim (find_where (λ c. c.id == id) collections) [
  | Option.none ↦ record nothing { override_rejected = true }
  | some c ↦
      if c.enabled && c.allow_manual_override
      then chosen c SelectionReason.manual
      else record nothing { override_rejected = true }
]

pub resolve_default : List CollectionPolicy → SelectionReason → SelectionResult
unfolding default_collection
resolve_default collections reason = elim (default_collection collections) [
  | Option.none ↦ nothing
  | some c ↦ chosen c reason
]

pub resolve_automatic : List CollectionPolicy → DateTime → SelectionResult
unfolding resolve_default is_scheduled_at
resolve_automatic collections now =
    elim (first_by by_priority (select_where (is_scheduled_at now) collections)) [
      | some c ↦ chosen c SelectionReason.schedule
      | Option.none ↦ resolve_default collections SelectionReason.default
    ]

pub resolve_at : List CollectionPolicy → OverrideMode → DateTime → SelectionResult
unfolding resolve_explicit resolve_default resolve_automatic
resolve_at collections (explicit id) now = resolve_explicit collections id
resolve_at collections OverrideMode.default now =
    resolve_default collections SelectionReason.manual_default
resolve_at collections automatic now = resolve_automatic collections now

-- `resolve_active_collection`
unfoldable pub resolve_active_collection :
    (DateTime → DateTime)
    → List CollectionPolicy
    → OverrideMode
    → DateTime
    → Result ValueError SelectionResult
unfolding resolve_at
resolve_active_collection as_local collections override now = do
  raise_if (not now.aware) naive_time
  ok (resolve_at collections override (as_local now))
