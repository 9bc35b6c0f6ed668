-- ===== src/Integration/Resolver/Choice.antt =====
-- What the resolver chooses (resolver.py).
use mathlib.Core.Path.{subst}
use hass_clips_manager.Prelude.{
  ◌≡◌, refl, ◌⊎◌, inl, inr, true, false, String, some, List, arith, eq_iff, Option-cases, ◌==◌,
}
use hass_clips_manager.Prelude.Tables.{find_where, select_where, exists_where, first_by, Stored}
use hass_clips_manager.Prelude.Tables.Search.{find_where-Stored, exists_where-Stored}
use hass_clips_manager.Prelude.Tables.Counts.{find_where-eq_some}
use hass_clips_manager.Prelude.Tables.Best.{Best, first_by-Best, first_by-none}
use hass_clips_manager.Prelude.Results.{ok}
use hass_clips_manager.Integration.Resolver.{
  DateTime, OverrideMode, automatic, explicit, SelectionReason, CollectionPolicy, SelectionResult,
  is_scheduled_at, nothing, chosen, by_id, by_priority, is_default_choice, default_collection,
  resolve_explicit, resolve_default, resolve_automatic, resolve_at, resolve_active_collection,
}
use hass_clips_manager.Integration.Resolver.Order.{by_id-IsOrder, by_priority-IsOrder}

-- The choice of a default: the enabled default with the least id, if there is one.
abbrev pub DefaultChoice : List CollectionPolicy → SelectionReason → SelectionResult → Type 0
DefaultChoice collections reason r =
    ((w : CollectionPolicy) × Best is_default_choice by_id collections w × (r ≡ chosen w reason))
    ⊎ ((exists_where is_default_choice collections ≡ false) × (r ≡ nothing))

-- The choice with no override: the scheduled collection of the highest priority and then the least
-- id, and where none is scheduled the default.
abbrev pub AutomaticChoice : List CollectionPolicy → DateTime → SelectionResult → Type 0
AutomaticChoice collections now r =
    ((w : CollectionPolicy) × Best (is_scheduled_at now) by_priority collections w
      × (r ≡ chosen w SelectionReason.schedule))
    ⊎ ((exists_where (is_scheduled_at now) collections ≡ false)
        × DefaultChoice collections SelectionReason.default r)

resolve_default-DefaultChoice :
    (collections : List CollectionPolicy) (reason : SelectionReason)
    → DefaultChoice collections reason (resolve_default collections reason)
unfolding resolve_default default_collection
resolve_default-DefaultChoice collections reason =
    elim (Option-cases (first_by by_id (select_where is_default_choice collections))) [
      | inl e ↦
          inr (first_by-none is_default_choice by_id-IsOrder collections e, rw (e, resolve_default))
      | inr (w, e) ↦ inl (
        w,
        first_by-Best is_default_choice by_id-IsOrder collections w e,
        rw (e, resolve_default),
      )
    ]

resolve_automatic-AutomaticChoice :
    (collections : List CollectionPolicy) (now : DateTime)
    → AutomaticChoice collections now (resolve_automatic collections now)
unfolding resolve_automatic
resolve_automatic-AutomaticChoice collections now =
    elim (Option-cases (first_by by_priority (select_where (is_scheduled_at now) collections))) [
      | inl e ↦ inr (
        first_by-none (is_scheduled_at now) by_priority-IsOrder collections e,
        rw (e, resolve_automatic)
            (resolve_default-DefaultChoice collections SelectionReason.default),
      )
      | inr (w, e) ↦ inl (
        w,
        first_by-Best (is_scheduled_at now) by_priority-IsOrder collections w e,
        rw (e, resolve_automatic),
      )
    ]

unscheduled :
    (collections : List CollectionPolicy) (now : DateTime)
    → exists_where (is_scheduled_at now) collections ≡ false
    → resolve_automatic collections now ≡ resolve_default collections SelectionReason.default
unfolding resolve_automatic
unscheduled collections now h =
    elim (Option-cases (first_by by_priority (select_where (is_scheduled_at now) collections))) [
      | inl e ↦ rw (e, resolve_automatic) refl
      | inr (w, e) ↦
          let b = first_by-Best (is_scheduled_at now) by_priority-IsOrder collections w e in
          absurd (
            ground
              (arith, exists_where-Stored (is_scheduled_at now) w collections b.stored b.passes))
    ]

-- With no override and an aware time the resolver returns the choice that the schedule and then the
-- default make.
pub automatic_lem :
    (as_local : DateTime → DateTime) (collections : List CollectionPolicy) (now : DateTime)
    → now.aware ≡ true
    → (r : SelectionResult) × (resolve_active_collection as_local collections automatic now ≡ ok r)
      × AutomaticChoice collections (as_local now) r
unfolding resolve_active_collection
automatic_lem as_local collections now aware = (
  resolve_automatic collections (as_local now),
  rw aware refl,
  resolve_automatic-AutomaticChoice collections (as_local now),
)

-- The collection that an explicit override gives is a listed one with that id, which is enabled and
-- allows overrides.
explicit_cases :
    (collections : List CollectionPolicy) (id : String) (c : CollectionPolicy)
    → (resolve_explicit collections id).collection ≡ some c
    → Stored c collections × (c.id ≡ id) × (c.enabled ≡ true) × (c.allow_manual_override ≡ true)
unfolding resolve_explicit
explicit_cases collections id c h =
    let f : find_where (λ c. c.id == id) collections ≡ some c = ground arith in
    (
      find_where-Stored _ c collections f,
      (eq_iff c.id id).0 (find_where-eq_some _ collections c f),
      ground arith,
      ground arith,
    )

default_enabled :
    (collections : List CollectionPolicy) (reason : SelectionReason) (c : CollectionPolicy)
    → (resolve_default collections reason).collection ≡ some c
    → Stored c collections × (c.enabled ≡ true)
default_enabled collections reason c h = elim (resolve_default-DefaultChoice collections reason) [
  | inl (w, b, e) ↦
      let same : w ≡ c = ground arith in
      subst (λ c. Stored c collections × (c.enabled ≡ true)) same
        (b.stored, ground (arith, b.passes))
  | inr (_, e) ↦ ground arith
]

resolve_at_enabled :
    (collections : List CollectionPolicy) (override : OverrideMode) (now : DateTime)
    (c : CollectionPolicy)
    → (resolve_at collections override now).collection ≡ some c
    → Stored c collections × (c.enabled ≡ true)
unfolding resolve_at
resolve_at_enabled collections automatic now c h =
    elim (resolve_automatic-AutomaticChoice collections now) [
      | inl (w, b, e) ↦
          let same : w ≡ c = ground arith in
          let on : w.enabled ≡ true = unfold is_scheduled_at in ground (arith, b.passes) in
          subst (λ c. Stored c collections × (c.enabled ≡ true)) same (b.stored, on)
      | inr (none_scheduled, _) ↦
          default_enabled collections SelectionReason.default c
            (rw (unscheduled collections now none_scheduled) at h)
    ]
resolve_at_enabled collections OverrideMode.default now c h =
    default_enabled collections SelectionReason.manual_default c h
resolve_at_enabled collections (explicit id) now c h =
    let (stored, _, enabled, _) = explicit_cases collections id c h in (stored, enabled)

-- Whatever the override and the time, the collection that is chosen is one of those given, and enabled.
pub chosen_enabled :
    (as_local : DateTime → DateTime) (collections : List CollectionPolicy) (override : OverrideMode)
    (now : DateTime) (r : SelectionResult) (c : CollectionPolicy)
    → resolve_active_collection as_local collections override now ≡ ok r
    → r.collection ≡ some c
    → Stored c collections × (c.enabled ≡ true)
unfolding resolve_active_collection
chosen_enabled as_local collections override now r c h k =
    let e : resolve_at collections override (as_local now) ≡ r = ground arith in
    resolve_at_enabled collections override (as_local now) c (rw e k)
