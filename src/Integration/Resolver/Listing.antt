-- ===== src/Integration/Resolver/Listing.antt =====
-- The resolver depends on the collections and not on the order in which they are listed
-- (resolver.py).
use hass_clips_manager.Prelude.{
  ◌≡◌, refl, inl, inr, String, some, List, arith, eq_iff, Option-cases, ◌==◌, ap, sym, ◌∙◌,
}
use hass_clips_manager.Prelude.Order.{str_lt_total}
use hass_clips_manager.Prelude.Tables.{find_where, select_where, first_by, Stored}
use hass_clips_manager.Prelude.Tables.Search.{find_where-Stored, find_where-none}
use hass_clips_manager.Prelude.Tables.Counts.{find_where-eq_some}
use hass_clips_manager.Prelude.Tables.Best.{first_by_same}
use hass_clips_manager.Integration.Resolver.{
  DateTime, OverrideMode, automatic, explicit, CollectionPolicy, is_scheduled_at, by_priority,
  is_default_choice, default_collection, resolve_at, resolve_active_collection,
}
use hass_clips_manager.Integration.Resolver.Order.{
  by_id-IsOrder, by_priority-IsOrder, by_priority_tie,
}

module _ (xs ys : List CollectionPolicy) (to : (x : CollectionPolicy) → Stored x xs → Stored x ys)
    (from : (x : CollectionPolicy) → Stored x ys → Stored x xs)
    (ids : (x y : CollectionPolicy) → Stored x xs → Stored y xs → x.id ≡ y.id → x ≡ y) where
  found_same : (id : String) → find_where (λ c. c.id == id) xs ≡ find_where (λ c. c.id == id) ys
  found_same id = elim (Option-cases (find_where (λ c. c.id == id) xs)) [
    | inl e ↦ elim (Option-cases (find_where (λ c. c.id == id) ys)) [
      | inl f ↦ e ∙ sym f
      | inr (w, f) ↦ absurd (
          ground (
            arith,
            find_where-none (λ c. c.id == id) w xs e (from w (find_where-Stored _ w ys f)),
            find_where-eq_some (λ c. c.id == id) ys w f,
          ))
    ]
    | inr (v, e) ↦ elim (Option-cases (find_where (λ c. c.id == id) ys)) [
      | inl f ↦ absurd (
          ground (
            arith,
            find_where-none (λ c. c.id == id) v ys f (to v (find_where-Stored _ v xs e)),
            find_where-eq_some (λ c. c.id == id) xs v e,
          ))
      | inr (w, f) ↦
          e
          ∙ ap some (
              ids v w (find_where-Stored _ v xs e) (from w (find_where-Stored _ w ys f)) (
                ground (
                  arith,
                  eq_iff v.id id,
                  eq_iff w.id id,
                  find_where-eq_some (λ c. c.id == id) xs v e,
                  find_where-eq_some (λ c. c.id == id) ys w f,
                )))
          ∙ sym f
    ]
  ]

  default_same : default_collection xs ≡ default_collection ys
  unfolding default_collection
  default_same =
      first_by_same is_default_choice by_id-IsOrder xs ys to from
        (λ x y sx sy h k. ids x y sx sy (str_lt_total x.id y.id h k))

  scheduled_same :
      (now : DateTime)
      → first_by by_priority (select_where (is_scheduled_at now) xs)
        ≡ first_by by_priority (select_where (is_scheduled_at now) ys)
  scheduled_same now =
      first_by_same (is_scheduled_at now) by_priority-IsOrder xs ys to from
        (λ x y sx sy h k. ids x y sx sy (by_priority_tie x y h k))

  resolve_at_same :
      (override : OverrideMode) (now : DateTime)
      → resolve_at xs override now ≡ resolve_at ys override now
  unfolding resolve_at
  resolve_at_same automatic now = ground (arith, scheduled_same now, default_same)
  resolve_at_same OverrideMode.default now = ground (arith, default_same)
  resolve_at_same (explicit id) now = ground (arith, found_same id)

  -- Two lists with the same collections, no two of which share an id, are resolved alike, whatever
  -- the override and the time: the order in which the Worker lists collections plays no part.
  pub order_irrelevant :
      (as_local : DateTime → DateTime) (override : OverrideMode) (now : DateTime)
      → resolve_active_collection as_local xs override now
        ≡ resolve_active_collection as_local ys override now
  unfolding resolve_active_collection
  order_irrelevant as_local override now = rw (resolve_at_same override (as_local now)) refl
