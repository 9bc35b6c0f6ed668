-- ===== src/Integration/History/Daily.antt =====
-- What a daily reset of the playback history changes (history.py).
use mathlib.Core.Path.{subst}
use hass_clips_manager.Prelude.{
  ◌≡◌, refl, sym, ap, ◌∙◌, inl, inr, Bool, false, not, String, Option, none, some, [],
  if◌then◌else◌, leb, ◌==◌, eq_refl, arith, Option-cases,
}
use hass_clips_manager.Prelude.Dict.{lookup, sorted_items}
use hass_clips_manager.Prelude.Dict.Sorted.{
  IsDict, sorted_items-IsDict, lookup-sorted_items, keys-select_where, passes, select_where-IsDict,
}
use hass_clips_manager.Integration.Const.{daily, contains, has_duplicate}
use hass_clips_manager.Integration.Rounds.{
  LocalTime, HistoryRecord, HistoryStore, period_start, reset_record, reset_each, outdated,
  reconcile,
}
use hass_clips_manager.Integration.History.{handle_daily_reset}
use hass_clips_manager.Integration.History.Resets.{
  renew, empty_list, keys-has_duplicate, lookup-reset_each, reset_each-IsDict,
}

-- Whether a record belongs to another period than the one that a time falls in
abbrev pub is_outdated : HistoryStore → LocalTime → Option HistoryRecord → Bool
is_outdated s now none = false
is_outdated s now (some r) = not (r.period_start == period_start s now)

contains-outdated :
    (s : HistoryStore) (now : LocalTime) (j : String)
    → IsDict s.collections
    → contains (outdated s now s.collections) j ≡ is_outdated s now (lookup j s.collections)
unfolding outdated
contains-outdated s now j u =
    let d = s.collections in
    let p : String × HistoryRecord → Bool = λ e. not (e.1.period_start == period_start s now) in
    let k = keys-select_where p (sorted_items d) j (sorted_items-IsDict d u) in
    k
    ∙ (ap (passes p j) (lookup-sorted_items d j u) ∙ elim (Option-cases (lookup j d)) [
      | inl e ↦ ground (arith, e)
      | inr (r, e) ↦ ground (arith, e)
    ])

reconcile_daily :
    (now : LocalTime) (s : HistoryStore)
    → s.reset_mode ≡ daily
    → reconcile s now ≡ (
      reset_each s now (outdated s now s.collections) s.collections,
      outdated s now s.collections,
    )
unfolding reconcile
reconcile_daily now s mode = rw mode refl

handled_collections :
    (now : LocalTime) (s : HistoryStore)
    → (handle_daily_reset now s).1.collections ≡ (reconcile s now).0
unfolding handle_daily_reset
handled_collections now s = ground arith

-- In daily mode a daily reset resets the collections whose record is of another period than the
-- present one, answers with their ids, and leaves every other record as it is.
pub daily_lem :
    (now : LocalTime) (s : HistoryStore) (j : String)
    → s.reset_mode ≡ daily
    → IsDict s.collections
    → (contains (handle_daily_reset now s).0 j ≡ is_outdated s now (lookup j s.collections))
      × (lookup j (handle_daily_reset now s).1.collections
          ≡ renew s now (is_outdated s now (lookup j s.collections)) (lookup j s.collections))
unfolding handle_daily_reset
daily_lem now s j mode u =
    let p : String × HistoryRecord → Bool = λ e. not (e.1.period_start == period_start s now) in
    let ids = outdated s now s.collections in
    let found = contains-outdated s now j u in
    let fresh : has_duplicate ids ≡ false =
      unfold outdated in
      keys-has_duplicate _ (select_where-IsDict p _ (sorted_items-IsDict s.collections u)) in
    let each = lookup-reset_each s now ids j s.collections fresh in
    let r = reconcile_daily now s mode in
    (
      ap (λ x. contains x.1 j) r ∙ found,
      ap (lookup j) (handled_collections now s)
          ∙ (ap (λ x. lookup j x.0) r
              ∙ (each ∙ ap (λ b. renew s now b (lookup j s.collections)) found)),
    )

nothing_outdated :
    (s : HistoryStore) (now : LocalTime)
    → IsDict s.collections
    → ((j : String) → is_outdated s now (lookup j s.collections) ≡ false)
    → outdated s now s.collections ≡ []
nothing_outdated s now u none_is = empty_list _ (λ j. contains-outdated s now j u ∙ none_is j)

handled_clock :
    (now : LocalTime) (s : HistoryStore)
    → ((handle_daily_reset now s).1.reset_mode ≡ s.reset_mode)
      × ((handle_daily_reset now s).1.reset_time ≡ s.reset_time)
unfolding handle_daily_reset
handled_clock now s = ground arith

renewed_is_current :
    (s s' : HistoryStore) (now later : LocalTime) (r : Option HistoryRecord)
    → period_start s' later ≡ period_start s now
    → is_outdated s' later (renew s now (is_outdated s now r) r) ≡ false
unfolding reset_record
renewed_is_current s s' now later none h = refl
renewed_is_current s s' now later (some r) h = ground (arith, h, eq_refl (period_start s now))

same_period :
    (s s' : HistoryStore) (now : LocalTime)
    → s'.reset_time ≡ s.reset_time
    → period_start s' now ≡ period_start s now
unfolding period_start
same_period s s' now h = ap (λ t. if leb t now.time_of_day then now.date else now.yesterday) h

-- Once a daily reset has run, another one in the same period resets nothing.
pub daily_once :
    (now later : LocalTime) (s : HistoryStore)
    → s.reset_mode ≡ daily
    → IsDict s.collections
    → period_start s later ≡ period_start s now
    → (handle_daily_reset later (handle_daily_reset now s).1).0 ≡ []
unfolding handle_daily_reset
daily_once now later s mode u same =
    let s' = (handle_daily_reset now s).1 in
    let (mode_kept, time_kept) = handled_clock now s in
    let period = same_period s s' later time_kept ∙ same in
    let kept : IsDict s'.collections =
      subst IsDict (sym (handled_collections now s ∙ ap (λ x. x.0) (reconcile_daily now s mode)))
        (reset_each-IsDict s now (outdated s now s.collections) s.collections u) in
    ap (λ x. x.1) (reconcile_daily later s' (mode_kept ∙ mode))
    ∙ nothing_outdated s' later kept (λ j.
      ap (is_outdated s' later) (daily_lem now s j mode u).1
      ∙ renewed_is_current s s' now later (lookup j s.collections) period)
