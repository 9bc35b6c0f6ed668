-- ===== src/Integration/History/Explicit.antt =====
-- What an explicit reset of the playback history changes (history.py).
use hass_clips_manager.Prelude.{
  ◌≡◌, refl, ap, ◌∙◌, Bool, true, false, ◌&&◌, String, Option, none, some, ◌==◌, arith, is_some,
}
use hass_clips_manager.Prelude.Tables.{exists_where}
use hass_clips_manager.Prelude.Dict.{Dict, lookup, sorted_items}
use hass_clips_manager.Prelude.Dict.Sorted.{
  IsDict, sorted_items-IsDict, lookup-sorted_items, exists_where-keys,
}
use hass_clips_manager.Integration.Const.{contains, has_duplicate}
use hass_clips_manager.Integration.Rounds.{LocalTime, HistoryRecord, HistoryStore, reset_each}
use hass_clips_manager.Integration.Rounds.Played.{contains-select_where, has_duplicate-select_where}
use hass_clips_manager.Integration.History.{reset, reset_targets, has_key}
use hass_clips_manager.Integration.History.Resets.{renew, keys-has_duplicate, lookup-reset_each}

-- Whether a reset is asked to reset a collection
abbrev pub covers : Option String → String → Bool
covers none j = true
covers (some id) j = id == j

targets_lem :
    (target : Option String) (d : Dict HistoryRecord) (j : String)
    → IsDict d
    → (has_duplicate (reset_targets target d) ≡ false)
      × ((contains (reset_targets target d) j && has_key d j)
          ≡ (is_some (lookup j d) && covers target j))
unfolding has_duplicate exists_where
targets_lem none d j u =
    let known = exists_where-keys (sorted_items d) j ∙ ap is_some (lookup-sorted_items d j u) in
    (keys-has_duplicate _ (sorted_items-IsDict d u), ground (arith, known))
targets_lem (some id) d j u = (refl, ground arith)

renew_known :
    (s : HistoryStore) (now : LocalTime) (b : Bool) (r : Option HistoryRecord)
    → renew s now (is_some r && b) r ≡ renew s now b r
renew_known s now b none = refl
renew_known s now b (some r) = refl

reset_collections :
    (target : Option String) (now : LocalTime) (s : HistoryStore)
    → (reset target now s).1.collections ≡ reset_each s now (reset target now s).0 s.collections
unfolding reset
reset_collections target now s = ground arith

-- A reset of one collection, or of all of them, resets the records that it is asked to reset, leaves
-- the others as they are, and answers with the ids of those that it has reset.
pub reset_lem :
    (target : Option String) (now : LocalTime) (s : HistoryStore) (j : String)
    → IsDict s.collections
    → (contains (reset target now s).0 j ≡ (is_some (lookup j s.collections) && covers target j))
      × (lookup j (reset target now s).1.collections
          ≡ renew s now (covers target j) (lookup j s.collections))
unfolding reset
reset_lem target now s j u =
    let targets = reset_targets target s.collections in
    let (once, covered) = targets_lem target s.collections j u in
    let ids = contains-select_where (has_key s.collections) targets j ∙ covered in
    let fresh = has_duplicate-select_where (has_key s.collections) targets once in
    let each = lookup-reset_each s now (reset target now s).0 j s.collections fresh in
    (
      ids,
      ap (lookup j) (reset_collections target now s)
          ∙ (each
              ∙ (ap (λ b. renew s now b (lookup j s.collections)) ids
                  ∙ renew_known s now (covers target j) (lookup j s.collections))),
    )
