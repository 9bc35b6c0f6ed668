-- ===== src/Integration/History/Loading/Restart.antt =====
-- What the playback history saves is what it reads again (history.py).
use hass_clips_manager.Prelude.{
  ◌≡◌, refl, ap, ◌∙◌, ℕ, Bool, true, false, String, Option, none, some, [], ◌∷◌, Option-cases,
  Bool-cases, inl, inr,
}
use hass_clips_manager.Prelude.Text.{is_empty}
use hass_clips_manager.Prelude.Json.{Json, null}
use hass_clips_manager.Prelude.Order.{str_lt}
use hass_clips_manager.Prelude.Dict.{Dict, lookup, insert_item, sorted_items}
use hass_clips_manager.Prelude.Dict.Sorted.{sorted_items-IsDict, lookup-sorted_items}
use hass_clips_manager.Integration.Const.{on_exhaustion}
use hass_clips_manager.Integration.Rounds.{LocalTime, HistoryRecord, HistoryStore, Saved, reconcile}
use hass_clips_manager.Integration.History.{serialized}
use hass_clips_manager.Integration.History.Loading.{
  saved_json, normalize, loaded_selection, load, reconcile_if, setup, HistoryService, construct,
}
use hass_clips_manager.Integration.History.Loading.Whole.{IsWhole, AllWhole}
use hass_clips_manager.Integration.History.Loading.Rounds.{IsKept}
use hass_clips_manager.Integration.History.Loading.Reread.{
  normalize-saved_json, loaded_selection-saved_json,
}
use hass_clips_manager.Integration.History.Loading.Runs.{Runs, Runs-IsKept}

insert_item-AllWhole :
    (id : String) (r : HistoryRecord) (d : Dict HistoryRecord)
    → is_empty id ≡ false
    → IsWhole r
    → AllWhole d
    → AllWhole (insert_item (id, r) d)
unfolding insert_item
insert_item-AllWhole id r [] e w u = (e, w, tt)
insert_item-AllWhole id r ((j, v) ∷ d) e w u = elim (Bool-cases (str_lt id j)) [
  | inl h ↦ rw h (e, w, u)
  | inr h ↦ rw h (u.0, u.1, insert_item-AllWhole id r d e w u.2)
]

sorted_items-AllWhole : (d : Dict HistoryRecord) → AllWhole d → AllWhole (sorted_items d)
unfolding sorted_items
sorted_items-AllWhole [] u = tt
sorted_items-AllWhole ((id, r) ∷ d) u =
    insert_item-AllWhole id r (sorted_items d) u.0 u.1 (sorted_items-AllWhole d u.2)

normalize-serialized :
    (s : HistoryStore)
    → IsKept s.collections
    → normalize (saved_json (serialized s)) ≡ sorted_items s.collections
unfolding serialized
normalize-serialized s u =
    normalize-saved_json (serialized s) (sorted_items-AllWhole s.collections u.0)
      (sorted_items-IsDict s.collections u.1)

-- What storage has, where nothing was saved before
abbrev pub stored_json : Option Saved → Json
stored_json none = null
stored_json (some saved) = saved_json saved

load_selection :
    (loaded : Json) (s : HistoryStore)
    → s.last_selection ≡ none
    → (load loaded s).last_selection ≡ loaded_selection loaded
unfolding load
load_selection loaded s h = elim (Option-cases (loaded_selection loaded)) [
  | inl e ↦ rw (e, load) h
  | inr (d, e) ↦ rw (e, load) refl
]

-- A store that starts from what another has saved
restarted :
    (b : Bool) (now : LocalTime) (reset_time : ℕ) (loaded : Json)
    → ((setup b loaded now (construct on_exhaustion reset_time)).0 ≡ [])
      × ((setup b loaded now (construct on_exhaustion reset_time)).1.store.collections
          ≡ normalize loaded)
      × ((setup b loaded now (construct on_exhaustion reset_time)).1.store.last_selection
          ≡ loaded_selection loaded)
unfolding setup load reconcile_if reconcile
restarted true now reset_time loaded =
    (refl, refl, load_selection loaded (construct on_exhaustion reset_time).store refl)
restarted false now reset_time loaded =
    (refl, refl, load_selection loaded (construct on_exhaustion reset_time).store refl)

-- Where a round ends on exhaustion, once a store has saved what it holds, a new store that is set up
-- from it resets nothing, and has the same record of each collection and the same last selection.
pub restart_keeps :
    (v : HistoryService) (b : Bool) (now : LocalTime) (reset_time : ℕ)
    → Runs v
    → v.store.disk ≡ some (serialized v.store)
    → ((setup b (stored_json v.store.disk) now (construct on_exhaustion reset_time)).0 ≡ [])
      × ((j : String)
          → lookup j
              (setup b
                (stored_json v.store.disk)
                now
                (construct on_exhaustion reset_time)).1.store.collections
            ≡ lookup j v.store.collections)
      × ((setup b
            (stored_json v.store.disk)
            now
            (construct on_exhaustion reset_time)).1.store.last_selection
          ≡ v.store.last_selection)
unfolding serialized
restart_keeps v b now reset_time runs saved =
    let kept = Runs-IsKept v runs in
    let (none_reset, collections, selection) =
      restarted b now reset_time (stored_json v.store.disk) in
    let same = ap stored_json saved in
    (
      none_reset,
      λ j.
          ap (lookup j) (collections ∙ (ap normalize same ∙ normalize-serialized v.store kept))
          ∙ lookup-sorted_items v.store.collections j kept.1,
      selection ∙ (ap loaded_selection same ∙ loaded_selection-saved_json (serialized v.store)),
    )
