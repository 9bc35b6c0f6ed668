-- ===== src/Integration/History/Loading/Reread.antt =====
-- A payload that was written reads back as it was (history.py).
use mathlib.Core.Path.{subst}
use hass_clips_manager.Prelude.{
  ◌≡◌, refl, ap, sym, ◌∙◌, ℕ, suc, ◌≤◌, false, not, String, Option, none, some, List, [], ◌∷◌, ◌++◌,
  map, arith, ◌==◌, eq_iff, Option-cases, inl, inr,
}
use hass_clips_manager.Prelude.Int.{pos}
use hass_clips_manager.Prelude.Tables.{select_where, exists_where}
use hass_clips_manager.Prelude.Text.{is_empty}
use hass_clips_manager.Prelude.Json.{
  integer, text, object, object_of, to_list-array_of, to_dict-object_of,
}
use hass_clips_manager.Prelude.Dict.{Dict, lookup, insert}
use hass_clips_manager.Prelude.Dict.Sorted.{IsDict}
use hass_clips_manager.Integration.Const.{contains, has_duplicate}
use hass_clips_manager.Integration.Rounds.{HistoryRecord, Saved, distinct}
use hass_clips_manager.Integration.History.Loading.{
  record_json, collections_json, saved_json, round_field, all_ids, text_or_null,
  optional_text_field, record_of, record_at, normalize_each, normalize, loaded_selection,
}
use hass_clips_manager.Integration.History.Loading.Whole.{IsWhole, AllWhole}

select_where_others :
    (x : String) (xs : List String)
    → contains xs x ≡ false
    → select_where (λ y. not (y == x)) xs ≡ xs
unfolding exists_where select_where
select_where_others x [] h = refl
select_where_others x (y ∷ xs) h = ground (arith, select_where_others x xs)

distinct_whole :
    (xs : List String)
    → has_duplicate xs ≡ false
    → exists_where is_empty xs ≡ false
    → distinct xs ≡ xs
unfolding exists_where has_duplicate distinct
distinct_whole [] h k = refl
distinct_whole (x ∷ xs) h k = ground (arith, distinct_whole xs, select_where_others x xs)

all_ids-map :
    (xs : List String) → exists_where is_empty xs ≡ false → all_ids (map text xs) ≡ some xs
unfolding exists_where all_ids
all_ids-map [] h = refl
all_ids-map (x ∷ xs) h = ground (arith, all_ids-map xs)

round_field-pos : (n : ℕ) → 1 ≤ n → round_field (integer (pos n)) ≡ some n
round_field-pos ℕ.zero h = absurd (omega arith)
round_field-pos (suc n) h = refl

optional_text_field-text_or_null :
    (o : Option String) → optional_text_field (text_or_null o) ≡ some o
optional_text_field-text_or_null none = refl
optional_text_field-text_or_null (some s) = refl

record_of-record_json : (r : HistoryRecord) → IsWhole r → record_of (record_json r) ≡ some r
unfolding record_of record_json lookup
record_of-record_json r w =
    rw
      (
        round_field-pos r.round_number w.0,
        to_list-array_of (map text r.played_clip_ids),
        all_ids-map r.played_clip_ids w.2,
        optional_text_field-text_or_null r.last_selected_clip_id,
        optional_text_field-text_or_null r.last_reset_at,
        distinct_whole r.played_clip_ids w.1 w.2,
      )
      refl

-- A key of an earlier item is not that of a later one.
absent_before :
    (d : Dict HistoryRecord) (k : String) (r : HistoryRecord) (rest : Dict HistoryRecord)
    (i : String)
    → lookup i (d ++ (k, r) ∷ rest) ≡ none
    → (i == k) ≡ false
unfolding lookup
absent_before [] k r rest i h = ground (arith, eq_iff i k, eq_iff k i)
absent_before ((j, v) ∷ d) k r rest i h = ground (arith, absent_before d k r rest i)

fresh_key :
    (d : Dict HistoryRecord) (k : String) (r : HistoryRecord) (rest : Dict HistoryRecord)
    → IsDict (d ++ (k, r) ∷ rest)
    → lookup k d ≡ none
unfolding lookup
fresh_key [] k r rest u = refl
fresh_key ((i, v) ∷ d) k r rest u = rw (absent_before d k r rest i u.0) (fresh_key d k r rest u.1)

insert_fresh :
    (d : Dict HistoryRecord) (k : String) (r : HistoryRecord)
    → lookup k d ≡ none
    → insert k r d ≡ d ++ (k, r) ∷ []
unfolding lookup insert
insert_fresh [] k r h = refl
insert_fresh ((i, v) ∷ d) k r h = ground (arith, insert_fresh d k r)

append_item :
    (d : Dict HistoryRecord) (e : String × HistoryRecord) (rest : Dict HistoryRecord)
    → (d ++ e ∷ []) ++ rest ≡ d ++ e ∷ rest
append_item [] e rest = refl
append_item (x ∷ d) e rest = ap (λ t. x ∷ t) (append_item d e rest)

append_nothing : (d : Dict HistoryRecord) → d ++ [] ≡ d
append_nothing [] = refl
append_nothing (x ∷ d) = ap (λ t. x ∷ t) (append_nothing d)

record_at-record_json :
    (id : String) (r : HistoryRecord)
    → is_empty id ≡ false
    → IsWhole r
    → record_at id (object (object_of (record_json r))) ≡ some r
record_at-record_json id r e w =
    rw (e, to_dict-object_of (record_json r)) (record_of-record_json r w)

normalize_each-collections_json :
    (saved d : Dict HistoryRecord)
    → AllWhole saved
    → IsDict (d ++ saved)
    → normalize_each (collections_json saved) d ≡ d ++ saved
unfolding normalize_each collections_json
normalize_each-collections_json [] d w u = sym (append_nothing d)
normalize_each-collections_json ((id, r) ∷ saved) d w u =
    let same = append_item d (id, r) saved in
    let read : Option HistoryRecord → Dict HistoryRecord =
      λ o. elim o [ none ↦ d | some x ↦ insert id x d ] in
    let rest = normalize_each (collections_json saved) in
    ap (λ o. rest (read o)) (record_at-record_json id r w.0 w.1)
    ∙ (ap rest (insert_fresh d id r (fresh_key d id r saved u))
        ∙ (normalize_each-collections_json saved (d ++ (id, r) ∷ []) w.2 (subst IsDict (sym same) u)
            ∙ same))

-- A store whose records are whole reads back the collections that it has saved.
pub normalize-saved_json :
    (saved : Saved)
    → AllWhole saved.collections
    → IsDict saved.collections
    → normalize (saved_json saved) ≡ saved.collections
unfolding normalize saved_json lookup object_of
normalize-saved_json saved w u =
    ap (λ d. normalize_each d []) (to_dict-object_of (collections_json saved.collections))
    ∙ normalize_each-collections_json saved.collections [] w u

pub loaded_selection-saved_json :
    (saved : Saved) → loaded_selection (saved_json saved) ≡ saved.last_selection
unfolding loaded_selection saved_json lookup object_of
loaded_selection-saved_json saved = elim (Option-cases saved.last_selection) [
  | inl e ↦ rw e refl
  | inr (d, e) ↦ rw (e, to_dict-object_of d) refl
]
