-- ===== src/Integration/History/Loading/Whole.antt =====
-- What the records that are read from storage are like (history.py).
use hass_clips_manager.Prelude.{
  ◌≡◌, refl, ℕ, suc, ◌≤◌, Bool, false, not, String, Option, none, some, List, [], ◌∷◌, arith, inl,
  inr, ◌==◌, Bool-cases,
}
use hass_clips_manager.Prelude.Int.{pos}
use hass_clips_manager.Prelude.Tables.{select_where, exists_where}
use hass_clips_manager.Prelude.Text.{is_empty}
use hass_clips_manager.Prelude.Json.{Json, object, integer, get, to_dict}
use hass_clips_manager.Prelude.Dict.{Dict, insert}
use hass_clips_manager.Prelude.Dict.Sorted.{IsDict, insert-IsDict}
use hass_clips_manager.Integration.Const.{has_duplicate}
use hass_clips_manager.Integration.Rounds.{HistoryRecord, distinct}
use hass_clips_manager.Integration.Rounds.Played.{has_duplicate-distinct}
use hass_clips_manager.Prelude.Options.{Given, >>=-Given, Given-weaken, Anything, anything}
use hass_clips_manager.Integration.History.Loading.{
  record_of, record_at, normalize_each, normalize, text_field, round_field, ids_field,
  optional_text_field,
}

-- A record that the store can have written: its round counts from 1, and its played clips are
-- different, and none is empty.
abbrev pub IsWhole : HistoryRecord → Type 0
IsWhole r =
    (1 ≤ r.round_number)
    × (has_duplicate r.played_clip_ids ≡ false)
    × (exists_where is_empty r.played_clip_ids ≡ false)

-- Every record is whole and has a collection's id.
abbrev pub AllWhole : Dict HistoryRecord → Type 0
AllWhole [] = Unit
AllWhole ((id, r) ∷ d) = (is_empty id ≡ false) × IsWhole r × AllWhole d

pub select_where_clear :
    (p q : String → Bool) (xs : List String)
    → exists_where q xs ≡ false
    → exists_where q (select_where p xs) ≡ false
unfolding exists_where select_where
select_where_clear p q [] h = refl
select_where_clear p q (x ∷ xs) h = ground (arith, select_where_clear p q xs)

pub distinct-clear : (xs : List String) → exists_where is_empty (distinct xs) ≡ false
unfolding exists_where distinct
distinct-clear [] = refl
distinct-clear (x ∷ xs) =
    ground (arith, distinct-clear xs, select_where_clear (λ y. not (y == x)) is_empty (distinct xs))

pub insert-AllWhole :
    (id : String) (r : HistoryRecord) (d : Dict HistoryRecord)
    → is_empty id ≡ false
    → IsWhole r
    → AllWhole d
    → AllWhole (insert id r d)
unfolding insert
insert-AllWhole id r [] e w u = (e, w, tt)
insert-AllWhole id r ((j, v) ∷ d) e w u = elim (Bool-cases (j == id)) [
  | inl h ↦ rw h (u.0, w, u.2)
  | inr h ↦ rw h (u.0, u.1, insert-AllWhole id r d e w u.2)
]

round_field-Given : (v : Json) → Given (λ n. 1 ≤ n) (round_field v)
round_field-Given (integer (pos ℕ.zero)) = tt
round_field-Given (integer (pos (suc m))) = omega arith
round_field-Given _ = tt

record_of-Given : (raw : Dict Json) → Given IsWhole (record_of raw)
unfolding record_of
record_of-Given raw =
    >>=-Given Anything IsWhole (text_field (get "period_start" raw)) _ (anything _) (λ period _.
      >>=-Given (λ n. 1 ≤ n) IsWhole (round_field (get "round_number" raw)) _ (round_field-Given _)
        (λ n positive.
          >>=-Given Anything IsWhole (ids_field (get "played_clip_ids" raw)) _ (anything _)
            (λ played _.
              >>=-Given Anything IsWhole (optional_text_field (get "last_selected_clip_id" raw)) _
                (anything _)
                (λ last _.
                  >>=-Given Anything IsWhole (optional_text_field (get "last_reset_at" raw)) _
                    (anything _)
                    (λ reset _.
                      (positive, has_duplicate-distinct played, distinct-clear played))))))

-- A record that is read has a collection's id and is whole.
abbrev Entry : String → HistoryRecord → Type 0
Entry id r = (is_empty id ≡ false) × IsWhole r

record_at-Given : (id : String) (raw : Json) → Given (Entry id) (record_at id raw)
record_at-Given id (object vs) = elim (Bool-cases (is_empty id)) [
  | inl e ↦ rw e tt
  | inr e ↦ rw e (
      Given-weaken (Entry id) (record_of (to_dict vs)) (λ r w. (e, w))
        (record_of-Given (to_dict vs)))
]
record_at-Given id _ = tt

insert_read :
    (id : String) (o : Option HistoryRecord) (d : Dict HistoryRecord)
    → Given (Entry id) o
    → AllWhole d × IsDict d
    → AllWhole (elim o [ none ↦ d | some r ↦ insert id r d ])
      × IsDict (elim o [ none ↦ d | some r ↦ insert id r d ])
insert_read id none d h u = u
insert_read id (some r) d h u = (insert-AllWhole id r d h.0 h.1 u.0, insert-IsDict id r d u.1)

normalize_each-AllWhole :
    (raw : Dict Json) (d : Dict HistoryRecord)
    → AllWhole d × IsDict d
    → AllWhole (normalize_each raw d) × IsDict (normalize_each raw d)
unfolding normalize_each
normalize_each-AllWhole [] d u = u
normalize_each-AllWhole ((id, v) ∷ raw) d u =
    normalize_each-AllWhole raw _ (insert_read id (record_at id v) d (record_at-Given id v) u)

pub normalize-AllWhole : (loaded : Json) → AllWhole (normalize loaded) × IsDict (normalize loaded)
unfolding normalize
normalize-AllWhole (object payload) = collections_of (get "collections" (to_dict payload))
  where
    collections_of :
        (v : Json)
        → AllWhole (elim v [ object raw ↦ normalize_each (to_dict raw) [] | _ ↦ [] ])
          × IsDict (elim v [ object raw ↦ normalize_each (to_dict raw) [] | _ ↦ [] ])
    collections_of (object raw) = normalize_each-AllWhole (to_dict raw) [] (tt, tt)
    collections_of _ = (tt, tt)
normalize-AllWhole _ = (tt, tt)
