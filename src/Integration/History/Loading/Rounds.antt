-- ===== src/Integration/History/Loading/Rounds.antt =====
-- Rounds and resets keep the records whole (history.py).
use hass_clips_manager.Prelude.{
  ◌≡◌, refl, ◌≤◌, Bool, true, false, not, ◌&&◌, String, Option, none, some, List, [], ◌∷◌, ◌++◌,
  arith, ◌==◌, eq_iff, Option-cases, Bool-cases, inl, inr,
}
use hass_clips_manager.Prelude.Tables.{select_where, exists_where, is_nil}
use hass_clips_manager.Prelude.Text.{is_empty}
use hass_clips_manager.Prelude.Dict.{Dict, lookup, insert}
use hass_clips_manager.Prelude.Dict.Sorted.{IsDict, insert-IsDict}
use hass_clips_manager.Integration.Const.{
  HistoryResetMode, on_exhaustion, daily, contains, has_duplicate,
}
use hass_clips_manager.Integration.Rounds.{
  LocalTime, HistoryRecord, HistoryStore, Round, current_round, next_round, round_for, reset_record,
  reset_at, reset_each, reconcile, outdated,
}
use hass_clips_manager.Integration.Rounds.Played.{
  contains-select_where, has_duplicate-append, has_duplicate-select_where,
}
use hass_clips_manager.Integration.History.{claimed_record}
use hass_clips_manager.Integration.History.Loading.Whole.{
  IsWhole, AllWhole, select_where_clear, insert-AllWhole,
}

-- A record that is whole, if there is one
abbrev pub AnyWhole : Option HistoryRecord → Type 0
AnyWhole none = Unit
AnyWhole (some r) = IsWhole r

-- A round from which a clip may be claimed
abbrev pub IsFit : Round → Type 0
IsFit r =
    (1 ≤ r.round_number)
    × (has_duplicate r.played ≡ false)
    × (exists_where is_empty r.played ≡ false)
    × ((c : String) → contains r.remaining c ≡ true → contains r.played c ≡ false)

next_round-IsFit : (eligible : List String) (r : Round) → IsFit r → IsFit (next_round eligible r)
unfolding next_round exists_where has_duplicate
next_round-IsFit eligible r w = elim (Bool-cases (not (is_nil eligible) && is_nil r.remaining)) [
  | inl e ↦ rw e (omega arith, refl, refl, λ c _. refl)
  | inr e ↦ rw e w
]

current_round-IsFit :
    (stored : Option HistoryRecord) (was_reset : Bool) (eligible : List String)
    → AnyWhole stored
    → IsFit (current_round stored was_reset eligible)
unfolding current_round exists_where has_duplicate
current_round-IsFit none was_reset eligible w = (omega arith, refl, refl, λ c _. refl)
current_round-IsFit (some r) was_reset eligible w =
    let played = select_where (contains eligible) r.played_clip_ids in
    (
      w.0,
      has_duplicate-select_where (contains eligible) r.played_clip_ids w.1,
      select_where_clear (contains eligible) is_empty r.played_clip_ids w.2,
      λ c h. ground (arith, h, contains-select_where (λ x. not (contains played x)) eligible c),
    )

pub round_for-IsFit :
    (stored : Option HistoryRecord) (was_reset : Bool) (eligible : List String)
    → AnyWhole stored
    → IsFit (round_for stored was_reset eligible)
unfolding round_for
round_for-IsFit stored was_reset eligible w =
    next_round-IsFit eligible _ (current_round-IsFit stored was_reset eligible w)

-- A list of texts that are not empty has no empty one.
pub clear_member :
    (xs : List String) (c : String)
    → exists_where is_empty xs ≡ false
    → contains xs c ≡ true
    → is_empty c ≡ false
unfolding exists_where
clear_member [] c h k = ground arith
clear_member (x ∷ xs) c h k = ground (arith, clear_member xs c, eq_iff x c)

clear-append :
    (xs : List String) (c : String)
    → exists_where is_empty xs ≡ false
    → is_empty c ≡ false
    → exists_where is_empty (xs ++ c ∷ []) ≡ false
unfolding exists_where
clear-append [] c h k = ground arith
clear-append (x ∷ xs) c h k = ground (arith, clear-append xs c)

pub claimed_record-IsWhole :
    (s : HistoryStore) (now : LocalTime) (stored : Option HistoryRecord) (r : Round) (c : String)
    → IsFit r
    → contains r.remaining c ≡ true
    → is_empty c ≡ false
    → IsWhole (claimed_record s now stored r c)
unfolding claimed_record
claimed_record-IsWhole s now stored r c w h e =
    (w.0, has_duplicate-append r.played c w.1 (w.3 c h), clear-append r.played c w.2 e)

-- The records of a dict are whole, and its keys differ.
abbrev pub IsKept : Dict HistoryRecord → Type 0
IsKept d = AllWhole d × IsDict d

pub lookup-AnyWhole : (d : Dict HistoryRecord) (id : String) → AllWhole d → AnyWhole (lookup id d)
unfolding lookup
lookup-AnyWhole [] id w = tt
lookup-AnyWhole ((j, r) ∷ d) id w = elim (Bool-cases (j == id)) [
  | inl e ↦ rw e w.1
  | inr e ↦ rw e (lookup-AnyWhole d id w.2)
]

lookup_named :
    (d : Dict HistoryRecord) (id : String) (r : HistoryRecord)
    → AllWhole d
    → lookup id d ≡ some r
    → is_empty id ≡ false
unfolding lookup
lookup_named [] id r w h = cc
lookup_named ((j, v) ∷ d) id r w h = ground (arith, lookup_named d id r, eq_iff j id)

pub insert-IsKept :
    (id : String) (r : HistoryRecord) (d : Dict HistoryRecord)
    → is_empty id ≡ false
    → IsWhole r
    → IsKept d
    → IsKept (insert id r d)
insert-IsKept id r d e w u = (insert-AllWhole id r d e w u.0, insert-IsDict id r d u.1)

reset_record-IsWhole :
    (s : HistoryStore) (now : LocalTime) (r : HistoryRecord) → IsWhole (reset_record s now r)
unfolding reset_record exists_where has_duplicate
reset_record-IsWhole s now r = (omega arith, refl, refl)

pub reset_each-IsKept :
    (s : HistoryStore) (now : LocalTime) (ids : List String) (d : Dict HistoryRecord)
    → IsKept d
    → IsKept (reset_each s now ids d)
unfolding reset_each reset_at
reset_each-IsKept s now [] d u = u
reset_each-IsKept s now (id ∷ ids) d u = elim (Option-cases (lookup id d)) [
  | inl e ↦ rw (e, reset_at) (reset_each-IsKept s now ids d u)
  | inr (r, e) ↦
      let renewed =
        insert-IsKept id (reset_record s now r) d (lookup_named d id r u.0 e)
          (reset_record-IsWhole s now r) u in
      rw (e, reset_at) (reset_each-IsKept s now ids _ renewed)
]

pub reconcile-IsKept :
    (s : HistoryStore) (now : LocalTime) → IsKept s.collections → IsKept (reconcile s now).0
unfolding reconcile
reconcile-IsKept s now u = mode_of s.reset_mode
  where
    mode_of :
        (m : HistoryResetMode)
        → IsKept
            (elim m as (λ _. Dict HistoryRecord × List String) [
              | on_exhaustion ↦ (s.collections, [])
              | daily ↦ (
                reset_each s now (outdated s now s.collections) s.collections,
                outdated s now s.collections,
              )
            ]).0
    mode_of on_exhaustion = u
    mode_of daily = reset_each-IsKept s now (outdated s now s.collections) s.collections u
