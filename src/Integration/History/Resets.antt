-- ===== src/Integration/History/Resets.antt =====
-- What the resets of the playback history change (history.py).
use hass_clips_manager.Prelude.{
  ◌≡◌, refl, inl, inr, Bool, true, false, String, Option, none, some, List, [], ◌∷◌, ◌==◌, arith,
  eq_iff, eq_refl, Option-cases,
}
use hass_clips_manager.Prelude.Tables.{exists_where}
use hass_clips_manager.Prelude.Dict.{Dict, lookup, lookup-insert, keys}
use hass_clips_manager.Prelude.Dict.Sorted.{IsDict, exists_where-keys, insert-IsDict}
use hass_clips_manager.Integration.Const.{contains, has_duplicate}
use hass_clips_manager.Integration.Rounds.{
  LocalTime, HistoryRecord, HistoryStore, reset_record, reset_at, reset_each,
}

-- A record that is reset, if there is one and it is to be
abbrev pub renew : HistoryStore → LocalTime → Bool → Option HistoryRecord → Option HistoryRecord
renew s now b none = none
renew s now true (some r) = some (reset_record s now r)
renew s now false (some r) = some r

pub empty_list : (xs : List String) → ((x : String) → contains xs x ≡ false) → xs ≡ []
unfolding exists_where
empty_list [] h = refl
empty_list (x ∷ xs) h = absurd (ground (arith, h x, eq_refl x))

pub keys-has_duplicate : {V : Type 0} (d : Dict V) → IsDict d → has_duplicate (keys d) ≡ false
unfolding has_duplicate exists_where
keys-has_duplicate [] u = refl
keys-has_duplicate ((k, v) ∷ d) u =
    ground (arith, exists_where-keys d k, u.0, keys-has_duplicate d u.1)

pub lookup-reset_at :
    (s : HistoryStore) (now : LocalTime) (id j : String) (d : Dict HistoryRecord)
    → lookup j (reset_at s now id d) ≡ renew s now (id == j) (lookup j d)
unfolding reset_at
lookup-reset_at s now id j d = elim (Option-cases (lookup id d)) [
  | inl e ↦ ground (arith, e, eq_iff id j)
  | inr (r, e) ↦ ground (arith, e, eq_iff id j, lookup-insert id j (reset_record s now r) d)
]

pub lookup-reset_each :
    (s : HistoryStore) (now : LocalTime) (ids : List String) (j : String) (d : Dict HistoryRecord)
    → has_duplicate ids ≡ false
    → lookup j (reset_each s now ids d) ≡ renew s now (contains ids j) (lookup j d)
unfolding reset_each has_duplicate exists_where
lookup-reset_each s now [] j d h = ground arith
lookup-reset_each s now (id ∷ ids) j d h = ground (
  arith,
  lookup-reset_each s now ids j (reset_at s now id d),
  lookup-reset_at s now id j d,
  eq_iff id j,
)

pub reset_each-IsDict :
    (s : HistoryStore) (now : LocalTime) (ids : List String) (d : Dict HistoryRecord)
    → IsDict d
    → IsDict (reset_each s now ids d)
unfolding reset_each reset_at
reset_each-IsDict s now [] d u = u
reset_each-IsDict s now (id ∷ ids) d u = elim (Option-cases (lookup id d)) [
  | inl e ↦ rw (e, reset_at) (reset_each-IsDict s now ids d u)
  | inr (r, e) ↦
      rw (e, reset_at) (reset_each-IsDict s now ids _ (insert-IsDict id (reset_record s now r) d u))
]
