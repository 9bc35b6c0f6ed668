-- ===== src/Integration/History/Tests.antt =====
-- The playback history at concrete collections and clips.
use hass_clips_manager.Prelude.{
  ◌≡◌, refl, ℕ, ◌+◌, String, Bool, true, false, none, some, List, [], ◌∷◌, ◌++◌, arith, is_some,
  ◌&&◌, eq_refl, sym, ap,
}
use hass_clips_manager.Prelude.Tables.{select_where, exists_where, length}
use hass_clips_manager.Prelude.Dict.{lookup, insert, sorted_items}
use hass_clips_manager.Prelude.Dict.Sorted.{IsDict}
use hass_clips_manager.Prelude.Results.{ok}
use hass_clips_manager.Integration.Const.{
  on_exhaustion, daily, PlaybackMode, contains, has_duplicate,
}
use hass_clips_manager.Integration.Rounds.{
  LocalTime, HistoryRecord, HistoryStore, HistorySelection, distinct, unplayed,
}
use hass_clips_manager.Integration.History.{Request, select, reset, handle_daily_reset, serialized}
use hass_clips_manager.Integration.History.InRound.{played_of, number_of}
use hass_clips_manager.Integration.History.Plays.{
  Plays, done, play, no_repeats, sequential_order, next_round_begins,
}
use hass_clips_manager.Integration.History.Answers.{claim_is_saved}
use hass_clips_manager.Integration.History.Resets.{renew}
use hass_clips_manager.Integration.History.Daily.{daily_lem, is_outdated}
use hass_clips_manager.Integration.History.Explicit.{reset_lem, covers}

abbrev empty : HistoryStore
empty = record {
  reset_mode = on_exhaustion;
  reset_time = 0;
  collections = [];
  last_selection = none;
  disk = none;
}

abbrev evening : LocalTime
evening = record {
  date = "2026-09-01";
  yesterday = "2026-08-31";
  time_of_day = 72000000000;
  iso = "2026-09-01T20:00:00+02:00";
}

abbrev request : Request
request = record {
  collection_id = "cinema";
  eligible_clip_ids = "b" ∷ "a" ∷ "b" ∷ [];
  dry_run = false;
  playback_mode = PlaybackMode.sequential;
  clip_details = [];
}

-- Every chooser of these tests takes the first.
abbrev first_of : List String → String
first_of [] = ""
first_of (x ∷ xs) = x

abbrev answered : String → ℕ → Bool → HistorySelection
answered clip number was_reset = record {
  collection_id = "cinema";
  clip_id = some clip;
  round_number = number;
  history_reset = was_reset;
}

abbrev after_one : HistoryStore
after_one = (select request first_of evening empty).1

abbrev after_two : HistoryStore
after_two = (select request first_of evening after_one).1

abbrev after_three : HistoryStore
after_three = (select request first_of evening after_two).1

plays_b : select request first_of evening empty ≡ (ok (answered "b" 1 false), after_one)
unfolding select exists_where select_where insert lookup sorted_items distinct
plays_b = refl

plays_a : select request first_of evening after_one ≡ (ok (answered "a" 1 false), after_two)
unfolding select exists_where select_where insert lookup sorted_items distinct
plays_a = refl

plays_b_again : select request first_of evening after_two ≡ (ok (answered "b" 2 true), after_three)
unfolding select exists_where select_where insert lookup sorted_items distinct
plays_b_again = refl

abbrev two_plays : Plays request empty ("b" ∷ "a" ∷ []) after_two
two_plays =
    play ("b" ∷ []) after_one after_two first_of evening (answered "a" 1 false) "a"
      (play [] empty after_one first_of evening (answered "b" 1 false) "b" done plays_b refl)
      plays_a refl

eligible_are : distinct request.eligible_clip_ids ≡ "b" ∷ "a" ∷ []
unfolding distinct select_where
eligible_are = refl

two_eligible : length (distinct request.eligible_clip_ids) ≡ 2
two_eligible = ap length eligible_are

nothing_played : played_of (lookup "cinema" empty.collections) ≡ []
unfolding lookup
nothing_played = refl

no_repeats_example :
    (has_duplicate ("b" ∷ "a" ∷ []) ≡ false)
    × ((c : String)
        → contains ("b" ∷ "a" ∷ []) c ≡ true
        → contains (distinct request.eligible_clip_ids) c ≡ true)
    × (length {A = String} ("b" ∷ "a" ∷ []) ≡ length (distinct request.eligible_clip_ids)
        → (c : String) → contains (distinct request.eligible_clip_ids) c ≡ true
        → contains ("b" ∷ "a" ∷ []) c ≡ true)
no_repeats_example =
    no_repeats request empty refl refl nothing_played ("b" ∷ "a" ∷ []) after_two two_plays
      (let e = two_eligible in omega arith)

sequential_order_example :
    "b" ∷ "a" ∷ unplayed (distinct request.eligible_clip_ids) ("b" ∷ "a" ∷ [])
    ≡ distinct request.eligible_clip_ids
sequential_order_example =
    sequential_order request empty refl refl nothing_played ("b" ∷ "a" ∷ []) after_two refl
      two_plays (let e = two_eligible in omega arith)

next_round_begins_example :
    (2 ≡ number_of (lookup "cinema" empty.collections) + 1)
    × (true ≡ true)
    × (played_of (lookup "cinema" after_three.collections) ≡ "b" ∷ [])
    × (contains (distinct request.eligible_clip_ids) "b" ≡ true)
next_round_begins_example =
    next_round_begins request empty refl refl nothing_played ("b" ∷ "a" ∷ []) after_two after_three
      first_of evening (answered "b" 2 true) "b" two_plays (sym two_eligible) (omega arith)
      plays_b_again refl

first_of-honest :
    (x : String) (rest : List String) → contains (x ∷ rest) (first_of (x ∷ rest)) ≡ true
unfolding exists_where
first_of-honest x rest = ground (arith, eq_refl x)

claim_is_saved_example :
    (r : HistoryRecord) × (earlier : List String) × (lookup "cinema" after_two.collections ≡ some r)
    × (r.played_clip_ids ≡ earlier ++ "a" ∷ [])
    × (after_two.disk ≡ some (serialized after_two))
    × (contains (distinct request.eligible_clip_ids) "a" ≡ true)
claim_is_saved_example =
    claim_is_saved request first_of evening "a" (answered "a" 1 false) after_one after_two refl
      plays_a refl

abbrev next_morning : LocalTime
next_morning = record {
  date = "2026-09-02";
  yesterday = "2026-09-01";
  time_of_day = 1000;
  iso = "2026-09-02T00:00:00.001000+02:00";
}

abbrev daily_store : HistoryStore
daily_store = record after_two { reset_mode = daily }

daily_store-IsDict : IsDict daily_store.collections
unfolding select exists_where select_where insert lookup sorted_items distinct
daily_store-IsDict = (refl, tt)

daily_lem_example :
    (contains (handle_daily_reset next_morning daily_store).0 "cinema"
      ≡ is_outdated daily_store next_morning (lookup "cinema" daily_store.collections))
    × (lookup "cinema" (handle_daily_reset next_morning daily_store).1.collections
        ≡ renew daily_store next_morning
            (is_outdated daily_store next_morning (lookup "cinema" daily_store.collections))
            (lookup "cinema" daily_store.collections))
daily_lem_example = daily_lem next_morning daily_store "cinema" refl daily_store-IsDict

resets_cinema : (handle_daily_reset next_morning daily_store).0 ≡ "cinema" ∷ []
unfolding handle_daily_reset select exists_where select_where insert lookup sorted_items distinct
resets_cinema = refl

reset_lem_example :
    (contains (reset (some "cinema") evening daily_store).0 "cinema"
      ≡ (is_some (lookup "cinema" daily_store.collections) && covers (some "cinema") "cinema"))
    × (lookup "cinema" (reset (some "cinema") evening daily_store).1.collections
        ≡ renew daily_store evening
            (covers (some "cinema") "cinema")
            (lookup "cinema" daily_store.collections))
reset_lem_example = reset_lem (some "cinema") evening daily_store "cinema" daily_store-IsDict
