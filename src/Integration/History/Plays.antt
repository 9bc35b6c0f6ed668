-- ===== src/Integration/History/Plays.antt =====
-- The clips that successive calls of `async_select` claim (history.py), where a round ends when its
-- clips are exhausted.
use mathlib.Core.Path.{subst}
use hass_clips_manager.Prelude.{
  ◌≡◌, refl, sym, ap, ◌∙◌, ℕ, ◌+◌, ◌≤◌, ◌<◌, true, false, String, some, List, [], ◌∷◌, ◌++◌, arith,
}
use hass_clips_manager.Prelude.Tables.{exists_where, length}
use hass_clips_manager.Prelude.Dict.{lookup}
use hass_clips_manager.Prelude.Results.{ok}
use hass_clips_manager.Integration.Const.{on_exhaustion, is_random, contains, has_duplicate}
use hass_clips_manager.Integration.Rounds.{
  LocalTime, HistoryStore, HistorySelection, distinct, unplayed,
}
use hass_clips_manager.Integration.Rounds.Played.{
  unplayed_first, has_duplicate-distinct, all_played,
}
use hass_clips_manager.Integration.History.{Request, select, claimed_record}
use hass_clips_manager.Integration.History.Claims.{round_in, select-Claimed, claim_found}
use hass_clips_manager.Integration.History.InRound.{
  InRound, claim-InRound, unplayed_nothing, length-append, round_lem, played_of, number_of,
  is_nil-length, length_nil, round_next, select_where_all,
}

-- The clips that calls for one collection claim, each with its own chooser and clock
pub data Plays (q : Request) (start : HistoryStore) : List String → HistoryStore → Type 0 where
  done : Plays q start [] start
  play :
      (cs : List String) (s s' : HistoryStore) (chooser : List String → String) (now : LocalTime)
      (h : HistorySelection) (c : String)
      → Plays q start cs s
      → select q chooser now s ≡ (ok h, s')
      → h.clip_id ≡ some c
      → Plays q start (cs ++ c ∷ []) s'

append_one :
    (xs : List String) (c : String) (ys : List String) → (xs ++ c ∷ []) ++ ys ≡ xs ++ c ∷ ys
append_one [] c ys = refl
append_one (x ∷ xs) c ys = ap (λ zs. x ∷ zs) (append_one xs c ys)

module _ (q : Request) (start : HistoryStore) (mode : start.reset_mode ≡ on_exhaustion)
    (real : q.dry_run ≡ false)
    (empty : played_of (lookup q.collection_id start.collections) ≡ []) where
  abbrev first_number : ℕ
  first_number = number_of (lookup q.collection_id start.collections)

  plays-InRound :
      (cs : List String) (s : HistoryStore)
      → Plays q start cs s
      → length cs ≤ length (distinct q.eligible_clip_ids)
      → InRound q first_number cs s
  unfolding exists_where has_duplicate
  plays-InRound cs s done short = record {
    mode = mode;
    number = refl;
    played = empty;
    once = refl;
    eligible = λ c h. ground arith;
    left = let e = ap length (unplayed_nothing (distinct q.eligible_clip_ids)) in omega arith;
  }
  plays-InRound _ _ (play cs s s' chooser now h c plays answered chose) short =
      let longer = length-append cs c in
      let inv = plays-InRound cs s plays (omega arith) in
      let (claimed, a, b) = select-Claimed q chooser now c h s s' inv.mode real answered chose in
      subst (InRound q first_number (cs ++ c ∷ [])) (sym claimed.is_saved)
        (claim-InRound q first_number cs s inv (omega arith) now c claimed.remains)

  -- Where a round ends on exhaustion, real calls on a collection with nothing played that claim at most
  -- as many clips as are eligible never claim one twice, and claim eligible ones only; once they are as
  -- many, every eligible clip has been claimed.
  pub no_repeats :
      (cs : List String) (s : HistoryStore)
      → Plays q start cs s
      → length cs ≤ length (distinct q.eligible_clip_ids)
      → (has_duplicate cs ≡ false)
        × ((c : String) → contains cs c ≡ true → contains (distinct q.eligible_clip_ids) c ≡ true)
        × (length cs ≡ length (distinct q.eligible_clip_ids)
            → (c : String) → contains (distinct q.eligible_clip_ids) c ≡ true
            → contains cs c ≡ true)
  no_repeats cs s plays short =
      let inv = plays-InRound cs s plays short in
      (
        inv.once,
        inv.eligible,
        λ full c known.
            all_played (distinct q.eligible_clip_ids) cs c
              (length_nil _ (let left = inv.left in omega arith)) known,
      )

  -- Where a round ends on exhaustion, real calls in an ordered mode on a collection with nothing played
  -- that claim at most as many clips as are eligible claim them in order: the clips claimed, followed
  -- by those unplayed, are the eligible clips.
  pub sequential_order :
      (cs : List String) (s : HistoryStore)
      → is_random q.playback_mode ≡ false
      → Plays q start cs s
      → length cs ≤ length (distinct q.eligible_clip_ids)
      → cs ++ unplayed (distinct q.eligible_clip_ids) cs ≡ distinct q.eligible_clip_ids
  sequential_order _ _ ordered done short = unplayed_nothing (distinct q.eligible_clip_ids)
  sequential_order _ _ ordered (play cs s s' chooser now h c plays answered chose) short =
      let eligible = distinct q.eligible_clip_ids in
      let longer = length-append cs c in
      let inv = plays-InRound cs s plays (omega arith) in
      let before = sequential_order cs s ordered plays (omega arith) in
      let (_, _, first) = select-Claimed q chooser now c h s s' inv.mode real answered chose in
      let (rest, next) = first ordered in
      let left : unplayed eligible cs ≡ c ∷ rest =
        sym (round_lem q first_number cs s inv (omega arith)).1 ∙ next in
      let after : unplayed eligible (cs ++ c ∷ []) ≡ rest =
        unplayed_first eligible cs c rest (has_duplicate-distinct q.eligible_clip_ids) left in
      ap (λ xs. (cs ++ c ∷ []) ++ xs) after
      ∙ (append_one cs c rest ∙ (ap (λ xs. cs ++ xs) (sym left) ∙ before))

  -- Where a round ends on exhaustion, once real calls on a collection with nothing played have claimed
  -- as many clips as are eligible, and at least one, the next call that claims a clip begins the next
  -- round: it says so, its number is one more, only its clip has played, and that clip is eligible.
  pub next_round_begins :
      (cs : List String) (s s' : HistoryStore) (chooser : List String → String) (now : LocalTime)
      (h : HistorySelection) (c : String)
      → Plays q start cs s
      → length cs ≡ length (distinct q.eligible_clip_ids)
      → 0 < length cs
      → select q chooser now s ≡ (ok h, s')
      → h.clip_id ≡ some c
      → (h.round_number ≡ first_number + 1)
        × (h.history_reset ≡ true)
        × (played_of (lookup q.collection_id s'.collections) ≡ c ∷ [])
        × (contains (distinct q.eligible_clip_ids) c ≡ true)
  unfolding claimed_record
  next_round_begins cs s s' chooser now h c plays full some_clip answered chose =
      let eligible = distinct q.eligible_clip_ids in
      let stored = lookup q.collection_id s.collections in
      let inv = plays-InRound cs s plays (omega arith) in
      let (claimed, a, _) = select-Claimed q chooser now c h s s' inv.mode real answered chose in
      let left = inv.left in
      let r =
        round_next stored false eligible cs inv.played
          (select_where_all (contains eligible) cs inv.eligible) (length_nil _ (omega arith))
          (is_nil-length eligible (omega arith)) in
      let found = claim_found q now stored (round_in q s) c s in
      (
        ap (λ h. h.round_number) a ∙ (ap (λ r. r.round_number) r ∙ ap (λ n. n + 1) inv.number),
        ap (λ h. h.history_reset) a ∙ ap (λ r. r.history_reset) r,
        ap (λ s. played_of (lookup q.collection_id s.collections)) claimed.is_saved
            ∙ (ap played_of found ∙ ap (λ r. r.played ++ c ∷ []) r),
        subst (λ r. contains r.remaining c ≡ true) r claimed.remains,
      )
