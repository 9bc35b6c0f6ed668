-- ===== src/Integration/History/Loading/Runs.antt =====
-- The calls of a playback history store, from its construction on (history.py).
use mathlib.Core.Path.{subst}
use hass_clips_manager.Prelude.{
  ◌≡◌, sym, ℕ, Bool, true, false, not, ◌&&◌, String, Option, List, if◌then◌else◌, Bool-cases, inl,
  inr,
}
use hass_clips_manager.Prelude.Tables.{select_where, is_nil}
use hass_clips_manager.Prelude.Text.{is_empty}
use hass_clips_manager.Prelude.Json.{Json}
use hass_clips_manager.Prelude.Dict.{lookup}
use hass_clips_manager.Integration.Const.{is_random, HistoryResetMode, contains}
use hass_clips_manager.Integration.Rounds.{
  LocalTime, HistoryRecord, HistoryStore, distinct, Round, reset_each, reconcile,
}
use hass_clips_manager.Integration.History.Claims.{List-cases, choose_first}
use hass_clips_manager.Integration.History.Answers.{round_eligible}
use hass_clips_manager.Integration.History.{
  Request, Opened, save, claimed_record, select, choose_from, take_clip, open_round, claim, reset,
  handle_daily_reset, has_key, reset_targets,
}
use hass_clips_manager.Integration.History.Loading.{
  HistoryService, load, reconcile_if, setup, select_call, reset_call, daily_call, construct,
}
use hass_clips_manager.Integration.History.Loading.Rounds.{
  IsKept, IsFit, round_for-IsFit, claimed_record-IsWhole, lookup-AnyWhole, clear_member,
  insert-IsKept, reset_each-IsKept, reconcile-IsKept,
}
use hass_clips_manager.Integration.History.Loading.Whole.{
  IsWhole, distinct-clear, normalize-AllWhole,
}

-- The store after a claim
claim-IsKept :
    (q : Request) (now : LocalTime) (stored : Option HistoryRecord) (r : Round) (c : String)
    (s : HistoryStore)
    → is_empty q.collection_id ≡ false
    → IsWhole (claimed_record s now stored r c)
    → IsKept s.collections
    → IsKept (claim q now stored r c s).collections
unfolding claim
claim-IsKept q now stored r c s e w u =
    insert-IsKept q.collection_id (claimed_record s now stored r c) s.collections e w u

take_clip-IsKept :
    (q : Request) (chooser : List String → String) (now : LocalTime) (stored : Option HistoryRecord)
    (r : Round) (first : String) (s : HistoryStore)
    → is_empty q.collection_id ≡ false
    → IsFit r
    → ((c : String) → contains r.remaining c ≡ true → is_empty c ≡ false)
    → IsKept s.collections
    → IsKept (take_clip q chooser now stored r first s).1.collections
unfolding take_clip
take_clip-IsKept q chooser now stored r first s e fit full u =
    let clip = if is_random q.playback_mode then chooser r.remaining else first in
    elim (Bool-cases (contains r.remaining clip)) [
      | inl h ↦ elim (Bool-cases q.dry_run) [
        | inl d ↦ rw (h, d) u
        | inr d ↦
            rw (h, d)
              (claim-IsKept q now stored r clip s e
                (claimed_record-IsWhole s now stored r clip fit h (full clip h)) u)
      ]
      | inr h ↦ rw h u
    ]

unsaved_or_not :
    (b : Bool) (s : HistoryStore)
    → IsKept s.collections
    → IsKept (if b then s else save s).collections
unsaved_or_not true s u = u
unsaved_or_not false s u = u

saved_or_not :
    (b : Bool) (s : HistoryStore)
    → IsKept s.collections
    → IsKept (if b then save s else s).collections
saved_or_not true s u = u
saved_or_not false s u = u

choose_from-IsKept :
    (q : Request) (chooser : List String → String) (now : LocalTime) (o : Opened) (s : HistoryStore)
    → is_empty q.collection_id ≡ false
    → IsFit o.round
    → ((c : String) → contains o.round.remaining c ≡ true → is_empty c ≡ false)
    → IsKept s.collections
    → IsKept (choose_from q chooser now o s).1.collections
unfolding choose_from
choose_from-IsKept q chooser now o s e fit full u = elim (List-cases o.round.remaining) [
  | inl n ↦ rw (n, choose_from) (saved_or_not (not (is_nil o.reset_ids) && not q.dry_run) s u)
  | inr (first, rest, n) ↦
      subst (λ x. IsKept x.1.collections) (sym (choose_first q chooser now o s first rest n))
        (take_clip-IsKept q chooser now o.stored o.round first s e fit full u)
]

eligible_full :
    (q : Request) (now : LocalTime) (s : HistoryStore) (c : String)
    → contains (open_round q now s).round.remaining c ≡ true
    → is_empty c ≡ false
unfolding open_round
eligible_full q now s c h =
    clear_member (distinct q.eligible_clip_ids) c (distinct-clear q.eligible_clip_ids) (
      round_eligible (lookup q.collection_id (reconcile s now).0) _ (distinct q.eligible_clip_ids) c
        h)

select-IsKept :
    (q : Request) (chooser : List String → String) (now : LocalTime) (s : HistoryStore)
    → is_empty q.collection_id ≡ false
    → IsKept s.collections
    → IsKept (select q chooser now s).1.collections
unfolding select open_round
select-IsKept q chooser now s e u =
    let o = open_round q now s in
    let kept = reconcile-IsKept s now u in
    choose_from-IsKept q chooser now o
      (if q.dry_run then s else record s { collections = o.collections }) e
      (round_for-IsFit o.stored _ (distinct q.eligible_clip_ids)
        (lookup-AnyWhole (reconcile s now).0 q.collection_id kept.0))
      (eligible_full q now s) (dry_or_not q.dry_run)
  where
    dry_or_not :
        (b : Bool)
        → IsKept (if b then s else record s { collections = (reconcile s now).0 }).collections
    dry_or_not true = u
    dry_or_not false = reconcile-IsKept s now u

reset-IsKept :
    (id : Option String) (now : LocalTime) (s : HistoryStore)
    → IsKept s.collections
    → IsKept (reset id now s).1.collections
unfolding reset
reset-IsKept id now s u =
    let ids = select_where (has_key s.collections) (reset_targets id s.collections) in
    unsaved_or_not (is_nil ids) (record s { collections = reset_each s now ids s.collections })
      (reset_each-IsKept s now ids s.collections u)

handle_daily_reset-IsKept :
    (now : LocalTime) (s : HistoryStore)
    → IsKept s.collections
    → IsKept (handle_daily_reset now s).1.collections
unfolding handle_daily_reset
handle_daily_reset-IsKept now s u =
    unsaved_or_not (is_nil (reconcile s now).1) (record s { collections = (reconcile s now).0 })
      (reconcile-IsKept s now u)

reconcile_if-IsKept :
    (b : Bool) (now : LocalTime) (s : HistoryStore)
    → IsKept s.collections
    → IsKept (reconcile_if b now s).0
unfolding reconcile_if
reconcile_if-IsKept true now s u = reconcile-IsKept s now u
reconcile_if-IsKept false now s u = u

setup-IsKept :
    (b : Bool) (loaded : Json) (now : LocalTime) (v : HistoryService)
    → IsKept v.store.collections
    → IsKept (setup b loaded now v).1.store.collections
unfolding setup load
setup-IsKept b loaded now v u =
    let fresh = load loaded v.store in
    let (collections, ids) = reconcile_if b now fresh in
    elim (Bool-cases v.initialized) [
      | inl e ↦ rw e u
      | inr e ↦ rw e (
          unsaved_or_not (is_nil ids) (record fresh { collections = collections })
            (reconcile_if-IsKept b now fresh (normalize-AllWhole loaded)))
    ]

-- The histories of a store: constructed, and then called in any way, whatever storage has.
pub data Runs : HistoryService → Type 0 where
  constructed : (mode : HistoryResetMode) (reset_time : ℕ) → Runs (construct mode reset_time)
  sets_up :
      (b : Bool) (loaded : Json) (now : LocalTime) {w : HistoryService}
      → Runs w
      → Runs (setup b loaded now w).1
  selects :
      (loaded : Json) (q : Request) (chooser : List String → String) (at_setup now : LocalTime)
      {w : HistoryService}
      → is_empty q.collection_id ≡ false
      → Runs w
      → Runs (select_call loaded q chooser at_setup now w).1
  resets :
      (loaded : Json) (id : Option String) (at_setup now : LocalTime) {w : HistoryService}
      → Runs w
      → Runs (reset_call loaded id at_setup now w).1
  daily_resets :
      (loaded : Json) (at_setup now : LocalTime) {w : HistoryService}
      → Runs w
      → Runs (daily_call loaded at_setup now w).1

-- Whatever storage has and whatever is called, on collections that have an id: the keys of the history
-- differ and none is empty, each round counts from 1, and no clip is twice in a round or empty.
pub Runs-IsKept : (v : HistoryService) → Runs v → IsKept v.store.collections
unfolding select_call reset_call daily_call
Runs-IsKept v (constructed mode reset_time) = (tt, tt)
Runs-IsKept v (sets_up b loaded now {w} r) = setup-IsKept b loaded now w (Runs-IsKept w r)
Runs-IsKept v (selects loaded q chooser at_setup now {w} e r) =
    select-IsKept q chooser now (setup (not q.dry_run) loaded at_setup w).1.store e
      (setup-IsKept (not q.dry_run) loaded at_setup w (Runs-IsKept w r))
Runs-IsKept v (resets loaded id at_setup now {w} r) =
    reset-IsKept id now (setup true loaded at_setup w).1.store
      (setup-IsKept true loaded at_setup w (Runs-IsKept w r))
Runs-IsKept v (daily_resets loaded at_setup now {w} r) =
    handle_daily_reset-IsKept now (setup true loaded at_setup w).1.store
      (setup-IsKept true loaded at_setup w (Runs-IsKept w r))
