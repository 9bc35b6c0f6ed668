-- ===== src/Integration/History/Answers.antt =====
-- What a call of `async_select` answers, and what it has saved by then (history.py).
use mathlib.Core.Path.{subst}
use hass_clips_manager.Prelude.{
  ◌≡◌, refl, sym, ap, ◌∙◌, inl, inr, Bool, true, false, not, String, Option, none, some, List, [],
  ◌∷◌, ◌++◌, if◌then◌else◌, arith, eq_refl, is_some,
}
use hass_clips_manager.Prelude.Tables.{select_where, exists_where, is_nil}
use hass_clips_manager.Prelude.Dict.{lookup}
use hass_clips_manager.Prelude.Results.{ok}
use hass_clips_manager.Integration.Const.{is_random, contains}
use hass_clips_manager.Integration.Rounds.{
  LocalTime, HistoryRecord, HistoryStore, HistorySelection, distinct, Round, round_for,
}
use hass_clips_manager.Integration.Rounds.Played.{contains-select_where}
use hass_clips_manager.Integration.History.{
  serialized, Request, Opened, select, choose_from, take_clip, open_round, claimed_record, answer,
}
use hass_clips_manager.Integration.History.Claims.{
  List-cases, choose_first, choose_none, claim_found, choose_from-Claimed,
}

-- A dry run gives the answer that the real call would give, and leaves the history and what is saved
-- as they are.
pub dry_run_previews :
    (q : Request) (chooser : List String → String) (now : LocalTime) (s : HistoryStore)
    → ((select (record q { dry_run = true }) chooser now s).0
        ≡ (select (record q { dry_run = false }) chooser now s).0)
      × ((select (record q { dry_run = true }) chooser now s).1 ≡ s)
unfolding select choose_from take_clip open_round
dry_run_previews q chooser now s = ground arith

-- What remains of a round is eligible, and something does as long as anything is.
pub round_eligible :
    (stored : Option HistoryRecord) (was_reset : Bool) (eligible : List String) (c : String)
    → contains (round_for stored was_reset eligible).remaining c ≡ true
    → contains eligible c ≡ true
unfolding round_for
round_eligible none was_reset eligible c h =
    ground (arith, contains-select_where (λ x. not (contains [] x)) eligible c)
round_eligible (some r) was_reset eligible c h =
    let played = select_where (contains eligible) r.played_clip_ids in
    ground (arith, contains-select_where (λ x. not (contains played x)) eligible c)

select_where-nil : (p : String → Bool) → is_nil (select_where p []) ≡ true
unfolding select_where
select_where-nil p = refl

round_is_nil :
    (stored : Option HistoryRecord) (was_reset : Bool) (eligible : List String)
    → is_nil (round_for stored was_reset eligible).remaining ≡ is_nil eligible
unfolding round_for select_where
round_is_nil none was_reset [] = refl
round_is_nil (some r) was_reset [] = refl
round_is_nil none was_reset (x ∷ xs) = ground arith
round_is_nil (some r) was_reset (x ∷ xs) = ground arith

take_clip_total :
    (q : Request) (chooser : List String → String) (now : LocalTime) (stored : Option HistoryRecord)
    (r : Round) (first : String) (rest : List String) (s : HistoryStore)
    → ((x : String) (rest : List String) → contains (x ∷ rest) (chooser (x ∷ rest)) ≡ true)
    → r.remaining ≡ first ∷ rest
    → (c : String) × ((take_clip q chooser now stored r first s).0 ≡ ok (answer q r (some c)))
unfolding take_clip exists_where
take_clip_total q chooser now stored r first rest s honest n =
    let clip = if is_random q.playback_mode then chooser r.remaining else first in
    let chosen : contains r.remaining (chooser r.remaining) ≡ true =
      subst (λ xs. contains xs (chooser xs) ≡ true) (sym n) (honest first rest) in
    let head : contains r.remaining first ≡ true =
      subst (λ xs. contains xs first ≡ true) (sym n) (ground (arith, eq_refl first)) in
    let among : contains r.remaining clip ≡ true = ground (arith, chosen, head) in
    (clip, ground (arith, among))

choose_from_total :
    (q : Request) (chooser : List String → String) (now : LocalTime) (o : Opened) (s : HistoryStore)
    → ((x : String) (rest : List String) → contains (x ∷ rest) (chooser (x ∷ rest)) ≡ true)
    → (h : HistorySelection) × ((choose_from q chooser now o s).0 ≡ ok h)
      × (is_some h.clip_id ≡ not (is_nil o.round.remaining))
choose_from_total q chooser now o s honest = elim (List-cases o.round.remaining) [
  | inl n ↦
      (answer q o.round none, choose_none q chooser now o s n, ap (λ xs. not (is_nil xs)) (sym n))
  | inr (first, rest, n) ↦
      let (c, e) = take_clip_total q chooser now o.stored o.round first rest s honest n in
      (
        answer q o.round (some c),
        ap (λ p. p.0) (choose_first q chooser now o s first rest n) ∙ e,
        ap (λ xs. not (is_nil xs)) (sym n),
      )
]

-- With a chooser that chooses among what it is given, a call never raises, and it gives a clip exactly
-- when a clip is eligible, in either mode of resetting, dry run or not.
pub select_total :
    (q : Request) (chooser : List String → String) (now : LocalTime) (s : HistoryStore)
    → ((x : String) (rest : List String) → contains (x ∷ rest) (chooser (x ∷ rest)) ≡ true)
    → (h : HistorySelection) × ((select q chooser now s).0 ≡ ok h)
      × (is_some h.clip_id ≡ not (is_nil (distinct q.eligible_clip_ids)))
unfolding select open_round
select_total q chooser now s honest =
    let o = open_round q now s in
    let before = if q.dry_run then s else record s { collections = o.collections } in
    let (h, e, some_clip) = choose_from_total q chooser now o before honest in
    let all =
      round_is_nil o.stored (contains o.reset_ids q.collection_id) (distinct q.eligible_clip_ids) in
    (h, e, some_clip ∙ ap not all)

-- A real call that claims a clip claims an eligible one, and when it returns the clip is recorded as
-- played, last in its round, and all of this is saved.
pub claim_is_saved :
    (q : Request) (chooser : List String → String) (now : LocalTime) (c : String)
    (h : HistorySelection) (s s' : HistoryStore)
    → q.dry_run ≡ false
    → select q chooser now s ≡ (ok h, s')
    → h.clip_id ≡ some c
    → (r : HistoryRecord) × (earlier : List String) × (lookup q.collection_id s'.collections
        ≡ some r)
      × (r.played_clip_ids ≡ earlier ++ c ∷ [])
      × (s'.disk ≡ some (serialized s'))
      × (contains (distinct q.eligible_clip_ids) c ≡ true)
unfolding select open_round claimed_record serialized
claim_is_saved q chooser now c h s s' real e k =
    let o = open_round q now s in
    let before = if q.dry_run then s else record s { collections = o.collections } in
    let (claimed, a, _) = choose_from-Claimed q chooser now o c h before s' real e k in
    let saved = claimed.is_saved in
    (
      claimed_record before now o.stored o.round c,
      o.round.played,
      ap (λ s. lookup q.collection_id s.collections) saved
          ∙ claim_found q now o.stored o.round c before,
      refl,
      subst (λ s. s.disk ≡ some (serialized s)) (sym saved) refl,
      round_eligible o.stored (contains o.reset_ids q.collection_id) (distinct q.eligible_clip_ids)
          c claimed.remains,
    )

-- The answer of a dry run or of a real call is that of the real call.
as_real :
    (q : Request) (chooser : List String → String) (now : LocalTime) (s : HistoryStore) (b : Bool)
    → (select (record q { dry_run = b }) chooser now s).0
      ≡ (select (record q { dry_run = false }) chooser now s).0
as_real q chooser now s true = (dry_run_previews q chooser now s).0
as_real q chooser now s false = refl

pub select_eligible :
    (q : Request) (chooser : List String → String) (now : LocalTime) (c : String)
    (h : HistorySelection) (s : HistoryStore)
    → (select q chooser now s).0 ≡ ok h
    → h.clip_id ≡ some c
    → contains (distinct q.eligible_clip_ids) c ≡ true
select_eligible q chooser now c h s e k =
    let real = record q { dry_run = false } in
    let answer = sym (as_real q chooser now s q.dry_run) ∙ e in
    let call : select real chooser now s ≡ (ok h, (select real chooser now s).1) =
      ap (λ r. (r, (select real chooser now s).1)) answer in
    let (_, _, _, _, _, known) =
      claim_is_saved real chooser now c h s (select real chooser now s).1 refl call k in
    known
