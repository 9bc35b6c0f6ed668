-- ===== src/Integration/History/Claims.antt =====
-- What one call of `async_select` does (history.py).
use mathlib.Core.Path.{subst}
use hass_clips_manager.Prelude.{
  ◌≡◌, refl, sym, ap, ◌∙◌, ◌⊎◌, inl, inr, true, false, String, Option, none, some, List, [], ◌∷◌,
  if◌then◌else◌, arith, eq_refl, Bool-cases,
}
use hass_clips_manager.Prelude.Tables.{exists_where}
use hass_clips_manager.Prelude.Dict.{lookup, lookup-insert}
use hass_clips_manager.Prelude.Results.{ok}
use hass_clips_manager.Integration.Const.{on_exhaustion, is_random, contains}
use hass_clips_manager.Integration.Rounds.{
  LocalTime, HistoryRecord, HistoryStore, HistorySelection, distinct, Round, round_for, reconcile,
}
use hass_clips_manager.Integration.History.{
  Request, Opened, select, choose_from, take_clip, open_round, claim, claimed_record, answer, save,
}

pub List-cases :
    (xs : List String) → (xs ≡ []) ⊎ ((x : String) × (rest : List String) × (xs ≡ x ∷ rest))
List-cases [] = inl refl
List-cases (x ∷ rest) = inr (x, rest, refl)

-- What a call that claims a clip has done
pub record Claimed (q : Request) (now : LocalTime) (stored : Option HistoryRecord) (r : Round)
    (s s' : HistoryStore) (c : String) : Type 0 where
  pub remains : contains r.remaining c ≡ true
  pub is_saved : s' ≡ save (claim q now stored r c s)

take_clip-Claimed :
    (q : Request) (chooser : List String → String) (now : LocalTime) (stored : Option HistoryRecord)
    (r : Round) (first c : String) (h : HistorySelection) (s s' : HistoryStore)
    → q.dry_run ≡ false
    → take_clip q chooser now stored r first s ≡ (ok h, s')
    → h.clip_id ≡ some c
    → Claimed q now stored r s s' c
      × (h ≡ answer q r (some c))
      × (is_random q.playback_mode ≡ false → c ≡ first)
unfolding take_clip
take_clip-Claimed q chooser now stored r first c h s s' real e k =
    let clip = if is_random q.playback_mode then chooser r.remaining else first in
    let e0 : (take_clip q chooser now stored r first s).0 ≡ ok h = ap (λ p. p.0) e in
    let e1 : (take_clip q chooser now stored r first s).1 ≡ s' = ap (λ p. p.1) e in
    elim (Bool-cases (contains r.remaining clip)) [
      | inl i ↦
          let a : answer q r (some clip) ≡ h = ground arith in
          let same : clip ≡ c = ground arith in
          let saved : save (claim q now stored r clip s) ≡ s' = ground arith in
          (
            record {
              remains = subst (λ c. contains r.remaining c ≡ true) same i;
              is_saved = sym saved ∙ ap (λ c. save (claim q now stored r c s)) same;
            },
            sym a ∙ ap (λ c. answer q r (some c)) same,
            λ m. ground arith,
          )
      | inr i ↦ absurd (ground arith)
    ]

pub choose_first :
    (q : Request) (chooser : List String → String) (now : LocalTime) (o : Opened) (s : HistoryStore)
    (first : String) (rest : List String)
    → o.round.remaining ≡ first ∷ rest
    → choose_from q chooser now o s ≡ take_clip q chooser now o.stored o.round first s
unfolding choose_from
choose_first q chooser now o s first rest n = ground (arith, n)

pub choose_none :
    (q : Request) (chooser : List String → String) (now : LocalTime) (o : Opened) (s : HistoryStore)
    → o.round.remaining ≡ []
    → (choose_from q chooser now o s).0 ≡ ok (answer q o.round none)
unfolding choose_from
choose_none q chooser now o s n = ground (arith, n)

pub claim_found :
    (q : Request) (now : LocalTime) (stored : Option HistoryRecord) (r : Round) (c : String)
    (s : HistoryStore)
    → lookup q.collection_id (claim q now stored r c s).collections
      ≡ some (claimed_record s now stored r c)
unfolding claim
claim_found q now stored r c s =
    lookup-insert q.collection_id q.collection_id (claimed_record s now stored r c) s.collections
    ∙ ground (arith, eq_refl q.collection_id)

pub choose_from-Claimed :
    (q : Request) (chooser : List String → String) (now : LocalTime) (o : Opened) (c : String)
    (h : HistorySelection) (s s' : HistoryStore)
    → q.dry_run ≡ false
    → choose_from q chooser now o s ≡ (ok h, s')
    → h.clip_id ≡ some c
    → Claimed q now o.stored o.round s s' c
      × (h ≡ answer q o.round (some c))
      × (is_random q.playback_mode ≡ false → (rest : List String) × (o.round.remaining ≡ c ∷ rest))
choose_from-Claimed q chooser now o c h s s' real e k = elim (List-cases o.round.remaining) [
  | inl n ↦ absurd (ground (arith, choose_none q chooser now o s n, ap (λ p. p.0) e))
  | inr (first, rest, n) ↦
      let (claimed, a, ordered) =
        take_clip-Claimed q chooser now o.stored o.round first c h s s' real
          (sym (choose_first q chooser now o s first rest n) ∙ e) k in
      (claimed, a, λ m. (rest, n ∙ ap (λ x. x ∷ rest) (sym (ordered m))))
]

-- In the mode in which a round ends when its clips are exhausted, the round that a call finds
abbrev pub round_in : Request → HistoryStore → Round
round_in q s = round_for (lookup q.collection_id s.collections) false (distinct q.eligible_clip_ids)

abbrev pub opened_in : Request → HistoryStore → Opened
opened_in q s = record {
  collections = s.collections;
  reset_ids = [];
  stored = lookup q.collection_id s.collections;
  round = round_in q s;
}

pub opened_now :
    (q : Request) (now : LocalTime) (s : HistoryStore)
    → s.reset_mode ≡ on_exhaustion
    → open_round q now s ≡ opened_in q s
unfolding open_round reconcile exists_where
opened_now q now s mode = rw mode refl

select_now :
    (q : Request) (chooser : List String → String) (now : LocalTime) (s : HistoryStore)
    → s.reset_mode ≡ on_exhaustion
    → q.dry_run ≡ false
    → select q chooser now s ≡ choose_from q chooser now (opened_in q s) s
unfolding select
select_now q chooser now s mode real =
    let same =
      ap (λ o. choose_from q chooser now o (record s { collections = o.collections }))
        (opened_now q now s mode) in
    ap
      (λ b.
        choose_from q chooser now (open_round q now s)
          (if b then s else record s { collections = (open_round q now s).collections }))
      real
    ∙ same

pub select-Claimed :
    (q : Request) (chooser : List String → String) (now : LocalTime) (c : String)
    (h : HistorySelection) (s s' : HistoryStore)
    → s.reset_mode ≡ on_exhaustion
    → q.dry_run ≡ false
    → select q chooser now s ≡ (ok h, s')
    → h.clip_id ≡ some c
    → Claimed q now (lookup q.collection_id s.collections) (round_in q s) s s' c
      × (h ≡ answer q (round_in q s) (some c))
      × (is_random q.playback_mode ≡ false
          → (rest : List String) × ((round_in q s).remaining ≡ c ∷ rest))
select-Claimed q chooser now c h s s' mode real e k =
    choose_from-Claimed q chooser now (opened_in q s) c h s s' real
      (sym (select_now q chooser now s mode real) ∙ e) k
