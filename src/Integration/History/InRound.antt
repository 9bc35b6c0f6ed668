-- ===== src/Integration/History/InRound.antt =====
-- The state of a round in progress (history.py), where a round ends when its clips are exhausted.
use mathlib.Core.Path.{subst}
use hass_clips_manager.Prelude.{
  ◌≡◌, refl, ap, ◌∙◌, ℕ, suc, ◌+◌, ◌<◌, Bool, true, false, not, String, Option, none, some, List,
  [], ◌∷◌, ◌++◌, arith, eq_iff, eq_refl,
}
use hass_clips_manager.Prelude.Tables.{select_where, exists_where, length, is_nil}
use hass_clips_manager.Prelude.Dict.{lookup}
use hass_clips_manager.Integration.Const.{on_exhaustion, contains, has_duplicate}
use hass_clips_manager.Integration.Rounds.{
  LocalTime, HistoryRecord, HistoryStore, distinct, unplayed, Round, round_for,
}
use hass_clips_manager.Integration.Rounds.Played.{
  contains-append, contains-select_where, length-unplayed, has_duplicate-append,
  has_duplicate-distinct,
}
use hass_clips_manager.Integration.History.{Request, claim, claimed_record, save}
use hass_clips_manager.Integration.History.Claims.{round_in, claim_found}

abbrev pub played_of : Option HistoryRecord → List String
played_of none = []
played_of (some r) = r.played_clip_ids

abbrev pub number_of : Option HistoryRecord → ℕ
number_of none = 1
number_of (some r) = r.round_number

-- The clips `cs` are those of round `n` so far.
pub record InRound (q : Request) (n : ℕ) (cs : List String) (s : HistoryStore) : Type 0 where
  pub mode : s.reset_mode ≡ on_exhaustion
  pub number : number_of (lookup q.collection_id s.collections) ≡ n
  pub played : played_of (lookup q.collection_id s.collections) ≡ cs
  pub once : has_duplicate cs ≡ false
  pub eligible :
      (c : String) → contains cs c ≡ true → contains (distinct q.eligible_clip_ids) c ≡ true
  pub left :
      length (unplayed (distinct q.eligible_clip_ids) cs) + length cs
      ≡ length (distinct q.eligible_clip_ids)

pub select_where_all :
    (p : String → Bool) (xs : List String)
    → ((c : String) → contains xs c ≡ true → p c ≡ true)
    → select_where p xs ≡ xs
unfolding select_where exists_where
select_where_all p [] h = refl
select_where_all p (x ∷ xs) h =
    let rest = select_where_all p xs (λ c k. h c (ground arith)) in ground (arith, h x, eq_refl x)

pub length-append : (xs : List String) (c : String) → length (xs ++ c ∷ []) ≡ suc (length xs)
length-append [] c = refl
length-append (x ∷ xs) c = ground (arith, length-append xs c)

pub unplayed_nothing : (xs : List String) → unplayed xs [] ≡ xs
unfolding select_where exists_where
unplayed_nothing [] = refl
unplayed_nothing (x ∷ xs) = ap (λ ys. x ∷ ys) (unplayed_nothing xs)

pub length_nil : (xs : List String) → length xs ≡ 0 → xs ≡ []
length_nil [] h = refl
length_nil (x ∷ xs) h = absurd (omega arith)

pub is_nil-length : (xs : List String) → 0 < length xs → is_nil xs ≡ false
is_nil-length [] h = absurd (omega arith)
is_nil-length (x ∷ xs) h = refl

-- The round of a record, as the call works it out
round_played :
    (stored : Option HistoryRecord) (was_reset : Bool) (eligible cs : List String)
    → played_of stored ≡ cs
    → select_where (contains eligible) cs ≡ cs
    → is_nil (unplayed eligible cs) ≡ false
    → ((round_for stored was_reset eligible).played ≡ cs)
      × ((round_for stored was_reset eligible).remaining ≡ unplayed eligible cs)
      × ((round_for stored was_reset eligible).round_number ≡ number_of stored)
unfolding round_for select_where
round_played none was_reset eligible cs e f g = ground (arith, e, f, g)
round_played (some r) was_reset eligible cs e f g =
    let kept : select_where (contains eligible) r.played_clip_ids ≡ cs =
      ap (select_where (contains eligible)) e ∙ f in
    ground (arith, kept, ap (unplayed eligible) kept, g)

module _ (q : Request) (n : ℕ) (cs : List String) (s : HistoryStore) (inv : InRound q n cs s)
    (unfinished : length cs < length (distinct q.eligible_clip_ids)) where
  abbrev pub round_now : Round
  round_now = round_in q s

  pub round_lem :
      (round_now.played ≡ cs)
      × (round_now.remaining ≡ unplayed (distinct q.eligible_clip_ids) cs)
      × (round_now.round_number ≡ n)
  round_lem =
      let eligible = distinct q.eligible_clip_ids in
      let (a, b, c) =
        round_played (lookup q.collection_id s.collections) false eligible cs inv.played
          (select_where_all (contains eligible) cs inv.eligible)
          (is_nil-length (unplayed eligible cs) (let left = inv.left in omega arith)) in
      (a, b, c ∙ inv.number)

  remaining_lem :
      (c : String)
      → contains round_now.remaining c ≡ true
      → (contains (distinct q.eligible_clip_ids) c ≡ true) × (contains cs c ≡ false)
  remaining_lem c h =
      let eligible = distinct q.eligible_clip_ids in
      let k : contains (unplayed eligible cs) c ≡ true =
        subst (λ xs. contains xs c ≡ true) round_lem.1 h in
      let both = contains-select_where (λ x. not (contains cs x)) eligible c in
      (ground (arith, k, both), ground (arith, k, both))

  pub claim-InRound :
      (now : LocalTime) (c : String)
      → contains round_now.remaining c ≡ true
      → InRound q n
          (cs ++ c ∷ [])
          (save (claim q now (lookup q.collection_id s.collections) round_now c s))
  unfolding claim claimed_record exists_where
  claim-InRound now c h =
      let (known, fresh) = remaining_lem c h in
      let found = claim_found q now (lookup q.collection_id s.collections) round_now c s in
      record {
        mode = inv.mode;
        number = ap number_of found ∙ round_lem.2;
        played = ap played_of found ∙ (ap (λ xs. xs ++ c ∷ []) round_lem.0);
        once = has_duplicate-append cs c inv.once fresh;
        eligible = λ x k. ground (arith, contains-append cs (c ∷ []) x, inv.eligible x, eq_iff c x);
        left =
            let a = length-append cs c in
            let b = inv.left in
            let d =
              length-unplayed (distinct q.eligible_clip_ids) cs c
                (has_duplicate-distinct q.eligible_clip_ids) known fresh in
            omega arith;
      }

-- The round that follows one whose clips have all played
pub round_next :
    (stored : Option HistoryRecord) (was_reset : Bool) (eligible cs : List String)
    → played_of stored ≡ cs
    → select_where (contains eligible) cs ≡ cs
    → unplayed eligible cs ≡ []
    → is_nil eligible ≡ false
    → round_for stored was_reset eligible ≡ record {
      round_number = number_of stored + 1;
      history_reset = true;
      played = [];
      remaining = eligible;
    }
unfolding round_for select_where
round_next none was_reset eligible cs e f g k = ground (arith, e, ap (unplayed eligible) e, g, k)
round_next (some r) was_reset eligible cs e f g k =
    let kept : select_where (contains eligible) r.played_clip_ids ≡ cs =
      ap (select_where (contains eligible)) e ∙ f in
    ground (arith, kept, ap (unplayed eligible) kept, g, k)
