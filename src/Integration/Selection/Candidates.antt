-- ===== src/Integration/Selection/Candidates.antt =====
-- Which clips are offered to the history (selection.py).
use hass_clips_manager.Prelude.{
  ◌≡◌, refl, ap, ◌∙◌, ◌⊎◌, inl, inr, Bool, true, false, ◌&&◌, not, String, some, List, [], ◌∷◌,
  ◌++◌, ◌==◌, arith, eq_iff, Bool-cases, Option-cases, is_some,
}
use hass_clips_manager.Prelude.Tables.{select_where, exists_where, is_nil, Stored}
use hass_clips_manager.Prelude.Tables.Search.{Stored-select_where, select_where-Stored}
use hass_clips_manager.Prelude.Sorting.{sort_by, sort_by-Stored, Stored-sort_by}
use hass_clips_manager.Prelude.Dict.{Dict, lookup, insert, lookup-insert}
use hass_clips_manager.Integration.Const.{PlaybackMode, random, sequential, custom, contains}
use hass_clips_manager.Integration.Selection.{
  is_playable, is_ready, ready_or_playable, index_clips, listed, by_path, ordered_clips,
}
use hass_clips_manager.Integration.Availability.{ClipAvailability}

append-Stored :
    {A : Type 0} (x : A) (xs ys : List A) → Stored x (xs ++ ys) → Stored x xs ⊎ Stored x ys
append-Stored x [] ys h = inr h
append-Stored x (y ∷ xs) ys (inl e) = inl (inl e)
append-Stored x (y ∷ xs) ys (inr h) = elim (append-Stored x xs ys h) [
  | inl k ↦ inl (inr k)
  | inr k ↦ inr k
]

-- A candidate is one of the available clips, playable in the collection, and if any clip that is
-- playable there is ready, then it is ready.
pub ready_or_playable_lem :
    (collection_id : String) (available : List ClipAvailability) (c : ClipAvailability)
    → Stored c (ready_or_playable collection_id available)
    → Stored c available
      × (is_playable collection_id c ≡ true)
      × ((d : ClipAvailability)
          → Stored d available
          → is_playable collection_id d ≡ true
          → is_ready d ≡ true
          → is_ready c ≡ true)
unfolding ready_or_playable
ready_or_playable_lem collection_id available c h =
    let playable = select_where (is_playable collection_id) available in
    let ready = select_where is_ready playable in
    elim (Bool-cases (is_nil ready)) [
      | inl e ↦
          let k : Stored c playable = rw (e, ready_or_playable) at h in
          let (a, b) = select_where-Stored (is_playable collection_id) c available k in
          (
            a,
            b,
            λ d stored p r. absurd (
                nothing_in ready d e (
                  Stored-select_where is_ready d playable
                    (Stored-select_where (is_playable collection_id) d available stored p) r)),
          )
      | inr e ↦
          let k : Stored c ready = rw (e, ready_or_playable) at h in
          let (l, r) = select_where-Stored is_ready c playable k in
          let (a, b) = select_where-Stored (is_playable collection_id) c available l in
          (a, b, λ d _ _ _. r)
    ]
  where
    nothing_in : {A : Type 0} (xs : List A) (x : A) → is_nil xs ≡ true → Stored x xs → ⊥
    nothing_in [] x e h = h
    nothing_in (y ∷ ys) x e h = ground arith

lookup-index_clips :
    (id : String) (c : ClipAvailability) (cs : List ClipAvailability) (d : Dict ClipAvailability)
    → lookup id (index_clips cs d) ≡ some c
    → Stored c cs ⊎ (lookup id d ≡ some c)
unfolding index_clips
lookup-index_clips id c [] d h = inr h
lookup-index_clips id c (b ∷ cs) d h = elim (lookup-index_clips id c cs (insert b.id b d) h) [
  | inl k ↦ inl (inr k)
  | inr k ↦ elim (Bool-cases (b.id == id)) [
    | inl e ↦ inl (inl (ground (arith, k, e, lookup-insert b.id id b d)))
    | inr e ↦ inr (ground (arith, k, e, lookup-insert b.id id b d))
  ]
]

listed-Stored :
    (c : ClipAvailability) (ids : List String) (cs : List ClipAvailability)
    → Stored c (listed ids (index_clips cs []))
    → Stored c cs
unfolding listed lookup
listed-Stored c [] cs h = elim h [ ]
listed-Stored c (id ∷ ids) cs h = elim (Option-cases (lookup id (index_clips cs []))) [
  | inl e ↦ listed-Stored c ids cs (rw (e, listed) at h)
  | inr (b, e) ↦
      let k : Stored c (b ∷ listed ids (index_clips cs [])) = rw (e, listed) at h in
      elim k [
        | inl same ↦ elim (lookup-index_clips id c cs [] (e ∙ ap some same)) [
          | inl l ↦ l
          | inr n ↦ ground arith
        ]
        | inr l ↦ listed-Stored c ids cs l
      ]
]

pub ordered_clips-Stored :
    (casefold : String → String) (mode : PlaybackMode) (ids : List String) (c : ClipAvailability)
    (cs : List ClipAvailability)
    → Stored c (ordered_clips casefold mode ids cs)
    → Stored c cs
unfolding ordered_clips
ordered_clips-Stored casefold random ids c cs h = h
ordered_clips-Stored casefold sequential ids c cs h = sort_by-Stored (by_path casefold) c cs h
ordered_clips-Stored casefold custom ids c cs h =
    let in_order = sort_by (by_path casefold) cs in
    let rest = select_where (λ c. not (contains ids c.id)) in_order in
    sort_by-Stored (by_path casefold) c cs
      (elim (append-Stored c (listed ids (index_clips in_order [])) rest h) [
        | inl k ↦ listed-Stored c ids in_order k
        | inr k ↦ (select_where-Stored (λ c. not (contains ids c.id)) c in_order k).0
      ])

-- Nothing that could be offered is lost: a playable clip leaves something to offer.
index_clips-keeps :
    (id : String) (cs : List ClipAvailability) (d : Dict ClipAvailability)
    → is_some (lookup id d) ≡ true
    → is_some (lookup id (index_clips cs d)) ≡ true
unfolding index_clips
index_clips-keeps id [] d h = h
index_clips-keeps id (c ∷ cs) d h =
    index_clips-keeps id cs (insert c.id c d) (ground (arith, h, lookup-insert c.id id c d))

index_clips-Stored :
    (c : ClipAvailability) (cs : List ClipAvailability) (d : Dict ClipAvailability)
    → Stored c cs
    → is_some (lookup c.id (index_clips cs d)) ≡ true
unfolding index_clips
index_clips-Stored c [] d h = elim h [ ]
index_clips-Stored c (b ∷ cs) d (inl e) =
    index_clips-keeps c.id cs (insert b.id b d)
      (ground (arith, lookup-insert b.id c.id b d, eq_iff b.id c.id, ap (λ c. c.id) e))
index_clips-Stored c (b ∷ cs) d (inr h) = index_clips-Stored c cs (insert b.id b d) h

listed_some :
    (id : String) (ids : List String) (d : Dict ClipAvailability)
    → is_some (lookup id d) ≡ true
    → contains ids id ≡ true
    → is_nil (listed ids d) ≡ false
unfolding listed exists_where
listed_some id [] d h k = ground arith
listed_some id (i ∷ ids) d h k = elim (Bool-cases (i == id)) [
  | inl e ↦
      let found : is_some (lookup i d) ≡ true =
        ap (λ j. is_some (lookup j d)) ((eq_iff i id).0 e) ∙ h in
      ground (arith, found)
  | inr e ↦ ground (arith, h, k, e, listed_some id ids d)
]

is_nil-append : {A : Type 0} (xs ys : List A) → is_nil (xs ++ ys) ≡ (is_nil xs && is_nil ys)
is_nil-append [] ys = refl
is_nil-append (x ∷ xs) ys = refl

pub is_nil-Stored : {A : Type 0} (x : A) (xs : List A) → Stored x xs → is_nil xs ≡ false
is_nil-Stored x [] h = elim h [ ]
is_nil-Stored x (y ∷ ys) h = refl

pub ordered_clips_some :
    (casefold : String → String) (mode : PlaybackMode) (ids : List String) (c : ClipAvailability)
    (cs : List ClipAvailability)
    → Stored c cs
    → is_nil (ordered_clips casefold mode ids cs) ≡ false
unfolding ordered_clips
ordered_clips_some casefold random ids c cs h = is_nil-Stored c cs h
ordered_clips_some casefold sequential ids c cs h =
    is_nil-Stored c _ (Stored-sort_by (by_path casefold) c cs h)
ordered_clips_some casefold custom ids c cs h =
    let in_order = sort_by (by_path casefold) cs in
    let unlisted : ClipAvailability → Bool = λ c. not (contains ids c.id) in
    let there : Stored c in_order = Stored-sort_by (by_path casefold) c cs h in
    let both =
      is_nil-append (listed ids (index_clips in_order [])) (select_where unlisted in_order) in
    elim (Bool-cases (contains ids c.id)) [
      | inl e ↦ ground (
        arith,
        both,
        listed_some c.id ids (index_clips in_order []) (index_clips-Stored c in_order [] there) e,
      )
      | inr e ↦ ground (
        arith,
        both,
        is_nil-Stored c (select_where unlisted in_order)
            (Stored-select_where unlisted c in_order there (ap not e)),
      )
    ]
