-- ===== src/Integration/Selection/Total.antt =====
-- A call of `SelectionService.async_select` finds a clip whenever there is one (selection.py).
use hass_clips_manager.Prelude.{
  ◌≡◌, refl, sym, ap, ◌∙◌, inl, inr, Bool, true, false, not, String, some, List, [], ◌∷◌, map, ◌==◌,
  arith, Bool-cases, Option-cases, is_some,
}
use hass_clips_manager.Prelude.Tables.{select_where, exists_where, find_where, is_nil, Stored}
use hass_clips_manager.Prelude.Tables.Search.{
  Stored-select_where, find_where-Stored, exists_where-Stored,
}
use hass_clips_manager.Prelude.Text.{is_empty}
use hass_clips_manager.Prelude.Results.{ok, Result-cases}
use hass_clips_manager.Integration.Const.{contains}
use hass_clips_manager.Integration.Rounds.{LocalTime, HistoryStore, HistorySelection, distinct}
use hass_clips_manager.Integration.Rounds.Played.{contains-select_where}
use hass_clips_manager.Integration.History.Answers.{select_total, select_eligible}
use hass_clips_manager.Integration.Selection.{
  is_playable, ready_or_playable, candidates_for, history_request, response_for, select_clip,
  select_in, answered,
}
use hass_clips_manager.Integration.Availability.{ClipAvailability, SelectRequest, SelectResponse}
use hass_clips_manager.Integration.Selection.Candidates.{
  ready_or_playable_lem, ordered_clips-Stored, ordered_clips_some, is_nil-Stored,
}
use hass_clips_manager.Integration.Selection.Answers.{in_collection}

exists-cases :
    {A : Type 0} (p : A → Bool) (xs : List A)
    → exists_where p xs ≡ true
    → (x : A) × Stored x xs × (p x ≡ true)
unfolding exists_where
exists-cases p [] h = absurd (ground arith)
exists-cases p (x ∷ xs) h = elim (Bool-cases (p x)) [
  | inl e ↦ (x, inl refl, e)
  | inr e ↦ let (y, s, k) = exists-cases p xs (ground arith) in (y, inr s, k)
]

head-Stored : {A : Type 0} (xs : List A) → is_nil xs ≡ false → (x : A) × Stored x xs
head-Stored [] h = absurd (ground arith)
head-Stored (x ∷ xs) h = (x, inl refl)

distinct_head :
    (x : String) (xs : List String) → is_empty x ≡ false → is_nil (distinct (x ∷ xs)) ≡ false
unfolding distinct
distinct_head x xs h = ground (arith, h)

contains-distinct :
    (xs : List String) (c : String) → contains (distinct xs) c ≡ true → contains xs c ≡ true
unfolding distinct exists_where
contains-distinct [] c h = h
contains-distinct (x ∷ xs) c h =
    ground
      (arith, h, contains-distinct xs c, contains-select_where (λ y. not (y == x)) (distinct xs) c)

find_id :
    (cs : List ClipAvailability) (id : String)
    → contains (map (λ c. c.id) cs) id ≡ true
    → is_some (find_where (λ c. c.id == id) cs) ≡ true
unfolding find_where exists_where
find_id [] id h = h
find_id (c ∷ cs) id h = ground (arith, h, find_id cs id)

ids_nil :
    (cs : List ClipAvailability)
    → ((c : ClipAvailability) → Stored c cs → is_empty c.id ≡ false)
    → is_nil (distinct (map (λ c. c.id) cs)) ≡ is_nil cs
unfolding distinct
ids_nil [] h = refl
ids_nil (c ∷ cs) h = distinct_head c.id (map (λ c. c.id) cs) (h c (inl refl))

-- Clips are offered exactly when one is playable.
offered_lem :
    (casefold : String → String) (collection_id : String) (q : SelectRequest)
    (available : List ClipAvailability)
    → is_nil (candidates_for casefold collection_id q available)
      ≡ not (exists_where (is_playable collection_id) available)
unfolding candidates_for ready_or_playable
offered_lem casefold collection_id q available =
    let offered = ready_or_playable collection_id available in
    let candidates = candidates_for casefold collection_id q available in
    elim (Bool-cases (exists_where (is_playable collection_id) available)) [
      | inl e ↦
          let (d, stored, playable) = exists-cases (is_playable collection_id) available e in
          let there = Stored-select_where (is_playable collection_id) d available stored playable in
          let some_offered : is_nil offered ≡ false =
            ground
              (arith, is_nil-Stored d (select_where (is_playable collection_id) available) there) in
          let (c, s) = head-Stored offered some_offered in
          ordered_clips_some casefold q.playback_mode q.ordered_clip_ids c offered s
          ∙ sym (ap not e)
      | inr e ↦ elim (Bool-cases (is_nil candidates)) [
        | inl n ↦ n ∙ sym (ap not e)
        | inr n ↦
            let (c, s) = head-Stored candidates n in
            let (stored, playable, _) =
              ready_or_playable_lem collection_id available c
                (ordered_clips-Stored casefold q.playback_mode q.ordered_clip_ids c offered s) in
            absurd (
              ground (
                arith,
                e,
                exists_where-Stored (is_playable collection_id) c available stored playable,
              ))
      ]
    ]

playable_has_path :
    (collection_id : String) (c : ClipAvailability)
    → is_playable collection_id c ≡ true
    → (path : String) × (c.relative_output_path ≡ some path)
unfolding is_playable
playable_has_path collection_id c h = elim (Option-cases c.relative_output_path) [
  | inl e ↦ absurd (ground (arith, h, e))
  | inr (path, e) ↦ (path, e)
]

module _ (casefold media_uri_builder : String → String) where
  any_id :
      (available : List ClipAvailability) (collection_id : String) (q : SelectRequest)
      → ((c : ClipAvailability) → Stored c available → is_empty c.id ≡ false)
      → not
          (is_nil (distinct (map (λ c. c.id) (candidates_for casefold collection_id q available))))
        ≡ exists_where (is_playable collection_id) available
  unfolding distinct candidates_for
  any_id available collection_id q ids =
      let candidates = candidates_for casefold collection_id q available in
      let offered = offered_lem casefold collection_id q available in
      let known : (c : ClipAvailability) → Stored c candidates → is_empty c.id ≡ false = λ c s.
        ids c
          (ready_or_playable_lem collection_id available c (
            ordered_clips-Stored casefold q.playback_mode q.ordered_clip_ids c
              (ready_or_playable collection_id available) s)).0 in
      ap not (ids_nil candidates known ∙ offered) ∙ ground arith

  -- With its clip among the candidates, a selection has a response.
  response_total :
      (collection_id : String) (q : SelectRequest) (available : List ClipAvailability)
      (h : HistorySelection)
      → ((id : String)
          → h.clip_id ≡ some id
          → contains (map (λ c. c.id) (candidates_for casefold collection_id q available)) id
            ≡ true)
      → (r : SelectResponse) × (response_for casefold media_uri_builder collection_id
            (candidates_for casefold collection_id q available)
            h
          ≡ ok r)
        × (is_some r.clip_id ≡ is_some h.clip_id)
  unfolding response_for candidates_for
  response_total collection_id q available h known =
      let candidates = candidates_for casefold collection_id q available in
      let response = response_for casefold media_uri_builder collection_id candidates h in
      elim (Option-cases h.clip_id) [
        | inl n ↦ elim (Result-cases response) [
          | inl (r, e) ↦ (r, e, ground (arith, e, n))
          | inr (x, e) ↦ absurd (ground (arith, e, n))
        ]
        | inr (i, n) ↦
            let there = find_id candidates i (known i n) in
            elim (Option-cases (find_where (λ c. c.id == i) candidates)) [
              | inl f ↦ absurd (ground (arith, there, f))
              | inr (c, f) ↦
                  let stored = find_where-Stored (λ c. c.id == i) c candidates f in
                  let (_, playable, _) = ready_or_playable_lem collection_id available c (
                    ordered_clips-Stored casefold q.playback_mode q.ordered_clip_ids c
                      (ready_or_playable collection_id available) stored) in
                  let (path, p) = playable_has_path collection_id c playable in
                  elim (Result-cases response) [
                    | inl (r, e) ↦ (r, e, ground (arith, e, n, f, p))
                    | inr (x, e) ↦ absurd (ground (arith, e, n, f, p))
                  ]
            ]
      ]

  -- With a chooser that chooses among what it is given, and clips with ids, a call for a collection
  -- never raises, and it answers with a clip exactly when a clip is playable in the collection.
  pub selection_total :
      (chooser : List String → String) (now : LocalTime) (q : SelectRequest)
      (available : List ClipAvailability) (s : HistoryStore) (collection_id : String)
      → q.collection_id ≡ some collection_id
      → ((c : ClipAvailability) → Stored c available → is_empty c.id ≡ false)
      → ((x : String) (rest : List String) → contains (x ∷ rest) (chooser (x ∷ rest)) ≡ true)
      → (r : SelectResponse) × ((select_clip casefold media_uri_builder chooser now q available s).0
          ≡ ok r)
        × (is_some r.clip_id ≡ exists_where (is_playable collection_id) available)
  unfolding select_in history_request
  selection_total chooser now q available s collection_id e ids honest =
      let candidates = candidates_for casefold collection_id q available in
      let request = history_request casefold collection_id q candidates in
      let (h, f, some_clip) = select_total request chooser now s honest in
      let known : (id : String)
          → h.clip_id ≡ some id
          → contains (map (λ c. c.id) candidates) id ≡ true =
        λ id k.
          contains-distinct (map (λ c. c.id) candidates) id
            (select_eligible request chooser now id h s f k) in
      let (r, g, same) = response_total collection_id q available h known in
      let any : not (is_nil (distinct (map (λ c. c.id) candidates)))
          ≡ exists_where (is_playable collection_id) available =
        any_id available collection_id q ids in
      (
        r,
        ap (λ x. x.0)
              (in_collection casefold media_uri_builder chooser now q available s collection_id e)
            ∙ (ap (answered casefold media_uri_builder collection_id candidates) f ∙ g),
        same ∙ (some_clip ∙ any),
      )
