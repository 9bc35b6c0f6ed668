-- ===== src/Integration/Selection/Answers.antt =====
-- What a call of `SelectionService.async_select` answers (selection.py).
use hass_clips_manager.Prelude.{
  ◌≡◌, false, sym, ap, ◌∙◌, inl, inr, true, not, String, some, List, ◌==◌, arith, eq_iff,
  Option-cases,
}
use mathlib.Core.Option
use hass_clips_manager.Prelude.Tables.{find_where, Stored}
use hass_clips_manager.Prelude.Tables.Search.{find_where-Stored}
use hass_clips_manager.Prelude.Results.{ok, Result-cases}
use hass_clips_manager.Integration.Rounds.{LocalTime, HistoryStore, HistorySelection}
use hass_clips_manager.Integration.History.{select}
use hass_clips_manager.Integration.Selection.{
  is_playable, has_output, is_ready, ready_or_playable, candidates_for, history_request,
  response_for, select_clip, select_in, answered,
}
use hass_clips_manager.Integration.Availability.{ClipAvailability, SelectRequest, SelectResponse}
use hass_clips_manager.Integration.Selection.Candidates.{
  ready_or_playable_lem, ordered_clips-Stored,
}

playable_parts :
    (collection_id : String) (c : ClipAvailability)
    → is_playable collection_id c ≡ true
    → (c.collection_id ≡ collection_id)
      × (c.output_available ≡ true)
      × (has_output c ≡ true)
      × ((c.state == "deleted") ≡ false)
unfolding is_playable
playable_parts collection_id c h = (
  (eq_iff c.collection_id collection_id).0 (ground (arith, h)),
  ground (arith, h),
  ground (arith, h),
  ground (arith, h),
)

-- The response describes a clip.
pub record Describes (media_uri_builder : String → String) (available : List ClipAvailability)
    (collection_id id : String) (r : SelectResponse) (c : ClipAvailability) : Type 0 where
  pub same_id : c.id ≡ id
  pub stored : Stored c available
  pub in_collection : c.collection_id ≡ collection_id
  pub is_available : c.output_available ≡ true
  pub has_path : has_output c ≡ true
  pub not_deleted : (c.state == "deleted") ≡ false
  pub path : r.relative_output_path ≡ c.relative_output_path
  pub uri : r.media_uri ≡ Option.map media_uri_builder c.relative_output_path
  pub stale : r.output_is_stale ≡ not (is_ready c)
  pub prefers_ready :
      (d : ClipAvailability)
      → Stored d available
      → is_playable collection_id d ≡ true
      → is_ready d ≡ true
      → is_ready c ≡ true

module _ (casefold media_uri_builder : String → String) where
  -- A response that has a clip describes one of the candidates.
  response_cases :
      (collection_id : String) (candidates : List ClipAvailability) (h : HistorySelection)
      (r : SelectResponse) (id : String)
      → response_for casefold media_uri_builder collection_id candidates h ≡ ok r
      → r.clip_id ≡ some id
      → (c : ClipAvailability) × Stored c candidates
        × (c.id ≡ id)
        × (r.relative_output_path ≡ c.relative_output_path)
        × (r.media_uri ≡ Option.map media_uri_builder c.relative_output_path)
        × (r.output_is_stale ≡ not (is_ready c))
  unfolding response_for
  response_cases collection_id candidates h r id e k = elim (Option-cases h.clip_id) [
    | inl n ↦ absurd (ground (arith, e, n, k))
    | inr (i, n) ↦ elim (Option-cases (find_where (λ c. c.id == i) candidates)) [
      | inl f ↦ absurd (ground (arith, e, n, f))
      | inr (c, f) ↦ elim (Option-cases c.relative_output_path) [
        | inl p ↦ absurd (ground (arith, e, n, f, p))
        | inr (path, p) ↦ (
          c,
          find_where-Stored (λ c. c.id == i) c candidates f,
          ground (arith, e, n, f, p, k),
          ground (arith, e, n, f, p),
          ground (arith, e, n, f, p),
          ground (arith, e, n, f, p),
        )
      ]
    ]
  ]

  pub in_collection :
      (chooser : List String → String) (now : LocalTime) (q : SelectRequest)
      (available : List ClipAvailability) (s : HistoryStore) (collection_id : String)
      → q.collection_id ≡ some collection_id
      → select_clip casefold media_uri_builder chooser now q available s
        ≡ select_in casefold media_uri_builder chooser now collection_id q available s
  unfolding select_clip
  in_collection chooser now q available s collection_id e = ground (arith, e)

  -- A clip that a call chooses, dry run or not, is one that the Worker lists, of the collection that was
  -- asked for, with compiled output and not deleted; the response has its path and URI and says whether
  -- it is stale, and it is stale only if no playable clip of the collection is ready.
  pub chosen_described :
      (chooser : List String → String) (now : LocalTime) (q : SelectRequest)
      (available : List ClipAvailability) (s : HistoryStore) (collection_id : String)
      (r : SelectResponse) (id : String)
      → q.collection_id ≡ some collection_id
      → (select_clip casefold media_uri_builder chooser now q available s).0 ≡ ok r
      → r.clip_id ≡ some id
      → (c : ClipAvailability) × Describes media_uri_builder available collection_id id r c
  unfolding select_in candidates_for
  chosen_described chooser now q available s collection_id r id e k l =
      let candidates = candidates_for casefold collection_id q available in
      let answer =
        sym (ap (λ x. x.0) (in_collection chooser now q available s collection_id e)) ∙ k in
      elim (Result-cases
        (select (history_request casefold collection_id q candidates) chooser now s).0) [
          | inl (h, f) ↦
              let (c, stored, same, path, uri, stale) =
                response_cases collection_id candidates h r id
                  (sym (ap (answered casefold media_uri_builder collection_id candidates) f)
                    ∙ answer)
                  l in
              let offered =
                ordered_clips-Stored casefold q.playback_mode q.ordered_clip_ids c
                  (ready_or_playable collection_id available) stored in
              let (listed, playable, ready) =
                ready_or_playable_lem collection_id available c offered in
              let parts = playable_parts collection_id c playable in
              (
                c,
                record {
                  same_id = same;
                  stored = listed;
                  in_collection = parts.0;
                  is_available = parts.1;
                  has_path = parts.2;
                  not_deleted = parts.3;
                  path = path;
                  uri = uri;
                  stale = stale;
                  prefers_ready = ready;
                },
              )
          | inr (x, f) ↦ absurd (
              ground (
                arith,
                sym (ap (answered casefold media_uri_builder collection_id candidates) f) ∙ answer,
              ))
        ]
