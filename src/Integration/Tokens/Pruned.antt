-- ===== src/Integration/Tokens/Pruned.antt =====
-- What the bound on a config entry's tokens keeps (scheduler.py).
use hass_clips_manager.Prelude.{
  ◌≡◌, refl, ap, ◌∙◌, ℕ, suc, ◌-◌, true, false, not, String, none, [], ◌∷◌, ◌==◌, arith, eq_iff,
}
use hass_clips_manager.Prelude.Order.{str_lt, str_lt_asymm}
use hass_clips_manager.Prelude.Tables.{drop, length, All}
use hass_clips_manager.Prelude.Dict.{Dict, lookup, insert, sorted_items, insert_item}
use hass_clips_manager.Prelude.Dict.Sorted.{IsDict, lookup-sorted_items, select_where_none}
use hass_clips_manager.Integration.Tokens.{
  is_success, is_state, prune_token_states, mapped, states_of, in_entry, Options,
}

module _ {V : Type 0} where
  length-insert_item : (e : String × V) (d : Dict V) → length (insert_item e d) ≡ suc (length d)
  unfolding insert_item
  length-insert_item (k, v) [] = refl
  length-insert_item (k, v) ((j, w) ∷ d) = ground (arith, length-insert_item (k, v) d)

  pub length-sorted_items : (d : Dict V) → length (sorted_items d) ≡ length d
  unfolding sorted_items
  length-sorted_items [] = refl
  length-sorted_items (e ∷ d) =
      length-insert_item e (sorted_items d) ∙ ap (λ n. suc n) (length-sorted_items d)

  -- A key before all others comes first.
  sorted_items-insert :
      (k : String) (v : V) (d : Dict V)
      → All (λ e. str_lt k e.0 ≡ true) d
      → sorted_items (insert k v d) ≡ (k, v) ∷ sorted_items d
  unfolding sorted_items insert insert_item
  sorted_items-insert k v [] h = refl
  sorted_items-insert k v ((j, w) ∷ d) h =
      let later = str_lt_asymm k j h.0 in
      let differs : (j == k) ≡ false = ground (arith, eq_iff j k, h.0, later) in
      let rest = sorted_items-insert k v d h.1 in rw (differs, rest, later) refl

least_is_new : (t : String) (d : Dict String) → All (λ e. str_lt t e.0 ≡ true) d → lookup t d ≡ none
unfolding lookup
least_is_new t [] h = refl
least_is_new t ((j, w) ∷ d) h =
    ground (arith, h.0, str_lt_asymm t j h.0, eq_iff j t, least_is_new t d h.1)

pruned_insert :
    (t v : String) (d : Dict String)
    → All (λ e. str_lt t e.0 ≡ true) d
    → prune_token_states (length d) (insert t v d) ≡ sorted_items d
unfolding prune_token_states
pruned_insert t v d h =
    let one : length ((t, v) ∷ sorted_items d) - length d ≡ 1 =
      (let n = length-sorted_items d in omega arith) in
    ap (λ xs. drop (length xs - length d) xs) (sorted_items-insert t v d h)
    ∙ ap (λ n. drop n ((t, v) ∷ sorted_items d)) one

pub begins :
    (limit : ℕ) (t : String) (o : Options)
    → ((in_entry limit).begin t o).0 ≡ not (is_success (lookup t (states_of o)))
unfolding in_entry
begins limit t o = ground arith

-- With as many tokens recorded as the limit allows, and a token whose text comes before them all, the
-- occurrence is forgotten as soon as it has succeeded: it can be begun again at once.
pub succeeded_is_pruned :
    (t : String) (d : Dict String)
    → IsDict d
    → states_of (mapped d) ≡ d
    → All (λ e. str_lt t e.0 ≡ true) d
    → ((in_entry (length d)).begin t ((in_entry (length d)).succeed t (mapped d))).0 ≡ true
unfolding in_entry states_of
succeeded_is_pruned t d u valid h =
    let after : (in_entry (length d)).succeed t (mapped d) ≡ mapped (sorted_items d) =
      ap (λ x. mapped (prune_token_states (length d) (insert t "succeeded" x))) valid
      ∙ ap mapped (pruned_insert t "succeeded" d h) in
    let gone : lookup t (states_of (mapped (sorted_items d))) ≡ none =
      select_where_none (λ e. is_state e.1) (sorted_items d) t
        (lookup-sorted_items d t u ∙ least_is_new t d h) in
    begins (length d) t ((in_entry (length d)).succeed t (mapped d))
    ∙ (ap (λ o. not (is_success (lookup t (states_of o)))) after
        ∙ ap (λ x. not (is_success x)) gone)
