-- ===== src/Integration/Tokens/Room.antt =====
-- A config entry with room for a token does what the store in memory does (scheduler.py).
use mathlib.Core.Path.{subst}
use hass_clips_manager.Prelude.{
  ◌≡◌, refl, sym, ap, ◌∙◌, ℕ, suc, ◌-◌, ◌≤◌, ◌<◌, Bool, true, String, List, [], ◌∷◌, arith,
}
use hass_clips_manager.Prelude.Tables.{drop, select_where, length, All}
use hass_clips_manager.Prelude.Dict.{Dict, lookup, insert, sorted_items, insert_item}
use hass_clips_manager.Prelude.Dict.Sorted.{IsDict, lookup-sorted_items, insert-IsDict}
use hass_clips_manager.Integration.Tokens.{
  is_state, in_memory, prune_token_states, mapped, states_of, in_entry, begin_in, Options,
}
use hass_clips_manager.Integration.Tokens.Pruned.{length-sorted_items}

-- The states that a config entry keeps agree with some states, token by token.
abbrev pub Agrees : Dict String → Options → Type 0
Agrees d o = (u : String) → lookup u (states_of o) ≡ lookup u d

drop_none : {A : Type 0} (n : ℕ) (xs : List A) → n ≡ 0 → drop n xs ≡ xs
drop_none n xs e = ap (λ n. drop n xs) e

valid_lem :
    (p : String × String → Bool) (d : Dict String) → All (λ e. p e ≡ true) d → select_where p d ≡ d
unfolding select_where
valid_lem p [] h = refl
valid_lem p (e ∷ d) h = ground (arith, h.0, valid_lem p d h.1)

abbrev valid : String × String → Bool
valid e = is_state e.1

insert_item-valid :
    (e : String × String) (d : Dict String)
    → valid e ≡ true
    → All (λ e. valid e ≡ true) d
    → All (λ e. valid e ≡ true) (insert_item e d)
unfolding insert_item
insert_item-valid (k, v) [] h a = (h, tt)
insert_item-valid (k, v) ((j, w) ∷ d) h a = ground (arith, insert_item-valid (k, v) d, h, a)

sorted_items-valid :
    (d : Dict String) → All (λ e. valid e ≡ true) d → All (λ e. valid e ≡ true) (sorted_items d)
unfolding sorted_items
sorted_items-valid [] a = tt
sorted_items-valid (e ∷ d) a = insert_item-valid e (sorted_items d) a.0 (sorted_items-valid d a.1)

insert-valid :
    (k v : String) (d : Dict String)
    → is_state v ≡ true
    → All (λ e. valid e ≡ true) d
    → All (λ e. valid e ≡ true) (insert k v d)
unfolding insert
insert-valid k v [] h a = (h, tt)
insert-valid k v ((j, w) ∷ d) h a = ground (arith, insert-valid k v d, h, a)

length-insert : (k v : String) (d : Dict String) → length (insert k v d) ≤ suc (length d)
unfolding insert
length-insert k v [] = omega arith
length-insert k v ((j, w) ∷ d) = ground (arith, length-insert k v d)

persisted :
    (limit : ℕ) (k v : String) (d : Dict String)
    → IsDict d
    → All (λ e. valid e ≡ true) d
    → length d < limit
    → is_state v ≡ true
    → Agrees (insert k v d) (mapped (prune_token_states limit (insert k v d)))
unfolding states_of prune_token_states
persisted limit k v d u a room h t =
    let new = insert k v d in
    let whole : drop (length (sorted_items new) - limit) (sorted_items new) ≡ sorted_items new =
      drop_none _ (sorted_items new)
        (let n = length-sorted_items new in let m = length-insert k v d in omega arith) in
    ap (λ xs. lookup t (select_where valid xs)) whole
    ∙ (ap (lookup t)
          (valid_lem valid (sorted_items new) (sorted_items-valid new (insert-valid k v d h a)))
        ∙ lookup-sorted_items new t (insert-IsDict k v d u))

-- While a config entry holds fewer tokens than its limit, each of its operations answers as the store
-- in memory does, and keeps the states that it keeps.
pub entry_keeps :
    (limit : ℕ) (t : String) (d : Dict String)
    → IsDict d
    → All (λ e. is_state e.1 ≡ true) d
    → length d < limit
    → (((in_entry limit).begin t (mapped d)).0 ≡ (in_memory.begin t d).0)
      × Agrees (in_memory.begin t d).1 ((in_entry limit).begin t (mapped d)).1
      × Agrees (in_memory.succeed t d) ((in_entry limit).succeed t (mapped d))
      × Agrees (in_memory.fail t d) ((in_entry limit).fail t (mapped d))
unfolding in_entry begin_in states_of
entry_keeps limit t d u a room =
    let whole = valid_lem valid d a in
    let put : (v : String)
        → is_state v ≡ true
        → Agrees (insert t v d)
            (mapped (prune_token_states limit (insert t v (select_where valid d)))) =
      λ v h.
        subst (λ x. Agrees (insert t v d) (mapped (prune_token_states limit (insert t v x))))
          (sym whole) (persisted limit t v d u a room h) in
    (
      ground (arith, ap (lookup t) whole),
      λ x. ground (arith, ap (lookup t) whole, ap (lookup x) whole, put "pending" refl x),
      put "succeeded" refl,
      put "failed" refl,
    )
