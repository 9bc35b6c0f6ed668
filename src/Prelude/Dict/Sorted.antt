-- ===== src/Prelude/Dict/Sorted.antt =====
-- The items of a dict, sorted, are those of the dict.
use hass_clips_manager.Prelude.{
  ◌≡◌, refl, ap, ◌∙◌, Bool, false, String, Option, none, some, [], ◌∷◌, if◌then◌else◌, ◌==◌, arith,
  eq_iff, Bool-cases, inl, inr, is_some,
}
use hass_clips_manager.Prelude.Tables.{select_where, exists_where}
use hass_clips_manager.Prelude.Dict.{
  Dict, lookup, insert, lookup-insert, insert_item, sorted_items, keys,
}

-- No key occurs twice.
abbrev pub IsDict {ℓ} : {V : Type ℓ} → Dict V → Type ℓ
IsDict [] = Unit
IsDict ((k, v) ∷ d) = (lookup k d ≡ none) × IsDict d

module _ {V : Type 0} where
  lookup-insert_item :
      (k j : String) (v : V) (d : Dict V)
      → lookup k d ≡ none
      → lookup j (insert_item (k, v) d) ≡ (if k == j then some v else lookup j d)
  unfolding lookup insert_item
  lookup-insert_item k j v [] h = refl
  lookup-insert_item k j v ((i, w) ∷ d) h =
      ground (arith, eq_iff k j, eq_iff i k, eq_iff i j, lookup-insert_item k j v d)

  insert_item-IsDict :
      (k : String) (v : V) (d : Dict V)
      → lookup k d ≡ none
      → IsDict d
      → IsDict (insert_item (k, v) d)
  unfolding lookup insert_item
  insert_item-IsDict k v [] h u = (refl, tt)
  insert_item-IsDict k v ((i, w) ∷ d) h u =
      ground (arith, eq_iff i k, eq_iff k i, insert_item-IsDict k v d, lookup-insert_item k i v d)

  -- The parts of a lookup in sorted items, and that the keys differ there too
  sorted_items_lem :
      (d : Dict V)
      → IsDict d
      → IsDict (sorted_items d) × ((j : String) → lookup j (sorted_items d) ≡ lookup j d)
  unfolding lookup sorted_items
  sorted_items_lem [] u = (tt, λ j. refl)
  sorted_items_lem ((k, v) ∷ d) u =
      let (rest, same) = sorted_items_lem d u.1 in
      let fresh : lookup k (sorted_items d) ≡ none = same k ∙ u.0 in
      (
        insert_item-IsDict k v (sorted_items d) fresh rest,
        λ j. lookup-insert_item k j v (sorted_items d) fresh ∙ ground (arith, same j),
      )

  pub sorted_items-IsDict : (d : Dict V) → IsDict d → IsDict (sorted_items d)
  sorted_items-IsDict d u = (sorted_items_lem d u).0

  pub lookup-sorted_items :
      (d : Dict V) (j : String) → IsDict d → lookup j (sorted_items d) ≡ lookup j d
  lookup-sorted_items d j u = (sorted_items_lem d u).1 j

  -- `j in d`, of the items that pass a test
  abbrev pub passes : (String × V → Bool) → String → Option V → Bool
  passes p j none = false
  passes p j (some v) = p (j, v)

  pub keys-select_where :
      (p : String × V → Bool) (d : Dict V) (j : String)
      → IsDict d
      → exists_where (λ k. k == j) (keys (select_where p d)) ≡ passes p j (lookup j d)
  unfolding lookup select_where exists_where
  keys-select_where p [] j u = refl
  keys-select_where p ((k, v) ∷ d) j u = elim (Bool-cases (k == j)) [
    | inl e ↦
        let same : k ≡ j = (eq_iff k j).0 e in
        ground (
          arith,
          e,
          keys-select_where p d j u.1,
          u.0,
          ap (λ k. p (k, v)) same,
          ap (λ k. lookup k d) same,
        )
    | inr e ↦ ground (arith, e, keys-select_where p d j u.1)
  ]

  pub select_where_none :
      (p : String × V → Bool) (d : Dict V) (j : String)
      → lookup j d ≡ none
      → lookup j (select_where p d) ≡ none
  unfolding lookup select_where
  select_where_none p [] j h = refl
  select_where_none p ((k, v) ∷ d) j h = ground (arith, select_where_none p d j)

  pub select_where-IsDict :
      (p : String × V → Bool) (d : Dict V) → IsDict d → IsDict (select_where p d)
  unfolding select_where
  select_where-IsDict p [] u = tt
  select_where-IsDict p ((k, v) ∷ d) u =
      let rest = select_where-IsDict p d u.1 in
      let fresh = select_where_none p d k u.0 in
      elim (Bool-cases (p (k, v))) [ inl e ↦ rw e (fresh, rest) | inr e ↦ rw e rest ]

  -- `j in d`
  pub exists_where-keys :
      (d : Dict V) (j : String) → exists_where (λ k. k == j) (keys d) ≡ is_some (lookup j d)
  unfolding lookup exists_where
  exists_where-keys [] j = refl
  exists_where-keys ((k, v) ∷ d) j = ground (arith, exists_where-keys d j)

  pub insert-IsDict : (k : String) (v : V) (d : Dict V) → IsDict d → IsDict (insert k v d)
  unfolding lookup insert
  insert-IsDict k v [] u = (refl, tt)
  insert-IsDict k v ((i, w) ∷ d) u =
      ground (arith, eq_iff i k, eq_iff k i, insert-IsDict k v d, lookup-insert k i v d)
