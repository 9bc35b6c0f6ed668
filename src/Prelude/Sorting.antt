-- ===== src/Prelude/Sorting.antt =====
-- `sorted(…, key=…)`, by a test that says when a key is less than another
use mathlib.Core.Path.{◌≡◌}
use mathlib.Core.Logic.{◌⊎◌, inl, inr}
use mathlib.Core.Bool.{Bool}
use mathlib.Core.List.{List, [], ◌∷◌}
use hass_clips_manager.Prelude.Tests.{if◌then◌else◌, Bool-cases}
use hass_clips_manager.Prelude.Tables.{Stored}

module _ {A : Type 0} (less : A → A → Bool) where
  unfoldable pub insert_by : A → List A → List A
  insert_by x [] = x ∷ []
  insert_by x (y ∷ ys) = let rest = insert_by x ys in if less y x then y ∷ rest else x ∷ y ∷ ys

  -- Items that compare equal keep their order.
  unfoldable pub sort_by : List A → List A
  unfolding insert_by
  sort_by [] = []
  sort_by (x ∷ xs) = insert_by x (sort_by xs)

  Stored-insert_by : (x y : A) (ys : List A) → (y ≡ x) ⊎ Stored x ys → Stored x (insert_by y ys)
  unfolding insert_by
  Stored-insert_by x y [] h = h
  Stored-insert_by x y (z ∷ zs) h = elim (Bool-cases (less z y)) [
    | inl e ↦
        rw (e, insert_by)
          (elim h [
            | inl k ↦ inr (Stored-insert_by x y zs (inl k))
            | inr k ↦ elim k [ inl k ↦ inl k | inr k ↦ inr (Stored-insert_by x y zs (inr k)) ]
          ])
    | inr e ↦ rw (e, insert_by) h
  ]

  pub Stored-sort_by : (x : A) (xs : List A) → Stored x xs → Stored x (sort_by xs)
  unfolding sort_by
  Stored-sort_by x [] h = elim h [ ]
  Stored-sort_by x (y ∷ ys) (inl e) = Stored-insert_by x y (sort_by ys) (inl e)
  Stored-sort_by x (y ∷ ys) (inr h) =
      Stored-insert_by x y (sort_by ys) (inr (Stored-sort_by x ys h))

  insert_by-Stored : (x y : A) (ys : List A) → Stored x (insert_by y ys) → (y ≡ x) ⊎ Stored x ys
  unfolding insert_by
  insert_by-Stored x y [] h = h
  insert_by-Stored x y (z ∷ zs) h = elim (Bool-cases (less z y)) [
    | inl e ↦
        let k : Stored x (z ∷ insert_by y zs) = rw (e, insert_by) at h in
        elim k [
          | inl k ↦ inr (inl k)
          | inr k ↦ elim (insert_by-Stored x y zs k) [ inl k ↦ inl k | inr k ↦ inr (inr k) ]
        ]
    | inr e ↦ rw (e, insert_by) at h
  ]

  pub sort_by-Stored : (x : A) (xs : List A) → Stored x (sort_by xs) → Stored x xs
  unfolding sort_by
  sort_by-Stored x [] h = h
  sort_by-Stored x (y ∷ ys) h = elim (insert_by-Stored x y (sort_by ys) h) [
    | inl k ↦ inl k
    | inr k ↦ inr (sort_by-Stored x ys k)
  ]
