-- ===== src/Prelude/Tables/Counts.antt =====
-- Counting rows: how the number of rows that pass a test moves with the table.
use Prim.Native.Nat.{◌+◌, ◌≤◌, ◌<◌}
use mathlib.Core.Path.{◌≡◌, refl, subst, subst⁻¹}
use mathlib.Core.Logic.{inl, inr}
use mathlib.Core.Bool.{Bool, true, false, ◌||◌}
use mathlib.Core.Option.{none, some}
use mathlib.Core.List.{List, [], ◌∷◌, ◌++◌}
use native.Mathlib.Omega.{arith}
use hass_clips_manager.Prelude.Tests.{if◌then◌else◌, Bool-cases}
use hass_clips_manager.Prelude.Tables.{find_where, exists_where, update_where, count_where, All}

module _ {ℓ} {A : Type ℓ} where
  pub find_where-eq_some :
      (p : A → Bool) (xs : List A) (a : A) → find_where p xs ≡ some a → p a ≡ true
  unfolding find_where
  find_where-eq_some p [] a h = ground arith
  find_where-eq_some p (x ∷ xs) a h = ground (arith, find_where-eq_some p xs a)

  pub find_where-count :
      (p : A → Bool) (xs : List A) (a : A) → find_where p xs ≡ some a → 0 < count_where p xs
  unfolding find_where count_where
  find_where-count p [] a h = ground arith
  find_where-count p (x ∷ xs) a h = ground (arith, find_where-count p xs a)

  pub find_where-count_zero :
      (p : A → Bool) (xs : List A) → find_where p xs ≡ none → count_where p xs ≡ 0
  unfolding find_where count_where
  find_where-count_zero p [] h = ground arith
  find_where-count_zero p (x ∷ xs) h = ground (arith, find_where-count_zero p xs)

  pub exists_where-count :
      (p : A → Bool) (xs : List A) → exists_where p xs ≡ false → count_where p xs ≡ 0
  unfolding exists_where count_where
  exists_where-count p [] h = refl
  exists_where-count p (x ∷ xs) h = ground (arith, exists_where-count p xs)

  pub count-append :
      (p : A → Bool) (xs ys : List A)
      → count_where p (xs ++ ys) ≡ count_where p xs + count_where p ys
  unfolding count_where
  count-append p [] ys = omega arith
  count-append p (x ∷ xs) ys = ground (arith, count-append p xs ys)

  pub count-update :
      (p q : A → Bool) (f : A → A) (xs : List A)
      → count_where p (update_where q f xs) ≡ count_where (λ x. p (if q x then f x else x)) xs
  unfolding count_where update_where
  count-update p q f [] = refl
  count-update p q f (x ∷ xs) = ground (arith, count-update p q f xs)

  -- A test that implies another on every row counts no more rows.
  pub count_mono :
      (p q : A → Bool) (xs : List A)
      → All (λ x. p x ≡ true → q x ≡ true) xs
      → count_where p xs ≤ count_where q xs
  unfolding count_where
  count_mono p q [] h = omega arith
  count_mono p q (x ∷ xs) h = ground (arith, h.0, count_mono p q xs h.1)

  pub count-or :
      (p q : A → Bool) (xs : List A)
      → count_where (λ x. p x || q x) xs ≤ count_where p xs + count_where q xs
  unfolding count_where
  count-or p q [] = omega arith
  count-or p q (x ∷ xs) = ground (arith, count-or p q xs)

  pub All-intro {κ} : {P : A → Type κ} (xs : List A) → ((x : A) → P x) → All P xs
  All-intro [] h = tt
  All-intro (x ∷ xs) h = (h x, All-intro xs h)

  pub All-map {κ μ} :
      {P : A → Type κ} {Q : A → Type μ} (xs : List A) → ((x : A) → P x → Q x) → All P xs → All Q xs
  All-map [] h a = tt
  All-map (x ∷ xs) h a = (h x a.0, All-map xs h a.1)

  none_of_count : (p : A → Bool) (xs : List A) → count_where p xs ≡ 0 → All (λ x. p x ≡ false) xs
  unfolding count_where
  none_of_count p [] h = tt
  none_of_count p (x ∷ xs) h = (ground arith, none_of_count p xs (ground arith))

  -- Where the test holds of one row at most, each row that passes it is the one that is found.
  pub found_is_unique :
      (p : A → Bool) (xs : List A) (a : A)
      → count_where p xs ≤ 1
      → find_where p xs ≡ some a
      → All (λ x. p x ≡ true → x ≡ a) xs
  unfolding count_where find_where
  found_is_unique p [] a u h = tt
  found_is_unique p (x ∷ xs) a u h = elim (Bool-cases (p x)) [
    | inl e ↦ (λ _. ground arith, All-map xs (λ y n t. cc) (none_of_count p xs (ground arith)))
    | inr e ↦ (λ t. cc, found_is_unique p xs a (ground arith) (ground arith))
  ]

  -- Where an update overwrites the one row that is found, and the new row passes a test only if
  -- the old one did, no more rows pass it.
  pub count-update_found :
      (p q : A → Bool) (f : A → A) (row : A) (xs : List A)
      → count_where q xs ≤ 1
      → find_where q xs ≡ some row
      → (p (f row) ≡ true → p row ≡ true)
      → count_where p (update_where q f xs) ≤ count_where p xs
  count-update_found p q f row xs unique found keeps =
      rw (count-update p q f xs)
        (count_mono _ p xs (All-map xs still (found_is_unique q xs row unique found)))
    where
      still : (x : A) → (q x ≡ true → x ≡ row) → p (if q x then f x else x) ≡ true → p x ≡ true
      still x same t = elim (Bool-cases (q x)) [
        | inl e ↦
            let kept : p (f x) ≡ true = rw e at t in
            subst⁻¹ (λ b. p b ≡ true) (same e) (keeps (subst (λ b. p (f b) ≡ true) (same e) kept))
        | inr e ↦ rw e at t
      ]
