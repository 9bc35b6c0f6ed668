-- ===== src/Prelude/Tables/Best.antt =====
-- `SELECT … WHERE p ORDER BY … LIMIT 1` and `min(…)`: the best of the rows that pass a test.
use mathlib.Core.Path.{◌≡◌, sym, ap, ◌∙◌}
use mathlib.Core.Logic.{inl, inr}
use mathlib.Core.Bool.{Bool, true, false}
use mathlib.Core.Option.{none, some}
use mathlib.Core.List.{List}
use native.Mathlib.Omega.{arith}
use hass_clips_manager.Prelude.Tests.{Option-cases}
use hass_clips_manager.Prelude.Tables.{select_where, exists_where, first_by, All, Stored}
use hass_clips_manager.Prelude.Tables.Search.{
  IsOrder, first_by-Stored, first_by-least, first_by-eq_none, select_where-Stored,
  select_where-eq_nil, All-select_where, All-Stored, exists_where-Stored,
}

-- A row that passes the test, and no row that passes it comes before.
pub record Best {A : Type 0} (p : A → Bool) (less : A → A → Bool) (xs : List A) (w : A)
    : Type 0 where
  pub stored : Stored w xs
  pub passes : p w ≡ true
  pub least : All (λ x. p x ≡ true → less x w ≡ false) xs

module _ {A : Type 0} (p : A → Bool) {less : A → A → Bool} (o : IsOrder less) (xs : List A) where
  pub first_by-Best : (w : A) → first_by less (select_where p xs) ≡ some w → Best p less xs w
  first_by-Best w e =
      let (stored, passes) =
        select_where-Stored p w xs (first_by-Stored less w (select_where p xs) e) in
      record {
        stored = stored;
        passes = passes;
        least =
            All-select_where (λ x. less x w ≡ false) p xs
              (first_by-least o w (select_where p xs) e);
      }

  -- Nothing is taken exactly when no row passes the test.
  pub first_by-none : first_by less (select_where p xs) ≡ none → exists_where p xs ≡ false
  first_by-none e = select_where-eq_nil p xs (first_by-eq_none less (select_where p xs) e)

  -- Of two lists with the same rows, where no two rows tie, the same row is best.
  pub Best-unique :
      (ys : List A) (v w : A)
      → ((x : A) → Stored x xs → Stored x ys)
      → ((x : A) → Stored x ys → Stored x xs)
      → ((x y : A) → Stored x xs → Stored y xs → less x y ≡ false → less y x ≡ false → x ≡ y)
      → Best p less xs v
      → Best p less ys w
      → v ≡ w
  Best-unique ys v w to from no_tie b c =
      no_tie v w b.stored (from w c.stored) (All-Stored _ v ys c.least (to v b.stored) b.passes)
        (All-Stored _ w xs b.least (from w c.stored) c.passes)

-- Of lists with the same rows, where no two rows tie, the same row is taken, if any.
module _ {A : Type 0} (p : A → Bool) {less : A → A → Bool} (o : IsOrder less) (xs ys : List A) where
  pub first_by_same :
      ((x : A) → Stored x xs → Stored x ys)
      → ((x : A) → Stored x ys → Stored x xs)
      → ((x y : A) → Stored x xs → Stored y xs → less x y ≡ false → less y x ≡ false → x ≡ y)
      → first_by less (select_where p xs) ≡ first_by less (select_where p ys)
  first_by_same to from no_tie = elim (Option-cases (first_by less (select_where p xs))) [
    | inl e ↦ elim (Option-cases (first_by less (select_where p ys))) [
      | inl f ↦ e ∙ sym f
      | inr (w, f) ↦
          let b : Best p less ys w = first_by-Best p o ys w f in
          absurd (
            ground (
              arith,
              first_by-none p o xs e,
              exists_where-Stored p w xs (from w b.stored) b.passes,
            ))
    ]
    | inr (v, e) ↦ elim (Option-cases (first_by less (select_where p ys))) [
      | inl f ↦
          let b : Best p less xs v = first_by-Best p o xs v e in
          absurd (
            ground
              (arith, first_by-none p o ys f, exists_where-Stored p v ys (to v b.stored) b.passes))
      | inr (w, f) ↦
          e
          ∙ ap some (
              Best-unique p o xs ys v w to from no_tie (first_by-Best p o xs v e)
                (first_by-Best p o ys w f))
          ∙ sym f
    ]
  ]
