-- ===== src/Prelude/Tables/Search.antt =====
-- Finding rows: `WHERE`, `LIMIT 1` and `ORDER BY … LIMIT 1`.
use Prim.Native.Nat.{◌≤◌, ◌<◌}
use mathlib.Core.Path.{◌≡◌, refl, sym, ap, ◌∙◌, subst, subst⁻¹}
use mathlib.Core.Logic.{inl, inr}
use mathlib.Core.Bool.{Bool, true, false, false≢true}
use mathlib.Core.Option
use mathlib.Core.Option.{none, some}
use mathlib.Core.List.{List, [], ◌∷◌, ◌++◌}
use native.Mathlib.Omega.{arith}
use hass_clips_manager.Prelude.Tests.{Bool-cases, Option-cases, if◌then◌else◌}
use hass_clips_manager.Prelude.Tables.{
  select_where, find_where, exists_where, update_where, count_where, first_by, All, Stored,
}
use hass_clips_manager.Prelude.Tables.Counts.{All-map}

-- What `ORDER BY` sorts by: a strict order whose negation is transitive.
pub record IsOrder {ℓ} {A : Type ℓ} (less : A → A → Bool) : Type ℓ where
  pub asymm : (a b : A) → less a b ≡ true → less b a ≡ false
  pub irrefl : (a : A) → less a a ≡ false
  pub not_less : (a b c : A) → less a b ≡ false → less b c ≡ false → less a c ≡ false

module _ {A : Type 0} where
  pub All-Stored {κ} : (P : A → Type κ) (a : A) (xs : List A) → All P xs → Stored a xs → P a
  All-Stored P a [] h s = elim s [ ]
  All-Stored P a (x ∷ xs) h (inl e) = subst P e h.0
  All-Stored P a (x ∷ xs) h (inr s) = All-Stored P a xs h.1 s

  pub Stored-append : (a : A) (xs ys : List A) → Stored a xs → Stored a (xs ++ ys)
  Stored-append a [] ys s = elim s [ ]
  Stored-append a (x ∷ xs) ys (inl e) = inl e
  Stored-append a (x ∷ xs) ys (inr s) = inr (Stored-append a xs ys s)

  pub Stored-append_last : (a : A) (xs : List A) → Stored a (xs ++ a ∷ [])
  Stored-append_last a [] = inl refl
  Stored-append_last a (x ∷ xs) = inr (Stored-append_last a xs)

  pub select_where-Stored :
      (p : A → Bool) (a : A) (xs : List A)
      → Stored a (select_where p xs)
      → Stored a xs × (p a ≡ true)
  unfolding select_where
  select_where-Stored p a [] s = elim s [ ]
  select_where-Stored p a (x ∷ xs) s = ground (arith, select_where-Stored p a xs)

  pub All-select_where :
      (P : A → Type 0) (p : A → Bool) (xs : List A)
      → All P (select_where p xs)
      → All (λ x. p x ≡ true → P x) xs
  unfolding select_where
  All-select_where P p [] h = tt
  All-select_where P p (x ∷ xs) h = elim (Bool-cases (p x)) [
    | inl e ↦
        let k : P x × All P (select_where p xs) = rw e at h in
        (λ _. k.0, All-select_where P p xs k.1)
    | inr e ↦ (λ t. cc, All-select_where P p xs (rw e at h))
  ]

  pub first_by-Stored :
      (less : A → A → Bool) (a : A) (xs : List A) → first_by less xs ≡ some a → Stored a xs
  unfolding first_by
  first_by-Stored less a [] h = cc
  first_by-Stored less a (x ∷ xs) h = ground (arith, first_by-Stored less a xs)

  pub first_by-eq_none : (less : A → A → Bool) (xs : List A) → first_by less xs ≡ none → xs ≡ []
  unfolding first_by
  first_by-eq_none less [] h = refl
  first_by-eq_none less (x ∷ xs) h = ground arith

  pub select_where-eq_nil :
      (p : A → Bool) (xs : List A) → select_where p xs ≡ [] → exists_where p xs ≡ false
  unfolding select_where exists_where
  select_where-eq_nil p [] h = refl
  select_where-eq_nil p (x ∷ xs) h = ground (arith, select_where-eq_nil p xs)

  -- The row that is taken has no row before it.
  pub first_by-least :
      {less : A → A → Bool} (o : IsOrder less) (a : A) (xs : List A)
      → first_by less xs ≡ some a
      → All (λ x. less x a ≡ false) xs
  unfolding first_by
  first_by-least o a [] h = tt
  first_by-least {less} o a (x ∷ xs) h = elim (Option-cases (first_by less xs)) [
    | inl e ↦
        let q : x ≡ a = ground arith in
        (ground (arith, o.irrefl a), subst⁻¹ (All _) (first_by-eq_none less xs e) tt)
    | inr (y, e) ↦ elim (Bool-cases (less y x)) [
      | inl t ↦
          let q : y ≡ a = ground arith in
          subst (λ b. All (λ z. less z b ≡ false) (x ∷ xs)) q
            (o.asymm y x t, first_by-least o y xs e)
      | inr f ↦
          let q : x ≡ a = ground arith in
          subst (λ b. All (λ z. less z b ≡ false) (x ∷ xs)) q
            (o.irrefl x, All-map xs (λ z n. o.not_less z y x n f) (first_by-least o y xs e))
    ]
  ]

  Stored-count :
      (p : A → Bool) (a : A) (xs : List A) → Stored a xs → p a ≡ true → 0 < count_where p xs
  unfolding count_where
  Stored-count p a [] s h = elim s [ ]
  Stored-count p a (x ∷ xs) s h = ground (arith, Stored-count p a xs)

  select_where-nil : (p : A → Bool) (xs : List A) → count_where p xs ≡ 0 → select_where p xs ≡ []
  unfolding select_where count_where
  select_where-nil p [] h = refl
  select_where-nil p (x ∷ xs) h = ground (arith, select_where-nil p xs)

  -- Where one row at most passes a test and this one does, it is all that is selected.
  pub select_where_unique :
      (p : A → Bool) (a : A) (xs : List A)
      → count_where p xs ≤ 1
      → Stored a xs
      → p a ≡ true
      → select_where p xs ≡ a ∷ []
  unfolding select_where count_where
  select_where_unique p a [] u s h = elim s [ ]
  select_where_unique p a (x ∷ xs) u (inl e) h =
      let none_left : select_where p xs ≡ [] = select_where-nil p xs (ground arith) in ground arith
  select_where_unique p a (x ∷ xs) u (inr s) h =
      let others : 0 < count_where p xs = Stored-count p a xs s h in
      ground (arith, select_where_unique p a xs)

  -- Where one row at most passes a test, a row that passes it is what a look-up finds.
  pub find_where_unique :
      (p : A → Bool) (a : A) (xs : List A)
      → count_where p xs ≤ 1
      → Stored a xs
      → p a ≡ true
      → find_where p xs ≡ some a
  unfolding find_where count_where
  find_where_unique p a [] u s h = elim s [ ]
  find_where_unique p a (x ∷ xs) u (inl e) h = ground arith
  find_where_unique p a (x ∷ xs) u (inr s) h =
      let others : 0 < count_where p xs = Stored-count p a xs s h in
      ground (arith, find_where_unique p a xs)

  pub find_where-Stored :
      (p : A → Bool) (a : A) (xs : List A) → find_where p xs ≡ some a → Stored a xs
  unfolding find_where
  find_where-Stored p a [] h = cc
  find_where-Stored p a (x ∷ xs) h = ground (arith, find_where-Stored p a xs)

  pub exists_where-Stored :
      (p : A → Bool) (a : A) (xs : List A) → Stored a xs → p a ≡ true → exists_where p xs ≡ true
  unfolding exists_where
  exists_where-Stored p a [] s h = elim s [ ]
  exists_where-Stored p a (x ∷ xs) s h = ground (arith, exists_where-Stored p a xs)

  -- An update that leaves its own test true is seen by the next look-up.
  pub find_where-update_self :
      (p : A → Bool) (f : A → A) (xs : List A)
      → ((x : A) → p x ≡ true → p (f x) ≡ true)
      → find_where p (update_where p f xs) ≡ Option.map f (find_where p xs)
  unfolding find_where update_where
  find_where-update_self p f [] keeps = refl
  find_where-update_self p f (x ∷ xs) keeps =
      ground (arith, keeps x, find_where-update_self p f xs keeps)

  -- An update that leaves a test as it is changes what that test finds, or leaves it alone.
  pub find_where-update_where :
      (p q : A → Bool) (f : A → A) (xs : List A)
      → ((x : A) → q x ≡ true → p (f x) ≡ p x)
      → find_where p (update_where q f xs)
        ≡ Option.map (λ x. if q x then f x else x) (find_where p xs)
  unfolding find_where update_where
  find_where-update_where p q f [] keeps = refl
  find_where-update_where p q f (x ∷ xs) keeps =
      ground (arith, keeps x, find_where-update_where p q f xs keeps)

  pub find_where-append :
      (p : A → Bool) (a : A) (xs ys : List A)
      → find_where p xs ≡ some a
      → find_where p (xs ++ ys) ≡ some a
  unfolding find_where
  find_where-append p a [] ys h = cc
  find_where-append p a (x ∷ xs) ys h = ground (arith, find_where-append p a xs ys)

  -- After an update every row that its test finds is as written.
  pub All-update_where :
      (P : A → Type 0) (q : A → Bool) (f : A → A) (xs : List A)
      → ((x : A) → P (f x))
      → All (λ x. q x ≡ true → P x) (update_where q f xs)
  unfolding update_where
  All-update_where P q f [] h = tt
  All-update_where P q f (x ∷ xs) h = elim (Bool-cases (q x)) [
    | inl e ↦ (λ _. rw e (h x), All-update_where P q f xs h)
    | inr e ↦ (λ t. absurd (false≢true (sym e ∙ (rw e at t))), All-update_where P q f xs h)
  ]

  pub find_where-none :
      (p : A → Bool) (a : A) (xs : List A) → find_where p xs ≡ none → Stored a xs → p a ≡ false
  unfolding find_where
  find_where-none p a [] h s = elim s [ ]
  find_where-none p a (x ∷ xs) h s = ground (arith, find_where-none p a xs)

pub Stored-select_where :
    {A : Type 0} (p : A → Bool) (x : A) (xs : List A)
    → Stored x xs
    → p x ≡ true
    → Stored x (select_where p xs)
unfolding select_where
Stored-select_where p x [] h k = h
Stored-select_where p x (y ∷ ys) (inl e) k =
    let same : p y ≡ true = ap p e ∙ k in rw (same, select_where) (inl e)
Stored-select_where p x (y ∷ ys) (inr h) k =
    let rest = Stored-select_where p x ys h k in
    elim (Bool-cases (p y)) [
      | inl e ↦ rw (e, select_where) (inr rest)
      | inr e ↦ rw (e, select_where) rest
    ]
