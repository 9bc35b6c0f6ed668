-- ===== src/Slug/Matching.antt =====
-- `fullmatch` decides what a regular expression matches.
use mathlib.Core.Path.{subst}
use mathlib.Core.Bool.{false≢true}
use hass_clips_manager.Prelude.{
  ℕ, Bool, true, false, ◌≡◌, ◌↔◌, refl, sym, ap, ◌∙◌, String, List, [], ◌∷◌, ◌++◌, arith, inl, inr,
  Bool-cases, ◌⊎◌, if◌then◌else◌,
}
use hass_clips_manager.Prelude.Text.{codes}
use hass_clips_manager.Slug.{
  Spans, in_spans, Regex, never, empty, one_of, either, sequence, many, is_nullable, after, matches,
  fullmatch,
}

-- The texts of an expression
pub data Matches : Regex → List ℕ → Type 0 where
  nothing : Matches empty []
  char : {spans : Spans} {c : ℕ} → in_spans spans c ≡ true → Matches (one_of spans) (c ∷ [])
  left : {a b : Regex} {w : List ℕ} → Matches a w → Matches (either a b) w
  right : {a b : Regex} {w : List ℕ} → Matches b w → Matches (either a b) w
  both :
      {a b : Regex} {w : List ℕ} (u v : List ℕ)
      → Matches a u
      → Matches b v
      → w ≡ u ++ v
      → Matches (sequence a b) w
  ends : {a : Regex} → Matches (many a) []
  again :
      {a : Regex} {w : List ℕ} (c : ℕ) (u v : List ℕ)
      → Matches a (c ∷ u)
      → Matches (many a) v
      → w ≡ c ∷ u ++ v
      → Matches (many a) w

nil-append : (u v : List ℕ) → [] ≡ u ++ v → (u ≡ []) × (v ≡ [])
nil-append [] v h = (refl, sym h)
nil-append (c ∷ u) v h = absurd (ground (arith, h))

is_nullable_complete : (r : Regex) (w : List ℕ) → Matches r w → w ≡ [] → is_nullable r ≡ true
unfolding is_nullable
is_nullable_complete _ _ nothing e = refl
is_nullable_complete _ _ (char h) e = absurd (ground (arith, e))
is_nullable_complete (either a b) w (left m) e = ground (arith, is_nullable_complete a w m e)
is_nullable_complete (either a b) w (right m) e = ground (arith, is_nullable_complete b w m e)
is_nullable_complete (sequence a b) w (both u v m n h) e =
    let (eu, ev) = nil-append u v (sym e ∙ h) in
    ground (arith, is_nullable_complete a u m eu, is_nullable_complete b v n ev)
is_nullable_complete _ _ ends e = refl
is_nullable_complete _ _ (again c u v m n h) e = refl

is_nullable_sound : (r : Regex) → is_nullable r ≡ true → Matches r []
unfolding is_nullable
is_nullable_sound never h = absurd (false≢true h)
is_nullable_sound empty h = nothing
is_nullable_sound (one_of spans) h = absurd (false≢true h)
is_nullable_sound (either a b) h = elim (Bool-cases (is_nullable a)) [
  | inl t ↦ left (is_nullable_sound a t)
  | inr f ↦ right (is_nullable_sound b (ground (arith, h, f)))
]
is_nullable_sound (sequence a b) h =
    both [] [] (is_nullable_sound a (ground (arith, h))) (is_nullable_sound b (ground (arith, h)))
      refl
is_nullable_sound (many a) h = ends

-- What is left of a sequence, by whether its first part may be empty
after_sequence_sound :
    (b : Bool) (a' b' r : Regex) (w : List ℕ)
    → Matches (if b then either (sequence a' r) b' else sequence a' r) w
    → Matches (sequence a' r) w ⊎ ((b ≡ true) × Matches b' w)
after_sequence_sound true a' b' r w (left m) = inl m
after_sequence_sound true a' b' r w (right m) = inr (refl, m)
after_sequence_sound false a' b' r w m = inl m

after_sequence_first :
    (b : Bool) (a' b' r : Regex) (w : List ℕ)
    → Matches (sequence a' r) w
    → Matches (if b then either (sequence a' r) b' else sequence a' r) w
after_sequence_first true a' b' r w m = left m
after_sequence_first false a' b' r w m = m

after_class :
    (b : Bool) (w : List ℕ) → Matches (if b then empty else never) w → (b ≡ true) × (w ≡ [])
after_class true _ nothing = (refl, refl)
after_class false w m = elim m [ ]

after_sound : (c : ℕ) (r : Regex) (w : List ℕ) → Matches (after c r) w → Matches r (c ∷ w)
unfolding after
after_sound c never w m = elim m [ ]
after_sound c empty w m = elim m [ ]
after_sound c (one_of spans) w m =
    let (inside, e) = after_class (in_spans spans c) w m in
    subst (λ w. Matches (one_of spans) (c ∷ w)) (sym e) (char inside)
after_sound c (either a b) w (left m) = left (after_sound c a w m)
after_sound c (either a b) w (right m) = right (after_sound c b w m)
after_sound c (sequence a b) w m =
    elim (after_sequence_sound (is_nullable a) (after c a) (after c b) b w m) [
      | inl (both u v m n h) ↦ both (c ∷ u) v (after_sound c a u m) n (ap (λ w. c ∷ w) h)
      | inr (t, m) ↦ both [] (c ∷ w) (is_nullable_sound a t) (after_sound c b w m) refl
    ]
after_sound c (many a) w (both u v m n h) = again c u v (after_sound c a u m) n (ap (λ w. c ∷ w) h)

cons_inv : (c d : ℕ) (u w : List ℕ) → d ∷ u ≡ c ∷ w → (d ≡ c) × (w ≡ u)
cons_inv c d u w e = (ground (arith, e), cc)

after_complete :
    (c : ℕ) (r : Regex) (w t : List ℕ) → Matches r t → t ≡ c ∷ w → Matches (after c r) w
unfolding after
after_complete c _ w _ nothing e = absurd (ground (arith, e))
after_complete c (one_of spans) w _ (char {c = d} h) e =
    let (same, rest) = cons_inv c d [] w e in
    let inside : in_spans spans c ≡ true = ap (in_spans spans) (sym same) ∙ h in
    rw (rest, inside) nothing
after_complete c (either a b) w t (left m) e = left (after_complete c a w t m e)
after_complete c (either a b) w t (right m) e = right (after_complete c b w t m e)
after_complete c (sequence a b) w t (both [] v m n h) e =
    let skipped : Matches (after c b) w = after_complete c b w v n (sym h ∙ e) in
    rw (is_nullable_complete a [] m refl) (right skipped)
after_complete c (sequence a b) w t (both (d ∷ u) v m n h) e =
    let (same, rest) = cons_inv c d (u ++ v) w (sym h ∙ e) in
    after_sequence_first (is_nullable a) (after c a) (after c b) b w
      (both u v (after_complete c a u (d ∷ u) m (ap (λ x. x ∷ u) same)) n rest)
after_complete c (many a) w _ ends e = absurd (ground (arith, e))
after_complete c (many a) w t (again d u v m n h) e =
    let (same, rest) = cons_inv c d (u ++ v) w (sym h ∙ e) in
    both u v (after_complete c a u (d ∷ u) m (ap (λ x. x ∷ u) same)) n rest

matches_iff : (r : Regex) (w : List ℕ) → (matches r w ≡ true) ↔ Matches r w
unfolding matches
matches_iff r [] = (is_nullable_sound r, λ m. is_nullable_complete r [] m refl)
matches_iff r (c ∷ w) =
    let (from, to) = matches_iff (after c r) w in
    (λ h. after_sound c r w (from h), λ m. to (after_complete c r w (c ∷ w) m refl))

-- `fullmatch` accepts exactly the texts of the expression.
pub fullmatch_iff : (r : Regex) (s : String) → (fullmatch r s ≡ true) ↔ Matches r (codes s)
unfolding fullmatch
fullmatch_iff r s = matches_iff r (codes s)
