-- ===== src/Prelude/Order.antt =====
-- The order of Python's texts, by code points, which is also SQLite's order of their bytes.
use Prim.Native.Nat.{ℕ, Ordering, compare as compare_ℕ}
use Prim.Native.Char.{code}
use Prim.Native.String.compare as clauses
use Prim.Native.String.{String, [], ◌∷◌, compare, then}
use mathlib.Core.Path.{◌≡◌, refl}
use mathlib.Core.Bool.{Bool, true, false}
use native.Mathlib.Omega.{arith}
use text.Mathlib.Text.{is_lt}
use text.Mathlib.TextEquality.{path_by_compare}

opposite : Ordering → Ordering
opposite Ordering.lt = Ordering.gt
opposite Ordering.eq = Ordering.eq
opposite Ordering.gt = Ordering.lt

compare_ℕ-swap : (m n : ℕ) → compare_ℕ n m ≡ opposite (compare_ℕ m n)
unfolding opposite
compare_ℕ-swap m n = ground arith

then-opposite : (o p : Ordering) → then (opposite o) (opposite p) ≡ opposite (then o p)
unfolding opposite
then-opposite Ordering.lt p = refl
then-opposite Ordering.eq p = refl
then-opposite Ordering.gt p = refl

compare-swap : (s t : String) → compare t s ≡ opposite (compare s t)
unfolding opposite
compare-swap [] [] = refl
compare-swap [] (d ∷ t) = rw (clauses.nil-cons, clauses.cons-nil)
compare-swap (c ∷ s) [] = rw (clauses.nil-cons, clauses.cons-nil)
compare-swap (c ∷ s) (d ∷ t) =
    rw (clauses.cons-cons c d s t, clauses.cons-cons d c t s)
      (rw (compare_ℕ-swap (code c) (code d), compare-swap s t)
        (then-opposite (compare_ℕ (code c) (code d)) (compare s t)))

compare_trans :
    (s t u : String)
    → compare s t ≡ Ordering.lt
    → compare t u ≡ Ordering.lt
    → compare s u ≡ Ordering.lt
compare_trans [] [] u h k = ground (arith, clauses.nil-nil)
compare_trans s (d ∷ t) [] h k = ground (arith, clauses.cons-nil d t)
compare_trans [] (d ∷ t) (e ∷ u) h k = clauses.nil-cons e u
compare_trans (c ∷ s) [] u h k = ground (arith, clauses.cons-nil c s)
compare_trans (c ∷ s) (d ∷ t) (e ∷ u) h k = ground (
  arith,
  clauses.cons-cons c d s t,
  clauses.cons-cons d e t u,
  clauses.cons-cons c e s u,
  compare_trans s t u,
)

-- `s < t`
abbrev pub str_lt : String → String → Bool
str_lt s t = is_lt (compare s t)

pub str_lt_asymm : (s t : String) → str_lt s t ≡ true → str_lt t s ≡ false
unfolding opposite
str_lt_asymm s t h = ground (arith, compare-swap s t)

pub str_lt_total : (s t : String) → str_lt s t ≡ false → str_lt t s ≡ false → s ≡ t
unfolding opposite
str_lt_total s t h k = path_by_compare s t (ground (arith, compare-swap s t))

pub str_lt_trans : (s t u : String) → str_lt s t ≡ true → str_lt t u ≡ true → str_lt s u ≡ true
str_lt_trans s t u h k = ground (arith, compare_trans s t u)

-- What is not before a text is not before a text that is not before it.
pub str_lt_not : (s t u : String) → str_lt s t ≡ false → str_lt t u ≡ false → str_lt s u ≡ false
str_lt_not s t u h k = ground (
  arith,
  str_lt_total s t,
  str_lt_total t u,
  str_lt_trans t s u,
  str_lt_trans u t s,
  str_lt_asymm s u,
  str_lt_asymm t s,
  str_lt_asymm u t,
)
