-- ===== src/Integration/Rounds/Played.antt =====
-- What remains of a round as its clips are played (history.py).
use hass_clips_manager.Prelude.{
  ◌≡◌, refl, suc, Bool, true, false, ◌||◌, ◌&&◌, not, String, List, [], ◌∷◌, ◌++◌, ◌==◌, arith,
  eq_iff, ap,
}
use hass_clips_manager.Prelude.Tables.{select_where, exists_where, length}
use hass_clips_manager.Integration.Const.{contains, has_duplicate}
use hass_clips_manager.Integration.Rounds.{distinct, unplayed}

pub contains-append :
    (xs ys : List String) (c : String) → contains (xs ++ ys) c ≡ (contains xs c || contains ys c)
unfolding exists_where
contains-append [] ys c = refl
contains-append (x ∷ xs) ys c = ground (arith, contains-append xs ys c)

-- Two texts that are the same give the same answers.
contains_same : (p : String → Bool) (x c : String) → (x == c) ≡ true → p x ≡ p c
contains_same p x c h = ap p ((eq_iff x c).0 h)

pub contains-select_where :
    (p : String → Bool) (xs : List String) (c : String)
    → contains (select_where p xs) c ≡ (contains xs c && p c)
unfolding exists_where select_where
contains-select_where p [] c = refl
contains-select_where p (x ∷ xs) c =
    ground (arith, contains-select_where p xs c, contains_same p x c)

-- A clip that is not eligible changes nothing by being played.
pub unplayed_other :
    (eligible played : List String) (c : String)
    → contains eligible c ≡ false
    → unplayed eligible (played ++ c ∷ []) ≡ unplayed eligible played
unfolding exists_where select_where
unplayed_other [] played c h = refl
unplayed_other (x ∷ xs) played c h =
    ground
      (arith, unplayed_other xs played c, contains-append played (c ∷ []) x, eq_iff x c, eq_iff c x)

-- Playing one of the clips that remain leaves one fewer.
pub length-unplayed :
    (eligible played : List String) (c : String)
    → has_duplicate eligible ≡ false
    → contains eligible c ≡ true
    → contains played c ≡ false
    → length (unplayed eligible played) ≡ suc (length (unplayed eligible (played ++ c ∷ [])))
unfolding exists_where select_where has_duplicate
length-unplayed [] played c d h k = ground arith
length-unplayed (x ∷ xs) played c d h k = ground (
  arith,
  length-unplayed xs played c,
  unplayed_other xs played c,
  contains-append played (c ∷ []) x,
  eq_iff x c,
  eq_iff c x,
)

-- Playing the first of them leaves the others, in their order.
pub unplayed_first :
    (eligible played : List String) (c : String) (rest : List String)
    → has_duplicate eligible ≡ false
    → unplayed eligible played ≡ c ∷ rest
    → unplayed eligible (played ++ c ∷ []) ≡ rest
unfolding exists_where select_where has_duplicate
unplayed_first [] played c rest d h = ground arith
unplayed_first (x ∷ xs) played c rest d h = ground (
  arith,
  unplayed_first xs played c rest,
  unplayed_other xs played c,
  contains-append played (c ∷ []) x,
  eq_iff x c,
  eq_iff c x,
)

pub has_duplicate-append :
    (xs : List String) (c : String)
    → has_duplicate xs ≡ false
    → contains xs c ≡ false
    → has_duplicate (xs ++ c ∷ []) ≡ false
unfolding exists_where has_duplicate
has_duplicate-append [] c h k = refl
has_duplicate-append (x ∷ xs) c h k =
    ground (arith, has_duplicate-append xs c, contains-append xs (c ∷ []) x, eq_iff x c, eq_iff c x)

pub has_duplicate-select_where :
    (p : String → Bool) (xs : List String)
    → has_duplicate xs ≡ false
    → has_duplicate (select_where p xs) ≡ false
unfolding exists_where has_duplicate select_where
has_duplicate-select_where p [] h = refl
has_duplicate-select_where p (x ∷ xs) h =
    ground (arith, has_duplicate-select_where p xs, contains-select_where p xs x)

pub has_duplicate-distinct : (xs : List String) → has_duplicate (distinct xs) ≡ false
unfolding exists_where has_duplicate select_where distinct
has_duplicate-distinct [] = refl
has_duplicate-distinct (x ∷ xs) = ground (
  arith,
  has_duplicate-distinct xs,
  has_duplicate-select_where (λ y. not (y == x)) (distinct xs),
  contains-select_where (λ y. not (y == x)) (distinct xs) x,
  eq_iff x x,
)

-- The clips are those that played, where nothing remains.
pub all_played :
    (eligible played : List String) (c : String)
    → unplayed eligible played ≡ []
    → contains eligible c ≡ true
    → contains played c ≡ true
unfolding exists_where select_where
all_played [] played c h k = ground arith
all_played (x ∷ xs) played c h k =
    ground (arith, all_played xs played c, contains_same (contains played) x c)
