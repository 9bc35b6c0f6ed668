-- ===== src/Slug.antt =====
-- The collection identifiers that both programs check by one regular expression
-- (app/src/cinema_collections_worker/paths.py, custom_components/cinema_collections/resolver.py), and
-- what `fullmatch` of the language's `re` answers for the expressions that it is made of.
pub mod Matching
mod Tests
use hass_clips_manager.Prelude.{
  ℕ, Bool, true, false, ◌&&◌, ◌||◌, String, List, [], ◌∷◌, leb, if◌then◌else◌,
}
use hass_clips_manager.Prelude.Text.{codes}

-- A class of characters, as in `[a-z0-9]`: spans of code points
abbrev pub Spans : Type 0
Spans = List (ℕ × ℕ)

pub in_spans : Spans → ℕ → Bool
in_spans [] c = false
in_spans ((lo, hi) ∷ spans) c = (leb lo c && leb c hi) || in_spans spans c

-- The constructs of `re`, and an expression that matches nothing
pub data Regex : Type 0 where
  never empty : Regex
  one_of : Spans → Regex
  either sequence : Regex → Regex → Regex
  many : Regex → Regex

-- `r+`
abbrev pub some_of : Regex → Regex
some_of r = sequence r (many r)

-- `[a-z0-9]`
abbrev pub alnum : Regex
alnum = one_of ((b'a', b'z') ∷ (b'0', b'9') ∷ [])

abbrev pub dash : Regex
dash = one_of ((b'-', b'-') ∷ [])

-- `_COLLECTION_ID`: `^[a-z0-9]+(?:-[a-z0-9]+)*$`
abbrev pub collection_id_pattern : Regex
collection_id_pattern = sequence (some_of alnum) (many (sequence dash (some_of alnum)))

-- The expression matches the empty text.
pub is_nullable : Regex → Bool
is_nullable never = false
is_nullable empty = true
is_nullable (one_of spans) = false
is_nullable (either a b) = is_nullable a || is_nullable b
is_nullable (sequence a b) = is_nullable a && is_nullable b
is_nullable (many a) = true

-- What is left of the expression after a character
pub after : ℕ → Regex → Regex
after c never = never
after c empty = never
after c (one_of spans) = if in_spans spans c then empty else never
after c (either a b) = either (after c a) (after c b)
after c (sequence a b) =
    let a' = after c a in
    let b' = after c b in if is_nullable a then either (sequence a' b) b' else sequence a' b
after c (many a) = sequence (after c a) (many a)

pub matches : Regex → List ℕ → Bool
matches r [] = is_nullable r
matches r (c ∷ cs) = matches (after c r) cs

-- `re.fullmatch`
unfoldable pub fullmatch : Regex → String → Bool
unfolding matches after is_nullable in_spans
fullmatch r s = matches r (codes s)

-- `_COLLECTION_ID.fullmatch(value)`
unfoldable pub is_slug : String → Bool
unfolding fullmatch
is_slug s = fullmatch collection_id_pattern s
