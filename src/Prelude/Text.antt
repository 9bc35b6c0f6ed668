-- ===== src/Prelude/Text.antt =====
-- Python's operations on texts, character by character.
use Prim.Native.Nat.{ℕ, ◌-◌}
use Prim.Native.Char.{Char, code}
use Prim.Native.String.{String, [], ◌∷◌, ◌++◌}
use mathlib.Core.Path.{◌≡◌, refl}
use mathlib.Core.Bool.{Bool, true, false, ◌&&◌, ◌||◌}
use mathlib.Core.Option.{Option, none, some}
use mathlib.Core.List.{List}
use text.Mathlib.Text.{find?}
use hass_clips_manager.Prelude.Tests.{leb, nat_eq, if◌then◌else◌, is_some}

-- The code points of a text
abbrev pub codes : String → List ℕ
codes [] = List.[]
codes (c ∷ s) = List.◌∷◌ (code c) (codes s)

abbrev between : ℕ → ℕ → ℕ → Bool
between lo hi c = leb lo c && leb c hi

-- `str.isspace` of one character
unfoldable pub is_space : ℕ → Bool
is_space c =
    between 9 13 c
    || between 28 32 c
    || nat_eq c 0x85
    || nat_eq c 0xa0
    || nat_eq c 0x1680
    || between 0x2000 0x200a c
    || between 0x2028 0x2029 c
    || nat_eq c 0x202f
    || nat_eq c 0x205f
    || nat_eq c 0x3000

-- `not s`
abbrev pub is_empty : String → Bool
is_empty [] = true
is_empty (c ∷ s) = false

unfoldable pub left_strip : String → String
unfolding is_space
left_strip [] = []
left_strip (c ∷ s) = let rest = left_strip s in if is_space (code c) then rest else c ∷ s

unfoldable pub right_strip : String → String
unfolding is_space
right_strip [] = []
right_strip (c ∷ s) =
    let rest = right_strip s in if is_empty rest && is_space (code c) then [] else c ∷ rest

-- `s.strip()`
unfoldable pub strip : String → String
unfolding left_strip right_strip
strip s = right_strip (left_strip s)

strip_example : strip " \tab c \n" ≡ "ab c"
unfolding strip
strip_example = refl

-- `s[:n]`
unfoldable pub first_chars : ℕ → String → String
first_chars n [] = []
first_chars ℕ.zero (c ∷ s) = []
first_chars (ℕ.suc n) (c ∷ s) = c ∷ first_chars n s

-- `s + t`
abbrev pub concat : String → String → String
concat s t = s ++ t

-- `part in s`
abbrev pub contains : String → String → Bool
contains part s = is_some (find? s part)

-- `len(s)`
unfoldable pub size : String → ℕ
size [] = 0
size (c ∷ s) = ℕ.suc (size s)

unfoldable drop_chars : ℕ → String → String
drop_chars n [] = []
drop_chars ℕ.zero (c ∷ s) = c ∷ s
drop_chars (ℕ.suc n) (c ∷ s) = drop_chars n s

-- `s[-n:]`, for an n that is not 0
unfoldable pub last_chars : ℕ → String → String
unfolding drop_chars size
last_chars n s = drop_chars (size s - n) s

-- The characters at which `str.splitlines` ends a line
unfoldable pub is_break : ℕ → Bool
is_break c = between 10 13 c || between 0x1c 0x1e c || nat_eq c 0x85 || between 0x2028 0x2029 c

-- A character before the first of some lines
abbrev pub push : Char → List String → List String
push c List.[] = List.◌∷◌ (c ∷ []) List.[]
push c (List.◌∷◌ line lines) = List.◌∷◌ (c ∷ line) lines

abbrev begins_with_newline : String → Bool
begins_with_newline [] = false
begins_with_newline (c ∷ s) = nat_eq (code c) 10

-- `s.splitlines()`; `\r\n` ends one line.
unfoldable pub split_lines : String → List String
unfolding is_break
split_lines [] = List.[]
split_lines (c ∷ s) =
    let rest = split_lines s in
    if is_break (code c)
    then (if nat_eq (code c) 13 && begins_with_newline s then rest else List.◌∷◌ [] rest)
    else push c rest

abbrev first_part : Char → Option (String × String) → Option (String × String)
first_part c none = none
first_part c (some (k, v)) = some (c ∷ k, v)

-- `s.partition("=")`, or none if there is no separator
unfoldable pub key_value : String → Option (String × String)
key_value [] = none
key_value (c ∷ s) =
    let rest = key_value s in if nat_eq (code c) 61 then some ([], s) else first_part c rest

split_lines_example : split_lines "a=1\r\n\nb" ≡ List.◌∷◌ "a=1" (List.◌∷◌ "" (List.◌∷◌ "b" List.[]))
unfolding split_lines
split_lines_example = refl

key_value_example : key_value "a=b=c" ≡ some ("a", "b=c")
unfolding key_value
key_value_example = refl

contains_example : contains "b=" "a=b=c" ≡ true
contains_example = refl
