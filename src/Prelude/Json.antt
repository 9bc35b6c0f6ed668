-- ===== src/Prelude/Json.antt =====
-- What Python's json reads: a document, and an object of it as a dict.
use Prim.Native.Nat.{ℕ}
use Prim.Native.String.{String}
use mathlib.Core.Path.{◌≡◌, refl, ap}
use mathlib.Core.Bool.{Bool, true, false, not}
use mathlib.Core.Option.{none, some}
use mathlib.Core.List.{List, [], ◌∷◌}
use hass_clips_manager.Prelude.Int.{ℤ, pos}
use hass_clips_manager.Prelude.Text.{is_empty}
use hass_clips_manager.Prelude.Dict.{Dict, lookup}

-- A float is in billionths.
mutual
  pub data Json : Type 0 where
    null : Json
    boolean : Bool → Json
    integer : ℤ → Json
    float : ℤ → Json
    text : String → Json
    array : Elements → Json
    object : Members → Json

  pub data Elements : Type 0 where
    no_elements : Elements
    element : Json → Elements → Elements

  pub data Members : Type 0 where
    no_members : Members
    member : String → Json → Members → Members

unfoldable pub to_list : Elements → List Json
to_list no_elements = []
to_list (element v vs) = v ∷ to_list vs

unfoldable pub to_dict : Members → Dict Json
to_dict no_members = []
to_dict (member k v vs) = (k, v) ∷ to_dict vs

unfoldable pub array_of : List Json → Elements
array_of [] = no_elements
array_of (v ∷ vs) = element v (array_of vs)

unfoldable pub object_of : Dict Json → Members
object_of [] = no_members
object_of ((k, v) ∷ vs) = member k v (object_of vs)

pub to_list-array_of : (vs : List Json) → to_list (array_of vs) ≡ vs
unfolding to_list array_of
to_list-array_of [] = refl
to_list-array_of (v ∷ vs) = ap (λ r. v ∷ r) (to_list-array_of vs)

pub to_dict-object_of : (d : Dict Json) → to_dict (object_of d) ≡ d
unfolding to_dict object_of
to_dict-object_of [] = refl
to_dict-object_of ((k, v) ∷ d) = ap (λ r. (k, v) ∷ r) (to_dict-object_of d)

-- `d.get(name)`
abbrev pub get : String → Dict Json → Json
get name d = elim (lookup name d) [ none ↦ null | some v ↦ v ]

abbrev pub is_zero : ℤ → Bool
is_zero (pos ℕ.zero) = true
is_zero _ = false

-- `bool(v)`
abbrev pub is_truthy : Json → Bool
is_truthy null = false
is_truthy (boolean b) = b
is_truthy (integer n) = not (is_zero n)
is_truthy (float n) = not (is_zero n)
is_truthy (text s) = not (is_empty s)
is_truthy (array no_elements) = false
is_truthy (array _) = true
is_truthy (object no_members) = false
is_truthy (object _) = true
