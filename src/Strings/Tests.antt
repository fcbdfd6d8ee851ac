-- ===== src/Strings/Tests.antt =====
-- Queries of a map with one entry.
use go_maemmidb.Base.{◌≡◌, refl, false, List, [], ◌∷◌, ◌++◌, some, inl}
use go_maemmidb.Keys.{Text, text}
use go_maemmidb.Strings.{is_empty_text, from_object, from_args}
use go_maemmidb.Strings.Laws.{In, from_args-from_object}

abbrev as_is : Text → Text
as_is s = s

abbrev color : Text
color = 99 ∷ []

abbrev red : Text
red = 114 ∷ []

object_keys : from_object as_is false ((color, red) ∷ []) ≡ some ((99 ∷ 0 ∷ 114 ∷ 0 ∷ []) ∷ [])
unfolding from_object
object_keys = refl

from_args-from_object_example :
    (vals : List Text) × (value : Text) × (start : Text) × (rest : Text) × (from_object as_is false
        ((color, red) ∷ [])
      ≡ some vals)
    × In value vals
    × (from_args as_is false (text color ∷ text red ∷ []) ≡ some value)
    × (from_args as_is false (text color ∷ []) ≡ some start)
    × (value ≡ start ++ rest)
unfolding is_empty_text
from_args-from_object_example =
    from_args-from_object as_is false ((color, red) ∷ []) color red (inl refl) refl
