-- ===== src/Strings.antt =====
-- index.go: the keys of StringMapFieldIndex. The reading of the field by reflection is left out:
-- an object is given as the entries of its map, in the order of one iteration. `lower` is
-- strings.ToLower of the Go library.
pub mod Laws
pub mod Tests
use go_maemmidb.Base.{ℕ, Bool, true, false, List, [], ◌∷◌, ◌++◌, Option, none, some, if◌then◌else◌}
use go_maemmidb.Keys.{Text, Value, text}

unfoldable pub is_empty_text : Text → Bool
is_empty_text [] = true
is_empty_text (x ∷ xs) = false

module _ (lower : Text → Text) (lowercase : Bool) where
  -- `if s.Lowercase { k = strings.ToLower(k) }`
  unfoldable pub cased : Text → Text
  cased s = if lowercase then lower s else s

  -- `k += "\x00" + val + "\x00"`
  unfoldable pub entry_key : Text × Text → Text
  unfolding cased
  entry_key e = cased e.0 ++ 0 ∷ (cased e.1 ++ 0 ∷ [])

  -- The loop over the keys of the map.
  unfoldable pub map_keys : List (Text × Text) → List Text
  unfolding entry_key is_empty_text
  map_keys [] = []
  map_keys (e ∷ es) =
      let rest = map_keys es in if is_empty_text e.0 then rest else entry_key e ∷ rest

  unfoldable pub unless_none : List Text → Option (List Text)
  unless_none [] = none
  unless_none (v ∷ vs) = some (v ∷ vs)

  -- fromObjectSlow, of a field that is a map of strings: no value if there is no key
  unfoldable pub from_object : List (Text × Text) → Option (List Text)
  unfolding map_keys unless_none
  from_object es = unless_none (map_keys es)

  -- fromArgsSlow; `none` is an error
  unfoldable pub from_args : List Value → Option Text
  unfolding cased
  from_args (text k ∷ []) = some (cased k ++ 0 ∷ [])
  from_args (text k ∷ text v ∷ []) = some ((cased k ++ 0 ∷ []) ++ (cased v ++ 0 ∷ []))
  from_args _ = none
