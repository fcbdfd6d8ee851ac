-- ===== src/Keys/Flags.antt =====
-- index.go: BoolFieldIndex, FieldSetIndex and ConditionalIndex, which share their queries.
use go_maemmidb.Base.{
  ◌≡◌, ◌++◌, refl, Bool, true, false, List, [], ◌∷◌, Option, none, some, if◌then◌else◌,
}
use go_maemmidb.Keys.{Key, Value, invalid, flag, Indexed}
use go_maemmidb.Keys.Bytes.{is_prefix}

unfoldable pub flag_key : Bool → Key
flag_key b = if b then 1 ∷ [] else 0 ∷ []

-- fromBoolArgs; `none` is an error
unfoldable pub bool_args : List Value → Option Key
unfolding flag_key
bool_args (flag b ∷ []) = some (flag_key b)
bool_args _ = none

-- BoolFieldIndex.fromObjectSlow
unfoldable pub bool_object : Value → Indexed
unfolding flag_key
bool_object (flag b) = some (some (flag_key b))
bool_object _ = none

-- FieldSetIndex.fromObjectSlow; `is_zero` is the comparison with the type's zero value
unfoldable pub set_object : (Value → Bool) → Value → Indexed
unfolding flag_key
set_object is_zero invalid = none
set_object is_zero v = some (some (flag_key (if is_zero v then false else true)))

-- ConditionalIndex.FromObject; the condition is the user's function, `none` its error
unfoldable pub condition_object : {Obj : Type 0} → (Obj → Option Bool) → Obj → Indexed
unfolding flag_key
condition_object condition obj = elim (condition obj) [
  | none ↦ none
  | some b ↦ some (some (flag_key b))
]

abbrev pub same_flag : Bool → Bool → Bool
same_flag a b = if a then b else if b then false else true

-- A search by prefix with a flag finds, of the objects where a condition's call succeeds and with
-- anything behind their keys, those where the condition has that value.
pub is_prefix-bool_args :
    {Obj : Type 0} (condition : Obj → Option Bool) (obj : Obj) (a b : Bool) (id : Key)
    → condition obj ≡ some b
    → (x : Key) × (y : Key) × (bool_args (flag a ∷ []) ≡ some x)
      × (condition_object condition obj ≡ some (some y))
      × (is_prefix x (y ++ id) ≡ same_flag a b)
unfolding bool_args condition_object flag_key is_prefix
is_prefix-bool_args condition obj true true id e =
    (flag_key true, flag_key true, refl, rw (condition_object, e) refl, refl)
is_prefix-bool_args condition obj true false id e =
    (flag_key true, flag_key false, refl, rw (condition_object, e) refl, refl)
is_prefix-bool_args condition obj false true id e =
    (flag_key false, flag_key true, refl, rw (condition_object, e) refl, refl)
is_prefix-bool_args condition obj false false id e =
    (flag_key false, flag_key false, refl, rw (condition_object, e) refl, refl)
