-- ===== src/Keys/Texts.antt =====
-- index.go: StringFieldIndex and StringSliceFieldIndex. `lower` is strings.ToLower, and `described`
-- what reflection's String() gives for a value that is no string; both are Go's library.
pub mod Lookup
use go_maemmidb.Base.{
  ℕ, ◌-◌, Bool, true, false, List, [], ◌∷◌, ◌++◌, Option, none, some, ◌>>=◌, if◌then◌else◌, length,
  take,
}
use go_maemmidb.Keys.{Text, Key, Value, invalid, nil_text, text, texts, Indexed}
use go_maemmidb.Strings.{is_empty_text, cased, unless_none}

module _ (lower : Text → Text) (lowercase : Bool) where
  -- The lower-cased value, if asked for, and the null character as a terminator.
  unfoldable pub terminated : Text → Key
  unfolding cased
  terminated s = cased lower lowercase s ++ 0 ∷ []

  -- `val := fv.String(); if val == "" { … }`, and the value's key
  unfoldable pub text_object : Text → Indexed
  unfolding is_empty_text terminated
  text_object s = if is_empty_text s then some none else some (some (terminated s))

  -- StringFieldIndex.fromObjectSlow
  unfoldable pub string_object : (Value → Text) → Value → Indexed
  unfolding text_object
  string_object described invalid = none
  string_object described nil_text = some none
  string_object described (text s) = text_object s
  string_object described v = text_object (described v)

  -- fromArgsSlow of both; `none` is an error
  unfoldable pub string_args : List Value → Option Key
  unfolding terminated
  string_args (text s ∷ []) = some (terminated s)
  string_args _ = none

  -- prefixFromArgsSlow of both: the key without its last byte
  unfoldable pub string_prefix_args : List Value → Option Key
  unfolding string_args
  string_prefix_args args = string_args args >>= λ val. some (take (length val - 1) val)

  -- The loop of StringSliceFieldIndex.fromObjectSlow.
  unfoldable pub slice_keys : List Text → List Key
  unfolding is_empty_text terminated
  slice_keys [] = []
  slice_keys (s ∷ rest) =
      let keys = slice_keys rest in if is_empty_text s then keys else terminated s ∷ keys

  -- StringSliceFieldIndex.fromObjectSlow: an error, no value, or several
  unfoldable pub slice_object : Value → Option (Option (List Key))
  unfolding slice_keys unless_none
  slice_object (texts ss) = some (unless_none lower lowercase (slice_keys ss))
  slice_object _ = none
