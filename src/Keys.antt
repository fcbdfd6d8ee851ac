-- ===== src/Keys.antt =====
-- index.go: the values that the built-in indexes read and the byte strings that they make of them.
-- Reflection is left out: a field of an object is given as the value that reflection finds in it.
pub mod Bytes
pub mod Ints
pub mod Texts
pub mod Flags
pub mod Uuid
pub mod Compound
pub mod Multi
pub mod Tests
use go_maemmidb.Base.{ℕ, Bool, List, [], ◌∷◌, Option, none, some}

-- A string, as its bytes.
abbrev pub Text : Type 0
Text = List ℕ

-- A byte slice.
abbrev pub Key : Type 0
Key = List ℕ

-- reflect.Kind, as far as the indexes tell the kinds apart
pub data Kind : Type 0 where
  int : Kind
  int8 : Kind
  int16 : Kind
  int32 : Kind
  int64 : Kind
  uint : Kind
  uint8 : Kind
  uint16 : Kind
  uint32 : Kind
  uint64 : Kind
  no_number : Kind

-- A field of an object, or an argument of a query; `invalid` is what reflection makes of nil. A number is the 64-bit pattern that Int() or
-- Uint() gives.
pub data Value : Type 0 where
  invalid : Value
  nil_text : Value
  text : Text → Value
  texts : List Text → Value
  bytes : Key → Value
  number : Kind → ℕ → Value
  flag : Bool → Value
  other : Value

-- What FromObject returns: `none` is an error, `some none` no value.
abbrev pub Indexed : Type 0
Indexed = Option (Option Key)
