-- ===== src/Keys/Ints.antt =====
-- index.go: IntFieldIndex and UintFieldIndex. The outer `none` of a result is a panic.
-- A number is a 64-bit pattern, in two's complement where it is signed. The exclusive or with
-- `-1 << (n-1)`, cut to n bits, flips the highest bit, which is the addition of half of 2 ^ n.
pub mod Order
use go_maemmidb.Base.{
  ℕ, ◌+◌, ◌*◌, ◌/◌, ◌%◌, ◌^◌, Bool, true, false, ◌||◌, List, [], ◌∷◌, Option, none, some, ◌>>=◌,
  ◌==◌, if◌then◌else◌,
}
use go_maemmidb.Keys.{
  Key, Kind, int, int8, int16, int32, int64, uint, uint8, uint16, uint32, uint64, Value, number,
  invalid, Indexed,
}
use go_maemmidb.Keys.Bytes.{big_endian}

unfoldable pub has_width : ℕ → Bool
has_width size = size == 1 || size == 2 || size == 4 || size == 8

unfoldable pub encode_uint : ℕ → ℕ → Option Key
unfolding has_width big_endian
encode_uint val size = if has_width size then some (big_endian size (val % 256 ^ size)) else none

unfoldable pub encode_int : ℕ → ℕ → Option Key
unfolding has_width big_endian
encode_int val size =
    if has_width size then some (big_endian size ((val + 256 ^ size / 2) % 256 ^ size)) else none

-- `int_bytes` is strconv.IntSize / 8.
module _ (int_bytes : ℕ) where
  unfoldable pub is_int_type : Kind → Option ℕ
  is_int_type int = some int_bytes
  is_int_type int8 = some 1
  is_int_type int16 = some 2
  is_int_type int32 = some 4
  is_int_type int64 = some 8
  is_int_type _ = none

  unfoldable pub is_uint_type : Kind → Option ℕ
  is_uint_type uint = some int_bytes
  is_uint_type uint8 = some 1
  is_uint_type uint16 = some 2
  is_uint_type uint32 = some 4
  is_uint_type uint64 = some 8
  is_uint_type _ = none

  -- The value's type and its encoding, or an error: what FromObject and FromArgs share.
  unfoldable pub encode_as : Option ℕ → (ℕ → ℕ → Option Key) → ℕ → Option (Option Key)
  encode_as none encode v = some none
  encode_as (some size) encode v = encode v size >>= λ k. some (some k)

  unfoldable pub int_value : Value → Option (Option Key)
  unfolding encode_as is_int_type encode_int
  int_value (number k v) = encode_as (is_int_type k) encode_int v
  int_value _ = some none

  unfoldable pub uint_value : Value → Option (Option Key)
  unfolding encode_as is_uint_type encode_uint
  uint_value (number k v) = encode_as (is_uint_type k) encode_uint v
  uint_value _ = some none

  -- A value that is there, or the error.
  unfoldable pub indexed : Option Key → Indexed
  indexed none = none
  indexed (some k) = some (some k)

  -- IntFieldIndex.fromObjectSlow
  unfoldable pub int_object : Value → Option Indexed
  unfolding int_value indexed
  int_object field = int_value field >>= λ r. some (indexed r)

  -- IntFieldIndex.fromArgsSlow
  unfoldable pub int_args : List Value → Option (Option Key)
  unfolding int_value
  int_args (arg ∷ []) = int_value arg
  int_args _ = some none

  -- UintFieldIndex.fromObjectSlow
  unfoldable pub uint_object : Value → Option Indexed
  unfolding uint_value indexed
  uint_object field = uint_value field >>= λ r. some (indexed r)

  -- UintFieldIndex.fromArgsSlow
  unfoldable pub uint_args : List Value → Option (Option Key)
  unfolding uint_value
  uint_args (arg ∷ []) = uint_value arg
  uint_args _ = some none
