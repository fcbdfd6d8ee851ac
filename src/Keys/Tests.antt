-- ===== src/Keys/Tests.antt =====
-- Keys and queries of the indexes of index.go on small values.
use go_maemmidb.Base.{
  ℕ, zero, suc, ◌-◌, ◌*◌, ◌+◌, ◌^◌, ◌≤◌, ◌<◌, ◌≡◌, Every, refl, true, false, not, ◌&&◌, arith, List,
  [], ◌∷◌, ◌++◌, some, ◌==◌, ltb, length, inl,
}
use mathlib.Core.List.{Mem}
use go_maemmidb.Keys.{Text, Key, Value, text, number, int8}
use go_maemmidb.Keys.Bytes.{less_bytes, is_prefix}
use go_maemmidb.Keys.Ints.{has_width, is_int_type, encode_int, encode_uint, int_args, int_object}
use go_maemmidb.Keys.Ints.Order.{
  less_signed, fits_int, less_bytes-encode_int, less_bytes-encode_uint, is_prefix-int_args,
}
use go_maemmidb.Strings.{is_empty_text, cased}
use go_maemmidb.Txn.{same_key}
use go_maemmidb.Keys.Texts.{string_args, string_object, string_prefix_args}
use go_maemmidb.Keys.Texts.Lookup.{is_clean, is_prefix-string_args, is_prefix-string_prefix_args}
use go_maemmidb.Keys.Uuid.{hyphens, sanitize, decode_hex, parse}
use go_maemmidb.Keys.Uuid.RoundTrip.{print_groups, concat, parse-print_groups, length-parse}
use go_maemmidb.Keys.Compound.{
  Sub, compound_object, compound_args, compound_prefix_args, object_loop, after_sub,
}
use go_maemmidb.Keys.Compound.Agreement.{compound_args-object, compound_prefix_args-object}
use go_maemmidb.Keys.Multi.{
  MultiSub, multi, multi_object, multi_args, build, values_of, after_values, walk_builder,
  walk_vals, walk_each, prefix_key,
}
use go_maemmidb.Keys.Multi.Choices.{one, flat, multi_args-object}

-- -2 and 5, in eight bits
abbrev minus_two : ℕ
minus_two = 2 ^ 64 - 2

minus_two_key : encode_int minus_two 1 ≡ some (126 ∷ [])
unfolding encode_int
minus_two_key = refl

less_bytes-encode_int_example :
    (x : Key) × (y : Key) × (encode_int minus_two 1 ≡ some x)
    × (encode_int 5 1 ≡ some y)
    × (less_bytes x y ≡ less_signed minus_two 5)
unfolding has_width fits_int
less_bytes-encode_int_example = less_bytes-encode_int 1 minus_two 5 refl refl refl

less_bytes-encode_uint_example :
    (x : Key) × (y : Key) × (encode_uint 300 2 ≡ some x)
    × (encode_uint 5 2 ≡ some y)
    × (less_bytes x y ≡ ltb 300 5)
unfolding has_width
less_bytes-encode_uint_example = less_bytes-encode_uint 2 300 5 refl (omega arith) (omega arith)

is_prefix-int_args_example :
    (x : Key) × (y : Key) × (int_args 8 (number int8 minus_two ∷ []) ≡ some (some x))
    × (int_object 8 (number int8 5) ≡ some (some (some y)))
    × (is_prefix x (y ++ 7 ∷ []) ≡ (minus_two == 5))
unfolding is_int_type has_width fits_int
is_prefix-int_args_example = is_prefix-int_args 8 int8 1 minus_two 5 (7 ∷ []) refl refl refl refl

abbrev as_is : Text → Text
as_is s = s

abbrev no_text : Value → Text
no_text v = []

abbrev ab : Text
ab = 97 ∷ 98 ∷ []

is_prefix-string_args_example :
    (x : Key) × (y : Key) × (string_args as_is true (text (97 ∷ []) ∷ []) ≡ some x)
    × (string_object as_is true no_text (text ab) ≡ some (some y))
    × (is_prefix x (y ++ 7 ∷ []) ≡ same_key (cased as_is true (97 ∷ [])) (cased as_is true ab))
unfolding is_empty_text is_clean cased
is_prefix-string_args_example =
    is_prefix-string_args as_is true no_text (97 ∷ []) ab (7 ∷ []) refl refl refl

is_prefix-string_prefix_args_example :
    (x : Key) × (y : Key) × (string_prefix_args as_is true (text (97 ∷ []) ∷ []) ≡ some x)
    × (string_object as_is true no_text (text ab) ≡ some (some y))
    × (is_prefix x (y ++ 7 ∷ []) ≡ is_prefix (cased as_is true (97 ∷ [])) (cased as_is true ab))
unfolding is_empty_text is_clean cased
is_prefix-string_prefix_args_example =
    is_prefix-string_prefix_args as_is true no_text (97 ∷ []) ab (7 ∷ []) refl refl

abbrev groups : List Key
groups = (4 ∷ 175 ∷ []) ∷ (6 ∷ 7 ∷ []) ∷ (8 ∷ 9 ∷ []) ∷ (10 ∷ 11 ∷ 12 ∷ 13 ∷ 14 ∷ 255 ∷ []) ∷ []

abbrev first_group : Key
first_group = 0 ∷ 1 ∷ 2 ∷ 3 ∷ []

small_bytes : Every (λ b. b < 256) (concat first_group groups)
small_bytes = omega arith

parse-print_groups_example :
    parse (print_groups first_group groups) true ≡ some (concat first_group groups)
parse-print_groups_example =
    parse-print_groups first_group groups true small_bytes (omega arith) (omega arith) (λ e. refl)

abbrev repeated : ℕ → ℕ → Text → Text
repeated zero c s = s
repeated (suc n) c s = c ∷ repeated n c s

-- 34 digits and two hyphens
abbrev two_hyphens : Text
two_hyphens = 45 ∷ repeated 34 48 (45 ∷ [])

seventeen : parse two_hyphens true ≡ some (repeated 17 0 [])
unfolding parse hyphens sanitize decode_hex
seventeen = refl

length-parse_example :
    (2 * length (repeated 17 0 []) + hyphens two_hyphens ≡ length two_hyphens)
    × (length two_hyphens ≤ 36)
    × (hyphens two_hyphens ≤ 4)
    × ((true && not (length two_hyphens == 36)) ≡ false)
length-parse_example = length-parse two_hyphens true (repeated 17 0 []) seventeen

-- A sub-index that takes any one argument for the byte 5, and has it for every object.
abbrev five : Sub ℕ
five = record {
  is_single = true;
  object = λ n. some (some (5 ∷ []));
  args = λ a. some (5 ∷ []);
  prefix = some (λ a. some (5 ∷ []));
}

-- A sub-index for the object itself, which takes any argument for 7.
abbrev itself : Sub ℕ
itself = record {
  is_single = true;
  object = λ n. some (some (n ∷ 9 ∷ []));
  args = λ a. some (7 ∷ 9 ∷ []);
  prefix = some (λ a. some (7 ∷ []));
}

compound_args-object_example :
    (k : Key) × (compound_object (five ∷ itself ∷ []) false 7 ≡ some (some k))
    × (compound_args (five ∷ itself ∷ []) (text ab ∷ text ab ∷ []) ≡ some k)
compound_args-object_example =
    compound_args-object (five ∷ itself ∷ []) (text ab ∷ text ab ∷ []) false 7
      (refl, (_, refl, refl), (refl, (_, refl, refl), tt))

compound_prefix_args-object_example :
    (x : Key) × (compound_prefix_args (five ∷ itself ∷ []) (text ab ∷ text ab ∷ []) ≡ some x)
    × (is_prefix x (5 ∷ 7 ∷ 9 ∷ []) ≡ true)
unfolding is_prefix compound_object object_loop after_sub
compound_prefix_args-object_example =
    compound_prefix_args-object (five ∷ itself ∷ []) (text ab ∷ text ab ∷ []) false 7
      (5 ∷ 7 ∷ 9 ∷ []) (omega arith)
      (refl, (_, refl, refl), (refl, (_, _, _, refl, refl, refl, refl))) refl

-- A multi-valued sub-index with two values for every object, of which a query builds the second.
abbrev both : MultiSub ℕ
both = record {
  found = λ n. multi (some (some ((1 ∷ []) ∷ (2 ∷ []) ∷ [])));
  is_string_map = false;
  args = λ a. some (2 ∷ []);
}

multi_args-object_example :
    (k : Key) × (multi_args (both ∷ both ∷ []) true (flat (one (text ab) ∷ [])) ≡ some k)
    × Mem k ((1 ∷ []) ∷ (1 ∷ 1 ∷ []) ∷ (1 ∷ 2 ∷ []) ∷ (2 ∷ []) ∷ (2 ∷ 1 ∷ []) ∷ (2 ∷ 2 ∷ []) ∷ [])
unfolding multi_object build values_of after_values walk_builder walk_vals walk_each prefix_key
multi_args-object_example =
    multi_args-object (both ∷ both ∷ []) (one (text ab)) [] ((2 ∷ []) ∷ []) true 0 _
      ((_, 1, refl, refl), ((refl, refl), tt)) (inl refl) refl
