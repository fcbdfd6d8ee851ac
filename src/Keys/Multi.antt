-- ===== src/Keys/Multi.antt =====
-- index.go: CompoundMultiIndex. `none` is an error.
pub mod Choices
use go_maemmidb.Base.{
  ℕ, zero, suc, ◌+◌, Bool, true, false, not, List, [], ◌∷◌, ◌++◌, map, Option, none, some, ◌>>=◌,
  ◌==◌, leb, ltb, if◌then◌else◌, length,
}
use go_maemmidb.Keys.{Key, Value, invalid}

-- A sub-index: what the type switch of fromObjectSlow finds (its FromObject, as a SingleIndexer
-- or a MultiIndexer), whether it is a StringMapFieldIndex, and its FromArgs.
pub data Found : Type 0 where
  single : Option (Option Key) → Found
  multi : Option (Option (List Key)) → Found
  neither : Found

pub record MultiSub (Obj : Type 0) : Type 0 where
  pub found : Obj → Found
  pub is_string_map : Bool
  pub args : List Value → Option Key

-- The values that one sub-index adds to the builder: `none` is an error, `some none` no value.
unfoldable pub values_of : Found → Option (Option (List Key))
values_of (single none) = none
values_of (single (some none)) = some none
values_of (single (some (some val))) = some (some (val ∷ []))
values_of (multi vals) = vals
values_of neither = none

-- What follows from one sub-index's values in forloop.
unfoldable pub after_values :
    Option (Option (List Key))
    → Bool
    → Option (Option (List (List Key)))
    → Option (Option (List (List Key)))
after_values none allow_missing rest = none
after_values (some none) true rest = some (some [])
after_values (some none) false rest = some none
after_values (some (some vals)) allow_missing none = none
after_values (some (some vals)) allow_missing (some none) = some none
after_values (some (some vals)) allow_missing (some (some builder)) = some (some (vals ∷ builder))

unfoldable pub prefix_key : Bool → Key → List Key
prefix_key true next = next ∷ []
prefix_key false next = []

-- The loop over builder[depth], where depth is not the last, with what is below.
unfoldable pub walk_each : Bool → (Key → List Key) → List Key → Key → List Key
unfolding prefix_key
walk_each allow_missing deeper [] prefix = []
walk_each allow_missing deeper (v ∷ vals) prefix =
    prefix_key allow_missing (prefix ++ v)
    ++ (deeper (prefix ++ v) ++ walk_each allow_missing deeper vals prefix)

-- walkVals: the keys it appends to out, in order. The builder is the part from depth on.
unfoldable pub walk_vals : Bool → List (List Key) → Key → List Key
unfolding walk_each
walk_vals allow_missing [] prefix = []
walk_vals allow_missing (vals ∷ []) prefix = map (λ v. prefix ++ v) vals
walk_vals allow_missing (vals ∷ next ∷ builder) prefix =
    walk_each allow_missing (walk_vals allow_missing (next ∷ builder)) vals prefix

-- The keys, once forloop has the builder.
unfoldable pub walk_builder : Bool → Option (Option (List (List Key))) → Option (Option (List Key))
unfolding walk_vals
walk_builder allow_missing none = none
walk_builder allow_missing (some none) = some none
walk_builder allow_missing (some (some builder)) = some (some (walk_vals allow_missing builder []))

module _ {Obj : Type 0} where
  -- forloop of fromObjectSlow
  unfoldable pub build : List (MultiSub Obj) → Bool → Obj → Option (Option (List (List Key)))
  unfolding values_of after_values
  build [] allow_missing obj = some (some [])
  build (s ∷ ss) allow_missing obj =
      after_values (values_of (s.found obj)) allow_missing (build ss allow_missing obj)

  -- fromObjectSlow
  unfoldable pub multi_object : List (MultiSub Obj) → Bool → Obj → Option (Option (List Key))
  unfolding build walk_builder
  multi_object ss allow_missing obj = walk_builder allow_missing (build ss allow_missing obj)

-- The count of string maps in the first loop of FromArgs: `none` is a missing pair.
unfoldable pub pairs : {Obj : Type 0} → List (MultiSub Obj) → List Value → Option ℕ
pairs [] args = some 0
pairs (s ∷ ss) [] = some 0
pairs (s ∷ ss) (a ∷ []) = if s.is_string_map then none else pairs ss []
pairs (s ∷ ss) (a ∷ b ∷ args) =
    let paired = pairs ss args in
    let plain = pairs ss (b ∷ args) in
    if s.is_string_map then (paired >>= λ n. some (suc n)) else plain

-- What a StringMapFieldIndex is asked for with a pair of arguments, of which the second may be nil.
unfoldable pub pair_of : Value → Value → List Value
pair_of a invalid = a ∷ []
pair_of a b = a ∷ b ∷ []

-- The last loop of FromArgs, with what is appended so far; a pair cut short is a panic.
unfoldable pub collect_args : {Obj : Type 0} → List (MultiSub Obj) → List Value → Key → Option Key
unfolding pair_of
collect_args [] args out = some out
collect_args (s ∷ ss) [] out = some out
collect_args (s ∷ ss) (a ∷ []) out =
    let last = s.args (a ∷ []) >>= λ val. some (out ++ val) in
    if s.is_string_map then none else last
collect_args (s ∷ ss) (a ∷ b ∷ args) out =
    let paired = s.args (pair_of a b) >>= λ val. collect_args ss args (out ++ val) in
    let plain = s.args (a ∷ []) >>= λ val. collect_args ss (b ∷ args) (out ++ val) in
    if s.is_string_map then paired else plain

-- The check of the number of arguments: `true` is an error.
unfoldable pub wrong_count : Bool → ℕ → ℕ → Bool
wrong_count true given wanted = ltb wanted given
wrong_count false given wanted = not (given == wanted)

-- FromArgs
unfoldable pub multi_args : {Obj : Type 0} → List (MultiSub Obj) → Bool → List Value → Option Key
unfolding pairs wrong_count collect_args
multi_args ss allow_missing args = pairs ss args >>= λ string_maps.
    if wrong_count allow_missing (length args) (length ss + string_maps)
    then none
    else collect_args ss args []
