-- ===== src/Keys/Compound.antt =====
-- index.go: CompoundIndex. `none` is an error.
pub mod Agreement
use go_maemmidb.Base.{
  ℕ, Bool, true, false, not, List, [], ◌∷◌, ◌++◌, Option, none, some, ◌>>=◌, ◌==◌, ltb,
  if◌then◌else◌, length,
}
use go_maemmidb.Keys.{Key, Value, Indexed}

-- A sub-index: whether it is a SingleIndexer, its FromObject if so, its FromArgs, and its
-- PrefixFromArgs if it has one.
pub record Sub (Obj : Type 0) : Type 0 where
  pub is_single : Bool
  pub object : Obj → Indexed
  pub args : List Value → Option Key
  pub prefix : Option (List Value → Option Key)

-- What follows from a sub-index's FromObject in the loop of fromObjectSlow.
unfoldable pub after_sub : Bool → Indexed → Bool → Key → (Key → Indexed) → Indexed
after_sub false found allow_missing out later = none
after_sub true none allow_missing out later = none
after_sub true (some none) true out later = some (some out)
after_sub true (some none) false out later = some none
after_sub true (some (some val)) allow_missing out later = later val

unfoldable pub last_prefix : Option (List Value → Option Key) → Value → Key → Option Key
last_prefix none a out = none
last_prefix (some from) a out = from (a ∷ []) >>= λ val. some (out ++ val)

module _ {Obj : Type 0} where
  -- The loop of fromObjectSlow, with what is appended so far.
  unfoldable pub object_loop : List (Sub Obj) → Bool → Obj → Key → Indexed
  unfolding after_sub
  object_loop [] allow_missing obj out = some (some out)
  object_loop (s ∷ ss) allow_missing obj out =
      after_sub s.is_single (s.object obj) allow_missing out
        (λ val. object_loop ss allow_missing obj (out ++ val))

  -- fromObjectSlow
  unfoldable pub compound_object : List (Sub Obj) → Bool → Obj → Indexed
  unfolding object_loop
  compound_object ss allow_missing obj = object_loop ss allow_missing obj []

  -- The loop of fromArgsSlow.
  unfoldable pub args_loop : List (Sub Obj) → List Value → Key → Option Key
  args_loop ss [] out = some out
  args_loop [] (a ∷ bs) out = none
  args_loop (s ∷ ss) (a ∷ bs) out = s.args (a ∷ []) >>= λ val. args_loop ss bs (out ++ val)

  -- fromArgsSlow
  unfoldable pub compound_args : List (Sub Obj) → List Value → Option Key
  unfolding args_loop
  compound_args ss args = if not (length args == length ss) then none else args_loop ss args []

  -- The loop of prefixFromArgsSlow: the last argument is a prefix.
  unfoldable pub prefix_loop : List (Sub Obj) → List Value → Key → Option Key
  unfolding last_prefix
  prefix_loop ss [] out = some out
  prefix_loop [] (a ∷ bs) out = none
  prefix_loop (s ∷ ss) (a ∷ []) out = last_prefix s.prefix a out
  prefix_loop (s ∷ ss) (a ∷ b ∷ bs) out =
      s.args (a ∷ []) >>= λ val. prefix_loop ss (b ∷ bs) (out ++ val)

  -- prefixFromArgsSlow
  unfoldable pub compound_prefix_args : List (Sub Obj) → List Value → Option Key
  unfolding prefix_loop
  compound_prefix_args ss args =
      if ltb (length ss) (length args) then none else prefix_loop ss args []
