-- ===== src/Txn.antt =====
-- txn.go: write transactions over the index trees of a table (Insert, Delete, Commit, Abort), with
-- keys of schema_compile.go. `none` around a result is a panic.
-- The radix tree engine is third-party code: a record of its calls, whose laws are in Txn/Trees.
-- The bitmap half of a write (bitmap_index.go) is an interface, the record `Books`.
pub mod Trees
pub mod Replacing
pub mod Writes
pub mod Views
pub mod Rows
pub mod Atomic
pub mod Puts
pub mod Stored
pub mod Deferred
pub mod Ends
pub mod Published
pub mod Tests
use go_maemmidb.Base.{
  ℕ, zero, suc, ◌+◌, Bool, true, false, ◌&&◌, ◌||◌, not, List, [], ◌∷◌, ◌++◌, Option, none, some,
  ◌>>=◌, ◌==◌, if◌then◌else◌, update,
}

-- A byte slice.
abbrev pub Key : Type 0
Key = List ℕ

unfoldable pub same_key : Key → Key → Bool
same_key [] [] = true
same_key (x ∷ xs) (y ∷ ys) = let rest = same_key xs ys in if x == y then rest else false
same_key _ _ = false

pub data Error : Type 0 where
  read_only : Error
  invalid_table : Error
  not_found : Error
  primary_failed : Error
  primary_missing : Error
  index_failed : Key → Error
  index_missing : Key → Error

pub data Outcome (A : Type 0) : Type 0 where
  ok : A → Outcome A
  failed : Error → Outcome A

-- The calls of the engine: `Tree` is juuri.Tree, `Work` the tree transaction juuri.Txn.
pub record Engine (Obj : Type 0) : Type 1 where
  pub Tree : Type 0
  pub Work : Type 0
  pub get : Tree → Key → Option Obj
  pub begin : Tree → Work
  pub tree : Work → Tree
  pub insert : Work → Key → Obj → Option Obj × Work
  pub delete : Work → Key → Option Obj × Work
  pub commit : Work → Tree

-- compiledIndex: `values` is the indexer's FromObject, an error, no value or a list of values (one
-- value for a SingleIndexer).
pub record Index (Obj : Type 0) : Type 0 where
  pub name : Key
  pub slot : ℕ
  pub ord : ℕ
  pub unique : Bool
  pub allow_missing : Bool
  pub values : Obj → Option (Option (List Key))

-- compiledTable: indexes[0], indexes[1:classic], and whether there are indexes from classic on.
pub record Table (Obj : Type 0) : Type 0 where
  pub ord : ℕ
  pub primary : Index Obj
  pub ordinary : List (Index Obj)
  pub has_bitmaps : Bool

-- The bitmap half of a table's write state, and bitmapKeys and applyBitmaps on it: the keys may fail,
-- and the application may panic, which is `none`.
pub record Books (Obj : Type 0) : Type 1 where
  pub Rows : Type 0
  pub Moves : Type 0
  pub keys : Table Obj → Option Obj → Option Obj → Outcome Moves
  pub apply : Moves → Option Obj → Option Obj → Key → Rows → Option Rows

-- The old and the new keys of one index in a write, and whether the previous version had a value.
pub record Move : Type 0 where
  pub new_keys : List Key
  pub old_keys : List Key
  pub ok_old : Bool

module _ (Obj : Type 0) where
  -- kl.add for every value
  unfoldable pub with_suffix : Key → List Key → List Key
  with_suffix suffix [] = []
  with_suffix suffix (v ∷ vs) = (v ++ suffix) ∷ with_suffix suffix vs

  -- compiledIndex.keys: whether the object has a value, and its keys
  unfoldable pub keys : Index Obj → Obj → Key → Outcome (Bool × List Key)
  unfolding with_suffix
  keys ci obj id = elim (ci.values obj) [
    | none ↦ failed (index_failed ci.name)
    | some none ↦ ok (false, [])
    | some (some vs) ↦ ok (true, with_suffix (if ci.unique then [] else id) vs)
  ]

  -- compiledTable.primaryKey
  unfoldable pub primary_key : Table Obj → Obj → Outcome Key
  primary_key ct obj = elim (ct.primary.values obj) [
    | none ↦ failed primary_failed
    | some none ↦ failed primary_missing
    | some (some []) ↦ failed primary_missing
    | some (some (v ∷ vs)) ↦ ok v
  ]

  -- The keys of the previous version, if there is one.
  unfoldable pub old_keys : Index Obj → Option Obj → Key → Outcome (Bool × List Key)
  unfolding keys
  old_keys ci none id = ok (false, [])
  old_keys ci (some existing) id = keys ci existing id

  -- One round of the loop of Insert that builds the keys.
  unfoldable pub build_move : Index Obj → Obj → Option Obj → Key → Outcome Move
  unfolding keys old_keys
  build_move ci obj existing id = elim (keys ci obj id) [
    | failed e ↦ failed e
    | ok new ↦ elim (old_keys ci existing id) [
      | failed e ↦ failed e
      | ok old ↦
          if not new.0 && not ci.allow_missing
          then failed (index_missing ci.name)
          else ok (record { new_keys = new.1; old_keys = old.1; ok_old = old.0 })
    ]
  ]

  unfoldable pub build_moves : List (Index Obj) → Obj → Option Obj → Key → Outcome (List Move)
  unfolding build_move
  build_moves [] obj existing id = ok []
  build_moves (ci ∷ cis) obj existing id = elim (build_move ci obj existing id) [
    | failed e ↦ failed e
    | ok move ↦ elim (build_moves cis obj existing id) [
      | failed e ↦ failed e
      | ok moves ↦ ok (move ∷ moves)
    ]
  ]

module _ {Obj : Type 0} (E : Engine Obj) where
  -- Old keys that the new key at the same position does not overwrite are deleted.
  unfoldable pub delete_stale : E.Work → List Key → List Key → E.Work
  unfolding same_key
  delete_stale x [] news = x
  delete_stale x (old ∷ olds) [] = delete_stale (E.delete x old).1 olds []
  delete_stale x (old ∷ olds) (new ∷ news) =
      delete_stale (if same_key old new then x else (E.delete x old).1) olds news

  unfoldable pub insert_all : E.Work → List Key → Obj → E.Work
  insert_all x [] obj = x
  insert_all x (k ∷ ks) obj = insert_all (E.insert x k obj).1 ks obj

  -- One round of the loop of Insert that writes the keys.
  unfoldable pub apply_move : E.Work → Move → Obj → E.Work
  unfolding delete_stale insert_all
  apply_move x move obj =
      insert_all (if move.ok_old then delete_stale x move.old_keys move.new_keys else x)
        move.new_keys obj
