-- ===== src/Schema.antt =====
-- schema.go: the validation of a schema. A Go map is the list of its entries in the order of one
-- iteration, with no key twice; the pointers in the maps are not nil. `none` is the nil error.
pub mod Laws
pub mod Tests
use go_maemmidb.Base.{
  ℕ, Bool, true, false, not, List, [], ◌∷◌, Option, none, some, ◌==◌, if◌then◌else◌,
}

-- A string.
abbrev pub Name : Type 0
Name = List ℕ

unfoldable pub same_name : Name → Name → Bool
same_name [] [] = true
same_name (x ∷ xs) (y ∷ ys) = let rest = same_name xs ys in if x == y then rest else false
same_name _ _ = false

unfoldable pub is_blank : Name → Bool
is_blank [] = true
is_blank (x ∷ xs) = false

-- What an indexer implements; one that is both kinds counts as `single`, which is tried first.
pub data Indexer : Type 0 where
  missing : Indexer
  single : Indexer
  multi : Indexer
  neither : Indexer

pub record IndexSchema : Type 0 where
  pub name : Name
  pub allow_missing : Bool
  pub unique : Bool
  pub indexer : Indexer

pub record TableSchema : Type 0 where
  pub name : Name
  pub indexes : List (Name × IndexSchema)

pub data Fault : Type 0 where
  nil_schema : Fault
  no_tables : Fault
  table_mismatch : Name → Fault
  in_table : Name → Fault → Fault
  no_table_name : Fault
  no_indexes : Name → Fault
  no_id : Fault
  id_not_unique : Fault
  id_not_single : Fault
  index_mismatch : Name → Fault
  in_index : Name → Fault → Fault
  no_index_name : Fault
  no_indexer : Name → Fault
  bad_indexer : Name → Fault

-- "id"
abbrev pub id_name : Name
id_name = 105 ∷ 100 ∷ []

unfoldable pub validate_indexer : Name → Indexer → Option Fault
validate_indexer name missing = some (no_indexer name)
validate_indexer name single = none
validate_indexer name multi = none
validate_indexer name neither = some (bad_indexer name)

-- IndexSchema.Validate
unfoldable pub validate_index : IndexSchema → Option Fault
unfolding is_blank validate_indexer
validate_index i = if is_blank i.name then some no_index_name else validate_indexer i.name i.indexer

-- `if err := …; err != nil { return … }`, then what follows
unfoldable pub check : Option Fault → (Fault → Fault) → Option Fault → Option Fault
check none wrap later = later
check (some e) wrap later = some (wrap e)

-- The loop over the indexes of a table.
unfoldable pub validate_indexes : List (Name × IndexSchema) → Option Fault
unfolding same_name validate_index check
validate_indexes [] = none
validate_indexes ((name, i) ∷ rest) =
    let later = validate_indexes rest in
    if same_name name i.name
    then check (validate_index i) (in_index name) later
    else some (index_mismatch name)

unfoldable pub find_index : List (Name × IndexSchema) → Name → Option IndexSchema
unfolding same_name
find_index [] name = none
find_index ((key, i) ∷ rest) name =
    let later = find_index rest name in if same_name key name then some i else later

unfoldable pub is_single : Indexer → Bool
is_single single = true
is_single _ = false

-- The tests on the id index.
unfoldable pub validate_id : Option IndexSchema → Option Fault
unfolding is_single
validate_id none = some no_id
validate_id (some i) =
    if i.unique
    then if is_single i.indexer then none else some id_not_single
    else some id_not_unique

-- TableSchema.Validate
unfoldable pub validate_table : TableSchema → Option Fault
unfolding is_blank validate_id find_index validate_indexes check
validate_table t = if is_blank t.name then some no_table_name else elim t.indexes [
  | [] ↦ some (no_indexes t.name)
  | e ∷ rest ↦
      check (validate_id (find_index t.indexes id_name)) (λ f. f) (validate_indexes t.indexes)
]

-- The loop over the tables of a schema.
unfoldable pub validate_tables : List (Name × TableSchema) → Option Fault
unfolding same_name validate_table check
validate_tables [] = none
validate_tables ((name, t) ∷ rest) =
    let later = validate_tables rest in
    if same_name name t.name
    then check (validate_table t) (in_table name) later
    else some (table_mismatch name)

-- DBSchema.Validate; a nil schema is `none`
unfoldable pub validate : Option (List (Name × TableSchema)) → Option Fault
unfolding validate_tables
validate none = some nil_schema
validate (some []) = some no_tables
validate (some (e ∷ rest)) = validate_tables (e ∷ rest)
