-- ===== src/Schema/Laws.antt =====
-- Which schemas Validate of schema.go accepts.
use go_maemmidb.Base.{
  ◌≡◌, ◌↔◌, refl, Bool, true, false, List, [], ◌∷◌, Option, none, some, if◌then◌else◌, Every,
}
use go_maemmidb.Schema.{
  Name, same_name, is_blank, Indexer, missing, single, multi, neither, IndexSchema, TableSchema,
  Fault, id_name, validate_indexer, validate_index, check, validate_indexes, find_index, is_single,
  validate_id, validate_table, validate_tables, validate,
}

abbrev pub IsIndexer : Indexer → Type 0
IsIndexer missing = ⊥
IsIndexer single = Unit
IsIndexer multi = Unit
IsIndexer neither = ⊥

-- An index that has the name it is filed under, and an indexer of a known kind.
abbrev pub IsIndex : Name × IndexSchema → Type 0
IsIndex e = (same_name e.0 e.1.name ≡ true) × (is_blank e.1.name ≡ false) × IsIndexer e.1.indexer

-- The index called id is unique and has a single indexer.
abbrev pub HasId : TableSchema → Type 0
HasId t =
    (i : IndexSchema) × (find_index t.indexes id_name ≡ some i)
    × (i.unique ≡ true)
    × (is_single i.indexer ≡ true)

abbrev pub IsTable : Name × TableSchema → Type 0
IsTable e =
    (same_name e.0 e.1.name ≡ true)
    × (is_blank e.1.name ≡ false)
    × HasId e.1
    × Every IsIndex e.1.indexes

check-none :
    (o : Option Fault) (wrap : Fault → Fault) (later : Option Fault)
    → check o wrap later ≡ none
    → (o ≡ none) × (later ≡ none)
unfolding check
check-none none wrap later e = (refl, e)
check-none (some f) wrap later e = cc

indexer_valid : (n : Name) (i : Indexer) → validate_indexer n i ≡ none → IsIndexer i
unfolding validate_indexer
indexer_valid n missing e = cc
indexer_valid n single e = tt
indexer_valid n multi e = tt
indexer_valid n neither e = cc

indexer_accepted : (n : Name) (i : Indexer) → IsIndexer i → validate_indexer n i ≡ none
unfolding validate_indexer
indexer_accepted n missing v = absurd v
indexer_accepted n single v = refl
indexer_accepted n multi v = refl
indexer_accepted n neither v = absurd v

if-none :
    (b : Bool) (x : Option Fault) (f : Fault)
    → (if b then x else some f) ≡ none
    → (b ≡ true) × (x ≡ none)
if-none true x f e = (refl, e)
if-none false x f e = cc

else-none :
    (b : Bool) (x : Option Fault) (f : Fault)
    → (if b then some f else x) ≡ none
    → (b ≡ false) × (x ≡ none)
else-none true x f e = cc
else-none false x f e = (refl, e)

IsIndex-valid :
    (name : Name) (i : IndexSchema)
    → same_name name i.name ≡ true
    → validate_index i ≡ none
    → IsIndex (name, i)
unfolding validate_index
IsIndex-valid name i same e =
    let (blank, ok) = else-none (is_blank i.name) _ _ e in
    (same, blank, indexer_valid i.name i.indexer ok)

indexes_valid : (es : List (Name × IndexSchema)) → validate_indexes es ≡ none → Every IsIndex es
unfolding validate_indexes
indexes_valid [] e = tt
indexes_valid ((name, i) ∷ rest) e =
    let (same, checked) = if-none (same_name name i.name) _ _ e in
    let (ok, later) = check-none (validate_index i) _ (validate_indexes rest) checked in
    (IsIndex-valid name i same ok, indexes_valid rest later)

indexes_accepted : (es : List (Name × IndexSchema)) → Every IsIndex es → validate_indexes es ≡ none
unfolding validate_indexes validate_index check
indexes_accepted [] v = refl
indexes_accepted ((name, i) ∷ rest) ((same, blank, ok), later) =
    rw (same, validate_index, blank, indexer_accepted i.name i.indexer ok)
      (indexes_accepted rest later)

id_valid :
    (o : Option IndexSchema)
    → validate_id o ≡ none
    → (i : IndexSchema) × (o ≡ some i) × (i.unique ≡ true) × (is_single i.indexer ≡ true)
unfolding validate_id
id_valid none e = cc
id_valid (some i) e =
    let (unique, rest) = if-none i.unique _ _ e in
    let (one, done) = if-none (is_single i.indexer) none _ rest in (i, refl, unique, one)

id_accepted :
    (o : Option IndexSchema) (i : IndexSchema)
    → o ≡ some i
    → i.unique ≡ true
    → is_single i.indexer ≡ true
    → validate_id o ≡ none
unfolding validate_id
id_accepted o i found unique one = rw (found, validate_id, unique, one) refl

IsTable-valid :
    (key name : Name) (es : List (Name × IndexSchema))
    → same_name key name ≡ true
    → validate_table (record { name = name; indexes = es }) ≡ none
    → IsTable (key, record { name = name; indexes = es })
unfolding validate_table
IsTable-valid key name [] same e = let (blank, rest) = else-none (is_blank name) _ _ e in cc
IsTable-valid key name (x ∷ xs) same e =
    let (blank, rest) = else-none (is_blank name) _ _ e in
    let (ok, later) =
      check-none (validate_id (find_index (x ∷ xs) id_name)) _ (validate_indexes (x ∷ xs)) rest in
    (same, blank, id_valid (find_index (x ∷ xs) id_name) ok, indexes_valid (x ∷ xs) later)

table_accepted :
    (key name : Name) (es : List (Name × IndexSchema))
    → IsTable (key, record { name = name; indexes = es })
    → validate_table (record { name = name; indexes = es }) ≡ none
unfolding validate_table check
table_accepted key name [] (same, blank, (i, found, unique, one), v) =
    let gone : none ≡ some i = (unfold find_index in found) in cc
table_accepted key name (x ∷ xs) (same, blank, (i, found, unique, one), v) =
    rw (validate_table, blank, id_accepted (find_index (x ∷ xs) id_name) i found unique one)
      (indexes_accepted (x ∷ xs) v)

tables_valid : (es : List (Name × TableSchema)) → validate_tables es ≡ none → Every IsTable es
unfolding validate_tables
tables_valid [] e = tt
tables_valid ((key, t) ∷ rest) e =
    let (same, checked) = if-none (same_name key t.name) _ _ e in
    let (ok, later) = check-none (validate_table t) _ (validate_tables rest) checked in
    (IsTable-valid key t.name t.indexes same ok, tables_valid rest later)

tables_accepted : (es : List (Name × TableSchema)) → Every IsTable es → validate_tables es ≡ none
unfolding validate_tables check
tables_accepted [] v = refl
tables_accepted ((key, t) ∷ rest) (v, later) =
    let ok : validate_table t ≡ none = table_accepted key t.name t.indexes v in
    rw (v.0, ok) (tables_accepted rest later)

-- A schema that is not nil, has a table, and whose tables are all valid.
abbrev pub IsSchema : Option (List (Name × TableSchema)) → Type 0
IsSchema none = ⊥
IsSchema (some []) = ⊥
IsSchema (some (e ∷ rest)) = Every IsTable (e ∷ rest)

-- Validate returns no error exactly for the schemas that are not nil, have a table, and file
-- every table and every index under its own name, that is not blank, where every index has a
-- single or a multi indexer and every table has a unique id index with a single indexer.
pub validate-IsSchema : (s : Option (List (Name × TableSchema))) → (validate s ≡ none) ↔ IsSchema s
unfolding validate
validate-IsSchema none = (λ e. cc, λ v. absurd v)
validate-IsSchema (some []) = (λ e. cc, λ v. absurd v)
validate-IsSchema (some (e ∷ rest)) = (tables_valid (e ∷ rest), tables_accepted (e ∷ rest))
