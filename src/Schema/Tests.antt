-- ===== src/Schema/Tests.antt =====
-- Runs of schema.go on a schema of one table.
use go_maemmidb.Base.{◌≡◌, ◌↔◌, refl, true, false, [], ◌∷◌, List, Option, none, some}
use go_maemmidb.Schema.{
  Name, IndexSchema, TableSchema, single, id_name, validate, in_table, id_not_unique,
}
use go_maemmidb.Schema.Laws.{IsSchema, validate-IsSchema}

abbrev rows : Name
rows = 114 ∷ []

abbrev by_id : IndexSchema
by_id = record { name = id_name; allow_missing = false; unique = true; indexer = single }

abbrev good : Option (List (Name × TableSchema))
good = some ((rows, record { name = rows; indexes = (id_name, by_id) ∷ [] }) ∷ [])

abbrev bad : Option (List (Name × TableSchema))
bad =
    some (
      (rows, record { name = rows; indexes = (id_name, record by_id { unique = false }) ∷ [] })
      ∷ [])

accepts : validate good ≡ none
unfolding validate
accepts = refl

rejects : validate bad ≡ some (in_table rows id_not_unique)
unfolding validate
rejects = refl

validate-IsSchema_example : (validate good ≡ none) ↔ IsSchema good
validate-IsSchema_example = validate-IsSchema good
