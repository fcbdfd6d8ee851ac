-- ===== src/Lib.antt =====
-- A verification library for go-maemmidb, an in-memory database of immutable radix trees with
-- secondary indexes, of which some are bitmap indexes over row ids.
--
-- The program's parts. A table's rows live in radix trees (a third-party engine); a bitmap index
-- keeps, for each value of a field, the set of the row ids that have it (internal/bitmap), and one
-- vector per table leads from a row id to the row's object (internal/pvec). A query combines sets by
-- And, Or and AndNot (internal/bitmap/ops.go) and reads the objects through a cursor of the vector.
--
-- Which file models what.
-- * Pvec models internal/pvec/pvec.go: `get`, `len`, `set` and the cursor (`cursor`, `next_value`).
--   Path, Counts and Write hold the lemmas on paths, counts and the recursive half of Set; Laws and
--   Scan hold the contract of Set and of the cursor.
-- * Bitmap models internal/bitmap/bitmap.go: `has`, `set`, `clear`, `min`, `len`, `is_empty`.
--   Shape says when a tree is well shaped and which ids it holds; Path, Children, Adding and Height
--   hold the lemmas on slots, children, the recursive half of Set and trees of different heights;
--   Sizes says what the stored counts must be; Clearing has the recursive half of Clear. The contracts
--   are in Laws (Has and Set), Counting (Set and Len), Removing (Clear and Len), Least (Min), Low (the
--   height), Cardinal (Len) and Runs (sequences of Set and Clear).
-- * Bitmap/Ops models internal/bitmap/ops.go: `and`, `or`, `and_not`, the builder and its reuse of an
--   operand's node. Build, Slots, Combine, Chunks, Levels and Merges hold the lemmas; And, Or and
--   AndNot the recursive halves; Union has Or on trees of any heights, and Filled the trees without
--   an empty directory, which Set and Clear keep and without which Or panics; Laws the contracts.
-- * Txn models txn.go, with keys and primaryKey of schema_compile.go: Txn has the indexes of a table
--   and the keys of an object, Txn/Writes the state of a write transaction with `insert` and `delete`
--   (`run_write` is the frame that the two share, `insert_row` and `delete_row` the writes of a row).
--   Trees says what a tree engine promises; Replacing is about the keys of one index; Views, Rows and
--   Puts hold the lemmas on reads and on the write of a row; Atomic and Stored the contracts.
--   Ends has the beginning and the end of transactions, with Txn of memdb.go (`begin`, `commit`,
--   `abort`, `snapshot`), Deferred the functions that Commit calls, Published what a commit shows.
-- * Rows models bitmap_index.go: `bitmap_keys` (bitmapKeys) and `apply_bitmaps`
--   (applyBitmaps), with the row ids (`row_id`) and the sets of one index (`apply_values`). Ids and
--   Freed have the contracts of the ids, Map that of the rows by their keys, Values and Moved that of
--   the sets; Query has RowSet and what Where and AllRows return. The trees of ids and of
--   sets are two engines, since the model's engine has values of one type.
-- * Names models the lookup of names in schema_compile.go (`get_name`, nameIndex.get): Order and Lookup
--   compare the bisection with a linear search. Its fuel is the length of the bucket, of which each
--   round leaves less; without fuel, a round that the code would go on with is `none`.
-- * Schema models schema.go: `validate` of a schema, its tables and its indexes; Laws says which
--   schemas it accepts.
-- * Keys models the indexes of index.go, without reflection: a field of an object or an argument is
--   the value (Value) that reflection finds in it. Ints has IntFieldIndex and UintFieldIndex, Texts
--   StringFieldIndex and StringSliceFieldIndex, Flags BoolFieldIndex, FieldSetIndex and
--   ConditionalIndex, Uuid UUIDFieldIndex, Compound CompoundIndex, Multi CompoundMultiIndex, and
--   Strings StringMapFieldIndex (`from_object`, `from_args`). Bytes holds the lemmas on byte strings;
--   Ints/Order, Texts/Lookup, Uuid/RoundTrip, Compound/Agreement and Multi/Choices compare the keys
--   of objects with those that queries build.
-- * Base holds what the others share: Boolean tests, lists and arrays over the native numbers, words
--   as functions of the bit, and arithmetic with powers of two.
--
-- How the code is read. A node is a value of a type that its height determines, so the heights that
-- the code stores and passes around are indexes of the types. The arrays of fixed size are functions
-- of the slot, which the code always masks. A 64-bit word is a function of the bit whose values from
-- bit 64 on are never read. A 32-bit count wraps around at 2^32. An option `none` around a result is
-- a panic (an index out of range, a nil pointer), or an error where a file says so; a nil node is
-- `none` inside. Loops over the set
-- bits of a word (`x &= x - 1` with TrailingZeros64) visit the slots from the lowest. Operands of `|`
-- that have no bit in common are added. The loops that grow a tree run on fuel `max_height`, the
-- source's own constant, and the contracts of Set hold at that fuel, so it is enough.
--
-- A transaction reads and writes index trees through the engine's calls, the record `Engine`, of
-- which the laws use only that a tree is a map from keys to objects (IsMap). A write goes to the
-- entry of its table, which is put back in the list of tables when the call ends. The bitmap half of
-- a write is the interface `Books`: its keys may fail, its application may panic; Rows
-- is not its instance, so the two are proved side by side. An index's `values`
-- stands for its indexer's FromObject and for the extractor's fast path before it (extract.go).
--
-- Not modelled: reflection and the fast paths around it (extract*.go, index_fast.go); the select of
-- watches (watch.go, watch_few.go); the typed facade (typed.go); the iterators of sets; the notifier of watches, pooled scratch buffers and the freezing of trees; epochs,
-- Freeze and in-place change, which leave no trace in a value. The comparison of two pointers is a
-- parameter `same` of Bitmap/Ops, of which the proofs use only that one pointer leads to one node
-- (IsIdentity).
pub mod Base
pub mod Pvec
pub mod Bitmap
pub mod Keys
pub mod Names
pub mod Rows
pub mod Schema
pub mod Strings
pub mod Txn
