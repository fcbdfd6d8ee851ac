-- ===== src/Txn/Ends.antt =====
-- memdb.go and txn.go: how transactions begin and end (Txn, Commit, Abort, Snapshot).
-- `none` is a wait for the writer lock in `begin`, and a panic in `commit`.
use go_maemmidb.Base.{
  ℕ, Bool, true, false, not, List, [], ◌∷◌, Option, none, some, ◌>>=◌, if◌then◌else◌, update,
}
use go_maemmidb.Txn.{Engine, Index, Table, Books}
use go_maemmidb.Txn.Writes.{Root, TableTxn, Txn}
use go_maemmidb.Txn.Deferred.{Deferred, run}

-- The indexes whose trees hold objects. Commit and Snapshot walk the bitmap indexes of a table too;
-- their trees hold sets and are modelled with the rows.
abbrev pub all_indexes : {Obj : Type 0} → Table Obj → List (Index Obj)
all_indexes ct = ct.primary ∷ ct.ordinary

module _ {Obj : Type 0} (E : Engine Obj) (B : Books Obj) where
  -- MemDB: the published root, and whether the writer lock is held
  pub record Db : Type 0 where
    pub root : Root E B
    pub locked : Bool

  -- MemDB.Txn
  unfoldable pub begin : Db → Bool → Option (Txn E B × Db)
  begin db false =
      some (record { root = some db.root; tables = []; write = false; changes = none }, db)
  begin db true =
      if db.locked
      then none
      else some (
        record { root = some db.root; tables = []; write = true; changes = none },
        record db { locked = true },
      )

  -- The loops over the indexes of the written tables are those of Commit and of Snapshot, which
  -- take the tree of a started index in different ways: by it.Commit, and by it.Freeze and it.Tree.
  unfoldable pub publish_index : (E.Work → E.Tree) → (ℕ → E.Tree) → Option E.Work → ℕ → ℕ → E.Tree
  publish_index take trees none slot = trees
  publish_index take trees (some x) slot = update trees slot (take x)

  -- The inner loop.
  unfoldable pub publish_indexes :
      (E.Work → E.Tree) → (ℕ → E.Tree) → TableTxn E B → List (Index Obj) → ℕ → E.Tree
  unfolding publish_index
  publish_indexes take trees te [] = trees
  publish_indexes take trees te (ci ∷ cis) =
      publish_indexes take (publish_index take trees (te.idx ci.ord) ci.slot) te cis

  -- The outer loop.
  unfoldable pub publish : (E.Work → E.Tree) → (ℕ → E.Tree) → List (TableTxn E B) → ℕ → E.Tree
  unfolding publish_indexes
  publish take trees [] = trees
  publish take trees (te ∷ ts) =
      publish take (publish_indexes take trees te (all_indexes te.table)) ts

  unfoldable pub publish_rows : (ℕ → B.Rows) → Option B.Rows → ℕ → ℕ → B.Rows
  publish_rows ext none ord = ext
  publish_rows ext (some rows) ord = update ext ord rows

  -- Txn.withRows
  unfoldable pub with_rows : (ℕ → B.Rows) → List (TableTxn E B) → ℕ → B.Rows
  unfolding publish_rows
  with_rows ext [] = ext
  with_rows ext (te ∷ ts) = with_rows (publish_rows ext te.rows te.table.ord) ts

  -- "Build the next database version from the modified index trees."
  unfoldable pub next_root : Root E B → List (TableTxn E B) → Root E B
  unfolding publish with_rows
  next_root root ts = record { trees = publish E.commit root.trees ts; ext = with_rows root.ext ts }

  -- Commit of a transaction, by its `write` and its root. A transaction that wrote nothing (no
  -- txn.w) stores the root that it began with, where the code leaves the database's root alone: the
  -- writer lock, held since, keeps the two equal.
  unfoldable pub commit_as :
      {F : Type 0}
      → Db
      → Txn E B
      → Deferred F
      → Bool
      → Option (Root E B)
      → Option (Db × (Txn E B × List F))
  unfolding next_root run
  commit_as db txn d false root = some (db, (txn, []))
  commit_as db txn d true none = some (db, (txn, []))
  commit_as db txn d true (some root) = run d >>= λ calls. some (
    record { root = next_root root txn.tables; locked = false },
    (record txn { root = none; tables = [] }, calls),
  )

  -- Txn.Commit: the database, the transaction, and the deferred functions in the order of the calls
  unfoldable pub commit :
      {F : Type 0} → Db → Txn E B → Deferred F → Option (Db × (Txn E B × List F))
  unfolding commit_as
  commit db txn d = commit_as db txn d txn.write txn.root

  -- Txn.Abort
  unfoldable pub abort : Db → Txn E B → Db × Txn E B
  abort db txn = if not txn.write then (db, txn) else elim txn.root [
    | none ↦ (db, txn)
    | some root ↦
        (record db { locked = false }, record txn { root = none; tables = []; changes = none })
  ]

  -- "Freeze the uncommitted index trees into the snapshot": a copy of the root's trees, where each
  -- started index has its transaction's tree so far (it.Tree), and the rows. Freeze only has the
  -- transaction copy from here on, which a value cannot show.
  unfoldable pub frozen_root : Root E B → List (TableTxn E B) → Root E B
  unfolding publish with_rows
  frozen_root root ts = record {
    trees = publish (λ x. E.tree x) root.trees ts;
    ext = with_rows root.ext ts;
  }

  -- Txn.Snapshot: a read transaction over the frozen root, which without a write is the root itself
  unfoldable pub snapshot : Txn E B → Option (Txn E B)
  unfolding frozen_root
  snapshot txn = txn.root >>= λ root. some (record {
    root = some (frozen_root root txn.tables);
    tables = [];
    write = false;
    changes = none;
  })
