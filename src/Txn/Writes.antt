-- ===== src/Txn/Writes.antt =====
-- txn.go: the state of a write transaction, and Insert and Delete on it.
-- `none` around a result is a panic. The notifier of watches and the scratch buffers are left out.
use go_maemmidb.Base.{
  ℕ, Bool, true, false, List, [], ◌∷◌, ◌++◌, Option, none, ◌>>=◌, some, ◌==◌, if◌then◌else◌, update,
}
use go_maemmidb.Txn.{
  Key, Error, read_only, invalid_table, not_found, Outcome, ok, failed, Engine, Index, Table, Books,
  Move, keys, primary_key, build_moves, apply_move,
}

-- A tracked mutation.
pub record Change (Obj : Type 0) : Type 0 where
  pub table : Key
  pub before : Option Obj
  pub after : Option Obj
  pub id : Key

module _ (Obj : Type 0) where
  -- The first loop of deleteFromIndexes; `skip` is the position of an index to leave alone.
  unfoldable pub build_deletes : List (Index Obj) → Option ℕ → Obj → Key → Outcome (List (List Key))
  unfolding keys
  build_deletes [] skip obj id = ok []
  build_deletes (ci ∷ cis) skip obj id =
      let built : Outcome (Bool × List Key) = elim skip [
        | none ↦ keys Obj ci obj id
        | some s ↦ if ci.ord == s then ok (false, []) else keys Obj ci obj id
      ] in
      elim built [
        | failed e ↦ failed e
        | ok r ↦ elim (build_deletes cis skip obj id) [
          | failed e ↦ failed e
          | ok rest ↦ ok (r.1 ∷ rest)
        ]
      ]

module _ {Obj : Type 0} (E : Engine Obj) (B : Books Obj) where
  -- dbRoot: one tree per index, and the row bookkeeping of every table
  pub record Root : Type 0 where
    pub trees : ℕ → E.Tree
    pub ext : ℕ → B.Rows

  -- tableTxn: the tree transactions of one table, by the position of the index
  pub record TableTxn : Type 0 where
    pub table : Table Obj
    pub idx : ℕ → Option E.Work
    pub rows : Option B.Rows

  -- Txn: no root after Commit and Abort
  pub record Txn : Type 0 where
    pub root : Option Root
    pub tables : List TableTxn
    pub write : Bool
    pub changes : Option (List (Change Obj))

  -- Txn.tableTxn
  unfoldable pub entry : List TableTxn → Table Obj → TableTxn
  entry [] ct = record { table = ct; idx = λ o. none; rows = none }
  entry (t ∷ ts) ct = let rest = entry ts ct in if t.table.ord == ct.ord then t else rest

  -- The list of tables after its entry for a table has changed.
  unfoldable pub put : List TableTxn → TableTxn → List TableTxn
  put [] te = te ∷ []
  put (t ∷ ts) te =
      let rest = put ts te in if t.table.ord == te.table.ord then te ∷ ts else t ∷ rest

  -- Txn.writableIndex
  unfoldable pub writable : Root → TableTxn → Index Obj → E.Work
  writable root te ci = elim (te.idx ci.ord) [ none ↦ E.begin (root.trees ci.slot) | some x ↦ x ]

  unfoldable pub with_index : TableTxn → Index Obj → E.Work → TableTxn
  with_index te ci x = record te { idx = update te.idx ci.ord (some x) }

  unfoldable pub tree_in : Root → TableTxn → Index Obj → E.Tree
  tree_in root te ci = elim (te.idx ci.ord) [ none ↦ root.trees ci.slot | some x ↦ E.tree x ]

  -- Txn.readableIndex: the tree of an index with the uncommitted writes
  unfoldable pub readable_index : Root → List TableTxn → ℕ → Index Obj → E.Tree
  unfolding tree_in
  readable_index root [] ord ci = root.trees ci.slot
  readable_index root (t ∷ ts) ord ci =
      let rest = readable_index root ts ord ci in
      if t.table.ord == ord then tree_in root t ci else rest

  unfoldable pub rows_of : Root → TableTxn → B.Rows
  rows_of root te = elim te.rows [ none ↦ root.ext te.table.ord | some r ↦ r ]

  -- "Undo the primary index write."
  unfoldable pub undo : TableTxn → Index Obj → E.Work → Key → Option Obj → TableTxn
  unfolding with_index
  undo te ci x id none = with_index te ci (E.delete x id).1
  undo te ci x id (some existing) = with_index te ci (E.insert x id existing).1

  unfoldable pub write_moves : Root → TableTxn → List (Index Obj) → List Move → Obj → TableTxn
  unfolding writable with_index apply_move
  write_moves root te [] moves obj = te
  write_moves root te (ci ∷ cis) [] obj = te
  write_moves root te (ci ∷ cis) (move ∷ moves) obj =
      write_moves root (with_index te ci (apply_move E (writable root te ci) move obj)) cis moves
        obj

  unfoldable pub apply_rows :
      Root → TableTxn → B.Moves → Option Obj → Option Obj → Key → Option TableTxn
  unfolding rows_of
  apply_rows root te moves obj existing id =
      B.apply moves obj existing id (rows_of root te) >>= λ rows.
      some (record te { rows = some rows })

  -- Insert from the write of the primary index on: the previous version of the row. As below,
  -- `none` is a panic of applyBitmaps.
  unfoldable pub insert_row :
      Root → TableTxn → Table Obj → Key → Obj → Option (Outcome (Option Obj) × TableTxn)
  unfolding writable with_index build_moves undo write_moves apply_rows
  insert_row root te ct id obj =
      let r = E.insert (writable root te ct.primary) id obj in
      let failure = undo te ct.primary r.1 id r.0 in
      elim (build_moves Obj ct.ordinary obj r.0 id) [
        | failed e ↦ some (failed e, failure)
        | ok moves ↦
            let written = write_moves root (with_index te ct.primary r.1) ct.ordinary moves obj in
            if ct.has_bitmaps
            then elim (B.keys ct (some obj) r.0) [
              | failed e ↦ some (failed e, failure)
              | ok bits ↦
                  apply_rows root written bits (some obj) r.0 id >>= λ done. some (ok r.0, done)
            ]
            else some (ok r.0, written)
      ]

  unfoldable pub delete_keys : E.Work → List Key → E.Work
  delete_keys x [] = x
  delete_keys x (k ∷ ks) = delete_keys (E.delete x k).1 ks

  -- The second loop of deleteFromIndexes.
  unfoldable pub write_deletes : Root → TableTxn → List (Index Obj) → List (List Key) → TableTxn
  unfolding writable with_index delete_keys
  write_deletes root te [] olds = te
  write_deletes root te (ci ∷ cis) [] = te
  write_deletes root te (ci ∷ cis) ([] ∷ olds) = write_deletes root te cis olds
  write_deletes root te (ci ∷ cis) ((k ∷ ks) ∷ olds) =
      write_deletes root (with_index te ci (delete_keys (writable root te ci) (k ∷ ks))) cis olds

  -- deleteFromIndexes
  unfoldable pub delete_from_indexes :
      Root → TableTxn → Table Obj → Obj → Key → Option ℕ → Option (Option Error × TableTxn)
  unfolding build_deletes write_deletes apply_rows
  delete_from_indexes root te ct obj id skip = elim (build_deletes Obj ct.ordinary skip obj id) [
    | failed e ↦ some (some e, te)
    | ok olds ↦
        let written = write_deletes root te ct.ordinary olds in
        if ct.has_bitmaps
        then elim (B.keys ct none (some obj)) [
          | failed e ↦ some (some e, te)
          | ok bits ↦ apply_rows root written bits none (some obj) id >>= λ done. some (none, done)
        ]
        else some (none, written)
  ]

  -- Delete from the write of the primary index on.
  unfoldable pub delete_row :
      Root → TableTxn → Table Obj → Key → Option (Outcome (Option Obj) × TableTxn)
  unfolding writable with_index delete_from_indexes
  delete_row root te ct id =
      let r = E.delete (writable root te ct.primary) id in
      let cut = with_index te ct.primary r.1 in
      elim r.0 [
        | none ↦ some (failed not_found, cut)
        | some existing ↦ delete_from_indexes root cut ct existing id none >>= λ done. elim done.0 [
          | some e ↦ some (failed e, with_index done.1 ct.primary (E.insert r.1 id existing).1)
          | none ↦ some (ok (some existing), done.1)
        ]
      ]

  -- `if txn.changes != nil { txn.changes = append(txn.changes, …) }`
  unfoldable pub track : Option (List (Change Obj)) → Change Obj → Option (List (Change Obj))
  track none change = none
  track (some changes) change = some (changes ++ change ∷ [])

  -- What Insert and Delete do once the table and the primary key are known.
  unfoldable pub finish :
      Txn → Key → Option Obj → Key → Outcome (Option Obj) × TableTxn → Outcome Unit × Txn
  unfolding put track
  finish txn name obj id (failed e, written) =
      (failed e, record txn { tables = put txn.tables written })
  finish txn name obj id (ok existing, written) = (
    ok tt,
    record txn {
      tables = put txn.tables written;
      changes =
          track txn.changes (record { table = name; before = existing; after = obj; id = id });
    },
  )

  -- The write of a row once its primary key is known.
  abbrev pub Step : Type 0
  Step = Root → TableTxn → Table Obj → Key → Option (Outcome (Option Obj) × TableTxn)

  -- A transaction that has ended has no root, and the code then panics.
  unfoldable pub run_row :
      Txn → Option Root → Table Obj → Key → Option Obj → Key → Step → Option (Outcome Unit × Txn)
  unfolding entry finish
  run_row txn none ct name after id step = none
  run_row txn (some root) ct name after id step =
      step root (entry txn.tables ct) ct id >>= λ r. some (finish txn name after id r)

  unfoldable pub run_key :
      Txn → Table Obj → Key → Option Obj → Outcome Key → Step → Option (Outcome Unit × Txn)
  unfolding entry put run_row
  run_key txn ct name after (failed e) step =
      some (failed e, record txn { tables = put txn.tables (entry txn.tables ct) })
  run_key txn ct name after (ok id) step = run_row txn txn.root ct name after id step

  unfoldable pub run_table :
      Txn → Option (Table Obj) → Key → Obj → Option Obj → Step → Option (Outcome Unit × Txn)
  unfolding run_key primary_key
  run_table txn none name obj after step = some (failed invalid_table, txn)
  run_table txn (some ct) name obj after step =
      run_key txn ct name after (primary_key Obj ct obj) step

  -- The frame that Insert and Delete share.
  unfoldable pub run_write :
      Txn → Bool → Option (Table Obj) → Key → Obj → Option Obj → Step → Option (Outcome Unit × Txn)
  unfolding run_table
  run_write txn false ct name obj after step = some (failed read_only, txn)
  run_write txn true ct name obj after step = run_table txn ct name obj after step

  module _ (tables : Key → Option (Table Obj)) where
    -- Txn.Insert; `tables` is the schema's lookup of a table by its name
    unfoldable pub insert : Txn → Key → Obj → Option (Outcome Unit × Txn)
    unfolding run_write insert_row
    insert txn name obj =
        run_write txn txn.write (tables name) name obj (some obj)
          (λ root te ct id. insert_row root te ct id obj)

    -- Txn.Delete
    unfoldable pub delete : Txn → Key → Obj → Option (Outcome Unit × Txn)
    unfolding run_write delete_row
    delete txn name obj =
        run_write txn txn.write (tables name) name obj none
          (λ root te ct id. delete_row root te ct id)
