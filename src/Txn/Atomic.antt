-- ===== src/Txn/Atomic.antt =====
-- Insert and Delete of txn.go that fail leave every index as the transaction read it before.
use go_maemmidb.Base.{
  ℕ, ◌≡◌, ◌⊎◌, refl, ap, sym, subst, ◌∙◌, Bool, true, false, Option, none, some, ◌==◌, ==_iff, inl,
  inr, Bool-cases, Option-cases,
}
use go_maemmidb.Txn.{
  Key, Error, read_only, invalid_table, Outcome, ok, failed, Engine, Index, Table, Books,
  primary_key,
}
use go_maemmidb.Txn.Trees.{IsMap}
use go_maemmidb.Txn.Writes.{
  Root, TableTxn, Txn, Step, run_row, run_key, run_table, run_write, entry, put, tree_in,
  readable_index, finish, insert, delete,
}
use go_maemmidb.Txn.Rows.{Keeps, Returning, insert_row-Keeps, delete_row-Keeps}
use go_maemmidb.Txn.Views.{reads, readable_index-put, tree_in-entry, entry_ord}

module _ {Obj : Type 0} (E : Engine Obj) (B : Books Obj) (laws : IsMap E) where
  module _ (tables : Key → Option (Table Obj)) where
    -- In a compiled schema, what stands at the position of a table's primary index is that index.
    abbrev pub IsPlaced : ℕ → Index Obj → Type 0
    IsPlaced ord ci =
        (name : Key) (ct : Table Obj)
        → tables name ≡ some ct
        → ct.ord ≡ ord
        → ct.primary.ord ≡ ci.ord
        → ct.primary.slot ≡ ci.slot

    -- A call panics, returns no error, or leaves what the transaction reads.
    abbrev Fails : Txn E B → Option (Outcome Unit × Txn E B) → Type 0
    Fails txn run =
        (run ≡ none)
        ⊎ ((t : Txn E B) × (run ≡ some (ok tt, t)))
        ⊎ ((e : Error) × (t : Txn E B) × (run ≡ some (failed e, t))
            × ((ord : ℕ) (ci : Index Obj) (k : Key)
                → IsPlaced ord ci
                → reads E B t ord ci k ≡ reads E B txn ord ci k))

    -- Writing back an entry that reads as the table did.
    kept_entry :
        (root : Root E B) (txn : Txn E B) (ct : Table Obj) (te : TableTxn E B) (ord : ℕ)
        (ci : Index Obj) (k : Key)
        → te.table.ord ≡ ct.ord
        → (ct.ord ≡ ord
            → E.get (tree_in E B root te ci) k
              ≡ E.get (tree_in E B root (entry E B txn.tables ct) ci) k)
        → E.get (readable_index E B root (put E B txn.tables te) ord ci) k
          ≡ E.get (readable_index E B root txn.tables ord ci) k
    unfolding tree_in
    kept_entry root txn ct te ord ci k same keeps =
        rw (readable_index-put E B root txn.tables te ord ci, same)
          (elim (Bool-cases (ct.ord == ord)) [
            | inr o ↦ rw o refl
            | inl o ↦
                let here = (==_iff ct.ord ord).0 o in
                rw o (
                  keeps here
                  ∙ ap (λ t. E.get t k) (tree_in-entry E B root txn.tables ct ci)
                  ∙ ap (λ n. E.get (readable_index E B root txn.tables n ci) k) here)
          ])

    reads-put :
        (txn : Txn E B) (ct : Table Obj) (te : TableTxn E B) (ord : ℕ) (ci : Index Obj) (k : Key)
        → te.table.ord ≡ ct.ord
        → ((root : Root E B)
            → txn.root ≡ some root
            → ct.ord ≡ ord
            → E.get (tree_in E B root te ci) k
              ≡ E.get (tree_in E B root (entry E B txn.tables ct) ci) k)
        → reads E B (record txn { tables = put E B txn.tables te }) ord ci k
          ≡ reads E B txn ord ci k
    unfolding reads
    reads-put txn ct te ord ci k same keeps = elim (Option-cases txn.root) [
      | inl e ↦ rw e refl
      | inr (root, e) ↦ rw (reads, e) (kept_entry root txn ct te ord ci k same (keeps root e))
    ]

    pub finish-failed :
        (txn : Txn E B) (name : Key) (o : Option Obj) (id : Key)
        (r : Outcome (Option Obj) × TableTxn E B) (e : Error)
        → r.0 ≡ failed e
        → finish E B txn name o id r ≡ (failed e, record txn { tables = put E B txn.tables r.1 })
    unfolding finish
    finish-failed txn name o id (failed e', te) e s =
        let same : e' ≡ e = cc in
        ap (λ x. (failed x, record txn { tables = put E B txn.tables te })) same
    finish-failed txn name o id (ok a, te) e s = cc

    finish-ok :
        (txn : Txn E B) (name : Key) (o : Option Obj) (id : Key)
        (r : Outcome (Option Obj) × TableTxn E B) (a : Option Obj)
        → r.0 ≡ ok a
        → (t : Txn E B) × (finish E B txn name o id r ≡ (ok tt, t))
    unfolding finish
    finish-ok txn name o id (failed e', te) a s = cc
    finish-ok txn name o id (ok a', te) a s = (_, refl)

    finish-Fails :
        (txn : Txn E B) (root : Root E B) (ct : Table Obj) (name : Key) (o : Option Obj) (id : Key)
        (r : Outcome (Option Obj) × TableTxn E B)
        → txn.root ≡ some root
        → tables name ≡ some ct
        → Keeps E B root (entry E B txn.tables ct) ct.primary r
        → Fails txn (some (finish E B txn name o id r))
    finish-Fails txn root ct name o id r at found (inr (a, s)) =
        let (t, done) = finish-ok txn name o id r a s in inr (inl (t, ap some done))
    finish-Fails txn root ct name o id r at found (inl (e, s, ord, keeps)) = inr (
        inr (
          e,
          record txn { tables = put E B txn.tables r.1 },
          ap some (finish-failed txn name o id r e s),
          λ n ci k placed.
              reads-put txn ct r.1 n ci k (ord ∙ entry_ord E B txn.tables ct) (λ root' at' here.
                let same : root ≡ root' = cc in
                subst
                  (λ x.
                    E.get (tree_in E B x r.1 ci) k
                    ≡ E.get (tree_in E B x (entry E B txn.tables ct) ci) k)
                  same (keeps ci k (placed name ct found here))),
        ))

    -- A failure before the primary index is written.
    early-Fails :
        (txn : Txn E B) (ct : Table Obj) (e : Error)
        → Fails txn
            (some (failed e, record txn { tables = put E B txn.tables (entry E B txn.tables ct) }))
    early-Fails txn ct e = inr (
        inr (
          e,
          _,
          refl,
          λ n ci k placed.
              reads-put txn ct (entry E B txn.tables ct) n ci k (entry_ord E B txn.tables ct)
                (λ root at here. refl),
        ))

    module _ (step : Step E B)
        (keeps : (root : Root E B) (te : TableTxn E B) (ct : Table Obj) (id : Key)
          → Returning (Keeps E B root te ct.primary) (step root te ct id)) where
      run_row-Fails :
          (txn : Txn E B) (root : Option (Root E B)) (ct : Table Obj) (name : Key) (o : Option Obj)
          (id : Key)
          → txn.root ≡ root
          → tables name ≡ some ct
          → Fails txn (run_row E B txn root ct name o id step)
      unfolding run_row
      run_row-Fails txn none ct name o id at found = inl refl
      run_row-Fails txn (some root) ct name o id at found =
          let te = entry E B txn.tables ct in
          elim (Option-cases (step root te ct id)) [
            | inl n ↦ rw n (inl refl)
            | inr (r, n) ↦ rw n (
                finish-Fails txn root ct name o id r at found
                  (subst (Returning (Keeps E B root te ct.primary)) n (keeps root te ct id)))
          ]

      run_key-Fails :
          (txn : Txn E B) (ct : Table Obj) (name : Key) (o : Option Obj) (id : Outcome Key)
          → tables name ≡ some ct
          → Fails txn (run_key E B txn ct name o id step)
      unfolding run_key
      run_key-Fails txn ct name o (failed e) found = early-Fails txn ct e
      run_key-Fails txn ct name o (ok id) found = run_row-Fails txn txn.root ct name o id refl found

      run_table-Fails :
          (txn : Txn E B) (ct : Option (Table Obj)) (name : Key) (obj : Obj) (o : Option Obj)
          → tables name ≡ ct
          → Fails txn (run_table E B txn ct name obj o step)
      unfolding run_table
      run_table-Fails txn none name obj o found =
          inr (inr (invalid_table, txn, refl, λ n ci k placed. refl))
      run_table-Fails txn (some ct) name obj o found =
          run_key-Fails txn ct name o (primary_key Obj ct obj) found

      run_write-Fails :
          (txn : Txn E B) (w : Bool) (name : Key) (obj : Obj) (o : Option Obj)
          → Fails txn (run_write E B txn w (tables name) name obj o step)
      unfolding run_write
      run_write-Fails txn false name obj o = inr (inr (read_only, txn, refl, λ n ci k placed. refl))
      run_write-Fails txn true name obj o = run_table-Fails txn (tables name) name obj o refl

    failure :
        (txn t : Txn E B) (run : Option (Outcome Unit × Txn E B)) (e : Error) (ord : ℕ)
        (ci : Index Obj) (k : Key)
        → Fails txn run
        → run ≡ some (failed e, t)
        → IsPlaced ord ci
        → reads E B t ord ci k ≡ reads E B txn ord ci k
    failure txn t run e ord ci k (inl gone) ran placed = cc
    failure txn t run e ord ci k (inr (inl (t', fine))) ran placed = cc
    failure txn t run e ord ci k (inr (inr (e', t', fail, keeps))) ran placed =
        let same : t' ≡ t = cc in ap (λ x. reads E B x ord ci k) (sym same) ∙ keeps ord ci k placed

    -- Over an engine whose trees are maps, a call of Insert that returns an error, whichever it is,
    -- leaves what the transaction reads at every key of an index as it was, given of the index that
    -- if it stands at the position of its table's primary index, it has that index's tree.
    pub insert-reads :
        (txn t : Txn E B) (name : Key) (obj : Obj) (e : Error)
        → insert E B tables txn name obj ≡ some (failed e, t)
        → (ord : ℕ) (ci : Index Obj) (k : Key) → IsPlaced ord ci
        → reads E B t ord ci k ≡ reads E B txn ord ci k
    unfolding insert
    insert-reads txn t name obj e ran ord ci k placed =
        failure txn t _ e ord ci k
          (run_write-Fails _ (λ root te ct id. insert_row-Keeps E B laws root te ct id obj) txn
            txn.write name obj (some obj))
          ran placed

    -- Over an engine whose trees are maps, a call of Delete that returns an error, whichever it is,
    -- leaves what the transaction reads at every key of an index as it was, given of the index that
    -- if it stands at the position of its table's primary index, it has that index's tree.
    pub delete-reads :
        (txn t : Txn E B) (name : Key) (obj : Obj) (e : Error)
        → delete E B tables txn name obj ≡ some (failed e, t)
        → (ord : ℕ) (ci : Index Obj) (k : Key) → IsPlaced ord ci
        → reads E B t ord ci k ≡ reads E B txn ord ci k
    unfolding delete
    delete-reads txn t name obj e ran ord ci k placed =
        failure txn t _ e ord ci k
          (run_write-Fails _ (λ root te ct id. delete_row-Keeps E B laws root te ct id) txn
            txn.write name obj none)
          ran placed
