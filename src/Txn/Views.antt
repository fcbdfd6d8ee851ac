-- ===== src/Txn/Views.antt =====
-- What a transaction of txn.go reads in an index tree after its state has changed.
use go_maemmidb.Base.{
  ℕ, ◌≡◌, refl, ap, sym, ◌∙◌, arith, List, [], ◌∷◌, Option, none, some, ◌>>=◌, ◌==◌, ==_iff,
  if◌then◌else◌, inl, inr, Bool-cases, Option-cases,
}
use go_maemmidb.Txn.{Key, same_key, Engine, Index, Table, Books}
use go_maemmidb.Txn.Trees.{IsMap, same_key-eq}
use go_maemmidb.Txn.Writes.{
  Root, TableTxn, entry, put, writable, with_index, tree_in, readable_index, undo, Txn,
}

module _ {Obj : Type 0} (E : Engine Obj) (B : Books Obj) where
  pub tree_in-with_index :
      (root : Root E B) (te : TableTxn E B) (ci cj : Index Obj) (x : E.Work)
      → tree_in E B root (with_index E B te ci x) cj
        ≡ (if ci.ord == cj.ord then E.tree x else tree_in E B root te cj)
  unfolding tree_in with_index
  tree_in-with_index root te ci cj x = elim (Bool-cases (ci.ord == cj.ord)) [
    | inl e ↦ rw (tree_in, with_index, e) refl
    | inr e ↦ rw (tree_in, with_index, e) refl
  ]

  pub readable_index-put :
      (root : Root E B) (ts : List (TableTxn E B)) (te : TableTxn E B) (n : ℕ) (cj : Index Obj)
      → readable_index E B root (put E B ts te) n cj
        ≡ (if te.table.ord == n then tree_in E B root te cj else readable_index E B root ts n cj)
  unfolding readable_index put
  readable_index-put root [] te n cj = refl
  readable_index-put root (t ∷ ts) te n cj = elim (Bool-cases (t.table.ord == te.table.ord)) [
    | inl e ↦ rw (e, (==_iff t.table.ord te.table.ord).0 e) (ground arith)
    | inr e ↦ rw (e, readable_index-put root ts te n cj) (ground arith)
  ]

  pub tree_in-entry :
      (root : Root E B) (ts : List (TableTxn E B)) (ct : Table Obj) (ci : Index Obj)
      → tree_in E B root (entry E B ts ct) ci ≡ readable_index E B root ts ct.ord ci
  unfolding tree_in entry readable_index
  tree_in-entry root [] ct ci = refl
  tree_in-entry root (t ∷ ts) ct ci = elim (Bool-cases (t.table.ord == ct.ord)) [
    | inl e ↦ rw e refl
    | inr e ↦ rw e (tree_in-entry root ts ct ci)
  ]

  pub entry_ord : (ts : List (TableTxn E B)) (ct : Table Obj) → (entry E B ts ct).table.ord ≡ ct.ord
  unfolding entry
  entry_ord [] ct = refl
  entry_ord (t ∷ ts) ct = elim (Bool-cases (t.table.ord == ct.ord)) [
    | inl e ↦ rw e ((==_iff t.table.ord ct.ord).0 e)
    | inr e ↦ rw e (entry_ord ts ct)
  ]

  -- What a transaction reads at a key of an index, by the position of the index's table: nothing
  -- once it has ended.
  unfoldable pub reads : Txn E B → ℕ → Index Obj → Key → Option Obj
  reads txn ord ci k = txn.root >>= λ root. E.get (readable_index E B root txn.tables ord ci) k

  module _ (laws : IsMap E) where
    pub get-writable :
        (root : Root E B) (te : TableTxn E B) (ci cj : Index Obj) (k : Key)
        → ci.ord ≡ cj.ord
        → ci.slot ≡ cj.slot
        → E.get (E.tree (writable E B root te ci)) k ≡ E.get (tree_in E B root te cj) k
    unfolding writable tree_in
    get-writable root te ci cj k ords slots = elim (Option-cases (te.idx cj.ord)) [
      | inl e ↦
          let e' : te.idx ci.ord ≡ none = ap te.idx ords ∙ e in
          rw (writable, tree_in, e, e')
            (laws.get-begin (root.trees ci.slot) k ∙ ap (λ s. E.get (root.trees s) k) slots)
      | inr (x, e) ↦
          let e' : te.idx ci.ord ≡ some x = ap te.idx ords ∙ e in rw (writable, tree_in, e, e') refl
    ]

    -- The work tree of an undone write reads as before.
    undone :
        (x : E.Work) (id : Key) (obj : Obj) (existing : Option Obj) (te : TableTxn E B)
        (root : Root E B) (ci cj : Index Obj) (k : Key)
        → existing ≡ E.get (E.tree x) id
        → E.get (tree_in E B root (undo E B te ci (E.insert x id obj).1 id existing) cj) k
          ≡ (if ci.ord == cj.ord then E.get (E.tree x) k else E.get (tree_in E B root te cj) k)
    unfolding undo
    undone x id obj none te root ci cj k e =
        rw (tree_in-with_index root te ci cj (E.delete (E.insert x id obj).1 id).1)
          (elim (Bool-cases (ci.ord == cj.ord)) [
            | inr o ↦ rw o refl
            | inl o ↦
                rw (o, laws.get-delete (E.insert x id obj).1 id k, laws.get-insert x id obj k)
                  (elim (Bool-cases (same_key id k)) [
                    | inl s ↦ rw s (e ∙ ap (E.get (E.tree x)) (same_key-eq id k s))
                    | inr s ↦ rw s refl
                  ])
          ])
    undone x id obj (some was) te root ci cj k e =
        rw (tree_in-with_index root te ci cj (E.insert (E.insert x id obj).1 id was).1)
          (elim (Bool-cases (ci.ord == cj.ord)) [
            | inr o ↦ rw o refl
            | inl o ↦
                rw (o, laws.get-insert (E.insert x id obj).1 id was k, laws.get-insert x id obj k)
                  (elim (Bool-cases (same_key id k)) [
                    | inl s ↦ rw s (e ∙ ap (E.get (E.tree x)) (same_key-eq id k s))
                    | inr s ↦ rw s refl
                  ])
          ])

    -- Undoing the write of the primary index.
    pub get-undo :
        (root : Root E B) (te : TableTxn E B) (ci cj : Index Obj) (id : Key) (obj : Obj) (k : Key)
        → (ci.ord ≡ cj.ord → ci.slot ≡ cj.slot)
        → E.get
            (tree_in E B root
              (undo E B te ci
                (E.insert (writable E B root te ci) id obj).1
                id
                (E.insert (writable E B root te ci) id obj).0)
              cj)
            k
          ≡ E.get (tree_in E B root te cj) k
    get-undo root te ci cj id obj k placed =
        let x = writable E B root te ci in
        undone x id obj (E.insert x id obj).0 te root ci cj k (laws.insert_old x id obj)
        ∙ elim (Bool-cases (ci.ord == cj.ord)) [
          | inr o ↦ rw o refl
          | inl o ↦
              let same = (==_iff ci.ord cj.ord).0 o in
              rw o (get-writable root te ci cj k same (placed same))
        ]

    -- A deletion of the primary index that finds nothing, or that is undone.
    pub get-not_found :
        (root : Root E B) (te : TableTxn E B) (ci cj : Index Obj) (id : Key) (k : Key)
        → (ci.ord ≡ cj.ord → ci.slot ≡ cj.slot)
        → (E.delete (writable E B root te ci) id).0 ≡ none
        → E.get
            (tree_in E B root (with_index E B te ci (E.delete (writable E B root te ci) id).1) cj)
            k
          ≡ E.get (tree_in E B root te cj) k
    get-not_found root te ci cj id k placed gone =
        let x = writable E B root te ci in
        rw (tree_in-with_index root te ci cj (E.delete x id).1)
          (elim (Bool-cases (ci.ord == cj.ord)) [
            | inr o ↦ rw o refl
            | inl o ↦
                let same = (==_iff ci.ord cj.ord).0 o in
                rw (o, laws.get-delete x id k)
                  (elim (Bool-cases (same_key id k)) [
                    | inl s ↦ rw s (
                        sym gone
                        ∙ laws.delete_old x id
                        ∙ ap (E.get (E.tree x)) (same_key-eq id k s))
                    | inr s ↦ rw s refl
                  ]
                    ∙ get-writable root te ci cj k same (placed same))
          ])

    pub get-restored :
        (root : Root E B) (te : TableTxn E B) (ci cj : Index Obj) (id : Key) (was : Obj) (k : Key)
        → (ci.ord ≡ cj.ord → ci.slot ≡ cj.slot)
        → (E.delete (writable E B root te ci) id).0 ≡ some was
        → E.get
            (tree_in E B root
              (with_index E B
                (with_index E B te ci (E.delete (writable E B root te ci) id).1)
                ci
                (E.insert (E.delete (writable E B root te ci) id).1 id was).1)
              cj)
            k
          ≡ E.get (tree_in E B root te cj) k
    get-restored root te ci cj id was k placed found =
        let x = writable E B root te ci in
        let cut = with_index E B te ci (E.delete x id).1 in
        rw
          (
            tree_in-with_index root cut ci cj (E.insert (E.delete x id).1 id was).1,
            tree_in-with_index root te ci cj (E.delete x id).1,
          )
          (elim (Bool-cases (ci.ord == cj.ord)) [
            | inr o ↦ rw o refl
            | inl o ↦
                let same = (==_iff ci.ord cj.ord).0 o in
                rw (o, laws.get-insert (E.delete x id).1 id was k, laws.get-delete x id k)
                  (elim (Bool-cases (same_key id k)) [
                    | inl s ↦ rw s (
                        sym found
                        ∙ laws.delete_old x id
                        ∙ ap (E.get (E.tree x)) (same_key-eq id k s))
                    | inr s ↦ rw s refl
                  ]
                    ∙ get-writable root te ci cj k same (placed same))
          ])
