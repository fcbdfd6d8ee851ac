-- ===== src/Txn/Puts.antt =====
-- The write of a row by Insert and Delete of txn.go: what a success leaves in the primary index.
use go_maemmidb.Base.{
  ◌≡◌, ◌⊎◌, refl, ap, sym, ◌∙◌, bind-some, false, List, [], ◌∷◌, Option, none, some, ◌==◌, ==_iff,
  if◌then◌else◌, inl, inr, Bool-cases, Option-cases, Every,
}
use go_maemmidb.Txn.{
  Key, Error, not_found, Outcome, ok, failed, Engine, Index, Table, Books, Move, build_moves,
  same_key, apply_move,
}
use go_maemmidb.Txn.Trees.{IsMap}
use go_maemmidb.Txn.Writes.{
  Root, TableTxn, writable, with_index, tree_in, write_moves, write_deletes, delete_keys,
  apply_rows, rows_of, insert_row, build_deletes, delete_from_indexes, delete_row,
}
use go_maemmidb.Txn.Rows.{Outcome-cases, Returning}
use go_maemmidb.Txn.Views.{tree_in-with_index, get-writable}

-- No ordinary index stands at the position of the primary index.
abbrev pub IsApart : {Obj : Type 0} → Table Obj → Type 0
IsApart ct = Every (λ ci. (ci.ord == ct.primary.ord) ≡ false) ct.ordinary

module _ {Obj : Type 0} (E : Engine Obj) (B : Books Obj) where
  -- Writes to other indexes leave the tree of an index.
  tree_in-write_moves :
      (root : Root E B) (te : TableTxn E B) (cis : List (Index Obj)) (moves : List Move) (obj : Obj)
      (cj : Index Obj)
      → Every (λ ci. (ci.ord == cj.ord) ≡ false) cis
      → tree_in E B root (write_moves E B root te cis moves obj) cj ≡ tree_in E B root te cj
  unfolding write_moves
  tree_in-write_moves root te [] moves obj cj apart = refl
  tree_in-write_moves root te (ci ∷ cis) [] obj cj apart = refl
  tree_in-write_moves root te (ci ∷ cis) (move ∷ moves) obj cj apart =
      tree_in-write_moves root
        (with_index E B te ci (apply_move E (writable E B root te ci) move obj)) cis moves obj cj
        apart.1
      ∙ tree_in-with_index E B root te ci cj _
      ∙ rw apart.0 refl

  tree_in-write_deletes :
      (root : Root E B) (te : TableTxn E B) (cis : List (Index Obj)) (olds : List (List Key))
      (cj : Index Obj)
      → Every (λ ci. (ci.ord == cj.ord) ≡ false) cis
      → tree_in E B root (write_deletes E B root te cis olds) cj ≡ tree_in E B root te cj
  unfolding write_deletes
  tree_in-write_deletes root te [] olds cj apart = refl
  tree_in-write_deletes root te (ci ∷ cis) [] cj apart = refl
  tree_in-write_deletes root te (ci ∷ cis) ([] ∷ olds) cj apart =
      tree_in-write_deletes root te cis olds cj apart.1
  tree_in-write_deletes root te (ci ∷ cis) ((k ∷ ks) ∷ olds) cj apart =
      tree_in-write_deletes root
        (with_index E B te ci (delete_keys E B (writable E B root te ci) (k ∷ ks))) cis olds cj
        apart.1
      ∙ tree_in-with_index E B root te ci cj _
      ∙ rw apart.0 refl

  ord-write_moves :
      (root : Root E B) (te : TableTxn E B) (cis : List (Index Obj)) (moves : List Move) (obj : Obj)
      → (write_moves E B root te cis moves obj).table.ord ≡ te.table.ord
  unfolding write_moves with_index
  ord-write_moves root te [] moves obj = refl
  ord-write_moves root te (ci ∷ cis) [] obj = refl
  ord-write_moves root te (ci ∷ cis) (move ∷ moves) obj =
      ord-write_moves root (with_index E B te ci (apply_move E (writable E B root te ci) move obj))
        cis moves obj

  ord-write_deletes :
      (root : Root E B) (te : TableTxn E B) (cis : List (Index Obj)) (olds : List (List Key))
      → (write_deletes E B root te cis olds).table.ord ≡ te.table.ord
  unfolding write_deletes with_index
  ord-write_deletes root te [] olds = refl
  ord-write_deletes root te (ci ∷ cis) [] = refl
  ord-write_deletes root te (ci ∷ cis) ([] ∷ olds) = ord-write_deletes root te cis olds
  ord-write_deletes root te (ci ∷ cis) ((k ∷ ks) ∷ olds) =
      ord-write_deletes root
        (with_index E B te ci (delete_keys E B (writable E B root te ci) (k ∷ ks))) cis olds

  -- The bitmap half of a write leaves the trees of the ordinary indexes.
  apply_rows_lem :
      (root : Root E B) (te done : TableTxn E B) (moves : B.Moves) (obj existing : Option Obj)
      (id : Key)
      → apply_rows E B root te moves obj existing id ≡ some done
      → (done.table.ord ≡ te.table.ord)
        × ((cj : Index Obj) → tree_in E B root done cj ≡ tree_in E B root te cj)
  unfolding apply_rows tree_in
  apply_rows_lem root te done moves obj existing id e =
      let (rows, _, e') =
        bind-some (B.apply moves obj existing id (rows_of E B root te))
          (λ rows. some (record te { rows = some rows })) done e in
      let same : record te { rows = some rows } ≡ done = cc in
      (
        ap (λ (t : TableTxn E B). t.table.ord) (sym same),
        λ cj. ap (λ t. tree_in E B root t cj) (sym same),
      )

  -- A write of a row that succeeds leaves `f` at its primary key.
  abbrev pub Puts :
      Root E B
      → TableTxn E B
      → Table Obj
      → Key
      → Option Obj
      → Outcome (Option Obj) × TableTxn E B
      → Type 0
  Puts root te ct id f r =
      ((e : Error) × (r.0 ≡ failed e))
      ⊎ ((o : Option Obj) × (r.0 ≡ ok o)
          × (r.1.table.ord ≡ te.table.ord)
          × ((k : Key)
              → E.get (tree_in E B root r.1 ct.primary) k
                ≡ (if same_key id k then f else E.get (tree_in E B root te ct.primary) k)))

  module _ (laws : IsMap E) where
    -- The primary index after its write, whatever happens to the other indexes.
    get-primary :
        (root : Root E B) (te written : TableTxn E B) (ct : Table Obj) (id : Key) (obj : Obj)
        (k : Key)
        → tree_in E B root written ct.primary
          ≡ tree_in E B root
              (with_index E B te ct.primary (E.insert (writable E B root te ct.primary) id obj).1)
              ct.primary
        → E.get (tree_in E B root written ct.primary) k
          ≡ (if same_key id k then some obj else E.get (tree_in E B root te ct.primary) k)
    get-primary root te written ct id obj k same =
        let x = writable E B root te ct.primary in
        ap (λ t. E.get t k)
          (same ∙ tree_in-with_index E B root te ct.primary ct.primary (E.insert x id obj).1)
        ∙ rw ((==_iff ct.primary.ord ct.primary.ord).1 refl) (
            laws.get-insert x id obj k
            ∙ ap (λ o. if same_key id k then some obj else o)
                (get-writable E B laws root te ct.primary ct.primary k refl refl))

    pub insert_row-Puts :
        (root : Root E B) (te : TableTxn E B) (ct : Table Obj) (id : Key) (obj : Obj)
        → IsApart ct
        → Returning (Puts root te ct id (some obj)) (insert_row E B root te ct id obj)
    unfolding insert_row with_index
    insert_row-Puts root te ct id obj apart =
        let r = E.insert (writable E B root te ct.primary) id obj in
        let cut = with_index E B te ct.primary r.1 in
        elim (Outcome-cases (build_moves Obj ct.ordinary obj r.0 id)) [
          | inl (e, s) ↦ rw (insert_row, s) (inl (e, refl))
          | inr (moves, s) ↦
              let written = write_moves E B root cut ct.ordinary moves obj in
              let same = tree_in-write_moves root cut ct.ordinary moves obj ct.primary apart in
              let ord = ord-write_moves root cut ct.ordinary moves obj in
              elim (Bool-cases ct.has_bitmaps) [
                | inr b ↦
                    rw (insert_row, s, b)
                      (inr (r.0, refl, ord, λ k. get-primary root te written ct id obj k same))
                | inl b ↦ elim (Outcome-cases (B.keys ct (some obj) r.0)) [
                  | inl (e, s') ↦ rw (insert_row, s, s', b) (inl (e, refl))
                  | inr (bits, s') ↦
                      elim (Option-cases (apply_rows E B root written bits (some obj) r.0 id)) [
                        | inl n ↦ rw (insert_row, s, s', b, n) tt
                        | inr (done, n) ↦
                            let (ord', same') =
                              apply_rows_lem root written done bits (some obj) r.0 id n in
                            rw (insert_row, s, s', b, n)
                              (inr (
                                r.0,
                                refl,
                                ord' ∙ ord,
                                λ k. get-primary root te done ct id obj k (same' ct.primary ∙ same),
                              ))
                      ]
                ]
              ]
        ]

    -- The secondary half of Delete leaves the primary index alone.
    delete_from_indexes-primary :
        (root : Root E B) (te : TableTxn E B) (ct : Table Obj) (was : Obj) (id : Key)
        → IsApart ct
        → Returning
            (λ r.
              (tree_in E B root r.1 ct.primary ≡ tree_in E B root te ct.primary)
              × (r.1.table.ord ≡ te.table.ord))
            (delete_from_indexes E B root te ct was id none)
    unfolding delete_from_indexes
    delete_from_indexes-primary root te ct was id apart =
        elim (Outcome-cases (build_deletes Obj ct.ordinary none was id)) [
          | inl (e, s) ↦ rw (delete_from_indexes, s) (refl, refl)
          | inr (olds, s) ↦
              let written = write_deletes E B root te ct.ordinary olds in
              let same = tree_in-write_deletes root te ct.ordinary olds ct.primary apart in
              let ord = ord-write_deletes root te ct.ordinary olds in
              elim (Bool-cases ct.has_bitmaps) [
                | inr b ↦ rw (delete_from_indexes, s, b) (same, ord)
                | inl b ↦ elim (Outcome-cases (B.keys ct none (some was))) [
                  | inl (e, s') ↦ rw (delete_from_indexes, s, s', b) (refl, refl)
                  | inr (bits, s') ↦
                      elim (Option-cases (apply_rows E B root written bits none (some was) id)) [
                        | inl n ↦ rw (delete_from_indexes, s, s', b, n) tt
                        | inr (done, n) ↦
                            let (ord', same') =
                              apply_rows_lem root written done bits none (some was) id n in
                            rw (delete_from_indexes, s, s', b, n)
                              (same' ct.primary ∙ same, ord' ∙ ord)
                      ]
                ]
              ]
        ]

    pub delete_row-Puts :
        (root : Root E B) (te : TableTxn E B) (ct : Table Obj) (id : Key)
        → IsApart ct
        → Returning (Puts root te ct id none) (delete_row E B root te ct id)
    unfolding delete_row with_index
    delete_row-Puts root te ct id apart =
        let x = writable E B root te ct.primary in
        let r = E.delete x id in
        let cut = with_index E B te ct.primary r.1 in
        elim (Option-cases r.0) [
          | inl gone ↦ rw (delete_row, gone) (inl (not_found, refl))
          | inr (was, found) ↦
              elim (Option-cases (delete_from_indexes E B root cut ct was id none)) [
                | inl n ↦ rw (delete_row, found, n) tt
                | inr (inner, n) ↦
                    let (same, ord) =
                      rw n at (delete_from_indexes-primary root cut ct was id apart) in
                    elim (Option-cases inner.0) [
                      | inr (e, s) ↦ rw (delete_row, found, n, s) (inl (e, refl))
                      | inl s ↦
                          rw (delete_row, found, n, s)
                            (inr (
                              some was,
                              refl,
                              ord,
                              λ k.
                                  ap (λ t. E.get t k)
                                    (same
                                      ∙ tree_in-with_index E B root te ct.primary ct.primary r.1)
                                  ∙ rw ((==_iff ct.primary.ord ct.primary.ord).1 refl) (
                                      laws.get-delete x id k
                                      ∙ ap (λ o. if same_key id k then none else o)
                                          (get-writable E B laws root te ct.primary ct.primary k
                                            refl refl)),
                            ))
                    ]
              ]
        ]
