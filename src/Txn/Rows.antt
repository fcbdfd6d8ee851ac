-- ===== src/Txn/Rows.antt =====
-- The write of a row by Insert and Delete of txn.go: what a failure leaves in the table's trees.
use go_maemmidb.Base.{ℕ, ◌≡◌, ◌⊎◌, refl, Option, none, some, inl, inr, Bool-cases, Option-cases}
use go_maemmidb.Txn.{
  Key, Error, not_found, Outcome, ok, failed, Engine, Index, Table, Books, build_moves,
}
use go_maemmidb.Txn.Trees.{IsMap}
use go_maemmidb.Txn.Writes.{
  Root, TableTxn, writable, with_index, tree_in, undo, insert_row, build_deletes, write_moves,
  write_deletes, apply_rows, delete_from_indexes, delete_row,
}
use go_maemmidb.Txn.Views.{get-undo, get-not_found, get-restored}

pub Outcome-cases :
    {A : Type 0} (o : Outcome A) → ((e : Error) × (o ≡ failed e)) ⊎ ((a : A) × (o ≡ ok a))
Outcome-cases (failed e) = inl (e, refl)
Outcome-cases (ok a) = inr (a, refl)

-- What holds of the result of a call, unless it panics.
abbrev pub Returning : {A : Type 0} → (A → Type 0) → Option A → Type 0
Returning P none = Unit
Returning P (some a) = P a

module _ {Obj : Type 0} (E : Engine Obj) (B : Books Obj) where
  -- A call that ends in an error leaves what the table's trees read.
  abbrev pub Keeps :
      Root E B → TableTxn E B → Index Obj → Outcome (Option Obj) × TableTxn E B → Type 0
  Keeps root te ci r =
      ((e : Error) × (r.0 ≡ failed e)
        × (r.1.table.ord ≡ te.table.ord)
        × ((cj : Index Obj) (k : Key)
            → (ci.ord ≡ cj.ord → ci.slot ≡ cj.slot)
            → E.get (tree_in E B root r.1 cj) k ≡ E.get (tree_in E B root te cj) k))
      ⊎ ((o : Option Obj) × (r.0 ≡ ok o))

module _ {Obj : Type 0} (E : Engine Obj) (B : Books Obj) (laws : IsMap E) where
  undo_ord :
      (te : TableTxn E B) (ci : Index Obj) (x : E.Work) (id : Key) (o : Option Obj)
      → (undo E B te ci x id o).table.ord ≡ te.table.ord
  unfolding undo with_index
  undo_ord te ci x id none = refl
  undo_ord te ci x id (some was) = refl

  pub insert_row-Keeps :
      (root : Root E B) (te : TableTxn E B) (ct : Table Obj) (id : Key) (obj : Obj)
      → Returning (Keeps E B root te ct.primary) (insert_row E B root te ct id obj)
  unfolding insert_row
  insert_row-Keeps root te ct id obj =
      let r = E.insert (writable E B root te ct.primary) id obj in
      let kept = λ (cj : Index Obj) (k : Key). get-undo E B laws root te ct.primary cj id obj k in
      elim (Outcome-cases (build_moves Obj ct.ordinary obj r.0 id)) [
        | inl (e, s) ↦ rw (insert_row, s) (inl (e, refl, undo_ord te ct.primary r.1 id r.0, kept))
        | inr (moves, s) ↦ elim (Bool-cases ct.has_bitmaps) [
          | inr b ↦ rw (insert_row, s, b) (inr (r.0, refl))
          | inl b ↦ elim (Outcome-cases (B.keys ct (some obj) r.0)) [
            | inl (e, s') ↦
                rw (insert_row, s, s', b) (inl (e, refl, undo_ord te ct.primary r.1 id r.0, kept))
            | inr (bits, s') ↦
                let written =
                  write_moves E B root (with_index E B te ct.primary r.1) ct.ordinary moves obj in
                elim (Option-cases (apply_rows E B root written bits (some obj) r.0 id)) [
                  | inl n ↦ rw (insert_row, s, s', b, n) tt
                  | inr (done, n) ↦ rw (insert_row, s, s', b, n) (inr (r.0, refl))
                ]
          ]
        ]
      ]

  -- The secondary half of Delete fails before it writes.
  delete_from_indexes-unwritten :
      (root : Root E B) (te : TableTxn E B) (ct : Table Obj) (obj : Obj) (id : Key)
      (skip : Option ℕ)
      → (delete_from_indexes E B root te ct obj id skip ≡ none)
        ⊎ ((e : Error) × (delete_from_indexes E B root te ct obj id skip ≡ some (some e, te)))
        ⊎ ((written : TableTxn E B) × (delete_from_indexes E B root te ct obj id skip
              ≡ some (none, written)))
  unfolding delete_from_indexes
  delete_from_indexes-unwritten root te ct obj id skip =
      elim (Outcome-cases (build_deletes Obj ct.ordinary skip obj id)) [
        | inl (e, s) ↦ rw (delete_from_indexes, s) (inr (inl (e, refl)))
        | inr (olds, s) ↦ elim (Bool-cases ct.has_bitmaps) [
          | inr b ↦ rw (delete_from_indexes, s, b) (inr (inr (_, refl)))
          | inl b ↦ elim (Outcome-cases (B.keys ct none (some obj))) [
            | inl (e, s') ↦ rw (delete_from_indexes, s, s', b) (inr (inl (e, refl)))
            | inr (bits, s') ↦
                let written = write_deletes E B root te ct.ordinary olds in
                elim (Option-cases (apply_rows E B root written bits none (some obj) id)) [
                  | inl n ↦ rw (delete_from_indexes, s, s', b, n) (inl refl)
                  | inr (done, n) ↦ rw (delete_from_indexes, s, s', b, n) (inr (inr (done, refl)))
                ]
          ]
        ]
      ]

  pub delete_row-Keeps :
      (root : Root E B) (te : TableTxn E B) (ct : Table Obj) (id : Key)
      → Returning (Keeps E B root te ct.primary) (delete_row E B root te ct id)
  unfolding delete_row with_index
  delete_row-Keeps root te ct id =
      let r = E.delete (writable E B root te ct.primary) id in
      let cut = with_index E B te ct.primary r.1 in
      elim (Option-cases r.0) [
        | inl gone ↦
            rw (delete_row, gone)
              (inl (
                not_found,
                refl,
                refl,
                λ cj k placed. get-not_found E B laws root te ct.primary cj id k placed gone,
              ))
        | inr (was, found) ↦ elim (delete_from_indexes-unwritten root cut ct was id none) [
          | inl s ↦ rw (delete_row, found, s) tt
          | inr (inl (e, s)) ↦
              rw (delete_row, found, s)
                (inl (
                  e,
                  refl,
                  refl,
                  λ cj k placed. get-restored E B laws root te ct.primary cj id was k placed found,
                ))
          | inr (inr (done, s)) ↦ rw (delete_row, found, s) (inr (some was, refl))
        ]
      ]
