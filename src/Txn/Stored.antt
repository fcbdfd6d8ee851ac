-- ===== src/Txn/Stored.antt =====
-- Insert and Delete of txn.go that succeed: what the primary index holds afterwards.
use go_maemmidb.Base.{
  ◌≡◌, refl, ap, sym, subst, ◌∙◌, Bool, true, false, Option, none, some, ◌==◌, ==_iff,
  if◌then◌else◌, inl, inr, bind-some,
}
use go_maemmidb.Txn.{Key, Outcome, ok, failed, Engine, Table, Books, primary_key, same_key}
use go_maemmidb.Txn.Trees.{IsMap}
use go_maemmidb.Txn.Writes.{
  Root, TableTxn, Txn, Step, run_row, run_key, run_table, run_write, entry, put, tree_in,
  readable_index, finish, insert, delete,
}
use go_maemmidb.Txn.Rows.{Returning}
use go_maemmidb.Txn.Puts.{IsApart, Puts, insert_row-Puts, delete_row-Puts}
use go_maemmidb.Txn.Views.{reads, tree_in-entry, entry_ord, readable_index-put}

module _ {Obj : Type 0} (E : Engine Obj) (B : Books Obj) where
  module _ (laws : IsMap E) where
    finish-stored :
        (txn t : Txn E B) (name : Key) (o : Option Obj) (id : Key)
        (r : Outcome (Option Obj) × TableTxn E B)
        → finish E B txn name o id r ≡ (ok tt, t)
        → (a : Option Obj) × (r.0 ≡ ok a)
          × (t.root ≡ txn.root)
          × (t.tables ≡ put E B txn.tables r.1)
    unfolding finish
    finish-stored txn t name o id (failed e, te) ran =
        let clash : failed e ≡ ok tt = ap (λ p. p.0) ran in cc
    finish-stored txn t name o id (ok a, te) ran =
        (a, refl, ap (λ p. p.1.root) (sym ran), ap (λ p. p.1.tables) (sym ran))

    module _ (step : Step E B) (f : Option Obj) (ct : Table Obj) (id : Key)
        (puts : (root : Root E B) (te : TableTxn E B)
          → Returning (Puts E B root te ct id f) (step root te ct id)) where
      stored_entry :
          (txn t : Txn E B) (root : Root E B) (te : TableTxn E B) (k : Key)
          → txn.root ≡ some root
          → t.root ≡ txn.root
          → t.tables ≡ put E B txn.tables te
          → te.table.ord ≡ ct.ord
          → E.get (tree_in E B root te ct.primary) k ≡ (
              if same_key id k
              then f
              else E.get (tree_in E B root (entry E B txn.tables ct) ct.primary) k)
          → reads E B t ct.ord ct.primary k
            ≡ (if same_key id k then f else reads E B txn ct.ord ct.primary k)
      unfolding reads
      stored_entry txn t root te k at same tables ord gets =
          let here : (te.table.ord == ct.ord) ≡ true = (==_iff te.table.ord ct.ord).1 ord in
          let now : readable_index E B root t.tables ct.ord ct.primary
              ≡ tree_in E B root te ct.primary =
            ap (λ ts. readable_index E B root ts ct.ord ct.primary) tables
            ∙ readable_index-put E B root txn.tables te ct.ord ct.primary
            ∙ rw here refl in
          let before = tree_in-entry E B root txn.tables ct ct.primary in
          let whole : t.root ≡ some root = same ∙ at in rw (reads, whole, at, now, ← before) gets

      run_row-stored :
          (txn t : Txn E B) (root : Option (Root E B)) (name : Key) (o : Option Obj) (k : Key)
          → txn.root ≡ root
          → run_row E B txn root ct name o id step ≡ some (ok tt, t)
          → reads E B t ct.ord ct.primary k
            ≡ (if same_key id k then f else reads E B txn ct.ord ct.primary k)
      unfolding run_row
      run_row-stored txn t none name o k at ran = cc
      run_row-stored txn t (some root) name o k at ran =
          let te = entry E B txn.tables ct in
          let (r, stepped, e) =
            bind-some (step root te ct id) (λ r. some (finish E B txn name o id r)) (ok tt, t)
              ran in
          let done : finish E B txn name o id r ≡ (ok tt, t) = cc in
          let (a, fine, roots, tables) = finish-stored txn t name o id r done in
          elim (subst (Returning (Puts E B root te ct id f)) stepped (puts root te)) [
            | inl (e, s) ↦ cc
            | inr (a', s, ord, gets) ↦
                stored_entry txn t root r.1 k at roots tables (ord ∙ entry_ord E B txn.tables ct)
                  (gets k)
          ]

      run_write-stored :
          (txn t : Txn E B) (w : Bool) (found : Option (Table Obj)) (name : Key) (obj : Obj)
          (o : Option Obj) (k : Key)
          → found ≡ some ct
          → primary_key Obj ct obj ≡ ok id
          → run_write E B txn w found name obj o step ≡ some (ok tt, t)
          → reads E B t ct.ord ct.primary k
            ≡ (if same_key id k then f else reads E B txn ct.ord ct.primary k)
      unfolding run_write run_table run_key
      run_write-stored txn t false found name obj o k at key ran = cc
      run_write-stored txn t true none name obj o k at key ran = cc
      run_write-stored txn t true (some ct') name obj o k at key ran =
          let same : ct' ≡ ct = cc in
          let ran' : run_key E B txn ct name o (primary_key Obj ct obj) step ≡ some (ok tt, t) =
            subst (λ c. run_key E B txn c name o (primary_key Obj c obj) step ≡ some (ok tt, t))
              same ran in
          run_row-stored txn t txn.root name o k refl
            (subst (λ i. run_key E B txn ct name o i step ≡ some (ok tt, t)) key ran')

    module _ (tables : Key → Option (Table Obj)) where
      -- Over an engine whose trees are maps: after an Insert that succeeds, the transaction reads the object at its primary key, and
      -- what it read before at every other key of the primary index, whether the row is new or an
      -- update, given that no ordinary index of the table stands at the primary index's position.
      pub insert-stored :
          (txn t : Txn E B) (name : Key) (obj : Obj) (ct : Table Obj) (id k : Key)
          → IsApart ct
          → tables name ≡ some ct
          → primary_key Obj ct obj ≡ ok id
          → insert E B tables txn name obj ≡ some (ok tt, t)
          → reads E B t ct.ord ct.primary k
            ≡ (if same_key id k then some obj else reads E B txn ct.ord ct.primary k)
      unfolding insert
      insert-stored txn t name obj ct id k apart at key ran =
          run_write-stored _ (some obj) ct id
            (λ root te. insert_row-Puts E B laws root te ct id obj apart) txn t txn.write
            (tables name) name obj (some obj) k at key ran

      -- Over an engine whose trees are maps: after a Delete that succeeds, the transaction reads nothing at the object's primary key,
      -- and what it read before at every other key of the primary index, given that no ordinary
      -- index of the table stands at the primary index's position.
      pub delete-stored :
          (txn t : Txn E B) (name : Key) (obj : Obj) (ct : Table Obj) (id k : Key)
          → IsApart ct
          → tables name ≡ some ct
          → primary_key Obj ct obj ≡ ok id
          → delete E B tables txn name obj ≡ some (ok tt, t)
          → reads E B t ct.ord ct.primary k
            ≡ (if same_key id k then none else reads E B txn ct.ord ct.primary k)
      unfolding delete
      delete-stored txn t name obj ct id k apart at key ran =
          run_write-stored _ none ct id (λ root te. delete_row-Puts E B laws root te ct id apart)
            txn t txn.write (tables name) name obj none k at key ran
