-- ===== src/Rows.antt =====
-- bitmap_index.go: the row ids of a table with bitmap indexes, and the sets of ids of the values of
-- a bitmap index. `none` around a result is a panic.
pub mod Ids
pub mod Freed
pub mod Map
pub mod Query
pub mod Values
pub mod Moved
pub mod Tests
use go_maemmidb.Base.{
  ℕ, ◌+◌, ◌%◌, Bool, true, false, List, [], ◌∷◌, Option, none, some, ◌>>=◌, ◌==◌, if◌then◌else◌,
}
use go_maemmidb.Txn.{Key, same_key, Engine, Outcome, ok, failed, Error, index_failed, index_missing}
use go_maemmidb.Pvec.{Vector}
use go_maemmidb.Pvec as Pvec
use go_maemmidb.Bitmap.{Bitmap, uint32_mod}
use go_maemmidb.Bitmap as Bitmap

-- A bitmap index as a write needs it: its name, AllowMissing, and `values`, which stands for
-- compiledIndex.values (an error, no value, or some values).
pub record ValueIndex (Obj : Type 0) : Type 0 where
  pub name : Key
  pub allow_missing : Bool
  pub values : Obj → Option (Option (List Key))

-- The new and the old values of one bitmap index in a write.
pub record ValueMove : Type 0 where
  pub news : List Key
  pub olds : List Key

module _ {Obj : Type 0} where
  -- The values of the row that is replaced, if there is one.
  unfoldable pub old_values : ValueIndex Obj → Option Obj → Option (List Key)
  old_values ci none = some []
  old_values ci (some existing) = elim (ci.values existing) [
    | none ↦ none
    | some none ↦ some []
    | some (some vs) ↦ some vs
  ]

  -- The values of the new row, if there is one.
  unfoldable pub new_values : ValueIndex Obj → Option Obj → Outcome (List Key)
  new_values ci none = ok []
  new_values ci (some obj) = elim (ci.values obj) [
    | none ↦ failed (index_failed ci.name)
    | some none ↦ if ci.allow_missing then ok [] else failed (index_missing ci.name)
    | some (some vs) ↦ ok vs
  ]

  -- One round of the loop of bitmapKeys.
  unfoldable pub value_move : ValueIndex Obj → Option Obj → Option Obj → Outcome ValueMove
  unfolding old_values new_values
  value_move ci obj existing = elim (new_values ci obj) [
    | failed e ↦ failed e
    | ok news ↦ elim (old_values ci existing) [
      | none ↦ failed (index_failed ci.name)
      | some olds ↦ ok (record { news = news; olds = olds })
    ]
  ]

  -- bitmapKeys
  unfoldable pub bitmap_keys :
      List (ValueIndex Obj) → Option Obj → Option Obj → Outcome (List ValueMove)
  unfolding value_move
  bitmap_keys [] obj existing = ok []
  bitmap_keys (ci ∷ cis) obj existing = elim (value_move ci obj existing) [
    | failed e ↦ failed e
    | ok move ↦ elim (bitmap_keys cis obj existing) [
      | failed e ↦ failed e
      | ok moves ↦ ok (move ∷ moves)
    ]
  ]

-- contains
unfoldable pub lists : List Key → Key → Bool
unfolding same_key
lists [] key = false
lists (k ∷ ks) key = let rest = lists ks key in if same_key k key then true else rest

module _ (Obj : Type 0) (EI : Engine ℕ) where
  -- rowsTxn
  pub record RowsTxn : Type 0 where
    pub ids : EI.Work
    pub rows : Vector Obj
    pub all : Bitmap
    pub free : Bitmap
    pub next : ℕ

  -- A new row gets the least free id, or else the next one.
  unfoldable pub fresh_id : RowsTxn → Option (ℕ × RowsTxn)
  unfolding Bitmap.min Bitmap.clear
  fresh_id r = Bitmap.min r.free >>= elim [
    | some id ↦ Bitmap.clear r.free id >>= λ f. some (id, record r { free = f.0 })
    | none ↦
        let after = (r.next + 1) % uint32_mod in
        if after == 0 then none else some (r.next, record r { next = after })
  ]

  -- `r.ids.Insert(idVal, id); r.all, _ = w.bmW.Set(r.all, id)`
  unfoldable pub take_id : Key → ℕ → RowsTxn → Option (ℕ × RowsTxn)
  unfolding Bitmap.set
  take_id id_val id r = Bitmap.set r.all id >>= λ a.
      some (id, record r { ids = (EI.insert r.ids id_val id).1; all = a.0 })

  -- The id of a row that is deleted becomes free.
  unfoldable pub free_id : Key → ℕ → RowsTxn → Option (ℕ × RowsTxn)
  unfolding Bitmap.set Bitmap.clear
  free_id id_val id r = Bitmap.clear r.all id >>= λ a. Bitmap.set r.free id >>= λ f.
      some (id, record r { ids = (EI.delete r.ids id_val).1; all = a.0; free = f.0 })

  -- The switch of applyBitmaps: the row id, and the bookkeeping of ids.
  unfoldable pub row_id : Option Obj → Option Obj → Key → RowsTxn → Option (ℕ × RowsTxn)
  unfolding fresh_id take_id free_id
  row_id obj none id_val r = fresh_id r >>= λ s. take_id id_val s.0 s.1
  row_id none (some existing) id_val r = EI.get (EI.tree r.ids) id_val >>= λ id. free_id id_val id r
  row_id (some obj) (some existing) id_val r = EI.get (EI.tree r.ids) id_val >>= λ id. some (id, r)

  -- `r.rows = w.vecW.Set(r.rows, id, obj)`
  unfoldable pub put_row : Option Obj → ℕ × RowsTxn → ℕ × RowsTxn
  put_row obj (id, r) = (id, record r { rows = Pvec.set Obj r.rows id obj })

  -- applyBitmaps as far as the row ids and the rows go
  unfoldable pub apply_row : Option Obj → Option Obj → Key → RowsTxn → Option (ℕ × RowsTxn)
  unfolding row_id put_row
  apply_row obj existing id_val r = row_id obj existing id_val r >>= λ s. some (put_row obj s)

module _ (EB : Engine Bitmap) where
  -- What becomes of a value's set once the id is cleared from it. The code stores it if it is not
  -- the same tree as before (`!next.Same(set)`): here, if Clear changed it. The two differ where
  -- nodes of this transaction are changed in place, and then the tree has them already.
  unfoldable pub store_cleared : EB.Work → Key → Bitmap × Bool → EB.Work
  store_cleared x key next =
      if Bitmap.is_empty next.0
      then (EB.delete x key).1
      else if next.1
      then (EB.insert x key next.0).1
      else x

  -- One old value of the row.
  unfoldable pub drop_value : ℕ → List Key → EB.Work → Key → Option EB.Work
  unfolding lists store_cleared Bitmap.clear
  drop_value id news x key = if lists news key then some x else elim (EB.get (EB.tree x) key) [
    | none ↦ some x
    | some set ↦ Bitmap.clear set id >>= λ next. some (store_cleared x key next)
  ]

  unfoldable pub drop_values : ℕ → List Key → EB.Work → List Key → Option EB.Work
  unfolding drop_value
  drop_values id news x [] = some x
  drop_values id news x (key ∷ keys) = drop_value id news x key >>= λ y. drop_values id news y keys

  unfoldable pub set_at : EB.Work → Key → Bitmap
  set_at x key = elim (EB.get (EB.tree x) key) [ none ↦ Bitmap.empty | some set ↦ set ]

  -- One new value of the row; of the comparison with `Same` holds what is said above.
  unfoldable pub add_value : ℕ → List Key → EB.Work → Key → Option EB.Work
  unfolding lists set_at Bitmap.set
  add_value id olds x key =
      if lists olds key
      then some x
      else (Bitmap.set (set_at x key) id >>= λ next.
          some (if next.1 then (EB.insert x key next.0).1 else x))

  unfoldable pub add_values : ℕ → List Key → EB.Work → List Key → Option EB.Work
  unfolding add_value
  add_values id olds x [] = some x
  add_values id olds x (key ∷ keys) = add_value id olds x key >>= λ y. add_values id olds y keys

  -- The round of applyBitmaps for one index.
  unfoldable pub apply_values : ℕ → ValueMove → EB.Work → Option EB.Work
  unfolding drop_values add_values
  apply_values id move x =
      drop_values id move.news x move.olds >>= λ y. add_values id move.olds y move.news

  -- The loop of applyBitmaps over the bitmap indexes of the table.
  unfoldable pub apply_indexes : ℕ → List ValueMove → List EB.Work → Option (List EB.Work)
  unfolding apply_values
  apply_indexes id [] xs = some xs
  apply_indexes id (move ∷ moves) [] = some []
  apply_indexes id (move ∷ moves) (x ∷ xs) =
      apply_values id move x >>= λ y. apply_indexes id moves xs >>= λ ys. some (y ∷ ys)

-- applyBitmaps: the bookkeeping of the rows, and the trees of the table's bitmap indexes.
unfoldable pub apply_bitmaps :
    (Obj : Type 0) (EI : Engine ℕ) (EB : Engine Bitmap)
    → Option Obj
    → Option Obj
    → Key
    → List ValueMove
    → RowsTxn Obj EI × List EB.Work
    → Option (RowsTxn Obj EI × List EB.Work)
unfolding apply_row apply_indexes
apply_bitmaps Obj EI EB obj existing id_val moves (r, xs) =
    apply_row Obj EI obj existing id_val r >>= λ s.
    apply_indexes EB s.0 moves xs >>= λ ys. some (s.1, ys)
