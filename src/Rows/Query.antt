-- ===== src/Rows/Query.antt =====
-- bitmap_index.go: RowSet, and the queries Where and AllRows once the index and the value are known.
-- `none` around a result is a panic. A row set's table is known by its position.
use go_maemmidb.Base.{
  ℕ, ◌^◌, ◌<◌, ◌≡◌, refl, ap, ◌∙◌, Bool, true, false, ◌&&◌, ◌||◌, not, arith, List, [], ◌∷◌, Option,
  none, some, ◌>>=◌, ◌==◌, if◌then◌else◌, Every,
}
use go_maemmidb.Txn.{Key, Engine}
use go_maemmidb.Pvec.{Vector}
use go_maemmidb.Bitmap as Bitmap
use go_maemmidb.Bitmap.{Bitmap, Node}
use go_maemmidb.Bitmap.Height.{contains, IsShapedBitmap}
use go_maemmidb.Bitmap.Ops.{and, or, and_not}
use go_maemmidb.Bitmap.Ops.Slots.{IsIdentity}
use go_maemmidb.Bitmap.Ops.Levels.{empty-shaped}
use go_maemmidb.Bitmap.Removing.{nothing_in}
use go_maemmidb.Bitmap.Ops.Filled.{IsFilledBitmap}
use go_maemmidb.Bitmap.Ops.Laws.{contains-and, contains-or, contains-and_not}

-- A well-shaped set without an empty directory.
abbrev pub IsSolid : Bitmap → Type 0
IsSolid b = IsShapedBitmap b × IsFilledBitmap b

pub record RowSet (Obj : Type 0) : Type 0 where
  pub table : ℕ
  pub rows : Vector Obj
  pub bits : Bitmap

-- `same_rows` is the comparison of two vectors' pointers, `same` that of two nodes of a set.
module _ {Obj : Type 0} (same_rows : Vector Obj → Vector Obj → Bool)
    (same : (h : ℕ) → Node h → Node h → Bool) where
  -- RowSet.with: `true` if the two sets can be combined
  unfoldable pub fits_with : RowSet Obj → RowSet Obj → Bool
  fits_with s o = s.table == o.table && same_rows s.rows o.rows

  -- The loop that And, Or and AndNot share.
  unfoldable pub combine :
      (Bitmap → Bitmap → Option Bitmap) → RowSet Obj → List (RowSet Obj) → Option (RowSet Obj)
  unfolding fits_with
  combine op s [] = some s
  combine op s (o ∷ others) =
      let rest = op s.bits o.bits >>= λ b. combine op (record s { bits = b }) others in
      if fits_with s o then rest else none

  -- RowSet.And
  unfoldable pub and_rows : RowSet Obj → List (RowSet Obj) → Option (RowSet Obj)
  unfolding combine
  and_rows s others = combine (λ a b. and same a b) s others

  -- RowSet.Or
  unfoldable pub or_rows : RowSet Obj → List (RowSet Obj) → Option (RowSet Obj)
  unfolding combine
  or_rows s others = combine (λ a b. or same a b) s others

  -- RowSet.AndNot
  unfoldable pub and_not_rows : RowSet Obj → List (RowSet Obj) → Option (RowSet Obj)
  unfolding combine
  and_not_rows s others = combine (λ a b. and_not same a b) s others

  -- Where without a prefix: the set of one value
  unfoldable pub where_value : (EB : Engine Bitmap) → ℕ → Vector Obj → EB.Tree → Key → RowSet Obj
  where_value EB table rows tree val = elim (EB.get tree val) [
    | none ↦ record { table = table; rows = rows; bits = Bitmap.empty }
    | some bits ↦ record { table = table; rows = rows; bits = bits }
  ]

  -- The loop of Where over the sets of the values that start with a prefix.
  unfoldable pub or_all : Bitmap → List Bitmap → Option Bitmap
  or_all bits [] = some bits
  or_all bits (b ∷ bs) = or same bits b >>= λ c. or_all c bs

  -- Where with a prefix; the sets are what the engine's iterator gives
  unfoldable pub where_prefix : ℕ → Vector Obj → List Bitmap → Option (RowSet Obj)
  unfolding or_all
  where_prefix table rows sets =
      or_all Bitmap.empty sets >>= λ b. some (record { table = table; rows = rows; bits = b })

  -- AllRows
  unfoldable pub all_rows : ℕ → Vector Obj → Bitmap → RowSet Obj
  all_rows table rows all = record { table = table; rows = rows; bits = all }

  -- The other sets can be combined with s, and are as P says.
  abbrev pub IsFitting : (Bitmap → Type 0) → RowSet Obj → List (RowSet Obj) → Type 0
  IsFitting P s [] = Unit
  IsFitting P s (o ∷ others) = (fits_with s o ≡ true) × P o.bits × IsFitting P s others

  -- Whether an id is in all, or in any, of some sets.
  abbrev pub in_all : List (RowSet Obj) → ℕ → Bool
  in_all [] j = true
  in_all (o ∷ others) j = contains o.bits j && in_all others j

  abbrev pub in_any : List (RowSet Obj) → ℕ → Bool
  in_any [] j = false
  in_any (o ∷ others) j = contains o.bits j || in_any others j

  IsFitting-bits :
      (P : Bitmap → Type 0) (s : RowSet Obj) (b : Bitmap) (others : List (RowSet Obj))
      → IsFitting P s others
      → IsFitting P (record s { bits = b }) others
  unfolding fits_with
  IsFitting-bits P s b [] f = tt
  IsFitting-bits P s b (o ∷ others) (fit, sound, rest) =
      (fit, sound, IsFitting-bits P s b others rest)

  IsFitting-shaped :
      (s : RowSet Obj) (others : List (RowSet Obj))
      → IsFitting IsSolid s others
      → IsFitting IsShapedBitmap s others
  IsFitting-shaped s [] f = tt
  IsFitting-shaped s (o ∷ others) (fit, (shaped, filled), rest) =
      (fit, shaped, IsFitting-shaped s others rest)

  folded : (Bool → Bool → Bool) → Bool → List (RowSet Obj) → ℕ → Bool
  folded f b [] j = b
  folded f b (o ∷ others) j = folded f (f b (contains o.bits j)) others j

  -- An operation on sets that gives f of an id.
  abbrev Gives :
      (Bitmap → Type 0) → (Bitmap → Bitmap → Option Bitmap) → (Bool → Bool → Bool) → ℕ → Type 0
  Gives P op f j =
      (a b : Bitmap)
      → P a
      → P b
      → (c : Bitmap) × (op a b ≡ some c) × P c × (contains c j ≡ f (contains a j) (contains b j))

  combine-folded :
      (P : Bitmap → Type 0) (op : Bitmap → Bitmap → Option Bitmap) (f : Bool → Bool → Bool) (j : ℕ)
      → Gives P op f j
      → (s : RowSet Obj) (others : List (RowSet Obj)) → P s.bits
      → IsFitting P s others
      → (r : RowSet Obj) × (combine op s others ≡ some r)
        × (contains r.bits j ≡ folded f (contains s.bits j) others j)
  unfolding combine folded
  combine-folded P op f j law s [] shaped fit = (s, refl, refl)
  combine-folded P op f j law s (o ∷ others) shaped (fit, shaped', rest) =
      let (c, run, shaped'', ids) = law s.bits o.bits shaped shaped' in
      let t : RowSet Obj = record s { bits = c } in
      let (r, run', ids') =
        combine-folded P op f j law t others shaped'' (IsFitting-bits P s c others rest) in
      (r, rw (fit, run) run', ids' ∙ ap (λ b. folded f b others j) ids)

  folded_and :
      (b : Bool) (others : List (RowSet Obj)) (j : ℕ)
      → folded (λ x y. x && y) b others j ≡ (b && in_all others j)
  unfolding folded
  folded_and b [] j = ground arith
  folded_and b (o ∷ others) j = folded_and (b && contains o.bits j) others j ∙ (ground arith)

  folded_or :
      (b : Bool) (others : List (RowSet Obj)) (j : ℕ)
      → folded (λ x y. x || y) b others j ≡ (b || in_any others j)
  unfolding folded
  folded_or b [] j = ground arith
  folded_or b (o ∷ others) j = folded_or (b || contains o.bits j) others j ∙ (ground arith)

  folded_and_not :
      (b : Bool) (others : List (RowSet Obj)) (j : ℕ)
      → folded (λ x y. x && not y) b others j ≡ (b && not (in_any others j))
  unfolding folded
  folded_and_not b [] j = ground arith
  folded_and_not b (o ∷ others) j =
      folded_and_not (b && not (contains o.bits j)) others j ∙ (ground arith)

  or-IsSolid :
      IsIdentity same
      → (a b : Bitmap) (j : ℕ) → IsSolid a
      → IsSolid b
      → j < 2 ^ 32
      → (c : Bitmap) × (or same a b ≡ some c)
        × IsSolid c
        × (contains c j ≡ (contains a j || contains b j))
  or-IsSolid id a b j (sa, fa) (sb, fb) small =
      let (c, run, shaped, filled, ids) = contains-or same id a b j sa sb fa fb small in
      (c, run, (shaped, filled), ids)

  -- If the comparison of nodes only identifies equal nodes, sets of one table and one state of it,
  -- all well shaped and without an empty directory, are combined without a panic: of the ids below 2 ^ 32, And gives those of the
  -- first set that are in every other, Or those that are in any of them, and AndNot those of the
  -- first set that are in no other.
  pub contains-combine :
      IsIdentity same
      → (s : RowSet Obj) (others : List (RowSet Obj)) (j : ℕ) → IsSolid s.bits
      → IsFitting IsSolid s others
      → j < 2 ^ 32
      → ((r : RowSet Obj) × (and_rows s others ≡ some r)
          × (contains r.bits j ≡ (contains s.bits j && in_all others j)))
        × ((r : RowSet Obj) × (or_rows s others ≡ some r)
            × (contains r.bits j ≡ (contains s.bits j || in_any others j)))
        × ((r : RowSet Obj) × (and_not_rows s others ≡ some r)
            × (contains r.bits j ≡ (contains s.bits j && not (in_any others j))))
  unfolding and_rows or_rows and_not_rows
  contains-combine id s others j (shaped, filled) fit small =
      let fit' = IsFitting-shaped s others fit in
      let (r1, run1, e1) =
        combine-folded IsShapedBitmap (λ a b. and same a b) (λ x y. x && y) j
          (λ a b p q. contains-and same id a b j p q small) s others shaped fit' in
      let (r2, run2, e2) =
        combine-folded IsSolid (λ a b. or same a b) (λ x y. x || y) j
          (λ a b p q. or-IsSolid id a b j p q small) s others (shaped, filled) fit in
      let (r3, run3, e3) =
        combine-folded IsShapedBitmap (λ a b. and_not same a b) (λ x y. x && not y) j
          (λ a b p q. contains-and_not same id a b j p q small) s others shaped fit' in
      (
        (r1, run1, e1 ∙ folded_and (contains s.bits j) others j),
        (r2, run2, e2 ∙ folded_or (contains s.bits j) others j),
        (r3, run3, e3 ∙ folded_and_not (contains s.bits j) others j),
      )

  abbrev pub any_holds : List Bitmap → ℕ → Bool
  any_holds [] j = false
  any_holds (b ∷ bs) j = contains b j || any_holds bs j

  contains-or_all :
      IsIdentity same
      → (b : Bitmap) (bs : List Bitmap) (j : ℕ) → IsSolid b
      → Every IsSolid bs
      → j < 2 ^ 32
      → (c : Bitmap) × (or_all b bs ≡ some c) × (contains c j ≡ (contains b j || any_holds bs j))
  unfolding or_all
  contains-or_all id b [] j shaped all small = (b, refl, ground arith)
  contains-or_all id b (d ∷ bs) j shaped (shaped', all) small =
      let (c, run, shaped'', ids) = or-IsSolid id b d j shaped shaped' small in
      let (r, run', ids') = contains-or_all id c bs j shaped'' all small in
      (r, rw run run', ids' ∙ rw ids (ground arith))

  -- If the comparison of nodes only identifies equal nodes and the sets of the values with a prefix
  -- are well shaped and without an empty directory, Where with the prefix does not panic, and its
  -- set holds of the ids below 2 ^ 32 those that are in the set of any of the values.
  pub contains-where_prefix :
      IsIdentity same
      → (table : ℕ) (rows : Vector Obj) (sets : List Bitmap) (j : ℕ) → Every IsSolid sets
      → j < 2 ^ 32
      → (r : RowSet Obj) × (where_prefix table rows sets ≡ some r)
        × (contains r.bits j ≡ any_holds sets j)
  unfolding where_prefix
  contains-where_prefix id table rows sets j all small =
      let (c, run, ids) =
        contains-or_all id Bitmap.empty sets j (empty-shaped, λ n e. cc) all small in
      (record { table = table; rows = rows; bits = c }, rw run refl, ids ∙ rw (nothing_in j) refl)
